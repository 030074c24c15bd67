-- ===== src/Withdrawal/Delivery.antt =====
-- app/src/withdrawal/mod.rs: the listener may be called many times for one output, and debits the
-- reservation once.
use laas_api.Base.{
  ◌≡◌, refl, ap, ◌∙◌, sym, subst, true, false, ==_refl, Option, some, none, find, find-upsert_self,
  find-upsert_only, Option-cases, Bool-cases, Outcome, ok, err, panic, inl, inr, arith, >>=-eq-ok,
  Never, ◌>>=◌, if◌then◌else◌,
}
use laas_api.Int.{ℤ, eqb_ℤ, eqb_ℤ_iff}
use laas_api.Btc.{TxId, TxOut, tx_is_confirmed}
use laas_api.Database.{Database}
use laas_api.Database.Transactions.{Surroundings, transaction}
use laas_api.Balance.{Reservation, pending, debited}
use laas_api.Balance.Queries.{get_reservation, with_reservation}
use laas_api.Balance.Updates.{upsert_reservation-eq, get_reservation-with_reservation}
use laas_api.Deposit.Queries.{is_tx_out, tx_out_row}
use laas_api.Withdrawal.{Withdrawal, is_confirmed, confirm}
use laas_api.Withdrawal.Outcomes.{confirm-ok}
use laas_api.Withdrawal.Rows.{
  upsert_withdrawal, with_withdrawal, get_by_tx_out, is_withdrawal_of, withdrawal_row,
  has_withdrawal_id, is_taken,
}
use laas_api.Withdrawal.Service.{process, settle, settle_found}

-- The withdrawal after its confirmation by an output.
abbrev pub confirmed_by : Surroundings → TxOut → Withdrawal → Withdrawal
confirmed_by env out w = record w { tx_out = some out; confirmed = some env.now }

-- A withdrawal as it is read back with an output: with its own address and amount.
abbrev pub read_back : TxOut → Withdrawal → Withdrawal
read_back out w = record w { tx_out = some (record out { address = w.address; amount = w.amount }) }

eqb_ℤ_refl : (a : ℤ) → eqb_ℤ a a ≡ true
eqb_ℤ_refl a = (eqb_ℤ_iff a a).1 refl

upsert_withdrawal-inv :
    (db db' : Database) (w : Withdrawal)
    → upsert_withdrawal {E = Never} db w ≡ ok db'
    → (find (is_taken w.tx_out w.id) db.withdrawals ≡ none) × (db' ≡ with_withdrawal db w)
unfolding upsert_withdrawal
upsert_withdrawal-inv db db' w h =
    elim (Option-cases (find (is_taken w.tx_out w.id) db.withdrawals)) [
      | inl vacant ↦ (vacant, ground arith)
      | inr (row, e) ↦ absurd (ground arith)
    ]

get_by_tx_out-with_withdrawal :
    (db : Database) (w : Withdrawal) (out : TxOut)
    → w.tx_out ≡ some out
    → find (is_taken (some out) w.id) db.withdrawals ≡ none
    → get_by_tx_out (with_withdrawal db (record w { tx_out = some out })) out.tx.id out.v_out
      ≡ some (read_back out w)
unfolding get_by_tx_out
get_by_tx_out-with_withdrawal db w out e free =
    let sent : Withdrawal = record w { tx_out = some out } in
    let own : is_withdrawal_of out.tx.id out.v_out (withdrawal_row sent) ≡ true =
      ground (arith, ==_refl out.tx.id, eqb_ℤ_refl out.v_out) in
    let own_out : is_tx_out out.tx.id out.v_out (tx_out_row out) ≡ true =
      ground (arith, ==_refl out.tx.id, eqb_ℤ_refl out.v_out) in
    let row =
      find-upsert_only (has_withdrawal_id w.id) (is_withdrawal_of out.tx.id out.v_out)
        (withdrawal_row sent) db.withdrawals free own in
    let out_row =
      find-upsert_self (is_tx_out out.tx.id out.v_out) (tx_out_row out) db.tx_outs own_out in
    ground arith

get_by_tx_out-tables :
    (db₁ db₂ : Database) (tx_id : TxId) (v_out : ℤ)
    → db₁.withdrawals ≡ db₂.withdrawals
    → db₁.tx_outs ≡ db₂.tx_outs
    → get_by_tx_out db₁ tx_id v_out ≡ get_by_tx_out db₂ tx_id v_out
unfolding get_by_tx_out
get_by_tx_out-tables db₁ db₂ tx_id v_out e o =
    elim (Option-cases (find (is_withdrawal_of tx_id v_out) db₁.withdrawals)) [
      | inl a ↦ ground arith
      | inr (row, a) ↦ elim (Option-cases (find (is_tx_out tx_id v_out) db₁.tx_outs)) [
        | inl c ↦ ground arith
        | inr (out, c) ↦ ground arith
      ]
    ]

-- The state of the database after a settlement.
abbrev pub Settles : Surroundings → TxOut → Withdrawal → Database → Database → Type 0
Settles env out w db db' =
    (r : Reservation) × (get_reservation {E = Never} db w.reservation_id ≡ ok r)
    × (r.status ≡ pending)
    × (get_reservation {E = Never} db' w.reservation_id ≡ ok (record r { status = debited }))
    × (get_by_tx_out db' out.tx.id out.v_out ≡ some (read_back out (confirmed_by env out w)))

-- The parts of a settlement that succeeds: the reservation that was read, and the rows that were written.
pub settle_parts :
    (env : Surroundings) (out : TxOut) (w : Withdrawal) (db db' : Database)
    → settle env out w db ≡ ok db'
    → (r : Reservation) × (get_reservation {E = Never} db w.reservation_id ≡ ok r)
      × (r.status ≡ pending)
      × (w.reservation_id ≡ r.id)
      × (find (is_taken (some out) w.id) (env.second db).withdrawals ≡ none)
      × (db'
          ≡ with_reservation
              (with_withdrawal (env.second db) (confirmed_by env out w))
              (record r { status = debited }))
settle_parts env out w db db' h =
    let (r, loaded, h₁) = >>=-eq-ok (get_reservation db w.reservation_id) _ h in
    let (both, confirms, h₂) = >>=-eq-ok (confirm env.now w out r) _ h₁ in
    let (between, upserted, reserved) = >>=-eq-ok (upsert_withdrawal (env.second db) both.0) _ h₂ in
    let (sent, unconfirmed, tx, is_open, owner, both_eq) =
      confirm-ok env.now w out r both confirms in
    let w' = confirmed_by env out w in
    let r' : Reservation = record r { status = debited } in
    let (free, rows) =
      upsert_withdrawal-inv (env.second db) between w' (rw (← ap (λ x. x.0) both_eq) upserted) in
    let last : db' ≡ with_reservation between r' =
      upsert_reservation-eq between db' r' (rw (← ap (λ x. x.1) both_eq) reserved) in
    (r, loaded, is_open, owner, free, last ∙ ap (λ x. with_reservation x r') rows)

pub settle_stores :
    (env : Surroundings) (out : TxOut) (w : Withdrawal) (db db' : Database)
    → settle env out w db ≡ ok db'
    → Settles env out w db db'
settle_stores env out w db db' h =
    let (r, loaded, is_open, owner, free, last) = settle_parts env out w db db' h in
    let w' = confirmed_by env out w in
    let r' : Reservation = record r { status = debited } in
    let between = with_withdrawal (env.second db) w' in
    (
      r,
      loaded,
      is_open,
      ap (λ x. get_reservation {E = Never} x w.reservation_id) last
          ∙ ap (λ k. get_reservation {E = Never} (with_reservation between r') k) owner
          ∙ get_reservation-with_reservation between r',
      ap (λ x. get_by_tx_out x out.tx.id out.v_out) last
          ∙ get_by_tx_out-tables (with_reservation between r') between out.tx.id out.v_out refl refl
          ∙ get_by_tx_out-with_withdrawal (env.second db) w' out refl free,
    )

module _ (env : Surroundings) (out : TxOut) (db db' : Database)
    (t : tx_is_confirmed out.tx ≡ true) where
  process_eq :
      (found : Option Withdrawal)
      → get_by_tx_out db out.tx.id out.v_out ≡ found
      → process env out db
        ≡ transaction env db (do x ← settle_found env out found (env.first db); ok (tt, x))
  unfolding process
  process_eq found e = rw (t, e) refl

  process_body :
      (found : Option Withdrawal)
      → get_by_tx_out db out.tx.id out.v_out ≡ found
      → process env out db ≡ (ok tt, db')
      → settle_found env out found (env.first db) ≡ ok db'
  process_body found e h =
      committed (settle_found env out found (env.first db)) (sym (process_eq found e) ∙ h)
    where
      committed :
          (r : Outcome Never Database)
          → transaction env db (do x ← r; ok (tt, x)) ≡ (ok tt, db')
          → r ≡ ok db'
      committed (ok x) h = ground arith
      committed (err x) h = absurd (ground arith)
      committed panic h = absurd (ground arith)

  -- When a call of the listener succeeds for a confirmed output of a withdrawal that is not confirmed,
  -- the reservation of the withdrawal was pending and is stored as debited, and the withdrawal is read
  -- back as confirmed, with the transaction of the output.
  pub process_debits :
      (w : Withdrawal)
      → get_by_tx_out db out.tx.id out.v_out ≡ some w
      → is_confirmed w ≡ false
      → process env out db ≡ (ok tt, db')
      → Settles env out w (env.first db) db'
  process_debits w e c h = settle_stores env out w (env.first db) db' (
      subst (λ x. (if x then ok (env.first db) else settle env out w (env.first db)) ≡ ok db') c
        (process_body (some w) e h))

-- Nothing is left to do for an output: it belongs to no withdrawal, or to one that is confirmed.
abbrev pub IsDone : Option Withdrawal → Type 0
IsDone none = Unit
IsDone (some w) = is_confirmed w ≡ true

pub process_done :
    (env : Surroundings) (out : TxOut) (db : Database) (found : Option Withdrawal)
    → tx_is_confirmed out.tx ≡ true
    → get_by_tx_out db out.tx.id out.v_out ≡ found
    → IsDone found
    → process env out db ≡ (ok tt, env.first db)
process_done env out db none t e done = process_eq env out db db t none e
process_done env out db (some w) t e done =
    process_eq env out db db t (some w) e ∙ rw (done, settle_found) refl

module _ (env env' : Surroundings) (out : TxOut) (db db' : Database)
    (keeps : ((env.first db).withdrawals ≡ db.withdrawals) × ((env.first db).tx_outs ≡ db.tx_outs))
    (still : (x : Database) → env'.first x ≡ x) (t : tx_is_confirmed out.tx ≡ true)
    (success : process env out db ≡ (ok tt, db')) where
  idle_twice :
      (found : Option Withdrawal)
      → get_by_tx_out db out.tx.id out.v_out ≡ found
      → IsDone found
      → process env' out db' ≡ (ok tt, db')
  idle_twice found e done =
      let same : env.first db ≡ db' =
        ap (λ r. r.1) (sym (process_done env out db found t e done) ∙ success) in
      let again : get_by_tx_out db' out.tx.id out.v_out ≡ found =
        ap (λ x. get_by_tx_out x out.tx.id out.v_out) (sym same)
        ∙ get_by_tx_out-tables (env.first db) db out.tx.id out.v_out keeps.0 keeps.1
        ∙ e in
      process_done env' out db' found t again done ∙ ap (λ x. (ok tt, x)) (still db')

  confirmed_twice :
      (w : Withdrawal)
      → get_by_tx_out db out.tx.id out.v_out ≡ some w
      → is_confirmed w ≡ false
      → process env' out db' ≡ (ok tt, db')
  unfolding is_confirmed
  confirmed_twice w e c =
      let (r, loaded, is_open, stored, read) = process_debits env out db db' t w e c success in
      process_done env' out db' _ t read refl ∙ ap (λ x. (ok tt, x)) (still db')

  -- When a call of the listener for a confirmed output succeeds, a second call for the same output
  -- changes nothing, if no other transaction touches the withdrawals and the outputs during the first
  -- call, and none commits during the second.
  pub process_again : process env' out db' ≡ (ok tt, db')
  process_again = elim (Option-cases (get_by_tx_out db out.tx.id out.v_out)) [
    | inl e ↦ idle_twice none e tt
    | inr (w, e) ↦ elim (Bool-cases (is_confirmed w)) [
      | inl c ↦ idle_twice (some w) e c
      | inr c ↦ confirmed_twice w e c
    ]
  ]
