-- ===== src/Deposit/Delivery.antt =====
-- app/src/deposit/mod.rs: the listener may be called many times for one output, and credits it once.
use laas_api.Base.{
  ℕ, true, false, ◌==◌, ◌≡◌, refl, ap, some, none, find, Option-cases, Outcome-cases, Bool-cases,
  inl, inr, ◌⊎◌, Outcome, ok, err, panic, arith, ◌∙◌, sym, subst, IsKeyed,
}
use laas_api.Int.{pos, ◌+ℤ◌, ◌<ℤ◌, IsI64}
use laas_api.Btc.{TxOut, tx_is_confirmed, msats}
use laas_api.Concurrency.{ConflictError, retry_loop}
use laas_api.Concurrency.Retries.{retry_loop-inv, retry_from-final}
use laas_api.Database.{Uuid, Database, UserRow}
use laas_api.Database.Transactions.{Surroundings}
use laas_api.Balance.Queries
use laas_api.Balance.Updates.{user_key, Stored}
use laas_api.Deposit.{Address, Deposit, is_confirmed, start_deposit}
use laas_api.Deposit.Queries.{get, get_address, upsert_deposit}
use laas_api.Deposit.RoundTrip.{get-users}
use laas_api.Deposit.Listener.{
  start, get_or_start, settle, process_once, process, conflict_chain, unwrap_result,
}
use laas_api.Deposit.Credits.{settle_credits, settle-get, confirmed_by}

module _ (env : Surroundings) (out : TxOut) (db : Database) where
  -- An output whose deposit is confirmed already is left alone: nothing but what other transactions
  -- commit changes.
  pub process_once_confirmed :
      (d : Deposit)
      → get db out.tx.id out.v_out ≡ some d
      → is_confirmed d ≡ true
      → process_once env out db ≡ (ok tt, env.first db)
  unfolding process_once get_or_start
  process_once_confirmed d e c = ground arith

  -- An output to no deposit address changes nothing either.
  pub process_once_unrelated :
      get db out.tx.id out.v_out ≡ none
      → get_address (env.first db) out.address ≡ none
      → process_once env out db ≡ (ok tt, env.first db)
  unfolding process_once get_or_start start
  process_once_unrelated e a = ground arith

  process_once_settles :
      (d : Deposit) (db₁ db' : Database)
      → get_or_start env out db ≡ ok (some d, db₁)
      → is_confirmed d ≡ false
      → tx_is_confirmed out.tx ≡ true
      → process_once env out db ≡ (ok tt, db')
      → settle env out d db₁ ≡ ok db'
  unfolding process_once
  process_once_settles d db₁ db' e c t h = elim (Outcome-cases (settle env out d db₁)) [
    | inl (x, f) ↦ ground arith
    | inr failed ↦ ground arith
  ]

  -- When a call for a confirmed output succeeds on a deposit that is stored or started
  -- unconfirmed, the user is credited exactly the amount on top of the balance that is stored when
  -- the credit is written, no other user is touched, and the deposit is stored as confirmed by the
  -- output. The user has a row, the user ids are distinct, the amount is positive, and the sum
  -- does not overflow.
  pub process_once_credits :
      (d : Deposit) (db₁ db' : Database) (row : UserRow)
      → get_or_start env out db ≡ ok (some d, db₁)
      → is_confirmed d ≡ false
      → tx_is_confirmed out.tx ≡ true
      → IsKeyed user_key (env.second db₁).users
      → find (Queries.has_id d.user_id) db₁.users ≡ some row
      → pos 0 <ℤ msats out.amount
      → IsI64 (row.balance_msats +ℤ msats out.amount)
      → process_once env out db ≡ (ok tt, db')
      → Stored (env.second db₁) d.user_id row.balance_msats
        × Stored db' d.user_id (row.balance_msats +ℤ msats out.amount)
        × ((j : Uuid)
            → (d.user_id == j) ≡ false
            → find (Queries.has_id j) db'.users ≡ find (Queries.has_id j) (env.second db₁).users)
        × (get db' out.tx.id out.v_out ≡ some (confirmed_by env out d))
  process_once_credits d db₁ db' row e c t keyed found positive range h =
      settle_credits env out d db₁ db' row keyed found positive range
        (process_once_settles d db₁ db' e c t h)

-- Surroundings in which no other transaction touches the deposits: it may well change balances.
abbrev pub KeepsDeposits : Surroundings → Type 0
KeepsDeposits env =
    (db : Database)
    → ((env.first db).deposits ≡ db.deposits)
      × ((env.first db).tx_outs ≡ db.tx_outs)
      × ((env.first db).deposit_addresses ≡ db.deposit_addresses)

-- The output is credited, or it is nobody's.
abbrev pub IsDone : TxOut → Database → Type 0
IsDone out db =
    ((d : Deposit) × (get db out.tx.id out.v_out ≡ some d) × (is_confirmed d ≡ true))
    ⊎ ((get db out.tx.id out.v_out ≡ none) × (get_address db out.address ≡ none))

module _ (env : Surroundings) (out : TxOut) (db db' : Database) (t : tx_is_confirmed out.tx ≡ true)
    (h : process_once env out db ≡ (ok tt, db')) where
  pub get_or_start_found :
      (d : Deposit)
      → get db out.tx.id out.v_out ≡ some d
      → get_or_start env out db ≡ ok (some d, env.first db)
  unfolding get_or_start
  get_or_start_found d e = ground arith

  pub get_or_start_new :
      (a : Address)
      → get db out.tx.id out.v_out ≡ none
      → get_address (env.first db) out.address ≡ some a
      → (db₁ : Database) × (get_or_start env out db
          ≡ ok (some (start_deposit env.id env.now a out), db₁))
  unfolding process_once get_or_start start
  get_or_start_new a e owned =
      elim (Outcome-cases (upsert_deposit (env.first db) (start_deposit env.id env.now a out))) [
        | inl (db₁, f) ↦ (db₁, ground arith)
        | inr failed ↦ absurd (ground arith)
      ]

  -- A deposit that was found or started unconfirmed is confirmed.
  pub settled_get :
      (d : Deposit) (db₁ : Database)
      → get_or_start env out db ≡ ok (some d, db₁)
      → is_confirmed d ≡ false
      → get db' out.tx.id out.v_out ≡ some (confirmed_by env out d)
  settled_get d db₁ e c =
      settle-get env out d db₁ db' (process_once_settles env out db d db₁ db' e c t h)

module _ (env : Surroundings) (out : TxOut) (db db' : Database) (keeps : KeepsDeposits env)
    (t : tx_is_confirmed out.tx ≡ true) (h : process_once env out db ≡ (ok tt, db')) where
  first_get : get (env.first db) out.tx.id out.v_out ≡ get db out.tx.id out.v_out
  first_get = get-users (env.first db) db out.tx.id out.v_out (keeps db).0 (keeps db).1

  IsDone-confirmed :
      (d : Deposit) → get db out.tx.id out.v_out ≡ some d → is_confirmed d ≡ true → IsDone out db'
  IsDone-confirmed d e c =
      let same : env.first db ≡ db' =
        ap (λ r. r.1) (sym (process_once_confirmed env out db d e c) ∙ h) in
      inl (d, rw (← same) (first_get ∙ e), c)

  IsDone-settled :
      (d : Deposit) (db₁ : Database)
      → get_or_start env out db ≡ ok (some d, db₁)
      → is_confirmed d ≡ false
      → IsDone out db'
  unfolding is_confirmed
  IsDone-settled d db₁ e c =
      inl (confirmed_by env out d, settled_get env out db db' t h d db₁ e c, refl)

  IsDone-found : (d : Deposit) → get db out.tx.id out.v_out ≡ some d → IsDone out db'
  IsDone-found d e = elim (Bool-cases (is_confirmed d)) [
    | inl c ↦ IsDone-confirmed d e c
    | inr c ↦ IsDone-settled d (env.first db) (get_or_start_found env out db db' t h d e) c
  ]

  IsDone-new : get db out.tx.id out.v_out ≡ none → IsDone out db'
  IsDone-new e = elim (Option-cases (get_address (env.first db) out.address)) [
    | inl nobody ↦
        let same : env.first db ≡ db' =
          ap (λ r. r.1) (sym (process_once_unrelated env out db e nobody) ∙ h) in
        rw (← same) (inr (first_get ∙ e, nobody))
    | inr (a, owned) ↦
        let (db₁, started) = get_or_start_new env out db db' t h a e owned in
        IsDone-settled (start_deposit env.id env.now a out) db₁ started
          (unfold start_deposit is_confirmed in refl)
  ]

  -- A call that succeeds for a confirmed output leaves it done, if no other transaction touches
  -- the deposits meanwhile: its deposit is confirmed, or it has none and is to no deposit address.
  pub process_once-IsDone : IsDone out db'
  process_once-IsDone = elim (Option-cases (get db out.tx.id out.v_out)) [
    | inl e ↦ IsDone-new e
    | inr (d, e) ↦ IsDone-found d e
  ]

process_once_done :
    (env : Surroundings) (out : TxOut) (db : Database)
    → IsDone out db
    → env.first db ≡ db
    → process_once env out db ≡ (ok tt, db)
process_once_done env out db (inl (d, e, c)) q =
    process_once_confirmed env out db d e c ∙ ap (λ x. (ok tt, x)) q
process_once_done env out db (inr (e, a)) q =
    process_once_unrelated env out db e (ap (λ x. get_address x out.address) q ∙ a)
    ∙ ap (λ x. (ok tt, x)) q

-- What a successful call of the listener leaves.
abbrev pub LeavesDone : TxOut → Outcome ConflictError Unit × Database → Type 0
LeavesDone out r = r.0 ≡ ok tt → IsDone out r.1

unwrap_ok :
    (r : Outcome ConflictError Unit × Database) {db : Database}
    → unwrap_result r ≡ (ok tt, db)
    → r ≡ (ok tt, db)
unwrap_ok (ok a, s) h = ground arith
unwrap_ok (err e, s) h = absurd (ground arith)
unwrap_ok (panic, s) h = absurd (ground arith)

with_state : (r : Outcome ConflictError Unit × Database) → r.0 ≡ ok tt → r ≡ (ok tt, r.1)
with_state r e = λ i. (e i, r.1)

process-IsDone :
    (env : ℕ → Surroundings) (out : TxOut) (db : Database)
    → ((i : ℕ) → KeepsDeposits (env i))
    → tx_is_confirmed out.tx ≡ true
    → LeavesDone out (retry_loop conflict_chain (λ i. process_once (env i) out) db)
process-IsDone env out db keeps t =
    retry_loop-inv conflict_chain (λ i. process_once (env i) out) (λ s. Unit {0}) (LeavesDone out)
      (λ i s m e p c k. tt)
      (λ i s p f.
        process_once-IsDone (env i) out s (process_once (env i) out s).1 (keeps i) t
          (with_state _ f))
      db tt

process_done :
    (env : ℕ → Surroundings) (out : TxOut) (db : Database)
    → ((i : ℕ) (x : Database) → (env i).first x ≡ x)
    → IsDone out db
    → process env out db ≡ (ok tt, db)
unfolding process retry_loop
process_done env out db still done = ap unwrap_result (
    retry_from-final conflict_chain (λ i. process_once (env i) out) 9 1 db (ok tt, db)
      (process_once_done (env 1) out db done (still 1 db)) tt)

-- When a call of the listener for a confirmed output succeeds, after any number of conflicts, a second
-- call for the same output changes nothing: the output is credited once. Other transactions may change
-- balances during the first call, and none commits between the reads and the writes of the second.
pub process_twice :
    (env env' : ℕ → Surroundings) (out : TxOut) (db db' : Database)
    → ((i : ℕ) → KeepsDeposits (env i))
    → ((i : ℕ) (x : Database) → (env' i).first x ≡ x)
    → tx_is_confirmed out.tx ≡ true
    → process env out db ≡ (ok tt, db')
    → process env' out db' ≡ (ok tt, db')
unfolding process
process_twice env env' out db db' keeps still t h =
    let e = unwrap_ok _ h in
    process_done env' out db' still
      (subst (λ r. IsDone out r.1) e (process-IsDone env out db keeps t (ap (λ r. r.0) e)))
