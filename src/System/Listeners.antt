-- ===== src/System/Listeners.antt =====
-- The calls that bring an amount in, as runs of committed transactions.
use laas_api.Base.{
  ◌≡◌, ap, ◌∙◌, sym, refl, false, not, ◌&&◌, Bool-cases, Outcome-cases, Option-cases, inl, inr,
  Outcome, ok, err, panic, some, none, arith, Option, ◌>>=◌,
}
use laas_api.Int.{pos, ◌+ℤ◌, ◌<ℤ◌, IsI64}
use laas_api.Btc.{TxOut, msats, tx_is_confirmed}
use laas_api.Concurrency.{ConflictError}
use laas_api.Database.{Uuid, Database}
use laas_api.Database.Transactions.{Surroundings, transaction}
use laas_api.Ln.{Lnd, SettledInvoice}
use laas_api.Deposit.{Deposit, is_confirmed, start_deposit}
use laas_api.Deposit.Queries.{get, get_address, upsert_deposit}
use laas_api.Deposit.RoundTrip.{upsert_deposit-eq}
use laas_api.Deposit.Listener.{start, get_or_start, settle, settle_if, process_once}
use laas_api.Invoice.{Invoice, is_settled}
use laas_api.Invoice.Service.{complete_once, complete_writes, finish, settle_and_write}
use laas_api.Invoice.Settlements.{attempt, call_fresh, call_writes, settled_call}
use laas_api.Ledger.View.{available}
use laas_api.System.{Run, done, then, elsewhere, deposited, completed}
use laas_api.System.Handlers.{IsOthers, Run-trans, rolled_back-Run}

-- Looking a deposit up, or starting one, writes no balance and no reservation.
start_same :
    (env : Surroundings) (out : TxOut) (db mid : Database) (found : Option Deposit)
    → start env out db ≡ ok (found, mid)
    → (mid.users ≡ db.users) × (mid.balance_reservations ≡ db.balance_reservations)
unfolding start
start_same env out db mid found h = elim (Option-cases (get_address db out.address)) [
  | inl missing ↦ ground arith
  | inr (a, e) ↦
      let d = start_deposit env.id env.now a out in
      elim (Outcome-cases (upsert_deposit db d)) [
        | inl (db', put) ↦
            let same : db' ≡ mid = ground arith in
            let stored = sym same ∙ upsert_deposit-eq db db' d put in
            (ap (λ x. x.users) stored, ap (λ x. x.balance_reservations) stored)
        | inr (inl (x, failed)) ↦ absurd (ground arith)
        | inr (inr failed) ↦ absurd (ground arith)
      ]
]

get_or_start_same :
    (env : Surroundings) (out : TxOut) (db mid : Database) (found : Option Deposit)
    → get_or_start env out db ≡ ok (found, mid)
    → (mid.users ≡ (env.first db).users)
      × (mid.balance_reservations ≡ (env.first db).balance_reservations)
unfolding get_or_start
get_or_start_same env out db mid found h = elim (Option-cases (get db out.tx.id out.v_out)) [
  | inl missing ↦ start_same env out (env.first db) mid found (ground arith)
  | inr (d, e) ↦ ground arith
]

module _ (lnd : Lnd) (env : Surroundings) (others : IsOthers lnd env) where
  -- The amount of the output is positive, and fits into the balance of any user.
  abbrev pub BringsWell : TxOut → Database → Type 0
  BringsWell out db =
      (pos 0 <ℤ msats out.amount)
      × ((u : Uuid) → IsI64 (available (env.first db) u +ℤ msats out.amount))

  module _ (out : TxOut) (db mid : Database) (well : BringsWell out db)
      (users : mid.users ≡ (env.first db).users)
      (rows : mid.balance_reservations ≡ (env.first db).balance_reservations) where
    to_mid : Run lnd db mid
    to_mid = then (others.0 db) (elsewhere users rows)

    settled_run :
        (d : Deposit) (result : Outcome ConflictError Database)
        → settle env out d mid ≡ result
        → Run lnd db (transaction env db (do db' ← result; ok (tt, db'))).1
    settled_run d (ok db') h =
        then (Run-trans lnd to_mid (others.1 mid))
          (deposited mid env out d (others.1 mid) refl h well.0 (rw users (well.1 d.user_id)))
    settled_run d (err e) h = rolled_back-Run lnd env db others
    settled_run d panic h = rolled_back-Run lnd env db others

    found_run :
        (found : Option Deposit)
        → Run lnd db (transaction env db (do db' ← settle_if env out (found, mid); ok (tt, db'))).1
    found_run none = to_mid
    found_run (some d) = elim (Bool-cases (tx_is_confirmed out.tx && not (is_confirmed d))) [
      | inl due ↦ rw due (settled_run d (settle env out d mid) refl)
      | inr over ↦ rw over to_mid
    ]

  pub process_once-Run :
      (out : TxOut) (db : Database) → BringsWell out db → Run lnd db (process_once env out db).1
  unfolding process_once
  process_once-Run out db well = elim (Outcome-cases (get_or_start env out db)) [
    | inl ((found, mid), e) ↦
        let (users, rows) = get_or_start_same env out db mid found e in
        rw (e, process_once) (found_run out db mid well users rows found)
    | inr (inl (x, e)) ↦ rw (e, process_once) (rolled_back-Run lnd env db others)
    | inr (inr e) ↦ rw (e, process_once) (rolled_back-Run lnd env db others)
  ]

  -- The amount that was paid is positive, and fits into the balance of the user.
  abbrev pub PaysWell : SettledInvoice → Invoice → Database → Type 0
  PaysWell settled i db =
      (pos 0 <ℤ settled.amount) × IsI64 (available db i.user_id +ℤ settled.amount)

  module _ (settled : SettledInvoice) (i : Invoice) (db : Database) (well : PaysWell settled i db)
      (fresh : is_settled i ≡ false) where
    written_run :
        (x : Invoice) (result : Outcome ConflictError Database)
        → complete_once env settled (i, db) ≡ finish env x db result
        → Run lnd db (finish env x db result).1.1
    written_run x (ok db') h =
        then (others.0 db) (completed db env settled i x (others.0 db) refl fresh h well.0 well.1)
    written_run x (err e) h = rolled_back-Run lnd env db others
    written_run x panic h = rolled_back-Run lnd env db others

    fresh_run : Run lnd db (complete_once env settled (i, db)).1.1
    unfolding complete_once
    fresh_run = elim (Outcome-cases (attempt env settled i db)) [
      | inl (both, e) ↦
          let call = call_fresh env settled i db fresh ∙ call_writes env settled i db both e in
          rw call (written_run both.0 (complete_writes both.0 both.1 (env.first db)) call)
      | inr (inl (x, e)) ↦
          rw (call_fresh env settled i db fresh, e, settle_and_write)
            (rolled_back-Run lnd env db others)
      | inr (inr e) ↦
          rw (call_fresh env settled i db fresh, e, settle_and_write)
            (rolled_back-Run lnd env db others)
    ]

  pub complete_once-Run :
      (settled : SettledInvoice) (i : Invoice) (db : Database)
      → PaysWell settled i db
      → Run lnd db (complete_once env settled (i, db)).1.1
  complete_once-Run settled i db well = elim (Bool-cases (is_settled i)) [
    | inl before ↦ rw (settled_call env settled i db before) done
    | inr fresh ↦ fresh_run settled i db well fresh
  ]
