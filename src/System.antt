-- ===== src/System.antt =====
-- The transactions of app/src that write balances or reservations, as steps of one shared database. A
-- transaction reads before it writes: it has seen an earlier state of the database, and other
-- transactions may have been committed since.
pub mod Effects
pub mod Loads
pub mod Credits
pub mod Holds
pub mod Starts
pub mod Settles
pub mod Moves
pub mod Writes
pub mod Refinement
pub mod Handlers
pub mod Listeners
pub mod Calls
use laas_api.Base.{ℕ, List, none, some, Outcome, ok, false, find, ◌≡◌, IsKeyed, All}
use laas_api.Int.{ℤ, pos, ◌+ℤ◌, ◌<ℤ◌, IsI64}
use laas_api.Btc.{Address, Sats, TxOut, msats}
use laas_api.Database.{Uuid, DateTime, Database, ReservationRow}
use laas_api.Database.Transactions.{Surroundings}
use laas_api.Balance.{Balance, Reservation}
use laas_api.Balance.Updates.{user_key}
use laas_api.Balance.Queries.{has_reservation_id}
use laas_api.Balance.Queries
use laas_api.Auth.{SpendGrant}
use laas_api.Ln.{Lnd, SettledInvoice}
use laas_api.Deposit.{Deposit}
use laas_api.Deposit.Listener.{settle as settle_deposit}
use laas_api.Invoice.{Invoice, is_settled}
use laas_api.Invoice.Service.{complete_once}
use laas_api.Payment.{Payment, prepare, send}
use laas_api.Payment
use laas_api.Payment.Service.{prepare_writes, send_writes}
use laas_api.Withdrawal
use laas_api.Withdrawal.{Withdrawal}
use laas_api.Withdrawal.Service.{write_started, settle as settle_withdrawal}
use laas_api.Ledger.{share}
use laas_api.Ledger.View.{available}

-- An id that no reservation has.
abbrev pub IsFresh : Uuid → Database → Type 0
IsFresh id db = find (has_reservation_id id) db.balance_reservations ≡ none

module _ (lnd : Lnd) where
  mutual
    -- One committed transaction. An amount that comes in is positive and the sum does not overflow; the
    -- id of a new reservation is fresh, and its amount is positive.
    pub data Step : Database → Database → Type 0 where
      elsewhere :
          {db db' : Database}
          → db'.users ≡ db.users
          → db'.balance_reservations ≡ db.balance_reservations
          → Step db db'
      deposited :
          {db db' : Database} (seen : Database) (env : Surroundings) (out : TxOut) (d : Deposit)
          → Run seen db
          → env.second seen ≡ db
          → settle_deposit env out d seen ≡ ok db'
          → pos 0 <ℤ msats out.amount
          → IsI64 (available seen d.user_id +ℤ msats out.amount)
          → Step db db'
      completed :
          {db db' : Database} (seen : Database) (env : Surroundings) (settled : SettledInvoice)
          (i i' : Invoice)
          → Run seen db
          → env.first seen ≡ db
          → is_settled i ≡ false
          → complete_once env settled (i, seen) ≡ (ok tt, (i', db'))
          → pos 0 <ℤ settled.amount
          → IsI64 (available seen i.user_id +ℤ settled.amount)
          → Step db db'
      prepared :
          {db db' : Database} (seen : Database) (id : Uuid) (now : DateTime) (hash : ℕ → List ℕ)
          (p : Payment) (b : Balance) (node : lnd.State)
          → Run seen db
          → Queries.get {E = Payment.Error} seen p.user_id ≡ ok b
          → (let x = prepare lnd id now hash p b node in
              (prepare_writes x.0.0 x.0.1 x.0.2 db ≡ ok db')
              × ((r : Reservation) → x.0.0 ≡ ok r → pos 0 <ℤ r.amount))
          → IsFresh id db
          → Step db db'
      sent :
          {db db' : Database} (seen : Database) (now : DateTime) (id : Uuid) (p : Payment)
          (b : Balance) (r : Reservation) (node : lnd.State)
          → Run seen db
          → Queries.get {E = Payment.Error} seen p.user_id ≡ ok b
          → Queries.get_reservation {E = Payment.Error} seen id ≡ ok r
          → r.user_id ≡ p.user_id
          → IsI64 (b.amount +ℤ r.amount)
          → (let x = send lnd now p b r node in send_writes x.0.0 x.0.3 x.0.1 x.0.2 db ≡ ok db')
          → Step db db'
      started :
          {db db' : Database} (seen : Database) (id reservation_id : Uuid) (now : DateTime)
          (grant : SpendGrant) (address : Address) (amount : Sats) (b : Balance) (w : Withdrawal)
          (node : lnd.State)
          → Run seen db
          → Queries.get {E = Withdrawal.Error} seen grant.user_id ≡ ok b
          → (let x = Withdrawal.start lnd id reservation_id now grant b address amount node in
              (write_started lnd x.0 db ≡ ok (w, db'))
              × ((w : Withdrawal) (r : Reservation) → x.0.0 ≡ ok (w, r) → pos 0 <ℤ r.amount))
          → IsFresh reservation_id db
          → Step db db'
      confirmed :
          {db db' : Database} (seen : Database) (env : Surroundings) (out : TxOut) (w : Withdrawal)
          → Run seen db
          → env.second seen ≡ db
          → settle_withdrawal env out w seen ≡ ok db'
          → Step db db'

    -- Committed transactions, one after the other.
    pub data Run : Database → Database → Type 0 where
      done : {db : Database} → Run db db
      then : {db between db' : Database} → Run db between → Step between db' → Run db db'

  -- What a transaction brings in for a user.
  unfoldable pub step_income : {db db' : Database} → Step db db' → Uuid → ℤ
  step_income (elsewhere x y) j = pos 0
  step_income (deposited seen env out d x y z p q) j = share d.user_id (msats out.amount) j
  step_income (completed seen env settled i i' x y z s p q) j = share i.user_id settled.amount j
  step_income (prepared seen id now hash p b node x y z f) j = pos 0
  step_income (sent seen now id p b r node x y z o q w) j = pos 0
  step_income (started seen id rid now grant address amount b w node x y z f) j = pos 0
  step_income (confirmed seen env out w x y z) j = pos 0

  unfoldable pub run_income : {db db' : Database} → Run db db' → Uuid → ℤ
  unfolding step_income
  run_income done j = pos 0
  run_income (then r s) j = run_income r j +ℤ step_income s j

-- The users have distinct ids, every balance is in the range of `i64`, and every reservation is of a
-- positive amount.
pub record IsValid (db : Database) : Type 0 where
  pub keyed : IsKeyed user_key db.users
  pub bounded : (u : Uuid) → IsI64 (available db u)
  pub positive : All (λ row. pos 0 <ℤ ReservationRow.amount_msats row) db.balance_reservations
