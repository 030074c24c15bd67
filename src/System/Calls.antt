-- ===== src/System/Calls.antt =====
-- Whole calls of the services: they are runs of committed transactions, so all that holds of runs holds
-- of them, with whatever the others commit meanwhile.
use laas_api.Base.{ℕ, List, ◌≡◌, subst}
use laas_api.Btc.{Address, Sats, TxOut}
use laas_api.Database.{Uuid, Database}
use laas_api.Database.Transactions.{Surroundings}
use laas_api.Auth.{SpendGrant}
use laas_api.Ln.{Lnd, SettledInvoice}
use laas_api.Deposit.Listener.{process_once as process_deposit}
use laas_api.Invoice.{Invoice}
use laas_api.Invoice.Service.{complete_once}
use laas_api.Payment.Service.{Shared, prepare_once, send_once}
use laas_api.Withdrawal.Service.{process as process_withdrawal, start_once}
use laas_api.Ledger.{IsCovered}
use laas_api.Ledger.View.{view}
use laas_api.System.{Run, IsValid}
use laas_api.System.Handlers.{
  IsOthers, StartsWell, PreparesWell, SendsWell, process-Run, start_once-Run, prepare_once-Run,
  send_once-Run,
}
use laas_api.System.Listeners.{BringsWell, PaysWell, process_once-Run, complete_once-Run}
use laas_api.System.Refinement.{Run-IsCovered}

module _ (lnd : Lnd) where
  -- One call of a closure of a retry loop, or of the listener of the withdrawals, from the database that
  -- it begins with to the one that it leaves, however it ends.
  pub data Call (db db' : Database) : Type 0 where
    deposits :
        (env : Surroundings) (others : IsOthers lnd env) (out : TxOut)
        → BringsWell lnd env others out db
        → (process_deposit env out db).1 ≡ db'
        → Call db db'
    completes :
        (env : Surroundings) (others : IsOthers lnd env) (settled : SettledInvoice) (i : Invoice)
        → PaysWell lnd env others settled i db
        → (complete_once env settled (i, db)).1.1 ≡ db'
        → Call db db'
    prepares :
        (env : Surroundings) (others : IsOthers lnd env) (hash : ℕ → List ℕ) (grant : SpendGrant)
        (s : Shared lnd)
        → PreparesWell lnd env others hash grant s
        → s.db ≡ db
        → (prepare_once lnd hash grant env s).1.db ≡ db'
        → Call db db'
    sends :
        (env : Surroundings) (others : IsOthers lnd env) (grant : SpendGrant) (s : Shared lnd)
        → SendsWell lnd env others grant s
        → s.db ≡ db
        → (send_once lnd grant env s).1.db ≡ db'
        → Call db db'
    starts :
        (env : Surroundings) (others : IsOthers lnd env) (id : Uuid) (grant : SpendGrant)
        (address : Address) (amount : Sats) (node : lnd.State)
        → StartsWell lnd env others id grant address amount node db
        → (start_once lnd id grant address amount env (node, db)).1.1 ≡ db'
        → Call db db'
    confirms :
        (env : Surroundings) (others : IsOthers lnd env) (out : TxOut)
        → (process_withdrawal env out db).1 ≡ db'
        → Call db db'

  -- A call of the services, with its reads, its writes or its rollback, and the transactions that others
  -- commit meanwhile, is a run of committed transactions.
  pub Call-Run : (db db' : Database) → Call db db' → Run lnd db db'
  Call-Run db db' (deposits env others out well e) =
      subst (Run lnd db) e (process_once-Run lnd env others out db well)
  Call-Run db db' (completes env others settled i well e) =
      subst (Run lnd db) e (complete_once-Run lnd env others settled i db well)
  Call-Run db db' (prepares env others hash grant s well same e) =
      rw (← same) (subst (Run lnd s.db) e (prepare_once-Run lnd env others hash grant s well))
  Call-Run db db' (sends env others grant s well same e) =
      rw (← same) (subst (Run lnd s.db) e (send_once-Run lnd env others grant s well))
  Call-Run db db' (starts env others id grant address amount node well e) =
      subst (Run lnd db) e (start_once-Run lnd env others id grant address amount node db well)
  Call-Run db db' (confirms env others out e) =
      subst (Run lnd db) e (process-Run lnd env out db others)

  -- No call of the services overdraws a user: in a valid database in which no balance is negative it
  -- leaves none negative, whatever other transactions are committed between its reads and its writes.
  -- New ids are fresh, amounts that are reserved or come in are positive, and sums do not overflow.
  pub Call-IsCovered :
      (db db' : Database) → Call db db' → IsValid db → IsCovered (view db) → IsCovered (view db')
  Call-IsCovered db db' call = Run-IsCovered lnd db db' (Call-Run db db' call)
