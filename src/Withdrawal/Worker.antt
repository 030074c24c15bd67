-- ===== src/Withdrawal/Worker.antt =====
-- app/src/withdrawal/mod.rs: `start_workers`, the sender and the listener, over their runs and calls.
pub mod Sent
pub mod Calls
pub mod Confirmations
pub mod Apart
use laas_api.Base.{ℕ, ◌+◌, Option, some, ok, Outcome, Never, String}
use laas_api.Chain.{TxListener, listen}
use laas_api.Database.{Database, Uuid}
use laas_api.Database.Transactions.{Surroundings}
use laas_api.Ln.{Lnd}
use laas_api.Withdrawal.Service.{process, run}
use laas_api.Worker.{start}

-- The listener, with the number of its calls and the store.
abbrev pub listener : (ℕ → Surroundings) → TxListener (ℕ × Database)
listener env t (n, db) = let (result, db') = process (env n) t db in (result, (n + 1, db'))

-- `start_workers`, the sender: the loop over `rounds` of its runs.
unfoldable pub start_sender :
    (lnd : Lnd)
    → (Uuid → String)
    → ℕ
    → (ℕ → ℕ → Surroundings)
    → (ℕ → lnd.State × Database → lnd.State × Database)
    → ℕ
    → lnd.State × Database
    → Option (lnd.State × Database)
start_sender lnd label first_block env others rounds s =
    start (λ n s. some (ok tt, run lnd label first_block (env n) s)) others 0 rounds s

-- `start_workers`, the listener.
unfoldable pub start_listener :
    (lnd : Lnd)
    → ℕ
    → (ℕ → ℕ → lnd.State)
    → (ℕ → Database → Database)
    → (ℕ → Surroundings)
    → ℕ
    → ℕ
    → Database
    → Outcome Never (Option (ℕ × (ℕ × Database)))
start_listener lnd start_height nodes others env turns rounds db =
    listen (listener env) lnd (λ s. s.1) start_height nodes (λ n (calls, db). (calls, others n db))
      turns rounds (0, db)
