-- ===== src/Deposit/Worker.antt =====
-- app/src/deposit/mod.rs: `start_worker` and its listener, over the calls that it makes.
pub mod Inserts
pub mod Calls
pub mod Fitness
pub mod Arrivals
use laas_api.Base.{ℕ, ◌+◌, Option, Outcome, Never}
use laas_api.Btc.{TxOut}
use laas_api.Chain.{TxListener, listen}
use laas_api.Database.{Database}
use laas_api.Database.Transactions.{Surroundings}
use laas_api.Deposit.Listener.{process}
use laas_api.Ln.{Lnd}

-- The listener, with the number of its calls and the store; the surroundings are given for each call
-- and each round of its retry loop.
abbrev pub listener : (ℕ → ℕ → Surroundings) → TxListener (ℕ × Database)
listener env t (n, db) = let (result, db') = process (env n) t db in (result, (n + 1, db'))

-- `start_worker`
unfoldable pub start_worker :
    (lnd : Lnd)
    → ℕ
    → (ℕ → ℕ → lnd.State)
    → (ℕ → Database → Database)
    → (ℕ → ℕ → Surroundings)
    → ℕ
    → ℕ
    → Database
    → Outcome Never (Option (ℕ × (ℕ × Database)))
start_worker lnd start_height nodes others env turns rounds db =
    listen (listener env) lnd (λ s. s.1) start_height nodes (λ n (calls, db). (calls, others n db))
      turns rounds (0, db)
