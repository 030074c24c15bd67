-- ===== src/Deposit/Listener.antt =====
-- app/src/deposit/mod.rs: the listener, which is called for every output that the chain shows.
use laas_api.Base.{
  ℕ, ◌&&◌, not, Option, some, none, [], ◌∷◌, Outcome, ok, err, panic, Never, if◌then◌else◌, ◌>>=◌,
}
use laas_api.Btc.{TxOut, tx_is_confirmed}
use laas_api.Concurrency.{ConflictError, Chain, conflict_error, retry_loop}
use laas_api.Database.{Database}
use laas_api.Database.Transactions.{Surroundings, transaction}
use laas_api.Balance.Queries
use laas_api.Deposit.{Deposit, start_deposit, is_confirmed, confirm}
use laas_api.Deposit.Queries.{get, get_address, upsert_deposit}

-- `start`
unfoldable pub start :
    Surroundings → TxOut → Database → Outcome ConflictError (Option Deposit × Database)
unfolding get_address start_deposit
start env tx_out db = elim (get_address db tx_out.address) [
  | some address ↦ do
    let deposit = start_deposit env.id env.now address tx_out
    db' ← upsert_deposit db deposit
    ok (some deposit, db')
  | none ↦ ok (none, db)
]

-- `get_or_start`: other transactions may commit after the first query.
unfoldable pub get_or_start :
    Surroundings → TxOut → Database → Outcome ConflictError (Option Deposit × Database)
unfolding start
get_or_start env tx_out db = elim (get db tx_out.tx.id tx_out.v_out) [
  | some deposit ↦ ok (some deposit, env.first db)
  | none ↦ start env tx_out (env.first db)
]

-- The branch of `process` for a confirmed output of a deposit that is not confirmed: other transactions
-- may commit after the balance is read.
unfoldable pub settle : Surroundings → TxOut → Deposit → Database → Outcome ConflictError Database
settle env tx_out deposit db = do
  balance ← Queries.get db deposit.user_id
  confirmed ← confirm env.now deposit tx_out balance
  db' ← upsert_deposit (env.second db) confirmed.0
  Queries.update db' confirmed.1

abbrev pub settle_if :
    Surroundings → TxOut → Option Deposit × Database → Outcome ConflictError Database
settle_if env tx_out (none, db) = ok db
settle_if env tx_out (some deposit, db) =
    if tx_is_confirmed tx_out.tx && not (is_confirmed deposit)
    then settle env tx_out deposit db
    else ok db

-- One call of the closure in `Listener::process`.
unfoldable pub process_once :
    Surroundings → TxOut → Database → Outcome ConflictError Unit × Database
process_once env tx_out db =
    transaction env db
      (do found ← get_or_start env tx_out db; db' ← settle_if env tx_out found; ok (tt, db'))

abbrev pub conflict_chain : ConflictError → Chain
conflict_chain e = conflict_error ∷ []

-- `unwrap` on the result of the retry loop.
abbrev pub unwrap_result : {E A S : Type 0} → Outcome E A × S → Outcome Never A × S
unwrap_result (ok a, s) = (ok a, s)
unwrap_result (err e, s) = (panic, s)
unwrap_result (panic, s) = (panic, s)

-- `Listener::process`
unfoldable pub process : (ℕ → Surroundings) → TxOut → Database → Outcome Never Unit × Database
process env tx_out db =
    unwrap_result (retry_loop conflict_chain (λ i. process_once (env i) tx_out) db)
