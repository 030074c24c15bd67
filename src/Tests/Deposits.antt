-- ===== src/Tests/Deposits.antt =====
-- Deposits.
use laas_api.Base.{◌≡◌, refl, ap, ◌==◌, none, some, false, ok, find, arith, ℕ}
use laas_api.Int.{pos, ◌+ℤ◌, scale, thousand_i64, wrap_i64, add_i64}
use laas_api.Btc.{msats, add, tx_is_confirmed}
use laas_api.Concurrency.{retry_loop}
use laas_api.Concurrency.Retries.{retry_from-final}
use laas_api.Database.{Uuid, Database}
use laas_api.Database.Transactions.{Surroundings}
use laas_api.Balance.{credit, new, changed}
use laas_api.Balance.Queries
use laas_api.Balance.Updates.{Stored}
use laas_api.Deposit.{Deposit, is_confirmed, confirm, start_deposit}
use laas_api.Deposit.Queries.{get, get_address, upsert_deposit, with_deposit}
use laas_api.Deposit.Listener.{
  start, get_or_start, settle, process_once, process, unwrap_result, conflict_chain,
}
use laas_api.Deposit.Credits.{confirmed_by}
use laas_api.Deposit.Delivery.{KeepsDeposits, process_once_credits, process_twice}
use laas_api.Tests.Data.{db, db_of, env, out, user_row}

abbrev started : Deposit
started = record { id = 50; user_id = 1; tx_out = out; created = 1000; confirmed = none }

abbrev credited : Database
credited = with_deposit (db_of (pos 8000)) (record started { confirmed = some 1000 })

keeps : KeepsDeposits env
keeps x = (refl, refl, refl)

starts : get_or_start env out db ≡ ok (some started, with_deposit db started)
unfolding get_or_start get start get_address start_deposit upsert_deposit
starts = refl

processes : process_once env out db ≡ (ok tt, credited)
unfolding process_once get_or_start get start get_address start_deposit upsert_deposit
    tx_is_confirmed is_confirmed settle Queries.get new confirm credit msats thousand_i64 scale
    wrap_i64 add add_i64 ◌+ℤ◌ Queries.update changed
processes = refl

process_once_credits_example :
    Stored (with_deposit db started) 1 (pos 5000)
    × Stored credited 1 (pos 5000 +ℤ msats (pos 3))
    × ((j : Uuid)
        → (1 == j) ≡ false
        → find (Queries.has_id j) credited.users
          ≡ find (Queries.has_id j) (with_deposit db started).users)
    × (get credited 9 (pos 0) ≡ some (confirmed_by env out started))
process_once_credits_example =
    process_once_credits env out db started (with_deposit db started) credited (user_row (pos 5000))
      starts (unfold is_confirmed in refl) (unfold tx_is_confirmed in refl) (refl, (refl, tt)) refl
      (unfold msats thousand_i64 scale wrap_i64 in ground arith)
      (unfold msats thousand_i64 scale wrap_i64 ◌+ℤ◌ in ground arith) processes

abbrev calls : ℕ → Surroundings
calls i = env

process-credited : process calls out db ≡ (ok tt, credited)
unfolding process retry_loop
process-credited = ap unwrap_result (
    retry_from-final conflict_chain (λ i. process_once env out) 9 1 db (ok tt, credited) processes
      tt)

process_twice_example : process calls out credited ≡ (ok tt, credited)
process_twice_example =
    process_twice calls calls out db credited (λ i. keeps) (λ i x. refl)
      (unfold tx_is_confirmed in refl) process-credited
