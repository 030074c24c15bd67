-- ===== src/Tests/Systems.antt =====
-- The shared database: a withdrawal is started, and then a deposit of the same user is confirmed.
use laas_api.Base.{◌≡◌, refl, ok, none, some, [], arith}
use laas_api.Int.{pos, ◌+ℤ◌, ◌-ℤ◌, scale, thousand_i64, sub_i64, wrap_i64, add_i64}
use laas_api.Btc.{msats, add, sub, tx_is_confirmed}
use laas_api.Database.{Database}
use laas_api.Balance.{Balance, Reservation, pending, credit, new, changed, reserve}
use laas_api.Balance.Queries
use laas_api.Balance.Queries.{with_reservation}
use laas_api.Auth.{SpendGrant}
use laas_api.Ln.{Lnd, failure_reason_none}
use laas_api.Ln
use laas_api.Deposit.{Deposit, confirm, is_confirmed, start_deposit}
use laas_api.Deposit.Queries.{with_deposit, upsert_deposit, get, get_address}
use laas_api.Deposit.Listener.{settle, process_once, get_or_start, start as start_new}
use laas_api.Withdrawal.{Withdrawal, start}
use laas_api.Withdrawal.Rows.{with_withdrawal, upsert_withdrawal}
use laas_api.Withdrawal.Service.{write_started}
use laas_api.Ledger.{LedgerStep, IsCovered, total}
use laas_api.Ledger.View.{view}
use laas_api.System.{Step, Run, done, then, deposited, started, IsValid, step_income, run_income}
use laas_api.System.Refinement.{Step-LedgerStep, Run-total}
use laas_api.System.Handlers.{IsOthers}
use laas_api.System.Calls.{Call, deposits, Call-Run, Call-IsCovered}
use laas_api.Tests.Data.{db, db_of, env, out, node_with, answer}

abbrev lnd : Lnd
lnd = node_with (answer Ln.PaymentStatus.succeeded failure_reason_none)

abbrev grant : SpendGrant
grant = record { token_id = 11; user_id = 1 }

abbrev full : Balance
full = record { user_id = 1; original_amount = pos 5000; amount = pos 5000 }

abbrev held : Reservation
held = record { id = 21; user_id = 1; amount = pos 4000; status = pending; created = 900 }

abbrev withdrawal : Withdrawal
withdrawal = record {
  id = 20;
  user_id = 1;
  token_id = 11;
  reservation_id = 21;
  address = 80;
  fee = pos 1;
  amount = pos 3;
  tx_out = none;
  created = 900;
  confirmed = none;
}

abbrev reserved_db : Database
reserved_db = with_withdrawal (with_reservation (db_of (pos 1000)) held) withdrawal

-- The balance is read, the amount reserved, and both written.
start-withdrawal :
    start lnd 20 21 900 grant full 80 (pos 3) []
    ≡ ((ok (withdrawal, held), record full { amount = pos 1000 }), [])
unfolding start reserve add add_i64 msats thousand_i64 scale wrap_i64 ◌+ℤ◌ sub sub_i64 ◌-ℤ◌
start-withdrawal = refl

writes :
    write_started lnd (ok (withdrawal, held), record full { amount = pos 1000 }) db
    ≡ ok (withdrawal, reserved_db)
unfolding Queries.update Queries.upsert_reservation upsert_withdrawal changed
writes = refl

started_step : Step lnd db reserved_db
started_step =
    started db 20 21 900 grant 80 (pos 3) full withdrawal [] done (unfold Queries.get new in refl)
      (rw start-withdrawal (writes, λ w r h. ground arith)) refl

abbrev deposit : Deposit
deposit = record { id = 50; user_id = 1; tx_out = out; created = 1000; confirmed = none }

abbrev credited_db : Database
credited_db =
    with_deposit (with_withdrawal (with_reservation (db_of (pos 4000)) held) withdrawal)
      (record deposit { confirmed = some 1000 })

settles : settle env out deposit reserved_db ≡ ok credited_db
unfolding upsert_deposit settle Queries.get new confirm credit msats thousand_i64 scale wrap_i64 add
    add_i64 ◌+ℤ◌ Queries.update changed
settles = refl

deposited_step : Step lnd reserved_db credited_db
deposited_step =
    deposited reserved_db env out deposit done refl settles
      (unfold msats thousand_i64 scale wrap_i64 in ground arith)
      (unfold msats thousand_i64 scale wrap_i64 ◌+ℤ◌ in ground arith)

run : Run lnd db credited_db
run = then (then done started_step) deposited_step

valid : IsValid db
valid = record { keyed = (refl, (refl, tt)); bounded = λ u. ground arith; positive = tt }

Step-LedgerStep_example : LedgerStep (view db) (view reserved_db) (step_income lnd started_step)
Step-LedgerStep_example = Step-LedgerStep lnd db reserved_db started_step valid

Run-total_example : total (view credited_db) 1 ≡ total (view db) 1 +ℤ run_income lnd run 1
Run-total_example = Run-total lnd db credited_db run valid 1

-- The listener is called for the output of a deposit, and no other transaction is committed meanwhile.
alone : IsOthers lnd env
alone = (λ x. done, λ x. done)

abbrev after_deposit : Database
after_deposit = with_deposit (db_of (pos 8000)) (record deposit { confirmed = some 1000 })

processed : (process_once env out db).1 ≡ after_deposit
unfolding process_once get_or_start get start_new get_address start_deposit upsert_deposit
    tx_is_confirmed is_confirmed settle Queries.get new confirm credit msats thousand_i64 scale
    wrap_i64 add add_i64 ◌+ℤ◌ Queries.update changed
processed = refl

call : Call lnd db after_deposit
call =
    deposits env alone out
      (
        unfold msats thousand_i64 scale wrap_i64 in ground arith,
        λ u. unfold msats thousand_i64 scale wrap_i64 ◌+ℤ◌ in ground arith,
      )
      processed

Call-Run_example : Run lnd db after_deposit
Call-Run_example = Call-Run lnd db after_deposit call

Call-IsCovered_example : IsCovered (view after_deposit)
Call-IsCovered_example = Call-IsCovered lnd db after_deposit call valid (λ u. ground arith)
