-- ===== src/Tests/Invoices.antt =====
-- Invoices.
use laas_api.Base.{ℕ, ◌≡◌, ◌↔◌, refl, ◌==◌, none, some, false, ok, err, find, arith}
use laas_api.Int.{pos, ◌+ℤ◌, ◌≤ℤ◌, ◌<ℤ◌, add_i64, wrap_i64}
use laas_api.Btc.{add}
use laas_api.CashLimits.{CashLimits}
use laas_api.Concurrency.{conflict}
use laas_api.Database.{Uuid}
use laas_api.Database.Transactions.{Surroundings}
use laas_api.Balance.{credit, new, changed}
use laas_api.Balance.Queries
use laas_api.Balance.Updates.{Stored}
use laas_api.Ln.{SettledInvoice}
use laas_api.Invoice.{Invoice, is_settled, settle, create_checks}
use laas_api.Invoice.Rows.{get, upsert_invoice, with_invoice}
use laas_api.Invoice.Service.{complete_once, complete, handle_settled}
use laas_api.Invoice.Deliveries.{handle_settled_again}
use laas_api.Invoice.Settlements.{settled_by, complete_credits, complete_loses_settlement}
use laas_api.Invoice.Checks.{IsShort, create_checks-ok}
use laas_api.Tests.Data.{db, db_of, env, user_row}

abbrev limits : CashLimits
limits = record { min = pos 10; max = pos 10000; daily = pos 20000 }

create_checks-ok_example :
    (create_checks (pos 2000) (some "coffee") (pos 3600) limits (pos 500) ≡ ok tt) ↔ (
      (pos 0 <ℤ pos 2000)
      × IsShort (some "coffee")
      × (pos 0 <ℤ pos 3600)
      × (pos 3600 ≤ℤ pos 31536000)
      × (pos 10 ≤ℤ pos 2000)
      × (pos 2000 ≤ℤ pos 10000)
      × (pos 500 +ℤ pos 2000 ≤ℤ pos 20000))
create_checks-ok_example =
    create_checks-ok (pos 2000) (some "coffee") (pos 3600) limits (pos 500)
      (unfold ◌+ℤ◌ in ground arith)

abbrev issued : Invoice
issued = record {
  id = 30;
  user_id = 1;
  token_id = 11;
  amount = pos 2000;
  memo = some "coffee";
  raw = "lnbc";
  created = 900;
  settlement = none;
  expiration = 3600000900;
}

abbrev paid : SettledInvoice
paid = record { amount = pos 2000; settle_index = 4; raw = "lnbc" }

abbrev settled : Invoice
settled = settled_by env paid issued

completes :
    complete_once env paid (issued, db)
    ≡ (ok tt, (settled, with_invoice (db_of (pos 7000)) settled))
unfolding complete_once is_settled Queries.get new settle credit add add_i64 wrap_i64 ◌+ℤ◌
    upsert_invoice Queries.update changed
completes = refl

complete_credits_example :
    Stored db 1 (pos 5000)
    × Stored (with_invoice (db_of (pos 7000)) settled) 1 (pos 5000 +ℤ pos 2000)
    × ((j : Uuid)
        → (1 == j) ≡ false
        → find (Queries.has_id j) (with_invoice (db_of (pos 7000)) settled).users
          ≡ find (Queries.has_id j) db.users)
    × (get (with_invoice (db_of (pos 7000)) settled) 30 1 ≡ some settled)
complete_credits_example =
    complete_credits env paid issued db (with_invoice (db_of (pos 7000)) settled) settled
      (user_row (pos 5000)) (refl, (refl, tt)) refl (ground arith) (unfold ◌+ℤ◌ in ground arith)
      (unfold is_settled in refl) completes

-- Another transaction changes the balance while the first call runs.
abbrev busy : ℕ → Surroundings
busy i = record { first = λ x. db_of (pos 4500); second = λ x. x; id = 50; now = 1000 }

conflicts : complete_once (busy 1) paid (issued, db) ≡ (err conflict, (settled, db_of (pos 4500)))
unfolding complete_once is_settled Queries.get new settle credit add add_i64 wrap_i64 ◌+ℤ◌
    upsert_invoice Queries.update changed
conflicts = refl

complete_loses_settlement_example : complete busy issued paid db ≡ (ok tt, db_of (pos 4500))
complete_loses_settlement_example =
    complete_loses_settlement busy paid issued db conflict (settled, db_of (pos 4500))
      (unfold is_settled in refl) conflicts

-- The stream delivers the settlement again.
handle_settled_again_example :
    handle_settled (λ n. env) paid (with_invoice (db_of (pos 7000)) settled)
    ≡ with_invoice (db_of (pos 7000)) settled
handle_settled_again_example =
    handle_settled_again env paid issued db (with_invoice (db_of (pos 7000)) settled) settled
      (unfold is_settled in refl) completes (λ n. env)
