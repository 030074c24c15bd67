-- ===== src/Tests/Accounts.antt =====
-- Balances, reservations and limits.
use laas_api.Base.{◌≡◌, refl, Never, ok, err, find, arith, ◌==◌, false}
use laas_api.Int.{sub_i64, wrap_i64, pos, ◌-ℤ◌}
use laas_api.Btc.{sub}
use laas_api.Concurrency.{conflict}
use laas_api.Database.{Uuid}
use laas_api.Balance.{Balance, Reservation, debited, refunded, reserve, debit, refund, changed}
use laas_api.Balance.Queries.{has_id, update}
use laas_api.Balance.Reservations.{reservation, refund-reserve}
use laas_api.Balance.Updates.{Stored, update_success, update_conflict}
use laas_api.CashLimits.{CashLimits}
use laas_api.Tests.Data.{db, db_of, user_row}

abbrev held : Balance
held = record { user_id = 1; original_amount = pos 5000; amount = pos 5000 }

abbrev spent : Balance
spent = record { user_id = 1; original_amount = pos 5000; amount = pos 4000 }

abbrev held_reservation : Reservation
held_reservation = reservation 60 9 held (pos 1000)

reserves : reserve 60 9 held (pos 1000) ≡ (ok held_reservation, record held { amount = pos 4000 })
reserves = unfold reserve sub sub_i64 wrap_i64 ◌-ℤ◌ in refl

refund-reserve_example :
    refund {E = Never} held_reservation spent
    ≡ ok (record held_reservation { status = refunded }, held)
refund-reserve_example =
    refund-reserve 60 9 held (pos 1000) held_reservation spent (ground arith) (ground arith)
      reserves

debits : debit {E = Never} held_reservation ≡ ok (record held_reservation { status = debited })
unfolding debit
debits = refl

updates : update db spent ≡ ok (db_of (pos 4000))
unfolding update changed
updates = refl

update_success_example :
    Stored db 1 (pos 5000)
    × Stored (db_of (pos 4000)) 1 (pos 4000)
    × ((j : Uuid)
        → (1 == j) ≡ false
        → find (has_id j) (db_of (pos 4000)).users ≡ find (has_id j) db.users)
update_success_example =
    update_success db (db_of (pos 4000)) spent (refl, (refl, tt)) updates (unfold changed in refl)

update_conflict_example : update (db_of (pos 4500)) spent ≡ err conflict
update_conflict_example =
    update_conflict (db_of (pos 4500)) spent (user_row (pos 4500)) (refl, (refl, tt)) refl
      (unfold changed in refl) (λ e. ground arith)

abbrev limits : CashLimits
limits = record { min = pos 10; max = pos 100; daily = pos 150 }
