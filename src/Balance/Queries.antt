-- ===== src/Balance/Queries.antt =====
-- app/src/balance/mod.rs: the balance and the reservations in the database.
use laas_api.Base.{
  ℕ, zero, suc, Bool, ◌&&◌, ◌==◌, some, none, find, upsert, Outcome, ok, err, panic, ◌>>=◌, unwrap,
  if◌then◌else◌,
}
use laas_api.Int.{eqb_ℤ}
use laas_api.Concurrency.{ConflictError, conflict}
use laas_api.Database.{Uuid, Database, UserRow, ReservationRow}
use laas_api.Balance.{
  Balance, Reservation, ReservationStatus, pending, debited, refunded, new, changed,
}

abbrev pub has_id : Uuid → UserRow → Bool
has_id id row = row.id == id

abbrev pub has_reservation_id : Uuid → ReservationRow → Bool
has_reservation_id id row = row.id == id

-- `balance::get` with `BalanceRow::into_entity`: `fetch_one` wants the row.
unfoldable pub get : {E : Type 0} → Database → Uuid → Outcome E Balance
unfolding new
get db user_id = do row ← unwrap (find (has_id user_id) db.users); ok (new row.id row.balance_msats)

-- The `UPDATE` meets the row with the id and the amount that was read.
abbrev pub is_unchanged : Balance → UserRow → Bool
is_unchanged b row = row.id == b.user_id && eqb_ℤ row.balance_msats b.original_amount

-- `balance::update`
unfoldable pub update : Database → Balance → Outcome ConflictError Database
unfolding changed
update db b =
    if changed b
    then elim (find (is_unchanged b) db.users) [
      | none ↦ err conflict
      | some row ↦ ok (record db {
        users = upsert (is_unchanged b) (record row { balance_msats = b.amount }) db.users;
      })
    ]
    else ok db

abbrev pub status_to_i32 : ReservationStatus → ℕ
status_to_i32 pending = 0
status_to_i32 debited = 1
status_to_i32 refunded = 2

abbrev pub reservation_row : Reservation → ReservationRow
reservation_row r = record {
  id = r.id;
  user_id = r.user_id;
  amount_msats = r.amount;
  status = status_to_i32 r.status;
  created = r.created;
}

-- The database with the row of the reservation in place.
abbrev pub with_reservation : Database → Reservation → Database
with_reservation db r = record db {
  balance_reservations =
      upsert (has_reservation_id r.id) (reservation_row r) db.balance_reservations;
}

-- `balance::upsert_reservation`: a row with the id is replaced while its status is 0; otherwise no row
-- is returned, and `fetch_one` fails.
unfoldable pub upsert_reservation : {E : Type 0} → Database → Reservation → Outcome E Database
upsert_reservation db r = elim (find (has_reservation_id r.id) db.balance_reservations) [
  | none ↦ ok (with_reservation db r)
  | some row ↦ if row.status == 0 then ok (with_reservation db r) else panic
]

-- `ReservationRow::into_entity`
unfoldable pub status_of_i32 : {E : Type 0} → ℕ → Outcome E ReservationStatus
status_of_i32 zero = ok pending
status_of_i32 (suc zero) = ok debited
status_of_i32 (suc (suc zero)) = ok refunded
status_of_i32 (suc (suc (suc n))) = panic

unfoldable pub into_entity : {E : Type 0} → ReservationRow → Outcome E Reservation
unfolding status_of_i32
into_entity row = do
  status ← status_of_i32 row.status
  ok (record {
    id = row.id;
    user_id = row.user_id;
    amount = row.amount_msats;
    status = status;
    created = row.created;
  })

-- `balance::get_reservation`
unfoldable pub get_reservation : {E : Type 0} → Database → Uuid → Outcome E Reservation
unfolding into_entity
get_reservation db id = do
  row ← unwrap (find (has_reservation_id id) db.balance_reservations)
  into_entity row
