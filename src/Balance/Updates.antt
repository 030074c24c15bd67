-- ===== src/Balance/Updates.antt =====
-- app/src/balance/mod.rs: the conditional `UPDATE` of a balance and the guarded upsert of a
-- reservation.
use laas_api.Base.{
  ℕ, ◌≡◌, refl, ◌≢◌, ok, err, panic, Never, arith, inl, inr, Option-cases, true, false, find,
  upsert, some, none, ◌==◌, ==_refl, IsKeyed, find_and, find_narrow, upsert_and, find-upsert_self,
  find-upsert_ne, find_sound, if◌then◌else◌,
}
use laas_api.Int.{ℤ, eqb_ℤ, eqb_ℤ_iff}
use laas_api.Concurrency.{conflict}
use laas_api.Database.{Uuid, Database, UserRow, ReservationRow}
use laas_api.Balance.{Balance, Reservation, ReservationStatus, pending, debited, refunded, changed}
use laas_api.Balance.Queries.{
  has_id, has_reservation_id, is_unchanged, update, upsert_reservation, reservation_row,
  get_reservation, with_reservation, status_to_i32,
}

abbrev pub user_key : UserRow → ℕ
user_key row = row.id

-- The row of a user after an update of the balance.
abbrev pub with_balance : UserRow → Balance → UserRow
with_balance row b = record row { balance_msats = b.amount }

-- With distinct ids, the `UPDATE` is a compare-and-swap on the row of the user.
pub update_swap :
    (db : Database) (b : Balance) (row : UserRow)
    → IsKeyed user_key db.users
    → find (has_id b.user_id) db.users ≡ some row
    → update db b ≡ (
        if changed b
        then if eqb_ℤ row.balance_msats b.original_amount
          then ok (record db { users = upsert (is_unchanged b) (with_balance row b) db.users })
          else err conflict
        else ok db)
unfolding update
update_swap db b row keyed e = ground (
  arith,
  find_and user_key b.user_id (λ x. eqb_ℤ x.balance_msats b.original_amount) row db.users keyed e,
)

-- The balance of a user as it stands in the database.
abbrev pub Stored : Database → Uuid → ℤ → Type 0
Stored db user_id amount =
    (row : UserRow) × (find (has_id user_id) db.users ≡ some row) × (row.balance_msats ≡ amount)

module _ (db db' : Database) (b : Balance) (keyed : IsKeyed user_key db.users)
    (success : update db b ≡ ok db') where
  update_found : changed b ≡ true → find (has_id b.user_id) db.users ≢ none
  unfolding update
  update_found c e =
      ground
        (arith, find_narrow (has_id b.user_id) (is_unchanged b) db.users (λ x h. ground arith) e)

  pub update_row :
      (row : UserRow)
      → find (has_id b.user_id) db.users ≡ some row
      → changed b ≡ true
      → (row.balance_msats ≡ b.original_amount)
        × (db'.users ≡ upsert (has_id b.user_id) (with_balance row b) db.users)
  update_row row e c = ground (
    arith,
    update_swap db b row keyed e,
    eqb_ℤ_iff row.balance_msats b.original_amount,
    upsert_and user_key b.user_id (λ x. eqb_ℤ x.balance_msats b.original_amount) row
        (with_balance row b) db.users e,
  )

  -- With distinct user ids, an update that succeeds has stored a changed balance only over the
  -- amount that was read before, and has touched no other user's row.
  pub update_success :
      changed b ≡ true
      → Stored db b.user_id b.original_amount
        × Stored db' b.user_id b.amount
        × ((j : Uuid)
            → (b.user_id == j) ≡ false
            → find (has_id j) db'.users ≡ find (has_id j) db.users)
  update_success c = elim (Option-cases (find (has_id b.user_id) db.users)) [
    | inl missing ↦ absurd (update_found c missing)
    | inr (row, e) ↦
        let (swapped, users) = update_row row e c in
        let own : has_id b.user_id (with_balance row b) ≡ true =
          find_sound (has_id b.user_id) db.users {v = row} e in
        (
          (row, e, swapped),
          (
            with_balance row b,
            rw users (find-upsert_self (has_id b.user_id) (with_balance row b) db.users own),
            refl,
          ),
          λ j ne. rw users (
              find-upsert_ne (has_id b.user_id) (has_id j) (with_balance row b) db.users
                (ground arith) (λ x h. ground arith)),
        )
  ]

-- With distinct user ids, a changed balance is refused with a conflict if the stored amount is no
-- longer the one that was read.
pub update_conflict :
    (db : Database) (b : Balance) (row : UserRow)
    → IsKeyed user_key db.users
    → find (has_id b.user_id) db.users ≡ some row
    → changed b ≡ true
    → row.balance_msats ≢ b.original_amount
    → update db b ≡ err conflict
update_conflict db b row keyed e c stale =
    ground (arith, update_swap db b row keyed e, eqb_ℤ_iff row.balance_msats b.original_amount)

-- A successful upsert puts the row in place.
pub upsert_reservation-eq :
    (db db' : Database) (r : Reservation)
    → upsert_reservation {E = Never} db r ≡ ok db'
    → db' ≡ with_reservation db r
unfolding upsert_reservation
upsert_reservation-eq db db' r h =
    elim (Option-cases (find (has_reservation_id r.id) db.balance_reservations)) [
      | inl new_id ↦ ground arith
      | inr (row, e) ↦ ground arith
    ]

status_to_i32-final : (s : ReservationStatus) → s ≢ pending → status_to_i32 s ≢ 0
status_to_i32-final pending h = absurd (h refl)
status_to_i32-final debited h = ground arith
status_to_i32-final refunded h = ground arith

-- A reservation that was stored as debited or refunded is not overwritten: the next upsert with
-- its id panics.
pub upsert_reservation_twice :
    (db db' : Database) (r s : Reservation)
    → r.status ≢ pending
    → s.id ≡ r.id
    → upsert_reservation {E = Never} db r ≡ ok db'
    → upsert_reservation {E = Never} db' s ≡ panic
unfolding upsert_reservation
upsert_reservation_twice db db' r s final same h =
    let stored_row : find (has_reservation_id r.id) (with_reservation db r).balance_reservations
        ≡ some (reservation_row r) =
      find-upsert_self (has_reservation_id r.id) (reservation_row r) db.balance_reservations
        (==_refl r.id) in
    let written : db' ≡ with_reservation db r = upsert_reservation-eq db db' r h in
    rw (written, same) (ground (arith, status_to_i32-final r.status final))

-- A reservation whose row is in place is read back as it was written.
pub get_reservation-with_reservation :
    (db : Database) (r : Reservation)
    → get_reservation {E = Never} (with_reservation db r) r.id ≡ ok r
unfolding get_reservation
get_reservation-with_reservation db r =
    let stored_row : find (has_reservation_id r.id) (with_reservation db r).balance_reservations
        ≡ some (reservation_row r) =
      find-upsert_self (has_reservation_id r.id) (reservation_row r) db.balance_reservations
        (==_refl r.id) in
    ground arith

-- A reservation with a new id, or with an id whose row is pending, is stored and read back as it was
-- written.
pub get_reservation-upsert_reservation :
    (db : Database) (r : Reservation)
    → ((row : ReservationRow)
        → find (has_reservation_id r.id) db.balance_reservations ≡ some row
        → row.status ≡ 0)
    → (db' : Database) × (upsert_reservation {E = Never} db r ≡ ok db')
      × (get_reservation {E = Never} db' r.id ≡ ok r)
unfolding upsert_reservation
get_reservation-upsert_reservation db r open_row = (
  with_reservation db r,
  elim (Option-cases (find (has_reservation_id r.id) db.balance_reservations)) [
    | inl new_id ↦ rw (new_id, upsert_reservation)
    | inr (row, e) ↦ ground (arith, open_row row e)
  ],
  get_reservation-with_reservation db r,
)

-- The update of a balance writes to the users only.
pub update-keeps :
    (db db' : Database) (b : Balance) → update db b ≡ ok db' → record db { users = db'.users } ≡ db'
unfolding update
update-keeps db db' b h = elim (Option-cases (find (is_unchanged b) db.users)) [
  | inl none_there ↦ ground arith
  | inr (row, e) ↦ ground arith
]
