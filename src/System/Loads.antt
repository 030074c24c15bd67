-- ===== src/System/Loads.antt =====
-- What a transaction has read, and what is left of it when others have committed.
use laas_api.Base.{
  ◌≡◌, ◌∙◌, refl, sym, subst, inl, inr, ok, some, find, ◌==◌, ==_iff, ==_refl, arith, Option-cases,
  Bool-cases, find_sound, >>=-eq-ok, unwrap, find-upsert_self, find-upsert_ne,
}
use laas_api.Int.{ℤ}
use laas_api.Database.{Uuid, Database, ReservationRow}
use laas_api.Balance.{Balance, Reservation, new}
use laas_api.Balance.Queries
use laas_api.Balance.Queries.{has_id, has_reservation_id, reservation_row, with_reservation}
use laas_api.Ledger.View.{available}
use laas_api.System.Effects.{
  Effect, keeps, brings, reserves, rewrites, refunds, IsThere, IsOpen, IsSameReservations,
  IsUpserted,
}

-- A balance is read as the stored one.
pub get-available :
    {E : Type 0} (db : Database) (u : Uuid) (b : Balance)
    → Queries.get {E = E} db u ≡ ok b
    → b ≡ new u (available db u)
unfolding Queries.get new
get-available db u b h = elim (Option-cases (find (has_id u) db.users)) [
  | inl missing ↦ absurd (ground arith)
  | inr (row, e) ↦
      let same : row.id ≡ u = (==_iff row.id u).0 (find_sound (has_id u) db.users {v = row} e) in
      ground arith
]

-- Every reservation of the first database is in the second, for the same user and the same amount.
abbrev pub Extends : Database → Database → Type 0
Extends seen db =
    (id : Uuid) (row : ReservationRow)
    → find (has_reservation_id id) seen.balance_reservations ≡ some row
    → (row' : ReservationRow) × (find (has_reservation_id id) db.balance_reservations ≡ some row')
      × (row'.user_id ≡ row.user_id)
      × (row'.amount_msats ≡ row.amount_msats)

into_entity-fields :
    {E : Type 0} (row : ReservationRow) (r : Reservation)
    → Queries.into_entity {E = E} row ≡ ok r
    → (r.id ≡ row.id) × (row.user_id ≡ r.user_id) × (row.amount_msats ≡ r.amount)
unfolding Queries.into_entity
into_entity-fields row r h =
    let (status, stored, made) = >>=-eq-ok (Queries.status_of_i32 row.status) _ h in ground arith

-- A reservation that was read is there, under the id that it was asked for by.
pub get_reservation-IsThere :
    {E : Type 0} (seen db : Database) (id : Uuid) (r : Reservation)
    → Queries.get_reservation {E = E} seen id ≡ ok r
    → Extends seen db
    → IsThere db r
unfolding Queries.get_reservation
get_reservation-IsThere seen db id r h x =
    let (row, found, made) =
      >>=-eq-ok (unwrap (find (has_reservation_id id) seen.balance_reservations)) _ h in
    let e : find (has_reservation_id id) seen.balance_reservations ≡ some row = ground arith in
    let (row', e', user, amount) = x id row e in
    let (same_id, user_eq, amount_eq) = into_entity-fields row r made in
    let own : row.id ≡ id =
      (==_iff row.id id).0
        (find_sound (has_reservation_id id) seen.balance_reservations {v = row} e) in
    (
      row',
      subst (λ i. find (has_reservation_id i) db.balance_reservations ≡ some row')
          (sym (same_id ∙ own)) e',
      user ∙ user_eq,
      amount ∙ amount_eq,
    )

-- A write of a reservation leaves the others as they are, and its own row to the user and the amount.
upsert-Extends :
    (db db' : Database) (r : Reservation)
    → IsUpserted db r db'
    → ((row : ReservationRow)
        → find (has_reservation_id r.id) db.balance_reservations ≡ some row
        → (row.user_id ≡ r.user_id) × (row.amount_msats ≡ r.amount))
    → Extends db db'
upsert-Extends db db' r w own id row e = elim (Bool-cases (r.id == id)) [
  | inl here ↦
      let same = (==_iff r.id id).0 here in
      let (user, amount) = own row (
        subst (λ i. find (has_reservation_id i) db.balance_reservations ≡ some row) (sym same) e) in
      (
        reservation_row r,
        rw (w, ← same)
            (find-upsert_self (has_reservation_id r.id) (reservation_row r) db.balance_reservations
              (==_refl r.id)),
        sym user,
        sym amount,
      )
  | inr there ↦ (
    row,
    rw w (
        find-upsert_ne (has_reservation_id r.id) (has_reservation_id id) (reservation_row r)
          db.balance_reservations there (λ x h. ground arith)
        ∙ e),
    refl,
    refl,
  )
]

open_row :
    (db : Database) (r : Reservation)
    → IsOpen db r
    → (row : ReservationRow) → find (has_reservation_id r.id) db.balance_reservations ≡ some row
    → (row.user_id ≡ r.user_id) × (row.amount_msats ≡ r.amount)
open_row db r (old, found, user, amount, status) row e =
    let same : old ≡ row = ground arith in rw (← same) (user, amount)

kept_Extends : (db db' : Database) → IsSameReservations db db' → Extends db db'
kept_Extends db db' same id row e = (row, rw same e, refl, refl)

-- No transaction takes a reservation away, or gives it another user or amount.
pub Effect-Extends : (db db' : Database) (income : Uuid → ℤ) → Effect db db' income → Extends db db'
Effect-Extends db db' i (keeps n users same) = kept_Extends db db' same
Effect-Extends db db' i (brings u o a n p l w same) = kept_Extends db db' same
Effect-Extends db db' i (reserves r o n s f p c w x) =
    upsert-Extends db db' r x (λ row e. absurd (ground arith))
Effect-Extends db db' i (rewrites r n s f u x) = upsert-Extends db db' r x (open_row db r f)
Effect-Extends db db' i (refunds r o n s l f w x) = upsert-Extends db db' r x (open_row db r f)

pub Extends-trans : (a b c : Database) → Extends a b → Extends b c → Extends a c
Extends-trans a b c x y id row e =
    let (row', e', user, amount) = x id row e in
    let (row'', e'', user', amount') = y id row' e' in (row'', e'', user' ∙ user, amount' ∙ amount)
