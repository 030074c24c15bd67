-- ===== src/System/Effects.antt =====
-- What the transactions write to the users and to the reservations.
use laas_api.Base.{
  ◌≡◌, refl, ap, sym, ◌⊎◌, inl, inr, ok, some, find, upsert, arith, Option-cases, Bool-cases, subst,
  false,
}
use laas_api.Int.{ℤ, pos, ◌+ℤ◌, ◌≤ℤ◌, ◌<ℤ◌, IsI64}
use laas_api.Btc.{add, sub}
use laas_api.Database.{Uuid, Database, ReservationRow}
use laas_api.Balance.{Balance, Reservation, pending, debited, refunded, changed}
use laas_api.Balance.Queries.{
  has_reservation_id, with_reservation, update, upsert_reservation, is_unchanged,
}
use laas_api.Balance.Updates.{with_balance}
use laas_api.Ledger.{share, Kept, IsNothing}
use laas_api.System.{IsFresh}

-- A balance that was read as one amount and is another now.
abbrev pub moved_to : Uuid → ℤ → ℤ → Balance
moved_to u o a = record { user_id = u; original_amount = o; amount = a }

-- The users are as the update of a balance leaves them.
abbrev pub Written : Database → Balance → Database → Type 0
Written db b db' = update db b ≡ ok (record db { users = db'.users })

abbrev pub IsSameUsers : Database → Database → Type 0
IsSameUsers db db' = db'.users ≡ db.users

abbrev pub IsSameReservations : Database → Database → Type 0
IsSameReservations db db' = db'.balance_reservations ≡ db.balance_reservations

abbrev pub IsUpserted : Database → Reservation → Database → Type 0
IsUpserted db r db' = db'.balance_reservations ≡ (with_reservation db r).balance_reservations

-- The row of a reservation that was read is still there, for the same user and the same amount.
abbrev pub IsThere : Database → Reservation → Type 0
IsThere db r =
    (row : ReservationRow) × (find (has_reservation_id r.id) db.balance_reservations ≡ some row)
    × (row.user_id ≡ r.user_id)
    × (row.amount_msats ≡ r.amount)

-- The row of a reservation is there and pending.
abbrev pub IsOpen : Database → Reservation → Type 0
IsOpen db r =
    (row : ReservationRow) × (find (has_reservation_id r.id) db.balance_reservations ≡ some row)
    × (row.user_id ≡ r.user_id)
    × (row.amount_msats ≡ r.amount)
    × (row.status ≡ 0)

-- The ways in which a transaction writes balances and reservations.
pub data Effect (db db' : Database) (income : Uuid → ℤ) : Type 0 where
  keeps : IsNothing income → IsSameUsers db db' → IsSameReservations db db' → Effect db db' income
  brings :
      (u : Uuid) (o a : ℤ)
      → Kept (share u a) income
      → pos 0 <ℤ a
      → IsI64 (o +ℤ a)
      → Written db (moved_to u o (add o a)) db'
      → IsSameReservations db db'
      → Effect db db' income
  reserves :
      (r : Reservation) (o : ℤ)
      → IsNothing income
      → r.status ≡ pending
      → IsFresh r.id db
      → pos 0 <ℤ r.amount
      → r.amount ≤ℤ o
      → Written db (moved_to r.user_id o (sub o r.amount)) db'
      → IsUpserted db r db'
      → Effect db db' income
  rewrites :
      (r : Reservation)
      → IsNothing income
      → (r.status ≡ pending) ⊎ (r.status ≡ debited)
      → IsOpen db r
      → IsSameUsers db db'
      → IsUpserted db r db'
      → Effect db db' income
  refunds :
      (r : Reservation) (o : ℤ)
      → IsNothing income
      → r.status ≡ refunded
      → IsI64 (o +ℤ r.amount)
      → IsOpen db r
      → Written db (moved_to r.user_id o (add o r.amount)) db'
      → IsUpserted db r db'
      → Effect db db' income

-- An update reads and writes the users only.
pub update-Written :
    (db mid db' : Database) (b : Balance)
    → IsSameUsers db mid
    → update mid b ≡ ok db'
    → Written db b db' × IsSameReservations mid db'
unfolding update
update-Written db mid db' b same h =
    let e = subst (λ x. find (is_unchanged b) x ≡ find (is_unchanged b) db.users) (sym same) refl in
    elim (Bool-cases (changed b)) [
      | inl moves ↦ elim (Option-cases (find (is_unchanged b) db.users)) [
        | inl missing ↦ absurd (ground arith)
        | inr (row, found) ↦ ground (arith, ap (upsert (is_unchanged b) (with_balance row b)) same)
      ]
      | inr stays ↦ ground arith
    ]

pub update_kept :
    (mid db' : Database) (b : Balance) → changed b ≡ false → update mid b ≡ ok db' → db' ≡ mid
unfolding update
update_kept mid db' b same h = ground arith

-- An upsert of a reservation that succeeds puts the row in place, and there was none, or a pending one.
pub upsert_reservation-cases :
    {E : Type 0} (db db' : Database) (r : Reservation)
    → upsert_reservation {E = E} db r ≡ ok db'
    → (db' ≡ with_reservation db r)
      × (IsFresh r.id db
          ⊎ ((row : ReservationRow) × (find (has_reservation_id r.id) db.balance_reservations
                ≡ some row)
              × (row.status ≡ 0)))
unfolding upsert_reservation
upsert_reservation-cases db db' r h =
    elim (Option-cases (find (has_reservation_id r.id) db.balance_reservations)) [
      | inl new_id ↦ (ground arith, inl new_id)
      | inr (row, e) ↦ (ground arith, inr (row, e, ground arith))
    ]

-- A reservation whose row is there can only be written over a pending row.
pub upsert_reservation-IsOpen :
    {E : Type 0} (db db' : Database) (r : Reservation)
    → IsThere db r
    → upsert_reservation {E = E} db r ≡ ok db'
    → (db' ≡ with_reservation db r) × IsOpen db r
upsert_reservation-IsOpen db db' r (row, found, user, amount) h =
    let (written, cases) = upsert_reservation-cases db db' r h in
    (
      written,
      elim cases [
        | inl fresh ↦ absurd (ground arith)
        | inr (old, e, open_status) ↦
            let same : old ≡ row = ground arith in
            (row, found, user, amount, rw (← same) open_status)
      ],
    )
