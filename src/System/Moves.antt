-- ===== src/System/Moves.antt =====
-- What a written balance and a written reservation do to the ledger of the database.
use laas_api.Base.{
  ◌≡◌, ◌∙◌, refl, sym, ap, subst, arith, true, false, ◌==◌, ==_refl, ==_iff, Bool-cases, inl, inr,
  find, upsert, find_sound, some, IsKeyed, upsert-IsKeyed, ℕ, ◌≢◌,
}
use laas_api.Int.{
  ℤ, pos, pos_part, neg_part, ◌+ℤ◌, ◌-ℤ◌, +ℤ_parts, ◌≤ℤ◌, ◌<ℤ◌, IsI64, eq_of_parts, eqb_ℤ,
  eqb_ℤ_iff, int_laws, add_i64-eq, sub_covered, wrap_i64-IsI64, sub_i64,
}
use laas_api.Btc.{add, sub}
use laas_api.Database.{Uuid, Database, ReservationRow}
use laas_api.Balance.{Reservation, pending, debited, refunded, changed}
use laas_api.Balance.Queries.{has_id, has_reservation_id, reservation_row, status_to_i32}
use laas_api.Balance.Updates.{user_key, Stored, with_balance, update_success, update_row}
use laas_api.Ledger.{Moved, Kept, share}
use laas_api.Ledger.View.{available, view, balance_of, part, sum, sum-upsert_new, sum-upsert_old}
use laas_api.Ledger.Laws.{add_zero}
use laas_api.System.Effects.{Written, moved_to, IsUpserted, IsOpen}
use laas_api.System.{IsFresh}

-- A balance that is not what was read, as it is after a positive amount was added.
pub changed_more :
    (u : Uuid) (o a : ℤ) → pos 0 <ℤ a → IsI64 (o +ℤ a) → changed (moved_to u o (add o a)) ≡ true
unfolding changed add
changed_more u o a positive range = rw (add_i64-eq o a range) (ground (arith, +ℤ_parts o a))

less_ne : (o a : ℤ) → pos 0 <ℤ a → o ≢ o -ℤ a
less_ne o a positive e = let p = ap pos_part e in let n = ap neg_part e in omega (int_laws, p, n)

-- Or after a positive amount that it covers was taken away.
pub changed_less :
    (u : Uuid) (o a : ℤ) → pos 0 <ℤ a → a ≤ℤ o → changed (moved_to u o (sub o a)) ≡ true
unfolding changed sub sub_i64
changed_less u o a positive covered = elim (Bool-cases (eqb_ℤ o (sub o a))) [
  | inl same ↦
      let e : o ≡ sub o a = (eqb_ℤ_iff o (sub o a)).0 same in
      let range : IsI64 o = rw e (wrap_i64-IsI64 (o -ℤ a)) in
      let less = e ∙ (sub_covered o a range (omega arith) covered).0 in
      absurd (less_ne o a positive less)
  | inr other ↦ rw other refl
]

Stored-available : (db : Database) (u : Uuid) (a : ℤ) → Stored db u a → available db u ≡ a
Stored-available db u a (row, e, amount) = rw e amount

module _ (db db' : Database) (u : Uuid) (o a : ℤ) (keyed : IsKeyed user_key db.users)
    (written : Written db (moved_to u o a) db') (moves : changed (moved_to u o a) ≡ true) where
  -- A changed balance that was written was stored as it was read, and is stored as it is now.
  pub written-available :
      (available db u ≡ o)
      × (available db' u ≡ a)
      × ((j : Uuid) → (u == j) ≡ false → available db' j ≡ available db j)
  written-available =
      let (before, after, others) =
        update_success db (record db { users = db'.users }) (moved_to u o a) keyed written moves in
      (
        Stored-available db u o before,
        Stored-available (record db { users = db'.users }) u a after,
        λ j ne. ap balance_of (others j ne),
      )

  pub written-IsKeyed : IsKeyed user_key db'.users
  written-IsKeyed =
      let ((row, e, amount), after, others) =
        update_success db (record db { users = db'.users }) (moved_to u o a) keyed written moves in
      let (swapped, users) =
        update_row db (record db { users = db'.users }) (moved_to u o a) keyed written row e
          moves in
      let own : row.id ≡ u = (==_iff row.id u).0 (find_sound (has_id u) db.users {v = row} e) in
      rw users (
        subst
          (λ i. IsKeyed user_key (upsert (has_id i) (with_balance row (moved_to u o a)) db.users))
          own (upsert-IsKeyed user_key (with_balance row (moved_to u o a)) db.users keyed))

  pub written-IsI64 :
      ((j : Uuid) → IsI64 (available db j)) → IsI64 a → (j : Uuid) → IsI64 (available db' j)
  written-IsI64 bounded range j = elim (Bool-cases (u == j)) [
    | inl here ↦
        subst (λ i. IsI64 (available db' i)) ((==_iff u j).0 here) (rw written-available.1 range)
    | inr there ↦ rw (written-available.2 j there) (bounded j)
  ]

-- A move that is known as shares.
pub share-Moved :
    (f g : Uuid → ℤ) (u : Uuid) (a : ℤ) → ((j : Uuid) → g j ≡ f j +ℤ share u a j) → Moved f g u a
share-Moved f g u a e = (e u ∙ rw (==_refl u) refl, λ j ne. e j ∙ rw ne (sym (add_zero (f j))))

part_same :
    (s : ℕ) (j : Uuid) (row : ReservationRow)
    → row.status ≡ s
    → part s j row ≡ share row.user_id row.amount_msats j
part_same s j row e = rw (e, ==_refl s) (ground arith)

part_other :
    (s : ℕ) (j : Uuid) (row : ReservationRow) → (row.status == s) ≡ false → part s j row ≡ pos 0
part_other s j row e = rw e (ground arith)

cancel_right : (x y d : ℤ) → x +ℤ d ≡ y +ℤ d → x ≡ y
cancel_right x y d e =
    let p = ap pos_part e in let n = ap neg_part e in eq_of_parts x y (omega (int_laws, p, n))

-- What a reservation that is written does to the sums.
module _ (db db' : Database) (r : Reservation) (w : IsUpserted db r db') where
  sum_new :
      (s : ℕ) (j : Uuid)
      → IsFresh r.id db
      → sum s j db'.balance_reservations
        ≡ sum s j db.balance_reservations +ℤ part s j (reservation_row r)
  sum_new s j fresh = rw w (
      sum-upsert_new s j (has_reservation_id r.id) (reservation_row r) db.balance_reservations
        fresh)

  sum_old :
      (s : ℕ) (j : Uuid) (row : ReservationRow)
      → find (has_reservation_id r.id) db.balance_reservations ≡ some row
      → sum s j db'.balance_reservations +ℤ part s j row
        ≡ sum s j db.balance_reservations +ℤ part s j (reservation_row r)
  sum_old s j row e = rw w (
      sum-upsert_old s j (has_reservation_id r.id) (reservation_row r) row db.balance_reservations
        e)

  -- A new reservation that is pending is held, and not spent.
  pub held_new :
      r.status ≡ pending
      → IsFresh r.id db
      → Moved (view db).held (view db').held r.user_id r.amount
        × Kept (view db).spent (view db').spent
  held_new pends fresh = (
    share-Moved (view db).held (view db').held r.user_id r.amount (λ j.
        sum_new 0 j fresh
        ∙ ap (λ x. sum 0 j db.balance_reservations +ℤ x)
            (part_same 0 j (reservation_row r) (rw pends refl))),
    λ j.
        sum_new 1 j fresh
        ∙ ap (λ x. sum 1 j db.balance_reservations +ℤ x)
            (part_other 1 j (reservation_row r) (rw pends refl))
        ∙ sym (add_zero (sum 1 j db.balance_reservations)),
  )

  module _ (opened : IsOpen db r) where
    -- The part of the row that is written over.
    old_held : (j : Uuid) → part 0 j opened.0 ≡ share r.user_id r.amount j
    old_held j =
        part_same 0 j opened.0 opened.4
        ∙ ap (λ x. share x opened.0.amount_msats j) opened.2
        ∙ ap (λ x. share r.user_id x j) opened.3

    -- What a pending reservation that is written does to the sum of those with a status.
    held_old :
        (j : Uuid)
        → sum 0 j db'.balance_reservations +ℤ share r.user_id r.amount j
          ≡ sum 0 j db.balance_reservations +ℤ part 0 j (reservation_row r)
    held_old j =
        ap (λ x. sum 0 j db'.balance_reservations +ℤ x) (sym (old_held j))
        ∙ sum_old 0 j opened.0 opened.1

    spent_old :
        (j : Uuid)
        → sum 1 j db'.balance_reservations
          ≡ sum 1 j db.balance_reservations +ℤ part 1 j (reservation_row r)
    spent_old j =
        add_zero (sum 1 j db'.balance_reservations)
        ∙ ap (λ x. sum 1 j db'.balance_reservations +ℤ x)
            (sym (part_other 1 j opened.0 (rw opened.4 refl)))
        ∙ sum_old 1 j opened.0 opened.1

    spent_none :
        (j : Uuid)
        → (status_to_i32 r.status == 1) ≡ false
        → sum 1 j db.balance_reservations +ℤ part 1 j (reservation_row r)
          ≡ sum 1 j db.balance_reservations
    spent_none j e =
        ap (λ x. sum 1 j db.balance_reservations +ℤ x) (part_other 1 j (reservation_row r) e)
        ∙ sym (add_zero (sum 1 j db.balance_reservations))

    -- A pending reservation that is written again is held as before.
    pub held_again :
        r.status ≡ pending
        → Kept (view db).held (view db').held × Kept (view db).spent (view db').spent
    held_again pends = (
      λ j.
          cancel_right (sum 0 j db'.balance_reservations) (sum 0 j db.balance_reservations)
            (share r.user_id r.amount j)
            (held_old j
              ∙ ap (λ x. sum 0 j db.balance_reservations +ℤ x)
                  (part_same 0 j (reservation_row r) (rw pends refl))),
      λ j. spent_old j ∙ spent_none j (rw pends refl),
    )

    -- A pending reservation that is written as final is not held any more.
    pub held_ended :
        (status_to_i32 r.status == 0) ≡ false
        → Moved (view db').held (view db).held r.user_id r.amount
    held_ended final = share-Moved (view db').held (view db).held r.user_id r.amount (λ j. sym (
        held_old j
        ∙ ap (λ x. sum 0 j db.balance_reservations +ℤ x) (part_other 0 j (reservation_row r) final)
        ∙ sym (add_zero (sum 0 j db.balance_reservations))))

    -- It is spent, if it is debited.
    pub spent_ended : r.status ≡ debited → Moved (view db).spent (view db').spent r.user_id r.amount
    spent_ended e = share-Moved (view db).spent (view db').spent r.user_id r.amount (λ j.
        spent_old j
        ∙ ap (λ x. sum 1 j db.balance_reservations +ℤ x)
            (part_same 1 j (reservation_row r) (rw e refl)))

    -- It is not spent, if it is refunded.
    pub spent_refunded : r.status ≡ refunded → Kept (view db).spent (view db').spent
    spent_refunded e = λ j. spent_old j ∙ spent_none j (rw e refl)
