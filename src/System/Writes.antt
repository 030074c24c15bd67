-- ===== src/System/Writes.antt =====
-- What a transaction writes is a step of the abstract ledger, and keeps the database valid.
use laas_api.Base.{◌≡◌, ◌∙◌, refl, sym, ap, inl, inr, true, find, All, find-All, upsert-All, arith}
use laas_api.Int.{ℤ, pos, ◌+ℤ◌, ◌≤ℤ◌, ◌<ℤ◌, IsI64, sub_covered, add_i64-eq, int_laws}
use laas_api.Btc.{add, sub}
use laas_api.Database.{Uuid, Database, ReservationRow}
use laas_api.Balance.{Reservation, changed}
use laas_api.Balance.Queries.{has_reservation_id, reservation_row, has_id}
use laas_api.Ledger.{LedgerStep, idles, credits, holds, releases, spends, Kept}
use laas_api.Ledger.View.{view, available, balance_of, sum}
use laas_api.System.{IsValid}
use laas_api.System.Effects.{
  Effect, keeps, brings, reserves, rewrites, refunds, Written, moved_to, IsOpen, IsSameUsers,
  IsUpserted,
}
use laas_api.System.Moves.{
  changed_more, changed_less, written-available, written-IsKeyed, written-IsI64, held_new,
  held_again, held_ended, spent_ended, spent_refunded,
}

-- What a step reads stays positive.
open_positive : (db : Database) (r : Reservation) → IsValid db → IsOpen db r → pos 0 <ℤ r.amount
open_positive db r valid (row, e, user, amount, status) = rw (← amount) (
    find-All (λ x. pos 0 <ℤ ReservationRow.amount_msats x) (has_reservation_id r.id) row
      db.balance_reservations valid.positive e)

Kept-available : (db db' : Database) → IsSameUsers db db' → Kept (available db) (available db')
Kept-available db db' same j = ap (λ x. balance_of (find (has_id j) x)) same

-- What a user has after a reservation of a covered, positive amount.
less_lem : (o a : ℤ) → IsI64 o → pos 0 <ℤ a → a ≤ℤ o → (o ≡ sub o a +ℤ a) × IsI64 (sub o a)
unfolding sub
less_lem o a range positive covered =
    let (e, left, back, again) = sub_covered o a range (omega arith) covered in
    (rw e (sym back), rw e (omega int_laws))

sum_eq : (o a : ℤ) → IsI64 (o +ℤ a) → add o a ≡ o +ℤ a
unfolding add
sum_eq o a range = add_i64-eq o a range

-- A write is a step of the ledger.
pub Effect-LedgerStep :
    (db db' : Database) (income : Uuid → ℤ)
    → IsValid db
    → Effect db db' income
    → LedgerStep (view db) (view db') income
Effect-LedgerStep db db' i valid (keeps n users rows) =
    idles n (Kept-available db db' users) (λ j. ap (sum 0 j) rows) (λ j. ap (sum 1 j) rows)
Effect-LedgerStep db db' i valid (brings u o a n p range w rows) =
    let (before, after, others) =
      written-available db db' u o (add o a) valid.keyed w (changed_more u o a p range) in
    credits u a n p (after ∙ sum_eq o a range ∙ ap (λ x. x +ℤ a) (sym before), others)
      (λ j. ap (sum 0 j) rows) (λ j. ap (sum 1 j) rows)
Effect-LedgerStep db db' i valid (reserves r o n pends fresh p covered w put) =
    let (before, after, others) =
      written-available db db' r.user_id o (sub o r.amount) valid.keyed w
        (changed_less r.user_id o r.amount p covered) in
    let (held, spent) = held_new db db' r put pends fresh in
    let range : IsI64 o = rw (← before) (valid.bounded r.user_id) in
    holds r.user_id r.amount n p (rw before covered)
      (
        before ∙ (less_lem o r.amount range p covered).0 ∙ ap (λ x. x +ℤ r.amount) (sym after),
        λ j ne. sym (others j ne),
      )
      held spent
Effect-LedgerStep db db' i valid (rewrites r n (inl pends) opened users put) =
    let (held, spent) = held_again db db' r put opened pends in
    idles n (Kept-available db db' users) held spent
Effect-LedgerStep db db' i valid (rewrites r n (inr debits) opened users put) =
    spends r.user_id r.amount n (open_positive db r valid opened) (Kept-available db db' users)
      (held_ended db db' r put opened (rw debits refl)) (spent_ended db db' r put opened debits)
Effect-LedgerStep db db' i valid (refunds r o n s range opened w put) =
    let p = open_positive db r valid opened in
    let (before, after, others) =
      written-available db db' r.user_id o (add o r.amount) valid.keyed w
        (changed_more r.user_id o r.amount p range) in
    releases r.user_id r.amount n p
      (after ∙ sum_eq o r.amount range ∙ ap (λ x. x +ℤ r.amount) (sym before), others)
      (held_ended db db' r put opened (rw s refl)) (spent_refunded db db' r put opened s)

kept_IsValid :
    (db db' : Database)
    → IsValid db
    → IsSameUsers db db'
    → All (λ row. pos 0 <ℤ ReservationRow.amount_msats row) db'.balance_reservations
    → IsValid db'
kept_IsValid db db' valid users positive = record {
  keyed = rw users valid.keyed;
  bounded = λ u. rw (Kept-available db db' users u) (valid.bounded u);
  positive = positive;
}

put_positive :
    (db db' : Database) (r : Reservation)
    → IsValid db
    → IsUpserted db r db'
    → pos 0 <ℤ r.amount
    → All (λ row. pos 0 <ℤ ReservationRow.amount_msats row) db'.balance_reservations
put_positive db db' r valid put p = rw put (
    upsert-All (λ x. pos 0 <ℤ ReservationRow.amount_msats x) (has_reservation_id r.id)
      (reservation_row r) db.balance_reservations valid.positive p)

-- A write of a balance keeps the users valid.
Written-IsValid :
    (db db' : Database) (u : Uuid) (o a : ℤ)
    → IsValid db
    → Written db (moved_to u o a) db'
    → changed (moved_to u o a) ≡ true
    → IsI64 a
    → All (λ row. pos 0 <ℤ ReservationRow.amount_msats row) db'.balance_reservations
    → IsValid db'
Written-IsValid db db' u o a valid w moves range positive = record {
  keyed = written-IsKeyed db db' u o a valid.keyed w moves;
  bounded = written-IsI64 db db' u o a valid.keyed w moves valid.bounded range;
  positive = positive;
}

pub Effect-IsValid :
    (db db' : Database) (income : Uuid → ℤ) → IsValid db → Effect db db' income → IsValid db'
Effect-IsValid db db' i valid (keeps n users rows) =
    kept_IsValid db db' valid users (rw rows valid.positive)
Effect-IsValid db db' i valid (brings u o a n p range w rows) =
    Written-IsValid db db' u o (add o a) valid w (changed_more u o a p range)
      (rw (sum_eq o a range) range) (rw rows valid.positive)
Effect-IsValid db db' i valid (reserves r o n pends fresh p covered w put) =
    let moves = changed_less r.user_id o r.amount p covered in
    let (before, after, others) =
      written-available db db' r.user_id o (sub o r.amount) valid.keyed w moves in
    let range : IsI64 o = rw (← before) (valid.bounded r.user_id) in
    Written-IsValid db db' r.user_id o (sub o r.amount) valid w moves
      (less_lem o r.amount range p covered).1 (put_positive db db' r valid put p)
Effect-IsValid db db' i valid (rewrites r n is opened users put) =
    kept_IsValid db db' valid users
      (put_positive db db' r valid put (open_positive db r valid opened))
Effect-IsValid db db' i valid (refunds r o n s range opened w put) =
    let p = open_positive db r valid opened in
    Written-IsValid db db' r.user_id o (add o r.amount) valid w
      (changed_more r.user_id o r.amount p range) (rw (sum_eq o r.amount range) range)
      (put_positive db db' r valid put p)
