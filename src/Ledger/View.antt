-- ===== src/Ledger/View.antt =====
-- The ledger of a database: the balances of the users, and the sums of their reservations by status.
use laas_api.Base.{
  ◌==◌, ◌≡◌, ap, sym, Bool-cases, inl, inr, ◌∙◌, arith, Bool, Option, none, some, List, [], ◌∷◌,
  ◌&&◌, find, upsert, ℕ, if◌then◌else◌,
}
use laas_api.Int.{ℤ, pos, ◌+ℤ◌, int_laws}
use laas_api.Database.{Uuid, Database, UserRow, ReservationRow}
use laas_api.Balance.Queries.{has_id}
use laas_api.Ledger.{Ledger}
use laas_api.Ledger.Laws.{add_right}

abbrev pub balance_of : Option UserRow → ℤ
balance_of none = pos 0
balance_of (some row) = row.balance_msats

abbrev pub available : Database → Uuid → ℤ
available db u = balance_of (find (has_id u) db.users)

-- What a row adds to the sum of a user's reservations with a status.
abbrev pub part : ℕ → Uuid → ReservationRow → ℤ
part s u row = if row.user_id == u && row.status == s then row.amount_msats else pos 0

abbrev pub sum : ℕ → Uuid → List ReservationRow → ℤ
sum s u [] = pos 0
sum s u (row ∷ rows) = part s u row +ℤ sum s u rows

abbrev pub view : Database → Ledger
view db = record {
  available = available db;
  held = λ u. sum 0 u db.balance_reservations;
  spent = λ u. sum 1 u db.balance_reservations;
}

add_comm : (a b : ℤ) → a +ℤ b ≡ b +ℤ a
add_comm a b = omega int_laws

swap_ends : (x y z : ℤ) → x +ℤ y +ℤ z ≡ z +ℤ y +ℤ x
swap_ends x y z = omega int_laws

add_left_both : (x a b c d : ℤ) → a +ℤ b ≡ c +ℤ d → x +ℤ a +ℤ b ≡ x +ℤ c +ℤ d
add_left_both x a b c d e = sym (add_right x a b) ∙ ap (λ z. x +ℤ z) e ∙ add_right x c d

module _ (s : ℕ) (u : Uuid) (p : ReservationRow → Bool) (v : ReservationRow) where
  -- A new row adds its part to a sum.
  pub sum-upsert_new :
      (rows : List ReservationRow)
      → find p rows ≡ none
      → sum s u (upsert p v rows) ≡ sum s u rows +ℤ part s u v
  sum-upsert_new [] e = add_comm (part s u v) (pos 0)
  sum-upsert_new (row ∷ rows) e = elim (Bool-cases (p row)) [
    | inl here ↦ absurd (ground arith)
    | inr there ↦
        let rest = sum-upsert_new rows (ground arith) in
        rw (there, rest) (add_right (part s u row) (sum s u rows) (part s u v))
  ]

  -- A row that takes the place of another puts its part for the other's.
  pub sum-upsert_old :
      (old : ReservationRow) (rows : List ReservationRow)
      → find p rows ≡ some old
      → sum s u (upsert p v rows) +ℤ part s u old ≡ sum s u rows +ℤ part s u v
  sum-upsert_old old [] e = cc e
  sum-upsert_old old (row ∷ rows) e = elim (Bool-cases (p row)) [
    | inl here ↦
        let same : row ≡ old = ground arith in
        rw (here, same) (swap_ends (part s u v) (sum s u rows) (part s u old))
    | inr there ↦
        let rest = sum-upsert_old old rows (ground arith) in
        rw there (
          add_left_both (part s u row) (sum s u (upsert p v rows)) (part s u old) (sum s u rows)
            (part s u v) rest)
  ]
