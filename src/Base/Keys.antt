-- ===== src/Base/Keys.antt =====
-- Tables whose rows have distinct keys, as a `PRIMARY KEY` or a unique index demands.
use Prim.Native.Nat.{ℕ}
use mathlib.Core.Path.{◌≡◌, refl, subst, ◌∙◌, sym, ap}
use mathlib.Core.Logic.{inl, inr, ◌≢◌}
use mathlib.Core.Bool.{Bool, true, false, ◌&&◌}
use mathlib.Core.Option.{none, some}
use mathlib.Core.List.{List, [], ◌∷◌}
use native.Mathlib.Omega.{arith}
use laas_api.Base.Tests.{◌==◌, if◌then◌else◌, ==_iff, Bool-cases}
use laas_api.Base.Tables.{find, upsert, find-upsert_ne}

module _ {ℓ} {A : Type ℓ} where
  -- A narrower test finds nothing where a wider one finds nothing.
  pub find_narrow :
      (p r : A → Bool) (xs : List A)
      → ((x : A) → p x ≡ false → r x ≡ false)
      → find p xs ≡ none
      → find r xs ≡ none
  find_narrow p r [] d e = refl
  find_narrow p r (x ∷ xs) d e = ground (arith, d x, find_narrow p r xs d)

module _ {ℓ} {A : Type ℓ} (key : A → ℕ) where
  -- No two rows have one key.
  abbrev pub IsKeyed : List A → Type ℓ
  IsKeyed [] = Unit
  IsKeyed (x ∷ xs) = (find (λ y. key y == key x) xs ≡ none) × IsKeyed xs

  eq_narrow :
      (j k : ℕ) (q : A → Bool)
      → j ≡ k
      → (y : A) → (key y == j) ≡ false
      → (key y == k && q y) ≡ false
  eq_narrow j k q e y h = ground arith

  -- A further test on the row with a key decides about that row alone.
  pub find_and :
      (k : ℕ) (q : A → Bool) (v : A) (xs : List A)
      → IsKeyed xs
      → find (λ x. key x == k) xs ≡ some v
      → find (λ x. key x == k && q x) xs ≡ (if q v then some v else none)
  find_and k q v [] u e = cc
  find_and k q v (x ∷ xs) u e = ground (
    arith,
    find_and k q v xs,
    λ (h : key x ≡ k).
        find_narrow (λ y. key y == key x) (λ y. key y == k && q y) xs (eq_narrow (key x) k q h) u.0,
  )

  ne_key : (j k : ℕ) → (j == k) ≡ false → (y : A) → (key y == j) ≡ true → (key y == k) ≡ false
  ne_key j k h y e = ground arith

  pub upsert-IsKeyed :
      (v : A) (xs : List A) → IsKeyed xs → IsKeyed (upsert (λ x. key x == key v) v xs)
  upsert-IsKeyed v [] u = (refl, tt)
  upsert-IsKeyed v (x ∷ xs) u = elim (Bool-cases (key x == key v)) [
    | inl same ↦
        rw same (subst (λ k. find (λ y. key y == k) xs ≡ none) ((==_iff _ _).0 same) u.0, u.1)
    | inr other ↦ rw other (
      find-upsert_ne (λ y. key y == key v) (λ y. key y == key x) v xs (ground arith)
            (ne_key (key v) (key x) (ground arith))
          ∙ u.0,
      upsert-IsKeyed v xs u.1,
    )
  ]

  -- If the row with a key passes a further test, that row is the one that is replaced.
  pub upsert_and :
      (k : ℕ) (q : A → Bool) (v w : A) (xs : List A)
      → find (λ x. key x == k) xs ≡ some v
      → q v ≡ true
      → upsert (λ x. key x == k && q x) w xs ≡ upsert (λ x. key x == k) w xs
  upsert_and k q v w [] e t = cc
  upsert_and k q v w (x ∷ xs) e t = ground (arith, upsert_and k q v w xs)

  -- A row that is found has a key that some row has.
  absent :
      (k : ℕ) (q : A → Bool) (w : A) (xs : List A)
      → find q xs ≡ some w
      → key w ≡ k
      → find (λ y. key y == k) xs ≢ none
  absent k q w [] e f h = cc
  absent k q w (x ∷ xs) e f h = elim (Bool-cases (q x)) [
    | inl here ↦ absurd (ground (arith, ap key))
    | inr there ↦ absent k q w xs (ground arith) f (ground arith)
  ]

  -- Two rows that are found and have one key are the same row.
  pub find-IsKeyed :
      (p q : A → Bool) (v w : A) (xs : List A)
      → IsKeyed xs
      → find p xs ≡ some v
      → find q xs ≡ some w
      → key v ≡ key w
      → v ≡ w
  find-IsKeyed p q v w [] u e f k = cc
  find-IsKeyed p q v w (x ∷ xs) u e f k = elim (Bool-cases (p x)) [
    | inl here ↦ elim (Bool-cases (q x)) [
      | inl also ↦ ground arith
      | inr later ↦
          let at : x ≡ v = ground arith in
          absurd (absent (key x) q w xs (ground arith) (sym k ∙ ap key (sym at)) u.0)
    ]
    | inr there ↦ elim (Bool-cases (q x)) [
      | inl also ↦
          let at : x ≡ w = ground arith in
          absurd (absent (key x) p v xs (ground arith) (k ∙ ap key (sym at)) u.0)
      | inr later ↦ find-IsKeyed p q v w xs u.1 (ground arith) (ground arith) k
    ]
  ]
