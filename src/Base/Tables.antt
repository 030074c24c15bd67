-- ===== src/Base/Tables.antt =====
-- SQL tables as lists of rows: the statements that the queries of the program are made of.
use Prim.Native.Nat.{ℕ, zero, suc}
use mathlib.Core.Path.{◌≡◌, refl, subst, ap}
use mathlib.Core.Logic.{inl, inr}
use mathlib.Core.Bool.{Bool, true, false, ◌&&◌, not}
use mathlib.Core.Option.{Option, none, some}
use mathlib.Core.List.{List, [], ◌∷◌}
use native.Mathlib.Omega.{arith}
use laas_api.Base.Tests.{Bool-cases, if◌then◌else◌}

module _ {ℓ} {A : Type ℓ} where
  abbrev pub length : List A → ℕ
  length [] = 0
  length (x ∷ xs) = suc (length xs)

  -- `SELECT … WHERE p`, for a statement that is read with `fetch_optional` or `fetch_one`.
  abbrev pub find : (A → Bool) → List A → Option A
  find p [] = none
  find p (x ∷ xs) = if p x then some x else find p xs

  -- `SELECT … WHERE p`, for a statement that is read with `fetch_all`.
  abbrev pub filter : (A → Bool) → List A → List A
  filter p [] = []
  filter p (x ∷ xs) = if p x then x ∷ filter p xs else filter p xs

  -- `INSERT … ON CONFLICT (key) DO UPDATE SET` every column: `p` tests for the key of the new row.
  abbrev pub upsert : (A → Bool) → A → List A → List A
  upsert p v [] = v ∷ []
  upsert p v (x ∷ xs) = if p x then v ∷ xs else x ∷ upsert p v xs

  abbrev pub take : ℕ → List A → List A
  take zero xs = []
  take (suc n) [] = []
  take (suc n) (x ∷ xs) = x ∷ take n xs

  abbrev pub drop : ℕ → List A → List A
  drop zero xs = xs
  drop (suc n) [] = []
  drop (suc n) (x ∷ xs) = drop n xs

  -- Every row of a table has a property.
  abbrev pub All {κ} : (A → Type κ) → List A → Type κ
  All P [] = Unit
  All P (x ∷ xs) = P x × All P xs

  pub All-mono {κ μ} :
      (P : A → Type κ) (Q : A → Type μ) (xs : List A) → ((x : A) → P x → Q x) → All P xs → All Q xs
  All-mono P Q [] f h = tt
  All-mono P Q (x ∷ xs) f h = (f x h.0, All-mono P Q xs f h.1)

  pub find-upsert_self :
      (p : A → Bool) (v : A) (xs : List A) → p v ≡ true → find p (upsert p v xs) ≡ some v
  find-upsert_self p v [] h = ground arith
  find-upsert_self p v (x ∷ xs) h = ground (arith, find-upsert_self p v xs h)

  -- A search that the new row does not meet, nor any row with its key, is not disturbed.
  pub find-upsert_ne :
      (p q : A → Bool) (v : A) (xs : List A)
      → q v ≡ false
      → ((x : A) → p x ≡ true → q x ≡ false)
      → find q (upsert p v xs) ≡ find q xs
  find-upsert_ne p q v [] h d = ground arith
  find-upsert_ne p q v (x ∷ xs) h d = ground (arith, d x, find-upsert_ne p q v xs h d)

  -- What is found passes the test.
  pub find_sound : (p : A → Bool) (xs : List A) {v : A} → find p xs ≡ some v → p v ≡ true
  find_sound p [] e = cc
  find_sound p (x ∷ xs) {v} e = ground (arith, find_sound p xs {v = v})

  -- Writing back the row that is found changes nothing.
  pub upsert_found : (p : A → Bool) (v : A) (xs : List A) → find p xs ≡ some v → upsert p v xs ≡ xs
  upsert_found p v [] e = cc
  upsert_found p v (x ∷ xs) e = ground (arith, upsert_found p v xs)

  pub upsert-upsert :
      (p : A → Bool) (v w : A) (xs : List A)
      → p v ≡ true
      → upsert p w (upsert p v xs) ≡ upsert p w xs
  upsert-upsert p v w [] h = ground arith
  upsert-upsert p v w (x ∷ xs) h = ground (arith, upsert-upsert p v w xs h)

  -- Where only rows with the key of the new row pass a search, the search finds the new row.
  pub find-upsert_only :
      (p q : A → Bool) (v : A) (xs : List A)
      → find (λ x. q x && not (p x)) xs ≡ none
      → q v ≡ true
      → find q (upsert p v xs) ≡ some v
  find-upsert_only p q v [] none_other h = ground arith
  find-upsert_only p q v (x ∷ xs) none_other h = ground (arith, find-upsert_only p q v xs)

  pub find_never : (q : A → Bool) (xs : List A) → ((x : A) → q x ≡ false) → find q xs ≡ none
  find_never q [] h = refl
  find_never q (x ∷ xs) h = ground (arith, h x, find_never q xs h)

  -- A row that is found has what every row has.
  pub find-All {κ} :
      (P : A → Type κ) (p : A → Bool) (v : A) (xs : List A) → All P xs → find p xs ≡ some v → P v
  find-All P p v [] h e = cc e
  find-All P p v (x ∷ xs) h e = elim (Bool-cases (p x)) [
    | inl here ↦ subst P (ground arith) h.0
    | inr there ↦ find-All P p v xs h.1 (ground arith)
  ]

  pub upsert-All {κ} :
      (P : A → Type κ) (p : A → Bool) (v : A) (xs : List A) → All P xs → P v → All P (upsert p v xs)
  upsert-All P p v [] h hv = (hv, tt)
  upsert-All P p v (x ∷ xs) h hv = elim (Bool-cases (p x)) [
    | inl here ↦ rw here (hv, h.1)
    | inr there ↦ rw there (h.0, upsert-All P p v xs h.1 hv)
  ]

  -- A row that a search finds is still found after an upsert of another row with another key.
  pub find-upsert_kept :
      (p q : A → Bool) (v w : A) (xs : List A)
      → find q xs ≡ some w
      → p w ≡ false
      → q v ≡ false
      → find q (upsert p v xs) ≡ some w
  find-upsert_kept p q v w [] e pw qv = cc
  find-upsert_kept p q v w (x ∷ xs) e pw qv = elim (Bool-cases (q x)) [
    | inl here ↦ let same : x ≡ w = ground arith in ground (arith, ap p same)
    | inr there ↦ ground (arith, find-upsert_kept p q v w xs)
  ]

  -- Some row is found after an upsert, if one was found before.
  pub find-upsert_any :
      (p q : A → Bool) (v w : A) (xs : List A)
      → find q xs ≡ some w
      → ((x : A) → p x ≡ true → q x ≡ q v)
      → (y : A) × (find q (upsert p v xs) ≡ some y)
  find-upsert_any p q v w [] e d = cc
  find-upsert_any p q v w (x ∷ xs) e d = elim (Bool-cases (p x)) [
    | inl same ↦ elim (Bool-cases (q x)) [
      | inl here ↦ (v, ground (arith, d x))
      | inr there ↦ (w, ground (arith, d x))
    ]
    | inr other ↦ elim (Bool-cases (q x)) [
      | inl here ↦ (x, ground arith)
      | inr there ↦
          let (y, found) = find-upsert_any p q v w xs (ground arith) d in (y, ground arith)
    ]
  ]
