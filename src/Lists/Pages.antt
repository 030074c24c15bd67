-- ===== src/Lists/Pages.antt =====
-- What a page holds.
use laas_api.Base.{
  ℕ, zero, suc, ◌+◌, ◌≤◌, ◌≡◌, refl, ap, ◌∙◌, Bool, true, List, [], ◌∷◌, ◌++◌, ok, All, filter,
  take, drop, length, ◌==◌, ltb, arith, Bool-cases, inl, inr, if◌then◌else◌,
}
use laas_api.Int.{pos, pos_part}
use laas_api.Database.{Uuid, DateTime}
use laas_api.Lists.{QueryRange, insert, order_by_created, select_page}

add_suc : (m n : ℕ) → suc m + n ≡ suc (m + n)
add_suc m n = omega arith

module _ {A : Type 0} where
  -- How many rows pass a test.
  abbrev pub count : (A → Bool) → List A → ℕ
  count q [] = 0
  count q (x ∷ xs) = if q x then suc (count q xs) else count q xs

  length-take : (n : ℕ) (xs : List A) → length (take n xs) ≤ n
  length-take zero xs = ground arith
  length-take (suc n) [] = ground arith
  length-take (suc n) (x ∷ xs) = ground (arith, length-take n xs)

  take-All : (P : A → Type 0) (n : ℕ) (xs : List A) → All P xs → All P (take n xs)
  take-All P zero xs h = tt
  take-All P (suc n) [] h = tt
  take-All P (suc n) (x ∷ xs) h = (h.0, take-All P n xs h.1)

  drop-All : (P : A → Type 0) (n : ℕ) (xs : List A) → All P xs → All P (drop n xs)
  drop-All P zero xs h = h
  drop-All P (suc n) [] h = tt
  drop-All P (suc n) (x ∷ xs) h = drop-All P n xs h.1

  drop-drop : (m n : ℕ) (xs : List A) → drop n (drop m xs) ≡ drop (m + n) xs
  drop-drop zero n xs = ground arith
  drop-drop (suc m) zero [] = rw (add_suc m 0) refl
  drop-drop (suc m) (suc n) [] = rw (add_suc m (suc n)) refl
  drop-drop (suc m) n (x ∷ xs) = rw (add_suc m n) (drop-drop m n xs)

  take-++ : (m n : ℕ) (xs : List A) → take m xs ++ take n (drop m xs) ≡ take (m + n) xs
  take-++ zero n xs = ground arith
  take-++ (suc m) zero [] = rw (add_suc m 0) refl
  take-++ (suc m) (suc n) [] = rw (add_suc m (suc n)) refl
  take-++ (suc m) n (x ∷ xs) = rw (add_suc m n) (ap (λ ys. x ∷ ys) (take-++ m n xs))

  filter-All : (q : A → Bool) (xs : List A) → All (λ x. q x ≡ true) (filter q xs)
  filter-All q [] = tt
  filter-All q (x ∷ xs) = elim (Bool-cases (q x)) [
    | inl e ↦ rw e (e, filter-All q xs)
    | inr e ↦ rw e (filter-All q xs)
  ]

module _ {A : Type 0} (created : A → DateTime) where
  -- Every row is at least as new as all that follow.
  abbrev pub IsNewestFirst : List A → Type 0
  IsNewestFirst [] = Unit
  IsNewestFirst (x ∷ xs) = All (λ y. created y ≤ created x) xs × IsNewestFirst xs

  insert-All : (P : A → Type 0) (x : A) (xs : List A) → P x → All P xs → All P (insert created x xs)
  insert-All P x [] p h = (p, tt)
  insert-All P x (y ∷ ys) p h = elim (Bool-cases (ltb (created x) (created y))) [
    | inl older ↦ rw older (h.0, insert-All P x ys p h.1)
    | inr newer ↦ rw newer (p, h)
  ]

  older_All :
      (x y : A) (ys : List A)
      → created y ≤ created x
      → All (λ z. created z ≤ created y) ys
      → All (λ z. created z ≤ created x) ys
  older_All x y [] h a = tt
  older_All x y (z ∷ zs) h a = (omega (arith, a.0), older_All x y zs h a.1)

  sorted_insert : (x : A) (xs : List A) → IsNewestFirst xs → IsNewestFirst (insert created x xs)
  sorted_insert x [] h = (tt, tt)
  sorted_insert x (y ∷ ys) h = elim (Bool-cases (ltb (created x) (created y))) [
    | inl older ↦
        rw older
          (insert-All (λ z. created z ≤ created y) x ys (ground arith) h.0, sorted_insert x ys h.1)
    | inr newer ↦ rw newer ((ground arith, older_All x y ys (ground arith) h.0), h)
  ]

  order_by_created-All :
      (P : A → Type 0) (xs : List A) → All P xs → All P (order_by_created created xs)
  order_by_created-All P [] h = tt
  order_by_created-All P (x ∷ xs) h =
      insert-All P x (order_by_created created xs) h.0 (order_by_created-All P xs h.1)

  order_by_created-IsNewestFirst : (xs : List A) → IsNewestFirst (order_by_created created xs)
  order_by_created-IsNewestFirst [] = tt
  order_by_created-IsNewestFirst (x ∷ xs) =
      sorted_insert x (order_by_created created xs) (order_by_created-IsNewestFirst xs)

  count-insert :
      (q : A → Bool) (x : A) (xs : List A) → count q (insert created x xs) ≡ count q (x ∷ xs)
  count-insert q x [] = refl
  count-insert q x (y ∷ ys) = ground (arith, count-insert q x ys)

  pub count-order_by_created :
      (q : A → Bool) (xs : List A) → count q (order_by_created created xs) ≡ count q xs
  count-order_by_created q [] = refl
  count-order_by_created q (x ∷ xs) =
      count-insert q x (order_by_created created xs) ∙ rw (count-order_by_created q xs) refl

  take-IsNewestFirst : (n : ℕ) (xs : List A) → IsNewestFirst xs → IsNewestFirst (take n xs)
  take-IsNewestFirst zero xs h = tt
  take-IsNewestFirst (suc n) [] h = tt
  take-IsNewestFirst (suc n) (x ∷ xs) h =
      (take-All (λ y. created y ≤ created x) n xs h.0, take-IsNewestFirst n xs h.1)

  drop-IsNewestFirst : (n : ℕ) (xs : List A) → IsNewestFirst xs → IsNewestFirst (drop n xs)
  drop-IsNewestFirst zero xs h = h
  drop-IsNewestFirst (suc n) [] h = tt
  drop-IsNewestFirst (suc n) (x ∷ xs) h = drop-IsNewestFirst n xs h.1

take_whole : {A : Type 0} (n : ℕ) (xs : List A) → length xs ≤ n → take n xs ≡ xs
take_whole zero [] h = refl
take_whole zero (x ∷ xs) h = absurd (omega (arith, h))
take_whole (suc n) [] h = refl
take_whole (suc n) (x ∷ xs) h = ap (λ ys. x ∷ ys) (take_whole n xs (omega (arith, h)))

pub count_all : {A : Type 0} (xs : List A) → length xs ≡ count (λ x. true) xs
count_all [] = refl
count_all (x ∷ xs) = ap suc (count_all xs)

filter_shorter : {A : Type 0} (q : A → Bool) (xs : List A) → length (filter q xs) ≤ length xs
filter_shorter q [] = ground arith
filter_shorter q (x ∷ xs) = ground (arith, filter_shorter q xs)

module _ {A : Type 0} (created : A → DateTime) (user_of : A → Uuid) (user_id : Uuid)
    (rows : List A) where
  abbrev mine : List A
  mine = filter (λ row. user_of row == user_id) rows

  abbrev ordered : List A
  ordered = order_by_created created mine

  pub page_eq :
      {E : Type 0} (range : QueryRange) (page : List A)
      → select_page created {E = E} user_of user_id range rows ≡ ok page
      → page ≡ take (pos_part range.limit) (drop (pos_part range.offset) ordered)
  unfolding select_page
  page_eq range page h = ground arith

  length-ordered : length ordered ≤ length rows
  length-ordered =
      let same = count-order_by_created created (λ x. true) mine in
      omega (
        arith,
        same,
        count_all ordered,
        count_all mine,
        filter_shorter (λ row. user_of row == user_id) rows,
      )

  -- A page that is selected has at most as many rows as its limit; all are the user's own, and the
  -- newest come first. A page from the start whose limit is no less than the number of rows in the table
  -- holds all rows of the user, each as often as the table has it.
  pub select_page-ok :
      {E : Type 0} (range : QueryRange) (page : List A)
      → select_page created {E = E} user_of user_id range rows ≡ ok page
      → (length page ≤ pos_part range.limit)
        × All (λ row. (user_of row == user_id) ≡ true) page
        × IsNewestFirst created page
        × (range.offset ≡ pos 0
            → length rows ≤ pos_part range.limit
            → (q : A → Bool) → count q page ≡ count q mine)
  select_page-ok range page h =
      let own =
        order_by_created-All created (λ row. (user_of row == user_id) ≡ true) mine
          (filter-All (λ row. user_of row == user_id) rows) in
      let newest = order_by_created-IsNewestFirst created mine in
      rw (page_eq range page h) (
        length-take (pos_part range.limit) (drop (pos_part range.offset) ordered),
        take-All (λ row. (user_of row == user_id) ≡ true) (pos_part range.limit)
            (drop (pos_part range.offset) ordered)
            (drop-All (λ row. (user_of row == user_id) ≡ true) (pos_part range.offset) ordered own),
        take-IsNewestFirst created (pos_part range.limit) (drop (pos_part range.offset) ordered)
            (drop-IsNewestFirst created (pos_part range.offset) ordered newest),
        λ start wide q. rw start (
            ap (count q)
              (take_whole (pos_part range.limit) ordered (omega (arith, wide, length-ordered)))
            ∙ count-order_by_created created q mine),
      )

  -- Consecutive pages fit together: a page, and the one that starts where it ends, are together the page
  -- with the sum of their limits. No row is skipped or shown twice.
  select_page-++ :
      {E : Type 0} (l l' o : ℕ) (page page' : List A)
      → select_page created {E = E} user_of user_id (record { limit = pos l; offset = pos o }) rows
        ≡ ok page
      → select_page created {E = E} user_of user_id
          (record { limit = pos l'; offset = pos (o + l) })
          rows
        ≡ ok page'
      → select_page created {E = E} user_of user_id
          (record { limit = pos (l + l'); offset = pos o })
          rows
        ≡ ok (page ++ page')
  unfolding select_page
  select_page-++ l l' o page page' h h' =
      let first = page_eq (record { limit = pos l; offset = pos o }) page h in
      let second = page_eq (record { limit = pos l'; offset = pos (o + l) }) page' h' in
      let joined : page ++ page' ≡ take (l + l') (drop o ordered) =
        rw (first, second, ← drop-drop o l ordered) (take-++ l l' (drop o ordered)) in
      rw joined (ground arith)
