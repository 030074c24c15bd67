-- ===== src/Concurrency/Retries.antt =====
-- app/src/concurrency.rs: which call the retry loop returns, and what it keeps.
use laas_api.Base.{
  ℕ, zero, suc, ◌+◌, ◌≤◌, ◌≡◌, refl, ◌⊎◌, inl, inr, true, false, Outcome, ok, err, panic, arith,
  Bool-cases, ◌∙◌,
}
use laas_api.Concurrency.{Chain, is_conflict, retry_from, retry_loop}

module _ {E A S : Type 0} (chain : E → Chain) (cb : ℕ → S → Outcome E A × S) where
  -- The calls `i`, …, `i + n - 1` end in a conflict, and take the state from `s` to `s'`.
  abbrev pub Conflicts : ℕ → ℕ → S → S → Type 0
  Conflicts i zero s s' = s ≡ s'
  Conflicts i (suc n) s s' =
      (e : E) × (m : S) × (cb i s ≡ (err e, m))
      × (is_conflict (chain e) ≡ true)
      × Conflicts (i + 1) n m s'

  -- A result that the loop does not try again.
  abbrev pub IsFinal : Outcome E A × S → Type 0
  IsFinal (ok a, s) = Unit
  IsFinal (panic, s) = Unit
  IsFinal (err e, s) = is_conflict (chain e) ≡ false

  pub retry_from-final :
      (rounds i : ℕ) (s : S) (r : Outcome E A × S)
      → cb i s ≡ r
      → IsFinal r
      → retry_from chain cb rounds i s ≡ r
  unfolding retry_from
  retry_from-final zero i s r e f = e
  retry_from-final (suc rounds) i s (ok a, s') e f = ground arith
  retry_from-final (suc rounds) i s (panic, s') e f = ground arith
  retry_from-final (suc rounds) i s (err x, s') e f = ground arith

  result-cases :
      (r : Outcome E A × S)
      → IsFinal r ⊎ ((e : E) × (m : S) × (r ≡ (err e, m)) × (is_conflict (chain e) ≡ true))
  result-cases (ok a, s) = inl tt
  result-cases (panic, s) = inl tt
  result-cases (err e, s) = elim (Bool-cases (is_conflict (chain e))) [
    | inl again ↦ inr (e, s, refl, again)
    | inr final ↦ inl final
  ]

  retry_from-again :
      (rounds i : ℕ) (s m : S) (e : E)
      → cb i s ≡ (err e, m)
      → is_conflict (chain e) ≡ true
      → retry_from chain cb (suc rounds) i s ≡ retry_from chain cb rounds (i + 1) m
  unfolding retry_from
  retry_from-again rounds i s m e call again = ground arith

  retry_from_lem :
      (n rounds i j : ℕ) (s s' : S)
      → Conflicts i n s s'
      → n ≤ rounds
      → i + n ≡ j
      → (n ≡ rounds) ⊎ IsFinal (cb j s')
      → retry_from chain cb rounds i s ≡ cb j s'
  unfolding retry_from
  retry_from_lem zero zero i j s s' c le e last = let at : i ≡ j = omega arith in rw (at, c)
  retry_from_lem zero (suc rounds) i j s s' c le e (inl out) = absurd (omega arith)
  retry_from_lem zero (suc rounds) i j s s' c le e (inr final) =
      let at : i ≡ j = omega arith in retry_from-final (suc rounds) i s (cb j s') (rw (at, c)) final
  retry_from_lem (suc n) zero i j s s' c le e last = absurd (omega arith)
  retry_from_lem (suc n) (suc rounds) i j s s' (x, m, call, again, rest) le e last =
      retry_from-again rounds i s m x call again
      ∙ retry_from_lem n rounds (i + 1) j m s' rest (omega arith) (omega arith) (fewer last)
    where
      fewer : (suc n ≡ suc rounds) ⊎ IsFinal (cb j s') → (n ≡ rounds) ⊎ IsFinal (cb j s')
      fewer (inl same) = inl (omega arith)
      fewer (inr final) = inr final

  -- After `n` conflicts the loop returns the next call, if that is a success, a panic or another error,
  -- or if it is the tenth call: then its result is returned as it is, a conflict too.
  pub retry_loop-eq :
      (n : ℕ) (s s' : S)
      → Conflicts 1 n s s'
      → n ≤ 9
      → (n ≡ 9) ⊎ IsFinal (cb (1 + n) s')
      → retry_loop chain cb s ≡ cb (1 + n) s'
  unfolding retry_loop
  retry_loop-eq n s s' c le last = retry_from_lem n 9 1 (1 + n) s s' c le refl last

  module _ (P : S → Type 0) (Q : Outcome E A × S → Type 0)
      (keep : (i : ℕ) (s m : S) (e : E)
        → P s
        → cb i s ≡ (err e, m)
        → is_conflict (chain e) ≡ true
        → P m)
      (done : (i : ℕ) (s : S) → P s → Q (cb i s)) where
    retry_from-inv : (rounds i : ℕ) (s : S) → P s → Q (retry_from chain cb rounds i s)
    unfolding retry_from
    retry_from-inv zero i s p = done i s p
    retry_from-inv (suc rounds) i s p = elim (result-cases (cb i s)) [
      | inl final ↦ rw (retry_from-final (suc rounds) i s (cb i s) refl final) (done i s p)
      | inr (e, m, call, again) ↦
          rw (retry_from-again rounds i s m e call again)
            (retry_from-inv rounds (i + 1) m (keep i s m e p call again))
    ]

    -- If conflicts preserve a property of the state, and every call from a state with the property
    -- has a result of some kind, the whole loop has a result of that kind.
    pub retry_loop-inv : (s : S) → P s → Q (retry_loop chain cb s)
    unfolding retry_loop
    retry_loop-inv s p = retry_from-inv 9 1 s p
