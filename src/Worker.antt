-- ===== src/Worker.antt =====
-- app/src/worker.rs, and `swallow_panic` of app/src/lib.rs.
use laas_api.Base.{
  ℕ, zero, suc, ◌+◌, ◌≡◌, refl, subst, arith, Option, none, some, Outcome, Never, Option-cases, inl,
  inr,
}

-- `Worker::run` on a state, with the number of the run: `none` if it goes on for longer than is looked at.
abbrev pub Worker : Type 0 → Type 0
Worker S = ℕ → S → Option (Outcome Never Unit × S)

-- Whether the run returned or panicked is dropped; what it has changed stays.
unfoldable pub swallow_panic : {S : Type 0} → Outcome Never Unit × S → S
swallow_panic (outcome, s) = s

module _ {S : Type 0} (run : Worker S) (sleep : ℕ → S → S) where
  -- `start`, for a number of runs from the `n`th on; `sleep` is what happens while it sleeps.
  unfoldable pub start : ℕ → ℕ → S → Option S
  unfolding swallow_panic
  start n zero s = some s
  start n (suc rounds) s = elim (run n s) [
    | none ↦ none
    | some ended ↦ start (n + 1) rounds (sleep n (swallow_panic ended))
  ]

  -- What a run and the sleep after it lead to from one round to the next holds after the rounds.
  pub start-inv :
      (P : ℕ → S → Type 0)
      → ((n : ℕ) (s s' : S) (r : Outcome Never Unit)
          → P n s
          → run n s ≡ some (r, s')
          → P (n + 1) (sleep n s'))
      → (n rounds : ℕ) (s s' : S) → P n s
      → start n rounds s ≡ some s'
      → P (n + rounds) s'
  unfolding start swallow_panic
  start-inv P step n zero s s' p e =
      let stays : n ≡ n + 0 = omega arith in
      subst (λ m. P m s') stays (subst (P n) (ground arith) p)
  start-inv P step n (suc rounds) s s' p e = elim (Option-cases (run n s)) [
    | inl stuck ↦ absurd (ground arith)
    | inr ((r, s₁), f) ↦
        let shifted : n + 1 + rounds ≡ n + suc rounds = omega arith in
        subst (λ m. P m s') shifted
          (start-inv P step (n + 1) rounds (sleep n s₁) s' (step n s s₁ r p f) (rw (f, start) at e))
  ]

  -- The first rounds, and those that follow.
  pub start_split :
      (n a b : ℕ) (s s' : S)
      → start n (a + b) s ≡ some s'
      → (s₁ : S) × (start n a s ≡ some s₁) × (start (n + a) b s₁ ≡ some s')
  unfolding start swallow_panic
  start_split n zero b s s' e =
      let stays : n ≡ n + 0 = omega arith in
      let none_first : 0 + b ≡ b = omega arith in
      (s, refl, subst (λ m. start m b s ≡ some s') stays (rw none_first at e))
  start_split n (suc a) b s s' e =
      let one_more : suc a + b ≡ suc (a + b) = omega arith in
      elim (Option-cases (run n s)) [
        | inl stuck ↦ absurd (let e' = rw one_more at e in ground arith)
        | inr ((r, m), f) ↦
            let (s₁, first, rest) =
              start_split (n + 1) a b (sleep n m) s' (rw (one_more, f, start) at e) in
            let shifted : n + 1 + a ≡ n + suc a = omega arith in
            (s₁, rw (f, start) first, subst (λ k. start k b s₁ ≡ some s') shifted rest)
      ]
