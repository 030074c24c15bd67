-- ===== src/Api/RateLimit/Passes.antt =====
-- api/src/rate_limit.rs: how many requests of a user pass while no task wakes.
use laas_api.Base.{
  ◌⊎◌, leb, ℕ, suc, ◌+◌, ◌-◌, ◌^◌, ◌==◌, ◌<◌, ◌≡◌, true, false, some, none, List, [], ◌∷◌,
  if◌then◌else◌, arith, Option-cases, inl, inr, Bool-cases, ==_iff,
}
use Prim.Native.Nat.{min}
use laas_api.Database.{Uuid}
use laas_api.Api.RateLimit.{RateLimit, limit}
use laas_api.Api.RateLimit.Invariant.{count, limit-limit, Reach, Reach-IsValid}

-- The requests of one user that are let through, in a run of requests of any users.
abbrev pub passes : Uuid → RateLimit → List Uuid → ℕ
passes u rl [] = 0
passes u rl (x ∷ xs) =
    let (limited, rl') = limit rl x in
    if x == u then (if limited then passes u rl' xs else suc (passes u rl' xs)) else passes u rl' xs

-- How many more requests of a user would pass.
abbrev pub remaining : RateLimit → Uuid → ℕ
remaining rl u = elim (rl.counter u) [ none ↦ suc rl.limit | some v ↦ rl.limit - v ]

limit_self :
    (rl : RateLimit) (u : Uuid)
    → rl.limit < 2 ^ 64
    → (((limit rl u).0 ≡ true) × (remaining rl u ≡ 0) × (remaining (limit rl u).1 u ≡ 0))
      ⊎ (((limit rl u).0 ≡ false) × (suc (remaining (limit rl u).1 u) ≡ remaining rl u))
unfolding limit
limit_self rl u small = elim (Option-cases (rl.counter u)) [
  | inl vacant ↦ inr (ground arith, ground arith)
  | inr (v, e) ↦ elim (Bool-cases (leb rl.limit v)) [
    | inl full ↦ inl (ground arith, ground arith, ground arith)
    | inr free ↦ inr (ground arith, ground arith)
  ]
]

limit_others :
    (rl : RateLimit) (u v : Uuid) → (v == u) ≡ false → remaining (limit rl v).1 u ≡ remaining rl u
unfolding limit
limit_others rl u v h = ground arith

passes-eq_min :
    (u : Uuid) (rl : RateLimit) (xs : List Uuid)
    → rl.limit < 2 ^ 64
    → passes u rl xs ≡ min (remaining rl u) (count u xs)
passes-eq_min u rl [] small = omega arith
passes-eq_min u rl (x ∷ xs) small = elim (Bool-cases (x == u)) [
  | inl same ↦
      let at : x ≡ u = (==_iff x u).0 same in
      let rest = passes-eq_min u (limit rl u).1 xs (rw limit-limit small) in
      rw at (ground (arith, rest, limit_self rl u small))
  | inr other ↦
      let rest = passes-eq_min u (limit rl x).1 xs (rw limit-limit small) in
      ground (arith, rest, limit_others rl u x other)
]

-- From any state that requests and wake-ups lead to, while no task wakes, exactly `limit + 1`
-- requests of a user with no entry pass, and exactly what is left up to the limit of a user with
-- one, as far as so many are made.
pub passes_lem :
    (n : ℕ) (u : Uuid) {rl : RateLimit} (xs : List Uuid)
    → n < 2 ^ 64
    → Reach n rl
    → (rl.counter u ≡ none → passes u rl xs ≡ min (n + 1) (count u xs))
      × ((v : ℕ) → rl.counter u ≡ some v → passes u rl xs ≡ min (n - v) (count u xs))
passes_lem n u {rl} xs small r =
    let limits : rl.limit ≡ n = (Reach-IsValid n small r).0 in
    let lem = passes-eq_min u rl xs (rw limits small) in
    (λ vacant. ground arith, λ v e. ground arith)
