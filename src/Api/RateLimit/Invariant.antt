-- ===== src/Api/RateLimit/Invariant.antt =====
-- api/src/rate_limit.rs: the counter agrees with the sleeping tasks, whatever the order of requests and
-- wake-ups, and how many requests pass.
use laas_api.Base.{
  ℕ, suc, ◌-◌, ◌^◌, ◌==◌, ◌≤◌, ◌<◌, ◌≡◌, refl, false, Option, some, none, List, [], ◌∷◌,
  if◌then◌else◌, arith, Option-cases, inl, inr, ◌∙◌, Bool-cases, ==_iff, ◌≢◌,
}
use laas_api.Database.{Uuid}
use laas_api.Api.RateLimit.{RateLimit, new, limit, decrement, lower}

abbrev pub count : Uuid → List Uuid → ℕ
count u [] = 0
count u (x ∷ xs) = if x == u then suc (count u xs) else count u xs

-- One of the tasks wakes: the list without its user's first place.
abbrev pub erase : Uuid → List Uuid → List Uuid
erase u [] = []
erase u (x ∷ xs) = if x == u then xs else x ∷ erase u xs

-- A request of some user, or a wake-up of a task that sleeps.
pub data Step (rl rl' : RateLimit) : Type 0 where
  request : (u : Uuid) → rl' ≡ (limit rl u).1 → Step rl rl'
  wake :
      (u : Uuid) (counter : Uuid → Option ℕ)
      → 0 < count u rl.pending
      → decrement rl.counter u ≡ some counter
      → rl' ≡ record rl { counter = counter; pending = erase u rl.pending }
      → Step rl rl'

-- The states that `new` leads to.
pub data Reach (n : ℕ) : RateLimit → Type 0 where
  start : Reach n (new n)
  next : {rl rl' : RateLimit} → Reach n rl → Step rl rl' → Reach n rl'

-- What the counter says of a user is the number of tasks that sleep for that user, within the limit.
abbrev pub Agrees : ℕ → Option ℕ → ℕ → Type 0
Agrees n none tasks = tasks ≡ 0
Agrees n (some v) tasks = (v ≡ tasks) × (v ≤ n)

abbrev pub IsValid : ℕ → RateLimit → Type 0
IsValid n rl = (rl.limit ≡ n) × ((u : Uuid) → Agrees n (rl.counter u) (count u rl.pending))

limit-Agrees :
    (n : ℕ) (rl : RateLimit) (u v : Uuid)
    → n < 2 ^ 64
    → IsValid n rl
    → Agrees n ((limit rl u).1.counter v) (count v (limit rl u).1.pending)
unfolding limit
limit-Agrees n rl u v small valid = ground (arith, valid.1 u, valid.1 v)

pub limit-limit : (rl : RateLimit) (u : Uuid) → (limit rl u).1.limit ≡ rl.limit
unfolding limit
limit-limit rl u = ground arith

limit-IsValid :
    (n : ℕ) (rl : RateLimit) (u : Uuid) → n < 2 ^ 64 → IsValid n rl → IsValid n (limit rl u).1
limit-IsValid n rl u small valid =
    (limit-limit rl u ∙ valid.0, λ v. limit-Agrees n rl u v small valid)

pub count-erase_self : (u : Uuid) (xs : List Uuid) → count u (erase u xs) ≡ count u xs - 1
count-erase_self u [] = refl
count-erase_self u (x ∷ xs) = ground (arith, count-erase_self u xs)

pub count-erase_ne :
    (u v : Uuid) (xs : List Uuid) → (v == u) ≡ false → count v (erase u xs) ≡ count v xs
count-erase_ne u v [] h = refl
count-erase_ne u v (x ∷ xs) h = ground (arith, count-erase_ne u v xs h)

pub decrement_found :
    (n : ℕ) (rl : RateLimit) (u : Uuid)
    → IsValid n rl
    → 0 < count u rl.pending
    → (v : ℕ) × (rl.counter u ≡ some v)
      × (0 < v)
      × (decrement rl.counter u ≡ some (lower rl.counter u v))
unfolding decrement
decrement_found n rl u valid sleeps = elim (Option-cases (rl.counter u)) [
  | inl vacant ↦ absurd (ground (arith, valid.1 u))
  | inr (v, e) ↦ (v, e, ground (arith, valid.1 u), ground arith)
]

lower-Agrees :
    (n : ℕ) (rl : RateLimit) (u v : Uuid) (c : ℕ)
    → n < 2 ^ 64
    → IsValid n rl
    → 0 < count u rl.pending
    → rl.counter u ≡ some c
    → Agrees n (lower rl.counter u c v) (count v (erase u rl.pending))
lower-Agrees n rl u v c small valid sleeps e = elim (Bool-cases (v == u)) [
  | inl same ↦
      let at : v ≡ u = (==_iff v u).0 same in
      rw at (ground (arith, valid.1 u, count-erase_self u rl.pending))
  | inr other ↦ ground (arith, valid.1 v, count-erase_ne u v rl.pending other)
]

Step-IsValid :
    (n : ℕ) {rl rl' : RateLimit} → n < 2 ^ 64 → IsValid n rl → Step rl rl' → IsValid n rl'
Step-IsValid n {rl} small valid (request u e) = rw e (limit-IsValid n rl u small valid)
Step-IsValid n {rl} small valid (wake u counter sleeps d e) =
    let (c, at, _, d') = decrement_found n rl u valid sleeps in
    let same : counter ≡ lower rl.counter u c = cc in
    rw (e, same) (valid.0, λ v. lower-Agrees n rl u v c small valid sleeps at)

-- With a limit in 64 bits, in every state that requests and wake-ups lead to, in any order, a
-- user's entry is the number of tasks that sleep for the user, is at most the limit, and is
-- missing only if no task sleeps.
pub Reach-IsValid : (n : ℕ) {rl : RateLimit} → n < 2 ^ 64 → Reach n rl → IsValid n rl
unfolding new
Reach-IsValid n small start = (refl, λ u. refl)
Reach-IsValid n small (next r step) = Step-IsValid n small (Reach-IsValid n small r) step

-- With a limit in 64 bits, in every such state a task that sleeps would find an entry of at least
-- one when it wakes: the counter does not fall below zero, and the branch that logs a bug is not
-- taken.
wake_finds_entry :
    (n : ℕ) {rl : RateLimit} (u : Uuid)
    → n < 2 ^ 64
    → Reach n rl
    → 0 < count u rl.pending
    → (v : ℕ) × (rl.counter u ≡ some v) × (0 < v) × (decrement rl.counter u ≢ none)
wake_finds_entry n {rl} u small r sleeps =
    let (v, e, positive, d) = decrement_found n rl u (Reach-IsValid n small r) sleeps in
    (v, e, positive, λ bug. cc)
