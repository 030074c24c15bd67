-- ===== src/Api/RateLimit/Liveness.antt =====
-- api/src/rate_limit.rs: a user who is limited is let through again.
use laas_api.Base.{
  ℕ, suc, ◌+◌, ◌-◌, ◌^◌, ◌==◌, ◌≤◌, ◌<◌, ◌≡◌, ◌≢◌, true, false, Option, some, none, arith, inl, inr,
  ◌∙◌, Bool-cases, ap, subst, ==_iff, if◌then◌else◌,
}
use laas_api.Database.{Uuid}
use laas_api.Api.RateLimit.{RateLimit, limit, decrement}
use laas_api.Api.RateLimit.Invariant.{
  count, erase, request, wake, Reach, next, Agrees, Reach-IsValid, decrement_found,
  count-erase_self, count-erase_ne,
}

-- Requests of others and wake-ups in any order, with `k` wake-ups for the user.
pub data Waits (u : Uuid) : ℕ → RateLimit → RateLimit → Type 0 where
  here : {rl : RateLimit} → Waits u 0 rl rl
  others :
      {k : ℕ} {rl mid rl' : RateLimit} (v : Uuid)
      → Waits u k rl mid
      → (v == u) ≡ false
      → rl' ≡ (limit mid v).1
      → Waits u k rl rl'
  wakes :
      {k : ℕ} {rl mid rl' : RateLimit} (v : Uuid) (counter : Uuid → Option ℕ)
      → Waits u k rl mid
      → 0 < count v mid.pending
      → decrement mid.counter v ≡ some counter
      → rl' ≡ record mid { counter = counter; pending = erase v mid.pending }
      → Waits u (if v == u then suc k else k) rl rl'

Agrees-le : (n : ℕ) (entry : Option ℕ) (tasks : ℕ) → Agrees n entry tasks → tasks ≤ n
Agrees-le n none tasks h = omega arith
Agrees-le n (some v) tasks h = omega arith

ne_sym : (v u : Uuid) → (v == u) ≡ false → (u == v) ≡ false
ne_sym v u h = ground arith

module _ (n : ℕ) (u : Uuid) where
  Waits-Reach : {k : ℕ} {rl rl' : RateLimit} → Reach n rl → Waits u k rl rl' → Reach n rl'
  Waits-Reach r here = r
  Waits-Reach r (others v w other e) = next (Waits-Reach r w) (request v e)
  Waits-Reach r (wakes v counter w sleeps d e) = next (Waits-Reach r w) (wake v counter sleeps d e)

  count-limit :
      (rl : RateLimit) (v : Uuid)
      → (v == u) ≡ false
      → count u (limit rl v).1.pending ≡ count u rl.pending
  unfolding limit
  count-limit rl v other = ground arith

  -- Each wake-up for the user takes one of the tasks that slept for the user.
  Waits-count :
      {k : ℕ} {rl rl' : RateLimit} → Waits u k rl rl' → count u rl'.pending + k ≡ count u rl.pending
  Waits-count here = omega arith
  Waits-count (others {mid = mid} v w other e) =
      let same = ap (λ x. count u x.pending) e ∙ count-limit mid v other in
      omega (arith, Waits-count w)
  Waits-count (wakes {k = k} {mid = mid} v counter w sleeps d e) =
      let same = ap (λ x. count u x.pending) e in
      elim (Bool-cases (v == u)) [
        | inl mine ↦
            let at : v ≡ u = (==_iff v u).0 mine in
            let some_task : 0 < count u mid.pending =
              subst (λ x. 0 < count x mid.pending) at sleeps in
            let fewer : count u (erase v mid.pending) ≡ count u mid.pending - 1 =
              rw at (count-erase_self u mid.pending) in
            ground (arith, Waits-count w)
        | inr other ↦
            let kept = count-erase_ne v u mid.pending (ne_sym v u other) in
            ground (arith, Waits-count w)
      ]

  limit_below :
      (rl : RateLimit)
      → rl.limit ≡ n
      → count u rl.pending < n
      → Agrees n (rl.counter u) (count u rl.pending)
      → (limit rl u).0 ≡ false
  unfolding limit
  limit_below rl same below agrees = ground arith

  limit_above :
      (rl : RateLimit)
      → rl.limit ≡ n
      → 0 < n
      → Agrees n (rl.counter u) (count u rl.pending)
      → (limit rl u).0 ≡ true
      → 0 < count u rl.pending
  unfolding limit
  limit_above rl same some_limit agrees h = ground arith

  -- No user is limited for ever: with a limit of at least one, in 64 bits, in every state that requests
  -- and wake-ups lead to, a limited user has a task that sleeps, which finds an entry when it wakes;
  -- and any user is let through in every later state in which one such task has woken and the user has
  -- sent no request, whatever requests of others and wake-ups came between.
  pub let_through_again :
      {rl : RateLimit}
      → 0 < n
      → n < 2 ^ 64
      → Reach n rl
      → ((limit rl u).0 ≡ true → (0 < count u rl.pending) × (decrement rl.counter u ≢ none))
        × ((k : ℕ) (rl' : RateLimit) → 0 < k → Waits u k rl rl' → (limit rl' u).0 ≡ false)
  let_through_again {rl} some_limit small r = (
    λ limited.
        let valid = Reach-IsValid n small r in
        let sleeps = limit_above rl valid.0 some_limit (valid.1 u) limited in
        let (v, e, positive, d) = decrement_found n rl u valid sleeps in (sleeps, λ bug. cc),
    λ k rl' woken w.
        let valid = Reach-IsValid n small r in
        let valid' = Reach-IsValid n small (Waits-Reach r w) in
        limit_below rl' valid'.0
          (omega
            (arith, Waits-count w, Agrees-le n (rl.counter u) (count u rl.pending) (valid.1 u)))
          (valid'.1 u),
  )
