-- ===== src/Api/RateLimit.antt =====
-- api/src/rate_limit.rs: the counter of requests, and the tasks that count back after the span.
pub mod Invariant
pub mod Passes
pub mod Liveness
use laas_api.Base.{
  ℕ, ◌+◌, ◌-◌, ◌%◌, ◌^◌, ◌==◌, leb, Bool, true, false, Option, some, none, List, [], ◌∷◌,
  if◌then◌else◌,
}
use laas_api.Database.{Uuid}

-- `pending` holds the user of each task of `decrement_later` that still sleeps.
pub record RateLimit : Type 0 where
  pub limit : ℕ
  pub counter : Uuid → Option ℕ
  pub pending : List Uuid

abbrev pub set : (Uuid → Option ℕ) → Uuid → Option ℕ → Uuid → Option ℕ
set counter user_id v u = if u == user_id then v else counter u

-- `RateLimit::new`
unfoldable pub new : ℕ → RateLimit
new limit = record { limit = limit; counter = λ u. none; pending = [] }

-- `decrement_later`: a task is spawned.
abbrev pub decrement_later : Uuid → RateLimit → RateLimit
decrement_later user_id rl = record rl { pending = user_id ∷ rl.pending }

-- `RateLimit::limit`: true if the user is to be limited. `usize` has 64 bits.
unfoldable pub limit : RateLimit → Uuid → Bool × RateLimit
limit rl user_id = elim (rl.counter user_id) [
  | some count ↦ if leb rl.limit count then (true, rl) else (
    false,
    decrement_later user_id
        (record rl { counter = set rl.counter user_id (some ((count + 1) % 2 ^ 64)) }),
  )
  | none ↦ (false, record rl { counter = set rl.counter user_id (some 0) })
]

-- `*v -= 1`, and the entry is removed at zero.
abbrev pub lower : (Uuid → Option ℕ) → Uuid → ℕ → Uuid → Option ℕ
lower counter user_id v =
    let v' = (v + 2 ^ 64 - 1) % 2 ^ 64 in set counter user_id (if v' == 0 then none else some v')

-- What a task does when it wakes: the counter after it, or `none` where it meets no entry and logs a
-- bug.
unfoldable pub decrement : (Uuid → Option ℕ) → Uuid → Option (Uuid → Option ℕ)
decrement counter user_id = elim (counter user_id) [
  | some v ↦ some (lower counter user_id v)
  | none ↦ none
]
