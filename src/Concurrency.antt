-- ===== src/Concurrency.antt =====
-- app/src/concurrency.rs: the retry loop for concurrency conflicts.
pub mod Retries
use laas_api.Base.{
  ℕ, zero, suc, ◌+◌, Bool, true, false, ◌||◌, List, [], ◌∷◌, Outcome, ok, err, panic,
}

pub data ConflictError : Type 0 where
  conflict : ConflictError

-- What `e.is::<ConflictError>()` sees of an error in a chain of sources.
pub data ErrorType : Type 0 where
  conflict_error other_error : ErrorType

abbrev is_conflict_error : ErrorType → Bool
is_conflict_error conflict_error = true
is_conflict_error other_error = false

-- The errors that `source` leads through, the error itself first.
abbrev pub Chain : Type 0
Chain = List ErrorType

unfoldable pub is_conflict : Chain → Bool
is_conflict [] = false
is_conflict (e ∷ source) = is_conflict_error e || is_conflict source

abbrev pub max_retries : ℕ
max_retries = 10

module _ {E A S : Type 0} (chain : E → Chain) (cb : ℕ → S → Outcome E A × S) where
  -- `rounds` turns of the `for` loop from the turn `i` on, and the call behind it.
  unfoldable pub retry_from : ℕ → ℕ → S → Outcome E A × S
  retry_from zero i s = cb i s
  retry_from (suc rounds) i s =
      let (r, s') = cb i s in
      elim r [
        | ok a ↦ (ok a, s')
        | panic ↦ (panic, s')
        | err e ↦ elim (is_conflict (chain e)) [
          | true ↦ retry_from rounds (i + 1) s'
          | false ↦ (err e, s')
        ]
      ]

  -- `for i in 1..MAX_RETRIES`, then one more call.
  unfoldable pub retry_loop : S → Outcome E A × S
  unfolding retry_from
  retry_loop s = retry_from 9 1 s
