-- ===== src/Tests/Access.antt =====
-- Tokens, the retry loop and the rate limit.
use laas_api.Base.{
  ℕ, Option, ◌+◌, ◌-◌, ◌<◌, ◌≡◌, ◌≢◌, ◌↔◌, refl, inl, true, false, some, none, [], ◌∷◌, String,
  Outcome, ok, err, arith, ltb, if◌then◌else◌,
}
use Prim.Native.Nat.{min}
use laas_api.Auth.{SpendGrant, access_denied, get_spend_grant, get_receive_grant, get_read_grant}
use laas_api.Auth.Grants.{grants_complete}
use laas_api.Concurrency.{ConflictError, conflict, Chain, conflict_error, is_conflict, retry_loop}
use laas_api.Concurrency.Retries.{retry_loop-eq}
use laas_api.Api.RateLimit.{RateLimit, new, limit, decrement}
use laas_api.Api.RateLimit.Invariant.{Reach, start, next, request, IsValid, Reach-IsValid, count}
use laas_api.Api.OpenApi.{openapi_auth}
use text.Mathlib.Text.{◌==◌ as str_eq}
use laas_api.Api.Access.{
  spend_guard, receive_guard, guard_impl, guard_impl_lem, success, failure, forbidden,
}
use laas_api.Api.Access
use laas_api.Api.RateLimit.Liveness.{Waits, let_through_again}
use laas_api.Api.RateLimit.Passes.{passes, passes_lem}
use laas_api.Tests.Data.{db, token_row}

abbrev same : String → String
same token = token

grants_complete_example :
    (get_spend_grant same db "token" ≡ ok (record { token_id = 11; user_id = 1 }))
    × (get_receive_grant same db "token" ≡ err access_denied)
    × (get_read_grant same db "token" ≡ ok (record { token_id = 11; user_id = 1 }))
grants_complete_example = grants_complete same db "token" token_row refl refl

abbrev chain_of : ConflictError → Chain
chain_of e = conflict_error ∷ []

-- Every call ends in a conflict; the state counts the calls.
abbrev always : ℕ → ℕ → Outcome ConflictError ℕ × ℕ
always i calls = (err conflict, calls + 1)

again : is_conflict (chain_of conflict) ≡ true
unfolding is_conflict
again = refl

retry_loop-eq_example : retry_loop chain_of always 0 ≡ (err conflict, 10)
retry_loop-eq_example =
    retry_loop-eq chain_of always 9 0 9
      (
        conflict,
        1,
        refl,
        again,
        (
          conflict,
          2,
          refl,
          again,
          (
            conflict,
            3,
            refl,
            again,
            (
              conflict,
              4,
              refl,
              again,
              (
                conflict,
                5,
                refl,
                again,
                (
                  conflict,
                  6,
                  refl,
                  again,
                  (
                    conflict,
                    7,
                    refl,
                    again,
                    (conflict, 8, refl, again, (conflict, 9, refl, again, refl)),
                  ),
                ),
              ),
            ),
          ),
        ),
      )
      (ground arith) (inl refl)

-- The first three calls end in a conflict.
abbrev thrice : ℕ → ℕ → Outcome ConflictError ℕ × ℕ
thrice i calls = if ltb calls 3 then (err conflict, calls + 1) else (ok calls, calls)

abbrev once : RateLimit
once = (limit (new 2) 7).1

abbrev twice : RateLimit
twice = (limit once 7).1

twice-Reach : Reach 2 twice
twice-Reach = next (next start (request 7 refl)) (request 7 refl)

Reach-IsValid_example : IsValid 2 twice
Reach-IsValid_example = Reach-IsValid 2 (ground arith) twice-Reach

abbrev full : RateLimit
full = (limit (limit (new 1) 7).1 7).1

-- With a limit of one, the third request of a user waits for the task of the second.
let_through_again_example :
    ((limit full 7).0 ≡ true → (0 < count 7 full.pending) × (decrement full.counter 7 ≢ none))
    × ((k : ℕ) (rl' : RateLimit) → 0 < k → Waits 7 k full rl' → (limit rl' 7).0 ≡ false)
let_through_again_example =
    let_through_again 1 7 (ground arith) (ground arith)
      (next (next start (request 7 refl)) (request 7 refl))

passes_lem_example :
    (twice.counter 7 ≡ none → passes 7 twice (7 ∷ 8 ∷ 7 ∷ []) ≡ min (2 + 1) 2)
    × ((v : ℕ) → twice.counter 7 ≡ some v → passes 7 twice (7 ∷ 8 ∷ 7 ∷ []) ≡ min (2 - v) 2)
passes_lem_example = passes_lem 2 7 (7 ∷ 8 ∷ 7 ∷ []) (ground arith) twice-Reach

guard_impl_lem_example :
    ((grant : SpendGrant)
      → ((guard_impl (λ g. g.user_id) (get_spend_grant same) (some "token") db once).0
          ≡ success grant)
        ↔ ((token : String) × (some "token" ≡ some token)
            × (get_spend_grant same db token ≡ ok grant)
            × ((limit once grant.user_id).0 ≡ false)))
    × ((guard_impl (λ g. g.user_id) (get_spend_grant same) (some "token") db once).0
          ≡ failure forbidden Access.access_denied
        → (guard_impl (λ g. g.user_id) (get_spend_grant same) (some "token") db once).1 ≡ once)
guard_impl_lem_example =
    guard_impl_lem (λ g. g.user_id) (get_spend_grant same) (some "token") db once

-- The headers of a client that follows the description of the API.
sent : String → Option String
unfolding openapi_auth
sent name = if str_eq name openapi_auth.scheme.api_key.name then some "token" else none

lets_client_in :
    (spend_guard same sent db (new 3)).0 ≡ success (record { token_id = 11; user_id = 1 })
unfolding sent openapi_auth guard_impl get_spend_grant limit new
lets_client_in = refl

turns_client_away : (receive_guard same sent db (new 3)).0 ≡ failure forbidden Access.access_denied
unfolding sent openapi_auth guard_impl get_receive_grant
turns_client_away = refl
