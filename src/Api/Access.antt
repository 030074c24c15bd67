-- ===== src/Api/Access.antt =====
-- api/src/access.rs: the guard of a request, which asks for a grant and then for the rate limit.
use laas_api.Base.{
  false, Option, none, some, String, Outcome, ok, err, panic, ◌≡◌, refl, ◌↔◌, inl, inr, arith,
  Outcome-cases, Bool-cases, if◌then◌else◌,
}
use laas_api.Database.{Uuid, Database}
use laas_api.Auth.{
  AccessDenied, SpendGrant, ReceiveGrant, ReadGrant, get_spend_grant, get_receive_grant,
  get_read_grant,
}
use laas_api.Api.RateLimit.{RateLimit, limit}

pub data Error : Type 0 where
  access_denied rate_limited : Error

pub data Status : Type 0 where
  too_many_requests forbidden : Status

-- The outcome of a request guard; `crash` is a panic of the handler.
pub data Guarded (G : Type 0) : Type 0 where
  success : G → Guarded G
  failure : Status → Error → Guarded G
  crash : Guarded G

module _ {G : Type 0} (user_id : G → Uuid)
    (get_grant : Database → String → Outcome AccessDenied G) where
  abbrev pub with_grant : RateLimit → Outcome AccessDenied G → Guarded G × RateLimit
  with_grant rl (ok grant) =
      let (limited, rl') = limit rl (user_id grant) in
      if limited then (failure too_many_requests rate_limited, rl') else (success grant, rl')
  with_grant rl (err e) = (failure forbidden access_denied, rl)
  with_grant rl panic = (crash, rl)

  -- `guard_impl`, on the token of the header and the state.
  unfoldable pub guard_impl : Option String → Database → RateLimit → Guarded G × RateLimit
  guard_impl none db rl = (failure forbidden access_denied, rl)
  guard_impl (some token) db rl = with_grant rl (get_grant db token)

  -- A request gets through exactly with a token that gives the grant while the user is not
  -- limited; a request that is forbidden is not counted against any user.
  pub guard_impl_lem :
      (header : Option String) (db : Database) (rl : RateLimit)
      → ((grant : G)
          → ((guard_impl header db rl).0 ≡ success grant) ↔ (
              (token : String) × (header ≡ some token)
              × (get_grant db token ≡ ok grant)
              × ((limit rl (user_id grant)).0 ≡ false)))
        × ((guard_impl header db rl).0 ≡ failure forbidden access_denied
            → (guard_impl header db rl).1 ≡ rl)
  unfolding guard_impl
  guard_impl_lem none db rl = (
    λ grant. (λ h. absurd (ground arith), λ (token, sent, given, free). absurd (ground arith)),
    λ h. refl,
  )
  guard_impl_lem (some token) db rl = elim (Outcome-cases (get_grant db token)) [
    | inl (g, e) ↦ elim (Bool-cases (limit rl (user_id g)).0) [
      | inl limited ↦ (
        λ grant. (λ h. absurd (ground arith), λ (x, sent, given, free). absurd (ground arith)),
        λ h. absurd (ground arith),
      )
      | inr free ↦ (
        λ grant. (
          λ h. (token, refl, ground arith, ground arith),
          λ (x, sent, given, passes). ground arith,
        ),
        λ h. absurd (ground arith),
      )
    ]
    | inr failed ↦ (
      λ grant. (λ h. absurd (ground arith), λ (x, sent, given, free). absurd (ground arith)),
      λ h. ground arith,
    )
  ]

-- `TOKEN_HEADER`
abbrev pub token_header : String
token_header = "X-Auth-Token"

-- `from_request` of `SpendGuard`, `ReceiveGuard` and `ReadGuard`, on the headers of the request.
module _ (token_hash : String → String) where
  abbrev pub spend_guard :
      (String → Option String) → Database → RateLimit → Guarded SpendGrant × RateLimit
  spend_guard get_one =
      guard_impl (λ g. g.user_id) (get_spend_grant token_hash) (get_one token_header)

  abbrev pub receive_guard :
      (String → Option String) → Database → RateLimit → Guarded ReceiveGrant × RateLimit
  receive_guard get_one =
      guard_impl (λ g. g.user_id) (get_receive_grant token_hash) (get_one token_header)

  abbrev pub read_guard :
      (String → Option String) → Database → RateLimit → Guarded ReadGrant × RateLimit
  read_guard get_one =
      guard_impl (λ g. g.user_id) (get_read_grant token_hash) (get_one token_header)
