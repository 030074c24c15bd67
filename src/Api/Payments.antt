-- ===== src/Api/Payments.antt =====
-- api/src/routes/payments.rs: the routes of the payments. The parser of ids belongs to the uuid crate.
use laas_api.Base.{
  ℕ, ◌^◌, Option, none, some, List, map, String, Outcome, ok, err, panic, ◌>>=◌, ltb, if◌then◌else◌,
  map_err, Never,
}
use laas_api.Int.{ℤ, pos}
use laas_api.Btc.{MilliSats}
use laas_api.CashLimits.{CashLimits}
use laas_api.CashLimits
use laas_api.Database.{Uuid, DateTime, Database}
use laas_api.Database.Transactions.{Surroundings}
use laas_api.Auth.{SpendGrant, ReadGrant}
use laas_api.Ln.{Lnd, PaymentError, invoice_error}
use laas_api.Payment.{Payment, Status}
use laas_api.Payment
use laas_api.Payment.Service.{send_payment, get as get_payment}
use laas_api.Lists.{list_payments}
use laas_api.Api.Errors.{JsonError, bad_request, concurrency_error}
use laas_api.Api.Range.{Range, RangeError, query_range}

pub record PaymentRequest : Type 0 where
  pub invoice : String
  pub amount_msats : Option ℕ

pub data PaymentStatus : Type 0 where
  new failed succeeded : PaymentStatus

pub record PaymentModel : Type 0 where
  pub id : Uuid
  pub amount_msats : ℤ
  pub fee_msats : Option ℤ
  pub invoice : String
  pub created_at : DateTime
  pub status : PaymentStatus
  pub failure_reason : Option String

abbrev pub model_status : Status → PaymentStatus
model_status Payment.new = new
model_status Payment.ready = new
model_status (Payment.failed r t) = failed
model_status (Payment.succeeded t) = succeeded

abbrev pub model_reason : Status → Option String
model_reason Payment.new = none
model_reason Payment.ready = none
model_reason (Payment.failed r t) = some r
model_reason (Payment.succeeded t) = none

-- `PaymentModel::from_entity`
abbrev pub payment_model : Payment → PaymentModel
payment_model p = record {
  id = p.id;
  amount_msats = p.amount;
  fee_msats = p.fee;
  invoice = p.invoice;
  created_at = p.created;
  status = model_status p.status;
  failure_reason = model_reason p.status;
}

pub data Error : Type 0 where
  unknown amount_too_low amount_too_high daily_limit_exceeded invalid_invoice amount_specified_twice
        amount_not_specified invoice_expired invoice_already_paid timed_out no_route
        invalid_payment_details insufficient_liquidity insufficient_balance :
      Error

abbrev pub limits_error : CashLimits.Error → JsonError Error
limits_error CashLimits.amount_too_low = bad_request amount_too_low "payment amount too low"
limits_error CashLimits.amount_too_high = bad_request amount_too_high "payment amount too high"
limits_error CashLimits.daily_limit_exceeded =
    bad_request daily_limit_exceeded "daily payment total exceeded"

abbrev pub node_error : PaymentError → JsonError Error
node_error PaymentError.unknown = bad_request unknown "payment failed for unknown reason"
node_error PaymentError.invoice_expired = bad_request invoice_expired "invoice has expired"
node_error PaymentError.invoice_already_paid =
    bad_request invoice_already_paid "invoice has already been paid"
node_error PaymentError.timed_out = bad_request timed_out "payment has failed out"
node_error PaymentError.no_route_found = bad_request no_route "failed to route the payment"
node_error (PaymentError.invalid_payment_details x) =
    bad_request invalid_payment_details "invalid payment details"
node_error PaymentError.insufficient_liquidity =
    bad_request insufficient_liquidity
      "the liquidity on our Lightning nodes is running out, please notify support"

-- What `post` makes of an error.
unfoldable pub payment_error_of : Payment.Error → JsonError Error
unfolding bad_request
payment_error_of (Payment.limits_violated e) = limits_error e
payment_error_of (Payment.invalid_invoice (invoice_error text)) = bad_request invalid_invoice text
payment_error_of Payment.amount_specified_twice =
    bad_request amount_specified_twice "payment amount already specified in invoice"
payment_error_of Payment.amount_not_specified =
    bad_request amount_not_specified "amount not specified"
payment_error_of (Payment.payment_error e) = node_error e
payment_error_of (Payment.concurrency_conflict c) = concurrency_error unknown
payment_error_of (Payment.insufficient_balance e) =
    bad_request insufficient_balance "insufficient balance"

-- `try_into` from `u64` to `i64`, with its `unwrap`.
abbrev pub to_i64 : {E : Type 0} → ℕ → Outcome E ℤ
to_i64 n = if ltb n (2 ^ 63) then ok (pos n) else panic

abbrev pub amount_i64 : {E : Type 0} → Option ℕ → Outcome E (Option MilliSats)
amount_i64 none = ok none
amount_i64 (some n) = do a ← to_i64 n; ok (some a)

abbrev pub payment_response : Outcome Payment.Error Payment → Outcome (JsonError Error) PaymentModel
payment_response sent = do p ← map_err payment_error_of sent; ok (payment_model p)

module _ (lnd : Lnd) where
  -- `post`
  unfoldable pub post_payment :
      (ℕ → List ℕ)
      → Surroundings
      → (ℕ → Surroundings)
      → (ℕ → Surroundings)
      → SpendGrant
      → PaymentRequest
      → CashLimits
      → lnd.State
      → Database
      → Outcome (JsonError Error) PaymentModel × lnd.State × Database
  post_payment hash start first second grant req limits node db =
      elim (amount_i64 {E = Never} req.amount_msats) [
        | ok amount ↦
            let (sent, node', db') =
              send_payment lnd hash start first second grant req.invoice amount limits node db in
            (payment_response sent, node', db')
        | err e ↦ (panic, node, db)
        | panic ↦ (panic, node, db)
      ]

-- `list`
unfoldable pub list_payment_models :
    ReadGrant → Database → Range → Outcome (JsonError RangeError) (List PaymentModel)
list_payment_models grant db range = do
  q ← query_range range
  payments ← list_payments grant db q
  ok (map payment_model payments)

-- `get`: an id that is not one is answered like one that is not there.
unfoldable pub get_payment_model :
    {E : Type 0}
    → (String → Option Uuid)
    → ReadGrant
    → Database
    → String
    → Outcome E (Option PaymentModel)
get_payment_model parse_uuid grant db payment_id = elim (parse_uuid payment_id) [
  | none ↦ ok none
  | some id ↦ do
    payment ← get_payment grant db id
    ok (elim payment [ none ↦ none | some p ↦ some (payment_model p) ])
]
