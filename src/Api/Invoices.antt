-- ===== src/Api/Invoices.antt =====
-- api/src/routes/invoices.rs: the routes of the invoices, with app/src/seconds.rs.
use laas_api.Base.{
  ℕ, Bool, Option, none, some, List, map, String, Outcome, ok, err, panic, ◌>>=◌, map_err,
  unwrap_or, Never,
}
use laas_api.Int.{ℤ, pos}
use laas_api.CashLimits.{CashLimits}
use laas_api.CashLimits
use laas_api.Database.{Uuid, DateTime, Database}
use laas_api.Database.Transactions.{Surroundings}
use laas_api.Auth.{ReceiveGrant, ReadGrant}
use laas_api.Ln.{Lnd}
use laas_api.Invoice.{Invoice, Settlement, is_settled, is_expired}
use laas_api.Invoice
use laas_api.Invoice.Service.{create, get as get_invoice}
use laas_api.Lists.{list_invoices}
use laas_api.Api.Errors.{JsonError, bad_request}
use laas_api.Api.Range.{Range, RangeError, query_range}
use laas_api.Api.Payments.{to_i64}

-- `Seconds::one_hour`
abbrev pub one_hour : ℤ
one_hour = pos 3600

pub record InvoiceRequest : Type 0 where
  pub memo : Option String
  pub amount_msats : ℕ
  pub expiry_secs : Option ℤ

pub record InvoiceModel : Type 0 where
  pub invoice : String
  pub created_at : DateTime
  pub memo : Option String
  pub amount_msats : ℤ
  pub settled_at : Option DateTime
  pub amount_paid_msats : Option ℤ
  pub expires_at : DateTime
  pub is_settled : Bool
  pub is_expired : Bool

abbrev pub map_option : {A B : Type 0} → (A → B) → Option A → Option B
map_option f none = none
map_option f (some a) = some (f a)

-- `InvoiceModel::from_entity`, which reads the clock for `is_expired`.
abbrev pub invoice_model : DateTime → Invoice → InvoiceModel
invoice_model now i = record {
  invoice = i.raw;
  created_at = i.created;
  memo = i.memo;
  amount_msats = i.amount;
  settled_at = map_option Settlement.timestamp i.settlement;
  amount_paid_msats = map_option Settlement.amount i.settlement;
  expires_at = i.expiration;
  is_settled = is_settled i;
  is_expired = is_expired now i;
}

pub data Error : Type 0 where
  amount_too_low amount_too_high daily_limit_exceeded amount_not_positive invalid_expiry
        invalid_memo :
      Error

-- What `post` makes of an error.
unfoldable pub invoice_error_of : Invoice.Error → JsonError Error
unfolding bad_request
invoice_error_of (Invoice.limits_violated CashLimits.amount_too_low) =
    bad_request amount_too_low "invoice amount too low"
invoice_error_of (Invoice.limits_violated CashLimits.amount_too_high) =
    bad_request amount_too_high "invoice amount too high"
invoice_error_of (Invoice.limits_violated CashLimits.daily_limit_exceeded) =
    bad_request daily_limit_exceeded "daily invoice total exceeded"
invoice_error_of Invoice.amount_not_positive =
    bad_request amount_not_positive "amount must be positive"
invoice_error_of (Invoice.invalid_expiry message) = bad_request invalid_expiry message
invoice_error_of (Invoice.invalid_memo message) = bad_request invalid_memo message

abbrev pub invoice_response :
    DateTime → Outcome Invoice.Error Invoice → Outcome (JsonError Error) InvoiceModel
invoice_response now created = do i ← map_err invoice_error_of created; ok (invoice_model now i)

module _ (lnd : Lnd) where
  -- `post`; `later` and `last` are the times at which the clock is read again.
  unfoldable pub post_invoice :
      Surroundings
      → DateTime
      → DateTime
      → ReceiveGrant
      → InvoiceRequest
      → CashLimits
      → lnd.State
      → Database
      → Outcome (JsonError Error) InvoiceModel × lnd.State × Database
  post_invoice env later last grant req limits node db =
      elim (to_i64 {E = Never} req.amount_msats) [
        | ok amount ↦
            let (created, node', db') =
              create lnd env later grant amount req.memo (unwrap_or req.expiry_secs one_hour) limits
                node db in
            (invoice_response last created, node', db')
        | err e ↦ (panic, node, db)
        | panic ↦ (panic, node, db)
      ]

-- `list`
unfoldable pub list_invoice_models :
    DateTime → ReadGrant → Database → Range → Outcome (JsonError RangeError) (List InvoiceModel)
list_invoice_models now grant db range = do
  q ← query_range range
  invoices ← list_invoices grant db q
  ok (map (invoice_model now) invoices)

-- `get`
unfoldable pub get_invoice_model :
    (String → Option Uuid) → DateTime → ReadGrant → Database → String → Option InvoiceModel
get_invoice_model parse_uuid now grant db invoice_id = elim (parse_uuid invoice_id) [
  | none ↦ none
  | some id ↦ map_option (invoice_model now) (get_invoice grant db id)
]
