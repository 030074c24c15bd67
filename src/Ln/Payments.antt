-- ===== src/Ln/Payments.antt =====
-- app/src/ln/node.rs: paying an invoice, and probing for the fee.
use laas_api.Base.{
  ℕ, zero, suc, ◌-◌, ◌^◌, true, Option, none, some, unwrap_or, List, [], ◌∷◌, map, String, Outcome,
  ok, err, panic, if◌then◌else◌, ltb,
}
use laas_api.Int.{ℤ, pos, add_i64}
use laas_api.Btc.{MilliSats}
use laas_api.Ln.{
  RawInvoice, RouteHintHop, ParsedInvoice, PaymentStatus, PaymentFailureReason, LnPayment,
  PaymentError, HopHint, SendPaymentRequest, SendPaymentResponse, refused, broken, message, Lnd,
  failure_reason_none, failure_reason_timeout, failure_reason_no_route, failure_reason_error,
  failure_reason_incorrect_payment_details, failure_reason_insufficient_balance,
}

-- `Node::handle_payment_status`, for a payment that failed.
abbrev pub handle_failure : LnPayment → PaymentFailureReason → PaymentError
handle_failure p failure_reason_timeout = PaymentError.timed_out
handle_failure p failure_reason_no_route = PaymentError.no_route_found
handle_failure p failure_reason_incorrect_payment_details = PaymentError.invalid_payment_details p
handle_failure p failure_reason_insufficient_balance = PaymentError.insufficient_liquidity
handle_failure p failure_reason_none = PaymentError.unknown
handle_failure p failure_reason_error = PaymentError.unknown

abbrev pub handle_status : LnPayment → PaymentStatus → Outcome PaymentError Unit
handle_status p PaymentStatus.unknown = err PaymentError.unknown
handle_status p PaymentStatus.failed = err (handle_failure p p.failure_reason)
handle_status p PaymentStatus.in_flight = err PaymentError.unknown
handle_status p PaymentStatus.succeeded = ok tt

-- `Node::handle_payment_status`
unfoldable pub handle_payment_status : Option LnPayment → Outcome PaymentError Unit
handle_payment_status (some p) = handle_status p p.status
handle_payment_status none = err PaymentError.unknown

abbrev pub default_timeout_secs : ℕ
default_timeout_secs = 20

module _ (lnd : Lnd) where
  -- `Node::handle_payment_error`, on the message of the error.
  unfoldable pub handle_payment_error : String → Outcome PaymentError Unit
  handle_payment_error msg =
      if lnd.contains msg "invoice is already paid"
      then err PaymentError.invoice_already_paid
      else if lnd.contains msg "invoice expired"
      then err PaymentError.invoice_expired
      else panic

  -- Both handlers, on the answer to a payment.
  unfoldable pub handle_response : SendPaymentResponse → Outcome PaymentError Unit
  unfolding handle_payment_error handle_payment_status
  handle_response (refused msg) = handle_payment_error msg
  handle_response broken = panic
  handle_response (message p) = handle_payment_status p

  abbrev pub payment_request : RawInvoice → Option MilliSats → MilliSats → SendPaymentRequest
  payment_request invoice amount fee_limit = record {
    payment_request = invoice;
    dest = "";
    amt_msat = unwrap_or amount (pos 0);
    fee_limit_msat = fee_limit;
    route_hints = [];
    final_cltv_delta = 0;
    payment_hash = [];
    timeout_seconds = 20;
    no_inflight_updates = true;
    allow_self_payment = true;
  }

  -- `Node::pay_invoice`
  unfoldable pub pay_invoice :
      RawInvoice → Option MilliSats → MilliSats → lnd.State → Outcome PaymentError Unit × lnd.State
  unfolding handle_response
  pay_invoice invoice amount fee_limit node =
      let (resp, node') = lnd.send_payment (payment_request invoice amount fee_limit) node in
      (handle_response resp, node')

  abbrev pub hop_hint : RouteHintHop → HopHint
  hop_hint hop = record {
    node_id = hop.src_node_id;
    chan_id = hop.short_channel_id;
    fee_base_msat = hop.base_msat;
    fee_proportional_millionths = hop.proportional_millionths;
    cltv_expiry_delta = hop.cltv_expiry_delta;
  }

  -- The amount that is probed for: the one given, or else the one of the invoice.
  abbrev pub probe_amount : ParsedInvoice → Option MilliSats → Outcome PaymentError ℤ
  probe_amount invoice (some amount) = ok amount
  probe_amount invoice none =
      let msat = unwrap_or invoice.amount_milli_satoshis 0 in
      if ltb msat (2 ^ 63) then ok (pos msat) else panic

  -- `try_into` from `u64` to `i32`
  abbrev pub cltv_delta : ParsedInvoice → Outcome PaymentError ℕ
  cltv_delta invoice =
      if ltb invoice.min_final_cltv_expiry (2 ^ 31) then ok invoice.min_final_cltv_expiry else panic

  abbrev pub probe_request : ParsedInvoice → ℤ → ℕ → List ℕ → SendPaymentRequest
  probe_request invoice amount delta hash = record {
    payment_request = "";
    dest = invoice.payee_pub_key;
    amt_msat = amount;
    fee_limit_msat = pos (2 ^ 63 - 1);
    route_hints = map (map hop_hint) invoice.route_hints;
    final_cltv_delta = delta;
    payment_hash = hash;
    timeout_seconds = 30;
    no_inflight_updates = true;
    allow_self_payment = true;
  }

  -- The fee of a probe: the fees of the routes of its HTLCs, summed.
  abbrev pub total_fees : List (Option ℤ) → ℤ
  total_fees [] = pos 0
  total_fees (htlc ∷ htlcs) = add_i64 (unwrap_or htlc (pos 0)) (total_fees htlcs)

  -- What the loop does with one answer: `none` is another round.
  abbrev pub probe_result : Outcome PaymentError Unit → Option (Outcome PaymentError MilliSats)
  probe_result (err (PaymentError.invalid_payment_details p)) = some (ok (total_fees p.htlcs))
  probe_result (err PaymentError.no_route_found) = none
  probe_result (err e) = some (err e)
  probe_result (ok u) = some panic
  probe_result panic = some panic

  -- An error of the call itself ends the loop, whatever it is.
  abbrev pub probe_answer : SendPaymentResponse → Option (Outcome PaymentError MilliSats)
  probe_answer (refused msg) = elim (handle_payment_error msg) [
    | err e ↦ some (err e)
    | ok u ↦ some panic
    | panic ↦ some panic
  ]
  probe_answer broken = some panic
  probe_answer (message p) = probe_result (handle_payment_status p)

  -- The rounds of `Node::probe_fee`, each with a fresh random hash.
  unfoldable pub probe_rounds :
      ℕ → (ℕ → List ℕ) → ParsedInvoice → ℤ → lnd.State → Outcome PaymentError MilliSats × lnd.State
  unfolding handle_payment_error handle_payment_status
  probe_rounds zero hash invoice amount node = (err PaymentError.no_route_found, node)
  probe_rounds (suc rounds) hash invoice amount node = elim (cltv_delta invoice) [
    | ok delta ↦
        let (resp, node') =
          lnd.send_payment (probe_request invoice amount delta (hash rounds)) node in
        elim (probe_answer resp) [
          | some result ↦ (result, node')
          | none ↦ probe_rounds rounds hash invoice amount node'
        ]
    | err e ↦ (err e, node)
    | panic ↦ (panic, node)
  ]

  abbrev pub max_probe_retries : ℕ
  max_probe_retries = 5

  -- `Node::probe_fee`
  unfoldable pub probe_fee :
      (ℕ → List ℕ)
      → ParsedInvoice
      → Option MilliSats
      → lnd.State
      → Outcome PaymentError MilliSats × lnd.State
  unfolding probe_rounds
  probe_fee hash invoice amount node = elim (probe_amount invoice amount) [
    | ok msat ↦ probe_rounds 5 hash invoice msat node
    | err e ↦ (err e, node)
    | panic ↦ (panic, node)
  ]
