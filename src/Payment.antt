-- ===== src/Payment.antt =====
-- app/src/payment/entities.rs; the rest of app/src/payment is in `Payment/`.
pub mod Rows
pub mod Service
pub mod Outcomes
pub mod RoundTrip
pub mod Retries
pub mod Refunds
use laas_api.Base.{
  ℕ, ◌^◌, Bool, true, false, not, ◌==◌, Option, none, some, is_some, List, String, Outcome, ok, err,
  panic, ◌>>=◌, ◌>>◌, panic_if, map_err, unwrap, if◌then◌else◌, ltb,
}
use laas_api.Int.{ℤ, pos}
use laas_api.Btc.{MilliSats, add}
use laas_api.Concurrency.{ConflictError}
use laas_api.CashLimits.{CashLimits, check}
use laas_api.CashLimits
use laas_api.Database.{Uuid, DateTime}
use laas_api.Balance.{Balance, Reservation, InsufficientBalance, reserve, debit, refund, is_pending}
use laas_api.Auth.{SpendGrant}
use laas_api.Ln.{RawInvoice, InvoiceError, ParsedInvoice, PaymentError, Lnd}
use laas_api.Ln.Payments.{probe_fee, pay_invoice}

pub data Error : Type 0 where
  limits_violated : CashLimits.Error → Error
  invalid_invoice : InvoiceError → Error
  amount_specified_twice amount_not_specified : Error
  payment_error : PaymentError → Error
  concurrency_conflict : ConflictError → Error
  insufficient_balance : InsufficientBalance → Error

pub data Status : Type 0 where
  new ready : Status
  failed : String → DateTime → Status
  succeeded : DateTime → Status

pub record Payment : Type 0 where
  pub id : Uuid
  pub token_id : Uuid
  pub user_id : Uuid
  pub amount : MilliSats
  pub invoice : RawInvoice
  pub fee : Option MilliSats
  pub reservation_id : Option Uuid
  pub created : DateTime
  pub status : Status

abbrev pub is_new : Status → Bool
is_new new = true
is_new ready = false
is_new (failed r t) = false
is_new (succeeded t) = false

abbrev pub is_ready : Status → Bool
is_ready new = false
is_ready ready = true
is_ready (failed r t) = false
is_ready (succeeded t) = false

-- The amount of the invoice, as `i64`, or the one given: exactly one of them is wanted.
abbrev pub choose_amount : Option ℕ → Option MilliSats → Outcome Error MilliSats
choose_amount (some a) (some b) = err amount_specified_twice
choose_amount (some a) none = if ltb a (2 ^ 63) then ok (pos a) else panic
choose_amount none (some b) = ok b
choose_amount none none = err amount_not_specified

abbrev pub reason : PaymentError → String
reason PaymentError.unknown = "UNKNOWN"
reason PaymentError.invoice_expired = "INVOICE_EXPIRED"
reason PaymentError.invoice_already_paid = "INVOICE_ALREADY_PAID"
reason PaymentError.timed_out = "TIMED_OUT"
reason PaymentError.no_route_found = "NO_ROUTE_FOUND"
reason (PaymentError.invalid_payment_details p) = "INVALID_PAYMENT_DETAILS"
reason PaymentError.insufficient_liquidity = "INSUFFICIENT_LIQUIDITY"

-- `Payment::fail`
unfoldable pub fail : DateTime → Payment → PaymentError → Payment
fail now p e = record p { status = failed (reason e) now }

abbrev pub is_reserved_by : Option Uuid → Uuid → Bool
is_reserved_by none id = false
is_reserved_by (some r) id = r == id

module _ (lnd : Lnd) where
  -- `Payment::create`
  unfoldable pub create :
      Uuid
      → DateTime
      → SpendGrant
      → RawInvoice
      → Option MilliSats
      → CashLimits
      → MilliSats
      → Outcome Error Payment
  create id now grant invoice amount limits daily_total = do
    parsed ← map_err invalid_invoice (lnd.parse invoice)
    chosen ← choose_amount parsed.amount_milli_satoshis amount
    map_err limits_violated (check limits (record { amount = chosen; daily_total = daily_total }))
    ok (record {
      id = id;
      token_id = grant.token_id;
      user_id = grant.user_id;
      amount = chosen;
      invoice = invoice;
      fee = none;
      reservation_id = none;
      created = now;
      status = new;
    })

  -- `Payment::prepare` changes the payment and the balance, and the state of the node.
  abbrev pub prepare_reserved :
      MilliSats
      → Payment
      → Outcome InsufficientBalance Reservation × Balance
      → Outcome Error Reservation × Payment × Balance
  prepare_reserved fee p (ok r, b) =
      (ok r, record p { fee = some fee; reservation_id = some r.id; status = ready }, b)
  prepare_reserved fee p (err e, b) = (err (insufficient_balance e), p, b)
  prepare_reserved fee p (panic, b) = (panic, p, b)

  abbrev pub prepare_probed :
      Uuid
      → DateTime
      → Payment
      → Balance
      → Outcome PaymentError MilliSats
      → Outcome Error Reservation × Payment × Balance
  prepare_probed id now p b (ok fee) = prepare_reserved fee p (reserve id now b (add p.amount fee))
  prepare_probed id now p b (err e) = (err (payment_error e), fail now p e, b)
  prepare_probed id now p b panic = (panic, p, b)

  abbrev pub prepare_checks : Payment → Balance → Outcome Error ParsedInvoice
  prepare_checks p b = do
    panic_if (not (is_new p.status))
    panic_if (not (p.user_id == b.user_id))
    elim (lnd.parse p.invoice) [ ok parsed ↦ ok parsed | err e ↦ panic | panic ↦ panic ]

  unfoldable pub prepare :
      Uuid
      → DateTime
      → (ℕ → List ℕ)
      → Payment
      → Balance
      → lnd.State
      → (Outcome Error Reservation × Payment × Balance) × lnd.State
  prepare id now hash p b node = elim (prepare_checks p b) [
    | ok parsed ↦
        let (probed, node') = probe_fee lnd hash parsed (some p.amount) node in
        (prepare_probed id now p b probed, node')
    | err e ↦ ((err e, p, b), node)
    | panic ↦ ((panic, p, b), node)
  ]

  -- The amount to pass to the node: none, if the invoice has one.
  abbrev pub send_amount : Payment → ParsedInvoice → Option MilliSats
  send_amount p parsed = if is_some parsed.amount_milli_satoshis then none else some p.amount

  -- The guards of `Payment::send`, and the fee and the amount that it passes on.
  abbrev pub send_checks :
      Payment → Balance → Reservation → Outcome Error (MilliSats × Option MilliSats)
  send_checks p b r = do
    panic_if (not (p.user_id == b.user_id))
    panic_if (not (is_ready p.status))
    panic_if (not (is_pending r.status))
    panic_if (not (is_reserved_by p.reservation_id r.id))
    fee ← unwrap p.fee
    elim (lnd.parse p.invoice) [
      | ok parsed ↦ ok (fee, send_amount p parsed)
      | err e ↦ panic
      | panic ↦ panic
    ]

  abbrev pub Sent : Type 0
  Sent = Outcome Error Unit × Payment × Balance × Reservation

  abbrev pub send_debited :
      DateTime → Payment → Balance → Reservation → Outcome Error Reservation → Sent
  send_debited now p b r (ok r') = (ok tt, record p { status = succeeded now }, b, r')
  send_debited now p b r (err e) = (err e, p, b, r)
  send_debited now p b r panic = (panic, p, b, r)

  abbrev pub send_refunded :
      DateTime
      → PaymentError
      → Payment
      → Balance
      → Reservation
      → Outcome Error (Reservation × Balance)
      → Sent
  send_refunded now e p b r (ok both) = (err (payment_error e), fail now p e, both.1, both.0)
  send_refunded now e p b r (err x) = (err x, p, b, r)
  send_refunded now e p b r panic = (panic, p, b, r)

  abbrev pub send_paid :
      DateTime → Payment → Balance → Reservation → Outcome PaymentError Unit → Sent
  send_paid now p b r (ok u) = send_debited now p b r (debit r)
  send_paid now p b r (err PaymentError.unknown) =
      (err (payment_error PaymentError.unknown), p, b, r)
  send_paid now p b r (err e) = send_refunded now e p b r (refund r b)
  send_paid now p b r panic = (panic, p, b, r)

  -- `Payment::send`
  unfoldable pub send : DateTime → Payment → Balance → Reservation → lnd.State → Sent × lnd.State
  send now p b r node = elim (send_checks p b r) [
    | ok (fee, amount) ↦
        let (paid, node') = pay_invoice lnd p.invoice amount fee node in
        (send_paid now p b r paid, node')
    | err e ↦ ((err e, p, b, r), node)
    | panic ↦ ((panic, p, b, r), node)
  ]
