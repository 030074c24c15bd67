-- ===== src/Api/Answers.antt =====
-- api/src/routes: how the errors of the services are answered.
use laas_api.Base.{◌≡◌, ◌↔◌, refl, true, arith}
use laas_api.Concurrency.{is_conflict}
use laas_api.CashLimits
use laas_api.Ln.{PaymentError, invoice_error}
use laas_api.Payment
use laas_api.Invoice
use laas_api.Withdrawal
use laas_api.Payment.Service.{error_chain as payment_chain}
use laas_api.Withdrawal.Service.{error_chain as withdrawal_chain}
use laas_api.Api.Errors.{
  bad_request, internal_server_error, concurrency_error, bad_request_status,
  internal_server_error_status,
}
use laas_api.Api.Payments.{payment_error_of}
use laas_api.Api.Invoices.{invoice_error_of}
use laas_api.Api.Withdrawals.{withdrawal_error_of}

payment_answer :
    (e : Payment.Error)
    → ((payment_error_of e).http_status ≡ internal_server_error_status)
      ↔ (is_conflict (payment_chain e) ≡ true)
unfolding payment_error_of bad_request concurrency_error internal_server_error is_conflict
payment_answer (Payment.limits_violated CashLimits.amount_too_low) = ground arith
payment_answer (Payment.limits_violated CashLimits.amount_too_high) = ground arith
payment_answer (Payment.limits_violated CashLimits.daily_limit_exceeded) = ground arith
payment_answer (Payment.invalid_invoice (invoice_error x)) = ground arith
payment_answer Payment.amount_specified_twice = ground arith
payment_answer Payment.amount_not_specified = ground arith
payment_answer (Payment.payment_error PaymentError.unknown) = ground arith
payment_answer (Payment.payment_error PaymentError.invoice_expired) = ground arith
payment_answer (Payment.payment_error PaymentError.invoice_already_paid) = ground arith
payment_answer (Payment.payment_error PaymentError.timed_out) = ground arith
payment_answer (Payment.payment_error PaymentError.no_route_found) = ground arith
payment_answer (Payment.payment_error (PaymentError.invalid_payment_details x)) = ground arith
payment_answer (Payment.payment_error PaymentError.insufficient_liquidity) = ground arith
payment_answer (Payment.concurrency_conflict c) = ground arith
payment_answer (Payment.insufficient_balance x) = ground arith

withdrawal_answer :
    (e : Withdrawal.Error)
    → ((withdrawal_error_of e).http_status ≡ internal_server_error_status)
      ↔ (is_conflict (withdrawal_chain e) ≡ true)
unfolding withdrawal_error_of bad_request concurrency_error internal_server_error is_conflict
withdrawal_answer (Withdrawal.insufficient_balance x) = ground arith
withdrawal_answer (Withdrawal.concurrency_conflict c) = ground arith
withdrawal_answer Withdrawal.amount_not_positive = ground arith

invoice_answer : (e : Invoice.Error) → (invoice_error_of e).http_status ≡ bad_request_status
unfolding invoice_error_of bad_request
invoice_answer (Invoice.limits_violated CashLimits.amount_too_low) = refl
invoice_answer (Invoice.limits_violated CashLimits.amount_too_high) = refl
invoice_answer (Invoice.limits_violated CashLimits.daily_limit_exceeded) = refl
invoice_answer Invoice.amount_not_positive = refl
invoice_answer (Invoice.invalid_expiry x) = refl
invoice_answer (Invoice.invalid_memo x) = refl

-- The routes of payments and withdrawals answer an error with an internal server error exactly if the
-- retry loop takes it for a concurrency conflict; the route of invoices answers every error with a bad
-- request.
pub answers_lem :
    ((e : Payment.Error)
      → ((payment_error_of e).http_status ≡ internal_server_error_status)
        ↔ (is_conflict (payment_chain e) ≡ true))
    × ((e : Withdrawal.Error)
        → ((withdrawal_error_of e).http_status ≡ internal_server_error_status)
          ↔ (is_conflict (withdrawal_chain e) ≡ true))
    × ((e : Invoice.Error) → (invoice_error_of e).http_status ≡ bad_request_status)
answers_lem = (payment_answer, withdrawal_answer, invoice_answer)
