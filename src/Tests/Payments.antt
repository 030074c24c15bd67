-- ===== src/Tests/Payments.antt =====
-- Payments.
use laas_api.Base.{◌≡◌, ◌≢◌, refl, none, some, List, [], ◌∷◌, Never, ok, err, panic, ℕ, arith}
use laas_api.Int.{add_i64, sub_i64, wrap_i64, pos, ◌+ℤ◌, ◌-ℤ◌, ◌≤ℤ◌, ◌<ℤ◌}
use laas_api.Btc.{MilliSats, add, sub}
use laas_api.Concurrency.{conflict, retry_loop}
use laas_api.Database.Transactions.{Surroundings}
use laas_api.Auth.{SpendGrant}
use laas_api.Balance.{
  refund, credit, Balance, Reservation, InsufficientBalance, pending, debited, refunded, reserve,
  changed,
}
use laas_api.Balance
use laas_api.Balance.Reservations.{reservation}
use laas_api.Balance.Queries
use laas_api.Ln.{
  Lnd, PaymentError, ParsedInvoice, failure_reason_none, failure_reason_no_route,
  failure_reason_no_route, failure_reason_incorrect_payment_details,
}
use laas_api.Ln
use laas_api.Ln.Payments
use laas_api.Payment.{
  fail, Payment, new, ready, failed, succeeded, payment_error, insufficient_balance,
  concurrency_conflict, prepare, send, reason,
}
use laas_api.Payment.Outcomes.{IsReady, paid, send_outcomes, probed, prepare_outcomes}
use laas_api.Payment.Rows
use laas_api.Payment.RoundTrip.{get-upsert_payment}
use laas_api.Payment.Service.{Shared, prepare_once, send_once, error_chain}
use laas_api.Payment.Retries.{prepare_conflict_panics}
use laas_api.Payment.Refunds.{send_conflict_panics}
use laas_api.Tests.Data.{db, db_of, node_with, answer}

abbrev lnd : Lnd
lnd = node_with (answer Ln.PaymentStatus.succeeded failure_reason_none)

abbrev parsed : ParsedInvoice
parsed = record {
  amount_milli_satoshis = none;
  payee_pub_key = "payee";
  route_hints = [];
  min_final_cltv_expiry = 18;
}

abbrev wanted : Payment
wanted = record {
  id = 40;
  token_id = 11;
  user_id = 1;
  amount = pos 1000;
  invoice = "lnbc";
  fee = none;
  reservation_id = none;
  created = 900;
  status = new;
}

abbrev prepared : Payment
prepared = record wanted { fee = some (pos 10); reservation_id = some 50; status = ready }

abbrev balance : Balance
balance = record { user_id = 1; original_amount = pos 3990; amount = pos 3990 }

abbrev reserved : Reservation
reserved = record { id = 50; user_id = 1; amount = pos 1010; status = pending; created = 1000 }

prepared-IsReady : IsReady prepared balance reserved (pos 10)
prepared-IsReady = record {
  owner = refl;
  status = refl;
  reserved = refl;
  is_pending = refl;
  fee_set = refl;
}

send_outcomes_example :
    ((paid lnd 2000 prepared balance reserved (pos 10) parsed []).0 ≡ ok tt
      → send lnd 2000 prepared balance reserved [] ≡ (
        (
          ok tt,
          record prepared { status = succeeded 2000 },
          balance,
          record reserved { status = debited },
        ),
        (paid lnd 2000 prepared balance reserved (pos 10) parsed []).1,
      ))
    × ((paid lnd 2000 prepared balance reserved (pos 10) parsed []).0 ≡ err PaymentError.unknown
        → send lnd 2000 prepared balance reserved [] ≡ (
          (err (payment_error PaymentError.unknown), prepared, balance, reserved),
          (paid lnd 2000 prepared balance reserved (pos 10) parsed []).1,
        ))
    × ((e : PaymentError)
        → (paid lnd 2000 prepared balance reserved (pos 10) parsed []).0 ≡ err e
        → e ≢ PaymentError.unknown
        → send lnd 2000 prepared balance reserved [] ≡ (
          (
            err (payment_error e),
            record prepared { status = failed (reason e) 2000 },
            record balance { amount = pos 3990 +ℤ pos 1010 },
            record reserved { status = refunded },
          ),
          (paid lnd 2000 prepared balance reserved (pos 10) parsed []).1,
        ))
send_outcomes_example =
    send_outcomes lnd 2000 prepared balance reserved (pos 10) parsed [] prepared-IsReady refl
      (unfold ◌+ℤ◌ in ground arith)

-- A node on which a probe meets the payee.
abbrev probing : Lnd
probing = node_with (answer Ln.PaymentStatus.failed failure_reason_incorrect_payment_details)

abbrev full : Balance
full = record { user_id = 1; original_amount = pos 5000; amount = pos 5000 }

abbrev no_hash : ℕ → List ℕ
no_hash i = []

prepare_outcomes_example :
    ((fee : MilliSats)
      → (probed probing 50 1000 no_hash wanted full parsed []).0 ≡ ok fee
      → pos 0 ≤ℤ add (pos 1000) fee
      → add (pos 1000) fee ≤ℤ pos 5000
      → prepare probing 50 1000 no_hash wanted full [] ≡ (
        (
          ok (reservation 50 1000 full (add (pos 1000) fee)),
          record wanted { fee = some fee; reservation_id = some 50; status = ready },
          record full { amount = pos 5000 -ℤ add (pos 1000) fee },
        ),
        (probed probing 50 1000 no_hash wanted full parsed []).1,
      ))
    × ((fee : MilliSats)
        → (probed probing 50 1000 no_hash wanted full parsed []).0 ≡ ok fee
        → pos 5000 <ℤ add (pos 1000) fee
        → prepare probing 50 1000 no_hash wanted full [] ≡ (
          (err (insufficient_balance InsufficientBalance.insufficient_balance), wanted, full),
          (probed probing 50 1000 no_hash wanted full parsed []).1,
        ))
    × ((e : PaymentError)
        → (probed probing 50 1000 no_hash wanted full parsed []).0 ≡ err e
        → prepare probing 50 1000 no_hash wanted full [] ≡ (
          (err (payment_error e), record wanted { status = failed (reason e) 1000 }, full),
          (probed probing 50 1000 no_hash wanted full parsed []).1,
        ))
prepare_outcomes_example =
    prepare_outcomes probing 50 1000 no_hash wanted full parsed [] refl refl refl (ground arith)

get-upsert_payment_example :
    Rows.get {E = Never} (Rows.upsert_payment db prepared) 40 1
    ≡ ok (some (record prepared { status = new }))
get-upsert_payment_example = get-upsert_payment db prepared

abbrev grant : SpendGrant
grant = record { token_id = 11; user_id = 1 }

-- Another transaction spends while the first call runs.
abbrev busy : ℕ → Surroundings
busy i = record { first = λ x. db_of (pos 4500); second = λ x. x; id = 50; now = 1000 }

abbrev shared : Shared probing
shared = record { payment = wanted; node = []; db = db }

abbrev after_conflict : Shared probing
after_conflict = record { payment = prepared; node = "send_payment" ∷ []; db = db_of (pos 4500) }

conflicts :
    prepare_once probing no_hash grant (busy 1) shared
    ≡ (err (concurrency_conflict conflict), after_conflict)
unfolding prepare_once Queries.get Balance.new prepare Payments.probe_fee Payments.probe_rounds
    Payments.handle_payment_status add add_i64 wrap_i64 ◌+ℤ◌ reserve sub sub_i64 ◌-ℤ◌
    Queries.upsert_reservation Queries.update changed Rows.upsert_payment Rows.payment_row
    Rows.status_to_i32
conflicts = refl

prepare_conflict_panics_example :
    (retry_loop error_chain (λ i. prepare_once probing no_hash grant (busy i)) shared).0 ≡ panic
prepare_conflict_panics_example =
    prepare_conflict_panics probing no_hash grant busy shared after_conflict conflict conflicts

-- A node that finds no route, and a payment that is ready in a database with its reservation.
abbrev failing : Lnd
failing = node_with (answer Ln.PaymentStatus.failed failure_reason_no_route)

abbrev ready_to_send : Shared failing
ready_to_send = record {
  payment = prepared;
  node = [];
  db = Queries.with_reservation (db_of (pos 3990)) reserved;
}

abbrev after_failure : Shared failing
after_failure = record {
  payment = record prepared { status = failed "NO_ROUTE_FOUND" 1000 };
  node = "send_payment" ∷ [];
  db = db_of (pos 4500);
}

refund_conflicts :
    send_once failing grant (busy 1) ready_to_send
    ≡ (err (concurrency_conflict conflict), after_failure)
unfolding send_once Queries.get Balance.new Queries.get_reservation Queries.into_entity
    Queries.status_of_i32 send Payments.pay_invoice Payments.handle_response
    Payments.handle_payment_status refund credit fail add add_i64 wrap_i64 ◌+ℤ◌
    Queries.upsert_reservation Queries.update changed Rows.upsert_payment Rows.payment_row
    Rows.status_to_i32
refund_conflicts = refl

send_conflict_panics_example :
    (retry_loop error_chain (λ i. send_once failing grant (busy i)) ready_to_send).0 ≡ panic
send_conflict_panics_example =
    send_conflict_panics failing grant busy ready_to_send after_failure conflict refund_conflicts
