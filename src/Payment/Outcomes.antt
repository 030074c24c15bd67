-- ===== src/Payment/Outcomes.antt =====
-- app/src/payment/entities.rs: what preparing and sending a payment do to the funds.
use laas_api.Base.{◌≡◌, ◌≢◌, some, Outcome, ok, err, arith, ==_refl, ℕ, List}
use laas_api.Int.{pos, ◌+ℤ◌, ◌-ℤ◌, ◌≤ℤ◌, ◌<ℤ◌, IsI64, sub_covered, add_i64-eq}
use laas_api.Btc.{MilliSats, add, sub}
use laas_api.Balance.Reservations.{reservation}
use laas_api.Database.{Uuid, DateTime}
use laas_api.Balance.{
  Balance, Reservation, InsufficientBalance, pending, debited, refunded, debit, refund, reserve,
  credit,
}
use laas_api.Ln.{Lnd, ParsedInvoice, PaymentError}
use laas_api.Ln.Payments.{pay_invoice, probe_fee}
use laas_api.Payment.{
  Payment, new, ready, failed, succeeded, payment_error, insufficient_balance, prepare, send, fail,
  reason, send_amount, prepare_checks, send_checks, send_paid, prepare_probed,
}

-- A payment that is ready to be sent, with its reservation, for the user of a balance.
pub record IsReady (p : Payment) (b : Balance) (r : Reservation) (fee : MilliSats) : Type 0 where
  pub owner : p.user_id ≡ b.user_id
  pub status : p.status ≡ ready
  pub reserved : p.reservation_id ≡ some r.id
  pub is_pending : r.status ≡ pending
  pub fee_set : p.fee ≡ some fee

module _ (lnd : Lnd) (now : DateTime) (p : Payment) (b : Balance) (r : Reservation)
    (fee : MilliSats) (parsed : ParsedInvoice) (node : lnd.State) where
  -- The call of the node that `send` makes.
  abbrev pub paid : Outcome PaymentError Unit × lnd.State
  paid = pay_invoice lnd p.invoice (send_amount lnd p parsed) fee node

  checks_pass :
      IsReady p b r fee
      → lnd.parse p.invoice ≡ ok parsed
      → send_checks lnd p b r ≡ ok (fee, send_amount lnd p parsed)
  checks_pass is parses = ground (arith, ==_refl b.user_id, ==_refl r.id)

  send_asks :
      IsReady p b r fee
      → lnd.parse p.invoice ≡ ok parsed
      → send lnd now p b r node ≡ (send_paid lnd now p b r paid.0, paid.1)
  unfolding send
  send_asks is parses = rw (checks_pass is parses, send)

  -- For a payment that is ready and whose invoice parses, sending asks the node with the fee that
  -- was probed as the limit. If the node has paid, the reservation is debited and the balance
  -- stays; if the outcome is unknown nothing changes; on any other error the payment fails and
  -- exactly the reserved amount goes back to the balance, provided that this does not overflow.
  pub send_outcomes :
      IsReady p b r fee
      → lnd.parse p.invoice ≡ ok parsed
      → IsI64 (b.amount +ℤ r.amount)
      → (paid.0 ≡ ok tt
          → send lnd now p b r node ≡ (
            (ok tt, record p { status = succeeded now }, b, record r { status = debited }),
            paid.1,
          ))
        × (paid.0 ≡ err PaymentError.unknown
            → send lnd now p b r node
              ≡ ((err (payment_error PaymentError.unknown), p, b, r), paid.1))
        × ((e : PaymentError)
            → paid.0 ≡ err e
            → e ≢ PaymentError.unknown
            → send lnd now p b r node ≡ (
              (
                err (payment_error e),
                record p { status = failed (reason e) now },
                record b { amount = b.amount +ℤ r.amount },
                record r { status = refunded },
              ),
              paid.1,
            ))
  unfolding debit refund credit fail add
  send_outcomes is parses range = (
    λ e. rw (send_asks is parses) (ground arith),
    λ e. rw (send_asks is parses) (ground arith),
    λ x e ne. rw (send_asks is parses) (ground (arith, add_i64-eq b.amount r.amount range)),
  )

module _ (lnd : Lnd) (id : Uuid) (now : DateTime) (hash : ℕ → List ℕ) (p : Payment) (b : Balance)
    (parsed : ParsedInvoice) (node : lnd.State) where
  -- The probe that `prepare` makes.
  abbrev pub probed : Outcome PaymentError MilliSats × lnd.State
  probed = probe_fee lnd hash parsed (some p.amount) node

  prepare_asks :
      p.status ≡ new
      → p.user_id ≡ b.user_id
      → lnd.parse p.invoice ≡ ok parsed
      → prepare lnd id now hash p b node ≡ (prepare_probed lnd id now p b probed.0, probed.1)
  unfolding prepare
  prepare_asks is_new owner parses =
      let checks : prepare_checks lnd p b ≡ ok parsed = ground (arith, ==_refl b.user_id) in
      rw (checks, prepare)

  -- For a new payment of the owner of a balance, whose invoice parses: if the probe gives a fee
  -- and the balance covers the sum of amount and fee, which is not negative, preparing reserves
  -- exactly this sum and makes the payment ready with that fee and that reservation. If the
  -- balance is short, payment and balance stay; if the probe fails, the payment fails and the
  -- balance stays.
  pub prepare_outcomes :
      p.status ≡ new
      → p.user_id ≡ b.user_id
      → lnd.parse p.invoice ≡ ok parsed
      → IsI64 b.amount
      → ((fee : MilliSats)
          → probed.0 ≡ ok fee
          → pos 0 ≤ℤ add p.amount fee
          → add p.amount fee ≤ℤ b.amount
          → prepare lnd id now hash p b node ≡ (
            (
              ok (reservation id now b (add p.amount fee)),
              record p { fee = some fee; reservation_id = some id; status = ready },
              record b { amount = b.amount -ℤ add p.amount fee },
            ),
            probed.1,
          ))
        × ((fee : MilliSats)
            → probed.0 ≡ ok fee
            → b.amount <ℤ add p.amount fee
            → prepare lnd id now hash p b node ≡ (
              (err (insufficient_balance InsufficientBalance.insufficient_balance), p, b),
              probed.1,
            ))
        × ((e : PaymentError)
            → probed.0 ≡ err e
            → prepare lnd id now hash p b node
              ≡ ((err (payment_error e), record p { status = failed (reason e) now }, b), probed.1))
  unfolding reserve fail sub
  prepare_outcomes is_new owner parses range = (
    λ fee e nonneg covered.
        rw (prepare_asks is_new owner parses)
          (ground (arith, sub_covered b.amount (add p.amount fee) range nonneg covered)),
    λ fee e short. rw (prepare_asks is_new owner parses) (ground arith),
    λ x e. rw (prepare_asks is_new owner parses) (ground arith),
  )
