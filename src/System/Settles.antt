-- ===== src/System/Settles.antt =====
-- The transactions that end a reservation: the sending of a payment and the confirmation of a
-- withdrawal.
use laas_api.Base.{
  ◌≡◌, ◌∙◌, refl, ap, subst, inl, inr, ◌⊎◌, Outcome, ok, err, panic, arith, map_err-ok,
  Outcome-cases, >>=-eq-ok, false, Never,
}
use laas_api.Int.{ℤ, ◌+ℤ◌, IsI64}
use laas_api.Btc.{TxOut, add}
use laas_api.Database.{Uuid, DateTime, Database}
use laas_api.Database.Transactions.{Surroundings}
use laas_api.Balance.{
  Balance, Reservation, pending, debited, refunded, debit, refund, new, changed, credit,
}
use laas_api.Balance.Queries
use laas_api.Balance.Queries.{with_reservation}
use laas_api.Ln.{Lnd, PaymentError}
use laas_api.Ln.Payments.{pay_invoice}
use laas_api.Payment.{Payment, send, send_checks, send_paid, send_refunded}
use laas_api.Payment
use laas_api.Payment.Service.{send_writes}
use laas_api.Payment.Rows.{upsert_payment}
use laas_api.Withdrawal.{Withdrawal, confirm}
use laas_api.Withdrawal.Outcomes.{confirm-ok}
use laas_api.Withdrawal.Service.{settle}
use laas_api.Withdrawal.Rows.{upsert_withdrawal}
use laas_api.Ledger.{nothing}
use laas_api.Ledger.View.{available}
use laas_api.System.Loads.{get-available, Extends, get_reservation-IsThere}
use laas_api.System.Starts.{upsert_withdrawal-eq}
use laas_api.System.Effects.{
  Effect, rewrites, refunds, IsSameUsers, IsThere, Written, update-Written, update_kept, moved_to,
  upsert_reservation-IsOpen, IsUpserted,
}

-- What sending leaves of the balance and of the reservation: both are as they were, or the reservation
-- is debited, or it is refunded to the balance.
abbrev IsSpentOrKept : Balance → Reservation → Balance → Reservation → Type 0
IsSpentOrKept b r b' r' =
    ((b' ≡ b) × ((r' ≡ r) ⊎ (r' ≡ record r { status = debited })))
    ⊎ ((b' ≡ credit b r.amount) × (r' ≡ record r { status = refunded }))

abbrev IsSent :
    Balance → Reservation → Outcome Payment.Error Unit × Payment × Balance × Reservation → Type 0
IsSent b r (result, p, b', r') = (result ≡ panic) ⊎ (IsSpentOrKept b r b' r' × (r.status ≡ pending))

module _ (lnd : Lnd) (now : DateTime) (p : Payment) (b : Balance) (r : Reservation) where
  refunded_cases :
      (e : PaymentError)
      → r.status ≡ pending
      → IsSent b r (send_refunded lnd now e p b r (refund r b))
  unfolding refund
  refunded_cases e pends = rw pends (inr (inr (refl, refl), refl))

  paid_cases :
      (paid : Outcome PaymentError Unit)
      → r.status ≡ pending
      → IsSent b r (send_paid lnd now p b r paid)
  unfolding debit
  paid_cases (ok u) pends = rw pends (inr (inl (refl, inr refl), refl))
  paid_cases (err PaymentError.unknown) pends = inr (inl (refl, inl refl), pends)
  paid_cases (err PaymentError.invoice_expired) pends = refunded_cases _ pends
  paid_cases (err PaymentError.invoice_already_paid) pends = refunded_cases _ pends
  paid_cases (err PaymentError.timed_out) pends = refunded_cases _ pends
  paid_cases (err PaymentError.no_route_found) pends = refunded_cases _ pends
  paid_cases (err (PaymentError.invalid_payment_details x)) pends = refunded_cases _ pends
  paid_cases (err PaymentError.insufficient_liquidity) pends = refunded_cases _ pends
  paid_cases panic pends = inl refl

  checks_pending : (x : _) → send_checks lnd p b r ≡ ok x → r.status ≡ pending
  checks_pending x e = ground arith

  send-cases : (node : lnd.State) → IsSent b r (send lnd now p b r node).0
  unfolding send
  send-cases node = elim (Outcome-cases (send_checks lnd p b r)) [
    | inl ((fee, amount), e) ↦
        rw (e, send) (paid_cases (pay_invoice lnd p.invoice amount fee node).0 (checks_pending _ e))
    | inr (inl (x, e)) ↦ absurd (ground arith)
    | inr (inr e) ↦ rw (e, send) (inl refl)
  ]

-- The two writes after sending are the same for all outcomes.
send_writes-parts :
    (db db' : Database) (result : Outcome Payment.Error Unit) (p : Payment) (b : Balance)
    (r : Reservation)
    → send_writes result r p b db ≡ ok db'
    → (db₁ : Database) × (Queries.upsert_reservation {E = Payment.Error} db r ≡ ok db₁)
      × (Queries.update (upsert_payment db₁ p) b ≡ ok db')
send_writes-parts db db' (ok u) p b r h =
    let (db₁, made, h₁) = >>=-eq-ok (Queries.upsert_reservation {E = Payment.Error} db r) _ h in
    (
      db₁,
      made,
      map_err-ok Payment.concurrency_conflict (Queries.update (upsert_payment db₁ p) b) db' h₁,
    )
send_writes-parts db db' (err e) p b r h =
    let (db₁, made, h₁) = >>=-eq-ok (Queries.upsert_reservation {E = Payment.Error} db r) _ h in
    (
      db₁,
      made,
      map_err-ok Payment.concurrency_conflict (Queries.update (upsert_payment db₁ p) b) db' h₁,
    )
send_writes-parts db db' panic p b r h = absurd (cc h)

changed-new : (u : Uuid) (o : ℤ) → changed (new u o) ≡ false
unfolding new changed
changed-new u o = ground arith

-- The payment is written to no table that counts here.
upsert_payment-users :
    (db db₁ : Database) (p : Payment) (r : Reservation)
    → db₁ ≡ with_reservation db r
    → IsSameUsers db (upsert_payment db₁ p) × IsUpserted db r (upsert_payment db₁ p)
unfolding upsert_payment
upsert_payment-users db db₁ p r e = rw e (refl, refl)

sent_effect :
    (db db' : Database) (b : Balance) (o : ℤ) (r : Reservation)
    (result : Outcome Payment.Error Unit) (p : Payment) (b' : Balance) (r' : Reservation)
    → b ≡ new r.user_id o
    → IsI64 (o +ℤ r.amount)
    → IsSpentOrKept b r b' r'
    → r.status ≡ pending
    → IsThere db r
    → send_writes result r' p b' db ≡ ok db'
    → Effect db db' nothing
unfolding new credit
sent_effect db db' b o r result p b' r' read range (inl (kept, is)) pends there h =
    let (db₁, made, updated) = send_writes-parts db db' result p b' r' h in
    let there' : IsThere db r' = elim is [ inl e ↦ rw e there | inr e ↦ rw e there ] in
    let (row_made, opened) = upsert_reservation-IsOpen db db₁ r' there' made in
    let (users, row_put) = upsert_payment-users db db₁ p r' row_made in
    let unchanged : changed b' ≡ false = rw (kept, read) (changed-new r.user_id o) in
    let whole = update_kept (upsert_payment db₁ p) db' b' unchanged updated in
    rewrites r' (λ j. refl) (elim is [ inl e ↦ inl (rw e pends) | inr e ↦ inr (rw e refl) ]) opened
      (ap (λ x. x.users) whole ∙ users) (ap (λ x. x.balance_reservations) whole ∙ row_put)
sent_effect db db' b o r result p b' r' read range (inr (credited, refunds_it)) pends there h =
    let (db₁, made, updated) = send_writes-parts db db' result p b' r' h in
    let (row_made, opened) = upsert_reservation-IsOpen db db₁ r' (rw refunds_it there) made in
    let (users, row_put) = upsert_payment-users db db₁ p r' row_made in
    let (written, kept) = update-Written db (upsert_payment db₁ p) db' b' users updated in
    let moved : b' ≡ moved_to r'.user_id o (add o r'.amount) =
      credited ∙ rw refunds_it (ap (λ x. credit x r.amount) read) in
    refunds r' o (λ j. refl) (rw refunds_it refl) (rw refunds_it range) opened
      (subst (λ x. Written db x db') moved written) (kept ∙ row_put)

debited_effect :
    (db db₁ db' : Database) (w : Withdrawal) (r r' : Reservation)
    → r' ≡ record r { status = debited }
    → IsThere db r
    → upsert_withdrawal {E = Never} db w ≡ ok db₁
    → Queries.upsert_reservation {E = Never} db₁ r' ≡ ok db'
    → Effect db db' nothing
debited_effect db db₁ db' w r r' is there put made =
    let stored = upsert_withdrawal-eq db db₁ w put in
    let there' : IsThere db₁ r' = rw (stored, is) there in
    let (row_made, opened) = upsert_reservation-IsOpen db₁ db' r' there' made in
    rewrites r' (λ j. refl) (inr (rw is refl)) (rw stored at opened)
      (ap (λ x. x.users) row_made ∙ ap (λ x. x.users) stored)
      (ap (λ x. x.balance_reservations) row_made
        ∙ ap (λ x. (with_reservation x r').balance_reservations) stored)

module _ (seen db db' : Database) (extends : Extends seen db) where
  -- What sending a payment writes.
  pub sent-Effect :
      (lnd : Lnd) (now : DateTime) (id : Uuid) (p : Payment) (b : Balance) (r : Reservation)
      (node : lnd.State)
      → Queries.get {E = Payment.Error} seen p.user_id ≡ ok b
      → Queries.get_reservation {E = Payment.Error} seen id ≡ ok r
      → r.user_id ≡ p.user_id
      → IsI64 (b.amount +ℤ r.amount)
      → (let x = send lnd now p b r node in send_writes x.0.0 x.0.3 x.0.1 x.0.2 db ≡ ok db')
      → Effect db db' nothing
  unfolding new
  sent-Effect lnd now id p b r node read loaded owner range writes =
      let x = send lnd now p b r node in
      let stored : b ≡ new r.user_id (available seen p.user_id) =
        rw owner (get-available seen p.user_id b read) in
      elim (send-cases lnd now p b r node) [
        | inl e ↦ absurd (cc (subst (λ y. send_writes y x.0.3 x.0.1 x.0.2 db ≡ ok db') e writes))
        | inr (is, pends) ↦
            sent_effect db db' b (available seen p.user_id) r x.0.0 x.0.1 x.0.2 x.0.3 stored
              (subst (λ y. IsI64 (y.amount +ℤ r.amount)) stored range) is pends
              (get_reservation-IsThere seen db id r loaded extends) writes
      ]

  -- What the confirmation of a withdrawal writes.
  pub confirmed-Effect :
      (env : Surroundings) (out : TxOut) (w : Withdrawal)
      → env.second seen ≡ db
      → settle env out w seen ≡ ok db'
      → Effect db db' nothing
  confirmed-Effect env out w same h =
      let (r, loaded, h₁) = >>=-eq-ok (Queries.get_reservation seen w.reservation_id) _ h in
      let (both, confirms, h₂) = >>=-eq-ok (confirm {E = Never} env.now w out r) _ h₁ in
      let (db₁, put, made) =
        >>=-eq-ok (upsert_withdrawal {E = Never} (env.second seen) both.0) _ h₂ in
      let (sent, vacant, chain, pends, own, is) = confirm-ok env.now w out r both confirms in
      debited_effect db db₁ db' both.0 r both.1 (ap (λ x. x.1) is)
        (get_reservation-IsThere seen db w.reservation_id r loaded extends)
        (subst (λ x. upsert_withdrawal {E = Never} x both.0 ≡ ok db₁) same put) made
