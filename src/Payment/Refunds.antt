-- ===== src/Payment/Refunds.antt =====
-- app/src/payment/mod.rs: what a concurrency conflict does to the second loop of `send`.
use laas_api.Base.{
  ℕ, zero, suc, >>=-eq-ok, ◌≡◌, ◌≢◌, refl, ap, ◌∙◌, sym, subst, true, false, Outcome, ok, err,
  panic, arith, Outcome-cases, Bool-cases, Option-cases, inl, inr, ◌⊎◌, find, some,
}
use laas_api.Database.{Uuid, DateTime, Database}
use laas_api.Database.Transactions.{Surroundings}
use laas_api.Concurrency.{ConflictError, retry_loop}
use laas_api.Concurrency.Retries.{retry_loop-eq}
use laas_api.Balance.{Balance, Reservation, changed, debit, refund, is_pending}
use laas_api.Balance.Queries
use laas_api.Auth.{SpendGrant}
use laas_api.Ln.{Lnd, PaymentError}
use laas_api.Ln.Payments.{pay_invoice}
use laas_api.Payment.{
  Payment, Error, is_ready, send, send_checks, send_paid, send_refunded, fail, concurrency_conflict,
}
use laas_api.Payment.Service.{
  Shared, send_once, send_writes, finish, error_chain, load, load_reservation,
}
use laas_api.Payment.Retries.{finish_err, get_unchanged, get_ne_err, panic-IsFinal, conflict_again}

-- Sending leaves a payment that is not ready any more, or the balance as it was, or panics.
abbrev pub IsSentOrKept : Balance → Outcome Error Unit × Payment × Balance × Reservation → Type 0
IsSentOrKept b (r, p, b', r') =
    (is_ready p.status ≡ false)
    ⊎ (((b' ≡ b) × ((c : ConflictError) → r ≢ err (concurrency_conflict c))) ⊎ (r ≡ panic))

module _ (lnd : Lnd) (now : DateTime) (p : Payment) (b : Balance) (r : Reservation) where
  refund_cases : (e : PaymentError) → IsSentOrKept b (send_refunded lnd now e p b r (refund r b))
  unfolding refund fail
  refund_cases e = elim (Bool-cases (is_pending r.status)) [
    | inl pends ↦ inl (ground arith)
    | inr final ↦ inr (inr (ground arith))
  ]

  paid_cases : (paid : Outcome PaymentError Unit) → IsSentOrKept b (send_paid lnd now p b r paid)
  unfolding debit
  paid_cases (ok u) = elim (Bool-cases (is_pending r.status)) [
    | inl pends ↦ inl (ground arith)
    | inr final ↦ inr (inr (ground arith))
  ]
  paid_cases (err PaymentError.unknown) = inr (inl (refl, λ c h. ground arith))
  paid_cases (err PaymentError.invoice_expired) = refund_cases PaymentError.invoice_expired
  paid_cases (err PaymentError.invoice_already_paid) =
      refund_cases PaymentError.invoice_already_paid
  paid_cases (err PaymentError.timed_out) = refund_cases PaymentError.timed_out
  paid_cases (err PaymentError.no_route_found) = refund_cases PaymentError.no_route_found
  paid_cases (err (PaymentError.invalid_payment_details x)) =
      refund_cases (PaymentError.invalid_payment_details x)
  paid_cases (err PaymentError.insufficient_liquidity) =
      refund_cases PaymentError.insufficient_liquidity
  paid_cases panic = inr (inr refl)

  checks_ne_err : (e : Error) → send_checks lnd p b r ≢ err e
  checks_ne_err e h = ground arith

  send_cases : (node : lnd.State) → IsSentOrKept b (send lnd now p b r node).0
  unfolding send
  send_cases node = elim (Outcome-cases (send_checks lnd p b r)) [
    | inl ((fee, amount), e) ↦
        rw (e, send) (paid_cases (pay_invoice lnd p.invoice amount fee node).0)
    | inr (inl (x, e)) ↦ absurd (checks_ne_err x e)
    | inr (inr e) ↦ rw (e, send) (inr (inr refl))
  ]

writes_conflict :
    (result : Outcome Error Unit) (r : Reservation) (p : Payment) (b : Balance) (db : Database)
    (c : ConflictError)
    → send_writes result r p b db ≡ err (concurrency_conflict c)
    → changed b ≡ true
unfolding Queries.update Queries.upsert_reservation
writes_conflict result r p b db c e = elim (Bool-cases (changed b)) [
  | inl yes_changed ↦ yes_changed
  | inr unchanged ↦ absurd (ground arith)
]

status_ne_err : (n : ℕ) (e : Error) → Queries.status_of_i32 {E = Error} n ≢ err e
unfolding Queries.status_of_i32
status_ne_err zero e h = cc
status_ne_err (suc zero) e h = cc
status_ne_err (suc (suc zero)) e h = cc
status_ne_err (suc (suc (suc n))) e h = cc

get_reservation_ne_err :
    (db : Database) (id : Uuid) (e : Error) → Queries.get_reservation {E = Error} db id ≢ err e
unfolding Queries.get_reservation Queries.into_entity
get_reservation_ne_err db id e h =
    elim (Option-cases (find (Queries.has_reservation_id id) db.balance_reservations)) [
      | inl missing ↦ absurd (ground arith)
      | inr (row, f) ↦ elim (Outcome-cases (Queries.status_of_i32 {E = Error} row.status)) [
        | inl (status, g) ↦ absurd (ground arith)
        | inr (inl (x, g)) ↦ status_ne_err row.status x g
        | inr (inr g) ↦ absurd (ground arith)
      ]
    ]

module _ (lnd : Lnd) where
  conflict_sent :
      (b : Balance) (result : Outcome Error Unit) (p : Payment) (b' : Balance) (r' : Reservation)
      (node : lnd.State) (others : Database) (s : Shared lnd) (c : ConflictError)
      → IsSentOrKept b (result, p, b', r')
      → changed b ≡ false
      → finish lnd result p node others (send_writes result r' p b' others)
        ≡ (err (concurrency_conflict c), s)
      → is_ready s.payment.status ≡ false
  conflict_sent b result p b' r' node others s c (inl done) same h =
      rw (finish_err lnd result p node others (send_writes result r' p b' others) _ s h).0 done
  conflict_sent b result p b' r' node others s c (inr (inl (kept, ne))) same h =
      elim (finish_err lnd result p node others (send_writes result r' p b' others) _ s h).1 [
        | inl from_result ↦ absurd (ne c from_result)
        | inr from_writes ↦
            let yes_changed = writes_conflict result r' p b' others c from_writes in
            absurd (ground arith)
      ]
  conflict_sent b result p b' r' node others s c (inr (inr e)) same h =
      elim (finish_err lnd result p node others (send_writes result r' p b' others) _ s h).1 [
        | inl from_result ↦ absurd (ground arith)
        | inr from_writes ↦
            let stuck =
              subst (λ x. send_writes x r' p b' others ≡ err (concurrency_conflict c)) e
                from_writes in
            absurd (cc stuck)
      ]

  reservation_ne_err : (s : Shared lnd) (e : Error) → load_reservation lnd s ≢ err e
  reservation_ne_err s e h = elim (Option-cases s.payment.reservation_id) [
    | inl missing ↦ absurd (ground arith)
    | inr (id, f) ↦ get_reservation_ne_err s.db id e (loaded id f)
  ]
    where
      loaded :
          (id : Uuid)
          → s.payment.reservation_id ≡ some id
          → Queries.get_reservation {E = Error} s.db id ≡ err e
      loaded id f = rw f at h

  module _ (grant : SpendGrant) where
    load-get :
        (s : Shared lnd) (both : Balance × Reservation)
        → load lnd grant s ≡ ok both
        → Queries.get {E = Error} s.db grant.user_id ≡ ok both.0
    load-get s both h =
        let (b, loaded, rest) = >>=-eq-ok (Queries.get {E = Error} s.db grant.user_id) _ h in
        let (r, found, last) = >>=-eq-ok (load_reservation lnd s) _ rest in
        let same : b ≡ both.0 = ground arith in loaded ∙ ap ok same

    load_ne_err : (s : Shared lnd) (e : Error) → load lnd grant s ≢ err e
    load_ne_err s e h = elim (Outcome-cases (Queries.get {E = Error} s.db grant.user_id)) [
      | inl (b, f) ↦ elim (Outcome-cases (load_reservation lnd s)) [
        | inl (r, g) ↦ absurd (ground arith)
        | inr (inl (x, g)) ↦ reservation_ne_err s x g
        | inr (inr g) ↦ absurd (ground arith)
      ]
      | inr (inl (x, f)) ↦ get_ne_err s.db grant.user_id x f
      | inr (inr f) ↦ absurd (ground arith)
    ]

    send_once_eq :
        (env : Surroundings) (s : Shared lnd) (both : Balance × Reservation)
        → load lnd grant s ≡ ok both
        → let x = send lnd env.now s.payment both.0 both.1 s.node in
          send_once lnd grant env s
          ≡ finish lnd x.0.0 x.0.1 x.1
              (env.first s.db)
              (send_writes x.0.0 x.0.3 x.0.1 x.0.2 (env.first s.db))
    unfolding send_once
    send_once_eq env s both e = rw (e, send_once)

    -- A call of the second loop that ends in a conflict leaves the shared payment changed.
    send_once_conflict :
        (env : Surroundings) (s s' : Shared lnd) (c : ConflictError)
        → send_once lnd grant env s ≡ (err (concurrency_conflict c), s')
        → is_ready s'.payment.status ≡ false
    unfolding send_once
    send_once_conflict env s s' c h = elim (Outcome-cases (load lnd grant s)) [
      | inl (both, e) ↦
          let x = send lnd env.now s.payment both.0 both.1 s.node in
          conflict_sent both.0 x.0.0 x.0.1 x.0.2 x.0.3 x.1 (env.first s.db) s' c
            (send_cases lnd env.now s.payment both.0 both.1 s.node)
            (get_unchanged s.db grant.user_id both.0 (load-get s both e))
            (sym (send_once_eq env s both e) ∙ h)
      | inr (inl (x, e)) ↦ absurd (load_ne_err s x e)
      | inr (inr e) ↦ absurd (ground arith)
    ]

    -- A payment that is not ready cannot be sent.
    send_once_old :
        (env : Surroundings) (s : Shared lnd)
        → is_ready s.payment.status ≡ false
        → (send_once lnd grant env s).0 ≡ panic
    unfolding send_once send
    send_once_old env s old = elim (Outcome-cases (load lnd grant s)) [
      | inl (both, e) ↦
          let checks : send_checks lnd s.payment both.0 both.1 ≡ panic = ground arith in
          ground arith
      | inr (inl (x, e)) ↦ absurd (load_ne_err s x e)
      | inr (inr e) ↦ ground arith
    ]

    -- When the first call of the second loop ends in a concurrency conflict, the loop does not resolve
    -- it: the second call panics, since the payment in memory is not ready any more.
    pub send_conflict_panics :
        (env : ℕ → Surroundings) (s s' : Shared lnd) (c : ConflictError)
        → send_once lnd grant (env 1) s ≡ (err (concurrency_conflict c), s')
        → (retry_loop error_chain (λ i. send_once lnd grant (env i)) s).0 ≡ panic
    send_conflict_panics env s s' c h =
        let old = send_once_old (env 2) s' (send_once_conflict (env 1) s s' c h) in
        ap (λ r. r.0)
          (retry_loop-eq error_chain (λ i. send_once lnd grant (env i)) 1 s s'
            (concurrency_conflict c, s', h, conflict_again c, refl) (omega arith)
            (inr (
              panic-IsFinal (λ i. send_once lnd grant (env i)) (send_once lnd grant (env 2) s')
                old)))
        ∙ old
