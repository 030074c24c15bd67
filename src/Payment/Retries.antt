-- ===== src/Payment/Retries.antt =====
-- app/src/payment/mod.rs: what a concurrency conflict does to the two loops of `send`.
use laas_api.Base.{
  ℕ, ◌≡◌, ◌≢◌, refl, ap, true, false, some, Outcome, ok, err, panic, arith, Outcome-cases, inl, inr,
  ◌⊎◌, List, ◌∙◌, sym, subst, Option-cases, find, Bool-cases,
}
use laas_api.Database.{Uuid, DateTime, Database}
use laas_api.Database.Transactions.{Surroundings}
use laas_api.Concurrency.{ConflictError, retry_loop, is_conflict}
use laas_api.Concurrency.Retries.{IsFinal, retry_loop-eq}
use laas_api.Balance.{Balance, Reservation, reserve, changed, new}
use laas_api.Balance.Queries
use laas_api.Auth.{SpendGrant}
use laas_api.Btc.{MilliSats, add}
use laas_api.Int.{ltb_ℤ}
use laas_api.Ln.{Lnd, PaymentError}
use laas_api.Ln.Payments.{probe_fee}
use laas_api.Payment.{
  Payment, Error, is_new, prepare, prepare_checks, prepare_probed, fail, concurrency_conflict,
}
use laas_api.Payment.Service.{Shared, prepare_once, prepare_writes, finish, error_chain}

abbrev IsChangedOrKept : Balance → Outcome Error Reservation × Payment × Balance → Type 0
IsChangedOrKept b (r, p, b') =
    (is_new p.status ≡ false)
    ⊎ (((b' ≡ b) × ((c : ConflictError) → r ≢ err (concurrency_conflict c))) ⊎ (r ≡ panic))

module _ (lnd : Lnd) (id : Uuid) (now : DateTime) (p : Payment) (b : Balance) where
  -- Preparing leaves a payment that is not new any more, or the balance as it was, or panics.
  probed_cases :
      (fee : Outcome PaymentError MilliSats) → IsChangedOrKept b (prepare_probed lnd id now p b fee)
  unfolding reserve fail
  probed_cases (ok fee) = elim (Bool-cases (ltb_ℤ b.amount (add p.amount fee))) [
    | inl short ↦ inr (inl (ground arith, λ c h. ground arith))
    | inr covered ↦ inl (ground arith)
  ]
  probed_cases (err e) = inl refl
  probed_cases panic = inr (inr refl)

  prepare_cases :
      (hash : ℕ → List ℕ) (node : lnd.State)
      → IsChangedOrKept b (prepare lnd id now hash p b node).0
  unfolding prepare
  prepare_cases hash node = elim (Outcome-cases (prepare_checks lnd p b)) [
    | inl (parsed, e) ↦
        rw (e, prepare) (probed_cases (probe_fee lnd hash parsed (some p.amount) node).0)
    | inr (inl (x, e)) ↦ absurd (ground arith)
    | inr (inr e) ↦ rw (e, prepare) (inr (inr refl))
  ]

pub get_unchanged :
    (db : Database) (user_id : Uuid) (b : Balance)
    → Queries.get {E = Error} db user_id ≡ ok b
    → changed b ≡ false
unfolding Queries.get new changed
get_unchanged db user_id b e = elim (Option-cases (find (Queries.has_id user_id) db.users)) [
  | inl missing ↦ absurd (ground arith)
  | inr (row, found) ↦ ground arith
]

writes_conflict :
    (r : Outcome Error Reservation) (p : Payment) (b : Balance) (db : Database) (c : ConflictError)
    → prepare_writes r p b db ≡ err (concurrency_conflict c)
    → changed b ≡ true
unfolding Queries.update Queries.upsert_reservation
writes_conflict r p b db c e = elim (Bool-cases (changed b)) [
  | inl yes_changed ↦ yes_changed
  | inr unchanged ↦ absurd (ground arith)
]

module _ (lnd : Lnd) where
  pub finish_err :
      {A : Type 0} (result : Outcome Error A) (p : Payment) (node : lnd.State) (others : Database)
      (written : Outcome Error Database) (e : Error) (s : Shared lnd)
      → finish lnd result p node others written ≡ (err e, s)
      → (s.payment ≡ p) × ((result ≡ err e) ⊎ (written ≡ err e))
  finish_err result p node others (ok db) e s h = (ground arith, inl (ground arith))
  finish_err result p node others (err x) e s h = (ground arith, inr (ground arith))
  finish_err result p node others panic e s h = absurd (ground arith)

  conflict_changes :
      (b : Balance) (r : Outcome Error Reservation) (p : Payment) (b' : Balance) (node : lnd.State)
      (others : Database) (s : Shared lnd) (c : ConflictError)
      → IsChangedOrKept b (r, p, b')
      → changed b ≡ false
      → finish lnd r p node others (prepare_writes r p b' others)
        ≡ (err (concurrency_conflict c), s)
      → is_new s.payment.status ≡ false
  conflict_changes b r p b' node others s c (inl done) same h =
      rw (finish_err r p node others (prepare_writes r p b' others) _ s h).0 done
  conflict_changes b r p b' node others s c (inr (inl (kept, ne))) same h =
      elim (finish_err r p node others (prepare_writes r p b' others) _ s h).1 [
        | inl from_result ↦ absurd (ne c from_result)
        | inr from_writes ↦
            let yes_changed = writes_conflict r p b' others c from_writes in absurd (ground arith)
      ]
  conflict_changes b r p b' node others s c (inr (inr e)) same h =
      elim (finish_err r p node others (prepare_writes r p b' others) _ s h).1 [
        | inl from_result ↦ absurd (ground arith)
        | inr from_writes ↦
            let stuck =
              subst (λ x. prepare_writes x p b' others ≡ err (concurrency_conflict c)) e
                from_writes in
            absurd (cc stuck)
      ]

pub get_ne_err :
    (db : Database) (user_id : Uuid) (e : Error) → Queries.get {E = Error} db user_id ≢ err e
unfolding Queries.get
get_ne_err db user_id e h = ground arith

pub conflict_again : (c : ConflictError) → is_conflict (error_chain (concurrency_conflict c)) ≡ true
unfolding is_conflict
conflict_again c = refl

pub panic-IsFinal :
    {A S : Type 0} (cb : ℕ → S → Outcome Error A × S) (r : Outcome Error A × S)
    → r.0 ≡ panic
    → IsFinal error_chain cb r
panic-IsFinal cb (ok a, s) e = tt
panic-IsFinal cb (err x, s) e = absurd (cc e)
panic-IsFinal cb (panic, s) e = tt

module _ (lnd : Lnd) (hash : ℕ → List ℕ) (grant : SpendGrant) where
  prepare_once_eq :
      (env : Surroundings) (s : Shared lnd) (b : Balance)
      → Queries.get {E = Error} s.db grant.user_id ≡ ok b
      → let x = prepare lnd env.id env.now hash s.payment b s.node in
        prepare_once lnd hash grant env s
        ≡ finish lnd x.0.0 x.0.1 x.1
            (env.first s.db)
            (prepare_writes x.0.0 x.0.1 x.0.2 (env.first s.db))
  unfolding prepare_once
  prepare_once_eq env s b e = rw (e, prepare_once)

  -- A call of the first loop that ends in a conflict leaves the shared payment changed.
  prepare_once_conflict :
      (env : Surroundings) (s s' : Shared lnd) (c : ConflictError)
      → prepare_once lnd hash grant env s ≡ (err (concurrency_conflict c), s')
      → is_new s'.payment.status ≡ false
  unfolding prepare_once
  prepare_once_conflict env s s' c h =
      elim (Outcome-cases (Queries.get {E = Error} s.db grant.user_id)) [
        | inl (b, e) ↦
            let x = prepare lnd env.id env.now hash s.payment b s.node in
            conflict_changes lnd b x.0.0 x.0.1 x.0.2 x.1 (env.first s.db) s' c
              (prepare_cases lnd env.id env.now s.payment b hash s.node)
              (get_unchanged s.db grant.user_id b e) (sym (prepare_once_eq env s b e) ∙ h)
        | inr (inl (x, e)) ↦ absurd (get_ne_err s.db grant.user_id x e)
        | inr (inr e) ↦ absurd (ground arith)
      ]

  -- A payment that is not new cannot be prepared.
  prepare_once_old :
      (env : Surroundings) (s : Shared lnd)
      → is_new s.payment.status ≡ false
      → (prepare_once lnd hash grant env s).0 ≡ panic
  unfolding prepare_once prepare
  prepare_once_old env s old = elim (Outcome-cases (Queries.get {E = Error} s.db grant.user_id)) [
    | inl (b, e) ↦ ground arith
    | inr (inl (x, e)) ↦ absurd (get_ne_err s.db grant.user_id x e)
    | inr (inr e) ↦ ground arith
  ]

  -- When the first call of the first loop ends in a concurrency conflict, the loop does not resolve it:
  -- the second call panics, since the payment in memory is not new any more.
  pub prepare_conflict_panics :
      (env : ℕ → Surroundings) (s s' : Shared lnd) (c : ConflictError)
      → prepare_once lnd hash grant (env 1) s ≡ (err (concurrency_conflict c), s')
      → (retry_loop error_chain (λ i. prepare_once lnd hash grant (env i)) s).0 ≡ panic
  prepare_conflict_panics env s s' c h =
      let old = prepare_once_old (env 2) s' (prepare_once_conflict (env 1) s s' c h) in
      ap (λ r. r.0)
        (retry_loop-eq error_chain (λ i. prepare_once lnd hash grant (env i)) 1 s s'
          (concurrency_conflict c, s', h, conflict_again c, refl) (omega arith)
          (inr (
            panic-IsFinal (λ i. prepare_once lnd hash grant (env i))
              (prepare_once lnd hash grant (env 2) s') old)))
      ∙ old
