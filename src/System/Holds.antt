-- ===== src/System/Holds.antt =====
-- The transaction that holds an amount back for a payment: its preparation.
use laas_api.Base.{
  ◌≡◌, ◌∙◌, refl, ap, subst, inl, inr, ◌⊎◌, ℕ, List, Outcome, ok, err, panic, some, arith,
  map_err-ok, Bool-cases, Outcome-cases, >>=-eq-ok, false,
}
use laas_api.Int.{ℤ, pos, ◌≤ℤ◌, ◌<ℤ◌, ltb_ℤ}
use laas_api.Btc.{MilliSats, add, sub}
use laas_api.Database.{Uuid, DateTime, Database}
use laas_api.Balance.{Balance, Reservation, pending, reserve, new, changed}
use laas_api.Balance
use laas_api.Balance.Reservations.{reservation}
use laas_api.Balance.Queries
use laas_api.Balance.Queries.{has_reservation_id, reservation_row}
use laas_api.Ln.{Lnd, PaymentError}
use laas_api.Ln.Payments.{probe_fee}
use laas_api.Payment.{Payment, prepare, prepare_checks, prepare_probed}
use laas_api.Payment
use laas_api.Payment.Service.{prepare_writes}
use laas_api.Payment.Rows.{upsert_payment}
use laas_api.Ledger.{nothing}
use laas_api.Ledger.View.{available}
use laas_api.System.{IsFresh}
use laas_api.System.Loads.{get-available}
use laas_api.System.Effects.{
  Effect, keeps, reserves, IsSameUsers, IsUpserted, Written, update-Written, update_kept, moved_to,
  upsert_reservation-cases,
}

-- The reservation of a covered amount of a balance, and the balance that is left.
abbrev pub IsReserved : Uuid → Balance → Reservation → Balance → Type 0
IsReserved id b r b' =
    (r.id ≡ id)
    × (r.user_id ≡ b.user_id)
    × (r.status ≡ pending)
    × (r.amount ≤ℤ b.amount)
    × (b' ≡ record b { amount = sub b.amount r.amount })

pub reserve-cases :
    (id : Uuid) (now : DateTime) (b : Balance) (a : MilliSats)
    → ((r : Reservation) × (b' : Balance) × (reserve id now b a ≡ (ok r, b'))
        × IsReserved id b r b')
      ⊎ (reserve id now b a ≡ (err Balance.insufficient_balance, b))
unfolding reserve
reserve-cases id now b a = elim (Bool-cases (ltb_ℤ b.amount a)) [
  | inl short ↦ inr (ground arith)
  | inr covered ↦ inl (
    reservation id now b a,
    record b { amount = sub b.amount a },
    ground arith,
    (refl, refl, refl, ground arith, refl),
  )
]

-- What a preparation leaves: a reservation of an amount of the balance, or the balance as it was, with
-- an error or a panic.
abbrev IsPrepared : Uuid → Balance → Outcome Payment.Error Reservation × Payment × Balance → Type 0
IsPrepared id b (result, p, b') =
    ((r : Reservation) × (result ≡ ok r) × IsReserved id b r b')
    ⊎ (((e : Payment.Error) × (result ≡ err e) × (b' ≡ b)) ⊎ (result ≡ panic))

module _ (lnd : Lnd) (id : Uuid) (now : DateTime) (hash : ℕ → List ℕ) (p : Payment)
    (b : Balance) where
  probed_cases :
      (fee : Outcome PaymentError MilliSats) → IsPrepared id b (prepare_probed lnd id now p b fee)
  probed_cases (ok fee) = elim (reserve-cases id now b (add p.amount fee)) [
    | inl (r, b', e, is) ↦ rw e (inl (r, refl, is))
    | inr e ↦ rw e (inr (inl (_, refl, refl)))
  ]
  probed_cases (err e) = inr (inl (_, refl, refl))
  probed_cases panic = inr (inr refl)

  prepare-cases : (node : lnd.State) → IsPrepared id b (prepare lnd id now hash p b node).0
  unfolding prepare
  prepare-cases node = elim (Outcome-cases (prepare_checks lnd p b)) [
    | inl (parsed, e) ↦
        rw (e, prepare) (probed_cases (probe_fee lnd hash parsed (some p.amount) node).0)
    | inr (inl (x, e)) ↦ absurd (ground arith)
    | inr (inr e) ↦ rw (e, prepare) (inr (inr refl))
  ]

-- Writing a fresh reservation, and the balance that it was taken from.
pub made_effect :
    (db db' : Database) (id : Uuid) (b : Balance) (r : Reservation) (b' : Balance) (o : ℤ)
    → b ≡ new r.user_id o
    → IsReserved id b r b'
    → pos 0 <ℤ r.amount
    → IsFresh id db
    → Written db b' db'
    → IsUpserted db r db'
    → Effect db db' nothing
unfolding new
made_effect db db' id b r b' o read (same_id, owner, pends, covered, left) positive fresh written
      w =
    let moved : b' ≡ moved_to r.user_id o (sub o r.amount) =
      left ∙ ap {A = Balance} (λ x. record x { amount = sub x.amount r.amount }) read in
    reserves r o (λ j. refl) pends (rw same_id fresh) positive (rw read at covered)
      (subst (λ x. Written db x db') moved written) w

prepared_effect :
    (db db' : Database) (id : Uuid) (b : Balance) (o : ℤ)
    (result : Outcome Payment.Error Reservation) (p : Payment) (b' : Balance) (u : Uuid)
    → b ≡ new u o
    → IsPrepared id b (result, p, b')
    → ((r : Reservation) → result ≡ ok r → pos 0 <ℤ r.amount)
    → IsFresh id db
    → prepare_writes result p b' db ≡ ok db'
    → Effect db db' nothing
unfolding upsert_payment new changed
prepared_effect db db' id b o (ok r) p b' u read (inl (r', e, is)) pos_amount fresh h =
    let (db₁, made, h₁) = >>=-eq-ok (Queries.upsert_reservation {E = Payment.Error} db r) _ h in
    let same : r' ≡ r = ground arith in
    let is' = subst (λ x. IsReserved id b x b') same is in
    let (row_made, cases) = upsert_reservation-cases db db₁ r made in
    let users : IsSameUsers db (upsert_payment db₁ p) = rw row_made refl in
    let updated =
      map_err-ok Payment.concurrency_conflict (Queries.update (upsert_payment db₁ p) b') db' h₁ in
    let (written, kept) = update-Written db (upsert_payment db₁ p) db' b' users updated in
    made_effect db db' id b r b' o (rw (is'.1, read) refl) is' (pos_amount r refl) fresh written
      (kept ∙ ap (λ x. x.balance_reservations) row_made)
prepared_effect db db' id b o (ok r) p b' u read (inr (inl (x, e, same))) pos_amount fresh h =
    absurd (ground arith)
prepared_effect db db' id b o (ok r) p b' u read (inr (inr e)) pos_amount fresh h =
    absurd (ground arith)
prepared_effect db db' id b o (err x) p b' u read (inl (r', e, is)) pos_amount fresh h =
    absurd (ground arith)
prepared_effect db db' id b o (err x) p b' u read (inr (inl (y, e, same))) pos_amount fresh h =
    let updated =
      map_err-ok Payment.concurrency_conflict (Queries.update (upsert_payment db p) b') db' h in
    let unchanged : changed b' ≡ false = rw (same, read) (ground arith) in
    let whole = update_kept (upsert_payment db p) db' b' unchanged updated in
    keeps (λ j. refl) (ap (λ x. x.users) whole) (ap (λ x. x.balance_reservations) whole)
prepared_effect db db' id b o (err x) p b' u read (inr (inr e)) pos_amount fresh h =
    absurd (ground arith)
prepared_effect db db' id b o panic p b' u read is pos_amount fresh h = absurd (ground arith)

module _ (lnd : Lnd) (seen db db' : Database) where
  -- What preparing a payment writes.
  pub prepared-Effect :
      (id : Uuid) (now : DateTime) (hash : ℕ → List ℕ) (p : Payment) (b : Balance)
      (node : lnd.State)
      → Queries.get {E = Payment.Error} seen p.user_id ≡ ok b
      → (let x = prepare lnd id now hash p b node in
          (prepare_writes x.0.0 x.0.1 x.0.2 db ≡ ok db')
          × ((r : Reservation) → x.0.0 ≡ ok r → pos 0 <ℤ r.amount))
      → IsFresh id db
      → Effect db db' nothing
  prepared-Effect id now hash p b node read (writes, positive) fresh =
      let x = prepare lnd id now hash p b node in
      prepared_effect db db' id b (available seen p.user_id) x.0.0 x.0.1 x.0.2 p.user_id
        (get-available seen p.user_id b read) (prepare-cases lnd id now hash p b node) positive
        fresh writes
