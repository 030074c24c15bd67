-- ===== src/System/Starts.antt =====
-- The transaction that holds an amount back for a withdrawal: its start.
use laas_api.Base.{
  ◌≡◌, ◌∙◌, refl, sym, ap, subst, inl, inr, ◌⊎◌, Outcome, Option, Option-cases, find, upsert, ok,
  err, panic, some, none, arith, map_err, map_err-ok, Outcome-cases, >>=-eq-ok,
}
use laas_api.Int.{ℤ, pos, ◌<ℤ◌}
use laas_api.Btc.{Sats, Address, add, msats}
use laas_api.Database.{Uuid, DateTime, Database}
use laas_api.Balance.{Balance, Reservation, new}
use laas_api.Balance.Queries
use laas_api.Balance.Queries.{has_reservation_id, reservation_row}
use laas_api.Auth.{SpendGrant}
use laas_api.Ln.{Lnd}
use laas_api.Withdrawal
use laas_api.Withdrawal.{Withdrawal, start_checks, start_estimated}
use laas_api.Withdrawal.Service.{write_started, start_writes}
use laas_api.Withdrawal.Rows.{upsert_withdrawal, with_withdrawal, is_taken}
use laas_api.Ledger.{nothing}
use laas_api.Ledger.View.{available}
use laas_api.System.{IsFresh}
use laas_api.System.Loads.{get-available}
use laas_api.System.Effects.{
  Effect, IsSameUsers, IsUpserted, update-Written, upsert_reservation-cases,
}
use laas_api.System.Holds.{IsReserved, reserve-cases, made_effect}

-- What starting a withdrawal leaves.
abbrev IsStarted :
    Uuid → Balance → Outcome Withdrawal.Error (Withdrawal × Reservation) × Balance → Type 0
IsStarted id b (result, b') =
    ((w : Withdrawal) × (r : Reservation) × (result ≡ ok (w, r)) × IsReserved id b r b')
    ⊎ (((e : Withdrawal.Error) × (result ≡ err e)) ⊎ (result ≡ panic))

module _ (lnd : Lnd) (id reservation_id : Uuid) (now : DateTime) (grant : SpendGrant) (b : Balance)
    (address : Address) (amount : Sats) where
  estimated_cases :
      (fee : Option Sats)
      → IsStarted reservation_id b
          (start_estimated lnd id reservation_id now grant b address amount fee)
  estimated_cases none = inr (inr refl)
  estimated_cases (some fee) =
      elim (reserve-cases reservation_id now b (add (msats amount) (msats fee))) [
        | inl (r, b', e, is) ↦ rw e (inl (_, r, refl, is))
        | inr e ↦ rw e (inr (inl (_, refl)))
      ]

  start-cases :
      (node : lnd.State)
      → IsStarted reservation_id b
          (Withdrawal.start lnd id reservation_id now grant b address amount node).0
  unfolding Withdrawal.start
  start-cases node = elim (Outcome-cases (start_checks lnd grant b amount)) [
    | inl (u, e) ↦
        rw (e, Withdrawal.start) (estimated_cases (lnd.estimate_fee address amount node).0)
    | inr (inl (x, e)) ↦ rw (e, Withdrawal.start) (inr (inl (x, refl)))
    | inr (inr e) ↦ rw (e, Withdrawal.start) (inr (inr refl))
  ]

pub upsert_withdrawal-eq :
    {E : Type 0} (db db' : Database) (w : Withdrawal)
    → upsert_withdrawal {E = E} db w ≡ ok db'
    → db' ≡ with_withdrawal db w
unfolding upsert_withdrawal
upsert_withdrawal-eq db db' w h =
    elim (Option-cases (find (is_taken w.tx_out w.id) db.withdrawals)) [
      | inl vacant ↦ ground arith
      | inr (row, e) ↦ absurd (ground arith)
    ]

-- The update that starting a withdrawal begins with, and what the rest leaves.
start_writes-parts :
    (db db' : Database) (w w' : Withdrawal) (r : Reservation) (b : Balance)
    → start_writes w r b db ≡ ok (w', db')
    → (db₁ : Database) × (Queries.update db b ≡ ok db₁) × IsSameUsers db₁ db' × IsUpserted db₁ r db'
start_writes-parts db db' w w' r b h =
    let conflicts = map_err Withdrawal.concurrency_conflict (Queries.update db b) in
    let (db₁, updated, h₁) = >>=-eq-ok conflicts _ h in
    let (db₂, made, h₂) =
      >>=-eq-ok (Queries.upsert_reservation {E = Withdrawal.Error} db₁ r) _ h₁ in
    let (db₃, put, h₃) = >>=-eq-ok (upsert_withdrawal {E = Withdrawal.Error} db₂ w) _ h₂ in
    let last : db₃ ≡ db' = ground arith in
    let stored = sym last ∙ upsert_withdrawal-eq db₂ db₃ w put in
    let row_made = (upsert_reservation-cases db₁ db₂ r made).0 in
    (
      db₁,
      map_err-ok Withdrawal.concurrency_conflict (Queries.update db b) db₁ updated,
      ap (λ x. x.users) stored ∙ ap (λ x. x.users) row_made,
      ap (λ x. x.balance_reservations) stored ∙ ap (λ x. x.balance_reservations) row_made,
    )

started_effect :
    (lnd : Lnd) (db db' : Database) (id : Uuid) (b : Balance) (o : ℤ) (u : Uuid)
    (result : Outcome Withdrawal.Error (Withdrawal × Reservation)) (b' : Balance) (w' : Withdrawal)
    → b ≡ new u o
    → IsStarted id b (result, b')
    → ((w : Withdrawal) (r : Reservation) → result ≡ ok (w, r) → pos 0 <ℤ r.amount)
    → IsFresh id db
    → write_started lnd (result, b') db ≡ ok (w', db')
    → Effect db db' nothing
unfolding new
started_effect lnd db db' id b o u (ok (w, r)) b' w' read (inl (w₁, r₁, e, is)) positive fresh h =
    let same : r₁ ≡ r = ground arith in
    let is' = subst (λ x. IsReserved id b x b') same is in
    let (db₁, updated, users, row_made) = start_writes-parts db db' w w' r b' h in
    let (written, kept) = update-Written db db db₁ b' refl updated in
    made_effect db db' id b r b' o (rw (is'.1, read) refl) is' (positive w r refl) fresh
      (rw users written) (row_made ∙ ap (upsert (has_reservation_id r.id) (reservation_row r)) kept)
started_effect lnd db db' id b o u (ok x) b' w' read (inr (inl (y, e))) positive fresh h =
    absurd (ground arith)
started_effect lnd db db' id b o u (ok x) b' w' read (inr (inr e)) positive fresh h =
    absurd (ground arith)
started_effect lnd db db' id b o u (err x) b' w' read is positive fresh h = absurd (ground arith)
started_effect lnd db db' id b o u panic b' w' read is positive fresh h = absurd (ground arith)

module _ (lnd : Lnd) (seen db db' : Database) where
  -- What starting a withdrawal writes.
  pub started-Effect :
      (id reservation_id : Uuid) (now : DateTime) (grant : SpendGrant) (address : Address)
      (amount : Sats) (b : Balance) (w : Withdrawal) (node : lnd.State)
      → Queries.get {E = Withdrawal.Error} seen grant.user_id ≡ ok b
      → (let x = Withdrawal.start lnd id reservation_id now grant b address amount node in
          (write_started lnd x.0 db ≡ ok (w, db'))
          × ((w : Withdrawal) (r : Reservation) → x.0.0 ≡ ok (w, r) → pos 0 <ℤ r.amount))
      → IsFresh reservation_id db
      → Effect db db' nothing
  started-Effect id reservation_id now grant address amount b w node read (writes, positive) fresh =
      let x = Withdrawal.start lnd id reservation_id now grant b address amount node in
      started_effect lnd db db' reservation_id b (available seen grant.user_id) grant.user_id x.0.0
        x.0.1 w (get-available seen grant.user_id b read)
        (start-cases lnd id reservation_id now grant b address amount node) positive fresh writes
