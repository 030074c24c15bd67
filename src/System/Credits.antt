-- ===== src/System/Credits.antt =====
-- The transactions that bring an amount in: the confirmation of a deposit and the settlement of an
-- invoice.
use laas_api.Base.{◌≡◌, ◌∙◌, refl, ap, subst, ok, false}
use laas_api.Int.{ℤ, pos, ◌+ℤ◌, ◌<ℤ◌, IsI64}
use laas_api.Btc.{TxOut, msats, add}
use laas_api.Database.{Uuid, Database}
use laas_api.Database.Transactions.{Surroundings}
use laas_api.Balance.{Balance, new, credit}
use laas_api.Balance.Queries.{update}
use laas_api.Ln.{SettledInvoice}
use laas_api.Deposit.{Deposit}
use laas_api.Deposit.Listener.{settle}
use laas_api.Deposit.Credits.{settle_inv, confirm_eq, confirmed_by}
use laas_api.Deposit.Queries.{upsert_deposit}
use laas_api.Deposit.RoundTrip.{upsert_deposit-eq}
use laas_api.Invoice.{Invoice, is_settled}
use laas_api.Invoice.Service.{complete_once}
use laas_api.Invoice.Settlements.{complete_once-parts, settled_by}
use laas_api.Invoice.RoundTrip.{upsert_invoice-eq}
use laas_api.Ledger.{share}
use laas_api.Ledger.View.{available}
use laas_api.System.Loads.{get-available}
use laas_api.System.Effects.{
  Effect, brings, Written, update-Written, moved_to, IsSameUsers, IsSameReservations,
}

-- A credit that is written over a state with the same users and reservations.
credited_effect :
    (db db₁ db' : Database) (b : Balance) (u : Uuid) (o a : ℤ)
    → b ≡ new u o
    → pos 0 <ℤ a
    → IsI64 (o +ℤ a)
    → IsSameUsers db db₁
    → IsSameReservations db db₁
    → update db₁ (credit b a) ≡ ok db'
    → Effect db db' (share u a)
unfolding new credit
credited_effect db db₁ db' b u o a read positive range users rows h =
    let (written, kept) = update-Written db db₁ db' (credit b a) users h in
    let moved : credit b a ≡ moved_to u o (add o a) = ap (λ x. credit x a) read in
    brings u o a (λ j. refl) positive range (subst (λ x. Written db x db') moved written)
      (kept ∙ rows)

module _ (seen db db' : Database) where
  -- What the confirmation of a deposit writes.
  pub deposited-Effect :
      (env : Surroundings) (out : TxOut) (d : Deposit)
      → env.second seen ≡ db
      → settle env out d seen ≡ ok db'
      → pos 0 <ℤ msats out.amount
      → IsI64 (available seen d.user_id +ℤ msats out.amount)
      → Effect db db' (share d.user_id (msats out.amount))
  deposited-Effect env out d same h positive range =
      let s = settle_inv env out d seen db' h in
      let both = confirm_eq env out d s.balance s.confirmed s.confirms in
      let upserted : upsert_deposit db (confirmed_by env out d) ≡ ok s.between =
        rw (← same, ← ap (λ c. c.0) both) s.upserted in
      let written = upsert_deposit-eq db s.between (confirmed_by env out d) upserted in
      credited_effect db s.between db' s.balance d.user_id (available seen d.user_id)
        (msats out.amount) (get-available seen d.user_id s.balance s.loaded) positive range
        (ap (λ x. x.users) written) (ap (λ x. x.balance_reservations) written)
        (rw (← ap (λ c. c.1) both) s.updated)

  -- What the settlement of an invoice writes.
  pub completed-Effect :
      (env : Surroundings) (settled : SettledInvoice) (i i' : Invoice)
      → env.first seen ≡ db
      → is_settled i ≡ false
      → complete_once env settled (i, seen) ≡ (ok tt, (i', db'))
      → pos 0 <ℤ settled.amount
      → IsI64 (available seen i.user_id +ℤ settled.amount)
      → Effect db db' (share i.user_id settled.amount)
  completed-Effect env settled i i' same fresh h positive range =
      let (b, between, loaded, upserted, updated) =
        complete_once-parts env settled i seen db' i' fresh h in
      let written =
        upsert_invoice-eq (env.first seen) between (settled_by env settled i) upserted in
      rw (← same) (
        credited_effect (env.first seen) between db' b i.user_id (available seen i.user_id)
          settled.amount (get-available seen i.user_id b loaded) positive range
          (ap (λ x. x.users) written) (ap (λ x. x.balance_reservations) written) updated)
