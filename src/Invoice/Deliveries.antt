-- ===== src/Invoice/Deliveries.antt =====
-- app/src/invoice/mod.rs: a settlement that the stream delivers again.
use text.Mathlib.Text.{◌==◌ as str_eq}
use text.Mathlib.TextEquality.{eq_iff}
use text.Mathlib.TextPositions.{eq_refl}
use laas_api.Base.{
  ℕ, ◌≡◌, refl, ap, ◌∙◌, sym, true, false, ◌&&◌, not, ◌==◌, some, none, find, find-upsert_only,
  Outcome-cases, Option-cases, ok, inl, inr, arith, >>=-eq-ok,
}
use laas_api.Concurrency.{ConflictError}
use laas_api.Concurrency.Retries.{retry_from-final}
use laas_api.Concurrency.{retry_loop}
use laas_api.Database.{Database}
use laas_api.Database.Transactions.{Surroundings}
use laas_api.Balance.{Balance, credit}
use laas_api.Balance.Queries
use laas_api.Balance.Updates.{update-keeps}
use laas_api.Ln.{SettledInvoice}
use laas_api.Invoice.{Invoice, is_settled, settle}
use laas_api.Invoice.Rows.{upsert_invoice, get_by_invoice, has_invoice_id, invoice_row, entity?}
use laas_api.Invoice.Service.{
  complete_once, complete, handle_settled, conflict_chain, unwrap_completion,
}
use laas_api.Invoice.RoundTrip.{upsert_invoice-eq, entity-row}
use laas_api.Invoice.Settlements.{
  attempt, call_fresh, attempt_ne_err, complete_once-parts, settled_by, settled_call,
}

-- A settlement is only taken for the invoice with its text.
settle_text :
    (env : Surroundings) (settled : SettledInvoice) (i : Invoice) (b : Balance)
    (both : Invoice × Balance)
    → settle {E = ConflictError} env.now i b settled ≡ ok both
    → settled.raw ≡ i.raw
unfolding settle
settle_text env settled i b both h =
    let same : str_eq settled.raw i.raw ≡ true = ground arith in (eq_iff settled.raw i.raw).0 same

-- The upsert of an invoice succeeds only if no other row has its text.
upsert_invoice-only :
    (db db' : Database) (i : Invoice)
    → upsert_invoice {E = ConflictError} db i ≡ ok db'
    → find (λ row. str_eq row.invoice i.raw && not (row.id == i.id)) db.invoices ≡ none
unfolding upsert_invoice
upsert_invoice-only db db' i h =
    elim (Option-cases
      (find (λ row. str_eq row.invoice i.raw && not (row.id == i.id)) db.invoices)) [
        | inl vacant ↦ vacant
        | inr (row, e) ↦ absurd (ground arith)
      ]

-- An invoice that was written is found by its text.
pub get_by_invoice-upsert_invoice :
    (db db' : Database) (i : Invoice)
    → upsert_invoice {E = ConflictError} db i ≡ ok db'
    → get_by_invoice db' i.raw ≡ some i
unfolding get_by_invoice
get_by_invoice-upsert_invoice db db' i h =
    let found =
      find-upsert_only (has_invoice_id i.id) (λ row. str_eq row.invoice i.raw) (invoice_row i)
        db.invoices (upsert_invoice-only db db' i h) (eq_refl i.raw) in
    rw (upsert_invoice-eq db db' i h) (ap entity? found ∙ entity-row i)

module _ (env : Surroundings) (settled : SettledInvoice) (i : Invoice) (db db' : Database)
    (i' : Invoice) (fresh : is_settled i ≡ false)
    (success : complete_once env settled (i, db) ≡ (ok tt, (i', db'))) where
  same_text : settled.raw ≡ i.raw
  same_text = elim (Outcome-cases (attempt env settled i db)) [
    | inl (both, e) ↦
        let (b, loaded, h) = >>=-eq-ok (Queries.get {E = ConflictError} db i.user_id) _ e in
        settle_text env settled i b both h
    | inr (inl (x, e)) ↦ absurd (attempt_ne_err env settled i db x e)
    | inr (inr e) ↦ absurd (ground (arith, call_fresh env settled i db fresh))
  ]

  -- After the call the text of the settlement leads to the settled invoice.
  found_settled : get_by_invoice db' settled.raw ≡ some (settled_by env settled i)
  unfolding get_by_invoice
  found_settled =
      let (b, between, loaded, upserted, updated) =
        complete_once-parts env settled i db db' i' fresh success in
      let kept : db'.invoices ≡ between.invoices =
        sym (ap (λ x. x.invoices) (update-keeps between db' (credit b settled.amount) updated)) in
      rw (same_text, kept)
        (get_by_invoice-upsert_invoice (env.first db) between (settled_by env settled i) upserted)

  -- When a call of `complete` has succeeded for an invoice that was not settled, the same settlement
  -- changes nothing when the stream delivers it again: the user is credited once.
  pub handle_settled_again : (again : ℕ → Surroundings) → handle_settled again settled db' ≡ db'
  unfolding handle_settled complete retry_loop
  handle_settled_again again =
      let done = settled_by env settled i in
      let call = settled_call (again 1) settled done db' (unfold is_settled in refl) in
      let looped =
        retry_from-final conflict_chain (λ n. complete_once (again n) settled) 9 1 (done, db')
          (ok tt, (done, db')) call tt in
      rw (found_settled, handle_settled) (ap (λ r. (unwrap_completion r).1) looped)
