-- ===== src/Invoice/RoundTrip.antt =====
-- app/src/invoice/mod.rs: an invoice written to the database and read back.
use laas_api.Base.{
  ◌≡◌, refl, ap, ◌∙◌, true, not, ◌&&◌, ◌==◌, ==_refl, Bool, Option, some, none, find, find_never,
  find-upsert_only, ok, arith,
}
use laas_api.Concurrency.{ConflictError}
use laas_api.Database.{Uuid, Database, InvoiceRow}
use laas_api.Invoice.{Invoice, Settlement}
use laas_api.Invoice.Rows.{
  get, upsert_invoice, with_invoice, invoice_row, has_invoice_id, entity?, settlement_of,
  settlement_amount, settlement_timestamp, settlement_index,
}

-- A successful upsert puts the row in place.
pub upsert_invoice-eq :
    (db db' : Database) (i : Invoice)
    → upsert_invoice {E = ConflictError} db i ≡ ok db'
    → db' ≡ with_invoice db i
unfolding upsert_invoice
upsert_invoice-eq db db' i h = ground arith

settlement_of-row :
    (s : Option Settlement)
    → settlement_of (settlement_amount s) (settlement_timestamp s) (settlement_index s) ≡ s
settlement_of-row none = refl
settlement_of-row (some s) = refl

pub entity-row : (i : Invoice) → entity? (some (invoice_row i)) ≡ some i
entity-row i = ap (λ s. some (record i { settlement = s })) (settlement_of-row i.settlement)

-- A query sees the table of the invoices only.
pub get-invoices :
    (db₁ db₂ : Database) (id user_id : Uuid)
    → db₁.invoices ≡ db₂.invoices
    → get db₁ id user_id ≡ get db₂ id user_id
unfolding get
get-invoices db₁ db₂ id user_id e =
    ap (λ rows. entity? (find (λ row. row.id == id && row.user_id == user_id) rows)) e

-- An invoice that was written is read back by its user as it was, settled or not.
pub get-upsert_invoice :
    (db db' : Database) (i : Invoice)
    → upsert_invoice {E = ConflictError} db i ≡ ok db'
    → get db' i.id i.user_id ≡ some i
unfolding get
get-upsert_invoice db db' i h =
    let q : InvoiceRow → Bool = λ row. row.id == i.id && row.user_id == i.user_id in
    let none_other : find (λ row. q row && not (has_invoice_id i.id row)) db.invoices ≡ none =
      find_never (λ row. q row && not (has_invoice_id i.id row)) db.invoices
        (λ row. ground arith) in
    let own : q (invoice_row i) ≡ true = ground (arith, ==_refl i.id, ==_refl i.user_id) in
    let found =
      find-upsert_only (has_invoice_id i.id) q (invoice_row i) db.invoices none_other own in
    rw (upsert_invoice-eq db db' i h) (ap entity? found ∙ entity-row i)
