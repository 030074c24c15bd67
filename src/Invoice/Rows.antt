-- ===== src/Invoice/Rows.antt =====
-- app/src/invoice/mod.rs: the module `queries`.
use text.Mathlib.Text.{◌==◌ as str_eq}
use laas_api.Base.{
  ℕ, ◌^◌, ltb, ◌==◌, Bool, true, ◌&&◌, not, is_none, Option, none, some, List, [], ◌∷◌, map, find,
  filter, upsert, Outcome, ok, panic, if◌then◌else◌, unwrap_or,
}
use laas_api.Btc.{MilliSats}
use laas_api.Database.{Uuid, DateTime, Database, InvoiceRow}
use laas_api.Database.Sums.{daily_sum}
use laas_api.Ln.{RawInvoice}
use laas_api.Invoice.{Invoice, Settlement}

abbrev pub settlement_amount : Option Settlement → Option MilliSats
settlement_amount none = none
settlement_amount (some s) = some s.amount

abbrev pub settlement_timestamp : Option Settlement → Option DateTime
settlement_timestamp none = none
settlement_timestamp (some s) = some s.timestamp

abbrev pub settlement_index : Option Settlement → Option ℕ
settlement_index none = none
settlement_index (some s) = some s.settle_index

abbrev pub invoice_row : Invoice → InvoiceRow
invoice_row i = record {
  id = i.id;
  user_id = i.user_id;
  token_id = i.token_id;
  amount_msats = i.amount;
  memo = i.memo;
  invoice = i.raw;
  created = i.created;
  expiration = i.expiration;
  settlement_amount = settlement_amount i.settlement;
  settlement_timestamp = settlement_timestamp i.settlement;
  settle_index = settlement_index i.settlement;
}

-- The index is bound as an `i64`.
abbrev pub fits_i64 : Option ℕ → Bool
fits_i64 none = true
fits_i64 (some n) = ltb n (2 ^ 63)

abbrev pub has_invoice_id : Uuid → InvoiceRow → Bool
has_invoice_id id row = row.id == id

-- The database with the row of the invoice in place.
abbrev pub with_invoice : Database → Invoice → Database
with_invoice db i = record db {
  invoices = upsert (has_invoice_id i.id) (invoice_row i) db.invoices;
}

-- `queries::upsert`: the text of the invoice is unique, and `unwrap` panics on a second row with it.
unfoldable pub upsert_invoice : {E : Type 0} → Database → Invoice → Outcome E Database
upsert_invoice db i =
    if fits_i64 (settlement_index i.settlement)
    then elim (find (λ row. str_eq row.invoice i.raw && not (row.id == i.id)) db.invoices) [
      | none ↦ ok (with_invoice db i)
      | some row ↦ panic
    ]
    else panic

abbrev pub settlement_of : Option MilliSats → Option DateTime → Option ℕ → Option Settlement
settlement_of (some a) (some t) (some n) =
    some (record { amount = a; timestamp = t; settle_index = n })
settlement_of none t n = none
settlement_of (some a) none n = none
settlement_of (some a) (some t) none = none

-- `InvoiceRow::into_entity`
abbrev pub into_entity : InvoiceRow → Invoice
into_entity row = record {
  id = row.id;
  user_id = row.user_id;
  token_id = row.token_id;
  amount = row.amount_msats;
  memo = row.memo;
  raw = row.invoice;
  created = row.created;
  settlement = settlement_of row.settlement_amount row.settlement_timestamp row.settle_index;
  expiration = row.expiration;
}

abbrev pub entity? : Option InvoiceRow → Option Invoice
entity? none = none
entity? (some row) = some (into_entity row)

-- `queries::get_by_invoice`
unfoldable pub get_by_invoice : Database → RawInvoice → Option Invoice
get_by_invoice db raw = entity? (find (λ row. str_eq row.invoice raw) db.invoices)

-- `queries::get`
unfoldable pub get : Database → Uuid → Uuid → Option Invoice
get db id user_id = entity? (find (λ row. row.id == id && row.user_id == user_id) db.invoices)

-- `queries::get_unsettled`
unfoldable pub get_unsettled : Database → List Invoice
get_unsettled db = map into_entity (filter (λ row. is_none row.settlement_timestamp) db.invoices)

-- `MAX` over the rows that have a value.
abbrev pub max_index : Option ℕ → Option ℕ → Option ℕ
max_index none b = b
max_index (some a) none = some a
max_index (some a) (some b) = if ltb a b then some b else some a

abbrev pub max_of : List InvoiceRow → Option ℕ
max_of [] = none
max_of (row ∷ rows) = max_index row.settle_index (max_of rows)

-- `queries::get_max_settle_index`
unfoldable pub get_max_settle_index : Database → ℕ
get_max_settle_index db = unwrap_or (max_of db.invoices) 0

-- `queries::daily_total`
unfoldable pub daily_total : {E : Type 0} → DateTime → Database → Uuid → Outcome E MilliSats
unfolding daily_sum
daily_total now db user_id = daily_sum now (
    map (λ row. (row.created, row.amount_msats))
      (filter (λ row. row.user_id == user_id) db.invoices))
