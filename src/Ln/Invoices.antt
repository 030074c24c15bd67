-- ===== src/Ln/Invoices.antt =====
-- app/src/ln/node.rs: the status of an invoice, and the stream of settled invoices.
use laas_api.Base.{Option, none, some, Outcome, ok, err, panic, if◌then◌else◌}
use laas_api.Int.{pos, eqb_ℤ}
use laas_api.Ln.{
  Lnd, LndInvoice, InvoiceUpdate, received, ended, aborted, SettledInvoice, InvoiceStatus,
  RawInvoice,
}

-- An invoice of the node is settled if it has a date of settlement.
abbrev pub settled_invoice : LndInvoice → Option SettledInvoice
settled_invoice i =
    if eqb_ℤ i.settle_date (pos 0)
    then none
    else some (record {
      amount = i.amt_paid_msat;
      settle_index = i.settle_index;
      raw = i.payment_request;
    })

abbrev pub status_of : {E : Type 0} → Option LndInvoice → Outcome E InvoiceStatus
status_of none = panic
status_of (some i) = elim (settled_invoice i) [
  | none ↦ ok InvoiceStatus.pending
  | some settled ↦ ok (InvoiceStatus.settled settled)
]

-- `Node::get_invoice_status`: an error of the parser or of the call panics.
unfoldable pub get_invoice_status :
    (lnd : Lnd) {E : Type 0} → RawInvoice → lnd.State → Outcome E InvoiceStatus × lnd.State
get_invoice_status lnd raw node = elim (lnd.parse raw) [
  | ok parsed ↦
      let (found, node') = lnd.lookup_invoice (lnd.payment_hash raw) node in
      (status_of found, node')
  | err e ↦ (panic, node)
  | panic ↦ (panic, node)
]

-- What `stream_settled_invoices` makes of one answer of the stream. The end of the stream is passed over
-- like an invoice that is not settled, and the stream is asked again.
unfoldable pub settled_update : {E : Type 0} → InvoiceUpdate → Outcome E (Option SettledInvoice)
settled_update (received i) = ok (settled_invoice i)
settled_update ended = ok none
settled_update aborted = panic
