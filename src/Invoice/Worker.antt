-- ===== src/Invoice/Worker.antt =====
-- app/src/invoice/mod.rs: `start_worker` and `InvoiceListener`.
use laas_api.Base.{ℕ, ◌+◌, Option, none, some, List, [], ◌∷◌, Outcome, ok, err, panic, Never}
use laas_api.Database.{Database}
use laas_api.Database.Transactions.{Surroundings}
use laas_api.Ln.{Lnd, InvoiceUpdate, InvoiceStatus, SettledInvoice}
use laas_api.Ln.Invoices.{get_invoice_status, settled_update}
use laas_api.Invoice.{Invoice}
use laas_api.Invoice.Rows.{get_unsettled, get_max_settle_index}
use laas_api.Invoice.Service.{complete, handle_settled}

module _ (lnd : Lnd) where
  abbrev pub complete_settled :
      (ℕ → Surroundings)
      → Invoice
      → Outcome Never InvoiceStatus × lnd.State
      → Database
      → Outcome Never Unit × lnd.State × Database
  complete_settled env i (ok InvoiceStatus.pending, node) db = (ok tt, node, db)
  complete_settled env i (ok (InvoiceStatus.settled settled), node) db =
      let (result, db') = complete env i settled db in (result, node, db')
  complete_settled env i (err e, node) db = (err e, node, db)
  complete_settled env i (panic, node) db = (panic, node, db)

  -- The loop over the invoices that were not settled when the worker started; no panic is caught.
  abbrev pub complete_all :
      (ℕ → ℕ → Surroundings)
      → ℕ
      → List Invoice
      → lnd.State
      → Database
      → Outcome Never Unit × lnd.State × Database
  complete_all env n [] node db = (ok tt, node, db)
  complete_all env n (i ∷ rest) node db =
      let (result, node', db') =
        complete_settled (env n) i (get_invoice_status lnd i.raw node) db in
      let later = complete_all env (n + 1) rest node' db' in
      elim result [ ok u ↦ later | err e ↦ (err e, node', db') | panic ↦ (panic, node', db') ]

  -- `start_worker`, but the spawning of the listener.
  unfoldable pub start_worker :
      (ℕ → ℕ → Surroundings) → lnd.State → Database → Outcome Never Unit × lnd.State × Database
  start_worker env node db = complete_all env 0 (get_unsettled db) node db

-- What the listener does with one answer of the stream; the surroundings are those of the retry loop.
abbrev pub handle_update :
    (ℕ → Surroundings) → Outcome Never (Option SettledInvoice) → Database → Outcome Never Database
handle_update env (ok none) db = ok db
handle_update env (ok (some settled)) db = ok (handle_settled env settled db)
handle_update env (err e) db = err e
handle_update env panic db = panic

-- The answers of the stream, one after the other: a broken stream panics, and what was committed stays.
abbrev pub listen :
    (ℕ → ℕ → Surroundings) → ℕ → List InvoiceUpdate → Database → Outcome Never Unit × Database
listen env n [] db = (ok tt, db)
listen env n (update ∷ updates) db = elim (handle_update (env n) (settled_update update) db) [
  | ok db' ↦ listen env (n + 1) updates db'
  | err e ↦ (err e, db)
  | panic ↦ (panic, db)
]

-- `InvoiceListener::run`, as far as the stream has come; `subscribe` gives the stream from an index on.
unfoldable pub run :
    (ℕ → ℕ → Surroundings) → (ℕ → List InvoiceUpdate) → Database → Outcome Never Unit × Database
run env subscribe db = listen env 0 (subscribe (get_max_settle_index db)) db
