-- ===== src/Invoice/Service.antt =====
-- app/src/invoice/mod.rs: `create`, `complete` and the listener. The invoice that `complete` settles is
-- shared by the calls of its retry loop: what one call has changed in it stays when its transaction is
-- rolled back.
use laas_api.Base.{
  ℕ, Option, none, some, [], ◌∷◌, String, Outcome, ok, err, panic, ◌>>=◌, Never, if◌then◌else◌,
}
use laas_api.Int.{ℤ}
use laas_api.Btc.{MilliSats}
use laas_api.CashLimits.{CashLimits}
use laas_api.Concurrency.{ConflictError, Chain, conflict_error, retry_loop}
use laas_api.Database.{Uuid, DateTime, Database}
use laas_api.Database.Transactions.{Surroundings, rolled_back}
use laas_api.Balance.{Balance}
use laas_api.Balance.Queries
use laas_api.Auth.{ReceiveGrant, ReadGrant}
use laas_api.Ln.{SettledInvoice, Lnd}
use laas_api.Invoice.{Invoice, Error, is_settled, settle}
use laas_api.Invoice
use laas_api.Invoice.Rows
use laas_api.Invoice.Rows.{upsert_invoice, daily_total, get_by_invoice}

abbrev pub conflict_chain : ConflictError → Chain
conflict_chain e = conflict_error ∷ []

-- What `complete` writes after the settlement.
abbrev pub complete_writes : Invoice → Balance → Database → Outcome ConflictError Database
complete_writes i b db = do db' ← upsert_invoice db i; Queries.update db' b

abbrev pub Call : Type 0
Call = Outcome ConflictError Unit × (Invoice × Database)

abbrev pub finish : Surroundings → Invoice → Database → Outcome ConflictError Database → Call
finish env i db (ok db') = (ok tt, (i, db'))
finish env i db (err e) = (err e, (i, rolled_back env db))
finish env i db panic = (panic, (i, rolled_back env db))

abbrev pub settle_and_write :
    Surroundings → Invoice → Database → Outcome ConflictError Balance → SettledInvoice → Call
settle_and_write env i db balance settled = elim (do b ← balance; settle env.now i b settled) [
  | ok (i', b') ↦ finish env i' db (complete_writes i' b' (env.first db))
  | err e ↦ (err e, (i, rolled_back env db))
  | panic ↦ (panic, (i, rolled_back env db))
]

-- One call of the closure in `complete`. Other transactions may commit after the balance is read.
unfoldable pub complete_once : Surroundings → SettledInvoice → Invoice × Database → Call
complete_once env settled (i, db) =
    if is_settled i
    then (ok tt, (i, db))
    else settle_and_write env i db (Queries.get db i.user_id) settled

abbrev pub unwrap_completion : Call → Outcome Never Unit × Database
unwrap_completion (ok u, (i, db)) = (ok tt, db)
unwrap_completion (err e, (i, db)) = (panic, db)
unwrap_completion (panic, (i, db)) = (panic, db)

-- `complete`
unfoldable pub complete :
    (ℕ → Surroundings) → Invoice → SettledInvoice → Database → Outcome Never Unit × Database
complete env i settled db =
    unwrap_completion (retry_loop conflict_chain (λ n. complete_once (env n) settled) (i, db))

-- What the listener does with one settled invoice of the stream; a panic is swallowed.
unfoldable pub handle_settled : (ℕ → Surroundings) → SettledInvoice → Database → Database
handle_settled env settled db = elim (get_by_invoice db settled.raw) [
  | some i ↦ (complete env i settled db).1
  | none ↦ db
]

module _ (lnd : Lnd) where
  abbrev pub store_created :
      Database → Outcome Error Invoice × lnd.State → Outcome Error Invoice × lnd.State × Database
  store_created db (ok i, node) = elim (upsert_invoice {E = Error} db i) [
    | ok db' ↦ (ok i, node, db')
    | err e ↦ (err e, node, db)
    | panic ↦ (panic, node, db)
  ]
  store_created db (err e, node) = (err e, node, db)
  store_created db (panic, node) = (panic, node, db)

  -- `invoice::create`; `later` is the time of creation.
  unfoldable pub create :
      Surroundings
      → DateTime
      → ReceiveGrant
      → MilliSats
      → Option String
      → ℤ
      → CashLimits
      → lnd.State
      → Database
      → Outcome Error Invoice × lnd.State × Database
  create env later grant amount memo expiry limits node db =
      elim (daily_total {E = Error} env.now db grant.user_id) [
        | ok total ↦
            store_created (env.first db)
              (Invoice.create lnd env.id env.now later grant amount memo expiry limits total node)
        | err e ↦ (err e, node, db)
        | panic ↦ (panic, node, db)
      ]

-- `invoice::get`
unfoldable pub get : ReadGrant → Database → Uuid → Option Invoice
get grant db id = Rows.get db id grant.user_id
