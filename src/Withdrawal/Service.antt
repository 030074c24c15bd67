-- ===== src/Withdrawal/Service.antt =====
-- app/src/withdrawal/mod.rs: `start` with its retry loop, the sender, and the listener, which is called
-- for every output that the chain shows.
use laas_api.Base.{
  ℕ, Option, none, some, List, [], ◌∷◌, String, Outcome, ok, err, panic, ◌>>=◌, map_err, Never,
  if◌then◌else◌,
}
use laas_api.Btc.{Address, Sats, TxOut, tx_is_confirmed}
use laas_api.Concurrency.{Chain, conflict_error, other_error, retry_loop}
use laas_api.Database.{Uuid, Database}
use laas_api.Database.Transactions.{Surroundings, rolled_back, transaction}
use laas_api.Balance.{Balance, Reservation}
use laas_api.Balance.Queries
use laas_api.Auth.{SpendGrant, ReadGrant}
use laas_api.Ln.{Lnd}
use laas_api.Withdrawal
use laas_api.Withdrawal.{
  Withdrawal, Error, insufficient_balance, concurrency_conflict, amount_not_positive, is_confirmed,
  confirm,
}
use laas_api.Withdrawal.Rows
use laas_api.Withdrawal.Rows.{upsert_withdrawal, get_by_tx_out, list_unsent, lock}

-- An error and what its `source` leads to.
abbrev pub error_chain : Error → Chain
error_chain (insufficient_balance e) = other_error ∷ other_error ∷ []
error_chain (concurrency_conflict e) = other_error ∷ conflict_error ∷ []
error_chain amount_not_positive = other_error ∷ []

-- What `start` writes.
abbrev pub start_writes :
    Withdrawal → Reservation → Balance → Database → Outcome Error (Withdrawal × Database)
start_writes w r b db = do
  db₁ ← map_err concurrency_conflict (Queries.update db b)
  db₂ ← Queries.upsert_reservation db₁ r
  db₃ ← upsert_withdrawal db₂ w
  ok (w, db₃)

module _ (lnd : Lnd) where
  abbrev pub write_started :
      Outcome Error (Withdrawal × Reservation) × Balance
      → Database
      → Outcome Error (Withdrawal × Database)
  write_started (ok (w, r), b) db = start_writes w r b db
  write_started (err e, b) db = err e
  write_started (panic, b) db = panic

  -- One call of the closure in `withdrawal::start`. Other transactions may commit after the balance is
  -- read; the node is shared by the calls.
  unfoldable pub start_once :
      Uuid
      → SpendGrant
      → Address
      → Sats
      → Surroundings
      → lnd.State × Database
      → Outcome Error Withdrawal × (lnd.State × Database)
  start_once reservation_id grant address amount env (node, db) =
      elim (Queries.get {E = Error} db grant.user_id) [
        | ok b ↦
            let (started, node') =
              Withdrawal.start lnd env.id reservation_id env.now grant b address amount node in
            let (result, db') = transaction env db (write_started started (env.first db)) in
            (result, (node', db'))
        | err e ↦ (err e, (node, rolled_back env db))
        | panic ↦ (panic, (node, rolled_back env db))
      ]

  -- `withdrawal::start`, with the reservation id that each call draws.
  unfoldable pub start :
      (ℕ → Uuid)
      → (ℕ → Surroundings)
      → SpendGrant
      → Address
      → Sats
      → lnd.State
      → Database
      → Outcome Error Withdrawal × (lnd.State × Database)
  start reservation_id env grant address amount node db =
      retry_loop error_chain (λ i. start_once (reservation_id i) grant address amount (env i))
        (node, db)

  abbrev pub store_sent :
      Surroundings → Database → Outcome Never Withdrawal × lnd.State → lnd.State × Database
  store_sent env db (ok w, node) = elim (upsert_withdrawal {E = Never} (env.first db) w) [
    | ok db' ↦ (node, db')
    | err e ↦ (node, rolled_back env db)
    | panic ↦ (node, rolled_back env db)
  ]
  store_sent env db (err e, node) = (node, rolled_back env db)
  store_sent env db (panic, node) = (node, rolled_back env db)

  -- What `WithdrawalSender::run` does with one unsent withdrawal; a panic is swallowed.
  unfoldable pub send_one :
      (Uuid → String) → ℕ → Surroundings → Withdrawal → lnd.State × Database → lnd.State × Database
  send_one label first_block env w (node, db) = elim (lock {E = Never} db w.id) [
    | ok u ↦ store_sent env db (Withdrawal.send lnd label first_block w node)
    | err e ↦ (node, rolled_back env db)
    | panic ↦ (node, rolled_back env db)
  ]

  abbrev pub send_all :
      (Uuid → String)
      → ℕ
      → (ℕ → Surroundings)
      → List Withdrawal
      → lnd.State × Database
      → lnd.State × Database
  send_all label first_block env [] s = s
  send_all label first_block env (w ∷ ws) s =
      send_all label first_block env ws (send_one label first_block (env w.id) w s)

  -- `WithdrawalSender::run`, with surroundings for each withdrawal.
  unfoldable pub run :
      (Uuid → String) → ℕ → (ℕ → Surroundings) → lnd.State × Database → lnd.State × Database
  run label first_block env (node, db) = send_all label first_block env (list_unsent db) (node, db)

-- The branch of `process` for a withdrawal that is not confirmed. The reservation is read outside the
-- transaction; other transactions may commit before the writes.
abbrev pub settle : Surroundings → TxOut → Withdrawal → Database → Outcome Never Database
settle env tx_out w db = do
  r ← Queries.get_reservation db w.reservation_id
  both ← confirm env.now w tx_out r
  db' ← upsert_withdrawal (env.second db) both.0
  Queries.upsert_reservation db' both.1

abbrev pub settle_found :
    Surroundings → TxOut → Option Withdrawal → Database → Outcome Never Database
settle_found env tx_out none db = ok db
settle_found env tx_out (some w) db = if is_confirmed w then ok db else settle env tx_out w db

-- `Listener::process`
unfoldable pub process : Surroundings → TxOut → Database → Outcome Never Unit × Database
process env tx_out db =
    if tx_is_confirmed tx_out.tx
    then transaction env db (do
      db' ← settle_found env tx_out (get_by_tx_out db tx_out.tx.id tx_out.v_out) (env.first db)
      ok (tt, db'))
    else (ok tt, db)

-- `withdrawal::get`
unfoldable pub get : ReadGrant → Database → Uuid → Option Withdrawal
get grant db id = Rows.get db id grant.user_id
