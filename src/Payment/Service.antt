-- ===== src/Payment/Service.antt =====
-- app/src/payment/mod.rs: `send`, with its two retry loops. The payment and the node are shared by the
-- calls of a loop: what one call has changed in them stays when its transaction is rolled back.
use laas_api.Base.{ℕ, Option, List, [], ◌∷◌, Outcome, ok, err, panic, ◌>>=◌, map_err, unwrap}
use laas_api.Btc.{MilliSats}
use laas_api.CashLimits.{CashLimits}
use laas_api.Concurrency.{Chain, conflict_error, other_error, retry_loop}
use laas_api.Database.{Uuid, Database}
use laas_api.Database.Transactions.{Surroundings}
use laas_api.Balance.{Balance, Reservation}
use laas_api.Balance.Queries
use laas_api.Auth.{SpendGrant, ReadGrant}
use laas_api.Ln.{RawInvoice, Lnd}
use laas_api.Payment.{
  Payment, Error, limits_violated, invalid_invoice, amount_specified_twice, amount_not_specified,
  payment_error, concurrency_conflict, insufficient_balance, create, prepare, send,
}
use laas_api.Payment.Rows
use laas_api.Payment.Rows.{upsert_payment, daily_total}

-- An error and what its `source` leads to.
abbrev pub error_chain : Error → Chain
error_chain (limits_violated e) = other_error ∷ other_error ∷ []
error_chain (invalid_invoice e) = other_error ∷ other_error ∷ []
error_chain amount_specified_twice = other_error ∷ []
error_chain amount_not_specified = other_error ∷ []
error_chain (payment_error e) = other_error ∷ other_error ∷ []
error_chain (concurrency_conflict e) = other_error ∷ conflict_error ∷ []
error_chain (insufficient_balance e) = other_error ∷ other_error ∷ []

-- What the first loop writes after `prepare`.
abbrev pub prepare_writes :
    Outcome Error Reservation → Payment → Balance → Database → Outcome Error Database
prepare_writes (ok r) p b db = do
  db' ← Queries.upsert_reservation db r
  map_err concurrency_conflict (Queries.update (upsert_payment db' p) b)
prepare_writes (err e) p b db =
    map_err concurrency_conflict (Queries.update (upsert_payment db p) b)
prepare_writes panic p b db = panic

-- What the second loop writes after `send`.
abbrev pub send_writes :
    Outcome Error Unit → Reservation → Payment → Balance → Database → Outcome Error Database
send_writes (ok u) r p b db = do
  db' ← Queries.upsert_reservation db r
  map_err concurrency_conflict (Queries.update (upsert_payment db' p) b)
send_writes (err e) r p b db = do
  db' ← Queries.upsert_reservation db r
  map_err concurrency_conflict (Queries.update (upsert_payment db' p) b)
send_writes panic r p b db = panic

module _ (lnd : Lnd) where
  -- What the calls of a loop share, and the database.
  pub record Shared : Type 0 where
    pub payment : Payment
    pub node : lnd.State
    pub db : Database

  -- The end of a call: the result of the body where the transaction is committed.
  abbrev pub finish :
      {A : Type 0}
      → Outcome Error A
      → Payment
      → lnd.State
      → Database
      → Outcome Error Database
      → Outcome Error A × Shared
  finish result p node others (ok db) = (result, record { payment = p; node = node; db = db })
  finish result p node others (err e) = (err e, record { payment = p; node = node; db = others })
  finish result p node others panic = (panic, record { payment = p; node = node; db = others })

  -- One call of the first closure. Other transactions may commit after the balance is read.
  unfoldable pub prepare_once :
      (ℕ → List ℕ) → SpendGrant → Surroundings → Shared → Outcome Error Reservation × Shared
  prepare_once hash grant env s = elim (Queries.get {E = Error} s.db grant.user_id) [
    | ok b ↦
        let ((result, p, b'), node) = prepare lnd env.id env.now hash s.payment b s.node in
        finish result p node (env.first s.db) (prepare_writes result p b' (env.first s.db))
    | err e ↦ (err e, s)
    | panic ↦ (panic, s)
  ]

  -- The reservation that the second closure loads.
  abbrev pub load_reservation : Shared → Outcome Error Reservation
  load_reservation s = do id ← unwrap s.payment.reservation_id; Queries.get_reservation s.db id

  -- The balance and the reservation that a call of the second closure works on.
  abbrev pub load : SpendGrant → Shared → Outcome Error (Balance × Reservation)
  load grant s = do
    b ← Queries.get {E = Error} s.db grant.user_id
    r ← load_reservation s
    ok (b, r)

  -- One call of the second closure.
  unfoldable pub send_once : SpendGrant → Surroundings → Shared → Outcome Error Unit × Shared
  send_once grant env s = elim (load grant s) [
    | ok (b, r) ↦
        let ((result, p, b', r'), node) = send lnd env.now s.payment b r s.node in
        finish result p node (env.first s.db) (send_writes result r' p b' (env.first s.db))
    | err e ↦ (err e, s)
    | panic ↦ (panic, s)
  ]

  abbrev pub then_send :
      SpendGrant
      → (ℕ → Surroundings)
      → Outcome Error Reservation × Shared
      → Outcome Error Payment × lnd.State × Database
  then_send grant env (err e, s) = (err e, s.node, s.db)
  then_send grant env (panic, s) = (panic, s.node, s.db)
  then_send grant env (ok r, s) =
      let (result, s') = retry_loop error_chain (λ i. send_once grant (env i)) s in
      elim result [
        | ok u ↦ (ok s'.payment, s'.node, s'.db)
        | err e ↦ (err e, s'.node, s'.db)
        | panic ↦ (panic, s'.node, s'.db)
      ]

  -- `payment::send`: `start` is drawn before the loops, `first` and `second` by the calls of each.
  unfoldable pub send_payment :
      (ℕ → List ℕ)
      → Surroundings
      → (ℕ → Surroundings)
      → (ℕ → Surroundings)
      → SpendGrant
      → RawInvoice
      → Option MilliSats
      → CashLimits
      → lnd.State
      → Database
      → Outcome Error Payment × lnd.State × Database
  send_payment hash start first second grant invoice amount limits node db =
      elim (do
        total ← daily_total start.now db grant.user_id
        create lnd start.id start.now grant invoice amount limits total) [
          | ok p ↦ then_send grant second (
              retry_loop error_chain (λ i. prepare_once hash grant (first i))
                (record { payment = p; node = node; db = upsert_payment db p }))
          | err e ↦ (err e, node, db)
          | panic ↦ (panic, node, db)
        ]

-- `payment::get`
unfoldable pub get : {E : Type 0} → ReadGrant → Database → Uuid → Outcome E (Option Payment)
get grant db id = Rows.get db id grant.user_id
