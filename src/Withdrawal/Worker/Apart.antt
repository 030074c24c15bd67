-- ===== src/Withdrawal/Worker/Apart.antt =====
-- app/src/deposit/mod.rs and app/src/withdrawal/mod.rs: the two listeners share the table of the
-- outputs, and what a call of one leaves of the rows of the other.
use laas_api.Base.{◌≡◌, refl, Bool-cases, Outcome-cases, inl, inr, Option, none, some, ok, ◌>>=◌}
use laas_api.Btc.{TxOut, tx_is_confirmed}
use laas_api.Database.{Database}
use laas_api.Database.Transactions.{Surroundings, transaction, rolled_back}
use laas_api.Deposit.{Deposit}
use laas_api.Deposit.Queries.{upsert_deposit, get_address}
use laas_api.Deposit.RoundTrip.{upsert-tx_outs, upsert_deposit-eq}
use laas_api.Deposit.Listener.{process_once}
use laas_api.Deposit.Worker.Inserts as Deposits
use laas_api.Deposit.Worker.Inserts.{upsert_deposit-tx_outs}
use laas_api.Deposit.Worker.Calls.{IsNew, process_once-inv}
use laas_api.Withdrawal.{Withdrawal, is_confirmed}
use laas_api.Withdrawal.Rows.{get_by_tx_out}
use laas_api.Withdrawal.Delivery.{settle_parts}
use laas_api.Withdrawal.Service.{process, settle, settle_found}
use laas_api.Withdrawal.Worker.Sent.{Keeps, keeps_refl, Keeps-trans}

module _ (env : Surroundings) (x : TxOut) (db : Database) where
  module _ (first : (db : Database) → Deposits.Keeps db (env.first db))
      (second : (db : Database) → Deposits.Keeps db (env.second db)) where
    settled_deposits :
        (w : Withdrawal) (before db' : Database)
        → settle env x w before ≡ ok db'
        → Deposits.Keeps before db'
    unfolding get_address
    settled_deposits w before db' h =
        let (r, loaded, is_open, owner, free, last) = settle_parts env x w before db' h in
        rw last (
          Deposits.Keeps-trans before (env.second before) _ (second before) (record {
            deposits = refl;
            tx_outs =
                λ tx_id v_out row e. upsert-tx_outs x tx_id v_out row (env.second before).tx_outs e;
            addresses = λ address a e. (a, e);
          }))

    found_deposits :
        (found : Option Withdrawal)
        → Deposits.Keeps db
            (transaction env db (do db' ← settle_found env x found (env.first db); ok (tt, db'))).1
    found_deposits none = first db
    found_deposits (some w) = elim (Bool-cases (is_confirmed w)) [
      | inl before ↦ rw before (first db)
      | inr fresh ↦ elim (Outcome-cases (settle env x w (env.first db))) [
        | inl (db', h) ↦
            rw (fresh, h)
              (Deposits.Keeps-trans db (env.first db) db' (first db)
                (settled_deposits w (env.first db) db' h))
        | inr (inl (problem, h)) ↦
            rw (fresh, h)
              (Deposits.Keeps-trans db (env.first db) (rolled_back env db) (first db)
                (second (env.first db)))
        | inr (inr h) ↦
            rw (fresh, h)
              (Deposits.Keeps-trans db (env.first db) (rolled_back env db) (first db)
                (second (env.first db)))
      ]
    ]

    -- A call of the listener of the withdrawals keeps what the deposits need.
    process-deposits : Deposits.Keeps db (process env x db).1
    unfolding process get_address
    process-deposits = elim (Bool-cases (tx_is_confirmed x.tx)) [
      | inl deep ↦ rw deep (found_deposits (get_by_tx_out db x.tx.id x.v_out))
      | inr shallow ↦ rw shallow (Deposits.keeps_refl db)
    ]

  module _ (first : (db : Database) → Keeps db (env.first db))
      (second : (db : Database) → Keeps db (env.second db))
      (first_deposits : (db : Database) → (env.first db).deposits ≡ db.deposits)
      (second_deposits : (db : Database) → (env.second db).deposits ≡ db.deposits) where
    written :
        (before db' : Database) (d : Deposit)
        → upsert_deposit before d ≡ ok db'
        → Keeps db before
        → Keeps db db'
    written before db' d h kept =
        let stored = upsert_deposit-eq before db' d h in
        Keeps-trans db before db' kept (record {
          sent = λ tx_id v_out row e. rw stored (row, e, refl, λ c. c);
          tx_outs = λ tx_id v_out row e. upsert_deposit-tx_outs before db' d tx_id v_out row h e;
          keyed = λ k. rw stored k;
        })

    -- A call of the listener of the deposits keeps what the withdrawals need.
    process_once-withdrawals : IsNew env.id db → Keeps db (process_once env x db).1
    process_once-withdrawals fresh =
        process_once-inv env x (Keeps db)
          (record {
            first_deposits = first_deposits;
            second_deposits = second_deposits;
            first = λ before kept. Keeps-trans db before (env.first before) kept (first before);
            second = λ before kept. Keeps-trans db before (env.second before) kept (second before);
            starts = λ before db' a new kept h. written before db' _ h kept;
            confirms = λ before db' d stored kept h. written before db' _ h kept;
            users = λ before db' e kept.
                rw (← e) (record { sent = kept.sent; tx_outs = kept.tx_outs; keyed = kept.keyed });
          })
          db fresh (keeps_refl db)

  -- A call of the listener of the withdrawals, for whatever output and however it ends, writes no
  -- deposit and drops no address and no output; one of the listener of the deposits leaves the
  -- withdrawals their ids, their outputs and their confirmation and drops no output. What others commit
  -- during the call does neither, and the id that is drawn for a deposit is new. Nothing is said of the
  -- chain tip that a worker starts from, which is the highest block of the outputs of both.
  pub calls_keep_rows :
      ((db : Database) → Deposits.Keeps db (env.first db) × Keeps db (env.first db))
      → ((db : Database) → Deposits.Keeps db (env.second db) × Keeps db (env.second db))
      → IsNew env.id db
      → Deposits.Keeps db (process env x db).1 × Keeps db (process_once env x db).1
  calls_keep_rows first second fresh = (
    process-deposits (λ db. (first db).0) (λ db. (second db).0),
    process_once-withdrawals (λ db. (first db).1) (λ db. (second db).1)
        (λ db. (first db).0.deposits) (λ db. (second db).0.deposits) fresh,
  )
