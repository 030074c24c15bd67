-- ===== src/Withdrawal/Worker/Confirmations.antt =====
-- app/src/withdrawal/mod.rs: the worker passes no withdrawal by.
use laas_api.Base.{ℕ, ◌+◌, IsKeyed, ◌≤◌, ◌<◌, ◌≡◌, true, some, Outcome, ok, Never}
use laas_api.Btc.{TxOut, tx_is_confirmed}
use laas_api.Chain.{get_chain_tip}
use laas_api.Chain.Handlers.{Handler}
use laas_api.Chain.Turns.{IsBelow, Follows}
use laas_api.Chain.Delivery.{listen_handles}
use laas_api.Database.{Database, WithdrawalRow}
use laas_api.Database.Transactions.{Surroundings}
use laas_api.Ln.{Lnd}
use laas_api.Withdrawal.{Withdrawal, is_confirmed}
use laas_api.Withdrawal.Rows.{get_by_tx_out, into_entity}
use laas_api.Withdrawal.Service.{process}
use laas_api.Withdrawal.Worker.{listener, start_listener}
use laas_api.Withdrawal.Worker.Sent.{IsArrived, IsSent, IsSent-get, Keeps}
use laas_api.Withdrawal.Worker.Calls.{
  IsFit, Keeps-IsFit, Keeps-IsArrived, process-Holds, process-IsKeyed, process_arrives,
}

with_unit :
    {S : Type 0} (r : Outcome Never (Unit {0}) × S) (u : Unit {0}) → r.0 ≡ ok u → r ≡ (ok tt, r.1)
with_unit r u e = λ i. (e i, r.1)

module _ (env : ℕ → Surroundings) (first : (n : ℕ) (db : Database) → Keeps db ((env n).first db))
    (second : (n : ℕ) (db : Database) → Keeps db ((env n).second db)) (out : TxOut)
    (t : tx_is_confirmed out.tx ≡ true) where
  -- The listener handles every confirmed output of a withdrawal that was sent.
  listener-Handler :
      Handler (listener env) out (λ (n, db). IsFit out db) (λ (n, db). IsArrived out db)
  listener-Handler = record {
    fit = λ x (n, db) fit. (process-Holds (env n) (first n) (second n) out x db fit).0;
    handles = λ (n, db) u fit h.
        process_arrives (env n) (first n) (second n) out db (process (env n) out db).1 t fit
          (with_unit (process (env n) out db) u h);
    keeps = λ x (n, db) fit arrived.
        (process-Holds (env n) (first n) (second n) out x db fit).1 arrived;
  }

  -- A withdrawal is not passed by: when the worker has started at or below the block of the confirmed
  -- output of a withdrawal, and its chain tip is above that block, the withdrawal is stored as
  -- confirmed, whenever the output is mined and however many calls have panicked. Every turn finds the
  -- chain of the node below the block, or the node shows the output in the ranges that have its block
  -- and no transaction above the end of a range. In the first `k` runs the chain is below the block, and
  -- after them the withdrawal is stored as sent. Other transactions leave the withdrawals their ids,
  -- their outputs and their confirmation, and drop no output; the ids of the withdrawals are distinct.
  pub withdrawal_arrives :
      (lnd : Lnd) (start_height h k : ℕ) (nodes : ℕ → ℕ → lnd.State)
      (others : ℕ → Database → Database) (turns rounds : ℕ) (db : Database) (tip tip' calls : ℕ)
      (db' : Database)
      → ((n i : ℕ) → n < k → IsBelow lnd h (nodes n i))
      → ((n i : ℕ) → Follows lnd out h (nodes n i))
      → ((n : ℕ) (db : Database) → Keeps db (others n db))
      → IsKeyed WithdrawalRow.id db.withdrawals
      → ((tip₁ calls₁ : ℕ) (db₁ : Database)
          → start_listener lnd start_height nodes others env turns k db
            ≡ ok (some (tip₁, (calls₁, db₁)))
          → IsSent out db₁)
      → get_chain_tip start_height db ≡ ok tip
      → tip ≤ h
      → start_listener lnd start_height nodes others env turns (k + rounds) db
        ≡ ok (some (tip', (calls, db')))
      → h < tip'
      → (w : Withdrawal) × (get_by_tx_out db' out.tx.id out.v_out ≡ some w)
        × (is_confirmed w ≡ true)
  unfolding start_listener is_confirmed
  withdrawal_arrives lnd start_height h k nodes others turns rounds db tip tip' calls db' below
        follows keeps keyed sent at low e above =
      let (s, c) =
        listen_handles (listener env) lnd nodes (λ n (calls, db). (calls, others n db)) turns h k
          below (λ (n, db). IsKeyed WithdrawalRow.id db.withdrawals)
          (λ x (n, db) keyed. process-IsKeyed (env n) (first n) (second n) out x db keyed)
          (λ n (calls, db) keyed. (keeps n db).keyed keyed) out (λ (n, db). IsFit out db)
          (λ (n, db). IsArrived out db) listener-Handler follows
          (λ n (calls, db) fit. (
            Keeps-IsFit out db (others n db) (keeps n db) fit,
            λ arrived. Keeps-IsArrived out db (others n db) (keeps n db) arrived,
          ))
          (λ s. s.1) start_height rounds (0, db) tip tip' (calls, db') keyed
          (λ tip₁ (calls₁, db₁) keyed₁ e₁. record {
            sent = sent tip₁ calls₁ db₁ e₁;
            keyed = keyed₁;
          })
          at low e above in
      (into_entity s.row s.tx_out.block_height, IsSent-get out db' s, c)
