-- ===== src/Chain.antt =====
-- app/src/chain.rs: the worker that shows every output of the chain to a listener.
pub mod Termination
pub mod Handlers
pub mod Turns
pub mod Tips
pub mod Delivery
use laas_api.Base.{
  ℕ, zero, suc, ◌+◌, ◌^◌, ◌%◌, ltb, Option, none, some, unwrap_or, List, [], ◌∷◌, Outcome, ok, err,
  panic, Never, ◌>>=◌, if◌then◌else◌,
}
use laas_api.Btc.{TxOut}
use laas_api.Database.{Database, TxOutRow}
use laas_api.Ln.{Lnd}
use laas_api.Worker.{start}
use laas_api.Ln.Transactions.{get_tx_outs, get_highest_block, max_height}

abbrev pub max_block : List TxOutRow → Option ℕ
max_block [] = none
max_block (row ∷ rows) = max_height row.block_height (max_block rows)

-- `queries::get_chain_tip`; the start is converted to `i32` whether it is used or not.
unfoldable pub get_chain_tip : ℕ → Database → Outcome Never ℕ
get_chain_tip start_height db =
    if ltb start_height (2 ^ 31) then ok (unwrap_or (max_block db.tx_outs) start_height) else panic

-- A listener, with the state that it changes; it may panic.
abbrev pub TxListener : Type 0 → Type 0
TxListener S = TxOut → S → Outcome Never Unit × S

module _ {S : Type 0} (listener : TxListener S) where
  -- The outputs in their order; a panic ends the run.
  unfoldable pub process_all : List TxOut → S → Outcome Never Unit × S
  process_all [] s = (ok tt, s)
  process_all (t ∷ ts) s =
      let (r, s') = listener t s in
      elim r [ ok u ↦ process_all ts s' | err e ↦ (err e, s') | panic ↦ (panic, s') ]

  module _ (lnd : Lnd) where
    -- The outputs that a turn of the loop asks the node for.
    abbrev pub outputs_from : lnd.State → ℕ → Outcome Never (List TxOut)
    outputs_from node tip = get_tx_outs lnd (record { start_height = tip; num_blocks = 10 }) node

    -- How a turn leaves the loop, or the tip to go on with.
    abbrev pub next_tip : List TxOut → Option ℕ
    next_tip tx_outs = elim (get_highest_block tx_outs) [
      | none ↦ none
      | some height ↦ some ((height + 1) % 2 ^ 32)
    ]

    -- `Worker::run`, on `rounds` turns, with the node as each turn finds it: the outcome with the chain
    -- tip and the state, or `none` if the loop would go on.
    unfoldable pub run : (ℕ → lnd.State) → ℕ → ℕ → S → Option (Outcome Never Unit × (ℕ × S))
    unfolding process_all
    run nodes zero tip s = none
    run nodes (suc rounds) tip s = elim (outputs_from (nodes 0) tip) [
      | ok tx_outs ↦
          let (r, s') = process_all tx_outs s in
          elim r [
            | ok u ↦ elim (next_tip tx_outs) [
              | none ↦ some (ok tt, (tip, s'))
              | some tip' ↦ run (λ i. nodes (i + 1)) rounds tip' s'
            ]
            | err e ↦ some (err e, (tip, s'))
            | panic ↦ some (panic, (tip, s'))
          ]
      | err e ↦ some (err e, (tip, s))
      | panic ↦ some (panic, (tip, s))
    ]

  -- `listen`: the loop of the worker over `rounds` runs of at most `turns` turns, from the chain tip of
  -- the store on. The node is given as each turn of each run finds it, and what others change while
  -- the worker sleeps;
  -- `none` if a run would take more turns.
  unfoldable pub listen :
      (lnd : Lnd)
      → (S → Database)
      → ℕ
      → (ℕ → ℕ → lnd.State)
      → (ℕ → S → S)
      → ℕ
      → ℕ
      → S
      → Outcome Never (Option (ℕ × S))
  listen lnd store start_height nodes others turns rounds s = do
    tip ← get_chain_tip start_height (store s)
    ok (
        start (λ n (tip, s). run lnd (nodes n) turns tip s) (λ n (tip, s). (tip, others n s)) 0
          rounds (tip, s))
