-- ===== src/Chain/Turns.antt =====
-- app/src/chain.rs: what a turn and a run of the worker find on a node whose chain may grow.
use mathlib.Core.List.{Memᴰ}
use laas_api.Base.{
  ℕ, zero, suc, ◌+◌, ◌^◌, ◌%◌, ◌≤◌, ◌<◌, ◌≡◌, ◌⊎◌, inl, inr, Option, none, some, List, All, Outcome,
  ok, Never, arith, Option-cases, Outcome-cases, ap, sym, subst, ◌∙◌,
}
use laas_api.Int.{ℤ, pos, negsuc}
use laas_api.Btc.{TxOut}
use laas_api.Ln.{Lnd, Transaction}
use laas_api.Ln.Transactions.{get_highest_block, tx_outs_of}
use laas_api.Chain.{TxListener, run, process_all, outputs_from}
use laas_api.Chain.Termination.{
  Answers, outputs_from-Answered, IsBetween, get_highest_block-IsBetween, tx_outs_of-IsBetween,
  next_tip_grows,
}

-- The end of a range is not below a height; -1 stands for no end.
abbrev pub IsUpTo : ℕ → ℤ → Type 0
IsUpTo h (pos e) = h ≤ e
IsUpTo h (negsuc n) = Unit

-- The node shows the output, which is in the block `h`, in every range that has the block, and no
-- transaction above the end of a range.
pub record Shows (lnd : Lnd) (t : TxOut) (h : ℕ) (node : lnd.State) : Type 0 where
  pub shown :
      (start : ℕ) (end : ℤ) (ts : List Transaction)
      → lnd.get_transactions (pos start) end node ≡ some ts
      → start ≤ h
      → IsUpTo h end
      → Memᴰ t (tx_outs_of none ts)
  pub capped :
      (start e : ℕ) (ts : List Transaction)
      → lnd.get_transactions (pos start) (pos e) node ≡ some ts
      → All (λ x. (x.block_height ≡ 0) ⊎ ((0 ≤ x.block_height) × (x.block_height ≤ e))) ts

-- The chain of the node ends below the height.
abbrev pub IsBelow : (lnd : Lnd) → ℕ → lnd.State → Type 0
IsBelow lnd h node = (top : ℕ) × (top < h) × Answers lnd node top

-- The node does not have the block yet, or it shows the output.
abbrev pub Follows : (lnd : Lnd) → TxOut → ℕ → lnd.State → Type 0
Follows lnd t h node = IsBelow lnd h node ⊎ Shows lnd t h node

pub outputs_from-Memᴰ :
    {S : Type 0} (lnd : Lnd) (t : TxOut) (h : ℕ) (node : lnd.State) (listener : TxListener S)
    (tip height : ℕ) (outs : List TxOut)
    → Shows lnd t h node
    → outputs_from listener lnd node tip ≡ ok outs
    → get_highest_block outs ≡ some height
    → tip ≤ h
    → h ≤ height
    → Memᴰ t outs
outputs_from-Memᴰ lnd t h node listener tip height outs shows f highest low high =
    let (end, ts, e, same, asked) = outputs_from-Answered lnd node listener tip outs f in
    elim asked [
      | inl all ↦ subst (Memᴰ t) same (shows.shown tip end ts e low (subst (IsUpTo h) (sym all) tt))
      | inr (last, up_to) ↦
          let capped =
            shows.capped tip last ts
              (ap (λ z. lnd.get_transactions (pos tip) z node) (sym up_to) ∙ e) in
          let (_, bound) = subst (IsBetween 0 last) highest (
            get_highest_block-IsBetween 0 last outs
              (rw (← same) (tx_outs_of-IsBetween 0 last ts capped))) in
          subst (Memᴰ t) same
            (shows.shown tip end ts e low (subst (IsUpTo h) (sym up_to) (omega arith)))
    ]

module _ {S : Type 0} (listener : TxListener S) (lnd : Lnd) where
  abbrev pub After : (ℕ → S → Type 0) → Option (Outcome Never Unit × (ℕ × S)) → Type 0
  After P none = Unit
  After P (some (r, (tip, s))) = P tip s

  -- How a turn goes on with the outputs of a node.
  pub record Turn (node : lnd.State) (tip height : ℕ) (outs : List TxOut) (s : S) : Type 0 where
    pub found : outputs_from listener lnd node tip ≡ ok outs
    pub highest : get_highest_block outs ≡ some height
    pub result : Unit {0}
    pub returned : (process_all listener outs s).0 ≡ ok result

  -- What the outputs that are shown and the moves of the chain tip keep holds after a run.
  pub run-inv :
      (P : ℕ → S → Type 0)
      → ((tip : ℕ) (outs : List TxOut) (s : S) → P tip s → P tip (process_all listener outs s).1)
      → (nodes : ℕ → lnd.State)
      → ((i tip height : ℕ) (outs : List TxOut) (s : S)
          → P tip s
          → Turn (nodes i) tip height outs s
          → P ((height + 1) % 2 ^ 32) (process_all listener outs s).1)
      → (rounds tip : ℕ) (s : S) → P tip s
      → After P (run listener lnd nodes rounds tip s)
  unfolding run
  run-inv P shown nodes moves zero tip s p = tt
  run-inv P shown nodes moves (suc rounds) tip s p =
      elim (Outcome-cases (outputs_from listener lnd (nodes 0) tip)) [
        | inl (outs, f) ↦
            let kept = shown tip outs s p in
            elim (Outcome-cases (process_all listener outs s).0) [
              | inl (u, q) ↦ elim (Option-cases (get_highest_block outs)) [
                | inl unconfirmed ↦ rw (f, q, unconfirmed, run) kept
                | inr (height, highest) ↦
                    rw (f, q, highest, run)
                      (run-inv P shown (λ i. nodes (i + 1)) (λ i. moves (i + 1)) rounds
                        ((height + 1) % 2 ^ 32) (process_all listener outs s).1
                        (moves 0 tip height outs s p
                          (record { found = f; highest = highest; result = u; returned = q })))
              ]
              | inr (inl (problem, q)) ↦ rw (f, q, run) kept
              | inr (inr q) ↦ rw (f, q, run) kept
            ]
        | inr (inl (problem, f)) ↦ rw (f, run) p
        | inr (inr f) ↦ rw (f, run) p
      ]

  pub below_low :
      (node : lnd.State) (h tip height : ℕ) (outs : List TxOut) (s : S)
      → IsBelow lnd h node
      → Turn node tip height outs s
      → (height + 1) % 2 ^ 32 ≤ h
  below_low node h tip height outs s (top, less, answers) turn =
      let (_, high) =
        next_tip_grows lnd node top answers listener tip height outs turn.found turn.highest in
      omega arith
