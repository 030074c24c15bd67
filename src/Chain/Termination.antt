-- ===== src/Chain/Termination.antt =====
-- app/src/chain.rs: a run of the worker ends.
use laas_api.Base.{
  ℕ, zero, suc, ◌+◌, ◌-◌, ◌^◌, ◌%◌, ◌≤◌, ◌<◌, ◌≡◌, ◌⊎◌, inl, inr, refl, ltb, Option, none, some,
  List, [], ◌∷◌, All, Outcome, ok, err, panic, Never, arith, Option-cases, Outcome-cases, >>=-eq-ok,
  ap, sym, subst, ◌∙◌, Bool-cases, unwrap_or, ◌++◌,
}
use laas_api.Int.{ℤ, pos, negsuc}
use laas_api.Btc.{TxOut, Tx}
use laas_api.Ln.{Lnd, Transaction, OutputDetail}
use laas_api.Ln.Transactions.{
  get_tx_outs, get_highest_block, max_height, get_tx_outs_start_end, tx_outs_of, outputs, tx_of,
  to_i32,
}
use laas_api.Chain.{TxListener, run, process_all, outputs_from}

-- A height between two bounds, if there is one.
abbrev pub IsBetween : ℕ → ℕ → Option ℕ → Type 0
IsBetween low high none = Unit
IsBetween low high (some h) = (low ≤ h) × (h ≤ high)

-- The node answers for the blocks from the start on, up to the top of its chain; an unconfirmed
-- transaction has the height 0.
abbrev pub Answers : (lnd : Lnd) → lnd.State → ℕ → Type 0
Answers lnd node top =
    (start : ℕ) (end : ℤ) (ts : List Transaction)
    → lnd.get_transactions (pos start) end node ≡ some ts
    → All (λ t. (t.block_height ≡ 0) ⊎ ((start ≤ t.block_height) × (t.block_height ≤ top))) ts

outputs-IsBetween :
    (low high : ℕ) (tx : Tx) (os : List OutputDetail)
    → IsBetween low high tx.block_height
    → All (λ t. IsBetween low high t.tx.block_height) (outputs tx os)
outputs-IsBetween low high tx [] h = tt
outputs-IsBetween low high tx (o ∷ os) h = elim (Option-cases o.address) [
  | inl e ↦ rw (e, outputs) (outputs-IsBetween low high tx os h)
  | inr (a, e) ↦ rw (e, outputs) (h, outputs-IsBetween low high tx os h)
]

All-++ : (P : TxOut → Type 0) (xs ys : List TxOut) → All P xs → All P ys → All P (xs ++ ys)
All-++ P [] ys p q = q
All-++ P (x ∷ xs) ys p q = (p.0, All-++ P xs ys p.1 q)

tx_of-IsBetween :
    (low high : ℕ) (t : Transaction)
    → (t.block_height ≡ 0) ⊎ ((low ≤ t.block_height) × (t.block_height ≤ high))
    → IsBetween low high (tx_of t).block_height
tx_of-IsBetween low high t h = ground arith

pub tx_outs_of-IsBetween :
    (low high : ℕ) (ts : List Transaction)
    → All (λ t. (t.block_height ≡ 0) ⊎ ((low ≤ t.block_height) × (t.block_height ≤ high))) ts
    → All (λ t. IsBetween low high t.tx.block_height) (tx_outs_of none ts)
tx_outs_of-IsBetween low high [] h = tt
tx_outs_of-IsBetween low high (t ∷ ts) h =
    All-++ (λ t. IsBetween low high t.tx.block_height) (outputs (tx_of t) t.output_details)
      (tx_outs_of none ts)
      (outputs-IsBetween low high (tx_of t) t.output_details (tx_of-IsBetween low high t h.0))
      (tx_outs_of-IsBetween low high ts h.1)

pub get_highest_block-IsBetween :
    (low high : ℕ) (ts : List TxOut)
    → All (λ t. IsBetween low high t.tx.block_height) ts
    → IsBetween low high (get_highest_block ts)
unfolding get_highest_block
get_highest_block-IsBetween low high [] h = tt
get_highest_block-IsBetween low high (t ∷ ts) h =
    larger t.tx.block_height (get_highest_block ts) h.0
      (get_highest_block-IsBetween low high ts h.1)
  where
    larger :
        (a b : Option ℕ)
        → IsBetween low high a
        → IsBetween low high b
        → IsBetween low high (max_height a b)
    larger none b p q = q
    larger (some a) none p q = p
    larger (some a) (some b) p q = ground arith

-- How the outputs of a turn were asked for: up to a block, or all of them from the start on.
abbrev pub IsAsked : ℤ → Type 0
IsAsked end = (end ≡ negsuc 0) ⊎ ((e : ℕ) × (end ≡ pos e))

module _ (lnd : Lnd) (node : lnd.State) where
  abbrev pub Answered : ℕ → List TxOut → Type 0
  Answered start outs =
      (end : ℤ) × (ts : List Transaction) × (lnd.get_transactions (pos start) end node ≡ some ts)
      × (tx_outs_of none ts ≡ outs)
      × IsAsked end

  to_i32-eq : (n : ℕ) (z : ℤ) → to_i32 lnd {E = Never} n ≡ ok z → z ≡ pos n
  to_i32-eq n z f = elim (Bool-cases (ltb n (2 ^ 31))) [
    | inl small ↦ ground arith
    | inr big ↦ absurd (ground arith)
  ]

  range-Answered :
      (start : ℕ) (end : ℤ) (outs : List TxOut)
      → IsAsked end
      → get_tx_outs_start_end lnd {E = Never} (pos start) end none node ≡ ok outs
      → Answered start outs
  unfolding get_tx_outs_start_end
  range-Answered start end outs asked h =
      elim (Option-cases (lnd.get_transactions (pos start) end node)) [
        | inl e ↦ absurd (ground arith)
        | inr (ts, e) ↦ (end, ts, e, ground arith, asked)
      ]

  pub outputs_from-Answered :
      {S : Type 0} (listener : TxListener S) (tip : ℕ) (outs : List TxOut)
      → outputs_from listener lnd node tip ≡ ok outs
      → Answered tip outs
  unfolding get_tx_outs
  outputs_from-Answered listener tip outs h =
      let end_height = (tip + 10 + 2 ^ 32 - 1) % 2 ^ 32 in
      let (start, s, h₁) = >>=-eq-ok (to_i32 lnd {E = Never} tip) _ h in
      let (end, e, h₂) = >>=-eq-ok (to_i32 lnd {E = Never} end_height) _ h₁ in
      let (confirmed, c, h₃) =
        >>=-eq-ok (get_tx_outs_start_end lnd {E = Never} start end none node) _ h₂ in
      let start_eq : start ≡ pos tip = to_i32-eq tip start s in
      elim (Bool-cases (ltb (unwrap_or (get_highest_block confirmed) 0) end_height)) [
        | inl more ↦ range-Answered tip (negsuc 0) outs (inl refl) (rw (start_eq, more) at h₃)
        | inr less ↦
            let same : confirmed ≡ outs = ground arith in
            range-Answered tip end outs (inr (end_height, to_i32-eq end_height end e)) (
              ap (λ z. get_tx_outs_start_end lnd {E = Never} z end none node) (sym start_eq)
              ∙ c
              ∙ ap ok same)
      ]

module _ (lnd : Lnd) (node : lnd.State) (top : ℕ) (answers : Answers lnd node top) where
  outputs_from-IsBetween :
      {S : Type 0} (listener : TxListener S) (tip : ℕ) (outs : List TxOut)
      → outputs_from listener lnd node tip ≡ ok outs
      → All (λ t. IsBetween tip top t.tx.block_height) outs
  outputs_from-IsBetween listener tip outs h =
      let (end, ts, e, same, asked) = outputs_from-Answered lnd node listener tip outs h in
      rw (← same) (tx_outs_of-IsBetween tip top ts (answers tip end ts e))

  pub next_tip_grows :
      {S : Type 0} (listener : TxListener S) (tip height : ℕ) (outs : List TxOut)
      → outputs_from listener lnd node tip ≡ ok outs
      → get_highest_block outs ≡ some height
      → (tip ≤ height) × (height ≤ top)
  next_tip_grows listener tip height outs e f =
      subst (IsBetween tip top) f
        (get_highest_block-IsBetween tip top outs (outputs_from-IsBetween listener tip outs e))

module _ {S : Type 0} (lnd : Lnd) (listener : TxListener S) where
  run_next :
      (nodes : ℕ → lnd.State) (rounds tip height : ℕ) (s : S) (outs : List TxOut) (u : Unit {0})
      → outputs_from listener lnd (nodes 0) tip ≡ ok outs
      → (process_all listener outs s).0 ≡ ok u
      → get_highest_block outs ≡ some height
      → height + 1 < 2 ^ 32
      → run listener lnd nodes (suc rounds) tip s
        ≡ run listener lnd (λ i. nodes (i + 1)) rounds (height + 1) (process_all listener outs s).1
  unfolding run
  run_next nodes rounds tip height s outs u e p f small =
      let same : (height + 1) % 2 ^ 32 ≡ height + 1 = omega arith in
      rw (e, p, f, run)
        (ap
          (λ tip'.
            run listener lnd (λ i. nodes (i + 1)) rounds tip' (process_all listener outs s).1)
          same)

  -- If the node, as each turn finds it, answers for the blocks from the start that is asked for, and
  -- its chain stays up to a top below 2^32 - 1, a run ends within one turn more than there are blocks
  -- from the chain tip to the top, both included: with an outcome, the last chain tip and the last
  -- state of the listener.
  pub run_ends :
      (nodes : ℕ → lnd.State) (top : ℕ)
      → ((i : ℕ) → Answers lnd (nodes i) top)
      → (rounds tip : ℕ) (s : S) → top + 1 < 2 ^ 32
      → 0 < rounds
      → top + 1 < rounds + tip
      → (result : Outcome Never Unit × (ℕ × S)) × (run listener lnd nodes rounds tip s
          ≡ some result)
  unfolding run
  run_ends nodes top answers zero tip s small some_round enough = absurd (omega arith)
  run_ends nodes top answers (suc rounds) tip s small some_round enough =
      elim (Outcome-cases (outputs_from listener lnd (nodes 0) tip)) [
        | inl (outs, e) ↦ elim (Outcome-cases (process_all listener outs s).0) [
          | inl (u, p) ↦ elim (Option-cases (get_highest_block outs)) [
            | inl unconfirmed ↦
                ((ok tt, (tip, (process_all listener outs s).1)), rw (e, p, unconfirmed, run) refl)
            | inr (height, f) ↦
                let (low, high) =
                  next_tip_grows lnd (nodes 0) top (answers 0) listener tip height outs e f in
                let (result, rest) =
                  run_ends (λ i. nodes (i + 1)) top (λ i. answers (i + 1)) rounds (height + 1)
                    (process_all listener outs s).1 small (omega arith) (omega arith) in
                (result, run_next nodes rounds tip height s outs u e p f (omega arith) ∙ rest)
          ]
          | inr (inl (x, p)) ↦
              ((err x, (tip, (process_all listener outs s).1)), rw (e, p, run) refl)
          | inr (inr p) ↦ ((panic, (tip, (process_all listener outs s).1)), rw (e, p, run) refl)
        ]
        | inr (inl (x, e)) ↦ ((err x, (tip, s)), rw (e, run) refl)
        | inr (inr e) ↦ ((panic, (tip, s)), rw (e, run) refl)
      ]
