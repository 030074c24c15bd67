-- ===== src/Tests/Chains.antt =====
-- The chain listener.
use laas_api.Base.{
  ℕ, zero, suc, ◌≡◌, ◌<◌, ◌≤◌, leb, String, some, Option, none, List, [], ◌∷◌, Never, Outcome, ok,
  panic, false, Bool-cases, inl, inr, arith, Bool, true, ◌&&◌, if◌then◌else◌, All, ◌⊎◌, subst, refl,
}
use laas_api.Int.{ℤ, pos, negsuc}
use mathlib.Core.List.{Memᴰ}
use laas_api.Btc.{TxOut}
use laas_api.Database.{Database}
use laas_api.Ln.Transactions.{tx_outs_of, get_tx_outs, get_tx_outs_start_end, get_highest_block}
use laas_api.Ln
use laas_api.Ln.{Lnd, Transaction, failure_reason_none}
use laas_api.Chain.{TxListener, run, listen, process_all, get_chain_tip}
use laas_api.Worker.{start, swallow_panic}
use laas_api.Chain.Termination.{Answers, run_ends}
use laas_api.Chain.Handlers.{Handler}
use laas_api.Chain.Turns.{IsUpTo, IsBelow, Shows, Follows}
use laas_api.Chain.Delivery.{listen_handles}
use laas_api.Tests.Data.{node_with, answer, db}

abbrev pub transaction : Transaction
transaction = record {
  tx_hash = 9;
  block_height = 100;
  label = "";
  output_details = record { address = some 70; output_index = pos 0; amount = pos 3 } ∷ [];
}

-- A chain with one transaction, in the block 100.
abbrev pub has_block : ℕ → ℤ → Bool
has_block start (pos end) = leb start 100 && leb 100 end
has_block start (negsuc n) = leb start 100

abbrev pub blocks : ℤ → ℤ → Option (List Transaction)
blocks (pos start) end = if has_block start end then some (transaction ∷ []) else some []
blocks (negsuc n) end = some []

-- The block is mined once the state of the node is empty.
abbrev pub blocks_at : List String → ℤ → ℤ → Option (List Transaction)
blocks_at [] start end = blocks start end
blocks_at (x ∷ xs) start end = some []

abbrev pub lnd : Lnd
lnd = record (node_with (answer Ln.PaymentStatus.succeeded failure_reason_none)) {
  get_transactions = λ from to state. blocks_at state from to;
}

-- The block is mined after the first run of a worker.
abbrev pub growing : ℕ → ℕ → List String
growing zero i = "early" ∷ []
growing (suc n) i = []

has_block-≤ : (start : ℕ) (end : ℤ) → has_block start end ≡ true → start ≤ 100
has_block-≤ start (pos end) h = ground arith
has_block-≤ start (negsuc n) h = ground arith

answers : Answers lnd [] 100
answers start end ts h = elim (Bool-cases (has_block start end)) [
  | inl within ↦
      let same : transaction ∷ [] ≡ ts = ground arith in
      subst (All (λ t. (t.block_height ≡ 0) ⊎ ((start ≤ t.block_height) × (t.block_height ≤ 100))))
        same (inr (has_block-≤ start end within, ground arith), tt)
  | inr outside ↦
      let same : [] ≡ ts = ground arith in
      subst (All (λ t. (t.block_height ≡ 0) ⊎ ((start ≤ t.block_height) × (t.block_height ≤ 100))))
        same tt
]

-- A listener that keeps the outputs.
abbrev keeps : TxListener (List TxOut)
keeps t seen = (ok tt, t ∷ seen)

run_ends_example :
    (result : Outcome Never Unit × (ℕ × List TxOut)) × (run keeps lnd (λ i. []) 12 90 []
      ≡ some result)
run_ends_example =
    run_ends lnd keeps (λ i. []) 100 (λ i. answers) 12 90 [] (ground arith) (ground arith)
      (ground arith)

-- The output of the transaction.
abbrev pub output : TxOut
output = record {
  tx = record { id = 9; block_height = some 100 };
  address = 70;
  v_out = pos 0;
  amount = pos 3;
}

shown_to : (start : ℕ) (end : ℤ) → start ≤ 100 → IsUpTo 100 end → has_block start end ≡ true
shown_to start (pos end) low high = ground arith
shown_to start (negsuc n) low high = ground arith

output-shown :
    (start : ℕ) (end : ℤ) (ts : List Transaction)
    → blocks (pos start) end ≡ some ts
    → start ≤ 100
    → IsUpTo 100 end
    → Memᴰ output (tx_outs_of none ts)
output-shown start end ts h low high =
    let inside = shown_to start end low high in
    let same : transaction ∷ [] ≡ ts = ground arith in
    subst (λ ts. Memᴰ output (tx_outs_of none ts)) same (Memᴰ.head refl)

blocks-capped :
    (start end : ℕ) (ts : List Transaction)
    → blocks (pos start) (pos end) ≡ some ts
    → All (λ t. (t.block_height ≡ 0) ⊎ ((0 ≤ t.block_height) × (t.block_height ≤ end))) ts
blocks-capped start end ts h = elim (Bool-cases (leb start 100 && leb 100 end)) [
  | inl within ↦
      let same : transaction ∷ [] ≡ ts = ground arith in
      subst (All (λ t. (t.block_height ≡ 0) ⊎ ((0 ≤ t.block_height) × (t.block_height ≤ end)))) same
        (inr (ground arith, ground arith), tt)
  | inr outside ↦
      let same : [] ≡ ts = ground arith in
      subst (All (λ t. (t.block_height ≡ 0) ⊎ ((0 ≤ t.block_height) × (t.block_height ≤ end)))) same
        tt
]

output-Shows : Shows lnd output 100 []
output-Shows = record { shown = output-shown; capped = blocks-capped }

early : IsBelow lnd 100 ("early" ∷ [])
early = (
  99,
  ground arith,
  λ start end ts h.
      let same : [] ≡ ts = ground arith in
      subst (All (λ t. (t.block_height ≡ 0) ⊎ ((start ≤ t.block_height) × (t.block_height ≤ 99))))
        same tt,
)

pub growing-IsBelow : (n i : ℕ) → n < 1 → IsBelow lnd 100 (growing n i)
growing-IsBelow zero i less = early
growing-IsBelow (suc n) i less = absurd (omega arith)

pub growing-Follows : (n i : ℕ) → Follows lnd output 100 (growing n i)
growing-Follows zero i = inl early
growing-Follows (suc n) i = inr output-Shows

-- A listener with a store, that panics once and then keeps the outputs.
abbrev Kept : Type 0
Kept = Database × (Bool × List TxOut)

abbrev panics_once : TxListener Kept
panics_once t (db, (false, seen)) = (panic, (db, (true, seen)))
panics_once t (db, (true, seen)) = (ok tt, (db, (true, t ∷ seen)))

abbrev IsKept : Kept → Type 0
IsKept (_, (_, seen)) = Memᴰ output seen

panics_once-handles :
    (s : Kept) (u : Unit {0})
    → Unit {0}
    → (panics_once output s).0 ≡ ok u
    → IsKept (panics_once output s).1
panics_once-handles (db, (false, seen)) u f h = absurd (ground arith)
panics_once-handles (db, (true, seen)) u f h = Memᴰ.head refl

panics_once-keeps : (x : TxOut) (s : Kept) → Unit {0} → IsKept s → IsKept (panics_once x s).1
panics_once-keeps x (_, (false, _)) f m = m
panics_once-keeps x (_, (true, _)) f m = Memᴰ.tail m

panics_once-Handler : Handler panics_once output (λ s. Unit {0}) IsKept
panics_once-Handler = record {
  fit = λ x s f. tt;
  handles = panics_once-handles;
  keeps = panics_once-keeps;
}

-- The first run finds nothing, the second panics, the third goes from the block 90 on past the block 100.
listen_handles_example : IsKept (db, (true, output ∷ []))
unfolding get_chain_tip listen run process_all get_tx_outs get_tx_outs_start_end get_highest_block
    start swallow_panic
listen_handles_example =
    listen_handles panics_once lnd growing (λ n s. s) 12 100 1 growing-IsBelow (λ s. Unit {0})
      (λ x s f. tt) (λ n s f. tt) output (λ s. Unit {0}) IsKept panics_once-Handler growing-Follows
      (λ n s f. (tt, λ m. m)) (λ s. s.0) 90 3 (db, (false, [])) 90 101 (db, (true, output ∷ [])) tt
      (λ tip s sound e. tt) refl (ground arith) refl (ground arith)
