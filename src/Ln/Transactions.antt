-- ===== src/Ln/Transactions.antt =====
-- app/src/ln/node.rs: the transactions of the node's wallet.
use text.Mathlib.Text.{◌==◌ as str_eq}
use laas_api.Base.{
  ℕ, zero, suc, ◌+◌, ◌-◌, ◌^◌, ◌%◌, ltb, ◌==◌, Bool, true, ◌&&◌, Option, none, some, unwrap_or,
  List, [], ◌∷◌, ◌++◌, find, String, Outcome, ok, panic, ◌>>=◌, unwrap, if◌then◌else◌,
}
use laas_api.Int.{ℤ, pos, negsuc, eqb_ℤ}
use laas_api.Btc.{Address, Tx, TxOut, Sats}
use laas_api.Ln.{Transaction, OutputDetail, TransactionsQuery, Lnd}

-- The outputs that pay to an address.
abbrev pub outputs : Tx → List OutputDetail → List TxOut
outputs tx [] = []
outputs tx (o ∷ os) = elim o.address [
  | none ↦ outputs tx os
  | some address ↦
      record { tx = tx; address = address; v_out = o.output_index; amount = o.amount }
      ∷ outputs tx os
]

abbrev pub tx_of : Transaction → Tx
tx_of t = record {
  id = t.tx_hash;
  block_height = if t.block_height == 0 then none else some t.block_height;
}

-- The outputs of the transactions, of those with the label only, if there is one.
abbrev pub has_label : Option String → Transaction → Bool
has_label none t = true
has_label (some label) t = str_eq t.label label

abbrev pub tx_outs_of : Option String → List Transaction → List TxOut
tx_outs_of label [] = []
tx_outs_of label (t ∷ ts) =
    if has_label label t
    then outputs (tx_of t) t.output_details ++ tx_outs_of label ts
    else tx_outs_of label ts

-- `Node::get_highest_block`
abbrev pub max_height : Option ℕ → Option ℕ → Option ℕ
max_height none b = b
max_height (some a) none = some a
max_height (some a) (some b) = if ltb a b then some b else some a

unfoldable pub get_highest_block : List TxOut → Option ℕ
get_highest_block [] = none
get_highest_block (t ∷ ts) = max_height t.tx.block_height (get_highest_block ts)

module _ (lnd : Lnd) where
  -- `Node::get_tx_outs_start_end`
  unfoldable pub get_tx_outs_start_end :
      {E : Type 0} → ℤ → ℤ → Option String → lnd.State → Outcome E (List TxOut)
  get_tx_outs_start_end start_height end_height label node = do
    transactions ← unwrap (lnd.get_transactions start_height end_height node)
    ok (tx_outs_of label transactions)

  -- `try_into` from `u32` to `i32`
  abbrev pub to_i32 : {E : Type 0} → ℕ → Outcome E ℤ
  to_i32 n = if ltb n (2 ^ 31) then ok (pos n) else panic

  -- `Node::get_tx_outs`; the sums on `u32` wrap around.
  unfoldable pub get_tx_outs : {E : Type 0} → TransactionsQuery → lnd.State → Outcome E (List TxOut)
  get_tx_outs query node = do
    let end_height = (query.start_height + query.num_blocks + 2 ^ 32 - 1) % 2 ^ 32
    start ← to_i32 query.start_height
    end ← to_i32 end_height
    confirmed ← get_tx_outs_start_end start end none node
    if ltb (unwrap_or (get_highest_block confirmed) 0) end_height
        then get_tx_outs_start_end start (negsuc 0) none node
        else ok confirmed

  abbrev pub pays : Address → Sats → TxOut → Bool
  pays address amount t = t.address == address && eqb_ℤ t.amount amount

  abbrev pub num_blocks_one_month : ℕ
  num_blocks_one_month = 4320

  -- The loop of `Node::get_tx` over the months from `start` on: the result that ends the search, or
  -- `none` when the loop breaks. A range that never breaks would run into the end of `u32`, where
  -- `try_into` panics, within the `rounds` given.
  unfoldable pub get_tx_months :
      {E : Type 0} → ℕ → ℕ → Address → Sats → String → lnd.State → Outcome E (Option TxOut)
  get_tx_months zero start address amount label node = panic
  get_tx_months (suc rounds) start address amount label node =
      let rest = get_tx_months rounds (start + 4320) address amount label node in
      do
        from ← to_i32 start
        to ← to_i32 (start + 4320)
        tx_outs ← get_tx_outs_start_end from to (some label) node
        elim tx_outs [
          | [] ↦ ok none
          | t ∷ ts ↦ elim (find (pays address amount) (t ∷ ts)) [
            | some found ↦ ok (some found)
            | none ↦ rest
          ]
        ]

  -- More than the months in `i32`.
  abbrev pub all_months : ℕ
  all_months = 500_000

  -- `Node::get_tx`
  unfoldable pub get_tx :
      {E : Type 0} → ℕ → Address → Sats → String → lnd.State → Outcome E (Option TxOut)
  get_tx first_block address amount label node = do
    confirmed ← get_tx_months all_months first_block address amount label node
    elim confirmed [
      | some found ↦ ok (some found)
      | none ↦ do
        tx_outs ← get_tx_outs_start_end (pos (2 ^ 31 - 1)) (negsuc 0) (some label) node
        ok (find (pays address amount) tx_outs)
    ]

  -- `Node::send_onchain`
  unfoldable pub send_onchain :
      {E : Type 0} → Address → Sats → String → lnd.State → Outcome E TxOut × lnd.State
  send_onchain address amount label node =
      let (sent, node') = lnd.send_coins address amount label node in
      (
        do
          tx_id ← unwrap sent
          tx_outs ← get_tx_outs_start_end (pos (2 ^ 31 - 1)) (negsuc 0) none node'
          unwrap (find (λ t. t.tx.id == tx_id && t.address == address) tx_outs),
        node',
      )
