-- ===== src/Ln/Search.antt =====
-- app/src/ln/node.rs: what `get_tx` does not find.
use laas_api.Base.{
  ℕ, suc, ◌+◌, ◌-◌, ◌^◌, ◌<◌, ◌≡◌, refl, none, some, [], ◌∷◌, String, ok, arith, List, All, false,
}
use laas_api.Int.{pos, negsuc}
use laas_api.Btc.{Address, Sats}
use laas_api.Ln.{Lnd, Transaction}
use laas_api.Ln.Transactions.{
  get_tx, get_tx_months, get_tx_outs_start_end, to_i32, tx_outs_of, has_label,
}

-- No transaction has the label.
abbrev pub Lacks : String → List Transaction → Type 0
Lacks label ts = All (λ t. has_label (some label) t ≡ false) ts

tx_outs_of-Lacks :
    (label : String) (ts : List Transaction) → Lacks label ts → tx_outs_of (some label) ts ≡ []
tx_outs_of-Lacks label [] h = refl
tx_outs_of-Lacks label (t ∷ ts) h = rw h.0 (tx_outs_of-Lacks label ts h.1)

module _ (lnd : Lnd) {E : Type 0} (first_block : ℕ) (address : Address) (amount : Sats)
    (label : String) (node : lnd.State) (month unconfirmed : List Transaction) where
  months_stop :
      (rounds : ℕ)
      → first_block + 4320 < 2 ^ 31
      → lnd.get_transactions (pos first_block) (pos (first_block + 4320)) node ≡ some month
      → Lacks label month
      → get_tx_months lnd {E = E} (suc rounds) first_block address amount label node ≡ ok none
  unfolding get_tx_months get_tx_outs_start_end
  months_stop rounds small shown lacks =
      let from : to_i32 lnd {E = E} first_block ≡ ok (pos first_block) = ground arith in
      let to : to_i32 lnd {E = E} (first_block + 4320) ≡ ok (pos (first_block + 4320)) =
        ground arith in
      rw (from, to, shown, tx_outs_of-Lacks label month lacks, get_tx_months) refl

  -- `get_tx` answers that there is no transaction with a label, whatever transactions with this label
  -- the later months hold, if the first month after the first block has none and there is none that is
  -- unconfirmed. The month ends within the heights of `i32`.
  pub get_tx_misses :
      first_block + 4320 < 2 ^ 31
      → lnd.get_transactions (pos first_block) (pos (first_block + 4320)) node ≡ some month
      → Lacks label month
      → lnd.get_transactions (pos (2 ^ 31 - 1)) (negsuc 0) node ≡ some unconfirmed
      → Lacks label unconfirmed
      → get_tx lnd {E = E} first_block address amount label node ≡ ok none
  unfolding get_tx get_tx_outs_start_end
  get_tx_misses small shown lacks shown' lacks' =
      rw
        (
          months_stop 499999 small shown lacks,
          shown',
          tx_outs_of-Lacks label unconfirmed lacks',
          get_tx,
        )
        refl
