-- ===== src/Btc.antt =====
-- app/src/btc.rs: transactions and amounts. `Address` and `TxId` belong to the bitcoin crate and are
-- only compared, so they are numbers here; an amount is an `i64`.
use laas_api.Base.{ℕ, Bool, Option, is_some, ◌+◌, ◌/◌, zero, suc}
use laas_api.Int.{ℤ, pos, negsuc, add_i64, sub_i64, thousand_i64}

abbrev pub Address : Type 0
Address = ℕ

abbrev pub TxId : Type 0
TxId = ℕ

abbrev pub MilliSats : Type 0
MilliSats = ℤ

abbrev pub Sats : Type 0
Sats = ℤ

pub record Tx : Type 0 where
  pub id : TxId
  pub block_height : Option ℕ

pub record TxOut : Type 0 where
  pub tx : Tx
  pub address : Address
  pub v_out : ℤ
  pub amount : Sats

-- `Tx::is_confirmed`
unfoldable pub tx_is_confirmed : Tx → Bool
tx_is_confirmed tx = is_some tx.block_height

negate : ℕ → ℤ
negate zero = pos 0
negate (suc k) = negsuc k

-- `MilliSats::sats_floor`: the division of `i64` rounds towards zero.
unfoldable pub sats_floor : MilliSats → Sats
unfolding negate
sats_floor (pos n) = pos (n / 1000)
sats_floor (negsuc n) = negate ((n + 1) / 1000)

-- `MilliSats::add` and `add_assign`
unfoldable pub add : MilliSats → MilliSats → MilliSats
add a b = add_i64 a b

-- `MilliSats::sub` and `sub_assign`
unfoldable pub sub : MilliSats → MilliSats → MilliSats
sub a b = sub_i64 a b

-- `Sats::msats`
unfoldable pub msats : Sats → MilliSats
msats a = thousand_i64 a
