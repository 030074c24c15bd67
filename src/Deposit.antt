-- ===== src/Deposit.antt =====
-- app/src/deposit/entities.rs; the queries and the listener of `mod.rs` are in `Deposit/`.
pub mod Queries
pub mod Addresses
pub mod RoundTrip
pub mod Credits
pub mod Delivery
pub mod Listener
pub mod Worker
use laas_api.Base.{
  Bool, not, Option, some, none, is_some, ◌==◌, Outcome, ok, panic, ◌>>=◌, ◌>>◌, panic_if,
}
use laas_api.Database.{Uuid, DateTime}
use laas_api.Btc.{TxOut, msats}
use laas_api.Btc
use laas_api.Balance.{Balance, credit}
use laas_api.Auth.{ReceiveGrant}

pub record Address : Type 0 where
  pub user_id : Uuid
  pub token_id : Uuid
  pub address : Btc.Address
  pub created : DateTime

pub record Deposit : Type 0 where
  pub id : Uuid
  pub user_id : Uuid
  pub tx_out : TxOut
  pub created : DateTime
  pub confirmed : Option DateTime

-- `Address::generate`, on the address that the node generates.
unfoldable pub generate : ReceiveGrant → Btc.Address → DateTime → Address
generate grant address now = record {
  user_id = grant.user_id;
  token_id = grant.token_id;
  address = address;
  created = now;
}

-- `Address::start_deposit`
unfoldable pub start_deposit : Uuid → DateTime → Address → TxOut → Deposit
start_deposit id now a tx_out = record {
  id = id;
  user_id = a.user_id;
  tx_out = tx_out;
  created = now;
  confirmed = none;
}

-- `Deposit::is_confirmed`
unfoldable pub is_confirmed : Deposit → Bool
is_confirmed d = is_some d.confirmed

-- `Deposit::confirm`
unfoldable pub confirm :
    {E : Type 0} → DateTime → Deposit → TxOut → Balance → Outcome E (Deposit × Balance)
unfolding is_confirmed credit msats
confirm now d tx_out balance = do
  panic_if (is_confirmed d)
  panic_if (not (tx_out.tx.id == d.tx_out.tx.id))
  panic_if (not (d.user_id == balance.user_id))
  ok (record d { tx_out = tx_out; confirmed = some now }, credit balance (msats tx_out.amount))
