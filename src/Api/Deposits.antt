-- ===== src/Api/Deposits.antt =====
-- api/src/routes/deposits.rs: the routes of the deposits and of their addresses.
use laas_api.Base.{Bool, Option, none, some, List, map, String, Outcome, ok, err, panic, ◌>>=◌}
use laas_api.Int.{ℤ}
use laas_api.Btc.{TxId}
use laas_api.Btc
use laas_api.Database.{Uuid, DateTime, Database}
use laas_api.Auth.{ReceiveGrant, ReadGrant}
use laas_api.Ln.{Lnd}
use laas_api.Deposit.{Address, Deposit, is_confirmed}
use laas_api.Deposit.Addresses.{create_address, get as get_deposit, get_address}
use laas_api.Lists.{get_addresses, list_deposits}
use laas_api.Api.Errors.{JsonError}
use laas_api.Api.Range.{Range, RangeError, query_range}
use laas_api.Api.Invoices.{map_option}

pub record AddressModel : Type 0 where
  pub address : Btc.Address
  pub created_at : DateTime

abbrev pub address_model : Address → AddressModel
address_model a = record { address = a.address; created_at = a.created }

pub record DepositModel : Type 0 where
  pub id : Uuid
  pub address : Btc.Address
  pub txid : TxId
  pub amount_sats : ℤ
  pub is_confirmed : Bool
  pub created_at : DateTime
  pub confirmed_at : Option DateTime

-- `DepositModel::from_entity`
abbrev pub deposit_model : Deposit → DepositModel
deposit_model d = record {
  id = d.id;
  address = d.tx_out.address;
  txid = d.tx_out.tx.id;
  amount_sats = d.tx_out.amount;
  is_confirmed = is_confirmed d;
  created_at = d.created;
  confirmed_at = d.confirmed;
}

module _ (lnd : Lnd) where
  abbrev pub address_response :
      {E : Type 0}
      → Database
      → Outcome E (Address × Database) × lnd.State
      → Outcome E AddressModel × lnd.State × Database
  address_response db (ok (a, db'), node) = (ok (address_model a), node, db')
  address_response db (err e, node) = (err e, node, db)
  address_response db (panic, node) = (panic, node, db)

  -- `post_address`
  unfoldable pub post_address :
      {E : Type 0}
      → ReceiveGrant
      → DateTime
      → lnd.State
      → Database
      → Outcome E AddressModel × lnd.State × Database
  post_address grant now node db = address_response db (create_address lnd grant now node db)

-- `list_addresses`
unfoldable pub list_addresses :
    ReadGrant → Database → Range → Outcome (JsonError RangeError) (List AddressModel)
list_addresses grant db range = do
  q ← query_range range
  addresses ← get_addresses grant db q
  ok (map address_model addresses)

-- `get_address`: a text that is no address is answered like one that is not there.
unfoldable pub get_address_model :
    (String → Option Btc.Address) → ReadGrant → Database → String → Option AddressModel
get_address_model parse_address grant db text = elim (parse_address text) [
  | none ↦ none
  | some address ↦ map_option address_model (get_address grant db address)
]

-- `list_deposits`
unfoldable pub list_deposit_models :
    ReadGrant → Database → Range → Outcome (JsonError RangeError) (List DepositModel)
list_deposit_models grant db range = do
  q ← query_range range
  deposits ← list_deposits grant db q
  ok (map deposit_model deposits)

-- `get_deposit`
unfoldable pub get_deposit_model :
    (String → Option Uuid) → ReadGrant → Database → String → Option DepositModel
get_deposit_model parse_uuid grant db deposit_id = elim (parse_uuid deposit_id) [
  | none ↦ none
  | some id ↦ map_option deposit_model (get_deposit grant db id)
]
