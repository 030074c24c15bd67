-- ===== src/Deposit/Addresses.antt =====
-- app/src/deposit/mod.rs: the calls of the routes but the lists, with `Node::generate_address` of
-- app/src/ln/node.rs.
use laas_api.Base.{Option, Outcome, ok, ◌>>=◌, unwrap}
use laas_api.Btc
use laas_api.Database.{Uuid, DateTime, Database}
use laas_api.Auth.{ReceiveGrant, ReadGrant}
use laas_api.Ln.{Lnd}
use laas_api.Deposit.{Address, Deposit, generate}
use laas_api.Deposit.Queries.{insert_address, get_address_for_user, get_for_user}

module _ (lnd : Lnd) where
  -- `Node::generate_address`: an error of the call, or an answer that is no address, panics.
  unfoldable pub generate_address : {E : Type 0} → lnd.State → Outcome E Btc.Address × lnd.State
  generate_address node = let (address, node') = lnd.new_address node in (unwrap address, node')

  abbrev pub store_address :
      {E : Type 0}
      → ReceiveGrant
      → DateTime
      → Database
      → Outcome E Btc.Address
      → Outcome E (Address × Database)
  store_address grant now db generated = do
    address ← generated
    db' ← insert_address db (generate grant address now)
    ok (generate grant address now, db')

  -- `deposit::create_address`
  unfoldable pub create_address :
      {E : Type 0}
      → ReceiveGrant
      → DateTime
      → lnd.State
      → Database
      → Outcome E (Address × Database) × lnd.State
  unfolding generate_address
  create_address grant now node db =
      let (generated, node') = generate_address node in
      (store_address grant now db generated, node')

-- `deposit::get_address`
unfoldable pub get_address : ReadGrant → Database → Btc.Address → Option Address
get_address grant db address = get_address_for_user db address grant.user_id

-- `deposit::get`
unfoldable pub get : ReadGrant → Database → Uuid → Option Deposit
get grant db id = get_for_user db id grant.user_id
