-- ===== src/Deposit/Queries.antt =====
-- app/src/deposit/mod.rs: the module `queries`.
use laas_api.Base.{
  Bool, ◌&&◌, not, ◌==◌, Option, some, none, ◌∷◌, find, upsert, Outcome, ok, err, panic,
}
use laas_api.Int.{ℤ, eqb_ℤ}
use laas_api.Btc.{TxId, TxOut}
use laas_api.Btc
use laas_api.Concurrency.{ConflictError, conflict}
use laas_api.Database.{Uuid, Database, TxOutRow, DepositAddressRow, DepositRow}
use laas_api.Deposit.{Address, Deposit}

abbrev pub address_row : Address → DepositAddressRow
address_row a = record {
  user_id = a.user_id;
  token_id = a.token_id;
  address = a.address;
  created = a.created;
}

-- `queries::insert_address`: the address is the primary key, and `unwrap` panics on a second row.
unfoldable pub insert_address : {E : Type 0} → Database → Address → Outcome E Database
insert_address db a = elim (find (λ row. row.address == a.address) db.deposit_addresses) [
  | none ↦ ok (record db { deposit_addresses = address_row a ∷ db.deposit_addresses })
  | some row ↦ panic
]

-- `DepositAddressRow::into_entity`
abbrev pub address_entity : DepositAddressRow → Address
address_entity row = record {
  user_id = row.user_id;
  token_id = row.token_id;
  address = row.address;
  created = row.created;
}

abbrev pub address_entity? : Option DepositAddressRow → Option Address
address_entity? none = none
address_entity? (some row) = some (address_entity row)

-- `queries::get_address`
unfoldable pub get_address : Database → Btc.Address → Option Address
get_address db address = address_entity? (find (λ row. row.address == address) db.deposit_addresses)

-- `queries::get_address_for_user`
unfoldable pub get_address_for_user : Database → Btc.Address → Uuid → Option Address
get_address_for_user db address user_id =
    address_entity?
      (find (λ row. row.address == address && row.user_id == user_id) db.deposit_addresses)

abbrev pub is_tx_out : TxId → ℤ → TxOutRow → Bool
is_tx_out tx_id v_out row = row.tx_id == tx_id && eqb_ℤ row.v_out v_out

abbrev pub is_deposit_of : TxId → ℤ → DepositRow → Bool
is_deposit_of tx_id v_out row = row.tx_id == tx_id && eqb_ℤ row.v_out v_out

abbrev pub tx_out_row : TxOut → TxOutRow
tx_out_row t = record {
  tx_id = t.tx.id;
  block_height = t.tx.block_height;
  address = t.address;
  v_out = t.v_out;
  amount_sats = t.amount;
}

abbrev pub deposit_row : Deposit → DepositRow
deposit_row d = record {
  id = d.id;
  user_id = d.user_id;
  tx_id = d.tx_out.tx.id;
  v_out = d.tx_out.v_out;
  address = d.tx_out.address;
  created = d.created;
  confirmed = d.confirmed;
}

abbrev pub has_deposit_id : Uuid → DepositRow → Bool
has_deposit_id id row = row.id == id

-- The database with both rows of the deposit in place.
abbrev pub with_deposit : Database → Deposit → Database
with_deposit db d = record db {
  tx_outs = upsert (is_tx_out d.tx_out.tx.id d.tx_out.v_out) (tx_out_row d.tx_out) db.tx_outs;
  deposits = upsert (has_deposit_id d.id) (deposit_row d) db.deposits;
}

-- `queries::upsert`: another deposit of the same output violates the index `deposit_tx_id_v_out`.
unfoldable pub upsert_deposit : Database → Deposit → Outcome ConflictError Database
upsert_deposit db d =
    elim (find (λ row. is_deposit_of d.tx_out.tx.id d.tx_out.v_out row && not (row.id == d.id))
      db.deposits) [ none ↦ ok (with_deposit db d) | some row ↦ err conflict ]

-- `DepositRow::into_entity`, on a row of the join of the two tables.
abbrev pub deposit_entity : DepositRow → TxOutRow → Deposit
deposit_entity row out = record {
  id = row.id;
  user_id = row.user_id;
  tx_out = record {
    tx = record { id = row.tx_id; block_height = out.block_height };
    address = out.address;
    v_out = row.v_out;
    amount = out.amount_sats;
  };
  created = row.created;
  confirmed = row.confirmed;
}

-- `JOIN tx_outs` on both columns, for one row of `deposits`.
abbrev pub join : Database → DepositRow → Option Deposit
join db row = elim (find (is_tx_out row.tx_id row.v_out) db.tx_outs) [
  | none ↦ none
  | some out ↦ some (deposit_entity row out)
]

abbrev pub join? : Database → Option DepositRow → Option Deposit
join? db none = none
join? db (some row) = join db row

-- `queries::get`
unfoldable pub get : Database → TxId → ℤ → Option Deposit
get db tx_id v_out = join? db (find (is_deposit_of tx_id v_out) db.deposits)

-- `queries::get_for_user`
unfoldable pub get_for_user : Database → Uuid → Uuid → Option Deposit
get_for_user db id user_id =
    join? db (find (λ row. row.id == id && row.user_id == user_id) db.deposits)
