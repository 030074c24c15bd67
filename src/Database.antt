-- ===== src/Database.antt =====
-- app/src/database: the tables of `migrations/m0000_init.rs`. An id is a `Uuid` and a time is a number
-- of microseconds; both are only compared here. A text column that holds an address or a transaction
-- id holds the value that it is the text of.
pub mod Transactions
pub mod Sums
pub mod Migrations
pub mod Seeder
use laas_api.Base.{ℕ, Bool, Option, List, String}
use laas_api.Int.{ℤ}
use laas_api.Btc.{Address, TxId}

abbrev pub Uuid : Type 0
Uuid = ℕ

abbrev pub DateTime : Type 0
DateTime = ℕ

pub record UserRow : Type 0 where
  pub id : Uuid
  pub email : String
  pub password : String
  pub balance_msats : ℤ
  pub created : DateTime

pub record TokenRow : Type 0 where
  pub id : Uuid
  pub user_id : Uuid
  pub name : String
  pub token_hash : String
  pub can_spend : Bool
  pub can_receive : Bool
  pub can_read : Bool
  pub created : DateTime
  pub disabled : Option DateTime

pub record ReservationRow : Type 0 where
  pub id : Uuid
  pub user_id : Uuid
  pub amount_msats : ℤ
  pub status : ℕ
  pub created : DateTime

pub record TxOutRow : Type 0 where
  pub tx_id : TxId
  pub block_height : Option ℕ
  pub address : Address
  pub v_out : ℤ
  pub amount_sats : ℤ

pub record DepositAddressRow : Type 0 where
  pub user_id : Uuid
  pub token_id : Uuid
  pub address : Address
  pub created : DateTime

pub record DepositRow : Type 0 where
  pub id : Uuid
  pub user_id : Uuid
  pub tx_id : TxId
  pub v_out : ℤ
  pub address : Address
  pub created : DateTime
  pub confirmed : Option DateTime

pub record WithdrawalRow : Type 0 where
  pub id : Uuid
  pub user_id : Uuid
  pub token_id : Uuid
  pub reservation_id : Uuid
  pub address : Address
  pub fee_sats : ℤ
  pub amount_sats : ℤ
  pub tx_id : Option TxId
  pub v_out : Option ℤ
  pub created : DateTime
  pub confirmed : Option DateTime

pub record PaymentRow : Type 0 where
  pub id : Uuid
  pub user_id : Uuid
  pub token_id : Uuid
  pub reservation_id : Option Uuid
  pub amount_msats : ℤ
  pub fee_msats : Option ℤ
  pub invoice : String
  pub created : DateTime
  pub status : ℕ
  pub failure_reason : Option String
  pub failure_timestamp : Option DateTime
  pub success_timestamp : Option DateTime

pub record InvoiceRow : Type 0 where
  pub id : Uuid
  pub user_id : Uuid
  pub token_id : Uuid
  pub amount_msats : ℤ
  pub memo : Option String
  pub invoice : String
  pub created : DateTime
  pub expiration : DateTime
  pub settlement_amount : Option ℤ
  pub settlement_timestamp : Option DateTime
  pub settle_index : Option ℕ

pub record Database : Type 0 where
  pub users : List UserRow
  pub auth_tokens : List TokenRow
  pub balance_reservations : List ReservationRow
  pub tx_outs : List TxOutRow
  pub deposit_addresses : List DepositAddressRow
  pub deposits : List DepositRow
  pub withdrawals : List WithdrawalRow
  pub payments : List PaymentRow
  pub invoices : List InvoiceRow
