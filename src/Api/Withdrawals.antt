-- ===== src/Api/Withdrawals.antt =====
-- api/src/routes/withdrawals.rs: the routes of the withdrawals. The parser of addresses belongs to the
-- bitcoin crate.
use laas_api.Base.{
  ℕ, Bool, Option, none, some, List, map, String, Outcome, ok, panic, ◌>>=◌, map_err,
}
use laas_api.Int.{ℤ}
use laas_api.Btc.{Address, TxId, TxOut}
use laas_api.Database.{Uuid, DateTime, Database}
use laas_api.Database.Transactions.{Surroundings}
use laas_api.Auth.{SpendGrant, ReadGrant}
use laas_api.Ln.{Lnd}
use laas_api.Withdrawal.{Withdrawal, is_confirmed}
use laas_api.Withdrawal
use laas_api.Withdrawal.Service.{start, get as get_withdrawal}
use laas_api.Lists.{list_withdrawals}
use laas_api.Api.Errors.{JsonError, bad_request, concurrency_error}
use laas_api.Api.Range.{Range, RangeError, query_range}
use laas_api.Api.Invoices.{map_option}

pub record WithdrawalRequest : Type 0 where
  pub address : String
  pub amount_sats : ℤ

pub record WithdrawalModel : Type 0 where
  pub id : Uuid
  pub address : Address
  pub fee_sats : ℤ
  pub amount_sats : ℤ
  pub created_at : DateTime
  pub txid : Option TxId
  pub confirmed_at : Option DateTime
  pub is_confirmed : Bool

abbrev pub tx_id_of : TxOut → TxId
tx_id_of tx_out = tx_out.tx.id

-- `WithdrawalModel::from_entity`
abbrev pub withdrawal_model : Withdrawal → WithdrawalModel
withdrawal_model w = record {
  id = w.id;
  address = w.address;
  fee_sats = w.fee;
  amount_sats = w.amount;
  created_at = w.created;
  txid = map_option tx_id_of w.tx_out;
  confirmed_at = w.confirmed;
  is_confirmed = is_confirmed w;
}

pub data Error : Type 0 where
  unknown insufficient_balance amount_not_positive : Error

-- What `post` makes of an error.
unfoldable pub withdrawal_error_of : Withdrawal.Error → JsonError Error
unfolding bad_request
withdrawal_error_of (Withdrawal.insufficient_balance e) =
    bad_request insufficient_balance "insufficient balance"
withdrawal_error_of (Withdrawal.concurrency_conflict c) = concurrency_error unknown
withdrawal_error_of Withdrawal.amount_not_positive =
    bad_request amount_not_positive "amount must be positive"

abbrev pub withdrawal_response :
    Outcome Withdrawal.Error Withdrawal → Outcome (JsonError Error) WithdrawalModel
withdrawal_response started = do w ← map_err withdrawal_error_of started; ok (withdrawal_model w)

module _ (lnd : Lnd) where
  -- `post`: an address that is not one is unwrapped.
  unfoldable pub post_withdrawal :
      (String → Option Address)
      → (ℕ → Uuid)
      → (ℕ → Surroundings)
      → SpendGrant
      → WithdrawalRequest
      → lnd.State
      → Database
      → Outcome (JsonError Error) WithdrawalModel × (lnd.State × Database)
  post_withdrawal parse_address reservation_id env grant req node db =
      elim (parse_address req.address) [
        | some address ↦
            let (started, s) = start lnd reservation_id env grant address req.amount_sats node db in
            (withdrawal_response started, s)
        | none ↦ (panic, (node, db))
      ]

-- `list`
unfoldable pub list_withdrawal_models :
    ReadGrant → Database → Range → Outcome (JsonError RangeError) (List WithdrawalModel)
list_withdrawal_models grant db range = do
  q ← query_range range
  withdrawals ← list_withdrawals grant db q
  ok (map withdrawal_model withdrawals)

-- `get`
unfoldable pub get_withdrawal_model :
    (String → Option Uuid) → ReadGrant → Database → String → Option WithdrawalModel
get_withdrawal_model parse_uuid grant db withdrawal_id = elim (parse_uuid withdrawal_id) [
  | none ↦ none
  | some id ↦ map_option withdrawal_model (get_withdrawal grant db id)
]
