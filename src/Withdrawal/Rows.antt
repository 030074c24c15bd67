-- ===== src/Withdrawal/Rows.antt =====
-- app/src/withdrawal/mod.rs: the module `queries`.
use laas_api.Base.{
  ℕ, ◌==◌, Bool, false, ◌&&◌, not, is_none, Option, none, some, List, map, find, filter, upsert,
  Outcome, ok, panic,
}
use laas_api.Int.{ℤ, eqb_ℤ}
use laas_api.Btc.{TxId, TxOut}
use laas_api.Database.{Uuid, Database, WithdrawalRow, TxOutRow}
use laas_api.Deposit.Queries.{is_tx_out, tx_out_row}
use laas_api.Withdrawal.{Withdrawal}

abbrev pub is_output : Option TxId → Option ℤ → TxId → ℤ → Bool
is_output (some t) (some v) tx_id v_out = t == tx_id && eqb_ℤ v v_out
is_output none v tx_id v_out = false
is_output (some t) none tx_id v_out = false

abbrev pub is_withdrawal_of : TxId → ℤ → WithdrawalRow → Bool
is_withdrawal_of tx_id v_out row = is_output row.tx_id row.v_out tx_id v_out

abbrev pub tx_id_of : Option TxOut → Option TxId
tx_id_of none = none
tx_id_of (some t) = some t.tx.id

abbrev pub v_out_of : Option TxOut → Option ℤ
v_out_of none = none
v_out_of (some t) = some t.v_out

abbrev pub withdrawal_row : Withdrawal → WithdrawalRow
withdrawal_row w = record {
  id = w.id;
  user_id = w.user_id;
  token_id = w.token_id;
  reservation_id = w.reservation_id;
  address = w.address;
  fee_sats = w.fee;
  amount_sats = w.amount;
  tx_id = tx_id_of w.tx_out;
  v_out = v_out_of w.tx_out;
  created = w.created;
  confirmed = w.confirmed;
}

abbrev pub has_withdrawal_id : Uuid → WithdrawalRow → Bool
has_withdrawal_id id row = row.id == id

-- The rows of the outputs, with the one of the withdrawal in place if it is sent.
abbrev pub with_tx_out : Option TxOut → List TxOutRow → List TxOutRow
with_tx_out none rows = rows
with_tx_out (some t) rows = upsert (is_tx_out t.tx.id t.v_out) (tx_out_row t) rows

-- The database with both rows of the withdrawal in place.
abbrev pub with_withdrawal : Database → Withdrawal → Database
with_withdrawal db w = record db {
  tx_outs = with_tx_out w.tx_out db.tx_outs;
  withdrawals = upsert (has_withdrawal_id w.id) (withdrawal_row w) db.withdrawals;
}

-- Another withdrawal has the output.
abbrev pub is_taken : Option TxOut → Uuid → WithdrawalRow → Bool
is_taken none id row = false
is_taken (some t) id row = is_withdrawal_of t.tx.id t.v_out row && not (row.id == id)

-- `queries::upsert`: another withdrawal with the output violates the index `withdrawal_tx_id_v_out`,
-- and `unwrap` panics.
unfoldable pub upsert_withdrawal : {E : Type 0} → Database → Withdrawal → Outcome E Database
upsert_withdrawal db w = elim (find (is_taken w.tx_out w.id) db.withdrawals) [
  | none ↦ ok (with_withdrawal db w)
  | some row ↦ panic
]

abbrev pub sent_output : WithdrawalRow → Option ℕ → Option TxId → Option ℤ → Option TxOut
sent_output row height (some tx_id) (some v_out) = some (record {
  tx = record { id = tx_id; block_height = height };
  address = row.address;
  v_out = v_out;
  amount = row.amount_sats;
})
sent_output row height none v_out = none
sent_output row height (some tx_id) none = none

-- `WithdrawalRow::into_entity`, on a row with its `block_height`.
abbrev pub into_entity : WithdrawalRow → Option ℕ → Withdrawal
into_entity row height = record {
  id = row.id;
  user_id = row.user_id;
  token_id = row.token_id;
  reservation_id = row.reservation_id;
  address = row.address;
  fee = row.fee_sats;
  amount = row.amount_sats;
  tx_out = sent_output row height row.tx_id row.v_out;
  created = row.created;
  confirmed = row.confirmed;
}

-- `queries::get_by_tx_out`: the row of the withdrawal, joined with the row of the output.
unfoldable pub get_by_tx_out : Database → TxId → ℤ → Option Withdrawal
get_by_tx_out db tx_id v_out = elim (find (is_withdrawal_of tx_id v_out) db.withdrawals) [
  | none ↦ none
  | some row ↦ elim (find (is_tx_out tx_id v_out) db.tx_outs) [
    | none ↦ none
    | some out ↦ some (into_entity row out.block_height)
  ]
]

-- `queries::list_unsent`
unfoldable pub list_unsent : Database → List Withdrawal
list_unsent db =
    map (λ row. into_entity row none) (filter (λ row. is_none row.tx_id) db.withdrawals)

-- `queries::lock`: `fetch_one` wants the row.
unfoldable pub lock : {E : Type 0} → Database → Uuid → Outcome E Unit
lock db id = elim (find (has_withdrawal_id id) db.withdrawals) [ none ↦ panic | some row ↦ ok tt ]

-- `queries::get`
unfoldable pub get : Database → Uuid → Uuid → Option Withdrawal
get db id user_id = elim (find (λ row. row.id == id && row.user_id == user_id) db.withdrawals) [
  | none ↦ none
  | some row ↦ some (into_entity row none)
]
