-- ===== src/Payment/Rows.antt =====
-- app/src/payment/mod.rs: the module `queries`.
use laas_api.Base.{
  ℕ, zero, suc, ◌==◌, Bool, ◌&&◌, Option, none, some, map, find, filter, upsert, String, Outcome,
  ok, panic, ◌>>=◌, unwrap,
}
use laas_api.Btc.{MilliSats}
use laas_api.Database.{Uuid, DateTime, Database, PaymentRow}
use laas_api.Database.Sums.{daily_sum}
use laas_api.Payment.{Payment, Status, new, ready, failed, succeeded}

-- `status_to_i32`
unfoldable pub status_to_i32 : Status → ℕ
status_to_i32 new = 0
status_to_i32 ready = 0
status_to_i32 (succeeded t) = 2
status_to_i32 (failed r t) = 3

abbrev pub failure_reason : Status → Option String
failure_reason (failed r t) = some r
failure_reason new = none
failure_reason ready = none
failure_reason (succeeded t) = none

abbrev pub failure_timestamp : Status → Option DateTime
failure_timestamp (failed r t) = some t
failure_timestamp new = none
failure_timestamp ready = none
failure_timestamp (succeeded t) = none

abbrev pub success_timestamp : Status → Option DateTime
success_timestamp (succeeded t) = some t
success_timestamp new = none
success_timestamp ready = none
success_timestamp (failed r t) = none

unfoldable pub payment_row : Payment → PaymentRow
unfolding status_to_i32
payment_row p = record {
  id = p.id;
  user_id = p.user_id;
  token_id = p.token_id;
  reservation_id = p.reservation_id;
  amount_msats = p.amount;
  fee_msats = p.fee;
  invoice = p.invoice;
  created = p.created;
  status = status_to_i32 p.status;
  failure_reason = failure_reason p.status;
  failure_timestamp = failure_timestamp p.status;
  success_timestamp = success_timestamp p.status;
}

abbrev pub has_payment_id : Uuid → PaymentRow → Bool
has_payment_id id row = row.id == id

-- `queries::upsert`
unfoldable pub upsert_payment : Database → Payment → Database
unfolding payment_row
upsert_payment db p = record db {
  payments = upsert (has_payment_id p.id) (payment_row p) db.payments;
}

-- `PaymentRow::status`
unfoldable pub status_of_row : {E : Type 0} → ℕ → PaymentRow → Outcome E Status
status_of_row zero row = ok new
status_of_row (suc zero) row = ok ready
status_of_row (suc (suc zero)) row = do t ← unwrap row.success_timestamp; ok (succeeded t)
status_of_row (suc (suc (suc zero))) row = do
  r ← unwrap row.failure_reason
  t ← unwrap row.failure_timestamp
  ok (failed r t)
status_of_row (suc (suc (suc (suc n)))) row = panic

-- `PaymentRow::into_entity`
unfoldable pub into_entity : {E : Type 0} → PaymentRow → Outcome E Payment
unfolding status_of_row
into_entity row = do
  status ← status_of_row row.status row
  ok (record {
    id = row.id;
    token_id = row.token_id;
    user_id = row.user_id;
    amount = row.amount_msats;
    invoice = row.invoice;
    fee = row.fee_msats;
    reservation_id = row.reservation_id;
    created = row.created;
    status = status;
  })

-- `queries::get`
unfoldable pub get : {E : Type 0} → Database → Uuid → Uuid → Outcome E (Option Payment)
unfolding into_entity
get db id user_id = elim (find (λ row. row.id == id && row.user_id == user_id) db.payments) [
  | none ↦ ok none
  | some row ↦ do p ← into_entity row; ok (some p)
]

-- `queries::daily_total`
unfoldable pub daily_total : {E : Type 0} → DateTime → Database → Uuid → Outcome E MilliSats
unfolding daily_sum
daily_total now db user_id = daily_sum now (
    map (λ row. (row.created, row.amount_msats))
      (filter (λ row. row.user_id == user_id) db.payments))
