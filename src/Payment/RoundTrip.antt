-- ===== src/Payment/RoundTrip.antt =====
-- app/src/payment/mod.rs: a payment written to the database and read back.
use laas_api.Base.{
  ◌≡◌, true, ◌∙◌, find_never, ok, Never, arith, some, find, find-upsert_only, Bool, ◌&&◌, ◌==◌,
  ==_refl, not, none,
}
use laas_api.Database.{Database, PaymentRow}
use laas_api.Payment.{Payment, Status, new, ready, failed, succeeded}
use laas_api.Payment.Rows.{payment_row, into_entity, upsert_payment, get, has_payment_id}

-- The status that is read back.
abbrev pub stored_status : Status → Status
stored_status new = new
stored_status ready = new
stored_status (failed r t) = failed r t
stored_status (succeeded t) = succeeded t

into_entity-payment_row :
    (p : Payment)
    → into_entity {E = Never} (payment_row p) ≡ ok (record p { status = stored_status p.status })
unfolding into_entity payment_row
into_entity-payment_row p = ground arith

-- A payment that was written is read back by its user under its id, in every field; the status too, but
-- for a payment that is ready, which comes back as a new one.
pub get-upsert_payment :
    (db : Database) (p : Payment)
    → get {E = Never} (upsert_payment db p) p.id p.user_id
      ≡ ok (some (record p { status = stored_status p.status }))
unfolding get upsert_payment
get-upsert_payment db p =
    let q : PaymentRow → Bool = λ row. row.id == p.id && row.user_id == p.user_id in
    let none_other : find (λ row. q row && not (has_payment_id p.id row)) db.payments ≡ none =
      find_never (λ row. q row && not (has_payment_id p.id row)) db.payments
        (λ row. ground arith) in
    let own : q (payment_row p) ≡ true =
      unfold payment_row in ground (arith, ==_refl p.id, ==_refl p.user_id) in
    let found =
      find-upsert_only (has_payment_id p.id) q (payment_row p) db.payments none_other own in
    rw (found, get) (ground (arith, into_entity-payment_row p))

-- So the round trip keeps a payment exactly if it is not ready.
pub ready_is_lost :
    (db : Database) (p : Payment)
    → p.status ≡ ready
    → get {E = Never} (upsert_payment db p) p.id p.user_id ≡ ok (some (record p { status = new }))
ready_is_lost db p e = get-upsert_payment db p ∙ ground arith
