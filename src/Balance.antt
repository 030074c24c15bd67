-- ===== src/Balance.antt =====
-- app/src/balance: `entities.rs` here, and the queries of `mod.rs` in `Balance/Queries.antt`.
pub mod Queries
pub mod Reservations
pub mod Updates
pub mod Credits
use laas_api.Base.{
  ℕ, Bool, true, false, not, Outcome, ok, err, panic, ◌>>=◌, ◌>>◌, panic_if, Never, if◌then◌else◌,
}
use laas_api.Int.{ℤ, ltb_ℤ, eqb_ℤ}
use laas_api.Btc.{MilliSats, add, sub}
use laas_api.Database.{Uuid, DateTime}

pub data InsufficientBalance : Type 0 where
  insufficient_balance : InsufficientBalance

pub record Balance : Type 0 where
  pub user_id : Uuid
  pub original_amount : MilliSats
  pub amount : MilliSats

pub data ReservationStatus : Type 0 where
  pending debited refunded : ReservationStatus

pub record Reservation : Type 0 where
  pub id : Uuid
  pub user_id : Uuid
  pub amount : MilliSats
  pub status : ReservationStatus
  pub created : DateTime

-- `Balance::new`
unfoldable pub new : Uuid → MilliSats → Balance
new user_id amount = record { user_id = user_id; original_amount = amount; amount = amount }

-- `Balance::changed`
unfoldable pub changed : Balance → Bool
changed b = not (eqb_ℤ b.original_amount b.amount)

-- `Balance::credit`
unfoldable pub credit : Balance → MilliSats → Balance
credit b amount = record b { amount = add b.amount amount }

-- `Balance::reserve`, with the fresh id and the time that it draws. The balance is left alone if it
-- does not cover the amount.
unfoldable pub reserve :
    Uuid → DateTime → Balance → MilliSats → Outcome InsufficientBalance Reservation × Balance
reserve id now b amount = if ltb_ℤ b.amount amount then (err insufficient_balance, b) else (
  ok (record { id = id; user_id = b.user_id; amount = amount; status = pending; created = now }),
  record b { amount = sub b.amount amount },
)

abbrev pub is_pending : ReservationStatus → Bool
is_pending pending = true
is_pending debited = false
is_pending refunded = false

-- `Reservation::debit`
unfoldable pub debit : {E : Type 0} → Reservation → Outcome E Reservation
debit r = do panic_if (not (is_pending r.status)); ok (record r { status = debited })

-- `Reservation::refund`
unfoldable pub refund : {E : Type 0} → Reservation → Balance → Outcome E (Reservation × Balance)
unfolding credit
refund r b = do
  panic_if (not (is_pending r.status))
  ok (record r { status = refunded }, credit b r.amount)
