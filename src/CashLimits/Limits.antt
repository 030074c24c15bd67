-- ===== src/CashLimits/Limits.antt =====
-- app/src/cash_limits.rs: exactly which amounts pass the limits.
use laas_api.Base.{◌≡◌, ◌↔◌, ok, err, arith}
use laas_api.Int.{◌+ℤ◌, ◌≤ℤ◌, ◌<ℤ◌, IsI64, add_i64-eq}
use laas_api.Btc.{add}
use laas_api.CashLimits.{
  CashLimits, Amounts, check, amount_too_low, amount_too_high, daily_limit_exceeded,
}

module _ (limits : CashLimits) (a : Amounts) (range : IsI64 (a.daily_total +ℤ a.amount)) where
  -- If the day's total does not overflow, the check passes exactly the amounts between the minimum and
  -- the maximum with which the total stays within the daily limit.
  pub check-ok : (check limits a ≡ ok tt) ↔ (
      (limits.min ≤ℤ a.amount)
      × (a.amount ≤ℤ limits.max)
      × (a.daily_total +ℤ a.amount ≤ℤ limits.daily))
  unfolding check add
  check-ok = ground (arith, add_i64-eq a.daily_total a.amount range)

  -- Each error is given exactly when its limit is the first that is violated, in the order minimum,
  -- maximum, day.
  check-err :
      ((check limits a ≡ err amount_too_low) ↔ (a.amount <ℤ limits.min))
      × ((check limits a ≡ err amount_too_high)
          ↔ ((limits.min ≤ℤ a.amount) × (limits.max <ℤ a.amount)))
      × ((check limits a ≡ err daily_limit_exceeded) ↔ (
          (limits.min ≤ℤ a.amount)
          × (a.amount ≤ℤ limits.max)
          × (limits.daily <ℤ a.daily_total +ℤ a.amount)))
  unfolding check add
  check-err = ground (arith, add_i64-eq a.daily_total a.amount range)
