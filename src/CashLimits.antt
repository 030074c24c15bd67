-- ===== src/CashLimits.antt =====
-- app/src/cash_limits.rs
pub mod Limits
use laas_api.Base.{Outcome, ok, err, if◌then◌else◌}
use laas_api.Int.{ltb_ℤ}
use laas_api.Btc.{MilliSats, add}

pub data Error : Type 0 where
  amount_too_low amount_too_high daily_limit_exceeded : Error

pub record CashLimits : Type 0 where
  pub min : MilliSats
  pub max : MilliSats
  pub daily : MilliSats

pub record Amounts : Type 0 where
  pub amount : MilliSats
  pub daily_total : MilliSats

-- `CashLimits::check`
unfoldable pub check : CashLimits → Amounts → Outcome Error Unit
check limits a =
    if ltb_ℤ a.amount limits.min
    then err amount_too_low
    else if ltb_ℤ limits.max a.amount
    then err amount_too_high
    else if ltb_ℤ limits.daily (add a.daily_total a.amount)
    then err daily_limit_exceeded
    else ok tt
