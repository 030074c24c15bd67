-- ===== src/Invoice/Checks.antt =====
-- app/src/invoice/entities.rs: which invoices can be created.
use Prim.Native.String.{len}
use laas_api.Base.{◌≤◌, ◌≡◌, ◌↔◌, Option, some, none, ok, arith, String}
use laas_api.Int.{ℤ, pos, ◌+ℤ◌, ◌≤ℤ◌, ◌<ℤ◌, IsI64}
use laas_api.Btc.{MilliSats}
use laas_api.CashLimits.{CashLimits}
use laas_api.CashLimits.Limits.{check-ok}
use laas_api.Invoice.{create_checks}

-- A memo of at most 639 bytes.
abbrev pub IsShort : Option String → Type 0
IsShort none = Unit
IsShort (some memo) = len memo ≤ 639

-- If the day's total does not overflow, the checks pass exactly a positive amount within the limits, a
-- memo of at most 639 bytes, and an expiry of one second to 365 days.
pub create_checks-ok :
    (amount : MilliSats) (memo : Option String) (expiry : ℤ) (limits : CashLimits)
    (daily_total : MilliSats)
    → IsI64 (daily_total +ℤ amount)
    → (create_checks amount memo expiry limits daily_total ≡ ok tt) ↔ (
        (pos 0 <ℤ amount)
        × IsShort memo
        × (pos 0 <ℤ expiry)
        × (expiry ≤ℤ pos 31536000)
        × (limits.min ≤ℤ amount)
        × (amount ≤ℤ limits.max)
        × (daily_total +ℤ amount ≤ℤ limits.daily))
unfolding create_checks
create_checks-ok amount memo expiry limits daily_total range =
    ground (arith, check-ok limits (record { amount = amount; daily_total = daily_total }) range)
