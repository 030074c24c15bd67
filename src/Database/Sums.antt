-- ===== src/Database/Sums.antt =====
-- The sums of app/src/invoice/mod.rs and app/src/payment/mod.rs: `SUM(CAST(amount_msats AS INTEGER))`
-- over the rows of a user that were created in the last day. The cast is to 32 bits, and the statement
-- fails on an amount that does not fit.
use laas_api.Base.{
  ℕ, ◌-◌, ◌^◌, ltb, Bool, ◌&&◌, List, [], ◌∷◌, Outcome, ok, panic, ◌>>=◌, if◌then◌else◌,
}
use laas_api.Int.{ℤ, pos, negsuc, ◌+ℤ◌, leb_ℤ}
use laas_api.Database.{DateTime}

-- Microseconds in a day.
abbrev pub one_day : ℕ
one_day = 86_400_000_000

abbrev pub fits_integer : ℤ → Bool
fits_integer a = leb_ℤ (negsuc (2 ^ 31 - 1)) a && leb_ℤ a (pos (2 ^ 31 - 1))

unfoldable pub cast_integer : {E : Type 0} → ℤ → Outcome E ℤ
cast_integer a = if fits_integer a then ok a else panic

-- The sum over the times of creation and the amounts of the rows of the user.
unfoldable pub daily_sum : {E : Type 0} → DateTime → List (DateTime × ℤ) → Outcome E ℤ
unfolding cast_integer
daily_sum now [] = ok (pos 0)
daily_sum now ((created, amount) ∷ rows) =
    let rest = daily_sum now rows in
    if ltb (now - one_day) created
    then (do a ← cast_integer amount; total ← rest; ok (a +ℤ total))
    else rest
