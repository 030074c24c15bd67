-- ===== src/Api/Range.antt =====
-- api/src/routes/mod.rs: the range of a list, which a request gives as two texts.
pub mod Bounds
use Prim.Native.Char.{Char, code}
use laas_api.Base.{
  ℕ, ◌+◌, ◌-◌, ◌*◌, ◌^◌, Bool, ◌&&◌, Option, none, some, String, Outcome, ok, err, ◌>>=◌, ltb, leb,
  if◌then◌else◌, unwrap_or,
}
use laas_api.Int.{ℤ, pos, negsuc, ltb_ℤ}
use laas_api.Lists.{QueryRange}
use laas_api.Api.Errors.{JsonError, bad_request}

-- The digits of a text, after a number that was read.
abbrev pub read_digits : ℕ → String → Option ℕ
read_digits n String.[] = some n
read_digits n (String.◌∷◌ c s) =
    let rest = read_digits (10 * n + (code c - 48)) s in
    if leb 48 (code c) && leb (code c) 57 then rest else none

-- A text of digits, and at least one.
abbrev pub read_number : String → Option ℕ
read_number String.[] = none
read_number (String.◌∷◌ c s) = read_digits 0 (String.◌∷◌ c s)

abbrev pub positive : Option ℕ → Option ℤ
positive none = none
positive (some n) = if ltb n (2 ^ 63) then some (pos n) else none

abbrev pub negative : Option ℕ → Option ℤ
negative none = none
negative (some n) =
    if leb n (2 ^ 63) then some (if ltb 0 n then negsuc (n - 1) else pos 0) else none

-- `str::parse` for `i64`: an optional sign, and digits, of a number in the range.
abbrev pub parse_i64 : String → Option ℤ
parse_i64 String.[] = none
parse_i64 (String.◌∷◌ c s) =
    if leb (code c) 43 && leb 43 (code c)
    then positive (read_number s)
    else if leb (code c) 45 && leb 45 (code c)
    then negative (read_number s)
    else positive (read_number (String.◌∷◌ c s))

pub record Range : Type 0 where
  pub limit : Option String
  pub offset : Option String

pub data RangeError : Type 0 where
  invalid_limit invalid_offset : RangeError

abbrev pub min_limit : ℤ
min_limit = pos 1

abbrev pub max_limit : ℤ
max_limit = pos 250

abbrev pub checked_limit : Option ℤ → Outcome (JsonError RangeError) ℤ
checked_limit none = err (bad_request invalid_limit "limit is not a number")
checked_limit (some limit) =
    if ltb_ℤ limit min_limit
    then err (bad_request invalid_limit "limit must be at least 1")
    else if ltb_ℤ max_limit limit
    then err (bad_request invalid_limit "limit can be at most 250")
    else ok limit

-- `Range::parse_limit`
unfoldable pub parse_limit : Option String → Outcome (JsonError RangeError) ℤ
parse_limit s = checked_limit (parse_i64 (unwrap_or s "100"))

abbrev pub checked_offset : Option ℤ → Outcome (JsonError RangeError) ℤ
checked_offset none = err (bad_request invalid_offset "offset is not a number")
checked_offset (some offset) =
    if ltb_ℤ offset (pos 0)
    then err (bad_request invalid_offset "offset must be positive")
    else ok offset

-- `Range::parse_offset`
unfoldable pub parse_offset : Option String → Outcome (JsonError RangeError) ℤ
parse_offset s = checked_offset (parse_i64 (unwrap_or s "0"))

-- `Range::query_range`
unfoldable pub query_range : Range → Outcome (JsonError RangeError) QueryRange
unfolding parse_limit parse_offset
query_range range = do
  limit ← parse_limit range.limit
  offset ← parse_offset range.offset
  ok (record { limit = limit; offset = offset })
