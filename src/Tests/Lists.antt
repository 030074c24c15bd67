-- ===== src/Tests/Lists.antt =====
-- Ranges and pages.
use laas_api.Base.{
  ◌≡◌, ◌↔◌, refl, ok, some, none, List, [], ◌∷◌, ◌++◌, ◌==◌, ◌≤◌, All, length, unwrap_or, true,
  Never, ℕ,
}
use laas_api.Int.{pos, ◌≤ℤ◌}
use laas_api.Database.{DepositAddressRow}
use laas_api.Lists.{QueryRange, select_page}
use laas_api.Lists.Pages.{IsNewestFirst}
use laas_api.Auth.{ReadGrant}
use laas_api.Database.{Database}
use laas_api.Payment.{Payment}
use laas_api.Invoice.{Invoice}
use laas_api.Withdrawal.{Withdrawal}
use laas_api.Deposit.{Deposit}
use laas_api.Tests.Data
use laas_api.Api.Range.{Range, parse_i64, parse_limit, parse_offset, query_range}
use laas_api.Api.Range.Bounds.{query_range-ok, select_page-query_range}

abbrev address_row : ℕ → ℕ → ℕ → DepositAddressRow
address_row user_id address created = record {
  user_id = user_id;
  token_id = 11;
  address = address;
  created = created;
}

-- Three addresses of the first user, and one of the second.
abbrev table : List DepositAddressRow
table = address_row 1 70 5 ∷ address_row 2 71 6 ∷ address_row 1 72 9 ∷ address_row 1 73 7 ∷ []

abbrev range_of : ℕ → ℕ → QueryRange
range_of l o = record { limit = pos l; offset = pos o }

abbrev created_of : DepositAddressRow → ℕ
created_of row = row.created

abbrev user_of : DepositAddressRow → ℕ
user_of row = row.user_id

abbrev newest : List DepositAddressRow
newest = address_row 1 72 9 ∷ address_row 1 73 7 ∷ []

abbrev oldest : List DepositAddressRow
oldest = address_row 1 70 5 ∷ []

first_page : select_page created_of {E = Never} user_of 1 (range_of 2 0) table ≡ ok newest
unfolding select_page
first_page = refl

second_page : select_page created_of {E = Never} user_of 1 (range_of 2 2) table ≡ ok oldest
unfolding select_page
second_page = refl

whole_page :
    select_page created_of {E = Never} user_of 1 (range_of 4 0) table ≡ ok (newest ++ oldest)
unfolding select_page
whole_page = refl

-- The lists of the first user, two entries long.
abbrev reader : ReadGrant
reader = record { token_id = 11; user_id = 1 }

abbrev store : Database
store = record Data.db { deposit_addresses = table }

abbrev asked : Range
asked = record { limit = some "+2"; offset = none }

query_range-ok_example : (query_range asked ≡ ok (range_of 2 0)) ↔ (
    (parse_i64 (unwrap_or asked.limit "100") ≡ some (pos 2))
    × (pos 1 ≤ℤ pos 2)
    × (pos 2 ≤ℤ pos 250)
    × (parse_i64 (unwrap_or asked.offset "0") ≡ some (pos 0))
    × (pos 0 ≤ℤ pos 0))
query_range-ok_example = query_range-ok asked (range_of 2 0)

accepted : query_range asked ≡ ok (range_of 2 0)
unfolding query_range parse_limit parse_offset
accepted = refl

select_page-query_range_example :
    (page : List DepositAddressRow) × (select_page created_of {E = Never} user_of 1
        (range_of 2 0)
        table
      ≡ ok page)
    × (length page ≤ 250)
    × All (λ row. (user_of row == 1) ≡ true) page
    × IsNewestFirst created_of page
select_page-query_range_example =
    select_page-query_range created_of user_of 1 table asked (range_of 2 0) accepted
