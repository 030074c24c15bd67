-- ===== src/Api/Range/Bounds.antt =====
-- Which ranges are accepted.
use laas_api.Base.{
  ◌≡◌, ◌↔◌, refl, Option, none, some, ok, arith, unwrap_or, >>=-eq-ok, List, ℕ, filter, take, drop,
  length, All, true, ◌==◌, ◌≤◌,
}
use laas_api.Int.{ℤ, pos, pos_part, ◌≤ℤ◌}
use laas_api.Database.{Uuid, DateTime}
use laas_api.Lists.{QueryRange, select_page, order_by_created}
use laas_api.Lists.Pages.{IsNewestFirst, select_page-ok}
use laas_api.Api.Range.{
  Range, parse_i64, parse_limit, parse_offset, checked_limit, checked_offset, query_range,
}

checked_limit-ok :
    (o : Option ℤ) (l : ℤ)
    → (checked_limit o ≡ ok l) ↔ ((o ≡ some l) × (pos 1 ≤ℤ l) × (l ≤ℤ pos 250))
checked_limit-ok none l = ground arith
checked_limit-ok (some x) l = ground arith

checked_offset-ok :
    (o : Option ℤ) (l : ℤ) → (checked_offset o ≡ ok l) ↔ ((o ≡ some l) × (pos 0 ≤ℤ l))
checked_offset-ok none l = ground arith
checked_offset-ok (some x) l = ground arith

-- A range is accepted exactly if its limit, 100 when there is none, is a number from 1 to 250, and its
-- offset, 0 when there is none, is a number that is not negative; the query then has these two numbers.
pub query_range-ok :
    (range : Range) (q : QueryRange)
    → (query_range range ≡ ok q) ↔ (
        (parse_i64 (unwrap_or range.limit "100") ≡ some q.limit)
        × (pos 1 ≤ℤ q.limit)
        × (q.limit ≤ℤ pos 250)
        × (parse_i64 (unwrap_or range.offset "0") ≡ some q.offset)
        × (pos 0 ≤ℤ q.offset))
unfolding query_range parse_limit parse_offset
query_range-ok range q = (
  λ h.
      let limit = parse_i64 (unwrap_or range.limit "100") in
      let offset = parse_i64 (unwrap_or range.offset "0") in
      let (l, el, h₁) = >>=-eq-ok (checked_limit limit) _ h in
      let (o, eo, h₂) = >>=-eq-ok (checked_offset offset) _ h₁ in
      let is_q : record { limit = l; offset = o } ≡ q = ground arith in
      rw (← is_q) (
        let (pl, low, high) = (checked_limit-ok limit l).0 el in
        let (po, nonneg) = (checked_offset-ok offset o).0 eo in (pl, low, high, po, nonneg)),
  λ (l, low, high, o, nonneg).
      let el = (checked_limit-ok _ q.limit).1 (l, low, high) in
      let eo = (checked_offset-ok _ q.offset).1 (o, nonneg) in rw (el, eo) refl,
)

at_most : (l : ℤ) (n : ℕ) → pos 1 ≤ℤ l → l ≤ℤ pos 250 → n ≤ pos_part l → n ≤ 250
at_most l n low high short = ground arith

-- For a range that is accepted the database selects a page, whatever it stores: the query does not
-- panic, and the page has at most 250 rows, all of the user, the newest first.
pub select_page-query_range :
    {A E : Type 0} (created : A → DateTime) (user_of : A → Uuid) (user_id : Uuid) (rows : List A)
    (range : Range) (q : QueryRange)
    → query_range range ≡ ok q
    → (page : List A) × (select_page created {E = E} user_of user_id q rows ≡ ok page)
      × (length page ≤ 250)
      × All (λ row. (user_of row == user_id) ≡ true) page
      × IsNewestFirst created page
unfolding select_page
select_page-query_range {A} {E} created user_of user_id rows range q h =
    let (l, low, high, o, nonneg) = (query_range-ok range q).0 h in
    let mine = order_by_created created (filter (λ row. user_of row == user_id) rows) in
    let page = take (pos_part q.limit) (drop (pos_part q.offset) mine) in
    let selected : select_page created {E = E} user_of user_id q rows ≡ ok page = ground arith in
    let (short, own, newest, whole) = select_page-ok created user_of user_id rows q page selected in
    (page, selected, at_most q.limit (length page) low high short, own, newest)
