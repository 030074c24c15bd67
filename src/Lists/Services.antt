-- ===== src/Lists/Services.antt =====
-- The lists of the services: app/src/payment, invoice, withdrawal and deposit.
use laas_api.Base.{ℕ, ◌+◌, ◌≤◌, ◌≡◌, ◌⊎◌, true, List, [], ◌∷◌, All, filter, length, ◌==◌, ◌>>=◌}
use laas_api.Int.{pos_part}
use laas_api.Database.{Uuid, DateTime, Database}
use laas_api.Payment.{Payment}
use laas_api.Payment.Rows.{into_entity}
use laas_api.Invoice.{Invoice}
use laas_api.Invoice.Rows.{into_entity as invoice_entity}
use laas_api.Withdrawal.{Withdrawal}
use laas_api.Withdrawal.Rows.{into_entity as withdrawal_entity}
use laas_api.Deposit.{Deposit}
use laas_api.Lists.{QueryRange}
use laas_api.Lists.Pages.{IsNewestFirst}

-- A page of a list of `total` entries: it is within the limit, all entries are the user's own and the
-- newest come first, and it is full or reaches the end of the list.
pub record IsPage {A : Type 0} (user_of : A → Uuid) (created : A → DateTime) (user_id : Uuid)
    (range : QueryRange) (total : ℕ) (page : List A) : Type 0 where
  pub short : length page ≤ pos_part range.limit
  pub own : All (λ x. (user_of x == user_id) ≡ true) page
  pub newest : IsNewestFirst created page
  pub fills : (length page ≡ pos_part range.limit) ⊎ (total ≤ pos_part range.offset + length page)

-- How many of the rows are the user's.
abbrev pub owned : {A : Type 0} → (A → Uuid) → Uuid → List A → ℕ
owned user_of user_id rows = length (filter (λ row. user_of row == user_id) rows)

-- Entries that are made of rows, one of each, with its user and its time.
module _ {R A : Type 0} (user_of : R → Uuid) (created : R → DateTime) (user_of' : A → Uuid)
    (created' : A → DateTime) where
  data Matches : List R → List A → Type 0 where
    nothing : Matches [] []
    one_more :
        {r : R} {a : A} {rs : List R} {xs : List A}
        → user_of' a ≡ user_of r
        → created' a ≡ created r
        → Matches rs xs
        → Matches (r ∷ rs) (a ∷ xs)
