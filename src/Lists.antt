-- ===== src/Lists.antt =====
-- The lists of the services, page by page: `QueryRange` of app/src/lib.rs, and the queries with
-- `ORDER BY created DESC LIMIT … OFFSET …` of app/src/payment, invoice, withdrawal and deposit.
pub mod Pages
pub mod Services
use laas_api.Base.{
  ℕ, Bool, List, [], ◌∷◌, map, Option, none, some, ◌==◌, filter, take, drop, Outcome, ok, err,
  panic, ◌>>=◌, ltb, if◌then◌else◌, panic_if, ◌||◌,
}
use laas_api.Int.{ℤ, pos, pos_part, ltb_ℤ}
use laas_api.Database.{
  Uuid, DateTime, Database, PaymentRow, InvoiceRow, WithdrawalRow, DepositAddressRow, DepositRow,
}
use laas_api.Auth.{ReadGrant}
use laas_api.Payment.{Payment}
use laas_api.Payment.Rows.{into_entity as payment_entity}
use laas_api.Invoice.{Invoice}
use laas_api.Invoice.Rows.{into_entity as invoice_entity}
use laas_api.Withdrawal.{Withdrawal}
use laas_api.Withdrawal.Rows.{into_entity as withdrawal_entity}
use laas_api.Deposit.{Address, Deposit}
use laas_api.Deposit.Queries.{address_entity, join}

pub record QueryRange : Type 0 where
  pub limit : ℤ
  pub offset : ℤ

module _ {A : Type 0} (created : A → DateTime) where
  -- `ORDER BY created DESC`: the newest first. Rows of one time stay in the order of the table; the
  -- database leaves that order open.
  abbrev pub insert : A → List A → List A
  insert x [] = x ∷ []
  insert x (y ∷ ys) = if ltb (created x) (created y) then y ∷ insert x ys else x ∷ y ∷ ys

  abbrev pub order_by_created : List A → List A
  order_by_created [] = []
  order_by_created (x ∷ xs) = insert x (order_by_created xs)

  -- `LIMIT … OFFSET …`: the database refuses a negative number, and `unwrap` panics.
  unfoldable pub select_page :
      {E : Type 0} → (A → Uuid) → Uuid → QueryRange → List A → Outcome E (List A)
  select_page user_of user_id range rows =
      if ltb_ℤ range.limit (pos 0) || ltb_ℤ range.offset (pos 0)
      then panic
      else ok (
          take (pos_part range.limit) (
            drop (pos_part range.offset)
              (order_by_created (filter (λ row. user_of row == user_id) rows))))

-- `map` with a function that may panic.
abbrev pub map_rows : {E A B : Type 0} → (A → Outcome E B) → List A → Outcome E (List B)
map_rows f [] = ok []
map_rows f (x ∷ xs) = do y ← f x; ys ← map_rows f xs; ok (y ∷ ys)

-- The inner join: a deposit without its output is left out.
abbrev pub join_all : Database → List DepositRow → List Deposit
join_all db [] = []
join_all db (row ∷ rows) = elim (join db row) [
  | none ↦ join_all db rows
  | some d ↦ d ∷ join_all db rows
]

module _ {E : Type 0} (grant : ReadGrant) (db : Database) (range : QueryRange) where
  -- `payment::list`
  unfoldable pub list_payments : Outcome E (List Payment)
  list_payments = do
    rows ← select_page PaymentRow.created PaymentRow.user_id grant.user_id range db.payments
    map_rows payment_entity rows

  -- `invoice::list`
  unfoldable pub list_invoices : Outcome E (List Invoice)
  list_invoices = do
    rows ← select_page InvoiceRow.created InvoiceRow.user_id grant.user_id range db.invoices
    ok (map invoice_entity rows)

  -- `withdrawal::list`, with no block heights.
  unfoldable pub list_withdrawals : Outcome E (List Withdrawal)
  list_withdrawals = do
    rows ←
        select_page WithdrawalRow.created WithdrawalRow.user_id grant.user_id range db.withdrawals
    ok (map (λ row. withdrawal_entity row none) rows)

  -- `deposit::get_addresses`
  unfoldable pub get_addresses : Outcome E (List Address)
  get_addresses = do
    rows ←
        select_page DepositAddressRow.created DepositAddressRow.user_id grant.user_id range
          db.deposit_addresses
    ok (map address_entity rows)

  -- `deposit::list`: the range is that of the joined rows.
  unfoldable pub list_deposits : Outcome E (List Deposit)
  list_deposits =
      select_page Deposit.created Deposit.user_id grant.user_id range (join_all db db.deposits)
