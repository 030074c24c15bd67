-- ===== src/Invoice.antt =====
-- app/src/invoice/entities.rs; the queries and the service of `mod.rs` are in `Invoice/`.
pub mod Rows
pub mod Service
pub mod Settlements
pub mod Worker
pub mod Deliveries
pub mod Checks
pub mod RoundTrip
use Prim.Native.String.{len}
use laas_api.Base.{
  ℕ, ◌+◌, ◌*◌, Bool, false, not, ◌==◌, ltb, leb, Option, none, some, is_some, unwrap_or, String,
  Outcome, ok, err, panic, ◌>>=◌, ◌>>◌, panic_if, fail_if, unwrap, map_err,
}
use text.Mathlib.Text.{◌==◌ as str_eq}
use laas_api.Int.{ℤ, pos, ltb_ℤ, leb_ℤ, pos_part}
use laas_api.Btc.{MilliSats}
use laas_api.CashLimits
use laas_api.CashLimits.{CashLimits, check}
use laas_api.Database.{Uuid, DateTime}
use laas_api.Balance.{Balance, credit}
use laas_api.Auth.{ReceiveGrant}
use laas_api.Ln.{RawInvoice, SettledInvoice, Lnd}

pub data Error : Type 0 where
  limits_violated : CashLimits.Error → Error
  amount_not_positive : Error
  invalid_expiry : String → Error
  invalid_memo : String → Error

pub record Settlement : Type 0 where
  pub amount : MilliSats
  pub timestamp : DateTime
  pub settle_index : ℕ

pub record Invoice : Type 0 where
  pub id : Uuid
  pub user_id : Uuid
  pub token_id : Uuid
  pub amount : MilliSats
  pub memo : Option String
  pub raw : RawInvoice
  pub created : DateTime
  pub settlement : Option Settlement
  pub expiration : DateTime

abbrev pub max_memo_bytes : ℕ
max_memo_bytes = 639

abbrev pub max_expiry_seconds : ℤ
max_expiry_seconds = pos 31536000

-- `Invoice::is_settled`
unfoldable pub is_settled : Invoice → Bool
is_settled invoice = is_some invoice.settlement

-- `Invoice::is_expired`
unfoldable pub is_expired : DateTime → Invoice → Bool
is_expired now invoice = leb invoice.expiration now

-- The memo is longer than `MAX_MEMO_BYTES`, in bytes.
abbrev pub is_long : Option String → Bool
is_long none = false
is_long (some memo) = ltb 639 (len memo)

-- The checks of `Invoice::create`, in their order.
unfoldable pub create_checks :
    MilliSats → Option String → ℤ → CashLimits → MilliSats → Outcome Error Unit
create_checks amount memo expiry limits daily_total = do
  fail_if (leb_ℤ amount (pos 0)) amount_not_positive
  fail_if (is_long memo) (invalid_memo "memo can be up to 639 bytes long")
  fail_if (leb_ℤ expiry (pos 0)) (invalid_expiry "expiry must be positive")
  fail_if (ltb_ℤ max_expiry_seconds expiry)
      (invalid_expiry "expiry can't be more than 31536000 seconds")
  map_err limits_violated (check limits (record { amount = amount; daily_total = daily_total }))

module _ (lnd : Lnd) where
  -- `Node::create_invoice`
  unfoldable pub create_invoice :
      MilliSats → Option String → ℤ → lnd.State → Outcome Error RawInvoice × lnd.State
  create_invoice amount memo expiry node =
      let (raw, node') = lnd.add_invoice amount (unwrap_or memo "") expiry node in
      (unwrap raw, node')

  abbrev pub created_invoice :
      Uuid
      → DateTime
      → DateTime
      → ReceiveGrant
      → MilliSats
      → Option String
      → ℤ
      → Outcome Error RawInvoice
      → Outcome Error Invoice
  created_invoice id now later grant amount memo expiry raw = do
    invoice ← raw
    ok (record {
      id = id;
      user_id = grant.user_id;
      token_id = grant.token_id;
      amount = amount;
      memo = memo;
      raw = invoice;
      created = later;
      settlement = none;
      expiration = now + pos_part expiry * 1_000_000;
    })

  -- `Invoice::create`, which reads the clock for the expiration and then for the creation. A checked
  -- expiry does not overflow the clock.
  unfoldable pub create :
      Uuid
      → DateTime
      → DateTime
      → ReceiveGrant
      → MilliSats
      → Option String
      → ℤ
      → CashLimits
      → MilliSats
      → lnd.State
      → Outcome Error Invoice × lnd.State
  unfolding create_checks create_invoice
  create id now later grant amount memo expiry limits daily_total node =
      elim (create_checks amount memo expiry limits daily_total) [
        | ok u ↦
            let (raw, node') = create_invoice amount memo expiry node in
            (created_invoice id now later grant amount memo expiry raw, node')
        | err e ↦ (err e, node)
        | panic ↦ (panic, node)
      ]

-- `Invoice::settle`
unfoldable pub settle :
    {E : Type 0} → DateTime → Invoice → Balance → SettledInvoice → Outcome E (Invoice × Balance)
unfolding is_settled credit
settle now invoice balance settled = do
  panic_if (is_settled invoice)
  panic_if (not (invoice.user_id == balance.user_id))
  panic_if (not (str_eq settled.raw invoice.raw))
  ok (
    record invoice {
      settlement = some (record {
        amount = settled.amount;
        timestamp = now;
        settle_index = settled.settle_index;
      });
    },
    credit balance settled.amount,
  )
