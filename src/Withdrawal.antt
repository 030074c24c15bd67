-- ===== src/Withdrawal.antt =====
-- app/src/withdrawal/entities.rs; the queries and the workers of `mod.rs` are in `Withdrawal/`.
pub mod Rows
pub mod Service
pub mod Outcomes
pub mod Delivery
pub mod Worker
use laas_api.Base.{
  ℕ, Bool, false, not, ◌==◌, Option, none, some, is_some, String, Outcome, ok, err, panic, ◌>>=◌,
  ◌>>◌, panic_if, fail_if, unwrap, if◌then◌else◌,
}
use laas_api.Int.{pos, leb_ℤ}
use laas_api.Btc.{Address, Sats, TxOut, tx_is_confirmed, add, msats}
use laas_api.Concurrency.{ConflictError}
use laas_api.Database.{Uuid, DateTime}
use laas_api.Balance.{Balance, Reservation, InsufficientBalance, reserve, debit, is_pending}
use laas_api.Auth.{SpendGrant}
use laas_api.Ln.{Lnd}
use laas_api.Ln.Transactions.{get_tx, send_onchain}

pub data Error : Type 0 where
  insufficient_balance : InsufficientBalance → Error
  concurrency_conflict : ConflictError → Error
  amount_not_positive : Error

pub record Withdrawal : Type 0 where
  pub id : Uuid
  pub user_id : Uuid
  pub token_id : Uuid
  pub reservation_id : Uuid
  pub address : Address
  pub fee : Sats
  pub amount : Sats
  pub tx_out : Option TxOut
  pub created : DateTime
  pub confirmed : Option DateTime

-- `Withdrawal::is_sent`
unfoldable pub is_sent : Withdrawal → Bool
is_sent w = is_some w.tx_out

-- `Withdrawal::is_confirmed`
unfoldable pub is_confirmed : Withdrawal → Bool
is_confirmed w = is_some w.confirmed

abbrev pub is_tx_of : TxOut → Option TxOut → Bool
is_tx_of tx_out none = false
is_tx_of tx_out (some sent) = tx_out.tx.id == sent.tx.id

-- `Withdrawal::confirm`
unfoldable pub confirm :
    {E : Type 0}
    → DateTime
    → Withdrawal
    → TxOut
    → Reservation
    → Outcome E (Withdrawal × Reservation)
unfolding is_sent is_confirmed debit tx_is_confirmed
confirm now w tx_out r = do
  panic_if (not (is_sent w))
  panic_if (is_confirmed w)
  panic_if (not (tx_is_confirmed tx_out.tx))
  panic_if (not (is_tx_of tx_out w.tx_out))
  panic_if (not (is_pending r.status))
  panic_if (not (w.reservation_id == r.id))
  r' ← debit r
  ok (record w { tx_out = some tx_out; confirmed = some now }, r')

module _ (lnd : Lnd) where
  abbrev pub start_checks : SpendGrant → Balance → Sats → Outcome Error Unit
  start_checks grant b amount = do
    panic_if (not (grant.user_id == b.user_id))
    fail_if (leb_ℤ amount (pos 0)) amount_not_positive

  abbrev pub Started : Type 0
  Started = Outcome Error (Withdrawal × Reservation) × Balance

  -- The withdrawal of an amount with an estimated fee.
  abbrev pub start_reserved :
      Uuid
      → DateTime
      → SpendGrant
      → Address
      → Sats
      → Sats
      → Outcome InsufficientBalance Reservation × Balance
      → Started
  start_reserved id now grant address amount fee (ok r, b) = (
    ok (
      record {
        id = id;
        user_id = grant.user_id;
        token_id = grant.token_id;
        reservation_id = r.id;
        address = address;
        fee = fee;
        amount = amount;
        tx_out = none;
        created = now;
        confirmed = none;
      },
      r,
    ),
    b,
  )
  start_reserved id now grant address amount fee (err e, b) = (err (insufficient_balance e), b)
  start_reserved id now grant address amount fee (panic, b) = (panic, b)

  abbrev pub start_estimated :
      Uuid → Uuid → DateTime → SpendGrant → Balance → Address → Sats → Option Sats → Started
  start_estimated id reservation_id now grant b address amount none = (panic, b)
  start_estimated id reservation_id now grant b address amount (some fee) =
      start_reserved id now grant address amount fee
        (reserve reservation_id now b (add (msats amount) (msats fee)))

  -- `Withdrawal::start`, with the ids of the withdrawal and of its reservation.
  unfoldable pub start :
      Uuid
      → Uuid
      → DateTime
      → SpendGrant
      → Balance
      → Address
      → Sats
      → lnd.State
      → Started × lnd.State
  start id reservation_id now grant b address amount node = elim (start_checks grant b amount) [
    | ok u ↦
        let (fee, node') = lnd.estimate_fee address amount node in
        (start_estimated id reservation_id now grant b address amount fee, node')
    | err e ↦ ((err e, b), node)
    | panic ↦ ((panic, b), node)
  ]

  abbrev pub send_result : {E : Type 0} → Withdrawal → Outcome E TxOut → Outcome E Withdrawal
  send_result w (ok tx_out) = ok (record w { tx_out = some tx_out })
  send_result w (err e) = err e
  send_result w panic = panic

  abbrev pub send_found :
      {E : Type 0}
      → (Uuid → String)
      → Withdrawal
      → Outcome E (Option TxOut)
      → lnd.State
      → Outcome E Withdrawal × lnd.State
  send_found label w (ok (some tx_out)) node = (ok (record w { tx_out = some tx_out }), node)
  send_found label w (ok none) node =
      let (sent, node') = send_onchain lnd w.address w.amount (label w.id) node in
      (send_result w sent, node')
  send_found label w (err e) node = (err e, node)
  send_found label w panic node = (panic, node)

  -- `Withdrawal::send`; `first_block` is the node's, and `label` gives the text of an id.
  unfoldable pub send :
      {E : Type 0} → (Uuid → String) → ℕ → Withdrawal → lnd.State → Outcome E Withdrawal × lnd.State
  unfolding is_sent
  send label first_block w node =
      if is_sent w
      then (panic, node)
      else send_found label w (get_tx lnd first_block w.address w.amount (label w.id) node) node
