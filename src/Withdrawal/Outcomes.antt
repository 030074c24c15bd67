-- ===== src/Withdrawal/Outcomes.antt =====
-- app/src/withdrawal: what starting a withdrawal takes from the balance, and what its confirmation does.
use laas_api.Base.{
  ◌≡◌, ◌∙◌, true, ==_refl, ==_iff, some, none, Option-cases, ok, err, inl, inr, arith, Never,
}
use laas_api.Int.{
  ℤ, pos, ◌+ℤ◌, ◌-ℤ◌, ◌≤ℤ◌, ◌<ℤ◌, IsI64, add_i64-eq, thousand_i64-eq, sub_covered, scale, int_laws,
}
use laas_api.Btc.{Address, Sats, TxOut, tx_is_confirmed, add, msats, sub}
use laas_api.Database.{Uuid, DateTime}
use laas_api.Balance.{Balance, Reservation, InsufficientBalance, pending, debited, reserve, debit}
use laas_api.Balance.Reservations.{reservation}
use laas_api.Auth.{SpendGrant}
use laas_api.Ln.{Lnd}
use laas_api.Withdrawal.{
  Withdrawal, insufficient_balance, start, start_checks, start_reserved, is_sent, is_confirmed,
  confirm,
}

-- The withdrawal that is started with a fee.
abbrev pub started : Uuid → Uuid → DateTime → SpendGrant → Address → Sats → Sats → Withdrawal
started id reservation_id now grant address amount fee = record {
  id = id;
  user_id = grant.user_id;
  token_id = grant.token_id;
  reservation_id = reservation_id;
  address = address;
  fee = fee;
  amount = amount;
  tx_out = none;
  created = now;
  confirmed = none;
}

-- The amount and the fee in millisatoshis.
abbrev pub total : Sats → Sats → ℤ
total amount fee = scale 1000 amount +ℤ scale 1000 fee

module _ (lnd : Lnd) (id reservation_id : Uuid) (now : DateTime) (grant : SpendGrant) (b : Balance)
    (address : Address) (amount fee : Sats) (node : lnd.State) where
  start_asks :
      grant.user_id ≡ b.user_id
      → pos 0 <ℤ amount
      → (lnd.estimate_fee address amount node).0 ≡ some fee
      → start lnd id reservation_id now grant b address amount node ≡ (
        start_reserved lnd id now grant address amount fee
            (reserve reservation_id now b (add (msats amount) (msats fee))),
        (lnd.estimate_fee address amount node).1,
      )
  unfolding start
  start_asks owner positive e =
      let checks : start_checks lnd grant b amount ≡ ok tt = ground (arith, ==_refl b.user_id) in
      rw (checks, start) (ground arith)

  total_eq :
      IsI64 (scale 1000 amount)
      → IsI64 (scale 1000 fee)
      → IsI64 (total amount fee)
      → add (msats amount) (msats fee) ≡ total amount fee
  unfolding add msats
  total_eq a f t = rw (thousand_i64-eq amount a, thousand_i64-eq fee f) (add_i64-eq _ _ t)

  -- If nothing overflows and the node estimates a fee that is not negative, starting a withdrawal
  -- of a positive amount by the owner of the balance reserves exactly the amount and the fee, if
  -- the balance covers both, and leaves the balance alone otherwise.
  pub start_outcomes :
      grant.user_id ≡ b.user_id
      → pos 0 <ℤ amount
      → pos 0 ≤ℤ fee
      → (lnd.estimate_fee address amount node).0 ≡ some fee
      → IsI64 b.amount
      → IsI64 (scale 1000 amount)
      → IsI64 (scale 1000 fee)
      → IsI64 (total amount fee)
      → (total amount fee ≤ℤ b.amount
          → start lnd id reservation_id now grant b address amount node ≡ (
            (
              ok (
                started id reservation_id now grant address amount fee,
                reservation reservation_id now b (total amount fee),
              ),
              record b { amount = b.amount -ℤ total amount fee },
            ),
            (lnd.estimate_fee address amount node).1,
          ))
        × (b.amount <ℤ total amount fee
            → start lnd id reservation_id now grant b address amount node ≡ (
              (err (insufficient_balance InsufficientBalance.insufficient_balance), b),
              (lnd.estimate_fee address amount node).1,
            ))
  unfolding reserve sub
  start_outcomes owner positive nonneg e range a f t =
      let sum = total_eq a f t in
      let nonneg_total : pos 0 ≤ℤ total amount fee = omega int_laws in
      (
        λ covered.
            start_asks owner positive e
            ∙ rw sum (
                ground (arith, sub_covered b.amount (total amount fee) range nonneg_total covered)),
        λ short. start_asks owner positive e ∙ rw sum (ground arith),
      )

-- A confirmation succeeds only for a withdrawal that was sent and is not confirmed, by a confirmed
-- transaction, the one that was sent, and with the pending reservation of the withdrawal. It stores the
-- output and the time, and debits the reservation.
pub confirm-ok :
    (now : DateTime) (w : Withdrawal) (out : TxOut) (r : Reservation)
    (both : Withdrawal × Reservation)
    → confirm {E = Never} now w out r ≡ ok both
    → ((sent : TxOut) × (w.tx_out ≡ some sent) × (out.tx.id ≡ sent.tx.id))
      × (w.confirmed ≡ none)
      × (tx_is_confirmed out.tx ≡ true)
      × (r.status ≡ pending)
      × (w.reservation_id ≡ r.id)
      × (both
          ≡ (record w { tx_out = some out; confirmed = some now }, record r { status = debited }))
unfolding confirm is_sent is_confirmed debit
confirm-ok now w out r both h = elim (Option-cases w.tx_out) [
  | inl unsent ↦ absurd (ground arith)
  | inr (sent, e) ↦ elim (Option-cases w.confirmed) [
    | inl vacant ↦ (
      (sent, e, ground (arith, ==_iff out.tx.id sent.tx.id)),
      vacant,
      ground arith,
      ground arith,
      ground (arith, ==_iff w.reservation_id r.id),
      ground arith,
    )
    | inr (t, c) ↦ absurd (ground arith)
  ]
]
