-- ===== src/Balance/Reservations.antt =====
-- app/src/balance/entities.rs: what reserving, debiting and refunding promise.
use laas_api.Base.{◌≡◌, ◌≢◌, ◌⊎◌, inl, inr, ok, err, panic, Never, arith}
use laas_api.Int.{pos, ◌+ℤ◌, ◌-ℤ◌, ◌≤ℤ◌, ◌<ℤ◌, IsI64, sub_covered}
use laas_api.Btc.{add, sub, MilliSats}
use laas_api.Database.{Uuid, DateTime}
use laas_api.Balance.{
  Balance, Reservation, insufficient_balance, pending, refunded, reserve, debit, refund,
}

-- The reservation that is made of an amount of a balance.
abbrev pub reservation : Uuid → DateTime → Balance → MilliSats → Reservation
reservation id now b a = record {
  id = id;
  user_id = b.user_id;
  amount = a;
  status = pending;
  created = now;
}

-- A covered amount that is not negative is moved exactly from the balance to a pending reservation of
-- the same user, and what is left of the balance is not negative.
reserve_covered :
    (id : Uuid) (now : DateTime) (b : Balance) (a : MilliSats)
    → IsI64 b.amount
    → pos 0 ≤ℤ a
    → a ≤ℤ b.amount
    → let (r, b') = reserve id now b a in
      (r ≡ ok (reservation id now b a))
      × (b' ≡ record b { amount = b.amount -ℤ a })
      × (pos 0 ≤ℤ b'.amount)
      × (b'.amount +ℤ a ≡ b.amount)
unfolding reserve sub
reserve_covered id now b a range nonneg covered =
    ground (arith, sub_covered b.amount a range nonneg covered)

-- An amount that the balance does not cover is refused, and the balance stays.
pub reserve_short :
    (id : Uuid) (now : DateTime) (b : Balance) (a : MilliSats)
    → b.amount <ℤ a
    → reserve id now b a ≡ (err insufficient_balance, b)
unfolding reserve
reserve_short id now b a short = ground arith

-- A reservation of an amount that is not negative, once made and then refunded, gives the user the
-- whole balance back, and is final.
pub refund-reserve :
    (id : Uuid) (now : DateTime) (b : Balance) (a : MilliSats) (r : Reservation) (b' : Balance)
    → IsI64 b.amount
    → pos 0 ≤ℤ a
    → reserve id now b a ≡ (ok r, b')
    → refund {E = Never} r b' ≡ ok (record r { status = refunded }, b)
unfolding reserve refund add sub
refund-reserve id now b a r b' range nonneg e = ground (arith, sub_covered b.amount a range nonneg)

final_status :
    {E : Type 0} (r : Reservation) (b : Balance)
    → r.status ≢ pending
    → (debit {E = E} r ≡ panic) × (refund {E = E} r b ≡ panic)
unfolding debit refund
final_status r b h = ground arith

settled_final :
    (r r' : Reservation) (b b' : Balance)
    → (debit {E = Never} r ≡ ok r') ⊎ (refund {E = Never} r b ≡ ok (r', b'))
    → r'.status ≢ pending
unfolding debit refund
settled_final r r' b b' (inl e) = ground arith
settled_final r r' b b' (inr e) = ground arith

-- A reservation that was debited or refunded can be neither debited nor refunded again: both panic.
settled_once :
    (r r' : Reservation) (b b' c : Balance)
    → (debit {E = Never} r ≡ ok r') ⊎ (refund {E = Never} r b ≡ ok (r', b'))
    → (debit {E = Never} r' ≡ panic) × (refund {E = Never} r' c ≡ panic)
settled_once r r' b b' c h = final_status r' c (settled_final r r' b b' h)
