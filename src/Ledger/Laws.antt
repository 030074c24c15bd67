-- ===== src/Ledger/Laws.antt =====
-- The abstract ledger: its steps never overdraw, and conserve the funds.
use laas_api.Base.{◌==◌, ==_iff, Bool-cases, ◌≡◌, ◌⊎◌, inl, inr, subst, false}
use laas_api.Int.{ℤ, pos, ◌+ℤ◌, ◌≤ℤ◌, ◌<ℤ◌, int_laws}
use laas_api.Database.{Uuid}
use laas_api.Ledger.{
  Ledger, Moved, LedgerStep, idles, credits, holds, releases, spends, IsCovered, total, share,
}

-- What a move does to the amount of any user.
pub Moved-at :
    (f g : Uuid → ℤ) (u : Uuid) (a : ℤ) (j : Uuid)
    → Moved f g u a
    → ((u ≡ j) × (g j ≡ f j +ℤ a)) ⊎ (((u == j) ≡ false) × (g j ≡ f j))
Moved-at f g u a j m = elim (Bool-cases (u == j)) [
  | inl same ↦ let e = (==_iff u j).0 same in inl (e, subst (λ i. g i ≡ f i +ℤ a) e m.0)
  | inr other ↦ inr (other, m.1 j other)
]

pub add_right : (x a b : ℤ) → x +ℤ (a +ℤ b) ≡ x +ℤ a +ℤ b
add_right x a b = omega int_laws

pub add_zero : (x : ℤ) → x ≡ x +ℤ pos 0
add_zero x = omega int_laws

covered_more : (x a : ℤ) → pos 0 ≤ℤ x → pos 0 <ℤ a → pos 0 ≤ℤ x +ℤ a
covered_more x a h p = omega int_laws

covered_less : (x y a : ℤ) → x ≡ y +ℤ a → a ≤ℤ x → pos 0 ≤ℤ y
covered_less x y a e h = let h' = subst (λ z. a ≤ℤ z) e h in omega int_laws

-- A step of the ledger overdraws no user.
pub LedgerStep-IsCovered :
    (l l' : Ledger) (income : Uuid → ℤ) → LedgerStep l l' income → IsCovered l → IsCovered l'
LedgerStep-IsCovered l l' i (idles n x y z) c j = rw (x j) (c j)
LedgerStep-IsCovered l l' i (credits u a n p x y z) c j =
    elim (Moved-at l.available l'.available u a j x) [
      | inl (e, m) ↦ rw m (covered_more (l.available j) a (c j) p)
      | inr (ne, m) ↦ rw m (c j)
    ]
LedgerStep-IsCovered l l' i (holds u a n p cov x y z) c j =
    elim (Moved-at l'.available l.available u a j x) [
      | inl (e, m) ↦
          covered_less (l.available j) (l'.available j) a m (subst (λ v. a ≤ℤ l.available v) e cov)
      | inr (ne, m) ↦ rw (← m) (c j)
    ]
LedgerStep-IsCovered l l' i (releases u a n p x y z) c j =
    elim (Moved-at l.available l'.available u a j x) [
      | inl (e, m) ↦ rw m (covered_more (l.available j) a (c j) p)
      | inr (ne, m) ↦ rw m (c j)
    ]
LedgerStep-IsCovered l l' i (spends u a n p x y z) c j = rw (x j) (c j)

-- A move adds to every user the share in the amount.
pub Moved-share :
    (f g : Uuid → ℤ) (u : Uuid) (a : ℤ) (j : Uuid) → Moved f g u a → g j ≡ f j +ℤ share u a j
Moved-share f g u a j m = elim (Bool-cases (u == j)) [
  | inl same ↦ let e = (==_iff u j).0 same in rw same (subst (λ i. g i ≡ f i +ℤ a) e m.0)
  | inr other ↦ rw (other, m.1 j other) (add_zero (f j))
]

held_total : (a a' h s d : ℤ) → a ≡ a' +ℤ d → a' +ℤ (h +ℤ d) +ℤ s ≡ a +ℤ h +ℤ s +ℤ pos 0
held_total a a' h s d e = rw e (omega int_laws)

released_total : (a h h' s d : ℤ) → h ≡ h' +ℤ d → a +ℤ d +ℤ h' +ℤ s ≡ a +ℤ h +ℤ s +ℤ pos 0
released_total a h h' s d e = rw e (omega int_laws)

spent_total : (a h h' s d : ℤ) → h ≡ h' +ℤ d → a +ℤ h' +ℤ (s +ℤ d) ≡ a +ℤ h +ℤ s +ℤ pos 0
spent_total a h h' s d e = rw e (omega int_laws)

credited_total : (a h s d : ℤ) → a +ℤ d +ℤ h +ℤ s ≡ a +ℤ h +ℤ s +ℤ d
credited_total a h s d = omega int_laws

-- A step of the ledger changes what a user has in all by its income only.
pub LedgerStep-total :
    (l l' : Ledger) (income : Uuid → ℤ)
    → LedgerStep l l' income
    → (j : Uuid) → total l' j ≡ total l j +ℤ income j
LedgerStep-total l l' i (idles n x y z) j = rw (n j, x j, y j, z j) (add_zero (total l j))
LedgerStep-total l l' i (credits u a n p x y z) j =
    rw (n j, Moved-share l.available l'.available u a j x, y j, z j)
      (credited_total (l.available j) (l.held j) (l.spent j) (share u a j))
LedgerStep-total l l' i (holds u a n p cov x y z) j =
    rw (n j, Moved-share l.held l'.held u a j y, z j)
      (held_total (l.available j) (l'.available j) (l.held j) (l.spent j) (share u a j)
        (Moved-share l'.available l.available u a j x))
LedgerStep-total l l' i (releases u a n p x y z) j =
    rw (n j, Moved-share l.available l'.available u a j x, z j)
      (released_total (l.available j) (l.held j) (l'.held j) (l.spent j) (share u a j)
        (Moved-share l'.held l.held u a j y))
LedgerStep-total l l' i (spends u a n p x y z) j =
    rw (n j, x j, Moved-share l.spent l'.spent u a j z)
      (spent_total (l.available j) (l.held j) (l'.held j) (l.spent j) (share u a j)
        (Moved-share l'.held l.held u a j y))
