-- ===== src/Ledger.antt =====
-- What the tables `users` and `balance_reservations` promise together: of each user, the amount that is
-- available, the amount that pending reservations hold back, and the amount that debited ones have
-- spent. This is an abstract description; `System.antt` relates the code to it.
pub mod Laws
pub mod View
use laas_api.Base.{◌==◌, ◌≡◌, false, if◌then◌else◌}
use laas_api.Int.{ℤ, pos, ◌+ℤ◌, ◌≤ℤ◌, ◌<ℤ◌}
use laas_api.Database.{Uuid}

pub record Ledger : Type 0 where
  pub available : Uuid → ℤ
  pub held : Uuid → ℤ
  pub spent : Uuid → ℤ

-- The amount of one user grows, and those of the others stay.
abbrev pub Moved : (Uuid → ℤ) → (Uuid → ℤ) → Uuid → ℤ → Type 0
Moved f g u a = (g u ≡ f u +ℤ a) × ((j : Uuid) → (u == j) ≡ false → g j ≡ f j)

abbrev pub Kept : (Uuid → ℤ) → (Uuid → ℤ) → Type 0
Kept f g = (j : Uuid) → g j ≡ f j

-- The part of a user in an amount that is another's or their own.
abbrev pub share : Uuid → ℤ → Uuid → ℤ
share u a j = if u == j then a else pos 0

abbrev pub nothing : Uuid → ℤ
nothing j = pos 0

abbrev pub IsNothing : (Uuid → ℤ) → Type 0
IsNothing f = (j : Uuid) → f j ≡ pos 0

-- What may happen to the funds, with what it brings in for each user: an amount comes in from outside;
-- an amount that is available is held back; what is held back becomes available again, or is spent.
pub data LedgerStep (l l' : Ledger) (income : Uuid → ℤ) : Type 0 where
  idles :
      IsNothing income
      → Kept l.available l'.available
      → Kept l.held l'.held
      → Kept l.spent l'.spent
      → LedgerStep l l' income
  credits :
      (u : Uuid) (a : ℤ)
      → Kept (share u a) income
      → pos 0 <ℤ a
      → Moved l.available l'.available u a
      → Kept l.held l'.held
      → Kept l.spent l'.spent
      → LedgerStep l l' income
  holds :
      (u : Uuid) (a : ℤ)
      → IsNothing income
      → pos 0 <ℤ a
      → a ≤ℤ l.available u
      → Moved l'.available l.available u a
      → Moved l.held l'.held u a
      → Kept l.spent l'.spent
      → LedgerStep l l' income
  releases :
      (u : Uuid) (a : ℤ)
      → IsNothing income
      → pos 0 <ℤ a
      → Moved l.available l'.available u a
      → Moved l'.held l.held u a
      → Kept l.spent l'.spent
      → LedgerStep l l' income
  spends :
      (u : Uuid) (a : ℤ)
      → IsNothing income
      → pos 0 <ℤ a
      → Kept l.available l'.available
      → Moved l'.held l.held u a
      → Moved l.spent l'.spent u a
      → LedgerStep l l' income

-- No user has less than nothing.
abbrev pub IsCovered : Ledger → Type 0
IsCovered l = (u : Uuid) → pos 0 ≤ℤ l.available u

-- All that a user has brought in: it is available, held back or spent.
abbrev pub total : Ledger → Uuid → ℤ
total l u = l.available u +ℤ l.held u +ℤ l.spent u
