-- ===== src/Chain/Handlers.antt =====
-- app/src/chain.rs: the calls of a listener for the outputs of one turn.
use mathlib.Core.List.{Memᴰ}
use mathlib.Core.List.Memᴰ as Memᴰ
use laas_api.Base.{
  ◌≡◌, List, [], ◌∷◌, ok, err, panic, arith, Outcome-cases, inl, inr, ap, subst, ◌∙◌,
}
use laas_api.Btc.{TxOut}
use laas_api.Chain.{TxListener, process_all}

-- What every call of a listener keeps, however it ends, holds after the outputs have been shown.
pub process_all-inv :
    {S : Type 0} (listener : TxListener S) (P : S → Type 0)
    → ((x : TxOut) (s : S) → P s → P (listener x s).1)
    → (ts : List TxOut) (s : S) → P s
    → P (process_all listener ts s).1
unfolding process_all
process_all-inv listener P step [] s p = p
process_all-inv listener P step (x ∷ xs) s p = elim (Outcome-cases (listener x s).0) [
  | inl (u, e) ↦
      rw (e, process_all) (process_all-inv listener P step xs (listener x s).1 (step x s p))
  | inr (inl (problem, e)) ↦ rw (e, process_all) (step x s p)
  | inr (inr e) ↦ rw (e, process_all) (step x s p)
]

-- A listener handles an output: a call for it that returns does, no later call for this or another
-- output undoes it, and all calls keep what they rely on.
pub record Handler {S : Type 0} (listener : TxListener S) (t : TxOut) (IsFit Handled : S → Type 0)
    : Type 0 where
  pub fit : (x : TxOut) (s : S) → IsFit s → IsFit (listener x s).1
  pub handles :
      (s : S) (u : Unit {0}) → IsFit s → (listener t s).0 ≡ ok u → Handled (listener t s).1
  pub keeps : (x : TxOut) (s : S) → IsFit s → Handled s → Handled (listener x s).1

module _ {S : Type 0} (listener : TxListener S) (t : TxOut) (IsFit Handled : S → Type 0)
    (handler : Handler listener t IsFit Handled) where
  pub process_all-keeps :
      (ts : List TxOut) (s : S) → IsFit s → Handled s → Handled (process_all listener ts s).1
  process_all-keeps ts s f p =
      (process_all-inv listener (λ s. IsFit s × Handled s)
        (λ x s both. (handler.fit x s both.0, handler.keeps x s both.0 both.1)) ts s (f, p)).1

  pub process_all-handles :
      (ts : List TxOut) (s : S) (u : Unit {0})
      → Memᴰ t ts
      → IsFit s
      → (process_all listener ts s).0 ≡ ok u
      → Handled (process_all listener ts s).1
  unfolding process_all
  process_all-handles [] s u m fit h = elim m [ ]
  process_all-handles (x ∷ xs) s u m fit h = elim (Outcome-cases (listener x s).0) [
    | inl (v, e) ↦
        let fit' = handler.fit x s fit in
        rw (e, process_all)
          (elim (Memᴰ.cases_cons m) [
            | inl same ↦ process_all-keeps xs (listener x s).1 fit' (
                subst (λ z. Handled (listener z s).1) same
                  (handler.handles s v fit (ap (λ z. (listener z s).0) same ∙ e)))
            | inr later ↦
                process_all-handles xs (listener x s).1 u later fit' (rw (e, process_all) at h)
          ])
    | inr (inl (problem, e)) ↦
        absurd (let bad : err problem ≡ ok u = rw (e, process_all) at h in ground arith)
    | inr (inr e) ↦ absurd (let bad : panic ≡ ok u = rw (e, process_all) at h in ground arith)
  ]
