-- ===== src/Chain/Tips.antt =====
-- app/src/chain.rs: the chain tip that a worker starts from.
use mathlib.Core.List.{Memᴰ}
use laas_api.Base.{
  ℕ, ◌≤◌, ◌≡◌, ◌⊎◌, inl, inr, refl, ltb, Option, none, some, List, [], ◌∷◌, All, All-mono, ok,
  arith, Option-cases, Bool-cases, ap, ◌∙◌, ◌^◌,
}
use laas_api.Database.{Database, TxOutRow}
use laas_api.Chain.{max_block, get_chain_tip}

-- A height, if there is one, is not above another.
abbrev pub IsAtMost : ℕ → Option ℕ → Type 0
IsAtMost t none = Unit
IsAtMost t (some b) = b ≤ t

-- A row has the height.
abbrev pub Occurs : ℕ → List TxOutRow → Type 0
Occurs t rows = (row : TxOutRow) × Memᴰ row rows × (row.block_height ≡ some t)

-- The tip is the highest block of an output, or the first block, when no output is in a block.
abbrev pub IsTip : ℕ → Database → ℕ → Type 0
IsTip first_block db tip =
    (All (λ row. IsAtMost tip row.block_height) db.tx_outs × Occurs tip db.tx_outs)
    ⊎ (All (λ row. row.block_height ≡ none) db.tx_outs × (tip ≡ first_block))

max_block-none :
    (rows : List TxOutRow) → max_block rows ≡ none → All (λ row. row.block_height ≡ none) rows
max_block-none [] h = tt
max_block-none (row ∷ rows) h = elim (Option-cases row.block_height) [
  | inl e ↦ (e, max_block-none rows (rw e at h))
  | inr (b, e) ↦ elim (Option-cases (max_block rows)) [
    | inl f ↦ absurd (ground arith)
    | inr (m, f) ↦ absurd (ground arith)
  ]
]

IsAtMost-trans : (a b : ℕ) (o : Option ℕ) → a ≤ b → IsAtMost a o → IsAtMost b o
IsAtMost-trans a b none h p = tt
IsAtMost-trans a b (some x) h p = omega arith

max_block-some :
    (rows : List TxOutRow) (m : ℕ)
    → max_block rows ≡ some m
    → All (λ row. IsAtMost m row.block_height) rows × Occurs m rows
max_block-some [] m h = absurd (ground arith)
max_block-some (row ∷ rows) m h = elim (Option-cases row.block_height) [
  | inl e ↦
      let (low, (found, at, has)) = max_block-some rows m (rw e at h) in
      ((rw e tt, low), (found, Memᴰ.tail at, has))
  | inr (b, e) ↦ elim (Option-cases (max_block rows)) [
    | inl f ↦
        let same : b ≡ m = ground arith in
        (
          (
            rw e (omega (arith, same)),
            All-mono (λ row. row.block_height ≡ none) (λ row. IsAtMost m row.block_height) rows
                (λ row g. rw g tt) (max_block-none rows f),
          ),
          (row, Memᴰ.head refl, e ∙ ap some same),
        )
    | inr (k, f) ↦
        let (low, (found, at, has)) = max_block-some rows k f in
        elim (Bool-cases (ltb b k)) [
          | inl less ↦
              let same : k ≡ m = ground arith in
              (
                (
                  rw e (ground arith),
                  All-mono (λ row. IsAtMost k row.block_height) (λ row. IsAtMost m row.block_height)
                      rows (λ row p. IsAtMost-trans k m row.block_height (omega (arith, same)) p)
                      low,
                ),
                (found, Memᴰ.tail at, has ∙ ap some same),
              )
          | inr more ↦
              let same : b ≡ m = ground arith in
              let above : k ≤ m = ground arith in
              (
                (
                  rw e (omega (arith, same)),
                  All-mono (λ row. IsAtMost k row.block_height) (λ row. IsAtMost m row.block_height)
                      rows (λ row p. IsAtMost-trans k m row.block_height above p) low,
                ),
                (row, Memᴰ.head refl, e ∙ ap some same),
              )
        ]
  ]
]

pub get_chain_tip-IsTip :
    (first_block : ℕ) (db : Database) (tip : ℕ)
    → get_chain_tip first_block db ≡ ok tip
    → IsTip first_block db tip
unfolding get_chain_tip
get_chain_tip-IsTip first_block db tip h = elim (Bool-cases (ltb first_block (2 ^ 31))) [
  | inl small ↦ elim (Option-cases (max_block db.tx_outs)) [
    | inl none_there ↦ inr (max_block-none db.tx_outs none_there, ground arith)
    | inr (m, found) ↦
        let same : m ≡ tip = ground arith in
        inl (max_block-some db.tx_outs tip (found ∙ ap some same))
  ]
  | inr big ↦ absurd (ground arith)
]
