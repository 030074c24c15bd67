-- ===== src/Chain/Delivery.antt =====
-- app/src/chain.rs: the worker passes no output of the chain by.
use laas_api.Base.{
  ℕ, ◌+◌, ◌^◌, ◌%◌, ◌≤◌, ◌<◌, ◌≡◌, inl, inr, ltb, Option, some, List, ok, arith, ap, subst,
  Bool-cases,
}
use laas_api.Btc.{TxOut}
use laas_api.Ln.{Lnd}
use laas_api.Chain.{TxListener, get_chain_tip, listen, run, process_all}
use laas_api.Chain.Handlers.{Handler, process_all-inv, process_all-keeps, process_all-handles}
use laas_api.Database.{Database}
use laas_api.Worker.{start, start-inv, start_split}
use laas_api.Chain.Turns.{
  IsBelow, Shows, Follows, Turn, After, run-inv, below_low, outputs_from-Memᴰ,
}

module _ {S : Type 0} (listener : TxListener S) (t : TxOut) (IsFit Handled : S → Type 0)
    (handler : Handler listener t IsFit Handled) (lnd : Lnd) (h : ℕ) where
  -- The chain tip has not passed the height, or the output has been handled.
  abbrev IsPassed : ℕ → S → Type 0
  IsPassed tip s = IsFit s × (h < tip → Handled s)

  process_all-IsPassed :
      (tip : ℕ) (outs : List TxOut) (s : S)
      → IsPassed tip s
      → IsPassed tip (process_all listener outs s).1
  process_all-IsPassed tip outs s (fit, before) = (
    process_all-inv listener IsFit handler.fit outs s fit,
    λ above. process_all-keeps listener t IsFit Handled handler outs s fit (before above),
  )

  shown-IsPassed :
      (node : lnd.State) (tip height : ℕ) (outs : List TxOut) (s : S)
      → Shows lnd t h node
      → IsPassed tip s
      → Turn listener lnd node tip height outs s
      → IsPassed ((height + 1) % 2 ^ 32) (process_all listener outs s).1
  shown-IsPassed node tip height outs s shows before turn = (
    (process_all-IsPassed tip outs s before).0,
    λ above. elim (Bool-cases (ltb h tip)) [
      | inl behind ↦
          process_all-keeps listener t IsFit Handled handler outs s before.0
            (before.1 (ground arith))
      | inr ahead ↦
          process_all-handles listener t IsFit Handled handler outs s turn.result
            (outputs_from-Memᴰ lnd t h node listener tip height outs shows turn.found turn.highest
              (ground arith) (omega arith))
            before.0 turn.returned
    ],
  )

  Turn-IsPassed :
      (node : lnd.State) (tip height : ℕ) (outs : List TxOut) (s : S)
      → Follows lnd t h node
      → IsPassed tip s
      → Turn listener lnd node tip height outs s
      → IsPassed ((height + 1) % 2 ^ 32) (process_all listener outs s).1
  Turn-IsPassed node tip height outs s (inl below) before turn = (
    (process_all-IsPassed tip outs s before).0,
    λ above.
        let low = below_low listener lnd node h tip height outs s below turn in
        absurd (omega arith),
  )
  Turn-IsPassed node tip height outs s (inr shows) before turn =
      shown-IsPassed node tip height outs s shows before turn

-- The worker: the node as each turn of each run finds it, and what others do during the sleeps.
module _ {S : Type 0} (listener : TxListener S) (lnd : Lnd) (nodes : ℕ → ℕ → lnd.State)
    (others : ℕ → S → S) (turns : ℕ) where
  abbrev loop : ℕ → ℕ → ℕ × S → Option (ℕ × S)
  loop n rounds state =
      start (λ n (tip, s). run listener lnd (nodes n) turns tip s) (λ n (tip, s). (tip, others n s))
        n rounds state

  loop-inv :
      (P Q : ℕ → ℕ → S → Type 0)
      → ((n tip : ℕ) (s : S)
          → P n tip s
          → After listener lnd (Q n) (run listener lnd (nodes n) turns tip s))
      → ((n tip : ℕ) (s : S) → Q n tip s → P (n + 1) tip (others n s))
      → (n rounds tip tip' : ℕ) (s s' : S) → P n tip s
      → loop n rounds (tip, s) ≡ some (tip', s')
      → P (n + rounds) tip' s'
  loop-inv P Q runs sleeps n rounds tip tip' s s' p e =
      start-inv (λ n (tip, s). run listener lnd (nodes n) turns tip s)
        (λ n (tip, s). (tip, others n s)) (λ n (tip, s). P n tip s)
        (λ n (tip, s) (tip₁, s₁) r before f.
          sleeps n tip₁ s₁ (subst (After listener lnd (Q n)) f (runs n tip s before)))
        n rounds (tip, s) (tip', s') p e

  -- Before the block is there, the chain tip does not pass its height.
  module _ (h k : ℕ) (below : (n i : ℕ) → n < k → IsBelow lnd h (nodes n i)) (IsSound : S → Type 0)
      (calls : (x : TxOut) (s : S) → IsSound s → IsSound (listener x s).1)
      (sleeps : (n : ℕ) (s : S) → IsSound s → IsSound (others n s)) where
    run_low :
        (n tip : ℕ) (s : S)
        → IsSound s × (n ≤ k → tip ≤ h)
        → After listener lnd
            (λ tip s. IsSound s × (n < k → tip ≤ h))
            (run listener lnd (nodes n) turns tip s)
    run_low n tip s (sound, low) =
        run-inv listener lnd (λ tip s. IsSound s × (n < k → tip ≤ h))
          (λ tip outs s p. (process_all-inv listener IsSound calls outs s p.0, p.1)) (nodes n)
          (λ i tip height outs s p turn. (
            process_all-inv listener IsSound calls outs s p.0,
            λ less. below_low listener lnd (nodes n i) h tip height outs s (below n i less) turn,
          ))
          turns tip s (sound, λ less. low (omega arith))

    loop_low :
        (tip tip' : ℕ) (s s' : S)
        → IsSound s
        → tip ≤ h
        → loop 0 k (tip, s) ≡ some (tip', s')
        → IsSound s' × (tip' ≤ h)
    loop_low tip tip' s s' sound low e =
        let (sound', low') =
          loop-inv (λ n tip s. IsSound s × (n ≤ k → tip ≤ h))
            (λ n tip s. IsSound s × (n < k → tip ≤ h)) run_low
            (λ n tip s p. (sleeps n s p.0, λ le. p.1 (omega arith))) 0 k tip tip' s s'
            (sound, λ le. low) e in
        (sound', low' (omega arith))

    module _ (t : TxOut) (IsFit Handled : S → Type 0) (handler : Handler listener t IsFit Handled)
        (follows : (n i : ℕ) → Follows lnd t h (nodes n i))
        (keep : (n : ℕ) (s : S)
          → IsFit s
          → IsFit (others n s) × (Handled s → Handled (others n s))) where
      loop_handles :
          (rounds tip tip' : ℕ) (s s' : S)
          → IsFit s
          → tip ≤ h
          → loop k rounds (tip, s) ≡ some (tip', s')
          → h < tip'
          → Handled s'
      loop_handles rounds tip tip' s s' fit low e above =
          (loop-inv (λ n. IsPassed listener t IsFit Handled handler lnd h)
              (λ n. IsPassed listener t IsFit Handled handler lnd h)
              (λ n tip s p.
                run-inv listener lnd (IsPassed listener t IsFit Handled handler lnd h)
                  (process_all-IsPassed listener t IsFit Handled handler lnd h) (nodes n)
                  (λ i tip height outs s p turn.
                    Turn-IsPassed listener t IsFit Handled handler lnd h (nodes n i) tip height outs
                      s (follows n i) p turn)
                  turns tip s p)
              (λ n tip s p. let kept = keep n s p.0 in (kept.0, λ above. kept.1 (p.1 above))) k
              rounds tip tip' s s' (fit, λ above. absurd (omega arith)) e).1
            above

      -- The worker that starts at or below the block of an output has handled the output once its chain
      -- tip is above the block, whenever the block is mined and however many of its runs have panicked:
      -- if a call of the listener that returns for the output handles it, and no later call, for this or
      -- another output, and nothing that happens while the worker sleeps undoes that. Every turn finds
      -- the chain of the node below the block, or the node shows the output in the ranges that have its
      -- block and no transaction above the end of a range. What the calls rely on holds after the first
      -- `k` runs, in which the chain is below the block, and is kept by the calls and during the sleeps.
      pub listen_handles :
          (store : S → Database) (start_height rounds : ℕ) (s : S) (tip tip' : ℕ) (s' : S)
          → IsSound s
          → ((tip₁ : ℕ) (s₁ : S)
              → IsSound s₁
              → listen listener lnd store start_height nodes others turns k s ≡ ok (some (tip₁, s₁))
              → IsFit s₁)
          → get_chain_tip start_height (store s) ≡ ok tip
          → tip ≤ h
          → listen listener lnd store start_height nodes others turns (k + rounds) s
            ≡ ok (some (tip', s'))
          → h < tip'
          → Handled s'
      unfolding listen
      listen_handles store start_height rounds s tip tip' s' sound ready at low e above =
          let found : loop 0 (k + rounds) (tip, s) ≡ some (tip', s') =
            let e' = rw at at e in ground arith in
          let ((tip₁, s₁), first, rest) =
            start_split (λ n (tip, s). run listener lnd (nodes n) turns tip s)
              (λ n (tip, s). (tip, others n s)) 0 k rounds (tip, s) (tip', s') found in
          let (sound₁, low₁) = loop_low tip tip₁ s s₁ sound low first in
          let none_before : 0 + k ≡ k = omega arith in
          loop_handles rounds tip₁ tip' s₁ s' (ready tip₁ s₁ sound₁ (rw at (ap (λ x. ok x) first)))
            low₁ (rw none_before at rest) above
