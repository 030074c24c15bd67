-- ===== src/System/Handlers.antt =====
-- The calls of the services, each with its reads, its writes and its rollback, as runs of committed
-- transactions.
use laas_api.Base.{
  ℕ, List, ◌≡◌, refl, Bool-cases, Outcome-cases, inl, inr, Outcome, ok, err, panic, some, none,
  Never, arith, >>=-eq-ok, unwrap, Option, ◌>>=◌,
}
use laas_api.Int.{pos, ◌+ℤ◌, ◌<ℤ◌, IsI64}
use laas_api.Btc.{Address, Sats, TxOut, tx_is_confirmed}
use laas_api.Database.{Uuid, Database}
use laas_api.Database.Transactions.{Surroundings, rolled_back, transaction}
use laas_api.Balance.{Balance, Reservation}
use laas_api.Balance.Queries
use laas_api.Auth.{SpendGrant}
use laas_api.Ln.{Lnd}
use laas_api.Payment
use laas_api.Payment.{Payment, prepare, send}
use laas_api.Payment.Service.{
  Shared, prepare_once, prepare_writes, finish, send_once, send_writes, load, load_reservation,
}
use laas_api.Withdrawal
use laas_api.Withdrawal.{Withdrawal, is_confirmed}
use laas_api.Withdrawal.Rows.{get_by_tx_out}
use laas_api.Withdrawal.Service.{settle, settle_found, process, start_once, write_started}
use laas_api.System.{Run, done, then, confirmed, started, prepared, sent, IsFresh}

module _ (lnd : Lnd) where
  pub Run-trans : {a b c : Database} → Run lnd a b → Run lnd b c → Run lnd a c
  Run-trans r done = r
  Run-trans r (then s t) = then (Run-trans r s) t

  -- What the others commit during a call are runs too.
  abbrev pub IsOthers : Surroundings → Type 0
  IsOthers env =
      ((db : Database) → Run lnd db (env.first db)) × ((db : Database) → Run lnd db (env.second db))

  pub rolled_back-Run :
      (env : Surroundings) (db : Database) → IsOthers env → Run lnd db (rolled_back env db)
  rolled_back-Run env db others = Run-trans (others.0 db) (others.1 (env.first db))

  settled_run :
      (env : Surroundings) (out : TxOut) (w : Withdrawal) (db : Database)
      (result : Outcome Never Database)
      → IsOthers env
      → settle env out w (env.first db) ≡ result
      → Run lnd db (transaction env db (do db' ← result; ok (tt, db'))).1
  settled_run env out w db (ok db') others h =
      then (rolled_back-Run env db others)
        (confirmed (env.first db) env out w (others.1 (env.first db)) refl h)
  settled_run env out w db (err e) others h = rolled_back-Run env db others
  settled_run env out w db panic others h = rolled_back-Run env db others

  found_run :
      (env : Surroundings) (out : TxOut) (found : Option Withdrawal) (db : Database)
      → IsOthers env
      → Run lnd db
          (transaction env db (do db' ← settle_found env out found (env.first db); ok (tt, db'))).1
  found_run env out none db others = others.0 db
  found_run env out (some w) db others = elim (Bool-cases (is_confirmed w)) [
    | inl before ↦ rw before (others.0 db)
    | inr fresh ↦ rw fresh (settled_run env out w db (settle env out w (env.first db)) others refl)
  ]

  pub process-Run :
      (env : Surroundings) (out : TxOut) (db : Database)
      → IsOthers env
      → Run lnd db (process env out db).1
  unfolding process
  process-Run env out db others = elim (Bool-cases (tx_is_confirmed out.tx)) [
    | inl deep ↦ rw deep (found_run env out (get_by_tx_out db out.tx.id out.v_out) db others)
    | inr shallow ↦ rw shallow done
  ]

  module _ (env : Surroundings) (others : IsOthers env) where
    -- A new reservation of a withdrawal: the id that was drawn is fresh, and the amount is positive.
    abbrev pub StartsWell : Uuid → SpendGrant → Address → Sats → lnd.State → Database → Type 0
    StartsWell id grant address amount node db =
        IsFresh id (env.first db)
        × ((b : Balance) (w : Withdrawal) (r : Reservation)
            → (Withdrawal.start lnd env.id id env.now grant b address amount node).0.0 ≡ ok (w, r)
            → pos 0 <ℤ r.amount)

    pub start_once-Run :
        (id : Uuid) (grant : SpendGrant) (address : Address) (amount : Sats) (node : lnd.State)
        (db : Database)
        → StartsWell id grant address amount node db
        → Run lnd db (start_once lnd id grant address amount env (node, db)).1.1
    unfolding start_once
    start_once-Run id grant address amount node db (fresh, positive) =
        elim (Outcome-cases (Queries.get {E = Withdrawal.Error} db grant.user_id)) [
          | inl (b, e) ↦
              let x = Withdrawal.start lnd env.id id env.now grant b address amount node in
              rw (e, start_once) (written b e (write_started lnd x.0 (env.first db)) refl)
          | inr (inl (x, e)) ↦ rw (e, start_once) (rolled_back-Run env db others)
          | inr (inr e) ↦ rw (e, start_once) (rolled_back-Run env db others)
        ]
      where
        written :
            (b : Balance)
            → Queries.get {E = Withdrawal.Error} db grant.user_id ≡ ok b
            → (result : Outcome Withdrawal.Error (Withdrawal × Database))
            → write_started lnd
                (Withdrawal.start lnd env.id id env.now grant b address amount node).0
                (env.first db)
              ≡ result
            → Run lnd db (transaction env db result).1
        written b read (ok (w, db')) h = then (others.0 db) (
            started db env.id id env.now grant address amount b w node (others.0 db) read
              (h, positive b) fresh)
        written b read (err e) h = rolled_back-Run env db others
        written b read panic h = rolled_back-Run env db others

    -- A payment of the caller, and a new reservation of a positive amount.
    abbrev pub PreparesWell : (ℕ → List ℕ) → SpendGrant → Shared lnd → Type 0
    PreparesWell hash grant s =
        (s.payment.user_id ≡ grant.user_id)
        × IsFresh env.id (env.first s.db)
        × ((b : Balance) (r : Reservation)
            → (prepare lnd env.id env.now hash s.payment b s.node).0.0 ≡ ok r
            → pos 0 <ℤ r.amount)

    pub prepare_once-Run :
        (hash : ℕ → List ℕ) (grant : SpendGrant) (s : Shared lnd)
        → PreparesWell hash grant s
        → Run lnd s.db (prepare_once lnd hash grant env s).1.db
    unfolding prepare_once
    prepare_once-Run hash grant s (owner, fresh, positive) =
        elim (Outcome-cases (Queries.get {E = Payment.Error} s.db grant.user_id)) [
          | inl (b, e) ↦
              let x = prepare lnd env.id env.now hash s.payment b s.node in
              rw (e, prepare_once)
                (written b e (prepare_writes x.0.0 x.0.1 x.0.2 (env.first s.db)) refl)
          | inr (inl (x, e)) ↦ rw (e, prepare_once) done
          | inr (inr e) ↦ rw (e, prepare_once) done
        ]
      where
        written :
            (b : Balance)
            → Queries.get {E = Payment.Error} s.db grant.user_id ≡ ok b
            → (result : Outcome Payment.Error Database)
            → (let x = prepare lnd env.id env.now hash s.payment b s.node in
                prepare_writes x.0.0 x.0.1 x.0.2 (env.first s.db) ≡ result)
            → let x = prepare lnd env.id env.now hash s.payment b s.node in
              Run lnd s.db (finish lnd x.0.0 x.0.1 x.1 (env.first s.db) result).1.db
        written b read (ok db') h = then (others.0 s.db) (
            prepared s.db env.id env.now hash s.payment b s.node (others.0 s.db) (rw owner read)
              (h, positive b) fresh)
        written b read (err e) h = others.0 s.db
        written b read panic h = others.0 s.db

    -- A payment of the caller, whose reservation is theirs and fits into the balance again.
    abbrev pub SendsWell : SpendGrant → Shared lnd → Type 0
    SendsWell grant s =
        (s.payment.user_id ≡ grant.user_id)
        × ((b : Balance) (r : Reservation)
            → load lnd grant s ≡ ok (b, r)
            → (r.user_id ≡ s.payment.user_id) × IsI64 (b.amount +ℤ r.amount))

    pub send_once-Run :
        (grant : SpendGrant) (s : Shared lnd)
        → SendsWell grant s
        → Run lnd s.db (send_once lnd grant env s).1.db
    unfolding send_once
    send_once-Run grant s (owner, well) = elim (Outcome-cases (load lnd grant s)) [
      | inl ((b, r), e) ↦
          let x = send lnd env.now s.payment b r s.node in
          rw (e, send_once)
            (written b r e (send_writes x.0.0 x.0.3 x.0.1 x.0.2 (env.first s.db)) refl)
      | inr (inl (x, e)) ↦ rw (e, send_once) done
      | inr (inr e) ↦ rw (e, send_once) done
    ]
      where
        written :
            (b : Balance) (r : Reservation)
            → load lnd grant s ≡ ok (b, r)
            → (result : Outcome Payment.Error Database)
            → (let x = send lnd env.now s.payment b r s.node in
                send_writes x.0.0 x.0.3 x.0.1 x.0.2 (env.first s.db) ≡ result)
            → let x = send lnd env.now s.payment b r s.node in
              Run lnd s.db (finish lnd x.0.0 x.0.1 x.1 (env.first s.db) result).1.db
        written b r e (ok db') h =
            let (b₁, read, h₁) =
              >>=-eq-ok (Queries.get {E = Payment.Error} s.db grant.user_id) _ e in
            let (r₁, loaded, h₂) = >>=-eq-ok (load_reservation lnd s) _ h₁ in
            let (id, named, stored) = >>=-eq-ok (unwrap s.payment.reservation_id) _ loaded in
            let same_b : b₁ ≡ b = ground arith in
            let same_r : r₁ ≡ r = ground arith in
            then (others.0 s.db) (
              sent s.db env.now id s.payment b r s.node (others.0 s.db) (rw (owner, ← same_b) read)
                (rw (← same_r) stored) (well b r e).0 (well b r e).1 h)
        written b r e (err x) h = others.0 s.db
        written b r e panic h = others.0 s.db
