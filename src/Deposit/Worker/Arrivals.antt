-- ===== src/Deposit/Worker/Arrivals.antt =====
-- app/src/deposit/mod.rs: the worker passes no deposit by.
use laas_api.Base.{
  ℕ, ◌+◌, ◌≤◌, ◌<◌, true, false, ◌≡◌, refl, some, none, Outcome, ok, err, panic, arith, Bool-cases,
  Option-cases, inl, inr, ◌∙◌, ap, sym, subst, ◌&&◌, ◌==◌,
}
use laas_api.Int.{eqb_ℤ, eqb_ℤ_iff}
use laas_api.Btc.{TxOut, tx_is_confirmed}
use laas_api.Chain.{get_chain_tip}
use laas_api.Chain.Handlers.{Handler}
use laas_api.Chain.Turns.{IsBelow, Follows}
use laas_api.Chain.Delivery.{listen_handles}
use laas_api.Concurrency.{ConflictError, retry_loop}
use laas_api.Concurrency.Retries.{retry_loop-inv}
use laas_api.Database.{Database}
use laas_api.Database.Transactions.{Surroundings, rolled_back}
use laas_api.Deposit.{Deposit, is_confirmed, start_deposit}
use laas_api.Deposit.Queries.{get}
use laas_api.Deposit.Credits.{confirmed_by}
use laas_api.Deposit.Delivery.{
  process_once_confirmed, get_or_start_found, get_or_start_new, settled_get,
}
use laas_api.Deposit.Listener.{get_or_start, process_once, process, conflict_chain, unwrap_result}
use laas_api.Deposit.Worker.{listener, start_worker}
use laas_api.Deposit.Worker.Inserts.{
  Keeps, IsArrived, Keeps-IsArrived, get-IsArrived, IsArrived-get,
}
use laas_api.Deposit.Worker.Calls.{process_once-inv, process_once-err}
use laas_api.Deposit.Worker.Fitness.{
  AreCalm, IsFit, IsOwned, IsFit-IsNew, IsFit-suc, Keeps-IsFit, Keeps-IsOwned, IsFit-IsKept,
  IsOwned-IsKept, IsArrived-IsKept,
}
use laas_api.Ln.{Lnd}

-- The state is not changed by `unwrap`.
unwrap_state : {E A S : Type 0} (r : Outcome E A × S) → (unwrap_result r).1 ≡ r.1
unwrap_state (ok a, s) = refl
unwrap_state (err e, s) = refl
unwrap_state (panic, s) = refl

unwrap_result_ok :
    {E S : Type 0} (r : Outcome E (Unit {0}) × S) (u : Unit {0})
    → (unwrap_result r).0 ≡ ok u
    → r.0 ≡ ok tt
unwrap_result_ok (ok u', s) u h = refl
unwrap_result_ok (err e, s) u h = absurd (ground arith)
unwrap_result_ok (panic, s) u h = absurd (ground arith)

abbrev Result : Type 0
Result = Outcome ConflictError Unit × Database

-- The retry loop of the `n`th call.
abbrev loop : (ℕ → ℕ → Surroundings) → ℕ → TxOut → Database → Result
loop env n x db = retry_loop conflict_chain (λ i. process_once (env n i) x) db

module _ (env : ℕ → ℕ → Surroundings) (calm : AreCalm env) (out : TxOut)
    (t : tx_is_confirmed out.tx ≡ true) where
  module _ (n i : ℕ) (db db' : Database) (address : IsOwned out db)
      (h : process_once (env n i) out db ≡ (ok tt, db')) where
    settled_arrives :
        (d : Deposit) (db₁ : Database)
        → get_or_start (env n i) out db ≡ ok (some d, db₁)
        → is_confirmed d ≡ false
        → IsArrived out db'
    unfolding is_confirmed
    settled_arrives d db₁ e c =
        get-IsArrived out db' (confirmed_by (env n i) out d)
          (settled_get (env n i) out db db' t h d db₁ e c) refl

    found_arrives : (d : Deposit) → get db out.tx.id out.v_out ≡ some d → IsArrived out db'
    found_arrives d e = elim (Bool-cases (is_confirmed d)) [
      | inl c ↦
          let same : (env n i).first db ≡ db' =
            ap (λ r. r.1) (sym (process_once_confirmed (env n i) out db d e c) ∙ h) in
          subst (IsArrived out) same (
            Keeps-IsArrived out db ((env n i).first db) (calm.first n i db)
              (get-IsArrived out db d e c))
      | inr c ↦
          settled_arrives d ((env n i).first db) (get_or_start_found (env n i) out db db' t h d e) c
    ]

    new_arrives : get db out.tx.id out.v_out ≡ none → IsArrived out db'
    unfolding start_deposit is_confirmed
    new_arrives e =
        let (a, owned) = (calm.first n i db).addresses out.address address.0 address.1 in
        let (db₁, started) = get_or_start_new (env n i) out db db' t h a e owned in
        settled_arrives (start_deposit (env n i).id (env n i).now a out) db₁ started refl

    -- A call for the output that succeeds leaves its deposit confirmed.
    once_arrives : IsArrived out db'
    once_arrives = elim (Option-cases (get db out.tx.id out.v_out)) [
      | inl e ↦ new_arrives e
      | inr (d, e) ↦ found_arrives d e
    ]

  module _ (n i : ℕ) (x : TxOut) (db : Database) (fit : IsFit env n db) where
    once-IsFit : IsFit env (n + 1) (process_once (env n i) x db).1
    once-IsFit =
        process_once-inv (env n i) x (IsFit env (n + 1)) (IsFit-IsKept env out calm n i x) db
          (IsFit-IsNew env out n i db fit) (IsFit-suc env out n db fit)

    same_keeps :
        x.tx.id ≡ out.tx.id
        → x.v_out ≡ out.v_out
        → IsArrived out db
        → IsArrived out (process_once (env n i) x db).1
    same_keeps id index arrived =
        let (d, e, c) = IsArrived-get out db arrived in
        let at : get db x.tx.id x.v_out ≡ some d = rw (id, index) e in
        rw (process_once_confirmed (env n i) x db d at c)
          (Keeps-IsArrived out db ((env n i).first db) (calm.first n i db) arrived)

    -- No call undoes the confirmation.
    once_keeps : IsArrived out db → IsArrived out (process_once (env n i) x db).1
    once_keeps arrived = elim (Bool-cases (x.tx.id == out.tx.id && eqb_ℤ x.v_out out.v_out)) [
      | inl same ↦ same_keeps (ground arith) (ground (arith, eqb_ℤ_iff x.v_out out.v_out)) arrived
      | inr other ↦
          (process_once-inv (env n i) x (λ db. IsFit env (n + 1) db × IsArrived out db)
            (IsArrived-IsKept env out calm n i x other) db (IsFit-IsNew env out n i db fit)
            (IsFit-suc env out n db fit, arrived)).1
    ]

    rolled-IsFit : IsFit env n (rolled_back (env n i) db)
    rolled-IsFit =
        Keeps-IsFit env out n ((env n i).first db) (rolled_back (env n i) db)
          (calm.second n i ((env n i).first db))
          (Keeps-IsFit env out n db ((env n i).first db) (calm.first n i db) fit)

    once_owned : IsOwned out db → IsOwned out (process_once (env n i) x db).1
    once_owned owned =
        process_once-inv (env n i) x (IsOwned out) (IsOwned-IsKept env out calm n i x) db
          (IsFit-IsNew env out n i db fit) owned

    rolled_owned : IsOwned out db → IsOwned out (rolled_back (env n i) db)
    rolled_owned owned =
        Keeps-IsOwned out ((env n i).first db) (rolled_back (env n i) db)
          (calm.second n i ((env n i).first db))
          (Keeps-IsOwned out db ((env n i).first db) (calm.first n i db) owned)

    rolled_keeps : IsArrived out db → IsArrived out (rolled_back (env n i) db)
    rolled_keeps arrived =
        Keeps-IsArrived out ((env n i).first db) (rolled_back (env n i) db)
          (calm.second n i ((env n i).first db))
          (Keeps-IsArrived out db ((env n i).first db) (calm.first n i db) arrived)

  -- What a call leads to from a store that is fit, and a rollback keeps, the retry loop leads to.
  loop_rule :
      (n : ℕ) (x : TxOut) (P : Database → Type 0) (Q : Result → Type 0)
      → ((i : ℕ) (db : Database) → IsFit env n db → P db → P (rolled_back (env n i) db))
      → ((i : ℕ) (db : Database) → IsFit env n db → P db → Q (process_once (env n i) x db))
      → (db : Database) → IsFit env n db
      → P db
      → Q (loop env n x db)
  loop_rule n x P Q rolls calls db fit p =
      retry_loop-inv conflict_chain (λ i. process_once (env n i) x) (λ s. IsFit env n s × P s) Q
        (λ i s m e p call again.
          rw (process_once-err (env n i) x s m e call)
            (rolled-IsFit n i x s p.0, rolls i s p.0 p.1))
        (λ i s p. calls i s p.0 p.1) db (fit, p)

  module _ (n : ℕ) (x : TxOut) (db : Database) (fit : IsFit env n db) where
    loop-IsFit : IsFit env (n + 1) (loop env n x db).1
    loop-IsFit =
        loop_rule n x (λ s. Unit {0}) (λ (r : Result). IsFit env (n + 1) r.1) (λ i s fit p. tt)
          (λ i s fit p. once-IsFit n i x s fit) db fit tt

    loop_owned : IsOwned out db → IsOwned out (loop env n x db).1
    loop_owned =
        loop_rule n x (IsOwned out) (λ (r : Result). IsOwned out r.1) (λ i. rolled_owned n i x)
          (λ i. once_owned n i x) db fit

    loop_keeps : IsArrived out db → IsArrived out (loop env n x db).1
    loop_keeps =
        loop_rule n x (IsArrived out) (λ (r : Result). IsArrived out r.1) (λ i. rolled_keeps n i x)
          (λ i. once_keeps n i x) db fit

  loop_arrives :
      (n : ℕ) (db : Database)
      → IsFit env n db
      → IsOwned out db
      → (loop env n out db).0 ≡ ok tt
      → IsArrived out (loop env n out db).1
  loop_arrives n =
      loop_rule n out (IsOwned out) (λ (r : Result). r.0 ≡ ok tt → IsArrived out r.1)
        (λ i. rolled_owned n i out)
        (λ i s fit owned f.
          once_arrives n i s (process_once (env n i) out s).1 owned
            (λ k. (f k, (process_once (env n i) out s).1)))

  process-loop :
      (n : ℕ) (x : TxOut) (db : Database) → (process (env n) x db).1 ≡ (loop env n x db).1
  unfolding process
  process-loop n x db = unwrap_state (loop env n x db)

  -- The store is fit for the next call, and the address of the output belongs to a user.
  abbrev IsReady : ℕ × Database → Type 0
  IsReady (n, db) = IsFit env n db × IsOwned out db

  -- The listener handles every confirmed output to an address of a user.
  listener-Handler : Handler (listener env) out IsReady (λ (n, db). IsArrived out db)
  unfolding process
  listener-Handler = record {
    fit = λ x (n, db) (fit, owned).
        rw (process-loop n x db) (loop-IsFit n x db fit, loop_owned n x db fit owned);
    handles = λ (n, db) u (fit, owned) h.
        rw (process-loop n out db)
          (loop_arrives n db fit owned (unwrap_result_ok (loop env n out db) u h));
    keeps =
        λ x (n, db) (fit, owned) arrived. rw (process-loop n x db) (loop_keeps n x db fit arrived);
  }

  -- A deposit is not passed by: when the worker has started at or below the block of a confirmed output to
  -- the address of a user, and its chain tip is above that block, the output is stored as a confirmed
  -- deposit, whenever it is mined and however many calls have met conflicts or panicked. Every turn
  -- finds the chain of the node below the block, or the node shows the output in the ranges that have
  -- its block and no transaction above the end of a range. In the first `k` runs the chain is below the
  -- block, and after them the address belongs to a user. Other transactions write no deposit and drop
  -- no address and no output; the stored deposits have distinct ids, and every id is drawn once.
  pub deposit_arrives :
      (lnd : Lnd) (start_height h k : ℕ) (nodes : ℕ → ℕ → lnd.State)
      (others : ℕ → Database → Database) (turns rounds : ℕ) (db : Database) (tip tip' calls : ℕ)
      (db' : Database)
      → ((n i : ℕ) → n < k → IsBelow lnd h (nodes n i))
      → ((n i : ℕ) → Follows lnd out h (nodes n i))
      → ((n : ℕ) (db : Database) → Keeps db (others n db))
      → IsFit env 0 db
      → ((tip₁ calls₁ : ℕ) (db₁ : Database)
          → start_worker lnd start_height nodes others env turns k db
            ≡ ok (some (tip₁, (calls₁, db₁)))
          → IsOwned out db₁)
      → get_chain_tip start_height db ≡ ok tip
      → tip ≤ h
      → start_worker lnd start_height nodes others env turns (k + rounds) db
        ≡ ok (some (tip', (calls, db')))
      → h < tip'
      → (d : Deposit) × (get db' out.tx.id out.v_out ≡ some d) × (is_confirmed d ≡ true)
  unfolding start_worker
  deposit_arrives lnd start_height h k nodes others turns rounds db tip tip' calls db' below follows
        keeps fit owned at low e above =
      IsArrived-get out db' (
        listen_handles (listener env) lnd nodes (λ n (calls, db). (calls, others n db)) turns h k
          below (λ (n, db). IsFit env n db)
          (λ x (n, db) fit. rw (process-loop n x db) (loop-IsFit n x db fit))
          (λ n (calls, db) fit. Keeps-IsFit env out calls db (others n db) (keeps n db) fit) out
          IsReady (λ (n, db). IsArrived out db) listener-Handler follows
          (λ n (calls, db) (fit, owned). (
            (
              Keeps-IsFit env out calls db (others n db) (keeps n db) fit,
              Keeps-IsOwned out db (others n db) (keeps n db) owned,
            ),
            λ arrived. Keeps-IsArrived out db (others n db) (keeps n db) arrived,
          ))
          (λ s. s.1) start_height rounds (0, db) tip tip' (calls, db') fit
          (λ tip₁ (calls₁, db₁) fit₁ e₁. (fit₁, owned tip₁ calls₁ db₁ e₁)) at low e above)
