-- ===== src/Invoice/Settlements.antt =====
-- app/src/invoice: what settling an invoice credits, and what a concurrency conflict does to
-- `complete`.
use laas_api.Base.{
  ℕ, ◌≡◌, ◌≢◌, refl, ap, ◌∙◌, sym, true, false, ◌==◌, some, find, Outcome-cases, Outcome, ok, err,
  panic, inl, inr, arith, >>=-eq-ok, IsKeyed, ◌>>=◌,
}
use laas_api.Int.{pos, ◌+ℤ◌, ◌<ℤ◌, IsI64}
use laas_api.Concurrency.{ConflictError, is_conflict}
use laas_api.Concurrency.Retries.{retry_loop-eq}
use laas_api.Database.{Uuid, Database, UserRow}
use laas_api.Database.Transactions.{Surroundings, rolled_back}
use laas_api.Balance.{Balance, credit}
use laas_api.Balance.Credits.{update-credit}
use laas_api.Balance.Updates.{user_key, Stored, update-keeps}
use laas_api.Balance.Queries
use laas_api.Ln.{SettledInvoice}
use laas_api.Invoice.{Invoice, is_settled, settle}
use laas_api.Invoice.Rows.{get, upsert_invoice}
use laas_api.Invoice.Service.{
  complete_once, complete, complete_writes, finish, settle_and_write, conflict_chain,
  unwrap_completion,
}
use laas_api.Invoice.RoundTrip.{upsert_invoice-eq, get-invoices, get-upsert_invoice}

-- The invoice that a settlement leaves in memory.
abbrev pub settled_by : Surroundings → SettledInvoice → Invoice → Invoice
settled_by env settled i = record i {
  settlement = some (record {
    amount = settled.amount;
    timestamp = env.now;
    settle_index = settled.settle_index;
  });
}

settle_eq :
    (env : Surroundings) (settled : SettledInvoice) (i : Invoice) (b : Balance)
    (both : Invoice × Balance)
    → settle {E = ConflictError} env.now i b settled ≡ ok both
    → both ≡ (settled_by env settled i, credit b settled.amount)
unfolding settle
settle_eq env settled i b both h = ground arith

module _ (env : Surroundings) (settled : SettledInvoice) (i : Invoice) (db : Database) where
  -- What a call reads and settles.
  abbrev pub attempt : Outcome ConflictError (Invoice × Balance)
  attempt = do b ← Queries.get db i.user_id; settle env.now i b settled

  pub call_fresh :
      is_settled i ≡ false
      → complete_once env settled (i, db)
        ≡ settle_and_write env i db (Queries.get db i.user_id) settled
  unfolding complete_once
  call_fresh fresh = rw fresh refl

  pub call_writes :
      (both : Invoice × Balance)
      → attempt ≡ ok both
      → settle_and_write env i db (Queries.get db i.user_id) settled
        ≡ finish env both.0 db (complete_writes both.0 both.1 (env.first db))
  call_writes both e = rw (e, settle_and_write) refl

  attempt_ok :
      (both : Invoice × Balance)
      → attempt ≡ ok both
      → (b : Balance) × (Queries.get {E = ConflictError} db i.user_id ≡ ok b)
        × (both ≡ (settled_by env settled i, credit b settled.amount))
  attempt_ok both e =
      let (b, loaded, rest) = >>=-eq-ok (Queries.get db i.user_id) _ e in
      (b, loaded, settle_eq env settled i b both rest)

  pub attempt_ne_err : (c : ConflictError) → attempt ≢ err c
  unfolding Queries.get settle
  attempt_ne_err c e = ground arith

  pub finish_ok :
      (x i' : Invoice) (db' : Database) (w : Outcome ConflictError Database)
      → finish env x db w ≡ (ok tt, (i', db'))
      → (i' ≡ x) × (w ≡ ok db')
  finish_ok x i' db' (ok y) h = ground arith
  finish_ok x i' db' (err e) h = absurd (ground arith)
  finish_ok x i' db' panic h = absurd (ground arith)

  finish_err :
      (x : Invoice) (s : Invoice × Database) (c : ConflictError)
      (w : Outcome ConflictError Database)
      → finish env x db w ≡ (err c, s)
      → s ≡ (x, rolled_back env db)
  finish_err x s c (ok y) h = absurd (ground arith)
  finish_err x s c (err e) h = ground arith
  finish_err x s c panic h = absurd (ground arith)

  -- A call that ends in a conflict has settled the invoice in memory, and left the database to others.
  call_conflict :
      (s : Invoice × Database) (c : ConflictError)
      → complete_once env settled (i, db) ≡ (err c, s)
      → is_settled i ≡ false
      → s ≡ (settled_by env settled i, rolled_back env db)
  call_conflict s c h fresh = elim (Outcome-cases attempt) [
    | inl (both, e) ↦
        let (b, loaded, is) = attempt_ok both e in
        finish_err both.0 s c (complete_writes both.0 both.1 (env.first db))
          (sym (call_fresh fresh ∙ call_writes both e) ∙ h)
        ∙ ap (λ x. (x.0, rolled_back env db)) is
    | inr (inl (x, e)) ↦ absurd (attempt_ne_err x e)
    | inr (inr e) ↦ absurd (ground (arith, call_fresh fresh))
  ]

  module _ (db' : Database) (i' : Invoice) (fresh : is_settled i ≡ false)
      (success : complete_once env settled (i, db) ≡ (ok tt, (i', db'))) where
    written :
        (both : Invoice × Balance)
        → attempt ≡ ok both
        → (i' ≡ both.0) × (complete_writes both.0 both.1 (env.first db) ≡ ok db')
    written both e =
        finish_ok both.0 i' db' (complete_writes both.0 both.1 (env.first db))
          (sym (call_fresh fresh ∙ call_writes both e) ∙ success)

    parts_of :
        (both : Invoice × Balance)
        → attempt ≡ ok both
        → (b : Balance) × (between : Database) × (Queries.get {E = ConflictError} db i.user_id
            ≡ ok b)
          × (upsert_invoice {E = ConflictError} (env.first db) (settled_by env settled i)
              ≡ ok between)
          × (Queries.update between (credit b settled.amount) ≡ ok db')
    parts_of both e =
        let (b, loaded, is) = attempt_ok both e in
        let s = settled_by env settled i in
        let writes : complete_writes s (credit b settled.amount) (env.first db) ≡ ok db' =
          rw (← ap (λ x. x.0) is, ← ap (λ x. x.1) is) (written both e).1 in
        let (between, upserted, updated) =
          >>=-eq-ok (upsert_invoice {E = ConflictError} (env.first db) s) _ writes in
        (b, between, loaded, upserted, updated)

    -- What a call that succeeds has read and written.
    pub complete_once-parts :
        (b : Balance) × (between : Database) × (Queries.get {E = ConflictError} db i.user_id ≡ ok b)
        × (upsert_invoice {E = ConflictError} (env.first db) (settled_by env settled i)
            ≡ ok between)
        × (Queries.update between (credit b settled.amount) ≡ ok db')
    complete_once-parts = elim (Outcome-cases attempt) [
      | inl (both, e) ↦ parts_of both e
      | inr (inl (x, e)) ↦ absurd (attempt_ne_err x e)
      | inr (inr e) ↦ absurd (ground (arith, call_fresh fresh))
    ]

  module _ (db' : Database) (i' : Invoice) (row : UserRow)
      (keyed : IsKeyed user_key (env.first db).users)
      (found : find (Queries.has_id i.user_id) db.users ≡ some row)
      (positive : pos 0 <ℤ settled.amount) (range : IsI64 (row.balance_msats +ℤ settled.amount))
      (fresh : is_settled i ≡ false)
      (success : complete_once env settled (i, db) ≡ (ok tt, (i', db'))) where
    -- A call of `complete` that succeeds on an invoice that is not settled credits the user
    -- exactly the amount paid, on top of the balance that is stored when the credit is written,
    -- touches no other user, and stores the invoice as settled. The user has a row, the user ids
    -- are distinct, the amount is positive, and the sum does not overflow.
    pub complete_credits :
        Stored (env.first db) i.user_id row.balance_msats
        × Stored db' i.user_id (row.balance_msats +ℤ settled.amount)
        × ((j : Uuid)
            → (i.user_id == j) ≡ false
            → find (Queries.has_id j) db'.users ≡ find (Queries.has_id j) (env.first db).users)
        × (get db' i.id i.user_id ≡ some (settled_by env settled i))
    complete_credits =
        let (b, between, loaded, upserted, updated) = complete_once-parts db' i' fresh success in
        let s = settled_by env settled i in
        let same : between.users ≡ (env.first db).users =
          ap (λ x. x.users) (upsert_invoice-eq (env.first db) between s upserted) in
        let kept : between.invoices ≡ db'.invoices =
          ap (λ x. x.invoices) (update-keeps between db' (credit b settled.amount) updated) in
        let both_stored =
          update-credit db between db' i.user_id b row settled.amount (rw same keyed) found positive
            range loaded updated in
        (
          rw same at both_stored.0,
          both_stored.1,
          λ j ne. both_stored.2 j ne ∙ ap (λ x. find (Queries.has_id j) x) same,
          get-invoices db' between i.id i.user_id (sym kept)
              ∙ get-upsert_invoice (env.first db) between s upserted,
        )

pub settled_call :
    (env : Surroundings) (settled : SettledInvoice) (i : Invoice) (db : Database)
    → is_settled i ≡ true
    → complete_once env settled (i, db) ≡ (ok tt, (i, db))
unfolding complete_once
settled_call env settled i db e = rw e refl

conflict_again : (c : ConflictError) → is_conflict (conflict_chain c) ≡ true
unfolding is_conflict
conflict_again c = refl

-- When the first call for an invoice that is not settled ends in a concurrency conflict,
-- `complete` returns as if it had succeeded, and has written nothing: the database is as the other
-- transactions left it.
pub complete_loses_settlement :
    (env : ℕ → Surroundings) (settled : SettledInvoice) (i : Invoice) (db : Database)
    (c : ConflictError) (s : Invoice × Database)
    → is_settled i ≡ false
    → complete_once (env 1) settled (i, db) ≡ (err c, s)
    → complete env i settled db ≡ (ok tt, rolled_back (env 1) db)
unfolding complete
complete_loses_settlement env settled i db c s fresh h =
    let after = call_conflict (env 1) settled i db s c h fresh in
    let i' = settled_by (env 1) settled i in
    let call : complete_once (env 1) settled (i, db) ≡ (err c, (i', rolled_back (env 1) db)) =
      h ∙ ap (λ x. (err c, x)) after in
    let second =
      settled_call (env 2) settled i' (rolled_back (env 1) db) (unfold is_settled in refl) in
    ap unwrap_completion (
      retry_loop-eq conflict_chain (λ n. complete_once (env n) settled) 1 (i, db)
        (i', rolled_back (env 1) db) (c, (i', rolled_back (env 1) db), call, conflict_again c, refl)
        (omega arith) (inr (rw second tt))
      ∙ second)
