-- ===== src/Deposit/Worker/Calls.antt =====
-- app/src/deposit/mod.rs: what a call of the listener keeps, whatever it is for and however it ends.
use laas_api.Base.{
  false, ◌&&◌, not, ◌==◌, ◌≡◌, refl, Option, some, none, find, ok, err, panic, Outcome, arith,
  Bool-cases, Option-cases, Outcome-cases, inl, inr, ◌∙◌, ap, subst, ◌>>=◌, All,
}
use laas_api.Btc.{TxOut, tx_is_confirmed}
use laas_api.Concurrency.{ConflictError}
use laas_api.Database.{Database, Uuid, DepositRow}
use laas_api.Database.Transactions.{Surroundings, transaction, rolled_back}
use laas_api.Balance.Updates.{update-keeps}
use laas_api.Deposit.{Address, Deposit, is_confirmed, start_deposit}
use laas_api.Deposit.Queries.{get, get_address, upsert_deposit, is_deposit_of}
use laas_api.Deposit.RoundTrip.{get-upsert_deposit}
use laas_api.Deposit.Credits.{confirmed_by, confirm_eq, settle_inv}
use laas_api.Deposit.Listener.{start, get_or_start, settle, settle_if, process_once}

-- The row of a deposit for an output.
abbrev pub IsStored : TxOut → Deposit → Database → Type 0
IsStored x d db =
    (row : DepositRow) × (find (is_deposit_of x.tx.id x.v_out) db.deposits ≡ some row)
    × (row.id ≡ d.id)

get-IsStored :
    (x : TxOut) (d : Deposit) (db : Database) → get db x.tx.id x.v_out ≡ some d → IsStored x d db
unfolding get
get-IsStored x d db e = elim (Option-cases (find (is_deposit_of x.tx.id x.v_out) db.deposits)) [
  | inl missing ↦ absurd (ground arith)
  | inr (row, f) ↦ (row, f, ground arith)
]

-- An id that no deposit has.
abbrev pub IsNew : Uuid → Database → Type 0
IsNew id db = All (λ row. (DepositRow.id row == id) ≡ false) db.deposits

-- A property of the store is kept by what others do during a call for an output and by every write that
-- the call may make.
pub record IsKept (env : Surroundings) (x : TxOut) (P : Database → Type 0) : Type 0 where
  pub first_deposits : (db : Database) → (env.first db).deposits ≡ db.deposits
  pub second_deposits : (db : Database) → (env.second db).deposits ≡ db.deposits
  pub first : (db : Database) → P db → P (env.first db)
  pub second : (db : Database) → P db → P (env.second db)
  pub starts :
      (db db' : Database) (a : Address)
      → IsNew env.id db
      → P db
      → upsert_deposit db (start_deposit env.id env.now a x) ≡ ok db'
      → P db'
  pub confirms :
      (db db' : Database) (d : Deposit)
      → IsStored x d db
      → P db
      → upsert_deposit db (confirmed_by env x d) ≡ ok db'
      → P db'
  pub users : (db db' : Database) → record db { users = db'.users } ≡ db' → P db → P db'

module _ (env : Surroundings) (x : TxOut) (P : Database → Type 0) (kept : IsKept env x P) where
  -- After the search the property still holds, and a deposit that was found or started is stored.
  abbrev Found : Option Deposit → Database → Type 0
  Found found mid = P mid × ((d : Deposit) → found ≡ some d → IsStored x d mid)

  start-inv :
      (db mid : Database) (found : Option Deposit)
      → IsNew env.id db
      → P db
      → start env x db ≡ ok (found, mid)
      → Found found mid
  unfolding start start_deposit
  start-inv db mid found fresh p h = elim (Option-cases (get_address db x.address)) [
    | inl missing ↦
        let same : db ≡ mid = ground arith in
        let nothing : found ≡ none = ground arith in (subst P same p, λ d e. absurd (ground arith))
    | inr (a, e) ↦
        let d = start_deposit env.id env.now a x in
        elim (Outcome-cases (upsert_deposit db d)) [
          | inl (db', put) ↦
              let same : db' ≡ mid = ground arith in
              let started : found ≡ some d = ground arith in
              let stored = get-IsStored x d db' (get-upsert_deposit db db' d put) in
              (
                subst P same (kept.starts db db' a fresh p put),
                λ d' f.
                    let one : d ≡ d' = ground arith in
                    subst (IsStored x d') same (subst (λ z. IsStored x z db') one stored),
              )
          | inr (inl (problem, failed)) ↦ absurd (ground arith)
          | inr (inr failed) ↦ absurd (ground arith)
        ]
  ]

  get_or_start-inv :
      (db mid : Database) (found : Option Deposit)
      → IsNew env.id db
      → P db
      → get_or_start env x db ≡ ok (found, mid)
      → Found found mid
  unfolding get_or_start
  get_or_start-inv db mid found fresh p h = elim (Option-cases (get db x.tx.id x.v_out)) [
    | inl missing ↦
        start-inv (env.first db) mid found (rw (kept.first_deposits db) fresh) (kept.first db p)
          (ground arith)
    | inr (d, e) ↦
        let same : env.first db ≡ mid = ground arith in
        let it : found ≡ some d = ground arith in
        let (row, f, id) = get-IsStored x d db e in
        (
          subst P same (kept.first db p),
          λ d' g.
              let one : d ≡ d' = ground arith in
              subst (IsStored x d') same
                (row, rw (kept.first_deposits db) f, id ∙ ap (λ z. z.id) one),
        )
  ]

  rolled_back-inv : (db : Database) → P db → P (rolled_back env db)
  rolled_back-inv db p = kept.second (env.first db) (kept.first db p)

  settle-inv :
      (d : Deposit) (mid db' : Database)
      → IsStored x d mid
      → P mid
      → settle env x d mid ≡ ok db'
      → P db'
  settle-inv d mid db' (row, f, id) p h =
      let s = settle_inv env x d mid db' h in
      let both = confirm_eq env x d s.balance s.confirmed s.confirms in
      let upserted : upsert_deposit (env.second mid) (confirmed_by env x d) ≡ ok s.between =
        rw (← ap (λ c. c.0) both) s.upserted in
      kept.users s.between db' (update-keeps s.between db' s.confirmed.1 s.updated) (
        kept.confirms (env.second mid) s.between d (row, rw (kept.second_deposits mid) f, id)
          (kept.second mid p) upserted)

  found-inv :
      (found : Option Deposit) (db mid : Database)
      → P db
      → Found found mid
      → P (transaction env db (do db' ← settle_if env x (found, mid); ok (tt, db'))).1
  found-inv none db mid before (p, stored) = p
  found-inv (some d) db mid before (p, stored) =
      elim (Bool-cases (tx_is_confirmed x.tx && not (is_confirmed d))) [
        | inl due ↦ elim (Outcome-cases (settle env x d mid)) [
          | inl (db', h) ↦ rw (due, h) (settle-inv d mid db' (stored d refl) p h)
          | inr (inl (problem, h)) ↦ rw (due, h) (rolled_back-inv db before)
          | inr (inr h) ↦ rw (due, h) (rolled_back-inv db before)
        ]
        | inr over ↦ rw over p
      ]

  -- The property holds after a call, however it ends.
  pub process_once-inv : (db : Database) → IsNew env.id db → P db → P (process_once env x db).1
  unfolding process_once
  process_once-inv db fresh p = elim (Outcome-cases (get_or_start env x db)) [
    | inl ((found, mid), e) ↦
        rw (e, process_once) (found-inv found db mid p (get_or_start-inv db mid found fresh p e))
    | inr (inl (problem, e)) ↦ rw (e, process_once) (rolled_back-inv db p)
    | inr (inr e) ↦ rw (e, process_once) (rolled_back-inv db p)
  ]

-- The state after a call that ends in an error.
pub process_once-err :
    (env : Surroundings) (x : TxOut) (db m : Database) (e : ConflictError)
    → process_once env x db ≡ (err e, m)
    → m ≡ rolled_back env db
unfolding process_once
process_once-err env x db m e h =
    failed (do found ← get_or_start env x db; db' ← settle_if env x found; ok (tt, db')) h
  where
    failed :
        (body : Outcome ConflictError (Unit {0} × Database))
        → transaction env db body ≡ (err e, m)
        → m ≡ rolled_back env db
    failed (ok (u, db')) h = absurd (ground arith)
    failed (err e') h = ground arith
    failed panic h = absurd (ground arith)
