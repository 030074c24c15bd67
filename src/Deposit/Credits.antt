-- ===== src/Deposit/Credits.antt =====
-- app/src/deposit/mod.rs: what a call of the listener credits.
use laas_api.Base.{false, ◌==◌, ◌≡◌, ap, some, find, ok, arith, ◌∙◌, sym, >>=-eq-ok, IsKeyed}
use laas_api.Int.{pos, ◌+ℤ◌, ◌<ℤ◌, IsI64}
use laas_api.Btc.{TxOut, msats}
use laas_api.Concurrency.{ConflictError}
use laas_api.Database.{Uuid, Database, UserRow}
use laas_api.Database.Transactions.{Surroundings}
use laas_api.Balance.{Balance, credit}
use laas_api.Balance.Updates.{user_key, Stored, update-keeps}
use laas_api.Balance.Credits.{update-credit}
use laas_api.Balance.Queries
use laas_api.Deposit.{Deposit, confirm}
use laas_api.Deposit.RoundTrip.{upsert_deposit-eq, get-upsert_deposit, get-users}
use laas_api.Deposit.Queries.{get, upsert_deposit}
use laas_api.Deposit.Listener.{settle}

-- The parts of a settlement that succeeds.
pub record IsSettled (env : Surroundings) (out : TxOut) (d : Deposit) (db db' : Database)
    : Type 0 where
  pub balance : Balance
  pub confirmed : Deposit × Balance
  pub between : Database
  pub loaded : Queries.get {E = ConflictError} db d.user_id ≡ ok balance
  pub confirms : confirm {E = ConflictError} env.now d out balance ≡ ok confirmed
  pub upserted : upsert_deposit (env.second db) confirmed.0 ≡ ok between
  pub updated : Queries.update between confirmed.1 ≡ ok db'

pub settle_inv :
    (env : Surroundings) (out : TxOut) (d : Deposit) (db db' : Database)
    → settle env out d db ≡ ok db'
    → IsSettled env out d db db'
unfolding settle
settle_inv env out d db db' h =
    let (balance, loaded, h₁) = >>=-eq-ok (Queries.get db d.user_id) _ h in
    let (both, confirms, h₂) = >>=-eq-ok (confirm env.now d out balance) _ h₁ in
    let (between, upserted, h₃) = >>=-eq-ok (upsert_deposit (env.second db) both.0) _ h₂ in
    record {
      balance = balance;
      confirmed = both;
      between = between;
      loaded = loaded;
      confirms = confirms;
      upserted = upserted;
      updated = h₃;
    }

-- The deposit after its confirmation by an output.
abbrev pub confirmed_by : Surroundings → TxOut → Deposit → Deposit
confirmed_by env out d = record d { tx_out = out; confirmed = some env.now }

pub confirm_eq :
    (env : Surroundings) (out : TxOut) (d : Deposit) (b : Balance) (both : Deposit × Balance)
    → confirm {E = ConflictError} env.now d out b ≡ ok both
    → both ≡ (confirmed_by env out d, credit b (msats out.amount))
unfolding confirm
confirm_eq env out d b both h = ground arith

-- A settlement that succeeds leaves the deposit stored as confirmed by the output.
pub settle-get :
    (env : Surroundings) (out : TxOut) (d : Deposit) (db db' : Database)
    → settle env out d db ≡ ok db'
    → get db' out.tx.id out.v_out ≡ some (confirmed_by env out d)
settle-get env out d db db' success =
    let s = settle_inv env out d db db' success in
    let both = confirm_eq env out d s.balance s.confirmed s.confirms in
    let upserted : upsert_deposit (env.second db) (confirmed_by env out d) ≡ ok s.between =
      rw (← ap (λ c. c.0) both) s.upserted in
    let kept = update-keeps s.between db' s.confirmed.1 s.updated in
    get-users db' s.between out.tx.id out.v_out (sym (ap (λ x. x.deposits) kept))
      (sym (ap (λ x. x.tx_outs) kept))
    ∙ get-upsert_deposit (env.second db) s.between (confirmed_by env out d) upserted

module _ (env : Surroundings) (out : TxOut) (d : Deposit) (db db' : Database) (row : UserRow)
    (keyed : IsKeyed user_key (env.second db).users)
    (found : find (Queries.has_id d.user_id) db.users ≡ some row)
    (positive : pos 0 <ℤ msats out.amount) (range : IsI64 (row.balance_msats +ℤ msats out.amount))
    (success : settle env out d db ≡ ok db') where
  pub settle_credits :
      Stored (env.second db) d.user_id row.balance_msats
      × Stored db' d.user_id (row.balance_msats +ℤ msats out.amount)
      × ((j : Uuid)
          → (d.user_id == j) ≡ false
          → find (Queries.has_id j) db'.users ≡ find (Queries.has_id j) (env.second db).users)
      × (get db' out.tx.id out.v_out ≡ some (confirmed_by env out d))
  settle_credits =
      let s = settle_inv env out d db db' success in
      let both : s.confirmed ≡ (confirmed_by env out d, credit s.balance (msats out.amount)) =
        confirm_eq env out d s.balance s.confirmed s.confirms in
      let upserted : upsert_deposit (env.second db) (confirmed_by env out d) ≡ ok s.between =
        rw (← ap (λ c. c.0) both) s.upserted in
      let between = upsert_deposit-eq (env.second db) s.between (confirmed_by env out d) upserted in
      let users : s.between.users ≡ (env.second db).users = ap (λ x. x.users) between in
      let updated : Queries.update s.between (credit s.balance (msats out.amount)) ≡ ok db' =
        rw (← ap (λ c. c.1) both) s.updated in
      let stored_both =
        update-credit db s.between db' d.user_id s.balance row (msats out.amount) (rw users keyed)
          found positive range s.loaded updated in
      (
        rw users at stored_both.0,
        stored_both.1,
        λ j ne. stored_both.2 j ne ∙ ap (λ x. find (Queries.has_id j) x) users,
        settle-get env out d db db' success,
      )
