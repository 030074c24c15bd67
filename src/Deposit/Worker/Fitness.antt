-- ===== src/Deposit/Worker/Fitness.antt =====
-- app/src/deposit/mod.rs: what the calls of the listener rely on, and that they keep it.
use laas_api.Base.{
  ℕ, ◌+◌, ◌≤◌, ◌<◌, true, false, ◌&&◌, ◌==◌, ◌≡◌, some, IsKeyed, upsert-IsKeyed, All, All-mono,
  find-All, upsert-All, find_sound, ok, arith, Bool-cases, inl, inr, ◌∙◌, sym, subst, ◌≢◌,
  find-IsKeyed, ==_iff,
}
use laas_api.Int.{eqb_ℤ, eqb_ℤ_iff}
use laas_api.Btc.{TxOut}
use laas_api.Database.{Database, DepositRow}
use laas_api.Database.Transactions.{Surroundings}
use laas_api.Deposit.{Address, Deposit, start_deposit}
use laas_api.Deposit.Queries.{
  get_address, upsert_deposit, deposit_row, has_deposit_id, is_deposit_of,
}
use laas_api.Deposit.RoundTrip.{upsert_deposit-eq}
use laas_api.Deposit.Credits.{confirmed_by}
use laas_api.Deposit.Worker.Inserts.{Keeps, IsArrived, Keeps-IsArrived, upsert_deposit-IsArrived}
use laas_api.Deposit.Worker.Calls.{IsStored, IsNew, IsKept}

-- The surroundings of the calls: others keep what a call for an output needs, and an id that was drawn
-- is not drawn again by a later call.
pub record AreCalm (env : ℕ → ℕ → Surroundings) : Type 0 where
  pub first : (n i : ℕ) (db : Database) → Keeps db ((env n i).first db)
  pub second : (n i : ℕ) (db : Database) → Keeps db ((env n i).second db)
  pub distinct : (n m i j : ℕ) → n < m → ((env n i).id == (env m j).id) ≡ false

module _ (env : ℕ → ℕ → Surroundings) where
  -- The id of a row is not one that a call from the `n`th on draws.
  abbrev pub IsUndrawn : ℕ → DepositRow → Type 0
  IsUndrawn n row = (m i : ℕ) → n ≤ m → (row.id == (env m i).id) ≡ false

  -- The ids of the deposits are distinct, and the calls from the `n`th on will draw others.
  pub record IsFit (n : ℕ) (db : Database) : Type 0 where
    pub keyed : IsKeyed DepositRow.id db.deposits
    pub undrawn : All (IsUndrawn n) db.deposits

-- The address of the output belongs to a user.
abbrev pub IsOwned : TxOut → Database → Type 0
IsOwned out db = (a : Address) × (get_address db out.address ≡ some a)

pub Keeps-IsOwned :
    (out : TxOut) (db db' : Database) → Keeps db db' → IsOwned out db → IsOwned out db'
Keeps-IsOwned out db db' keeps (a, owned) = keeps.addresses out.address a owned

module _ (env : ℕ → ℕ → Surroundings) (out : TxOut) where
  pub IsFit-IsNew : (n i : ℕ) (db : Database) → IsFit env n db → IsNew (env n i).id db
  IsFit-IsNew n i db fit =
      All-mono (IsUndrawn env n) (λ row. (row.id == (env n i).id) ≡ false) db.deposits
        (λ row u. u n i (omega arith)) fit.undrawn

  pub IsFit-suc : (n : ℕ) (db : Database) → IsFit env n db → IsFit env (n + 1) db
  IsFit-suc n db fit = record {
    keyed = fit.keyed;
    undrawn =
        All-mono (IsUndrawn env n) (IsUndrawn env (n + 1)) db.deposits
          (λ row u m i le. u m i (omega arith)) fit.undrawn;
  }

  pub Keeps-IsFit : (n : ℕ) (db db' : Database) → Keeps db db' → IsFit env n db → IsFit env n db'
  Keeps-IsFit n db db' keeps fit = record {
    keyed = rw keeps.deposits fit.keyed;
    undrawn = rw keeps.deposits fit.undrawn;
  }

  -- A write of a deposit whose id no later call draws.
  upsert_deposit-IsFit :
      (n : ℕ) (db db' : Database) (d : Deposit)
      → ((m i : ℕ) → n ≤ m → (d.id == (env m i).id) ≡ false)
      → upsert_deposit db d ≡ ok db'
      → IsFit env n db
      → IsFit env n db'
  unfolding get_address
  upsert_deposit-IsFit n db db' d undrawn h fit = rw (upsert_deposit-eq db db' d h) (record {
    keyed = upsert-IsKeyed DepositRow.id (deposit_row d) db.deposits fit.keyed;
    undrawn =
        upsert-All (IsUndrawn env n) (has_deposit_id d.id) (deposit_row d) db.deposits fit.undrawn
          undrawn;
  })

  users-IsFit :
      (n : ℕ) (db db' : Database)
      → record db { users = db'.users } ≡ db'
      → IsFit env n db
      → IsFit env n db'
  unfolding get_address
  users-IsFit n db db' e fit = rw (← e) (record { keyed = fit.keyed; undrawn = fit.undrawn })

  users-IsArrived :
      (db db' : Database)
      → record db { users = db'.users } ≡ db'
      → IsArrived out db
      → IsArrived out db'
  users-IsArrived db db' e a = rw (← e) (record {
    row = a.row;
    tx_out = a.tx_out;
    found = a.found;
    joined = a.joined;
    confirmed = a.confirmed;
  })

  module _ (calm : AreCalm env) (n i : ℕ) (x : TxOut) where
    started-IsFit :
        (db db' : Database) (a : Address)
        → IsNew (env n i).id db
        → IsFit env (n + 1) db
        → upsert_deposit db (start_deposit (env n i).id (env n i).now a x) ≡ ok db'
        → IsFit env (n + 1) db'
    unfolding start_deposit
    started-IsFit db db' a fresh fit h =
        upsert_deposit-IsFit (n + 1) db db' (start_deposit (env n i).id (env n i).now a x)
          (λ m j le. calm.distinct n m i j (omega arith)) h fit

    confirmed-IsFit :
        (db db' : Database) (d : Deposit)
        → IsStored x d db
        → IsFit env (n + 1) db
        → upsert_deposit db (confirmed_by (env n i) x d) ≡ ok db'
        → IsFit env (n + 1) db'
    confirmed-IsFit db db' d (row, found, id) fit h =
        upsert_deposit-IsFit (n + 1) db db' (confirmed_by (env n i) x d)
          (subst (λ k. (m j : ℕ) → n + 1 ≤ m → (k == (env m j).id) ≡ false) id
            (find-All (IsUndrawn env (n + 1)) (is_deposit_of x.tx.id x.v_out) row db.deposits
              fit.undrawn found))
          h fit

    pub IsFit-IsKept : IsKept (env n i) x (IsFit env (n + 1))
    IsFit-IsKept = record {
      first_deposits = λ db. (calm.first n i db).deposits;
      second_deposits = λ db. (calm.second n i db).deposits;
      first = λ db. Keeps-IsFit (n + 1) db ((env n i).first db) (calm.first n i db);
      second = λ db. Keeps-IsFit (n + 1) db ((env n i).second db) (calm.second n i db);
      starts = started-IsFit;
      confirms = confirmed-IsFit;
      users = users-IsFit (n + 1);
    }

    pub IsOwned-IsKept : IsKept (env n i) x (IsOwned out)
    unfolding get_address
    IsOwned-IsKept = record {
      first_deposits = λ db. (calm.first n i db).deposits;
      second_deposits = λ db. (calm.second n i db).deposits;
      first = λ db. Keeps-IsOwned out db ((env n i).first db) (calm.first n i db);
      second = λ db. Keeps-IsOwned out db ((env n i).second db) (calm.second n i db);
      starts = λ db db' a fresh owned h.
          rw (upsert_deposit-eq db db' (start_deposit (env n i).id (env n i).now a x) h) owned;
      confirms = λ db db' d stored owned h.
          rw (upsert_deposit-eq db db' (confirmed_by (env n i) x d) h) owned;
      users = λ db db' e owned. rw (← e) owned;
    }

    -- An output with another key.
    abbrev pub IsOther : Type 0
    IsOther = (x.tx.id == out.tx.id && eqb_ℤ x.v_out out.v_out) ≡ false

    module _ (other : IsOther) where
      started-IsArrived :
          (db db' : Database) (a : Address)
          → IsNew (env n i).id db
          → IsArrived out db
          → upsert_deposit db (start_deposit (env n i).id (env n i).now a x) ≡ ok db'
          → IsArrived out db'
      unfolding start_deposit
      started-IsArrived db db' a fresh arrived h =
          upsert_deposit-IsArrived out db db' (start_deposit (env n i).id (env n i).now a x) arrived
            h
            (find-All (λ row. (DepositRow.id row == (env n i).id) ≡ false)
              (is_deposit_of out.tx.id out.v_out) arrived.row db.deposits fresh arrived.found)
            other

      other_row :
          (v w : DepositRow)
          → is_deposit_of x.tx.id x.v_out v ≡ true
          → is_deposit_of out.tx.id out.v_out w ≡ true
          → v ≢ w
      other_row v w p q same =
          let q' : is_deposit_of out.tx.id out.v_out v ≡ true = rw same q in
          absurd (
            ground (
              arith,
              eqb_ℤ_iff v.v_out x.v_out,
              eqb_ℤ_iff v.v_out out.v_out,
              eqb_ℤ_iff x.v_out out.v_out,
            ))

      confirmed-IsArrived :
          (db db' : Database) (d : Deposit)
          → IsStored x d db
          → IsFit env (n + 1) db
          → IsArrived out db
          → upsert_deposit db (confirmed_by (env n i) x d) ≡ ok db'
          → IsArrived out db'
      confirmed-IsArrived db db' d (row, found, id) fit arrived h =
          upsert_deposit-IsArrived out db db' (confirmed_by (env n i) x d) arrived h
            (elim (Bool-cases (arrived.row.id == d.id)) [
              | inl clash ↦ absurd (
                  other_row row arrived.row
                    (find_sound (is_deposit_of x.tx.id x.v_out) db.deposits found)
                    (find_sound (is_deposit_of out.tx.id out.v_out) db.deposits arrived.found)
                    (find-IsKeyed DepositRow.id (is_deposit_of x.tx.id x.v_out)
                      (is_deposit_of out.tx.id out.v_out) row arrived.row db.deposits fit.keyed
                      found arrived.found (id ∙ sym ((==_iff arrived.row.id d.id).0 clash))))
              | inr differs ↦ differs
            ])
            other

      pub IsArrived-IsKept : IsKept (env n i) x (λ db. IsFit env (n + 1) db × IsArrived out db)
      IsArrived-IsKept = record {
        first_deposits = λ db. (calm.first n i db).deposits;
        second_deposits = λ db. (calm.second n i db).deposits;
        first = λ db (fit, arrived). (
          Keeps-IsFit (n + 1) db ((env n i).first db) (calm.first n i db) fit,
          Keeps-IsArrived out db ((env n i).first db) (calm.first n i db) arrived,
        );
        second = λ db (fit, arrived). (
          Keeps-IsFit (n + 1) db ((env n i).second db) (calm.second n i db) fit,
          Keeps-IsArrived out db ((env n i).second db) (calm.second n i db) arrived,
        );
        starts = λ db db' a fresh (fit, arrived) h.
            (started-IsFit db db' a fresh fit h, started-IsArrived db db' a fresh arrived h);
        confirms = λ db db' d stored (fit, arrived) h. (
          confirmed-IsFit db db' d stored fit h,
          confirmed-IsArrived db db' d stored fit arrived h,
        );
        users = λ db db' e (fit, arrived).
            (users-IsFit (n + 1) db db' e fit, users-IsArrived db db' e arrived);
      }
