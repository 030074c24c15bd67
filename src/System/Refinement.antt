-- ===== src/System/Refinement.antt =====
-- The transactions, as steps of the abstract ledger.
use laas_api.Base.{◌≡◌, ◌∙◌, refl, sym, ap}
use laas_api.Int.{◌+ℤ◌}
use laas_api.Database.{Uuid, Database}
use laas_api.Ln.{Lnd}
use laas_api.Ledger.{LedgerStep, IsCovered, total}
use laas_api.Ledger.Laws.{LedgerStep-IsCovered, LedgerStep-total, add_zero, add_right}
use laas_api.Ledger.View.{view}
use laas_api.System.{
  Step, elsewhere, deposited, completed, prepared, sent, started, confirmed, Run, done, then,
  step_income, run_income, IsValid,
}
use laas_api.System.Effects.{Effect, keeps}
use laas_api.System.Loads.{Extends, Effect-Extends, Extends-trans}
use laas_api.System.Credits.{deposited-Effect, completed-Effect}
use laas_api.System.Holds.{prepared-Effect}
use laas_api.System.Starts.{started-Effect}
use laas_api.System.Settles.{sent-Effect, confirmed-Effect}
use laas_api.System.Writes.{Effect-LedgerStep, Effect-IsValid}

module _ (lnd : Lnd) where
  mutual
    unfolding step_income

    pub Step-Effect : (db db' : Database) (s : Step lnd db db') → Effect db db' (step_income lnd s)
    Step-Effect db db' (elsewhere users rows) = keeps (λ j. refl) users rows
    Step-Effect db db' (deposited seen env out d run same h p range) =
        deposited-Effect seen db db' env out d same h p range
    Step-Effect db db' (completed seen env settled i i' run same fresh h p range) =
        completed-Effect seen db db' env settled i i' same fresh h p range
    Step-Effect db db' (prepared seen id now hash p b node run read h fresh) =
        prepared-Effect lnd seen db db' id now hash p b node read h fresh
    Step-Effect db db' (sent seen now id p b r node run read loaded owner range h) =
        sent-Effect seen db db' (Run-Extends seen db run) lnd now id p b r node read loaded owner
          range h
    Step-Effect db db' (started seen id rid now grant address amount b w node run read h fresh) =
        started-Effect lnd seen db db' id rid now grant address amount b w node read h fresh
    Step-Effect db db' (confirmed seen env out w run same h) =
        confirmed-Effect seen db db' (Run-Extends seen db run) env out w same h

    Run-Extends : (db db' : Database) → Run lnd db db' → Extends db db'
    Run-Extends db db' done = λ id row e. (row, e, refl, refl)
    Run-Extends db db' (then {between = mid} run s) =
        Extends-trans db mid db' (Run-Extends db mid run)
          (Effect-Extends mid db' (step_income lnd s) (Step-Effect mid db' s))

module _ (lnd : Lnd) where
  -- A committed transaction is a step of the abstract ledger: seen as what each user has available,
  -- held back and spent, it brings an amount in, holds back an amount that is available, releases or
  -- spends what was held back, or does nothing. The database is valid.
  pub Step-LedgerStep :
      (db db' : Database) (s : Step lnd db db')
      → IsValid db
      → LedgerStep (view db) (view db') (step_income lnd s)
  Step-LedgerStep db db' s valid =
      Effect-LedgerStep db db' (step_income lnd s) valid (Step-Effect lnd db db' s)

  -- A run of committed transactions from a valid database leads to a valid one.
  pub Run-IsValid : (db db' : Database) → Run lnd db db' → IsValid db → IsValid db'
  Run-IsValid db db' done valid = valid
  Run-IsValid db db' (then {between = mid} run s) valid =
      Effect-IsValid mid db' (step_income lnd s) (Run-IsValid db mid run valid)
        (Step-Effect lnd mid db' s)

  -- No run of committed transactions, whatever stale states they have read, overdraws a user: from a
  -- valid database in which no balance is negative it leads to one in which none is.
  pub Run-IsCovered :
      (db db' : Database) → Run lnd db db' → IsValid db → IsCovered (view db) → IsCovered (view db')
  Run-IsCovered db db' done valid covered = covered
  Run-IsCovered db db' (then {between = mid} run s) valid covered =
      LedgerStep-IsCovered (view mid) (view db') (step_income lnd s)
        (Step-LedgerStep mid db' s (Run-IsValid db mid run valid))
        (Run-IsCovered db mid run valid covered)

  -- Funds are conserved by a run of committed transactions from a valid database: what a user has
  -- available, held back and spent in all grows exactly by the deposits and the settled invoices of the
  -- run.
  pub Run-total :
      (db db' : Database) (run : Run lnd db db')
      → IsValid db
      → (u : Uuid) → total (view db') u ≡ total (view db) u +ℤ run_income lnd run u
  unfolding run_income
  Run-total db db' done valid u = add_zero (total (view db) u)
  Run-total db db' (then {between = mid} run s) valid u =
      LedgerStep-total (view mid) (view db') (step_income lnd s)
        (Step-LedgerStep mid db' s (Run-IsValid db mid run valid)) u
      ∙ ap (λ x. x +ℤ step_income lnd s u) (Run-total db mid run valid u)
      ∙ sym (add_right (total (view db) u) (run_income lnd run u) (step_income lnd s u))
