-- ===== src/Database/Migrations.antt =====
-- app/src/database/migrations/mod.rs: migrations, each run once. What an SQL statement does to the schema
-- is the parameter `execute`; an error of it panics.
use laas_api.Base.{
  ℕ, ◌==◌, ==_refl, ◌≡◌, refl, Bool, Bool-cases, inl, inr, true, Option, none, some, List, [], ◌∷◌,
  find, is_some, Outcome, ok, ◌>>=◌, >>=-eq-ok, unwrap, if◌then◌else◌, arith,
}
use laas_api.Base.{String}

-- The database while it is migrated: the table `migrations`, if there is one, and the rest.
pub record Store (S : Type 0) : Type 0 where
  pub migrations : Option (List ℕ)
  pub schema : S

-- `SimpleSqlMigration`
pub record Migration : Type 0 where
  pub serial_number : ℕ
  pub sql : List String

-- `prepare_migrations_table`
unfoldable pub prepare_migrations_table : {S : Type 0} → Store S → Store S
prepare_migrations_table store = record store {
  migrations = some (elim store.migrations [ none ↦ [] | some rows ↦ rows ]);
}

-- `SELECT COUNT(*) … WHERE serial_number = $1`, compared with 0.
abbrev pub is_applied : ℕ → List ℕ → Bool
is_applied serial rows = is_some (find (λ row. row == serial) rows)

-- A migration that has succeeded is in the table.
abbrev pub IsRun : {S : Type 0} → Migration → Store S → Type 0
IsRun m store =
    (rows : List ℕ) × (store.migrations ≡ some rows) × (is_applied m.serial_number rows ≡ true)

module _ {S E : Type 0} (execute : String → S → Option S) where
  -- `SimpleSqlMigration::run`
  abbrev pub run_sql : List String → S → Outcome E S
  run_sql [] s = ok s
  run_sql (statement ∷ statements) s = do s' ← unwrap (execute statement s); run_sql statements s'

  -- `run_migration`: without the table the queries fail.
  unfoldable pub run_migration : Migration → Store S → Outcome E (Store S)
  run_migration m store = do
    rows ← unwrap store.migrations
    if is_applied m.serial_number rows then ok store else (do
      schema ← run_sql m.sql store.schema
      ok (record { migrations = some (m.serial_number ∷ rows); schema = schema }))

  -- `run_migrations`, with the migration of `m0000_init.rs`.
  unfoldable pub run_migrations : Migration → Store S → Outcome E (Store S)
  unfolding prepare_migrations_table run_migration
  run_migrations m0000_init store = run_migration m0000_init (prepare_migrations_table store)

  pub run_migration-IsRun :
      (m : Migration) (store store' : Store S) (rows : List ℕ)
      → store.migrations ≡ some rows
      → run_migration m store ≡ ok store'
      → IsRun m store'
  unfolding run_migration
  run_migration-IsRun m store store' rows e h =
      elim (Bool-cases (is_applied m.serial_number rows)) [
        | inl done ↦ (rows, ground arith, done)
        | inr open_yet ↦
            let fresh : (do
              schema ← run_sql m.sql store.schema
              ok (record { migrations = some (m.serial_number ∷ rows); schema = schema }))
                ≡ ok store' =
              ground arith in
            let (schema, ran, stored) = >>=-eq-ok (run_sql m.sql store.schema) _ fresh in
            (m.serial_number ∷ rows, ground arith, ground (arith, ==_refl m.serial_number))
      ]

  -- Migrations that have succeeded are not run again: a second run leaves the database as it is.
  run_migrations_twice :
      (m : Migration) (store store' : Store S)
      → run_migrations m store ≡ ok store'
      → run_migrations m store' ≡ ok store'
  unfolding run_migrations run_migration prepare_migrations_table
  run_migrations_twice m store store' h =
      let (rows, e, done) =
        run_migration-IsRun m (prepare_migrations_table store) store' _ refl h in
      ground arith
