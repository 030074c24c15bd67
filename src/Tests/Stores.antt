-- ===== src/Tests/Stores.antt =====
-- Migrations: every statement counts up.
use laas_api.Base.{ℕ, suc, ◌≡◌, refl, Option, none, some, [], ◌∷◌, String, ok, Never}
use laas_api.Database.Migrations.{
  Store, Migration, run_migrations, run_migration, prepare_migrations_table,
}

abbrev execute : String → ℕ → Option ℕ
execute statement n = some (suc n)

abbrev initial : Migration
initial = record { serial_number = 0; sql = "CREATE TABLE users" ∷ "CREATE TABLE invoices" ∷ [] }

abbrev migrated : Store ℕ
migrated = record { migrations = some (0 ∷ []); schema = 2 }

migrates :
    run_migrations {E = Never} execute initial (record { migrations = none; schema = 0 })
    ≡ ok migrated
unfolding run_migrations run_migration prepare_migrations_table
migrates = refl

migrates_again : run_migrations {E = Never} execute initial migrated ≡ ok migrated
unfolding run_migrations run_migration prepare_migrations_table
migrates_again = refl
