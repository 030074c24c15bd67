-- ===== src/Balance/Credits.antt =====
-- app/src/balance: crediting a balance that was read, and writing it back.
use laas_api.Base.{◌≡◌, true, false, ◌==◌, some, find, find_sound, ok, arith, IsKeyed}
use laas_api.Int.{ℤ, pos, ◌+ℤ◌, ◌<ℤ◌, IsI64, add_i64-eq, +ℤ_parts}
use laas_api.Btc.{add}
use laas_api.Concurrency.{ConflictError}
use laas_api.Database.{Uuid, Database, UserRow}
use laas_api.Balance.{Balance, credit, new, changed}
use laas_api.Balance.Queries
use laas_api.Balance.Updates.{user_key, Stored, update_success}

get_eq :
    (db : Database) (user_id : Uuid) (row : UserRow) (b : Balance)
    → find (Queries.has_id user_id) db.users ≡ some row
    → Queries.get {E = ConflictError} db user_id ≡ ok b
    → b ≡ new user_id row.balance_msats
unfolding Queries.get new
get_eq db user_id row b found h =
    ground (arith, find_sound (Queries.has_id user_id) db.users {v = row} found)

credit_eq :
    (user_id : Uuid) (o a : ℤ)
    → IsI64 (o +ℤ a)
    → credit (new user_id o) a ≡ record { user_id = user_id; original_amount = o; amount = o +ℤ a }
unfolding credit new add
credit_eq user_id o a range = rw (add_i64-eq o a range)

changed_positive :
    (user_id : Uuid) (o a : ℤ)
    → pos 0 <ℤ a
    → changed (record { user_id = user_id; original_amount = o; amount = o +ℤ a }) ≡ true
unfolding changed
changed_positive user_id o a positive = ground (arith, +ℤ_parts o a)

-- A positive credit to a balance that was read, written into a later state of the database: it was
-- still the stored balance, the sum is stored now, and the other users are as they were.
pub update-credit :
    (db between db' : Database) (user_id : Uuid) (b : Balance) (row : UserRow) (a : ℤ)
    → IsKeyed user_key between.users
    → find (Queries.has_id user_id) db.users ≡ some row
    → pos 0 <ℤ a
    → IsI64 (row.balance_msats +ℤ a)
    → Queries.get {E = ConflictError} db user_id ≡ ok b
    → Queries.update between (credit b a) ≡ ok db'
    → Stored between user_id row.balance_msats
      × Stored db' user_id (row.balance_msats +ℤ a)
      × ((j : Uuid)
          → (user_id == j) ≡ false
          → find (Queries.has_id j) db'.users ≡ find (Queries.has_id j) between.users)
update-credit db between db' user_id b row a keyed found positive range loaded updated =
    let o = row.balance_msats in
    let c : Balance = record { user_id = user_id; original_amount = o; amount = o +ℤ a } in
    let sum : Queries.update between c ≡ ok db' =
      rw (← credit_eq user_id o a range, ← get_eq db user_id row b found loaded) updated in
    update_success between db' c keyed sum (changed_positive user_id o a positive)
