-- ===== src/Database/Transactions.antt =====
-- A transaction of PostgreSQL at its default isolation, READ COMMITTED: each statement sees what other
-- transactions have committed so far and what this one has written. The body of a transaction is a
-- function from the database that it begins with to the one that it commits.
use laas_api.Base.{Outcome, ok, err, panic}
use laas_api.Database.{Database, Uuid, DateTime}

-- What a call draws from its surroundings: the changes that other transactions commit at the two places
-- of the call that matter, a fresh id, and the time.
pub record Surroundings : Type 0 where
  pub first : Database → Database
  pub second : Database → Database
  pub id : Uuid
  pub now : DateTime

-- Surroundings in which no other transaction commits.
abbrev pub quiet : Uuid → DateTime → Surroundings
quiet id now = record { first = λ db. db; second = λ db. db; id = id; now = now }

-- A transaction that is not committed leaves what the others have committed.
abbrev pub rolled_back : Surroundings → Database → Database
rolled_back env db = env.second (env.first db)

-- The outcome of a transaction, and the database after it.
abbrev pub transaction :
    {E A : Type 0} → Surroundings → Database → Outcome E (A × Database) → Outcome E A × Database
transaction env db (ok (a, db')) = (ok a, db')
transaction env db (err e) = (err e, rolled_back env db)
transaction env db panic = (panic, rolled_back env db)
