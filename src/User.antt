-- ===== src/User.antt =====
-- app/src/user: users as they are read.
use laas_api.Base.{String, Option, some, none, find, ◌==◌}
use laas_api.Btc.{MilliSats}
use laas_api.Database.{Uuid, DateTime, Database, UserRow}
use laas_api.Auth.{ReadGrant}

pub record User : Type 0 where
  pub id : Uuid
  pub email : String
  pub balance : MilliSats
  pub created : DateTime

-- `UserRow::into_entity`
abbrev pub into_entity : UserRow → User
into_entity row = record {
  id = row.id;
  email = row.email;
  balance = row.balance_msats;
  created = row.created;
}

-- `user::get` with `queries::get`
unfoldable pub get : ReadGrant → Database → Option User
get grant db = elim (find (λ row. row.id == grant.user_id) db.users) [
  | none ↦ none
  | some row ↦ some (into_entity row)
]
