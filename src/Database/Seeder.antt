-- ===== src/Database/Seeder.antt =====
-- app/src/database/seeder.rs: the users and tokens of a development database. The id of an index is the
-- index; the digest of a token is the parameter `generate`.
use text.Mathlib.Text.{◌==◌ as str_eq}
use Prim.Native.String.{◌++◌ as append}
use laas_api.Base.{
  ℕ, ◌+◌, ◌*◌, ◌==◌, ◌≡◌, ◌∙◌, Bool, ◌||◌, true, false, Option, none, some, ◌∷◌, find, Outcome, ok,
  panic, ◌>>=◌, >>=-eq-ok, arith, String, Option-cases, inl, inr, ==_refl, is_some,
}
use laas_api.Int.{pos}
use laas_api.Database.{Uuid, DateTime, Database, UserRow, TokenRow}

-- `INSERT INTO users`: the id and the e-mail are unique, and `unwrap` panics on a second row.
unfoldable pub insert_user : {E : Type 0} → UserRow → Database → Outcome E Database
insert_user row db = elim (find (λ x. x.id == row.id || str_eq x.email row.email) db.users) [
  | none ↦ ok (record db { users = row ∷ db.users })
  | some x ↦ panic
]

-- `INSERT INTO auth_tokens`: the id, the name and the digest are unique.
unfoldable pub insert_token : {E : Type 0} → TokenRow → Database → Outcome E Database
insert_token row db =
    elim (find (λ x. x.id == row.id || str_eq x.name row.name || str_eq x.token_hash row.token_hash)
      db.auth_tokens) [
        | none ↦ ok (record db { auth_tokens = row ∷ db.auth_tokens })
        | some x ↦ panic
      ]

module _ (generate : String → String) (now : DateTime) where
  abbrev pub test_user : ℕ → String → UserRow
  test_user index text = record {
    id = index;
    email = append "test-" (append text "@user.net");
    password = append "test-" text;
    balance_msats = pos 2_000_000_000;
    created = now;
  }

  abbrev pub test_token : ℕ → ℕ → String → Bool → Bool → Bool → Option DateTime → TokenRow
  test_token index number name can_spend can_receive can_read disabled = record {
    id = index * 100 + number;
    user_id = index;
    name = name;
    token_hash = generate name;
    can_spend = can_spend;
    can_receive = can_receive;
    can_read = can_read;
    created = now;
    disabled = disabled;
  }

  -- The inserts of `seed_test_user`, with the text of the index.
  unfoldable pub insert_test_user : {E : Type 0} → ℕ → String → Database → Outcome E Database
  insert_test_user index text db = do
    db₁ ← insert_user (test_user index text) db
    db₂ ← insert_token (test_token index 1 (append "spend_only_" text) true false false none) db₁
    db₃ ← insert_token (test_token index 2 (append "receive_only_" text) false true false none) db₂
    db₄ ← insert_token (test_token index 3 (append "read_only_" text) false false true none) db₃
    db₅ ← insert_token (test_token index 4 (append "all_" text) true true true none) db₄
    insert_token (test_token index 5 (append "disabled_" text) true true true (some now)) db₅

  -- `seed_test_user`: nothing is done for a user that exists.
  unfoldable pub seed_test_user : {E : Type 0} → ℕ → String → Database → Outcome E Database
  seed_test_user index text db = elim (find (λ row. row.id == index) db.users) [
    | some row ↦ ok db
    | none ↦ insert_test_user index text db
  ]

  -- `seed_development_data`
  unfoldable pub seed_development_data : {E : Type 0} → Database → Outcome E Database
  seed_development_data db = do db' ← seed_test_user 1 "1" db; seed_test_user 2 "2" db'

abbrev HasUser : Uuid → Database → Type 0
HasUser id db = is_some (find (λ row. row.id == id) db.users) ≡ true

insert_user-users :
    {E : Type 0} (row : UserRow) (db db' : Database)
    → insert_user {E = E} row db ≡ ok db'
    → db'.users ≡ row ∷ db.users
unfolding insert_user
insert_user-users row db db' h =
    elim (Option-cases (find (λ x. x.id == row.id || str_eq x.email row.email) db.users)) [
      | inl vacant ↦ ground arith
      | inr (x, e) ↦ absurd (ground arith)
    ]

insert_token-users :
    {E : Type 0} (row : TokenRow) (db db' : Database)
    → insert_token {E = E} row db ≡ ok db'
    → db'.users ≡ db.users
unfolding insert_token
insert_token-users row db db' h =
    elim (Option-cases (
      find (λ x. x.id == row.id || str_eq x.name row.name || str_eq x.token_hash row.token_hash)
        db.auth_tokens)) [ inl vacant ↦ ground arith | inr (x, e) ↦ absurd (ground arith) ]

module _ {E : Type 0} (generate : String → String) (now : DateTime) where
  insert_test_user-users :
      (index : ℕ) (text : String) (db db' : Database)
      → insert_test_user generate now {E = E} index text db ≡ ok db'
      → db'.users ≡ test_user generate now index text ∷ db.users
  unfolding insert_test_user
  insert_test_user-users index text db db' h =
      let (db₁, h₁, r₁) = >>=-eq-ok (insert_user {E = E} _ db) _ h in
      let (db₂, h₂, r₂) = >>=-eq-ok (insert_token {E = E} _ db₁) _ r₁ in
      let (db₃, h₃, r₃) = >>=-eq-ok (insert_token {E = E} _ db₂) _ r₂ in
      let (db₄, h₄, r₄) = >>=-eq-ok (insert_token {E = E} _ db₃) _ r₃ in
      let (db₅, h₅, r₅) = >>=-eq-ok (insert_token {E = E} _ db₄) _ r₄ in
      insert_token-users _ db₅ db' r₅
      ∙ insert_token-users _ db₄ db₅ h₅
      ∙ insert_token-users _ db₃ db₄ h₄
      ∙ insert_token-users _ db₂ db₃ h₃
      ∙ insert_token-users _ db₁ db₂ h₂
      ∙ insert_user-users _ db db₁ h₁

  -- Seeding a user leaves that user and those that were there.
  seed_test_user-HasUser :
      (index : ℕ) (text : String) (db db' : Database)
      → seed_test_user generate now {E = E} index text db ≡ ok db'
      → HasUser index db' × ((j : Uuid) → HasUser j db → HasUser j db')
  unfolding seed_test_user
  seed_test_user-HasUser index text db db' h =
      elim (Option-cases (find (λ row. row.id == index) db.users)) [
        | inl missing ↦
            let made : insert_test_user generate now {E = E} index text db ≡ ok db' =
              ground arith in
            let users = insert_test_user-users index text db db' made in
            (rw users (ground (arith, ==_refl index)), λ j there. rw users (ground arith))
        | inr (row, e) ↦
            let same : db ≡ db' = ground arith in (ground arith, λ j there. ground arith)
      ]

  seeded :
      (index : ℕ) (text : String) (db : Database)
      → HasUser index db
      → seed_test_user generate now {E = E} index text db ≡ ok db
  unfolding seed_test_user
  seeded index text db there = ground arith

-- Seeding the development data a second time, at whatever time, leaves the database as it is.
pub seed_development_data_twice :
    {E : Type 0} (generate : String → String) (earlier now : DateTime) (db db' : Database)
    → seed_development_data generate earlier {E = E} db ≡ ok db'
    → seed_development_data generate now {E = E} db' ≡ ok db'
unfolding seed_development_data
seed_development_data_twice {E} generate earlier now db db' h =
    let (mid, h₁, h₂) = >>=-eq-ok (seed_test_user generate earlier {E = E} 1 "1" db) _ h in
    let first = (seed_test_user-HasUser generate earlier 1 "1" db mid h₁).0 in
    let (second, keeps) = seed_test_user-HasUser generate earlier 2 "2" mid db' h₂ in
    rw (seeded {E = E} generate now 1 "1" db' (keeps 1 first))
      (seeded {E = E} generate now 2 "2" db' second)
