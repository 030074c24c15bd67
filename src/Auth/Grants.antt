-- ===== src/Auth/Grants.antt =====
-- app/src/auth: who is given a grant.
use laas_api.Base.{String, ◌≡◌, some, none, find, ok, err, arith, if◌then◌else◌}
use laas_api.Database.{Database, TokenRow}
use laas_api.Auth.{has_hash, get_spend_grant, get_receive_grant, get_read_grant, access_denied}

-- A row that a token gives rights by: it has the hash of the token and is not disabled.
abbrev pub Admits : (String → String) → String → TokenRow → Type 0
Admits token_hash token row = (row.token_hash ≡ token_hash token) × (row.disabled ≡ none)

module _ (token_hash : String → String) (db : Database) (token : String) where
  -- A stored, enabled token gets each grant that its permissions name, and is denied the others.
  pub grants_complete :
      (row : TokenRow)
      → find (has_hash token_hash token) db.auth_tokens ≡ some row
      → row.disabled ≡ none
      → (get_spend_grant token_hash db token ≡ (
          if row.can_spend
          then ok (record { token_id = row.id; user_id = row.user_id })
          else err access_denied))
        × (get_receive_grant token_hash db token ≡ (
            if row.can_receive
            then ok (record { token_id = row.id; user_id = row.user_id })
            else err access_denied))
        × (get_read_grant token_hash db token ≡ (
            if row.can_read
            then ok (record { token_id = row.id; user_id = row.user_id })
            else err access_denied))
  unfolding get_spend_grant get_receive_grant get_read_grant
  grants_complete row found enabled = (ground arith, ground arith, ground arith)
