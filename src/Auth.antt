-- ===== src/Auth.antt =====
-- app/src/auth: tokens, their permissions, and the grants that they give. The SHA-256 digest in
-- hexadecimal is the parameter `token_hash`.
pub mod Grants
use text.Mathlib.Text.{◌==◌ as str_eq}
use laas_api.Base.{
  Bool, ◌&&◌, Option, some, none, is_none, find, String, Outcome, ok, err, panic, ◌>>=◌,
  if◌then◌else◌,
}
use laas_api.Database.{Uuid, DateTime, Database, TokenRow}

pub data AccessDenied : Type 0 where
  access_denied : AccessDenied

pub record SpendGrant : Type 0 where
  pub token_id : Uuid
  pub user_id : Uuid

pub record ReceiveGrant : Type 0 where
  pub token_id : Uuid
  pub user_id : Uuid

pub record ReadGrant : Type 0 where
  pub token_id : Uuid
  pub user_id : Uuid

pub record Permissions : Type 0 where
  pub can_spend : Bool
  pub can_receive : Bool
  pub can_read : Bool

pub record Token : Type 0 where
  pub id : Uuid
  pub user_id : Uuid
  pub permissions : Permissions
  pub disabled : Option DateTime

-- `Token::is_enabled`
unfoldable pub is_enabled : Token → Bool
is_enabled t = is_none t.disabled

-- `Token::spend_grant`
unfoldable pub spend_grant : Token → Outcome AccessDenied SpendGrant
unfolding is_enabled
spend_grant t =
    if is_enabled t && t.permissions.can_spend
    then ok (record { token_id = t.id; user_id = t.user_id })
    else err access_denied

-- `Token::receive_grant`
unfoldable pub receive_grant : Token → Outcome AccessDenied ReceiveGrant
unfolding is_enabled
receive_grant t =
    if is_enabled t && t.permissions.can_receive
    then ok (record { token_id = t.id; user_id = t.user_id })
    else err access_denied

-- `Token::read_grant`
unfoldable pub read_grant : Token → Outcome AccessDenied ReadGrant
unfolding is_enabled
read_grant t =
    if is_enabled t && t.permissions.can_read
    then ok (record { token_id = t.id; user_id = t.user_id })
    else err access_denied

-- `TokenRow::into_entity`
abbrev pub into_entity : TokenRow → Token
into_entity row = record {
  id = row.id;
  user_id = row.user_id;
  permissions = record {
    can_spend = row.can_spend;
    can_receive = row.can_receive;
    can_read = row.can_read;
  };
  disabled = row.disabled;
}

-- `ok_or(AccessDenied)`
abbrev pub or_denied : {A : Type 0} → Option A → Outcome AccessDenied A
or_denied none = err access_denied
or_denied (some a) = ok a

module _ (token_hash : String → String) where
  abbrev pub has_hash : String → TokenRow → Bool
  has_hash token row = str_eq row.token_hash (token_hash token)

  -- `queries::get_token`
  unfoldable pub get_token : Database → String → Option Token
  get_token db token = elim (find (has_hash token) db.auth_tokens) [
    | none ↦ none
    | some row ↦ some (into_entity row)
  ]

  unfoldable pub get_spend_grant : Database → String → Outcome AccessDenied SpendGrant
  unfolding get_token spend_grant
  get_spend_grant db token = do t ← or_denied (get_token db token); spend_grant t

  unfoldable pub get_receive_grant : Database → String → Outcome AccessDenied ReceiveGrant
  unfolding get_token receive_grant
  get_receive_grant db token = do t ← or_denied (get_token db token); receive_grant t

  unfoldable pub get_read_grant : Database → String → Outcome AccessDenied ReadGrant
  unfolding get_token read_grant
  get_read_grant db token = do t ← or_denied (get_token db token); read_grant t
