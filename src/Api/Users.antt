-- ===== src/Api/Users.antt =====
-- api/src/routes/user.rs: the route of the user.
use laas_api.Base.{Option, String}
use laas_api.Int.{ℤ}
use laas_api.Btc.{sats_floor}
use laas_api.Database.{Database}
use laas_api.Auth.{ReadGrant}
use laas_api.User.{User}
use laas_api.User
use laas_api.Api.Invoices.{map_option}

pub record UserModel : Type 0 where
  pub email : String
  pub balance_msats : ℤ
  pub balance_sats : ℤ

abbrev pub user_model : User → UserModel
user_model u = record {
  email = u.email;
  balance_msats = u.balance;
  balance_sats = sats_floor u.balance;
}

-- `get`
unfoldable pub get_user_model : ReadGrant → Database → Option UserModel
get_user_model grant db = map_option user_model (User.get grant db)
