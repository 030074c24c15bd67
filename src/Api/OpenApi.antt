-- ===== src/Api/OpenApi.antt =====
-- api/src/access.rs: how the guards are described to the readers of the API. The types are those of
-- the crates okapi and rocket_okapi, as far as they are used.
use Prim.Native.String.{◌++◌}
use laas_api.Base.{Option, some, List, [], ◌∷◌, String}
use laas_api.Api.Access.{token_header}

-- `SecuritySchemeData::ApiKey`
pub record ApiKey : Type 0 where
  pub name : String
  pub location : String

-- `SecurityScheme`; it has no extensions.
pub record SecurityScheme : Type 0 where
  pub description : Option String
  pub api_key : ApiKey

-- `RequestHeaderInput::Security`, with the scopes that each scheme requires.
pub record SecurityInput : Type 0 where
  pub name : String
  pub scheme : SecurityScheme
  pub requirement : List (String × List String)

unfoldable pub openapi_auth : SecurityInput
openapi_auth = record {
  name = token_header;
  scheme = record {
    description = some ("Requires an API key to access: \"" ++ token_header ++ "\".");
    api_key = record { name = token_header; location = "header" };
  };
  requirement = (token_header, []) ∷ [];
}

-- `from_request_input` of each guard
abbrev pub spend_input : SecurityInput
spend_input = openapi_auth

abbrev pub receive_input : SecurityInput
receive_input = openapi_auth

abbrev pub read_input : SecurityInput
read_input = openapi_auth
