-- ===== src/Api/Errors.antt =====
-- api/src/error.rs: the errors that the routes answer with. The code and the reason of an answer are
-- Rocket's for its status.
use laas_api.Base.{String}

-- `rocket::http::Status`, as far as the routes use it.
pub data HttpStatus : Type 0 where
  bad_request_status internal_server_error_status : HttpStatus

-- `JsonError` with its `Error` and `Inner`.
pub record JsonError (E : Type 0) : Type 0 where
  pub http_status : HttpStatus
  pub description : String
  pub status : E

unfoldable pub bad_request : {E : Type 0} → E → String → JsonError E
bad_request e description = record {
  http_status = bad_request_status;
  description = description;
  status = e;
}

unfoldable pub internal_server_error : {E : Type 0} → E → String → JsonError E
internal_server_error e description = record {
  http_status = internal_server_error_status;
  description = description;
  status = e;
}

unfoldable pub concurrency_error : {E : Type 0} → E → JsonError E
unfolding internal_server_error
concurrency_error e =
    internal_server_error e "a concurrency conflict could not be resolved, please contact support"
