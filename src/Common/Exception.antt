-- ===== src/Common/Exception.antt =====
-- src/core/exception: the errors that code throws. Messages are left out; the error codes and the
-- `retry` flag, which callers read, are kept.
use noba_server.Common.Base.{ℕ, Bool, false, Option}

pub data ServiceErrorCode : Type 0 where
  semantic_validation does_not_exist already_exists unable_to_process : ServiceErrorCode
  unauthorized unauthenticated rate_limit_exceeded not_implemented unknown : ServiceErrorCode

pub data RepoErrorCode : Type 0 where
  not_found invalid_database_record database_internal_error unknown : RepoErrorCode

-- `axios_error` is what an HTTP client throws, with the status of the response, if there was one;
-- `mono_client_exception` is that of src/modules/mono/exception; `validation_error` is what Joi throws, `type_error` the reading of a field of undefined or null,
-- `database_error` what the database client throws, `not_implemented_error` a plain Error.
pub data Exception : Type 0 where
  service_exception : ServiceErrorCode → (retry : Bool) → Exception
  repo_exception : RepoErrorCode → Exception
  bad_request_error not_found_error unauthorized_exception : Exception
  database_internal_error_exception invalid_database_record_exception : Exception
  axios_error : (status : Option ℕ) → Exception
  mono_client_exception : Exception
  validation_error type_error database_error not_implemented_error : Exception

-- A ServiceException with no `retry`.
abbrev pub service : ServiceErrorCode → Exception
service code = service_exception code false
