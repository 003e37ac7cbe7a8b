-- ===== src/ControlPlane/Error.antt =====
-- crates/control-plane/src/error.rs: the one error type of the handlers. A message keeps what its
-- `format!` call is given; the text of an error of `sqlx`, `serde_json` or a backend is theirs.
use computation_market_poc.Prelude.{String}

pub data StatusCode : Type 0 where
  not_found conflict payment_required bad_request unauthorized bad_gateway : StatusCode
  internal_server_error created : StatusCode

-- The errors of `sqlx` that a statement of this program can meet by its own fault.
pub data SqlxError : Type 0 where
  row_not_found check_failed unique_failed foreign_key_failed : SqlxError

pub data Message : Type 0 where
  text : String → Message
  -- "database error: {e}"
  database_error : SqlxError → Message
  -- "serialization error: {e}", of the payload
  serialization_error : String → Message
  -- "invoice creation failed: {e}" and "payout failed: {e}"
  invoice_creation_failed payout_failed : String → Message

pub record ApiError : Type 0 where
  pub status : StatusCode
  pub message : Message

-- `ApiError::new`
abbrev pub new : StatusCode → Message → ApiError
new status message = record { status = status; message = message }

-- `ApiError::not_found` and the other constructors for one status.
abbrev pub not_found_error : String → ApiError
not_found_error m = new StatusCode.not_found (text m)

abbrev pub conflict_error : String → ApiError
conflict_error m = new StatusCode.conflict (text m)

abbrev pub payment_required_error : String → ApiError
payment_required_error m = new StatusCode.payment_required (text m)

abbrev pub bad_request_error : String → ApiError
bad_request_error m = new StatusCode.bad_request (text m)

abbrev pub unauthorized_error : String → ApiError
unauthorized_error m = new StatusCode.unauthorized (text m)

abbrev pub bad_gateway_error : Message → ApiError
bad_gateway_error m = new StatusCode.bad_gateway m

-- `impl From<sqlx::Error> for ApiError`
abbrev pub from_sqlx : SqlxError → ApiError
from_sqlx e = new StatusCode.internal_server_error (database_error e)

-- `impl From<serde_json::Error> for ApiError`
abbrev pub from_serde : String → ApiError
from_serde payload = new StatusCode.internal_server_error (serialization_error payload)
