-- ===== src/Errors.antt =====
-- internal/errors: HTTPError, ParseDBError and the answer of SendHTTPError. The logger is not modelled.
use self_host.Prelude.{ℕ, ◌||◌, [], ◌++◌, if◌then◌else◌}
use self_host.Text.{Text, codes, contains}
use self_host.Text.Map.{TextMap, insert}

mutual
  -- A Go error: an HTTPError with its cause, message and code, or another error with its text.
  pub data Error : Type 0 where
    http_error : Cause → Text → ℕ → Error
    other_error : Text → Error

  pub data Cause : Type 0 where
    no_cause : Cause
    caused_by : Error → Cause

-- The errors that the package declares and other packages answer with
abbrev pub error_duplicate_key : Error
error_duplicate_key =
    http_error no_cause (codes "Request caused an error due to duplicate key violation") 400

abbrev pub error_malformed_request : Error
error_malformed_request =
    http_error no_cause (codes "An error occurred due to a malformed request") 400

abbrev pub error_unauthorized : Error
error_unauthorized = http_error no_cause (codes "Unauthorized") 401

abbrev pub error_forbidden : Error
error_forbidden = http_error no_cause (codes "Forbidden") 403

abbrev pub error_too_many_requests : Error
error_too_many_requests = http_error no_cause (codes "Too many requests") 429

abbrev pub error_unprocessable : Error
error_unprocessable = http_error no_cause (codes "Unprocessable Entity") 422

abbrev pub error_db_no_rows : Error
error_db_no_rows = http_error no_cause (codes "The requestes resource does not exist") 404

abbrev pub error_db_undefined : Error
error_db_undefined = http_error no_cause (codes "Undefined DB error") 500

abbrev pub error_undefined : Error
error_undefined = http_error no_cause (codes "Undefined error") 500

-- ErrorDBDown with its cause
abbrev pub error_db_down : Cause → Error
error_db_down cause = http_error cause (codes "The DB is currently inaccessible") 500

-- HTTPError.Error
unfoldable mutual
  pub error_text : Error → Text
  error_text (http_error cause message code) = message ++ cause_text cause
  error_text (other_error text) = text

  pub cause_text : Cause → Text
  cause_text no_cause = []
  cause_text (caused_by e) = codes " : " ++ error_text e

unfoldable pub new_internal_server_error : Error → Error
new_internal_server_error e = http_error no_cause (error_text e) 500

unfoldable pub new_invalid_request_error : Error → Error
new_invalid_request_error e = http_error no_cause (error_text e) 400

unfoldable pub parse_db_text : Text → Error
parse_db_text serr =
    if contains serr (codes "SQLSTATE 23505")
    then error_duplicate_key
    else if contains serr (codes "SQLSTATE 23503")
    then error_malformed_request
    else if contains serr (codes "no rows")
    then error_db_no_rows
    else if contains serr (codes "failed to connect to") || contains serr (codes "unexpected EOF")
    then error_db_down (caused_by (other_error serr))
    else error_db_undefined

unfoldable pub parse_db_error : Error → Error
unfolding parse_db_text
parse_db_error (http_error cause message code) = http_error cause message code
parse_db_error (other_error serr) = parse_db_text serr

-- What a handler has written: headers, status and body.
pub record Reply : Type 0 where
  pub headers : TextMap Text
  pub code : ℕ
  pub body : Text

status_of : Error → ℕ
status_of (http_error cause message code) = code
status_of (other_error text) = 500

unfoldable pub send_http_error : TextMap Text → Error → Reply
unfolding status_of
send_http_error headers e = record {
  headers = insert (codes "Content-Type") (codes "text/plain; charset=utf-8") headers;
  code = status_of e;
  body = error_text e;
}
