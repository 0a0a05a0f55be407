-- ===== src/Handlers/Errors.antt =====
-- pkg/handlers/errors.go: backend errors as HTTP responses.
pub mod Laws
pub mod Decision
use Prim.Native.String.{◌++◌, slice}
use mathlib.Core.List.{map}
use est_service.Prelude.{
  Bool, GoError, List, String, [], codes, contains, cut, false, from_first, if◌then◌else◌, itoa,
  len, lower, ltb, none, some, to_lower, trim_prefix, ℕ, ◌=ℕ=◌, ◌||◌, ◌∷◌,
}
use est_service.Http.{Response, http_error, set_header}

-- `BackendError`
pub record BackendError : Type 0 where
  pub status_code : ℕ
  pub message : String
  pub details : String
  pub retry_after : ℕ

-- `extractBackendError`. The cut at 200 bytes is at a character's end where the text is ASCII.
extract_backend_error : String → String
extract_backend_error text = elim (from_first "Errors:\n\n* " text) [
  | some found ↦
      let message = trim_prefix found "Errors:\n\n* " in
      elim (cut b'\n' message) [ none ↦ message | some (line, rest) ↦ line ]
  | none ↦ elim (from_first "Code: " text) [
    | some found ↦ found
    | none ↦ if ltb 200 (len text) then slice text 0 200 ++ "..." else text
  ]
]

-- Some of the patterns stands in the text.
unfoldable pub mentions : List ℕ → List String → Bool
mentions lower [] = false
mentions lower (p ∷ patterns) = contains lower (codes p) || mentions lower patterns

-- The classes of errors in the order of the tests, each with its patterns.
pub data ErrorClass : Type 0 where
  forbidden unauthorized bad_request not_found unavailable sealed bad_gateway : ErrorClass

abbrev pub forbidden_patterns : List String
forbidden_patterns = "permission denied" ∷ "code: 403" ∷ "forbidden" ∷ []

abbrev pub unauthorized_patterns : List String
unauthorized_patterns = "authentication failed" ∷ "code: 401" ∷ "unauthorized" ∷ []

abbrev pub bad_request_patterns : List String
bad_request_patterns = "code: 400" ∷ "bad request" ∷ "invalid" ∷ []

abbrev pub not_found_patterns : List String
not_found_patterns = "code: 404" ∷ "not found" ∷ []

abbrev pub unavailable_patterns : List String
unavailable_patterns = "connection refused" ∷ "connection reset" ∷ "no such host" ∷ "timeout" ∷ []

abbrev pub sealed_patterns : List String
sealed_patterns = "sealed" ∷ "standby" ∷ []

-- The chain of tests of `ParseBackendError`, on the text in lower case; its last test and its end
-- give the same answer.
unfoldable pub classify_lower : List ℕ → ErrorClass
classify_lower lower =
    if mentions lower forbidden_patterns
    then forbidden
    else if mentions lower unauthorized_patterns
    then unauthorized
    else if mentions lower bad_request_patterns
    then bad_request
    else if mentions lower not_found_patterns
    then not_found
    else if mentions lower unavailable_patterns
    then unavailable
    else if mentions lower sealed_patterns
    then sealed
    else bad_gateway

unfoldable pub classify : String → ErrorClass
classify text = classify_lower (map to_lower (codes text))

-- The answers of `ParseBackendError`.
unfoldable pub answer : ErrorClass → String → BackendError
answer forbidden details = record {
  status_code = 403;
  message = "Certificate signing request rejected: insufficient permissions";
  details = details;
  retry_after = 0;
}
answer unauthorized details = record {
  status_code = 401;
  message = "Backend authentication failed";
  details = details;
  retry_after = 0;
}
answer bad_request details = record {
  status_code = 400;
  message = "Invalid certificate request";
  details = details;
  retry_after = 0;
}
answer not_found details = record {
  status_code = 404;
  message = "PKI mount or role not found";
  details = details;
  retry_after = 0;
}
answer unavailable details = record {
  status_code = 503;
  message = "Backend service unavailable";
  details = "Unable to connect to PKI backend";
  retry_after = 30;
}
answer sealed details = record {
  status_code = 503;
  message = "Backend service temporarily unavailable";
  details = details;
  retry_after = 120;
}
answer bad_gateway details = record {
  status_code = 502;
  message = "PKI backend error";
  details = details;
  retry_after = 0;
}

-- `ParseBackendError`, of an error that is not nil
unfoldable pub parse_backend_error : GoError → BackendError
unfolding answer extract_backend_error
parse_backend_error e = answer (classify e.text) (extract_backend_error e.text)

-- The message of `SendBackendError`.
error_message : BackendError → String → String
error_message e operation =
    if e.status_code =ℕ= 403
    then e.message
      ++ ". The EST service may lack permissions to sign certificates with the configured PKI role."
    else if e.status_code =ℕ= 503
    then (if ltb 0 e.retry_after
        then e.message ++ ". Please retry after " ++ itoa e.retry_after ++ " seconds."
        else e.message ++ ". Please try again later or contact your administrator.")
    else if e.status_code =ℕ= 502
    then e.message ++ " during " ++ operation ++ "."
    else e.message

-- `SendBackendError`
unfoldable pub send_backend_error : GoError → String → Response → Response
unfolding error_message
send_backend_error e operation r =
    let parsed = parse_backend_error e in
    let r' =
      if ltb 0 parsed.retry_after
      then set_header "Retry-After" (itoa parsed.retry_after) r
      else r in
    http_error (error_message parsed operation) parsed.status_code r'
