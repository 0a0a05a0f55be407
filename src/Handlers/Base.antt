-- ===== src/Handlers/Base.antt =====
-- pkg/handlers/base_enrollment.go: what enrollment and re-enrollment share. A step that can end the
-- request returns `none` then.
pub mod Outcome
pub mod Steps
use est_service.Prelude.{
  Bool, List, Option, String, [], eq_ℤ, err, if◌then◌else◌, none, ok, pos, some, true, ℕ, ◌*◌, ◌==◌,
  ◌∷◌,
}
use est_service.X509.{Certificate, CertificateRequest, Crypto}
use est_service.Http.{Request, Response, add_header, http_error, set_header, write, write_header}
use est_service.Backend.{Backend}
use est_service.World.{
  AuditEntry, Metric, World, auth_failure, auth_success, certificate_issued, certificate_rejected,
}
use est_service.Auth.{AuthConfig, AuthResult, authenticate, www_authenticate_headers}
use est_service.Est.Payload.{read_csr_payload_with_limit}
use est_service.Est.Algorithm.{validate_csr_signature_algorithm}
use est_service.Est.Pkcs7.{create_pkcs7_certs_only, pkcs7_content_type}
use est_service.Handlers.Policy.{EnrollmentConfig, LabelPolicy}

-- `if !ok { return }`, then the rest.
abbrev pub proceed :
    {A R : Type 0}
    → Option A × Response × World R
    → (A → Response → World R → Response × World R)
    → Response × World R
proceed (none, r, w) k = (r, w)
proceed (some a, r, w) k = k a r w

-- `baseEnrollmentHandler`; the flags say whether `telemetry` and `auditLog` are not nil.
pub record EnrollHandler : Type 0 where
  pub auth : AuthConfig
  pub config : EnrollmentConfig
  pub telemetry : Bool
  pub audit_log : Bool

-- `NewSimpleEnrollHandler` and `NewSimpleReenrollHandler`: the default of `MaxCSRSize`
unfoldable pub with_defaults : EnrollHandler → EnrollHandler
with_defaults h =
    if eq_ℤ h.config.max_csr_size (pos 0)
    then record h { config = record h.config { max_csr_size = pos (64 * 1024) } }
    else h

abbrev pub method_not_allowed : Response → Response
method_not_allowed = http_error "Method not allowed" 405

-- w.Header().Add("WWW-Authenticate", header), for each header
add_challenges : List String → Response → Response
add_challenges [] r = r
add_challenges (header ∷ headers) r =
    add_challenges headers (add_header "WWW-Authenticate" header r)

-- `sendAuthRequired`
unfoldable pub send_auth_required : AuthConfig → Response → Response
unfolding add_challenges
send_auth_required cfg r =
    http_error "Authentication required" 401 (add_challenges (www_authenticate_headers cfg) r)

-- The fields that every audit call of the handlers passes.
abbrev pub audit_entry : Request → String → String → String → String → AuditEntry
audit_entry req action outcome reason auth_method = record {
  request_id = req.context_request_id;
  action = action;
  outcome = outcome;
  reason = reason;
  auth_method = auth_method;
  remote_addr = req.remote_addr;
  user_agent = req.user_agent;
}

module _ {R : Type 0} where
  abbrev pub record_metric : Bool → Metric → World R → World R
  record_metric telemetry m w = if telemetry then record w { metrics = m ∷ w.metrics } else w

  -- An entry of the audit log, where it is not nil.
  abbrev pub record_audit : Bool → Request → String → String → String → String → World R → World R
  record_audit audit_log req action outcome reason auth_method w =
      if audit_log
      then record w { audit = audit_entry req action outcome reason auth_method ∷ w.audit }
      else w

module _ {R : Type 0} (crypto : Crypto) (b : Backend R) (h : EnrollHandler) (req : Request)
    (operation : String) where
  -- `RecordAuthFailure(ctx, method, authResult.Error.Error())`: a nil error panics.
  unfoldable pub record_auth_failure : AuthResult → World R → World R
  record_auth_failure result w =
      if h.telemetry
      then elim result.error [
        | none ↦ record w { panicked = true }
        | some e ↦ record w {
          metrics =
              auth_failure (if result.method == "" then "unknown" else result.method) e.text
              ∷ w.metrics;
        }
      ]
      else w

  -- `authenticateRequest`
  unfoldable pub authenticate_request : Response → World R → Option AuthResult × Response × World R
  unfolding record_auth_failure
  authenticate_request r w =
      let (result, w') = authenticate crypto b h.auth req w in
      if result.authenticated
      then (
        some result,
        r,
        record_metric h.telemetry (auth_success result.method result.identity) w',
      )
      else let w'' = record_auth_failure result w' in
        if w''.panicked then (none, r, w'') else (
          none,
          send_auth_required h.auth r,
          record_audit h.audit_log req operation "denied" "auth_failed" "" w'',
        )

  -- `parseAndValidateCSR`
  unfoldable pub parse_and_validate_csr :
      Response → World R → Option CertificateRequest × Response × World R
  parse_and_validate_csr r w =
      elim (read_csr_payload_with_limit crypto req.content_length req.body h.config.max_csr_size) [
        | err e ↦
            if e.too_large
            then (none, http_error "Request body too large" 413 r, w)
            else (none, http_error "Invalid CSR" 400 r, w)
        | ok csr ↦ elim (validate_csr_signature_algorithm csr h.config.allowed_signature_algos) [
          | err e ↦ (
            none,
            http_error "Invalid CSR signature algorithm" 400 r,
            record_audit h.audit_log req operation "denied" "invalid_signature_algorithm" "" w,
          )
          | ok _ ↦ elim (crypto.check_signature csr) [
            | err e ↦ (
              none,
              http_error "Invalid CSR signature" 400 r,
              record_audit h.audit_log req operation "denied" "invalid_signature" "" w,
            )
            | ok _ ↦ (some csr, r, w)
          ]
        ]
      ]

  -- `recordRejection`
  abbrev pub record_rejection : String → World R → World R
  record_rejection reason w =
      record_audit h.audit_log req operation "error" reason ""
        (record_metric h.telemetry (certificate_rejected operation reason) w)

  -- `recordSuccess`
  abbrev pub record_success : Certificate → AuthResult → LabelPolicy → World R → World R
  record_success cert result policy w =
      record_audit h.audit_log req operation "success" "" result.method (
        record_metric h.telemetry
          (certificate_issued operation cert.subject cert.serial_number policy.ttl) w)

-- The writes of `sendCertificateResponse`, where w.Write succeeds.
unfoldable pub write_certificate : Crypto → List ℕ → Response → Response
write_certificate crypto encoded r = write (crypto.encode_base64 encoded) (
    write_header 200 (
      set_header "Content-Transfer-Encoding" "base64"
        (set_header "Content-Type" pkcs7_content_type r)))

-- `sendCertificateResponse`: `none` if encoding fails, and then nothing is written.
unfoldable pub send_certificate_response : Crypto → Certificate → Response → Option Response
send_certificate_response crypto cert r = elim (create_pkcs7_certs_only crypto (cert ∷ [])) [
  | err e ↦ none
  | ok encoded ↦ some (write_certificate crypto encoded r)
]
