-- ===== src/Tests/Handlers.antt =====
-- Runs of pkg/handlers.
use est_service.Auth.{authenticate, authenticate_token}
use est_service.Est.Payload.{read_csr_payload_with_limit}
use est_service.Est.Algorithm.{parse_signature_algorithm, validate_csr_signature_algorithm}
use est_service.Prelude.{
  Among, GoError, [], arith, codes, contains, eq_iff, err, errorf, list_eq, map, refl, some,
  strip_prefix, to_lower, upper_trimmed, wrap, ℕ, ◌∷◌, ◌≡◌,
}
use est_service.Http.{Response, empty_response}
use est_service.World.{World}
use est_service.Handlers.Policy.{EnrollmentRequest, process_csr_signing}
use est_service.Handlers.Policy.Unknown.{unknown_policy-status}
use est_service.Handlers.Policy.Trace.{Signed, process_csr_signing-Signed}
use est_service.Handlers.Errors.{answer, classify, classify_lower, mentions, parse_backend_error}
use est_service.Handlers.Errors.Laws.{parse_backend_error-wrap}
use est_service.Handlers.Errors.Decision.{Decided, parse_backend_error-Decided, table}
use est_service.Handlers.Base.Outcome.{Issued, Outcome}
use est_service.Handlers.Enroll.{serve_enroll}
use est_service.Handlers.Enroll.Laws.{serve_enroll-Outcome}
use est_service.Handlers.Enroll.Issues.{AnyRequest, serve_enroll-issues}
use est_service.Handlers.Reenroll.{serve_reenroll}
use est_service.Handlers.Reenroll.Laws.{Renews, serve_reenroll-Outcome}
use est_service.Est.Pkcs7.{create_pkcs7_certs_only}
use est_service.Tests.Fixtures.{backend, crypto, csr, handler, policy, request, world}

serve_enroll-Outcome_example :
    Outcome crypto backend handler request "enroll"
      (λ csr'. Unit {0})
      world
      (serve_enroll crypto backend handler request empty_response world)
serve_enroll-Outcome_example =
    serve_enroll-Outcome crypto backend handler request empty_response world (refl, refl) refl

serve_reenroll-Outcome_example :
    Outcome crypto backend handler request "reenroll"
      (Renews crypto backend handler request)
      world
      (serve_reenroll crypto backend handler request empty_response world)
serve_reenroll-Outcome_example =
    serve_reenroll-Outcome crypto backend handler request empty_response world (refl, refl) refl

process_csr_signing-Signed_example :
    Signed backend
      (record { csr = csr; auth_token = "t1"; policy = policy })
      "pki"
      world
      (process_csr_signing backend
        (record { csr = csr; auth_token = "t1"; policy = policy })
        "pki"
        world)
process_csr_signing-Signed_example =
    process_csr_signing-Signed backend (record { csr = csr; auth_token = "t1"; policy = policy })
      "pki" world

-- A wrapped error of a sealed backend.
abbrev vault : GoError
vault = wrap "failed to sign CSR: " (errorf "Vault is Sealed")

parse_backend_error-Decided_example :
    Decided
      (map to_lower (codes vault.text))
      table
      (503, 120, "Backend service temporarily unavailable")
unfolding parse_backend_error classify classify_lower mentions contains to_lower answer
parse_backend_error-Decided_example = parse_backend_error-Decided vault

abbrev denial : GoError
denial = errorf "Permission denied"

parse_backend_error-wrap_example :
    (parse_backend_error (wrap "failed to sign CSR: " denial)).status_code ≡ 403
unfolding parse_backend_error classify classify_lower mentions contains to_lower strip_prefix
parse_backend_error-wrap_example = parse_backend_error-wrap "failed to sign CSR: " denial refl

abbrev misspelt : EnrollmentRequest
misspelt = record { csr = csr; auth_token = "t1"; policy = record policy { kind = "rol" } }

unknown_policy-status_example :
    (e : GoError) × ((process_csr_signing backend misspelt "pki" world).0 ≡ err e)
    × Among (parse_backend_error e).status_code (403 ∷ 401 ∷ 400 ∷ [])
unknown_policy-status_example =
    unknown_policy-status backend misspelt "pki" world 0 (λ e. ground (arith, (eq_iff _ _).1 e))
      (λ e. ground (arith, (eq_iff _ _).1 e)) (λ e. ground (arith, (eq_iff _ _).1 e)) refl

abbrev enrolled : Response × World ℕ
enrolled = serve_enroll crypto backend handler request empty_response world

serve_enroll-issues_example :
    (enrolled.0.status ≡ some 200)
    × (enrolled.0.body ≡ crypto.encode_base64 (7 ∷ 8 ∷ 9 ∷ []))
    × Issued crypto backend handler request "enroll" AnyRequest world enrolled
unfolding authenticate authenticate_token strip_prefix read_csr_payload_with_limit
    validate_csr_signature_algorithm parse_signature_algorithm list_eq upper_trimmed
    process_csr_signing create_pkcs7_certs_only
serve_enroll-issues_example =
    serve_enroll-issues crypto backend handler request empty_response world csr
      (record {
        raw = 7 ∷ 8 ∷ 9 ∷ [];
        subject = "CN=device";
        common_name = "device";
        serial_number = "43";
        dns_names = csr.dns_names;
        email_addresses = [];
        ip_addresses = csr.ip_addresses;
        uris = [];
        public_key = csr.public_key;
      })
      (7 ∷ 8 ∷ 9 ∷ []) (refl, refl) refl refl refl refl refl refl refl refl
