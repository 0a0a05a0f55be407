-- ===== src/Handlers/Reenroll.antt =====
-- pkg/handlers/simplereenroll.go
pub mod Laws
use est_service.Prelude.{Option, String, err, if◌then◌else◌, none, not, ok, some, ◌==◌}
use est_service.X509.{Certificate, CertificateRequest, Crypto}
use est_service.Http.{Request, Response, http_error}
use est_service.Backend.{Backend}
use est_service.World.{World, certificate_rejected}
use est_service.Est.Reenroll.{
  extract_tls_client_certificate, validate_csr_matches_certificate, validate_reenrollment_subject,
}
use est_service.Handlers.Base.{
  EnrollHandler, authenticate_request, method_not_allowed, parse_and_validate_csr, proceed,
  record_audit, record_metric,
}
use est_service.Handlers.Enroll.{issue}

module _ {R : Type 0} (crypto : Crypto) (b : Backend R) (h : EnrollHandler) (req : Request) where
  -- A request whose names or key are not the certificate's: `metric` and `reason` tell why.
  reject : String → String → String → Response → World R → Option (Unit {0}) × Response × World R
  reject metric reason message r w = (
    none,
    http_error message 400 r,
    record_audit h.audit_log req "reenroll" "denied" reason ""
        (record_metric h.telemetry (certificate_rejected "reenroll" metric) w),
  )

  -- The checks against the client's certificate.
  check_against :
      Certificate → CertificateRequest → Response → World R → Option (Unit {0}) × Response × World R
  unfolding reject
  check_against client_cert csr r w =
      elim (validate_csr_matches_certificate crypto csr client_cert) [
        | err e ↦
            reject "csr_cert_mismatch" "csr_cert_mismatch"
              "CSR public key must match client certificate" r w
        | ok _ ↦ elim (validate_reenrollment_subject crypto csr client_cert) [
          | err e ↦
              reject "subject_mismatch" "subject_san_mismatch"
                "CSR Subject and SubjectAltName must match existing certificate (or include ChangeSubjectName attribute)"
                r w
          | ok _ ↦ (some tt, r, w)
        ]
      ]

  -- `if hasTLSCert { … }`
  unfoldable pub check_client :
      CertificateRequest → Response → World R → Option (Unit {0}) × Response × World R
  unfolding check_against
  check_client csr r w = elim (extract_tls_client_certificate req.tls) [
    | err e ↦ (some tt, r, w)
    | ok client_cert ↦ check_against client_cert csr r w
  ]

  -- `SimpleReenrollHandler.ServeHTTP`
  unfoldable pub serve_reenroll : Response → World R → Response × World R
  serve_reenroll r w =
      if not (req.method == "POST")
      then (method_not_allowed r, w)
      else proceed (authenticate_request crypto b h req "reenroll" r w) λ result r' w'.
        proceed (parse_and_validate_csr crypto b h req "reenroll" r' w') λ csr r'' w''.
          proceed (check_client csr r'' w'')
            λ _. issue crypto b h req "reenroll" "certificate re-enrollment" result csr
