-- ===== src/Handlers/Enroll.antt =====
-- pkg/handlers/simpleenroll.go
pub mod Laws
pub mod Issues
use est_service.Prelude.{String, err, if◌then◌else◌, none, not, ok, some, ◌==◌}
use est_service.X509.{CertificateRequest, Crypto}
use est_service.Http.{Request, Response}
use est_service.Backend.{Backend}
use est_service.World.{World}
use est_service.Auth.{AuthResult}
use est_service.Handlers.Policy.{process_csr_signing}
use est_service.Handlers.Errors.{send_backend_error}
use est_service.Handlers.Base.{
  EnrollHandler, authenticate_request, method_not_allowed, parse_and_validate_csr, proceed,
  record_rejection, record_success, send_certificate_response,
}

module _ {R : Type 0} (crypto : Crypto) (b : Backend R) (h : EnrollHandler) (req : Request) where
  -- The end of both handlers: the signing, and the answer.
  unfoldable pub issue :
      String → String → AuthResult → CertificateRequest → Response → World R → Response × World R
  issue operation description result csr r w =
      let policy = h.config.default_policy in
      let (signed, w') =
        process_csr_signing b (record { csr = csr; auth_token = result.token; policy = policy })
          h.config.default_mount w in
      elim signed [
        | err e ↦ (
          send_backend_error e description r,
          record_rejection crypto b h req operation "backend_error" w',
        )
        | ok cert ↦ elim (send_certificate_response crypto cert r) [
          | none ↦ (r, w')
          | some r' ↦ (r', record_success crypto b h req operation cert result policy w')
        ]
      ]

  -- `SimpleEnrollHandler.ServeHTTP`
  unfoldable pub serve_enroll : Response → World R → Response × World R
  serve_enroll r w =
      if not (req.method == "POST")
      then (method_not_allowed r, w)
      else proceed (authenticate_request crypto b h req "enroll" r w) λ result r' w'.
        proceed (parse_and_validate_csr crypto b h req "enroll" r' w')
          λ csr. issue "enroll" "certificate enrollment" result csr
