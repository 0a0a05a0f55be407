-- ===== src/Handlers/Enroll/Issues.antt =====
-- The requests that `/simpleenroll` issues a certificate for.
use est_service.Handlers.Base.Outcome.{
  IsFresh, Issued, Outcome, issued, refusals, refused, unwritten, wrong_method,
}
use est_service.Handlers.Enroll.Laws.{
  serve_enroll-Outcome, write_certificate-body, write_certificate-status,
}
use est_service.Prelude.{
  Among, List, [], ap, arith, eq_iff, false, none, ok, refl, some, some_injective, sym, true, ℕ,
  ◌∙◌, ◌∷◌, ◌≡◌, ◌≢◌,
}
use est_service.X509.{Certificate, CertificateRequest, Crypto}
use est_service.Http.{Request, Response}
use est_service.Backend.{Backend}
use est_service.World.{World, auth_success}
use est_service.Auth.{AuthResult, authenticate}
use est_service.Est.Payload.{read_csr_payload_with_limit}
use est_service.Est.Algorithm.{validate_csr_signature_algorithm}
use est_service.Est.Pkcs7.{create_pkcs7_certs_only}
use est_service.Handlers.Policy.{process_csr_signing}
use est_service.Handlers.Base.{
  EnrollHandler, authenticate_request, parse_and_validate_csr, record_metric,
  send_certificate_response, write_certificate,
}
use est_service.Handlers.Enroll.{issue, serve_enroll}

-- No more is asked of a CSR.
abbrev pub AnyRequest : CertificateRequest → Type 0
AnyRequest csr = Unit {0}

refusals-differ : (code : ℕ) → Among code refusals → code ≢ 200
refusals-differ code among h = ground arith

no_status : {code : ℕ} → none ≢ some code
no_status h = cc

module _ {R : Type 0} (crypto : Crypto) (b : Backend R) (h : EnrollHandler) (req : Request)
    (r : Response) (w : World R) (csr : CertificateRequest) (cert : Certificate)
    (encoded : List ℕ) where
  -- The result of the authentication, and the world behind it.
  abbrev result : AuthResult
  result = (authenticate crypto b h.auth req w).0

  abbrev pub authenticated_world : World R
  authenticated_world =
      record_metric h.telemetry (auth_success result.method result.identity)
        (authenticate crypto b h.auth req w).1

  authenticated :
      result.authenticated ≡ true
      → authenticate_request crypto b h req "enroll" r w ≡ (some result, r, authenticated_world)
  unfolding authenticate_request
  authenticated granted = rw granted refl

  parsed :
      (w' : World R)
      → read_csr_payload_with_limit crypto req.content_length req.body h.config.max_csr_size
        ≡ ok csr
      → validate_csr_signature_algorithm csr h.config.allowed_signature_algos ≡ ok tt
      → crypto.check_signature csr ≡ ok tt
      → parse_and_validate_csr crypto b h req "enroll" r w' ≡ (some csr, r, w')
  unfolding parse_and_validate_csr
  parsed w' read algorithm signature = rw (parse_and_validate_csr, read, algorithm, signature) refl

  sent :
      create_pkcs7_certs_only crypto (cert ∷ []) ≡ ok encoded
      → send_certificate_response crypto cert r ≡ some (write_certificate crypto encoded r)
  unfolding send_certificate_response
  sent e = rw (send_certificate_response, e) refl

  answered :
      (w' : World R) (by : AuthResult)
      → (process_csr_signing b
          (record { csr = csr; auth_token = by.token; policy = h.config.default_policy })
          h.config.default_mount
          w').0
        ≡ ok cert
      → create_pkcs7_certs_only crypto (cert ∷ []) ≡ ok encoded
      → (issue crypto b h req "enroll" "certificate enrollment" by csr r w').0
        ≡ write_certificate crypto encoded r
  unfolding issue
  answered w' by signed encodes = rw (issue, signed, sent encodes) refl

  answers :
      req.method ≡ "POST"
      → result.authenticated ≡ true
      → read_csr_payload_with_limit crypto req.content_length req.body h.config.max_csr_size
        ≡ ok csr
      → validate_csr_signature_algorithm csr h.config.allowed_signature_algos ≡ ok tt
      → crypto.check_signature csr ≡ ok tt
      → (process_csr_signing b
          (record { csr = csr; auth_token = result.token; policy = h.config.default_policy })
          h.config.default_mount
          authenticated_world).0
        ≡ ok cert
      → create_pkcs7_certs_only crypto (cert ∷ []) ≡ ok encoded
      → (serve_enroll crypto b h req r w).0 ≡ write_certificate crypto encoded r
  unfolding serve_enroll
  answers post granted read algorithm signature signed encodes =
      rw
        (
          (eq_iff _ _).1 post,
          authenticated granted,
          parsed authenticated_world read algorithm signature,
        )
        (answered authenticated_world result signed encodes)

  -- An end of the request with status 200 is one that issues a certificate.
  Outcome-Issued :
      req.method ≡ "POST"
      → (x : Response × World R) → x.0.status ≡ some 200
      → Outcome crypto b h req "enroll" AnyRequest w x
      → Issued crypto b h req "enroll" AnyRequest w x
  Outcome-Issued post x status (wrong_method other code same) = absurd (other post)
  Outcome-Issued post x status (refused code given among quiet) =
      absurd (refusals-differ code among (some_injective (sym given ∙ status)))
  Outcome-Issued post x status (unwritten c e fails given audit calm) =
      absurd (no_status (sym given ∙ status))
  Outcome-Issued post x status (issued is details) = details

  -- To a fresh response and with no panic before, a POST that authenticates, with a CSR that is read, of
  -- an algorithm that is allowed and with a signature that holds, which the backend signs, and whose
  -- certificate is encoded, is answered by 200 and that certificate in base64; and the request is one
  -- of those that end with a certificate issued: with evidence of the authentication, an entry of
  -- success where the audit log is on, and no panic.
  pub serve_enroll-issues :
      IsFresh r
      → w.panicked ≡ false
      → req.method ≡ "POST"
      → result.authenticated ≡ true
      → read_csr_payload_with_limit crypto req.content_length req.body h.config.max_csr_size
        ≡ ok csr
      → validate_csr_signature_algorithm csr h.config.allowed_signature_algos ≡ ok tt
      → crypto.check_signature csr ≡ ok tt
      → (process_csr_signing b
          (record { csr = csr; auth_token = result.token; policy = h.config.default_policy })
          h.config.default_mount
          authenticated_world).0
        ≡ ok cert
      → create_pkcs7_certs_only crypto (cert ∷ []) ≡ ok encoded
      → ((serve_enroll crypto b h req r w).0.status ≡ some 200)
        × ((serve_enroll crypto b h req r w).0.body ≡ crypto.encode_base64 encoded)
        × Issued crypto b h req "enroll" AnyRequest w (serve_enroll crypto b h req r w)
  serve_enroll-issues fresh awake post granted read algorithm signature signed encodes =
      let same = answers post granted read algorithm signature signed encodes in
      let status : (serve_enroll crypto b h req r w).0.status ≡ some 200 =
        ap (λ x. x.status) same ∙ write_certificate-status crypto r encoded fresh.0 in
      (
        status,
        ap (λ x. x.body) same ∙ write_certificate-body crypto r encoded fresh,
        Outcome-Issued post (serve_enroll crypto b h req r w) status
            (serve_enroll-Outcome crypto b h req r w fresh awake),
      )
