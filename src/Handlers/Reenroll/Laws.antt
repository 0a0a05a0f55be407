-- ===== src/Handlers/Reenroll/Laws.antt =====
-- What `/simplereenroll` answers, and for which requests it issues a certificate.
use est_service.Prelude.{
  GoError, Result-cases, String, arith, eq_iff, err, false, if_elim, inl, inr, not, ok, refl, ◌==◌,
  ◌≡◌, ◌⊎◌,
}
use est_service.X509.{Certificate, CertificateRequest, Crypto}
use est_service.Http.{Request, Response}
use est_service.Http.Laws.{http_error-status}
use est_service.Backend.{Backend}
use est_service.World.{World, certificate_rejected}
use est_service.Est.Reenroll.{
  extract_tls_client_certificate, validate_csr_matches_certificate, validate_reenrollment_subject,
}
use est_service.Handlers.Base.{
  EnrollHandler, authenticate_request, parse_and_validate_csr, record_metric,
}
use est_service.Handlers.Base.Outcome.{IsFresh, Outcome, refused, wrong_method}
use est_service.Handlers.Base.Steps.{
  Leaves, Parsed, Refused, Untouched, authenticate_request-Leaves, denied,
  parse_and_validate_csr-Leaves, proceed_elim, record_metric-Untouched,
}
use est_service.Handlers.Enroll.Laws.{issue-Ends}
use est_service.Handlers.Reenroll.{check_against, check_client, reject, serve_reenroll}

module _ {R : Type 0} (crypto : Crypto) (b : Backend R) (h : EnrollHandler) (req : Request) where
  -- The request comes with no client certificate, or the CSR has that certificate's key, and its
  -- names or the attribute that allows a change.
  abbrev pub Renews : CertificateRequest → Type 0
  Renews csr =
      ((e : GoError) × (extract_tls_client_certificate req.tls ≡ err e))
      ⊎ ((cert : Certificate) × (extract_tls_client_certificate req.tls ≡ ok cert)
          × (validate_csr_matches_certificate crypto csr cert ≡ ok tt)
          × (validate_reenrollment_subject crypto csr cert ≡ ok tt))

  abbrev Renewed : World R → CertificateRequest → Unit {0} → Response → World R → Type 0
  Renewed before csr _ r w = Renews csr × Parsed crypto b h req "reenroll" before csr r w

  reject-Refused :
      (before : World R) (csr : CertificateRequest) (metric reason message : String) (r : Response)
      (w : World R)
      → Untouched before r w
      → Leaves
          (Renewed before csr)
          (Refused "reenroll" before)
          (reject crypto b h req metric reason message r w)
  unfolding reject
  reject-Refused before csr metric reason message r w u =
      denied crypto b h req "reenroll" before 400 message reason r
        (record_metric h.telemetry (certificate_rejected "reenroll" metric) w)
        (inr (inr (inl refl)))
        (record_metric-Untouched crypto b h req "reenroll" before
          (certificate_rejected "reenroll" metric) r w u)

  check_against-Leaves :
      (before : World R) (cert : Certificate) (csr : CertificateRequest) (r : Response)
      (w : World R)
      → extract_tls_client_certificate req.tls ≡ ok cert
      → Parsed crypto b h req "reenroll" before csr r w
      → Leaves
          (Renewed before csr)
          (Refused "reenroll" before)
          (check_against crypto b h req cert csr r w)
  unfolding check_against
  check_against-Leaves before cert csr r w presented parsed =
      elim (Result-cases (validate_csr_matches_certificate crypto csr cert)) [
        | inl (e, p) ↦
            rw (p, Leaves, check_against)
              (reject-Refused before csr "csr_cert_mismatch" "csr_cert_mismatch"
                "CSR public key must match client certificate" r w parsed.untouched)
        | inr (_, p) ↦
            rw (p, Leaves, check_against)
              (elim (Result-cases (validate_reenrollment_subject crypto csr cert)) [
                | inl (e, q) ↦
                    rw (q, Leaves)
                      (reject-Refused before csr "subject_mismatch" "subject_san_mismatch"
                        "CSR Subject and SubjectAltName must match existing certificate (or include ChangeSubjectName attribute)"
                        r w parsed.untouched)
                | inr (_, q) ↦ rw (q, Leaves) (inr (cert, presented, p, q), parsed)
              ])
      ]

  check_client-Leaves :
      (before : World R) (csr : CertificateRequest) (r : Response) (w : World R)
      → Parsed crypto b h req "reenroll" before csr r w
      → Leaves
          (Renewed before csr)
          (Refused "reenroll" before)
          (check_client crypto b h req csr r w)
  unfolding check_client
  check_client-Leaves before csr r w parsed =
      elim (Result-cases (extract_tls_client_certificate req.tls)) [
        | inl (e, p) ↦ rw (p, Leaves, check_client) (inl (e, p), parsed)
        | inr (cert, p) ↦
            rw (p, Leaves, check_client) (check_against-Leaves before cert csr r w p parsed)
      ]

  -- Every request to `/simplereenroll` that begins with a fresh response and no panic has one of the
  -- four ends of an enrollment; where a certificate is issued, the request came with no client
  -- certificate, or its CSR has that certificate's key and the same subject and alternative names,
  -- unless it has the attribute ChangeSubjectName.
  pub serve_reenroll-Outcome :
      (r : Response) (w : World R)
      → IsFresh r
      → w.panicked ≡ false
      → Outcome crypto b h req "reenroll" Renews w (serve_reenroll crypto b h req r w)
  unfolding serve_reenroll
  serve_reenroll-Outcome r w fresh awake =
      if_elim (Outcome crypto b h req "reenroll" Renews w) (not (req.method == "POST"))
        (λ other.
          wrong_method (λ e. ground (arith, other, (eq_iff _ _).1 e))
            (http_error-status "Method not allowed" 405 r fresh.0) refl)
        λ post.
          proceed_elim (Outcome crypto b h req "reenroll" Renews w)
            (authenticate_request crypto b h req "reenroll" r w) _
            (authenticate_request-Leaves crypto b h req "reenroll" w r w awake (fresh, refl, refl))
            (λ result r' w' (evidence, u).
              proceed_elim (Outcome crypto b h req "reenroll" Renews w)
                (parse_and_validate_csr crypto b h req "reenroll" r' w') _
                (parse_and_validate_csr-Leaves crypto b h req "reenroll" w r' w' u)
                (λ csr r'' w'' parsed.
                  proceed_elim (Outcome crypto b h req "reenroll" Renews w)
                    (check_client crypto b h req csr r'' w'') _
                    (check_client-Leaves w csr r'' w'' parsed)
                    (λ _ r3 w3 (renews, parsed').
                      issue-Ends crypto b h req "reenroll" "certificate re-enrollment" Renews w
                        ((eq_iff _ _).0 (ground (arith, post))) result evidence csr renews r3 w3
                        parsed')
                    λ r3 w3 bad. refused bad.code bad.status bad.among bad.unsuccessful)
                λ r'' w'' bad. refused bad.code bad.status bad.among bad.unsuccessful)
            λ r' w' bad. refused bad.code bad.status bad.among bad.unsuccessful
