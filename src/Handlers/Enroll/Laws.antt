-- ===== src/Handlers/Enroll/Laws.antt =====
-- What `/simpleenroll` answers, and for which requests it issues a certificate.
use est_service.Est.Pkcs7.{create_pkcs7_certs_only}
use est_service.Handlers.Policy.Frame.{process_csr_signing-Framed}
use est_service.Handlers.Enroll.{issue, serve_enroll}
use est_service.Backend.{Backend}
use est_service.World.{AuditEntry, Metric, World, certificate_rejected}
use est_service.Auth.{AuthResult}
use est_service.Auth.Laws.{Evidence}
use est_service.Handlers.Policy.{EnrollmentRequest, process_csr_signing}
use est_service.Handlers.Base.Steps.{
  Parsed, Untouched, authenticate_request-Leaves, parse_and_validate_csr-Leaves, proceed_elim,
  record_audit-Unsuccessful, record_metric-Untouched,
}
use text.Mathlib.TextLemmas.{nil-append}
use est_service.Prelude.{
  Among, Bool, Bool-cases, GoError, List, Result-cases, String, [], ap, arith, eq_iff, false,
  if_elim, if◌then◌else◌, inl, inr, none, not, ok, refl, some, ℕ, ◌==◌, ◌∙◌, ◌∷◌, ◌≡◌,
}
use est_service.X509.{Certificate, CertificateRequest, Crypto}
use est_service.Http.Laws.{http_error-status}
use est_service.Http.{Request, Response, set_header, write, write_header}
use est_service.Handlers.Errors.{parse_backend_error, send_backend_error}
use est_service.Handlers.Errors.Laws.{parse_backend_error-IsAnswer, send_backend_error-status}
use est_service.Handlers.Base.{
  EnrollHandler, audit_entry, authenticate_request, parse_and_validate_csr, record_audit,
  record_metric, record_rejection, record_success, send_certificate_response, write_certificate,
}
use est_service.Handlers.Base.Outcome.{
  IsFresh, Outcome, issued, refusals, refused, unwritten, wrong_method,
}

pub answer-refusal : (e : GoError) → Among (parse_backend_error e).status_code refusals
answer-refusal e = elim (parse_backend_error-IsAnswer e) [
  | inl (is503, _) ↦ ground arith
  | inr (_, among) ↦ ground arith
]

module _ {R : Type 0} (audit_log telemetry : Bool) (req : Request) (operation method : String)
    (m : Metric) (w : World R) where
  abbrev recorded : World R
  recorded = record_audit audit_log req operation "success" "" method (record_metric telemetry m w)

  recorded-audit :
      {entries : List AuditEntry}
      → w.audit ≡ entries
      → recorded.audit
        ≡ (if audit_log then audit_entry req operation "success" "" method ∷ entries else entries)
  recorded-audit e =
      let e' = ap (λ es. audit_entry req operation "success" "" method ∷ es) e in
      elim (Bool-cases audit_log) [
        | inl p ↦ elim (Bool-cases telemetry) [ inl q ↦ rw (p, q) e' | inr q ↦ rw (p, q) e' ]
        | inr p ↦ elim (Bool-cases telemetry) [ inl q ↦ rw (p, q) e | inr q ↦ rw (p, q) e ]
      ]

  recorded-panicked : recorded.panicked ≡ w.panicked
  recorded-panicked = ground arith

pub write_certificate-status :
    (crypto : Crypto) (r : Response) (encoded : List ℕ)
    → r.status ≡ none
    → (write_certificate crypto encoded r).status ≡ some 200
unfolding write_certificate write write_header set_header
write_certificate-status crypto r encoded h = rw h refl

pub write_certificate-body :
    (crypto : Crypto) (r : Response) (encoded : List ℕ)
    → IsFresh r
    → (write_certificate crypto encoded r).body ≡ crypto.encode_base64 encoded
unfolding write_certificate write write_header set_header
write_certificate-body crypto r encoded (h, empty) = rw (h, empty) (nil-append _)

module _ {R : Type 0} (crypto : Crypto) (b : Backend R) (h : EnrollHandler) (req : Request)
    (operation description : String) (Checked : CertificateRequest → Type 0) (before : World R)
    (post : req.method ≡ "POST") (result : AuthResult)
    (evidence : Evidence crypto b h.auth req result) (csr : CertificateRequest)
    (checked : Checked csr) where
  abbrev Ends : Response × World R → Type 0
  Ends = Outcome crypto b h req operation Checked before

  abbrev signing : EnrollmentRequest
  signing = record { csr = csr; auth_token = result.token; policy = h.config.default_policy }

  rejected :
      (e : GoError) (r : Response) (w : World R)
      → Untouched before r w
      → Ends (
        send_backend_error e description r,
        record_rejection crypto b h req operation "backend_error" w,
      )
  rejected e r w u =
      let m = certificate_rejected operation "backend_error" in
      let (fresh, same, calm) = record_metric-Untouched crypto b h req operation before m r w u in
      refused (parse_backend_error e).status_code (send_backend_error-status e description r u.0.0)
        (answer-refusal e)
        (record_audit-Unsuccessful crypto b h req operation before "error" "backend_error" ""
          (record_metric h.telemetry m w) (inr refl) same calm)

  completed :
      (cert : Certificate) (r : Response) (w w' : World R)
      → Untouched before r w'
      → (process_csr_signing b signing h.config.default_mount w).0 ≡ ok cert
      → Parsed crypto b h req operation before csr r w
      → Ends (elim (send_certificate_response crypto cert r) [
        | none ↦ (r, w')
        | some r' ↦
            (r', record_success crypto b h req operation cert result h.config.default_policy w')
      ])
  unfolding send_certificate_response
  completed cert r w w' u signed parsed =
      elim (Result-cases (create_pkcs7_certs_only crypto (cert ∷ []))) [
        | inl (e, p) ↦ rw p (unwritten cert e p u.0.0 u.1 u.2)
        | inr (encoded, p) ↦ rw p (
            issued post (record {
              result = result;
              evidence = evidence;
              csr = csr;
              read = parsed.read;
              algorithm = parsed.algorithm;
              signature = parsed.signature;
              checked = checked;
              cert = cert;
              world = w;
              signed = signed;
              encoded = encoded;
              encodes = p;
              status = write_certificate-status crypto r encoded u.0.0;
              body = write_certificate-body crypto r encoded u.0;
              audit = recorded-audit h.audit_log h.telemetry req operation result.method _ w' u.1;
              calm =
                  recorded-panicked h.audit_log h.telemetry req operation result.method _ w' ∙ u.2;
            }))
      ]

  pub issue-Ends :
      (r : Response) (w : World R)
      → Parsed crypto b h req operation before csr r w
      → Ends (issue crypto b h req operation description result csr r w)
  unfolding issue
  issue-Ends r w parsed =
      let (metrics, audit, panicked) =
        process_csr_signing-Framed b signing h.config.default_mount w in
      let w' = (process_csr_signing b signing h.config.default_mount w).1 in
      let u : Untouched before r w' =
        (parsed.untouched.0, audit ∙ parsed.untouched.1, panicked ∙ parsed.untouched.2) in
      elim (Result-cases (process_csr_signing b signing h.config.default_mount w).0) [
        | inl (e, p) ↦ rw (p, issue) (rejected e r w' u)
        | inr (cert, p) ↦ rw (p, issue) (completed cert r w w' u p parsed)
      ]

module _ {R : Type 0} (crypto : Crypto) (b : Backend R) (h : EnrollHandler) (req : Request)
    (r : Response) (w : World R) where
  abbrev Anything : CertificateRequest → Type 0
  Anything csr = Unit {0}

  -- Every request to `/simpleenroll` that begins with a fresh response and no panic has one of four
  -- ends: a method that is not POST gives 405, and nothing is called; it is refused by 400, 401, 403,
  -- 404, 413, 502 or 503, with at most one audit entry, which is no success; the certificate is
  -- signed but not encoded, and nothing is written; or it is issued, and then the request was
  -- authenticated with evidence, its CSR read within the limits, its algorithm and its signature
  -- accepted, the certificate signed by the backend with the requester's token, the response is 200
  -- with the certificate, and the audit log, if on, has one more entry, a success.
  pub serve_enroll-Outcome :
      IsFresh r
      → w.panicked ≡ false
      → Outcome crypto b h req "enroll" Anything w (serve_enroll crypto b h req r w)
  unfolding serve_enroll
  serve_enroll-Outcome fresh awake =
      if_elim (Outcome crypto b h req "enroll" Anything w) (not (req.method == "POST"))
        (λ other.
          wrong_method (λ e. ground (arith, other, (eq_iff _ _).1 e))
            (http_error-status "Method not allowed" 405 r fresh.0) refl)
        λ post.
          proceed_elim (Outcome crypto b h req "enroll" Anything w)
            (authenticate_request crypto b h req "enroll" r w) _
            (authenticate_request-Leaves crypto b h req "enroll" w r w awake (fresh, refl, refl))
            (λ result r' w' (evidence, u).
              proceed_elim (Outcome crypto b h req "enroll" Anything w)
                (parse_and_validate_csr crypto b h req "enroll" r' w') _
                (parse_and_validate_csr-Leaves crypto b h req "enroll" w r' w' u)
                (λ csr r'' w'' parsed.
                  issue-Ends crypto b h req "enroll" "certificate enrollment" Anything w
                    ((eq_iff _ _).0 (ground (arith, post))) result evidence csr tt r'' w'' parsed)
                λ r'' w'' bad. refused bad.code bad.status bad.among bad.unsuccessful)
            λ r' w' bad. refused bad.code bad.status bad.among bad.unsuccessful
