-- ===== src/Handlers/Base/Outcome.antt =====
-- What a request for a certificate can end in.
use est_service.Prelude.{
  Among, GoError, List, String, [], err, if◌then◌else◌, none, ok, some, ℕ, ◌∷◌, ◌≡◌, ◌≢◌, ◌⊎◌,
}
use est_service.X509.{Certificate, CertificateRequest, Crypto}
use est_service.Http.{Request, Response}
use est_service.Backend.{Backend}
use est_service.World.{AuditEntry, World}
use est_service.Auth.Laws.{Evidence}
use est_service.Auth.{AuthResult}
use est_service.Est.Payload.{read_csr_payload_with_limit}
use est_service.Est.Algorithm.{validate_csr_signature_algorithm}
use est_service.Est.Pkcs7.{create_pkcs7_certs_only}
use est_service.Handlers.Policy.{process_csr_signing}
use est_service.Handlers.Base.{EnrollHandler, audit_entry}

-- The statuses of a refusal.
abbrev pub refusals : List ℕ
refusals = 401 ∷ 413 ∷ 400 ∷ 403 ∷ 404 ∷ 503 ∷ 502 ∷ []

-- A response that nothing is written to.
abbrev pub IsFresh : Response → Type 0
IsFresh r = (r.status ≡ none) × (r.body ≡ "")

module _ {R : Type 0} where
  -- The handler did not panic, and left at most one entry in the audit log, which is no success.
  pub data Unsuccessful (operation : String) (before after : World R) : Type 0 where
    unaudited :
        after.audit ≡ before.audit
        → after.panicked ≡ before.panicked
        → Unsuccessful operation before after
    audited :
        (e : AuditEntry)
        → after.audit ≡ e ∷ before.audit
        → e.action ≡ operation
        → (e.outcome ≡ "denied") ⊎ (e.outcome ≡ "error")
        → after.panicked ≡ before.panicked
        → Unsuccessful operation before after

module _ {R : Type 0} (crypto : Crypto) (b : Backend R) (h : EnrollHandler) (req : Request)
    (operation : String) (Checked : CertificateRequest → Type 0) where
  -- A certificate that was issued: to whom, for which request, by which call, and how it is answered.
  pub record Issued (before : World R) (x : Response × World R) : Type 0 where
    pub result : AuthResult
    pub evidence : Evidence crypto b h.auth req result
    pub csr : CertificateRequest
    pub read :
        read_csr_payload_with_limit crypto req.content_length req.body h.config.max_csr_size
        ≡ ok csr
    pub algorithm : validate_csr_signature_algorithm csr h.config.allowed_signature_algos ≡ ok tt
    pub signature : crypto.check_signature csr ≡ ok tt
    pub checked : Checked csr
    pub cert : Certificate
    pub world : World R
    pub signed :
        (process_csr_signing b
          (record { csr = csr; auth_token = result.token; policy = h.config.default_policy })
          h.config.default_mount
          world).0
        ≡ ok cert
    pub encoded : List ℕ
    pub encodes : create_pkcs7_certs_only crypto (cert ∷ []) ≡ ok encoded
    pub status : x.0.status ≡ some 200
    pub body : x.0.body ≡ crypto.encode_base64 encoded
    pub audit : x.1.audit ≡ (
        if h.audit_log
        then audit_entry req operation "success" "" result.method ∷ before.audit
        else before.audit)
    pub calm : x.1.panicked ≡ before.panicked

  -- The ends of a request: the method is wrong; it is refused; the certificate is signed, but not
  -- encoded, and nothing is written; or it is issued.
  pub data Outcome (before : World R) (x : Response × World R) : Type 0 where
    wrong_method : req.method ≢ "POST" → x.0.status ≡ some 405 → x.1 ≡ before → Outcome before x
    refused :
        (code : ℕ)
        → x.0.status ≡ some code
        → Among code refusals
        → Unsuccessful operation before x.1
        → Outcome before x
    unwritten :
        (cert : Certificate) (e : GoError)
        → create_pkcs7_certs_only crypto (cert ∷ []) ≡ err e
        → x.0.status ≡ none
        → x.1.audit ≡ before.audit
        → x.1.panicked ≡ before.panicked
        → Outcome before x
    issued : req.method ≡ "POST" → Issued before x → Outcome before x
