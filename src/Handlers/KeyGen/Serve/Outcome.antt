-- ===== src/Handlers/KeyGen/Serve/Outcome.antt =====
-- The ends of a request to `/serverkeygen`: the contract of its handler.
use est_service.Prelude.{
  All, Among, GoError, List, [], ap, err, none, ok, some, ℕ, ◌++◌, ◌∙◌, ◌∷◌, ◌≡◌, ◌≢◌,
}
use est_service.X509.{Certificate, CertificateRequest, Crypto, PrivateKey}
use est_service.KeyCrypto.{KeyCrypto}
use est_service.Http.{Request, Response}
use est_service.Backend.{Backend}
use est_service.World.{
  Metric, World, auth_failure, auth_success, certificate_issued, certificate_rejected, rate_limited,
}
use est_service.Auth.{AuthConfig, AuthResult, authenticate}
use est_service.Auth.Laws.{Evidence}
use est_service.Auth.Frame.{Framed}
use est_service.Est.Pkcs7.{create_pkcs7_certs_only}
use est_service.Handlers.Policy.{process_csr_signing}
use est_service.Handlers.Base.Outcome.{refusals}
use est_service.Handlers.KeyGen.{KeyGenConfig, KeyGenRequest, parse_server_key_gen_request}
use est_service.Handlers.KeyGen.Keys.{generate_key_pair}
use est_service.Handlers.KeyGen.Encode.{EncryptedPrivateKey, encode_private_key}
use est_service.Handlers.KeyGen.Answer.{multipart_body}
use est_service.Handlers.KeyGen.Serve.{client_cert_of, metric, template_of}

abbrev pub IsNoIssue : Metric → Type 0
IsNoIssue (certificate_issued o s n t) = ⊥
IsNoIssue (auth_success m i) = Unit {0}
IsNoIssue (auth_failure m e) = Unit {0}
IsNoIssue (certificate_rejected o e) = Unit {0}
IsNoIssue (rate_limited e) = Unit {0}

abbrev pub key_gen_refusals : List ℕ
key_gen_refusals = 500 ∷ refusals

module _ {R : Type 0} where
  -- The metrics that were added; the audit log is as it was, and nothing panicked.
  abbrev pub Recorded : World R → List Metric → World R → Type 0
  Recorded before ms w =
      (w.metrics ≡ ms ++ before.metrics) × (w.audit ≡ before.audit) × (w.panicked ≡ before.panicked)

  pub Recorded-Framed :
      (before v w : World R) (ms : List Metric)
      → Recorded before ms v
      → Framed v w
      → Recorded before ms w
  Recorded-Framed before v w ms (p, q, r) (p', q', r') = (p' ∙ p, q' ∙ q, r' ∙ r)

  pub Recorded-metric :
      (before w : World R) (ms : List Metric) (m : Metric)
      → Recorded before ms w
      → Recorded before (m ∷ ms) (metric m w)
  Recorded-metric before w ms m (p, q, r) = (ap (λ l. m ∷ l) p, q, r)

module _ {C G R : Type 0} (crypto : Crypto) (keys : KeyCrypto C G) (b : Backend R)
    (auth : AuthConfig) (config : KeyGenConfig) (req : Request) where
  -- A key and its certificate that were handed out: to whom, how the key was generated and its request
  -- signed, and how both are answered.
  pub record Delivered (before : World R) (x : Response × World R) : Type 0 where
    pub result : AuthResult
    pub logged_in : result ≡ (authenticate crypto b auth req before).0
    pub evidence : Evidence crypto b auth req result
    pub parsed : KeyGenRequest
    pub parses : parse_server_key_gen_request crypto config req result ≡ ok parsed
    pub generating : World R
    pub after_login :
        generating
        ≡ metric
            (auth_success result.method result.identity)
            (authenticate crypto b auth req before).1
    pub key : PrivateKey
    pub generated : (generate_key_pair keys config b generating).0 ≡ ok key
    pub der : List ℕ
    pub created : keys.create_certificate_request (template_of parsed.csr) key ≡ ok der
    pub csr : CertificateRequest
    pub read : crypto.parse_certificate_request der ≡ ok csr
    pub signing : World R
    pub after_generating : signing ≡ (generate_key_pair keys config b generating).1
    pub cert : Certificate
    pub signed :
        (process_csr_signing b
          (record { csr = csr; auth_token = parsed.auth_token; policy = parsed.policy })
          config.default_mount
          signing).0
        ≡ ok cert
    pub encoded_key : EncryptedPrivateKey
    pub key_encodes :
        encode_private_key keys config.encrypt_private_key key (client_cert_of req) ≡ ok encoded_key
    pub encoded : List ℕ
    pub encodes : create_pkcs7_certs_only crypto (cert ∷ []) ≡ ok encoded
    pub status : x.0.status ≡ some 200
    pub body : x.0.body ≡ multipart_body crypto config.encrypt_private_key encoded encoded_key
    pub recorded :
        Recorded before
          (certificate_issued "serverkeygen" cert.common_name cert.serial_number
              (keys.lifetime cert)
            ∷ auth_success result.method result.identity
            ∷ [])
          x.1

  -- The ends of a request: the method is wrong; it is refused, and no certificate is recorded as
  -- issued; the certificate is signed, but not encoded, and nothing is written; or it is delivered.
  pub data KeyOutcome (before : World R) (x : Response × World R) : Type 0 where
    not_posted : req.method ≢ "POST" → x.0.status ≡ some 405 → x.1 ≡ before → KeyOutcome before x
    turned_down :
        (code : ℕ) (ms : List Metric)
        → x.0.status ≡ some code
        → Among code key_gen_refusals
        → All IsNoIssue ms
        → Recorded before ms x.1
        → KeyOutcome before x
    left_unwritten :
        (cert : Certificate) (e : GoError) (ms : List Metric)
        → create_pkcs7_certs_only crypto (cert ∷ []) ≡ err e
        → x.0.status ≡ none
        → All IsNoIssue ms
        → Recorded before ms x.1
        → KeyOutcome before x
    delivered : req.method ≡ "POST" → Delivered before x → KeyOutcome before x
