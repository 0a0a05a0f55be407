-- ===== src/Handlers/KeyGen/Serve.antt =====
-- pkg/handlers/serverkeygen.go: the handler of `/serverkeygen`. Its telemetry is never nil.
pub mod Outcome
pub mod Laws
pub mod Encryption
use Prim.Native.String.{◌++◌}
use est_service.Prelude.{
  GoError, Option, Result, String, [], err, if◌then◌else◌, none, not, ok, some, ◌==◌, ◌∷◌,
}
use est_service.X509.{Certificate, CertificateRequest, Crypto, PrivateKey}
use est_service.KeyCrypto.{CsrTemplate, KeyCrypto}
use est_service.Http.{Request, Response, http_error}
use est_service.Backend.{Backend}
use est_service.World.{
  Metric, World, auth_failure, auth_success, certificate_issued, certificate_rejected,
}
use est_service.Auth.{AuthConfig, AuthResult, authenticate}
use est_service.Handlers.Policy.{process_csr_signing}
use est_service.Handlers.Errors.{send_backend_error}
use est_service.Handlers.Base.{method_not_allowed, send_auth_required}
use est_service.Handlers.KeyGen.{KeyGenConfig, KeyGenRequest, parse_server_key_gen_request}
use est_service.Handlers.KeyGen.Keys.{generate_key_pair}
use est_service.Handlers.KeyGen.Encode.{encode_private_key}
use est_service.Handlers.KeyGen.Answer.{send_server_key_gen_response}

abbrev pub metric : {R : Type 0} → Metric → World R → World R
metric m w = record w { metrics = m ∷ w.metrics }

abbrev pub rejected : {R : Type 0} → GoError → World R → World R
rejected e = metric (certificate_rejected "serverkeygen" e.text)

-- `csrTemplate`: the names of the client's request, for another key
unfoldable pub template_of : CertificateRequest → CsrTemplate
template_of csr = record {
  subject = csr.subject;
  dns_names = csr.dns_names;
  email_addresses = csr.email_addresses;
  ip_addresses = csr.ip_addresses;
  uris = csr.uris;
  extra_extensions = csr.extra_extensions;
}

-- `r.TLS.PeerCertificates[0]`, if there is one
unfoldable pub client_cert_of : Request → Option Certificate
client_cert_of req = elim req.tls [
  | none ↦ none
  | some tls ↦ elim tls.peer_certificates [ [] ↦ none | cert ∷ chain ↦ some cert ]
]

-- A step that fails with 500: its error is a rejection.
abbrev pub required :
    {A R : Type 0}
    → String
    → Result A
    → Response
    → World R
    → (A → Response × World R)
    → Response × World R
required message (err e) r w k = (http_error message 500 r, rejected e w)
required message (ok a) r w k = k a

module _ {C G R : Type 0} (crypto : Crypto) (keys : KeyCrypto C G) (b : Backend R)
    (auth : AuthConfig) (config : KeyGenConfig) (req : Request) where
  -- The answer to a failed authentication.
  unfoldable pub refuse_login : AuthResult → Response → World R → Response × World R
  refuse_login result r w = (
    send_auth_required auth r,
    elim result.error [ none ↦ w | some e ↦ metric (auth_failure result.method e.text) w ],
  )

  -- The answer to a request that cannot be parsed.
  unfoldable pub refuse_request : GoError → Response → World R → Response × World R
  refuse_request e r w =
      if e.too_large
      then (http_error "Request body too large" 413 r, w)
      else (http_error ("Invalid request: " ++ e.text) 400 r, rejected e w)

  -- From the encoding of the private key on.
  unfoldable pub hand_out : Certificate → PrivateKey → Response → World R → Response × World R
  hand_out cert key r w =
      required "Failed to encode private key"
        (encode_private_key keys config.encrypt_private_key key (client_cert_of req)) r w
        λ encoded_key.
          elim (send_server_key_gen_response crypto config.encrypt_private_key cert encoded_key r) [
            | err e ↦ (r, w)
            | ok r' ↦ (
              r',
              metric
                  (certificate_issued "serverkeygen" cert.common_name cert.serial_number
                    (keys.lifetime cert))
                  w,
            )
          ]

  -- The signing of the request for the generated key, and the rest.
  unfoldable pub sign_and_hand_out :
      KeyGenRequest → CertificateRequest → PrivateKey → Response → World R → Response × World R
  unfolding hand_out
  sign_and_hand_out parsed csr key r w =
      let (signed, w') =
        process_csr_signing b
          (record { csr = csr; auth_token = parsed.auth_token; policy = parsed.policy })
          config.default_mount w in
      elim signed [
        | err e ↦ (send_backend_error e "certificate signing" r, rejected e w')
        | ok cert ↦ hand_out cert key r w'
      ]

  -- From the generation of the key pair on.
  unfoldable pub generate_and_sign : KeyGenRequest → Response → World R → Response × World R
  unfolding sign_and_hand_out template_of
  generate_and_sign parsed r w =
      let (generated, w') = generate_key_pair keys config b w in
      required "Failed to generate key pair" generated r w' λ key.
        required "Failed to create CSR"
          (keys.create_certificate_request (template_of parsed.csr) key) r w'
          λ der.
            required "Failed to parse CSR" (crypto.parse_certificate_request der) r w'
              λ csr. sign_and_hand_out parsed csr key r w'

  -- `ServerKeyGenHandler.ServeHTTP`
  unfoldable pub serve_key_gen : Response → World R → Response × World R
  unfolding refuse_login refuse_request generate_and_sign
  serve_key_gen r w =
      if not (req.method == "POST")
      then (method_not_allowed r, w)
      else let (result, w') = authenticate crypto b auth req w in
        if not result.authenticated
        then refuse_login result r w'
        else let w'' = metric (auth_success result.method result.identity) w' in
          elim (parse_server_key_gen_request crypto config req result) [
            | err e ↦ refuse_request e r w''
            | ok parsed ↦ generate_and_sign parsed r w''
          ]
