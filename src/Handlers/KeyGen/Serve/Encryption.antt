-- ===== src/Handlers/KeyGen/Serve/Encryption.antt =====
-- Requests to `/serverkeygen` whose key cannot be encrypted: the encryption is on, and the client has
-- no certificate with an RSA key.
use est_service.Handlers.KeyGen.Encode.Laws.{NoRsa, unencodable}
use est_service.Prelude.{GoError, ok, refl, some, true, ◌≡◌}
use est_service.X509.{Certificate, CertificateRequest, Crypto, PrivateKey}
use est_service.KeyCrypto.{KeyCrypto}
use est_service.Http.{Request, Response}
use est_service.Http.Laws.{http_error-status}
use est_service.Backend.{Backend}
use est_service.World.{World}
use est_service.Auth.{AuthConfig}
use est_service.Handlers.Policy.{process_csr_signing}
use est_service.Handlers.Base.Outcome.{IsFresh}
use est_service.Handlers.KeyGen.{KeyGenConfig, KeyGenRequest}
use est_service.Handlers.KeyGen.Serve.{client_cert_of, hand_out, rejected, sign_and_hand_out}

module _ {C G R : Type 0} (crypto : Crypto) (keys : KeyCrypto C G) (b : Backend R)
    (auth : AuthConfig) (config : KeyGenConfig) (req : Request)
    (on : config.encrypt_private_key ≡ true) (no_rsa : NoRsa (client_cert_of req)) (r : Response)
    (fresh : IsFresh r) where
  -- With the encryption on, a client without an RSA certificate is answered by 500 after the backend
  -- has signed a certificate for the generated key: that certificate is lost, and only a rejection is
  -- recorded.
  pub sign_and_hand_out-loses :
      (parsed : KeyGenRequest) (csr : CertificateRequest) (key : PrivateKey) (cert : Certificate)
      (w : World R)
      → (process_csr_signing b
          (record { csr = csr; auth_token = parsed.auth_token; policy = parsed.policy })
          config.default_mount
          w).0
        ≡ ok cert
      → ((sign_and_hand_out crypto keys b auth config req parsed csr key r w).0.status ≡ some 500)
        × ((e : GoError) × (sign_and_hand_out crypto keys b auth config req parsed csr key r w).1
              ≡ rejected e
                  (process_csr_signing b
                    (record { csr = csr; auth_token = parsed.auth_token; policy = parsed.policy })
                    config.default_mount
                    w).1)
  unfolding sign_and_hand_out hand_out
  sign_and_hand_out-loses parsed csr key cert w signed =
      let (e, fails) = unencodable keys key (client_cert_of req) no_rsa in
      (
        rw (signed, sign_and_hand_out, hand_out, on, fails)
            (http_error-status "Failed to encode private key" 500 r fresh.0),
        (e, rw (signed, sign_and_hand_out, hand_out, on, fails) refl),
      )
