-- ===== src/KeyCrypto.antt =====
-- What pkg/handlers/serverkeygen.go calls of Go's crypto packages: a parameter of everything that
-- generates or encrypts keys. A function that draws random bits stands for the draws of one request.
use est_service.Prelude.{List, Result, String, ℕ, ℤ}
use est_service.X509.{Certificate, PrivateKey}

-- elliptic.Curve
pub data Curve : Type 0 where
  p256 p384 p521 : Curve

-- The x509.CertificateRequest that is handed to CreateCertificateRequest.
pub record CsrTemplate : Type 0 where
  pub subject : String
  pub dns_names : List String
  pub email_addresses : List String
  pub ip_addresses : List (List ℕ)
  pub uris : List (List ℕ)
  pub extra_extensions : List (List ℕ)

-- crypto/aes and crypto/cipher: `C` is cipher.Block and `G` is cipher.AEAD. `seal` and `unseal` are
-- Seal and Open with no additional data, which take the nonce first; `seal` returns the text alone.
pub record Aead (C G : Type 0) : Type 0 where
  pub new_cipher : List ℕ → Result C
  pub new_gcm : C → Result G
  pub nonce_size : G → ℕ
  pub random_nonce : ℕ → Result (List ℕ)
  pub seal : G → List ℕ → List ℕ → List ℕ
  pub unseal : G → List ℕ → List ℕ → Result (List ℕ)

pub record KeyCrypto (C G : Type 0) : Type 0 where
  pub aead : Aead C G
  -- rsa.GenerateKey and ecdsa.GenerateKey
  pub generate_rsa : ℤ → Result PrivateKey
  pub generate_ecdsa : Curve → Result PrivateKey
  -- rand.Read
  pub random_password : ℕ → Result (List ℕ)
  -- x509.CreateCertificateRequest and MarshalPKCS8PrivateKey
  pub create_certificate_request : CsrTemplate → PrivateKey → Result (List ℕ)
  pub marshal_pkcs8 : PrivateKey → Result (List ℕ)
  -- rsa.EncryptOAEP with SHA-256, by the key's material
  pub encrypt_oaep : List ℕ → List ℕ → Result (List ℕ)
  -- pem.EncodeToMemory: the type, the headers and the bytes
  pub pem_encode : String → List (String × String) → List ℕ → List ℕ
  -- NotAfter.Sub(NotBefore).String()
  pub lifetime : Certificate → String
