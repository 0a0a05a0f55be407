-- ===== src/Pem.antt =====
-- encoding/pem and what pkg/backend and pkg/est call of crypto/x509 behind it, as a parameter, and the
-- loop over the certificates of a text, which both packages have.
pub mod Laws
use est_service.Prelude.{
  List, Option, Result, String, [], context, err, errorf, length, none, ok, some, suc, zero, ℕ,
  ◌>>=◌, ◌∷◌,
}
use est_service.X509.{Certificate, PrivateKey}

-- x509.ParsePKCS8PrivateKey, by the type of the key
pub data ParsedKey : Type 0 where
  rsa_private ecdsa_private unsupported_private : PrivateKey → ParsedKey

pub record PemCrypto : Type 0 where
  -- pem.Decode: the bytes of the first block, and what follows it
  pub pem_decode : List ℕ → Option (List ℕ × List ℕ)
  -- string(pem.EncodeToMemory(block)), by the type and the bytes
  pub pem_encode : String → List ℕ → String
  pub parse_certificate : List ℕ → Result Certificate
  pub parse_pkcs8 : List ℕ → Result ParsedKey
  pub parse_pkcs1 : List ℕ → Result PrivateKey
  pub parse_ec : List ℕ → Result PrivateKey
  -- fmt.Sprintf("%x", sha256.Sum256(bytes))
  pub fingerprint : List ℕ → String
  -- NotBefore and NotAfter, as RFC 3339
  pub not_before : Certificate → String
  pub not_after : Certificate → String
  -- string(bytes)
  pub bytes_text : List ℕ → String

-- `for len(rest) > 0 { block, rest = pem.Decode(rest) ... }`; the fuel must exceed the length.
unfoldable pub certificates_of : PemCrypto → String → ℕ → List ℕ → Result (List Certificate)
certificates_of pem message zero bytes = err (errorf "out of fuel")
certificates_of pem message (suc fuel) [] = ok []
certificates_of pem message (suc fuel) (byte ∷ bytes) = elim (pem.pem_decode (byte ∷ bytes)) [
  | none ↦ ok []
  | some (block, rest) ↦ do
    cert ← context message (pem.parse_certificate block)
    certs ← certificates_of pem message fuel rest
    ok (cert ∷ certs)
]

-- The whole text.
abbrev pub chain_of : PemCrypto → String → List ℕ → Result (List Certificate)
chain_of pem message bytes = certificates_of pem message (suc (length bytes)) bytes
