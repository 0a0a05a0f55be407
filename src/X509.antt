-- ===== src/X509.antt =====
-- The values of Go's crypto/x509, net and net/url packages that the service reads, with the fields
-- that it reads, and the operations of those packages as a record of functions: `Crypto` is a
-- parameter of everything that calls them.
use est_service.Est.Asn1.{ContentInfo, SignedData}
use est_service.Prelude.{List, Option, Result, String, ℕ}

-- x509.SignatureAlgorithm, in the order of its constants
pub data SignatureAlgorithm : Type 0 where
  unknown md2_with_rsa md5_with_rsa sha1_with_rsa : SignatureAlgorithm
  sha256_with_rsa sha384_with_rsa sha512_with_rsa : SignatureAlgorithm
  dsa_with_sha1 dsa_with_sha256 : SignatureAlgorithm
  ecdsa_with_sha1 ecdsa_with_sha256 ecdsa_with_sha384 ecdsa_with_sha512 : SignatureAlgorithm
  sha256_with_rsa_pss sha384_with_rsa_pss sha512_with_rsa_pss : SignatureAlgorithm
  pure_ed25519 : SignatureAlgorithm

-- The integer that Go compares.
abbrev pub ordinal : SignatureAlgorithm → ℕ
ordinal unknown = 0
ordinal md2_with_rsa = 1
ordinal md5_with_rsa = 2
ordinal sha1_with_rsa = 3
ordinal sha256_with_rsa = 4
ordinal sha384_with_rsa = 5
ordinal sha512_with_rsa = 6
ordinal dsa_with_sha1 = 7
ordinal dsa_with_sha256 = 8
ordinal ecdsa_with_sha1 = 9
ordinal ecdsa_with_sha256 = 10
ordinal ecdsa_with_sha384 = 11
ordinal ecdsa_with_sha512 = 12
ordinal sha256_with_rsa_pss = 13
ordinal sha384_with_rsa_pss = 14
ordinal sha512_with_rsa_pss = 15
ordinal pure_ed25519 = 16

-- The dynamic types that the code tells apart, each with the key's material.
pub data PublicKey : Type 0 where
  rsa_key : List ℕ → PublicKey
  ecdsa_key : List ℕ → PublicKey
  other_key : List ℕ → PublicKey

-- x509.Certificate; `subject` and `serial_number` are their `String()`
pub record Certificate : Type 0 where
  pub raw : List ℕ
  pub subject : String
  pub common_name : String
  pub serial_number : String
  pub dns_names : List String
  pub email_addresses : List String
  pub ip_addresses : List (List ℕ)
  pub uris : List (List ℕ)
  pub public_key : PublicKey

-- crypto.PrivateKey, by its material
abbrev pub PrivateKey : Type 0
PrivateKey = List ℕ

-- x509.CertificateRequest; `attributes` holds the types of the attributes
pub record CertificateRequest : Type 0 where
  pub raw : List ℕ
  pub subject : String
  pub common_name : String
  pub signature_algorithm : SignatureAlgorithm
  pub attributes : List (List ℕ)
  pub dns_names : List String
  pub email_addresses : List String
  pub ip_addresses : List (List ℕ)
  pub uris : List (List ℕ)
  pub extra_extensions : List (List ℕ)
  pub public_key : PublicKey

pub record Crypto : Type 0 where
  -- x509.MarshalPKIXPublicKey
  pub marshal_pkix : PublicKey → Result (List ℕ)
  -- CertificateRequest.CheckSignature
  pub check_signature : CertificateRequest → Result (Unit {0})
  -- net.IP.String and url.URL.String
  pub ip_text : List ℕ → String
  pub uri_text : List ℕ → String
  -- base64.StdEncoding: DecodeString and EncodeToString
  pub decode_base64 : List ℕ → Result (List ℕ)
  -- the bytes that DecodeString returns with an error
  pub partly_decoded : List ℕ → List ℕ
  pub encode_base64 : List ℕ → String
  -- string(bytes)
  pub bytes_text : List ℕ → String
  -- pem.Decode: the bytes of the first block
  pub pem_decode : List ℕ → Option (List ℕ)
  -- x509.ParseCertificateRequest
  pub parse_certificate_request : List ℕ → Result CertificateRequest
  -- asn1.Marshal of the structures of pkg/est/pkcs7.go
  pub marshal_signed_data : SignedData → Result (List ℕ)
  pub marshal_content_info : ContentInfo → Result (List ℕ)
