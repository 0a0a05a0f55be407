-- ===== src/Est/Pkcs7/Parse.antt =====
-- pkg/est/pkcs7.go and csr.go: what is read from a container, and the CA chain of PEM texts.
use est_service.Prelude.{
  List, Result, String, [], codes, context, err, errorf, if◌then◌else◌, is_empty, length, none, ok,
  require, some, suc, zero, ℕ, ◌++◌, ◌==◌, ◌>>=◌, ◌∷◌,
}
use est_service.X509.{Certificate, CertificateRequest, Crypto}
use est_service.Pem.{PemCrypto, chain_of}
use est_service.Est.Asn1.{Asn1}
use est_service.Est.Reenroll.{oid_equal}
use est_service.Est.Pkcs7.{oid_signed_data}

-- The loop over the certificates of a container; the fuel must exceed the length.
unfoldable pub certs_in : PemCrypto → Asn1 → ℕ → List ℕ → Result (List Certificate)
certs_in pem asn1 zero bytes = err (errorf "out of fuel")
certs_in pem asn1 (suc fuel) [] = ok []
certs_in pem asn1 (suc fuel) (byte ∷ bytes) = do
  read ← context "failed to parse certificate in PKCS#7: " (asn1.unmarshal_value (byte ∷ bytes))
  cert ← context "failed to parse X.509 certificate: " (pem.parse_certificate read.0.full_bytes)
  certs ← certs_in pem asn1 fuel read.1
  ok (cert ∷ certs)

-- The bytes of the first PEM block, where there is one.
unfoldable pub unwrapped : PemCrypto → List ℕ → List ℕ
unwrapped pem bytes = elim (pem.pem_decode bytes) [ none ↦ bytes | some (block, rest) ↦ block ]

-- `ParsePKCS7`
unfoldable pub parse_pkcs7 : PemCrypto → Asn1 → List ℕ → Result (List Certificate)
unfolding unwrapped certs_in
parse_pkcs7 pem asn1 bytes = do
  info ←
      context "failed to parse PKCS#7 ContentInfo: "
        (asn1.unmarshal_content_info (unwrapped pem bytes))
  tail ← require (is_empty info.1) (errorf "trailing data after PKCS#7 ContentInfo")
  kind ←
      require (oid_equal info.0.content_type oid_signed_data)
        (errorf "PKCS#7 ContentInfo is not SignedData")
  signed ←
      context "failed to parse PKCS#7 SignedData: "
        (asn1.unmarshal_signed_data info.0.content.bytes)
  certs_in pem asn1 (suc (length signed.0.certificates.bytes)) signed.0.certificates.bytes

-- The first certificate's bytes, read as a CSR.
abbrev csr_in : Crypto → List Certificate → Result CertificateRequest
csr_in crypto [] = err (errorf "no certificates found in PKCS#7")
csr_in crypto (cert ∷ certs) =
    context "failed to parse CSR from PKCS#7: " (crypto.parse_certificate_request cert.raw)

-- `ExtractCSRFromPKCS7`
unfoldable pub extract_csr_from_pkcs7 :
    Crypto → PemCrypto → Asn1 → List ℕ → Result CertificateRequest
unfolding parse_pkcs7
extract_csr_from_pkcs7 crypto pem asn1 bytes = do
  certs ← context "failed to parse PKCS#7: " (parse_pkcs7 pem asn1 bytes)
  csr_in crypto certs

-- `parsePEM`
abbrev certs_of : PemCrypto → String → Result (List Certificate)
certs_of pem text = chain_of pem "failed to parse certificate: " (codes text)

-- The loop over the texts of the chain; empty ones are skipped.
unfoldable pub chain_entries : PemCrypto → List String → Result (List Certificate)
chain_entries pem [] = ok []
chain_entries pem (entry ∷ entries) =
    let rest = chain_entries pem entries in
    if entry == "" then rest else do certs ← certs_of pem entry; more ← rest; ok (certs ++ more)

abbrev non_empty : List Certificate → Result (List Certificate)
non_empty certs = if is_empty certs then err (errorf "no certificates provided") else ok certs

-- `BuildCAChain`
unfoldable pub build_ca_chain : PemCrypto → String → List String → Result (List Certificate)
unfolding chain_entries
build_ca_chain pem cert_pem chain_pems = do
  certs ← certs_of pem cert_pem
  more ← chain_entries pem chain_pems
  non_empty (certs ++ more)
