-- ===== src/Backend/Pki.antt =====
-- pkg/backend/common_impl.go: the operations of a PKI mount.
use Prim.Native.String.{◌++◌}
use est_service.Backend.Objects.{Method, pure_step, read, read_raw, step, write, ◌>>=◌}
use est_service.Prelude.{
  List, Option, Result, String, codes, context, err, errorf, if◌then◌else◌, is_empty, none, ok,
  some, ℕ, ◌==◌,
}
use est_service.X509.{Certificate, CertificateRequest}
use est_service.Pem.{PemCrypto, chain_of}
use est_service.Backend.{Handle}
use est_service.Backend.Api.{Api, Fields, Secret, as_text, end, entry, field, text}

-- The certificate of a reply; `nothing` and `missing` are the messages of the first two tests.
unfoldable pub certificate_in : PemCrypto → String → String → Option Secret → Result Certificate
certificate_in pem nothing missing none = err (errorf nothing)
certificate_in pem nothing missing (some secret) = elim secret.contents [
  | none ↦ err (errorf nothing)
  | some fields ↦ elim (as_text (entry "certificate" fields)) [
    | none ↦ err (errorf missing)
    | some cert_pem ↦ elim (pem.pem_decode (codes cert_pem)) [
      | none ↦ err (errorf "failed to decode PEM certificate")
      | some (block, rest) ↦ context "failed to parse certificate: " (pem.parse_certificate block)
    ]
  ]
]

-- The data of a signing request.
unfoldable pub signing_data : PemCrypto → CertificateRequest → String → Fields
signing_data pem csr ttl =
    field "csr" (text (pem.pem_encode "CERTIFICATE REQUEST" csr.raw))
      (if ttl == "" then end else field "ttl" (text ttl) end)

module _ {S : Type 0} (api : Api S) (pem : PemCrypto) (h : Handle) where
  -- `GetCACertificate`
  unfoldable pub get_ca_certificate : String → Method S Certificate
  unfolding certificate_in
  get_ca_certificate mount = do
    secret ← step "failed to read CA certificate: " (read api h (mount ++ "/cert/ca"))
    pure_step (
        certificate_in pem "no CA certificate data returned" "CA certificate not found in response"
          secret)

  -- The loop of `GetCAChain` over what was read.
  abbrev pub chain_in : List ℕ → Result (List Certificate)
  chain_in bytes =
      if is_empty bytes
      then err (errorf "no CA chain data returned")
      else chain_of pem "failed to parse certificate in chain: " bytes

  -- `GetCAChain`
  unfoldable pub get_ca_chain : String → Method S (List Certificate)
  get_ca_chain mount = do
    body ← step "failed to read CA chain: " (read_raw api h (mount ++ "/ca_chain"))
    bytes ← pure_step (context "failed to read response body: " body)
    pure_step (chain_in bytes)

  -- `SignCSR`
  unfoldable pub sign_csr : String → String → CertificateRequest → String → Method S Certificate
  unfolding certificate_in signing_data
  sign_csr mount role csr ttl = do
    secret ←
        step "failed to sign CSR: "
          (write api h (mount ++ "/sign/" ++ role) (some (signing_data pem csr ttl)))
    pure_step (
        certificate_in pem "no certificate data returned" "certificate not found in response"
          secret)

  -- `SignCSRVerbatim`
  unfoldable pub sign_csr_verbatim : String → CertificateRequest → String → Method S Certificate
  unfolding certificate_in signing_data
  sign_csr_verbatim mount csr ttl = do
    secret ←
        step "failed to sign CSR verbatim: "
          (write api h (mount ++ "/sign-verbatim") (some (signing_data pem csr ttl)))
    pure_step (
        certificate_in pem "no certificate data returned" "certificate not found in response"
          secret)

  -- `GetIssuerPEM`
  unfoldable pub get_issuer_pem : String → String → Method S String
  get_issuer_pem mount issuer = do
    body ← step "failed to read issuer: " (read_raw api h (mount ++ "/issuer/" ++ issuer ++ "/pem"))
    bytes ← pure_step (context "failed to read issuer PEM body: " body)
    pure_step (ok (pem.bytes_text bytes))
