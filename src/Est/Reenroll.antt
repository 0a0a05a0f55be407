-- ===== src/Est/Reenroll.antt =====
-- The checks of pkg/est/csr.go that tie a request to the client's certificate.
pub mod Laws
use mathlib.Core.List.{map}
use est_service.Prelude.{
  Bool, List, Option, Result, [], any, context, err, errorf, false, if◌then◌else◌, length, list_eq,
  none, not, ok, some, true, ℕ, ◌&&◌, ◌==◌, ◌=ℕ=◌, ◌>>=◌, ◌∷◌,
}
use est_service.X509.{Certificate, CertificateRequest, Crypto}
use est_service.Est.Slices.{slices_equal_by, string_slices_equal}

-- The part of a connection's TLS state that the service reads; `r.TLS` is `Option Tls`.
pub record Tls : Type 0 where
  pub peer_certificates : List Certificate

-- `ExtractTLSClientCertificate`
unfoldable pub extract_tls_client_certificate : Option Tls → Result Certificate
extract_tls_client_certificate none = err (errorf "no TLS connection state")
extract_tls_client_certificate (some tls) = elim tls.peer_certificates [
  | [] ↦ err (errorf "no client certificate provided")
  | cert ∷ chain ↦ ok cert
]

-- The loop over the bytes of two keys of one length.
pub same_bytes : List ℕ → List ℕ → Bool
same_bytes [] bs = true
same_bytes (a ∷ as') [] = false
same_bytes (a ∷ as') (b ∷ bs) = a =ℕ= b && same_bytes as' bs

unfoldable pub oid_equal : List ℕ → List ℕ → Bool
oid_equal = list_eq

-- `oidChangeSubjectName`
abbrev pub oid_change_subject_name : List ℕ
oid_change_subject_name = 1 ∷ 3 ∷ 6 ∷ 1 ∷ 5 ∷ 5 ∷ 7 ∷ 9 ∷ 8 ∷ []

module _ (crypto : Crypto) where
  -- `ValidateCSRMatchesCertificate`
  unfoldable pub validate_csr_matches_certificate :
      CertificateRequest → Certificate → Result (Unit {0})
  unfolding same_bytes
  validate_csr_matches_certificate csr cert = do
    csr_key ← context "failed to marshal CSR public key: " (crypto.marshal_pkix csr.public_key)
    cert_key ←
        context "failed to marshal certificate public key: " (crypto.marshal_pkix cert.public_key)
    if not (length csr_key =ℕ= length cert_key)
        then err (errorf "public key mismatch: different key types or sizes")
        else if same_bytes csr_key cert_key
        then ok tt
        else err (errorf "public key mismatch: CSR does not match certificate")

  -- `validateSubjectAltNameMatch`; the messages end before the printed lists, which are only logged.
  unfoldable pub validate_subject_alt_name_match :
      CertificateRequest → Certificate → Result (Unit {0})
  unfolding slices_equal_by
  validate_subject_alt_name_match csr cert =
      if not (string_slices_equal csr.dns_names cert.dns_names)
      then err (errorf "CSR DNS names do not match certificate DNS names")
      else if not (string_slices_equal csr.email_addresses cert.email_addresses)
      then err (errorf "CSR email addresses do not match certificate email addresses")
      else if not (slices_equal_by crypto.ip_text csr.ip_addresses cert.ip_addresses)
      then err (errorf "CSR IP addresses do not match certificate IP addresses")
      else if not (slices_equal_by crypto.uri_text csr.uris cert.uris)
      then err (errorf "CSR URIs do not match certificate URIs")
      else ok tt

  -- `ValidateReenrollmentSubject`
  unfoldable pub validate_reenrollment_subject :
      CertificateRequest → Certificate → Result (Unit {0})
  unfolding oid_equal
  validate_reenrollment_subject csr existing_cert =
      if any (λ attr. oid_equal attr oid_change_subject_name) csr.attributes
      then ok tt
      else if not (csr.subject == existing_cert.subject)
      then err (errorf "CSR Subject does not match existing certificate Subject")
      else validate_subject_alt_name_match csr existing_cert
