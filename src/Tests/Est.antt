-- ===== src/Tests/Est.antt =====
-- Runs of pkg/est.
use est_service.Est.Asn1.{Asn1, RawValue}
use est_service.Est.Pkcs7.{content_info_of, create_pkcs7_certs_only, raw_certs, signed_data_of}
use est_service.Est.Pkcs7.Parse.{parse_pkcs7}
use est_service.Est.Pkcs7.Laws.{IsLawful, IsParsed, parse_pkcs7-create_pkcs7_certs_only}
use est_service.Pem.{PemCrypto, rsa_private}
use mathlib.Core.List.{Perm, Memᴰ}
use est_service.Prelude.{
  List, Result, String, [], arith, err, errorf, false, itoa, list_eq, negsuc, none, ok,
  ok_injective, pos, refl, sym, true, upper_trimmed, ℕ, ◌∷◌, ◌≡◌, ◌⊎◌,
}
use est_service.X509.{ecdsa_with_sha384}
use est_service.Est.Slices.{string_slices_equal}
use est_service.Est.Slices.Multiset.{string_slices_equal_iff}
use est_service.Est.Payload.{err_request_too_large, read_csr_payload_with_limit}
use est_service.Est.Payload.Bounds.{too_large_refused}
use est_service.Est.Algorithm.{
  is_weak_signature_algorithm, parse_signature_algorithm, validate_csr_signature_algorithm,
}
use est_service.Est.Algorithm.Laws.{
  Names, parse_signature_algorithm-not_weak, validate_csr_signature_algorithm_iff,
}
use est_service.Est.Reenroll.{
  oid_change_subject_name, validate_csr_matches_certificate, validate_reenrollment_subject,
  validate_subject_alt_name_match,
}
use est_service.Est.Reenroll.Laws.{
  SameNames, validate_csr_matches_certificate_iff, validate_reenrollment_subject_iff,
}
use est_service.Tests.Fixtures.{body, client_cert, crypto, csr, enrollment}

abbrev names : List String
names = "a" ∷ "b" ∷ "a" ∷ []

abbrev reordered : List String
reordered = "a" ∷ "a" ∷ "b" ∷ []

string_slices_equal_iff_example : Perm names reordered
unfolding string_slices_equal
string_slices_equal_iff_example = (string_slices_equal_iff names reordered).0 refl

too_large_refused_example :
    read_csr_payload_with_limit crypto (negsuc 0) body (pos 2) ≡ err err_request_too_large
too_large_refused_example =
    too_large_refused crypto (negsuc 0) body (pos 2) (omega arith) (omega arith)

validate_csr_signature_algorithm_iff_example :
    (is_weak_signature_algorithm csr.signature_algorithm ≡ false)
    × ((enrollment.allowed_signature_algos ≡ [])
        ⊎ Names csr.signature_algorithm enrollment.allowed_signature_algos)
unfolding validate_csr_signature_algorithm parse_signature_algorithm list_eq upper_trimmed
validate_csr_signature_algorithm_iff_example =
    (validate_csr_signature_algorithm_iff csr enrollment.allowed_signature_algos).0 refl

parse_signature_algorithm-not_weak_example : is_weak_signature_algorithm ecdsa_with_sha384 ≡ false
unfolding parse_signature_algorithm list_eq upper_trimmed
parse_signature_algorithm-not_weak_example =
    parse_signature_algorithm-not_weak " ecdsaWithSHA384" ecdsa_with_sha384 refl

validate_csr_matches_certificate_iff_example :
    (key : List ℕ) × (crypto.marshal_pkix csr.public_key ≡ ok key)
    × (crypto.marshal_pkix client_cert.public_key ≡ ok key)
unfolding validate_csr_matches_certificate
validate_csr_matches_certificate_iff_example =
    (validate_csr_matches_certificate_iff crypto csr client_cert).0 refl

validate_reenrollment_subject_iff_example :
    Memᴰ oid_change_subject_name csr.attributes ⊎ SameNames crypto csr client_cert
unfolding validate_reenrollment_subject validate_subject_alt_name_match string_slices_equal itoa
validate_reenrollment_subject_iff_example =
    (validate_reenrollment_subject_iff crypto csr client_cert).0 refl

-- A reader of containers whose certificates have two bytes each, and are all the client's.
abbrev first_two : List ℕ → Result (RawValue × List ℕ)
first_two (a ∷ b ∷ rest) = ok (
  record { tag_class = 0; tag = 16; is_compound = true; bytes = []; full_bytes = a ∷ b ∷ [] },
  rest,
)
first_two (a ∷ []) = err (errorf "truncated")
first_two [] = err (errorf "truncated")

abbrev asn1 : Asn1
asn1 = record {
  unmarshal_content_info = λ bytes. ok (content_info_of bytes, []);
  unmarshal_signed_data = λ bytes. ok (signed_data_of bytes, []);
  unmarshal_value = first_two;
}

abbrev pem : PemCrypto
pem = record {
  pem_decode = λ bytes. none;
  pem_encode = λ kind bytes. kind;
  parse_certificate = λ bytes. ok client_cert;
  parse_pkcs8 = λ block. ok (rsa_private block);
  parse_pkcs1 = ok;
  parse_ec = ok;
  fingerprint = λ bytes. "f";
  not_before = λ cert. "2026-01-01T00:00:00Z";
  not_after = λ cert. "2027-01-01T00:00:00Z";
  bytes_text = λ bytes. "pem";
}

asn1-IsLawful : IsLawful crypto asn1
asn1-IsLawful = record {
  content_info = λ content bytes made. (content_info_of bytes, refl, refl, sym (ok_injective made));
  signed_data = λ raw bytes made. (signed_data_of bytes, [], refl, sym (ok_injective made));
}

client_cert-IsParsed : IsParsed pem asn1 client_cert
client_cert-IsParsed = record {
  filled = omega arith;
  element = λ rest. (_, refl, refl);
  parsed = refl;
}

parse_pkcs7-create_pkcs7_certs_only_example :
    parse_pkcs7 pem asn1 (1 ∷ 2 ∷ 1 ∷ 2 ∷ []) ≡ ok (client_cert ∷ client_cert ∷ [])
unfolding create_pkcs7_certs_only raw_certs
parse_pkcs7-create_pkcs7_certs_only_example =
    parse_pkcs7-create_pkcs7_certs_only pem asn1 crypto asn1-IsLawful
      (client_cert ∷ client_cert ∷ []) (1 ∷ 2 ∷ 1 ∷ 2 ∷ [])
      (client_cert-IsParsed, (client_cert-IsParsed, tt)) refl refl
