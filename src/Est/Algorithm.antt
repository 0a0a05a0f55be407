-- ===== src/Est/Algorithm.antt =====
-- The signature algorithms that pkg/est/csr.go accepts.
pub mod Laws
use est_service.Prelude.{
  Bool, List, Option, Result, String, [], any, codes, err, errorf, false, if◌then◌else◌, is_empty,
  list_eq, none, not, ok, some, true, upper_trimmed, ◌=ℕ=◌, ◌∷◌,
}
use est_service.X509.{
  CertificateRequest, SignatureAlgorithm, ecdsa_with_sha1, ecdsa_with_sha256, ecdsa_with_sha384,
  ecdsa_with_sha512, md5_with_rsa, ordinal, sha1_with_rsa, sha256_with_rsa, sha384_with_rsa,
  sha512_with_rsa,
}

-- `parseSignatureAlgorithm`
unfoldable pub parse_signature_algorithm : String → Option SignatureAlgorithm
parse_signature_algorithm name =
    let upper = upper_trimmed name in
    if list_eq upper (codes "SHA256WITHRSA")
    then some sha256_with_rsa
    else if list_eq upper (codes "SHA384WITHRSA")
    then some sha384_with_rsa
    else if list_eq upper (codes "SHA512WITHRSA")
    then some sha512_with_rsa
    else if list_eq upper (codes "ECDSAWITHSHA256")
    then some ecdsa_with_sha256
    else if list_eq upper (codes "ECDSAWITHSHA384")
    then some ecdsa_with_sha384
    else if list_eq upper (codes "ECDSAWITHSHA512")
    then some ecdsa_with_sha512
    else none

-- `isWeakSignatureAlgorithm`
abbrev pub is_weak_signature_algorithm : SignatureAlgorithm → Bool
is_weak_signature_algorithm md5_with_rsa = true
is_weak_signature_algorithm sha1_with_rsa = true
is_weak_signature_algorithm ecdsa_with_sha1 = true
is_weak_signature_algorithm _ = false

-- `if alg, ok := parseSignatureAlgorithm(name); ok { allowedSet[alg] = struct{}{} }`
pub add_allowed : Option SignatureAlgorithm → List SignatureAlgorithm → List SignatureAlgorithm
add_allowed none set = set
add_allowed (some alg) set = alg ∷ set

-- The loop that fills `allowedSet`, as the list of the algorithms that it holds.
pub allowed_set : List String → List SignatureAlgorithm
allowed_set [] = []
allowed_set (name ∷ names) = add_allowed (parse_signature_algorithm name) (allowed_set names)

-- `_, ok := allowedSet[alg]`
abbrev pub is_allowed : SignatureAlgorithm → List SignatureAlgorithm → Bool
is_allowed alg set = any (λ a. ordinal a =ℕ= ordinal alg) set

-- `ValidateCSRSignatureAlgorithm`; the messages end before the algorithm's name, which is only logged.
unfoldable pub validate_csr_signature_algorithm :
    CertificateRequest → List String → Result (Unit {0})
unfolding allowed_set add_allowed
validate_csr_signature_algorithm csr allowed =
    if is_weak_signature_algorithm csr.signature_algorithm
    then err (errorf "signature algorithm not allowed: ")
    else if is_empty allowed
    then ok tt
    else if is_empty (allowed_set allowed)
    then err (errorf "no valid signature algorithms configured")
    else if not (is_allowed csr.signature_algorithm (allowed_set allowed))
    then err (errorf "signature algorithm not allowed: ")
    else ok tt
