-- ===== src/Est/Pkcs7/Laws.antt =====
-- A container gives back the certificates that it was made of.
use est_service.Prelude.{
  List, Result-cases, [], ap, arith, bind_ok, context_iff, inl, inr, length, length-append, list_eq,
  none, ok, refl, suc, zero, ℕ, ◌++◌, ◌<◌, ◌>>=◌, ◌∙◌, ◌∷◌, ◌≡◌,
}
use est_service.X509.{Certificate, Crypto}
use est_service.Pem.{PemCrypto}
use est_service.Est.Asn1.{Asn1, ContentInfo, RawValue, SignedData}
use est_service.Est.Reenroll.{oid_equal}
use est_service.Est.Pkcs7.{
  content_info_of, create_pkcs7_certs_only, oid_signed_data, raw_certs, signed_data_of,
}
use est_service.Est.Pkcs7.Parse.{certs_in, parse_pkcs7, unwrapped}

-- Documented of encoding/asn1: Unmarshal reads what Marshal wrote of the two structures, up to the
-- bytes of the whole elements.
pub record IsLawful (crypto : Crypto) (asn1 : Asn1) : Type 0 where
  pub content_info :
      (content bytes : List ℕ)
      → crypto.marshal_content_info (content_info_of content) ≡ ok bytes
      → (info : ContentInfo) × (asn1.unmarshal_content_info bytes ≡ ok (info, []))
        × (info.content_type ≡ (content_info_of content).content_type)
        × (info.content.bytes ≡ content)
  pub signed_data :
      (raw bytes : List ℕ)
      → crypto.marshal_signed_data (signed_data_of raw) ≡ ok bytes
      → (signed : SignedData) × (rest : List ℕ) × (asn1.unmarshal_signed_data bytes
          ≡ ok (signed, rest))
        × (signed.certificates.bytes ≡ raw)

-- A certificate whose bytes are one element, from which it is parsed.
pub record IsParsed (pem : PemCrypto) (asn1 : Asn1) (cert : Certificate) : Type 0 where
  pub filled : 0 < length cert.raw
  pub element :
      (rest : List ℕ)
      → (value : RawValue) × (asn1.unmarshal_value (cert.raw ++ rest) ≡ ok (value, rest))
        × (value.full_bytes ≡ cert.raw)
  pub parsed : pem.parse_certificate cert.raw ≡ ok cert

abbrev pub AllParsed : PemCrypto → Asn1 → List Certificate → Type 0
AllParsed pem asn1 [] = Unit {0}
AllParsed pem asn1 (cert ∷ certs) = IsParsed pem asn1 cert × AllParsed pem asn1 certs

module _ (pem : PemCrypto) (asn1 : Asn1) where
  certs_in-step :
      (fuel : ℕ) (bytes rest : List ℕ) (value : RawValue) (cert : Certificate)
      → 0 < length bytes
      → asn1.unmarshal_value bytes ≡ ok (value, rest)
      → pem.parse_certificate value.full_bytes ≡ ok cert
      → certs_in pem asn1 (suc fuel) bytes
        ≡ (certs_in pem asn1 fuel rest >>= λ certs. ok (cert ∷ certs))
  unfolding certs_in
  certs_in-step fuel [] rest value cert filled read parsed = absurd (omega arith)
  certs_in-step fuel (byte ∷ bytes) rest value cert filled read parsed =
      rw (read, certs_in, parsed) refl

  certs_in-raw_certs :
      (certs : List Certificate) (fuel : ℕ)
      → AllParsed pem asn1 certs
      → length (raw_certs certs) < fuel
      → certs_in pem asn1 fuel (raw_certs certs) ≡ ok certs
  unfolding raw_certs certs_in
  certs_in-raw_certs certs zero all enough = absurd (omega arith)
  certs_in-raw_certs [] (suc fuel) all enough = refl
  certs_in-raw_certs (cert ∷ certs) (suc fuel) (is, all) enough =
      let rest = raw_certs certs in
      let (value, read, whole) = is.element rest in
      let long = length-append cert.raw rest in
      let filled = is.filled in
      certs_in-step fuel (cert.raw ++ rest) rest value cert (omega arith) read
        (ap pem.parse_certificate whole ∙ is.parsed)
      ∙ rw (certs_in-raw_certs certs fuel all (omega arith)) refl

  -- Reading a container, from its two structures on.
  parse_pkcs7-structures :
      (der rest : List ℕ) (info : ContentInfo) (signed : SignedData) (certs : List Certificate)
      → pem.pem_decode der ≡ none
      → asn1.unmarshal_content_info der ≡ ok (info, [])
      → info.content_type ≡ oid_signed_data
      → asn1.unmarshal_signed_data info.content.bytes ≡ ok (signed, rest)
      → signed.certificates.bytes ≡ raw_certs certs
      → AllParsed pem asn1 certs
      → parse_pkcs7 pem asn1 der ≡ ok certs
  unfolding parse_pkcs7 unwrapped oid_equal list_eq
  parse_pkcs7-structures der rest info signed certs plain outer kind inner holds all =
      rw (plain, parse_pkcs7, unwrapped, outer, kind, inner, holds)
        (certs_in-raw_certs certs (suc (length (raw_certs certs))) all (omega arith))

  -- Where Unmarshal reads what Marshal wrote, a container that was made of certificates, each of which
  -- its own bytes parse to, and that has no PEM block in it, is read as just these certificates, in
  -- their order.
  pub parse_pkcs7-create_pkcs7_certs_only :
      (crypto : Crypto)
      → IsLawful crypto asn1
      → (certs : List Certificate) (der : List ℕ) → AllParsed pem asn1 certs
      → create_pkcs7_certs_only crypto certs ≡ ok der
      → pem.pem_decode der ≡ none
      → parse_pkcs7 pem asn1 der ≡ ok certs
  unfolding create_pkcs7_certs_only
  parse_pkcs7-create_pkcs7_certs_only crypto lawful [] der all made plain = absurd cc
  parse_pkcs7-create_pkcs7_certs_only crypto lawful (cert ∷ certs) der all made plain =
      let (bytes, signed, outer) = bind_ok _ made in
      let (inside, rest, inner, holds) =
        lawful.signed_data (raw_certs (cert ∷ certs)) bytes ((context_iff _ _ _).0 signed) in
      let (info, read, kind, content) =
        lawful.content_info bytes der ((context_iff _ _ _).0 outer) in
      parse_pkcs7-structures der rest info inside (cert ∷ certs) plain read kind (rw content inner)
        holds all

-- Documented of asn1.Unmarshal: what follows an element is shorter than the bytes.
abbrev pub Shortens : Asn1 → Type 0
Shortens asn1 =
    (bytes rest : List ℕ) (value : RawValue)
    → asn1.unmarshal_value bytes ≡ ok (value, rest)
    → length rest < length bytes

-- Where reading an element consumes bytes, the loop over the certificates does not run out of fuel:
-- any fuel above the length gives the same result.
certs_in_enough :
    (pem : PemCrypto) (asn1 : Asn1)
    → Shortens asn1
    → (n m : ℕ) (bytes : List ℕ) → length bytes < n
    → length bytes < m
    → certs_in pem asn1 n bytes ≡ certs_in pem asn1 m bytes
unfolding certs_in
certs_in_enough pem asn1 shortens zero m bytes left right = absurd (omega arith)
certs_in_enough pem asn1 shortens (suc n) zero bytes left right = absurd (omega arith)
certs_in_enough pem asn1 shortens (suc n) (suc m) [] left right = refl
certs_in_enough pem asn1 shortens (suc n) (suc m) (byte ∷ bytes) left right =
    elim (Result-cases (asn1.unmarshal_value (byte ∷ bytes))) [
      | inl (e, p) ↦ rw (p, certs_in) refl
      | inr ((value, rest), p) ↦
          let shorter = shortens (byte ∷ bytes) rest value p in
          rw (p, certs_in, certs_in_enough pem asn1 shortens n m rest (omega arith) (omega arith))
            refl
    ]
