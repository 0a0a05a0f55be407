-- ===== src/Est/Reenroll/Laws.antt =====
-- When a request may renew a certificate.
use mathlib.Core.List.{map, Memᴰ, Perm}
use est_service.Est.Slices.Multiset.{length-Perm, string_slices_equal_iff}
use est_service.Est.Slices.{slices_equal_by}
use est_service.Prelude.{
  =ℕ=_iff, Bool-cases, List, Result-cases, String, [], any, arith, eq_iff, inl, inr, length,
  length-map, list_eq, list_eq_iff, ok, refl, sym, true, ℕ, ◌↔◌, ◌∷◌, ◌≡◌, ◌⊎◌,
}
use est_service.X509.{Certificate, CertificateRequest, Crypto}
use est_service.Est.Reenroll.{
  oid_change_subject_name, oid_equal, same_bytes, validate_csr_matches_certificate,
  validate_reenrollment_subject, validate_subject_alt_name_match,
}

same_bytes_iff : (a b : List ℕ) → length a ≡ length b → (same_bytes a b ≡ true) ↔ (a ≡ b)
unfolding same_bytes
same_bytes_iff [] [] h = ground arith
same_bytes_iff [] (y ∷ ys) h = absurd (omega arith)
same_bytes_iff (x ∷ xs) [] h = absurd (omega arith)
same_bytes_iff (x ∷ xs) (y ∷ ys) h = ground (arith, same_bytes_iff xs ys (omega arith), =ℕ=_iff x y)

slices_equal_by_iff :
    (text : List ℕ → String) (a b : List (List ℕ))
    → (slices_equal_by text a b ≡ true) ↔ Perm (map text a) (map text b)
unfolding slices_equal_by
slices_equal_by_iff text a b = (
  λ h. (string_slices_equal_iff _ _).0 (ground arith),
  λ p. ground (
    arith,
    (string_slices_equal_iff _ _).1 p,
    length-Perm p,
    length-map text a,
    length-map text b,
  ),
)

any-oid_equal_sound :
    (oid : List ℕ) (oids : List (List ℕ)) → any (λ a. oid_equal a oid) oids ≡ true → Memᴰ oid oids
unfolding oid_equal
any-oid_equal_sound oid [] h = cc
any-oid_equal_sound oid (o ∷ oids) h = elim (Bool-cases (list_eq o oid)) [
  | inl same ↦ Memᴰ.head (sym ((list_eq_iff o oid).0 same))
  | inr other ↦ Memᴰ.tail (any-oid_equal_sound oid oids (rw other at h))
]

any-oid_equal_complete :
    (oid : List ℕ) (oids : List (List ℕ)) → Memᴰ oid oids → any (λ a. oid_equal a oid) oids ≡ true
unfolding oid_equal
any-oid_equal_complete oid [] m = elim m [ ]
any-oid_equal_complete oid (o ∷ oids) (Memᴰ.head p) = rw ((list_eq_iff o oid).1 (sym p))
any-oid_equal_complete oid (o ∷ oids) (Memᴰ.tail m) =
    ground (arith, any-oid_equal_complete oid oids m)

-- What RFC 7030 asks of the names in a request for renewal.
pub record SameNames (crypto : Crypto) (csr : CertificateRequest) (cert : Certificate)
    : Type 0 where
  pub subject : csr.subject ≡ cert.subject
  pub dns_names : Perm csr.dns_names cert.dns_names
  pub email_addresses : Perm csr.email_addresses cert.email_addresses
  pub ip_addresses :
      Perm (map crypto.ip_text csr.ip_addresses) (map crypto.ip_text cert.ip_addresses)
  pub uris : Perm (map crypto.uri_text csr.uris) (map crypto.uri_text cert.uris)

module _ (crypto : Crypto) (csr : CertificateRequest) (cert : Certificate) where
  -- A request passes the key check exactly if both keys are marshalled, to the same bytes.
  pub validate_csr_matches_certificate_iff :
      (validate_csr_matches_certificate crypto csr cert ≡ ok tt) ↔ (
        (key : List ℕ) × (crypto.marshal_pkix csr.public_key ≡ ok key)
        × (crypto.marshal_pkix cert.public_key ≡ ok key))
  unfolding validate_csr_matches_certificate
  validate_csr_matches_certificate_iff = (
    λ h. elim (Result-cases (crypto.marshal_pkix csr.public_key)) [
      | inl (e, p) ↦ ground (arith, p)
      | inr (k, p) ↦ elim (Result-cases (crypto.marshal_pkix cert.public_key)) [
        | inl (e, q) ↦ ground (arith, p, q)
        | inr (l, q) ↦
            let same : k ≡ l =
              (same_bytes_iff k l (ground (arith, p, q))).0 (ground (arith, p, q)) in
            (k, p, rw same q)
      ]
    ],
    λ h. rw (h.1, h.2) (ground (arith, same_bytes_iff h.0 h.0 refl)),
  )

  san_iff : (validate_subject_alt_name_match crypto csr cert ≡ ok tt) ↔ (
      Perm csr.dns_names cert.dns_names
      × Perm csr.email_addresses cert.email_addresses
      × Perm (map crypto.ip_text csr.ip_addresses) (map crypto.ip_text cert.ip_addresses)
      × Perm (map crypto.uri_text csr.uris) (map crypto.uri_text cert.uris))
  unfolding validate_subject_alt_name_match
  san_iff =
      let dns = string_slices_equal_iff csr.dns_names cert.dns_names in
      let email = string_slices_equal_iff csr.email_addresses cert.email_addresses in
      let ip = slices_equal_by_iff crypto.ip_text csr.ip_addresses cert.ip_addresses in
      let uri = slices_equal_by_iff crypto.uri_text csr.uris cert.uris in
      (
        λ h. (
          dns.0 (ground arith),
          email.0 (ground arith),
          ip.0 (ground arith),
          uri.0 (ground arith),
        ),
        λ h. rw (dns.1 h.0, email.1 h.1, ip.1 h.2, uri.1 h.3),
      )

  -- A request passes the subject check exactly if it carries the attribute ChangeSubjectName, or
  -- its subject is the certificate's and its names are the certificate's up to order.
  pub validate_reenrollment_subject_iff :
      (validate_reenrollment_subject crypto csr cert ≡ ok tt)
      ↔ (Memᴰ oid_change_subject_name csr.attributes ⊎ SameNames crypto csr cert)
  unfolding validate_reenrollment_subject
  validate_reenrollment_subject_iff = (
    λ h. elim (Bool-cases (any (λ attr. oid_equal attr oid_change_subject_name) csr.attributes)) [
      | inl asked ↦ inl (any-oid_equal_sound _ csr.attributes asked)
      | inr silent ↦
          let names = san_iff.0 (ground (arith, silent)) in
          inr (record {
            subject = (eq_iff _ _).0 (ground (arith, silent));
            dns_names = names.0;
            email_addresses = names.1;
            ip_addresses = names.2;
            uris = names.3;
          })
    ],
    λ h. elim h [
      | inl asked ↦ rw (any-oid_equal_complete _ csr.attributes asked)
      | inr s ↦ ground (
        arith,
        (eq_iff _ _).1 s.subject,
        san_iff.1 (s.dns_names, s.email_addresses, s.ip_addresses, s.uris),
      )
    ],
  )
