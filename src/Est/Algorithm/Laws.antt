-- ===== src/Est/Algorithm/Laws.antt =====
-- Which requests pass the algorithm check.
use mathlib.Core.List.{Memᴰ}
use est_service.Prelude.{
  =ℕ=_iff, Among, List, Option, String, [], ap, arith, false, get_or, inl, inr, none, ok, refl,
  some, sym, true, ℕ, ◌↔◌, ◌∙◌, ◌∷◌, ◌≡◌, ◌⊎◌,
}
use est_service.X509.{
  CertificateRequest, SignatureAlgorithm, dsa_with_sha1, dsa_with_sha256, ecdsa_with_sha1,
  ecdsa_with_sha256, ecdsa_with_sha384, ecdsa_with_sha512, md2_with_rsa, md5_with_rsa, ordinal,
  pure_ed25519, sha1_with_rsa, sha256_with_rsa, sha256_with_rsa_pss, sha384_with_rsa,
  sha384_with_rsa_pss, sha512_with_rsa, sha512_with_rsa_pss, unknown,
}
use est_service.Est.Algorithm.{
  add_allowed, allowed_set, is_allowed, is_weak_signature_algorithm, parse_signature_algorithm,
  validate_csr_signature_algorithm,
}

abbrev all_algorithms : List SignatureAlgorithm
all_algorithms =
    unknown ∷ md2_with_rsa ∷ md5_with_rsa ∷ sha1_with_rsa ∷ sha256_with_rsa ∷ sha384_with_rsa
    ∷ sha512_with_rsa ∷ dsa_with_sha1 ∷ dsa_with_sha256 ∷ ecdsa_with_sha1 ∷ ecdsa_with_sha256
    ∷ ecdsa_with_sha384 ∷ ecdsa_with_sha512 ∷ sha256_with_rsa_pss ∷ sha384_with_rsa_pss
    ∷ sha512_with_rsa_pss ∷ pure_ed25519 ∷ []

of_ordinal : ℕ → SignatureAlgorithm
of_ordinal n = get_or all_algorithms n unknown

of_ordinal-ordinal : (a : SignatureAlgorithm) → of_ordinal (ordinal a) ≡ a
unfolding of_ordinal
of_ordinal-ordinal unknown = refl
of_ordinal-ordinal md2_with_rsa = refl
of_ordinal-ordinal md5_with_rsa = refl
of_ordinal-ordinal sha1_with_rsa = refl
of_ordinal-ordinal sha256_with_rsa = refl
of_ordinal-ordinal sha384_with_rsa = refl
of_ordinal-ordinal sha512_with_rsa = refl
of_ordinal-ordinal dsa_with_sha1 = refl
of_ordinal-ordinal dsa_with_sha256 = refl
of_ordinal-ordinal ecdsa_with_sha1 = refl
of_ordinal-ordinal ecdsa_with_sha256 = refl
of_ordinal-ordinal ecdsa_with_sha384 = refl
of_ordinal-ordinal ecdsa_with_sha512 = refl
of_ordinal-ordinal sha256_with_rsa_pss = refl
of_ordinal-ordinal sha384_with_rsa_pss = refl
of_ordinal-ordinal sha512_with_rsa_pss = refl
of_ordinal-ordinal pure_ed25519 = refl

ordinal_injective : (a b : SignatureAlgorithm) → ordinal a ≡ ordinal b → a ≡ b
ordinal_injective a b h = sym (of_ordinal-ordinal a) ∙ ap of_ordinal h ∙ of_ordinal-ordinal b

-- Some configured name stands for the algorithm.
abbrev pub Names : SignatureAlgorithm → List String → Type 0
Names alg names = (name : String) × Memᴰ name names × (parse_signature_algorithm name ≡ some alg)

Names-cons :
    {alg : SignatureAlgorithm} {n : String} {ns : List String} → Names alg ns → Names alg (n ∷ ns)
Names-cons (name, m, e) = (name, Memᴰ.tail m, e)

is_allowed-add_allowed :
    (alg : SignatureAlgorithm) (o : Option SignatureAlgorithm) (set : List SignatureAlgorithm)
    → (is_allowed alg (add_allowed o set) ≡ true) ↔ ((o ≡ some alg) ⊎ (is_allowed alg set ≡ true))
unfolding add_allowed
is_allowed-add_allowed alg none set = ground arith
is_allowed-add_allowed alg (some a) set =
    ground (arith, ordinal_injective a alg, =ℕ=_iff (ordinal a) (ordinal alg))

is_allowed_sound :
    (alg : SignatureAlgorithm) (names : List String)
    → is_allowed alg (allowed_set names) ≡ true
    → Names alg names
unfolding allowed_set
is_allowed_sound alg [] h = cc
is_allowed_sound alg (n ∷ ns) h = elim ((is_allowed-add_allowed alg _ _).0 h) [
  | inl e ↦ (n, Memᴰ.head refl, e)
  | inr later ↦ Names-cons (is_allowed_sound alg ns later)
]

is_allowed_complete :
    (alg : SignatureAlgorithm) (name : String) (names : List String)
    → Memᴰ name names
    → parse_signature_algorithm name ≡ some alg
    → is_allowed alg (allowed_set names) ≡ true
unfolding allowed_set
is_allowed_complete alg name [] m e = elim m [ ]
is_allowed_complete alg name (n ∷ ns) (Memᴰ.head p) e =
    (is_allowed-add_allowed alg _ _).1 (inl (rw (← p) e))
is_allowed_complete alg name (n ∷ ns) (Memᴰ.tail m) e =
    (is_allowed-add_allowed alg _ _).1 (inr (is_allowed_complete alg name ns m e))

validate_iff_step :
    (csr : CertificateRequest) (allowed : List String)
    → (validate_csr_signature_algorithm csr allowed ≡ ok tt) ↔ (
        (is_weak_signature_algorithm csr.signature_algorithm ≡ false)
        × ((allowed ≡ []) ⊎ (is_allowed csr.signature_algorithm (allowed_set allowed) ≡ true)))
unfolding validate_csr_signature_algorithm
validate_iff_step csr allowed = ground arith

-- A request's algorithm passes exactly if it is not weak and, where names are configured, one of
-- them stands for it.
pub validate_csr_signature_algorithm_iff :
    (csr : CertificateRequest) (allowed : List String)
    → (validate_csr_signature_algorithm csr allowed ≡ ok tt) ↔ (
        (is_weak_signature_algorithm csr.signature_algorithm ≡ false)
        × ((allowed ≡ []) ⊎ Names csr.signature_algorithm allowed))
validate_csr_signature_algorithm_iff csr allowed =
    let step = validate_iff_step csr allowed in
    let alg = csr.signature_algorithm in
    (
      λ h.
          let (strong, listed) = step.0 h in
          (strong, elim listed [ inl e ↦ inl e | inr p ↦ inr (is_allowed_sound alg allowed p) ]),
      λ h. step.1 (
        h.0,
        elim h.1 [ inl e ↦ inl e | inr p ↦ inr (is_allowed_complete alg p.0 allowed p.1 p.2) ],
      ),
    )

-- A name that the configuration may list never stands for a weak algorithm.
pub parse_signature_algorithm-not_weak :
    (name : String) (alg : SignatureAlgorithm)
    → parse_signature_algorithm name ≡ some alg
    → is_weak_signature_algorithm alg ≡ false
unfolding parse_signature_algorithm
parse_signature_algorithm-not_weak name alg h = ground arith

-- The algorithms that have names.
pub parse_signature_algorithm-Among :
    (name : String) (alg : SignatureAlgorithm)
    → parse_signature_algorithm name ≡ some alg
    → Among (ordinal alg) (4 ∷ 5 ∷ 6 ∷ 10 ∷ 11 ∷ 12 ∷ [])
unfolding parse_signature_algorithm
parse_signature_algorithm-Among name alg h = ground arith
