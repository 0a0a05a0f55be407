-- ===== src/Config/Validate/Laws.antt =====
-- What a validated configuration satisfies.
use Prim.Native.Nat.{◌≤◌}
use est_service.Prelude.{
  All, Bool, Bool-cases, List, String, [], ap, arith, bind_ok, codes, eq_iff, false, if_elim, inl,
  inr, list_eq, lower_trimmed, ltb_ℤ, negsuc, not, ok, ok_injective, pos, refl, true, ℕ, ℤ, ◌&&◌,
  ◌==◌, ◌||◌, ◌∙◌, ◌∷◌, ◌≡◌, ◌≢◌, ◌⊎◌,
}
use est_service.Config.{BackendConfig, Config, Host, PolicyConfig, ServerKeyGenConfig, TlsConfig}
use est_service.Config.Validate.{
  absolute_max_csr_size, absolute_min_csr_size, check_algorithms, check_cert, check_credentials,
  check_key_gen, check_kind, check_labels, check_outputs, check_retries, check_size, check_tls,
  is_weak_signature_algorithm_name, one_of, validate, with_client_auth,
}

-- A label policy that the signing knows.
abbrev pub IsLabel : String × PolicyConfig → Type 0
IsLabel (label, policy) =
    ((policy.kind ≡ "role") × (policy.value ≢ "")) ⊎ (policy.kind ≡ "sign-verbatim")

abbrev pub IsStrong : String → Type 0
IsStrong name = is_weak_signature_algorithm_name name ≡ false

abbrev pub IsInRange : ℤ → Type 0
IsInRange n = (k : ℕ) × (n ≡ pos k) × (absolute_min_csr_size ≤ k) × (k ≤ absolute_max_csr_size)

abbrev pub IsKnownAuth : TlsConfig → Type 0
IsKnownAuth c =
    (c.client_auth_type ≡ "none")
    ⊎ (c.client_auth_type ≡ "request")
    ⊎ (c.client_auth_type ≡ "require")

-- What `validate` makes sure of; `after` is the configuration that it returns.
pub record IsValid (before after : Config) : Type 0 where
  pub address : before.backend.address ≢ ""
  pub retries : (k : ℕ) × (before.backend.max_retries ≡ pos k)
  pub tls :
      (before.developer_mode ≡ true)
      ⊎ ((before.server.tls.cert_file ≢ "") × (before.server.tls.key_file ≢ ""))
  pub client_auth : IsKnownAuth after.server.tls
  pub labels : All IsLabel before.est.labels
  pub size : IsInRange before.est.max_size_bytes
  pub algorithms : All IsStrong before.est.allowed_signature_algorithms
  pub key_gen :
      before.est.server_key_gen.enabled ≡ true
      → before.est.server_key_gen.encrypt_private_key ≡ true
  pub backend_kind : (after.backend.kind ≡ "") ⊎ (after.backend.kind ≡ "openbao")
  pub unchanged : after ≡ record before {
    backend = record before.backend { kind = after.backend.kind };
    server = record before.server {
      tls = record before.server.tls { client_auth_type = after.server.tls.client_auth_type };
    };
  }

check_size-IsInRange : (n : ℤ) → check_size n ≡ ok tt → IsInRange n
unfolding check_size
check_size-IsInRange (pos k) h = (k, refl, ground (arith, h), ground (arith, h))
check_size-IsInRange (negsuc k) h = absurd (ground (arith, h))

check_algorithms-IsStrong :
    (names : List String) → check_algorithms names ≡ ok tt → All IsStrong names
unfolding check_algorithms
check_algorithms-IsStrong [] h = tt
check_algorithms-IsStrong (name ∷ names) h =
    (ground (arith, h), check_algorithms-IsStrong names (ground (arith, h)))

-- A text that the test for "" refuses.
differs : (s t : String) → s == t ≡ false → s ≢ t
differs s t h e = ground (arith, h, (eq_iff s t).1 e)

policy_valid :
    (label : String) (policy : PolicyConfig)
    → (policy.kind == "role" || policy.kind == "sign-verbatim") ≡ true
    → not (policy.kind == "role" && policy.value == "") ≡ true
    → IsLabel (label, policy)
policy_valid label policy known valued = elim (Bool-cases (policy.kind == "role")) [
  | inl role ↦ inl ((eq_iff _ _).0 role, differs policy.value "" (ground (arith, role, valued)))
  | inr other ↦ inr ((eq_iff _ _).0 (ground (arith, other, known)))
]

check_labels-IsLabel :
    (labels : List (String × PolicyConfig)) → check_labels labels ≡ ok tt → All IsLabel labels
unfolding check_labels
check_labels-IsLabel [] h = tt
check_labels-IsLabel ((label, policy) ∷ labels) h = (
  policy_valid label policy (ground (arith, h)) (ground (arith, h)),
  check_labels-IsLabel labels (ground (arith, h)),
)

check_credentials-address : (c : BackendConfig) → check_credentials c ≡ ok tt → c.address ≢ ""
unfolding check_credentials
check_credentials-address c h = differs c.address "" (ground (arith, h))

natural_of : (n : ℤ) → ltb_ℤ n (pos 0) ≡ false → (k : ℕ) × (n ≡ pos k)
natural_of (pos k) h = (k, refl)
natural_of (negsuc k) h = absurd (ground (arith, h))

check_retries-natural :
    (host : Host) (c : BackendConfig)
    → check_retries host c ≡ ok tt
    → (k : ℕ) × (c.max_retries ≡ pos k)
unfolding check_retries
check_retries-natural host c h = natural_of c.max_retries (ground (arith, h))

check_tls-enabled :
    (developer_mode : Bool) (c : TlsConfig)
    → check_tls developer_mode c ≡ ok tt
    → (developer_mode ≡ true) ⊎ ((c.cert_file ≢ "") × (c.key_file ≢ ""))
unfolding check_tls
check_tls-enabled true c h = inl refl
check_tls-enabled false c h =
    inr (differs c.cert_file "" (ground (arith, h)), differs c.key_file "" (ground (arith, h)))

with_client_auth-IsKnownAuth : (c : TlsConfig) → IsKnownAuth (with_client_auth c)
unfolding with_client_auth one_of
with_client_auth-IsKnownAuth c =
    let kind = c.client_auth_type in
    if_elim IsKnownAuth (one_of kind ("none" ∷ "request" ∷ "require" ∷ []))
      (λ known. elim (Bool-cases (kind == "none")) [
        | inl a ↦ inl ((eq_iff _ _).0 a)
        | inr a ↦ elim (Bool-cases (kind == "request")) [
          | inl b ↦ inr (inl ((eq_iff _ _).0 b))
          | inr b ↦ inr (inr ((eq_iff _ _).0 (ground (arith, known, a, b))))
        ]
      ])
      (λ _. inl refl)

check_kind-known :
    (c d : BackendConfig)
    → check_kind c ≡ ok d
    → ((d.kind ≡ "") ⊎ (d.kind ≡ "openbao")) × (d ≡ record c { kind = d.kind })
unfolding check_kind
check_kind-known c d h = elim (Bool-cases (c.kind == "")) [
  | inl empty ↦
      let same : c ≡ d = ground (arith, h, empty) in rw (← same) (inl ((eq_iff _ _).0 empty), refl)
  | inr full ↦ elim (Bool-cases (list_eq (lower_trimmed c.kind) (codes "openbao"))) [
    | inl known ↦
        let same : record c { kind = "openbao" } ≡ d = ground (arith, h, full, known) in
        rw (← same) (inr refl, refl)
    | inr other ↦ absurd (ground (arith, h, full, other))
  ]
]

with_client_auth-others :
    (c : TlsConfig)
    → with_client_auth c ≡ record c { client_auth_type = (with_client_auth c).client_auth_type }
unfolding with_client_auth
with_client_auth-others c =
    if_elim (λ (d : TlsConfig). d ≡ record c { client_auth_type = d.client_auth_type })
      (one_of c.client_auth_type ("none" ∷ "request" ∷ "require" ∷ [])) (λ _. refl) (λ _. refl)

check_key_gen-encrypted :
    (c : ServerKeyGenConfig)
    → check_key_gen c ≡ ok tt
    → c.enabled ≡ true
    → c.encrypt_private_key ≡ true
unfolding check_key_gen
check_key_gen-encrypted c h on = ground (arith, h, on)

-- A configuration that is validated has an address and a natural number of retries; outside of
-- developer mode it has TLS; its client authentication is one of three; its label policies are of a
-- known type, with the role that one needs; the limit of a CSR's size is between 1 and 128 KB; no
-- allowed algorithm is weak by name; server-side key generation encrypts the keys; the backend's type
-- is empty or openbao; and nothing but that type and the client authentication differs from the
-- configuration that was validated.
pub validate-IsValid :
    (host : Host) (before after : Config) → validate host before ≡ ok after → IsValid before after
unfolding validate
validate-IsValid host before after h =
    let (_, credentials, h1) = bind_ok (check_credentials before.backend) h in
    let (_, retries, h2) = bind_ok (check_retries host before.backend) h1 in
    let (backend, kind, h3) = bind_ok (check_kind before.backend) h2 in
    let known = check_kind-known before.backend backend kind in
    let (_, _, h4) = bind_ok (check_cert host before.est.authenticators.cert) h3 in
    let (_, tls, h5) = bind_ok (check_tls before.developer_mode before.server.tls) h4 in
    let (_, _, h6) = bind_ok (check_outputs before.observability) h5 in
    let (_, labels, h7) = bind_ok (check_labels before.est.labels) h6 in
    let (_, size, h8) = bind_ok (check_size before.est.max_size_bytes) h7 in
    let (_, algorithms, h9) =
      bind_ok (check_algorithms before.est.allowed_signature_algorithms) h8 in
    let (_, key_gen, h10) = bind_ok (check_key_gen before.est.server_key_gen) h9 in
    let e = ok_injective h10 in
    record {
      address = check_credentials-address before.backend credentials;
      retries = check_retries-natural host before.backend retries;
      tls = check_tls-enabled before.developer_mode before.server.tls tls;
      client_auth = rw (← e) (with_client_auth-IsKnownAuth before.server.tls);
      labels = check_labels-IsLabel before.est.labels labels;
      size = check_size-IsInRange before.est.max_size_bytes size;
      algorithms = check_algorithms-IsStrong before.est.allowed_signature_algorithms algorithms;
      key_gen = check_key_gen-encrypted before.est.server_key_gen key_gen;
      backend_kind = rw (← e) known.0;
      unchanged = rw (← e) (
          ap
            (λ b. record before {
              backend = b;
              server = record before.server { tls = with_client_auth before.server.tls };
            })
            known.1
          ∙ ap
              (λ t. record before {
                backend = record before.backend { kind = backend.kind };
                server = record before.server { tls = t };
              })
              (with_client_auth-others before.server.tls));
    }
