-- ===== src/Config/Defaults/Laws.antt =====
-- What the defaults make sure of, and that they can be applied twice.
use est_service.Prelude.{
  Bool, Bool-cases, GoError, List, Option, Result-cases, String, [], ap, arith, bind_ok, err,
  err≢ok, false, if◌then◌else◌, inl, inr, none, not, ok, ok_injective, pos, refl, some, sym,
  trim_space, true, wrap, ℤ, ◌*◌, ◌==◌, ◌||◌, ◌∙◌, ◌∷◌, ◌≡◌, ◌≢◌,
}
use est_service.Config.{
  BackendConfig, CertAuthConfig, Config, EstConfig, Host, ObservabilityConfig, RateLimitConfig,
  ServerConfig,
}
use est_service.Config.Defaults.{
  apply_defaults, complete_backend, default_allowed_signature_algorithms, default_backend,
  default_cert, default_csr_max_size, default_est, default_flag, default_int, default_list,
  default_observability, default_port, default_rate_limit, default_server, default_text,
  get_env_with_fallback, read_token, second, with_env_address, with_env_token,
}

default_list-nonempty :
    (xs : List String) → default_list xs default_allowed_signature_algorithms ≢ []
unfolding default_list
default_list-nonempty [] h = cc
default_list-nonempty (x ∷ xs) h = cc

-- The defaults leave no empty list of allowed algorithms.
pub apply_defaults-algorithms :
    (host : Host) (cfg cfg' : Config)
    → apply_defaults host cfg ≡ ok cfg'
    → cfg'.est.allowed_signature_algorithms ≢ []
unfolding apply_defaults default_est
apply_defaults-algorithms host cfg cfg' h =
    let (backend, _, h') = bind_ok (default_backend host cfg.backend) h in
    rw (← ok_injective h') (default_list-nonempty cfg.est.allowed_signature_algorithms)

default_text-twice : (s d : String) → default_text (default_text s d) d ≡ default_text s d
unfolding default_text
default_text-twice s d = ground arith

default_int-twice : (n d : ℤ) → default_int (default_int n d) d ≡ default_int n d
unfolding default_int
default_int-twice n d = ground arith

default_flag-twice :
    (x : Option Bool) (d : Bool) → default_flag (default_flag x d) d ≡ default_flag x d
unfolding default_flag
default_flag-twice none d = refl
default_flag-twice (some x) d = refl

default_list-twice :
    (xs : List String)
    → default_list
        (default_list xs default_allowed_signature_algorithms)
        default_allowed_signature_algorithms
      ≡ default_list xs default_allowed_signature_algorithms
unfolding default_list
default_list-twice [] = refl
default_list-twice (x ∷ xs) = refl

default_rate_limit-twice :
    (c : RateLimitConfig) → default_rate_limit (default_rate_limit c) ≡ default_rate_limit c
unfolding default_rate_limit
default_rate_limit-twice c = elim (Bool-cases c.enabled) [
  | inl p ↦
      rw
        (
          p,
          default_int-twice c.requests_per_second (pos 100),
          default_int-twice c.burst (pos 200),
          default_int-twice c.auth_requests_per_second (pos 10),
          default_int-twice c.auth_burst (pos 5),
        )
        refl
  | inr p ↦
      rw (p, default_int-twice c.requests_per_second (pos 100), default_int-twice c.burst (pos 200))
        refl
]

default_server-twice :
    (mode : Bool) (c : ServerConfig)
    → default_server mode (default_server mode c) ≡ default_server mode c
unfolding default_server
default_server-twice mode c =
    rw
      (
        default_text-twice c.listen_address "0.0.0.0:8443",
        default_int-twice c.read_timeout (pos (15 * second)),
        default_int-twice c.idle_timeout (pos (60 * second)),
        default_int-twice c.write_timeout (pos (15 * second)),
        default_flag-twice c.internal_endpoints_auth (not mode),
        default_rate_limit-twice c.rate_limit,
      )
      refl

default_cert-twice : (c : CertAuthConfig) → default_cert (default_cert c) ≡ default_cert c
unfolding default_cert
default_cert-twice c = elim (Bool-cases c.enabled) [
  | inl p ↦
      rw
        (
          p,
          default_text-twice c.entity_alias_prefix "est-cert-",
          default_text-twice c.token_ttl "24h",
        )
        refl
  | inr p ↦ rw p refl
]

default_est-twice : (c : EstConfig) → default_est (default_est c) ≡ default_est c
unfolding default_est
default_est-twice c =
    rw
      (
        default_cert-twice c.authenticators.cert,
        default_int-twice c.max_size_bytes (pos default_csr_max_size),
        default_list-twice c.allowed_signature_algorithms,
      )
      refl

default_port-twice :
    (n : ℤ) (enabled : Bool)
    → default_port (default_port n enabled) enabled ≡ default_port n enabled
unfolding default_port
default_port-twice n enabled = ground arith

default_observability-twice :
    (c : ObservabilityConfig)
    → default_observability (default_observability c) ≡ default_observability c
unfolding default_observability
default_observability-twice c =
    rw
      (
        default_text-twice c.logging.level "info",
        default_text-twice c.logging.format "json",
        default_flag-twice c.logging.stdout true,
        default_flag-twice c.audit.stdout true,
        default_port-twice c.prometheus_port c.metrics_enabled,
      )
      refl

module _ (host : Host) (address token : String) where
  abbrev addressed : BackendConfig → BackendConfig
  addressed c = record c {
    address = if address == "" then c.address else address;
    timeout = default_int c.timeout (pos (30 * second));
  }

  addressed-twice : (c : BackendConfig) → addressed (addressed c) ≡ addressed c
  addressed-twice c = elim (Bool-cases (address == "")) [
    | inl p ↦ rw (p, default_int-twice c.timeout (pos (30 * second))) refl
    | inr p ↦ rw (p, default_int-twice c.timeout (pos (30 * second))) refl
  ]

  -- With a token from the environment, no file is read.
  complete_backend-given :
      (c : BackendConfig)
      → token == "" ≡ false
      → complete_backend host address token c
        ≡ ok (addressed (record c { token = token; token_file = "" }))
  unfolding complete_backend with_env_token with_env_address read_token
  complete_backend-given c h = ground (arith, h)

  -- A token that the configuration has is kept.
  complete_backend-kept :
      (c : BackendConfig)
      → token == "" ≡ true
      → (c.token_file == "" || not (c.token == "")) ≡ true
      → complete_backend host address token c ≡ ok (addressed c)
  unfolding complete_backend with_env_token with_env_address read_token
  complete_backend-kept c h k = ground (arith, h, k)

  complete_backend-read :
      (c : BackendConfig) (text : String)
      → token == "" ≡ true
      → c.token_file == "" ≡ false
      → c.token == "" ≡ true
      → host.read_file c.token_file ≡ ok text
      → complete_backend host address token c
        ≡ ok (addressed (record c { token = trim_space text }))
  unfolding complete_backend with_env_token with_env_address read_token
  complete_backend-read c text h f t r = ground (arith, h, f, t, r)

  complete_backend-unread :
      (c : BackendConfig) (e : GoError)
      → token == "" ≡ true
      → c.token_file == "" ≡ false
      → c.token == "" ≡ true
      → host.read_file c.token_file ≡ err e
      → complete_backend host address token c ≡ err (wrap "failed to read token file: " e)
  unfolding complete_backend with_env_token with_env_address read_token
  complete_backend-unread c e h f t r = ground (arith, h, f, t, r)

  complete_backend-reread :
      (c c' : BackendConfig) (text : String)
      → token == "" ≡ true
      → c.token_file == "" ≡ false
      → c.token == "" ≡ true
      → host.read_file c.token_file ≡ ok text
      → complete_backend host address token c ≡ ok c'
      → complete_backend host address token c' ≡ ok c'
  complete_backend-reread c c' text absent file empty read h =
      let c1 = record c { token = trim_space text } in
      let e = ok_injective (sym (complete_backend-read c text absent file empty read) ∙ h) in
      elim (Bool-cases (trim_space text == "")) [
        | inl blank ↦ rw (← e) (
            complete_backend-read (addressed c1) text absent file blank read
            ∙ ap ok (addressed-twice c1))
        | inr some' ↦ rw (← e) (
            complete_backend-kept (addressed c1) absent (ground (arith, file, some'))
            ∙ ap ok (addressed-twice c1))
      ]

  complete_backend-twice :
      (c c' : BackendConfig)
      → complete_backend host address token c ≡ ok c'
      → complete_backend host address token c' ≡ ok c'
  complete_backend-twice c c' h = elim (Bool-cases (token == "")) [
    | inr given ↦
        let c1 = record c { token = token; token_file = "" } in
        let e = ok_injective (sym (complete_backend-given c given) ∙ h) in
        rw (← e) (complete_backend-given (addressed c1) given ∙ ap ok (addressed-twice c1))
    | inl absent ↦ elim (Bool-cases (c.token_file == "" || not (c.token == ""))) [
      | inl keeps ↦
          let e = ok_injective (sym (complete_backend-kept c absent keeps) ∙ h) in
          rw (← e) (complete_backend-kept (addressed c) absent keeps ∙ ap ok (addressed-twice c))
      | inr reads ↦
          let file : c.token_file == "" ≡ false = ground (arith, reads) in
          let empty : c.token == "" ≡ true = ground (arith, reads) in
          elim (Result-cases (host.read_file c.token_file)) [
            | inl (e, p) ↦
                absurd (err≢ok (sym (complete_backend-unread c e absent file empty p) ∙ h))
            | inr (text, p) ↦ complete_backend-reread c c' text absent file empty p h
          ]
    ]
  ]

-- Applying the defaults to a configuration that has them changes nothing, on the same host.
pub apply_defaults-twice :
    (host : Host) (cfg cfg' : Config)
    → apply_defaults host cfg ≡ ok cfg'
    → apply_defaults host cfg' ≡ ok cfg'
unfolding apply_defaults default_backend
apply_defaults-twice host cfg cfg' h =
    let (backend, b, h') = bind_ok (default_backend host cfg.backend) h in
    let again =
      complete_backend-twice host (get_env_with_fallback host ("BAO_ADDR" ∷ "OPENBAO_ADDR" ∷ []))
        (get_env_with_fallback host ("BAO_TOKEN" ∷ "OPENBAO_TOKEN" ∷ [])) cfg.backend backend b in
    rw (← ok_injective h') (
      rw
        (
          again,
          default_server-twice cfg.developer_mode cfg.server,
          default_est-twice cfg.est,
          default_observability-twice cfg.observability,
        )
        refl)
