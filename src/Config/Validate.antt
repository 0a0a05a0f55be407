-- ===== src/Config/Validate.antt =====
-- `validate` of pkg/config/loader.go, a function for each group of its checks, in their order. The
-- labels are tried in the list's order; Go's order is not fixed, which only shows in the error.
pub mod Laws
use Prim.Native.String.{◌++◌}
use est_service.Prelude.{
  Bool, List, Option, Result, String, [], any, codes, err, errorf, false, if◌then◌else◌, itoa, len,
  list_eq, lower_trimmed, ltb, ltb_ℤ, negsuc, none, not, ok, pos, require, some, true,
  upper_trimmed, ℕ, ℤ, ◌&&◌, ◌*◌, ◌+◌, ◌==◌, ◌>>=◌, ◌>>◌, ◌||◌, ◌∷◌,
}
use est_service.Config.{
  BackendConfig, CertAuthConfig, Config, Host, ObservabilityConfig, PolicyConfig,
  ServerKeyGenConfig, TlsConfig,
}

unfoldable pub integer_text : ℤ → String
integer_text (pos n) = itoa n
integer_text (negsuc n) = "-" ++ itoa (n + 1)

unfoldable pub check_credentials : BackendConfig → Result (Unit {0})
check_credentials c =
    require (not (c.address == "")) (errorf "backend.address is required")
    >> require
        ((not (c.token == "") || not (c.token_file == ""))
          || (not (c.client_cert == "") && not (c.client_key == "")))
        (errorf "backend authentication required: set token/token_file OR client_cert/client_key")

unfoldable pub check_retries : Host → BackendConfig → Result (Unit {0})
check_retries host c =
    require (not (ltb_ℤ c.max_retries (pos 0)))
      (errorf ("backend.max_retries must be >= 0, got " ++ integer_text c.max_retries))
    >> require (not (ltb_ℤ c.min_retry_wait (pos 0))) (
        errorf ("backend.min_retry_wait must be >= 0, got " ++ host.duration_text c.min_retry_wait))
    >> require (not (ltb_ℤ c.max_retry_wait (pos 0))) (
        errorf ("backend.max_retry_wait must be >= 0, got " ++ host.duration_text c.max_retry_wait))
    >> require
        (not (
          ltb_ℤ (pos 0) c.min_retry_wait
          && ltb_ℤ (pos 0) c.max_retry_wait
          && ltb_ℤ c.max_retry_wait c.min_retry_wait))
        (errorf (
          "backend.min_retry_wait ("
          ++ host.duration_text c.min_retry_wait
          ++ ") cannot be greater than max_retry_wait ("
          ++ host.duration_text c.max_retry_wait
          ++ ")"))
    >> require (not (ltb_ℤ c.timeout (pos 0)))
        (errorf ("backend.timeout must be >= 0, got " ++ host.duration_text c.timeout))

-- The type, which in lower case and without spaces must be "openbao", and becomes it.
unfoldable pub check_kind : BackendConfig → Result BackendConfig
check_kind c =
    if c.kind == ""
    then ok c
    else if list_eq (lower_trimmed c.kind) (codes "openbao")
    then ok (record c { kind = "openbao" })
    else err (errorf "backend.type must be 'openbao' when specified")

-- A TTL that Go cannot parse must still have two bytes, which `len` counts.
unfoldable pub check_ttl : Host → String → Result (Unit {0})
check_ttl host ttl = elim (host.parse_duration ttl) [
  | ok _ ↦ ok tt
  | err _ ↦
      require (not (ltb (len ttl) 2))
        (errorf "est.authenticators.cert.token_ttl must be a valid duration (e.g., '24h', '30d')")
]

unfoldable pub check_cert : Host → CertAuthConfig → Result (Unit {0})
check_cert host c =
    if c.enabled
    then require (not (c.entity_alias_prefix == "")) (
        errorf
          "est.authenticators.cert.entity_alias_prefix cannot be empty when cert auth is enabled")
      >> require (not (c.token_ttl == ""))
          (errorf "est.authenticators.cert.token_ttl cannot be empty when cert auth is enabled")
      >> check_ttl host c.token_ttl
    else ok tt

-- TLS, outside of developer mode.
unfoldable pub check_tls : Bool → TlsConfig → Result (Unit {0})
check_tls developer_mode c =
    require (developer_mode || not (c.cert_file == "" || c.key_file == "")) (
      errorf
        "TLS must be enabled in production mode. Set tls.cert_file and tls.key_file, or use developer_mode: true only for local testing (NOT recommended for production)")

unfoldable pub one_of : String → List String → Bool
one_of s [] = false
one_of s (x ∷ xs) = s == x || one_of s xs

-- A client authentication that is not known becomes "none".
unfoldable pub with_client_auth : TlsConfig → TlsConfig
with_client_auth c =
    if one_of c.client_auth_type ("none" ∷ "request" ∷ "require" ∷ [])
    then c
    else record c { client_auth_type = "none" }

-- The flag, or true where it is not set.
unfoldable pub flag_or_true : Option Bool → Bool
flag_or_true none = true
flag_or_true (some x) = x

unfoldable pub check_outputs : ObservabilityConfig → Result (Unit {0})
check_outputs c =
    require (one_of c.logging.level ("debug" ∷ "info" ∷ "warn" ∷ "error" ∷ []))
      (errorf ("invalid logging level: " ++ c.logging.level))
    >> require (one_of c.logging.format ("json" ∷ "text" ∷ []))
        (errorf ("invalid logging format: " ++ c.logging.format))
    >> require (not (not (flag_or_true c.logging.stdout) && c.logging.file == "")) (
        errorf
          "logging requires at least one output: set observability.logging.stdout=true or observability.logging.file")
    >> require (not (c.audit.enabled && not (flag_or_true c.audit.stdout) && c.audit.file == "")) (
        errorf
          "audit logging requires at least one output: set observability.audit.stdout=true or observability.audit.file")

unfoldable pub check_labels : List (String × PolicyConfig) → Result (Unit {0})
check_labels [] = ok tt
check_labels ((label, policy) ∷ labels) =
    require (policy.kind == "role" || policy.kind == "sign-verbatim")
      (errorf ("label " ++ label ++ ": type must be 'role' or 'sign-verbatim'"))
    >> require (not (policy.kind == "role" && policy.value == ""))
        (errorf ("label " ++ label ++ ": value is required when type is 'role'"))
    >> check_labels labels

-- `absoluteMaxCSRSizeBytes` and `absoluteMinCSRSizeBytes`
abbrev pub absolute_max_csr_size : ℕ
absolute_max_csr_size = 128 * 1024

abbrev pub absolute_min_csr_size : ℕ
absolute_min_csr_size = 1024

unfoldable pub check_size : ℤ → Result (Unit {0})
check_size n =
    require (not (ltb_ℤ (pos absolute_max_csr_size) n)) (
      errorf (
        "csr_validation.max_size_bytes cannot exceed 131072 bytes (128KB), got " ++ integer_text n))
    >> require (not (ltb_ℤ n (pos absolute_min_csr_size))) (
        errorf (
          "csr_validation.max_size_bytes must be at least 1024 bytes (1KB), got "
          ++ integer_text n))

-- `isWeakSignatureAlgorithmName`
unfoldable pub is_weak_signature_algorithm_name : String → Bool
is_weak_signature_algorithm_name name =
    any (λ weak. list_eq (upper_trimmed name) (codes weak))
      ("MD5WITHRSA" ∷ "SHA1WITHRSA" ∷ "ECDSAWITHSHA1" ∷ [])

unfoldable pub check_algorithms : List String → Result (Unit {0})
check_algorithms [] = ok tt
check_algorithms (alg ∷ algs) =
    require (not (is_weak_signature_algorithm_name alg))
      (errorf ("csr_validation.allowed_signature_algorithms contains weak algorithm: " ++ alg))
    >> check_algorithms algs

unfoldable pub check_key_gen : ServerKeyGenConfig → Result (Unit {0})
check_key_gen c = require (not (c.enabled && not c.encrypt_private_key)) (
    errorf
      "server_key_gen.enabled requires encrypt_private_key: true for security (private keys must be encrypted during transmission)")

-- `validate`, with the configuration that it leaves
unfoldable pub validate : Host → Config → Result Config
validate host cfg = do
  _ ← check_credentials cfg.backend
  _ ← check_retries host cfg.backend
  backend ← check_kind cfg.backend
  _ ← check_cert host cfg.est.authenticators.cert
  _ ← check_tls cfg.developer_mode cfg.server.tls
  _ ← check_outputs cfg.observability
  _ ← check_labels cfg.est.labels
  _ ← check_size cfg.est.max_size_bytes
  _ ← check_algorithms cfg.est.allowed_signature_algorithms
  _ ← check_key_gen cfg.est.server_key_gen
  ok (record cfg {
    backend = backend;
    server = record cfg.server { tls = with_client_auth cfg.server.tls };
  })
