-- ===== src/Config/Defaults.antt =====
-- `applyDefaults` of pkg/config/loader.go, a function for each part of the configuration.
pub mod Laws
use est_service.Prelude.{
  Bool, List, Option, Result, String, [], context, eq_ℤ, if◌then◌else◌, none, not, ok, pos, some,
  trim_space, true, ℕ, ℤ, ◌&&◌, ◌*◌, ◌==◌, ◌>>=◌, ◌∷◌,
}
use est_service.Config.{
  BackendConfig, CertAuthConfig, Config, EstConfig, Host, ObservabilityConfig, RateLimitConfig,
  ServerConfig,
}

unfoldable pub default_text : String → String → String
default_text s d = if s == "" then d else s

unfoldable pub default_int : ℤ → ℤ → ℤ
default_int n d = if eq_ℤ n (pos 0) then d else n

unfoldable pub default_flag : Option Bool → Bool → Option Bool
default_flag none d = some d
default_flag (some x) d = some x

unfoldable pub default_list : List String → List String → List String
default_list [] d = d
default_list (x ∷ xs) d = x ∷ xs

-- time.Second
abbrev second : ℕ
second = 1000000000

-- `defaultCSRMaxSizeBytes`
abbrev pub default_csr_max_size : ℕ
default_csr_max_size = 64 * 1024

-- `defaultAllowedSignatureAlgorithms`
abbrev pub default_allowed_signature_algorithms : List String
default_allowed_signature_algorithms =
    "SHA256WithRSA" ∷ "SHA384WithRSA" ∷ "SHA512WithRSA" ∷ "ECDSAWithSHA256" ∷ "ECDSAWithSHA384"
    ∷ "ECDSAWithSHA512" ∷ []

-- `getEnvWithFallback`
unfoldable pub get_env_with_fallback : Host → List String → String
get_env_with_fallback host [] = ""
get_env_with_fallback host (key ∷ keys) =
    let rest = get_env_with_fallback host keys in
    let value = host.getenv key in if value == "" then rest else value

unfoldable pub default_rate_limit : RateLimitConfig → RateLimitConfig
default_rate_limit c = record c {
  requests_per_second = default_int c.requests_per_second (pos 100);
  burst = default_int c.burst (pos 200);
  auth_requests_per_second =
      if c.enabled
      then default_int c.auth_requests_per_second (pos 10)
      else c.auth_requests_per_second;
  auth_burst = if c.enabled then default_int c.auth_burst (pos 5) else c.auth_burst;
}

unfoldable pub default_server : Bool → ServerConfig → ServerConfig
default_server developer_mode c = record c {
  listen_address = default_text c.listen_address "0.0.0.0:8443";
  read_timeout = default_int c.read_timeout (pos (15 * second));
  write_timeout = default_int c.write_timeout (pos (15 * second));
  idle_timeout = default_int c.idle_timeout (pos (60 * second));
  internal_endpoints_auth = default_flag c.internal_endpoints_auth (not developer_mode);
  rate_limit = default_rate_limit c.rate_limit;
}

-- The values of the environment variables, where they are set.
unfoldable pub with_env_address : String → BackendConfig → BackendConfig
with_env_address address c = if address == "" then c else record c { address = address }

unfoldable pub with_env_token : String → BackendConfig → BackendConfig
with_env_token token c = if token == "" then c else record c { token = token; token_file = "" }

-- The token from its file, where there is no other.
unfoldable pub read_token : Host → BackendConfig → Result BackendConfig
read_token host c =
    if not (c.token_file == "") && c.token == ""
    then (do
      text ← context "failed to read token file: " (host.read_file c.token_file)
      ok (record c { token = trim_space text }))
    else ok c

unfoldable pub complete_backend : Host → String → String → BackendConfig → Result BackendConfig
complete_backend host env_address env_token c = do
  c' ← read_token host (with_env_token env_token (with_env_address env_address c))
  ok (record c' { timeout = default_int c'.timeout (pos (30 * second)) })

unfoldable pub default_backend : Host → BackendConfig → Result BackendConfig
default_backend host c =
    complete_backend host (get_env_with_fallback host ("BAO_ADDR" ∷ "OPENBAO_ADDR" ∷ []))
      (get_env_with_fallback host ("BAO_TOKEN" ∷ "OPENBAO_TOKEN" ∷ [])) c

unfoldable pub default_cert : CertAuthConfig → CertAuthConfig
default_cert c = record c {
  entity_alias_prefix =
      if c.enabled then default_text c.entity_alias_prefix "est-cert-" else c.entity_alias_prefix;
  token_ttl = if c.enabled then default_text c.token_ttl "24h" else c.token_ttl;
}

unfoldable pub default_est : EstConfig → EstConfig
default_est c = record c {
  authenticators = record c.authenticators { cert = default_cert c.authenticators.cert };
  max_size_bytes = default_int c.max_size_bytes (pos default_csr_max_size);
  allowed_signature_algorithms =
      default_list c.allowed_signature_algorithms default_allowed_signature_algorithms;
}

unfoldable pub default_port : ℤ → Bool → ℤ
default_port n enabled = if eq_ℤ n (pos 0) && enabled then pos 9090 else n

unfoldable pub default_observability : ObservabilityConfig → ObservabilityConfig
default_observability c = record c {
  prometheus_port = default_port c.prometheus_port c.metrics_enabled;
  logging = record c.logging {
    level = default_text c.logging.level "info";
    format = default_text c.logging.format "json";
    stdout = default_flag c.logging.stdout true;
  };
  audit = record c.audit { stdout = default_flag c.audit.stdout true };
}

-- `applyDefaults`
unfoldable pub apply_defaults : Host → Config → Result Config
apply_defaults host c = do
  backend ← default_backend host c.backend
  ok (record c {
    server = default_server c.developer_mode c.server;
    backend = backend;
    est = default_est c.est;
    observability = default_observability c.observability;
  })
