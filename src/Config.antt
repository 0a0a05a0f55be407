-- ===== src/Config.antt =====
-- pkg/config/config.go: the configuration, without the fields that only logging and the telemetry
-- exporters read. A duration is its number of nanoseconds; `labels` is the map, as a list.
pub mod Defaults
pub mod Validate
pub mod Load
use est_service.Prelude.{Bool, List, Option, Result, String, ℤ}

-- `TLSConfig`
pub record TlsConfig : Type 0 where
  pub cert_file : String
  pub key_file : String
  pub client_ca_file : String
  pub client_auth_type : String

-- `RateLimitConfig`
pub record RateLimitConfig : Type 0 where
  pub enabled : Bool
  pub requests_per_second : ℤ
  pub burst : ℤ
  pub trusted_proxy_cidrs : List String
  pub auth_requests_per_second : ℤ
  pub auth_burst : ℤ

-- `ServerConfig`
pub record ServerConfig : Type 0 where
  pub listen_address : String
  pub tls : TlsConfig
  pub rate_limit : RateLimitConfig
  pub internal_endpoints_auth : Option Bool
  pub read_timeout : ℤ
  pub write_timeout : ℤ
  pub idle_timeout : ℤ

-- `BackendConfig`
pub record BackendConfig : Type 0 where
  pub kind : String
  pub address : String
  pub token : String
  pub token_file : String
  pub client_cert : String
  pub client_key : String
  pub timeout : ℤ
  pub max_retries : ℤ
  pub min_retry_wait : ℤ
  pub max_retry_wait : ℤ

-- `LabelConfig` and `PolicyConfig`
pub record PolicyConfig : Type 0 where
  pub kind : String
  pub value : String
  pub ttl : String

-- `UserpassAuthConfig`, `LDAPAuthConfig` and `AppRoleAuthConfig`
pub record MountAuthConfig : Type 0 where
  pub enabled : Bool
  pub mount_path : String

-- `CertAuthConfig`
pub record CertAuthConfig : Type 0 where
  pub enabled : Bool
  pub mount_path : String
  pub cert_role : String
  pub entity_alias_prefix : String
  pub token_ttl : String

-- `AuthenticatorsConfig`; `token` is the flag of `TokenAuthConfig`
pub record AuthenticatorsConfig : Type 0 where
  pub userpass : MountAuthConfig
  pub ldap : MountAuthConfig
  pub app_role : MountAuthConfig
  pub cert : CertAuthConfig
  pub token : Bool

-- `ServerKeyGenConfig`
pub record ServerKeyGenConfig : Type 0 where
  pub enabled : Bool
  pub default_key_type : String
  pub default_key_size : ℤ
  pub allowed_key_types : List String
  pub allowed_key_sizes : List ℤ
  pub max_csr_size : ℤ
  pub encrypt_private_key : Bool
  pub use_openbao_transit : Bool
  pub transit_mount : String

-- `ESTConfig`, with the fields of `CSRValidationConfig`
pub record EstConfig : Type 0 where
  pub default_mount : String
  pub labels : List (String × PolicyConfig)
  pub default_policy : PolicyConfig
  pub authenticators : AuthenticatorsConfig
  pub max_size_bytes : ℤ
  pub allowed_signature_algorithms : List String
  pub csr_attributes_enabled : Bool
  pub csr_attributes : List String
  pub server_key_gen : ServerKeyGenConfig

-- `LoggingConfig` and `AuditConfig`
pub record OutputConfig : Type 0 where
  pub enabled : Bool
  pub level : String
  pub format : String
  pub stdout : Option Bool
  pub file : String

-- `ObservabilityConfig`, with the fields of `MetricsConfig`
pub record ObservabilityConfig : Type 0 where
  pub metrics_enabled : Bool
  pub prometheus_port : ℤ
  pub logging : OutputConfig
  pub audit : OutputConfig

-- `Config`
pub record Config : Type 0 where
  pub developer_mode : Bool
  pub server : ServerConfig
  pub backend : BackendConfig
  pub est : EstConfig
  pub observability : ObservabilityConfig

-- The operating system, the YAML parser, and the parts of Go's time package that loading uses.
pub record Host : Type 0 where
  pub getenv : String → String
  pub read_file : String → Result String
  pub expand_env : String → String
  pub unmarshal : String → Result Config
  pub parse_duration : String → Result ℤ
  pub duration_text : ℤ → String
