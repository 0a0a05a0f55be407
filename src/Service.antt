-- ===== src/Service.antt =====
-- cmd/est-service/main.go: the parts of the configuration that the server gets.
pub mod Laws
pub mod Tokens
use mathlib.Core.List.{map}
use est_service.Prelude.{
  Bool, List, String, [], any, codes, false, list_eq, not, to_lower, ◌&&◌, ◌==◌, ◌||◌, ◌∷◌,
}
use est_service.Config.{AuthenticatorsConfig, Config, EstConfig, Host, PolicyConfig}
use est_service.Auth.{AuthConfig}
use est_service.Handlers.Policy.{EnrollmentConfig, LabelPolicy}

-- `authCfg`
unfoldable pub auth_config_of : AuthenticatorsConfig → AuthConfig
auth_config_of c = record {
  userpass_enabled = c.userpass.enabled;
  userpass_mount_path = c.userpass.mount_path;
  ldap_enabled = c.ldap.enabled;
  ldap_mount_path = c.ldap.mount_path;
  app_role_enabled = c.app_role.enabled;
  app_role_mount_path = c.app_role.mount_path;
  cert_enabled = c.cert.enabled;
  cert_mount_path = c.cert.mount_path;
  cert_role = c.cert.cert_role;
  cert_entity_alias_prefix = c.cert.entity_alias_prefix;
  cert_token_ttl = c.cert.token_ttl;
  token_enabled = c.token;
}

-- `handlers.LabelPolicy{Type: …, Value: …, TTL: …}`
abbrev pub policy_of : PolicyConfig → LabelPolicy
policy_of c = record { kind = c.kind; value = c.value; mount = ""; ttl = c.ttl }

-- `enrollmentCfg`
unfoldable pub enrollment_config_of : EstConfig → EnrollmentConfig
enrollment_config_of c = record {
  default_mount = c.default_mount;
  labels = map (λ (label, policy). (label, policy_of policy)) c.labels;
  default_policy = policy_of c.default_policy;
  max_csr_size = c.max_size_bytes;
  allowed_signature_algos = c.allowed_signature_algorithms;
  use_authenticated_token = false;
}

abbrev production_variables : List String
production_variables = "ENVIRONMENT" ∷ "ENV" ∷ "DEPLOYMENT_ENV" ∷ "GO_ENV" ∷ []

-- An environment variable that names a production deployment.
abbrev is_production : String → Bool
is_production value =
    list_eq (map to_lower (codes value)) (codes "production")
    || list_eq (map to_lower (codes value)) (codes "prod")

-- The program does not exit for developer mode.
unfoldable pub may_start : Host → Config → Bool
may_start host cfg =
    not cfg.developer_mode
    || (not (any (λ name. is_production (host.getenv name)) production_variables)
        && host.getenv "ALLOW_INSECURE_DEV_MODE" == "yes-i-understand-the-risks")
