-- ===== src/Tests/Config.antt =====
-- Runs of pkg/config.
use est_service.X509.{ordinal}
use est_service.Est.Payload.{read_csr_payload_with_limit}
use est_service.Est.Algorithm.{parse_signature_algorithm, validate_csr_signature_algorithm}
use est_service.Config.Defaults.Laws.{apply_defaults-twice}
use est_service.Config.Validate.Laws.{IsValid, validate-IsValid}
use est_service.Config.Load.{load}
use est_service.Service.{enrollment_config_of}
use est_service.Service.Laws.{loaded_algorithm, loaded_limit}
use est_service.Tests.Fixtures.{body, crypto, csr}
use Prim.Native.Nat.{◌≤◌}
use est_service.Prelude.{
  Among, Result, [], err, false, length, list_eq, none, ok, pos, refl, trim_space, true,
  upper_trimmed, ◌∷◌, ◌≡◌,
}
use est_service.Config.{Config, Host, MountAuthConfig, OutputConfig}
use est_service.Config.Defaults.{
  apply_defaults, complete_backend, default_backend, default_cert, default_est, default_flag,
  default_int, default_list, default_observability, default_port, default_rate_limit,
  default_server, default_text, get_env_with_fallback, read_token, with_env_address, with_env_token,
}
use est_service.Config.Validate.{
  absolute_max_csr_size, check_algorithms, check_cert, check_credentials, check_key_gen, check_kind,
  check_labels, check_outputs, check_retries, check_size, check_tls, check_ttl, flag_or_true,
  is_weak_signature_algorithm_name, one_of, validate, with_client_auth,
}

abbrev no_output : OutputConfig
no_output = record { enabled = false; level = ""; format = ""; stdout = none; file = "" }

abbrev mount_auth : MountAuthConfig
mount_auth = record { enabled = true; mount_path = "userpass" }

-- A configuration with little more than what is required.
abbrev minimal : Config
minimal = record {
  developer_mode = false;
  server = record {
    listen_address = "";
    tls = record {
      cert_file = "tls.crt";
      key_file = "tls.key";
      client_ca_file = "";
      client_auth_type = "";
    };
    rate_limit = record {
      enabled = true;
      requests_per_second = pos 0;
      burst = pos 0;
      trusted_proxy_cidrs = [];
      auth_requests_per_second = pos 0;
      auth_burst = pos 0;
    };
    internal_endpoints_auth = none;
    read_timeout = pos 0;
    write_timeout = pos 0;
    idle_timeout = pos 0;
  };
  backend = record {
    kind = "";
    address = "https://bao.example";
    token = "";
    token_file = "token";
    client_cert = "";
    client_key = "";
    timeout = pos 0;
    max_retries = pos 2;
    min_retry_wait = pos 0;
    max_retry_wait = pos 0;
  };
  est = record {
    default_mount = "pki";
    labels = ("iot", record { kind = "role"; value = "est"; ttl = "24h" }) ∷ [];
    default_policy = record { kind = "role"; value = "est"; ttl = "24h" };
    authenticators = record {
      userpass = mount_auth;
      ldap = mount_auth;
      app_role = mount_auth;
      cert = record {
        enabled = true;
        mount_path = "cert";
        cert_role = "";
        entity_alias_prefix = "";
        token_ttl = "";
      };
      token = true;
    };
    max_size_bytes = pos 0;
    allowed_signature_algorithms = [];
    csr_attributes_enabled = false;
    csr_attributes = [];
    server_key_gen = record {
      enabled = false;
      default_key_type = "";
      default_key_size = pos 0;
      allowed_key_types = [];
      allowed_key_sizes = [];
      max_csr_size = pos 0;
      encrypt_private_key = false;
      use_openbao_transit = false;
      transit_mount = "";
    };
  };
  observability = record {
    metrics_enabled = false;
    prometheus_port = pos 0;
    logging = no_output;
    audit = no_output;
  };
}

abbrev host : Host
host = record {
  getenv = λ name. "";
  read_file = λ path. ok "s3cret\n";
  expand_env = λ text. text;
  unmarshal = λ text. ok minimal;
  parse_duration = λ text. ok (pos 1);
  duration_text = λ n. "1ns";
}

abbrev or_minimal : Result Config → Config
or_minimal (ok cfg) = cfg
or_minimal (err e) = minimal

abbrev defaulted : Config
defaulted = or_minimal (apply_defaults host minimal)

abbrev validated : Config
validated = or_minimal (validate host defaulted)

minimal-defaulted : apply_defaults host minimal ≡ ok defaulted
unfolding apply_defaults default_server default_backend complete_backend with_env_address
    with_env_token read_token get_env_with_fallback default_est default_cert default_observability
    default_port default_rate_limit default_text default_int default_flag default_list trim_space
minimal-defaulted = refl

defaulted-validated : validate host defaulted ≡ ok validated
unfolding apply_defaults default_server default_backend complete_backend with_env_address
    with_env_token read_token get_env_with_fallback default_est default_cert default_observability
    default_port default_rate_limit default_text default_int default_flag default_list trim_space
    validate check_credentials check_retries check_kind check_cert check_ttl check_tls one_of
    with_client_auth flag_or_true check_outputs check_labels check_size
    is_weak_signature_algorithm_name check_algorithms check_key_gen list_eq upper_trimmed
defaulted-validated = refl

minimal-loaded : load host "est.yaml" ≡ ok validated
unfolding load apply_defaults default_server default_backend complete_backend with_env_address
    with_env_token read_token get_env_with_fallback default_est default_cert default_observability
    default_port default_rate_limit default_text default_int default_flag default_list trim_space
    validate check_credentials check_retries check_kind check_cert check_ttl check_tls one_of
    with_client_auth flag_or_true check_outputs check_labels check_size
    is_weak_signature_algorithm_name check_algorithms check_key_gen list_eq upper_trimmed
minimal-loaded = refl

apply_defaults-twice_example : apply_defaults host defaulted ≡ ok defaulted
apply_defaults-twice_example = apply_defaults-twice host minimal defaulted minimal-defaulted

validate-IsValid_example : IsValid defaulted validated
validate-IsValid_example = validate-IsValid host defaulted validated defaulted-validated

loaded_limit_example : length body.bytes ≤ absolute_max_csr_size
unfolding read_csr_payload_with_limit apply_defaults default_server default_backend complete_backend
    with_env_address with_env_token read_token get_env_with_fallback default_est default_cert
    default_observability default_port default_rate_limit default_text default_int default_flag
    default_list trim_space validate check_credentials check_retries check_kind check_cert check_ttl
    check_tls one_of with_client_auth flag_or_true check_outputs check_labels check_size
    is_weak_signature_algorithm_name check_algorithms check_key_gen list_eq upper_trimmed
    enrollment_config_of
loaded_limit_example =
    loaded_limit host "est.yaml" validated minimal-loaded crypto (pos 3) body csr refl

loaded_algorithm_example : Among (ordinal csr.signature_algorithm) (4 ∷ 5 ∷ 6 ∷ 10 ∷ 11 ∷ 12 ∷ [])
unfolding validate_csr_signature_algorithm parse_signature_algorithm apply_defaults default_server
    default_backend complete_backend with_env_address with_env_token read_token
    get_env_with_fallback default_est default_cert default_observability default_port
    default_rate_limit default_text default_int default_flag default_list trim_space validate
    check_credentials check_retries check_kind check_cert check_ttl check_tls one_of
    with_client_auth flag_or_true check_outputs check_labels check_size
    is_weak_signature_algorithm_name check_algorithms check_key_gen list_eq upper_trimmed
    enrollment_config_of
loaded_algorithm_example = loaded_algorithm host "est.yaml" validated minimal-loaded csr refl
