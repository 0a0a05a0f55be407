-- ===== src/Backend/Start.antt =====
-- pkg/backend: how the base client is made and logged in, and the renewal of its token.
use Prim.Native.String.{◌++◌}
use est_service.Prelude.{
  GoError, List, Option, Result, String, [], context, eq_ℤ, err, errorf, false, if◌then◌else◌,
  ltb_ℤ, none, not, ok, pos, some, wrap, ℤ, ◌&&◌, ◌*◌, ◌==◌, ◌>>=◌, ◌∷◌,
}
use est_service.Backend.{Handle}
use est_service.Backend.Api.{Api}
use est_service.Backend.Objects.{Clients, check_health, write}
use est_service.Backend.Logins.{renew_token, token_in}

-- `backend.Config`, as far as the code reads it; `client_pair` holds the paths of the client's
-- certificate and key, and is `none` where `TLSConfig` is nil.
pub record ClientConfig : Type 0 where
  pub kind : String
  pub address : String
  pub token : String
  pub namespace : String
  pub client_pair : Option (String × String)
  pub token_renewal_interval : ℤ
  pub timeout : ℤ
  pub max_retries : ℤ
  pub min_retry_wait : ℤ
  pub max_retry_wait : ℤ

-- api.Config, as far as the code sets it
pub record ApiConfig : Type 0 where
  pub address : String
  pub timeout : ℤ
  pub max_retries : ℤ
  pub min_retry_wait : ℤ
  pub max_retry_wait : ℤ

-- api.DefaultConfig, ConfigureTLS and NewClient, SetNamespace; `initial_token` is the token that a new
-- client has.
pub record Connector (S : Type 0) : Type 0 where
  pub default_config : ApiConfig
  pub configure_tls : String × String → ApiConfig → Result ApiConfig
  pub new_client : ApiConfig → Result S
  pub set_namespace : String → S → S
  pub initial_token : String

abbrev positive_or : ℤ → ℤ → ℤ
positive_or n default = if ltb_ℤ (pos 0) n then n else default

-- The settings of `newCommonBackend` that replace the defaults.
unfoldable pub api_config_of : ClientConfig → ApiConfig → ApiConfig
api_config_of cfg base = record {
  address = cfg.address;
  timeout = positive_or cfg.timeout base.timeout;
  max_retries = if ltb_ℤ cfg.max_retries (pos 0) then base.max_retries else cfg.max_retries;
  min_retry_wait = positive_or cfg.min_retry_wait base.min_retry_wait;
  max_retry_wait = positive_or cfg.max_retry_wait base.max_retry_wait;
}

-- `commonBackend`: the base object and its renewal interval
pub record Started (S : Type 0) : Type 0 where
  pub clients : Clients S
  pub renewal_interval : ℤ

abbrev renewal_of : ℤ → ℤ
renewal_of interval = if eq_ℤ interval (pos 0) then pos (15 * 60 * 1000000000) else interval

abbrev clients_with : {S : Type 0} → String → S → Clients S
clients_with token s = record {
  remote = s;
  objects = some token ∷ [];
  temporary = [];
  sent = [];
  faulted = false;
}

-- A token that is not empty.
abbrev given_token : Result String → Result String
given_token (err e) = err e
given_token (ok token) =
    if token == ""
    then err (errorf "no token returned from certificate authentication")
    else ok token

abbrev no_method : GoError
no_method = errorf "no authentication method configured: provide token or client certificate"

module _ {S : Type 0} (api : Api S) (connector : Connector S) where
  -- The login with the client's certificate.
  log_in : S → Result (Clients S)
  log_in s =
      let (reply, c) =
        write api 0 "auth/cert/login" none (clients_with connector.initial_token s) in
      elim reply [
        | err e ↦ err (wrap "certificate authentication to OpenBao failed: " e)
        | ok secret ↦ do
          token ← given_token (token_in "no token returned from certificate authentication" secret)
          ok (record c { objects = some token ∷ [] })
      ]

  -- The methods of authentication: a token first, then a client certificate.
  unfoldable pub authenticate_base : ClientConfig → S → Result (Clients S)
  unfolding log_in token_in
  authenticate_base cfg s =
      if not (cfg.token == "") then ok (clients_with cfg.token s) else elim cfg.client_pair [
        | none ↦ err no_method
        | some (cert, key) ↦ if not (cert == "") && not (key == "") then log_in s else err no_method
      ]

  abbrev configured : ClientConfig → Result ApiConfig
  configured cfg = elim cfg.client_pair [
    | none ↦ ok (api_config_of cfg connector.default_config)
    | some pair ↦
        context "failed to configure TLS: "
          (connector.configure_tls pair (api_config_of cfg connector.default_config))
  ]

  -- `newCommonBackend`
  unfoldable pub new_common_backend : ClientConfig → Result (Started S)
  unfolding authenticate_base api_config_of
  new_common_backend cfg = do
    api_config ← configured cfg
    s ← context "failed to create OpenBao client: " (connector.new_client api_config)
    c ← authenticate_base cfg s
    let c' = record c {
      remote =
          if not (cfg.namespace == "")
          then connector.set_namespace cfg.namespace c.remote
          else c.remote;
    }
    let checked = check_health api 0 none c'
    health ← context "failed to verify OpenBao connectivity: " checked.0
    ok (record { clients = checked.1; renewal_interval = renewal_of cfg.token_renewal_interval })

  -- `NewBackend`
  unfoldable pub new_backend : Option ClientConfig → Result (Started S)
  unfolding new_common_backend
  new_backend none = err (errorf "backend config is required")
  new_backend (some cfg) =
      if not (cfg.kind == "") && not (cfg.kind == "openbao")
      then err
          (errorf ("unsupported backend type: " ++ cfg.kind ++ " (only 'openbao' is supported)"))
      else new_common_backend cfg

-- What wakes the goroutine of `StartTokenRenewal`: a tick, or the end of its context.
pub data Wake : Type 0 where
  ticked cancelled : Wake

-- `StartTokenRenewal`, where the interval is positive; errors are only logged.
unfoldable pub renew_loop : {S : Type 0} → Api S → Handle → List Wake → Clients S → Clients S
renew_loop api h [] c = c
renew_loop api h (cancelled ∷ wakes) c = c
renew_loop api h (ticked ∷ wakes) c = renew_loop api h wakes (renew_token api h c).1
