-- ===== src/Auth.antt =====
-- pkg/auth/manager.go: the authentication methods and their order.
pub mod Laws
pub mod Effects
pub mod Calls
pub mod Frame
pub mod Kept
use est_service.Est.Reenroll.{Tls}
use mathlib.Core.List.{map}
use est_service.Prelude.{
  Bool, GoError, List, Option, String, [], codes, cut, err, errorf, false, has_prefix,
  if◌then◌else◌, none, not, ok, some, trim_prefix, true, wrap, ◌&&◌, ◌++◌, ◌==◌, ◌||◌, ◌∷◌,
}
use est_service.X509.{Certificate, Crypto}
use est_service.Http.{Request}
use est_service.Backend.{Backend, TokenInfo}
use est_service.World.{World, call_app_role, call_cert, call_ldap, call_lookup, call_userpass}

-- `auth.Config`
pub record AuthConfig : Type 0 where
  pub userpass_enabled : Bool
  pub userpass_mount_path : String
  pub ldap_enabled : Bool
  pub ldap_mount_path : String
  pub app_role_enabled : Bool
  pub app_role_mount_path : String
  pub cert_enabled : Bool
  pub cert_mount_path : String
  pub cert_role : String
  pub cert_entity_alias_prefix : String
  pub cert_token_ttl : String
  pub token_enabled : Bool

-- `auth.Result`
pub record AuthResult : Type 0 where
  pub authenticated : Bool
  pub token : String
  pub method : String
  pub identity : String
  pub error : Option GoError

abbrev or_default : String → String → String
or_default s d = if s == "" then d else s

-- The defaults of `NewManager`.
unfoldable pub new_manager : AuthConfig → AuthConfig
new_manager cfg = record cfg {
  userpass_mount_path = or_default cfg.userpass_mount_path "userpass";
  ldap_mount_path = or_default cfg.ldap_mount_path "ldap";
  cert_mount_path = or_default cfg.cert_mount_path "cert";
  app_role_mount_path = or_default cfg.app_role_mount_path "approle";
}

abbrev refused : Option GoError → AuthResult
refused e = record { authenticated = false; token = ""; method = ""; identity = ""; error = e }

abbrev granted : String → String → String → AuthResult
granted token method identity = record {
  authenticated = true;
  token = token;
  method = method;
  identity = identity;
  error = none;
}

-- The end of `authenticateBasic`, where no attempt succeeded.
abbrev all_failed : Option GoError → AuthResult
all_failed (some e) = refused (some e)
all_failed none = refused (some (errorf "no basic authentication methods enabled"))

-- `name, ok := v.(string); ok && name != ""`
abbrev non_empty : Option String → Option String
non_empty none = none
non_empty (some s) = if s == "" then none else some s

-- The display name, or else the entity, or else "unknown".
abbrev pub identity_of : TokenInfo → String
identity_of info = elim (non_empty info.display_name) [
  | some name ↦ name
  | none ↦ elim (non_empty info.entity_id) [ some id ↦ id | none ↦ "unknown" ]
]

-- strings.SplitN(s, ":", 2), where it has two parts
abbrev split_credentials : String → Option (String × String)
split_credentials s = cut b':' s

module _ {R : Type 0} (crypto : Crypto) (b : Backend R) (cfg : AuthConfig) where
  -- `authenticateToken`
  unfoldable pub authenticate_token : Request → World R → AuthResult × World R
  authenticate_token r w =
      if r.authorization == ""
      then (refused none, w)
      else if not (has_prefix r.authorization "Bearer ")
      then (refused none, w)
      else let token = trim_prefix r.authorization "Bearer " in
        if token == ""
        then (refused none, w)
        else let (found, w') = call_lookup b token w in
          elim found [
            | err e ↦ (refused (some (wrap "invalid or expired token: " e)), w')
            | ok info ↦ (granted token "token" (identity_of info), w')
          ]

  -- The certificates that the client presented, the client's own first.
  authenticate_peer : Tls → List Certificate → World R → AuthResult × World R
  authenticate_peer tls [] w = (refused none, w)
  authenticate_peer tls (client_cert ∷ chain) w =
      let (login, w') =
        call_cert b cfg.cert_mount_path tls cfg.cert_role cfg.cert_entity_alias_prefix
          cfg.cert_token_ttl w in
      elim login [
        | err e ↦ (refused (some e), w')
        | ok token ↦ (granted token "cert" client_cert.common_name, w')
      ]

  -- `authenticateCert`, on the connection's TLS state
  unfoldable pub authenticate_cert : Option Tls → World R → AuthResult × World R
  unfolding authenticate_peer
  authenticate_cert none w = (refused none, w)
  authenticate_cert (some tls) w = authenticate_peer tls tls.peer_certificates w

  -- `scrubCredentials`, on the decoded buffer
  abbrev scrub : World R → World R
  scrub w = record w { credentials = map (λ _. 0) w.credentials }

  -- The last method, and the answer where all that are enabled failed; `last` is the error of the
  -- attempt before.
  unfoldable pub try_app_role : Option GoError → String → String → World R → AuthResult × World R
  try_app_role last username password w =
      if cfg.app_role_enabled
      then (let (login, w') = call_app_role b cfg.app_role_mount_path username password w in
          elim login [
            | ok token ↦ (granted token "approle" "approle", scrub w')
            | err e ↦ (refused (some e), scrub w')
          ])
      else (all_failed last, scrub w)

  unfoldable pub try_ldap : Option GoError → String → String → World R → AuthResult × World R
  try_ldap last username password w =
      if cfg.ldap_enabled
      then (let (login, w') = call_ldap b cfg.ldap_mount_path username password w in
          elim login [
            | ok token ↦ (granted token "ldap" username, scrub w')
            | err e ↦ try_app_role (some e) username password w'
          ])
      else try_app_role last username password w

  unfoldable pub try_userpass : String → String → World R → AuthResult × World R
  try_userpass username password w =
      if cfg.userpass_enabled
      then (let (login, w') = call_userpass b cfg.userpass_mount_path username password w in
          elim login [
            | ok token ↦ (granted token "userpass" username, scrub w')
            | err e ↦ try_ldap (some e) username password w'
          ])
      else try_ldap none username password w

  -- `authenticateBasic`. Where decoding fails, what was decoded before the error stays in the buffer.
  unfoldable pub authenticate_basic : Request → World R → AuthResult × World R
  authenticate_basic r w =
      if r.authorization == ""
      then (refused none, w)
      else if not (has_prefix r.authorization "Basic ")
      then (refused none, w)
      else let encoded = codes (trim_prefix r.authorization "Basic ") in
        elim (crypto.decode_base64 encoded) [
          | err e ↦ (refused (some e), record w { credentials = crypto.partly_decoded encoded })
          | ok decoded ↦
              let w' : World R = record w { credentials = decoded } in
              elim (split_credentials (crypto.bytes_text decoded)) [
                | none ↦ (refused (some (errorf "invalid basic auth format")), scrub w')
                | some (username, password) ↦ try_userpass username password w'
              ]
        ]

  -- `if enabled { if result := method(ctx, r); result.Authenticated { return result } }`, then the
  -- rest.
  abbrev attempt :
      Bool
      → (World R → AuthResult × World R)
      → (World R → AuthResult × World R)
      → World R
      → AuthResult × World R
  attempt enabled method rest w =
      if enabled
      then (let (result, w') = method w in if result.authenticated then (result, w') else rest w')
      else rest w

  -- `Authenticate`, from its last method to its first
  unfoldable pub from_basic : Request → World R → AuthResult × World R
  from_basic r =
      attempt (cfg.userpass_enabled || cfg.ldap_enabled || cfg.app_role_enabled)
        (authenticate_basic r)
        (λ w. (refused (some (errorf "no valid authentication method found")), w))

  unfoldable pub from_cert : Request → World R → AuthResult × World R
  from_cert r = attempt cfg.cert_enabled (authenticate_cert r.tls) (from_basic r)

  unfoldable pub authenticate : Request → World R → AuthResult × World R
  authenticate r = attempt cfg.token_enabled (authenticate_token r) (from_cert r)

-- `GetWWWAuthenticateHeaders`
unfoldable pub www_authenticate_headers : AuthConfig → List String
www_authenticate_headers cfg =
    (if cfg.userpass_enabled || cfg.ldap_enabled then "Basic realm=\"EST Service\"" ∷ [] else [])
    ++ (if cfg.app_role_enabled && not cfg.userpass_enabled && not cfg.ldap_enabled
        then "Basic realm=\"EST Service\"" ∷ []
        else [])
    ++ (if cfg.token_enabled then "Bearer realm=\"EST Service\"" ∷ [] else [])
