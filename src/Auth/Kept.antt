-- ===== src/Auth/Kept.antt =====
-- What every login of the backend keeps, an authentication keeps.
use est_service.Est.Reenroll.{Tls}
use est_service.Prelude.{
  Bool, GoError, List, Option, Option-cases, Result-cases, String, [], codes, errorf, has_prefix,
  if_elim, inl, inr, none, not, some, trim_prefix, ◌==◌, ◌||◌, ◌∷◌,
}
use est_service.X509.{Certificate, Crypto}
use est_service.Http.{Request}
use est_service.Backend.{Backend}
use est_service.World.{World, call_ldap, call_userpass}
use est_service.Auth.{
  AuthConfig, AuthResult, attempt, authenticate, authenticate_basic, authenticate_cert,
  authenticate_peer, authenticate_token, from_basic, from_cert, refused, split_credentials,
  try_app_role, try_ldap, try_userpass,
}

-- The property of the backend's state is kept by each call that an authentication makes.
pub record LoginsKeep {R : Type 0} (b : Backend R) (P : R → Type 0) : Type 0 where
  pub userpass :
      (mount user pass : String) (s : R) → P s → P (b.authenticate_userpass mount user pass s).1
  pub ldap : (mount user pass : String) (s : R) → P s → P (b.authenticate_ldap mount user pass s).1
  pub app_role :
      (mount role secret : String) (s : R) → P s → P (b.authenticate_app_role mount role secret s).1
  pub cert :
      (mount : String) (tls : Tls) (role prefix ttl : String) (s : R)
      → P s
      → P (b.authenticate_cert mount tls role prefix ttl s).1
  pub lookup : (token : String) (s : R) → P s → P (b.lookup_token token s).1

module _ {R : Type 0} (crypto : Crypto) (b : Backend R) (P : R → Type 0) (keep : LoginsKeep b P)
    (cfg : AuthConfig) (r : Request) where
  abbrev Keeps : AuthResult × World R → Type 0
  Keeps x = P x.1.remote

  try_app_role-Keeps :
      (last : Option GoError) (user pass : String) (w : World R)
      → P w.remote
      → Keeps (try_app_role crypto b cfg last user pass w)
  unfolding try_app_role
  try_app_role-Keeps last user pass w h =
      let kept = keep.app_role cfg.app_role_mount_path user pass w.remote h in
      if_elim Keeps cfg.app_role_enabled
        (λ _.
          elim (Result-cases
            (b.authenticate_app_role cfg.app_role_mount_path user pass w.remote).0) [
              | inl (e, p) ↦ rw p kept
              | inr (token, p) ↦ rw p kept
            ])
        (λ _. h)

  try_ldap-Keeps :
      (last : Option GoError) (user pass : String) (w : World R)
      → P w.remote
      → Keeps (try_ldap crypto b cfg last user pass w)
  unfolding try_ldap
  try_ldap-Keeps last user pass w h =
      let kept = keep.ldap cfg.ldap_mount_path user pass w.remote h in
      if_elim Keeps cfg.ldap_enabled
        (λ _. elim (Result-cases (b.authenticate_ldap cfg.ldap_mount_path user pass w.remote).0) [
          | inl (e, p) ↦ rw p (
              try_app_role-Keeps (some e) user pass (call_ldap b cfg.ldap_mount_path user pass w).1
                kept)
          | inr (token, p) ↦ rw p kept
        ])
        (λ _. try_app_role-Keeps last user pass w h)

  try_userpass-Keeps :
      (user pass : String) (w : World R)
      → P w.remote
      → Keeps (try_userpass crypto b cfg user pass w)
  unfolding try_userpass
  try_userpass-Keeps user pass w h =
      let kept = keep.userpass cfg.userpass_mount_path user pass w.remote h in
      if_elim Keeps cfg.userpass_enabled
        (λ _.
          elim (Result-cases
            (b.authenticate_userpass cfg.userpass_mount_path user pass w.remote).0) [
              | inl (e, p) ↦ rw p (
                  try_ldap-Keeps (some e) user pass
                    (call_userpass b cfg.userpass_mount_path user pass w).1 kept)
              | inr (token, p) ↦ rw p kept
            ])
        (λ _. try_ldap-Keeps none user pass w h)

  authenticate_basic-Keeps :
      (w : World R) → P w.remote → Keeps (authenticate_basic crypto b cfg r w)
  unfolding authenticate_basic
  authenticate_basic-Keeps w h =
      if_elim Keeps (r.authorization == "") (λ _. h)
        λ _.
          if_elim Keeps (not (has_prefix r.authorization "Basic ")) (λ _. h)
            λ _.
              elim (Result-cases
                (crypto.decode_base64 (codes (trim_prefix r.authorization "Basic ")))) [
                  | inl (e, p) ↦ rw p h
                  | inr (decoded, p) ↦
                      rw p (elim (Option-cases (split_credentials (crypto.bytes_text decoded))) [
                        | inl q ↦ rw q h
                        | inr ((user, pass), q) ↦
                            rw q
                              (try_userpass-Keeps user pass (record w { credentials = decoded }) h)
                      ])
                ]

  authenticate_token-Keeps :
      (w : World R) → P w.remote → Keeps (authenticate_token crypto b cfg r w)
  unfolding authenticate_token
  authenticate_token-Keeps w h =
      if_elim Keeps (r.authorization == "") (λ _. h)
        λ _.
          if_elim Keeps (not (has_prefix r.authorization "Bearer ")) (λ _. h)
            λ _.
              let token = trim_prefix r.authorization "Bearer " in
              if_elim Keeps (token == "") (λ _. h)
                λ _. elim (Result-cases (b.lookup_token token w.remote).0) [
                  | inl (e, p) ↦ rw p (keep.lookup token w.remote h)
                  | inr (info, p) ↦ rw p (keep.lookup token w.remote h)
                ]

  authenticate_peer-Keeps :
      (tls : Tls) (certs : List Certificate) (w : World R)
      → P w.remote
      → Keeps (authenticate_peer crypto b cfg tls certs w)
  unfolding authenticate_peer
  authenticate_peer-Keeps tls [] w h = h
  authenticate_peer-Keeps tls (cert ∷ chain) w h =
      let kept =
        keep.cert cfg.cert_mount_path tls cfg.cert_role cfg.cert_entity_alias_prefix
          cfg.cert_token_ttl w.remote h in
      elim (Result-cases
        (b.authenticate_cert cfg.cert_mount_path tls cfg.cert_role cfg.cert_entity_alias_prefix
          cfg.cert_token_ttl w.remote).0) [
            | inl (e, p) ↦ rw (p, authenticate_peer) kept
            | inr (token, p) ↦ rw (p, authenticate_peer) kept
          ]

  authenticate_cert-Keeps :
      (tls : Option Tls) (w : World R) → P w.remote → Keeps (authenticate_cert crypto b cfg tls w)
  unfolding authenticate_cert
  authenticate_cert-Keeps none w h = h
  authenticate_cert-Keeps (some tls) w h = authenticate_peer-Keeps tls tls.peer_certificates w h

  attempt-Keeps :
      (enabled : Bool) (method rest : World R → AuthResult × World R)
      → ((w : World R) → P w.remote → Keeps (method w))
      → ((w : World R) → P w.remote → Keeps (rest w))
      → (w : World R) → P w.remote
      → Keeps (attempt crypto b cfg enabled method rest w)
  attempt-Keeps enabled method rest m k w h =
      if_elim Keeps enabled
        (λ _. if_elim Keeps (method w).0.authenticated (λ _. m w h) (λ _. k (method w).1 (m w h)))
        (λ _. k w h)

  pub authenticate-Keeps : (w : World R) → P w.remote → P (authenticate crypto b cfg r w).1.remote
  unfolding authenticate from_cert from_basic
  authenticate-Keeps =
      attempt-Keeps cfg.token_enabled (authenticate_token crypto b cfg r) (from_cert crypto b cfg r)
        authenticate_token-Keeps
        (attempt-Keeps cfg.cert_enabled (authenticate_cert crypto b cfg r.tls)
          (from_basic crypto b cfg r) (authenticate_cert-Keeps r.tls)
          (attempt-Keeps (cfg.userpass_enabled || cfg.ldap_enabled || cfg.app_role_enabled)
            (authenticate_basic crypto b cfg r)
            (λ w. (refused (some (errorf "no valid authentication method found")), w))
            authenticate_basic-Keeps (λ w h. h)))
