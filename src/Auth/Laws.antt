-- ===== src/Auth/Laws.antt =====
-- What an authentication result says.
use mathlib.Core.Bool.{false≢true}
use est_service.Prelude.{
  Bool, GoError, List, Option, Option-cases, Result-cases, String, [], arith, codes, errorf,
  has_prefix, if_elim, inl, inr, none, not, ok, refl, some, trim_prefix, true, ℕ, ◌==◌, ◌||◌, ◌∷◌,
  ◌≡◌,
}
use est_service.X509.{Certificate, Crypto}
use est_service.Est.Reenroll.{Tls}
use est_service.Http.{Request}
use est_service.Backend.{Backend, TokenInfo}
use est_service.World.{World}
use est_service.Auth.{
  AuthConfig, AuthResult, all_failed, attempt, authenticate, authenticate_basic, authenticate_cert,
  authenticate_peer, authenticate_token, from_basic, from_cert, identity_of, refused, scrub,
  split_credentials, try_app_role, try_ldap, try_userpass,
}

module _ {R : Type 0} (crypto : Crypto) (b : Backend R) (cfg : AuthConfig) (r : Request) where
  -- The credentials that a request carries for basic authentication.
  abbrev pub Carries : String → String → Type 0
  Carries user pass =
      (decoded : List ℕ) × (crypto.decode_base64 (codes (trim_prefix r.authorization "Basic "))
        ≡ ok decoded)
      × (has_prefix r.authorization "Basic " ≡ true)
      × (split_credentials (crypto.bytes_text decoded) ≡ some (user, pass))

  -- Why a result is granted: an enabled method, for which the backend accepted what the request
  -- carries, in the state `s` that it was in.
  pub data Evidence : AuthResult → Type 0 where
    by_token :
        {result : AuthResult} (s : R) (info : TokenInfo)
        → cfg.token_enabled ≡ true
        → has_prefix r.authorization "Bearer " ≡ true
        → result.token ≡ trim_prefix r.authorization "Bearer "
        → (b.lookup_token result.token s).0 ≡ ok info
        → result.method ≡ "token"
        → result.identity ≡ identity_of info
        → Evidence result
    by_cert :
        {result : AuthResult} (s : R) (tls : Tls) (cert : Certificate) (chain : List Certificate)
        → cfg.cert_enabled ≡ true
        → r.tls ≡ some tls
        → tls.peer_certificates ≡ cert ∷ chain
        → (b.authenticate_cert cfg.cert_mount_path tls cfg.cert_role cfg.cert_entity_alias_prefix
            cfg.cert_token_ttl s).0
          ≡ ok result.token
        → result.method ≡ "cert"
        → result.identity ≡ cert.common_name
        → Evidence result
    by_userpass :
        {result : AuthResult} (s : R) (user pass : String)
        → cfg.userpass_enabled ≡ true
        → Carries user pass
        → (b.authenticate_userpass cfg.userpass_mount_path user pass s).0 ≡ ok result.token
        → result.method ≡ "userpass"
        → result.identity ≡ user
        → Evidence result
    by_ldap :
        {result : AuthResult} (s : R) (user pass : String)
        → cfg.ldap_enabled ≡ true
        → Carries user pass
        → (b.authenticate_ldap cfg.ldap_mount_path user pass s).0 ≡ ok result.token
        → result.method ≡ "ldap"
        → result.identity ≡ user
        → Evidence result
    by_app_role :
        {result : AuthResult} (s : R) (user pass : String)
        → cfg.app_role_enabled ≡ true
        → Carries user pass
        → (b.authenticate_app_role cfg.app_role_mount_path user pass s).0 ≡ ok result.token
        → result.method ≡ "approle"
        → result.identity ≡ "approle"
        → Evidence result

  abbrev IsSound : AuthResult × World R → Type 0
  IsSound x = x.0.authenticated ≡ true → Evidence x.0

  refused-IsSound : (e : Option GoError) (w : World R) → IsSound (refused e, w)
  refused-IsSound e w h = absurd (false≢true h)

  all_failed-IsSound : (last : Option GoError) (w : World R) → IsSound (all_failed last, w)
  all_failed-IsSound none w h = absurd (false≢true h)
  all_failed-IsSound (some e) w h = absurd (false≢true h)

  authenticate_token-IsSound :
      (w : World R) → cfg.token_enabled ≡ true → IsSound (authenticate_token crypto b cfg r w)
  unfolding authenticate_token
  authenticate_token-IsSound w on =
      if_elim IsSound (r.authorization == "") (λ _. refused-IsSound none w)
        λ _.
          if_elim IsSound (not (has_prefix r.authorization "Bearer ")) (λ _. refused-IsSound none w)
            λ bearer.
              let token = trim_prefix r.authorization "Bearer " in
              if_elim IsSound (token == "") (λ _. refused-IsSound none w)
                λ _. elim (Result-cases (b.lookup_token token w.remote).0) [
                  | inl (e, p) ↦ rw p (λ h. absurd (false≢true h))
                  | inr (info, p) ↦
                      rw p
                        (λ _. by_token w.remote info on (ground (arith, bearer)) refl p refl refl)
                ]

  authenticate_peer-IsSound :
      (tls : Tls) (certs : List Certificate) (w : World R)
      → cfg.cert_enabled ≡ true
      → r.tls ≡ some tls
      → tls.peer_certificates ≡ certs
      → IsSound (authenticate_peer crypto b cfg tls certs w)
  unfolding authenticate_peer
  authenticate_peer-IsSound tls [] w on e q = λ h. absurd (false≢true h)
  authenticate_peer-IsSound tls (cert ∷ chain) w on e q =
      elim (Result-cases
        (b.authenticate_cert cfg.cert_mount_path tls cfg.cert_role cfg.cert_entity_alias_prefix
          cfg.cert_token_ttl w.remote).0) [
            | inl (x, p) ↦ rw (p, authenticate_peer) (λ h. absurd (false≢true h))
            | inr (token, p) ↦
                rw (p, authenticate_peer) (λ _. by_cert w.remote tls cert chain on e q p refl refl)
          ]

  authenticate_cert-IsSound :
      (tls : Option Tls) (w : World R)
      → cfg.cert_enabled ≡ true
      → r.tls ≡ tls
      → IsSound (authenticate_cert crypto b cfg tls w)
  unfolding authenticate_cert
  authenticate_cert-IsSound none w on e = λ h. absurd (false≢true h)
  authenticate_cert-IsSound (some tls) w on e =
      authenticate_peer-IsSound tls tls.peer_certificates w on e refl

  module _ (user pass : String) (given : Carries user pass) where
    try_app_role-IsSound :
        (last : Option GoError) (w : World R) → IsSound (try_app_role crypto b cfg last user pass w)
    unfolding try_app_role
    try_app_role-IsSound last w =
        if_elim IsSound cfg.app_role_enabled
          (λ on.
            elim (Result-cases
              (b.authenticate_app_role cfg.app_role_mount_path user pass w.remote).0) [
                | inl (e, p) ↦ rw p (λ h. absurd (false≢true h))
                | inr (token, p) ↦ rw p (λ _. by_app_role w.remote user pass on given p refl refl)
              ])
          (λ _. all_failed-IsSound last (scrub crypto b cfg w))

    try_ldap-IsSound :
        (last : Option GoError) (w : World R) → IsSound (try_ldap crypto b cfg last user pass w)
    unfolding try_ldap
    try_ldap-IsSound last w =
        if_elim IsSound cfg.ldap_enabled
          (λ on.
            elim (Result-cases (b.authenticate_ldap cfg.ldap_mount_path user pass w.remote).0) [
              | inl (e, p) ↦ rw p (try_app_role-IsSound (some e) _)
              | inr (token, p) ↦ rw p (λ _. by_ldap w.remote user pass on given p refl refl)
            ])
          (λ _. try_app_role-IsSound last w)

    try_userpass-IsSound : (w : World R) → IsSound (try_userpass crypto b cfg user pass w)
    unfolding try_userpass
    try_userpass-IsSound w =
        if_elim IsSound cfg.userpass_enabled
          (λ on.
            elim (Result-cases
              (b.authenticate_userpass cfg.userpass_mount_path user pass w.remote).0) [
                | inl (e, p) ↦ rw p (try_ldap-IsSound (some e) _)
                | inr (token, p) ↦ rw p (λ _. by_userpass w.remote user pass on given p refl refl)
              ])
          (λ _. try_ldap-IsSound none w)

  authenticate_basic-IsSound : (w : World R) → IsSound (authenticate_basic crypto b cfg r w)
  unfolding authenticate_basic
  authenticate_basic-IsSound w =
      let encoded = codes (trim_prefix r.authorization "Basic ") in
      if_elim IsSound (r.authorization == "") (λ _. refused-IsSound none w)
        λ _.
          if_elim IsSound (not (has_prefix r.authorization "Basic ")) (λ _. refused-IsSound none w)
            λ basic. elim (Result-cases (crypto.decode_base64 encoded)) [
              | inl (e, p) ↦ rw p (λ h. absurd (false≢true h))
              | inr (decoded, p) ↦
                  rw p (elim (Option-cases (split_credentials (crypto.bytes_text decoded))) [
                    | inl q ↦ rw q (λ h. absurd (false≢true h))
                    | inr ((user, pass), q) ↦ rw q (
                        try_userpass-IsSound user pass (decoded, p, ground (arith, basic), q)
                          (record w { credentials = decoded }))
                  ])
            ]

  attempt-IsSound :
      (enabled : Bool) (method rest : World R → AuthResult × World R)
      → ((w : World R) → enabled ≡ true → IsSound (method w))
      → ((w : World R) → IsSound (rest w))
      → (w : World R) → IsSound (attempt crypto b cfg enabled method rest w)
  attempt-IsSound enabled method rest m k w =
      if_elim IsSound enabled
        (λ on. if_elim IsSound (method w).0.authenticated (λ _. m w on) (λ _. k (method w).1))
        (λ _. k w)

  from_basic-IsSound : (w : World R) → IsSound (from_basic crypto b cfg r w)
  unfolding from_basic
  from_basic-IsSound =
      attempt-IsSound (cfg.userpass_enabled || cfg.ldap_enabled || cfg.app_role_enabled)
        (authenticate_basic crypto b cfg r)
        (λ w. (refused (some (errorf "no valid authentication method found")), w))
        (λ w on. authenticate_basic-IsSound w) (λ w h. absurd (false≢true h))

  from_cert-IsSound : (w : World R) → IsSound (from_cert crypto b cfg r w)
  unfolding from_cert
  from_cert-IsSound =
      attempt-IsSound cfg.cert_enabled (authenticate_cert crypto b cfg r.tls)
        (from_basic crypto b cfg r) (λ w on. authenticate_cert-IsSound r.tls w on refl)
        from_basic-IsSound

  -- A granted result has evidence: an enabled method whose backend call accepted the request's
  -- credentials and, but for a bearer token, issued the token.
  pub authenticate-Evidence :
      (w : World R)
      → (authenticate crypto b cfg r w).0.authenticated ≡ true
      → Evidence (authenticate crypto b cfg r w).0
  unfolding authenticate
  authenticate-Evidence =
      attempt-IsSound cfg.token_enabled (authenticate_token crypto b cfg r)
        (from_cert crypto b cfg r) authenticate_token-IsSound from_cert-IsSound
