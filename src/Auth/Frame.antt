-- ===== src/Auth/Frame.antt =====
-- What an authentication leaves as it was: the records and the flag of a panic.
use est_service.Est.Reenroll.{Tls}
use est_service.Prelude.{
  Bool, GoError, List, Option, Option-cases, Result-cases, String, [], arith, codes, errorf,
  has_prefix, if_elim, inl, inr, none, not, refl, some, trim_prefix, ◌==◌, ◌||◌, ◌∙◌, ◌∷◌, ◌≡◌,
}
use est_service.X509.{Certificate, Crypto}
use est_service.Http.{Request}
use est_service.Backend.{Backend}
use est_service.World.{World, call_ldap, call_userpass}
use est_service.Auth.{
  AuthConfig, AuthResult, attempt, authenticate, authenticate_basic, authenticate_cert,
  authenticate_peer, authenticate_token, from_basic, from_cert, refused, split_credentials,
  try_app_role, try_ldap, try_userpass,
}

module _ {R : Type 0} where
  -- The second world has the records of the first.
  abbrev pub Framed : World R → World R → Type 0
  Framed v w = (w.metrics ≡ v.metrics) × (w.audit ≡ v.audit) × (w.panicked ≡ v.panicked)

  pub Framed-trans : (u v w : World R) → Framed u v → Framed v w → Framed u w
  Framed-trans u v w (p, q, r) (p', q', r') = (p' ∙ p, q' ∙ q, r' ∙ r)

module _ {R : Type 0} (crypto : Crypto) (b : Backend R) (cfg : AuthConfig) (r : Request) where
  abbrev Frames : World R → AuthResult × World R → Type 0
  Frames w x = Framed w x.1

  try_app_role-Framed :
      (last : Option GoError) (user pass : String) (w : World R)
      → Framed w (try_app_role crypto b cfg last user pass w).1
  unfolding try_app_role
  try_app_role-Framed last user pass w = ground arith

  try_ldap-Framed :
      (last : Option GoError) (user pass : String) (w : World R)
      → Framed w (try_ldap crypto b cfg last user pass w).1
  unfolding try_ldap
  try_ldap-Framed last user pass w =
      if_elim (Frames w) cfg.ldap_enabled
        (λ _. elim (Result-cases (b.authenticate_ldap cfg.ldap_mount_path user pass w.remote).0) [
          | inl (e, p) ↦ rw p (
              try_app_role-Framed (some e) user pass
                (call_ldap b cfg.ldap_mount_path user pass w).1)
          | inr (token, p) ↦ rw p (refl, refl, refl)
        ])
        (λ _. try_app_role-Framed last user pass w)

  try_userpass-Framed :
      (user pass : String) (w : World R) → Framed w (try_userpass crypto b cfg user pass w).1
  unfolding try_userpass
  try_userpass-Framed user pass w =
      if_elim (Frames w) cfg.userpass_enabled
        (λ _.
          elim (Result-cases
            (b.authenticate_userpass cfg.userpass_mount_path user pass w.remote).0) [
              | inl (e, p) ↦ rw p (
                  try_ldap-Framed (some e) user pass
                    (call_userpass b cfg.userpass_mount_path user pass w).1)
              | inr (token, p) ↦ rw p (refl, refl, refl)
            ])
        (λ _. try_ldap-Framed none user pass w)

  authenticate_basic-Framed : (w : World R) → Framed w (authenticate_basic crypto b cfg r w).1
  unfolding authenticate_basic
  authenticate_basic-Framed w =
      if_elim (Frames w) (r.authorization == "") (λ _. (refl, refl, refl))
        λ _.
          if_elim (Frames w) (not (has_prefix r.authorization "Basic ")) (λ _. (refl, refl, refl))
            λ _.
              elim (Result-cases
                (crypto.decode_base64 (codes (trim_prefix r.authorization "Basic ")))) [
                  | inl (e, p) ↦ rw p (refl, refl, refl)
                  | inr (decoded, p) ↦
                      rw p (elim (Option-cases (split_credentials (crypto.bytes_text decoded))) [
                        | inl q ↦ rw q (refl, refl, refl)
                        | inr ((user, pass), q) ↦
                            rw q
                              (try_userpass-Framed user pass (record w { credentials = decoded }))
                      ])
                ]

  authenticate_token-Framed : (w : World R) → Framed w (authenticate_token crypto b cfg r w).1
  unfolding authenticate_token
  authenticate_token-Framed w = ground arith

  authenticate_peer-Framed :
      (tls : Tls) (certs : List Certificate) (w : World R)
      → Framed w (authenticate_peer crypto b cfg tls certs w).1
  unfolding authenticate_peer
  authenticate_peer-Framed tls [] w = (refl, refl, refl)
  authenticate_peer-Framed tls (cert ∷ chain) w = ground arith

  authenticate_cert-Framed :
      (tls : Option Tls) (w : World R) → Framed w (authenticate_cert crypto b cfg tls w).1
  unfolding authenticate_cert
  authenticate_cert-Framed none w = (refl, refl, refl)
  authenticate_cert-Framed (some tls) w = authenticate_peer-Framed tls tls.peer_certificates w

  attempt-Framed :
      (enabled : Bool) (method rest : World R → AuthResult × World R)
      → ((w : World R) → Framed w (method w).1)
      → ((w : World R) → Framed w (rest w).1)
      → (w : World R) → Framed w (attempt crypto b cfg enabled method rest w).1
  attempt-Framed enabled method rest m k w =
      if_elim (Frames w) enabled
        (λ _.
          if_elim (Frames w) (method w).0.authenticated (λ _. m w)
            (λ _. Framed-trans w (method w).1 (rest (method w).1).1 (m w) (k (method w).1)))
        (λ _. k w)

  -- An authentication neither writes metrics nor audit entries itself, and never panics.
  pub authenticate-Framed : (w : World R) → Framed w (authenticate crypto b cfg r w).1
  unfolding authenticate from_cert from_basic
  authenticate-Framed =
      attempt-Framed cfg.token_enabled (authenticate_token crypto b cfg r)
        (from_cert crypto b cfg r) authenticate_token-Framed
        (attempt-Framed cfg.cert_enabled (authenticate_cert crypto b cfg r.tls)
          (from_basic crypto b cfg r) (authenticate_cert-Framed r.tls)
          (attempt-Framed (cfg.userpass_enabled || cfg.ldap_enabled || cfg.app_role_enabled)
            (authenticate_basic crypto b cfg r)
            (λ w. (refused (some (errorf "no valid authentication method found")), w))
            authenticate_basic-Framed (λ w. (refl, refl, refl))))
