-- ===== src/Auth/Effects.antt =====
-- What an authentication does besides its result: its error, its calls, the credentials buffer.
use est_service.Est.Reenroll.{Tls}
use mathlib.Core.List.{map}
use est_service.Prelude.{
  All, Bool, GoError, List, Option, Option-cases, Result-cases, String, [], arith, codes, err,
  errorf, false, has_prefix, if_elim, inl, inr, none, not, refl, some, trim_prefix, true, ℕ, ◌==◌,
  ◌||◌, ◌∷◌, ◌≡◌, ◌⊎◌,
}
use est_service.X509.{Certificate, Crypto}
use est_service.Http.{Request}
use est_service.Backend.{Backend}
use est_service.World.{World}
use est_service.Auth.{
  AuthConfig, AuthResult, attempt, authenticate, authenticate_basic, authenticate_cert,
  authenticate_peer, authenticate_token, from_basic, from_cert, refused, split_credentials,
  try_app_role, try_ldap, try_userpass,
}

abbrev pub IsZero : ℕ → Type 0
IsZero c = c ≡ 0

All-IsZero : (bytes : List ℕ) → All IsZero (map (λ _. 0) bytes)
All-IsZero [] = tt
All-IsZero (c ∷ cs) = (refl, All-IsZero cs)

module _ {R : Type 0} (crypto : Crypto) (b : Backend R) (cfg : AuthConfig) (r : Request) where
  abbrev pub no_method : AuthResult
  no_method = refused (some (errorf "no valid authentication method found"))

  attempt-refused :
      (enabled : Bool) (method rest : World R → AuthResult × World R)
      → ((w : World R) → (rest w).0.authenticated ≡ false → (rest w).0 ≡ no_method)
      → (w : World R) → (attempt crypto b cfg enabled method rest w).0.authenticated ≡ false
      → (attempt crypto b cfg enabled method rest w).0 ≡ no_method
  attempt-refused enabled method rest k w = ground (arith, k w, k (method w).1)

  -- A refusal always carries the same error, so the callers' `result.Error.Error()` has a value.
  pub authenticate-refused :
      (w : World R)
      → (authenticate crypto b cfg r w).0.authenticated ≡ false
      → (authenticate crypto b cfg r w).0 ≡ no_method
  unfolding authenticate from_cert from_basic
  authenticate-refused =
      attempt-refused cfg.token_enabled (authenticate_token crypto b cfg r)
        (from_cert crypto b cfg r)
        (attempt-refused cfg.cert_enabled (authenticate_cert crypto b cfg r.tls)
          (from_basic crypto b cfg r)
          (attempt-refused (cfg.userpass_enabled || cfg.ldap_enabled || cfg.app_role_enabled)
            (authenticate_basic crypto b cfg r) (λ w. (no_method, w)) (λ w h. refl)))

  abbrev pub IsClean : World R → Type 0
  IsClean w = All IsZero w.credentials

  abbrev LeavesClean : AuthResult × World R → Type 0
  LeavesClean x = IsClean x.1

  try_app_role-IsClean :
      (last : Option GoError) (user pass : String) (w : World R)
      → IsClean (try_app_role crypto b cfg last user pass w).1
  unfolding try_app_role
  try_app_role-IsClean last user pass w =
      if_elim LeavesClean cfg.app_role_enabled
        (λ _.
          elim (Result-cases
            (b.authenticate_app_role cfg.app_role_mount_path user pass w.remote).0) [
              | inl (e, p) ↦ rw p (All-IsZero w.credentials)
              | inr (token, p) ↦ rw p (All-IsZero w.credentials)
            ])
        (λ _. All-IsZero w.credentials)

  try_ldap-IsClean :
      (last : Option GoError) (user pass : String) (w : World R)
      → IsClean (try_ldap crypto b cfg last user pass w).1
  unfolding try_ldap
  try_ldap-IsClean last user pass w =
      if_elim LeavesClean cfg.ldap_enabled
        (λ _. elim (Result-cases (b.authenticate_ldap cfg.ldap_mount_path user pass w.remote).0) [
          | inl (e, p) ↦ rw p (try_app_role-IsClean (some e) user pass _)
          | inr (token, p) ↦ rw p (All-IsZero w.credentials)
        ])
        (λ _. try_app_role-IsClean last user pass w)

  try_userpass-IsClean :
      (user pass : String) (w : World R) → IsClean (try_userpass crypto b cfg user pass w).1
  unfolding try_userpass
  try_userpass-IsClean user pass w =
      if_elim LeavesClean cfg.userpass_enabled
        (λ _.
          elim (Result-cases
            (b.authenticate_userpass cfg.userpass_mount_path user pass w.remote).0) [
              | inl (e, p) ↦ rw p (try_ldap-IsClean (some e) user pass _)
              | inr (token, p) ↦ rw p (All-IsZero w.credentials)
            ])
        (λ _. try_ldap-IsClean none user pass w)

  abbrev encoded : List ℕ
  encoded = codes (trim_prefix r.authorization "Basic ")

  -- Basic credentials that cannot be decoded, of which the buffer has what was decoded before.
  abbrev pub IsUndecoded : World R → Type 0
  IsUndecoded w =
      (has_prefix r.authorization "Basic " ≡ true)
      × ((e : GoError) × (crypto.decode_base64 encoded ≡ err e))
      × (w.credentials ≡ crypto.partly_decoded encoded)

  abbrev pub IsLeft : World R → Type 0
  IsLeft w = IsClean w ⊎ IsUndecoded w

  abbrev Leaves : AuthResult × World R → Type 0
  Leaves x = IsLeft x.1

  authenticate_basic-IsLeft :
      (w : World R) → IsClean w → IsLeft (authenticate_basic crypto b cfg r w).1
  unfolding authenticate_basic
  authenticate_basic-IsLeft w c =
      if_elim Leaves (r.authorization == "") (λ _. inl c)
        λ _.
          if_elim Leaves (not (has_prefix r.authorization "Basic ")) (λ _. inl c)
            λ basic. elim (Result-cases (crypto.decode_base64 encoded)) [
              | inl (e, p) ↦ rw p (inr (ground (arith, basic), (e, refl), refl))
              | inr (decoded, p) ↦
                  rw p (elim (Option-cases (split_credentials (crypto.bytes_text decoded))) [
                    | inl q ↦ rw q (inl (All-IsZero decoded))
                    | inr ((user, pass), q) ↦
                        rw q (
                          inl (try_userpass-IsClean user pass (record w { credentials = decoded })))
                  ])
            ]

  -- A method that is not the last leaves the buffer clean for the rest.
  attempt-IsLeft :
      (enabled : Bool) (method rest : World R → AuthResult × World R)
      → ((w : World R) → IsClean w → IsClean (method w).1)
      → ((w : World R) → IsClean w → IsLeft (rest w).1)
      → (w : World R) → IsClean w
      → IsLeft (attempt crypto b cfg enabled method rest w).1
  attempt-IsLeft enabled method rest m k w c =
      if_elim Leaves enabled
        (λ _.
          if_elim Leaves (method w).0.authenticated (λ _. inl (m w c))
            (λ _. k (method w).1 (m w c)))
        (λ _. k w c)

  from_basic-IsLeft : (w : World R) → IsClean w → IsLeft (from_basic crypto b cfg r w).1
  unfolding from_basic
  from_basic-IsLeft w c =
      if_elim Leaves (cfg.userpass_enabled || cfg.ldap_enabled || cfg.app_role_enabled)
        (λ _.
          if_elim Leaves (authenticate_basic crypto b cfg r w).0.authenticated
            (λ _. authenticate_basic-IsLeft w c) (λ _. authenticate_basic-IsLeft w c))
        (λ _. inl c)

  authenticate_token-IsClean :
      (w : World R) → IsClean w → IsClean (authenticate_token crypto b cfg r w).1
  unfolding authenticate_token
  authenticate_token-IsClean w c =
      let token = trim_prefix r.authorization "Bearer " in
      if_elim LeavesClean (r.authorization == "") (λ _. c)
        λ _.
          if_elim LeavesClean (not (has_prefix r.authorization "Bearer ")) (λ _. c)
            λ _.
              if_elim LeavesClean (token == "") (λ _. c)
                λ _. elim (Result-cases (b.lookup_token token w.remote).0) [
                  | inl (e, p) ↦ rw p c
                  | inr (info, p) ↦ rw p c
                ]

  authenticate_peer-IsClean :
      (tls : Tls) (certs : List Certificate) (w : World R)
      → IsClean w
      → IsClean (authenticate_peer crypto b cfg tls certs w).1
  unfolding authenticate_peer
  authenticate_peer-IsClean tls [] w c = c
  authenticate_peer-IsClean tls (cert ∷ chain) w c =
      elim (Result-cases
        (b.authenticate_cert cfg.cert_mount_path tls cfg.cert_role cfg.cert_entity_alias_prefix
          cfg.cert_token_ttl w.remote).0) [
            | inl (e, p) ↦ rw (p, authenticate_peer) c
            | inr (token, p) ↦ rw (p, authenticate_peer) c
          ]

  authenticate_cert-IsClean :
      (tls : Option Tls) (w : World R)
      → IsClean w
      → IsClean (authenticate_cert crypto b cfg tls w).1
  unfolding authenticate_cert
  authenticate_cert-IsClean none w c = c
  authenticate_cert-IsClean (some tls) w c = authenticate_peer-IsClean tls tls.peer_certificates w c

  -- From a buffer that holds only zeros, an authentication leaves only zeros in it, whatever its
  -- result, but where basic credentials cannot be decoded: then the buffer keeps what was decoded
  -- before the error.
  pub authenticate-IsLeft : (w : World R) → IsClean w → IsLeft (authenticate crypto b cfg r w).1
  unfolding authenticate from_cert
  authenticate-IsLeft =
      attempt-IsLeft cfg.token_enabled (authenticate_token crypto b cfg r)
        (from_cert crypto b cfg r) authenticate_token-IsClean
        (attempt-IsLeft cfg.cert_enabled (authenticate_cert crypto b cfg r.tls)
          (from_basic crypto b cfg r) (authenticate_cert-IsClean r.tls) from_basic-IsLeft)
