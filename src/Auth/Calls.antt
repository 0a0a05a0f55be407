-- ===== src/Auth/Calls.antt =====
-- Which calls of the backend an authentication makes, and in what order.
use est_service.Est.Reenroll.{Tls}
use Prim.Native.Nat.{◌≤◌}
use mathlib.Core.List.{append_assoc, cons≢nil}
use est_service.Prelude.{
  Bool, GoError, List, Option, Option-cases, Result-cases, String, [], ap, arith, codes, eq_iff,
  errorf, has_prefix, if_elim, inl, inr, none, not, refl, some, sym, trim_prefix, true, ℕ, ◌++◌,
  ◌<◌, ◌==◌, ◌||◌, ◌∙◌, ◌∷◌, ◌≡◌, ◌≢◌,
}
use est_service.X509.{Certificate, Crypto}
use est_service.Http.{Request}
use est_service.Backend.{Backend}
use est_service.World.{
  Call, World, app_role, call_ldap, call_userpass, cert_login, ldap, lookup, userpass,
}
use est_service.Auth.{
  AuthConfig, AuthResult, attempt, authenticate, authenticate_basic, authenticate_cert,
  authenticate_peer, authenticate_token, from_basic, from_cert, refused, split_credentials,
  try_app_role, try_ldap, try_userpass,
}
use est_service.Auth.Laws.{Carries}

-- The place of a call in the order of the methods; 5 for the calls that are none.
abbrev pub place : Call → ℕ
place (lookup _) = 0
place (cert_login _ _ _ _ _) = 1
place (userpass _ _ _) = 2
place (ldap _ _ _) = 3
place (app_role _ _ _) = 4
place _ = 5

module _ {R : Type 0} (crypto : Crypto) (b : Backend R) (cfg : AuthConfig) (r : Request) where
  -- A call of an enabled method, with what the request carries.
  abbrev pub Permitted : Call → Type 0
  Permitted (lookup token) =
      (cfg.token_enabled ≡ true)
      × (has_prefix r.authorization "Bearer " ≡ true)
      × (token ≡ trim_prefix r.authorization "Bearer ")
      × (token ≢ "")
  Permitted (cert_login mount tls role prefix ttl) =
      (cfg.cert_enabled ≡ true)
      × (r.tls ≡ some tls)
      × (tls.peer_certificates ≢ [])
      × (mount ≡ cfg.cert_mount_path)
      × (role ≡ cfg.cert_role)
      × (prefix ≡ cfg.cert_entity_alias_prefix)
      × (ttl ≡ cfg.cert_token_ttl)
  Permitted (userpass mount user pass) =
      (cfg.userpass_enabled ≡ true)
      × (mount ≡ cfg.userpass_mount_path)
      × Carries crypto b cfg r user pass
  Permitted (ldap mount user pass) =
      (cfg.ldap_enabled ≡ true) × (mount ≡ cfg.ldap_mount_path) × Carries crypto b cfg r user pass
  Permitted (app_role mount user pass) =
      (cfg.app_role_enabled ≡ true)
      × (mount ≡ cfg.app_role_mount_path)
      × Carries crypto b cfg r user pass
  Permitted _ = ⊥

  -- Permitted calls, the latest first, whose places fall from below `hi` and not below `lo`.
  abbrev pub Ordered : ℕ → ℕ → List Call → Type 0
  Ordered lo hi [] = lo ≤ hi
  Ordered lo hi (c ∷ cs) = (place c < hi) × Permitted c × Ordered lo (place c) cs

  Ordered-widen :
      (lo lo' hi hi' : ℕ) (cs : List Call)
      → lo' ≤ lo
      → hi ≤ hi'
      → Ordered lo hi cs
      → Ordered lo' hi' cs
  Ordered-widen lo lo' hi hi' [] p q h = omega arith
  Ordered-widen lo lo' hi hi' (c ∷ cs) p q (h, ok', t) =
      (omega arith, ok', Ordered-widen lo lo' (place c) (place c) cs p (omega arith) t)

  Ordered-append :
      (lo mid hi : ℕ) (new old : List Call)
      → Ordered mid hi new
      → Ordered lo mid old
      → Ordered lo hi (new ++ old)
  Ordered-append lo mid hi [] old h k = Ordered-widen lo lo mid hi old (omega arith) h k
  Ordered-append lo mid hi (c ∷ cs) old (h, ok', t) k =
      (h, ok', Ordered-append lo mid (place c) cs old t k)

  -- The calls that lead from one world to another.
  pub record Made (lo hi : ℕ) (before after : World R) : Type 0 where
    pub calls : List Call
    pub grown : after.calls ≡ calls ++ before.calls
    pub ordered : Ordered lo hi calls

  Made-none : (lo hi : ℕ) {v w : World R} → lo ≤ hi → w.calls ≡ v.calls → Made lo hi v w
  Made-none lo hi le e = record { calls = []; grown = e; ordered = le }

  Made-one :
      (lo hi : ℕ) {v w : World R} (c : Call)
      → w.calls ≡ c ∷ v.calls
      → lo ≤ place c
      → place c < hi
      → Permitted c
      → Made lo hi v w
  Made-one lo hi c e le lt p = record { calls = c ∷ []; grown = e; ordered = (lt, p, le) }

  Made-trans :
      (lo mid hi : ℕ) {u v w : World R} → Made lo mid u v → Made mid hi v w → Made lo hi u w
  Made-trans lo mid hi {u} f g = record {
    calls = g.calls ++ f.calls;
    grown = g.grown ∙ ap (λ cs. g.calls ++ cs) f.grown ∙ sym (append_assoc g.calls f.calls u.calls);
    ordered = Ordered-append lo mid hi g.calls f.calls g.ordered f.ordered;
  }

  Made-widen :
      (lo lo' hi hi' : ℕ) {v w : World R} → lo' ≤ lo → hi ≤ hi' → Made lo hi v w → Made lo' hi' v w
  Made-widen lo lo' hi hi' p q m = record {
    calls = m.calls;
    grown = m.grown;
    ordered = Ordered-widen lo lo' hi hi' m.calls p q m.ordered;
  }

  abbrev MadeBy : ℕ → ℕ → World R → AuthResult × World R → Type 0
  MadeBy lo hi w x = Made lo hi w x.1

  module _ (w : World R) where
    token_makes : cfg.token_enabled ≡ true → Made 0 1 w (authenticate_token crypto b cfg r w).1
    unfolding authenticate_token
    token_makes on =
        let token = trim_prefix r.authorization "Bearer " in
        let quiet : Made 0 1 w w = Made-none 0 1 (omega arith) refl in
        if_elim (MadeBy 0 1 w) (r.authorization == "") (λ _. quiet)
          λ _.
            if_elim (MadeBy 0 1 w) (not (has_prefix r.authorization "Bearer ")) (λ _. quiet)
              λ bearer.
                if_elim (MadeBy 0 1 w) (token == "") (λ _. quiet)
                  λ full.
                    let may : Permitted (lookup token) = (
                      on,
                      ground (arith, bearer),
                      refl,
                      λ e. ground (arith, full, (eq_iff token "").1 e),
                    ) in
                    elim (Result-cases (b.lookup_token token w.remote).0) [
                      | inl (e, p) ↦
                          rw p (Made-one 0 1 (lookup token) refl (omega arith) (omega arith) may)
                      | inr (info, p) ↦
                          rw p (Made-one 0 1 (lookup token) refl (omega arith) (omega arith) may)
                    ]

    peer_makes :
        (tls : Tls) (certs : List Certificate)
        → cfg.cert_enabled ≡ true
        → r.tls ≡ some tls
        → tls.peer_certificates ≡ certs
        → Made 1 2 w (authenticate_peer crypto b cfg tls certs w).1
    unfolding authenticate_peer
    peer_makes tls [] on given same = Made-none 1 2 (omega arith) refl
    peer_makes tls (cert ∷ chain) on given same =
        let login =
          cert_login cfg.cert_mount_path tls cfg.cert_role cfg.cert_entity_alias_prefix
            cfg.cert_token_ttl in
        let may : Permitted login =
          (on, given, λ none_left. cons≢nil (sym same ∙ none_left), refl, refl, refl, refl) in
        elim (Result-cases
          (b.authenticate_cert cfg.cert_mount_path tls cfg.cert_role cfg.cert_entity_alias_prefix
            cfg.cert_token_ttl w.remote).0) [
              | inl (e, p) ↦
                  rw (p, authenticate_peer)
                    (Made-one 1 2 login refl (omega arith) (omega arith) may)
              | inr (token, p) ↦
                  rw (p, authenticate_peer)
                    (Made-one 1 2 login refl (omega arith) (omega arith) may)
            ]

    cert_makes :
        (tls : Option Tls)
        → cfg.cert_enabled ≡ true
        → r.tls ≡ tls
        → Made 1 2 w (authenticate_cert crypto b cfg tls w).1
    unfolding authenticate_cert
    cert_makes none on given = Made-none 1 2 (omega arith) refl
    cert_makes (some tls) on given = peer_makes tls tls.peer_certificates on given refl

  module _ (user pass : String) (given : Carries crypto b cfg r user pass) where
    app_role_makes :
        (last : Option GoError) (w : World R)
        → Made 4 5 w (try_app_role crypto b cfg last user pass w).1
    unfolding try_app_role
    app_role_makes last w =
        let login = app_role cfg.app_role_mount_path user pass in
        if_elim (MadeBy 4 5 w) cfg.app_role_enabled
          (λ on.
            elim (Result-cases
              (b.authenticate_app_role cfg.app_role_mount_path user pass w.remote).0) [
                | inl (e, p) ↦
                    rw p (Made-one 4 5 login refl (omega arith) (omega arith) (on, refl, given))
                | inr (token, p) ↦
                    rw p (Made-one 4 5 login refl (omega arith) (omega arith) (on, refl, given))
              ])
          (λ _. Made-none 4 5 (omega arith) refl)

    ldap_makes :
        (last : Option GoError) (w : World R)
        → Made 3 5 w (try_ldap crypto b cfg last user pass w).1
    unfolding try_ldap
    ldap_makes last w =
        let mount = cfg.ldap_mount_path in
        if_elim (MadeBy 3 5 w) cfg.ldap_enabled
          (λ on. elim (Result-cases (b.authenticate_ldap mount user pass w.remote).0) [
            | inl (e, p) ↦ rw p (
                Made-trans 3 4 5 {v = (call_ldap b mount user pass w).1}
                  (Made-one 3 4 (ldap mount user pass) refl (omega arith) (omega arith)
                    (on, refl, given))
                  (app_role_makes (some e) (call_ldap b mount user pass w).1))
            | inr (token, p) ↦ rw p (
                Made-one 3 5 (ldap mount user pass) refl (omega arith) (omega arith)
                  (on, refl, given))
          ])
          (λ _. Made-widen 4 3 5 5 (omega arith) (omega arith) (app_role_makes last w))

    userpass_makes : (w : World R) → Made 2 5 w (try_userpass crypto b cfg user pass w).1
    unfolding try_userpass
    userpass_makes w =
        let mount = cfg.userpass_mount_path in
        if_elim (MadeBy 2 5 w) cfg.userpass_enabled
          (λ on. elim (Result-cases (b.authenticate_userpass mount user pass w.remote).0) [
            | inl (e, p) ↦ rw p (
                Made-trans 2 3 5 {v = (call_userpass b mount user pass w).1}
                  (Made-one 2 3 (userpass mount user pass) refl (omega arith) (omega arith)
                    (on, refl, given))
                  (ldap_makes (some e) (call_userpass b mount user pass w).1))
            | inr (token, p) ↦ rw p (
                Made-one 2 5 (userpass mount user pass) refl (omega arith) (omega arith)
                  (on, refl, given))
          ])
          (λ _. Made-widen 3 2 5 5 (omega arith) (omega arith) (ldap_makes none w))

  -- The buffer is no part of the trace.
  basic_from :
      (w : World R) (decoded : List ℕ) {v : World R}
      → Made 2 5 (record w { credentials = decoded }) v
      → Made 2 5 w v
  basic_from w decoded m = record { calls = m.calls; grown = m.grown; ordered = m.ordered }

  basic_makes : (w : World R) → Made 2 5 w (authenticate_basic crypto b cfg r w).1
  unfolding authenticate_basic
  basic_makes w =
      let encoded = codes (trim_prefix r.authorization "Basic ") in
      let quiet : (v : World R) → v.calls ≡ w.calls → Made 2 5 w v =
        λ v e. Made-none 2 5 (omega arith) e in
      if_elim (MadeBy 2 5 w) (r.authorization == "") (λ _. quiet w refl)
        λ _.
          if_elim (MadeBy 2 5 w) (not (has_prefix r.authorization "Basic ")) (λ _. quiet w refl)
            λ basic. elim (Result-cases (crypto.decode_base64 encoded)) [
              | inl (e, p) ↦ rw p (quiet _ refl)
              | inr (decoded, p) ↦
                  rw p (elim (Option-cases (split_credentials (crypto.bytes_text decoded))) [
                    | inl q ↦ rw q (quiet _ refl)
                    | inr ((user, pass), q) ↦ rw q (
                        basic_from w decoded (
                          userpass_makes user pass (decoded, p, ground (arith, basic), q)
                            (record w { credentials = decoded })))
                  ])
            ]

  attempt_makes :
      (lo mid hi : ℕ) (enabled : Bool) (method rest : World R → AuthResult × World R)
      → lo ≤ mid
      → mid ≤ hi
      → ((w : World R) → enabled ≡ true → Made lo mid w (method w).1)
      → ((w : World R) → Made mid hi w (rest w).1)
      → (w : World R) → Made lo hi w (attempt crypto b cfg enabled method rest w).1
  attempt_makes lo mid hi enabled method rest p q m k w =
      if_elim (MadeBy lo hi w) enabled
        (λ on.
          if_elim (MadeBy lo hi w) (method w).0.authenticated
            (λ _. Made-widen lo lo mid hi (omega arith) q (m w on))
            (λ _. Made-trans lo mid hi {v = (method w).1} (m w on) (k (method w).1)))
        (λ _. Made-widen mid lo hi hi p (omega arith) (k w))

  -- An authentication calls the backend at most once for each method, in the order token,
  -- certificate, userpass, LDAP, AppRole, and only for enabled methods, at their mounts: it looks up
  -- the token, which is not empty, of an Authorization header that begins with `Bearer `, logs in with
  -- the TLS state of the request's own connection, which has a client certificate, and with the
  -- configured role, prefix and TTL, or with the user and password that the request carries.
  pub authenticate_makes : (w : World R) → Made 0 5 w (authenticate crypto b cfg r w).1
  unfolding authenticate from_cert from_basic
  authenticate_makes =
      attempt_makes 0 1 5 cfg.token_enabled (authenticate_token crypto b cfg r)
        (from_cert crypto b cfg r) (omega arith) (omega arith) token_makes
        (attempt_makes 1 2 5 cfg.cert_enabled (authenticate_cert crypto b cfg r.tls)
          (from_basic crypto b cfg r) (omega arith) (omega arith)
          (λ w on. cert_makes w r.tls on refl)
          (attempt_makes 2 5 5 (cfg.userpass_enabled || cfg.ldap_enabled || cfg.app_role_enabled)
            (authenticate_basic crypto b cfg r)
            (λ w. (refused (some (errorf "no valid authentication method found")), w)) (omega arith)
            (omega arith) (λ w _. basic_makes w) (λ w. Made-none 5 5 (omega arith) refl)))
