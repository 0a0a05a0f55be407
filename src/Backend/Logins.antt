-- ===== src/Backend/Logins.antt =====
-- pkg/backend/common_impl.go: the logins with a password or a secret, and the tokens.
use Prim.Native.String.{◌++◌}
use est_service.Backend.Objects.{
  Clients, Method, pure_step, read_path, renewed, request, step, token_of, write, ◌>>=◌,
}
use est_service.Prelude.{
  Bool, Option, Result, String, err, errorf, false, none, ok, some, true, wrap, ◌∷◌,
}
use est_service.Backend.{Handle}
use est_service.Backend.Api.{Api, Fields, Secret, end, field, text}

-- `secret.Auth.ClientToken`, where neither is nil
unfoldable pub token_in : String → Option Secret → Result String
token_in nothing none = err (errorf nothing)
token_in nothing (some secret) = elim secret.client_token [
  | none ↦ err (errorf nothing)
  | some token ↦ ok token
]

-- `secret.Data`, where neither is nil
unfoldable pub contents_in : String → Option Secret → Result Fields
contents_in nothing none = err (errorf nothing)
contents_in nothing (some secret) = elim secret.contents [
  | none ↦ err (errorf nothing)
  | some fields ↦ ok fields
]

-- The end of `LookupToken`.
abbrev looked_up : Result (Option Secret) → Result Fields
looked_up (err e) = err (wrap "failed to lookup token: " e)
looked_up (ok reply) = contents_in "no token data returned" reply

module _ {S : Type 0} (api : Api S) (h : Handle) where
  -- `AuthenticateUserpass`
  unfoldable pub authenticate_userpass : String → String → String → Method S String
  unfolding token_in
  authenticate_userpass mount username password = do
    secret ← step "authentication failed: " (
        write api h ("auth/" ++ mount ++ "/login/" ++ username)
          (some (field "password" (text password) end)))
    pure_step (token_in "no auth token returned" secret)

  -- `AuthenticateLDAP`
  unfoldable pub authenticate_ldap : String → String → String → Method S String
  unfolding token_in
  authenticate_ldap mount username password = do
    secret ← step "LDAP authentication failed: " (
        write api h ("auth/" ++ mount ++ "/login/" ++ username)
          (some (field "password" (text password) end)))
    pure_step (token_in "no auth info returned from LDAP" secret)

  -- `AuthenticateAppRole`
  unfoldable pub authenticate_app_role : String → String → String → Method S String
  unfolding token_in
  authenticate_app_role mount role_id secret_id = do
    secret ← step "authentication failed: " (
        write api h ("auth/" ++ mount ++ "/login")
          (some (field "role_id" (text role_id) (field "secret_id" (text secret_id) end))))
    pure_step (token_in "no auth token returned" secret)

  -- `LookupToken`, whose temporary client is a clone with the token, and stays as it is.
  unfoldable pub look_up : String → Method S Fields
  unfolding contents_in
  look_up token c = elim (token_of h c.objects) [
    | none ↦ (err (errorf "nil client"), record c { faulted = true })
    | some _ ↦ elim (api.cloned c.remote) [
      | err e ↦ (err (wrap "failed to clone client: " e), c)
      | ok _ ↦
          let (reply, s) = api.read token "auth/token/lookup-self" c.remote in
          (
            looked_up reply,
            record c {
              remote = s;
              temporary = token ∷ c.temporary;
              sent = read_path token "auth/token/lookup-self" ∷ c.sent;
            },
          )
    ]
  ]

  -- `ValidateToken`: its error is always nil.
  unfoldable pub validate_token : String → Clients S → Bool × Clients S
  validate_token token c =
      let (info, c') = look_up token c in (elim info [ err _ ↦ false | ok _ ↦ true ], c')

  -- `RenewToken`: the log reads `secret.Auth`, which faults where it is nil.
  unfoldable pub renew_token : Method S (Unit {0})
  renew_token c =
      let (reply, c') = step "failed to renew token: " (request h renewed api.renew_self) c in
      elim reply [
        | err e ↦ (err e, c')
        | ok none ↦ (err (errorf "no secret returned from token renewal"), c')
        | ok (some secret) ↦ elim secret.client_token [
          | none ↦ (err (errorf "nil auth"), record c' { faulted = true })
          | some _ ↦ (ok tt, c')
        ]
      ]
