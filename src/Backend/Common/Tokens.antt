-- ===== src/Backend/Common/Tokens.antt =====
-- The tokens that the common implementation holds between two requests.
use est_service.Backend.Common.{common}
use est_service.Auth.Kept.{LoginsKeep}
use est_service.X509.{Certificate}
use est_service.Pem.{PemCrypto}
use est_service.Est.Reenroll.{Tls}
use est_service.Backend.Objects.{
  Clients, Sent, asked_mounts, pure_step, read_path, request, step, token_of, ◌>>=◌,
}
use est_service.Prelude.{
  List, Option, Result, Result-cases, String, [], inl, inr, none, ok, refl, some, ◌∷◌, ◌≡◌,
}
use est_service.Backend.Api.{Api, Fields}
use est_service.Backend.Objects.Quiet.{
  Quiet, Undisturbed, bind-Quiet, ignored-Quiet, pure-Quiet, request-Quiet, step-Quiet,
}
use est_service.Backend.Logins.{
  authenticate_app_role, authenticate_ldap, authenticate_userpass, look_up,
}
use est_service.Backend.Identity.{
  accessor_in, alias_id, authenticate_cert, contents_of, create_or_update_entity,
  create_or_update_entity_alias, create_token_for_entity, enter, enter_mounted, entity_alias_of,
  entity_name_of, id_read, identify, identify_first, metadata_of, policies_of, read_entity_id,
}

module _ {S : Type 0} (api : Api S) (t : String) where
  -- A request, and a look into its reply.
  asked-Quiet :
      {A B : Type 0} (prefix : String) (describe : String → Sent) (call : String → S → Result A × S)
      (f : A → Result B)
      → Quiet 0 t (step prefix (request 0 describe call) >>= λ a. pure_step (f a))
  asked-Quiet prefix describe call f =
      bind-Quiet 0 t (step prefix (request 0 describe call)) (λ a. pure_step (f a))
        (request-Quiet 0 t describe call) (λ a. pure-Quiet 0 t (f a))

  userpass-Quiet :
      (mount user pass : String) → Quiet 0 t (authenticate_userpass api 0 mount user pass)
  unfolding authenticate_userpass
  userpass-Quiet mount user pass = asked-Quiet _ _ _ _

  ldap-Quiet : (mount user pass : String) → Quiet 0 t (authenticate_ldap api 0 mount user pass)
  unfolding authenticate_ldap
  ldap-Quiet mount user pass = asked-Quiet _ _ _ _

  app_role-Quiet :
      (mount role secret : String) → Quiet 0 t (authenticate_app_role api 0 mount role secret)
  unfolding authenticate_app_role
  app_role-Quiet mount role secret = asked-Quiet _ _ _ _

  look_up-Quiet : (token : String) → Quiet 0 t (look_up api 0 token)
  unfolding look_up
  look_up-Quiet token c opened = elim (Result-cases (api.cloned c.remote)) [
    | inl (e, p) ↦ rw (opened, look_up, p) (refl, refl)
    | inr (_, p) ↦ rw (opened, look_up, p) (refl, refl)
  ]

  read_entity_id-Quiet :
      (path : String) (found : Option Fields) → Quiet 0 t (read_entity_id api 0 path found)
  unfolding read_entity_id
  read_entity_id-Quiet path (some fields) = λ c opened. (refl, refl)
  read_entity_id-Quiet path none =
      asked-Quiet "failed to read entity after update: " (λ u. read_path u path)
        (λ u. api.read u path) id_read

  entity-Quiet :
      (name : String) (metadata : List (String × String)) (policies : List String)
      → Quiet 0 t (create_or_update_entity api 0 name metadata policies)
  unfolding create_or_update_entity
  entity-Quiet name metadata policies =
      bind-Quiet 0 t _ _ (request-Quiet 0 t _ _)
        (λ secret. read_entity_id-Quiet _ (contents_of secret))

  alias-Quiet :
      (entity alias_name accessor : String)
      → Quiet 0 t (create_or_update_entity_alias api 0 entity alias_name accessor)
  unfolding create_or_update_entity_alias
  alias-Quiet entity alias_name accessor =
      bind-Quiet 0 t _ _ (request-Quiet 0 t _ _)
        (λ secret. pure-Quiet 0 t (ok (alias_id (contents_of secret))))

  token-Quiet :
      (entity : String) (policies : List String) (ttl : String)
      → Quiet 0 t (create_token_for_entity api 0 entity policies ttl)
  unfolding create_token_for_entity
  token-Quiet entity policies ttl = asked-Quiet _ _ _ _

  module _ (pem : PemCrypto) where
    enter-Quiet :
        (cert : Certificate) (policies : List String) (ttl entity accessor : String)
        → Quiet 0 t (enter api pem 0 cert policies ttl entity accessor)
    unfolding enter
    enter-Quiet cert policies ttl entity accessor =
        ignored-Quiet 0 t
          (create_or_update_entity_alias api 0 entity (entity_alias_of pem cert) accessor)
          (step "failed to create token for entity: "
            (create_token_for_entity api 0 entity policies ttl))
          (alias-Quiet entity (entity_alias_of pem cert) accessor)
          (step-Quiet 0 t "failed to create token for entity: "
            (create_token_for_entity api 0 entity policies ttl) (token-Quiet entity policies ttl))

    enter_mounted-Quiet :
        (cert : Certificate) (policies : List String) (ttl entity : String)
        → Quiet 0 t (enter_mounted api pem 0 cert policies ttl entity)
    unfolding enter_mounted
    enter_mounted-Quiet cert policies ttl entity =
        bind-Quiet 0 t (step "failed to list auth mounts: " (request 0 asked_mounts api.list_auth))
          (λ mounts. pure_step (accessor_in mounts) >>= enter api pem 0 cert policies ttl entity)
          (request-Quiet 0 t asked_mounts api.list_auth)
          λ mounts.
            bind-Quiet 0 t (pure_step (accessor_in mounts))
              (enter api pem 0 cert policies ttl entity) (pure-Quiet 0 t (accessor_in mounts))
              (enter-Quiet cert policies ttl entity)

    identify-Quiet :
        (cert : Certificate) (role prefix ttl : String)
        → Quiet 0 t (identify api pem 0 cert role prefix ttl)
    unfolding identify
    identify-Quiet cert role prefix ttl =
        bind-Quiet 0 t
          (step "failed to create entity for client certificate: " (
            create_or_update_entity api 0 (entity_name_of pem prefix cert) (metadata_of pem cert)
              (policies_of role)))
          (enter_mounted api pem 0 cert (policies_of role) ttl)
          (entity-Quiet (entity_name_of pem prefix cert) (metadata_of pem cert) (policies_of role))
          (enter_mounted-Quiet cert (policies_of role) ttl)

    identify_first-Quiet :
        (certs : List Certificate) (role prefix ttl : String)
        → Quiet 0 t (identify_first api pem 0 certs role prefix ttl)
    unfolding identify_first
    identify_first-Quiet [] role prefix ttl = λ c opened. (refl, refl)
    identify_first-Quiet (cert ∷ chain) role prefix ttl = identify-Quiet cert role prefix ttl

    certificate-Quiet :
        (tls : Option Tls) (role prefix ttl : String)
        → Quiet 0 t (authenticate_cert api pem 0 tls role prefix ttl)
    unfolding authenticate_cert
    certificate-Quiet none role prefix ttl = λ c opened. (refl, refl)
    certificate-Quiet (some tls) role prefix ttl =
        identify_first-Quiet tls.peer_certificates role prefix ttl

  -- Every login leaves the objects alone, so what is said of them alone is kept.
  pub common-LoginsKeep :
      (pem : PemCrypto) (P : Clients S → Type 0)
      → ((c c' : Clients S) → P c → Undisturbed 0 t c c' → P c')
      → ((c : Clients S) → P c → token_of 0 c.objects ≡ some t)
      → LoginsKeep (common api pem) P
  common-LoginsKeep pem P stable opened = record {
    userpass = λ mount user pass c p. stable c _ p (userpass-Quiet mount user pass c (opened c p));
    ldap = λ mount user pass c p. stable c _ p (ldap-Quiet mount user pass c (opened c p));
    app_role =
        λ mount role secret c p. stable c _ p (app_role-Quiet mount role secret c (opened c p));
    cert = λ mount tls role prefix ttl c p.
        stable c _ p (certificate-Quiet pem (some tls) role prefix ttl c (opened c p));
    lookup = λ token c p. stable c _ p (look_up-Quiet token c (opened c p));
  }
