-- ===== src/Backend/Identity.antt =====
-- pkg/backend/common_impl.go and entity_constants.go: entities for client certificates.
pub mod Laws
use Prim.Native.String.{slice, ◌++◌}
use est_service.Backend.Objects.{
  Method, asked_mounts, ignored, pure_step, read, request, step, write, ◌>>=◌,
}
use est_service.Prelude.{
  List, Option, Result, String, [], err, errorf, if◌then◌else◌, none, ok, some, ℕ, ◌&&◌, ◌==◌, ◌∷◌,
}
use est_service.X509.{Certificate}
use est_service.Pem.{PemCrypto}
use est_service.Est.Reenroll.{Tls}
use est_service.Backend.{Handle}
use est_service.Backend.Api.{
  Api, AuthMount, Fields, Secret, as_text, end, entry, field, table, text, texts,
}
use est_service.Backend.Logins.{contents_in, token_in}

-- `FingerprintPrefixLength`
abbrev pub fingerprint_prefix_length : ℕ
fingerprint_prefix_length = 16

-- `FormatEntityName`
abbrev pub format_entity_name : String → String → String → String
format_entity_name prefix cn fingerprint_prefix = prefix ++ (cn ++ ("-" ++ fingerprint_prefix))

-- `FormatEntityAlias`
abbrev pub format_entity_alias : String → String → String
format_entity_alias fingerprint cn = "cert:SHA256:" ++ (fingerprint ++ (":CN=" ++ cn))

-- A map of texts, as an object.
abbrev pub fields_of : List (String × String) → Fields
fields_of [] = end
fields_of ((key, value) ∷ entries) = field key (text value) (fields_of entries)

-- `secret.Data["id"].(string)`
abbrev id_in : Fields → Option String
id_in fields = as_text (entry "id" fields)

-- The contents of a reply, where neither it nor they are nil.
abbrev pub contents_of : Option Secret → Option Fields
contents_of none = none
contents_of (some secret) = secret.contents

or_missing : String → Option String → Result String
or_missing missing none = err (errorf missing)
or_missing missing (some id) = ok id

-- The ID of an entity that was read back.
unfoldable pub id_read : Option Secret → Result String
unfolding or_missing contents_in
id_read secret = elim (contents_in "no entity data returned after update" secret) [
  | err e ↦ err e
  | ok fields ↦ or_missing "entity ID not found in read response" (id_in fields)
]

-- `if len(policies) > 0 { data["policies"] = policies }`
abbrev policies_field : List String → Fields
policies_field [] = end
policies_field (policy ∷ policies) = field "policies" (texts (policy ∷ policies)) end

-- The ID of an alias, or a text where the reply has none.
abbrev pub alias_id : Option Fields → String
alias_id none = "<updated>"
alias_id (some fields) = elim (id_in fields) [ none ↦ "<updated>" | some id ↦ id ]

module _ {S : Type 0} (api : Api S) (h : Handle) where
  -- The ID of an entity that was created, or of one that was updated and is read back.
  unfoldable pub read_entity_id : String → Option Fields → Method S String
  unfolding or_missing id_read
  read_entity_id path (some fields) =
      pure_step (or_missing "entity ID not found in response" (id_in fields))
  read_entity_id path none = do
    secret ← step "failed to read entity after update: " (read api h path)
    pure_step (id_read secret)

  -- `CreateOrUpdateEntity`
  unfoldable pub create_or_update_entity :
      String → List (String × String) → List String → Method S String
  unfolding read_entity_id
  create_or_update_entity name metadata policies = do
    let path = "identity/entity/name/" ++ name
    secret ← step "failed to create/update entity: " (
        write api h path (
          some (
            field "name" (text name)
              (field "metadata" (table (fields_of metadata)) (policies_field policies)))))
    read_entity_id path (contents_of secret)

  -- `CreateOrUpdateEntityAlias`; only whether it failed is used, and its ID is for the log.
  unfoldable pub create_or_update_entity_alias : String → String → String → Method S String
  create_or_update_entity_alias entity alias_name accessor = do
    secret ← step "failed to create/update entity alias: " (
        write api h "identity/entity-alias" (
          some (
            field "name" (text alias_name)
              (field "canonical_id" (text entity) (field "mount_accessor" (text accessor) end)))))
    pure_step (ok (alias_id (contents_of secret)))

  -- `CreateTokenForEntity`
  unfoldable pub create_token_for_entity : String → List String → String → Method S String
  unfolding token_in
  create_token_for_entity entity policies ttl = do
    secret ← step "failed to create token for entity: " (
        write api h "auth/token/create" (
          some (
            field "entity_id" (text entity) (
              field "policies" (texts policies)
                (if ttl == "" then end else field "ttl" (text ttl) end)))))
    pure_step (token_in "no auth token returned" secret)

-- The loop over the mounts: the accessor of the token method at "token/".
unfoldable pub token_accessor : List (String × AuthMount) → String
token_accessor [] = ""
token_accessor ((path, mount) ∷ mounts) =
    if mount.kind == "token" && path == "token/" then mount.accessor else token_accessor mounts

-- The accessor, which must be there.
unfoldable pub accessor_in : List (String × AuthMount) → Result String
unfolding token_accessor
accessor_in mounts =
    if token_accessor mounts == ""
    then err (errorf "token auth mount accessor not found")
    else ok (token_accessor mounts)

-- `policies`
abbrev pub policies_of : String → List String
policies_of role = if role == "" then [] else role ∷ []

-- `cn`, which is never empty
abbrev pub cn_of : Certificate → String
cn_of cert = if cert.common_name == "" then "unknown" else cert.common_name

abbrev pub entity_name_of : PemCrypto → String → Certificate → String
entity_name_of pem prefix cert =
    format_entity_name prefix (cn_of cert)
      (slice (pem.fingerprint cert.raw) 0 fingerprint_prefix_length)

abbrev pub entity_alias_of : PemCrypto → Certificate → String
entity_alias_of pem cert = format_entity_alias (pem.fingerprint cert.raw) (cn_of cert)

-- `metadata`
unfoldable pub metadata_of : PemCrypto → Certificate → List (String × String)
metadata_of pem cert =
    ("cert_fingerprint", pem.fingerprint cert.raw)
    ∷ ("cert_subject", cert.subject)
    ∷ ("cert_cn", cn_of cert)
    ∷ ("cert_serial", cert.serial_number)
    ∷ ("cert_not_before", pem.not_before cert)
    ∷ ("cert_not_after", pem.not_after cert)
    ∷ ("source", "est-service")
    ∷ []

module _ {S : Type 0} (api : Api S) (pem : PemCrypto) (h : Handle) where
  -- The alias, the error of which is only logged, and the token.
  unfoldable pub enter : Certificate → List String → String → String → String → Method S String
  enter cert policies ttl entity accessor =
      ignored (create_or_update_entity_alias api h entity (entity_alias_of pem cert) accessor) (
        step "failed to create token for entity: "
          (create_token_for_entity api h entity policies ttl))

  -- From the list of the mounts on.
  unfoldable pub enter_mounted : Certificate → List String → String → String → Method S String
  unfolding accessor_in enter
  enter_mounted cert policies ttl entity = do
    mounts ← step "failed to list auth mounts: " (request h asked_mounts api.list_auth)
    accessor ← pure_step (accessor_in mounts)
    enter cert policies ttl entity accessor

  -- `AuthenticateCert`, for the first certificate
  unfoldable pub identify : Certificate → String → String → String → Method S String
  unfolding metadata_of enter_mounted
  identify cert role prefix ttl = do
    entity ← step "failed to create entity for client certificate: " (
        create_or_update_entity api h (entity_name_of pem prefix cert) (metadata_of pem cert)
          (policies_of role))
    enter_mounted cert (policies_of role) ttl entity

  -- The certificates of a connection, the client's own first.
  unfoldable pub identify_first : List Certificate → String → String → String → Method S String
  unfolding identify
  identify_first [] role prefix ttl = pure_step (err (errorf "no client certificate provided"))
  identify_first (cert ∷ chain) role prefix ttl = identify cert role prefix ttl

  -- `AuthenticateCert`
  unfoldable pub authenticate_cert : Option Tls → String → String → String → Method S String
  unfolding identify_first
  authenticate_cert none role prefix ttl = pure_step (err (errorf "no client certificate provided"))
  authenticate_cert (some tls) role prefix ttl =
      identify_first tls.peer_certificates role prefix ttl
