-- ===== src/Backend/Transit/Laws.antt =====
-- The requests that the generation of a key in the transit engine makes.
use est_service.X509.{PrivateKey}
use mathlib.Core.List.{append_assoc}
use Prim.Native.String.{◌++◌ as append}
use est_service.Backend.Objects.{
  Clients, Sent, deleted, read, read_path, step, token_of, write, wrote,
}
use est_service.Prelude.{
  GoError, List, Result, Result-cases, String, [], ap, err, inl, inr, ok, refl, some, sym, wrap, ℤ,
  ◌++◌, ◌∙◌, ◌∷◌, ◌≡◌,
}
use est_service.Pem.{PemCrypto}
use est_service.Backend.{Handle}
use est_service.Backend.Api.{Api}
use est_service.Backend.Objects.Laws.{Sends, ended-Sends, request-Sends}
use est_service.Backend.Transit.{
  create_and_export, deletable, delete_key, export_key, export_path, exported_key,
  generate_exportable_key, key_path, map_to_transit_key_type, new_key_data, temporary_name,
}

module _ {S : Type 0} (api : Api S) (pem : PemCrypto) (h : Handle) (t : String) where
  Sends-trans :
      (a b c : Clients S) (first second : List Sent)
      → Sends first a b
      → Sends second b c
      → Sends (second ++ first) a c
  Sends-trans a b c first second p q = record {
    objects = q.objects ∙ p.objects;
    faulted = q.faulted ∙ p.faulted;
    sent = q.sent ∙ ap (λ l. second ++ l) p.sent ∙ sym (append_assoc second first a.sent);
  }

  -- The export of a key sends one request.
  export_key-Sends :
      (mount kind name : String) (c : Clients S)
      → token_of h c.objects ≡ some t
      → Sends
          (read_path t (export_path mount kind name) ∷ [])
          c
          (export_key api pem h mount kind name c).1
  unfolding export_key
  export_key-Sends mount kind name c opened =
      ended-Sends
        (step "failed to export Transit key: " (read api h (export_path mount kind name)) c)
        (exported_key pem) (request-Sends h _ _ c opened)

  delete_key-Sends :
      (mount name : String) (c : Clients S)
      → token_of h c.objects ≡ some t
      → Sends
          (deleted t (key_path mount name)
            ∷ wrote t (append (key_path mount name) "/config") (some deletable)
            ∷ [])
          c
          (delete_key api pem h mount name c)
  unfolding delete_key
  delete_key-Sends mount name c opened =
      let path = key_path mount name in
      let c' = (write api h (append path "/config") (some deletable) c).1 in
      let configured : Sends (wrote t (append path "/config") (some deletable) ∷ []) c c' =
        request-Sends h _ _ c opened in
      Sends-trans c c' _ _ (deleted t path ∷ []) configured
        (request-Sends h _ _ c' (ap (token_of h) configured.objects ∙ opened))

  -- The requests of a generation, the latest first, and its result.
  pub data Generation (mount kind : String) (bits : ℤ) (c : Clients S)
      : Result PrivateKey × Clients S → Type 0 where
    unsupported :
        (e : GoError)
        → map_to_transit_key_type kind bits ≡ err e
        → Generation mount kind bits c (err (wrap "invalid key type/size: " e), c)
    not_created :
        {x : Result PrivateKey × Clients S} (transit_type : String) (e : GoError)
        → map_to_transit_key_type kind bits ≡ ok transit_type
        → x.0 ≡ err (wrap "failed to create Transit key: " e)
        → Sends
            (wrote t
                (key_path mount (temporary_name api pem h c))
                (some (new_key_data transit_type))
              ∷ [])
            c
            x.1
        → Generation mount kind bits c x
    cleaned :
        {x : Result PrivateKey × Clients S} (transit_type : String)
        → map_to_transit_key_type kind bits ≡ ok transit_type
        → Sends
            (deleted t (key_path mount (temporary_name api pem h c))
              ∷ wrote t
                  (append (key_path mount (temporary_name api pem h c)) "/config")
                  (some deletable)
              ∷ read_path t (export_path mount kind (temporary_name api pem h c))
              ∷ wrote t
                  (key_path mount (temporary_name api pem h c))
                  (some (new_key_data transit_type))
              ∷ [])
            c
            x.1
        → Generation mount kind bits c x

  exported_and_deleted :
      (mount kind name : String) (c : Clients S)
      → token_of h c.objects ≡ some t
      → Sends
          (deleted t (key_path mount name)
            ∷ wrote t (append (key_path mount name) "/config") (some deletable)
            ∷ read_path t (export_path mount kind name)
            ∷ [])
          c
          (delete_key api pem h mount name (export_key api pem h mount kind name c).1)
  exported_and_deleted mount kind name c opened =
      let exported = export_key-Sends mount kind name c opened in
      Sends-trans c (export_key api pem h mount kind name c).1 _ _ _ exported
        (delete_key-Sends mount name _ (ap (token_of h) exported.objects ∙ opened))

  created-Generation :
      (mount kind : String) (bits : ℤ) (transit_type : String) (c : Clients S)
      → map_to_transit_key_type kind bits ≡ ok transit_type
      → token_of h c.objects ≡ some t
      → Generation mount kind bits c
          (create_and_export api pem h mount kind (temporary_name api pem h c) transit_type c)
  unfolding create_and_export
  created-Generation mount kind bits transit_type c mapped opened =
      let name = temporary_name api pem h c in
      let made = write api h (key_path mount name) (some (new_key_data transit_type)) c in
      let creation = request-Sends h _ _ c opened in
      elim (Result-cases made.0) [
        | inl (e, p) ↦ rw (p, create_and_export) (not_created transit_type e mapped refl creation)
        | inr (_, p) ↦
            rw (p, create_and_export)
              (cleaned transit_type mapped (
                Sends-trans c made.1 _ _ _ creation (
                  exported_and_deleted mount kind name made.1
                    (ap (token_of h) creation.objects ∙ opened))))
      ]

  -- A generation by a client that is open makes no request where the type and the size are not
  -- supported; where the key cannot be created, only that request; and otherwise, whatever the export
  -- returns and whether or not it can be parsed, it creates the key, exports it, allows its deletion
  -- and deletes it, in this order and under one name.
  pub generate_exportable_key-Generation :
      (mount kind : String) (bits : ℤ) (c : Clients S)
      → token_of h c.objects ≡ some t
      → Generation mount kind bits c (generate_exportable_key api pem h mount kind bits c)
  unfolding generate_exportable_key
  generate_exportable_key-Generation mount kind bits c opened =
      elim (Result-cases (map_to_transit_key_type kind bits)) [
        | inl (e, p) ↦ rw (p, generate_exportable_key) (unsupported e p)
        | inr (transit_type, p) ↦
            rw (p, generate_exportable_key)
              (created-Generation mount kind bits transit_type c p opened)
      ]
