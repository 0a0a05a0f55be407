-- ===== src/Backend/Identity/Laws.antt =====
-- The aliases by which the entities of client certificates are told apart.
use text.Mathlib.TextLemmas.{append_cancel_left, append_inj}
use Prim.Native.String.{count}
use est_service.Prelude.{List, String, refl, sym, ℕ, ◌↔◌, ◌∙◌, ◌≡◌}
use est_service.X509.{Certificate}
use est_service.Pem.{PemCrypto}
use est_service.Backend.Identity.{cn_of, entity_alias_of, entity_name_of}

-- A SHA-256 sum in hexadecimal digits.
abbrev pub IsSha256 : PemCrypto → Type 0
IsSha256 pem = (bytes : List ℕ) → count (pem.fingerprint bytes) ≡ 64

module _ (pem : PemCrypto) (a b : Certificate) where
  entity_alias_of_injective :
      IsSha256 pem
      → entity_alias_of pem a ≡ entity_alias_of pem b
      → (pem.fingerprint a.raw ≡ pem.fingerprint b.raw) × (cn_of a ≡ cn_of b)
  entity_alias_of_injective sha256 same =
      let (prints, names) =
        append_inj (append_cancel_left "cert:SHA256:" _ _ same)
          (sha256 a.raw ∙ sym (sha256 b.raw)) in
      (prints, append_cancel_left ":CN=" _ _ names)

  -- Where fingerprints have 64 characters, two certificates get the same alias exactly if their
  -- fingerprints and their common names (where an empty one counts as `unknown`) are the same; and then
  -- their entities have the same name too, whatever the prefix.
  pub entity_alias_of_iff :
      IsSha256 pem
      → ((entity_alias_of pem a ≡ entity_alias_of pem b)
          ↔ ((pem.fingerprint a.raw ≡ pem.fingerprint b.raw) × (cn_of a ≡ cn_of b)))
        × (entity_alias_of pem a ≡ entity_alias_of pem b
            → (prefix : String) → entity_name_of pem prefix a ≡ entity_name_of pem prefix b)
  entity_alias_of_iff sha256 = (
    (entity_alias_of_injective sha256, λ (prints, names). rw (prints, names) refl),
    λ same prefix.
        let (prints, names) = entity_alias_of_injective sha256 same in rw (prints, names) refl,
  )
