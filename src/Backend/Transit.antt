-- ===== src/Backend/Transit.antt =====
-- pkg/backend/common_impl.go and transit_keygen.go: keys that the transit engine generates.
pub mod Laws
use Prim.Native.String.{◌++◌}
use est_service.Backend.Objects.{Clients, Method, delete, pure_step, read, step, write, ◌>>=◌}
use est_service.Prelude.{
  List, Option, Result, String, codes, context, eq_ℤ, err, errorf, if◌then◌else◌, itoa, none, ok,
  pos, some, true, wrap, ℕ, ℤ, ◌==◌, ◌||◌,
}
use est_service.X509.{PrivateKey}
use est_service.Pem.{ParsedKey, PemCrypto, ecdsa_private, rsa_private, unsupported_private}
use est_service.Backend.{Handle}
use est_service.Backend.Api.{Api, Fields, Secret, as_object, as_text, end, entry, field, flag, text}

-- One of three sizes, or the error.
abbrev sized : ℤ → ℤ → ℤ → ℤ → String → String → String → String → Result String
sized bits a b c x y z message =
    if eq_ℤ bits a
    then ok x
    else if eq_ℤ bits b
    then ok y
    else if eq_ℤ bits c
    then ok z
    else err (errorf message)

-- `mapToTransitKeyType`; the messages leave out the size.
unfoldable pub map_to_transit_key_type : String → ℤ → Result String
map_to_transit_key_type kind bits =
    if kind == "rsa"
    then sized bits (pos 2048) (pos 3072) (pos 4096) "rsa-2048" "rsa-3072" "rsa-4096"
        "unsupported RSA key size (must be 2048, 3072, or 4096)"
    else if kind == "ecdsa" || kind == "ec"
    then sized bits (pos 256) (pos 384) (pos 521) "ecdsa-p256" "ecdsa-p384" "ecdsa-p521"
        "unsupported ECDSA curve size (must be 256, 384, or 521)"
    else err (errorf ("unsupported key type: " ++ kind ++ " (must be 'rsa' or 'ecdsa')"))

-- The formats that are tried where PKCS#8 fails.
abbrev parse_legacy : PemCrypto → List ℕ → Result PrivateKey
parse_legacy pem block = elim (pem.parse_pkcs1 block) [
  | ok key ↦ ok key
  | err _ ↦ elim (pem.parse_ec block) [
    | ok key ↦ ok key
    | err _ ↦ err (errorf "failed to parse private key: not PKCS#8, PKCS#1, or EC format")
  ]
]

-- The `switch` on the key's type.
abbrev supported : ParsedKey → Result PrivateKey
supported (rsa_private key) = ok key
supported (ecdsa_private key) = ok key
supported (unsupported_private key) = err (errorf "unsupported private key type")

-- `parseExportedKey`
unfoldable pub parse_exported_key : PemCrypto → String → Result PrivateKey
parse_exported_key pem key_pem = elim (pem.pem_decode (codes key_pem)) [
  | none ↦ err (errorf "failed to decode PEM block")
  | some (block, rest) ↦ elim (pem.parse_pkcs8 block) [
    | ok parsed ↦ supported parsed
    | err _ ↦ parse_legacy pem block
  ]
]

-- `exportResp.Data["keys"]` and its entry "1"
abbrev key_version : Option Fields → Result String
key_version none = err (errorf "invalid keys data in Transit export response")
key_version (some keys) = elim (as_text (entry "1" keys)) [
  | none ↦ err (errorf "missing key version 1 in Transit export response")
  | some key_pem ↦ ok key_pem
]

unfoldable pub exported_pem : Option Secret → Result String
exported_pem none = err (errorf "empty response from Transit export")
exported_pem (some secret) = elim secret.contents [
  | none ↦ err (errorf "empty response from Transit export")
  | some fields ↦ key_version (as_object (entry "keys" fields))
]

-- The key of an export.
unfoldable pub exported_key : PemCrypto → Option Secret → Result PrivateKey
unfolding parse_exported_key exported_pem
exported_key pem secret = elim (exported_pem secret) [
  | err e ↦ err e
  | ok key_pem ↦ context "failed to parse exported key: " (parse_exported_key pem key_pem)
]

abbrev pub key_path : String → String → String
key_path mount name = mount ++ "/keys/" ++ name

abbrev pub export_path : String → String → String → String
export_path mount kind name =
    mount
    ++ (if kind == "rsa" then "/export/encryption-key/" else "/export/signing-key/")
    ++ name
    ++ "/latest"

abbrev pub new_key_data : String → Fields
new_key_data kind = field "type" (text kind) (field "exportable" (flag true) end)

abbrev pub deletable : Fields
deletable = field "deletion_allowed" (flag true) end

module _ {S : Type 0} (api : Api S) (pem : PemCrypto) (h : Handle) where
  -- The deferred cleanup: deletion is allowed, and the key is deleted; errors are only logged.
  unfoldable pub delete_key : String → String → Clients S → Clients S
  delete_key mount name c =
      (delete api h (key_path mount name)
        (write api h (key_path mount name ++ "/config") (some deletable) c).1).1

  -- The export of the key that was created.
  unfoldable pub export_key : String → String → String → Method S PrivateKey
  unfolding exported_key
  export_key mount kind name = do
    secret ← step "failed to export Transit key: " (read api h (export_path mount kind name))
    pure_step (exported_key pem secret)

  -- `keyName`
  abbrev pub temporary_name : Clients S → String
  temporary_name c = "temp-keygen-" ++ itoa (api.now c.remote)

  -- From the creation of the key on; once it is created, it is deleted at the end.
  unfoldable pub create_and_export : String → String → String → String → Method S PrivateKey
  unfolding export_key delete_key
  create_and_export mount kind name transit_type c =
      let (created, c') = write api h (key_path mount name) (some (new_key_data transit_type)) c in
      elim created [
        | err e ↦ (err (wrap "failed to create Transit key: " e), c')
        | ok _ ↦ let (key, c'') = export_key mount kind name c' in (key, delete_key mount name c'')
      ]

  -- `GenerateExportableKey`
  unfoldable pub generate_exportable_key : String → String → ℤ → Method S PrivateKey
  unfolding map_to_transit_key_type create_and_export
  generate_exportable_key mount kind bits c = elim (map_to_transit_key_type kind bits) [
    | err e ↦ (err (wrap "invalid key type/size: " e), c)
    | ok transit_type ↦ create_and_export mount kind (temporary_name c) transit_type c
  ]
