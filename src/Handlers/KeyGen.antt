-- ===== src/Handlers/KeyGen.antt =====
-- pkg/handlers/serverkeygen.go and crypto_constants.go: the configuration, and the parsed request.
pub mod Keys
pub mod Encode
pub mod Answer
pub mod Serve
pub mod Labels
use Prim.Native.String.{◌++◌}
use est_service.Prelude.{
  Bool, List, Option, Result, String, [], context, eq_ℤ, if◌then◌else◌, none, ok, pos, some, trim,
  trim_prefix, trim_suffix, ℤ, ◌==◌, ◌=ℕ=◌, ◌>>=◌, ◌||◌, ◌∷◌,
}
use est_service.X509.{CertificateRequest, Crypto}
use est_service.Http.{Request}
use est_service.Auth.{AuthResult}
use est_service.Est.Payload.{read_csr_payload_with_limit}
use est_service.Handlers.Policy.{LabelPolicy}

abbrev pub default_rsa_key_size : ℤ
default_rsa_key_size = pos 2048

abbrev pub min_rsa_key_size : ℤ
min_rsa_key_size = pos 2048

abbrev pub default_ecdsa_key_size : ℤ
default_ecdsa_key_size = pos 256

abbrev pub default_server_key_gen_csr_max_size : ℤ
default_server_key_gen_csr_max_size = pos 4096

-- `ServerKeyGenConfig`, as far as the handler reads it
pub record KeyGenConfig : Type 0 where
  pub default_key_type : String
  pub default_key_size : ℤ
  pub default_mount : String
  pub labels : List (String × LabelPolicy)
  pub default_policy : LabelPolicy
  pub max_csr_size : ℤ
  pub allowed_key_types : List String
  pub allowed_key_sizes : List ℤ
  pub encrypt_private_key : Bool
  pub use_open_bao_transit : Bool
  pub transit_mount : String
  pub transit_key_name_prefix : String

abbrev text_or : String → String → String
text_or text default = if text == "" then default else text

abbrev number_or : ℤ → ℤ → ℤ
number_or n default = if eq_ℤ n (pos 0) then default else n

-- The defaults of `NewServerKeyGenHandler`.
unfoldable pub new_server_key_gen_handler : KeyGenConfig → KeyGenConfig
new_server_key_gen_handler config =
    let kind = text_or config.default_key_type "rsa" in
    let config' = record config {
      max_csr_size = number_or config.max_csr_size default_server_key_gen_csr_max_size;
      default_key_type = kind;
      default_key_size =
          number_or config.default_key_size
            (if kind == "rsa" then default_rsa_key_size else default_ecdsa_key_size);
    } in
    if config.use_open_bao_transit
    then record config' {
      transit_mount = text_or config.transit_mount "transit";
      transit_key_name_prefix = text_or config.transit_key_name_prefix "temp-keygen-";
    }
    else config'

-- `extractLabel`
unfoldable pub extract_label : String → String → String
extract_label path endpoint =
    let path' = trim_prefix path "/.well-known/est/" in
    let path'' = trim_suffix (trim_suffix path' ("/" ++ endpoint)) endpoint in
    if path'' == "" || path'' == "/" then "" else trim (λ c. c =ℕ= b'/') path''

-- `h.config.Labels[label]`
unfoldable pub label_policy : String → List (String × LabelPolicy) → Option LabelPolicy
label_policy label [] = none
label_policy label ((name, policy) ∷ labels) =
    if name == label then some policy else label_policy label labels

-- `ServerKeyGenRequest`, as far as the handler reads it
pub record KeyGenRequest : Type 0 where
  pub csr : CertificateRequest
  pub label : String
  pub auth_token : String
  pub policy : LabelPolicy

-- `labelPolicy, ok := h.config.Labels[label]`, or the default policy
unfoldable pub policy_for : KeyGenConfig → String → LabelPolicy
unfolding label_policy
policy_for config label =
    if label == "" then config.default_policy else elim (label_policy label config.labels) [
      | none ↦ config.default_policy
      | some policy ↦ policy
    ]

-- `parseServerKeyGenRequest`
unfoldable pub parse_server_key_gen_request :
    Crypto → KeyGenConfig → Request → AuthResult → Result KeyGenRequest
unfolding extract_label policy_for
parse_server_key_gen_request crypto config req result = do
  csr ←
      context "failed to parse CSR: "
        (read_csr_payload_with_limit crypto req.content_length req.body config.max_csr_size)
  let label = extract_label req.path "serverkeygen"
  ok (record {
    csr = csr;
    label = label;
    auth_token = result.token;
    policy = policy_for config label;
  })
