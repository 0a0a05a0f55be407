-- ===== src/Handlers/KeyGen/Keys.antt =====
-- pkg/handlers/serverkeygen.go: which key pairs are generated. A key pair is its private key.
pub mod Laws
use Prim.Native.String.{◌++◌}
use est_service.Prelude.{
  Bool, List, Option, Result, String, any, context, eq_ℤ, equal_fold, err, errorf, if◌then◌else◌,
  is_empty, lower, ltb_ℤ, none, not, pos, require, some, ℤ, ◌==◌, ◌>>=◌, ◌>>◌, ◌||◌,
}
use est_service.X509.{PrivateKey}
use est_service.KeyCrypto.{Curve, KeyCrypto, p256, p384, p521}
use est_service.Backend.{Backend}
use est_service.World.{World, call_generate_key}
use est_service.Handlers.KeyGen.{KeyGenConfig, min_rsa_key_size}

-- The loops over `AllowedKeyTypes` and `AllowedKeySizes`, where these are not empty.
abbrev pub type_allowed : List String → String → Bool
type_allowed types kind = is_empty types || any (λ allowed. equal_fold allowed kind) types

abbrev pub size_allowed : List ℤ → ℤ → Bool
size_allowed sizes size = is_empty sizes || any (λ allowed. eq_ℤ allowed size) sizes

-- The `switch keySize`.
abbrev pub curve_of : ℤ → Option Curve
curve_of size =
    if eq_ℤ size (pos 256)
    then some p256
    else if eq_ℤ size (pos 384)
    then some p384
    else if eq_ℤ size (pos 521)
    then some p521
    else none

module _ {C G : Type 0} (keys : KeyCrypto C G) (config : KeyGenConfig) where
  -- `generateRSAKeyPair`; the messages leave out the sizes.
  unfoldable pub generate_rsa_key_pair : Result PrivateKey
  generate_rsa_key_pair = do
    require (size_allowed config.allowed_key_sizes config.default_key_size)
        (errorf "RSA key size not allowed")
    require (not (ltb_ℤ config.default_key_size min_rsa_key_size))
        (errorf "RSA key size must be at least 2048 bits")
    context "failed to generate RSA key: " (keys.generate_rsa config.default_key_size)

  -- The key on the curve that the `switch keySize` found.
  abbrev pub draw_on : Option Curve → Result PrivateKey
  draw_on none = err (errorf "unsupported ECDSA key size (must be 256, 384, or 521)")
  draw_on (some curve) = context "failed to generate ECDSA key: " (keys.generate_ecdsa curve)

  -- `generateECDSAKeyPair`
  unfoldable pub generate_ecdsa_key_pair : Result PrivateKey
  generate_ecdsa_key_pair = do
    require (size_allowed config.allowed_key_sizes config.default_key_size)
        (errorf "ECDSA key size not allowed")
    draw_on (curve_of config.default_key_size)

  -- The `switch keyType`.
  abbrev pub generate_locally : String → Result PrivateKey
  generate_locally kind =
      if kind == "rsa"
      then generate_rsa_key_pair
      else if kind == "ecdsa" || kind == "ec"
      then generate_ecdsa_key_pair
      else err (errorf ("unsupported key type: " ++ kind))

  module _ {R : Type 0} (b : Backend R) where
    -- `generateKeyPairViaTransit`
    unfoldable pub generate_key_pair_via_transit : String → World R → Result PrivateKey × World R
    generate_key_pair_via_transit kind w =
        let (key, w') = call_generate_key b config.transit_mount kind config.default_key_size w in
        (context "failed to generate key via Transit: " key, w')

    -- `generateKeyPair`
    unfoldable pub generate_key_pair : World R → Result PrivateKey × World R
    unfolding generate_key_pair_via_transit generate_rsa_key_pair generate_ecdsa_key_pair
    generate_key_pair w =
        let kind = lower config.default_key_type in
        if not (type_allowed config.allowed_key_types kind)
        then (err (errorf ("key type " ++ kind ++ " not allowed")), w)
        else if config.use_open_bao_transit
        then generate_key_pair_via_transit kind w
        else (generate_locally kind, w)
