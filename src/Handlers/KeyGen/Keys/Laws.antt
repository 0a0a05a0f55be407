-- ===== src/Handlers/KeyGen/Keys/Laws.antt =====
-- The keys that pkg/handlers/serverkeygen.go generates.
use est_service.Prelude.{
  Bool, List, String, [], context, equal_fold, false, lower, ok, pos, some, true, ℕ, ℤ, ◌∷◌, ◌≡◌,
  ◌≤◌, ◌⊎◌,
}
use est_service.X509.{PrivateKey}
use est_service.KeyCrypto.{Curve, KeyCrypto}
use est_service.Backend.{Backend}
use est_service.World.{World}
use est_service.Handlers.KeyGen.{KeyGenConfig}
use est_service.Handlers.KeyGen.Keys.{curve_of}

-- Some entry of the list satisfies the predicate.
abbrev pub Some {ℓ} : {A : Type ℓ} → (A → Type 0) → List A → Type 0
Some P [] = ⊥
Some P (x ∷ xs) = P x ⊎ Some P xs

-- The restriction is not configured, or some entry of it satisfies the predicate.
abbrev pub Permits : {A : Type 0} → (A → Type 0) → List A → Type 0
Permits P xs = (xs ≡ []) ⊎ Some P xs

-- At least 2048 bits.
abbrev pub IsStrong : ℤ → Type 0
IsStrong size = (n : ℕ) × (size ≡ pos n) × (2048 ≤ n)

module _ {C G R : Type 0} (keys : KeyCrypto C G) (config : KeyGenConfig) (b : Backend R) where
  abbrev kind : String
  kind = lower config.default_key_type

  abbrev size : ℤ
  size = config.default_key_size

  -- How a key came about: its type is permitted, and it is drawn by the backend's transit engine, or
  -- here, with a size that is permitted: an RSA key of 2048 bits or more, or a key on a NIST curve.
  pub data Origin (w : World R) (key : PrivateKey) : Type 0 where
    by_transit :
        Permits (λ t. equal_fold t kind ≡ true) config.allowed_key_types
        → config.use_open_bao_transit ≡ true
        → context "failed to generate key via Transit: "
            (b.generate_exportable_key config.transit_mount kind size w.remote).0
          ≡ ok key
        → Origin w key
    rsa :
        Permits (λ t. equal_fold t kind ≡ true) config.allowed_key_types
        → config.use_open_bao_transit ≡ false
        → kind ≡ "rsa"
        → Permits (λ s. s ≡ size) config.allowed_key_sizes
        → IsStrong size
        → keys.generate_rsa size ≡ ok key
        → Origin w key
    ecdsa :
        (curve : Curve)
        → Permits (λ t. equal_fold t kind ≡ true) config.allowed_key_types
        → config.use_open_bao_transit ≡ false
        → (kind ≡ "ecdsa") ⊎ (kind ≡ "ec")
        → Permits (λ s. s ≡ size) config.allowed_key_sizes
        → curve_of size ≡ some curve
        → keys.generate_ecdsa curve ≡ ok key
        → Origin w key
