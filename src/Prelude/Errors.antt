-- ===== src/Prelude/Errors.antt =====
-- Go's `error` values and the pair of a value and an error that fallible functions return.
use Prim.Native.String.{String, ◌++◌}
use mathlib.Core.Path.{◌≡◌, refl}
use mathlib.Core.Bool.{Bool, true, false, false≢true}
use est_service.Prelude.Tests.{if◌then◌else◌}
use mathlib.Core.Logic.{◌≢◌, ◌↔◌, ◌⊎◌, inl, inr}

-- `text` is what `Error()` returns; `too_large` is `errors.Is(err, est.ErrRequestTooLarge)`.
pub record GoError : Type 0 where
  pub text : String
  pub too_large : Bool

-- fmt.Errorf(text) with no wrapped error
abbrev pub errorf : String → GoError
errorf s = record { text = s; too_large = false }

-- fmt.Errorf(prefix + "%w", err)
abbrev pub wrap : String → GoError → GoError
wrap prefix e = record { text = prefix ++ e.text; too_large = e.too_large }

-- The pair `(value, err)` of a fallible function: exactly one of the two counts.
pub data Result {ℓ} (Value : Type ℓ) : Type ℓ where
  err : GoError → Result Value
  ok : Value → Result Value

-- `if err != nil { return fmt.Errorf(prefix + "%w", err) }`
abbrev pub context {ℓ} : {A : Type ℓ} → String → Result A → Result A
context prefix (ok a) = ok a
context prefix (err e) = err (wrap prefix e)

-- `if err != nil { return err }`, and the rest
infixl 5 ◌>>=◌ ◌>>◌
abbrev pub ◌>>=◌ {ℓ κ} : {A : Type ℓ} {B : Type κ} → Result A → (A → Result B) → Result B
err failure >>= rest = err failure
ok value >>= rest = rest value

abbrev pub ◌>>◌ {κ} : {B : Type κ} → Result (Unit {0}) → Result B → Result B
check >> rest = check >>= λ _. rest

-- `if !condition { return failure }`
abbrev pub require : Bool → GoError → Result (Unit {0})
require condition failure = if condition then ok tt else err failure

pub Result-cases {ℓ} :
    {A : Type ℓ} (r : Result A) → ((e : GoError) × (r ≡ err e)) ⊎ ((a : A) × (r ≡ ok a))
Result-cases (ok a) = inr (a, refl)
Result-cases (err e) = inl (e, refl)

-- Where a chain succeeds, so did its first part, with a value from which the rest succeeds.
pub bind_ok {ℓ κ} :
    {A : Type ℓ} {B : Type κ} (first : Result A) {rest : A → Result B} {result : B}
    → first >>= rest ≡ ok result
    → (value : A) × (first ≡ ok value) × (rest value ≡ ok result)
bind_ok (err failure) chain = cc
bind_ok (ok value) chain = (value, refl, chain)

pub ok_injective {ℓ} : {A : Type ℓ} {a b : A} → Result.ok a ≡ Result.ok b → a ≡ b
ok_injective h = cc

pub err≢ok {ℓ} : {A : Type ℓ} {e : GoError} {a : A} → err e ≢ ok a
err≢ok h = cc

pub require_iff {κ} :
    {B : Type κ} (condition : Bool) (failure : GoError) (rest : Result B) (result : B)
    → (require condition failure >> rest ≡ ok result) ↔ ((condition ≡ true) × (rest ≡ ok result))
require_iff true failure rest result = (λ h. (refl, h), λ h. h.1)
require_iff false failure rest result = (λ h. cc, λ h. absurd (false≢true h.0))

pub context_iff {ℓ} :
    {A : Type ℓ} (prefix : String) (r : Result A) (a : A) → (context prefix r ≡ ok a) ↔ (r ≡ ok a)
context_iff prefix (ok b) a = (λ h. h, λ h. h)
context_iff prefix (err e) a = (λ h. cc, λ h. cc)
