-- ===== src/Handlers/KeyGen/Labels.antt =====
-- Which label `extractLabel` of pkg/handlers/serverkeygen.go takes from a path.
use est_service.Handlers.KeyGen.{extract_label}
use Prim.Native.String.{count, ◌++◌}
use Prim.Native.Char.{Char, code}
use text.Mathlib.TextLemmas.{nil-append, cons-append, length-cons, length-append}
use est_service.Prelude.{
  =ℕ=_iff, Bool-cases, String, ap, arith, eq_iff, false, if◌then◌else◌, inl, inr, refl, some,
  strip_prefix, sym, trim, trim_prefix, trim_suffix, true, ◌==◌, ◌=ℕ=◌, ◌||◌, ◌↔◌, ◌∙◌, ◌≡◌, ◌≢◌,
  ◌⊎◌,
}

longer : (c : Char) (s p : String) → (String.◌∷◌ c (s ++ p) == p) ≡ false
longer c s p = elim (Bool-cases (String.◌∷◌ c (s ++ p) == p)) [
  | inl same ↦
      absurd
        (omega (arith, ap count ((eq_iff _ _).0 same), length-cons c (s ++ p), length-append s p))
  | inr other ↦ other
]

-- A suffix is cut off.
trim_suffix-append : (s p : String) → trim_suffix (s ++ p) p ≡ s
unfolding trim_suffix
trim_suffix-append String.[] String.[] = refl
trim_suffix-append String.[] (String.◌∷◌ d p) =
    rw (nil-append (String.◌∷◌ d p), (eq_iff (String.◌∷◌ d p) _).1 refl) refl
trim_suffix-append (String.◌∷◌ c s) p =
    rw (cons-append c s p, longer c s p, trim_suffix-append s p) refl

strip_prefix-append : (p s : String) → strip_prefix p (p ++ s) ≡ some s
unfolding strip_prefix
strip_prefix-append String.[] s = ap some (nil-append s)
strip_prefix-append (String.◌∷◌ c p) s =
    rw (cons-append c p s, (=ℕ=_iff (code c) (code c)).1 refl) (strip_prefix-append p s)

trim_prefix-append : (p s : String) → trim_prefix (p ++ s) p ≡ s
trim_prefix-append p s = rw (strip_prefix-append p s, trim_prefix) refl

abbrev endpoint : String
endpoint = "serverkeygen"

-- The path of a label.
abbrev pub labelled_path : String → String
labelled_path label = "/.well-known/est/" ++ (label ++ "/serverkeygen")

-- A label with no slash at its ends, which is not empty.
abbrev pub IsLabel : String → Type 0
IsLabel label = (trim (λ c. c =ℕ= b'/') label ≡ label) × (label ≢ "")

root_iff :
    (label : String) → ((label == "" || label == "/") ≡ true) ↔ ((label ≡ "") ⊎ (label ≡ "/"))
root_iff label = ground (arith, eq_iff label "", eq_iff label "/")

slash_only : trim (λ c. c =ℕ= b'/') "/" ≡ ""
unfolding trim
slash_only = refl

not_root : (label : String) → IsLabel label → (label == "" || label == "/") ≡ false
not_root label (bare, given) = elim (Bool-cases (label == "" || label == "/")) [
  | inl root ↦ elim ((root_iff label).0 root) [
    | inl empty ↦ absurd (given empty)
    | inr slash ↦ absurd (given (sym bare ∙ ap (trim (λ c. c =ℕ= b'/')) slash ∙ slash_only))
  ]
  | inr other ↦ other
]

-- The last step of `extractLabel`.
abbrev bare_label : String → String
bare_label t = if t == "" || t == "/" then "" else trim (λ c. c =ℕ= b'/') t

-- What is left of the label of a path, once the endpoint's name is cut off a second time.
extract_label-path :
    (label rest : String)
    → trim_suffix label endpoint ≡ rest
    → IsLabel rest
    → extract_label (labelled_path label) endpoint ≡ rest
unfolding extract_label
extract_label-path label rest e is_label =
    let front =
      ap (λ t. trim_suffix (trim_suffix t "/serverkeygen") endpoint)
        (trim_prefix-append "/.well-known/est/" (label ++ "/serverkeygen")) in
    let back = ap (λ t. trim_suffix t endpoint) (trim_suffix-append label "/serverkeygen") in
    ap bare_label (front ∙ back ∙ e) ∙ rw (not_root rest is_label) is_label.0

-- A label with no slash at its ends, which is not empty and does not end in "serverkeygen", is taken
-- from the path /.well-known/est/<label>/serverkeygen as it is.
pub extract_label-labelled_path :
    (label : String)
    → IsLabel label
    → trim_suffix label "serverkeygen" ≡ label
    → extract_label (labelled_path label) "serverkeygen" ≡ label
extract_label-labelled_path label is_label plain = extract_label-path label label plain is_label

-- A label that ends in "serverkeygen" loses that ending, and is taken for another label.
pub extract_label-doubled :
    (label : String)
    → IsLabel label
    → extract_label (labelled_path (label ++ "serverkeygen")) "serverkeygen" ≡ label
extract_label-doubled label is_label =
    extract_label-path (label ++ "serverkeygen") label (trim_suffix-append label "serverkeygen")
      is_label
