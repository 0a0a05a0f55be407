-- ===== src/Handlers/CsrAttrs/Laws.antt =====
-- `parse_oid` reads dotted decimal texts.
use Prim.Native.Nat.{◌^◌, ◌≤◌}
use mathlib.Core.List.{append-nil, map}
use est_service.Prelude.{
  All, List, String, [], ap, arith, codes, ok, refl, sym, ℕ, ◌%◌, ◌*◌, ◌++◌, ◌+◌, ◌-◌, ◌<◌, ◌∙◌,
  ◌∷◌, ◌≡◌,
}
use est_service.Handlers.CsrAttrs.{parse_components, parse_oid}

-- A decimal number, by its digits, behind a number that is read.
unfoldable pub value : ℕ → List ℕ → ℕ
value current [] = current
value current (d ∷ ds) = value (current * 10 + d) ds

-- The digits of a number below 2 ^ 63, which an `int` holds.
abbrev pub IsComponent : List ℕ → Type 0
IsComponent ds = All (λ d. d < 10) ds × (value 0 ds < 2 ^ 63)

digit : ℕ → ℕ
digit d = d + 48

-- The text of an object identifier whose components have these digits.
unfoldable pub dotted : List (List ℕ) → List ℕ
unfolding digit
dotted [] = []
dotted (ds ∷ []) = map digit ds
dotted (ds ∷ es ∷ dss) = let rest = dotted (es ∷ dss) in map digit ds ++ 46 ∷ rest

value-grows : (current : ℕ) (ds : List ℕ) → current ≤ value current ds
unfolding value
value-grows current [] = omega arith
value-grows current (d ∷ ds) = omega (arith, value-grows (current * 10 + d) ds)

parse_components-digit :
    (d current : ℕ) (cs : List ℕ)
    → d < 10
    → current * 10 + d < 2 ^ 64
    → parse_components (digit d ∷ cs) current ≡ parse_components cs (current * 10 + d)
unfolding parse_components digit
parse_components-digit d current cs h bound =
    let same : (current * 10 + (d + 48 - 48)) % 2 ^ 64 ≡ current * 10 + d = omega (arith, bound) in
    rw same (ground (arith, h))

parse_components-digits :
    (ds rest : List ℕ) (current : ℕ)
    → All (λ d. d < 10) ds
    → value current ds < 2 ^ 64
    → parse_components (map digit ds ++ rest) current ≡ parse_components rest (value current ds)
unfolding value
parse_components-digits [] rest current small bound = refl
parse_components-digits (d ∷ ds) rest current (h, small) bound =
    parse_components-digit d current (map digit ds ++ rest) h
      (omega (arith, bound, value-grows (current * 10 + d) ds))
    ∙ parse_components-digits ds rest (current * 10 + d) small bound

parse_components-dotted :
    (ds : List ℕ) (dss : List (List ℕ))
    → All IsComponent (ds ∷ dss)
    → parse_components (dotted (ds ∷ dss)) 0 ≡ ok (map (value 0) (ds ∷ dss))
unfolding dotted parse_components
parse_components-dotted ds [] ((small, bound), _) =
    ap (λ text. parse_components text 0) (sym (append-nil (map digit ds)))
    ∙ parse_components-digits ds [] 0 small (omega (arith, bound))
parse_components-dotted ds (es ∷ dss) ((small, bound), rest) =
    parse_components-digits ds (46 ∷ dotted (es ∷ dss)) 0 small (omega (arith, bound))
    ∙ rw (parse_components-dotted es dss rest) refl

-- The dotted decimal text of an object identifier of two components at least, each below 2 ^ 63 and
-- written with any number of digits, is read as those components.
pub parse_oid-dotted :
    (text : String) (ds es : List ℕ) (dss : List (List ℕ))
    → codes text ≡ dotted (ds ∷ es ∷ dss)
    → All IsComponent (ds ∷ es ∷ dss)
    → parse_oid text ≡ ok (map (value 0) (ds ∷ es ∷ dss))
unfolding parse_oid
parse_oid-dotted text ds es dss written components =
    rw (written, parse_components-dotted ds (es ∷ dss) components) (ground arith)
