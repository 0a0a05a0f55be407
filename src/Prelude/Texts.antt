-- ===== src/Prelude/Texts.antt =====
-- Go's `strings` package as far as the service uses it. A text is a native `String`, a list of
-- code points: Go's byte strings when they are valid UTF-8. All separators and prefixes that the
-- service looks for are ASCII, so looking at code points or at bytes finds the same places.
use Prim.Native.Nat.{ℕ, zero, suc, ◌+◌, ◌-◌, ◌/◌, ◌%◌}
use Prim.Native.Char.{Char, code}
use Prim.Native.String.{String, char_at, ◌++◌}
use text.Mathlib.Text.{◌==◌}
use mathlib.Core.Bool.{Bool, true, false, ◌&&◌, ◌||◌}
use mathlib.Core.Option
use mathlib.Core.Option.{Option, none, some}
use mathlib.Core.List.{List, [], ◌∷◌, map, reverse}
use est_service.Prelude.Tests.{if◌then◌else◌, leb, ltb, ◌=ℕ=◌}

abbrev pub codes : String → List ℕ
codes String.[] = []
codes (String.◌∷◌ c s) = code c ∷ codes s

-- `strip_prefix p s` is the rest of `s` behind the prefix `p`.
unfoldable pub strip_prefix : String → String → Option String
strip_prefix String.[] s = some s
strip_prefix (String.◌∷◌ c p) String.[] = none
strip_prefix (String.◌∷◌ c p) (String.◌∷◌ d s) =
    if code c =ℕ= code d then strip_prefix p s else none

-- strings.TrimPrefix
abbrev pub trim_prefix : String → String → String
trim_prefix s p = elim (strip_prefix p s) [ none ↦ s | some rest ↦ rest ]

-- strings.HasPrefix
abbrev pub has_prefix : String → String → Bool
has_prefix s p = elim (strip_prefix p s) [ none ↦ false | some rest ↦ true ]

-- s[:idx] and s[idx+1:] for idx = strings.Index(s, sep), with a separator of one character
unfoldable pub cut : ℕ → String → Option (String × String)
cut sep String.[] = none
cut sep (String.◌∷◌ c s) =
    let rest = cut sep s in
    if code c =ℕ= sep then some (String.[], s) else Option.map (λ p. (String.◌∷◌ c p.0, p.1)) rest

-- unicode.White_Space outside ASCII
unicode_spaces : ℕ → Bool
unicode_spaces c =
    c =ℕ= 0x85
    || c =ℕ= 0xa0
    || c =ℕ= 0x1680
    || leb 0x2000 c && leb c 0x200a
    || c =ℕ= 0x2028
    || c =ℕ= 0x2029
    || c =ℕ= 0x202f
    || c =ℕ= 0x205f
    || c =ℕ= 0x3000

-- unicode.IsSpace
unfoldable pub is_space : ℕ → Bool
unfolding unicode_spaces
is_space c = leb 9 c && leb c 13 || c =ℕ= 32 || unicode_spaces c

-- unicode.ToUpper, as far as it gives an ASCII letter: 'ı' and 'ſ' give 'I' and 'S'. Others that it
-- changes stay outside ASCII.
unfoldable pub to_upper : ℕ → ℕ
to_upper c =
    if leb b'a' c && leb c b'z'
    then c - 32
    else if c =ℕ= 0x131
    then b'I'
    else if c =ℕ= 0x17f
    then b'S'
    else c

-- unicode.ToLower, as far as it gives an ASCII letter: 'İ' and the Kelvin sign give 'i' and 'k'.
unfoldable pub to_lower : ℕ → ℕ
to_lower c =
    if leb b'A' c && leb c b'Z'
    then c + 32
    else if c =ℕ= 0x130
    then b'i'
    else if c =ℕ= 0x212a
    then b'k'
    else c

trim_left : (ℕ → Bool) → List ℕ → List ℕ
trim_left p [] = []
trim_left p (c ∷ s) = let rest = trim_left p s in if p c then rest else c ∷ s

-- strings.TrimFunc, on code points
unfoldable pub trim_codes : (ℕ → Bool) → List ℕ → List ℕ
unfolding trim_left
trim_codes p s = reverse (trim_left p (reverse (trim_left p s)))

-- strings.ToUpper(strings.TrimSpace(s)) and strings.ToLower(strings.TrimSpace(s))
unfoldable pub upper_trimmed : String → List ℕ
unfolding trim_codes is_space to_upper
upper_trimmed s = map to_upper (trim_codes is_space (codes s))

unfoldable pub lower_trimmed : String → List ℕ
unfolding trim_codes is_space to_lower
lower_trimmed s = map to_lower (trim_codes is_space (codes s))

-- strings.TrimSpace and strings.Trim, on texts
trim_start : (ℕ → Bool) → String → String
trim_start p String.[] = String.[]
trim_start p (String.◌∷◌ c s) =
    let rest = trim_start p s in if p (code c) then rest else String.◌∷◌ c s

keep_char : (ℕ → Bool) → Char → String → String
keep_char p c String.[] = if p (code c) then String.[] else String.◌∷◌ c String.[]
keep_char p c (String.◌∷◌ d s) = String.◌∷◌ c (String.◌∷◌ d s)

trim_end : (ℕ → Bool) → String → String
unfolding keep_char
trim_end p String.[] = String.[]
trim_end p (String.◌∷◌ c s) = keep_char p c (trim_end p s)

unfoldable pub trim : (ℕ → Bool) → String → String
unfolding trim_start trim_end
trim p s = trim_end p (trim_start p s)

unfoldable pub trim_space : String → String
unfolding trim is_space
trim_space s = trim is_space s

unfoldable pub prefix_of : List ℕ → List ℕ → Bool
prefix_of [] s = true
prefix_of (c ∷ p) [] = false
prefix_of (c ∷ p) (d ∷ s) = c =ℕ= d && prefix_of p s

-- strings.Contains, on code points
unfoldable pub contains : List ℕ → List ℕ → Bool
unfolding prefix_of
contains [] p = prefix_of p []
contains (c ∷ s) p = prefix_of p (c ∷ s) || contains s p

-- s[strings.Index(s, p):], if `p` stands in `s`
unfoldable pub from_first : String → String → Option String
unfolding strip_prefix
from_first p String.[] = if has_prefix String.[] p then some String.[] else none
from_first p (String.◌∷◌ c s) =
    let rest = from_first p s in
    if has_prefix (String.◌∷◌ c s) p then some (String.◌∷◌ c s) else rest

digit : ℕ → String
digit n =
    if n =ℕ= 0
    then "0"
    else if n =ℕ= 1
    then "1"
    else if n =ℕ= 2
    then "2"
    else if n =ℕ= 3
    then "3"
    else if n =ℕ= 4
    then "4"
    else if n =ℕ= 5
    then "5"
    else if n =ℕ= 6
    then "6"
    else if n =ℕ= 7
    then "7"
    else if n =ℕ= 8
    then "8"
    else "9"

itoa_from : ℕ → ℕ → String
itoa_from zero n = ""
itoa_from (suc f) n =
    let front = itoa_from f (n / 10) in if ltb n 10 then digit n else front ++ digit (n % 10)

-- strconv.Itoa of a number that is not negative; a number has at most as many digits as it counts.
unfoldable pub itoa : ℕ → String
unfolding itoa_from digit
itoa n = itoa_from (suc n) n

lower_char : Char → Char
lower_char c =
    if leb b'A' (code c) && leb (code c) b'Z'
    then char_at "abcdefghijklmnopqrstuvwxyz" (code c - b'A')
    else if code c =ℕ= 0x130
    then char_at "i" 0
    else if code c =ℕ= 0x212a
    then char_at "k" 0
    else c

-- strings.ToLower, as far as `to_lower` gives it
unfoldable pub lower : String → String
unfolding lower_char
lower String.[] = String.[]
lower (String.◌∷◌ c s) = String.◌∷◌ (lower_char c) (lower s)

-- The least of the ASCII characters that unicode.SimpleFold takes a character to.
fold_code : ℕ → ℕ
fold_code c =
    if leb b'A' c && leb c b'Z'
    then c + 32
    else if c =ℕ= 0x17f
    then b's'
    else if c =ℕ= 0x212a
    then b'k'
    else c

-- strings.EqualFold; beyond these foldings, characters outside ASCII are compared as they are.
unfoldable pub equal_fold : String → String → Bool
unfolding fold_code
equal_fold String.[] String.[] = true
equal_fold String.[] (String.◌∷◌ d t) = false
equal_fold (String.◌∷◌ c s) String.[] = false
equal_fold (String.◌∷◌ c s) (String.◌∷◌ d t) =
    fold_code (code c) =ℕ= fold_code (code d) && equal_fold s t

-- strings.TrimSuffix, for a suffix that is not empty
unfoldable pub trim_suffix : String → String → String
trim_suffix String.[] p = String.[]
trim_suffix (String.◌∷◌ c s) p =
    let rest = String.◌∷◌ c (trim_suffix s p) in if String.◌∷◌ c s == p then String.[] else rest
