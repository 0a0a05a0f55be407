-- ===== src/Est/Slices.antt =====
-- The slice comparisons of pkg/est/csr.go. A Go map is an association list: the loop over `aMap`
-- asks each key on its own, so the order of the entries does not matter.
pub mod Tally
pub mod Multiset
use mathlib.Core.List.{map}
use est_service.Prelude.{
  Bool, List, String, [], false, if◌then◌else◌, length, not, suc, true, ℕ, ◌&&◌, ◌==◌, ◌=ℕ=◌, ◌∷◌,
}

abbrev pub Counts : Type 0
Counts = List (String × ℕ)

-- m[s]++
pub bump : String → Counts → Counts
bump s [] = (s, 1) ∷ []
bump s ((k, n) ∷ m) = let rest = bump s m in if k == s then (k, suc n) ∷ m else (k, n) ∷ rest

-- `for _, s := range a { aMap[s]++ }`
pub tally : Counts → List String → Counts
tally m [] = m
tally m (s ∷ a) = tally (bump s m) a

-- m[k], 0 if the key is missing
pub at : Counts → String → ℕ
at [] k = 0
at ((j, n) ∷ m) k = if j == k then n else at m k

-- `for k, v := range aMap { if bMap[k] != v { return false } }; return true`
pub agree : Counts → Counts → Bool
agree [] b = true
agree ((k, v) ∷ a) b = at b k =ℕ= v && agree a b

unfoldable pub string_slices_equal : List String → List String → Bool
unfolding tally bump at agree
string_slices_equal a b =
    let a_map = tally [] a in
    let b_map = tally [] b in
    if not (length a =ℕ= length b)
    then false
    else if not (length a_map =ℕ= length b_map)
    then false
    else agree a_map b_map

-- `ipSlicesEqual` and `uriSlicesEqual`: the texts of the elements, compared
unfoldable pub slices_equal_by : (List ℕ → String) → List (List ℕ) → List (List ℕ) → Bool
slices_equal_by text a b =
    if not (length a =ℕ= length b) then false else string_slices_equal (map text a) (map text b)
