-- ===== src/Est/Slices/Tally.antt =====
-- What the counting maps of `string_slices_equal` hold.
use Prim.Native.Nat.{◌≤◌}
use text.Mathlib.TextPositions.{eq_refl}
use est_service.Prelude.{
  Bool, Bool-cases, List, String, [], arith, eq_iff, false, if◌then◌else◌, inl, inr, length, ltb,
  refl, suc, true, ℕ, ◌+◌, ◌==◌, ◌||◌, ◌∷◌, ◌≡◌, ◌≢◌,
}
use est_service.Est.Slices.{Counts, agree, at, bump, tally}

-- How often a text stands in a list.
unfoldable pub count : String → List String → ℕ
count k [] = 0
count k (s ∷ l) = if s == k then suc (count k l) else count k l

unfoldable pub has : Counts → String → Bool
has [] k = false
has ((j, n) ∷ m) k = j == k || has m k

-- No key stands twice.
abbrev pub Distinct : Counts → Type 0
Distinct [] = Unit
Distinct ((k, n) ∷ m) = (has m k ≡ false) × Distinct m

at-bump : (s k : String) (m : Counts) → at (bump s m) k ≡ (if s == k then suc (at m k) else at m k)
unfolding at bump
at-bump s k [] = ground arith
at-bump s k ((j, n) ∷ m) = ground (arith, eq_iff j s, eq_iff j k, eq_iff s k, at-bump s k m)

has-bump : (s k : String) (m : Counts) → has (bump s m) k ≡ (s == k || has m k)
unfolding has bump
has-bump s k [] = ground arith
has-bump s k ((j, n) ∷ m) = ground (arith, eq_iff j s, eq_iff j k, eq_iff s k, has-bump s k m)

Distinct-bump : (s : String) (m : Counts) → Distinct m → Distinct (bump s m)
unfolding has bump
Distinct-bump s [] d = (refl, tt)
Distinct-bump s ((j, n) ∷ m) (p, d) = elim (Bool-cases (j == s)) [
  | inl same ↦ rw same (p, d)
  | inr other ↦
      rw other (ground (arith, has-bump s j m, eq_iff s j, eq_iff j s), Distinct-bump s m d)
]

pub at-tally : (k : String) (m : Counts) (a : List String) → at (tally m a) k ≡ at m k + count k a
unfolding tally count
at-tally k m [] = omega arith
at-tally k m (s ∷ a) = ground (arith, at-tally k (bump s m) a, at-bump s k m)

pub has-tally :
    (k : String) (m : Counts) (a : List String) → has (tally m a) k ≡ (has m k || ltb 0 (count k a))
unfolding tally count
has-tally k m [] = ground arith
has-tally k m (s ∷ a) = ground (arith, has-tally k (bump s m) a, has-bump s k m)

pub Distinct-tally : (m : Counts) (a : List String) → Distinct m → Distinct (tally m a)
unfolding tally
Distinct-tally m [] d = d
Distinct-tally m (s ∷ a) d = Distinct-tally (bump s m) a (Distinct-bump s m d)

-- An accepted loop bounds every count of the first map by the second's.
pub agree-at-le : (k : String) (a b : Counts) → agree a b ≡ true → at a k ≤ at b k
unfolding agree at
agree-at-le k [] b h = omega arith
agree-at-le k ((j, v) ∷ a) b h = ground (arith, eq_iff j k, agree-at-le k a b)

pub agree_complete :
    (a b : Counts)
    → Distinct a
    → ((k : String) → has a k ≡ true → at b k ≡ at a k)
    → agree a b ≡ true
unfolding agree at has
agree_complete [] b d h = refl
agree_complete ((j, v) ∷ a) b (p, d) h =
    let here : at b j ≡ v = ground (arith, h j, eq_refl j) in
    let later : agree a b ≡ true =
      agree_complete a b d (λ k. λ q. ground (arith, h k, p, eq_iff j k, eq_refl k)) in
    ground (arith, here, later)

without : String → Counts → Counts
without k [] = []
without k ((j, n) ∷ m) = let rest = without k m in if j == k then m else (j, n) ∷ rest

length-without : (k : String) (m : Counts) → has m k ≡ true → length m ≡ suc (length (without k m))
unfolding has without
length-without k [] h = cc
length-without k ((j, n) ∷ m) h = ground (arith, length-without k m)

has-without : (k i : String) (m : Counts) → k ≢ i → has m i ≡ true → has (without k m) i ≡ true
unfolding has without
has-without k i [] ne h = h
has-without k i ((j, n) ∷ m) ne h = ground (arith, has-without k i m ne, eq_iff j k, eq_iff j i)

-- A map whose keys are all keys of another is no longer than that.
pub length-le_of_has :
    (a b : Counts)
    → Distinct a
    → ((k : String) → has a k ≡ true → has b k ≡ true)
    → length a ≤ length b
unfolding has
length-le_of_has [] b d h = omega arith
length-le_of_has ((j, v) ∷ a) b (p, d) h =
    let there : has b j ≡ true = h j (ground (arith, eq_refl j)) in
    let rest : length a ≤ length (without j b) =
      length-le_of_has a (without j b) d
        (λ k. λ q. has-without j k b (λ e. ground (arith, p, q, e)) (h k (ground (arith, q)))) in
    omega (arith, length-without j b there, rest)
