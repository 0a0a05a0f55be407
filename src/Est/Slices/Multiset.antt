-- ===== src/Est/Slices/Multiset.antt =====
-- `string_slices_equal` decides equality up to order.
use mathlib.Core.List
use mathlib.Core.List.{Perm}
use mathlib.Core.List.Perm
use mathlib.Core.Nat
use native.Mathlib.Bridge.{from_ℕ, from_le⁻¹}
use Prim.Native.Nat.{◌≤◌}
use est_service.Est.Slices.{agree, string_slices_equal, tally}
use est_service.Prelude.{
  Bool-cases, List, String, [], ap, arith, eq_iff, inl, inr, length, refl, suc, sym, true, ◌==◌,
  ◌↔◌, ◌∙◌, ◌∷◌, ◌≡◌,
}
use est_service.Est.Slices.Tally.{
  Distinct-tally, agree-at-le, agree_complete, at-tally, count, has, has-tally, length-le_of_has,
}

pub string_discrete : Discrete String
string_discrete s t = elim (Bool-cases (s == t)) [
  | inl same ↦ yes ((eq_iff s t).0 same)
  | inr other ↦ no (λ e. ground (arith, other, (eq_iff s t).1 e))
]

from_ℕ-add-one : (n : Nat.ℕ) → from_ℕ (Nat.◌+◌ n Nat.one) ≡ suc (from_ℕ n)
from_ℕ-add-one n = refl

-- The counts are the library's.
from_ℕ-count : (k : String) (a : List String) → from_ℕ (List.count string_discrete k a) ≡ count k a
unfolding count
from_ℕ-count k [] = ap from_ℕ (List.count-nil string_discrete k)
from_ℕ-count k (s ∷ a) = elim (Bool-cases (s == k)) [
  | inl same ↦ rw same (
      rw ((eq_iff s k).0 same) (
        ap from_ℕ (List.count-cons_self string_discrete k a)
        ∙ from_ℕ-add-one _
        ∙ ap suc (from_ℕ-count k a)))
  | inr other ↦ rw other (
      ap from_ℕ
        (List.count-cons_of_ne string_discrete (λ e. ground (arith, other, (eq_iff s k).1 e)) a)
      ∙ from_ℕ-count k a)
]

from_ℕ-length : (a : List String) → from_ℕ (List.length a) ≡ length a
from_ℕ-length [] = refl
from_ℕ-length (s ∷ a) = ap suc (from_ℕ-length a)

Perm-of-count-le :
    (a b : List String) → ((k : String) → count k a ≤ count k b) → length a ≡ length b → Perm a b
Perm-of-count-le a b le same =
    List.Subperm.perm_of_length_le
      ((List.Subperm-iff_count string_discrete).1
        (λ k. from_le⁻¹ _ _ (rw (from_ℕ-count k a, from_ℕ-count k b) (le k))))
      (from_le⁻¹ _ _ (rw (from_ℕ-length a, from_ℕ-length b) (omega (arith, same))))

count-Perm : {a b : List String} (k : String) → Perm a b → count k a ≡ count k b
count-Perm {a} {b} k p =
    sym (from_ℕ-count k a)
    ∙ ap from_ℕ ((List.perm_iff_count string_discrete).0 p k)
    ∙ from_ℕ-count k b

pub length-Perm : {a b : List String} → Perm a b → length a ≡ length b
length-Perm {a} {b} p = sym (from_ℕ-length a) ∙ ap from_ℕ (Perm.length-eq p) ∙ from_ℕ-length b

string_slices_equal_sound : (a b : List String) → string_slices_equal a b ≡ true → Perm a b
unfolding string_slices_equal
string_slices_equal_sound a b h =
    Perm-of-count-le a b
      (λ k.
        ground (arith, agree-at-le k (tally [] a) (tally [] b), at-tally k [] a, at-tally k [] b))
      (ground arith)

has-Perm : {a b : List String} (k : String) → Perm a b → has (tally [] a) k ≡ has (tally [] b) k
unfolding has
has-Perm {a} {b} k p = ground (arith, has-tally k [] a, has-tally k [] b, count-Perm k p)

length-tally-Perm : {a b : List String} → Perm a b → length (tally [] a) ≡ length (tally [] b)
length-tally-Perm {a} {b} p = omega (
  arith,
  length-le_of_has (tally [] a) (tally [] b) (Distinct-tally [] a tt)
      (λ k. λ h. sym (has-Perm k p) ∙ h),
  length-le_of_has (tally [] b) (tally [] a) (Distinct-tally [] b tt) (λ k. λ h. has-Perm k p ∙ h),
)

agree-Perm : {a b : List String} → Perm a b → agree (tally [] a) (tally [] b) ≡ true
agree-Perm {a} {b} p =
    agree_complete (tally [] a) (tally [] b) (Distinct-tally [] a tt)
      (λ k. λ h. ground (arith, at-tally k [] a, at-tally k [] b, count-Perm k p))

string_slices_equal_complete : (a b : List String) → Perm a b → string_slices_equal a b ≡ true
unfolding string_slices_equal
string_slices_equal_complete a b p =
    ground (arith, length-Perm p, length-tally-Perm p, agree-Perm p)

-- `stringSlicesEqual` accepts two slices exactly if one is a permutation of the other.
pub string_slices_equal_iff : (a b : List String) → (string_slices_equal a b ≡ true) ↔ Perm a b
string_slices_equal_iff a b = (string_slices_equal_sound a b, string_slices_equal_complete a b)
