-- ===== src/Server/RateLimit/Maps.antt =====
-- Go's maps with string keys, as association lists.
use est_service.Prelude.{
  Bool-cases, List, Option, String, [], arith, eq_iff, false, if◌then◌else◌, inl, inr, none, refl,
  some, true, ◌==◌, ◌∷◌, ◌≡◌,
}

same_key : (k : String) → k == k ≡ true
same_key k = (eq_iff k k).1 refl

key_differs : (j k l : String) → j == k ≡ true → k == l ≡ false → j == l ≡ false
key_differs j k l p h = rw ((eq_iff j k).0 p) h

module _ {ℓ} {A : Type ℓ} where
  unfoldable pub find : String → List (String × A) → Option A
  find k [] = none
  find k ((j, a) ∷ m) = if j == k then some a else find k m

  unfoldable pub delete : String → List (String × A) → List (String × A)
  delete k [] = []
  delete k ((j, a) ∷ m) = let rest = delete k m in if j == k then rest else (j, a) ∷ rest

  -- m[k] = a
  unfoldable pub insert : String → A → List (String × A) → List (String × A)
  insert k a m = (k, a) ∷ delete k m

  pub find-delete : (k : String) (m : List (String × A)) → find k (delete k m) ≡ none
  unfolding find delete
  find-delete k [] = refl
  find-delete k ((j, a) ∷ m) = ground (arith, find-delete k m)

  pub find-delete_other :
      (k l : String) (m : List (String × A)) → k == l ≡ false → find l (delete k m) ≡ find l m
  unfolding find delete
  find-delete_other k l [] h = refl
  find-delete_other k l ((j, a) ∷ m) h = elim (Bool-cases (j == k)) [
    | inl p ↦ rw (p, key_differs j k l p h) (find-delete_other k l m h)
    | inr p ↦ rw p (ground (arith, find-delete_other k l m h))
  ]

  pub find-insert : (k : String) (a : A) (m : List (String × A)) → find k (insert k a m) ≡ some a
  unfolding find insert
  find-insert k a m = rw (same_key k) refl

  pub find-insert_other :
      (k l : String) (a : A) (m : List (String × A))
      → k == l ≡ false
      → find l (insert k a m) ≡ find l m
  unfolding find insert
  find-insert_other k l a m h = rw h (find-delete_other k l m h)
