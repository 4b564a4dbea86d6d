-- ===== src/Base/Sorting.antt =====
-- Stable sorting by a Boolean order: what `sort`, `sort_by` and `sort_by_key` compute.
use aah_chain.Base.Lists.{length}
use aah_chain.Base.Tests.{if◌then◌else◌, Bool-cases}
use aah_chain.Base.Sets.{In}
use Prim.Native.Nat.{suc}
use mathlib.Core.Path.{◌≡◌, refl, ap, ◌∙◌}
use mathlib.Core.Logic.{◌⊎◌, inl, inr}
use mathlib.Core.Bool.{Bool}
use mathlib.Core.List.{List, [], ◌∷◌}
use native.Mathlib.Omega.{arith}

module _ {A : Type 0} (le : A → A → Bool) where
  -- An element goes before the first one that it does not exceed.
  unfoldable pub insert_sorted : A → List A → List A
  insert_sorted x [] = x ∷ []
  insert_sorted x (y ∷ ys) = if le x y then x ∷ y ∷ ys else y ∷ insert_sorted x ys

  unfoldable pub sort : List A → List A
  unfolding insert_sorted
  sort [] = []
  sort (x ∷ xs) = insert_sorted x (sort xs)

  length-insert_sorted : (x : A) (xs : List A) → length (insert_sorted x xs) ≡ suc (length xs)
  unfolding insert_sorted
  length-insert_sorted x [] = refl
  length-insert_sorted x (y ∷ ys) = ground (arith, length-insert_sorted x ys)

  pub length-sort : (xs : List A) → length (sort xs) ≡ length xs
  unfolding sort
  length-sort [] = refl
  length-sort (x ∷ xs) = length-insert_sorted x (sort xs) ∙ ap suc (length-sort xs)

  insert_sorted-In_head : (x : A) (xs : List A) → In x (insert_sorted x xs)
  unfolding insert_sorted
  insert_sorted-In_head x [] = inl refl
  insert_sorted-In_head x (y ∷ ys) = elim (Bool-cases (le x y)) [
    | inl before ↦ rw before (inl refl)
    | inr after ↦ rw after (inr (insert_sorted-In_head x ys))
  ]

  insert_sorted-In : (x z : A) (xs : List A) → In z xs → In z (insert_sorted x xs)
  unfolding insert_sorted
  insert_sorted-In x z [] i = absurd i
  insert_sorted-In x z (y ∷ ys) (inl p) = elim (Bool-cases (le x y)) [
    | inl before ↦ rw before (inr (inl p))
    | inr after ↦ rw after (inl p)
  ]
  insert_sorted-In x z (y ∷ ys) (inr i) = elim (Bool-cases (le x y)) [
    | inl before ↦ rw before (inr (inr i))
    | inr after ↦ rw after (inr (insert_sorted-In x z ys i))
  ]

  -- Sorting keeps every element.
  pub sort-In : (z : A) (xs : List A) → In z xs → In z (sort xs)
  unfolding sort
  sort-In z [] i = absurd i
  sort-In z (x ∷ xs) (inl p) = rw p (insert_sorted-In_head x (sort xs))
  sort-In z (x ∷ xs) (inr i) = insert_sorted-In x z (sort xs) (sort-In z xs i)

  pub In-insert_sorted : (x z : A) (xs : List A) → In z (insert_sorted x xs) → (z ≡ x) ⊎ In z xs
  unfolding insert_sorted
  In-insert_sorted x z [] i = i
  In-insert_sorted x z (y ∷ ys) i = elim (Bool-cases (le x y)) [
    | inl before ↦ rw before at i
    | inr after ↦ split (rw after at i) (In-insert_sorted x z ys)
  ]
    where
      split :
          In z (y ∷ insert_sorted x ys)
          → (In z (insert_sorted x ys) → (z ≡ x) ⊎ In z ys)
          → (z ≡ x) ⊎ In z (y ∷ ys)
      split (inl p) rec = inr (inl p)
      split (inr j) rec = elim (rec j) [ inl p ↦ inl p | inr k ↦ inr (inr k) ]

  -- Sorting adds no element.
  pub In-sort : (z : A) (xs : List A) → In z (sort xs) → In z xs
  unfolding sort
  In-sort z [] i = absurd i
  In-sort z (x ∷ xs) i = elim (In-insert_sorted x z (sort xs) i) [
    | inl p ↦ inl p
    | inr j ↦ inr (In-sort z xs j)
  ]
