-- ===== src/Base/Sets.antt =====
-- `HashSet` as a list without repetitions, and membership by recursion.
use mathlib.Core.Path.{◌≡◌}
use mathlib.Core.Logic.{◌⊎◌, inl, inr}
use mathlib.Core.Bool.{Bool, true, false, ◌||◌}
use mathlib.Core.List.{List, [], ◌∷◌, ◌++◌}
use native.Mathlib.Omega.{arith}
use aah_chain.Base.Tests.{if◌then◌else◌, Bool-cases}
use aah_chain.Base.Keys.{Eq, ◌==◌}

-- `x` stands in the list.
abbrev pub In : {A : Type 0} → A → List A → Type 0
In x [] = ⊥
In x (y ∷ ys) = (x ≡ y) ⊎ In x ys

-- Every element has the property.
abbrev pub All : {A : Type 0} → (A → Type 0) → List A → Type 0
All P [] = Unit
All P (x ∷ xs) = P x × All P xs

pub All-at : {A : Type 0} (P : A → Type 0) (x : A) (xs : List A) → All P xs → In x xs → P x
All-at P x [] h i = absurd i
All-at P x (y ∷ ys) h (inl p) = rw p h.0
All-at P x (y ∷ ys) h (inr i) = All-at P x ys h.1 i

pub All-append :
    {A : Type 0} (P : A → Type 0) (xs ys : List A) → All P xs → All P ys → All P (xs ++ ys)
All-append P [] ys h k = k
All-append P (x ∷ xs) ys h k = (h.0, All-append P xs ys h.1 k)

pub All-map :
    {A : Type 0} (P Q : A → Type 0) (xs : List A) → ((x : A) → P x → Q x) → All P xs → All Q xs
All-map P Q [] f h = tt
All-map P Q (x ∷ xs) f h = (f x h.0, All-map P Q xs f h.1)

pub In-append_left : {A : Type 0} (x : A) (xs ys : List A) → In x xs → In x (xs ++ ys)
In-append_left x [] ys i = absurd i
In-append_left x (y ∷ xs) ys (inl p) = inl p
In-append_left x (y ∷ xs) ys (inr i) = inr (In-append_left x xs ys i)

module _ {A : Type 0} ⦃e : Eq A⦄ where
  unfoldable pub contains : A → List A → Bool
  contains a [] = false
  contains a (x ∷ xs) = x == a || contains a xs

  -- `HashSet::insert`, the set afterwards
  unfoldable pub insert : A → List A → List A
  insert a xs = if contains a xs then xs else a ∷ xs

  unfoldable pub remove : A → List A → List A
  remove a [] = []
  remove a (x ∷ xs) = let rest = remove a xs in if x == a then rest else x ∷ rest

  -- No element stands twice.
  abbrev pub IsNodup : List A → Type 0
  IsNodup [] = Unit
  IsNodup (x ∷ xs) = (contains x xs ≡ false) × IsNodup xs

  pub contains-In : (a : A) (xs : List A) → contains a xs ≡ true → In a xs
  unfolding contains
  contains-In a [] h = cc
  contains-In a (x ∷ xs) h = elim (Bool-cases (x == a)) [
    | inl same ↦ inl (sym' ((e.beq_iff x a).0 same))
    | inr other ↦ inr (contains-In a xs (ground arith))
  ]
    where
      sym' : x ≡ a → a ≡ x
      sym' p = cc

  pub In-contains : (a : A) (xs : List A) → In a xs → contains a xs ≡ true
  unfolding contains
  In-contains a [] i = absurd i
  In-contains a (x ∷ xs) (inl p) = ground (arith, e.beq_iff x a)
  In-contains a (x ∷ xs) (inr i) = ground (arith, In-contains a xs i)

  pub contains-insert :
      (a b : A) (xs : List A) → contains b (insert a xs) ≡ (a == b || contains b xs)
  unfolding insert contains
  contains-insert a b xs = elim (Bool-cases (a == b)) [
    | inl same ↦ ground (arith, e.beq_iff a b)
    | inr other ↦ ground (arith, e.beq_iff a b)
  ]

  pub contains-remove :
      (a b : A) (xs : List A) → contains b (remove a xs) ≡ (if a == b then false else contains b xs)
  unfolding contains remove
  contains-remove a b [] = ground arith
  contains-remove a b (x ∷ xs) =
      ground (arith, contains-remove a b xs, e.beq_iff a b, e.beq_iff x a, e.beq_iff x b)

  pub insert-IsNodup : (a : A) (xs : List A) → IsNodup xs → IsNodup (insert a xs)
  unfolding insert
  insert-IsNodup a xs h = ground arith
