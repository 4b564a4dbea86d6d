-- ===== src/Base/Distinct.antt =====
-- Lists whose elements have distinct keys, and how sorting, filtering and cutting keep them so.
use Prim.Native.Nat.{ℕ, zero, suc, ◌≤◌}
use mathlib.Core.Path.{◌≡◌, refl, ◌∙◌}
use mathlib.Core.Logic.{inl, inr}
use mathlib.Core.Bool.{Bool, false, ◌||◌}
use mathlib.Core.List.{List, [], ◌∷◌, ◌++◌, map}
use native.Mathlib.Omega.{arith}
use aah_chain.Base.Tests.{if◌then◌else◌, Bool-cases}
use aah_chain.Base.Lists.{length, take, keep}
use aah_chain.Base.Keys.{Eq, ◌==◌}
use aah_chain.Base.Sets.{In, All, IsNodup, contains}
use aah_chain.Base.Sorting.{sort, insert_sorted}

module _ {A : Type 0} where
  pub In-All : (P : A → Type 0) (xs : List A) → ((x : A) → In x xs → P x) → All P xs
  In-All P [] h = tt
  In-All P (x ∷ xs) h = (h x (inl refl), In-All P xs (λ y i. h y (inr i)))

  pub append_one-In : (xs : List A) (x : A) → In x (xs ++ x ∷ [])
  append_one-In [] x = inl refl
  append_one-In (y ∷ xs) x = inr (append_one-In xs x)

  pub In-take : (n : ℕ) (x : A) (xs : List A) → In x (take n xs) → In x xs
  In-take zero x xs i = absurd i
  In-take (suc n) x [] i = absurd i
  In-take (suc n) x (y ∷ ys) (inl p) = inl p
  In-take (suc n) x (y ∷ ys) (inr i) = inr (In-take n x ys i)

  pub In-keep : (p : A → Bool) (x : A) (xs : List A) → In x (keep p xs) → In x xs
  In-keep p x [] i = absurd i
  In-keep p x (y ∷ ys) i = elim (Bool-cases (p y)) [
    | inl kept ↦ elim (rw kept at i) [ inl q ↦ inl q | inr j ↦ inr (In-keep p x ys j) ]
    | inr left ↦ inr (In-keep p x ys (rw left at i))
  ]

  pub length-keep-append_one :
      (p : A → Bool) (x : A) (xs : List A)
      → length (keep p (xs ++ x ∷ []))
        ≡ (if p x then suc (length (keep p xs)) else length (keep p xs))
  length-keep-append_one p x [] = ground arith
  length-keep-append_one p x (y ∷ ys) = ground (arith, length-keep-append_one p x ys)

  pub length-keep-take :
      (p : A → Bool) (n : ℕ) (xs : List A) → length (keep p (take n xs)) ≤ length (keep p xs)
  length-keep-take p zero xs = ground arith
  length-keep-take p (suc n) [] = ground arith
  length-keep-take p (suc n) (x ∷ xs) = ground (arith, length-keep-take p n xs)

  pub length-take : (n : ℕ) (xs : List A) → length (take n xs) ≤ n
  length-take zero xs = ground arith
  length-take (suc n) [] = ground arith
  length-take (suc n) (x ∷ xs) = ground (arith, length-take n xs)

module _ {A B : Type 0} ⦃e : Eq B⦄ (key : A → B) where
  contains-insert_sorted :
      (le : A → A → Bool) (k : B) (x : A) (xs : List A)
      → contains k (map key (insert_sorted le x xs)) ≡ (key x == k || contains k (map key xs))
  unfolding insert_sorted contains
  contains-insert_sorted le k x [] = refl
  contains-insert_sorted le k x (y ∷ ys) = ground (arith, contains-insert_sorted le k x ys)

  contains-sort :
      (le : A → A → Bool) (k : B) (xs : List A)
      → contains k (map key (sort le xs)) ≡ contains k (map key xs)
  unfolding sort contains
  contains-sort le k [] = refl
  contains-sort le k (x ∷ xs) =
      ground (arith, contains-insert_sorted le k x (sort le xs), contains-sort le k xs)

  insert_sorted-IsNodup :
      (le : A → A → Bool) (x : A) (xs : List A)
      → contains (key x) (map key xs) ≡ false
      → IsNodup (map key xs)
      → IsNodup (map key (insert_sorted le x xs))
  unfolding insert_sorted contains
  insert_sorted-IsNodup le x [] fresh h = ground arith
  insert_sorted-IsNodup le x (y ∷ ys) fresh h = elim (Bool-cases (le x y)) [
    | inl before ↦ rw before (fresh, h)
    | inr after ↦ rw after (
      ground (
        arith,
        fresh,
        h,
        contains-insert_sorted le (key y) x ys,
        e.beq_iff (key x) (key y),
        e.beq_iff (key y) (key x),
      ),
      insert_sorted-IsNodup le x ys (ground (arith, fresh)) h.1,
    )
  ]

  pub sort-IsNodup :
      (le : A → A → Bool) (xs : List A) → IsNodup (map key xs) → IsNodup (map key (sort le xs))
  unfolding sort
  sort-IsNodup le [] h = tt
  sort-IsNodup le (x ∷ xs) h =
      insert_sorted-IsNodup le x (sort le xs) (contains-sort le (key x) xs ∙ h.0)
        (sort-IsNodup le xs h.1)

  contains-append_one :
      (k : B) (x : A) (xs : List A)
      → contains k (map key (xs ++ x ∷ [])) ≡ (contains k (map key xs) || key x == k)
  unfolding contains
  contains-append_one k x [] = ground arith
  contains-append_one k x (y ∷ ys) = ground (arith, contains-append_one k x ys)

  pub append_one-IsNodup :
      (x : A) (xs : List A)
      → contains (key x) (map key xs) ≡ false
      → IsNodup (map key xs)
      → IsNodup (map key (xs ++ x ∷ []))
  unfolding contains
  append_one-IsNodup x [] fresh h = (refl, tt)
  append_one-IsNodup x (y ∷ ys) fresh h = (
    ground (
      arith,
      fresh,
      h.0,
      contains-append_one (key y) x ys,
      e.beq_iff (key x) (key y),
      e.beq_iff (key y) (key x),
    ),
    append_one-IsNodup x ys (ground (arith, fresh)) h.1,
  )

  contains-take :
      (n : ℕ) (k : B) (xs : List A)
      → contains k (map key xs) ≡ false
      → contains k (map key (take n xs)) ≡ false
  unfolding contains
  contains-take zero k xs h = refl
  contains-take (suc n) k [] h = refl
  contains-take (suc n) k (x ∷ xs) h = ground (arith, h, contains-take n k xs)

  pub take-IsNodup : (n : ℕ) (xs : List A) → IsNodup (map key xs) → IsNodup (map key (take n xs))
  take-IsNodup zero xs h = tt
  take-IsNodup (suc n) [] h = tt
  take-IsNodup (suc n) (x ∷ xs) h = (contains-take n (key x) xs h.0, take-IsNodup n xs h.1)

  contains-keep :
      (p : A → Bool) (k : B) (xs : List A)
      → contains k (map key xs) ≡ false
      → contains k (map key (keep p xs)) ≡ false
  unfolding contains
  contains-keep p k [] h = refl
  contains-keep p k (x ∷ xs) h = ground (arith, h, contains-keep p k xs)

  pub keep-IsNodup :
      (p : A → Bool) (xs : List A) → IsNodup (map key xs) → IsNodup (map key (keep p xs))
  keep-IsNodup p [] h = tt
  keep-IsNodup p (x ∷ xs) h = elim (Bool-cases (p x)) [
    | inl kept ↦ rw kept (contains-keep p (key x) xs h.0, keep-IsNodup p xs h.1)
    | inr left ↦ rw left (keep-IsNodup p xs h.1)
  ]
