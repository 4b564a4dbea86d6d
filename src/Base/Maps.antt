-- ===== src/Base/Maps.antt =====
-- `HashMap` as an association list: a key is replaced where it stands, or added at the end. No
-- modelled result depends on the order of the entries unless the module that walks them says so.
use Prim.Native.Nat.{ℕ, ◌+◌, ◌≤◌}
use mathlib.Core.Path.{◌≡◌, refl}
use mathlib.Core.Bool.{Bool}
use mathlib.Core.Option.{Option, none, some}
use mathlib.Core.List.{List, [], ◌∷◌}
use native.Mathlib.Omega.{arith}
use aah_chain.Base.Tests.{if◌then◌else◌, is_some, unwrap_or}
use aah_chain.Base.Keys.{Eq, ◌==◌, beq_refl}

abbrev pub Map {ℓ κ} : Type ℓ → Type κ → Type (ℓ ⊔ κ)
Map K V = List (K × V)

module _ {ℓ κ} {K : Type ℓ} {V : Type κ} ⦃e : Eq K⦄ where
  unfoldable pub get : K → Map K V → Option V
  get k [] = none
  get k ((j, v) ∷ m) = if j == k then some v else get k m

  unfoldable pub contains_key : K → Map K V → Bool
  unfolding get
  contains_key k m = is_some (get k m)

  unfoldable pub insert : K → V → Map K V → Map K V
  insert k v [] = (k, v) ∷ []
  insert k v ((j, w) ∷ m) = if j == k then (k, v) ∷ m else (j, w) ∷ insert k v m

  -- `remove`, over every entry of the key
  unfoldable pub remove : K → Map K V → Map K V
  remove k [] = []
  remove k ((j, w) ∷ m) = let rest = remove k m in if j == k then rest else (j, w) ∷ rest

  pub get-insert :
      (k j : K) (v : V) (m : Map K V) → get j (insert k v m) ≡ (if k == j then some v else get j m)
  unfolding get insert
  get-insert k j v [] = refl
  get-insert k j v ((i, w) ∷ m) =
      ground (arith, e.beq_iff k j, e.beq_iff i k, e.beq_iff i j, get-insert k j v m)

  pub get-insert_self : (k : K) (v : V) (m : Map K V) → get k (insert k v m) ≡ some v
  get-insert_self k v m = rw (get-insert, beq_refl k) refl

  pub get-remove : (k j : K) (m : Map K V) → get j (remove k m) ≡ (if k == j then none else get j m)
  unfolding get remove
  get-remove k j [] = ground arith
  get-remove k j ((i, w) ∷ m) =
      ground (arith, e.beq_iff k j, e.beq_iff i k, e.beq_iff i j, get-remove k j m)

module _ {ℓ κ} {K : Type ℓ} {V : Type κ} ⦃e : Eq K⦄ where
  -- `collect` of pairs into a map: a later pair replaces an earlier one
  unfoldable pub collect_into : List (K × V) → Map K V → Map K V
  collect_into [] m = m
  collect_into ((k, v) ∷ xs) m = collect_into xs (insert k v m)

  unfoldable pub collect : List (K × V) → Map K V
  unfolding collect_into insert
  collect xs = collect_into xs []

module _ {ℓ} {K : Type ℓ} where
  -- the sum of the values, over ℕ: the caller wraps it
  abbrev pub sum_values : Map K ℕ → ℕ
  sum_values [] = 0
  sum_values ((k, v) ∷ m) = v + sum_values m

module _ {ℓ} {K : Type ℓ} ⦃e : Eq K⦄ where
  unfoldable pub get_or_zero : K → Map K ℕ → ℕ
  unfolding get
  get_or_zero k m = unwrap_or (get k m) 0

  pub get_or_zero-insert :
      (k j : K) (v : ℕ) (m : Map K ℕ)
      → get_or_zero j (insert k v m) ≡ (if k == j then v else get_or_zero j m)
  unfolding get_or_zero
  get_or_zero-insert k j v m = ground (arith, get-insert k j v m)

  -- A write changes the sum by the difference of the values.
  pub sum_values-insert :
      (k : K) (v : ℕ) (m : Map K ℕ) → sum_values (insert k v m) + get_or_zero k m ≡ sum_values m + v
  unfolding get_or_zero insert
  sum_values-insert k v [] = omega arith
  sum_values-insert k v ((j, w) ∷ m) = ground (arith, sum_values-insert k v m)

  pub get_or_zero-le-sum_values : (k : K) (m : Map K ℕ) → get_or_zero k m ≤ sum_values m
  unfolding get_or_zero
  get_or_zero-le-sum_values k [] = omega arith
  get_or_zero-le-sum_values k ((j, w) ∷ m) = ground (arith, get_or_zero-le-sum_values k m)
