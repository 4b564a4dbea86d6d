-- ===== src/Consensus/Certificate/Weights.antt =====
-- The power of a set of voters in a map of powers, and the intersection of two large sets.
use aah_chain.Base.{
  ℕ, ◌+◌, ◌≤◌, ◌<◌, String, List, [], ◌∷◌, Bool, true, false, ◌≡◌, ◌&&◌, arith, inl, inr,
}
use aah_chain.Base.Tests.{if◌then◌else◌, Bool-cases}
use aah_chain.Base.Keys.{string_eq}
use aah_chain.Base.Maps.{
  Map, insert, collect, collect_into, sum_values, get_or_zero, sum_values-insert,
}
use aah_chain.Base.Sets.{IsNodup, contains}
use aah_chain.Consensus.Messages.{Validator}
use aah_chain.Consensus.Certificate.{sum_power, power_pairs}

-- The sum of the voters' powers, over ℕ.
unfoldable pub power_of : Map String ℕ → List String → ℕ
power_of powers [] = 0
power_of powers (voter ∷ voters) = get_or_zero voter powers + power_of powers voters

-- The power of the entries whose key passes the test.
abbrev weigh : (String → Bool) → Map String ℕ → ℕ
weigh p [] = 0
weigh p ((k, v) ∷ m) = (if p k then v else 0) + weigh p m

weigh-cons :
    (x : String) (xs : List String) (m : Map String ℕ)
    → contains x xs ≡ false
    → weigh (λ k. contains k xs) m + get_or_zero x m ≤ weigh (λ k. contains k (x ∷ xs)) m
unfolding contains get_or_zero
weigh-cons x xs [] h = omega arith
weigh-cons x xs ((k, v) ∷ m) h =
    ground (arith, weigh-cons x xs m h, string_eq.beq_iff x k, string_eq.beq_iff k x)

power_of-le-weigh :
    (m : Map String ℕ) (xs : List String)
    → IsNodup xs
    → power_of m xs ≤ weigh (λ k. contains k xs) m
unfolding power_of
power_of-le-weigh m [] h = omega arith
power_of-le-weigh m (x ∷ xs) h = omega (arith, power_of-le-weigh m xs h.1, weigh-cons x xs m h.0)

weigh_both :
    (p q : String → Bool) (m : Map String ℕ)
    → weigh p m + weigh q m ≤ sum_values m + weigh (λ k. p k && q k) m
weigh_both p q [] = omega arith
weigh_both p q ((k, v) ∷ m) = ground (arith, weigh_both p q m)

weigh-le-sum_values : (p : String → Bool) (m : Map String ℕ) → weigh p m ≤ sum_values m
weigh-le-sum_values p [] = omega arith
weigh-le-sum_values p ((k, v) ∷ m) = ground (arith, weigh-le-sum_values p m)

-- Distinct voters weigh no more than the map.
pub power_of-le-sum_values :
    (m : Map String ℕ) (xs : List String) → IsNodup xs → power_of m xs ≤ sum_values m
power_of-le-sum_values m xs h =
    omega (arith, power_of-le-weigh m xs h, weigh-le-sum_values (λ k. contains k xs) m)

weigh_pos : (p : String → Bool) (m : Map String ℕ) → 0 < weigh p m → (k : String) × (p k ≡ true)
weigh_pos p [] h = absurd (omega arith)
weigh_pos p ((k, v) ∷ m) h = elim (Bool-cases (p k)) [
  | inl yes' ↦ (k, yes')
  | inr no' ↦ weigh_pos p m (ground arith)
]

-- Two sets of voters that together outweigh everything share a voter.
pub power_of_common :
    (m : Map String ℕ) (xs ys : List String)
    → IsNodup xs
    → IsNodup ys
    → sum_values m < power_of m xs + power_of m ys
    → (k : String) × (contains k xs ≡ true) × (contains k ys ≡ true)
power_of_common m xs ys nx ny h =
    let (k, both) =
      weigh_pos (λ k. contains k xs && contains k ys) m
        (omega (
          arith,
          power_of-le-weigh m xs nx,
          power_of-le-weigh m ys ny,
          weigh_both (λ k. contains k xs) (λ k. contains k ys) m,
        )) in
    (k, ground arith, ground arith)

sum_values-collect_into :
    (vs : List Validator) (m : Map String ℕ)
    → sum_values (collect_into (power_pairs vs) m) ≤ sum_power vs + sum_values m
unfolding collect_into power_pairs sum_power
sum_values-collect_into [] m = omega arith
sum_values-collect_into (v ∷ vs) m = omega (
  arith,
  sum_values-collect_into vs (insert v.id v.voting_power m),
  sum_values-insert v.id v.voting_power m,
)

-- The map of powers weighs no more than the list, whatever ids repeat in it.
pub sum_values-collect :
    (vs : List Validator) → sum_values (collect (power_pairs vs)) ≤ sum_power vs
unfolding collect
sum_values-collect vs = omega (arith, sum_values-collect_into vs [])
