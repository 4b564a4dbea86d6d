-- ===== src/TrafficRewards/Lottery/Root.antt =====
-- `integer_sqrt` of src/traffic_rewards.rs computes the square root.
use native.Mathlib.Nat.{le-div_iff_mul-le, div-lt_iff_lt-mul, add-sub_cancel, sub-add_cancel}
use aah_chain.Base.{
  ℕ, zero, suc, ◌+◌, ◌-◌, ◌*◌, ◌/◌, ◌≤◌, ◌<◌, min, ◌≡◌, refl, arith, inl, inr, Option, some,
}
use aah_chain.Base.Tests.{leb, ltb, Bool-cases}
use aah_chain.Base.Words.{u32_max, u64_max}
use aah_chain.TrafficRewards.Lottery.{sqrt_loop, integer_sqrt?, integer_sqrt}

-- `r` is the greatest number whose square does not pass `value`.
abbrev pub IsRoot : ℕ → ℕ → Type 0
IsRoot value r = (r * r ≤ value) × (value < (r + 1) * (r + 1))

-- The search ends, with the root.
abbrev EndsInRoot : ℕ → Option ℕ → Type 0
EndsInRoot value result = (r : ℕ) × (result ≡ some r) × IsRoot value r

sqrt_loop-EndsInRoot :
    (fuel value left right : ℕ)
    → 1 ≤ left
    → (left - 1) * (left - 1) ≤ value
    → value < (right + 1) * (right + 1)
    → left ≤ right + 1
    → right + 2 ≤ left + fuel
    → EndsInRoot value (sqrt_loop fuel value left right)
unfolding sqrt_loop
sqrt_loop-EndsInRoot zero value left right one low high order enough =
    absurd (omega (arith, order, enough))
sqrt_loop-EndsInRoot (suc fuel) value left right one low high order enough =
    let middle = left + (right - left) / 2 in
    let positive : 0 < middle = omega (arith, one) in
    elim (Bool-cases (leb left right)) [
      | inr done ↦
          let same : left - 1 ≡ right = ground (arith, done, one, order) in
          rw (done, sqrt_loop) (right, refl, (rw same at low, high))
      | inl going ↦
          let lower : left ≤ middle = omega (arith) in
          let upper : middle ≤ right = ground (arith, going) in
          elim (Bool-cases (leb middle (value / middle))) [
            | inl up ↦
                let fits : middle * middle ≤ value =
                  (le-div_iff_mul-le positive).0 (ground (arith, up)) in
                rw (going, up, sqrt_loop)
                  (sqrt_loop-EndsInRoot fuel value (middle + 1) right (omega arith)
                    (rw (add-sub_cancel middle 1) fits) high (omega (arith, upper))
                    (omega (arith, enough, lower)))
            | inr down ↦
                let passes : value < (middle - 1 + 1) * (middle - 1 + 1) =
                  rw (sub-add_cancel {n = middle} {m = 1} positive)
                    ((div-lt_iff_lt-mul positive).0 (ground (arith, down))) in
                rw (going, down, sqrt_loop)
                  (sqrt_loop-EndsInRoot fuel value left (middle - 1) one low passes
                    (omega (arith, lower, positive)) (omega (arith, enough, upper, positive)))
          ]
    ]

small-IsRoot : (value : ℕ) → value < 2 → IsRoot value value
small-IsRoot zero h = (omega arith, omega arith)
small-IsRoot (suc zero) h = (omega arith, omega arith)
small-IsRoot (suc (suc n)) h = ground (arith, h)

bound-passes :
    (value : ℕ) → value ≤ u64_max → value < (min value u32_max + 1) * (min value u32_max + 1)
bound-passes value fits = elim (Bool-cases (leb value u32_max)) [
  | inl small ↦
      let same : min value u32_max ≡ value = ground (arith, small) in rw same (omega arith)
  | inr large ↦
      let same : min value u32_max ≡ u32_max = ground (arith, large) in
      rw same (omega (arith, fits))
]

integer_sqrt?-EndsInRoot : (value : ℕ) → value ≤ u64_max → EndsInRoot value (integer_sqrt? value)
unfolding integer_sqrt?
integer_sqrt?-EndsInRoot value fits = elim (Bool-cases (ltb value 2)) [
  | inl small ↦ rw small (value, refl, small-IsRoot value (ground (arith, small)))
  | inr large ↦
      let right = min value u32_max in
      rw large (
        sqrt_loop-EndsInRoot (right + 1) value 1 right (omega arith) (omega arith)
          (bound-passes value fits) (omega arith) (omega arith))
]

-- For a u64 the binary search of integer_sqrt ends within its fuel, and its result is the square
-- root, rounded down.
pub integer_sqrt_is_floor :
    (value : ℕ)
    → value ≤ u64_max
    → (integer_sqrt? value ≡ some (integer_sqrt value))
      × (integer_sqrt value * integer_sqrt value ≤ value)
      × (value < (integer_sqrt value + 1) * (integer_sqrt value + 1))
unfolding integer_sqrt
integer_sqrt_is_floor value fits =
    let (r, found, (below, above)) = integer_sqrt?-EndsInRoot value fits in
    rw found (refl, below, above)
