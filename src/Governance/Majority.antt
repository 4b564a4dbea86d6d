-- ===== src/Governance/Majority.antt =====
-- What the votes of src/governance.rs decide.
use native.Mathlib.Nat.{mul-le-mul_left}
use aah_chain.Base.{
  ℕ, ◌+◌, ◌*◌, ◌/◌, ◌≤◌, ◌<◌, max, min, String, List, [], ◌∷◌, true, some, ◌≡◌, arith, inl, inr,
}
use aah_chain.Base.Tests.{if◌then◌else◌, ltb, Bool-cases}
use aah_chain.Base.Maps.{Map, sum_values}
use aah_chain.Base.Sets.{All, All-map}
use aah_chain.Base.Words.{u64_max, wrap, saturating_mul}
use aah_chain.Governance.{
  ParticipationPolicy, Governance, policy_beq, adjusted_reward, add_power, count_votes,
  first_majority, finalize,
}

-- The power of the votes for a policy.
unfoldable pub power_for : ParticipationPolicy → Map String (ParticipationPolicy × ℕ) → ℕ
power_for policy [] = 0
power_for policy ((validator, (item, power)) ∷ votes) =
    let rest = power_for policy votes in if policy_beq policy item then power + rest else rest

policy_beq-eq : (a b : ParticipationPolicy) → policy_beq a b ≡ true → a ≡ b
policy_beq-eq a b h = ground (arith, h)

-- No candidate is counted for more than this.
abbrev IsWithin : (ParticipationPolicy → ℕ) → List (ParticipationPolicy × ℕ) → Type 0
IsWithin most candidates = All (λ (c : ParticipationPolicy × ℕ). c.1 ≤ most c.0) candidates

abbrev one_vote : ParticipationPolicy → ℕ → ParticipationPolicy → ℕ
one_vote item power policy = if policy_beq policy item then power else 0

add_power-IsWithin :
    (most : ParticipationPolicy → ℕ) (item : ParticipationPolicy) (power : ℕ)
    (candidates : List (ParticipationPolicy × ℕ))
    → IsWithin most candidates
    → IsWithin
        (λ policy. most policy + one_vote item power policy)
        (add_power item power candidates)
unfolding add_power
add_power-IsWithin most item power [] h = (ground arith, tt)
add_power-IsWithin most item power ((policy, sum) ∷ candidates) h =
    elim (Bool-cases (policy_beq policy item)) [
      | inl same ↦ rw same (
        rw same (wrapped (sum + power) (most policy + power) (omega (arith, h.0))),
        All-map (λ (c : ParticipationPolicy × ℕ). c.1 ≤ most c.0)
            (λ (c : ParticipationPolicy × ℕ). c.1 ≤ most c.0 + one_vote item power c.0) candidates
            (λ c k. omega (arith, k)) h.1,
      )
      | inr other ↦ rw other (omega (arith, h.0), add_power-IsWithin most item power candidates h.1)
    ]
  where
    wrapped : (n m : ℕ) → n ≤ m → wrap u64_max n ≤ m
    wrapped n m h = omega (arith, h)

count_votes-IsWithin :
    (most : ParticipationPolicy → ℕ) (votes : Map String (ParticipationPolicy × ℕ))
    (candidates : List (ParticipationPolicy × ℕ))
    → IsWithin most candidates
    → IsWithin (λ policy. most policy + power_for policy votes) (count_votes votes candidates)
unfolding count_votes power_for
count_votes-IsWithin most [] candidates h =
    All-map (λ (c : ParticipationPolicy × ℕ). c.1 ≤ most c.0)
      (λ (c : ParticipationPolicy × ℕ). c.1 ≤ most c.0 + 0) candidates (λ c k. omega (arith, k)) h
count_votes-IsWithin most ((validator, (item, power)) ∷ votes) candidates h =
    All-map
      (λ (c : ParticipationPolicy × ℕ).
        c.1 ≤ most c.0 + one_vote item power c.0 + power_for c.0 votes)
      (λ (c : ParticipationPolicy × ℕ).
        c.1 ≤ most c.0 + power_for c.0 ((validator, (item, power)) ∷ votes))
      _ (λ c k. ground (arith, k))
      (count_votes-IsWithin (λ policy. most policy + one_vote item power policy) votes
        (add_power item power candidates) (add_power-IsWithin most item power candidates h))

first_majority-power :
    (total : ℕ) (most : ParticipationPolicy → ℕ) (candidates : List (ParticipationPolicy × ℕ))
    (policy : ParticipationPolicy)
    → IsWithin most candidates
    → first_majority total candidates ≡ some policy
    → 2 * total < 3 * most policy
unfolding first_majority
first_majority-power total most [] policy h f = cc f
first_majority-power total most ((item, power) ∷ candidates) policy h f =
    elim (Bool-cases (ltb (saturating_mul u64_max total 2) (saturating_mul u64_max power 3))) [
      | inr less ↦ first_majority-power total most candidates policy h.1 (rw less at f)
      | inl more ↦
          let same : item ≡ policy = cc (rw more at f) in rw (← same) (ground (arith, more, h.0))
    ]

-- If a policy is decided and the whole power of the validators fits a u64, then the votes for that
-- policy have more than two thirds of it, also where the sums of other candidates wrap.
pub decided_policy_has_majority :
    (g : Governance) (policy : ParticipationPolicy)
    → sum_values g.voting_power ≤ u64_max
    → finalize g ≡ some policy
    → 2 * sum_values g.voting_power < 3 * power_for policy g.votes
unfolding finalize
decided_policy_has_majority g policy fits h =
    let total = sum_values g.voting_power in
    let same : wrap u64_max total ≡ total = wrap-fits total fits in
    let counted = count_votes-IsWithin (λ q. 0) g.votes [] tt in
    omega (
      arith,
      first_majority-power total (λ q. 0 + power_for q g.votes) (count_votes g.votes []) policy
          counted (rw same at h),
    )
  where
    wrap-fits : (n : ℕ) → n ≤ u64_max → wrap u64_max n ≡ n
    wrap-fits n h = omega (arith, h)

scaled :
    (reward ratio : ℕ)
    → 8750 ≤ ratio
    → ratio ≤ 11250
    → reward * 11250 / 10000 ≤ u64_max
    → (reward * 8750 / 10000 ≤ wrap u64_max (reward * ratio / 10000))
      × (wrap u64_max (reward * ratio / 10000) ≤ reward * 11250 / 10000)
scaled reward ratio low high fits =
    let least : reward * 8750 ≤ reward * ratio = mul-le-mul_left reward low in
    let most : reward * ratio ≤ reward * 11250 = mul-le-mul_left reward high in
    divided (reward * 8750) (reward * ratio) (reward * 11250) least most fits
  where
    divided :
        (a b c : ℕ)
        → a ≤ b
        → b ≤ c
        → c / 10000 ≤ u64_max
        → (a / 10000 ≤ wrap u64_max (b / 10000)) × (wrap u64_max (b / 10000) ≤ c / 10000)
    divided a b c h k l = (omega (arith, h, k, l), omega (arith, h, k, l))

-- Where the greatest reward of a policy fits a u64, the adjusted reward stays between 87.5 and 112.5
-- percent of the reward of the policy, whatever the number of active nodes.
adjusted_reward_stays_near :
    (p : ParticipationPolicy) (active_nodes : ℕ)
    → p.reward_per_block * 11250 / 10000 ≤ u64_max
    → (p.reward_per_block * 8750 / 10000 ≤ adjusted_reward p active_nodes)
      × (adjusted_reward p active_nodes ≤ p.reward_per_block * 11250 / 10000)
unfolding adjusted_reward
adjusted_reward_stays_near p active_nodes fits =
    scaled p.reward_per_block
      (min (max (max p.target_active_nodes 1 * 10000 / max active_nodes 1) 8750) 11250)
      (omega arith) (omega arith) fits
