-- ===== src/NodeEmission/Settlement.antt =====
-- What the nodes are paid by `settle_daily_rewards` of src/node_emission.rs.
use native.Mathlib.Nat.{div-mul-le_self, le_of_mul-le-mul_right}
use aah_chain.Base.{
  ℕ, ◌+◌, ◌*◌, ◌/◌, ◌≤◌, ◌<◌, min, List, [], ◌∷◌, false, ◌≡◌, refl, arith, inl, inr, ◌∙◌, ap, not,
  ◌&&◌,
}
use aah_chain.Base.Tests.{if◌then◌else◌, eqb, Bool-cases}
use aah_chain.Base.Lists.{is_empty, length}
use aah_chain.Base.Sets.{All}
use aah_chain.Base.Sorting.{sort, insert_sorted, length-sort}
use aah_chain.Base.Words.{u128_max, saturating_mul, wrap, wrapping_sub}
use aah_chain.TrafficRewards.{EligibleNode, LotteryPayment, total_paid}
use aah_chain.NodeEmission.{
  total_node_emission, is_reward_active, daily_budget, remaining_budget, weight_of, is_main_node,
  total_weight, node_le, pay, pay_nodes, settle_daily_rewards,
}

total_paid-pay :
    (node : EligibleNode) (amount : ℕ) (payments : List LotteryPayment)
    → total_paid (pay node amount payments) ≡ amount + total_paid payments
total_paid-pay node amount payments = ground arith

rearranged :
    (a q t p w r m : ℕ)
    → a * t + p * (w + r) ≤ p * t
    → q * t ≤ m
    → m ≤ p * w
    → (a + q) * t + p * r ≤ p * t
rearranged a q t p w r m h k l = omega (arith, h, k, l)

-- The share of a node, and what is then left for the others.
share-le :
    (pool weight total rest assigned : ℕ)
    → assigned * total + pool * (weight + rest) ≤ pool * total
    → (assigned + saturating_mul u128_max pool weight / total) * total + pool * rest ≤ pool * total
share-le pool weight total rest assigned h =
    let m = saturating_mul u128_max pool weight in
    rearranged assigned (m / total) total pool weight rest m h (div-mul-le_self m total)
      (saturating_mul-le pool weight)
  where
    saturating_mul-le : (a b : ℕ) → saturating_mul u128_max a b ≤ a * b
    saturating_mul-le a b = ground arith

-- What is assigned never passes the pool.
assigned-le :
    (pool total rest assigned : ℕ)
    → 0 < total
    → assigned * total + pool * rest ≤ pool * total
    → assigned ≤ pool
assigned-le pool total rest assigned positive h =
    le_of_mul-le-mul_right {m = assigned} {n = pool} {k = total} (omega (arith, h)) positive

total_paid-pay_nodes :
    (pool total assigned : ℕ) (node : EligibleNode) (nodes : List EligibleNode)
    → pool ≤ u128_max
    → 0 < total
    → assigned * total + pool * total_weight (node ∷ nodes) ≤ pool * total
    → assigned + total_paid (pay_nodes pool total assigned (node ∷ nodes)) ≡ pool
unfolding pay_nodes total_weight
total_paid-pay_nodes pool total assigned node [] fits positive h =
    let within = assigned-le pool total (weight_of node + 0) assigned positive h in
    ground (arith, within, total_paid-pay node (wrapping_sub u128_max pool assigned) [])
total_paid-pay_nodes pool total assigned node (next ∷ nodes) fits positive h =
    let amount = saturating_mul u128_max pool (weight_of node) / total in
    let left = share-le pool (weight_of node) total (total_weight (next ∷ nodes)) assigned h in
    let within =
      assigned-le pool total (total_weight (next ∷ nodes)) (assigned + amount) positive left in
    let same : wrap u128_max (assigned + amount) ≡ assigned + amount =
      wrapped (assigned + amount) (omega (arith, within, fits)) in
    rw (same, total_paid-pay)
      (assoc assigned amount _
        (total_paid-pay_nodes pool total (assigned + amount) next nodes fits positive left))
  where
    wrapped : (n : ℕ) → n ≤ u128_max → wrap u128_max n ≡ n
    wrapped n h = omega (arith, h)

    assoc : (a b c : ℕ) → (a + b) + c ≡ pool → a + (b + c) ≡ pool
    assoc a b c h = omega (arith, h)

total_weight-insert_sorted :
    (node : EligibleNode) (nodes : List EligibleNode)
    → total_weight (insert_sorted node_le node nodes) ≡ weight_of node + total_weight nodes
unfolding total_weight insert_sorted
total_weight-insert_sorted node [] = refl
total_weight-insert_sorted node (n ∷ nodes) = ground (arith, total_weight-insert_sorted node nodes)

total_weight-sort :
    (nodes : List EligibleNode) → total_weight (sort node_le nodes) ≡ total_weight nodes
unfolding total_weight sort
total_weight-sort [] = refl
total_weight-sort (n ∷ nodes) =
    total_weight-insert_sorted n (sort node_le nodes)
    ∙ ap (λ w. weight_of n + w) (total_weight-sort nodes)

total_weight-positive :
    (node : EligibleNode) (nodes : List EligibleNode) → 0 < total_weight (node ∷ nodes)
unfolding total_weight
total_weight-positive node nodes = elim (Bool-cases (is_main_node node.peer_id)) [
  | inl main ↦ rw main (omega arith)
  | inr normal ↦ rw normal (omega arith)
]

wrap-fits : (n : ℕ) → n ≤ u128_max → wrap u128_max n ≡ n
wrap-fits n h = omega (arith, h)

total_paid-all :
    (pool : ℕ) (nodes : List EligibleNode)
    → 0 < length nodes
    → total_weight nodes ≤ u128_max
    → pool ≤ u128_max
    → total_paid (pay_nodes pool (wrap u128_max (total_weight nodes)) 0 nodes) ≡ pool
total_paid-all pool [] some_node weights fits = ground (arith, some_node)
total_paid-all pool (node ∷ nodes) some_node weights fits =
    let total = total_weight (node ∷ nodes) in
    rw (wrap-fits total weights) (
      omega (
        arith,
        total_paid-pay_nodes pool total 0 node nodes fits (total_weight-positive node nodes)
            (omega arith),
      ))

length-positive : {A : Type 0} (xs : List A) → is_empty xs ≡ false → 0 < length xs
length-positive [] h = cc
length-positive (x ∷ xs) h = omega arith

pool-fits :
    (timestamp distributed : ℕ)
    → min (daily_budget timestamp) (remaining_budget distributed) ≤ u128_max
unfolding remaining_budget
pool-fits timestamp distributed = omega arith

-- Where the weights of the nodes fit a u128, a settlement pays exactly the pool of the day, that is
-- the budget of the day or what is left of the emission if that is less; before the rewards start,
-- after they end, or without a node it pays nothing.
pub settlement_pays_the_pool :
    (height timestamp already_distributed : ℕ) (eligible : List EligibleNode)
    → total_weight eligible ≤ u128_max
    → total_paid (settle_daily_rewards height timestamp already_distributed eligible) ≡ (
        if is_reward_active height timestamp && not (is_empty eligible)
        then min (daily_budget timestamp) (remaining_budget already_distributed)
        else 0)
unfolding settle_daily_rewards
settlement_pays_the_pool height timestamp already_distributed eligible weights =
    let pool = min (daily_budget timestamp) (remaining_budget already_distributed) in
    let nodes = sort node_le eligible in
    elim (Bool-cases (is_reward_active height timestamp)) [
      | inr idle ↦ ground (arith, idle)
      | inl active ↦ elim (Bool-cases (is_empty eligible)) [
        | inl nobody ↦ ground (arith, active, nobody)
        | inr somebody ↦
            let paid : total_paid (pay_nodes pool (wrap u128_max (total_weight nodes)) 0 nodes)
                ≡ pool =
              total_paid-all pool nodes
                (rw (length-sort node_le eligible) (length-positive eligible somebody))
                (rw (total_weight-sort eligible) weights)
                (pool-fits timestamp already_distributed) in
            elim (Bool-cases (eqb pool 0)) [
              | inl empty ↦ rw (active, somebody, empty) (ground (arith, empty))
              | inr full ↦ rw (active, somebody, full) paid
            ]
      ]
    ]

-- The settlements of some days, each with what had been distributed before: what is distributed in
-- all.
abbrev pub distributed_after : List (ℕ × ℕ × List EligibleNode) → ℕ → ℕ
distributed_after [] distributed = distributed
distributed_after ((height, timestamp, eligible) ∷ days) distributed =
    distributed_after days
      (distributed + total_paid (settle_daily_rewards height timestamp distributed eligible))

-- However many settlements follow one another, each over nodes whose weights fit a u128, no more is
-- distributed in all than the 210,000,000 IEUM of the emission, if that was not passed before.
pub emission_is_capped :
    (days : List (ℕ × ℕ × List EligibleNode)) (distributed : ℕ)
    → All (λ (day : ℕ × ℕ × List EligibleNode). total_weight day.2 ≤ u128_max) days
    → distributed ≤ total_node_emission
    → distributed_after days distributed ≤ total_node_emission
unfolding remaining_budget
emission_is_capped [] distributed weights h = h
emission_is_capped ((height, timestamp, eligible) ∷ days) distributed weights h =
    let paid = settlement_pays_the_pool height timestamp distributed eligible weights.0 in
    emission_is_capped days
      (distributed + total_paid (settle_daily_rewards height timestamp distributed eligible))
      weights.1 (ground (arith, paid, h))
