-- ===== src/TrafficRewards/Lottery/Winners.antt =====
-- Who wins `draw_lottery` of src/traffic_rewards.rs, and how much is paid.
use native.Mathlib.Nat.{div-mul-le_self, le-div_iff_mul-le}
use aah_chain.Base.{
  ℕ, zero, suc, ◌+◌, ◌-◌, ◌*◌, ◌/◌, ◌%◌, ◌≤◌, ◌<◌, min, String, List, [], ◌∷◌, true, false, some,
  ◌≡◌, refl, arith, inl, inr, ◌⊎◌, ap, map, ◌||◌,
}
use aah_chain.Base.Tests.{ltb, eqb, Bool-cases}
use aah_chain.Base.Keys.{◌==◌, string_eq}
use aah_chain.Base.Lists.{length, is_empty}
use aah_chain.Base.Sets.{In, All, IsNodup, contains, All-map}
use aah_chain.Base.Sorting.{sort, length-sort, In-sort}
use aah_chain.Base.Distinct.{sort-IsNodup}
use aah_chain.Base.Words.{u64_max, wrap}
use aah_chain.Crates.{Crates}
use aah_chain.TrafficRewards.{EligibleNode, LotteryPayment, total_paid}
use aah_chain.TrafficRewards.Lottery.{
  weight_of, total_weight, pick, remove_at, drawn, draw_rounds, draw_lottery, node_le,
}

abbrev id_of : EligibleNode → String
id_of node = node.peer_id

abbrev winner_id : LotteryPayment → String
winner_id payment = payment.peer_id

pick-range :
    (cursor index : ℕ) (nodes : List EligibleNode)
    → (pick cursor index nodes ≡ 0) ⊎ (pick cursor index nodes < index + length nodes)
unfolding pick
pick-range cursor index [] = inl refl
pick-range cursor index (node ∷ nodes) = elim (Bool-cases (ltb cursor (weight_of node))) [
  | inl here ↦ rw here (inr (omega arith))
  | inr later ↦ rw later (elim (pick-range (cursor - weight_of node) (suc index) nodes) [
    | inl none' ↦ inl none'
    | inr found ↦ inr (omega (arith, found))
  ])
]

-- An element has been taken out of a list.
record IsRemoved (xs : List EligibleNode) (y : EligibleNode) (ys : List EligibleNode) : Type 0 where
  shorter : suc (length ys) ≡ length xs
  member : In y xs
  others : (z : EligibleNode) → In z ys → In z xs
  keys : (k : String) → contains k (map id_of xs) ≡ (id_of y == k || contains k (map id_of ys))
  distinct : IsNodup (map id_of xs) → IsNodup (map id_of (y ∷ ys))

remove_at-IsRemoved :
    (i : ℕ) (xs : List EligibleNode)
    → i < length xs
    → (y : EligibleNode) × (ys : List EligibleNode) × (remove_at i xs ≡ some (y, ys))
      × IsRemoved xs y ys
unfolding remove_at contains
remove_at-IsRemoved i [] h = ground (arith, h)
remove_at-IsRemoved zero (x ∷ xs) h = (
  x,
  xs,
  refl,
  record {
    shorter = refl;
    member = inl refl;
    others = λ z i. inr i;
    keys = λ k. refl;
    distinct = λ d. d;
  },
)
remove_at-IsRemoved (suc i) (x ∷ xs) h =
    let (y, ys, f, r) = remove_at-IsRemoved i xs (omega (arith, h)) in
    (
      y,
      x ∷ ys,
      rw (f, remove_at) refl,
      record {
        shorter = ap suc r.shorter;
        member = inr r.member;
        others = λ z j. elim j [ inl p ↦ inl p | inr k ↦ inr (r.others z k) ];
        keys = λ k. ground (arith, r.keys k);
        distinct = λ d.
            let rest = r.distinct d.1 in
            (
              ground (
                arith,
                d.0,
                rest.0,
                r.keys (id_of x),
                string_eq.beq_iff (id_of x) (id_of y),
                string_eq.beq_iff (id_of y) (id_of x),
              ),
              (ground (arith, d.0, r.keys (id_of x)), rest.1),
            );
      },
    )

-- The payment goes to a node of the list.
abbrev pub IsForNode : List EligibleNode → LotteryPayment → Type 0
IsForNode nodes w =
    (node : EligibleNode) × In node nodes
    × (w.peer_id ≡ node.peer_id)
    × (w.reward_address ≡ node.reward_address)

record IsDraw (rounds amount : ℕ) (remaining : List EligibleNode) (winners : List LotteryPayment)
    : Type 0 where
  count : length winners ≡ rounds
  paid : total_paid winners ≡ rounds * amount
  nodes : All (IsForNode remaining) winners
  within :
      (k : String)
      → contains k (map id_of remaining) ≡ false
      → contains k (map winner_id winners) ≡ false
  distinct : IsNodup (map id_of remaining) → IsNodup (map winner_id winners)

module _ (crates : Crates) (seed : List ℕ) (amount : ℕ) where
  draw_rounds-IsDraw :
      (rounds round : ℕ) (remaining : List EligibleNode)
      → rounds ≤ length remaining
      → IsDraw rounds amount remaining (draw_rounds crates seed amount rounds round remaining)
  unfolding draw_rounds contains
  draw_rounds-IsDraw zero round remaining h = record {
    count = refl;
    paid = omega arith;
    nodes = tt;
    within = λ k a. refl;
    distinct = λ d. tt;
  }
  draw_rounds-IsDraw (suc rounds) round remaining h =
      let cursor = drawn crates seed round % wrap u64_max (total_weight remaining) in
      let range : pick cursor 0 remaining < length remaining =
        elim (pick-range cursor 0 remaining) [
          | inl first ↦ omega (arith, first, h)
          | inr found ↦ omega (arith, found)
        ] in
      let (node, others, f, r) = remove_at-IsRemoved (pick cursor 0 remaining) remaining range in
      let d = draw_rounds-IsDraw rounds (suc round) others (omega (arith, r.shorter, h)) in
      rw (f, draw_rounds)
        (record {
          count = ap suc d.count;
          paid = omega (arith, d.paid);
          nodes = (
            (node, r.member, refl, refl),
            All-map (IsForNode others) (IsForNode remaining) _
                (λ w q. (q.0, r.others q.0 q.1, q.2, q.3)) d.nodes,
          );
          within = λ k a.
              let parts = r.keys k in
              ground (arith, a, parts, d.within k (ground (arith, a, parts)));
          distinct =
              λ q. let rest = r.distinct q in (d.within (id_of node) rest.0, d.distinct rest.1);
        })

-- What is claimed of the payments of a lottery.
abbrev pub IsFair : ℕ → ℕ → List EligibleNode → List LotteryPayment → Type 0
IsFair pool draws nodes winners =
    IsNodup (map (λ (w : LotteryPayment). w.peer_id) winners)
    × All (IsForNode nodes) winners
    × (total_paid winners ≤ pool)
    × (1 ≤ draws → draws ≤ pool → length winners ≡ draws)

nobody-IsFair :
    (pool draws : ℕ) (nodes : List EligibleNode)
    → (1 ≤ draws → draws ≤ pool → 0 ≡ draws)
    → IsFair pool draws nodes []
nobody-IsFair pool draws nodes h = (tt, tt, omega arith, h)

IsDraw-IsFair :
    (pool draws : ℕ) (nodes : List EligibleNode) (winners : List LotteryPayment)
    → IsNodup (map id_of nodes)
    → IsDraw draws (pool / draws) (sort node_le nodes) winners
    → IsFair pool draws nodes winners
IsDraw-IsFair pool draws nodes winners distinct d = (
  d.distinct (sort-IsNodup id_of node_le nodes distinct),
  All-map (IsForNode (sort node_le nodes)) (IsForNode nodes) winners
      (λ w q. (q.0, In-sort node_le q.0 nodes q.1, q.2, q.3)) d.nodes,
  omega (arith, d.paid, div-mul-le_self pool draws),
  λ one enough. d.count,
)

idle-draws :
    (pool winner_count : ℕ) (nodes : List EligibleNode)
    → (eqb pool 0 || eqb winner_count 0 || is_empty nodes) ≡ true
    → 1 ≤ min winner_count (length nodes)
    → min winner_count (length nodes) ≤ pool
    → 0 ≡ min winner_count (length nodes)
idle-draws pool winner_count [] idle one enough = omega (arith, one)
idle-draws pool winner_count (node ∷ nodes) idle one enough = ground (arith, idle, one, enough)

poor-draws : (pool draws : ℕ) → eqb (pool / draws) 0 ≡ true → 1 ≤ draws → draws ≤ pool → 0 ≡ draws
poor-draws pool draws poor one enough =
    let share : 1 ≤ pool / draws = (le-div_iff_mul-le one).1 (omega (arith, enough)) in
    ground (arith, poor, share)

-- If no peer stands twice among the nodes, a lottery pays no peer twice and none but the nodes, at
-- their addresses, and no more than the pool in all; where the pool has a unit for each draw, there
-- are as many winners as the policy asks for, or as there are nodes if those are fewer.
pub lottery_pays_distinct_nodes :
    (crates : Crates) (seed : List ℕ) (pool winner_count : ℕ) (nodes : List EligibleNode)
    → IsNodup (map (λ (node : EligibleNode). node.peer_id) nodes)
    → IsFair pool
        (min winner_count (length nodes))
        nodes
        (draw_lottery crates seed pool winner_count nodes)
unfolding draw_lottery
lottery_pays_distinct_nodes crates seed pool winner_count nodes distinct =
    let draws = min winner_count (length nodes) in
    elim (Bool-cases (eqb pool 0 || eqb winner_count 0 || is_empty nodes)) [
      | inl idle ↦
          rw idle (nobody-IsFair pool draws nodes (idle-draws pool winner_count nodes idle))
      | inr going ↦ elim (Bool-cases (eqb (pool / draws) 0)) [
        | inl poor ↦ rw (going, poor) (nobody-IsFair pool draws nodes (poor-draws pool draws poor))
        | inr rich ↦
            rw (going, rich)
              (IsDraw-IsFair pool draws nodes _ distinct (
                draw_rounds-IsDraw crates seed (pool / draws) draws 0 (sort node_le nodes)
                  (rw (length-sort node_le nodes) (omega arith))))
      ]
    ]
