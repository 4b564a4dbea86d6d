-- ===== src/TrafficRewards/Lottery.antt =====
-- `draw_lottery` and `integer_sqrt` of src/traffic_rewards.rs.
pub mod Root
pub mod Winners
use aah_chain.Base.{
  ℕ, zero, suc, ◌+◌, ◌-◌, ◌*◌, ◌/◌, ◌%◌, max, min, String, List, [], ◌∷◌, ◌++◌, Bool, true, false,
  ◌≡◌, ◌||◌, map, Option, none, some,
}
use aah_chain.Base.Tests.{if◌then◌else◌, eqb, leb, ltb, unwrap_or}
use aah_chain.Base.Lists.{length, take, drop, get_elem?, is_empty}
use aah_chain.Base.Sorting.{sort}
use aah_chain.Base.Bytes.{be_bytes, from_be_bytes}
use aah_chain.Base.Words.{u32_max, u64_max, wrap}
use aah_chain.Crates.{Crates}
use aah_chain.Consensus.Bft.{string_le}
use aah_chain.TrafficRewards.{EligibleNode, LotteryPayment}

-- The loop of `integer_sqrt`, on fuel: `none` where it has not ended.
unfoldable pub sqrt_loop : ℕ → ℕ → ℕ → ℕ → Option ℕ
sqrt_loop zero value left right = none
sqrt_loop (suc fuel) value left right =
    let middle = left + (right - left) / 2 in
    elim (leb left right) [
      | true ↦ elim (leb middle (value / middle)) [
        | true ↦ sqrt_loop fuel value (middle + 1) right
        | false ↦ sqrt_loop fuel value left (middle - 1)
      ]
      | false ↦ some right
    ]

-- `integer_sqrt`: `none` where its loop has not ended
unfoldable pub integer_sqrt? : ℕ → Option ℕ
unfolding sqrt_loop
integer_sqrt? value =
    let right = min value u32_max in
    if ltb value 2 then some value else sqrt_loop (right + 1) value 1 right

-- Its result, which there is for every u64.
unfoldable pub integer_sqrt : ℕ → ℕ
unfolding integer_sqrt?
integer_sqrt value = unwrap_or (integer_sqrt? value) 0

abbrev pub node_le : EligibleNode → EligibleNode → Bool
node_le a b = string_le a.peer_id b.peer_id

abbrev pub weight_of : EligibleNode → ℕ
weight_of node = integer_sqrt (max node.points 1)

-- The sum of the weights, before it wraps.
unfoldable pub total_weight : List EligibleNode → ℕ
total_weight [] = 0
total_weight (node ∷ nodes) = weight_of node + total_weight nodes

-- The index that the cursor falls on, and 0 where it falls on none.
unfoldable pub pick : ℕ → ℕ → List EligibleNode → ℕ
pick cursor index [] = 0
pick cursor index (node ∷ nodes) =
    let later = pick (cursor - weight_of node) (suc index) nodes in
    if ltb cursor (weight_of node) then index else later

-- `Vec::remove`: the element, and the others
unfoldable pub remove_at : {A : Type 0} → ℕ → List A → Option (A × List A)
remove_at i [] = none
remove_at zero (x ∷ xs) = some (x, xs)
remove_at (suc i) (x ∷ xs) = elim (remove_at i xs) [ none ↦ none | some (y, ys) ↦ some (y, x ∷ ys) ]

module _ (crates : Crates) where
  -- The number that a round draws from the seed.
  abbrev pub drawn : List ℕ → ℕ → ℕ
  drawn seed round = from_be_bytes 0 (take 8 (crates.sha256 (seed ++ be_bytes 8 round)))

  -- The rounds: how many are left, the next one, and the nodes that have not won.
  unfoldable pub draw_rounds : List ℕ → ℕ → ℕ → ℕ → List EligibleNode → List LotteryPayment
  unfolding total_weight pick remove_at
  draw_rounds seed amount zero round remaining = []
  draw_rounds seed amount (suc rounds) round remaining =
      let cursor = drawn seed round % wrap u64_max (total_weight remaining) in
      elim (remove_at (pick cursor 0 remaining) remaining) [
        | none ↦ []
        | some (node, others) ↦
            record { peer_id = node.peer_id; reward_address = node.reward_address; amount = amount }
            ∷ draw_rounds seed amount rounds (suc round) others
      ]

  -- `draw_lottery`
  unfoldable pub draw_lottery : List ℕ → ℕ → ℕ → List EligibleNode → List LotteryPayment
  unfolding draw_rounds
  draw_lottery seed pool winner_count nodes =
      let draws = min winner_count (length nodes) in
      let amount = pool / draws in
      if eqb pool 0 || eqb winner_count 0 || is_empty nodes
      then []
      else if eqb amount 0
      then []
      else draw_rounds seed amount draws 0 (sort node_le nodes)
