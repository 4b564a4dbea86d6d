-- ===== src/NodeEmission.antt =====
-- src/node_emission.rs: the pool of every day, and how it is paid to the nodes. The sums
-- are those of a release build, which wraps a `u128`.
pub mod Settlement
mod Tests
use aah_chain.Base.{
  ℕ, zero, suc, ◌+◌, ◌-◌, ◌*◌, ◌/◌, ◌^◌, max, min, String, List, [], ◌∷◌, Bool, true, false, Option,
  none, some, ◌≡◌, ◌||◌, ◌&&◌, not, map,
}
use aah_chain.Base.Tests.{if◌then◌else◌, eqb, leb, ltb}
use aah_chain.Base.Keys.{◌==◌, string_eq}
use aah_chain.Base.Sets
use aah_chain.Base.Sorting.{sort}
use aah_chain.Base.Words.{u128_max, saturating_mul, div_ceil, wrap, wrapping_sub}
use aah_chain.Base.Lists.{is_empty}
use aah_chain.Consensus.Bft.{string_le}
use aah_chain.TrafficRewards.{EligibleNode, LotteryPayment}

abbrev pub total_node_emission : ℕ
total_node_emission = 210000000 * 1000000000000000000

abbrev pub reward_activation_height : ℕ
reward_activation_height = 100

abbrev pub reward_activation_unix : ℕ
reward_activation_unix = 1786287600

abbrev pub reward_end_unix : ℕ
reward_end_unix = 2240611199

abbrev pub reward_epoch_seconds : ℕ
reward_epoch_seconds = 86400

abbrev pub halving_seconds : ℕ
halving_seconds = 365 * reward_epoch_seconds

abbrev pub normal_node_weight_bps : ℕ
normal_node_weight_bps = 10000

abbrev pub main_node_weight_bps : ℕ
main_node_weight_bps = 15000

abbrev pub main_node_peer_ids : List String
main_node_peer_ids = "" ∷ "" ∷ "" ∷ "" ∷ []

abbrev is_in_reward_time : ℕ → Bool
is_in_reward_time timestamp = leb reward_activation_unix timestamp && leb timestamp reward_end_unix

-- `is_reward_active`
unfoldable pub is_reward_active : ℕ → ℕ → Bool
is_reward_active height timestamp =
    leb reward_activation_height height && is_in_reward_time timestamp

-- `halving_index`
unfoldable pub halving_index : ℕ → Option ℕ
halving_index timestamp =
    if is_in_reward_time timestamp
    then some ((timestamp - reward_activation_unix) / halving_seconds)
    else none

-- `reward_year_count`
abbrev pub reward_year_count : ℕ
reward_year_count = (reward_end_unix - reward_activation_unix) / halving_seconds + 1

-- The share of a year that is not the last.
abbrev pub year_share : ℕ → ℕ
year_share index =
    total_node_emission * 2 ^ (reward_year_count - index - 1) / (2 ^ reward_year_count - 1)

-- What the years before one have been paid.
unfoldable pub paid_before : ℕ → ℕ
paid_before zero = 0
paid_before (suc index) = paid_before index + year_share index

-- `annual_budget`
unfoldable pub annual_budget : ℕ → ℕ
unfolding paid_before
annual_budget year_index =
    if leb reward_year_count year_index
    then 0
    else if eqb (year_index + 1) reward_year_count
    then total_node_emission - paid_before year_index
    else year_share year_index

-- `daily_budget`
unfoldable pub daily_budget : ℕ → ℕ
unfolding annual_budget halving_index
daily_budget timestamp = elim (halving_index timestamp) [
  | none ↦ 0
  | some year ↦
      let start = reward_activation_unix + year * halving_seconds in
      let end' = min (start + halving_seconds - 1) reward_end_unix in
      let days = div_ceil (end' - start + 1) reward_epoch_seconds in annual_budget year / days
]

-- `remaining_budget`
unfoldable pub remaining_budget : ℕ → ℕ
remaining_budget distributed = total_node_emission - min distributed total_node_emission

-- `is_main_node`
unfoldable pub is_main_node : String → Bool
is_main_node peer_id = not (peer_id == "") && Sets.contains peer_id main_node_peer_ids

-- The weight of a node.
abbrev pub weight_of : EligibleNode → ℕ
weight_of node =
    max node.points 1
    * (if is_main_node node.peer_id then main_node_weight_bps else normal_node_weight_bps)

-- The sum of the weights, before it wraps.
unfoldable pub total_weight : List EligibleNode → ℕ
total_weight [] = 0
total_weight (node ∷ nodes) = weight_of node + total_weight nodes

abbrev pub node_le : EligibleNode → EligibleNode → Bool
node_le a b = string_le a.peer_id b.peer_id

-- A payment, where there is one.
abbrev pub pay : EligibleNode → ℕ → List LotteryPayment → List LotteryPayment
pay node amount payments =
    if ltb 0 amount
    then record { peer_id = node.peer_id; reward_address = node.reward_address; amount = amount }
      ∷ payments
    else payments

-- The loop over the nodes, with what has been assigned: the last node takes the rest.
unfoldable pub pay_nodes : ℕ → ℕ → ℕ → List EligibleNode → List LotteryPayment
pay_nodes pool total assigned [] = []
pay_nodes pool total assigned (node ∷ []) = pay node (wrapping_sub u128_max pool assigned) []
pay_nodes pool total assigned (node ∷ next ∷ nodes) =
    let amount = saturating_mul u128_max pool (weight_of node) / total in
    pay node amount (pay_nodes pool total (wrap u128_max (assigned + amount)) (next ∷ nodes))

-- `settle_daily_rewards`
unfoldable pub settle_daily_rewards : ℕ → ℕ → ℕ → List EligibleNode → List LotteryPayment
unfolding daily_budget is_reward_active remaining_budget pay_nodes
settle_daily_rewards height timestamp already_distributed eligible =
    let pool = min (daily_budget timestamp) (remaining_budget already_distributed) in
    let nodes = sort node_le eligible in
    if not (is_reward_active height timestamp) || is_empty eligible
    then []
    else if eqb pool 0
    then []
    else pay_nodes pool (wrap u128_max (total_weight nodes)) 0 nodes
