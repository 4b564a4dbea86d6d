-- ===== src/NodeEmission/Tests.antt =====
-- Two nodes and two days, and the theorems of src/node_emission.rs applied to them.
use aah_chain.Base.{ℕ, ◌+◌, ◌-◌, ◌≤◌, min, String, List, [], ◌∷◌, ◌≡◌, refl, arith, not, ◌&&◌}
use aah_chain.Base.Tests.{if◌then◌else◌}
use aah_chain.Base.Lists.{is_empty}
use aah_chain.Base.Sets.{contains}
use aah_chain.Base.Sorting.{sort, insert_sorted}
use aah_chain.Base.Words.{u128_max}
use aah_chain.TrafficRewards.{EligibleNode, total_paid}
use aah_chain.NodeEmission.{
  reward_activation_unix, total_node_emission, is_reward_active, daily_budget, remaining_budget,
  total_weight, settle_daily_rewards, is_main_node, halving_index, annual_budget, pay_nodes,
  paid_before,
}
use aah_chain.NodeEmission.Settlement.{
  distributed_after, settlement_pays_the_pool, emission_is_capped,
}

abbrev node : String → ℕ → EligibleNode
node id points = record {
  peer_id = id;
  reward_address = "11";
  points = points;
  distinct_verifiers = 3;
}

abbrev nodes : List EligibleNode
nodes = node "b" 2 ∷ node "a" 1 ∷ []

-- 7 IEUM are left.
abbrev spent : ℕ
spent = total_node_emission - 7000000000000000000

abbrev days : List (ℕ × ℕ × List EligibleNode)
days = (100, reward_activation_unix, nodes) ∷ (101, reward_activation_unix + 86400, nodes) ∷ []

nodes_weigh_little : total_weight nodes ≤ u128_max
unfolding total_weight is_main_node contains
nodes_weigh_little = omega arith

the_rest_is_paid : distributed_after days spent ≡ total_node_emission
unfolding settle_daily_rewards sort insert_sorted total_weight is_reward_active daily_budget
    remaining_budget is_main_node halving_index annual_budget pay_nodes paid_before contains
the_rest_is_paid = refl

settlement_pays_the_pool_example :
    total_paid (settle_daily_rewards 100 reward_activation_unix spent nodes) ≡ (
      if is_reward_active 100 reward_activation_unix && not (is_empty nodes)
      then min (daily_budget reward_activation_unix) (remaining_budget spent)
      else 0)
settlement_pays_the_pool_example =
    settlement_pays_the_pool 100 reward_activation_unix spent nodes nodes_weigh_little

emission_is_capped_example : distributed_after days spent ≤ total_node_emission
emission_is_capped_example =
    emission_is_capped days spent (nodes_weigh_little, (nodes_weigh_little, tt)) (omega arith)
