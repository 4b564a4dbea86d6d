-- ===== src/TrafficRewards/Tests.antt =====
-- Three peers, three receipts and a lottery, and the theorems of src/traffic_rewards.rs applied to
-- them.
use aah_chain.Base.{
  some, ℕ, ◌+◌, ◌*◌, ◌≤◌, ◌<◌, min, String, List, [], ◌∷◌, true, false, ◌≡◌, refl, map, arith,
}
use aah_chain.Base.Lists.{length}
use aah_chain.Base.Sets
use aah_chain.Base.Sets.{All, contains}
use aah_chain.Base.Maps
use aah_chain.Base.Maps.{get_or_zero}
use aah_chain.Base.Sorting.{sort}
use aah_chain.Base.Bytes.{is_blank, as_bytes, all_bytes}
use aah_chain.Base.Outcome.{ok}
use aah_chain.Consensus.Tests.{toy}
use aah_chain.TrafficRewards.{EligibleNode}
use aah_chain.TrafficRewards.Lottery.{integer_sqrt?, integer_sqrt, draw_lottery, sqrt_loop}
use aah_chain.TrafficRewards.Lottery.Root.{integer_sqrt_is_floor}
use aah_chain.TrafficRewards.Lottery.Winners.{IsFair, lottery_pays_distinct_nodes}
use aah_chain.TrafficRewards.Peers
use aah_chain.TrafficRewards.Peers.{PeerCandidate, TrafficPolicy, select_balanced_peers}
use aah_chain.TrafficRewards.Peers.Choice.{IsBalanced, selected_peers_are_fair}
use aah_chain.TrafficRewards.Ledger
use aah_chain.TrafficRewards.Ledger.{RelayReceipt, ContributionLedger, new_ledger, eligible_nodes}
use aah_chain.TrafficRewards.Ledger.Eligible.{IsVerified, record_all, eligible_nodes_are_confirmed}

root_of_a_million : integer_sqrt 1000003 ≡ 1000
unfolding integer_sqrt integer_sqrt? sqrt_loop
root_of_a_million = refl

integer_sqrt_is_floor_example :
    (integer_sqrt? 1000003 ≡ some (integer_sqrt 1000003))
    × (integer_sqrt 1000003 * integer_sqrt 1000003 ≤ 1000003)
    × (1000003 < (integer_sqrt 1000003 + 1) * (integer_sqrt 1000003 + 1))
integer_sqrt_is_floor_example = integer_sqrt_is_floor 1000003 (omega arith)

abbrev node : String → ℕ → EligibleNode
node id points = record {
  peer_id = id;
  reward_address = "11";
  points = points;
  distinct_verifiers = 3;
}

abbrev nodes : List EligibleNode
nodes = node "p2" 100 ∷ node "p1" 9 ∷ node "p3" 0 ∷ []

lottery_pays_distinct_nodes_example :
    IsFair 1001 (min 2 (length nodes)) nodes (draw_lottery toy (7 ∷ []) 1001 2 nodes)
unfolding contains
lottery_pays_distinct_nodes_example =
    lottery_pays_distinct_nodes toy (7 ∷ []) 1001 2 nodes (refl, (refl, (refl, tt)))

abbrev peer : String → ℕ → ℕ → PeerCandidate
peer id latency uptime = record {
  peer_id = id;
  country_code = "KR";
  asn = 1;
  latency_ms = latency;
  uptime_bps = uptime;
  capacity = 10;
  active_connections = 2;
  is_bootstrap = true;
}

abbrev policy : TrafficPolicy
policy = record Peers.default_policy {
  target_connections = 2;
  nearby_slots = 1;
  diversity_slots = 1;
  low_load_slots = 0;
}

abbrev peers : List PeerCandidate
peers =
    peer "a" 30 9000
    ∷ (record (peer "b" 10 9000) { is_bootstrap = false })
    ∷ peer "c" 5 7000
    ∷ peer "b" 1 9999
    ∷ []

two_are_selected :
    select_balanced_peers policy peers
    ≡ ok ((record (peer "b" 10 9000) { is_bootstrap = false }) ∷ peer "a" 30 9000 ∷ [])
unfolding select_balanced_peers sort is_blank
two_are_selected = refl

selected_peers_are_fair_example :
    IsBalanced policy peers
      ((record (peer "b" 10 9000) { is_bootstrap = false }) ∷ peer "a" 30 9000 ∷ [])
selected_peers_are_fair_example = selected_peers_are_fair policy peers _ two_are_selected

abbrev address : String
address = "1111111111111111111111111111111111111111111111111111111111111111"

abbrev receipt : String → RelayReceipt
receipt verifier = record {
  relay_peer_id = "relay";
  reward_address = address;
  verifier_peer_id = verifier;
  message_id = "m";
  payload_bytes = 100000;
  observed_at = 100000;
  relay_started_at = 1000;
}

-- One receipt comes twice, and one is the relay's own.
abbrev receipts : List RelayReceipt
receipts = receipt "v1" ∷ receipt "v2" ∷ receipt "v1" ∷ receipt "relay" ∷ receipt "v3" ∷ []

abbrev fresh : ContributionLedger
fresh = record {
  policy = Ledger.default_policy;
  epoch = 1;
  seen = [];
  verifier_counts = [];
  nodes = [];
}

fresh_is_new : new_ledger Ledger.default_policy 1 ≡ ok fresh
unfolding new_ledger
fresh_is_new = refl

one_is_eligible :
    map (λ (n : EligibleNode). n.points) (eligible_nodes (record_all receipts fresh)) ≡ 6 ∷ []
unfolding eligible_nodes sort record_all Ledger.record_validated is_blank as_bytes all_bytes
    contains get_or_zero Maps.insert Sets.insert
one_is_eligible = refl

eligible_nodes_are_confirmed_example :
    All (IsVerified receipts Ledger.default_policy) (eligible_nodes (record_all receipts fresh))
eligible_nodes_are_confirmed_example =
    eligible_nodes_are_confirmed Ledger.default_policy 1 fresh receipts fresh_is_new
