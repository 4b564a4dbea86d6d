-- ===== src/TrafficRewards/Ledger.antt =====
-- `RewardPolicy` and `ContributionLedger` of src/traffic_rewards.rs: the points that relays of
-- messages earn. A method returns its result and the ledger that it leaves, also where it fails.
pub mod Eligible
use aah_chain.Base.{
  ℕ, ◌+◌, ◌-◌, ◌*◌, ◌/◌, max, min, String, List, [], ◌∷◌, ◌++◌, Bool, true, false, Option, none,
  some, ◌≡◌, ◌||◌, ◌&&◌, not, map,
}
use aah_chain.Base.Tests.{if◌then◌else◌, eqb, leb, ltb, unwrap_or}
use aah_chain.Base.Keys.{◌==◌, string_eq, pair_eq}
use aah_chain.Base.Lists.{length, keep}
use aah_chain.Base.Maps
use aah_chain.Base.Maps.{Map, get, get_or_zero}
use aah_chain.Base.Sets
use aah_chain.Base.Sorting.{sort}
use aah_chain.Base.Bytes.{as_bytes, all_bytes, is_ascii_hexdigit, is_blank}
use aah_chain.Base.Words.{u64_max, u128_max, saturating_add, saturating_mul, div_ceil, wrap}
use aah_chain.Base.Outcome.{Outcome, ok, err, ◌>>=◌, ◌>>◌, fail_if}
use aah_chain.Errors.{
  Error, bad_epoch, bad_pool_fee, bad_reward_limits, bad_minimum_uptime, other_epoch, self_relay,
  empty_message, short_uptime, other_reward_address, bad_node_address,
}
use aah_chain.TrafficRewards.{EligibleNode}
use aah_chain.TrafficRewards.Lottery.{node_le}
use aah_chain.TrafficRewards.Peers.{bps_denominator}

pub record RelayReceipt : Type 0 where
  pub relay_peer_id : String
  pub reward_address : String
  pub verifier_peer_id : String
  pub message_id : String
  pub payload_bytes : ℕ
  pub observed_at : ℕ
  pub relay_started_at : ℕ

pub record RewardPolicy : Type 0 where
  pub epoch_seconds : ℕ
  pub pool_fee_bps : ℕ
  pub minimum_distinct_verifiers : ℕ
  pub maximum_receipts_per_verifier : ℕ
  pub maximum_points_per_node : ℕ
  pub winner_count : ℕ
  pub minimum_uptime_seconds : ℕ

-- `RewardPolicy::default`
abbrev pub default_policy : RewardPolicy
default_policy = record {
  epoch_seconds = 86400;
  pool_fee_bps = 2500;
  minimum_distinct_verifiers = 3;
  maximum_receipts_per_verifier = 200;
  maximum_points_per_node = 10000;
  winner_count = 10;
  minimum_uptime_seconds = 3600;
}

-- `RewardPolicy::validate`
unfoldable pub validate_reward : RewardPolicy → Outcome Error (Unit {0})
validate_reward p = do
  fail_if (not (leb 86400 p.epoch_seconds && leb p.epoch_seconds 604800)) bad_epoch
  fail_if (ltb bps_denominator p.pool_fee_bps) bad_pool_fee
  fail_if
      (ltb p.minimum_distinct_verifiers 2
        || eqb p.maximum_receipts_per_verifier 0
        || eqb p.maximum_points_per_node 0
        || eqb p.winner_count 0)
      bad_reward_limits
  fail_if (ltb p.minimum_uptime_seconds 3600 || ltb p.epoch_seconds p.minimum_uptime_seconds)
      bad_minimum_uptime

-- `pool_share`
unfoldable pub pool_share : RewardPolicy → ℕ → ℕ
pool_share p foundation_fees =
    saturating_mul u128_max foundation_fees p.pool_fee_bps / bps_denominator

pub record NodeContribution : Type 0 where
  pub reward_address : String
  pub points : ℕ
  pub verifiers : List String

pub record ContributionLedger : Type 0 where
  pub policy : RewardPolicy
  pub epoch : ℕ
  pub seen : List (String × String)
  pub verifier_counts : Map String ℕ
  pub nodes : Map String NodeContribution

-- `ContributionLedger::new`
unfoldable pub new_ledger : RewardPolicy → ℕ → Outcome Error ContributionLedger
unfolding validate_reward
new_ledger policy epoch = do
  validate_reward policy
  ok (record { policy = policy; epoch = epoch; seen = []; verifier_counts = []; nodes = [] })

-- `validate_reward_address`
unfoldable pub is_bad_address : String → Bool
is_bad_address address =
    not (eqb (length (as_bytes address)) 64) || not (all_bytes is_ascii_hexdigit (as_bytes address))

-- The tests of `record_validated` that come before it changes the ledger.
unfoldable pub check_receipt : RelayReceipt → ContributionLedger → Outcome Error (Unit {0})
unfolding is_bad_address
check_receipt r l = do
  fail_if (not (eqb (r.observed_at / l.policy.epoch_seconds) l.epoch)) other_epoch
  fail_if (r.relay_peer_id == r.verifier_peer_id) self_relay
  fail_if (eqb r.payload_bytes 0 || is_blank r.message_id) empty_message
  fail_if
      (eqb r.relay_started_at 0
        || ltb (r.observed_at - r.relay_started_at) l.policy.minimum_uptime_seconds)
      short_uptime
  fail_if (is_bad_address r.reward_address) bad_node_address

-- The points of a receipt: one for every 64 KiB, from 1 to 16.
abbrev pub points_of : RelayReceipt → ℕ
points_of r = min (max (div_ceil r.payload_bytes 65536) 1) 16

-- `entry(relay).or_insert_with(..)`
abbrev pub contribution_of : RelayReceipt → ContributionLedger → NodeContribution
contribution_of r l =
    unwrap_or (get r.relay_peer_id l.nodes)
      (record { reward_address = r.reward_address; points = 0; verifiers = [] })

-- The end of `record_validated`: the points go to the node.
unfoldable pub add_points :
    RelayReceipt → ContributionLedger → Outcome Error Bool × ContributionLedger
add_points r l =
    let contribution = contribution_of r l in
    if not (contribution.reward_address == r.reward_address)
    then (
      err other_reward_address,
      record l { nodes = Maps.insert r.relay_peer_id contribution l.nodes },
    )
    else (
      ok true,
      record l {
        nodes =
            Maps.insert r.relay_peer_id
              (record contribution {
                points =
                    min (saturating_add u64_max contribution.points (points_of r))
                      l.policy.maximum_points_per_node;
                verifiers = Sets.insert r.verifier_peer_id contribution.verifiers;
              })
              l.nodes;
      },
    )

-- `record_validated`
unfoldable pub record_validated :
    RelayReceipt → ContributionLedger → Outcome Error Bool × ContributionLedger
unfolding check_receipt add_points
record_validated r l = elim (check_receipt r l) [
  | err e ↦ (err e, l)
  | ok _ ↦
      let dedupe : String × String = (r.verifier_peer_id, r.message_id) in
      let count = get_or_zero r.verifier_peer_id l.verifier_counts in
      let noted = record l { seen = dedupe ∷ l.seen } in
      if Sets.contains dedupe l.seen
      then (ok false, l)
      else if leb l.policy.maximum_receipts_per_verifier count
      then (
        ok false,
        record noted { verifier_counts = Maps.insert r.verifier_peer_id count l.verifier_counts },
      )
      else add_points r (record noted {
        verifier_counts = Maps.insert r.verifier_peer_id (count + 1) l.verifier_counts;
      })
]

-- The nodes that have enough verifiers.
unfoldable pub eligible_of : RewardPolicy → Map String NodeContribution → List EligibleNode
eligible_of p [] = []
eligible_of p ((peer_id, c) ∷ nodes) =
    let rest = eligible_of p nodes in
    if leb p.minimum_distinct_verifiers (length c.verifiers)
    then record {
      peer_id = peer_id;
      reward_address = c.reward_address;
      points = c.points;
      distinct_verifiers = length c.verifiers;
    }
      ∷ rest
    else rest

-- `eligible_nodes`
unfoldable pub eligible_nodes : ContributionLedger → List EligibleNode
unfolding eligible_of
eligible_nodes l = sort node_le (eligible_of l.policy l.nodes)
