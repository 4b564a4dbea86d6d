-- ===== src/TrafficRewards/Peers.antt =====
-- `select_balanced_peers` of src/traffic_rewards.rs. The source takes the candidates out of a hash map
-- in any order; every sort ends with the peer id, so that the order does not matter, and the model
-- keeps the order of the first entries.
pub mod Choice
use aah_chain.Base.{
  ℕ, zero, suc, ◌+◌, ◌-◌, ◌*◌, ◌/◌, min, String, List, [], ◌∷◌, ◌++◌, Bool, true, false, ◌≡◌, ◌||◌,
  ◌&&◌, not,
}
use aah_chain.Base.Tests.{if◌then◌else◌, eqb, leb, ltb}
use aah_chain.Base.Keys.{◌==◌, string_eq}
use aah_chain.Base.Lists.{length, take, any, keep}
use aah_chain.Base.Sorting.{sort}
use aah_chain.Base.Bytes.{is_blank}
use aah_chain.Base.Words.{u64_max, wrap}
use aah_chain.Base.Outcome.{Outcome, ok, err, ◌>>=◌, ◌>>◌, fail_if}
use aah_chain.Errors.{Error, bad_slots, bad_diversity_limits, bad_bootstrap_limit, bad_peer_uptime}
use aah_chain.Consensus.Bft.{string_le}

pub record TrafficPolicy : Type 0 where
  pub target_connections : ℕ
  pub nearby_slots : ℕ
  pub diversity_slots : ℕ
  pub low_load_slots : ℕ
  pub max_per_country : ℕ
  pub max_per_asn : ℕ
  pub max_bootstrap_connections : ℕ
  pub minimum_uptime_bps : ℕ

-- `TrafficPolicy::default`
abbrev pub default_policy : TrafficPolicy
default_policy = record {
  target_connections = 12;
  nearby_slots = 4;
  diversity_slots = 4;
  low_load_slots = 4;
  max_per_country = 3;
  max_per_asn = 2;
  max_bootstrap_connections = 1;
  minimum_uptime_bps = 8000;
}

abbrev pub bps_denominator : ℕ
bps_denominator = 10000

-- `TrafficPolicy::validate`; a `usize` has 64 bits
unfoldable pub validate_traffic : TrafficPolicy → Outcome Error (Unit {0})
validate_traffic p = do
  fail_if
      (eqb p.target_connections 0
        || not (
            eqb (wrap u64_max (p.nearby_slots + p.diversity_slots + p.low_load_slots))
              p.target_connections))
      bad_slots
  fail_if (eqb p.max_per_country 0 || eqb p.max_per_asn 0) bad_diversity_limits
  fail_if (ltb p.target_connections p.max_bootstrap_connections) bad_bootstrap_limit
  fail_if (ltb bps_denominator p.minimum_uptime_bps) bad_peer_uptime

pub record PeerCandidate : Type 0 where
  pub peer_id : String
  pub country_code : String
  pub asn : ℕ
  pub latency_ms : ℕ
  pub uptime_bps : ℕ
  pub capacity : ℕ
  pub active_connections : ℕ
  pub is_bootstrap : Bool

-- `load_bps`
abbrev pub load_bps : PeerCandidate → ℕ
load_bps c =
    if eqb c.capacity 0
    then bps_denominator
    else min (c.active_connections * bps_denominator / c.capacity) bps_denominator

-- `country_count`, `asn_count`
abbrev pub country_count : List PeerCandidate → String → ℕ
country_count peers country = length (keep (λ (p : PeerCandidate). p.country_code == country) peers)

abbrev pub asn_count : List PeerCandidate → ℕ → ℕ
asn_count peers asn = length (keep (λ (p : PeerCandidate). eqb p.asn asn) peers)

abbrev pub bootstrap_count : List PeerCandidate → ℕ
bootstrap_count peers = length (keep (λ (p : PeerCandidate). p.is_bootstrap) peers)

abbrev pub is_selected : List PeerCandidate → PeerCandidate → Bool
is_selected selected c = any (λ (p : PeerCandidate). p.peer_id == c.peer_id) selected

-- The candidates that `fill_slots` passes over.
abbrev pub is_passed : TrafficPolicy → Bool → List PeerCandidate → PeerCandidate → Bool
is_passed policy relaxed selected c =
    is_selected selected c
    || ltb c.uptime_bps policy.minimum_uptime_bps
    || (c.is_bootstrap && leb policy.max_bootstrap_connections (bootstrap_count selected))
    || (not relaxed
        && (leb policy.max_per_country (country_count selected c.country_code)
            || leb policy.max_per_asn (asn_count selected c.asn)))

-- The loop of `fill_slots`.
unfoldable pub fill :
    TrafficPolicy → Bool → ℕ → List PeerCandidate → List PeerCandidate → List PeerCandidate
fill policy relaxed target [] selected = selected
fill policy relaxed target (c ∷ cs) selected =
    if leb target (length selected)
    then selected
    else fill policy relaxed target cs
        (if is_passed policy relaxed selected c then selected else selected ++ c ∷ [])

-- `fill_slots`
unfoldable pub fill_slots :
    TrafficPolicy → List PeerCandidate → ℕ → Bool → List PeerCandidate → List PeerCandidate
unfolding fill
fill_slots policy candidates count relaxed selected =
    fill policy relaxed (wrap u64_max (length selected + count)) candidates selected

-- The first part of a sort key, and the rest of it where that is equal.
abbrev pub first_by : ℕ → ℕ → Bool → Bool
first_by a b rest = if ltb a b then true else if eqb a b then rest else false

abbrev pub nearby_le : PeerCandidate → PeerCandidate → Bool
nearby_le a b =
    first_by a.latency_ms b.latency_ms
      (first_by b.uptime_bps a.uptime_bps (string_le a.peer_id b.peer_id))

abbrev pub diverse_le : List PeerCandidate → PeerCandidate → PeerCandidate → Bool
diverse_le selected a b =
    first_by (country_count selected a.country_code) (country_count selected b.country_code) (
      first_by (asn_count selected a.asn) (asn_count selected b.asn) (
        first_by b.uptime_bps a.uptime_bps
          (first_by a.latency_ms b.latency_ms (string_le a.peer_id b.peer_id))))

abbrev pub low_load_le : PeerCandidate → PeerCandidate → Bool
low_load_le a b = first_by (load_bps a) (load_bps b) (
    first_by b.uptime_bps a.uptime_bps
      (first_by a.latency_ms b.latency_ms (string_le a.peer_id b.peer_id)))

abbrev pub fallback_le : PeerCandidate → PeerCandidate → Bool
fallback_le a b = first_by (load_bps a) (load_bps b) (
    first_by a.latency_ms b.latency_ms
      (first_by b.uptime_bps a.uptime_bps (string_le a.peer_id b.peer_id)))

-- The candidates that can be used, the first of each peer.
unfoldable pub unique_candidates : List PeerCandidate → List PeerCandidate → List PeerCandidate
unique_candidates [] unique = unique
unique_candidates (c ∷ cs) unique = unique_candidates cs (
    if is_blank c.peer_id || is_blank c.country_code || eqb c.capacity 0
    then unique
    else if is_selected unique c
    then unique
    else unique ++ c ∷ [])

-- The four rounds of `select_balanced_peers`.
unfoldable pub balanced : TrafficPolicy → List PeerCandidate → List PeerCandidate
unfolding fill_slots
balanced p candidates =
    let near = fill_slots p (sort nearby_le candidates) p.nearby_slots false [] in
    let diverse = fill_slots p (sort (diverse_le near) candidates) p.diversity_slots false near in
    let light = fill_slots p (sort low_load_le candidates) p.low_load_slots false diverse in
    fill_slots p (sort fallback_le candidates) (p.target_connections - length light) true light

-- `select_balanced_peers`
unfoldable pub select_balanced_peers :
    TrafficPolicy → List PeerCandidate → Outcome Error (List PeerCandidate)
unfolding validate_traffic unique_candidates balanced
select_balanced_peers p candidates = do
  validate_traffic p
  ok (take p.target_connections (balanced p (unique_candidates candidates [])))
