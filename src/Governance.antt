-- ===== src/Governance.antt =====
-- src/governance.rs: the monthly vote on the reward policy. A hash map is an association list; sums are
-- those of a release build, which wraps a `u64`.
pub mod Majority
mod Tests
use aah_chain.Base.{
  ℕ, ◌+◌, ◌*◌, ◌/◌, max, min, String, List, [], ◌∷◌, Bool, true, false, Option, none, some, ◌≡◌,
  ◌↔◌, ◌&&◌, not, arith, map,
}
use aah_chain.Base.Tests.{if◌then◌else◌, eqb, ltb, eqb_iff}
use aah_chain.Base.Keys.{Eq, ◌==◌, string_eq}
use aah_chain.Base.Maps
use aah_chain.Base.Maps.{Map, get, collect, sum_values}
use aah_chain.Base.Words.{u64_max, wrap, saturating_mul}
use aah_chain.Base.Outcome.{Outcome, ok, err, ◌>>=◌, ◌>>◌, fail_if, ok_or}
use aah_chain.Errors.{Error, bad_reward_split, vote_too_early, not_a_validator}

abbrev pub month_seconds : ℕ
month_seconds = 30 * 86400

pub record RewardSplit : Type 0 where
  pub validator_bps : ℕ
  pub participant_bps : ℕ
  pub treasury_bps : ℕ

-- `RewardSplit::validate`
unfoldable pub validate_split : RewardSplit → Outcome Error (Unit {0})
validate_split s =
    fail_if (not (eqb (s.validator_bps + s.participant_bps + s.treasury_bps) 10000))
      bad_reward_split

pub record ParticipationPolicy : Type 0 where
  pub target_active_nodes : ℕ
  pub minimum_uptime_bps : ℕ
  pub reward_per_block : ℕ
  pub reward_split : RewardSplit

-- the derived equality of policies
abbrev pub policy_beq : ParticipationPolicy → ParticipationPolicy → Bool
policy_beq a b =
    eqb a.target_active_nodes b.target_active_nodes
    && eqb a.minimum_uptime_bps b.minimum_uptime_bps
    && eqb a.reward_per_block b.reward_per_block
    && eqb a.reward_split.validator_bps b.reward_split.validator_bps
    && eqb a.reward_split.participant_bps b.reward_split.participant_bps
    && eqb a.reward_split.treasury_bps b.reward_split.treasury_bps

-- `adjusted_reward`
unfoldable pub adjusted_reward : ParticipationPolicy → ℕ → ℕ
adjusted_reward p active_nodes =
    let target = max p.target_active_nodes 1 in
    let active = max active_nodes 1 in
    let ratio_bps = min (max (target * 10000 / active) 8750) 11250 in
    wrap u64_max (p.reward_per_block * ratio_bps / 10000)

pub record Governance : Type 0 where
  pub epoch_started_at : ℕ
  pub voting_power : Map String ℕ
  pub votes : Map String (ParticipationPolicy × ℕ)

-- `Governance::new`
unfoldable pub new_governance : ℕ → List (String × ℕ) → Governance
new_governance epoch_started_at validators = record {
  epoch_started_at = epoch_started_at;
  voting_power = collect validators;
  votes = [];
}

-- `vote`
unfoldable pub vote : ℕ → String → ParticipationPolicy → Governance → Outcome Error Governance
unfolding validate_split
vote now validator proposal g = do
  fail_if (ltb now (wrap u64_max (g.epoch_started_at + month_seconds))) vote_too_early
  validate_split proposal.reward_split
  power ← ok_or (get validator g.voting_power) not_a_validator
  ok (record g { votes = Maps.insert validator (proposal, power) g.votes })

-- One vote of the loop of `finalize`.
unfoldable pub add_power :
    ParticipationPolicy → ℕ → List (ParticipationPolicy × ℕ) → List (ParticipationPolicy × ℕ)
add_power policy power [] = (policy, power) ∷ []
add_power policy power ((item, sum) ∷ candidates) =
    if policy_beq item policy
    then (item, wrap u64_max (sum + power)) ∷ candidates
    else (item, sum) ∷ add_power policy power candidates

-- The loop of `finalize`.
unfoldable pub count_votes :
    Map String (ParticipationPolicy × ℕ)
    → List (ParticipationPolicy × ℕ)
    → List (ParticipationPolicy × ℕ)
unfolding add_power
count_votes [] candidates = candidates
count_votes ((validator, (policy, power)) ∷ votes) candidates =
    count_votes votes (add_power policy power candidates)

-- The first candidate with more than two thirds of the power.
unfoldable pub first_majority : ℕ → List (ParticipationPolicy × ℕ) → Option ParticipationPolicy
first_majority total [] = none
first_majority total ((policy, power) ∷ candidates) =
    if ltb (saturating_mul u64_max total 2) (saturating_mul u64_max power 3)
    then some policy
    else first_majority total candidates

-- `finalize`
unfoldable pub finalize : Governance → Option ParticipationPolicy
unfolding count_votes first_majority
finalize g = first_majority (wrap u64_max (sum_values g.voting_power)) (count_votes g.votes [])
