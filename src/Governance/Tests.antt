-- ===== src/Governance/Tests.antt =====
-- Three validators vote, and the theorems of src/governance.rs applied to their votes.
use aah_chain.Base.{ℕ, ◌*◌, ◌≤◌, ◌<◌, [], ◌∷◌, some, ◌≡◌, refl, arith}
use aah_chain.Base.Maps
use aah_chain.Base.Maps.{get, sum_values, collect, collect_into}
use aah_chain.Base.Outcome.{Outcome, ok, err, ◌>>=◌}
use aah_chain.Base.Words.{u64_max}
use aah_chain.Errors.{Error}
use aah_chain.Governance.{
  ParticipationPolicy, Governance, new_governance, vote, validate_split, finalize, count_votes,
  add_power, first_majority, month_seconds,
}
use aah_chain.Governance.Majority.{power_for, decided_policy_has_majority}

abbrev policy : ℕ → ParticipationPolicy
policy reward = record {
  target_active_nodes = 100;
  minimum_uptime_bps = 9000;
  reward_per_block = reward;
  reward_split = record { validator_bps = 5000; participant_bps = 4000; treasury_bps = 1000 };
}

abbrev start : Governance
start = new_governance 0 (("a", 40) ∷ ("b", 35) ∷ ("c", 25) ∷ [])

abbrev voted : Outcome Error Governance
voted = do
  one ← vote month_seconds "a" (policy 1000) start
  two ← vote month_seconds "c" (policy 2000) one
  vote month_seconds "b" (policy 1000) two

abbrev after : Governance
after = elim voted [ ok g ↦ g | err e ↦ start ]

is_decided : finalize after ≡ some (policy 1000)
unfolding finalize count_votes add_power first_majority vote validate_split new_governance get
    Maps.insert collect collect_into
is_decided = refl

power_fits : sum_values after.voting_power ≤ u64_max
unfolding vote validate_split new_governance get Maps.insert collect collect_into
power_fits = omega arith

decided_policy_has_majority_example :
    2 * sum_values after.voting_power < 3 * power_for (policy 1000) after.votes
decided_policy_has_majority_example =
    decided_policy_has_majority after (policy 1000) power_fits is_decided
