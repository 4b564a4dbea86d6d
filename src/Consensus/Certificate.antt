-- ===== src/Consensus/Certificate.antt =====
-- src/consensus.rs `FinalityCertificate` and src/consensus_era.rs `RoundChangeCertificate`: both
-- count the power of distinct voters in one loop. The sums are those of a release build, which
-- wraps a `u128`.
pub mod Weights
pub mod Tally
pub mod Agreement
use aah_chain.Base.{ℕ, ◌+◌, ◌*◌, String, List, [], ◌∷◌, Bool, true, false, Option, ◌≡◌, ◌||◌, not}
use aah_chain.Base.Tests.{if◌then◌else◌, eqb, leb}
use aah_chain.Base.Keys.{◌==◌, string_eq, nat_eq}
use aah_chain.Base.Maps.{Map, get, collect}
use aah_chain.Base.Sets
use aah_chain.Base.Words.{u128_max, wrap, checked_add}
use aah_chain.Base.Outcome.{Outcome, ok, err, ◌>>=◌, ◌>>◌, fail_if, ok_or}
use aah_chain.Errors.{
  Error, certificate_hash, no_total_power, certificate_mixed_votes, certificate_unknown_validator,
  power_overflow, no_quorum,
}
use aah_chain.Types.{Block}
use aah_chain.Crates.{Crates}
use aah_chain.Model.{calculate_hash}
use aah_chain.Consensus.Messages.{Validator, VoteType, ConsensusMessage, verify_vote, vote_type_eq}

pub record FinalityCertificate : Type 0 where
  pub block : Block
  pub round : ℕ
  pub precommits : List ConsensusMessage

pub record RoundChangeCertificate : Type 0 where
  pub height : ℕ
  pub from_round : ℕ
  pub votes : List ConsensusMessage

abbrev pub nil_block_hash : String
nil_block_hash = "ieum:nil"

-- `validators.iter().map(|v| v.voting_power).sum()`, before it wraps
unfoldable pub sum_power : List Validator → ℕ
sum_power [] = 0
sum_power (v ∷ vs) = v.voting_power + sum_power vs

-- the pairs that are collected into the map of powers
unfoldable pub power_pairs : List Validator → List (String × ℕ)
power_pairs [] = []
power_pairs (v ∷ vs) = (v.id, v.voting_power) ∷ power_pairs vs

-- Does the vote stand for another height, round, type or block than this one.
abbrev pub is_foreign : ℕ → ℕ → String → ConsensusMessage → Bool
is_foreign height round hash vote =
    not (vote.height == height)
    || not (vote.round == round)
    || not (vote.vote_type == VoteType.precommit)
    || not (vote.block_hash == hash)

module _ (crates : Crates) (powers : Map String ℕ) (height round : ℕ) (hash : String) where
  -- The loop over the votes: the voters so far and their power.
  unfoldable pub tally : List ConsensusMessage → List String → ℕ → Outcome Error (List String × ℕ)
  tally [] voters signed = ok (voters, signed)
  tally (vote ∷ votes) voters signed = do
    fail_if (is_foreign height round hash vote) certificate_mixed_votes
    verify_vote crates vote
    power ← ok_or (get vote.validator_id powers) certificate_unknown_validator
    total ←
        (if Sets.contains vote.validator_id voters
          then ok signed
          else ok_or (checked_add u128_max signed power) power_overflow)
    tally votes (Sets.insert vote.validator_id voters) total

module _ (crates : Crates) where
  -- What both certificates check of their votes.
  unfoldable pub verify_votes :
      List Validator → ℕ → ℕ → String → List ConsensusMessage → Outcome Error (Unit {0})
  unfolding sum_power power_pairs tally
  verify_votes validators height round hash votes = do
    let total = wrap u128_max (sum_power validators)
    fail_if (eqb total 0) no_total_power
    result ← tally crates (collect (power_pairs validators)) height round hash votes [] 0
    fail_if (leb (wrap u128_max (result.1 * 3)) (wrap u128_max (total * 2))) no_quorum

  -- `FinalityCertificate::verify`
  unfoldable pub verify_certificate :
      FinalityCertificate → List Validator → Outcome Error (Unit {0})
  unfolding verify_votes
  verify_certificate c validators = do
    fail_if (not (c.block.hash == calculate_hash crates c.block)) certificate_hash
    verify_votes validators c.block.height c.round c.block.hash c.precommits

  -- `RoundChangeCertificate::verify`
  unfoldable pub verify_round_change :
      RoundChangeCertificate → List Validator → Outcome Error (Unit {0})
  unfolding verify_votes
  verify_round_change c validators =
      verify_votes validators c.height c.from_round nil_block_hash c.votes
