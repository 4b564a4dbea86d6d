-- ===== src/Consensus/Messages.antt =====
-- src/consensus.rs: validators, proposals, votes and double-vote evidence, with their signatures.
use aah_chain.Base.{
  ℕ, String, List, ◌∷◌, ◌++◌, Bool, true, false, Option, ◌≡◌, ◌↔◌, ◌||◌, not, ◌&&◌, arith,
}
use aah_chain.Base.Keys.{Eq, ◌==◌, string_eq, nat_eq}
use aah_chain.Base.Tests.{unwrap_or}
use aah_chain.Base.Bytes.{be_bytes, as_bytes}
use aah_chain.Base.Words.{u32_max}
use aah_chain.Base.Outcome.{Outcome, ok, ◌>>◌, fail_if}
use aah_chain.Errors.{Error, proposal_height, proposal_hash, no_double_vote}
use aah_chain.Types.{Block}
use aah_chain.Crates.{Crates}
use aah_chain.Model.{push_text, calculate_hash}
use aah_chain.Wallet.{verify_signature}

pub record Validator : Type 0 where
  pub id : String
  pub voting_power : ℕ

pub data ConsensusPhase : Type 0 where
  waiting propose prevote precommit finalized : ConsensusPhase

pub data VoteType : Type 0 where
  prevote precommit : VoteType

abbrev pub phase_beq : ConsensusPhase → ConsensusPhase → Bool
phase_beq ConsensusPhase.waiting ConsensusPhase.waiting = true
phase_beq ConsensusPhase.propose ConsensusPhase.propose = true
phase_beq ConsensusPhase.prevote ConsensusPhase.prevote = true
phase_beq ConsensusPhase.precommit ConsensusPhase.precommit = true
phase_beq ConsensusPhase.finalized ConsensusPhase.finalized = true
phase_beq _ _ = false

abbrev pub vote_type_beq : VoteType → VoteType → Bool
vote_type_beq VoteType.prevote VoteType.prevote = true
vote_type_beq VoteType.precommit VoteType.precommit = true
vote_type_beq _ _ = false

pub vote_type_beq_iff : (a b : VoteType) → (vote_type_beq a b ≡ true) ↔ (a ≡ b)
vote_type_beq_iff VoteType.prevote VoteType.prevote = ground arith
vote_type_beq_iff VoteType.prevote VoteType.precommit = ground arith
vote_type_beq_iff VoteType.precommit VoteType.prevote = ground arith
vote_type_beq_iff VoteType.precommit VoteType.precommit = ground arith

instance abbrev pub vote_type_eq : Eq VoteType
vote_type_eq = record { beq = vote_type_beq; beq_iff = vote_type_beq_iff }

pub record SignedProposal : Type 0 where
  pub height : ℕ
  pub round : ℕ
  pub proposer_id : String
  pub valid_round : Option ℕ
  pub block : Block
  pub signature : String

pub record ConsensusMessage : Type 0 where
  pub height : ℕ
  pub round : ℕ
  pub validator_id : String
  pub vote_type : VoteType
  pub block_hash : String
  pub signature : String

pub record DoubleVoteEvidence : Type 0 where
  pub first : ConsensusMessage
  pub second : ConsensusMessage

abbrev pub vote_type_byte : VoteType → ℕ
vote_type_byte VoteType.prevote = 1
vote_type_byte VoteType.precommit = 2

-- `SignedProposal::unsigned_bytes`
unfoldable pub proposal_bytes : ℕ → ℕ → String → String → Option ℕ → List ℕ
proposal_bytes height round proposer_id block_hash valid_round =
    as_bytes "IEUM-PROPOSAL-V2"
    ++ (be_bytes 8 height
        ++ (be_bytes 4 round
            ++ (push_text proposer_id
                ++ (push_text block_hash ++ be_bytes 4 (unwrap_or valid_round u32_max)))))

-- `ConsensusMessage::unsigned_bytes`
unfoldable pub vote_bytes : ℕ → ℕ → String → VoteType → String → List ℕ
vote_bytes height round validator_id vote_type block_hash =
    as_bytes "IEUM-CONSENSUS-V1"
    ++ (be_bytes 8 height
        ++ (be_bytes 4 round
            ++ (vote_type_byte vote_type ∷ (push_text validator_id ++ push_text block_hash))))

module _ (crates : Crates) where
  -- `SignedProposal::verify`
  unfoldable pub verify_proposal : SignedProposal → Outcome Error (Unit {0})
  verify_proposal p = do
    fail_if (not (p.height == p.block.height)) proposal_height
    fail_if (not (p.block.hash == calculate_hash crates p.block)) proposal_hash
    verify_signature crates p.proposer_id
        (proposal_bytes p.height p.round p.proposer_id p.block.hash p.valid_round) p.signature

  -- `ConsensusMessage::verify`
  unfoldable pub verify_vote : ConsensusMessage → Outcome Error (Unit {0})
  verify_vote m =
      verify_signature crates m.validator_id
        (vote_bytes m.height m.round m.validator_id m.vote_type m.block_hash) m.signature

  -- The test of `DoubleVoteEvidence::verify` after both signatures.
  abbrev pub is_no_conflict : ConsensusMessage → ConsensusMessage → Bool
  is_no_conflict a b =
      not (a.height == b.height)
      || not (a.round == b.round)
      || not (a.vote_type == b.vote_type)
      || not (a.validator_id == b.validator_id)
      || a.block_hash == b.block_hash

  -- `DoubleVoteEvidence::verify`
  unfoldable pub verify_evidence : DoubleVoteEvidence → Outcome Error (Unit {0})
  verify_evidence e = do
    verify_vote e.first
    verify_vote e.second
    fail_if (is_no_conflict e.first e.second) no_double_vote

  -- `DoubleVoteEvidence::new`
  unfoldable pub new_evidence :
      ConsensusMessage → ConsensusMessage → Outcome Error DoubleVoteEvidence
  unfolding verify_evidence
  new_evidence first second = do
    let evidence : DoubleVoteEvidence = record { first = first; second = second }
    verify_evidence evidence
    ok evidence

-- Whether `DoubleVoteEvidence::id` gives two pieces of evidence one text. The text joins the
-- validator, the height, the round and the vote type of the first vote by colons; ids of
-- validators hold no colon, so the texts agree when the parts do.
abbrev pub same_evidence_id : DoubleVoteEvidence → DoubleVoteEvidence → Bool
same_evidence_id a b =
    a.first.validator_id == b.first.validator_id
    && a.first.height == b.first.height
    && a.first.round == b.first.round
    && a.first.vote_type == b.first.vote_type

-- `ConsensusMessage::from_signature`
module _ (crates : Crates) where
  unfoldable pub vote_from_signature :
      ℕ → ℕ → String → VoteType → String → String → Outcome Error ConsensusMessage
  unfolding verify_vote
  vote_from_signature height round validator_id vote_type block_hash signature = do
    let message : ConsensusMessage = record {
      height = height;
      round = round;
      validator_id = validator_id;
      vote_type = vote_type;
      block_hash = block_hash;
      signature = signature;
    }
    verify_vote crates message
    ok message

  -- `SignedProposal::from_signature`
  unfoldable pub proposal_from_signature :
      ℕ → ℕ → String → Block → Option ℕ → String → Outcome Error SignedProposal
  unfolding verify_proposal
  proposal_from_signature height round proposer_id block valid_round signature = do
    let proposal : SignedProposal = record {
      height = height;
      round = round;
      proposer_id = proposer_id;
      valid_round = valid_round;
      block = block;
      signature = signature;
    }
    verify_proposal crates proposal
    ok proposal
