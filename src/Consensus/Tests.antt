-- ===== src/Consensus/Tests.antt =====
-- A run of four validators, and the theorems of src/consensus.rs applied to it.
mod Witnesses
use text.Mathlib.Text.{starts_with}
use aah_chain.Base.{
  ℕ, ◌+◌, ◌*◌, ◌≤◌, ◌<◌, String, List, [], ◌∷◌, ◌++◌, Bool, true, false, Option, none, some, ◌≡◌,
  ◌≢◌, refl, arith, map,
}
use aah_chain.Base.Tests.{if◌then◌else◌, eqb, leb, unwrap_or}
use aah_chain.Base.Lists.{replicate, last?, length, any}
use aah_chain.Base.Keys.{string_eq, nat_eq, pair_eq}
use aah_chain.Base.Maps
use aah_chain.Base.Maps.{get, contains_key, sum_values}
use aah_chain.Base.Sets.{IsNodup, contains, In, All}
use aah_chain.Base.Outcome.{Outcome, ok, err, is_ok}
use aah_chain.Crates.{Crates}
use aah_chain.Types.{Block, Transaction, ScheduledEvent}
use aah_chain.Base.Bytes.{be_bytes, as_bytes}
use aah_chain.Base.Words.{u64_max, u128_max}
use aah_chain.Consensus.Bft.Votes.{voters_of}
use aah_chain.Model.{calculate_hash, block_bytes, push_text, transactions_bytes, events_bytes}
use aah_chain.Wallet.{verify_signature}
use aah_chain.Base.Sets
use aah_chain.Base.Sorting.{sort, insert_sorted}
use aah_chain.Consensus.Certificate.Weights.{power_of}
use aah_chain.Consensus.Messages.{
  Validator, VoteType, ConsensusPhase, ConsensusMessage, SignedProposal, DoubleVoteEvidence,
  verify_evidence, verify_vote, verify_proposal, vote_bytes, proposal_bytes, vote_type_eq,
}
use aah_chain.Consensus.Certificate.{FinalityCertificate}
use aah_chain.Consensus.Bft
use aah_chain.Consensus.Bft.{BftConsensus, history_key}
use aah_chain.Consensus.Bft.Machine.{Call, run}

-- Crates that take every signature, and a hash that tells blocks apart by their producer.
abbrev pub toy : Crates
toy = record {
  sha256 = λ bytes. bytes;
  keccak256 = λ bytes. bytes;
  hex_encode = λ bytes. if eqb (unwrap_or (last? bytes) 0) 97 then "aa" else "bb";
  hex_decode = λ text. some (if starts_with text "sig" then replicate 64 0 else replicate 32 0);
  ed25519_key = λ _. true;
  ed25519_verify = λ _ _ _. true;
  secp256k1_key = λ _. none;
  secp256k1_signature = λ _. none;
  secp256k1_scalars = λ _ _. none;
  secp256k1_verify = λ _ _ _. false;
  secp256k1_recover = λ _ _ _. none;
  peer_id_of_key = λ _. none;
  peer_key_verify = λ _ _ _. false;
  event_json = λ _. [];
  transaction_json = λ _. [];
}

abbrev pub four : List Validator
four =
    (record { id = "v1"; voting_power = 1 })
    ∷ (record { id = "v2"; voting_power = 1 })
    ∷ (record { id = "v3"; voting_power = 1 })
    ∷ (record { id = "v4"; voting_power = 1 })
    ∷ []

abbrev pub block_of : String → String → Block
block_of producer hash = record {
  height = 1;
  previous_hash = "";
  timestamp = 5;
  producer = producer;
  transactions = [];
  system_events = [];
  hash = hash;
}

abbrev pub vote : VoteType → String → String → ConsensusMessage
vote t id hash = record {
  height = 1;
  round = 0;
  validator_id = id;
  vote_type = t;
  block_hash = hash;
  signature = "sig";
}

abbrev pub proposal : String → Block → SignedProposal
proposal id block = record {
  height = 1;
  round = 0;
  proposer_id = id;
  valid_round = none;
  block = block;
  signature = "sig";
}

abbrev pub three_votes : VoteType → String → List Call
three_votes t hash =
    Call.handle (vote t "v1" hash)
    ∷ Call.handle (vote t "v2" hash)
    ∷ Call.handle (vote t "v3" hash)
    ∷ []

-- The height starts, `v1` proposes, and three validators prevote.
abbrev pub locking : List Call
locking =
    Call.start_round 1 0
    ∷ Call.handle_proposal (proposal "v1" (block_of "a" "aa"))
    ∷ three_votes VoteType.prevote "aa"

-- ... and precommit.
abbrev pub finalizing : List Call
finalizing = locking ++ three_votes VoteType.precommit "aa"

abbrev pub fresh : BftConsensus
fresh = record {
  validators = Maps.collect (map (λ (v : Validator). (v.id, v.voting_power)) four);
  total_power = 4;
  height = 0;
  round = 0;
  phase = ConsensusPhase.waiting;
  proposal = none;
  votes = [];
  vote_history = [];
  vote_messages = [];
  locked_value = none;
  locked_round = none;
  valid_value = none;
  valid_round = none;
  evidence = [];
  finalized = none;
}

pub fresh_is_new : Bft.new four ≡ ok fresh
unfolding Bft.new Bft.register Maps.insert contains_key Maps.collect Maps.collect_into
fresh_is_new = refl

-- `v1` also prevotes another block.
abbrev pub second_vote : ConsensusMessage
second_vote = vote VoteType.prevote "v1" "bb"

-- What the runs leave.
pub run_facts :
    ((run toy finalizing fresh).finalized ≡ some "aa")
    × (leb (sum_values (run toy finalizing fresh).validators) u64_max ≡ true)
    × (contains "v1" (voters_of (VoteType.precommit, "aa") (run toy finalizing fresh)) ≡ true)
    × ((run toy locking fresh).phase ≡ ConsensusPhase.precommit)
    × ((run toy locking fresh).proposal ≡ some "aa")
    × ((run toy locking fresh).height ≡ 1)
    × ((run toy locking fresh).round ≡ 0)
    × (contains_key "v1" (run toy locking fresh).validators ≡ true)
    × (verify_vote toy second_vote ≡ ok tt)
    × (get (history_key second_vote) (run toy locking fresh).vote_history ≡ some "aa")
    × ((run toy (locking ++ Call.on_timeout ∷ []) fresh).locked_value ≡ some "aa")
    × ((run toy (Call.on_timeout ∷ []) (run toy locking fresh)).height ≡ 1)
unfolding run Bft.handle Bft.start_round Bft.begin_round Bft.handle_proposal Bft.propose
    Bft.open_proposal Bft.record_vote Bft.remember_vote Bft.count_vote Bft.add_vote Bft.on_quorum
    Bft.lock_block Bft.finalize_block Bft.has_quorum Bft.is_locked_out Bft.expected_proposer
    verify_vote verify_proposal verify_signature calculate_hash block_bytes vote_bytes
    proposal_bytes push_text transactions_bytes events_bytes get Maps.insert contains_key
    Maps.collect Maps.collect_into Sets.insert Sets.contains power_of sort insert_sorted be_bytes
    as_bytes Maps.get_or_zero Bft.on_timeout
run_facts = (refl, refl, refl, refl, refl, refl, refl, refl, refl, refl, refl, refl)
