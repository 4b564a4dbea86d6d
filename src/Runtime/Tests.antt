-- ===== src/Runtime/Tests.antt =====
-- A runtime of four validators that commits a block, and the theorems of
-- src/consensus_runtime.rs applied to it.
use aah_chain.Base.{arith, ◌≤◌, String, List, [], ◌∷◌, ◌++◌, none, some, ◌≡◌, refl}
use aah_chain.Base.Lists.{length}
use aah_chain.Base.Maps
use aah_chain.Base.Maps.{sum_values, get, contains_key}
use aah_chain.Base.Sets
use aah_chain.Base.Sets.{All}
use aah_chain.Base.Sorting.{sort, insert_sorted}
use aah_chain.Base.Bytes.{be_bytes, as_bytes, all_bytes}
use aah_chain.Base.Outcome.{ok}
use aah_chain.Types.{Transaction, Block}
use aah_chain.Model.{
  genesis, new_block, calculate_hash, block_bytes, push_text, transactions_bytes, events_bytes,
  transaction_id, signing_bytes,
}
use aah_chain.Wallet.{verify_transaction, verify_signature}
use aah_chain.Events.{due, validate_block_events}
use aah_chain.Events.Equality.{events_beq, list_beq}
use aah_chain.Chain.{
  apply_transactions, apply_transaction, apply_system_events, check_signature, move_balances,
  credit_balance, foundation_share,
}
use aah_chain.Chain.State.{with_chain_id, apply_block, apply_blocks, execute}
use aah_chain.Consensus.Messages.{
  VoteType, ConsensusMessage, SignedProposal, verify_vote, verify_proposal, vote_bytes,
  proposal_bytes,
}
use aah_chain.Consensus.Certificate.{verify_certificate, sum_power}
use aah_chain.Consensus.Certificate.Weights.{power_of}
use aah_chain.Consensus.Bft
use aah_chain.Consensus.Tests.{toy, four, vote, fresh}
use aah_chain.Runtime.{
  Clock, Signer, ConsensusRuntime, Step, set_event_schedule, receive_proposal,
  validate_scheduled_block, check_builtins, sign_vote, reset_deadline,
}
use aah_chain.Runtime.Votes.{
  receive_vote, note_precommit, note_phase, after_vote, own_precommit, commit_pending, commit_block,
  defer_vote, replay_deferred_votes, replay_loop, replay_turn,
}
use aah_chain.Runtime.Machine.{Call, run, after}
use aah_chain.Runtime.Growth.{
  IsOfChain, runtime_refines_chain, certificates_match_blocks, runtime_keeps_supply,
}
use aah_chain.Runtime.Commit.{StaysOrCommits, vote_commits_with_certificate}
use aah_chain.Runtime.Deferred.{replay_returns}
use aah_chain.Runtime.Capacity.{deferred_votes_stay_bounded}

abbrev payment : Transaction
payment = record { from = "alice"; to = "bob"; amount = 30; fee = 10; nonce = 0; signature = "sig" }

abbrev block : Block
block = new_block toy 1 (genesis toy).hash 10 "producer" (payment ∷ [])

abbrev key : Signer
key = record { address = "v4"; sign_bytes = λ _. ok "sig" }

abbrev clock : Clock
clock = record { instant = 7; seconds = 10 }

abbrev proposal : SignedProposal
proposal = record {
  height = 1;
  round = 0;
  proposer_id = "v1";
  valid_round = none;
  block = block;
  signature = "sig";
}

abbrev start : ConsensusRuntime
start = record {
  chain = with_chain_id toy 21004 (("alice", 100) ∷ []);
  consensus = (Bft.start_round 1 0 fresh).1;
  pending = none;
  valid_block = none;
  deadline = 10;
  timeouts = record { propose = 3; prevote = 2; precommit = 2 };
  validators = four;
  precommits = [];
  deferred_votes = [];
  finalized = [];
  pending_finalized = [];
  event_schedule = [];
}

abbrev vote_call : VoteType → String → Clock × Call
vote_call t id = (clock, Call.receive_vote (vote t id block.hash))

-- A precommit that comes too early is deferred.
abbrev early : ConsensusMessage
early = vote VoteType.precommit "v3" block.hash

abbrev locking : List (Clock × Call)
locking =
    (clock, Call.receive_proposal proposal)
    ∷ (clock, Call.defer_vote early)
    ∷ vote_call VoteType.prevote "v1"
    ∷ vote_call VoteType.prevote "v2"
    ∷ vote_call VoteType.prevote "v3"
    ∷ vote_call VoteType.precommit "v1"
    ∷ vote_call VoteType.precommit "v2"
    ∷ []

abbrev committing : List (Clock × Call)
committing = locking ++ (clock, Call.replay_deferred_votes) ∷ []

abbrev locked : ConsensusRuntime
locked = run toy key locking start

run_facts :
    (length (run toy key committing start).chain.blocks ≡ 2)
    × (length (run toy key committing start).finalized ≡ 1)
    × (length locked.deferred_votes ≡ 1)
    × (length locked.chain.blocks ≡ 1)
unfolding run after set_event_schedule receive_proposal validate_scheduled_block check_builtins
    sign_vote reset_deadline receive_vote note_precommit note_phase after_vote own_precommit
    commit_pending commit_block defer_vote replay_deferred_votes replay_loop replay_turn
    validate_block_events events_beq list_beq with_chain_id new_block genesis Bft.handle
    Bft.start_round Bft.begin_round Bft.handle_proposal Bft.propose Bft.open_proposal
    Bft.record_vote Bft.remember_vote Bft.count_vote Bft.add_vote Bft.on_quorum Bft.lock_block
    Bft.finalize_block Bft.has_quorum Bft.is_locked_out Bft.expected_proposer verify_certificate
    verify_vote verify_proposal verify_signature calculate_hash block_bytes vote_bytes
    proposal_bytes push_text transactions_bytes events_bytes get Maps.insert contains_key
    Maps.collect Maps.collect_into Sets.insert Sets.contains power_of sort insert_sorted be_bytes
    as_bytes Maps.get_or_zero apply_block execute apply_transactions apply_transaction
    apply_system_events check_signature verify_transaction move_balances credit_balance
    foundation_share transaction_id signing_bytes all_bytes due sum_power
run_facts = (refl, refl, refl, refl)

runtime_refines_chain_example :
    (blocks : List Block) × (apply_blocks toy blocks start.chain
      ≡ ok (run toy key committing start).chain)
runtime_refines_chain_example = runtime_refines_chain toy key committing start

certificates_match_blocks_example :
    All
      (IsOfChain toy (run toy key committing start).chain)
      (run toy key committing start).finalized
certificates_match_blocks_example = certificates_match_blocks toy key committing start tt

runtime_keeps_supply_example :
    sum_values (run toy key committing start).chain.balances ≡ sum_values start.chain.balances
runtime_keeps_supply_example = runtime_keeps_supply toy key committing start

vote_commits_with_certificate_example :
    StaysOrCommits toy locked
      (receive_vote toy key clock early locked).1
      (Bft.handle toy early locked.consensus).1
vote_commits_with_certificate_example = vote_commits_with_certificate toy key clock early locked

replay_returns_example :
    (step : Step (List ConsensusMessage)) × (replay_deferred_votes toy key clock locked ≡ some step)
    × (length step.1.deferred_votes ≤ length locked.deferred_votes)
replay_returns_example = replay_returns toy key clock locked

deferred_votes_stay_bounded_example : length (run toy key committing start).deferred_votes ≤ 1024
deferred_votes_stay_bounded_example =
    deferred_votes_stay_bounded toy key committing start (omega arith)
