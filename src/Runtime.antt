-- ===== src/Runtime.antt =====
-- src/consensus_runtime.rs `ConsensusRuntime`: the chain, the consensus machine and the votes of one
-- node. A method returns its result and the runtime that it leaves. Instants and durations are
-- natural numbers, and the clock is an argument; the signer of src/signer.rs holds the private key,
-- and is a parameter.
pub mod Votes
pub mod Sync
pub mod Machine
pub mod Rule
pub mod Growth
pub mod Commit
pub mod Deferred
pub mod Capacity
mod Tests
use aah_chain.Base.{
  ℕ, ◌+◌, String, List, [], ◌∷◌, ◌++◌, Bool, true, false, Option, none, some, ◌≡◌, ◌||◌, ◌&&◌, not,
  map,
}
use aah_chain.Base.Tests.{if◌then◌else◌, ltb, unwrap_or}
use aah_chain.Base.Keys.{◌==◌, string_eq, nat_eq, option_eq}
use aah_chain.Base.Lists.{last?, keep}
use aah_chain.Base.Sets
use aah_chain.Base.Sorting.{sort}
use aah_chain.Base.Words.{u64_max, wrap, saturating_add}
use aah_chain.Base.Outcome.{Outcome, ok, err, ◌>>=◌, ◌>>◌, fail_if, ok_or}
use aah_chain.Errors.{
  Error, no_last_block, not_next_block, not_in_propose_phase, not_our_turn, time_before_previous,
  time_in_future, reward_set_mismatch, reward_event_id, event_already_run,
}
use aah_chain.Types.{Block, ScheduledEvent, ScheduledEventAction, ValidatorRegistration}
use aah_chain.Crates.{Crates}
use aah_chain.Chain.{Blockchain}
use aah_chain.Chain.State.{is_broken_link}
use aah_chain.Events.{validate_event, validate_block_events, validate_schedule}
use aah_chain.Events.Equality.{list_beq}
use aah_chain.Consensus.Messages.{
  Validator, ConsensusPhase, VoteType, phase_beq, SignedProposal, ConsensusMessage,
  DoubleVoteEvidence, vote_bytes, proposal_bytes, vote_from_signature, proposal_from_signature,
}
use aah_chain.Consensus.Certificate.{FinalityCertificate}
use aah_chain.Consensus.Bft
use aah_chain.Consensus.Bft.{BftConsensus, expected_proposer, string_le, zip_option}

-- What the runtime uses of `ValidatorSigner`.
pub record Signer : Type 0 where
  pub address : String
  pub sign_bytes : List ℕ → Outcome Error String

pub record ConsensusTimeouts : Type 0 where
  pub propose : ℕ
  pub prevote : ℕ
  pub precommit : ℕ

-- `for_phase`
abbrev pub for_phase : ConsensusTimeouts → ConsensusPhase → ℕ
for_phase t ConsensusPhase.waiting = t.propose
for_phase t ConsensusPhase.propose = t.propose
for_phase t ConsensusPhase.prevote = t.prevote
for_phase t ConsensusPhase.precommit = t.precommit
for_phase t ConsensusPhase.finalized = t.precommit

-- `uniform`
abbrev pub uniform : ℕ → ConsensusTimeouts
uniform timeout = record { propose = timeout; prevote = timeout; precommit = timeout }

-- `Instant::now()`, and `SystemTime::now()` in seconds
pub record Clock : Type 0 where
  pub instant : ℕ
  pub seconds : ℕ

pub record ConsensusRuntime : Type 0 where
  pub chain : Blockchain
  pub consensus : BftConsensus
  pub pending : Option Block
  pub valid_block : Option Block
  pub deadline : ℕ
  pub timeouts : ConsensusTimeouts
  pub validators : List Validator
  pub precommits : List ConsensusMessage
  pub deferred_votes : List ConsensusMessage
  pub finalized : List FinalityCertificate
  pub pending_finalized : List FinalityCertificate
  pub event_schedule : List ScheduledEvent

abbrev pub Step : Type 0 → Type 0
Step A = Outcome Error A × ConsensusRuntime

abbrev pub max_clock_drift_seconds : ℕ
max_clock_drift_seconds = 30

abbrev pub bootstrap_reward_id : String
bootstrap_reward_id = "ieum-bootstrap-validator-reward-v1"

abbrev pub milestone_reward_id : String
milestone_reward_id = "ieum-node-100-reward-v1"

-- The height after the last block; `none` where the chain has no block.
abbrev pub next_height : Blockchain → Option ℕ
next_height chain = elim (last? chain.blocks) [
  | none ↦ none
  | some block ↦ some (wrap u64_max (block.height + 1))
]

-- `reset_deadline`
unfoldable pub reset_deadline : Clock → ConsensusRuntime → ConsensusRuntime
reset_deadline clock r = record r {
  deadline = clock.instant + for_phase r.timeouts r.consensus.phase;
}

-- `restart_phase_timeout`
unfoldable pub restart_phase_timeout : ℕ → ConsensusRuntime → ConsensusRuntime
restart_phase_timeout now r = record r { deadline = now + for_phase r.timeouts r.consensus.phase }

-- Is the event one of the schedule: not a built-in reward.
abbrev pub is_configured : ScheduledEvent → Bool
is_configured event = elim event.action [
  | ScheduledEventAction.treasury_distribution recipients ↦ true
  | ScheduledEventAction.periodic_producer_reward producer amount ↦ true
  | ScheduledEventAction.incident_compensation incident_id victim amount ↦ true
  | ScheduledEventAction.protocol_checkpoint protocol_version ↦ true
  | ScheduledEventAction.bootstrap_validator_reward registrations amount ↦ false
  | ScheduledEventAction.node_milestone_reward registrations amount ↦ false
]

-- The validators of the reward are the active ones, in whatever order.
unfoldable pub is_active_set : List ValidatorRegistration → List Validator → Bool
unfolding list_beq
is_active_set registrations validators =
    list_beq (λ (a b : String). a == b)
      (sort string_le (map (λ (r : ValidatorRegistration). r.validator_id) registrations))
      (sort string_le (map (λ (v : Validator). v.id) validators))

module _ (crates : Crates) where
  -- The end of the loop of `validate_scheduled_block`.
  unfoldable pub check_new_event : ScheduledEvent → List String → Outcome Error (Unit {0})
  check_new_event event executed = do
    validate_event crates event
    fail_if (Sets.contains event.id executed) event_already_run

  -- One event of the loop of `validate_scheduled_block`.
  unfoldable pub check_builtin :
      ScheduledEvent → List Validator → List String → Outcome Error (Unit {0})
  unfolding check_new_event is_active_set
  check_builtin event validators executed = elim event.action [
    | ScheduledEventAction.bootstrap_validator_reward registrations amount ↦ (do
      fail_if (not (event.id == bootstrap_reward_id)) reward_event_id
      fail_if (not (is_active_set registrations validators)) reward_set_mismatch
      check_new_event event executed)
    | ScheduledEventAction.node_milestone_reward registrations amount ↦ (do
      fail_if (not (event.id == milestone_reward_id)) reward_event_id
      check_new_event event executed)
    | ScheduledEventAction.treasury_distribution recipients ↦ ok tt
    | ScheduledEventAction.periodic_producer_reward producer amount ↦ ok tt
    | ScheduledEventAction.incident_compensation incident_id victim amount ↦ ok tt
    | ScheduledEventAction.protocol_checkpoint protocol_version ↦ ok tt
  ]

  unfoldable pub check_builtins :
      List ScheduledEvent → List Validator → List String → Outcome Error (Unit {0})
  unfolding check_builtin
  check_builtins [] validators executed = ok tt
  check_builtins (event ∷ events) validators executed = do
    check_builtin event validators executed
    check_builtins events validators executed

  -- `validate_scheduled_block`
  unfoldable pub validate_scheduled_block :
      Clock → Block → ConsensusRuntime → Outcome Error (Unit {0})
  unfolding check_builtins
  validate_scheduled_block clock block r = do
    previous ← ok_or (last? r.chain.blocks) no_last_block
    fail_if (ltb block.timestamp previous.timestamp) time_before_previous
    fail_if (ltb (saturating_add u64_max clock.seconds max_clock_drift_seconds) block.timestamp)
        time_in_future
    validate_block_events r.event_schedule block.timestamp (keep is_configured block.system_events)
        r.chain.executed_events
    check_builtins block.system_events r.validators r.chain.executed_events

  -- `set_event_schedule`
  unfoldable pub set_event_schedule : List ScheduledEvent → ConsensusRuntime → Step (Unit {0})
  set_event_schedule schedule r = elim (validate_schedule crates schedule) [
    | err e ↦ (err e, r)
    | ok _ ↦ (ok tt, record r { event_schedule = schedule })
  ]

  -- `with_signer`
  unfoldable pub with_signer :
      Blockchain → List Validator → ConsensusTimeouts → Clock → Outcome Error ConsensusRuntime
  with_signer chain validators timeouts clock = do
    consensus ← Bft.new validators
    let started = Bft.start_round (unwrap_or (next_height chain) 1) 0 consensus
    started.0
    ok (record {
      chain = chain;
      consensus = started.1;
      pending = none;
      valid_block = none;
      deadline = clock.instant + timeouts.propose;
      timeouts = timeouts;
      validators = validators;
      precommits = [];
      deferred_votes = [];
      finalized = [];
      pending_finalized = [];
      event_schedule = [];
    })

module _ (crates : Crates) (signer : Signer) where
  -- `sign_vote`
  unfoldable pub sign_vote : ℕ → ℕ → VoteType → String → Outcome Error ConsensusMessage
  sign_vote height round vote_type block_hash = do
    signature ← signer.sign_bytes (vote_bytes height round signer.address vote_type block_hash)
    vote_from_signature crates height round signer.address vote_type block_hash signature

  -- The block that `make_proposal` proposes, and its valid round: the valid block where there is one.
  unfoldable pub proposed_block : Block → ConsensusRuntime → Block × Option ℕ
  proposed_block block r = elim r.valid_block [
    | none ↦ (block, none)
    | some valid ↦ elim (zip_option r.consensus.valid_value r.consensus.valid_round) [
      | none ↦ (block, none)
      | some (hash, round) ↦ if valid.hash == hash then (valid, some round) else (block, none)
    ]
  ]

  -- `can_make_proposal`
  unfoldable pub can_make_proposal : ConsensusRuntime → Bool
  can_make_proposal r =
      phase_beq r.consensus.phase ConsensusPhase.propose
      && some signer.address == expected_proposer r.consensus

  -- `make_proposal`
  unfoldable pub make_proposal : Block → ConsensusRuntime → Outcome Error SignedProposal
  unfolding proposed_block
  make_proposal block r = do
    fail_if (not (phase_beq r.consensus.phase ConsensusPhase.propose)) not_in_propose_phase
    fail_if (not (some signer.address == expected_proposer r.consensus)) not_our_turn
    let chosen = proposed_block block r
    signature ←
        signer.sign_bytes
          (proposal_bytes chosen.0.height r.consensus.round signer.address chosen.0.hash chosen.1)
    proposal_from_signature crates chosen.0.height r.consensus.round signer.address chosen.0
        chosen.1 signature

  -- `receive_proposal`
  unfoldable pub receive_proposal :
      Clock → SignedProposal → ConsensusRuntime → Step ConsensusMessage
  unfolding sign_vote validate_scheduled_block
  receive_proposal clock p r = elim (last? r.chain.blocks) [
    | none ↦ (err no_last_block, r)
    | some previous ↦
        if is_broken_link previous p.block
        then (err not_next_block, r)
        else elim (validate_scheduled_block crates clock p.block r) [
          | err e ↦ (err e, r)
          | ok _ ↦
              let (result, consensus) = Bft.handle_proposal crates p r.consensus in
              elim result [
                | err e ↦ (err e, record r { consensus = consensus })
                | ok _ ↦ (
                  sign_vote p.height p.round VoteType.prevote p.block.hash,
                  reset_deadline clock (record r { consensus = consensus; pending = some p.block }),
                )
              ]
        ]
  ]
