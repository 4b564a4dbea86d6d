-- ===== src/Consensus/Bft.antt =====
-- src/consensus.rs `BftConsensus`: the state machine of one validator. A method returns its result
-- and the state that it leaves, since `handle` records votes and evidence before it fails.
pub mod Rule
pub mod Machine
pub mod Votes
pub mod Evidence
pub mod Conviction
pub mod Lock
pub mod Progress
pub mod Proposer
pub mod Invariant
pub mod Members
use text.Mathlib.Text.{is_le}
use Prim.Native.String.{compare}
use aah_chain.Base.{
  ℕ, ◌+◌, ◌-◌, ◌*◌, ◌%◌, String, List, [], ◌∷◌, ◌++◌, Bool, true, false, Option, none, some, ◌≡◌,
  ◌||◌, ◌&&◌, not, map,
}
use aah_chain.Base.Tests.{if◌then◌else◌, eqb, leb, ltb, unwrap_or, is_some}
use aah_chain.Base.Keys.{Eq, ◌==◌, string_eq, nat_eq, pair_eq, option_eq}
use aah_chain.Base.Maps
use aah_chain.Base.Maps.{Map, get, contains_key, get_or_zero, sum_values}
use aah_chain.Base.Sets
use aah_chain.Base.Lists.{length, get_elem?, any}
use aah_chain.Base.Sorting.{sort}
use aah_chain.Base.Words.{u32_max, u64_max, wrap, checked_add, saturating_mul}
use aah_chain.Base.Outcome.{Outcome, ok, err, ◌>>=◌, ◌>>◌, fail_if, ok_or}
use aah_chain.Errors.{
  Error, no_validators, bad_validator_set, past_round, propose_phase, wrong_proposer, empty_hash,
  proposal_round, unknown_proposer, locked_on_other, vote_round, unknown_voter, vote_phase,
  double_vote, other_block, round_overflow,
}
use aah_chain.Crates.{Crates}
use aah_chain.Consensus.Certificate.Weights.{power_of}
use aah_chain.Consensus.Messages.{
  Validator, ConsensusPhase, VoteType, phase_beq, vote_type_eq, SignedProposal, ConsensusMessage,
  DoubleVoteEvidence, verify_vote, verify_proposal, new_evidence, same_evidence_id,
}

-- (height, round, vote type, validator)
abbrev pub HistoryKey : Type 0
HistoryKey = ℕ × (ℕ × (VoteType × String))

-- (vote type, block hash)
abbrev pub VoteKey : Type 0
VoteKey = VoteType × String

-- `height` and the powers are `u64`, the rounds `u32`; `on_timeout` refuses to pass the greatest one.
pub record BftConsensus : Type 0 where
  pub validators : Map String ℕ
  pub total_power : ℕ
  pub height : ℕ
  pub round : ℕ
  pub phase : ConsensusPhase
  pub proposal : Option String
  pub votes : Map VoteKey (List String)
  pub vote_history : Map HistoryKey String
  pub vote_messages : Map HistoryKey ConsensusMessage
  pub locked_value : Option String
  pub locked_round : Option ℕ
  pub valid_value : Option String
  pub valid_round : Option ℕ
  pub evidence : List DoubleVoteEvidence
  pub finalized : Option String

abbrev pub Step : Type 0 → Type 0
Step A = Outcome Error A × BftConsensus

abbrev pub string_le : String → String → Bool
string_le a b = is_le (compare a b)

-- The loop of `BftConsensus::new` over the validators.
unfoldable pub register : List Validator → Map String ℕ → Outcome Error (Map String ℕ)
register [] m = ok m
register (v ∷ vs) m = do
  fail_if (eqb v.voting_power 0 || contains_key v.id m) bad_validator_set
  register vs (Maps.insert v.id v.voting_power m)

-- `BftConsensus::new`
unfoldable pub new : List Validator → Outcome Error BftConsensus
unfolding register
new [] = err no_validators
new (v ∷ vs) = do
  m ← register (v ∷ vs) []
  ok (record {
    validators = m;
    total_power = wrap u64_max (sum_values m);
    height = 0;
    round = 0;
    phase = ConsensusPhase.waiting;
    proposal = none;
    votes = [];
    vote_history = [];
    vote_messages = [];
    locked_value = none;
    locked_round = none;
    valid_value = none;
    valid_round = none;
    evidence = [];
    finalized = none;
  })

-- What `start_round` writes: a new height drops the lock, and every round drops the votes.
unfoldable pub begin_round : ℕ → ℕ → BftConsensus → BftConsensus
begin_round height round s = record s {
  locked_value = if ltb s.height height then none else s.locked_value;
  locked_round = if ltb s.height height then none else s.locked_round;
  valid_value = if ltb s.height height then none else s.valid_value;
  valid_round = if ltb s.height height then none else s.valid_round;
  height = height;
  round = round;
  phase = ConsensusPhase.propose;
  proposal = none;
  votes = [];
  finalized = none;
}

-- Does the round lie before the current one.
abbrev pub is_past : ℕ → ℕ → BftConsensus → Bool
is_past height round s = ltb height s.height || (eqb height s.height && ltb round s.round)

-- `start_round`
unfoldable pub start_round : ℕ → ℕ → BftConsensus → Step (Unit {0})
start_round height round s =
    if is_past height round s then (err past_round, s) else (ok tt, begin_round height round s)

-- `expected_proposer`; `none` where the source divides by zero, which `new` rules out
unfoldable pub expected_proposer : BftConsensus → Option String
expected_proposer s =
    let ids = sort string_le (map (λ (e : String × ℕ). e.0) s.validators) in
    get_elem? ids (wrap u64_max (s.height - 1 + s.round) % length ids)

-- What `propose` writes.
unfoldable pub open_proposal : String → BftConsensus → BftConsensus
open_proposal hash s = record s { proposal = some hash; phase = ConsensusPhase.prevote }

-- `propose`
unfoldable pub propose : String → String → BftConsensus → Step (Unit {0})
propose proposer block_hash s =
    if not (phase_beq s.phase ConsensusPhase.propose)
    then (err propose_phase, s)
    else if not (some proposer == expected_proposer s)
    then (err wrong_proposer, s)
    else if block_hash == ""
    then (err empty_hash, s)
    else (ok tt, open_proposal block_hash s)

-- `valid_round >= locked_round` where both are there
abbrev pub reaches : Option ℕ → ℕ → Bool
reaches none valid_round = false
reaches (some locked_round) valid_round = leb locked_round valid_round

-- `unlock_allowed`
unfoldable pub unlock_allowed : SignedProposal → BftConsensus → Bool
unlock_allowed p s = elim p.valid_round [
  | none ↦ false
  | some valid_round ↦
      reaches s.locked_round valid_round
      && s.valid_round == some valid_round
      && s.valid_value == some p.block.hash
]

-- Does the lock forbid the proposal.
unfoldable pub is_locked_out : SignedProposal → BftConsensus → Bool
is_locked_out p s = elim s.locked_value [
  | none ↦ false
  | some value ↦ not (value == p.block.hash) && not (unlock_allowed p s)
]

-- `locked_value()` and `valid_value()`, with their rounds
abbrev pub zip_option : Option String → Option ℕ → Option (String × ℕ)
zip_option (some a) (some b) = some (a, b)
zip_option _ _ = none

-- `has_quorum`
unfoldable pub has_quorum : VoteKey → BftConsensus → Bool
unfolding power_of
has_quorum key s =
    let power = wrap u64_max (power_of s.validators (unwrap_or (get key s.votes) [])) in
    ltb (saturating_mul u64_max s.total_power 2) (saturating_mul u64_max power 3)

-- The phases in which a vote of this type is taken.
abbrev pub accepts : ConsensusPhase → VoteType → Bool
accepts ConsensusPhase.prevote VoteType.prevote = true
accepts ConsensusPhase.precommit VoteType.prevote = true
accepts ConsensusPhase.precommit VoteType.precommit = true
accepts ConsensusPhase.finalized VoteType.prevote = true
accepts ConsensusPhase.finalized VoteType.precommit = true
accepts _ _ = false

abbrev pub history_key : ConsensusMessage → HistoryKey
history_key m = (m.height, (m.round, (m.vote_type, m.validator_id)))

-- The voter joins the voters of its type and block: `entry(key).or_default().insert(..)`.
unfoldable pub add_vote : ConsensusMessage → BftConsensus → BftConsensus
add_vote m s =
    let key : VoteKey = (m.vote_type, m.block_hash) in
    record s {
      votes = Maps.insert key (Sets.insert m.validator_id (unwrap_or (get key s.votes) [])) s.votes;
    }

-- A quorum of prevotes locks the block.
unfoldable pub lock_block : String → BftConsensus → BftConsensus
lock_block hash s = record s {
  valid_value = some hash;
  valid_round = some s.round;
  locked_value = some hash;
  locked_round = some s.round;
  phase = ConsensusPhase.precommit;
}

-- A quorum of precommits finalizes it.
unfoldable pub finalize_block : String → BftConsensus → BftConsensus
finalize_block hash s = record s { phase = ConsensusPhase.finalized; finalized = some hash }

-- The `match` on a quorum, before the block is final.
unfoldable pub on_quorum : VoteType → String → BftConsensus → BftConsensus
on_quorum VoteType.prevote hash s =
    if phase_beq s.phase ConsensusPhase.prevote then lock_block hash s else s
on_quorum VoteType.precommit hash s = finalize_block hash s

-- The end of `handle`, once the vote is in the history.
unfoldable pub count_vote : ConsensusMessage → BftConsensus → Step (Unit {0})
count_vote m s =
    if not (s.proposal == some m.block_hash)
    then (err other_block, s)
    else (let s' = add_vote m s in
        (
          ok tt,
          if has_quorum (m.vote_type, m.block_hash) s'
                && not (phase_beq s'.phase ConsensusPhase.finalized)
              then on_quorum m.vote_type m.block_hash s'
              else s',
        ))

-- The first vote of a validator at a height, round and type goes into the history.
unfoldable pub remember_vote : ConsensusMessage → BftConsensus → BftConsensus
remember_vote m s = record s {
  vote_history = Maps.insert (history_key m) m.block_hash s.vote_history;
  vote_messages = Maps.insert (history_key m) m s.vote_messages;
}

module _ (crates : Crates) where
  -- The conflict of two votes joins the evidence, if it is one and its id is not known.
  unfoldable pub add_evidence :
      ConsensusMessage → ConsensusMessage → List DoubleVoteEvidence → List DoubleVoteEvidence
  add_evidence first second evidence = elim (new_evidence crates first second) [
    | err e ↦ evidence
    | ok found ↦
        if any (λ known. same_evidence_id known found) evidence
        then evidence
        else evidence ++ found ∷ []
  ]

  -- The evidence after a second vote for another block.
  unfoldable pub noted_evidence : ConsensusMessage → BftConsensus → List DoubleVoteEvidence
  noted_evidence m s = elim (get (history_key m) s.vote_messages) [
    | none ↦ s.evidence
    | some first ↦ add_evidence first m s.evidence
  ]

  abbrev pub note_evidence : ConsensusMessage → BftConsensus → BftConsensus
  note_evidence m s = record s { evidence = noted_evidence m s }

  -- The history part of `handle`.
  unfoldable pub record_vote : ConsensusMessage → BftConsensus → Step (Unit {0})
  record_vote m s = elim (get (history_key m) s.vote_history) [
    | none ↦ count_vote m (remember_vote m s)
    | some previous_hash ↦
        if previous_hash == m.block_hash
        then count_vote m s
        else (err double_vote, note_evidence m s)
  ]

  -- `handle`
  unfoldable pub handle : ConsensusMessage → BftConsensus → Step (Unit {0})
  handle m s =
      if not (m.height == s.height) || not (m.round == s.round)
      then (err vote_round, s)
      else if not (contains_key m.validator_id s.validators)
      then (err unknown_voter, s)
      else elim (verify_vote crates m) [
        | err e ↦ (err e, s)
        | ok _ ↦ if not (accepts s.phase m.vote_type) then (err vote_phase, s) else record_vote m s
      ]

  -- `handle_proposal`
  unfoldable pub handle_proposal : SignedProposal → BftConsensus → Step (Unit {0})
  handle_proposal p s =
      if not (p.height == s.height) || not (p.round == s.round)
      then (err proposal_round, s)
      else if not (contains_key p.proposer_id s.validators)
      then (err unknown_proposer, s)
      else elim (verify_proposal crates p) [
        | err e ↦ (err e, s)
        | ok _ ↦
            if is_locked_out p s
            then (err locked_on_other, s)
            else propose p.proposer_id p.block.hash s
      ]

-- `on_timeout`: the next round, and its number
unfoldable pub on_timeout : BftConsensus → Step ℕ
on_timeout s = elim (checked_add u32_max s.round 1) [
  | none ↦ (err round_overflow, s)
  | some next ↦
      let (r, s') = start_round s.height next s in
      elim r [ ok _ ↦ (ok next, s') | err e ↦ (err e, s') ]
]

-- `take_evidence`
unfoldable pub take_evidence : BftConsensus → List DoubleVoteEvidence × BftConsensus
take_evidence s = (s.evidence, record s { evidence = [] })
