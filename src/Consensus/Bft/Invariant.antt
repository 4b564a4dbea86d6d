-- ===== src/Consensus/Bft/Invariant.antt =====
-- The phase, the proposal, the lock and the final block of `BftConsensus` agree with one another
-- after every operation.
use aah_chain.Base.{
  ℕ, ◌≤◌, String, List, [], ◌∷◌, true, false, Option, none, some, ◌≡◌, refl, arith,
}
use aah_chain.Base.Tests.{is_some}
use aah_chain.Base.Keys.{string_eq, option_eq}
use aah_chain.Base.Outcome.{ok}
use aah_chain.Crates.{Crates}
use aah_chain.Consensus.Messages.{
  ConsensusPhase, VoteType, ConsensusMessage, Validator, DoubleVoteEvidence,
}
use aah_chain.Consensus.Bft.{
  BftConsensus, new, begin_round, is_past, open_proposal, add_vote, lock_block, finalize_block,
  on_quorum, remember_vote, noted_evidence,
}
use aah_chain.Consensus.Bft.Machine.{Call, run}
use aah_chain.Consensus.Bft.Rule.{IsKept, run-keeps}

-- What each phase says of the proposal, the votes and the final block.
abbrev pub PhaseAgrees : ConsensusPhase → BftConsensus → Type 0
PhaseAgrees ConsensusPhase.waiting s = (s.proposal ≡ none) × (s.votes ≡ []) × (s.finalized ≡ none)
PhaseAgrees ConsensusPhase.propose s = (s.proposal ≡ none) × (s.votes ≡ []) × (s.finalized ≡ none)
PhaseAgrees ConsensusPhase.prevote s = (is_some s.proposal ≡ true) × (s.finalized ≡ none)
PhaseAgrees ConsensusPhase.precommit s =
    (is_some s.proposal ≡ true)
    × (s.finalized ≡ none)
    × (s.locked_value ≡ s.proposal)
    × (s.locked_round ≡ some s.round)
PhaseAgrees ConsensusPhase.finalized s = (is_some s.proposal ≡ true) × (s.finalized ≡ s.proposal)

abbrev pub AtMost : Option ℕ → ℕ → Type 0
AtMost none r = Unit
AtMost (some l) r = l ≤ r

pub record IsCoherent (s : BftConsensus) : Type 0 where
  pub phase : PhaseAgrees s.phase s
  -- the valid value is the locked value, and both have a round or neither has
  pub same_value : s.valid_value ≡ s.locked_value
  pub same_round : s.valid_round ≡ s.locked_round
  pub lock_has_round : is_some s.locked_round ≡ is_some s.locked_value
  pub lock_is_past : AtMost s.locked_round s.round

pub new-IsCoherent : (vs : List Validator) {s : BftConsensus} → new vs ≡ ok s → IsCoherent s
unfolding new
new-IsCoherent [] e = cc
new-IsCoherent (v ∷ vs) e = ground arith

begin_round-IsCoherent :
    (height round : ℕ) (s : BftConsensus)
    → IsCoherent s
    → is_past height round s ≡ false
    → IsCoherent (begin_round height round s)
unfolding begin_round
begin_round-IsCoherent height round s h later = ground arith

pub open_proposal-IsCoherent :
    (hash : String) (s : BftConsensus)
    → IsCoherent s
    → s.phase ≡ ConsensusPhase.propose
    → IsCoherent (open_proposal hash s)
unfolding open_proposal
open_proposal-IsCoherent hash s h e = ground arith

add_vote-IsCoherent :
    (m : ConsensusMessage) (s : BftConsensus)
    → is_some s.proposal ≡ true
    → IsCoherent s
    → IsCoherent (add_vote m s)
unfolding add_vote
add_vote-IsCoherent m s open' h = ground arith

on_quorum-IsCoherent :
    (t : VoteType) (hash : String) (s : BftConsensus)
    → s.proposal ≡ some hash
    → IsCoherent s
    → IsCoherent (on_quorum t hash s)
unfolding on_quorum lock_block finalize_block
on_quorum-IsCoherent VoteType.prevote hash s open' h = ground arith
on_quorum-IsCoherent VoteType.precommit hash s open' h = ground arith

pub evidence-IsCoherent :
    (es : List DoubleVoteEvidence) (s : BftConsensus)
    → IsCoherent s
    → IsCoherent (record s { evidence = es })
evidence-IsCoherent es s h = ground arith

remember_vote-IsCoherent :
    (m : ConsensusMessage) (s : BftConsensus) → IsCoherent s → IsCoherent (remember_vote m s)
unfolding remember_vote
remember_vote-IsCoherent m s h = ground arith

module _ (crates : Crates) where
  pub IsCoherent-IsKept : IsKept crates IsCoherent
  IsCoherent-IsKept = record {
    begin = begin_round-IsCoherent;
    remember = λ m s h _ _. remember_vote-IsCoherent m s h;
    note = λ m s h _. evidence-IsCoherent (noted_evidence crates m s) s h;
    add = λ m s h _ e _. add_vote-IsCoherent m s (rw e refl) h;
    quorum = λ t hash s h e _ _. on_quorum-IsCoherent t hash s e h;
    taken = λ s h. evidence-IsCoherent [] s h;
  }

  -- After any sequence of calls from a new state, the phase says which of the proposal, the votes
  -- and the final block are there, a final block is the proposal, the valid value and round are the
  -- locked ones, and the lock is of no later round.
  pub run-IsCoherent :
      (vs : List Validator) {s : BftConsensus} (cs : List Call)
      → new vs ≡ ok s
      → IsCoherent (run crates cs s)
  run-IsCoherent vs {s} cs e =
      run-keeps crates IsCoherent IsCoherent-IsKept open_proposal-IsCoherent cs s
        (new-IsCoherent vs e)
