-- ===== src/Runtime/Votes.antt =====
-- src/consensus_runtime.rs: the methods of `ConsensusRuntime` that take votes, and the votes that
-- wait for a later phase.
use aah_chain.Base.{
  ℕ, zero, suc, ◌+◌, List, [], ◌∷◌, ◌++◌, Bool, true, false, Option, none, some, ◌||◌, ◌&&◌, not,
}
use aah_chain.Base.Tests.{if◌then◌else◌, leb, ltb}
use aah_chain.Base.Keys.{◌==◌, string_eq, nat_eq, option_eq}
use aah_chain.Base.Lists.{length, any, drop}
use aah_chain.Base.Outcome.{Outcome, ok, err, ◌>>=◌, ok_or}
use aah_chain.Errors.{Error, vote_phase, no_candidate, candidate_mismatch}
use aah_chain.Types.{Block, Transaction}
use aah_chain.Crates.{Crates}
use aah_chain.Chain.State.{apply_block}
use aah_chain.Consensus.Messages.{
  ConsensusPhase, VoteType, phase_beq, vote_type_eq, ConsensusMessage, DoubleVoteEvidence,
}
use aah_chain.Consensus.Certificate.{FinalityCertificate, verify_certificate}
use aah_chain.Consensus.Bft
use aah_chain.Consensus.Bft.{BftConsensus}
use aah_chain.Runtime.{Clock, Signer, ConsensusRuntime, Step, reset_deadline, sign_vote}

-- Is there a precommit of this voter at this height and round.
abbrev pub has_precommit : ConsensusMessage → List ConsensusMessage → Bool
has_precommit vote votes =
    any
      (λ known.
        known.height == vote.height
        && known.round == vote.round
        && known.validator_id == vote.validator_id)
      votes

-- The first precommit of a voter is kept for the certificate.
unfoldable pub note_precommit : ConsensusMessage → ConsensusRuntime → ConsensusRuntime
note_precommit vote r =
    if vote.vote_type == VoteType.precommit && not (has_precommit vote r.precommits)
    then record r { precommits = r.precommits ++ vote ∷ [] }
    else r

-- A new phase has a new deadline, and a block that is locked is the valid one.
unfoldable pub note_phase : Clock → ConsensusPhase → ConsensusRuntime → ConsensusRuntime
unfolding reset_deadline
note_phase clock previous r =
    if phase_beq previous r.consensus.phase
    then r
    else reset_deadline clock (
        if phase_beq previous ConsensusPhase.prevote
          && phase_beq r.consensus.phase ConsensusPhase.precommit
        then record r { valid_block = r.pending }
        else r)

-- The certificate of the pending block.
abbrev pub certificate_of : Block → ConsensusRuntime → FinalityCertificate
certificate_of block r = record {
  block = block;
  round = r.consensus.round;
  precommits = r.precommits;
}

module _ (crates : Crates) where
  -- The end of `receive_vote`: a final block goes into the chain with its certificate.
  unfoldable pub commit_block : Block → ConsensusRuntime → Step (Option ConsensusMessage)
  commit_block block r =
      let certificate = certificate_of block r in
      if not (r.consensus.finalized == some block.hash)
      then (err candidate_mismatch, r)
      else elim (verify_certificate crates certificate r.validators) [
        | err e ↦ (err e, r)
        | ok _ ↦ elim (apply_block crates block r.chain) [
          | err e ↦ (err e, r)
          | ok chain ↦ (
            ok none,
            record r {
              chain = chain;
              finalized = r.finalized ++ certificate ∷ [];
              pending_finalized = r.pending_finalized ++ certificate ∷ [];
            },
          )
        ]
      ]

  -- `self.pending.take()`, and what follows
  unfoldable pub commit_pending : ConsensusRuntime → Step (Option ConsensusMessage)
  unfolding commit_block
  commit_pending r = elim r.pending [
    | none ↦ (ok none, r)
    | some block ↦ commit_block block (record r { pending = none })
  ]

module _ (crates : Crates) (signer : Signer) where
  -- The own precommit of the pending block.
  unfoldable pub own_precommit : ConsensusRuntime → Outcome Error (Option ConsensusMessage)
  unfolding sign_vote
  own_precommit r = do
    block ← ok_or r.pending no_candidate
    vote ← sign_vote crates signer block.height r.consensus.round VoteType.precommit block.hash
    ok (some vote)

  -- What `receive_vote` does in the phase that the vote has led to.
  unfoldable pub after_vote : ConsensusRuntime → Step (Option ConsensusMessage)
  unfolding own_precommit commit_pending
  after_vote r =
      if phase_beq r.consensus.phase ConsensusPhase.precommit
      then (own_precommit r, r)
      else if phase_beq r.consensus.phase ConsensusPhase.finalized
      then commit_pending crates r
      else (ok none, r)

  -- `receive_vote`
  unfoldable pub receive_vote :
      Clock → ConsensusMessage → ConsensusRuntime → Step (Option ConsensusMessage)
  unfolding note_precommit note_phase after_vote
  receive_vote clock vote r =
      let previous_phase = r.consensus.phase in
      let (result, consensus) = Bft.handle crates vote r.consensus in
      let r' = record r { consensus = consensus } in
      elim result [
        | err e ↦ (err e, r')
        | ok _ ↦ after_vote (note_phase clock previous_phase (note_precommit vote r'))
      ]

abbrev pub max_deferred_votes : ℕ
max_deferred_votes = 1024

abbrev pub same_vote : ConsensusMessage → ConsensusMessage → Bool
same_vote a b =
    a.height == b.height
    && a.round == b.round
    && a.vote_type == b.vote_type
    && a.validator_id == b.validator_id
    && a.block_hash == b.block_hash

-- `defer_vote`
unfoldable pub defer_vote : ConsensusMessage → ConsensusRuntime → ConsensusRuntime
defer_vote vote r =
    let room =
      if leb max_deferred_votes (length r.deferred_votes)
      then drop 1 r.deferred_votes
      else r.deferred_votes in
    if any (λ known. same_vote known vote) r.deferred_votes
    then r
    else record r { deferred_votes = room ++ vote ∷ [] }

-- `is_deferable_vote_error`
abbrev pub is_deferable_vote_error : Error → Bool
is_deferable_vote_error vote_phase = true
is_deferable_vote_error _ = false

-- What a turn of `replay_deferred_votes` has sent and kept so far.
pub record Replay : Type 0 where
  pub outbound : List ConsensusMessage
  pub remaining : List ConsensusMessage
  pub progressed : Bool

module _ (crates : Crates) (signer : Signer) (clock : Clock) where
  -- The loop of one turn over the votes that were taken.
  unfoldable pub replay_turn : List ConsensusMessage → Replay → ConsensusRuntime → Step Replay
  unfolding receive_vote
  replay_turn [] t r = (ok t, r)
  replay_turn (vote ∷ votes) t r =
      let (result, r1) = receive_vote crates signer clock vote r in
      elim result [
        | ok none ↦ replay_turn votes (record t { progressed = true }) r1
        | ok (some precommit) ↦
            let (own, r2) = receive_vote crates signer clock precommit r1 in
            elim own [
              | err e ↦ (err e, r2)
              | ok _ ↦
                  replay_turn votes
                    (record t { outbound = t.outbound ++ precommit ∷ []; progressed = true }) r2
            ]
        | err e ↦
            replay_turn votes
              (record t {
                remaining =
                    if is_deferable_vote_error e then t.remaining ++ vote ∷ [] else t.remaining;
              })
              r1
      ]

  -- The turns, on fuel: `none` where it runs out.
  unfoldable pub replay_loop :
      ℕ → List ConsensusMessage → ConsensusRuntime → Option (Step (List ConsensusMessage))
  unfolding replay_turn
  replay_loop zero outbound r = none
  replay_loop (suc fuel) outbound r =
      let (result, r1) =
        replay_turn r.deferred_votes
          (record { outbound = outbound; remaining = []; progressed = false })
          (record r { deferred_votes = [] }) in
      elim result [
        | err e ↦ some (err e, r1)
        | ok t ↦
            let r2 = record r1 { deferred_votes = t.remaining } in
            let more = replay_loop fuel t.outbound r2 in
            if t.progressed then more else some (ok t.outbound, r2)
      ]

  -- `replay_deferred_votes`
  unfoldable pub replay_deferred_votes : ConsensusRuntime → Option (Step (List ConsensusMessage))
  unfolding replay_loop
  replay_deferred_votes r = replay_loop (suc (length r.deferred_votes)) [] r

-- `timeout_if_due`
unfoldable pub timeout_if_due : ℕ → ConsensusRuntime → Step Bool
timeout_if_due now r =
    if ltb now r.deadline || phase_beq r.consensus.phase ConsensusPhase.finalized
    then (ok false, r)
    else (let (result, consensus) = Bft.on_timeout r.consensus in
        elim result [
          | err e ↦ (err e, record r { consensus = consensus })
          | ok _ ↦ (
            ok true,
            record r {
              consensus = consensus;
              pending = none;
              precommits = [];
              deadline = now + r.timeouts.propose;
            },
          )
        ])

-- `take_evidence`
unfoldable pub take_evidence : ConsensusRuntime → List DoubleVoteEvidence × ConsensusRuntime
take_evidence r =
    let (evidence, consensus) = Bft.take_evidence r.consensus in
    (evidence, record r { consensus = consensus })

-- `pending_transactions`
unfoldable pub pending_transactions : ConsensusRuntime → List Transaction
pending_transactions r = elim r.pending [ none ↦ [] | some block ↦ block.transactions ]
