-- ===== src/Runtime/Rule/Votes.antt =====
-- The rule for the methods of `ConsensusRuntime` that take proposals and votes.
use aah_chain.Base.{ℕ, zero, suc, List, [], ◌∷◌, false, none, some, ◌≡◌, arith, inl, inr}
use aah_chain.Base.Tests.{Bool-cases, Option-cases}
use aah_chain.Base.Keys.{string_eq, nat_eq, option_eq}
use aah_chain.Base.Outcome.{ok, err, Outcome-cases}
use aah_chain.Types.{Block}
use aah_chain.Crates.{Crates}
use aah_chain.Chain.{Blockchain}
use aah_chain.Chain.State.{apply_block}
use aah_chain.Consensus.Messages.{ConsensusMessage, ConsensusPhase, SignedProposal}
use aah_chain.Consensus.Certificate.{FinalityCertificate, verify_certificate}
use aah_chain.Runtime.{Clock, Signer, ConsensusRuntime, reset_deadline, receive_proposal, Step}
use aah_chain.Consensus.Bft
use aah_chain.Runtime.Votes.{
  note_precommit, note_phase, certificate_of, commit_block, commit_pending, after_vote,
  receive_vote, Replay, replay_turn, replay_loop,
}
use aah_chain.Runtime.Rule.{IsKept, Holds}

module _ (crates : Crates) (Q : Blockchain → List FinalityCertificate → Type 0)
    (keeps : IsKept crates Q) where
  commit_block-keeps :
      (block : Block) (r : ConsensusRuntime)
      → Holds crates Q r
      → Holds crates Q (commit_block crates block r).1
  unfolding commit_block
  commit_block-keeps block r h =
      elim (Outcome-cases (verify_certificate crates (certificate_of block r) r.validators)) [
        | inr (e, v) ↦ ground (arith, h, v)
        | inl (_, v) ↦ elim (Outcome-cases (apply_block crates block r.chain)) [
          | inr (e, a) ↦ ground (arith, h, v, a)
          | inl (chain, a) ↦ ground (
            arith,
            h,
            v,
            a,
            keeps.certified r.chain chain r.finalized (certificate_of block r) r.validators h v a,
          )
        ]
      ]

  commit_pending-keeps :
      (r : ConsensusRuntime) → Holds crates Q r → Holds crates Q (commit_pending crates r).1
  unfolding commit_pending
  commit_pending-keeps r h = elim (Option-cases r.pending) [
    | inl nothing ↦ ground (arith, h, nothing)
    | inr (block, p) ↦
        ground (arith, h, p, commit_block-keeps block (record r { pending = none }) h)
  ]

  note-keeps :
      (clock : Clock) (previous : ConsensusPhase) (vote : ConsensusMessage) (r : ConsensusRuntime)
      → Holds crates Q r
      → Holds crates Q (note_phase clock previous (note_precommit vote r))
  unfolding note_phase note_precommit reset_deadline
  note-keeps clock previous vote r h = ground (arith, h)

  module _ (signer : Signer) (clock : Clock) where
    after_vote-keeps :
        (r : ConsensusRuntime) → Holds crates Q r → Holds crates Q (after_vote crates signer r).1
    unfolding after_vote
    after_vote-keeps r h = ground (arith, h, commit_pending-keeps r h)

    pub receive_vote-keeps :
        (vote : ConsensusMessage) (r : ConsensusRuntime)
        → Holds crates Q r
        → Holds crates Q (receive_vote crates signer clock vote r).1
    unfolding receive_vote
    receive_vote-keeps vote r h =
        let r' = record r { consensus = (Bft.handle crates vote r.consensus).1 } in
        let noted = note_phase clock r.consensus.phase (note_precommit vote r') in
        ground (arith, h, after_vote-keeps noted (note-keeps clock r.consensus.phase vote r' h))

    pub receive_proposal-keeps :
        (p : SignedProposal) (r : ConsensusRuntime)
        → Holds crates Q r
        → Holds crates Q (receive_proposal crates signer clock p r).1
    unfolding receive_proposal reset_deadline
    receive_proposal-keeps p r h = ground (arith, h)

    replay_turn-keeps :
        (votes : List ConsensusMessage) (t : Replay) (r : ConsensusRuntime)
        → Holds crates Q r
        → Holds crates Q (replay_turn crates signer clock votes t r).1
    unfolding replay_turn
    replay_turn-keeps [] t r h = h
    replay_turn-keeps (vote ∷ votes) t r h =
        let step = receive_vote crates signer clock vote r in
        let h1 = receive_vote-keeps vote r h in
        elim (Outcome-cases step.0) [
          | inr (e, f) ↦ rw (f, replay_turn) (replay_turn-keeps votes _ step.1 h1)
          | inl (none, f) ↦ rw (f, replay_turn) (replay_turn-keeps votes _ step.1 h1)
          | inl (some own, f) ↦
              let second = receive_vote crates signer clock own step.1 in
              let h2 = receive_vote-keeps own step.1 h1 in
              elim (Outcome-cases second.0) [
                | inr (e, g) ↦ rw (f, replay_turn, g) h2
                | inl (_, g) ↦ rw (f, replay_turn, g) (replay_turn-keeps votes _ second.1 h2)
              ]
        ]

    pub replay_loop-keeps :
        (fuel : ℕ) (outbound : List ConsensusMessage) (r : ConsensusRuntime)
        (result : Step (List ConsensusMessage))
        → Holds crates Q r
        → replay_loop crates signer clock fuel outbound r ≡ some result
        → Holds crates Q result.1
    unfolding replay_loop
    replay_loop-keeps zero outbound r result h e = cc
    replay_loop-keeps (suc fuel) outbound r result h e =
        let start : Replay = record { outbound = outbound; remaining = []; progressed = false } in
        let turn =
          replay_turn crates signer clock r.deferred_votes start
            (record r { deferred_votes = [] }) in
        let h1 = replay_turn-keeps r.deferred_votes start (record r { deferred_votes = [] }) h in
        elim (Outcome-cases turn.0) [
          | inr (x, f) ↦
              let same : (err x, turn.1) ≡ result = cc (rw (f, replay_loop) at e) in rw (← same) h1
          | inl (t, f) ↦
              let r2 = record turn.1 { deferred_votes = t.remaining } in
              elim (Bool-cases t.progressed) [
                | inl more ↦
                    replay_loop-keeps fuel t.outbound r2 result h1 (rw (f, replay_loop, more) at e)
                | inr done ↦
                    let same : (ok t.outbound, r2) ≡ result = cc (rw (f, replay_loop, done) at e) in
                    rw (← same) h1
              ]
        ]
