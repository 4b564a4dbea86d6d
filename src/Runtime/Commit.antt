-- ===== src/Runtime/Commit.antt =====
-- When `receive_vote` of src/consensus_runtime.rs writes the chain.
use aah_chain.Base.{[], ◌∷◌, ◌++◌, none, some, ◌≡◌, refl, arith, inl, inr, ◌⊎◌, subst}
use aah_chain.Base.Tests.{Option-cases, Bool-cases}
use aah_chain.Base.Keys.{◌==◌, string_eq, nat_eq, option_eq, option_beq_iff}
use aah_chain.Base.Outcome.{ok, err, Outcome-cases}
use aah_chain.Errors.{Error}
use aah_chain.Crates.{Crates}
use aah_chain.Chain.State.{apply_block}
use aah_chain.Consensus.Messages.{ConsensusMessage, ConsensusPhase, phase_beq}
use aah_chain.Consensus.Certificate.{FinalityCertificate, verify_certificate}
use aah_chain.Consensus.Bft
use aah_chain.Consensus.Bft.{BftConsensus}
use aah_chain.Runtime.{Clock, Signer, ConsensusRuntime, reset_deadline}
use aah_chain.Runtime.Votes.{
  note_precommit, note_phase, certificate_of, commit_block, commit_pending, after_vote,
  receive_vote,
}

module _ (crates : Crates) where
  -- The block of this certificate was the pending one, is the final one, and has been applied.
  pub record IsCommit (r after : ConsensusRuntime) (consensus : BftConsensus)
      (c : FinalityCertificate) : Type 0 where
    pub pending : r.pending ≡ some c.block
    pub final : consensus.finalized ≡ some c.block.hash
    pub verified : verify_certificate crates c r.validators ≡ ok tt
    pub applied : apply_block crates c.block r.chain ≡ ok after.chain
    pub kept : after.finalized ≡ r.finalized ++ c ∷ []
    pub taken : after.pending ≡ none

  -- Either the chain and the certificates stay, or a block is committed.
  abbrev pub StaysOrCommits : ConsensusRuntime → ConsensusRuntime → BftConsensus → Type 0
  StaysOrCommits r after consensus =
      ((after.chain ≡ r.chain) × (after.finalized ≡ r.finalized))
      ⊎ ((c : FinalityCertificate) × IsCommit r after consensus c)

  commit_pending-lem :
      (r : ConsensusRuntime) → StaysOrCommits r (commit_pending crates r).1 r.consensus
  unfolding commit_pending commit_block
  commit_pending-lem r = elim (Option-cases r.pending) [
    | inl nothing ↦ inl (ground (arith, nothing))
    | inr (block, p) ↦
        let c = certificate_of block r in
        elim (Bool-cases (r.consensus.finalized == some block.hash)) [
          | inr other ↦ inl (ground (arith, p, other))
          | inl final ↦ elim (Outcome-cases (verify_certificate crates c r.validators)) [
            | inr (e, v) ↦ inl (ground (arith, p, final, v))
            | inl (_, v) ↦ elim (Outcome-cases (apply_block crates block r.chain)) [
              | inr (e, a) ↦ inl (ground (arith, p, final, v, a))
              | inl (chain, a) ↦ inr (
                c,
                record {
                  pending = p;
                  final = (option_beq_iff r.consensus.finalized (some block.hash)).0 final;
                  verified = v;
                  applied = ground (arith, p, final, v, a);
                  kept = ground (arith, p, final, v, a);
                  taken = ground (arith, p, final, v, a);
                },
              )
            ]
          ]
        ]
  ]

  -- The certificate of a vote holds what the notes of the vote leave alone.
  noted-lem :
      (clock : Clock) (previous : ConsensusPhase) (vote : ConsensusMessage)
      (r after : ConsensusRuntime) (consensus : BftConsensus)
      → StaysOrCommits
          (note_phase clock previous (note_precommit vote (record r { consensus = consensus })))
          after
          consensus
      → StaysOrCommits r after consensus
  unfolding note_phase note_precommit reset_deadline
  noted-lem clock previous vote r after consensus (inl s) = inl (ground (arith, s))
  noted-lem clock previous vote r after consensus (inr (c, k)) = inr (
    c,
    record {
      pending = ground (arith, k.pending);
      final = k.final;
      verified = ground (arith, k.verified);
      applied = ground (arith, k.applied);
      kept = ground (arith, k.kept);
      taken = k.taken;
    },
  )

  noted_consensus :
      (clock : Clock) (previous : ConsensusPhase) (vote : ConsensusMessage) (r : ConsensusRuntime)
      → (note_phase clock previous (note_precommit vote r)).consensus ≡ r.consensus
  unfolding note_phase note_precommit reset_deadline
  noted_consensus clock previous vote r = ground arith

  after_vote-lem :
      (signer : Signer) (r : ConsensusRuntime)
      → StaysOrCommits r (after_vote crates signer r).1 r.consensus
  unfolding after_vote
  after_vote-lem signer r =
      elim (Bool-cases (phase_beq r.consensus.phase ConsensusPhase.precommit)) [
        | inl p ↦ rw p (inl (refl, refl))
        | inr p ↦ elim (Bool-cases (phase_beq r.consensus.phase ConsensusPhase.finalized)) [
          | inl f ↦ rw (p, f) (commit_pending-lem r)
          | inr f ↦ rw (p, f) (inl (refl, refl))
        ]
      ]

  receive_vote-ok :
      (signer : Signer) (clock : Clock) (vote : ConsensusMessage) (r : ConsensusRuntime)
      {u : Unit {0}}
      → (Bft.handle crates vote r.consensus).0 ≡ ok u
      → receive_vote crates signer clock vote r
        ≡ after_vote crates signer (
            note_phase clock r.consensus.phase (
              note_precommit vote
                (record r { consensus = (Bft.handle crates vote r.consensus).1 })))
  unfolding receive_vote
  receive_vote-ok signer clock vote r f = rw (f, receive_vote) refl

  refused :
      (signer : Signer) (clock : Clock) (vote : ConsensusMessage) (r : ConsensusRuntime) {e : Error}
      → (Bft.handle crates vote r.consensus).0 ≡ err e
      → StaysOrCommits r
          (receive_vote crates signer clock vote r).1
          (Bft.handle crates vote r.consensus).1
  unfolding receive_vote
  refused signer clock vote r f = inl (ground (arith, f))

  -- A vote changes the chain and the certificates of a runtime in no way, or it applies the block
  -- that was pending to the chain: the consensus then has that block as final, the certificate of
  -- the block verifies under the validators of the runtime and joins its certificates, and no block
  -- is pending any more.
  pub vote_commits_with_certificate :
      (signer : Signer) (clock : Clock) (vote : ConsensusMessage) (r : ConsensusRuntime)
      → StaysOrCommits r
          (receive_vote crates signer clock vote r).1
          (Bft.handle crates vote r.consensus).1
  vote_commits_with_certificate signer clock vote r =
      let after = (Bft.handle crates vote r.consensus).1 in
      let r' = record r { consensus = after } in
      let noted = note_phase clock r.consensus.phase (note_precommit vote r') in
      elim (Outcome-cases (Bft.handle crates vote r.consensus).0) [
        | inr (e, f) ↦ refused signer clock vote r f
        | inl (_, f) ↦ rw (receive_vote-ok signer clock vote r f) (
            noted-lem clock r.consensus.phase vote r (after_vote crates signer noted).1 after (
              subst (λ c. StaysOrCommits noted (after_vote crates signer noted).1 c)
                (noted_consensus clock r.consensus.phase vote r') (after_vote-lem signer noted)))
      ]
