-- ===== src/Runtime/Rule.antt =====
-- One rule for what every method of `ConsensusRuntime` keeps of its chain and its certificates: it
-- is enough that the writes of the chain and of the certificates keep it, each where the code makes
-- it.
pub mod Votes
pub mod Sync
pub mod Calls
use aah_chain.Base.{
  ℕ, zero, suc, ◌+◌, String, List, [], ◌∷◌, ◌++◌, Bool, true, false, Option, none, some, ◌≡◌, refl,
  arith, inl, inr, not, ap, sym,
}
use aah_chain.Base.Tests.{if◌then◌else◌, eqb, ltb, Bool-cases, Option-cases}
use aah_chain.Base.Keys.{◌==◌, string_eq, nat_eq, option_eq}
use aah_chain.Base.Lists.{length, any}
use aah_chain.Base.Sorting.{sort}
use aah_chain.Base.Outcome.{Outcome, ok, err, ok_or, Outcome-cases, >>=-eq-ok, fail_if-eq-ok}
use aah_chain.Errors.{Error, no_last_block, no_canonical_block}
use aah_chain.Types.{Block}
use aah_chain.Crates.{Crates}
use aah_chain.Chain.{Blockchain}
use aah_chain.Chain.State.{apply_block, block_by_height, is_broken_link}
use aah_chain.Consensus.Messages.{
  ConsensusMessage, ConsensusPhase, SignedProposal, Validator, phase_beq,
}
use aah_chain.Consensus.Certificate.{FinalityCertificate, verify_certificate}
use aah_chain.Runtime.{
  Clock, Signer, ConsensusRuntime, next_height, reset_deadline, validate_scheduled_block,
  receive_proposal, Step, set_event_schedule, restart_phase_timeout,
}
use aah_chain.Runtime.Machine.{Call, after, run}
use aah_chain.Consensus.Bft
use aah_chain.Runtime.Votes.{
  note_precommit, note_phase, certificate_of, commit_block, commit_pending, after_vote,
  receive_vote, Replay, replay_turn, replay_loop, replay_deferred_votes, defer_vote, timeout_if_due,
  take_evidence,
}
use aah_chain.Runtime.Sync.{
  certificate_le, import_loop, import_certificate_history, sync_block, sync_certificate,
  sync_certificates, apply_sync_certificates, sync_batch, apply_sync_batch, start_height,
  take_finalized, advance_after_finalization, replace_bootstrap_validators,
}

module _ (crates : Crates) where
  pub record IsKept (Q : Blockchain → List FinalityCertificate → Type 0) : Type 0 where
    -- a block goes into the chain with a certificate that verifies
    pub certified :
        (chain chain' : Blockchain) (cs : List FinalityCertificate) (c : FinalityCertificate)
        (validators : List Validator)
        → Q chain cs
        → verify_certificate crates c validators ≡ ok tt
        → apply_block crates c.block chain ≡ ok chain'
        → Q chain' (cs ++ c ∷ [])
    -- a block of a batch goes into the chain
    pub synced :
        (chain chain' : Blockchain) (cs : List FinalityCertificate) (block : Block)
        → Q chain cs
        → apply_block crates block chain ≡ ok chain'
        → Q chain' cs
    -- a certificate for a block of the chain is kept
    pub imported :
        (chain : Blockchain) (cs : List FinalityCertificate) (c : FinalityCertificate)
        (block : Block)
        → Q chain cs
        → block_by_height c.block.height chain ≡ some block
        → block.hash ≡ c.block.hash
        → Q chain (cs ++ c ∷ [])
    pub sorted :
        (chain : Blockchain) (cs : List FinalityCertificate)
        → Q chain cs
        → Q chain (sort certificate_le cs)

  -- What the runtime has to keep.
  abbrev pub Holds : (Blockchain → List FinalityCertificate → Type 0) → ConsensusRuntime → Type 0
  Holds Q r = Q r.chain r.finalized
