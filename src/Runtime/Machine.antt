-- ===== src/Runtime/Machine.antt =====
-- The life of a `ConsensusRuntime`: any sequence of calls of its methods.
use aah_chain.Base.{List, [], ◌∷◌, none, some}
use aah_chain.Crates.{Crates}
use aah_chain.Types.{Block, ScheduledEvent}
use aah_chain.Consensus.Messages.{Validator, ConsensusMessage, SignedProposal}
use aah_chain.Consensus.Certificate.{FinalityCertificate}
use aah_chain.Runtime
use aah_chain.Runtime.{Clock, Signer, ConsensusRuntime}
use aah_chain.Runtime.Votes
use aah_chain.Runtime.Sync

-- A call of a public method that may change the runtime.
pub data Call : Type 0 where
  set_event_schedule : List ScheduledEvent → Call
  receive_proposal : SignedProposal → Call
  receive_vote : ConsensusMessage → Call
  defer_vote : ConsensusMessage → Call
  replay_deferred_votes : Call
  timeout_if_due : Call
  restart_phase_timeout : Call
  take_evidence : Call
  take_finalized : Call
  advance_after_finalization : Call
  replace_bootstrap_validators : List Validator → Call
  import_certificate_history : List FinalityCertificate → Call
  apply_sync_certificates : List FinalityCertificate → Call
  apply_sync_batch : List Block → Call

module _ (crates : Crates) (signer : Signer) where
  -- The runtime that a call leaves at a time of the clock, also where it fails.
  unfoldable pub after : Clock → Call → ConsensusRuntime → ConsensusRuntime
  after clock (Call.set_event_schedule schedule) r =
      (Runtime.set_event_schedule crates schedule r).1
  after clock (Call.receive_proposal p) r = (Runtime.receive_proposal crates signer clock p r).1
  after clock (Call.receive_vote vote) r = (Votes.receive_vote crates signer clock vote r).1
  after clock (Call.defer_vote vote) r = Votes.defer_vote vote r
  after clock Call.replay_deferred_votes r =
      elim (Votes.replay_deferred_votes crates signer clock r) [ none ↦ r | some step ↦ step.1 ]
  after clock Call.timeout_if_due r = (Votes.timeout_if_due clock.instant r).1
  after clock Call.restart_phase_timeout r = Runtime.restart_phase_timeout clock.instant r
  after clock Call.take_evidence r = (Votes.take_evidence r).1
  after clock Call.take_finalized r = (Sync.take_finalized r).1
  after clock Call.advance_after_finalization r = (Sync.advance_after_finalization clock r).1
  after clock (Call.replace_bootstrap_validators validators) r =
      (Sync.replace_bootstrap_validators clock validators r).1
  after clock (Call.import_certificate_history cs) r =
      (Sync.import_certificate_history crates cs r).1
  after clock (Call.apply_sync_certificates cs) r =
      (Sync.apply_sync_certificates crates clock cs r).1
  after clock (Call.apply_sync_batch blocks) r = (Sync.apply_sync_batch crates clock blocks r).1

  unfoldable pub run : List (Clock × Call) → ConsensusRuntime → ConsensusRuntime
  run [] r = r
  run ((clock, call) ∷ calls) r = run calls (after clock call r)
