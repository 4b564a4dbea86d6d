-- ===== src/Runtime/Rule/Calls.antt =====
-- The rule for every call of a `ConsensusRuntime`, and for sequences of calls.
use aah_chain.Base.{suc, List, [], ◌∷◌, arith, inl, inr}
use aah_chain.Base.Tests.{Option-cases}
use aah_chain.Base.Keys.{string_eq, nat_eq, option_eq}
use aah_chain.Base.Lists.{length}
use aah_chain.Crates.{Crates}
use aah_chain.Chain.{Blockchain}
use aah_chain.Consensus.Certificate.{FinalityCertificate}
use aah_chain.Runtime.{
  Clock, Signer, ConsensusRuntime, reset_deadline, set_event_schedule, restart_phase_timeout,
}
use aah_chain.Runtime.Machine.{Call, after, run}
use aah_chain.Runtime.Votes.{replay_deferred_votes, defer_vote, timeout_if_due, take_evidence}
use aah_chain.Runtime.Sync.{
  apply_sync_batch, take_finalized, advance_after_finalization, replace_bootstrap_validators,
}
use aah_chain.Runtime.Rule.{IsKept, Holds}
use aah_chain.Runtime.Rule.Votes.{receive_vote-keeps, receive_proposal-keeps, replay_loop-keeps}
use aah_chain.Runtime.Rule.Sync.{
  start_height-keeps, apply_sync_certificates-keeps, sync_batch-keeps,
  import_certificate_history-keeps,
}

module _ (crates : Crates) (Q : Blockchain → List FinalityCertificate → Type 0)
    (keeps : IsKept crates Q) where
  module _ (signer : Signer) where
    pub after-keeps :
        (clock : Clock) (call : Call) (r : ConsensusRuntime)
        → Holds crates Q r
        → Holds crates Q (after crates signer clock call r)
    unfolding after
    after-keeps clock (Call.set_event_schedule schedule) r h =
        unfold set_event_schedule in ground (arith, h)
    after-keeps clock (Call.receive_proposal p) r h =
        receive_proposal-keeps crates Q keeps signer clock p r h
    after-keeps clock (Call.receive_vote vote) r h =
        receive_vote-keeps crates Q keeps signer clock vote r h
    after-keeps clock (Call.defer_vote vote) r h = unfold defer_vote in ground (arith, h)
    after-keeps clock Call.replay_deferred_votes r h =
        elim (Option-cases (replay_deferred_votes crates signer clock r)) [
          | inl out ↦ rw (out, after) h
          | inr (result, f) ↦
              rw (f, after)
                (replay_loop-keeps crates Q keeps signer clock (suc (length r.deferred_votes)) [] r
                  result h (unfold replay_deferred_votes in f))
        ]
    after-keeps clock Call.timeout_if_due r h = unfold timeout_if_due in ground (arith, h)
    after-keeps clock Call.restart_phase_timeout r h = unfold restart_phase_timeout in h
    after-keeps clock Call.take_evidence r h = unfold take_evidence in h
    after-keeps clock Call.take_finalized r h = unfold take_finalized in h
    after-keeps clock Call.advance_after_finalization r h =
        unfold advance_after_finalization in
        ground (arith, h, start_height-keeps crates Q keeps clock r h)
    after-keeps clock (Call.replace_bootstrap_validators validators) r h =
        unfold replace_bootstrap_validators reset_deadline in ground (arith, h)
    after-keeps clock (Call.import_certificate_history cs) r h =
        import_certificate_history-keeps crates Q keeps cs r h
    after-keeps clock (Call.apply_sync_certificates cs) r h =
        apply_sync_certificates-keeps crates Q keeps clock cs r h
    after-keeps clock (Call.apply_sync_batch blocks) r h =
        unfold apply_sync_batch in sync_batch-keeps crates Q keeps clock blocks 0 r h

    -- What the writes keep holds after any sequence of calls.
    pub run-keeps :
        (calls : List (Clock × Call)) (r : ConsensusRuntime)
        → Holds crates Q r
        → Holds crates Q (run crates signer calls r)
    unfolding run
    run-keeps [] r h = h
    run-keeps ((clock, call) ∷ calls) r h =
        run-keeps calls (after crates signer clock call r) (after-keeps clock call r h)
