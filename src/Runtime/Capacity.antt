-- ===== src/Runtime/Capacity.antt =====
-- How many votes a `ConsensusRuntime` of src/consensus_runtime.rs defers.
use aah_chain.Base.{ℕ, ◌+◌, ◌≤◌, List, [], ◌∷◌, ◌++◌, Bool, ◌≡◌, refl, arith, inl, inr, ◌∙◌}
use aah_chain.Base.Tests.{if◌then◌else◌, leb, Bool-cases}
use aah_chain.Base.Lists.{length, length-append, drop}
use aah_chain.Base.Outcome.{ok, Outcome-cases}
use aah_chain.Types.{Block}
use aah_chain.Crates.{Crates}
use aah_chain.Consensus.Messages.{ConsensusMessage}
use aah_chain.Consensus.Certificate.{FinalityCertificate}
use aah_chain.Runtime.{
  Clock, Signer, ConsensusRuntime, reset_deadline, set_event_schedule, receive_proposal,
  restart_phase_timeout,
}
use aah_chain.Runtime.Votes.{max_deferred_votes, defer_vote, timeout_if_due, take_evidence}
use aah_chain.Runtime.Sync.{
  import_loop, import_certificate_history, sync_block, sync_certificate, sync_certificates,
  apply_sync_certificates, sync_batch, apply_sync_batch, start_height, take_finalized,
  advance_after_finalization, replace_bootstrap_validators,
}
use aah_chain.Runtime.Machine.{Call, after, run}
use aah_chain.Runtime.Deferred.{receive_vote-deferred, replay_returns}

length-drop_one : {A : Type 0} (xs : List A) → 1 ≤ length xs → length (drop 1 xs) + 1 ≡ length xs
length-drop_one [] h = ground (arith, h)
length-drop_one (x ∷ xs) h = ground arith

module _ (crates : Crates) (clock : Clock) where
  -- The votes that are deferred fit.
  abbrev IsWithin : ConsensusRuntime → Type 0
  IsWithin r = length r.deferred_votes ≤ max_deferred_votes

  defer_vote-IsWithin :
      (vote : ConsensusMessage) (r : ConsensusRuntime) → IsWithin r → IsWithin (defer_vote vote r)
  unfolding defer_vote
  defer_vote-IsWithin vote r h =
      elim (Bool-cases (leb max_deferred_votes (length r.deferred_votes))) [
        | inl full ↦ ground (
          arith,
          h,
          full,
          length-drop_one r.deferred_votes (ground (arith, full)),
          length-append (drop 1 r.deferred_votes) (vote ∷ []),
        )
        | inr room ↦ ground (arith, h, room, length-append r.deferred_votes (vote ∷ []))
      ]

  sync_certificate-deferred :
      (c : FinalityCertificate) (r : ConsensusRuntime) {result : Bool × ConsensusRuntime}
      → sync_certificate crates clock c r ≡ ok result
      → result.1.deferred_votes ≡ r.deferred_votes
  unfolding sync_certificate sync_block
  sync_certificate-deferred c r h = ground (arith, h)

  sync_certificates-deferred :
      (cs : List FinalityCertificate) (applied : ℕ) (r : ConsensusRuntime)
      → (sync_certificates crates clock cs applied r).1.deferred_votes ≡ r.deferred_votes
  unfolding sync_certificates
  sync_certificates-deferred [] applied r = refl
  sync_certificates-deferred (c ∷ cs) applied r =
      elim (Outcome-cases (sync_certificate crates clock c r)) [
        | inr (e, f) ↦ rw (f, sync_certificates) refl
        | inl (result, f) ↦
            rw (f, sync_certificates)
              (sync_certificates-deferred cs (if result.0 then applied + 1 else applied) result.1
                ∙ sync_certificate-deferred c r f)
      ]

  start_height-deferred :
      (r : ConsensusRuntime) → (start_height clock r).1.deferred_votes ≡ r.deferred_votes
  unfolding start_height reset_deadline
  start_height-deferred r = ground arith

  sync_block-deferred :
      (block : Block) (r : ConsensusRuntime) {after : ConsensusRuntime}
      → sync_block crates clock block r ≡ ok after
      → after.deferred_votes ≡ r.deferred_votes
  unfolding sync_block
  sync_block-deferred block r h = ground (arith, h)

  sync_batch-deferred :
      (blocks : List Block) (applied : ℕ) (r : ConsensusRuntime)
      → (sync_batch crates clock blocks applied r).1.deferred_votes ≡ r.deferred_votes
  unfolding sync_batch
  sync_batch-deferred [] applied r = refl
  sync_batch-deferred (block ∷ blocks) applied r =
      let skipped = sync_batch-deferred blocks applied r in
      elim (Outcome-cases (sync_block crates clock block r)) [
        | inr (e, f) ↦ ground (arith, f, skipped)
        | inl (r', f) ↦ ground (
          arith,
          f,
          skipped,
          sync_batch-deferred blocks (applied + 1) r' ∙ sync_block-deferred block r f,
        )
      ]

  import_loop-deferred :
      (cs : List FinalityCertificate) (imported : ℕ) (r : ConsensusRuntime)
      → (import_loop crates cs imported r).1.deferred_votes ≡ r.deferred_votes
  unfolding import_loop
  import_loop-deferred [] imported r = refl
  import_loop-deferred (c ∷ cs) imported r = ground (
    arith,
    import_loop-deferred cs imported r,
    import_loop-deferred cs (imported + 1) (record r { finalized = r.finalized ++ c ∷ [] }),
  )

  after-IsWithin :
      (signer : Signer) (call : Call) (r : ConsensusRuntime)
      → IsWithin r
      → IsWithin (after crates signer clock call r)
  unfolding after
  after-IsWithin signer (Call.set_event_schedule schedule) r h =
      unfold set_event_schedule in ground (arith, h)
  after-IsWithin signer (Call.receive_proposal p) r h =
      unfold receive_proposal reset_deadline in ground (arith, h)
  after-IsWithin signer (Call.receive_vote vote) r h =
      ground (arith, h, receive_vote-deferred crates signer clock vote r)
  after-IsWithin signer (Call.defer_vote vote) r h = defer_vote-IsWithin vote r h
  after-IsWithin signer Call.replay_deferred_votes r h =
      let (step, f, l) = replay_returns crates signer clock r in
      rw (f, after) (ground (arith, h, l))
  after-IsWithin signer Call.timeout_if_due r h = unfold timeout_if_due in ground (arith, h)
  after-IsWithin signer Call.restart_phase_timeout r h = unfold restart_phase_timeout in h
  after-IsWithin signer Call.take_evidence r h = unfold take_evidence in h
  after-IsWithin signer Call.take_finalized r h = unfold take_finalized in h
  after-IsWithin signer Call.advance_after_finalization r h =
      unfold advance_after_finalization in ground (arith, h, start_height-deferred r)
  after-IsWithin signer (Call.replace_bootstrap_validators validators) r h =
      unfold replace_bootstrap_validators reset_deadline in ground (arith, h)
  after-IsWithin signer (Call.import_certificate_history cs) r h =
      unfold import_certificate_history in ground (arith, h, import_loop-deferred cs 0 r)
  after-IsWithin signer (Call.apply_sync_certificates cs) r h =
      unfold apply_sync_certificates in
      ground (
        arith,
        h,
        sync_certificates-deferred cs 0 r,
        start_height-deferred (sync_certificates crates clock cs 0 r).1,
      )
  after-IsWithin signer (Call.apply_sync_batch blocks) r h =
      unfold apply_sync_batch in ground (arith, h, sync_batch-deferred blocks 0 r)

-- A runtime that holds at most 1024 deferred votes holds at most 1024 of them after any sequence of
-- calls.
pub deferred_votes_stay_bounded :
    (crates : Crates) (signer : Signer) (calls : List (Clock × Call)) (r : ConsensusRuntime)
    → length r.deferred_votes ≤ 1024
    → length (run crates signer calls r).deferred_votes ≤ 1024
unfolding run
deferred_votes_stay_bounded crates signer [] r h = h
deferred_votes_stay_bounded crates signer ((clock, call) ∷ calls) r h =
    deferred_votes_stay_bounded crates signer calls (after crates signer clock call r)
      (after-IsWithin crates clock signer call r h)
