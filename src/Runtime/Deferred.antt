-- ===== src/Runtime/Deferred.antt =====
-- The votes that src/consensus_runtime.rs defers: how many there are, and that replaying them ends.
use aah_chain.Base.{
  ℕ, zero, suc, ◌+◌, ◌≤◌, ◌<◌, List, [], ◌∷◌, ◌++◌, true, false, Option, none, some, ◌≡◌, refl,
  arith, inl, inr, ◌⊎◌, ◌∙◌,
}
use aah_chain.Base.Tests.{if◌then◌else◌, Bool-cases}
use aah_chain.Base.Lists.{length, length-append}
use aah_chain.Base.Outcome.{ok, err, Outcome-cases}
use aah_chain.Crates.{Crates}
use aah_chain.Consensus.Messages.{ConsensusMessage}
use aah_chain.Runtime.{Clock, Signer, ConsensusRuntime, Step, reset_deadline}
use aah_chain.Runtime.Votes.{
  note_precommit, note_phase, commit_block, commit_pending, after_vote, receive_vote, Replay,
  replay_turn, replay_loop, replay_deferred_votes, is_deferable_vote_error,
}

module _ (crates : Crates) (signer : Signer) (clock : Clock) where
  pub receive_vote-deferred :
      (vote : ConsensusMessage) (r : ConsensusRuntime)
      → (receive_vote crates signer clock vote r).1.deferred_votes ≡ r.deferred_votes
  unfolding receive_vote note_phase note_precommit reset_deadline after_vote commit_pending
      commit_block
  receive_vote-deferred vote r = ground arith

  -- A turn keeps no more votes than it took, and fewer where it made progress.
  abbrev pub IsShorter : List ConsensusMessage → Replay → Replay → Type 0
  IsShorter votes before after =
      (length after.remaining ≤ length before.remaining + length votes)
      × (after.progressed ≡ true
          → (before.progressed ≡ true)
            ⊎ (length after.remaining < length before.remaining + length votes))

  IsShorter-step :
      (vote : ConsensusMessage) (votes : List ConsensusMessage) (t t' after : Replay)
      → length t'.remaining ≤ length t.remaining + 1
      → (t'.progressed ≡ true → (t.progressed ≡ true) ⊎ (length t'.remaining ≤ length t.remaining))
      → IsShorter votes t' after
      → IsShorter (vote ∷ votes) t after
  IsShorter-step vote votes t t' after l p (shorter, progress) = (
    ground (arith, l, shorter),
    λ q. elim (progress q) [
      | inr less ↦ inr (ground (arith, l, less))
      | inl q' ↦ elim (p q') [
        | inl before ↦ inl before
        | inr same ↦ inr (ground (arith, same, shorter))
      ]
    ],
  )

  replay_turn-IsShorter :
      (votes : List ConsensusMessage) (t : Replay) (r : ConsensusRuntime) {after : Replay}
      → (replay_turn crates signer clock votes t r).0 ≡ ok after
      → IsShorter votes t after
  unfolding replay_turn
  replay_turn-IsShorter [] t r {after} h =
      let same : t ≡ after = cc h in rw (← same) (ground arith, λ p. inl p)
  replay_turn-IsShorter (vote ∷ votes) t r {after} h =
      let step = receive_vote crates signer clock vote r in
      elim (Outcome-cases step.0) [
        | inl (none, f) ↦
            let t' = record t { progressed = true } in
            IsShorter-step vote votes t t' after (ground arith) (λ _. inr (ground arith))
              (replay_turn-IsShorter votes t' step.1 (rw (f, replay_turn) at h))
        | inl (some precommit, f) ↦
            let own = receive_vote crates signer clock precommit step.1 in
            let t' = record t { outbound = t.outbound ++ precommit ∷ []; progressed = true } in
            elim (Outcome-cases own.0) [
              | inr (e, g) ↦ cc (rw (f, g, replay_turn) at h)
              | inl (_, g) ↦
                  IsShorter-step vote votes t t' after (ground arith) (λ _. inr (ground arith))
                    (replay_turn-IsShorter votes t' own.1 (rw (f, g, replay_turn) at h))
            ]
        | inr (e, f) ↦
            let t' = record t {
              remaining =
                  if is_deferable_vote_error e then t.remaining ++ vote ∷ [] else t.remaining;
            } in
            IsShorter-step vote votes t t' after
              (ground (arith, length-append t.remaining (vote ∷ []))) (λ q. inl q)
              (replay_turn-IsShorter votes t' step.1 (rw (f, replay_turn) at h))
      ]

  replay_turn-deferred :
      (votes : List ConsensusMessage) (t : Replay) (r : ConsensusRuntime)
      → (replay_turn crates signer clock votes t r).1.deferred_votes ≡ r.deferred_votes
  unfolding replay_turn
  replay_turn-deferred [] t r = refl
  replay_turn-deferred (vote ∷ votes) t r =
      let step = receive_vote crates signer clock vote r in
      let kept = receive_vote-deferred vote r in
      elim (Outcome-cases step.0) [
        | inl (none, f) ↦
            rw (f, replay_turn)
              (replay_turn-deferred votes (record t { progressed = true }) step.1 ∙ kept)
        | inl (some precommit, f) ↦
            let own = receive_vote crates signer clock precommit step.1 in
            let kept' = receive_vote-deferred precommit step.1 in
            elim (Outcome-cases own.0) [
              | inr (e, g) ↦ rw (f, g, replay_turn) (kept' ∙ kept)
              | inl (_, g) ↦
                  rw (f, g, replay_turn)
                    (replay_turn-deferred votes
                        (record t { outbound = t.outbound ++ precommit ∷ []; progressed = true })
                        own.1
                      ∙ kept'
                      ∙ kept)
            ]
        | inr (e, f) ↦
            rw (f, replay_turn)
              (replay_turn-deferred votes
                  (record t {
                    remaining =
                        if is_deferable_vote_error e then t.remaining ++ vote ∷ [] else t.remaining;
                  })
                  step.1
                ∙ kept)
      ]

  -- The loop returns, with at most so many deferred votes.
  abbrev pub Returns : Option (Step (List ConsensusMessage)) → ℕ → Type 0
  Returns result n =
      (step : Step (List ConsensusMessage)) × (result ≡ some step)
      × (length step.1.deferred_votes ≤ n)

  replay_loop-Returns :
      (fuel : ℕ) (outbound : List ConsensusMessage) (r : ConsensusRuntime)
      → length r.deferred_votes < fuel
      → Returns (replay_loop crates signer clock fuel outbound r) (length r.deferred_votes)
  unfolding replay_loop
  replay_loop-Returns zero outbound r h = ground (arith, h)
  replay_loop-Returns (suc fuel) outbound r h =
      let start : Replay = record { outbound = outbound; remaining = []; progressed = false } in
      let turn =
        replay_turn crates signer clock r.deferred_votes start (record r { deferred_votes = [] }) in
      elim (Outcome-cases turn.0) [
        | inr (e, f) ↦ (
          (err e, turn.1),
          rw (f, replay_loop) refl,
          ground (
            arith,
            replay_turn-deferred r.deferred_votes start (record r { deferred_votes = [] }),
          ),
        )
        | inl (t, f) ↦
            let r2 = record turn.1 { deferred_votes = t.remaining } in
            let (shorter, progress) =
              replay_turn-IsShorter r.deferred_votes start (record r { deferred_votes = [] }) f in
            elim (Bool-cases t.progressed) [
              | inr still ↦
                  ((ok t.outbound, r2), rw (f, still, replay_loop) refl, ground (arith, shorter))
              | inl moved ↦ elim (progress moved) [
                | inl never ↦ cc never
                | inr less ↦
                    let (step, e, l) =
                      replay_loop-Returns fuel t.outbound r2 (ground (arith, less, h)) in
                    (step, rw (f, moved, replay_loop) e, ground (arith, l, less))
              ]
            ]
      ]

  -- Replaying the deferred votes ends: as many turns as there are votes, and one more, are enough for
  -- the loop to return. It leaves no more deferred votes than it found.
  pub replay_returns :
      (r : ConsensusRuntime)
      → (step : Step (List ConsensusMessage)) × (replay_deferred_votes crates signer clock r
          ≡ some step)
        × (length step.1.deferred_votes ≤ length r.deferred_votes)
  unfolding replay_deferred_votes
  replay_returns r = replay_loop-Returns (suc (length r.deferred_votes)) [] r (ground arith)
