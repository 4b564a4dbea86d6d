-- ===== src/Consensus/Bft/Rule.antt =====
-- One rule for what every method keeps: it is enough that its parts keep it, each where the code
-- makes it.
use aah_chain.Base.{
  ℕ, ◌+◌, String, List, [], ◌∷◌, true, false, none, some, ◌≡◌, ap, refl, arith, inl, inr,
}
use aah_chain.Base.Tests.{Option-cases, Bool-cases}
use aah_chain.Base.Keys.{◌==◌, option_beq_iff, string_eq, pair_eq, nat_eq}
use aah_chain.Base.Maps.{get, contains_key, get-insert_self}
use aah_chain.Base.Outcome.{ok}
use aah_chain.Crates.{Crates}
use aah_chain.Consensus.Messages.{
  ConsensusPhase, VoteType, ConsensusMessage, SignedProposal, phase_beq, verify_vote, vote_type_eq,
}
use aah_chain.Consensus.Bft.{
  BftConsensus, accepts, history_key, add_vote, on_quorum, count_vote, remember_vote, note_evidence,
  record_vote, handle, has_quorum, begin_round, open_proposal, is_past, start_round, propose,
  handle_proposal, on_timeout, take_evidence,
}
use aah_chain.Consensus.Bft.Machine.{Call, after, run}

module _ (crates : Crates) (m : ConsensusMessage) where
  -- The guards of `handle` let the vote pass.
  pub record IsAdmitted (s : BftConsensus) : Type 0 where
    pub at_height : m.height ≡ s.height
    pub at_round : m.round ≡ s.round
    pub registered : contains_key m.validator_id s.validators ≡ true
    pub verified : verify_vote crates m ≡ ok tt
    pub in_phase : accepts s.phase m.vote_type ≡ true

  remember_vote-IsAdmitted : (s : BftConsensus) → IsAdmitted s → IsAdmitted (remember_vote m s)
  unfolding remember_vote
  remember_vote-IsAdmitted s a = record {
    at_height = a.at_height;
    at_round = a.at_round;
    registered = a.registered;
    verified = a.verified;
    in_phase = a.in_phase;
  }

module _ (m : ConsensusMessage) where
  remembered :
      (s : BftConsensus) → get (history_key m) (remember_vote m s).vote_history ≡ some m.block_hash
  unfolding remember_vote
  remembered s = get-insert_self (history_key m) m.block_hash s.vote_history

  proposal-remember_vote : (s : BftConsensus) → (remember_vote m s).proposal ≡ s.proposal
  unfolding remember_vote
  proposal-remember_vote s = refl

  proposal-add_vote : (s : BftConsensus) → (add_vote m s).proposal ≡ s.proposal
  unfolding add_vote
  proposal-add_vote s = refl

-- What opening a proposal has to keep, which the rule asks for on its own.
abbrev pub IsOpenKept : (P : BftConsensus → Type 0) → Type 0
IsOpenKept P =
    (hash : String) (s : BftConsensus)
    → P s
    → s.phase ≡ ConsensusPhase.propose
    → P (open_proposal hash s)

-- What each other part that writes the state has to keep.
pub record IsKept (crates : Crates) (P : BftConsensus → Type 0) : Type 0 where
  pub begin :
      (height round : ℕ) (s : BftConsensus)
      → P s
      → is_past height round s ≡ false
      → P (begin_round height round s)
  pub remember :
      (m : ConsensusMessage) (s : BftConsensus)
      → P s
      → IsAdmitted crates m s
      → get (history_key m) s.vote_history ≡ none
      → P (remember_vote m s)
  pub note :
      (m : ConsensusMessage) (s : BftConsensus)
      → P s
      → IsAdmitted crates m s
      → P (note_evidence crates m s)
  pub add :
      (m : ConsensusMessage) (s : BftConsensus)
      → P s
      → IsAdmitted crates m s
      → s.proposal ≡ some m.block_hash
      → get (history_key m) s.vote_history ≡ some m.block_hash
      → P (add_vote m s)
  pub quorum :
      (t : VoteType) (hash : String) (s : BftConsensus)
      → P s
      → s.proposal ≡ some hash
      → has_quorum (t, hash) s ≡ true
      → phase_beq s.phase ConsensusPhase.finalized ≡ false
      → P (on_quorum t hash s)
  pub taken : (s : BftConsensus) → P s → P (record s { evidence = [] })

module _ (crates : Crates) (P : BftConsensus → Type 0) (kept : IsKept crates P) where
  count_vote-keeps :
      (m : ConsensusMessage) (s : BftConsensus)
      → P s
      → IsAdmitted crates m s
      → get (history_key m) s.vote_history ≡ some m.block_hash
      → P (count_vote m s).1
  unfolding count_vote
  count_vote-keeps m s p a known = ground (
    arith,
    kept.add m s p a,
    kept.quorum m.vote_type m.block_hash (add_vote m s),
    proposal-add_vote m s,
    option_beq_iff s.proposal (some m.block_hash),
  )

  record_vote-keeps :
      (m : ConsensusMessage) (s : BftConsensus)
      → P s
      → IsAdmitted crates m s
      → P (record_vote crates m s).1
  unfolding record_vote
  record_vote-keeps m s p a = elim (Option-cases (get (history_key m) s.vote_history)) [
    | inl new ↦
        rw (new, record_vote)
          (count_vote-keeps m (remember_vote m s) (kept.remember m s p a new)
            (remember_vote-IsAdmitted crates m s a) (remembered m s))
    | inr (hash, known) ↦ elim (Bool-cases (hash == m.block_hash)) [
      | inl same ↦
          rw (known, record_vote, same)
            (count_vote-keeps m s p a
              (rw known (ap some ((string_eq.beq_iff hash m.block_hash).0 same))))
      | inr other ↦ rw (known, record_vote, other) (kept.note m s p a)
    ]
  ]

  pub handle-keeps : (m : ConsensusMessage) (s : BftConsensus) → P s → P (handle crates m s).1
  unfolding handle
  handle-keeps m s p = ground (arith, record_vote-keeps m s p)

  pub start_round-keeps :
      (height round : ℕ) (s : BftConsensus) → P s → P (start_round height round s).1
  unfolding start_round
  start_round-keeps height round s p = ground (arith, kept.begin height round s p)

  pub on_timeout-keeps : (s : BftConsensus) → P s → P (on_timeout s).1
  unfolding on_timeout
  on_timeout-keeps s p = ground (arith, start_round-keeps s.height (s.round + 1) s p)

  module _ (opened : IsOpenKept P) where
    pub propose-keeps :
        (proposer hash : String) (s : BftConsensus) → P s → P (propose proposer hash s).1
    unfolding propose
    propose-keeps proposer hash s p = ground (arith, opened hash s p)

    pub handle_proposal-keeps :
        (p : SignedProposal) (s : BftConsensus) → P s → P (handle_proposal crates p s).1
    unfolding handle_proposal
    handle_proposal-keeps q s p = ground (arith, propose-keeps q.proposer_id q.block.hash s p)

    pub after-keeps : (c : Call) (s : BftConsensus) → P s → P (after crates c s)
    unfolding take_evidence
    after-keeps (Call.start_round height round) s p = start_round-keeps height round s p
    after-keeps (Call.propose proposer hash) s p = propose-keeps proposer hash s p
    after-keeps (Call.handle_proposal q) s p = handle_proposal-keeps q s p
    after-keeps (Call.handle m) s p = handle-keeps m s p
    after-keeps Call.on_timeout s p = on_timeout-keeps s p
    after-keeps Call.take_evidence s p = kept.taken s p

    -- What the parts keep holds after any sequence of calls.
    pub run-keeps : (cs : List Call) (s : BftConsensus) → P s → P (run crates cs s)
    unfolding run
    run-keeps [] s p = p
    run-keeps (c ∷ cs) s p = run-keeps cs (after crates c s) (after-keeps c s p)
