-- ===== src/Consensus/Bft/Lock.antt =====
-- The lock of `BftConsensus`: once set it holds for the whole height, and no proposal of another
-- block passes it. The `valid_round` way out of `handle_proposal` is never taken.
use mathlib.Core.Bool.{false≢true}
use aah_chain.Base.{
  ℕ, ◌≤◌, String, List, [], ◌∷◌, true, false, none, some, ◌≡◌, ◌≢◌, refl, arith, inl, inr, ◌⊎◌, ap,
  sym, ◌∙◌,
}
use aah_chain.Base.Tests.{Bool-cases}
use aah_chain.Base.Keys.{◌==◌, string_eq, nat_eq, option_beq_iff}
use aah_chain.Base.Sets.{All}
use aah_chain.Base.Outcome.{ok, is_ok}
use aah_chain.Crates.{Crates}
use aah_chain.Consensus.Messages.{
  ConsensusPhase, VoteType, ConsensusMessage, DoubleVoteEvidence, SignedProposal, Validator,
}
use aah_chain.Consensus.Bft.{
  BftConsensus, new, begin_round, is_past, open_proposal, remember_vote, noted_evidence, add_vote,
  on_quorum, lock_block, finalize_block, unlock_allowed, is_locked_out, handle_proposal, propose,
  take_evidence,
}
use aah_chain.Consensus.Bft.Machine.{Call, after, run}
use aah_chain.Consensus.Bft.Rule.{IsKept, handle-keeps, start_round-keeps, on_timeout-keeps}
use aah_chain.Consensus.Bft.Invariant.{
  IsCoherent, run-IsCoherent, IsCoherent-IsKept, open_proposal-IsCoherent, evidence-IsCoherent,
}

-- The valid value is the locked value, so a proposal of another block has no proof to unlock.
unlock_allowed-locked :
    (p : SignedProposal) (s : BftConsensus) (value : String)
    → IsCoherent s
    → s.locked_value ≡ some value
    → value ≢ p.block.hash
    → unlock_allowed p s ≡ false
unfolding unlock_allowed
unlock_allowed-locked p s value h e ne =
    ground (arith, h.same_value, e, ne, option_beq_iff s.valid_value (some p.block.hash))

is_locked_out-locked :
    (p : SignedProposal) (s : BftConsensus) (value : String)
    → IsCoherent s
    → s.locked_value ≡ some value
    → value ≢ p.block.hash
    → is_locked_out p s ≡ true
unfolding is_locked_out
is_locked_out-locked p s value h e ne =
    ground
      (arith, e, ne, unlock_allowed-locked p s value h e ne, string_eq.beq_iff value p.block.hash)

module _ (crates : Crates) where
  -- After any sequence of calls from a new state that is then locked on a block, a proposal of
  -- another block is refused whatever valid round it names, and changes nothing.
  pub locked_out_proposal_is_refused :
      (vs : List Validator) {s : BftConsensus} (cs : List Call) (p : SignedProposal)
      (value : String)
      → new vs ≡ ok s
      → (run crates cs s).locked_value ≡ some value
      → value ≢ p.block.hash
      → (is_ok (handle_proposal crates p (run crates cs s)).0 ≡ false)
        × ((handle_proposal crates p (run crates cs s)).1 ≡ run crates cs s)
  unfolding handle_proposal
  locked_out_proposal_is_refused vs {s} cs p value e l ne =
      let s' = run crates cs s in
      let out = is_locked_out-locked p s' value (run-IsCoherent crates vs cs e) l ne in
      (ground (arith, out), ground (arith, out))

-- A call that the network or a clock makes: all but a proposal that skips `handle_proposal`.
abbrev pub IsMessage : Call → Type 0
IsMessage (Call.propose proposer hash) = ⊥
IsMessage _ = Unit

string-cases : (a b : String) → (a ≡ b) ⊎ (a ≢ b)
string-cases a b = elim (Bool-cases (a == b)) [
  | inl same ↦ inl ((string_eq.beq_iff a b).0 same)
  | inr other ↦ inr (λ p. cc ((string_eq.beq_iff a b).1 p))
]

-- From this height on, either the height has passed, or the lock is on this value and no other
-- value is proposed.
record IsLockedAt (height : ℕ) (value : String) (s : BftConsensus) : Type 0 where
  coherent : IsCoherent s
  reached : height ≤ s.height
  locked : s.height ≡ height → s.locked_value ≡ some value
  proposed : s.height ≡ height → (s.proposal ≡ none) ⊎ (s.proposal ≡ some value)

module _ (height : ℕ) (value : String) where
  begin_round-IsLockedAt :
      (crates : Crates) (h' r' : ℕ) (s : BftConsensus)
      → IsLockedAt height value s
      → is_past h' r' s ≡ false
      → IsLockedAt height value (begin_round h' r' s)
  begin_round-IsLockedAt crates h' r' s k later =
      let before : s.height ≤ h' = ground (arith, later) in
      record {
        coherent = (IsCoherent-IsKept crates).begin h' r' s k.coherent later;
        reached = unfold begin_round in omega (arith, k.reached);
        locked = unfold begin_round in λ e. ground (arith, k.locked, k.reached, before);
        proposed = unfold begin_round in λ e. inl refl;
      }

  remember_vote-IsLockedAt :
      (crates : Crates) (m : ConsensusMessage) (s : BftConsensus)
      → IsLockedAt height value s
      → IsCoherent (remember_vote m s)
      → IsLockedAt height value (remember_vote m s)
  unfolding remember_vote
  remember_vote-IsLockedAt crates m s k c = record {
    coherent = c;
    reached = k.reached;
    locked = k.locked;
    proposed = k.proposed;
  }

  evidence-IsLockedAt :
      (es : List DoubleVoteEvidence) (s : BftConsensus)
      → IsLockedAt height value s
      → IsLockedAt height value (record s { evidence = es })
  evidence-IsLockedAt es s k = record {
    coherent = evidence-IsCoherent es s k.coherent;
    reached = k.reached;
    locked = k.locked;
    proposed = k.proposed;
  }

  add_vote-IsLockedAt :
      (m : ConsensusMessage) (s : BftConsensus)
      → IsLockedAt height value s
      → IsCoherent (add_vote m s)
      → IsLockedAt height value (add_vote m s)
  unfolding add_vote
  add_vote-IsLockedAt m s k c = record {
    coherent = c;
    reached = k.reached;
    locked = k.locked;
    proposed = k.proposed;
  }

  on_quorum-IsLockedAt :
      (t : VoteType) (hash : String) (s : BftConsensus)
      → IsLockedAt height value s
      → IsCoherent (on_quorum t hash s)
      → s.proposal ≡ some hash
      → IsLockedAt height value (on_quorum t hash s)
  on_quorum-IsLockedAt VoteType.prevote hash s k c e = record {
    coherent = c;
    reached = unfold on_quorum lock_block in ground (arith, k.reached);
    locked = unfold on_quorum lock_block in λ q. ground (arith, k.locked, k.proposed, e, q);
    proposed = unfold on_quorum lock_block in λ q. ground (arith, k.proposed, e, q);
  }
  on_quorum-IsLockedAt VoteType.precommit hash s k c e = record {
    coherent = c;
    reached = unfold on_quorum finalize_block in k.reached;
    locked = unfold on_quorum finalize_block in k.locked;
    proposed = unfold on_quorum finalize_block in k.proposed;
  }

  open_proposal-IsLockedAt :
      (hash : String) (s : BftConsensus)
      → IsLockedAt height value s
      → (s.height ≡ height → hash ≡ value)
      → s.phase ≡ ConsensusPhase.propose
      → IsLockedAt height value (open_proposal hash s)
  open_proposal-IsLockedAt hash s k same e = record {
    coherent = open_proposal-IsCoherent hash s k.coherent e;
    reached = unfold open_proposal in k.reached;
    locked = unfold open_proposal in k.locked;
    proposed = unfold open_proposal in λ q. inr (ap some (same q));
  }

  -- A proposal that the lock lets pass at the height is of the locked block.
  free_is_same :
      (p : SignedProposal) (s : BftConsensus)
      → IsLockedAt height value s
      → is_locked_out p s ≡ false
      → s.height ≡ height
      → p.block.hash ≡ value
  free_is_same p s k free q = elim (string-cases value p.block.hash) [
    | inl same ↦ sym same
    | inr other ↦
        absurd
          (false≢true (sym free ∙ is_locked_out-locked p s value k.coherent (k.locked q) other))
  ]

  module _ (crates : Crates) where
    IsLockedAt-IsKept : IsKept crates (IsLockedAt height value)
    IsLockedAt-IsKept =
        let c = IsCoherent-IsKept crates in
        record {
          begin = begin_round-IsLockedAt crates;
          remember =
              λ m s k a e. remember_vote-IsLockedAt crates m s k (c.remember m s k.coherent a e);
          note = λ m s k _. evidence-IsLockedAt (noted_evidence crates m s) s k;
          add = λ m s k a e g. add_vote-IsLockedAt m s k (c.add m s k.coherent a e g);
          quorum = λ t hash s k e q f.
              on_quorum-IsLockedAt t hash s k (c.quorum t hash s k.coherent e q f) e;
          taken = λ s k. evidence-IsLockedAt [] s k;
        }

    propose-IsLockedAt :
        (proposer hash : String) (s : BftConsensus)
        → IsLockedAt height value s
        → (s.height ≡ height → hash ≡ value)
        → IsLockedAt height value (propose proposer hash s).1
    unfolding propose
    propose-IsLockedAt proposer hash s k same =
        ground (arith, k, open_proposal-IsLockedAt hash s k same)

    handle_proposal-IsLockedAt :
        (p : SignedProposal) (s : BftConsensus)
        → IsLockedAt height value s
        → IsLockedAt height value (handle_proposal crates p s).1
    handle_proposal-IsLockedAt p s k = elim (Bool-cases (is_locked_out p s)) [
      | inl out ↦ unfold handle_proposal in ground (arith, k, out)
      | inr free ↦
          unfold handle_proposal in
          ground (
            arith,
            k,
            free,
            propose-IsLockedAt p.proposer_id p.block.hash s k (free_is_same p s k free),
          )
    ]

    after-IsLockedAt :
        (c : Call) (s : BftConsensus)
        → IsMessage c
        → IsLockedAt height value s
        → IsLockedAt height value (after crates c s)
    after-IsLockedAt (Call.start_round h r) s i k =
        start_round-keeps crates (IsLockedAt height value) IsLockedAt-IsKept h r s k
    after-IsLockedAt (Call.propose proposer hash) s i k = elim i [ ]
    after-IsLockedAt (Call.handle_proposal p) s i k = handle_proposal-IsLockedAt p s k
    after-IsLockedAt (Call.handle m) s i k =
        handle-keeps crates (IsLockedAt height value) IsLockedAt-IsKept m s k
    after-IsLockedAt Call.on_timeout s i k =
        on_timeout-keeps crates (IsLockedAt height value) IsLockedAt-IsKept s k
    after-IsLockedAt Call.take_evidence s i k = unfold take_evidence in evidence-IsLockedAt [] s k

    run-IsLockedAt :
        (cs : List Call) (s : BftConsensus)
        → All IsMessage cs
        → IsLockedAt height value s
        → IsLockedAt height value (run crates cs s)
    unfolding run
    run-IsLockedAt [] s i k = k
    run-IsLockedAt (c ∷ cs) s i k =
        run-IsLockedAt cs (after crates c s) i.1 (after-IsLockedAt c s i.0 k)

precommit-IsLockedAt :
    (s : BftConsensus) (value : String)
    → IsCoherent s
    → s.phase ≡ ConsensusPhase.precommit
    → s.proposal ≡ some value
    → IsLockedAt s.height value s
precommit-IsLockedAt s value h e p = record {
  coherent = h;
  reached = omega arith;
  locked = λ _. ground (arith, h.phase, e, p);
  proposed = λ _. inr p;
}

module _ (crates : Crates) where
  -- From a state that any sequence of calls has brought into the precommit phase of a block,
  -- whatever messages, timeouts and round starts follow, while the height is the same the lock is
  -- on that block.
  pub lock_is_kept :
      (vs : List Validator) {s : BftConsensus} (cs ds : List Call) (value : String)
      → new vs ≡ ok s
      → (run crates cs s).phase ≡ ConsensusPhase.precommit
      → (run crates cs s).proposal ≡ some value
      → All IsMessage ds
      → (run crates ds (run crates cs s)).height ≡ (run crates cs s).height
      → (run crates ds (run crates cs s)).locked_value ≡ some value
  lock_is_kept vs {s} cs ds value e ph pr i same =
      let s' = run crates cs s in
      (run-IsLockedAt s'.height value crates ds s' i
          (precommit-IsLockedAt s' value (run-IsCoherent crates vs cs e) ph pr)).locked
        same
