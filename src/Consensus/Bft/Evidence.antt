-- ===== src/Consensus/Bft/Evidence.antt =====
-- The history of votes and the evidence of double votes that `BftConsensus` keeps.
use aah_chain.Base.{
  String, List, [], ◌∷◌, ◌++◌, Bool, true, false, none, some, ◌≡◌, refl, arith, inl, inr, sym,
  subst,
}
use aah_chain.Base.Tests.{if◌then◌else◌, is_some, Option-cases}
use aah_chain.Base.Keys.{string_eq, pair_eq, nat_eq, pair_beq_iff}
use aah_chain.Base.Lists.{any}
use aah_chain.Base.Maps.{get, get-insert}
use aah_chain.Base.Sets.{All, All-append}
use aah_chain.Base.Outcome.{ok, err, Outcome-cases}
use aah_chain.Crates.{Crates}
use aah_chain.Errors.{Error}
use aah_chain.Consensus.Messages.{
  VoteType, ConsensusMessage, DoubleVoteEvidence, Validator, verify_vote, verify_evidence,
  new_evidence, same_evidence_id, vote_type_eq,
}
use aah_chain.Consensus.Bft.{
  BftConsensus, HistoryKey, history_key, new, begin_round, open_proposal, remember_vote,
  add_evidence, noted_evidence, add_vote, on_quorum, lock_block, finalize_block,
}
use aah_chain.Consensus.Bft.Machine.{Call, run}
use aah_chain.Consensus.Bft.Rule.{IsOpenKept, IsKept, IsAdmitted, run-keeps}

module _ (crates : Crates) where
  pub record IsRecorded (s : BftConsensus) : Type 0 where
    -- a kept message is verified, and is the vote that the history has under its key
    pub kept :
        (key : HistoryKey) (m : ConsensusMessage)
        → get key s.vote_messages ≡ some m
        → (history_key m ≡ key)
          × (verify_vote crates m ≡ ok tt)
          × (get key s.vote_history ≡ some m.block_hash)
    -- every vote of the history has its message
    pub recorded :
        (key : HistoryKey) (hash : String)
        → get key s.vote_history ≡ some hash
        → is_some (get key s.vote_messages) ≡ true
    pub proven : All (λ e. verify_evidence crates e ≡ ok tt) s.evidence

  blank-IsRecorded :
      (s : BftConsensus)
      → s.vote_history ≡ []
      → s.vote_messages ≡ []
      → s.evidence ≡ []
      → IsRecorded s
  unfolding get
  blank-IsRecorded s h m e = record {
    kept = λ key v g. absurd (nothing (rw m at g));
    recorded = λ key v g. absurd (nothing (rw h at g));
    proven = rw e tt;
  }
    where
      nothing : {A : Type 0} {a : A} → none ≡ some a → ⊥
      nothing p = cc

  new-IsRecorded : (vs : List Validator) {s : BftConsensus} → new vs ≡ ok s → IsRecorded s
  unfolding new
  new-IsRecorded [] e = cc
  new-IsRecorded (v ∷ vs) e = blank-IsRecorded _ (ground arith) (ground arith) (ground arith)

  pub add_evidence-ok :
      (first second : ConsensusMessage) (es : List DoubleVoteEvidence) (e : DoubleVoteEvidence)
      → new_evidence crates first second ≡ ok e
      → add_evidence crates first second es
        ≡ (if any (λ known. same_evidence_id known e) es then es else es ++ e ∷ [])
  unfolding add_evidence
  add_evidence-ok first second es e p = rw (p, add_evidence) refl

  add_evidence-err :
      (first second : ConsensusMessage) (es : List DoubleVoteEvidence) (f : Error)
      → new_evidence crates first second ≡ err f
      → add_evidence crates first second es ≡ es
  unfolding add_evidence
  add_evidence-err first second es f p = rw (p, add_evidence) refl

  new_evidence-proven :
      (first second : ConsensusMessage) (e : DoubleVoteEvidence)
      → new_evidence crates first second ≡ ok e
      → verify_evidence crates e ≡ ok tt
  unfolding new_evidence
  new_evidence-proven first second e p = ground (arith, p)

  All-if :
      (P : DoubleVoteEvidence → Type 0) (b : Bool) (es : List DoubleVoteEvidence)
      (e : DoubleVoteEvidence)
      → P e
      → All P es
      → All P (if b then es else es ++ e ∷ [])
  All-if P true es e p h = h
  All-if P false es e p h = All-append P es (e ∷ []) h (p, tt)

  add_evidence-proven :
      (first second : ConsensusMessage) (es : List DoubleVoteEvidence)
      → All (λ e. verify_evidence crates e ≡ ok tt) es
      → All (λ e. verify_evidence crates e ≡ ok tt) (add_evidence crates first second es)
  add_evidence-proven first second es h =
      let P : DoubleVoteEvidence → Type 0 = λ e. verify_evidence crates e ≡ ok tt in
      elim (Outcome-cases (new_evidence crates first second)) [
        | inl (e, p) ↦ subst (All P) (sym (add_evidence-ok first second es e p)) (
            All-if P (any (λ known. same_evidence_id known e) es) es e
              (new_evidence-proven first second e p) h)
        | inr (f, p) ↦ subst (All P) (sym (add_evidence-err first second es f p)) h
      ]

  pub noted_evidence-some :
      (m first : ConsensusMessage) (s : BftConsensus)
      → get (history_key m) s.vote_messages ≡ some first
      → noted_evidence crates m s ≡ add_evidence crates first m s.evidence
  unfolding noted_evidence
  noted_evidence-some m first s e = rw (e, noted_evidence) refl

  noted_evidence-none :
      (m : ConsensusMessage) (s : BftConsensus)
      → get (history_key m) s.vote_messages ≡ none
      → noted_evidence crates m s ≡ s.evidence
  unfolding noted_evidence
  noted_evidence-none m s e = rw (e, noted_evidence) refl

  noted_evidence-proven :
      (m : ConsensusMessage) (s : BftConsensus)
      → All (λ e. verify_evidence crates e ≡ ok tt) s.evidence
      → All (λ e. verify_evidence crates e ≡ ok tt) (noted_evidence crates m s)
  noted_evidence-proven m s h =
      let P : DoubleVoteEvidence → Type 0 = λ e. verify_evidence crates e ≡ ok tt in
      elim (Option-cases (get (history_key m) s.vote_messages)) [
        | inl e ↦ subst (All P) (sym (noted_evidence-none m s e)) h
        | inr (first, e) ↦
            subst (All P) (sym (noted_evidence-some m first s e))
              (add_evidence-proven first m s.evidence h)
      ]

  module _ (s : BftConsensus) (h : IsRecorded s) where
    evidence-IsRecorded :
        (es : List DoubleVoteEvidence)
        → All (λ e. verify_evidence crates e ≡ ok tt) es
        → IsRecorded (record s { evidence = es })
    evidence-IsRecorded es p = record { kept = h.kept; recorded = h.recorded; proven = p }

    remember_vote-IsRecorded :
        (m : ConsensusMessage) → IsAdmitted crates m s → IsRecorded (remember_vote m s)
    unfolding remember_vote
    remember_vote-IsRecorded m a = record {
      kept = λ key v g. ground (
        arith,
        a.verified,
        g,
        get-insert (history_key m) key m s.vote_messages,
        get-insert (history_key m) key m.block_hash s.vote_history,
        pair_beq_iff (history_key m) key,
        h.kept key v,
      );
      recorded = λ key hash g. ground (
        arith,
        g,
        get-insert (history_key m) key m s.vote_messages,
        get-insert (history_key m) key m.block_hash s.vote_history,
        h.recorded key hash,
      );
      proven = h.proven;
    }

    same_history-IsRecorded :
        (s' : BftConsensus)
        → s'.vote_history ≡ s.vote_history
        → s'.vote_messages ≡ s.vote_messages
        → s'.evidence ≡ s.evidence
        → IsRecorded s'
    same_history-IsRecorded s' e f g = record {
      kept = λ key m k. rw e (h.kept key m (rw f at k));
      recorded = λ key hash k. rw f (h.recorded key hash (rw e at k));
      proven = rw g h.proven;
    }

    on_quorum-IsRecorded : (t : VoteType) (hash : String) → IsRecorded (on_quorum t hash s)
    unfolding on_quorum lock_block finalize_block
    on_quorum-IsRecorded t hash =
        same_history-IsRecorded (on_quorum t hash s) (ground arith) (ground arith) (ground arith)

  open_proposal-IsRecorded : IsOpenKept IsRecorded
  unfolding open_proposal
  open_proposal-IsRecorded hash s h _ = same_history-IsRecorded s h _ refl refl refl

  IsRecorded-IsKept : IsKept crates IsRecorded
  unfolding begin_round add_vote
  IsRecorded-IsKept = record {
    begin = λ height round s h _. same_history-IsRecorded s h _ refl refl refl;
    remember = λ m s h a _. remember_vote-IsRecorded s h m a;
    note = λ m s h _. evidence-IsRecorded s h _ (noted_evidence-proven m s h.proven);
    add = λ m s h _ _ _. same_history-IsRecorded s h _ refl refl refl;
    quorum = λ t hash s h _ _ _. on_quorum-IsRecorded s h t hash;
    taken = λ s h. evidence-IsRecorded s h [] tt;
  }

  pub run-IsRecorded :
      (vs : List Validator) {s : BftConsensus} (cs : List Call)
      → new vs ≡ ok s
      → IsRecorded (run crates cs s)
  run-IsRecorded vs {s} cs e =
      run-keeps crates IsRecorded IsRecorded-IsKept open_proposal-IsRecorded cs s
        (new-IsRecorded vs e)

  -- Every piece of evidence that is held after any sequence of calls verifies.
  pub evidence_verifies :
      (vs : List Validator) {s : BftConsensus} (cs : List Call)
      → new vs ≡ ok s
      → All (λ e. verify_evidence crates e ≡ ok tt) (run crates cs s).evidence
  evidence_verifies vs cs e = (run-IsRecorded vs cs e).proven
