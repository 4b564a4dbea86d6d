-- ===== src/Consensus/Bft/Conviction.antt =====
-- What `handle` does with a second vote for another block.
use aah_chain.Base.{
  String, List, [], ◌∷◌, ◌++◌, Bool, true, none, some, ◌≡◌, ◌≢◌, refl, arith, inl, inr, ap, sym,
  subst, ◌∙◌,
}
use aah_chain.Base.Tests.{is_some, Bool-cases, Option-cases}
use aah_chain.Base.Keys.{string_eq, pair_eq, nat_eq}
use aah_chain.Base.Lists.{any}
use aah_chain.Base.Maps.{get}
use aah_chain.Base.Outcome.{ok, err}
use aah_chain.Crates.{Crates}
use aah_chain.Errors.{double_vote}
use aah_chain.Consensus.Messages.{
  ConsensusMessage, DoubleVoteEvidence, Validator, verify_vote, verify_evidence, new_evidence,
  same_evidence_id, vote_type_eq, vote_type_beq_iff,
}
use aah_chain.Consensus.Bft.{
  BftConsensus, Step, HistoryKey, history_key, new, noted_evidence, handle, record_vote,
}
use aah_chain.Consensus.Bft.Machine.{Call, run}
use aah_chain.Consensus.Bft.Rule.{IsAdmitted}
use aah_chain.Consensus.Bft.Evidence.{
  IsRecorded, run-IsRecorded, noted_evidence-some, add_evidence-ok,
}

module _ (crates : Crates) where
  -- two votes under one key for different blocks are a conflict
  conflict_verifies :
      (first second : ConsensusMessage)
      → history_key first ≡ history_key second
      → first.block_hash ≢ second.block_hash
      → verify_vote crates first ≡ ok tt
      → verify_vote crates second ≡ ok tt
      → new_evidence crates first second ≡ ok (record { first = first; second = second })
  unfolding new_evidence verify_evidence
  conflict_verifies first second k ne v w =
      rw (v, w)
        (ground (
          arith,
          k,
          vote_type_beq_iff first.vote_type second.vote_type,
          string_eq.beq_iff first.validator_id second.validator_id,
          string_eq.beq_iff first.block_hash second.block_hash,
        ))

  -- does the evidence convict the voter of this vote, at its height, round and type
  abbrev pub convicts : ConsensusMessage → DoubleVoteEvidence → Bool
  convicts m e = same_evidence_id e (record { first = m; second = m })

  any-append_last :
      (p : DoubleVoteEvidence → Bool) (es : List DoubleVoteEvidence) (e : DoubleVoteEvidence)
      → p e ≡ true
      → any p (es ++ e ∷ []) ≡ true
  any-append_last p [] e h = rw h refl
  any-append_last p (x ∷ es) e h = ground (arith, any-append_last p es e h)

  -- an id that is known to the evidence of a conflict is that of its first vote
  any-same :
      (p q : DoubleVoteEvidence → Bool) (es : List DoubleVoteEvidence)
      → ((e : DoubleVoteEvidence) → p e ≡ q e)
      → any p es ≡ any q es
  any-same p q [] h = refl
  any-same p q (e ∷ es) h = ground (arith, h e, any-same p q es h)

  convicts-first :
      (first m : ConsensusMessage) (e : DoubleVoteEvidence)
      → history_key first ≡ history_key m
      → same_evidence_id e (record { first = first; second = m }) ≡ convicts m e
  convicts-first first m e k = cc (
    k,
    ap (λ (x : HistoryKey). x.0) k,
    ap (λ (x : HistoryKey). x.1.0) k,
    ap (λ (x : HistoryKey). x.1.1.0) k,
    ap (λ (x : HistoryKey). x.1.1.1) k,
  )

  convicts-found :
      (first m : ConsensusMessage)
      → history_key first ≡ history_key m
      → convicts m (record { first = first; second = m }) ≡ true
  convicts-found first m k = ground (
    arith,
    k,
    string_eq.beq_iff first.validator_id m.validator_id,
    vote_type_beq_iff first.vote_type m.vote_type,
  )

  noted_evidence-convicts :
      (m first : ConsensusMessage) (s : BftConsensus)
      → IsRecorded crates s
      → get (history_key m) s.vote_messages ≡ some first
      → first.block_hash ≢ m.block_hash
      → verify_vote crates m ≡ ok tt
      → any (convicts m) (noted_evidence crates m s) ≡ true
  noted_evidence-convicts m first s h e ne v =
      let (k, verified, _) = h.kept (history_key m) first e in
      let found : DoubleVoteEvidence = record { first = first; second = m } in
      let known = any (λ x. same_evidence_id x found) s.evidence in
      let same =
        any-same (λ x. same_evidence_id x found) (convicts m) s.evidence
          (λ x. convicts-first first m x k) in
      subst (λ es. any (convicts m) es ≡ true)
        (sym (
          noted_evidence-some crates m first s e
          ∙ add_evidence-ok crates first m s.evidence found
              (conflict_verifies first m k ne verified v)))
        (elim (Bool-cases known) [
          | inl old ↦ rw old (sym same ∙ old)
          | inr new' ↦
              rw new' (any-append_last (convicts m) s.evidence found (convicts-found first m k))
        ])

  lost_message :
      (m : ConsensusMessage) (s : BftConsensus) (hash : String)
      → IsRecorded crates s
      → get (history_key m) s.vote_history ≡ some hash
      → get (history_key m) s.vote_messages ≡ none
      → ⊥
  lost_message m s hash h known gone = cc (h.recorded (history_key m) hash known, ap is_some gone)

  handle-admitted :
      (m : ConsensusMessage) (s : BftConsensus)
      → IsAdmitted crates m s
      → handle crates m s ≡ record_vote crates m s
  unfolding handle
  handle-admitted m s a =
      ground (arith, a.at_height, a.at_round, a.registered, a.verified, a.in_phase)

  handle-double_vote :
      (m : ConsensusMessage) (s : BftConsensus) (hash : String)
      → IsAdmitted crates m s
      → get (history_key m) s.vote_history ≡ some hash
      → hash ≢ m.block_hash
      → handle crates m s ≡ (err double_vote, record s { evidence = noted_evidence crates m s })
  unfolding record_vote
  handle-double_vote m s hash a known ne =
      handle-admitted m s a
      ∙ rw (known, record_vote) (ground (arith, ne, string_eq.beq_iff hash m.block_hash))

  -- After any sequence of calls from a new state, a vote that the guards of `handle` admit, of a
  -- voter whose vote for another block is in the history under the same height, round and type, is
  -- refused as a double vote; the counted votes, the phase, the lock and the final block stay, and
  -- the evidence then holds a conflict of that voter at that height, round and type.
  pub double_vote_is_convicted :
      (vs : List Validator) {s : BftConsensus} (cs : List Call) (m : ConsensusMessage)
      (hash : String)
      → new vs ≡ ok s
      → let s' = run crates cs s in
        IsAdmitted crates m s'
        → get (history_key m) s'.vote_history ≡ some hash
        → hash ≢ m.block_hash
        → ((handle crates m s').0 ≡ err double_vote)
          × ((handle crates m s').1 ≡ record s' { evidence = noted_evidence crates m s' })
          × (any (convicts m) (noted_evidence crates m s') ≡ true)
  double_vote_is_convicted vs {s} cs m hash e a known ne =
      let s' = run crates cs s in
      let h = run-IsRecorded crates vs cs e in
      elim (Option-cases (get (history_key m) s'.vote_messages)) [
        | inl gone ↦ absurd (lost_message m s' hash h known gone)
        | inr (first, g) ↦
            let same_hash = (h.kept (history_key m) first g).2 in
            (
              ap (λ (r : Step (Unit {0})). r.0) (handle-double_vote m s' hash a known ne),
              ap (λ (r : Step (Unit {0})). r.1) (handle-double_vote m s' hash a known ne),
              noted_evidence-convicts m first s' h g (λ p. ne (cc (known, same_hash, p)))
                  a.verified,
            )
      ]
