-- ===== src/Consensus/Certificate/Agreement.antt =====
-- Agreement: two certificates for different blocks at one height and round hold two votes of one
-- validator that convict it of a double vote.
use aah_chain.Base.{
  ℕ, ◌*◌, ◌≤◌, ◌<◌, String, List, [], ◌∷◌, true, false, ◌≡◌, ◌≢◌, map, sym, ◌⊎◌, inl, inr, refl,
  arith,
}
use aah_chain.Base.Tests.{eqb, Bool-cases}
use aah_chain.Base.Keys.{◌==◌, string_eq}
use aah_chain.Base.Maps.{Map, insert, contains_key, collect, collect_into, get-insert}
use aah_chain.Base.Sets.{In, IsNodup, contains}
use aah_chain.Base.Words.{u128_max, wrap}
use aah_chain.Base.Outcome.{ok, >>=-eq-ok, fail_if-eq-ok}
use aah_chain.Errors.{no_total_power}
use aah_chain.Crates.{Crates}
use aah_chain.Consensus.Messages.{
  Validator, ConsensusMessage, DoubleVoteEvidence, verify_vote, verify_evidence,
}
use aah_chain.Consensus.Certificate.{
  FinalityCertificate, sum_power, power_pairs, tally, verify_votes, verify_certificate, is_foreign,
}
use aah_chain.Consensus.Certificate.Weights.{
  power_of, power_of_common, power_of-le-sum_values, sum_values-collect,
}
use aah_chain.Consensus.Certificate.Tally.{
  HasVote, here, later, IsCounted, nothing-IsCounted, tally-IsCounted, tally-HasVote,
}

not_contains-nil : (voter : String) → contains voter [] ≡ true → ⊥
unfolding contains
not_contains-nil voter h = cc

contains_key-collect_into :
    (id : String) (vs : List Validator) (m : Map String ℕ)
    → contains_key id (collect_into (power_pairs vs) m) ≡ true
    → In id (map (λ (v : Validator). v.id) vs) ⊎ (contains_key id m ≡ true)
unfolding collect_into power_pairs contains_key
contains_key-collect_into id [] m h = inr h
contains_key-collect_into id (v ∷ vs) m h =
    elim (contains_key-collect_into id vs (insert v.id v.voting_power m) h) [
      | inl listed ↦ inl (inr listed)
      | inr known ↦ elim (Bool-cases (v.id == id)) [
        | inl same ↦ inl (inl (sym ((string_eq.beq_iff v.id id).0 same)))
        | inr other ↦ inr (ground (arith, get-insert v.id id v.voting_power m))
      ]
    ]

contains_key-collect :
    (id : String) (vs : List Validator)
    → contains_key id (collect (power_pairs vs)) ≡ true
    → In id (map (λ (v : Validator). v.id) vs)
unfolding collect
contains_key-collect id vs h = elim (contains_key-collect_into id vs [] h) [
  | inl listed ↦ listed
  | inr known ↦ absurd (unknown known)
]
  where
    unknown : contains_key {V = ℕ} id [] ≡ true → ⊥
    unknown h = unfold contains_key in cc h

module _ (crates : Crates) where
  -- The counted voters of a list of votes, which hold more than two thirds of the power.
  pub record HasQuorum (validators : List Validator) (height round : ℕ) (hash : String)
      (votes : List ConsensusMessage) : Type 0 where
    pub voters : List String
    pub distinct : IsNodup voters
    pub heavy : sum_power validators * 2 < power_of (collect (power_pairs validators)) voters * 3
    pub voted :
        (voter : String)
        → contains voter voters ≡ true
        → HasVote crates (collect (power_pairs validators)) height round hash voter votes

  pub verify_votes-HasQuorum :
      (validators : List Validator) (height round : ℕ) (hash : String)
      (votes : List ConsensusMessage)
      → sum_power validators * 3 ≤ u128_max
      → verify_votes crates validators height round hash votes ≡ ok tt
      → HasQuorum validators height round hash votes
  unfolding verify_votes
  verify_votes-HasQuorum validators height round hash votes small e =
      let powers = collect (power_pairs validators) in
      let (some_power, e1) =
        fail_if-eq-ok (eqb (wrap u128_max (sum_power validators)) 0) no_total_power _ e in
      let (result, counted, e2) =
        >>=-eq-ok (tally crates powers height round hash votes [] 0) _ e1 in
      let count : IsCounted crates powers height round hash result.0 result.1 =
        tally-IsCounted crates powers height round hash votes [] 0
          (nothing-IsCounted crates powers height round hash) counted in
      record {
        voters = result.0;
        distinct = count.distinct;
        heavy = ground (
          arith,
          count.power,
          e2,
          sum_values-collect validators,
          power_of-le-sum_values powers result.0 count.distinct,
        );
        voted = λ voter c.
            elim (tally-HasVote crates powers height round hash voter votes [] 0 counted c) [
              | inl none' ↦ absurd (not_contains-nil voter none')
              | inr found ↦ found
            ];
      }

  certificate-HasQuorum :
      (validators : List Validator) (c : FinalityCertificate)
      → sum_power validators * 3 ≤ u128_max
      → verify_certificate crates c validators ≡ ok tt
      → HasQuorum validators c.block.height c.round c.block.hash c.precommits
  unfolding verify_certificate
  certificate-HasQuorum validators c small e =
      verify_votes-HasQuorum validators c.block.height c.round c.block.hash c.precommits small
        (fail_if-eq-ok _ _ _ e).1

  -- A voter's vote, taken out of the list.
  vote_of :
      (powers : Map String ℕ) (height round : ℕ) (hash voter : String)
      (votes : List ConsensusMessage)
      → HasVote crates powers height round hash voter votes
      → (vote : ConsensusMessage) × In vote votes
        × (vote.validator_id ≡ voter)
        × (is_foreign height round hash vote ≡ false)
        × (verify_vote crates vote ≡ ok tt)
        × (contains_key voter powers ≡ true)
  vote_of powers height round hash voter [] h = elim h [ ]
  vote_of powers height round hash voter (vote ∷ votes) (here same matches verified registered) =
      (vote, inl refl, same, matches, verified, registered)
  vote_of powers height round hash voter (vote ∷ votes) (later found) =
      let (v, i, a, b, c, d) = vote_of powers height round hash voter votes found in
      (v, inr i, a, b, c, d)

  -- Two votes for different blocks at one height and round, by one voter, convict it.
  votes_convict :
      (height round : ℕ) (hash hash' voter : String) (a b : ConsensusMessage)
      → a.validator_id ≡ voter
      → b.validator_id ≡ voter
      → is_foreign height round hash a ≡ false
      → is_foreign height round hash' b ≡ false
      → verify_vote crates a ≡ ok tt
      → verify_vote crates b ≡ ok tt
      → hash ≢ hash'
      → verify_evidence crates (record { first = a; second = b }) ≡ ok tt
  unfolding verify_evidence
  votes_convict height round hash hash' voter a b ia ib fa fb va vb ne =
      rw (va, vb)
        (ground (
          arith,
          string_eq.beq_iff a.validator_id b.validator_id,
          string_eq.beq_iff a.block_hash b.block_hash,
          string_eq.beq_iff a.block_hash hash,
          string_eq.beq_iff b.block_hash hash',
        ))

  quorums_convict :
      (validators : List Validator) (height round : ℕ) (hash hash' : String)
      (votes votes' : List ConsensusMessage)
      → HasQuorum validators height round hash votes
      → HasQuorum validators height round hash' votes'
      → hash ≢ hash'
      → (e : DoubleVoteEvidence) × In e.first votes
        × In e.second votes'
        × In e.first.validator_id (map (λ (v : Validator). v.id) validators)
        × (verify_evidence crates e ≡ ok tt)
  quorums_convict validators height round hash hash' votes votes' q q' ne =
      let powers = collect (power_pairs validators) in
      let (voter, c, c') =
        power_of_common powers q.voters q'.voters q.distinct q'.distinct
          (omega (arith, sum_values-collect validators, q.heavy, q'.heavy)) in
      let (a, ia, sa, fa, va, ra) =
        vote_of powers height round hash voter votes (q.voted voter c) in
      let (b, ib, sb, fb, vb, rb) =
        vote_of powers height round hash' voter votes' (q'.voted voter c') in
      (
        record { first = a; second = b },
        ia,
        ib,
        rw sa (contains_key-collect voter validators ra),
        votes_convict height round hash hash' voter a b sa sb fa fb va vb ne,
      )

  -- If two finality certificates for one height and round verify under the same validators, whose
  -- total power times three fits a u128, and their blocks have different hashes, then some
  -- registered validator has a precommit in each of them, and the pair of those precommits is
  -- double-vote evidence that verifies.
  pub conflicting_certificates_convict :
      (validators : List Validator) (a b : FinalityCertificate)
      → sum_power validators * 3 ≤ u128_max
      → verify_certificate crates a validators ≡ ok tt
      → verify_certificate crates b validators ≡ ok tt
      → a.block.height ≡ b.block.height
      → a.round ≡ b.round
      → a.block.hash ≢ b.block.hash
      → (e : DoubleVoteEvidence) × In e.first a.precommits
        × In e.second b.precommits
        × In e.first.validator_id (map (λ (v : Validator). v.id) validators)
        × (verify_evidence crates e ≡ ok tt)
  conflicting_certificates_convict validators a b small va vb same_height same_round ne =
      quorums_convict validators a.block.height a.round a.block.hash b.block.hash a.precommits
        b.precommits (certificate-HasQuorum validators a small va)
        (rw (same_height, same_round) (certificate-HasQuorum validators b small vb)) ne
