-- ===== src/Consensus/Tests/Witnesses.antt =====
-- The theorems of src/consensus.rs applied to the run of four validators.
use mathlib.Core.Bool.{false≢true}
use aah_chain.Base.{
  ℕ, ◌+◌, ◌*◌, ◌≤◌, ◌<◌, String, List, [], ◌∷◌, ◌++◌, true, false, some, ◌≡◌, ◌≢◌, refl, arith, map,
  sym, ◌∙◌,
}
use aah_chain.Base.Keys.{string_eq, pair_eq, nat_eq}
use aah_chain.Base.Lists.{any}
use aah_chain.Base.Maps.{get, contains_key, sum_values, collect, collect_into, insert}
use aah_chain.Base.Sets
use aah_chain.Base.Bytes.{be_bytes, as_bytes}
use aah_chain.Model.{calculate_hash}
use aah_chain.Wallet.{verify_signature}
use aah_chain.Base.Sets.{IsNodup, contains, In, All}
use aah_chain.Base.Outcome.{ok, err, is_ok}
use aah_chain.Base.Words.{u64_max}
use aah_chain.Errors.{double_vote}
use aah_chain.Consensus.Messages.{
  Validator, VoteType, vote_type_eq, DoubleVoteEvidence, SignedProposal, verify_vote,
  verify_evidence,
}
use aah_chain.Consensus.Certificate.{FinalityCertificate, sum_power, verify_certificate}
use aah_chain.Consensus.Certificate.Agreement.{conflicting_certificates_convict}
use aah_chain.Consensus.Certificate.Weights.{power_of}
use aah_chain.Consensus.Bft.{
  handle, handle_proposal, expected_proposer, noted_evidence, BftConsensus,
}
use aah_chain.Consensus.Bft.Machine.{Call, run}
use aah_chain.Consensus.Bft.Rule.{IsAdmitted}
use aah_chain.Consensus.Bft.Votes.{voters_of, finalized_block_is_backed, counted_for_one_block}
use aah_chain.Consensus.Bft.Evidence.{evidence_verifies}
use aah_chain.Consensus.Bft.Conviction.{convicts, double_vote_is_convicted}
use aah_chain.Consensus.Bft.Lock.{locked_out_proposal_is_refused, lock_is_kept}
use aah_chain.Consensus.Bft.Proposer.{time_out, every_validator_proposes}
use aah_chain.Consensus.Bft.Invariant.{IsCoherent, run-IsCoherent}
use aah_chain.Consensus.Tests.{
  toy, four, fresh, fresh_is_new, run_facts, locking, finalizing, second_vote, proposal, block_of,
  vote,
}

run-IsCoherent_example : IsCoherent (run toy finalizing fresh)
run-IsCoherent_example = run-IsCoherent toy four finalizing fresh_is_new

fits : sum_values (run toy finalizing fresh).validators ≤ u64_max
fits = ground (arith, run_facts.1)

finalized_block_is_backed_example :
    let s' = run toy finalizing fresh in
    let voters = voters_of (VoteType.precommit, "aa") s' in
    IsNodup voters
    × ((id : String) → contains id voters ≡ true → contains_key id s'.validators ≡ true)
    × (sum_values s'.validators * 2 < power_of s'.validators voters * 3)
finalized_block_is_backed_example =
    finalized_block_is_backed toy four finalizing "aa" fresh_is_new fits run_facts.0

abbrev aa : String
aa = "aa"

counted_for_one_block_example : aa ≡ "aa"
counted_for_one_block_example =
    counted_for_one_block toy four finalizing VoteType.precommit "aa" "aa" "v1" fresh_is_new
      run_facts.2 run_facts.2

-- a run in which `v1` votes twice
abbrev twice : List Call
twice = locking ++ Call.handle second_vote ∷ []

evidence_verifies_example : All (λ e. verify_evidence toy e ≡ ok tt) (run toy twice fresh).evidence
evidence_verifies_example = evidence_verifies toy four twice fresh_is_new

aa≢bb : aa ≢ "bb"
aa≢bb e = false≢true ((string_eq.beq_iff aa "bb").1 e)

admitted : IsAdmitted toy second_vote (run toy locking fresh)
admitted = record {
  at_height = ground (arith, run_facts.5);
  at_round = ground (arith, run_facts.6);
  registered = run_facts.7;
  verified = run_facts.8;
  in_phase = ground (arith, run_facts.3);
}

double_vote_is_convicted_example :
    let s' = run toy locking fresh in
    ((handle toy second_vote s').0 ≡ err double_vote)
    × ((handle toy second_vote s').1 ≡ record s' { evidence = noted_evidence toy second_vote s' })
    × (any (convicts toy second_vote) (noted_evidence toy second_vote s') ≡ true)
double_vote_is_convicted_example =
    double_vote_is_convicted toy four locking second_vote "aa" fresh_is_new admitted run_facts.9
      aa≢bb

-- The round of the lock times out.
abbrev next_round : List Call
next_round = locking ++ Call.on_timeout ∷ []

abbrev other_proposal : SignedProposal
other_proposal = proposal "v2" (block_of "b" "bb")

locked_out_proposal_is_refused_example :
    (is_ok (handle_proposal toy other_proposal (run toy next_round fresh)).0 ≡ false)
    × ((handle_proposal toy other_proposal (run toy next_round fresh)).1 ≡ run toy next_round fresh)
locked_out_proposal_is_refused_example =
    locked_out_proposal_is_refused toy four next_round other_proposal "aa" fresh_is_new run_facts.10
      aa≢bb

lock_is_kept_example :
    (run toy (Call.on_timeout ∷ []) (run toy locking fresh)).locked_value ≡ some "aa"
lock_is_kept_example =
    lock_is_kept toy four locking (Call.on_timeout ∷ []) "aa" fresh_is_new run_facts.3 run_facts.4
      (tt, tt) (run_facts.11 ∙ sym run_facts.5)

-- the state in round 0 of height 1
abbrev first_round : BftConsensus
first_round = record fresh { height = 1 }

every_validator_proposes_example :
    (k : ℕ) × (k < 4)
    × ((time_out k first_round).round ≡ 0 + k)
    × (expected_proposer (time_out k first_round) ≡ some "v3")
unfolding collect collect_into insert contains_key
every_validator_proposes_example =
    every_validator_proposes first_round "v3" v3_registered (omega arith) (omega arith)
  where
    v3_registered : contains_key "v3" first_round.validators ≡ true
    v3_registered = refl

abbrev certificate : String → String → FinalityCertificate
certificate producer hash = record {
  block = block_of producer hash;
  round = 0;
  precommits =
      vote VoteType.precommit "v1" hash
      ∷ vote VoteType.precommit "v2" hash
      ∷ vote VoteType.precommit "v3" hash
      ∷ [];
}

certificates_verify :
    (sum_power four * 3 ≡ 12)
    × (verify_certificate toy (certificate "a" "aa") four ≡ ok tt)
    × (verify_certificate toy (certificate "b" "bb") four ≡ ok tt)
unfolding sum_power verify_certificate calculate_hash be_bytes as_bytes verify_vote verify_signature
    get collect contains Sets.insert
certificates_verify = (refl, refl, refl)

conflicting_certificates_convict_example :
    (e : DoubleVoteEvidence) × In e.first (certificate "a" "aa").precommits
    × In e.second (certificate "b" "bb").precommits
    × In e.first.validator_id (map (λ (v : Validator). v.id) four)
    × (verify_evidence toy e ≡ ok tt)
conflicting_certificates_convict_example =
    conflicting_certificates_convict toy four (certificate "a" "aa") (certificate "b" "bb")
      (ground (arith, certificates_verify.0)) certificates_verify.1 certificates_verify.2 refl refl
      aa≢bb
