-- ===== src/Consensus/Certificate/Tally.antt =====
-- What a tally that ends well has counted.
use aah_chain.Base.{ℕ, ◌+◌, String, List, [], ◌∷◌, true, false, ◌≡◌, subst, arith, inl, inr, ◌⊎◌}
use aah_chain.Base.Tests.{if◌then◌else◌, Bool-cases}
use aah_chain.Base.Keys.{◌==◌, string_eq}
use aah_chain.Base.Maps.{Map, get_or_zero, contains_key}
use aah_chain.Base.Sets.{In, IsNodup, contains}
use aah_chain.Base.Sets
use aah_chain.Base.Outcome.{ok}
use aah_chain.Crates.{Crates}
use aah_chain.Consensus.Messages.{ConsensusMessage, verify_vote, vote_type_eq}
use aah_chain.Consensus.Certificate.{tally, is_foreign}
use aah_chain.Consensus.Certificate.Weights.{power_of}

module _ (crates : Crates) (powers : Map String ℕ) (height round : ℕ) (hash : String) where
  -- A vote of the list that is this voter's, for this block, and verified.
  pub data HasVote (voter : String) : List ConsensusMessage → Type 0 where
    here :
        {vote : ConsensusMessage} {votes : List ConsensusMessage}
        → vote.validator_id ≡ voter
        → is_foreign height round hash vote ≡ false
        → verify_vote crates vote ≡ ok tt
        → contains_key voter powers ≡ true
        → HasVote voter (vote ∷ votes)
    later :
        {vote : ConsensusMessage} {votes : List ConsensusMessage}
        → HasVote voter votes
        → HasVote voter (vote ∷ votes)

  -- What the loop keeps: the voters are distinct, and their power is what was added up.
  pub record IsCounted (voters : List String) (signed : ℕ) : Type 0 where
    pub distinct : IsNodup voters
    pub power : signed ≡ power_of powers voters

  pub nothing-IsCounted : IsCounted [] 0
  unfolding power_of
  nothing-IsCounted = ground arith

  -- the power counted once one more vote is read
  pub next_total : String → List String → ℕ → ℕ
  next_total id voters signed =
      if Sets.contains id voters then signed else signed + get_or_zero id powers

  pub tally_step :
      (vote : ConsensusMessage) (voters : List String) (signed : ℕ) (votes : List ConsensusMessage)
      {result : List String × ℕ}
      → tally crates powers height round hash (vote ∷ votes) voters signed ≡ ok result
      → (is_foreign height round hash vote ≡ false)
        × (verify_vote crates vote ≡ ok tt)
        × (contains_key vote.validator_id powers ≡ true)
        × (tally crates powers height round hash votes
              (Sets.insert vote.validator_id voters)
              (next_total vote.validator_id voters signed)
            ≡ ok result)
  unfolding tally next_total get_or_zero contains_key
  tally_step vote voters signed votes e = ground arith

  next_total-IsCounted :
      (id : String) (voters : List String) (signed : ℕ)
      → IsCounted voters signed
      → IsCounted (Sets.insert id voters) (next_total id voters signed)
  unfolding Sets.insert next_total power_of
  next_total-IsCounted id voters signed h = ground arith

  pub tally-IsCounted :
      (votes : List ConsensusMessage) (voters : List String) (signed : ℕ) {result : List String × ℕ}
      → IsCounted voters signed
      → tally crates powers height round hash votes voters signed ≡ ok result
      → IsCounted result.0 result.1
  unfolding tally
  tally-IsCounted [] voters signed h e = ground arith
  tally-IsCounted (vote ∷ votes) voters signed h e =
      tally-IsCounted votes (Sets.insert vote.validator_id voters)
        (next_total vote.validator_id voters signed)
        (next_total-IsCounted vote.validator_id voters signed h)
        (tally_step vote voters signed votes e).3

  -- A voter of the result was there at the start, or has a vote in the list.
  pub tally-HasVote :
      (voter : String) (votes : List ConsensusMessage) (voters : List String) (signed : ℕ)
      {result : List String × ℕ}
      → tally crates powers height round hash votes voters signed ≡ ok result
      → contains voter result.0 ≡ true
      → (contains voter voters ≡ true) ⊎ HasVote voter votes
  unfolding tally
  tally-HasVote voter [] voters signed e c = inl (ground arith)
  tally-HasVote voter (vote ∷ votes) voters signed e c =
      let (matches, verified, registered, rest) = tally_step vote voters signed votes e in
      elim (tally-HasVote voter votes (Sets.insert vote.validator_id voters)
        (next_total vote.validator_id voters signed) rest c) [
          | inr found ↦ inr (later found)
          | inl known ↦ elim (Bool-cases (vote.validator_id == voter)) [
            | inl same ↦
                let p = (string_eq.beq_iff vote.validator_id voter).0 same in
                inr
                  (here p matches verified (subst (λ v. contains_key v powers ≡ true) p registered))
            | inr other ↦ inl (ground (arith, Sets.contains-insert vote.validator_id voter voters))
          ]
        ]
