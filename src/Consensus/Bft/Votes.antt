-- ===== src/Consensus/Bft/Votes.antt =====
-- The voters that `BftConsensus` counts: each at most once, registered, and for the block that the
-- history holds; and a final block has more than two thirds of the power behind it.
use aah_chain.Base.{
  ℕ, ◌*◌, ◌≤◌, ◌<◌, String, List, [], ◌∷◌, Bool, true, false, none, some, ◌≡◌, refl, arith, subst,
  sym,
}
use aah_chain.Base.Tests.{if◌then◌else◌, unwrap_or}
use aah_chain.Base.Keys.{◌==◌, string_eq, pair_eq, nat_eq, pair_beq_iff}
use aah_chain.Base.Maps.{get, get-insert, contains_key, sum_values, Map}
use aah_chain.Base.Sets
use aah_chain.Base.Sets.{contains, IsNodup}
use aah_chain.Base.Words.{u64_max, wrap}
use aah_chain.Base.Outcome.{ok}
use aah_chain.Crates.{Crates}
use aah_chain.Consensus.Certificate.Weights.{power_of, power_of-le-sum_values}
use aah_chain.Consensus.Messages.{
  VoteType, ConsensusMessage, Validator, DoubleVoteEvidence, vote_type_eq,
}
use aah_chain.Consensus.Bft.{
  BftConsensus, VoteKey, HistoryKey, history_key, new, open_proposal, add_vote, on_quorum,
  begin_round, remember_vote, noted_evidence, has_quorum, lock_block, finalize_block,
}
use aah_chain.Consensus.Bft.Rule.{IsKept, IsAdmitted, run-keeps}
use aah_chain.Consensus.Bft.Machine.{Call, run}

abbrev pub voters_of : VoteKey → BftConsensus → List String
voters_of key s = unwrap_or (get key s.votes) []

-- More than two thirds of the power of the registered validators, over ℕ.
abbrev pub IsHeavy : VoteKey → BftConsensus → Type 0
IsHeavy key s = sum_values s.validators * 2 < power_of s.validators (voters_of key s) * 3

-- the key under which the history holds a counted vote
abbrev pub counted_key : VoteKey → String → BftConsensus → HistoryKey
counted_key key id s = (s.height, (s.round, (key.0, id)))

pub record IsTallied (s : BftConsensus) : Type 0 where
  pub total : s.total_power ≡ wrap u64_max (sum_values s.validators)
  pub distinct : (key : VoteKey) → IsNodup (voters_of key s)
  pub registered :
      (key : VoteKey) (id : String)
      → contains id (voters_of key s) ≡ true
      → contains_key id s.validators ≡ true
  pub counted :
      (key : VoteKey) (id : String)
      → contains id (voters_of key s) ≡ true
      → get (counted_key key id s) s.vote_history ≡ some key.1
  pub backed :
      sum_values s.validators ≤ u64_max
      → (hash : String) → s.finalized ≡ some hash
      → IsHeavy (VoteType.precommit, hash) s

-- Without votes nothing is counted and nothing is final.
fresh-IsTallied :
    (s : BftConsensus)
    → s.total_power ≡ wrap u64_max (sum_values s.validators)
    → s.votes ≡ []
    → s.finalized ≡ none
    → IsTallied s
unfolding get contains
fresh-IsTallied s t v f = record {
  total = t;
  distinct = λ key. rw v tt;
  registered = λ key id c. absurd (nobody id (rw v at c));
  counted = λ key id c. absurd (nobody id (rw v at c));
  backed = λ fits hash e. cc;
}
  where
    nobody : (id : String) → contains id [] ≡ true → ⊥
    nobody id h = cc

pub new-IsTallied : (vs : List Validator) {s : BftConsensus} → new vs ≡ ok s → IsTallied s
unfolding new
new-IsTallied [] e = cc
new-IsTallied (v ∷ vs) e = fresh-IsTallied _ (ground arith) (ground arith) (ground arith)

voters_of-add_vote :
    (m : ConsensusMessage) (key : VoteKey) (s : BftConsensus)
    → voters_of key (add_vote m s) ≡ (
        if (m.vote_type, m.block_hash) == key
        then Sets.insert m.validator_id (voters_of (m.vote_type, m.block_hash) s)
        else voters_of key s)
unfolding add_vote
voters_of-add_vote m key s = ground (
  arith,
  get-insert (m.vote_type, m.block_hash) key
      (Sets.insert m.validator_id (voters_of (m.vote_type, m.block_hash) s)) s.votes,
)

power_of-insert :
    (powers : Map String ℕ) (id : String) (xs : List String)
    → power_of powers xs ≤ power_of powers (Sets.insert id xs)
unfolding power_of Sets.insert
power_of-insert powers id xs = ground arith

has_quorum-IsHeavy :
    (key : VoteKey) (s : BftConsensus)
    → s.total_power ≡ wrap u64_max (sum_values s.validators)
    → sum_values s.validators ≤ u64_max
    → IsNodup (voters_of key s)
    → has_quorum key s ≡ true
    → IsHeavy key s
unfolding has_quorum
has_quorum-IsHeavy key s total fits distinct q =
    ground (arith, total, power_of-le-sum_values s.validators (voters_of key s) distinct)

if-IsNodup :
    (b : Bool) (xs ys : List String) → IsNodup xs → IsNodup ys → IsNodup (if b then xs else ys)
if-IsNodup true xs ys h k = h
if-IsNodup false xs ys h k = k

module _ (crates : Crates) (m : ConsensusMessage) (s : BftConsensus) (h : IsTallied s) where
  add_vote-distinct : (key : VoteKey) → IsNodup (voters_of key (add_vote m s))
  add_vote-distinct key = subst IsNodup (sym (voters_of-add_vote m key s)) (
      if-IsNodup ((m.vote_type, m.block_hash) == key) _ (voters_of key s)
        (Sets.insert-IsNodup m.validator_id _ (h.distinct (m.vote_type, m.block_hash)))
        (h.distinct key))

  add_vote-registered :
      IsAdmitted crates m s
      → (key : VoteKey) (id : String) → contains id (voters_of key (add_vote m s)) ≡ true
      → contains_key id s.validators ≡ true
  add_vote-registered a key id c = ground (
    arith,
    a.registered,
    voters_of-add_vote m key s,
    Sets.contains-insert m.validator_id id (voters_of (m.vote_type, m.block_hash) s),
    string_eq.beq_iff m.validator_id id,
    h.registered key id,
    h.registered (m.vote_type, m.block_hash) id,
  )

  add_vote-counted :
      IsAdmitted crates m s
      → get (history_key m) s.vote_history ≡ some m.block_hash
      → (key : VoteKey) (id : String) → contains id (voters_of key (add_vote m s)) ≡ true
      → get (counted_key key id s) s.vote_history ≡ some key.1
  add_vote-counted a known key id c = ground (
    arith,
    a.at_height,
    a.at_round,
    known,
    voters_of-add_vote m key s,
    Sets.contains-insert m.validator_id id (voters_of (m.vote_type, m.block_hash) s),
    string_eq.beq_iff m.validator_id id,
    pair_beq_iff (m.vote_type, m.block_hash) key,
    h.counted key id,
    h.counted (m.vote_type, m.block_hash) id,
  )

  add_vote-backed :
      sum_values s.validators ≤ u64_max
      → (hash : String) → s.finalized ≡ some hash
      → sum_values s.validators * 2
        < power_of s.validators (voters_of (VoteType.precommit, hash) (add_vote m s)) * 3
  add_vote-backed fits hash e = ground (
    arith,
    h.backed fits hash e,
    voters_of-add_vote m (VoteType.precommit, hash) s,
    pair_beq_iff (m.vote_type, m.block_hash) (VoteType.precommit, hash),
    power_of-insert s.validators m.validator_id (voters_of (VoteType.precommit, hash) s),
  )

  add_vote-IsTallied :
      IsAdmitted crates m s
      → get (history_key m) s.vote_history ≡ some m.block_hash
      → IsTallied (add_vote m s)
  unfolding add_vote
  add_vote-IsTallied a known = record {
    total = h.total;
    distinct = add_vote-distinct;
    registered = add_vote-registered a;
    counted = add_vote-counted a known;
    backed = add_vote-backed;
  }

  -- The history gains a key that no counted vote has.
  remember_vote-IsTallied :
      get (history_key m) s.vote_history ≡ none → IsTallied (remember_vote m s)
  unfolding remember_vote
  remember_vote-IsTallied new' = record {
    total = h.total;
    distinct = h.distinct;
    registered = h.registered;
    counted = λ key id c. ground (
      arith,
      new',
      h.counted key id c,
      get-insert (history_key m) (counted_key key id s) m.block_hash s.vote_history,
      pair_beq_iff (history_key m) (counted_key key id s),
    );
    backed = h.backed;
  }

module _ (s : BftConsensus) (h : IsTallied s) where
  evidence-IsTallied : (es : List DoubleVoteEvidence) → IsTallied (record s { evidence = es })
  evidence-IsTallied es = record {
    total = h.total;
    distinct = h.distinct;
    registered = h.registered;
    counted = h.counted;
    backed = h.backed;
  }

  lock_block-IsTallied : (hash : String) → IsTallied (lock_block hash s)
  unfolding lock_block
  lock_block-IsTallied hash = record {
    total = h.total;
    distinct = h.distinct;
    registered = h.registered;
    counted = h.counted;
    backed = h.backed;
  }

  finalize_block-IsTallied :
      (hash : String)
      → has_quorum (VoteType.precommit, hash) s ≡ true
      → IsTallied (finalize_block hash s)
  unfolding finalize_block
  finalize_block-IsTallied hash q = record {
    total = h.total;
    distinct = h.distinct;
    registered = h.registered;
    counted = h.counted;
    backed = λ fits hash' e.
        let same : hash ≡ hash' = cc in
        subst (λ x. IsHeavy (VoteType.precommit, x) s) same
          (has_quorum-IsHeavy (VoteType.precommit, hash) s h.total fits
            (h.distinct (VoteType.precommit, hash)) q);
  }

  on_quorum-IsTallied :
      (t : VoteType) (hash : String)
      → has_quorum (t, hash) s ≡ true
      → IsTallied (on_quorum t hash s)
  unfolding on_quorum
  on_quorum-IsTallied VoteType.prevote hash q = ground (arith, lock_block-IsTallied hash)
  on_quorum-IsTallied VoteType.precommit hash q = finalize_block-IsTallied hash q

  open_proposal-IsTallied : (hash : String) → IsTallied (open_proposal hash s)
  unfolding open_proposal
  open_proposal-IsTallied hash = record {
    total = h.total;
    distinct = h.distinct;
    registered = h.registered;
    counted = h.counted;
    backed = h.backed;
  }

  begin_round-IsTallied : (height round : ℕ) → IsTallied (begin_round height round s)
  unfolding begin_round
  begin_round-IsTallied height round = fresh-IsTallied _ h.total refl refl

module _ (crates : Crates) where
  IsTallied-IsKept : IsKept crates IsTallied
  IsTallied-IsKept = record {
    begin = λ height round s h _. begin_round-IsTallied s h height round;
    remember = λ m s h _ e. remember_vote-IsTallied crates m s h e;
    note = λ m s h _. evidence-IsTallied s h (noted_evidence crates m s);
    add = λ m s h a _ known. add_vote-IsTallied crates m s h a known;
    quorum = λ t hash s h _ q _. on_quorum-IsTallied s h t hash q;
    taken = λ s h. evidence-IsTallied s h [];
  }

  run-IsTallied :
      (vs : List Validator) {s : BftConsensus} (cs : List Call)
      → new vs ≡ ok s
      → IsTallied (run crates cs s)
  run-IsTallied vs {s} cs e =
      run-keeps crates IsTallied IsTallied-IsKept (λ hash s h _. open_proposal-IsTallied s h hash)
        cs s (new-IsTallied vs e)

  -- After any sequence of calls from a new state, if a block is final and the total power of the
  -- registered validators fits a u64, then distinct registered validators with more than two
  -- thirds of the total power are counted as having precommitted it.
  pub finalized_block_is_backed :
      (vs : List Validator) {s : BftConsensus} (cs : List Call) (hash : String)
      → new vs ≡ ok s
      → sum_values (run crates cs s).validators ≤ u64_max
      → (run crates cs s).finalized ≡ some hash
      → let s' = run crates cs s in
        let voters = voters_of (VoteType.precommit, hash) s' in
        IsNodup voters
        × ((id : String) → contains id voters ≡ true → contains_key id s'.validators ≡ true)
        × (sum_values s'.validators * 2 < power_of s'.validators voters * 3)
  finalized_block_is_backed vs cs hash e fits f =
      let t = run-IsTallied vs cs e in
      (
        t.distinct (VoteType.precommit, hash),
        t.registered (VoteType.precommit, hash),
        t.backed fits hash f,
      )

  -- After any sequence of calls from a new state, no validator is counted for two blocks in votes
  -- of one type.
  pub counted_for_one_block :
      (vs : List Validator) {s : BftConsensus} (cs : List Call) (t : VoteType)
      (hash hash' id : String)
      → new vs ≡ ok s
      → contains id (voters_of (t, hash) (run crates cs s)) ≡ true
      → contains id (voters_of (t, hash') (run crates cs s)) ≡ true
      → hash ≡ hash'
  counted_for_one_block vs cs t hash hash' id e c c' =
      let k = run-IsTallied vs cs e in cc (k.counted (t, hash) id c, k.counted (t, hash') id c')
