-- ===== src/TrafficRewards/Ledger/Eligible.antt =====
-- Which nodes the ledger of src/traffic_rewards.rs takes for eligible, and on whose word.
use aah_chain.Base.{
  ℕ, ◌+◌, ◌/◌, ◌≤◌, ◌∙◌, String, List, [], ◌∷◌, false, some, ◌≡◌, refl, arith, inl, inr, not, sym,
  subst,
}
use aah_chain.Base.Tests.{leb, eqb, Bool-cases, Option-cases}
use aah_chain.Base.Keys.{◌==◌, string_eq, pair_eq}
use aah_chain.Base.Lists.{length}
use aah_chain.Base.Maps
use aah_chain.Base.Maps.{Map, get, get_or_zero}
use aah_chain.Base.Sets
use aah_chain.Base.Sets.{In, All, All-at, All-map, IsNodup, contains, insert-IsNodup}
use aah_chain.Base.Distinct.{In-All}
use aah_chain.Base.Sorting.{sort, In-sort}
use aah_chain.Base.Outcome.{ok, Outcome-cases, >>=-eq-ok, fail_if-eq-ok}
use aah_chain.TrafficRewards.{EligibleNode}
use aah_chain.TrafficRewards.Lottery.{node_le}
use aah_chain.TrafficRewards.Ledger.{
  RelayReceipt, RewardPolicy, NodeContribution, ContributionLedger, new_ledger, validate_reward,
  check_receipt, contribution_of, add_points, record_validated, eligible_of, eligible_nodes,
}

-- The ledger after these receipts.
unfoldable pub record_all : List RelayReceipt → ContributionLedger → ContributionLedger
record_all [] l = l
record_all (r ∷ rs) l = record_all rs (record_validated r l).1

-- One of the receipts is of this verifier for this peer and address, and the verifier is another.
abbrev pub IsWitness : List RelayReceipt → String → String → String → Type 0
IsWitness receipts peer_id address verifier =
    (r : RelayReceipt) × In r receipts
    × (r.relay_peer_id ≡ peer_id)
    × (r.reward_address ≡ address)
    × (r.verifier_peer_id ≡ verifier)
    × ((r.relay_peer_id == r.verifier_peer_id) ≡ false)

All-set_insert :
    (P : String → Type 0) (a : String) (xs : List String)
    → P a
    → All P xs
    → All P (Sets.insert a xs)
unfolding Sets.insert
All-set_insert P a xs p h = elim (Bool-cases (contains a xs)) [
  | inl known ↦ rw known h
  | inr new ↦ rw new (p, h)
]

module _ (receipts : List RelayReceipt) (p : RewardPolicy) where
  -- What stands in the ledger for a peer.
  record IsEarned (entry : String × NodeContribution) : Type 0 where
    distinct : IsNodup entry.1.verifiers
    witnessed :
        All (λ (v : String). IsWitness receipts entry.0 entry.1.reward_address v) entry.1.verifiers
    bounded : entry.1.points ≤ p.maximum_points_per_node

  All-insert :
      (k : String) (c : NodeContribution) (m : Map String NodeContribution)
      → IsEarned (k, c)
      → All IsEarned m
      → All IsEarned (Maps.insert k c m)
  unfolding Maps.insert
  All-insert k c [] e h = (e, tt)
  All-insert k c ((j, d) ∷ m) e h = elim (Bool-cases (j == k)) [
    | inl here ↦ rw here (e, h.1)
    | inr other ↦ rw other (h.0, All-insert k c m e h.1)
  ]

  All-get :
      (k : String) (c : NodeContribution) (m : Map String NodeContribution)
      → get k m ≡ some c
      → All IsEarned m
      → IsEarned (k, c)
  unfolding get
  All-get k c [] g h = cc g
  All-get k c ((j, d) ∷ m) g h = elim (Bool-cases (j == k)) [
    | inl here ↦
        let key : j ≡ k = (string_eq.beq_iff j k).0 here in
        let same : d ≡ c = cc (rw here at g) in
        subst (λ (x : NodeContribution). IsEarned (k, x)) same
          (subst (λ (x : String). IsEarned (x, d)) key h.0)
    | inr other ↦ All-get k c m (rw other at g) h.1
  ]

  contribution_of-IsEarned :
      (r : RelayReceipt) (l : ContributionLedger)
      → All IsEarned l.nodes
      → IsEarned (r.relay_peer_id, contribution_of r l)
  contribution_of-IsEarned r l h = elim (Option-cases (get r.relay_peer_id l.nodes)) [
    | inl new ↦ rw new (record { distinct = tt; witnessed = tt; bounded = ground arith })
    | inr (c, old) ↦ rw old (All-get r.relay_peer_id c l.nodes old h)
  ]

  add_points-IsEarned :
      (r : RelayReceipt) (l : ContributionLedger)
      → In r receipts
      → (r.relay_peer_id == r.verifier_peer_id) ≡ false
      → l.policy ≡ p
      → All IsEarned l.nodes
      → All IsEarned (add_points r l).1.nodes
  unfolding add_points Sets.insert
  add_points-IsEarned r l i other policy h =
      let c = contribution_of r l in
      let e = contribution_of-IsEarned r l h in
      elim (Bool-cases (c.reward_address == r.reward_address)) [
        | inr clash ↦ rw (clash, add_points) (All-insert r.relay_peer_id c l.nodes e h)
        | inl same ↦
            let address : r.reward_address ≡ c.reward_address =
              sym ((string_eq.beq_iff _ _).0 same) in
            rw (same, add_points)
              (All-insert r.relay_peer_id _ l.nodes
                (record {
                  distinct = insert-IsNodup r.verifier_peer_id c.verifiers e.distinct;
                  witnessed =
                      All-set_insert _ r.verifier_peer_id c.verifiers
                        (r, i, refl, address, refl, other) e.witnessed;
                  bounded = rw policy (ground arith);
                })
                h)
      ]

  check_receipt-other :
      (r : RelayReceipt) (l : ContributionLedger) {u : Unit {0}}
      → check_receipt r l ≡ ok u
      → (r.relay_peer_id == r.verifier_peer_id) ≡ false
  unfolding check_receipt
  check_receipt-other r l h =
      let (_, h1) =
        fail_if-eq-ok (not (eqb (r.observed_at / l.policy.epoch_seconds) l.epoch)) _ _ h in
      (fail_if-eq-ok (r.relay_peer_id == r.verifier_peer_id) _ _ h1).0

  add_points-policy :
      (r : RelayReceipt) (l : ContributionLedger) → (add_points r l).1.policy ≡ l.policy
  unfolding add_points
  add_points-policy r l = ground arith

  record_validated-IsEarned :
      (r : RelayReceipt) (l : ContributionLedger)
      → In r receipts
      → l.policy ≡ p
      → All IsEarned l.nodes
      → ((record_validated r l).1.policy ≡ p) × All IsEarned (record_validated r l).1.nodes
  unfolding record_validated
  record_validated-IsEarned r l i policy h =
      let count = get_or_zero r.verifier_peer_id l.verifier_counts in
      elim (Outcome-cases (check_receipt r l)) [
        | inr (e, f) ↦ rw (f, record_validated) (policy, h)
        | inl (_, f) ↦ elim (Bool-cases (contains (r.verifier_peer_id, r.message_id) l.seen)) [
          | inl known ↦ rw (f, known, record_validated) (policy, h)
          | inr new ↦ elim (Bool-cases (leb l.policy.maximum_receipts_per_verifier count)) [
            | inl full ↦ rw (f, new, full, record_validated) (policy, h)
            | inr room ↦
                let noted : ContributionLedger = record l {
                  seen = (r.verifier_peer_id, r.message_id) ∷ l.seen;
                  verifier_counts = Maps.insert r.verifier_peer_id (count + 1) l.verifier_counts;
                } in
                rw (f, new, room, record_validated)
                  (
                    add_points-policy r noted ∙ policy,
                    add_points-IsEarned r noted i (check_receipt-other r l f) policy h,
                  )
          ]
        ]
      ]

  record_all-IsEarned :
      (rs : List RelayReceipt) (l : ContributionLedger)
      → ((r : RelayReceipt) → In r rs → In r receipts)
      → l.policy ≡ p
      → All IsEarned l.nodes
      → ((record_all rs l).policy ≡ p) × All IsEarned (record_all rs l).nodes
  unfolding record_all
  record_all-IsEarned [] l from policy h = (policy, h)
  record_all-IsEarned (r ∷ rs) l from policy h =
      let (policy', h') = record_validated-IsEarned r l (from r (inl refl)) policy h in
      record_all-IsEarned rs (record_validated r l).1 (λ q i. from q (inr i)) policy' h'

  -- What is claimed of an eligible node.
  abbrev pub IsVerified : EligibleNode → Type 0
  IsVerified node =
      (node.points ≤ p.maximum_points_per_node)
      × ((verifiers : List String) × IsNodup verifiers
          × (p.minimum_distinct_verifiers ≤ length verifiers)
          × All (λ (v : String). IsWitness receipts node.peer_id node.reward_address v) verifiers)

  eligible_of-IsVerified :
      (nodes : Map String NodeContribution)
      → All IsEarned nodes
      → All IsVerified (eligible_of p nodes)
  unfolding eligible_of
  eligible_of-IsVerified [] h = tt
  eligible_of-IsVerified ((peer_id, c) ∷ nodes) h =
      let rest = eligible_of-IsVerified nodes h.1 in
      elim (Bool-cases (leb p.minimum_distinct_verifiers (length c.verifiers))) [
        | inr few ↦ rw few rest
        | inl enough ↦ rw enough (
          (h.0.bounded, (c.verifiers, h.0.distinct, ground (arith, enough), h.0.witnessed)),
          rest,
        )
      ]

-- Whatever receipts a new ledger takes, a node that it names as eligible has no more than the
-- greatest number of points, and at least the least number of distinct verifiers of the policy, each
-- of them another peer that has a receipt for this node and its reward address.
pub eligible_nodes_are_confirmed :
    (policy : RewardPolicy) (epoch : ℕ) (l : ContributionLedger) (receipts : List RelayReceipt)
    → new_ledger policy epoch ≡ ok l
    → All (IsVerified receipts policy) (eligible_nodes (record_all receipts l))
unfolding eligible_nodes new_ledger
eligible_nodes_are_confirmed policy epoch l receipts h =
    let (_, _, h1) = >>=-eq-ok (validate_reward policy) _ h in
    let same : l.policy ≡ policy = ground (arith, h1) in
    let empty : l.nodes ≡ [] = ground (arith, h1) in
    let (kept, earned) =
      record_all-IsEarned receipts policy receipts l (λ r i. i) same (rw empty tt) in
    let after = record_all receipts l in
    let verified = eligible_of-IsVerified receipts policy after.nodes earned in
    In-All _ _ (λ node i.
      All-at (IsVerified receipts policy) node (eligible_of policy after.nodes) verified (
        In-sort node_le node _
          (subst (λ q. In node (sort node_le (eligible_of q after.nodes))) kept i)))
