-- ===== src/TrafficRewards/Peers/Choice.antt =====
-- Which peers `select_balanced_peers` of src/traffic_rewards.rs chooses.
use aah_chain.Base.{
  ℕ, ◌-◌, ◌≤◌, String, List, [], ◌∷◌, ◌++◌, Bool, true, false, ◌≡◌, refl, arith, inl, inr, map,
  ◌||◌,
}
use aah_chain.Base.Tests.{leb, eqb, Bool-cases}
use aah_chain.Base.Keys.{string_eq}
use aah_chain.Base.Lists.{length, take}
use aah_chain.Base.Sets.{In, All, IsNodup, contains, All-append, All-at}
use aah_chain.Base.Distinct.{
  In-All, In-take, take-IsNodup, append_one-IsNodup, length-take, length-keep-take,
  length-keep-append_one,
}
use aah_chain.Base.Sorting.{sort, In-sort}
use aah_chain.Base.Outcome.{ok, >>=-eq-ok}
use aah_chain.Base.Bytes.{is_blank}
use aah_chain.TrafficRewards.Peers.{
  TrafficPolicy, PeerCandidate, validate_traffic, bootstrap_count, is_selected, is_passed, fill,
  fill_slots, unique_candidates, balanced, select_balanced_peers, nearby_le, diverse_le,
  low_load_le, fallback_le,
}

abbrev id_of : PeerCandidate → String
id_of c = c.peer_id

is_selected-contains :
    (selected : List PeerCandidate) (c : PeerCandidate)
    → is_selected selected c ≡ contains (id_of c) (map id_of selected)
unfolding contains
is_selected-contains [] c = refl
is_selected-contains (s ∷ ss) c = ground (arith, is_selected-contains ss c)

module _ (p : TrafficPolicy) (candidates : List PeerCandidate) where
  -- A peer that may be chosen.
  abbrev IsUsable : PeerCandidate → Type 0
  IsUsable c = In c candidates × (p.minimum_uptime_bps ≤ c.uptime_bps)

  -- The peers chosen so far.
  record IsFair (selected : List PeerCandidate) : Type 0 where
    distinct : IsNodup (map id_of selected)
    usable : All IsUsable selected
    bootstraps : bootstrap_count selected ≤ p.max_bootstrap_connections

  push-IsFair :
      (relaxed : Bool) (c : PeerCandidate) (selected : List PeerCandidate)
      → In c candidates
      → is_passed p relaxed selected c ≡ false
      → IsFair selected
      → IsFair (selected ++ c ∷ [])
  push-IsFair relaxed c selected i free f = record {
    distinct =
        append_one-IsNodup id_of c selected (ground (arith, free, is_selected-contains selected c))
          f.distinct;
    usable = All-append IsUsable selected (c ∷ []) f.usable ((i, ground (arith, free)), tt);
    bootstraps = ground (
      arith,
      free,
      f.bootstraps,
      length-keep-append_one (λ (q : PeerCandidate). q.is_bootstrap) c selected,
    );
  }

  fill-IsFair :
      (relaxed : Bool) (target : ℕ) (cs selected : List PeerCandidate)
      → ((c : PeerCandidate) → In c cs → In c candidates)
      → IsFair selected
      → IsFair (fill p relaxed target cs selected)
  unfolding fill
  fill-IsFair relaxed target [] selected from f = f
  fill-IsFair relaxed target (c ∷ cs) selected from f =
      elim (Bool-cases (leb target (length selected))) [
        | inl full ↦ rw (full, fill) f
        | inr room ↦
            let later : (q : PeerCandidate) → In q cs → In q candidates = λ q i. from q (inr i) in
            elim (Bool-cases (is_passed p relaxed selected c)) [
              | inl passed ↦
                  rw (room, passed, fill) (fill-IsFair relaxed target cs selected later f)
              | inr free ↦
                  rw (room, free, fill)
                    (fill-IsFair relaxed target cs (selected ++ c ∷ []) later
                      (push-IsFair relaxed c selected (from c (inl refl)) free f))
            ]
      ]

  -- A round over the candidates, in any order.
  round-IsFair :
      (le : PeerCandidate → PeerCandidate → Bool) (relaxed : Bool) (count : ℕ)
      (cs selected : List PeerCandidate)
      → ((c : PeerCandidate) → In c cs → In c candidates)
      → IsFair selected
      → IsFair (fill_slots p (sort le cs) count relaxed selected)
  unfolding fill_slots
  round-IsFair le relaxed count cs selected from f =
      fill-IsFair relaxed _ (sort le cs) selected (λ c i. from c (In-sort le c cs i)) f

  balanced-IsFair :
      (cs : List PeerCandidate)
      → ((c : PeerCandidate) → In c cs → In c candidates)
      → IsFair (balanced p cs)
  unfolding balanced
  balanced-IsFair cs from =
      let near = fill_slots p (sort nearby_le cs) p.nearby_slots false [] in
      let diverse = fill_slots p (sort (diverse_le near) cs) p.diversity_slots false near in
      let light = fill_slots p (sort low_load_le cs) p.low_load_slots false diverse in
      let start : IsFair [] = record { distinct = tt; usable = tt; bootstraps = ground arith } in
      let one = round-IsFair nearby_le false p.nearby_slots cs [] from start in
      let two = round-IsFair (diverse_le near) false p.diversity_slots cs near from one in
      let three = round-IsFair low_load_le false p.low_load_slots cs diverse from two in
      round-IsFair fallback_le true (p.target_connections - length light) cs light from three

  unique_candidates-All :
      (cs unique : List PeerCandidate)
      → ((c : PeerCandidate) → In c cs → In c candidates)
      → All (λ c. In c candidates) unique
      → All (λ c. In c candidates) (unique_candidates cs unique)
  unfolding unique_candidates
  unique_candidates-All [] unique from old = old
  unique_candidates-All (x ∷ cs) unique from old =
      let later : (q : PeerCandidate) → In q cs → In q candidates = λ q i. from q (inr i) in
      let same = unique_candidates-All cs unique later old in
      elim (Bool-cases (is_blank x.peer_id || is_blank x.country_code || eqb x.capacity 0)) [
        | inl bad ↦ rw bad same
        | inr good ↦ elim (Bool-cases (is_selected unique x)) [
          | inl known ↦ rw (good, known) same
          | inr new ↦
              rw (good, new)
                (unique_candidates-All cs (unique ++ x ∷ []) later
                  (All-append (λ c. In c candidates) unique (x ∷ []) old (from x (inl refl), tt)))
        ]
      ]

-- What is claimed of the peers that are selected.
abbrev pub IsBalanced : TrafficPolicy → List PeerCandidate → List PeerCandidate → Type 0
IsBalanced p candidates peers =
    (length peers ≤ p.target_connections)
    × IsNodup (map (λ (c : PeerCandidate). c.peer_id) peers)
    × All (λ (c : PeerCandidate). In c candidates × (p.minimum_uptime_bps ≤ c.uptime_bps)) peers
    × (bootstrap_count peers ≤ p.max_bootstrap_connections)

-- A selection of peers that succeeds holds no more peers than the target, none of them twice, each
-- of them one of the candidates with the least uptime of the policy, and no more bootstrap nodes than
-- the policy allows, also where the places left are filled without regard to country and network.
pub selected_peers_are_fair :
    (p : TrafficPolicy) (candidates peers : List PeerCandidate)
    → select_balanced_peers p candidates ≡ ok peers
    → IsBalanced p candidates peers
unfolding select_balanced_peers
selected_peers_are_fair p candidates peers h =
    let (_, _, h1) = >>=-eq-ok (validate_traffic p) _ h in
    let unique = unique_candidates candidates [] in
    let members = unique_candidates-All p candidates candidates [] (λ c i. i) tt in
    let f =
      balanced-IsFair p candidates unique
        (λ c i. All-at (λ x. In x candidates) c unique members i) in
    let same : take p.target_connections (balanced p unique) ≡ peers = cc h1 in
    rw (← same) (
      length-take p.target_connections (balanced p unique),
      take-IsNodup id_of p.target_connections (balanced p unique) f.distinct,
      In-All _ _ (λ c i.
          All-at (IsUsable p candidates) c (balanced p unique) f.usable
            (In-take p.target_connections c (balanced p unique) i)),
      omega (
        arith,
        f.bootstraps,
        length-keep-take (λ (q : PeerCandidate). q.is_bootstrap) p.target_connections
            (balanced p unique),
      ),
    )
