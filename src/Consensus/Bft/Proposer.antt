-- ===== src/Consensus/Bft/Proposer.antt =====
-- The proposer of a round: a registered validator, and each gets its turn.
use native.Mathlib.Nat.{mod-lt, mod-add-mod, mod-eq_of_lt, add-mod_right}
use aah_chain.Base.{
  ℕ, zero, suc, ◌+◌, ◌-◌, ◌%◌, ◌≤◌, ◌<◌, String, List, [], ◌∷◌, map, true, refl, none, some, ◌≡◌,
  sym, arith, inl, inr, ◌∙◌, ap,
}
use aah_chain.Base.Tests.{if◌then◌else◌, leb, Bool-cases}
use aah_chain.Base.Keys.{◌==◌, string_eq}
use aah_chain.Base.Lists.{length, get_elem?}
use aah_chain.Base.Maps.{Map, contains_key}
use aah_chain.Base.Sets.{In}
use aah_chain.Base.Sorting.{sort, sort-In, In-sort, length-sort}
use aah_chain.Base.Words.{u32_max, u64_max, wrap, checked_add}
use aah_chain.Base.Outcome.{ok}
use aah_chain.Consensus.Bft.{
  Step, BftConsensus, expected_proposer, string_le, begin_round, start_round, on_timeout,
}

abbrev keys : Map String ℕ → List String
keys m = map (λ (e : String × ℕ). e.0) m

get_elem?-In : {A : Type 0} (xs : List A) (i : ℕ) (x : A) → get_elem? xs i ≡ some x → In x xs
get_elem?-In [] i x e = absurd (impossible e)
  where
    impossible : {A : Type 0} {a : A} → none ≡ some a → ⊥
    impossible p = cc
get_elem?-In (y ∷ ys) zero x e = inl (cc e)
get_elem?-In (y ∷ ys) (suc i) x e = inr (get_elem?-In ys i x e)

In-get_elem? :
    {A : Type 0} (x : A) (xs : List A)
    → In x xs
    → (i : ℕ) × (i < length xs) × (get_elem? xs i ≡ some x)
In-get_elem? x [] h = absurd h
In-get_elem? x (y ∷ ys) (inl p) = (0, omega arith, cc p)
In-get_elem? x (y ∷ ys) (inr h) = let (i, lt, e) = In-get_elem? x ys h in (suc i, omega arith, e)

keys-contains_key : (id : String) (m : Map String ℕ) → In id (keys m) → contains_key id m ≡ true
unfolding contains_key
keys-contains_key id [] h = absurd h
keys-contains_key id ((k, v) ∷ m) (inl p) = ground (arith, string_eq.beq_iff k id)
keys-contains_key id ((k, v) ∷ m) (inr h) = ground (arith, keys-contains_key id m h)

contains_key-keys : (id : String) (m : Map String ℕ) → contains_key id m ≡ true → In id (keys m)
unfolding contains_key
contains_key-keys id [] h = cc
contains_key-keys id ((k, v) ∷ m) h = elim (Bool-cases (k == id)) [
  | inl same ↦ inl (sym ((string_eq.beq_iff k id).0 same))
  | inr other ↦ inr (contains_key-keys id m (ground arith))
]

-- The expected proposer is a registered validator.
pub expected_proposer_is_registered :
    (s : BftConsensus) (id : String)
    → expected_proposer s ≡ some id
    → contains_key id s.validators ≡ true
unfolding expected_proposer
expected_proposer_is_registered s id e = keys-contains_key id s.validators (
    In-sort string_le id (keys s.validators)
      (get_elem?-In (sort string_le (keys s.validators)) _ id e))

-- the turn does not wrap
no_wrap :
    (height round k n : ℕ)
    → k < n
    → height + round + n ≤ u64_max
    → wrap u64_max (height - 1 + (round + k)) ≡ height - 1 + round + k
no_wrap height round k n h fits = omega arith

-- the number of rounds from turn `b` to turn `i`, of `n`
turns : ℕ → ℕ → ℕ → ℕ
turns b i n = if leb (b % n) i then i - b % n else i + n - b % n

turns-lt : (b i n : ℕ) → i < n → turns b i n < n
unfolding turns
turns-lt b i n h = ground (arith, mod-lt b {m = n} (omega arith))

turns-mod : (b i n : ℕ) → i < n → (b + turns b i n) % n ≡ i
unfolding turns
turns-mod b i n h =
    let small : b % n < n = mod-lt b {m = n} (omega arith) in
    sym (mod-add-mod b n (turns b i n)) ∙ elim (Bool-cases (leb (b % n) i)) [
      | inl below ↦ rw below (
          ap (λ x. x % n) (let e : b % n + (i - b % n) ≡ i = ground (arith, below) in e)
          ∙ mod-eq_of_lt h)
      | inr above ↦ rw above (
          ap (λ x. x % n)
            (let e : b % n + (i + n - b % n) ≡ i + n = ground (arith, above, small) in e)
          ∙ (add-mod_right i n ∙ mod-eq_of_lt h))
    ]

-- The state after so many timeouts.
unfoldable pub time_out : ℕ → BftConsensus → BftConsensus
time_out zero s = s
time_out (suc k) s = (on_timeout (time_out k s)).1

start_round-next :
    (s : BftConsensus)
    → start_round s.height (s.round + 1) s ≡ (ok tt, begin_round s.height (s.round + 1) s)
unfolding start_round
start_round-next s = ground arith

-- A timeout starts the next round of the same height, where that round is a u32.
on_timeout-rounds :
    (s : BftConsensus)
    → s.round + 1 ≤ u32_max
    → ((on_timeout s).1.height ≡ s.height)
      × ((on_timeout s).1.round ≡ s.round + 1)
      × ((on_timeout s).1.validators ≡ s.validators)
unfolding on_timeout begin_round
on_timeout-rounds s fits =
    let next : checked_add u32_max s.round 1 ≡ some (s.round + 1) = ground (arith, fits) in
    let starts = start_round-next s in
    rw (next, on_timeout)
      (rw starts (
        ap (λ (r : Step (Unit {0})). r.1.height) starts,
        ap (λ (r : Step (Unit {0})). r.1.round) starts,
        ap (λ (r : Step (Unit {0})). r.1.validators) starts,
      ))

time_out-rounds :
    (k : ℕ) (s : BftConsensus)
    → s.round + k ≤ u32_max
    → ((time_out k s).height ≡ s.height)
      × ((time_out k s).round ≡ s.round + k)
      × ((time_out k s).validators ≡ s.validators)
unfolding time_out
time_out-rounds zero s fits = (refl, omega arith, refl)
time_out-rounds (suc k) s fits =
    let (height, round, validators) = time_out-rounds k s (omega (arith, fits)) in
    let (height', round', validators') =
      on_timeout-rounds (time_out k s) (omega (arith, round, fits)) in
    (height' ∙ height, omega (arith, round', round), validators' ∙ validators)

-- In as many rounds as there are validators, each registered validator is expected to propose: from
-- any state whose rounds stay u32 that long, and their sums with the height u64, there is a number of
-- timeouts, less than the number of validators, after which the state is in a round that is later by
-- that number, and the expected proposer is that validator.
pub every_validator_proposes :
    (s : BftConsensus) (id : String)
    → contains_key id s.validators ≡ true
    → s.round + length (map (λ (e : String × ℕ). e.0) s.validators) ≤ u32_max + 1
    → s.height + s.round + length (map (λ (e : String × ℕ). e.0) s.validators) ≤ u64_max
    → (k : ℕ) × (k < length (map (λ (e : String × ℕ). e.0) s.validators))
      × ((time_out k s).round ≡ s.round + k)
      × (expected_proposer (time_out k s) ≡ some id)
unfolding expected_proposer
every_validator_proposes s id c short_rounds fits =
    let ids = sort string_le (keys s.validators) in
    let same : length ids ≡ length (keys s.validators) =
      length-sort string_le (keys s.validators) in
    let (i, lt, at) =
      In-get_elem? id ids
        (sort-In string_le id (keys s.validators) (contains_key-keys id s.validators c)) in
    let base = s.height - 1 + s.round in
    let k = turns base i (length ids) in
    let short : k < length ids = turns-lt base i (length ids) lt in
    let (height, round, validators) =
      time_out-rounds k s (omega (arith, short, same, short_rounds)) in
    (
      k,
      rw (← same) short,
      round,
      rw (height, round, validators)
          (ap (λ x. get_elem? ids (x % length ids))
              (no_wrap s.height s.round k (length ids) short (rw same fits))
            ∙ (ap (get_elem? ids) (turns-mod base i (length ids) lt) ∙ at)),
    )
