-- ===== src/Consensus/Bft/Members.antt =====
-- Which lists of validators `BftConsensus::new` of src/consensus.rs takes.
use aah_chain.Base.{ℕ, ◌≤◌, String, List, [], ◌∷◌, true, false, ◌≡◌, refl, arith, inl, inr, map}
use aah_chain.Base.Tests.{eqb}
use aah_chain.Base.Keys.{string_eq}
use aah_chain.Base.Lists.{length}
use aah_chain.Base.Maps
use aah_chain.Base.Maps.{Map, get, contains_key, get-insert}
use aah_chain.Base.Sets.{All, IsNodup, contains}
use aah_chain.Base.Outcome.{ok, Outcome-cases}
use aah_chain.Consensus.Messages.{Validator}
use aah_chain.Consensus.Bft
use aah_chain.Consensus.Bft.{BftConsensus, register}

-- Validators with distinct ids and some power each are taken.
register-ok :
    (vs : List Validator) (m : Map String ℕ)
    → All (λ (v : Validator). 1 ≤ v.voting_power) vs
    → IsNodup (map (λ (v : Validator). v.id) vs)
    → ((k : String)
        → contains k (map (λ (v : Validator). v.id) vs) ≡ true
        → contains_key k m ≡ false)
    → (m' : Map String ℕ) × (register vs m ≡ ok m')
unfolding register contains_key contains
register-ok [] m powers distinct fresh = (m, refl)
register-ok (v ∷ vs) m powers distinct fresh =
    let new : contains_key v.id m ≡ false =
      fresh v.id (ground (arith, string_eq.beq_iff v.id v.id)) in
    let positive : eqb v.voting_power 0 ≡ false = ground (arith, powers.0) in
    let (m', f) = register-ok vs (Maps.insert v.id v.voting_power m) powers.1 distinct.1 (λ k i.
      ground (
        arith,
        i,
        distinct.0,
        fresh k (ground (arith, i)),
        get-insert v.id k v.voting_power m,
        string_eq.beq_iff v.id k,
      )) in
    (m', rw (positive, new, register) f)

pub new-ok :
    (vs : List Validator)
    → 1 ≤ length vs
    → All (λ (v : Validator). 1 ≤ v.voting_power) vs
    → IsNodup (map (λ (v : Validator). v.id) vs)
    → (s : BftConsensus) × (Bft.new vs ≡ ok s)
unfolding Bft.new contains_key
new-ok [] l powers distinct = ground (arith, l)
new-ok (v ∷ vs) l powers distinct =
    let (m, f) = register-ok (v ∷ vs) [] powers distinct (λ k i. refl) in
    elim (Outcome-cases (Bft.new (v ∷ vs))) [
      | inl started ↦ started
      | inr (e, bad) ↦ cc (rw (f, Bft.new) at bad)
    ]
