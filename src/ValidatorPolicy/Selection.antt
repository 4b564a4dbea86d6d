-- ===== src/ValidatorPolicy/Selection.antt =====
-- What `select` of src/validator_policy.rs promises to the consensus.
use aah_chain.Base.{ℕ, suc, ◌≤◌, String, List, [], ◌∷◌, ◌≡◌, refl, arith, inl, inr, ap, map}
use aah_chain.Base.Tests.{eqb, ltb}
use aah_chain.Base.Keys.{string_eq}
use aah_chain.Base.Lists.{length, keep}
use aah_chain.Base.Maps.{Map}
use aah_chain.Base.Sets.{In, All, IsNodup}
use aah_chain.Base.Sorting.{In-sort}
use aah_chain.Base.Distinct.{
  In-All, In-take, In-keep, length-take, sort-IsNodup, take-IsNodup, keep-IsNodup,
}
use aah_chain.Base.Words.{u64_max}
use aah_chain.Base.Outcome.{ok, >>=-eq-ok, fail_if-eq-ok}
use aah_chain.Crates.{Crates}
use aah_chain.Consensus.Messages.{Validator}
use aah_chain.Consensus.Bft
use aah_chain.Consensus.Bft.{BftConsensus, register}
use aah_chain.ValidatorPolicy.{
  ValidatorCandidate, ValidatorPolicy, SelectedValidator, Entry, validate_policy, voting_power,
  scan, selected_le, selected_of, is_qualified, country_ranked, by_country, choose, select,
}
use aah_chain.Consensus.Bft.Members.{new-ok}
use aah_chain.ValidatorPolicy.Scan.{id_of, IsScanned, scan-IsScanned}

-- The id of a validator that is selected.
abbrev pub id_of_selected : SelectedValidator → String
id_of_selected s = s.validator.id

voting_power-bounds :
    (stake supply : ℕ) → (1 ≤ voting_power stake supply) × (voting_power stake supply ≤ u64_max)
unfolding voting_power
voting_power-bounds stake supply = (ground arith, ground arith)

ids-selected :
    (supply : ℕ) (es : List Entry) → map id_of_selected (map (selected_of supply) es) ≡ map id_of es
ids-selected supply [] = refl
ids-selected supply (e ∷ es) = ap (λ ids. id_of e ∷ ids) (ids-selected supply es)

In-map :
    {A B : Type 0} (f : A → B) (x : B) (xs : List A)
    → In x (map f xs)
    → (y : A) × In y xs × (x ≡ f y)
In-map f x [] i = absurd i
In-map f x (y ∷ ys) (inl p) = (y, inl refl, p)
In-map f x (y ∷ ys) (inr i) = let (z, j, p) = In-map f x ys i in (z, inr j, p)

In-choose :
    (p : ValidatorPolicy) (supply : ℕ) (es : List Entry) (s : SelectedValidator)
    → In s (choose p supply es)
    → (e : Entry) × In e es × (s ≡ selected_of supply e)
unfolding choose
In-choose p supply es s i =
    let ranked = country_ranked p.country_rank_limit (by_country es []) in
    let chosen = keep (is_qualified ranked) es in
    let (e, j, q) =
      In-map (selected_of supply) s chosen
        (In-sort selected_le s _ (In-take p.max_validators s _ i)) in
    (e, In-keep (is_qualified ranked) e es j, q)

choose-IsNodup :
    (p : ValidatorPolicy) (supply : ℕ) (es : List Entry)
    → IsNodup (map id_of es)
    → IsNodup (map id_of_selected (choose p supply es))
unfolding choose
choose-IsNodup p supply es h =
    let ranked = country_ranked p.country_rank_limit (by_country es []) in
    let chosen = keep (is_qualified ranked) es in
    take-IsNodup id_of_selected p.max_validators _ (
      sort-IsNodup id_of_selected selected_le _
        (rw (ids-selected supply chosen) (keep-IsNodup id_of (is_qualified ranked) es h)))

choose-length :
    (p : ValidatorPolicy) (supply : ℕ) (es : List Entry)
    → length (choose p supply es) ≤ p.max_validators
unfolding choose
choose-length p supply es = length-take p.max_validators _

ids-validators :
    (selected : List SelectedValidator)
    → map (λ (v : Validator). v.id) (map (λ (v : SelectedValidator). v.validator) selected)
      ≡ map id_of_selected selected
ids-validators [] = refl
ids-validators (s ∷ ss) = ap (λ ids. id_of_selected s ∷ ids) (ids-validators ss)

length-map : {A B : Type 0} (f : A → B) (xs : List A) → length (map f xs) ≡ length xs
length-map f [] = refl
length-map f (x ∷ xs) = ap suc (length-map f xs)

-- What is known of a selection that succeeds.
record IsSelection (crates : Crates) (p : ValidatorPolicy) (candidates : List ValidatorCandidate)
    (balances : Map String ℕ) (supply : ℕ) (selected : List SelectedValidator) : Type 0 where
  eligible : List Entry
  scanned : IsScanned crates p balances supply candidates [] eligible
  chosen : choose p supply eligible ≡ selected
  enough : p.min_validators ≤ length selected
  at_least_four : 4 ≤ p.min_validators

select-IsSelection :
    (crates : Crates) (p : ValidatorPolicy) (candidates : List ValidatorCandidate)
    (balances : Map String ℕ) (supply : ℕ) {selected : List SelectedValidator}
    → select crates p candidates balances supply ≡ ok selected
    → IsSelection crates p candidates balances supply selected
unfolding select
select-IsSelection crates p candidates balances supply {selected} h =
    let (_, valid, h1) = >>=-eq-ok (validate_policy p) _ h in
    let (_, h2) = fail_if-eq-ok (eqb supply 0) _ _ h1 in
    let (eligible, f, h3) = >>=-eq-ok (scan crates p balances supply candidates [] []) _ h2 in
    let (enough, h4) =
      fail_if-eq-ok (ltb (length (choose p supply eligible)) p.min_validators) _ _ h3 in
    let same : choose p supply eligible ≡ selected = cc h4 in
    record {
      eligible = eligible;
      scanned = scan-IsScanned crates p balances supply candidates [] [] f;
      chosen = same;
      enough = rw (← same) (ground (arith, enough));
      at_least_four = unfold validate_policy in ground (arith, valid);
    }

-- A selection that succeeds holds at least the least and at most the greatest number of validators
-- of the policy, and BftConsensus::new takes it: no id stands in it twice, and each has some power.
pub selection_starts_consensus :
    (crates : Crates) (p : ValidatorPolicy) (candidates : List ValidatorCandidate)
    (balances : Map String ℕ) (supply : ℕ) (selected : List SelectedValidator)
    → select crates p candidates balances supply ≡ ok selected
    → (p.min_validators ≤ length selected)
      × (length selected ≤ p.max_validators)
      × ((s : BftConsensus) × (Bft.new (map (λ (v : SelectedValidator). v.validator) selected)
            ≡ ok s))
selection_starts_consensus crates p candidates balances supply selected h =
    let i = select-IsSelection crates p candidates balances supply h in
    let vs = map (λ (v : SelectedValidator). v.validator) selected in
    let distinct : IsNodup (map (λ (v : Validator). v.id) vs) =
      rw (ids-validators selected, ← i.chosen)
        (choose-IsNodup p supply i.eligible i.scanned.distinct) in
    let powers : All (λ (v : Validator). 1 ≤ v.voting_power) vs = In-All _ vs (λ v j.
      let (s, k, same) = In-map (λ (x : SelectedValidator). x.validator) v selected j in
      let (e, _, from) = In-choose p supply i.eligible s (rw i.chosen k) in
      rw (same, from) (voting_power-bounds e.stake supply).0) in
    (
      i.enough,
      rw (← i.chosen) (choose-length p supply i.eligible),
      new-ok vs
          (ground (
            arith,
            i.enough,
            i.at_least_four,
            length-map (λ (v : SelectedValidator). v.validator) selected,
          ))
          powers distinct,
    )
