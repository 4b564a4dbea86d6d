-- ===== src/ValidatorPolicy.antt =====
-- src/validator_policy.rs: which candidates become validators. A map of the source that is only read
-- is an association list; text is compared by its bytes.
pub mod Scan
pub mod Selection
mod Tests
use Prim.Native.String.{◌++◌ as append}
use aah_chain.Base.{
  ℕ, ◌+◌, ◌*◌, ◌/◌, ◌≤◌, max, min, String, List, [], ◌∷◌, ◌++◌, Bool, true, false, Option, none,
  some, ◌≡◌, ◌||◌, ◌&&◌, not, map,
}
use aah_chain.Base.Tests.{if◌then◌else◌, eqb, leb, ltb, is_some, unwrap_or}
use aah_chain.Base.Keys.{◌==◌, string_eq, option_eq, nat_eq}
use aah_chain.Base.Lists.{length, take, keep}
use aah_chain.Base.Maps
use aah_chain.Base.Maps.{Map, get, get_or_zero}
use aah_chain.Base.Sets
use aah_chain.Base.Sorting.{sort}
use aah_chain.Base.Bytes.{as_bytes, trim_0x, to_ascii_lowercase}
use aah_chain.Base.Words.{u64_max, u128_max, saturating_add, saturating_mul}
use aah_chain.Base.Outcome.{Outcome, ok, err, ◌>>=◌, ◌>>◌, fail_if}
use aah_chain.Errors.{
  Error, bad_stake_ratio, bad_rank_limit, bad_validator_count, bad_uptime, no_supply,
  duplicate_candidate, duplicate_stake_account, candidate_id, candidate_account, candidate_country,
  candidate_endpoint, too_few_selected,
}
use aah_chain.Crates.{Crates}
use aah_chain.Consensus.Messages.{Validator}
use aah_chain.Consensus.Bft.{string_le}

abbrev pub bps_denominator : ℕ
bps_denominator = 10000

pub record ValidatorCandidate : Type 0 where
  pub validator_id : String
  pub stake_account : String
  pub delegated_stake : ℕ
  pub country_code : Option String
  pub identity_country_verified : Bool
  pub ownership_proof_verified : Bool
  pub node_endpoint : Option String
  pub observed_epochs : ℕ
  pub uptime_bps : ℕ
  pub administrator_approved : Bool
  pub blocked : Bool

pub record ValidatorPolicy : Type 0 where
  pub min_stake_bps : ℕ
  pub country_rank_limit : ℕ
  pub max_validators : ℕ
  pub min_validators : ℕ
  pub min_uptime_bps : ℕ

-- `ValidatorPolicy::default`
abbrev pub default_policy : ValidatorPolicy
default_policy = record {
  min_stake_bps = 100;
  country_rank_limit = 50;
  max_validators = 50;
  min_validators = 4;
  min_uptime_bps = 9500;
}

pub record SelectedValidator : Type 0 where
  pub validator : Validator
  pub stake : ℕ

-- `ValidatorPolicy::validate`
unfoldable pub validate_policy : ValidatorPolicy → Outcome Error (Unit {0})
validate_policy p = do
  fail_if (eqb p.min_stake_bps 0 || ltb bps_denominator p.min_stake_bps) bad_stake_ratio
  fail_if (eqb p.country_rank_limit 0) bad_rank_limit
  fail_if (ltb p.min_validators 4 || ltb p.max_validators p.min_validators) bad_validator_count
  fail_if (ltb 10000 p.min_uptime_bps) bad_uptime

-- `normalize_account`
unfoldable pub normalize_account : String → String
normalize_account value = append "0x" (to_ascii_lowercase (trim_0x value))

-- `voting_power`
unfoldable pub voting_power : ℕ → ℕ → ℕ
voting_power stake supply =
    let proportional =
      max (if eqb supply 0 then 0 else saturating_mul u128_max stake 1000000 / supply) 1 in
    min proportional u64_max

-- A candidate with what the first loop of `select` finds: its stake, and whether that is enough.
pub record Entry : Type 0 where
  pub candidate : ValidatorCandidate
  pub stake : ℕ
  pub has_minimum_stake : Bool

-- The candidates that the first loop passes over.
abbrev pub is_excluded : ValidatorPolicy → ValidatorCandidate → Bool
is_excluded p c =
    c.blocked
    || not c.ownership_proof_verified
    || not (is_some c.node_endpoint)
    || (ltb 0 c.observed_epochs && ltb c.uptime_bps p.min_uptime_bps)

-- The stake of an account with what is delegated to it.
abbrev pub stake_of : Map String ℕ → ValidatorCandidate → ℕ
stake_of balances c =
    saturating_add u128_max (get_or_zero (normalize_account c.stake_account) balances)
      c.delegated_stake

abbrev pub entry_of : ValidatorPolicy → Map String ℕ → ℕ → ValidatorCandidate → Entry
entry_of p balances supply c = record {
  candidate = c;
  stake = stake_of balances c;
  has_minimum_stake =
      leb (saturating_mul u128_max supply p.min_stake_bps)
        (saturating_mul u128_max (stake_of balances c) bps_denominator);
}

module _ (crates : Crates) where
  -- `validate_candidate`
  unfoldable pub validate_candidate : ValidatorCandidate → Outcome Error (Unit {0})
  validate_candidate c = do
    fail_if
        (elim (crates.hex_decode c.validator_id) [
          | none ↦ true
          | some bytes ↦ not (eqb (length bytes) 32)
        ])
        candidate_id
    let account = trim_0x c.stake_account
    fail_if (not (eqb (length (as_bytes account)) 40) || not (is_some (crates.hex_decode account)))
        candidate_account
    fail_if
        (c.identity_country_verified
          && not (eqb (length (as_bytes (unwrap_or c.country_code ""))) 2))
        candidate_country
    fail_if (c.node_endpoint == some "") candidate_endpoint

  -- The first loop of `select`, with the ids and the accounts so far.
  unfoldable pub scan :
      ValidatorPolicy
      → Map String ℕ
      → ℕ
      → List ValidatorCandidate
      → List String
      → List String
      → Outcome Error (List Entry)
  unfolding validate_candidate
  scan p balances supply [] ids accounts = ok []
  scan p balances supply (c ∷ cs) ids accounts = do
    validate_candidate c
    fail_if (Sets.contains c.validator_id ids) duplicate_candidate
    let account = normalize_account c.stake_account
    fail_if (Sets.contains account accounts) duplicate_stake_account
    rest ← scan p balances supply cs (Sets.insert c.validator_id ids) (Sets.insert account accounts)
    ok (if is_excluded p c then rest else entry_of p balances supply c ∷ rest)

-- `countries.entry(country).or_default().push(..)`
abbrev pub push_country : String → Entry → Map String (List Entry) → Map String (List Entry)
push_country country entry m = Maps.insert country (unwrap_or (get country m) [] ++ entry ∷ []) m

-- The verified candidates, country by country.
unfoldable pub by_country : List Entry → Map String (List Entry) → Map String (List Entry)
by_country [] m = m
by_country (e ∷ es) m = by_country es (
    if e.candidate.identity_country_verified
    then elim e.candidate.country_code [ none ↦ m | some country ↦ push_country country e m ]
    else m)

-- The orders: by stake, the greatest first, then by id.
abbrev pub ranks_before : ℕ → String → ℕ → String → Bool
ranks_before stake id stake' id' =
    if ltb stake' stake then true else if eqb stake' stake then string_le id id' else false

abbrev pub entry_le : Entry → Entry → Bool
entry_le a b = ranks_before a.stake a.candidate.validator_id b.stake b.candidate.validator_id

abbrev pub selected_le : SelectedValidator → SelectedValidator → Bool
selected_le a b = ranks_before a.stake a.validator.id b.stake b.validator.id

-- The ids of the first candidates of every country.
unfoldable pub country_ranked : ℕ → Map String (List Entry) → List String
country_ranked limit [] = []
country_ranked limit ((country, entries) ∷ m) =
    map (λ (e : Entry). e.candidate.validator_id) (take limit (sort entry_le entries))
    ++ country_ranked limit m

-- One of the three ways to be selected.
abbrev pub is_qualified : List String → Entry → Bool
is_qualified ranked e =
    e.has_minimum_stake
    || Sets.contains e.candidate.validator_id ranked
    || e.candidate.administrator_approved

abbrev pub selected_of : ℕ → Entry → SelectedValidator
selected_of supply e = record {
  validator = record { id = e.candidate.validator_id; voting_power = voting_power e.stake supply };
  stake = e.stake;
}

-- The end of `select`.
unfoldable pub choose : ValidatorPolicy → ℕ → List Entry → List SelectedValidator
unfolding by_country country_ranked
choose p supply eligible =
    let ranked = country_ranked p.country_rank_limit (by_country eligible []) in
    take p.max_validators
      (sort selected_le (map (selected_of supply) (keep (is_qualified ranked) eligible)))

-- `select`
unfoldable pub select :
    Crates
    → ValidatorPolicy
    → List ValidatorCandidate
    → Map String ℕ
    → ℕ
    → Outcome Error (List SelectedValidator)
unfolding validate_policy scan choose
select crates p candidates balances supply = do
  validate_policy p
  fail_if (eqb supply 0) no_supply
  eligible ← scan crates p balances supply candidates [] []
  let selected = choose p supply eligible
  fail_if (ltb (length selected) p.min_validators) too_few_selected
  ok selected
