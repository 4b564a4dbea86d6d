-- ===== src/ValidatorPolicy/Tests.antt =====
-- Six candidates for four places, and the theorems of src/validator_policy.rs applied to them.
use aah_chain.Base.{ℕ, ◌≤◌, String, List, [], ◌∷◌, Bool, true, false, some, ◌≡◌, refl, map}
use aah_chain.Base.Lists.{length}
use aah_chain.Base.Maps
use aah_chain.Base.Maps.{Map, get, get_or_zero}
use aah_chain.Base.Sets
use aah_chain.Base.Sets.{contains}
use aah_chain.Base.Sorting.{sort, insert_sorted}
use aah_chain.Base.Bytes.{as_bytes, trim_0x, to_ascii_lowercase}
use aah_chain.Base.Outcome.{ok}
use aah_chain.Consensus.Bft
use aah_chain.Consensus.Bft.{BftConsensus}
use aah_chain.Consensus.Tests.{toy}
use aah_chain.ValidatorPolicy.{
  ValidatorCandidate, ValidatorPolicy, SelectedValidator, default_policy, select, validate_policy,
  validate_candidate, scan, choose, by_country, country_ranked, voting_power, normalize_account,
}
use aah_chain.ValidatorPolicy.Selection.{selection_starts_consensus}

abbrev candidate : String → String → Bool → ValidatorCandidate
candidate id account approved = record {
  validator_id = id;
  stake_account = account;
  delegated_stake = 5;
  country_code = some "KR";
  identity_country_verified = true;
  ownership_proof_verified = true;
  node_endpoint = some "node";
  observed_epochs = 1;
  uptime_bps = 9900;
  administrator_approved = approved;
  blocked = false;
}

abbrev poor : ValidatorCandidate
poor = candidate "v5" "0x5555555555555555555555555555555555555555" false

-- one is blocked, and one is nobody's choice
abbrev candidates : List ValidatorCandidate
candidates =
    candidate "v1" "0x1111111111111111111111111111111111111111" false
    ∷ candidate "v2" "0x2222222222222222222222222222222222222222" true
    ∷ candidate "v3" "3333333333333333333333333333333333333333" true
    ∷ (record (candidate "v4" "0x4444444444444444444444444444444444444444" true) { blocked = true })
    ∷ (record poor { identity_country_verified = false })
    ∷ candidate "v6" "0x6666666666666666666666666666666666666666" true
    ∷ []

abbrev policy : ValidatorPolicy
policy = record default_policy { country_rank_limit = 1 }

abbrev balances : Map String ℕ
balances =
    ("0x1111111111111111111111111111111111111111", 500)
    ∷ ("0x3333333333333333333333333333333333333333", 70)
    ∷ []

abbrev chosen : List SelectedValidator
chosen =
    choose policy 1000
      (elim (scan toy policy balances 1000 candidates [] []) [ ok es ↦ es | _ ↦ [] ])

four_selected :
    map (λ (s : SelectedValidator). s.validator.id) chosen ≡ "v1" ∷ "v3" ∷ "v2" ∷ "v6" ∷ []
unfolding select sort as_bytes trim_0x contains Sets.insert normalize_account to_ascii_lowercase
    get_or_zero Maps.insert
four_selected = refl

selects : select toy policy candidates balances 1000 ≡ ok chosen
unfolding select validate_policy scan validate_candidate choose by_country country_ranked
    voting_power normalize_account get get_or_zero Maps.insert contains Sets.insert sort
    insert_sorted as_bytes trim_0x to_ascii_lowercase
selects = refl

selection_starts_consensus_example :
    (policy.min_validators ≤ length chosen)
    × (length chosen ≤ policy.max_validators)
    × ((s : BftConsensus) × (Bft.new (map (λ (v : SelectedValidator). v.validator) chosen) ≡ ok s))
selection_starts_consensus_example =
    selection_starts_consensus toy policy candidates balances 1000 chosen selects
