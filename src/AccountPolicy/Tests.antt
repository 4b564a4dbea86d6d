-- ===== src/AccountPolicy/Tests.antt =====
-- A policy of three keys, and the theorems of src/account_security.rs applied to it.
use aah_chain.Base.{ℕ, ◌≤◌, String, List, [], ◌∷◌, some, ◌≡◌, refl, map}
use aah_chain.Base.Keys.{string_eq}
use aah_chain.Base.Maps.{get}
use aah_chain.Base.Sets.{In, IsNodup, contains, insert}
use aah_chain.Base.Outcome.{ok}
use aah_chain.AccountPolicy.{
  Permission, permission_eq, AccountKey, AccountPolicy, Authorization, validate_policy, authorize,
}
use aah_chain.AccountPolicy.Quorum.{
  total_weight, IsCounted, authorization_has_weight, valid_policy_is_satisfiable,
}

abbrev key : String → AccountKey
key name = record {
  public_key = name;
  weight = 1;
  permissions = Permission.transfer ∷ Permission.high_value_transfer ∷ [];
}

abbrev three_keys : AccountPolicy
three_keys = record {
  keys = key "key-1" ∷ key "key-2" ∷ key "key-3" ∷ [];
  thresholds = (Permission.transfer, 1) ∷ (Permission.high_value_transfer, 2) ∷ [];
  high_value_amount = 1000;
  policy_nonce = 7;
}

abbrev two_signers : Authorization
two_signers = record { policy_nonce = 7; signer_keys = "key-1" ∷ "key-3" ∷ [] }

enough_weight : authorize Permission.high_value_transfer two_signers three_keys ≡ ok tt
unfolding authorize get contains insert
enough_weight = refl

authorization_has_weight_example :
    (threshold : ℕ) × (counted : List AccountKey) × (get Permission.high_value_transfer
        three_keys.thresholds
      ≡ some threshold)
    × (7 ≡ three_keys.policy_nonce)
    × (1 ≤ threshold)
    × (threshold ≤ total_weight counted)
    × IsNodup (map (λ (k : AccountKey). k.public_key) counted)
    × ((k : AccountKey)
        → In k counted
        → IsCounted Permission.high_value_transfer two_signers three_keys k)
authorization_has_weight_example =
    authorization_has_weight Permission.high_value_transfer two_signers three_keys enough_weight

policy_is_valid : validate_policy three_keys ≡ ok tt
unfolding validate_policy contains insert
policy_is_valid = refl

threshold_is_two : get Permission.high_value_transfer three_keys.thresholds ≡ some 2
unfolding get
threshold_is_two = refl

valid_policy_is_satisfiable_example :
    authorize Permission.high_value_transfer
      (record {
        policy_nonce = 7;
        signer_keys = map (λ (k : AccountKey). k.public_key) three_keys.keys;
      })
      three_keys
    ≡ ok tt
valid_policy_is_satisfiable_example =
    valid_policy_is_satisfiable Permission.high_value_transfer three_keys 2 policy_is_valid
      threshold_is_two
