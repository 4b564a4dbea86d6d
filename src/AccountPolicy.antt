-- ===== src/AccountPolicy.antt =====
-- src/account_security.rs: accounts with several weighted keys. A `HashSet` is a list, and the
-- thresholds are a map from permissions.
pub mod Quorum
mod Tests
use aah_chain.Base.{
  ℕ, ◌+◌, String, List, [], ◌∷◌, Bool, true, false, Option, none, some, ◌≡◌, ◌↔◌, ◌||◌, ◌&&◌, not,
  arith,
}
use aah_chain.Base.Tests.{if◌then◌else◌, eqb, leb, ltb}
use aah_chain.Base.Keys.{Eq, ◌==◌, string_eq, nat_eq}
use aah_chain.Base.Lists.{is_empty}
use aah_chain.Base.Maps.{Map, get}
use aah_chain.Base.Sets
use aah_chain.Base.Words.{u32_max, wrap}
use aah_chain.Base.Outcome.{Outcome, ok, err, ◌>>=◌, ◌>>◌, fail_if, ok_or}
use aah_chain.Errors.{
  Error, no_account_keys, bad_account_keys, bad_threshold, old_policy, no_threshold, low_weight,
  recovery_early, recovery_no_keys,
}

pub data Permission : Type 0 where
  transfer high_value_transfer validator account_recovery : Permission

abbrev pub permission_beq : Permission → Permission → Bool
permission_beq Permission.transfer Permission.transfer = true
permission_beq Permission.high_value_transfer Permission.high_value_transfer = true
permission_beq Permission.validator Permission.validator = true
permission_beq Permission.account_recovery Permission.account_recovery = true
permission_beq _ _ = false

pub permission_beq_iff : (a b : Permission) → (permission_beq a b ≡ true) ↔ (a ≡ b)
permission_beq_iff a b = ground arith

instance abbrev pub permission_eq : Eq Permission
permission_eq = record { beq = permission_beq; beq_iff = permission_beq_iff }

pub record AccountKey : Type 0 where
  pub public_key : String
  pub weight : ℕ
  pub permissions : List Permission

pub record AccountPolicy : Type 0 where
  pub keys : List AccountKey
  pub thresholds : Map Permission ℕ
  pub high_value_amount : ℕ
  pub policy_nonce : ℕ

pub record Authorization : Type 0 where
  pub policy_nonce : ℕ
  pub signer_keys : List String

-- the test of all keys in `validate`
unfoldable pub are_bad_keys : List AccountKey → List String → Bool
are_bad_keys [] unique = false
are_bad_keys (key ∷ keys) unique =
    let rest = are_bad_keys keys (Sets.insert key.public_key unique) in
    if eqb key.weight 0 || Sets.contains key.public_key unique then true else rest

-- the weight of the keys that pass a test, before it wraps
unfoldable pub weight_of : (AccountKey → Bool) → List AccountKey → ℕ
weight_of counts [] = 0
weight_of counts (key ∷ keys) =
    let rest = weight_of counts keys in if counts key then key.weight + rest else rest

abbrev pub has_permission : Permission → AccountKey → Bool
has_permission permission key = Sets.contains permission key.permissions

-- the loop of `validate` over the thresholds
unfoldable pub check_thresholds : List AccountKey → List (Permission × ℕ) → Outcome Error (Unit {0})
unfolding weight_of
check_thresholds keys [] = ok tt
check_thresholds keys ((permission, threshold) ∷ rest) = do
  let available = wrap u32_max (weight_of (has_permission permission) keys)
  fail_if (eqb threshold 0 || ltb available threshold) bad_threshold
  check_thresholds keys rest

-- `AccountPolicy::validate`
unfoldable pub validate_policy : AccountPolicy → Outcome Error (Unit {0})
unfolding are_bad_keys check_thresholds
validate_policy policy = do
  fail_if (is_empty policy.keys) no_account_keys
  fail_if (are_bad_keys policy.keys []) bad_account_keys
  check_thresholds policy.keys policy.thresholds

-- Does the key count for this permission under these signers.
abbrev pub is_signing : Permission → List String → AccountKey → Bool
is_signing permission signers key =
    Sets.contains key.public_key signers && has_permission permission key

-- `AccountPolicy::authorize`
unfoldable pub authorize : Permission → Authorization → AccountPolicy → Outcome Error (Unit {0})
unfolding validate_policy
authorize permission authorization policy = do
  validate_policy policy
  fail_if (not (authorization.policy_nonce == policy.policy_nonce)) old_policy
  threshold ← ok_or (get permission policy.thresholds) no_threshold
  let weight =
      wrap u32_max (weight_of (is_signing permission authorization.signer_keys) policy.keys)
  fail_if (ltb weight threshold) low_weight

-- `transfer_permission`
unfoldable pub transfer_permission : ℕ → AccountPolicy → Permission
transfer_permission amount policy =
    if leb policy.high_value_amount amount
    then Permission.high_value_transfer
    else Permission.transfer

pub record RecoveryRequest : Type 0 where
  pub account : String
  pub new_keys : List AccountKey
  pub execute_after_height : ℕ
  pub authorization : Authorization

-- `RecoveryRequest::verify`
unfoldable pub verify_recovery : ℕ → AccountPolicy → RecoveryRequest → Outcome Error (Unit {0})
unfolding authorize
verify_recovery current_height policy request = do
  fail_if (ltb current_height request.execute_after_height) recovery_early
  fail_if (is_empty request.new_keys) recovery_no_keys
  authorize Permission.account_recovery request.authorization policy
