-- ===== src/Consensus/Era.antt =====
-- src/consensus_era.rs: nil votes, and `EraManager`, which changes the set of validators at the
-- boundaries of eras.
pub mod Schedule
pub mod Boundary
mod Tests
use aah_chain.Base.{
  ℕ, ◌+◌, ◌*◌, ◌/◌, String, List, [], ◌∷◌, Bool, true, false, Option, none, some, ◌≡◌, ◌||◌, not,
}
use aah_chain.Base.Tests.{if◌then◌else◌, eqb, leb, ltb}
use aah_chain.Base.Keys.{◌==◌, string_eq}
use aah_chain.Base.Lists.{length}
use aah_chain.Base.Sets
use aah_chain.Base.Words.{u64_max, checked_add, saturating_mul, div_ceil}
use aah_chain.Base.Outcome.{Outcome, ok, err, ◌>>=◌, ◌>>◌, fail_if, ok_or}
use aah_chain.Errors.{
  Error, nil_value, era_config, height_overflow, too_few_validators, bad_validator_set,
}
use aah_chain.Crates.{Crates}
use aah_chain.Consensus.Messages.{Validator, ConsensusMessage, verify_vote}
use aah_chain.Consensus.Certificate.{nil_block_hash}

-- `NilVote::verify`
unfoldable pub verify_nil_vote : Crates → ConsensusMessage → Outcome Error (Unit {0})
verify_nil_vote crates message = do
  fail_if (not (message.block_hash == nil_block_hash)) nil_value
  verify_vote crates message

pub record EraConfig : Type 0 where
  pub era_length : ℕ
  pub activation_delay : ℕ

pub record ValidatorSetUpdate : Type 0 where
  pub requested_height : ℕ
  pub activation_height : ℕ
  pub validators : List Validator

-- `pending` is a `BTreeMap`: its entries stand in the order of their heights.
pub record EraManager : Type 0 where
  pub config : EraConfig
  pub active : List Validator
  pub pending : List (ℕ × ValidatorSetUpdate)

-- the loop of `validate_set` over the validators
unfoldable pub is_bad_set : List Validator → List String → Bool
is_bad_set [] ids = false
is_bad_set (v ∷ vs) ids =
    let rest = is_bad_set vs (Sets.insert v.id ids) in
    if eqb v.voting_power 0 || Sets.contains v.id ids then true else rest

-- `validate_set`
unfoldable pub validate_set : List Validator → Outcome Error (Unit {0})
unfolding is_bad_set
validate_set validators = do
  fail_if (ltb (length validators) 4) too_few_validators
  fail_if (is_bad_set validators []) bad_validator_set

-- `EraManager::new`
unfoldable pub new : EraConfig → List Validator → Outcome Error EraManager
unfolding validate_set
new config validators = do
  validate_set validators
  fail_if (eqb config.era_length 0 || eqb config.activation_delay 0) era_config
  ok (record { config = config; active = validators; pending = [] })

-- `era_at`
unfoldable pub era_at : EraManager → ℕ → ℕ
era_at m height = height / m.config.era_length

-- `BTreeMap::insert`: an entry of the same height is replaced, another goes where its height
-- belongs
unfoldable pub insert_update :
    ℕ → ValidatorSetUpdate → List (ℕ × ValidatorSetUpdate) → List (ℕ × ValidatorSetUpdate)
insert_update h u [] = (h, u) ∷ []
insert_update h u ((j, w) ∷ m) =
    let rest = insert_update h u m in
    if eqb h j then (h, u) ∷ m else if ltb h j then (h, u) ∷ (j, w) ∷ m else (j, w) ∷ rest

-- The height at which a request takes effect.
unfoldable pub activation_height : EraConfig → ℕ → Outcome Error ℕ
activation_height config requested_height = do
  earliest ← ok_or (checked_add u64_max requested_height config.activation_delay) height_overflow
  ok (saturating_mul u64_max (div_ceil earliest config.era_length) config.era_length)

-- `schedule`: the activation height and the manager afterwards
unfoldable pub schedule : ℕ → List Validator → EraManager → Outcome Error (ℕ × EraManager)
unfolding validate_set activation_height insert_update
schedule requested_height validators m = do
  validate_set validators
  activation ← activation_height m.config requested_height
  let update : ValidatorSetUpdate = record {
    requested_height = requested_height;
    activation_height = activation;
    validators = validators;
  }
  ok (activation, record m { pending = insert_update activation update m.pending })

-- The first entry that is due, and the entries without it: `find` on the keys, then `remove`.
unfoldable pub take_due :
    ℕ → List (ℕ × ValidatorSetUpdate) → Option (ValidatorSetUpdate × List (ℕ × ValidatorSetUpdate))
take_due height [] = none
take_due height ((j, u) ∷ m) =
    let rest = take_due height m in
    if leb j height
    then some (u, m)
    else elim rest [ none ↦ none | some (v, m') ↦ some (v, (j, u) ∷ m') ]

-- `apply_height`
unfoldable pub apply_height : ℕ → EraManager → Option ValidatorSetUpdate × EraManager
unfolding take_due
apply_height height m = elim (take_due height m.pending) [
  | none ↦ (none, m)
  | some (update, pending) ↦
      (some update, record m { active = update.validators; pending = pending })
]
