-- ===== src/Consensus/Era/Tests.antt =====
-- A change of validators, and the theorems of src/consensus_era.rs applied to it.
use aah_chain.Base.{ℕ, ◌+◌, ◌%◌, ◌≤◌, ◌<◌, List, [], ◌∷◌, none, some, ◌≡◌, refl, arith}
use aah_chain.Base.Sets.{contains, insert}
use aah_chain.Base.Outcome.{ok}
use aah_chain.Consensus.Messages.{Validator}
use aah_chain.Consensus.Era.{EraConfig, ValidatorSetUpdate, EraManager, new, schedule, apply_height}
use aah_chain.Consensus.Era.Schedule.{Call, run, IsSound, every_set_stays_valid}
use aah_chain.Consensus.Era.Boundary.{scheduled_change_waits_for_boundary}
use aah_chain.Consensus.Tests.{four}

abbrev config : EraConfig
config = record { era_length = 10; activation_delay = 3 }

abbrev five : List Validator
five = (record { id = "v5"; voting_power = 2 }) ∷ four

abbrev manager : EraManager
manager = record { config = config; active = four; pending = [] }

manager_is_new : new config four ≡ ok manager
unfolding new contains insert
manager_is_new = refl

abbrev calls : List Call
calls = Call.request 4 five ∷ Call.reach 9 ∷ []

abbrev update : ValidatorSetUpdate
update = record { requested_height = 4; activation_height = 10; validators = five }

change_is_made : (apply_height 10 (run calls manager)).0 ≡ some update
unfolding apply_height run schedule contains insert
change_is_made = refl

every_set_stays_valid_example : IsSound (run calls manager)
every_set_stays_valid_example = every_set_stays_valid config four calls manager_is_new

abbrev waiting : EraManager
waiting = record manager { pending = (10, update) ∷ [] }

change_is_scheduled : schedule 4 five manager ≡ ok (10, waiting)
unfolding schedule contains insert
change_is_scheduled = refl

scheduled_change_waits_for_boundary_example :
    (10 % config.era_length ≡ 0)
    × (4 + config.activation_delay ≤ 10)
    × (10 < 4 + config.activation_delay + config.era_length)
    × ((h : ℕ) → h < 10 → (apply_height h waiting).0 ≡ (apply_height h manager).0)
    × ((h : ℕ)
        → 10 ≤ h
        → (apply_height h manager).0 ≡ none
        → (apply_height h waiting).1.active ≡ five)
scheduled_change_waits_for_boundary_example =
    scheduled_change_waits_for_boundary 4 five manager change_is_scheduled (omega arith)
      (omega arith)
