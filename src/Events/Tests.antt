-- ===== src/Events/Tests.antt =====
-- Rewards and schedules, and the theorems of src/scheduled_event.rs applied to them.
use aah_chain.Base.{ℕ, ◌≤◌, String, List, [], ◌∷◌, ◌≡◌, refl, map}
use aah_chain.Base.Keys.{string_eq}
use aah_chain.Base.Lists.{length}
use aah_chain.Base.Sets.{All, IsNodup, contains, insert}
use aah_chain.Base.Sorting.{sort}
use aah_chain.Events.Equality.{events_beq}
use aah_chain.Wallet.{verify_signature}
use aah_chain.Base.Outcome.{ok}
use aah_chain.Types.{ValidatorRegistration, ScheduledEventAction, ScheduledEvent}
use aah_chain.Events.{validate_action, validate_block_events}
use aah_chain.Events.Validity.{HasSigned, bootstrap_reward_is_proved}
use aah_chain.Consensus.Tests.{toy}

abbrev registration : String → String → ValidatorRegistration
registration id peer = record { validator_id = id; peer_id = peer; signature_hex = "sig" }

abbrev four_registrations : List ValidatorRegistration
four_registrations =
    registration "v1" "p1"
    ∷ registration "v2" "p2"
    ∷ registration "v3" "p3"
    ∷ registration "v4" "p4"
    ∷ []

reward_is_valid :
    validate_action toy (ScheduledEventAction.bootstrap_validator_reward four_registrations 7)
    ≡ ok tt
unfolding validate_action contains insert verify_signature
reward_is_valid = refl

bootstrap_reward_is_proved_example :
    (length four_registrations ≡ 4)
    × (1 ≤ 7)
    × IsNodup (map (λ (r : ValidatorRegistration). r.peer_id) four_registrations)
    × IsNodup (map (λ (r : ValidatorRegistration). r.validator_id) four_registrations)
    × All (HasSigned toy) four_registrations
bootstrap_reward_is_proved_example =
    bootstrap_reward_is_proved toy four_registrations 7 reward_is_valid

abbrev upgrade : String → ℕ → ScheduledEvent
upgrade id time = record {
  id = id;
  execute_at = time;
  action = ScheduledEventAction.protocol_checkpoint 2;
}

abbrev plan : List ScheduledEvent
plan = upgrade "late" 20 ∷ upgrade "done" 5 ∷ upgrade "early" 10 ∷ upgrade "never" 99 ∷ []

abbrev in_order : List ScheduledEvent
in_order = upgrade "early" 10 ∷ upgrade "late" 20 ∷ []

in_order_is_accepted : validate_block_events plan 20 in_order ("done" ∷ []) ≡ ok tt
unfolding validate_block_events events_beq sort contains
in_order_is_accepted = refl
