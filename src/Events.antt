-- ===== src/Events.antt =====
-- src/scheduled_event.rs: validation of system events and the schedule that every node follows;
-- and the registrations of src/network.rs that reward events carry.
pub mod Equality
pub mod Validity
mod Tests
use text.Mathlib.Text.{is_le}
use Prim.Native.String.{compare, ◌++◌ as append}
use aah_chain.Base.{
  ℕ, String, List, [], ◌∷◌, Bool, true, false, Option, none, some, ◌≡◌, ◌||◌, ◌&&◌, not, map, min,
}
use aah_chain.Base.Tests.{if◌then◌else◌, eqb, leb, ltb, unwrap_or}
use aah_chain.Base.Keys.{◌==◌, string_eq, nat_eq}
use aah_chain.Base.Lists.{length, is_empty, keep}
use aah_chain.Base.Sets
use aah_chain.Base.Sorting.{sort}
use aah_chain.Base.Bytes.{
  as_bytes, all_bytes, is_ascii_alphanumeric, is_ascii_hexdigit, strip_prefix, is_blank,
}
use aah_chain.Base.Outcome.{Outcome, ok, err, ◌>>=◌, ◌>>◌, fail_if, ok_or}
use aah_chain.Errors.{
  Error, event_id, event_time_zero, payment_zero, incident_empty, protocol_version_zero,
  bootstrap_reward_count, bootstrap_reward_duplicate, milestone_reward_count,
  milestone_reward_duplicate, distribution_count, bad_address, bad_reward_address, duplicate_event,
  schedule_mismatch, node_key_not_hex, node_key_form, peer_id_mismatch, node_signature_not_hex,
  node_signature,
}
use aah_chain.Types.{
  ValidatorRegistration, NodeRewardRegistration, EventPayment, ScheduledEventAction, ScheduledEvent,
}
use aah_chain.Crates.{Crates}
use aah_chain.Wallet.{verify_signature}
use aah_chain.Events.Equality.{events_beq}

-- `validate_address`
unfoldable pub validate_address : String → Outcome Error (Unit {0})
validate_address address =
    let value = as_bytes (unwrap_or (strip_prefix "0x" address) address) in
    fail_if (not (eqb (length value) 40) || not (all_bytes is_ascii_hexdigit value)) bad_address

-- `validate_reward_address`
unfoldable pub validate_reward_address : String → Outcome Error (Unit {0})
validate_reward_address address =
    let value = as_bytes address in
    fail_if (not (eqb (length value) 64) || not (all_bytes is_ascii_hexdigit value))
      bad_reward_address

abbrev pub is_id_byte : ℕ → Bool
is_id_byte b = is_ascii_alphanumeric b || eqb b b'-' || eqb b b'_' || eqb b b'.'

-- Is the id of an event refused.
unfoldable pub is_bad_id : String → Bool
is_bad_id id =
    let bytes = as_bytes id in
    is_empty bytes || ltb 128 (length bytes) || not (all_bytes is_id_byte bytes)

-- `NodeRewardRegistration::registration_signer`
unfoldable pub registration_signer : NodeRewardRegistration → String
registration_signer r =
    if r.registration_signer == "" then r.reward_address else r.registration_signer

-- `NodeRewardRegistration::bytes_to_sign`
unfoldable pub reward_bytes : String → String → List ℕ
reward_bytes reward_address peer_id =
    as_bytes
      (append "ieum-node-reward-registration-v1:" (append reward_address (append ":" peer_id)))

-- `ValidatorRegistration::bytes_to_sign`
unfoldable pub registration_bytes : String → String → List ℕ
registration_bytes validator_id peer_id =
    as_bytes (append "ieum-validator-registration-v1:" (append validator_id (append ":" peer_id)))

-- the loop over the payments of a distribution
unfoldable pub validate_payments : List EventPayment → Outcome Error (Unit {0})
unfolding validate_address
validate_payments [] = ok tt
validate_payments (payment ∷ payments) = do
  validate_address payment.address
  fail_if (eqb payment.amount 0) payment_zero
  validate_payments payments

module _ (crates : Crates) where
  open crates use {hex_decode, peer_id_of_key, peer_key_verify}

  -- `NodeRewardRegistration::verify_node_identity`
  unfoldable pub verify_node_identity : NodeRewardRegistration → Outcome Error (Unit {0})
  unfolding reward_bytes
  verify_node_identity r = do
    key ← ok_or (hex_decode r.node_public_key_hex) node_key_not_hex
    expected_peer_id ← ok_or (peer_id_of_key key) node_key_form
    fail_if (not (expected_peer_id == r.peer_id)) peer_id_mismatch
    signature ← ok_or (hex_decode r.node_signature_hex) node_signature_not_hex
    fail_if (not (peer_key_verify key (reward_bytes r.reward_address r.peer_id) signature))
        node_signature

  -- the loop over the registrations of the first validators
  unfoldable pub validate_bootstrap :
      List ValidatorRegistration → List String → List String → Outcome Error (Unit {0})
  unfolding registration_bytes
  validate_bootstrap [] peers addresses = ok tt
  validate_bootstrap (r ∷ rs) peers addresses = do
    fail_if (Sets.contains r.peer_id peers || Sets.contains r.validator_id addresses)
        bootstrap_reward_duplicate
    verify_signature crates r.validator_id (registration_bytes r.validator_id r.peer_id)
        r.signature_hex
    validate_bootstrap rs (Sets.insert r.peer_id peers) (Sets.insert r.validator_id addresses)

  -- the loop over the registrations of nodes
  unfoldable pub validate_milestone :
      List NodeRewardRegistration → List String → List String → Outcome Error (Unit {0})
  unfolding registration_signer verify_node_identity validate_reward_address
  validate_milestone [] peers addresses = ok tt
  validate_milestone (r ∷ rs) peers addresses = do
    validate_reward_address r.reward_address
    verify_node_identity r
    fail_if (Sets.contains r.peer_id peers || Sets.contains r.reward_address addresses)
        milestone_reward_duplicate
    verify_signature crates (registration_signer r) (reward_bytes r.reward_address r.peer_id)
        r.signature_hex
    validate_milestone rs (Sets.insert r.peer_id peers) (Sets.insert r.reward_address addresses)

  -- the `match` of `ScheduledEvent::validate`
  unfoldable pub validate_action : ScheduledEventAction → Outcome Error (Unit {0})
  unfolding validate_payments validate_bootstrap validate_milestone
  validate_action (ScheduledEventAction.treasury_distribution recipients) = do
    fail_if (is_empty recipients || ltb 10000 (length recipients)) distribution_count
    validate_payments recipients
  validate_action (ScheduledEventAction.periodic_producer_reward producer amount) = do
    validate_address producer
    fail_if (eqb amount 0) payment_zero
  validate_action (ScheduledEventAction.incident_compensation incident_id victim amount) = do
    fail_if (is_blank incident_id) incident_empty
    validate_address victim
    fail_if (eqb amount 0) payment_zero
  validate_action (ScheduledEventAction.protocol_checkpoint protocol_version) =
      fail_if (eqb protocol_version 0) protocol_version_zero
  validate_action (ScheduledEventAction.bootstrap_validator_reward registrations amount) = do
    fail_if (not (eqb (length registrations) 4) || eqb amount 0) bootstrap_reward_count
    validate_bootstrap registrations [] []
  validate_action (ScheduledEventAction.node_milestone_reward registrations amount) = do
    fail_if (not (eqb (length registrations) 100) || eqb amount 0) milestone_reward_count
    validate_milestone registrations [] []

  -- `ScheduledEvent::validate`
  unfoldable pub validate_event : ScheduledEvent → Outcome Error (Unit {0})
  unfolding is_bad_id validate_action
  validate_event event = do
    fail_if (is_bad_id event.id) event_id
    fail_if (eqb event.execute_at 0) event_time_zero
    validate_action event.action

  -- the loop of `EventSchedule::validate`
  unfoldable pub validate_events : List ScheduledEvent → List String → Outcome Error (Unit {0})
  unfolding validate_event
  validate_events [] ids = ok tt
  validate_events (event ∷ events) ids = do
    validate_event event
    fail_if (Sets.contains event.id ids) duplicate_event
    validate_events events (Sets.insert event.id ids)

  -- `EventSchedule::validate`
  unfoldable pub validate_schedule : List ScheduledEvent → Outcome Error (Unit {0})
  unfolding validate_events
  validate_schedule events = validate_events events []

-- `execute_at <= timestamp`, and the event has not run
abbrev pub is_due : ℕ → List String → ScheduledEvent → Bool
is_due timestamp executed event =
    leb event.execute_at timestamp && not (Sets.contains event.id executed)

-- the order of `due`: by time, then by id
abbrev pub event_le : ScheduledEvent → ScheduledEvent → Bool
event_le a b =
    ltb a.execute_at b.execute_at || (eqb a.execute_at b.execute_at && is_le (compare a.id b.id))

-- `EventSchedule::due`
unfoldable pub due : ℕ → List String → List ScheduledEvent → List ScheduledEvent
due timestamp executed events = sort event_le (keep (is_due timestamp executed) events)

-- `EventSchedule::validate_block_events`
unfoldable pub validate_block_events :
    List ScheduledEvent → ℕ → List ScheduledEvent → List String → Outcome Error (Unit {0})
unfolding due
validate_block_events schedule timestamp events executed =
    fail_if (not (events_beq events (due timestamp executed schedule))) schedule_mismatch

-- the least time of a list: `min`
abbrev pub least : List ℕ → Option ℕ
least [] = none
least (x ∷ xs) = elim (least xs) [ none ↦ some x | some y ↦ some (min x y) ]

-- `EventSchedule::next_pending_at`
unfoldable pub next_pending_at : List ScheduledEvent → List String → Option ℕ
next_pending_at events executed = least (
    map (λ (event : ScheduledEvent). event.execute_at)
      (keep (λ event. not (Sets.contains event.id executed)) events))
