-- ===== src/Events/Equality.antt =====
-- `PartialEq` of the events of src/scheduled_event.rs and the registrations of src/network.rs, as
-- derived.
use aah_chain.Base.{List, [], ◌∷◌, Bool, true, false, ◌≡◌, ◌↔◌, ◌&&◌, arith}
use aah_chain.Base.Keys.{◌==◌, string_eq, nat_eq}
use aah_chain.Types.{
  ValidatorRegistration, NodeRewardRegistration, EventPayment, ScheduledEventAction, ScheduledEvent,
}

module _ {A : Type 0} (beq : A → A → Bool) where
  unfoldable pub list_beq : List A → List A → Bool
  list_beq [] [] = true
  list_beq (x ∷ xs) (y ∷ ys) = beq x y && list_beq xs ys
  list_beq _ _ = false

  pub list_beq_iff :
      ((x y : A) → (beq x y ≡ true) ↔ (x ≡ y))
      → (xs ys : List A) → (list_beq xs ys ≡ true) ↔ (xs ≡ ys)
  unfolding list_beq
  list_beq_iff h [] [] = ground arith
  list_beq_iff h [] (y ∷ ys) = ground arith
  list_beq_iff h (x ∷ xs) [] = ground arith
  list_beq_iff h (x ∷ xs) (y ∷ ys) = ground (arith, h x y, list_beq_iff h xs ys)

abbrev pub payment_beq : EventPayment → EventPayment → Bool
payment_beq a b = a.address == b.address && a.amount == b.amount

abbrev pub registration_beq : ValidatorRegistration → ValidatorRegistration → Bool
registration_beq a b =
    a.validator_id == b.validator_id && a.peer_id == b.peer_id && a.signature_hex == b.signature_hex

abbrev pub reward_beq : NodeRewardRegistration → NodeRewardRegistration → Bool
reward_beq a b =
    a.reward_address == b.reward_address
    && a.peer_id == b.peer_id
    && a.signature_hex == b.signature_hex
    && a.registration_signer == b.registration_signer
    && a.node_public_key_hex == b.node_public_key_hex
    && a.node_signature_hex == b.node_signature_hex

unfoldable pub action_beq : ScheduledEventAction → ScheduledEventAction → Bool
unfolding list_beq
action_beq (ScheduledEventAction.treasury_distribution a)
      (ScheduledEventAction.treasury_distribution b) =
    list_beq payment_beq a b
action_beq (ScheduledEventAction.periodic_producer_reward p a)
      (ScheduledEventAction.periodic_producer_reward q b) =
    p == q && a == b
action_beq (ScheduledEventAction.incident_compensation i v a)
      (ScheduledEventAction.incident_compensation j w b) =
    i == j && v == w && a == b
action_beq (ScheduledEventAction.protocol_checkpoint a)
      (ScheduledEventAction.protocol_checkpoint b) =
    a == b
action_beq (ScheduledEventAction.bootstrap_validator_reward r a)
      (ScheduledEventAction.bootstrap_validator_reward s b) =
    list_beq registration_beq r s && a == b
action_beq (ScheduledEventAction.node_milestone_reward r a)
      (ScheduledEventAction.node_milestone_reward s b) =
    list_beq reward_beq r s && a == b
action_beq _ _ = false

unfoldable pub event_beq : ScheduledEvent → ScheduledEvent → Bool
unfolding action_beq
event_beq a b = a.id == b.id && a.execute_at == b.execute_at && action_beq a.action b.action

unfoldable pub events_beq : List ScheduledEvent → List ScheduledEvent → Bool
unfolding event_beq list_beq
events_beq = list_beq event_beq

payment_beq_iff : (a b : EventPayment) → (payment_beq a b ≡ true) ↔ (a ≡ b)
payment_beq_iff a b = ground (arith, string_eq.beq_iff a.address b.address)

registration_beq_iff : (a b : ValidatorRegistration) → (registration_beq a b ≡ true) ↔ (a ≡ b)
registration_beq_iff a b = ground (
  arith,
  string_eq.beq_iff a.validator_id b.validator_id,
  string_eq.beq_iff a.peer_id b.peer_id,
  string_eq.beq_iff a.signature_hex b.signature_hex,
)

reward_beq_iff : (a b : NodeRewardRegistration) → (reward_beq a b ≡ true) ↔ (a ≡ b)
reward_beq_iff a b = ground (
  arith,
  string_eq.beq_iff a.reward_address b.reward_address,
  string_eq.beq_iff a.peer_id b.peer_id,
  string_eq.beq_iff a.signature_hex b.signature_hex,
  string_eq.beq_iff a.registration_signer b.registration_signer,
  string_eq.beq_iff a.node_public_key_hex b.node_public_key_hex,
  string_eq.beq_iff a.node_signature_hex b.node_signature_hex,
)

action_beq_iff : (a b : ScheduledEventAction) → (action_beq a b ≡ true) ↔ (a ≡ b)
unfolding action_beq
action_beq_iff (ScheduledEventAction.treasury_distribution a)
      (ScheduledEventAction.treasury_distribution b) =
    ground (arith, list_beq_iff payment_beq payment_beq_iff a b)
action_beq_iff (ScheduledEventAction.periodic_producer_reward p a)
      (ScheduledEventAction.periodic_producer_reward q b) =
    ground (arith, string_eq.beq_iff p q)
action_beq_iff (ScheduledEventAction.incident_compensation i v a)
      (ScheduledEventAction.incident_compensation j w b) =
    ground (arith, string_eq.beq_iff i j, string_eq.beq_iff v w)
action_beq_iff (ScheduledEventAction.protocol_checkpoint a)
      (ScheduledEventAction.protocol_checkpoint b) =
    ground arith
action_beq_iff (ScheduledEventAction.bootstrap_validator_reward r a)
      (ScheduledEventAction.bootstrap_validator_reward s b) =
    ground (arith, list_beq_iff registration_beq registration_beq_iff r s)
action_beq_iff (ScheduledEventAction.node_milestone_reward r a)
      (ScheduledEventAction.node_milestone_reward s b) =
    ground (arith, list_beq_iff reward_beq reward_beq_iff r s)
action_beq_iff _ _ = ground arith

event_beq_iff : (a b : ScheduledEvent) → (event_beq a b ≡ true) ↔ (a ≡ b)
unfolding event_beq
event_beq_iff a b = ground (arith, string_eq.beq_iff a.id b.id, action_beq_iff a.action b.action)

pub events_beq_iff : (a b : List ScheduledEvent) → (events_beq a b ≡ true) ↔ (a ≡ b)
unfolding events_beq
events_beq_iff a b = list_beq_iff event_beq event_beq_iff a b
