-- ===== src/Types.antt =====
-- The data that the components exchange: src/model.rs (`Transaction`, `Block`),
-- src/scheduled_event.rs (events) and the registrations of src/network.rs. A `u64` or `u128` is a
-- natural number; the ranges are hypotheses or invariants where a theorem needs them.
use aah_chain.Base.{ℕ, String, List, Bool, ◌&&◌}
use aah_chain.Base.Keys.{◌==◌, string_eq, nat_eq}

pub record Transaction : Type 0 where
  pub from : String
  pub to : String
  pub amount : ℕ
  pub fee : ℕ
  pub nonce : ℕ
  pub signature : String

-- `PartialEq` as derived
abbrev pub transaction_beq : Transaction → Transaction → Bool
transaction_beq a b =
    a.from == b.from
    && a.to == b.to
    && a.amount == b.amount
    && a.fee == b.fee
    && a.nonce == b.nonce
    && a.signature == b.signature

pub record ValidatorRegistration : Type 0 where
  pub validator_id : String
  pub peer_id : String
  pub signature_hex : String

pub record NodeRewardRegistration : Type 0 where
  pub reward_address : String
  pub peer_id : String
  pub signature_hex : String
  pub registration_signer : String
  pub node_public_key_hex : String
  pub node_signature_hex : String

pub record EventPayment : Type 0 where
  pub address : String
  pub amount : ℕ

pub data ScheduledEventAction : Type 0 where
  treasury_distribution : List EventPayment → ScheduledEventAction
  periodic_producer_reward : String → ℕ → ScheduledEventAction
  incident_compensation : String → String → ℕ → ScheduledEventAction
  protocol_checkpoint : ℕ → ScheduledEventAction
  bootstrap_validator_reward : List ValidatorRegistration → ℕ → ScheduledEventAction
  node_milestone_reward : List NodeRewardRegistration → ℕ → ScheduledEventAction

pub record ScheduledEvent : Type 0 where
  pub id : String
  pub execute_at : ℕ
  pub action : ScheduledEventAction

pub record Block : Type 0 where
  pub height : ℕ
  pub previous_hash : String
  pub timestamp : ℕ
  pub producer : String
  pub transactions : List Transaction
  pub system_events : List ScheduledEvent
  pub hash : String
