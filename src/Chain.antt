-- ===== src/Chain.antt =====
-- src/chain.rs `Blockchain`: balances, nonces, fees, system events, and the list of final blocks.
-- A method that fails leaves the chain as it was, since it works on copies; so a method returns the
-- new chain or an error. Additions that a release build wraps are wrapped.
pub mod State
pub mod Inversion
pub mod Supply
pub mod History
pub mod Once
mod Tests
pub mod Rebuild
use Prim.Native.String.{◌++◌ as append}
use text.Mathlib.Text.{starts_with}
use aah_chain.Base.{
  ℕ, ◌+◌, ◌-◌, ◌*◌, ◌/◌, String, List, [], ◌∷◌, ◌++◌, Bool, true, false, Option, none, some, ◌≡◌,
  ◌||◌, ◌&&◌, not,
}
use aah_chain.Base.Tests.{if◌then◌else◌, eqb, leb, ltb}
use aah_chain.Base.Keys.{◌==◌, string_eq, nat_eq}
use aah_chain.Base.Maps
use aah_chain.Base.Maps.{Map, get_or_zero, collect}
use aah_chain.Base.Lists.{length, is_empty, last?}
use aah_chain.Base.Sets
use aah_chain.Base.Words.{u64_max, u128_max, wrap, checked_add, checked_mul}
use aah_chain.Base.Bytes.{as_bytes, trim_0x, to_ascii_lowercase}
use aah_chain.Base.Outcome.{Outcome, ok, err, ◌>>=◌, ◌>>◌, fail_if, ok_or}
use aah_chain.Errors.{
  Error, checkpoint_hash, no_transactions, not_next_block, block_hash, event_early, event_executed,
  foundation_balance, amount_zero, nonce_mismatch, total_overflow, balance_too_low,
  receiver_overflow, fee_overflow, producer_overflow, foundation_overflow, event_receiver_overflow,
  genesis_block, tampered_block, broken_link, no_last_block,
}
use aah_chain.Types.{
  Transaction, Block, EventPayment, ValidatorRegistration, NodeRewardRegistration,
  ScheduledEventAction, ScheduledEvent,
}
use aah_chain.Crates.{Crates}
use aah_chain.Model.{calculate_hash, genesis, new_block}
use aah_chain.Wallet.{verify_transaction}
use aah_chain.RawTransaction.{verify_embedded}
use aah_chain.Events.{validate_event}
use aah_chain.Events.Equality.{event_beq, events_beq, list_beq}

abbrev pub foundation_fee_address : String
foundation_fee_address = "0x356456ff1216b57a6f8891b195b42d296789b67d"

abbrev pub foundation_fee_bps : ℕ
foundation_fee_bps = 2000

abbrev pub fee_bps_denominator : ℕ
fee_bps_denominator = 10000

pub record Blockchain : Type 0 where
  pub chain_id : ℕ
  pub genesis_commitment : String
  pub blocks : List Block
  pub initial_balances : Map String ℕ
  pub balances : Map String ℕ
  pub next_nonces : Map String ℕ
  pub executed_events : List String

-- `normalize_address` of the chain: it leaves an address without `0x` alone
unfoldable pub normalize_address : String → String
normalize_address address =
    if starts_with address "0x" then append "0x" (to_ascii_lowercase (trim_0x address)) else address

-- `credit_balance`
unfoldable pub credit_balance : Map String ℕ → String → ℕ → Error → Outcome Error (Map String ℕ)
credit_balance balances address amount overflow = if eqb amount 0 then ok balances else (do
  total ← ok_or (checked_add u128_max (get_or_zero address balances) amount) overflow
  ok (Maps.insert address total balances))

-- `transfer_from_foundation`
unfoldable pub transfer_from_foundation : Map String ℕ → String → ℕ → Outcome Error (Map String ℕ)
unfolding credit_balance normalize_address
transfer_from_foundation balances receiver amount = do
  let foundation = get_or_zero foundation_fee_address balances
  fail_if (ltb foundation amount) foundation_balance
  credit_balance (Maps.insert foundation_fee_address (foundation - amount) balances)
      (normalize_address receiver) amount event_receiver_overflow

-- one transfer from the foundation after another
unfoldable pub transfer_all : List (String × ℕ) → Map String ℕ → Outcome Error (Map String ℕ)
unfolding transfer_from_foundation
transfer_all [] balances = ok balances
transfer_all ((receiver, amount) ∷ rest) balances = do
  balances' ← transfer_from_foundation balances receiver amount
  transfer_all rest balances'

abbrev pub payment_pairs : List EventPayment → List (String × ℕ)
payment_pairs [] = []
payment_pairs (p ∷ ps) = (p.address, p.amount) ∷ payment_pairs ps

abbrev pub bootstrap_pairs : List ValidatorRegistration → ℕ → List (String × ℕ)
bootstrap_pairs [] amount = []
bootstrap_pairs (r ∷ rs) amount = (r.validator_id, amount) ∷ bootstrap_pairs rs amount

abbrev pub milestone_pairs : List NodeRewardRegistration → ℕ → List (String × ℕ)
milestone_pairs [] amount = []
milestone_pairs (r ∷ rs) amount = (r.reward_address, amount) ∷ milestone_pairs rs amount

-- The transfers of an action, in the order in which the `match` makes them.
unfoldable pub transfers_of : ScheduledEventAction → List (String × ℕ)
transfers_of (ScheduledEventAction.treasury_distribution recipients) = payment_pairs recipients
transfers_of (ScheduledEventAction.periodic_producer_reward producer amount) =
    (producer, amount) ∷ []
transfers_of (ScheduledEventAction.incident_compensation incident_id victim amount) =
    (victim, amount) ∷ []
transfers_of (ScheduledEventAction.protocol_checkpoint protocol_version) = []
transfers_of (ScheduledEventAction.bootstrap_validator_reward registrations amount) =
    bootstrap_pairs registrations amount
transfers_of (ScheduledEventAction.node_milestone_reward registrations amount) =
    milestone_pairs registrations amount

module _ (crates : Crates) where
  -- The body of the loop of `apply_system_events`.
  unfoldable pub apply_event :
      ScheduledEvent → ℕ → Map String ℕ → List String → Outcome Error (Map String ℕ × List String)
  unfolding transfer_all transfers_of
  apply_event event block_timestamp balances executed = do
    validate_event crates event
    fail_if (ltb block_timestamp event.execute_at) event_early
    fail_if (Sets.contains event.id executed) event_executed
    balances' ← transfer_all (transfers_of event.action) balances
    ok (balances', Sets.insert event.id executed)

  -- `apply_system_events`
  unfoldable pub apply_system_events :
      List ScheduledEvent
      → ℕ
      → Map String ℕ
      → List String
      → Outcome Error (Map String ℕ × List String)
  unfolding apply_event
  apply_system_events [] block_timestamp balances executed = ok (balances, executed)
  apply_system_events (event ∷ events) block_timestamp balances executed = do
    state ← apply_event event block_timestamp balances executed
    apply_system_events events block_timestamp state.0 state.1

  -- The signature test of `apply_transactions`.
  unfoldable pub check_signature : ℕ → Transaction → Outcome Error (Unit {0})
  check_signature chain_id tx =
      if starts_with tx.signature "ethraw:"
      then verify_embedded crates tx chain_id
      else verify_transaction crates tx

-- The share of the foundation in a fee, rounded down.
unfoldable pub foundation_share : ℕ → Outcome Error ℕ
foundation_share fee = do
  product ← ok_or (checked_mul u128_max fee foundation_fee_bps) fee_overflow
  ok (product / fee_bps_denominator)

-- The balances after a transaction that passed the tests: the part of the loop of
-- `apply_transactions` from the sum of amount and fee on.
unfoldable pub move_balances : Transaction → String → Map String ℕ → Outcome Error (Map String ℕ)
unfolding credit_balance foundation_share
move_balances tx producer balances = do
  total ← ok_or (checked_add u128_max tx.amount tx.fee) total_overflow
  let sender = get_or_zero tx.from balances
  fail_if (ltb sender total) balance_too_low
  let paid = Maps.insert tx.from (sender - total) balances
  received ← ok_or (checked_add u128_max (get_or_zero tx.to paid) tx.amount) receiver_overflow
  foundation_fee ← foundation_share tx.fee
  credited ←
      credit_balance (Maps.insert tx.to received paid) producer (tx.fee - foundation_fee)
        producer_overflow
  credit_balance credited foundation_fee_address foundation_fee foundation_overflow

module _ (crates : Crates) where
  -- The body of the loop of `apply_transactions`.
  unfoldable pub apply_transaction :
      ℕ
      → Transaction
      → String
      → Map String ℕ
      → Map String ℕ
      → Outcome Error (Map String ℕ × Map String ℕ)
  unfolding check_signature move_balances
  apply_transaction chain_id tx producer balances nonces = do
    check_signature crates chain_id tx
    fail_if (eqb tx.amount 0) amount_zero
    let expected_nonce = get_or_zero tx.from nonces
    fail_if (not (tx.nonce == expected_nonce)) nonce_mismatch
    balances' ← move_balances tx producer balances
    ok (balances', Maps.insert tx.from (wrap u64_max (expected_nonce + 1)) nonces)

  -- `apply_transactions`
  unfoldable pub apply_transactions :
      ℕ
      → List Transaction
      → String
      → Map String ℕ
      → Map String ℕ
      → Outcome Error (Map String ℕ × Map String ℕ)
  unfolding apply_transaction
  apply_transactions chain_id [] producer balances nonces = ok (balances, nonces)
  apply_transactions chain_id (tx ∷ txs) producer balances nonces = do
    state ← apply_transaction chain_id tx producer balances nonces
    apply_transactions chain_id txs producer state.0 state.1
