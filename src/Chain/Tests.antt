-- ===== src/Chain/Tests.antt =====
-- A chain of one block after genesis, and the theorems of src/chain.rs applied to it.
use aah_chain.Base.{ℕ, ◌+◌, ◌≤◌, ◌<◌, String, List, [], ◌∷◌, true, false, ◌≡◌, refl, arith, ◌||◌}
use aah_chain.Base.Keys.{string_eq}
use aah_chain.Base.Maps.{insert, get_or_zero, sum_values, collect, collect_into}
use aah_chain.Base.Sets
use aah_chain.Base.Sets.{contains, IsNodup}
use aah_chain.Base.Words.{u64_max}
use aah_chain.Base.Bytes.{be_bytes, as_bytes, all_bytes}
use aah_chain.Base.Outcome.{ok, err}
use aah_chain.Types.{Transaction, Block, ScheduledEvent, ScheduledEventAction}
use aah_chain.Model.{
  genesis, new_block, with_system_events, calculate_hash, transaction_id, signing_bytes,
}
use aah_chain.Wallet.{verify_transaction, verify_signature}
use aah_chain.Events.{validate_event}
use aah_chain.Chain.{
  Blockchain, apply_transactions, apply_transaction, apply_system_events, apply_event,
  check_signature, move_balances, credit_balance, foundation_share, transfer_all, transfers_of,
}
use aah_chain.Chain.State.{
  Ledger, apply_block, apply_blocks, verify_and_rebuild, with_ledger, with_chain_id, execute,
}
use aah_chain.Chain.Supply.{applied_block_keeps_supply}
use aah_chain.Chain.Rebuild.{IsLinked, rebuilt_blocks_form_chain, applied_chain_rebuilds}
use aah_chain.Chain.History.{all_transactions, all_events, ids_of}
use aah_chain.Chain.Once.{events_run_once, count_from, no_transaction_is_replayed}
use aah_chain.Consensus.Tests.{toy}

abbrev payment : ℕ → Transaction
payment nonce = record {
  from = "alice";
  to = "bob";
  amount = 30;
  fee = 10;
  nonce = nonce;
  signature = "sig";
}

abbrev checkpoint : ScheduledEvent
checkpoint = record {
  id = "v2";
  execute_at = 5;
  action = ScheduledEventAction.protocol_checkpoint 2;
}

abbrev deposits : List (String × ℕ)
deposits = ("alice", 100) ∷ []

abbrev start : Blockchain
start = with_chain_id toy 21004 deposits

-- two payments and a checkpoint
abbrev block : Block
block =
    with_system_events toy
      (new_block toy 1 (genesis toy).hash 10 "producer" (payment 0 ∷ payment 1 ∷ []))
      (checkpoint ∷ [])

abbrev blocks : List Block
blocks = block ∷ []

abbrev applied : Blockchain
applied = elim (apply_block toy block start) [ ok chain ↦ chain | err e ↦ start ]

block_applies : apply_block toy block start ≡ ok applied
unfolding with_chain_id with_system_events new_block genesis calculate_hash apply_block execute
    apply_transactions apply_transaction apply_system_events apply_event check_signature
    verify_transaction verify_signature validate_event move_balances credit_balance foundation_share
    transfer_all transfers_of get_or_zero insert contains Sets.insert collect collect_into
    transaction_id signing_bytes be_bytes as_bytes all_bytes
block_applies = refl

blocks_apply : apply_blocks toy blocks start ≡ ok applied
unfolding apply_blocks
blocks_apply = rw block_applies refl

-- What stands in the chain file: other balances, no nonces, no events.
abbrev tampered : Ledger
tampered = record { balances = ("mallory", 1000000) ∷ []; nonces = []; executed = [] }

applied_chain_rebuilds_example : verify_and_rebuild toy (with_ledger tampered applied) ≡ ok applied
applied_chain_rebuilds_example =
    applied_chain_rebuilds toy 21004 deposits blocks tampered blocks_apply

applied_block_keeps_supply_example : sum_values applied.balances ≡ sum_values start.balances
applied_block_keeps_supply_example = applied_block_keeps_supply toy block start block_applies

rebuilt_blocks_form_chain_example :
    (rest : List Block) × ((with_ledger tampered applied).blocks ≡ genesis toy ∷ rest)
    × IsLinked toy (genesis toy) rest
    × (applied.blocks ≡ (with_ledger tampered applied).blocks)
    × (applied.initial_balances ≡ (with_ledger tampered applied).initial_balances)
rebuilt_blocks_form_chain_example =
    rebuilt_blocks_form_chain toy (with_ledger tampered applied) applied_chain_rebuilds_example

events_run_once_example :
    IsNodup (ids_of (all_events blocks))
    × ((id : String)
        → contains id start.executed_events ≡ true
        → contains id (ids_of (all_events blocks)) ≡ false)
    × ((id : String)
        → contains id applied.executed_events
          ≡ (contains id (ids_of (all_events blocks)) || contains id start.executed_events))
events_run_once_example = events_run_once toy blocks start blocks_apply

alice_fits :
    get_or_zero "alice" start.next_nonces + count_from "alice" (all_transactions blocks) ≤ u64_max
unfolding with_chain_id with_system_events new_block get_or_zero
alice_fits = omega arith

no_transaction_is_replayed_example : (payment 0).nonce < (payment 1).nonce
unfolding with_system_events new_block
no_transaction_is_replayed_example =
    no_transaction_is_replayed toy blocks start 0 1 (payment 0) (payment 1) blocks_apply refl refl
      (omega arith) refl alice_fits
