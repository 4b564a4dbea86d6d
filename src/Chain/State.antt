-- ===== src/Chain/State.antt =====
-- src/chain.rs: the methods of `Blockchain` over whole blocks.
use aah_chain.Base.{ℕ, ◌+◌, String, List, [], ◌∷◌, ◌++◌, Bool, Option, none, some, ◌||◌, ◌&&◌, not}
use aah_chain.Base.Tests.{if◌then◌else◌, eqb}
use aah_chain.Base.Keys.{◌==◌, string_eq, nat_eq}
use aah_chain.Base.Maps.{Map, get_or_zero, collect}
use aah_chain.Base.Lists.{length, is_empty, last?}
use aah_chain.Base.Words.{u64_max, wrap}
use aah_chain.Base.Bytes.{as_bytes, trim_0x}
use aah_chain.Base.Outcome.{Outcome, ok, err, ◌>>=◌, ◌>>◌, fail_if, ok_or}
use aah_chain.Errors.{
  Error, checkpoint_hash, no_transactions, not_next_block, block_hash, genesis_block,
  tampered_block, broken_link, no_last_block,
}
use aah_chain.Types.{Transaction, Block, transaction_beq}
use aah_chain.Crates.{Crates}
use aah_chain.Model.{calculate_hash, genesis, new_block}
use aah_chain.Events.Equality.{events_beq, list_beq}
use aah_chain.Chain.{Blockchain, apply_transactions, apply_system_events}

-- the part of a chain that blocks change
pub record Ledger : Type 0 where
  pub balances : Map String ℕ
  pub nonces : Map String ℕ
  pub executed : List String

abbrev pub ledger_of : Blockchain → Ledger
ledger_of chain = record {
  balances = chain.balances;
  nonces = chain.next_nonces;
  executed = chain.executed_events;
}

-- the chain with a ledger
abbrev pub with_ledger : Ledger → Blockchain → Blockchain
with_ledger ledger chain = record chain {
  balances = ledger.balances;
  next_nonces = ledger.nonces;
  executed_events = ledger.executed;
}

-- the ledger of a chain at its genesis
abbrev pub first_ledger : Blockchain → Ledger
first_ledger chain = record { balances = chain.initial_balances; nonces = []; executed = [] }

-- `PartialEq` of blocks, as derived
unfoldable pub block_beq : Block → Block → Bool
unfolding list_beq events_beq
block_beq a b =
    a.height == b.height
    && a.previous_hash == b.previous_hash
    && a.timestamp == b.timestamp
    && a.producer == b.producer
    && list_beq transaction_beq a.transactions b.transactions
    && events_beq a.system_events b.system_events
    && a.hash == b.hash

-- Is the block not the next after this one.
abbrev pub is_broken_link : Block → Block → Bool
is_broken_link previous block =
    not (block.height == wrap u64_max (previous.height + 1))
    || not (block.previous_hash == previous.hash)

-- `balance_of`
unfoldable pub balance_of : String → Blockchain → ℕ
balance_of address chain = get_or_zero address chain.balances

-- `next_nonce`
unfoldable pub next_nonce : String → Blockchain → ℕ
next_nonce address chain = get_or_zero address chain.next_nonces

-- `tip_height`
unfoldable pub tip_height : Blockchain → ℕ
tip_height chain = elim (last? chain.blocks) [ none ↦ 0 | some block ↦ block.height ]

-- `tip_hash`
unfoldable pub tip_hash : Blockchain → String
tip_hash chain = elim (last? chain.blocks) [ none ↦ "" | some block ↦ block.hash ]

unfoldable pub find_height : ℕ → List Block → Option Block
find_height height [] = none
find_height height (b ∷ bs) = if b.height == height then some b else find_height height bs

-- `block_by_height`
unfoldable pub block_by_height : ℕ → Blockchain → Option Block
unfolding find_height
block_by_height height chain = find_height height chain.blocks

-- `from_snapshot_with_events`
unfoldable pub from_snapshot_with_events :
    ℕ → String → ℕ → String → Map String ℕ → Map String ℕ → List String → Outcome Error Blockchain
from_snapshot_with_events chain_id genesis_commitment height hash balances next_nonces executed = do
  fail_if (not (eqb (length (as_bytes (trim_0x hash))) 64)) checkpoint_hash
  let anchor : Block = record {
    height = height;
    previous_hash = "";
    timestamp = 0;
    producer = "checkpoint";
    transactions = [];
    system_events = [];
    hash = trim_0x hash;
  }
  ok (record {
    chain_id = chain_id;
    genesis_commitment = genesis_commitment;
    blocks = anchor ∷ [];
    initial_balances = balances;
    balances = balances;
    next_nonces = next_nonces;
    executed_events = executed;
  })

module _ (crates : Crates) where
  -- `with_chain_id`
  unfoldable pub with_chain_id : ℕ → List (String × ℕ) → Blockchain
  with_chain_id chain_id initial_balances = record {
    chain_id = chain_id;
    genesis_commitment = (genesis crates).hash;
    blocks = genesis crates ∷ [];
    initial_balances = collect initial_balances;
    balances = collect initial_balances;
    next_nonces = [];
    executed_events = [];
  }

  -- The transactions of a block, then its system events.
  unfoldable pub execute : ℕ → Block → Ledger → Outcome Error Ledger
  execute chain_id block ledger = do
    moved ←
        apply_transactions crates chain_id block.transactions block.producer ledger.balances
          ledger.nonces
    settled ← apply_system_events crates block.system_events block.timestamp moved.0 ledger.executed
    ok (record { balances = settled.0; nonces = moved.1; executed = settled.1 })

  -- `apply_block`; a chain without blocks, where the source panics, is an error
  unfoldable pub apply_block : Block → Blockchain → Outcome Error Blockchain
  unfolding execute
  apply_block block chain = do
    previous ← ok_or (last? chain.blocks) no_last_block
    fail_if (is_broken_link previous block) not_next_block
    fail_if (not (block.hash == calculate_hash crates block)) block_hash
    ledger ← execute chain.chain_id block (ledger_of chain)
    ok (with_ledger ledger (record chain { blocks = chain.blocks ++ block ∷ [] }))

  -- `add_block`, at the time `now`
  unfoldable pub add_block : List Transaction → String → ℕ → Blockchain → Outcome Error Blockchain
  unfolding apply_block
  add_block transactions producer now chain = do
    fail_if (is_empty transactions) no_transactions
    previous ← ok_or (last? chain.blocks) no_last_block
    apply_block
        (new_block crates (wrap u64_max (previous.height + 1)) previous.hash now producer
          transactions)
        chain

  -- The loop of `verify_and_rebuild` after the first block.
  unfoldable pub rebuild : ℕ → Block → List Block → Ledger → Outcome Error Ledger
  unfolding execute
  rebuild chain_id previous [] ledger = ok ledger
  rebuild chain_id previous (block ∷ blocks) ledger = do
    fail_if (not (block.hash == calculate_hash crates block)) tampered_block
    fail_if (is_broken_link previous block) broken_link
    ledger' ← execute chain_id block ledger
    rebuild chain_id block blocks ledger'

  -- `verify_and_rebuild` over the blocks of the chain
  unfoldable pub rebuild_from : List Block → Blockchain → Outcome Error Blockchain
  unfolding rebuild block_beq
  rebuild_from [] chain = err genesis_block
  rebuild_from (first ∷ blocks) chain = do
    fail_if (not (block_beq first (genesis crates))) genesis_block
    fail_if (not (first.hash == calculate_hash crates first)) tampered_block
    ledger ← rebuild chain.chain_id first blocks (first_ledger chain)
    ok (with_ledger ledger chain)

  -- `verify_and_rebuild`
  unfoldable pub verify_and_rebuild : Blockchain → Outcome Error Blockchain
  unfolding rebuild_from
  verify_and_rebuild chain = rebuild_from chain.blocks chain

  -- `apply_block` for one block after another, as a node does that catches up
  unfoldable pub apply_blocks : List Block → Blockchain → Outcome Error Blockchain
  unfolding apply_block
  apply_blocks [] chain = ok chain
  apply_blocks (block ∷ blocks) chain = do
    chain' ← apply_block block chain
    apply_blocks blocks chain'
