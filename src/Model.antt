-- ===== src/Model.antt =====
-- src/model.rs: the bytes that are signed and hashed, transaction ids and block hashes.
use aah_chain.Base.{ℕ, String, List, [], ◌∷◌, ◌++◌}
use aah_chain.Base.Lists.{length}
use aah_chain.Base.Bytes.{be_bytes, as_bytes}
use aah_chain.Types.{Transaction, ScheduledEvent, Block}
use aah_chain.Crates.{Crates}

-- `push_text`: the length in eight bytes, then the text.
unfoldable pub push_text : String → List ℕ
push_text value = let bytes = as_bytes value in be_bytes 8 (length bytes) ++ bytes

-- `Transaction::signing_bytes`
unfoldable pub signing_bytes : Transaction → List ℕ
unfolding push_text
signing_bytes tx =
    push_text tx.from
    ++ (push_text tx.to ++ (be_bytes 16 tx.amount ++ (be_bytes 16 tx.fee ++ be_bytes 8 tx.nonce)))

abbrev pub zero_hash : String
zero_hash = "0000000000000000000000000000000000000000000000000000000000000000"

module _ (crates : Crates) where
  open crates use {sha256, hex_encode, event_json}

  -- `Transaction::id`
  unfoldable pub transaction_id : Transaction → String
  unfolding signing_bytes
  transaction_id tx = hex_encode (sha256 (signing_bytes tx ++ as_bytes tx.signature))

  unfoldable pub transactions_bytes : List Transaction → List ℕ
  unfolding transaction_id
  transactions_bytes [] = []
  transactions_bytes (tx ∷ txs) = as_bytes (transaction_id tx) ++ transactions_bytes txs

  unfoldable pub events_bytes : List ScheduledEvent → List ℕ
  events_bytes [] = []
  events_bytes (event ∷ events) = as_bytes event.id ++ (event_json event ++ events_bytes events)

  -- What `Block::calculate_hash` feeds to the hasher.
  unfoldable pub block_bytes : Block → List ℕ
  unfolding transactions_bytes events_bytes
  block_bytes block =
      be_bytes 8 block.height
      ++ (as_bytes block.previous_hash
          ++ (be_bytes 8 block.timestamp
              ++ (as_bytes block.producer
                  ++ (transactions_bytes block.transactions ++ events_bytes block.system_events))))

  -- `Block::calculate_hash`
  unfoldable pub calculate_hash : Block → String
  unfolding block_bytes
  calculate_hash block = hex_encode (sha256 (block_bytes block))

  -- `Block::genesis`
  unfoldable pub genesis : Block
  unfolding calculate_hash
  genesis =
      let block : Block = record {
        height = 0;
        previous_hash = zero_hash;
        timestamp = 0;
        producer = "genesis";
        transactions = [];
        system_events = [];
        hash = "";
      } in
      record block { hash = calculate_hash block }

  -- `Block::new`
  unfoldable pub new_block : ℕ → String → ℕ → String → List Transaction → Block
  unfolding calculate_hash
  new_block height previous_hash timestamp producer transactions =
      let block : Block = record {
        height = height;
        previous_hash = previous_hash;
        timestamp = timestamp;
        producer = producer;
        transactions = transactions;
        system_events = [];
        hash = "";
      } in
      record block { hash = calculate_hash block }

  -- `Block::with_system_events`
  unfoldable pub with_system_events : Block → List ScheduledEvent → Block
  unfolding calculate_hash
  with_system_events block events =
      let block' = record block { system_events = events } in
      record block' { hash = calculate_hash block' }
