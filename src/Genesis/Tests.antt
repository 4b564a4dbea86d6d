-- ===== src/Genesis/Tests.antt =====
-- Settings with four validators, and the theorem of src/genesis.rs applied to them.
use aah_chain.Base.{[], ◌∷◌, ◌≡◌, refl}
use aah_chain.Base.Sets.{contains, insert}
use aah_chain.Base.Outcome.{ok}
use aah_chain.Consensus.Bft
use aah_chain.Consensus.Bft.{BftConsensus}
use aah_chain.Consensus.Tests.{toy, four}
use aah_chain.Genesis.{
  GenesisConfig, check_validators, validate_genesis, valid_genesis_starts_consensus,
}

abbrev config : GenesisConfig
config = record {
  chain_id = 21004;
  network_name = "test";
  genesis_time = 5;
  initial_balances = ("alice", 100) ∷ [];
  validators = four;
  max_block_bytes = 1000;
  max_active_block_bytes = 100000;
}

config_is_valid : validate_genesis toy config ≡ ok tt
unfolding validate_genesis check_validators contains insert
config_is_valid = refl

valid_genesis_starts_consensus_example : (s : BftConsensus) × (Bft.new config.validators ≡ ok s)
valid_genesis_starts_consensus_example = valid_genesis_starts_consensus toy config config_is_valid
