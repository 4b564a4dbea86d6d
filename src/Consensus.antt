-- ===== src/Consensus.antt =====
-- src/consensus.rs and the round-change certificates of src/consensus_era.rs, part by part: signed
-- messages, certificates, and the state machine of one validator.
pub mod Messages
pub mod Certificate
pub mod Bft
pub mod Era
pub mod Tests
