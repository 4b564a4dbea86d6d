-- ===== src/Lib.antt =====
-- Verification library of the IEUM chain, a blockchain with BFT finality (the Rust
-- crate under src/). Its parts and how they interact: wallets sign transactions (src/wallet.rs,
-- src/account.rs, src/raw_transaction.rs); a block holds transactions and system events (src/model.rs,
-- src/scheduled_event.rs); validators agree on a block with proposals and votes (src/consensus.rs) and
-- prove it by certificates (src/consensus.rs, src/consensus_era.rs); a final block is applied to the
-- balances, nonces and executed events of the chain (src/chain.rs). The runtime of a node
-- (src/consensus_runtime.rs) drives both, and a log (src/consensus_wal.rs) keeps its votes over restarts.
-- Who may be a validator is decided by src/validator_policy.rs, and what nodes earn by
-- src/traffic_rewards.rs and src/node_emission.rs.
--
-- Files:
-- Base and its children: the helpers that all parts share: tests, maps, sets, results, machine words,
--   bytes and sorting over the native numbers.
-- Errors: the error cases, one constructor for each `Err` of the source; the two certificates share
--   theirs.
-- Types: Transaction, Block, ScheduledEvent and the registrations of src/network.rs.
-- Crates: the hash, signature, hex and JSON functions of other crates, a parameter of every module
--   that uses them.
-- Model: signing_bytes, id, calculate_hash, genesis, new and with_system_events of src/model.rs.
-- Wallet: verify_transaction and verify_signature of src/wallet.rs, verify_account_signature of
--   src/account.rs.
-- RawTransaction, RawTransaction.Rlp: src/raw_transaction.rs.
-- Consensus.Messages: proposals, votes and evidence of src/consensus.rs.
-- Consensus.Certificate: FinalityCertificate of src/consensus.rs and RoundChangeCertificate of
--   src/consensus_era.rs, with Weights (powers of sets of voters), Tally (the loop) and Agreement.
-- Consensus.Bft: BftConsensus of src/consensus.rs, one function for each method, with Machine
--   (sequences of calls), Rule (one induction for all invariants), Invariant, Votes, Evidence,
--   Conviction, Lock, Progress, Proposer and Members.
-- Consensus.Tests: a run of four validators.
-- Consensus.Era: EraManager of src/consensus_era.rs, with Schedule (which changes it makes) and Boundary
--   (when it makes them).
-- Mempool: the queue of src/mempool.rs, with Limits.
-- AccountPolicy: the weighted keys of src/account_security.rs, with Quorum.
-- Events, Events.Equality: validation of events and the schedule of src/scheduled_event.rs, with the
--   registrations of src/network.rs.
-- Chain: credit_balance, transfer_from_foundation, apply_system_events and apply_transactions of
--   src/chain.rs; Chain.State: Blockchain's methods over blocks; Inversion (what a successful call has
--   tested), Supply, History, Once and Rebuild; Tests: a chain of one block.
-- Runtime: ConsensusRuntime of src/consensus_runtime.rs, which gives the messages of the network to the
--   state machine and the final blocks to the chain, with Votes (receive_vote, defer_vote,
--   replay_deferred_votes), Sync (the blocks and certificates of other nodes), Machine (sequences of
--   calls), Rule (one induction for what the writes of the chain and the certificates keep), Growth,
--   Commit, Deferred and Capacity.
-- ValidatorPolicy: the selection of validators of src/validator_policy.rs, with Scan and Selection.
-- TrafficRewards: src/traffic_rewards.rs: Peers (select_balanced_peers, with Choice), Ledger
--   (ContributionLedger, with Eligible) and Lottery (draw_lottery and integer_sqrt, with Winners and
--   Root).
-- NodeEmission: the budgets and daily settlements of src/node_emission.rs, with Settlement.
-- ConsensusWal: the log of signed votes of src/consensus_wal.rs, with Reload, Cuts (what
--   writes that fail leave behind), Kept (what every call keeps), Safety and
--   Restart.
-- Governance: the vote on the reward policy of src/governance.rs, with Majority.
-- Upgrade: the schedule of src/upgrade.rs, with Version.
-- Genesis: GenesisConfig of src/genesis.rs and from_genesis of src/chain.rs.
-- PeerGuard: the bans of src/peer_guard.rs, with Bans.
--
-- State: a method that changes its object returns the result and the new state; where a method fails
-- after it has changed the object, the model returns the changed state too. A map is an association
-- list with one entry for each key, a set is a list without repetitions.
--
-- Numbers: u32, u64 and u128 are natural numbers. Checked and saturating operations are written out,
-- and plain sums that a release build wraps are wrapped. Where a theorem needs that a sum does not
-- wrap, that is a hypothesis.
--
-- Fuel: the RLP reader runs on the length of its input, since every item takes a byte, and the loop of
-- the mempool that makes room on the number of its transactions, since every turn removes one. The
-- replay of deferred votes runs on one turn more than there are votes: every turn but the last uses one
-- up, as Runtime.Deferred proves. The binary search of integer_sqrt runs on one turn more than its
-- first upper bound, since every turn narrows the range; the model has no result without fuel, and
-- TrafficRewards.Lottery.Root proves that there is one.
--
-- Not modelled: private keys and signing, files, databases, the network and its event loop, the RPC
-- server and the command line, which are input and output around the parts above; and the
-- router of modules of src/modules.rs.
pub mod Base
pub mod Errors
pub mod Types
pub mod Crates
pub mod Model
pub mod Wallet
pub mod RawTransaction
pub mod Consensus
pub mod Events
pub mod Chain
pub mod AccountPolicy
pub mod Mempool
pub mod Runtime
pub mod ValidatorPolicy
pub mod TrafficRewards
pub mod NodeEmission
pub mod ConsensusWal
pub mod Governance
pub mod PeerGuard
pub mod Genesis
pub mod Upgrade
