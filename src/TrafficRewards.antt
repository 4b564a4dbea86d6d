-- ===== src/TrafficRewards.antt =====
-- src/traffic_rewards.rs: how a node chooses its peers, how relays of messages earn points, and the
-- lottery over them.
pub mod Lottery
pub mod Peers
pub mod Ledger
mod Tests
use aah_chain.Base.{ℕ, ◌+◌, String, List, [], ◌∷◌}

pub record EligibleNode : Type 0 where
  pub peer_id : String
  pub reward_address : String
  pub points : ℕ
  pub distinct_verifiers : ℕ

pub record LotteryPayment : Type 0 where
  pub peer_id : String
  pub reward_address : String
  pub amount : ℕ

-- What is paid in all.
abbrev pub total_paid : List LotteryPayment → ℕ
total_paid [] = 0
total_paid (p ∷ ps) = p.amount + total_paid ps
