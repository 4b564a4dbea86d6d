-- ===== src/Consensus/Bft/Machine.antt =====
-- The life of a `BftConsensus`: any sequence of calls of its methods, from `new`.
use aah_chain.Base.{ℕ, String, List, [], ◌∷◌}
use aah_chain.Crates.{Crates}
use aah_chain.Consensus.Messages.{ConsensusMessage, SignedProposal}
use aah_chain.Consensus.Bft
use aah_chain.Consensus.Bft.{BftConsensus}

-- A call of a public method that may change the state.
pub data Call : Type 0 where
  start_round : ℕ → ℕ → Call
  propose : String → String → Call
  handle_proposal : SignedProposal → Call
  handle : ConsensusMessage → Call
  on_timeout take_evidence : Call

module _ (crates : Crates) where
  -- The state that a call leaves, also where it fails.
  abbrev pub after : Call → BftConsensus → BftConsensus
  after (Call.start_round height round) s = (Bft.start_round height round s).1
  after (Call.propose proposer hash) s = (Bft.propose proposer hash s).1
  after (Call.handle_proposal p) s = (Bft.handle_proposal crates p s).1
  after (Call.handle m) s = (Bft.handle crates m s).1
  after Call.on_timeout s = (Bft.on_timeout s).1
  after Call.take_evidence s = (Bft.take_evidence s).1

  unfoldable pub run : List Call → BftConsensus → BftConsensus
  run [] s = s
  run (c ∷ cs) s = run cs (after c s)
