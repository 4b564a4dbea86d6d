-- ===== src/Consensus/Bft/Progress.antt =====
-- Heights and rounds of `BftConsensus` only go forward.
use aah_chain.Base.{ℕ, ◌≤◌, ◌<◌, List, ◌≡◌, refl, arith, inr, ◌⊎◌}
use aah_chain.Crates.{Crates}
use aah_chain.Consensus.Messages.{VoteType}
use aah_chain.Base.{String, false}
use aah_chain.Consensus.Bft.{
  BftConsensus, begin_round, open_proposal, is_past, remember_vote, add_vote, on_quorum, lock_block,
  finalize_block,
}
use aah_chain.Consensus.Bft.Machine.{Call, run}
use aah_chain.Consensus.Bft.Rule.{IsKept, run-keeps}

-- The state stands at this height and round, or later.
abbrev pub HasReached : ℕ → ℕ → BftConsensus → Type 0
HasReached height round s = (height < s.height) ⊎ ((height ≡ s.height) × (round ≤ s.round))

module _ (height round : ℕ) where
  begin_round-HasReached :
      (h r : ℕ) (s : BftConsensus)
      → HasReached height round s
      → is_past h r s ≡ false
      → HasReached height round (begin_round h r s)
  unfolding begin_round
  begin_round-HasReached h r s k later = ground arith

  on_quorum-HasReached :
      (t : VoteType) (hash : String) (s : BftConsensus)
      → HasReached height round s
      → HasReached height round (on_quorum t hash s)
  unfolding on_quorum lock_block finalize_block
  on_quorum-HasReached t hash s k = ground arith

  HasReached-IsKept : (crates : Crates) → IsKept crates (HasReached height round)
  unfolding remember_vote add_vote
  HasReached-IsKept crates = record {
    begin = begin_round-HasReached;
    remember = λ m s k _ _. k;
    note = λ m s k _. k;
    add = λ m s k _ _ _. k;
    quorum = λ t hash s k _ _ _. on_quorum-HasReached t hash s k;
    taken = λ s k. k;
  }

-- No sequence of calls takes a state to an earlier height, or to an earlier round of its height.
rounds_never_go_back :
    (crates : Crates) (cs : List Call) (s : BftConsensus)
    → HasReached s.height s.round (run crates cs s)
unfolding open_proposal
rounds_never_go_back crates cs s =
    run-keeps crates (HasReached s.height s.round) (HasReached-IsKept s.height s.round crates)
      (λ hash s k _. k) cs s (inr (refl, ground arith))
