-- ===== src/ConsensusWal/Tests.antt =====
-- The theorems of src/consensus_wal.rs applied to a log.
mod Text
use Prim.Native.Char.{code}
use Prim.Native.String.append as append_laws
use Prim.Native.String.{◌++◌ as append}
use text.Mathlib.TextEquality.{Char-path}
use aah_chain.Base.{
  ℕ, zero, suc, String, List, [], ◌∷◌, Bool, true, false, arith, Option, none, some, ◌≡◌, refl, inl,
  inr,
}
use aah_chain.Base.Tests.{if◌then◌else◌, eqb, Bool-cases}
use aah_chain.Base.Bytes.{is_blank}
use aah_chain.Base.Outcome.{ok}
use aah_chain.Consensus.Messages.{ConsensusMessage, VoteType, verify_vote}
use aah_chain.Consensus.Tests.{toy, vote}
use aah_chain.ConsensusWal.{
  Json, take_chars, ConsensusWal, appended, failed, open_wal, record_before_broadcast, reload_lines,
  reload_line,
}
use aah_chain.Base.Maps
use aah_chain.Base.Maps.{get}
use aah_chain.Wallet.{verify_signature}
use aah_chain.ConsensusWal.Cuts.{Piece, left_over, IsNoVote}
use aah_chain.ConsensusWal.Safety.{Event, sign, restart, sent, log_prevents_double_votes}
use aah_chain.ConsensusWal.Tests.Text.{
  json, decodes, is_text, joined, write_number, read_number, write_text, read_text, write_type,
  read_type, vote_of, is_marked,
}
use aah_chain.ConsensusWal.Restart.{sign_all, log_restores_itself}

abbrev empty : ConsensusWal
empty = record { file = record { lines = []; tail = String.[] }; signed = [] }

abbrev first_vote : ConsensusMessage
first_vote = vote VoteType.prevote "v1" "aa"

-- A write that cannot begin, a vote, a vote for another block, a restart, the vote again, the other
-- again, a write of another kind of vote that breaks off, a restart, and that vote again.
abbrev life : List Event
life =
    sign (failed 0) first_vote
    ∷ sign appended first_vote
    ∷ sign appended (vote VoteType.prevote "v1" "bb")
    ∷ restart true
    ∷ sign appended first_vote
    ∷ sign appended (vote VoteType.prevote "v1" "bb")
    ∷ sign (failed 5) (vote VoteType.precommit "v1" "aa")
    ∷ sign appended (vote VoteType.precommit "v1" "aa")
    ∷ restart true
    ∷ sign appended first_vote
    ∷ []

sent_twice :
    sent toy json life empty ≡ first_vote ∷ first_vote ∷ vote VoteType.precommit "v1" "aa" ∷ []
unfolding sent record_before_broadcast verify_vote verify_signature get Maps.insert open_wal
    is_blank reload_lines reload_line write_number write_type write_text read_number read_type
    read_text vote_of is_marked take_chars
sent_twice = refl

-- With a file that cannot be read, a restart forgets the vote.
unreadable_file_forgets :
    sent toy json
      (sign appended first_vote
        ∷ restart false
        ∷ sign appended (vote VoteType.prevote "v1" "bb")
        ∷ [])
      empty
    ≡ first_vote ∷ vote VoteType.prevote "v1" "bb" ∷ []
unfolding sent record_before_broadcast verify_vote verify_signature get Maps.insert open_wal
unreadable_file_forgets = refl

empty_opens : open_wal toy json true (record { lines = []; tail = String.[] }) ≡ ok empty
unfolding open_wal
empty_opens = refl

log_prevents_double_votes_example : first_vote.block_hash ≡ first_vote.block_hash
log_prevents_double_votes_example =
    log_prevents_double_votes toy json decodes is_text joined life [] empty first_vote first_vote
      empty_opens (refl, (refl, tt)) (rw sent_twice (inl refl)) (rw sent_twice (inr (inl refl)))
      refl

log_restores_itself_example :
    open_wal toy json true
      (sign_all toy json (first_vote ∷ vote VoteType.precommit "v1" "aa" ∷ []) empty).file
    ≡ ok (sign_all toy json (first_vote ∷ vote VoteType.precommit "v1" "aa" ∷ []) empty)
log_restores_itself_example =
    log_restores_itself toy json decodes is_text
      (first_vote ∷ vote VoteType.precommit "v1" "aa" ∷ []) empty empty_opens refl
