-- ===== src/ConsensusWal.antt =====
-- src/consensus_wal.rs: the log of the votes that a validator has signed, over a file of lines, with
-- serde_json as a parameter. A write may fail, and leave the beginning of its line behind.
pub mod Reload
pub mod Cuts
pub mod Kept
pub mod Safety
pub mod Restart
mod Tests
use Prim.Native.String.{◌++◌ as append}
use aah_chain.Base.{
  ℕ, zero, suc, String, List, [], ◌∷◌, ◌++◌, Bool, true, false, Option, none, some, ◌≡◌, not,
}
use aah_chain.Base.Tests.{if◌then◌else◌}
use aah_chain.Base.Keys.{Eq, ◌==◌, string_eq, nat_eq, pair_eq}
use aah_chain.Base.Maps
use aah_chain.Base.Maps.{Map, get}
use aah_chain.Base.Bytes.{is_blank}
use aah_chain.Base.Outcome.{Outcome, ok, err, ◌>>=◌, ◌>>◌, fail_if, ok_or}
use aah_chain.Errors.{Error, signed_other_block, wal_write_failed, wal_bad_line, wal_double_vote}
use aah_chain.Crates.{Crates}
use aah_chain.Consensus.Messages.{ConsensusMessage, VoteType, vote_type_eq, verify_vote}

-- `serde_json` of a `WalVote`: the text of a vote, without a line break, and the vote of a text.
pub record Json : Type 0 where
  pub encode : ConsensusMessage → String
  pub decode : String → Option ConsensusMessage

abbrev pub Key : Type 0
Key = ℕ × (ℕ × VoteType)

abbrev pub key_eq : Eq Key
key_eq = pair_eq

abbrev pub key_of : ConsensusMessage → Key
key_of m = (m.height, (m.round, m.vote_type))

-- The text of the file: the lines that a line break ends, and what stands after the last break.
pub record LogFile : Type 0 where
  pub lines : List String
  pub tail : String

abbrev pub last_line : String → List String
last_line String.[] = []
last_line (String.◌∷◌ c s) = String.◌∷◌ c s ∷ []

-- `contents.lines()`
abbrev pub text_lines : LogFile → List String
text_lines f = f.lines ++ last_line f.tail

-- The first characters of a text.
unfoldable pub take_chars : ℕ → String → String
take_chars zero s = String.[]
take_chars (suc n) String.[] = String.[]
take_chars (suc n) (String.◌∷◌ c s) = String.◌∷◌ c (take_chars n s)

-- The file after text without a line break, and after a line with its break.
abbrev pub append_text : String → LogFile → LogFile
append_text text f = record f { tail = append f.tail text }

abbrev pub append_line : String → LogFile → LogFile
append_line line f = record { lines = f.lines ++ append f.tail line ∷ []; tail = String.[] }

-- The file, and what has been signed for each height, round and kind of vote.
pub record ConsensusWal : Type 0 where
  pub file : LogFile
  pub signed : Map Key String

-- How appending a line to the file ends: well, or with an error after so many characters of the line
-- (none, where the file does not open), or with an error after the line and its break. A write
-- that breaks off inside a character leaves a file that is not UTF-8, and cannot be read.
pub data Append : Type 0 where
  appended : Append
  failed : ℕ → Append
  unsynced : Append

module _ (crates : Crates) (json : Json) where
  -- `record_before_broadcast`
  unfoldable pub record_before_broadcast :
      Append → ConsensusMessage → ConsensusWal → Outcome Error (Unit {0}) × ConsensusWal
  record_before_broadcast write m w = elim (verify_vote crates m) [
    | err e ↦ (err e, w)
    | ok _ ↦ elim (get (key_of m) w.signed) [
      | some previous ↦
          if not (previous == m.block_hash) then (err signed_other_block, w) else (ok tt, w)
      | none ↦ elim write [
        | failed n ↦ (
          err wal_write_failed,
          record w { file = append_text (take_chars n (json.encode m)) w.file },
        )
        | unsynced ↦ (err wal_write_failed, record w { file = append_line (json.encode m) w.file })
        | appended ↦ (
          ok tt,
          record {
            file = append_line (json.encode m) w.file;
            signed = Maps.insert (key_of m) m.block_hash w.signed;
          },
        )
      ]
    ]
  ]

  -- A line of `reload`.
  unfoldable pub reload_line : String → Map Key String → Outcome Error (Map Key String)
  reload_line line signed = do
    m ← ok_or (json.decode line) wal_bad_line
    verify_vote crates m
    let signed' = Maps.insert (key_of m) m.block_hash signed
    elim (get (key_of m) signed) [
      | none ↦ ok signed'
      | some previous ↦ if not (previous == m.block_hash) then err wal_double_vote else ok signed'
    ]

  -- The loop of `reload`.
  unfoldable pub reload_lines : List String → Map Key String → Outcome Error (Map Key String)
  unfolding reload_line
  reload_lines [] signed = ok signed
  reload_lines (line ∷ lines) signed =
      let skipped = reload_lines lines signed in
      if is_blank line
      then skipped
      else (do signed' ← reload_line line signed; reload_lines lines signed')

  -- `open`, with `reload`: `false` where there is a file that cannot be read. A missing file reads as
  -- an empty one.
  unfoldable pub open_wal : Bool → LogFile → Outcome Error ConsensusWal
  unfolding reload_lines
  open_wal false file = ok (record { file = file; signed = [] })
  open_wal true file = do
    signed ← reload_lines (text_lines file) []
    ok (record { file = file; signed = signed })
