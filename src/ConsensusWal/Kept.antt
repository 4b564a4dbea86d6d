-- ===== src/ConsensusWal/Kept.antt =====
-- What a call of src/consensus_wal.rs keeps true of a log.
use Prim.Native.String.{◌++◌ as append}
use aah_chain.Base.{true, String, List, [], ◌∷◌, false, none, some, ◌≡◌, inl, inr, ap}
use aah_chain.Base.Tests.{Bool-cases, Option-cases}
use aah_chain.Base.Keys.{◌==◌, string_eq, nat_eq, pair_eq}
use aah_chain.Base.Maps
use aah_chain.Base.Maps.{Map, get, get-insert, get-insert_self}
use aah_chain.Base.Sets.{In-append_left}
use aah_chain.Base.Distinct.{append_one-In}
use aah_chain.Base.Bytes.{is_blank}
use aah_chain.Base.Outcome.{Outcome, ok, err, Outcome-cases}
use aah_chain.Errors.{Error, wal_write_failed}
use aah_chain.Crates.{Crates}
use aah_chain.Consensus.Messages.{ConsensusMessage, vote_type_eq, verify_vote}
use aah_chain.ConsensusWal.{
  Json, Key, key_eq, key_of, ConsensusWal, Append, appended, failed, unsynced,
  record_before_broadcast, open_wal, take_chars, append_text, append_line,
}
use aah_chain.ConsensusWal.Reload.{IsBacked, open_wal-IsBacked}
use aah_chain.ConsensusWal.Cuts.{
  Piece, left_over, IsNoVote, IsTail, append_text-IsTail, append_line-IsTail, append_text-IsLineFor,
  append_line-IsLineFor, new_vote-IsLine,
}

module _ (crates : Crates) (json : Json) where
  -- The log knows its votes from its file, at whose end only failed writes stand.
  pub record IsKept (w : ConsensusWal) : Type 0 where
    pub backed : IsBacked crates json w
    pub tail : IsTail json w.file

  -- A log that is opened again is one that knows no less.
  pub reopened-IsKept :
      (w w' : ConsensusWal) → IsKept w → open_wal crates json true w.file ≡ ok w' → IsKept w'
  reopened-IsKept w w' i f =
      let (file, backed) = open_wal-IsBacked crates json w.file f in
      record { backed = backed; tail = rw file i.tail }

  module _ (decodes : (m : ConsensusMessage) → json.decode (json.encode m) ≡ some m)
      (is_text : (m : ConsensusMessage) → is_blank (json.encode m) ≡ false)
      (joined : (a b : Piece json) (pieces : List (Piece json))
        → IsNoVote json (left_over json (a ∷ b ∷ pieces))) where
    -- What a call leaves in the log.
    pub record IsRecorded (m : ConsensusMessage) (w : ConsensusWal)
        (step : Outcome Error (Unit {0}) × ConsensusWal) : Type 0 where
      pub whole : IsKept step.1
      pub kept :
          (k : Key) (hash : String) → get k w.signed ≡ some hash → get k step.1.signed ≡ some hash
      pub known : step.0 ≡ ok tt → get (key_of m) step.1.signed ≡ some m.block_hash

    -- The end of a call for a vote that is new.
    written :
        (write : Append) (m : ConsensusMessage) (w : ConsensusWal)
        → IsKept w
        → get (key_of m) w.signed ≡ none
        → IsRecorded m w (elim write [
          | failed n ↦ (
            err wal_write_failed,
            record w { file = append_text (take_chars n (json.encode m)) w.file },
          )
          | unsynced ↦
              (err wal_write_failed, record w { file = append_line (json.encode m) w.file })
          | appended ↦ (
            ok tt,
            record {
              file = append_line (json.encode m) w.file;
              signed = Maps.insert (key_of m) m.block_hash w.signed;
            },
          )
        ])
    written (failed n) m w i absent = record {
      whole = record {
        backed = λ k hash g.
            append_text-IsLineFor json crates joined k hash m n w.file i.tail (i.backed k hash g);
        tail = append_text-IsTail json m n w.file i.tail;
      };
      kept = λ k hash g. g;
      known = λ q. cc q;
    }
    written unsynced m w i absent = record {
      whole = record {
        backed = λ k hash g.
            append_line-IsLineFor json crates joined k hash m w.file i.tail (i.backed k hash g);
        tail = append_line-IsTail json (json.encode m) w.file;
      };
      kept = λ k hash g. g;
      known = λ q. cc q;
    }
    written appended m w i absent = record {
      whole = record {
        backed = λ k hash g. elim (Bool-cases (key_of m == k)) [
          | inr other ↦
              append_line-IsLineFor json crates joined k hash m w.file i.tail
                (i.backed k hash (rw (get-insert, other) at g))
          | inl here ↦
              let block : m.block_hash ≡ hash = cc (rw (get-insert, here) at g) in
              rw (← (key_eq.beq_iff (key_of m) k).0 here, ← block)
                (
                  append w.file.tail (json.encode m),
                  In-append_left _ _ [] (append_one-In w.file.lines _),
                  new_vote-IsLine json crates joined m w.file (decodes m) (is_text m) i.tail,
                )
        ];
        tail = append_line-IsTail json (json.encode m) w.file;
      };
      kept = λ k hash g. elim (Bool-cases (key_of m == k)) [
        | inr other ↦ rw (get-insert, other) g
        | inl here ↦ cc (absent, g, (key_eq.beq_iff (key_of m) k).0 here)
      ];
      known = λ q. get-insert_self (key_of m) m.block_hash w.signed;
    }

    pub record_before_broadcast-IsRecorded :
        (write : Append) (m : ConsensusMessage) (w : ConsensusWal)
        → IsKept w
        → IsRecorded m w (record_before_broadcast crates json write m w)
    unfolding record_before_broadcast
    record_before_broadcast-IsRecorded write m w i = elim (Outcome-cases (verify_vote crates m)) [
      | inr (e, v) ↦
          rw (v, record_before_broadcast)
            (record { whole = i; kept = λ k hash g. g; known = λ q. cc q })
      | inl (_, v) ↦ elim (Option-cases (get (key_of m) w.signed)) [
        | inr (previous, p) ↦ elim (Bool-cases (previous == m.block_hash)) [
          | inl same ↦
              rw (v, p, same, record_before_broadcast)
                (record {
                  whole = i;
                  kept = λ k hash g. g;
                  known = λ q. rw p (ap some ((string_eq.beq_iff previous m.block_hash).0 same));
                })
          | inr other ↦
              rw (v, p, other, record_before_broadcast)
                (record { whole = i; kept = λ k hash g. g; known = λ q. cc q })
        ]
        | inl absent ↦ rw (v, absent, record_before_broadcast) (written write m w i absent)
      ]
    ]
