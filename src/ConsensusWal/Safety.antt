-- ===== src/ConsensusWal/Safety.antt =====
-- What the log of src/consensus_wal.rs keeps a validator from signing.
use aah_chain.Base.{Bool, true, String, List, [], ◌∷◌, false, some, ◌≡◌, inl, inr, sym, ap, ◌∙◌}
use aah_chain.Base.Keys.{string_eq, nat_eq, pair_eq}
use aah_chain.Base.Maps.{get}
use aah_chain.Base.Sets.{In}
use aah_chain.Base.Bytes.{is_blank}
use aah_chain.Base.Outcome.{ok, err, Outcome-cases}
use aah_chain.Crates.{Crates}
use aah_chain.Consensus.Messages.{ConsensusMessage, vote_type_eq}
use aah_chain.ConsensusWal.{
  Json, Key, key_of, ConsensusWal, Append, record_before_broadcast, open_wal,
}
use aah_chain.ConsensusWal.Reload.{open_wal-IsBacked, open_wal-knows}
use aah_chain.ConsensusWal.Kept.{IsKept, reopened-IsKept, record_before_broadcast-IsRecorded}
use aah_chain.ConsensusWal.Cuts.{Piece, left_over, IsNoVote, append_line-IsTail}

-- What a node does with its log: it signs a vote, or it is started again, where the file can be read
-- or not.
pub data Event : Type 0 where
  sign : Append → ConsensusMessage → Event
  restart : Bool → Event

-- Every restart can read the file.
abbrev pub IsReadable : List Event → Type 0
IsReadable [] = Unit {0}
IsReadable (sign write m ∷ events) = IsReadable events
IsReadable (restart reads ∷ events) = (reads ≡ true) × IsReadable events

module _ (crates : Crates) (json : Json) where
  -- The votes that are sent: those that the log has taken. A node whose log does not open stops; with
  -- a file that cannot be read, it goes on with an empty log.
  unfoldable pub sent : List Event → ConsensusWal → List ConsensusMessage
  sent [] w = []
  sent (sign write m ∷ events) w =
      let (result, w') = record_before_broadcast crates json write m w in
      let rest = sent events w' in elim result [ ok _ ↦ m ∷ rest | err e ↦ rest ]
  sent (restart reads ∷ events) w = elim (open_wal crates json reads w.file) [
    | err e ↦ []
    | ok w' ↦ sent events w'
  ]

  module _ (decodes : (m : ConsensusMessage) → json.decode (json.encode m) ≡ some m)
      (is_text : (m : ConsensusMessage) → is_blank (json.encode m) ≡ false)
      (joined : (a b : Piece json) (pieces : List (Piece json))
        → IsNoVote json (left_over json (a ∷ b ∷ pieces))) where
    -- What the log knows, no vote that is sent contradicts.
    sent-agrees :
        (events : List Event) (w : ConsensusWal) (k : Key) (hash : String) (m : ConsensusMessage)
        → IsKept crates json w
        → IsReadable events
        → get k w.signed ≡ some hash
        → In m (sent events w)
        → key_of m ≡ k
        → m.block_hash ≡ hash
    unfolding sent
    sent-agrees [] w k hash m whole readable g i q = absurd i
    sent-agrees (sign write v ∷ events) w k hash m whole readable g i q =
        let step = record_before_broadcast crates json write v w in
        let r =
          record_before_broadcast-IsRecorded crates json decodes is_text joined write v w whole in
        let later : In m (sent events step.1) → m.block_hash ≡ hash =
          λ j. sent-agrees events step.1 k hash m r.whole readable (r.kept k hash g) j q in
        elim (Outcome-cases step.0) [
          | inr (e, f) ↦ later (rw (f, sent) at i)
          | inl (_, f) ↦ elim (rw (f, sent) at i) [
            | inr j ↦ later j
            | inl here ↦ cc (here, q, r.known f, r.kept k hash g)
          ]
        ]
    sent-agrees (restart reads ∷ events) w k hash m whole (yes_read, readable) g i q =
        elim (Outcome-cases (open_wal crates json true w.file)) [
          | inr (e, f) ↦ absurd (rw (yes_read, f, sent) at i)
          | inl (w', f) ↦
              sent-agrees events w' k hash m (reopened-IsKept crates json w w' whole f) readable
                (open_wal-knows crates json w w' k hash whole.backed f g)
                (rw (yes_read, f, sent) at i) q
        ]

    sent-IsUnique :
        (events : List Event) (w : ConsensusWal) (a b : ConsensusMessage)
        → IsKept crates json w
        → IsReadable events
        → In a (sent events w)
        → In b (sent events w)
        → key_of a ≡ key_of b
        → a.block_hash ≡ b.block_hash
    unfolding sent
    sent-IsUnique [] w a b whole readable i j q = absurd i
    sent-IsUnique (sign write v ∷ events) w a b whole readable i j q =
        let step = record_before_broadcast crates json write v w in
        let r =
          record_before_broadcast-IsRecorded crates json decodes is_text joined write v w whole in
        elim (Outcome-cases step.0) [
          | inr (e, f) ↦
              sent-IsUnique events step.1 a b r.whole readable (rw (f, sent) at i)
                (rw (f, sent) at j) q
          | inl (_, f) ↦
              let agrees : (m : ConsensusMessage)
                  → In m (sent events step.1)
                  → key_of m ≡ key_of v
                  → m.block_hash ≡ v.block_hash =
                λ m k p.
                  sent-agrees events step.1 (key_of v) v.block_hash m r.whole readable (r.known f) k
                    p in
              elim (rw (f, sent) at i) [
                | inl first ↦ elim (rw (f, sent) at j) [
                  | inl same ↦ cc (first, same)
                  | inr later ↦
                      ap (λ (m : ConsensusMessage). m.block_hash) first
                      ∙ sym (agrees b later (sym q ∙ ap key_of first))
                ]
                | inr sooner ↦ elim (rw (f, sent) at j) [
                  | inl same ↦
                      agrees a sooner (q ∙ ap key_of same)
                      ∙ sym (ap (λ (m : ConsensusMessage). m.block_hash) same)
                  | inr later ↦ sent-IsUnique events step.1 a b r.whole readable sooner later q
                ]
              ]
        ]
    sent-IsUnique (restart reads ∷ events) w a b whole (yes_read, readable) i j q =
        elim (Outcome-cases (open_wal crates json true w.file)) [
          | inr (e, f) ↦ absurd (rw (yes_read, f, sent) at i)
          | inl (w', f) ↦
              sent-IsUnique events w' a b (reopened-IsKept crates json w w' whole f) readable
                (rw (yes_read, f, sent) at i) (rw (yes_read, f, sent) at j) q
        ]

    -- Where JSON text decodes to the vote that it encodes and is not blank, and beginnings of votes
    -- that stand one behind another on a line, two or more, are no vote: a node that opens its log,
    -- whose file ends with a line break or is empty or missing, and then signs votes and is started
    -- again in any order, never sends votes of one kind for two blocks at one height and round.
    -- Writes may fail and leave a part of their line behind; but each restart must be able to read
    -- the file if there is one.
    pub log_prevents_double_votes :
        (events : List Event) (lines : List String) (w : ConsensusWal) (a b : ConsensusMessage)
        → open_wal crates json true (record { lines = lines; tail = String.[] }) ≡ ok w
        → IsReadable events
        → In a (sent events w)
        → In b (sent events w)
        → key_of a ≡ key_of b
        → a.block_hash ≡ b.block_hash
    log_prevents_double_votes events lines w a b opened readable i j q =
        let (file, backed) =
          open_wal-IsBacked crates json (record { lines = lines; tail = String.[] }) opened in
        let whole : IsKept crates json w = record {
          backed = backed;
          tail =
              rw file (append_line-IsTail json String.[] (record { lines = []; tail = String.[] }));
        } in
        sent-IsUnique events w a b whole readable i j q
