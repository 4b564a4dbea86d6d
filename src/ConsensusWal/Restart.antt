-- ===== src/ConsensusWal/Restart.antt =====
-- A log of src/consensus_wal.rs that is opened again.
use Prim.Native.String.append as append_laws
use Prim.Native.String.{◌++◌ as append}
use mathlib.Core.List.{append-nil}
use aah_chain.Base.{
  true, String, List, [], ◌∷◌, ◌++◌, false, none, some, ◌≡◌, refl, arith, inl, inr, ap, ◌∙◌,
}
use aah_chain.Base.Tests.{Bool-cases, Option-cases}
use aah_chain.Base.Keys.{◌==◌, string_eq, nat_eq, pair_eq}
use aah_chain.Base.Maps
use aah_chain.Base.Maps.{Map, get}
use aah_chain.Base.Bytes.{is_blank}
use aah_chain.Base.Outcome.{ok, >>=-eq-ok, Outcome-cases}
use aah_chain.Crates.{Crates}
use aah_chain.Consensus.Messages.{ConsensusMessage, vote_type_eq, verify_vote}
use aah_chain.ConsensusWal.{
  Json, Key, key_of, text_lines, last_line, append_line, ConsensusWal, appended,
  record_before_broadcast, reload_line, reload_lines, open_wal,
}

module _ (crates : Crates) (json : Json) where
  -- The log after these votes, where every write ends well.
  unfoldable pub sign_all : List ConsensusMessage → ConsensusWal → ConsensusWal
  sign_all [] w = w
  sign_all (m ∷ ms) w = sign_all ms (record_before_broadcast crates json appended m w).1

  reload_lines-append :
      (lines more : List String) (signed : Map Key String) {after : Map Key String}
      → reload_lines crates json lines signed ≡ ok after
      → reload_lines crates json (lines ++ more) signed ≡ reload_lines crates json more after
  unfolding reload_lines
  reload_lines-append [] more signed {after} h = let same : signed ≡ after = cc h in rw same refl
  reload_lines-append (line ∷ lines) more signed h = elim (Bool-cases (is_blank line)) [
    | inl blank ↦ rw (blank, reload_lines) (reload_lines-append lines more signed (rw blank at h))
    | inr text ↦
        let (signed', f, h1) = >>=-eq-ok (reload_line crates json line signed) _ (rw text at h) in
        rw (text, f, reload_lines) (reload_lines-append lines more signed' h1)
  ]

  module _ (decodes : (m : ConsensusMessage) → json.decode (json.encode m) ≡ some m)
      (is_text : (m : ConsensusMessage) → is_blank (json.encode m) ≡ false) where
    reload_lines-encoded :
        (m : ConsensusMessage) (signed : Map Key String)
        → verify_vote crates m ≡ ok tt
        → get (key_of m) signed ≡ none
        → reload_lines crates json (json.encode m ∷ []) signed
          ≡ ok (Maps.insert (key_of m) m.block_hash signed)
    unfolding reload_lines reload_line
    reload_lines-encoded m signed v absent = ground (arith, is_text m, decodes m, v, absent)

    -- What the file and the map of a log are after a vote: they go together as before.
    abbrev Restores : ConsensusWal → Type 0
    Restores w = (open_wal crates json true w.file ≡ ok w) × (w.file.tail ≡ String.[])

    written-Restores :
        (m : ConsensusMessage) (w : ConsensusWal)
        → Restores w
        → verify_vote crates m ≡ ok tt
        → get (key_of m) w.signed ≡ none
        → Restores (record {
          file = append_line (json.encode m) w.file;
          signed = Maps.insert (key_of m) m.block_hash w.signed;
        })
    unfolding open_wal
    written-Restores m w (h, ended) v absent =
        let (signed, f, h1) = >>=-eq-ok (reload_lines crates json (text_lines w.file) []) _ h in
        let same : signed ≡ w.signed = cc h1 in
        let alone : append w.file.tail (json.encode m) ≡ json.encode m =
          ap (λ s. append s (json.encode m)) ended ∙ append_laws.nil (json.encode m) in
        let lines : text_lines w.file ≡ w.file.lines =
          ap (λ s. w.file.lines ++ last_line s) ended ∙ append-nil w.file.lines in
        let reloaded : reload_lines crates json (w.file.lines ++ json.encode m ∷ []) []
            ≡ ok (Maps.insert (key_of m) m.block_hash w.signed) =
          reload_lines-append w.file.lines (json.encode m ∷ []) [] (rw lines at (f ∙ ap ok same))
          ∙ reload_lines-encoded m w.signed v absent in
        (rw (alone, append-nil, reloaded) refl, refl)

    record_before_broadcast-Restores :
        (m : ConsensusMessage) (w : ConsensusWal)
        → Restores w
        → Restores (record_before_broadcast crates json appended m w).1
    unfolding record_before_broadcast
    record_before_broadcast-Restores m w h = elim (Outcome-cases (verify_vote crates m)) [
      | inr (e, v) ↦ rw (v, record_before_broadcast) h
      | inl (_, v) ↦ elim (Option-cases (get (key_of m) w.signed)) [
        | inr (previous, p) ↦ elim (Bool-cases (previous == m.block_hash)) [
          | inl known ↦ rw (v, p, known, record_before_broadcast) h
          | inr other ↦ rw (v, p, other, record_before_broadcast) h
        ]
        | inl absent ↦ rw (v, absent, record_before_broadcast) (written-Restores m w h v absent)
      ]
    ]

    sign_all-Restores :
        (ms : List ConsensusMessage) (w : ConsensusWal) → Restores w → Restores (sign_all ms w)
    unfolding sign_all
    sign_all-Restores [] w h = h
    sign_all-Restores (m ∷ ms) w h =
        sign_all-Restores ms (record_before_broadcast crates json appended m w).1
          (record_before_broadcast-Restores m w h)

    -- Where JSON text decodes to the vote that it encodes, and is not blank: if opening the file of a
    -- log, which ends with a line break or is empty, gives back the log, that stays so after any
    -- votes, refused ones included, whose writes end well.
    pub log_restores_itself :
        (ms : List ConsensusMessage) (w : ConsensusWal)
        → open_wal crates json true w.file ≡ ok w
        → w.file.tail ≡ String.[]
        → open_wal crates json true (sign_all ms w).file ≡ ok (sign_all ms w)
    log_restores_itself ms w h ended = (sign_all-Restores ms w (h, ended)).0
