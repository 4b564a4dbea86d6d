-- ===== src/ConsensusWal/Reload.antt =====
-- What a log of src/consensus_wal.rs that is read knows.
use aah_chain.Base.{
  String, List, [], ◌∷◌, true, false, none, some, ◌≡◌, refl, arith, inl, inr, ◌⊎◌, ap, ◌∙◌, subst,
}
use aah_chain.Base.Tests.{Bool-cases}
use aah_chain.Base.Keys.{◌==◌, string_eq, nat_eq, pair_eq}
use aah_chain.Base.Maps
use aah_chain.Base.Maps.{Map, get, get-insert, get-insert_self}
use aah_chain.Base.Sets.{In}
use aah_chain.Base.Bytes.{is_blank}
use aah_chain.Base.Outcome.{ok, ok_or, >>=-eq-ok}
use aah_chain.Errors.{wal_bad_line}
use aah_chain.Crates.{Crates}
use aah_chain.Consensus.Messages.{ConsensusMessage, vote_type_eq, verify_vote}
use aah_chain.ConsensusWal.{
  Json, Key, key_eq, key_of, LogFile, text_lines, ConsensusWal, reload_line, reload_lines, open_wal,
}

module _ (crates : Crates) (json : Json) where
  -- A line of the file is a vote with this key and block.
  pub record IsVote (k : Key) (hash line : String) : Type 0 where
    pub message : ConsensusMessage
    pub decoded : json.decode line ≡ some message
    pub key : key_of message ≡ k
    pub block : message.block_hash ≡ hash

  -- A line that keeps a log from being opened without this vote: it is the vote, or it is no vote at
  -- all, and the log does not open.
  pub record IsLine (k : Key) (hash line : String) : Type 0 where
    pub text : is_blank line ≡ false
    pub content : (json.decode line ≡ none) ⊎ IsVote k hash line

  abbrev pub IsLineFor : Key → String → List String → Type 0
  IsLineFor k hash lines = (line : String) × In line lines × IsLine k hash line

  abbrev pub IsBacked : ConsensusWal → Type 0
  IsBacked w =
      (k : Key) (hash : String) → get k w.signed ≡ some hash → IsLineFor k hash (text_lines w.file)

  -- What a line of the file that is read adds.
  record IsRead (line : String) (signed after : Map Key String) : Type 0 where
    message : ConsensusMessage
    decoded : json.decode line ≡ some message
    same : (hash : String) → get (key_of message) signed ≡ some hash → message.block_hash ≡ hash
    result : after ≡ Maps.insert (key_of message) message.block_hash signed

  reload_line-eq-ok :
      (line : String) (signed : Map Key String) {after : Map Key String}
      → reload_line crates json line signed ≡ ok after
      → IsRead line signed after
  unfolding reload_line
  reload_line-eq-ok line signed {after} h =
      let (m, d, h1) = >>=-eq-ok (ok_or (json.decode line) wal_bad_line) _ h in
      let (_, _, h2) = >>=-eq-ok (verify_vote crates m) _ h1 in
      record {
        message = m;
        decoded = ground (arith, d);
        same = λ hash g. ground (arith, g, h2, string_eq.beq_iff hash m.block_hash);
        result = ground (arith, h2);
      }

  IsRead-keeps :
      (line : String) (signed : Map Key String) {after : Map Key String}
      → IsRead line signed after
      → (k : Key) (hash : String) → get k signed ≡ some hash
      → get k after ≡ some hash
  IsRead-keeps line signed i k hash g =
      let m = i.message in
      elim (Bool-cases (key_of m == k)) [
        | inr other ↦ rw (i.result, get-insert, other) g
        | inl here ↦
            let same : key_of m ≡ k = (key_eq.beq_iff (key_of m) k).0 here in
            let block : m.block_hash ≡ hash = i.same hash (rw same g) in
            rw (i.result, get-insert, here, block) refl
      ]

  reload_lines-keeps :
      (lines : List String) (signed : Map Key String) {after : Map Key String}
      → reload_lines crates json lines signed ≡ ok after
      → (k : Key) (hash : String) → get k signed ≡ some hash
      → get k after ≡ some hash
  unfolding reload_lines
  reload_lines-keeps [] signed {after} h k hash g =
      let same : signed ≡ after = cc h in rw (← same) g
  reload_lines-keeps (line ∷ lines) signed h k hash g = elim (Bool-cases (is_blank line)) [
    | inl blank ↦ reload_lines-keeps lines signed (rw blank at h) k hash g
    | inr text ↦
        let (signed', f, h1) = >>=-eq-ok (reload_line crates json line signed) _ (rw text at h) in
        reload_lines-keeps lines signed' h1 k hash
          (IsRead-keeps line signed (reload_line-eq-ok line signed f) k hash g)
  ]

  IsRead-knows :
      (line : String) (signed : Map Key String) {after : Map Key String} (k : Key) (hash : String)
      → IsRead line signed after
      → IsLine k hash line
      → get k after ≡ some hash
  IsRead-knows line signed k hash i l = elim l.content [
    | inl broken ↦ cc (i.decoded, broken)
    | inr v ↦
        let same : i.message ≡ v.message = cc (i.decoded, v.decoded) in
        let key : key_of i.message ≡ k = ap key_of same ∙ v.key in
        let block : i.message.block_hash ≡ hash =
          ap (λ (m : ConsensusMessage). m.block_hash) same ∙ v.block in
        rw (i.result, block, key) (get-insert_self k hash signed)
  ]

  -- Every line of a file that is read is known afterwards.
  reload_lines-knows :
      (lines : List String) (signed : Map Key String) {after : Map Key String} (k : Key)
      (hash line : String)
      → reload_lines crates json lines signed ≡ ok after
      → In line lines
      → IsLine k hash line
      → get k after ≡ some hash
  unfolding reload_lines
  reload_lines-knows [] signed k hash line h i l = absurd i
  reload_lines-knows (first ∷ lines) signed k hash line h member l =
      elim (Bool-cases (is_blank first)) [
        | inl blank ↦ elim member [
          | inl here ↦ cc (blank, ap is_blank here, l.text)
          | inr later ↦ reload_lines-knows lines signed k hash line (rw blank at h) later l
        ]
        | inr text ↦
            let (signed', f, h1) =
              >>=-eq-ok (reload_line crates json first signed) _ (rw text at h) in
            elim member [
              | inr later ↦ reload_lines-knows lines signed' k hash line h1 later l
              | inl here ↦ reload_lines-keeps lines signed' h1 k hash (
                  IsRead-knows first signed k hash (reload_line-eq-ok first signed f)
                    (subst (IsLine k hash) here l))
            ]
      ]

  -- What a file that is read knows, it knows from a line.
  reload_lines-IsBacked :
      (lines : List String) (signed : Map Key String) {after : Map Key String} (k : Key)
      (hash : String)
      → reload_lines crates json lines signed ≡ ok after
      → get k after ≡ some hash
      → (get k signed ≡ some hash) ⊎ IsLineFor k hash lines
  unfolding reload_lines
  reload_lines-IsBacked [] signed {after} k hash h g =
      let same : signed ≡ after = cc h in inl (rw same g)
  reload_lines-IsBacked (line ∷ lines) signed k hash h g = elim (Bool-cases (is_blank line)) [
    | inl blank ↦ elim (reload_lines-IsBacked lines signed k hash (rw blank at h) g) [
      | inl old ↦ inl old
      | inr (l, i, e) ↦ inr (l, inr i, e)
    ]
    | inr text ↦
        let (signed', f, h1) = >>=-eq-ok (reload_line crates json line signed) _ (rw text at h) in
        let i = reload_line-eq-ok line signed f in
        elim (reload_lines-IsBacked lines signed' k hash h1 g) [
          | inr (l, j, e) ↦ inr (l, inr j, e)
          | inl known ↦ elim (Bool-cases (key_of i.message == k)) [
            | inr other ↦ inl (rw (i.result, get-insert, other) at known)
            | inl here ↦ inr (
              line,
              inl refl,
              record {
                text = text;
                content = inr (record {
                  message = i.message;
                  decoded = i.decoded;
                  key = (key_eq.beq_iff (key_of i.message) k).0 here;
                  block = cc (rw (i.result, get-insert, here) at known);
                });
              },
            )
          ]
        ]
  ]

  pub open_wal-IsBacked :
      (file : LogFile) {w : ConsensusWal}
      → open_wal crates json true file ≡ ok w
      → (w.file ≡ file) × IsBacked w
  unfolding open_wal get
  open_wal-IsBacked file {w} h =
      let (signed, f, h1) = >>=-eq-ok (reload_lines crates json (text_lines file) []) _ h in
      let same : record { file = file; signed = signed } ≡ w = cc h1 in
      rw (← same) (
        refl,
        λ k hash g. elim (reload_lines-IsBacked (text_lines file) [] k hash f g) [
          | inl nothing ↦ cc nothing
          | inr line ↦ line
        ],
      )

  -- A log that is opened again knows what it knew.
  pub open_wal-knows :
      (w w' : ConsensusWal) (k : Key) (hash : String)
      → IsBacked w
      → open_wal crates json true w.file ≡ ok w'
      → get k w.signed ≡ some hash
      → get k w'.signed ≡ some hash
  unfolding open_wal
  open_wal-knows w w' k hash backed h g =
      let (signed, f, h1) = >>=-eq-ok (reload_lines crates json (text_lines w.file) []) _ h in
      let (line, i, l) = backed k hash g in
      let same : signed ≡ w'.signed = cc h1 in
      rw (← same) (reload_lines-knows (text_lines w.file) [] k hash line f i l)
