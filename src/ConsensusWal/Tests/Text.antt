-- ===== src/ConsensusWal/Tests/Text.antt =====
-- A text for votes in place of JSON, which has the properties that the theorems on src/consensus_wal.rs
-- ask of it.
use Prim.Native.Char.{code}
use Prim.Native.String.append as append_laws
use Prim.Native.String.{◌++◌ as append}
use text.Mathlib.TextEquality.{Char-path}
use aah_chain.Base.{
  ℕ, zero, suc, String, List, ◌∷◌, Bool, true, false, arith, Option, none, some, ◌≡◌, refl, inl,
  inr,
}
use aah_chain.Base.Tests.{if◌then◌else◌, eqb, Bool-cases}
use aah_chain.Base.Bytes.{is_blank}
use aah_chain.Consensus.Messages.{ConsensusMessage, VoteType}
use aah_chain.ConsensusWal.{Json, take_chars}
use aah_chain.ConsensusWal.Cuts.{Piece, left_over, IsNoVote}

-- A vote starts with a `<`, which stands nowhere else in it. A number is so many `1` and a `0`; a text
-- has a `1` before each character, a `2` in place of a `<`, and a `0` at its end.
unfoldable pub write_number : ℕ → String → String
write_number zero rest = String.◌∷◌ "0" rest
write_number (suc n) rest = String.◌∷◌ "1" (write_number n rest)

unfoldable pub read_number : String → Option (ℕ × String)
read_number String.[] = none
read_number (String.◌∷◌ c s) =
    let more = read_number s in
    if eqb (code c) b'0'
    then some (0, s)
    else elim more [ none ↦ none | some (n, rest) ↦ some (suc n, rest) ]

read-write_number : (n : ℕ) (rest : String) → read_number (write_number n rest) ≡ some (n, rest)
unfolding read_number write_number
read-write_number zero rest = refl
read-write_number (suc n) rest = rw (read-write_number n rest) refl

unfoldable pub write_text : String → String → String
write_text String.[] rest = String.◌∷◌ "0" rest
write_text (String.◌∷◌ c s) rest =
    let more = write_text s rest in
    if eqb (code c) b'<'
    then String.◌∷◌ "2" (String.◌∷◌ "0" more)
    else String.◌∷◌ "1" (String.◌∷◌ c more)

unfoldable pub read_text : String → Option (String × String)
read_text String.[] = none
read_text (String.◌∷◌ a String.[]) = if eqb (code a) b'0' then some ("", "") else none
read_text (String.◌∷◌ a (String.◌∷◌ c s)) =
    let more = read_text s in
    if eqb (code a) b'0' then some ("", String.◌∷◌ c s) else elim more [
      | none ↦ none
      | some (t, rest) ↦ some (String.◌∷◌ (if eqb (code a) b'2' then "<" else c) t, rest)
    ]

read-write_text : (t rest : String) → read_text (write_text t rest) ≡ some (t, rest)
unfolding read_text write_text
read-write_text String.[] String.[] = refl
read-write_text String.[] (String.◌∷◌ c s) = refl
read-write_text (String.◌∷◌ c t) rest = elim (Bool-cases (eqb (code c) b'<')) [
  | inr other ↦ rw (other, read-write_text t rest) refl
  | inl mark ↦
      let same : c ≡ "<" = Char-path c "<" (ground (arith, mark)) in
      rw (mark, read-write_text t rest, same) refl
]

unfoldable pub write_type : VoteType → String → String
write_type VoteType.prevote rest = String.◌∷◌ "0" rest
write_type VoteType.precommit rest = String.◌∷◌ "1" rest

unfoldable pub read_type : String → Option (VoteType × String)
read_type String.[] = none
read_type (String.◌∷◌ c s) =
    some (if eqb (code c) b'0' then VoteType.prevote else VoteType.precommit, s)

abbrev bind_option : {A B : Type 0} → Option A → (A → Option B) → Option B
bind_option none f = none
bind_option (some a) f = f a

-- The text has a `<`.
unfoldable pub is_marked : String → Bool
is_marked String.[] = false
is_marked (String.◌∷◌ c s) = let rest = is_marked s in if eqb (code c) b'<' then true else rest

abbrev body_of : ConsensusMessage → String
body_of m = write_number m.height (
    write_number m.round (
      write_type m.vote_type
        (write_text m.validator_id (write_text m.block_hash (write_text m.signature "")))))

abbrev vote_of_body : String → Option ConsensusMessage
vote_of_body text = bind_option (read_number text) λ height.
    bind_option (read_number height.1) λ round. bind_option (read_type round.1) λ kind.
      bind_option (read_text kind.1) λ id. bind_option (read_text id.1) λ block.
        bind_option (read_text block.1) λ signature. some (record {
          height = height.0;
          round = round.0;
          validator_id = id.0;
          vote_type = kind.0;
          block_hash = block.0;
          signature = signature.0;
        })

abbrev text_of : ConsensusMessage → String
text_of m = String.◌∷◌ "<" (body_of m)

unfoldable pub vote_of : String → Option ConsensusMessage
vote_of String.[] = none
vote_of (String.◌∷◌ c s) = if is_marked s then none else vote_of_body s

abbrev pub json : Json
json = record { encode = text_of; decode = vote_of }

read-write_type : (t : VoteType) (rest : String) → read_type (write_type t rest) ≡ some (t, rest)
unfolding read_type write_type
read-write_type VoteType.prevote rest = refl
read-write_type VoteType.precommit rest = refl

is_marked-write_number : (n : ℕ) (rest : String) → is_marked (write_number n rest) ≡ is_marked rest
unfolding is_marked write_number
is_marked-write_number zero rest = refl
is_marked-write_number (suc n) rest = is_marked-write_number n rest

is_marked-write_text : (t rest : String) → is_marked (write_text t rest) ≡ is_marked rest
unfolding is_marked write_text
is_marked-write_text String.[] rest = refl
is_marked-write_text (String.◌∷◌ c t) rest = elim (Bool-cases (eqb (code c) b'<')) [
  | inl mark ↦ rw mark (is_marked-write_text t rest)
  | inr other ↦ rw (other, other) (is_marked-write_text t rest)
]

is_marked-write_type :
    (t : VoteType) (rest : String) → is_marked (write_type t rest) ≡ is_marked rest
unfolding is_marked write_type
is_marked-write_type VoteType.prevote rest = refl
is_marked-write_type VoteType.precommit rest = refl

is_marked-body_of : (m : ConsensusMessage) → is_marked (body_of m) ≡ false
unfolding is_marked
is_marked-body_of m =
    rw
      (
        is_marked-write_number, is_marked-write_number, is_marked-write_type, is_marked-write_text,
        is_marked-write_text, is_marked-write_text,
      )
      refl

pub decodes : (m : ConsensusMessage) → json.decode (json.encode m) ≡ some m
unfolding vote_of
decodes m = rw (is_marked-body_of m) (
    rw read-write_number (
      rw read-write_number
        (rw read-write_type (rw read-write_text (rw read-write_text (rw read-write_text refl))))))

pub is_text : (m : ConsensusMessage) → is_blank (json.encode m) ≡ false
unfolding is_blank
is_text m = refl

is_marked-is_blank : (s : String) → is_marked s ≡ true → is_blank s ≡ false
unfolding is_marked is_blank
is_marked-is_blank String.[] h = cc h
is_marked-is_blank (String.◌∷◌ c s) h = elim (Bool-cases (eqb (code c) b'<')) [
  | inl mark ↦ let same : c ≡ "<" = Char-path c "<" (ground (arith, mark)) in rw same refl
  | inr other ↦ rw (is_marked-is_blank s (rw other at h)) (ground arith)
]

is_marked-append : (s t : String) → is_marked (append s (String.◌∷◌ "<" t)) ≡ true
unfolding is_marked
is_marked-append String.[] t = rw (append_laws.nil (String.◌∷◌ "<" t)) refl
is_marked-append (String.◌∷◌ c s) t =
    rw (append_laws.cons c s (String.◌∷◌ "<" t), is_marked-append s t) (ground arith)

vote_of-append : (s t : String) → is_marked s ≡ true → vote_of (append s (String.◌∷◌ "<" t)) ≡ none
unfolding vote_of is_marked
vote_of-append String.[] t h = cc h
vote_of-append (String.◌∷◌ c s) t h =
    rw (append_laws.cons c s (String.◌∷◌ "<" t), is_marked-append s t) refl

pub joined :
    (a b : Piece json) (pieces : List (Piece json))
    → IsNoVote json (left_over json (a ∷ b ∷ pieces))
unfolding left_over take_chars
joined (m, n) (k, j) pieces =
    let first = append (left_over json pieces) (take_chars (suc j) (text_of k)) in
    let marked : is_marked first ≡ true = is_marked-append (left_over json pieces) _ in
    (
      is_marked-is_blank (append first (take_chars (suc n) (text_of m))) (is_marked-append first _),
      vote_of-append first _ marked,
    )
