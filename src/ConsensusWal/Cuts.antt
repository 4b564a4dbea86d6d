-- ===== src/ConsensusWal/Cuts.antt =====
-- What writes to the log of src/consensus_wal.rs that fail leave at the end of its file, and that no
-- later write takes a vote out of the file.
use Prim.Native.String.append as append_laws
use Prim.Native.String.{◌++◌ as append}
use text.Mathlib.TextLemmas.{append-nil}
use aah_chain.Base.{
  ℕ, zero, suc, String, List, [], ◌∷◌, ◌++◌, false, none, some, ◌≡◌, refl, inl, inr, ◌⊎◌, ap, ◌∙◌,
  subst, sym,
}
use aah_chain.Base.Sets.{In, In-append_left}
use aah_chain.Base.Distinct.{append_one-In}
use aah_chain.Base.Bytes.{is_blank}
use aah_chain.Crates.{Crates}
use aah_chain.Consensus.Messages.{ConsensusMessage}
use aah_chain.ConsensusWal.{
  Json, Key, key_of, LogFile, last_line, text_lines, take_chars, append_text, append_line,
}
use aah_chain.ConsensusWal.Reload.{IsLine, IsLineFor}

In-append_right : (x : String) (xs ys : List String) → In x ys → In x (xs ++ ys)
In-append_right x [] ys i = i
In-append_right x (y ∷ xs) ys i = inr (In-append_right x xs ys i)

last_line-In : (s : String) → is_blank s ≡ false → In s (last_line s)
unfolding is_blank
last_line-In String.[] h = cc
last_line-In (String.◌∷◌ c s) h = inl refl

In-last_line :
    (x : String) (lines : List String) (s : String)
    → In x (lines ++ last_line s)
    → In x lines ⊎ (x ≡ s)
In-last_line x [] String.[] i = absurd i
In-last_line x [] (String.◌∷◌ c s) (inl p) = inr p
In-last_line x [] (String.◌∷◌ c s) (inr i) = absurd i
In-last_line x (line ∷ lines) s (inl p) = inl (inl p)
In-last_line x (line ∷ lines) s (inr i) = elim (In-last_line x lines s i) [
  | inl j ↦ inl (inr j)
  | inr p ↦ inr p
]

-- A whole text is a beginning of itself.
take_chars_all : (s : String) → (n : ℕ) × (take_chars (suc n) s ≡ s)
unfolding take_chars
take_chars_all String.[] = (0, refl)
take_chars_all (String.◌∷◌ c s) =
    let (n, same) = take_chars_all s in (suc n, ap (String.◌∷◌ c) same)

module _ (json : Json) where
  -- A piece is the beginning of a vote, up to the character of this index.
  abbrev pub Piece : Type 0
  Piece = ConsensusMessage × ℕ

  -- The pieces of failed writes, the latest first, as they stand one behind another.
  unfoldable pub left_over : List Piece → String
  left_over [] = String.[]
  left_over ((m, n) ∷ pieces) = append (left_over pieces) (take_chars (suc n) (json.encode m))

  abbrev pub IsNoVote : String → Type 0
  IsNoVote line = (is_blank line ≡ false) × (json.decode line ≡ none)

  abbrev pub IsTail : LogFile → Type 0
  IsTail f = (pieces : List Piece) × (f.tail ≡ left_over pieces)

  pub append_text-IsTail :
      (m : ConsensusMessage) (n : ℕ) (f : LogFile)
      → IsTail f
      → IsTail (append_text (take_chars n (json.encode m)) f)
  unfolding left_over take_chars
  append_text-IsTail m zero f (pieces, q) = (pieces, append-nil f.tail ∙ q)
  append_text-IsTail m (suc n) f (pieces, q) =
      ((m, n) ∷ pieces, ap (λ s. append s (take_chars (suc n) (json.encode m))) q)

  pub append_line-IsTail : (line : String) (f : LogFile) → IsTail (append_line line f)
  unfolding left_over
  append_line-IsTail line f = ([], refl)

  module _ (crates : Crates)
      (joined : (a b : Piece) (pieces : List Piece) → IsNoVote (left_over (a ∷ b ∷ pieces))) where
    is_not_empty : (s : String) → is_blank s ≡ false → s ≡ left_over [] → ⊥
    unfolding is_blank left_over
    is_not_empty String.[] h q = cc h
    is_not_empty (String.◌∷◌ c s) h q = cc q

    joined-tail :
        (m : ConsensusMessage) (n : ℕ) (b : Piece) (pieces : List Piece) (f : LogFile)
        → f.tail ≡ left_over (b ∷ pieces)
        → IsNoVote (append f.tail (take_chars (suc n) (json.encode m)))
    joined-tail m n b pieces f q =
        subst (λ s. IsNoVote (append s (take_chars (suc n) (json.encode m)))) (sym q)
          (unfold left_over in joined (m, n) b pieces)

    -- More text behind the last break takes no vote out of the file.
    grown-IsLineFor :
        (k : Key) (hash : String) (m : ConsensusMessage) (n : ℕ) (f : LogFile) (lines : List String)
        → IsTail f
        → ((x : String) → In x f.lines → In x lines)
        → (is_blank (append f.tail (take_chars (suc n) (json.encode m))) ≡ false
            → In (append f.tail (take_chars (suc n) (json.encode m))) lines)
        → IsLineFor crates json k hash (text_lines f)
        → IsLineFor crates json k hash lines
    grown-IsLineFor k hash m n f lines ([], q) old new (line, i, l) =
        elim (In-last_line line f.lines f.tail i) [
          | inl there ↦ (line, old line there, l)
          | inr last ↦ absurd (is_not_empty line l.text (last ∙ q))
        ]
    grown-IsLineFor k hash m n f lines (b ∷ pieces, q) old new (line, i, l) =
        elim (In-last_line line f.lines f.tail i) [
          | inl there ↦ (line, old line there, l)
          | inr last ↦
              let (text, broken) = joined-tail m n b pieces f q in
              (_, new text, record { text = text; content = inl broken })
        ]

    pub append_text-IsLineFor :
        (k : Key) (hash : String) (m : ConsensusMessage) (n : ℕ) (f : LogFile)
        → IsTail f
        → IsLineFor crates json k hash (text_lines f)
        → IsLineFor crates json k hash (text_lines (append_text (take_chars n (json.encode m)) f))
    unfolding take_chars
    append_text-IsLineFor k hash m zero f t l = rw (append-nil f.tail) l
    append_text-IsLineFor k hash m (suc n) f t l =
        grown-IsLineFor k hash m n f _ t (λ x i. In-append_left x f.lines _ i)
          (λ text. In-append_right _ f.lines _ (last_line-In _ text)) l

    pub append_line-IsLineFor :
        (k : Key) (hash : String) (m : ConsensusMessage) (f : LogFile)
        → IsTail f
        → IsLineFor crates json k hash (text_lines f)
        → IsLineFor crates json k hash (text_lines (append_line (json.encode m) f))
    append_line-IsLineFor k hash m f t l =
        let (n, same) = take_chars_all (json.encode m) in
        grown-IsLineFor k hash m n f _ t
          (λ x i. In-append_left x _ [] (In-append_left x f.lines _ i))
          (λ text.
            rw same (In-append_left _ _ [] (append_one-In f.lines (append f.tail (json.encode m)))))
          l

    -- A line that is written stands for its vote.
    pub new_vote-IsLine :
        (m : ConsensusMessage) (f : LogFile)
        → json.decode (json.encode m) ≡ some m
        → is_blank (json.encode m) ≡ false
        → IsTail f
        → IsLine crates json (key_of m) m.block_hash (append f.tail (json.encode m))
    new_vote-IsLine m f decoded text ([], q) =
        let empty : f.tail ≡ String.[] = unfold left_over in q in
        let alone : append f.tail (json.encode m) ≡ json.encode m =
          ap (λ s. append s (json.encode m)) empty ∙ append_laws.nil (json.encode m) in
        rw alone (record {
          text = text;
          content = inr (record { message = m; decoded = decoded; key = refl; block = refl });
        })
    new_vote-IsLine m f decoded text (b ∷ pieces, q) =
        let (n, same) = take_chars_all (json.encode m) in
        let (text', broken) = joined-tail m n b pieces f q in
        subst (λ s. IsLine crates json (key_of m) m.block_hash (append f.tail s)) same
          (record { text = text'; content = inl broken })
