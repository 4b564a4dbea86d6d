-- ===== src/RawTransaction/Rlp.antt =====
-- The RLP half of src/raw_transaction.rs: items and lists of byte strings, read and written.
use aah_chain.Base.{ℕ, zero, suc, ◌+◌, ◌-◌, List, [], ◌∷◌, ◌++◌, Bool, true, false, ◌||◌}
use aah_chain.Base.Tests.{if◌then◌else◌, eqb, ltb, leb}
use aah_chain.Base.Lists.{length, take, drop}
use aah_chain.Base.Words.{checked_add, u64_max}
use aah_chain.Base.Bytes.{from_be_bytes, be_bytes}
use aah_chain.Base.Outcome.{Outcome, ok, err, ◌>>=◌, ◌>>◌, fail_if, ok_or}
use aah_chain.Errors.{
  Error, rlp_trailing, rlp_empty, rlp_wrong_kind, rlp_length_overflow, rlp_too_long, rlp_bad_length,
  rlp_out_of_fuel,
}

-- `&input[start..end]`
abbrev pub slice : ℕ → ℕ → List ℕ → List ℕ
slice start end input = take (end - start) (drop start input)

-- `read_length`
unfoldable pub read_length : List ℕ → ℕ → ℕ → Outcome Error ℕ
read_length input start width = do
  fail_if (eqb width 0 || ltb 8 width || ltb (length input) (start + width)) rlp_bad_length
  ok (from_be_bytes 0 (slice start (start + width) input))

-- The head of an item: is it a list, where does its payload begin, and how long is it.
unfoldable pub item_head : ℕ → List ℕ → Outcome Error (Bool × ℕ × ℕ)
unfolding read_length
item_head prefix input =
    if leb prefix 0x7f
    then ok (false, 0, 1)
    else if leb prefix 0xb7
    then ok (false, 1, prefix - 0x80)
    else if leb prefix 0xbf
    then (do length ← read_length input 1 (prefix - 0xb7); ok (false, 1 + (prefix - 0xb7), length))
    else if leb prefix 0xf7
    then ok (true, 1, prefix - 0xc0)
    else (do length ← read_length input 1 (prefix - 0xf7); ok (true, 1 + (prefix - 0xf7), length))

abbrev pub same_kind : Bool → Bool → Bool
same_kind true b = b
same_kind false true = false
same_kind false false = true

-- `decode_item`: the payload, and the bytes that the item takes.
unfoldable pub decode_item : List ℕ → Bool → Outcome Error (List ℕ × ℕ)
unfolding item_head
decode_item [] require_list = err rlp_empty
decode_item (prefix ∷ bytes) require_list = do
  head ← item_head prefix (prefix ∷ bytes)
  let (is_list, start, length') = head
  fail_if (if same_kind require_list is_list then false else true) rlp_wrong_kind
  end ← ok_or (checked_add u64_max start length') rlp_length_overflow
  fail_if (ltb (length (prefix ∷ bytes)) end) rlp_too_long
  ok (slice start end (prefix ∷ bytes), end)

-- The loop of `decode_list` over the payload that is left. Every item takes at least one byte, so
-- a round for each byte is enough.
unfoldable pub decode_items : ℕ → List ℕ → Outcome Error (List (List ℕ))
decode_items fuel [] = ok []
decode_items zero (b ∷ bytes) = err rlp_out_of_fuel
decode_items (suc fuel) (b ∷ bytes) = do
  item ← decode_item (b ∷ bytes) false
  rest ← decode_items fuel (drop item.1 (b ∷ bytes))
  ok (item.0 ∷ rest)

-- `decode_list`
unfoldable pub decode_list : List ℕ → Outcome Error (List (List ℕ))
unfolding decode_item decode_items
decode_list input = do
  outer ← decode_item input true
  fail_if (if eqb outer.1 (length input) then false else true) rlp_trailing
  decode_items (length outer.0) outer.0

-- `&bytes[first..]` from the first byte that is not zero, or the last byte
unfoldable pub strip_zeros : List ℕ → List ℕ
strip_zeros [] = []
strip_zeros (b ∷ []) = b ∷ []
strip_zeros (b ∷ c ∷ bs) = let rest = strip_zeros (c ∷ bs) in if eqb b 0 then rest else b ∷ c ∷ bs

-- `encode_length`
unfoldable pub encode_length : ℕ → ℕ → ℕ → List ℕ
encode_length n short_base long_base =
    let encoded = strip_zeros (be_bytes 8 n) in
    if leb n 55 then (short_base + n) ∷ [] else (long_base + length encoded) ∷ encoded

abbrev pub is_small_byte : List ℕ → Bool
is_small_byte (b ∷ []) = ltb b 0x80
is_small_byte _ = false

-- `encode_bytes`
unfoldable pub encode_bytes : List ℕ → List ℕ
unfolding encode_length strip_zeros
encode_bytes value =
    if is_small_byte value then value else encode_length (length value) 0x80 0xb7 ++ value

-- `encode_u64`
unfoldable pub encode_u64 : ℕ → List ℕ
unfolding encode_bytes
encode_u64 value =
    if eqb value 0 then encode_bytes [] else encode_bytes (strip_zeros (be_bytes 8 value))

-- `encode_u128`
unfoldable pub encode_u128 : ℕ → List ℕ
unfolding encode_bytes
encode_u128 value =
    if eqb value 0 then encode_bytes [] else encode_bytes (strip_zeros (be_bytes 16 value))

unfoldable pub concat : List (List ℕ) → List ℕ
concat [] = []
concat (bytes ∷ rest) = bytes ++ concat rest

-- `encode_list`, of items that are encoded
unfoldable pub encode_list : List (List ℕ) → List ℕ
unfolding encode_length strip_zeros concat
encode_list items =
    let payload = concat items in encode_length (length payload) 0xc0 0xf7 ++ payload
