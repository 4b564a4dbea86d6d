-- ===== src/RawTransaction.antt =====
-- src/raw_transaction.rs: EIP-155 legacy transactions, decoded from RLP, checked against the
-- recovered signer and turned into ledger transactions.
pub mod Rlp
use Prim.Native.String.{◌++◌ as append}
use aah_chain.Base.{
  ℕ, ◌+◌, ◌-◌, ◌*◌, ◌/◌, ◌%◌, String, List, [], ◌∷◌, ◌++◌, Bool, Option, none, some, not,
}
use aah_chain.Base.Tests.{if◌then◌else◌, eqb, ltb}
use aah_chain.Base.Keys.{◌==◌, string_eq, nat_eq}
use aah_chain.Base.Lists.{length, replicate, is_empty}
use aah_chain.Base.Words.{checked_mul, u128_max}
use aah_chain.Base.Bytes.{from_be_bytes, trim_0x, strip_prefix}
use aah_chain.Base.Outcome.{Outcome, ok, err, ◌>>=◌, ◌>>◌, fail_if, ok_or}
use aah_chain.Errors.{
  Error, raw_not_hex, raw_not_legacy, raw_receiver_length, raw_calldata, raw_no_chain_id,
  raw_wrong_chain, raw_recovery_id, raw_bad_scalars, raw_no_key, raw_fee_overflow, raw_no_marker,
  raw_field_mismatch, number_too_wide, scalar_too_wide,
}
use aah_chain.Types.{Transaction, transaction_beq}
use aah_chain.Crates.{Crates}
use aah_chain.Wallet.{ethereum_address}
use Rlp.{decode_list, encode_list, encode_bytes, encode_u64, encode_u128}

-- `value_u64`
unfoldable pub value_u64 : List ℕ → Outcome Error ℕ
value_u64 value = do fail_if (ltb 8 (length value)) number_too_wide; ok (from_be_bytes 0 value)

-- `value_u128`
unfoldable pub value_u128 : List ℕ → Outcome Error ℕ
value_u128 value = do fail_if (ltb 16 (length value)) number_too_wide; ok (from_be_bytes 0 value)

-- `padded_scalar`
unfoldable pub padded_scalar : List ℕ → Outcome Error (List ℕ)
padded_scalar value = do
  fail_if (ltb 32 (length value)) scalar_too_wide
  ok (replicate (32 - length value) 0 ++ value)

-- The bytes whose digest the sender signed.
unfoldable pub signing_payload : ℕ → ℕ → ℕ → List ℕ → ℕ → ℕ → List ℕ
signing_payload nonce gas_price gas_limit to amount chain_id = encode_list (
    encode_u64 nonce
    ∷ encode_u64 gas_price
    ∷ encode_u64 gas_limit
    ∷ encode_bytes to
    ∷ encode_u128 amount
    ∷ encode_bytes []
    ∷ encode_u64 chain_id
    ∷ encode_bytes []
    ∷ encode_bytes []
    ∷ [])

module _ (crates : Crates) where
  open crates use {hex_decode, hex_encode, keccak256, secp256k1_scalars, secp256k1_recover}

  -- `decode_legacy` after the RLP fields are known to be nine
  unfoldable pub decode_fields : List ℕ → List (List ℕ) → ℕ → Outcome Error Transaction
  unfolding value_u64 value_u128 padded_scalar signing_payload
  decode_fields raw (f0 ∷ f1 ∷ f2 ∷ to ∷ f4 ∷ f5 ∷ f6 ∷ f7 ∷ f8 ∷ []) expected_chain_id = do
    nonce ← value_u64 f0
    gas_price ← value_u64 f1
    gas_limit ← value_u64 f2
    fail_if (not (eqb (length to) 20)) raw_receiver_length
    amount ← value_u128 f4
    fail_if (not (is_empty f5)) raw_calldata
    v ← value_u64 f6
    fail_if (ltb v 35) raw_no_chain_id
    let chain_id = (v - 35) / 2
    fail_if (not (eqb chain_id expected_chain_id)) raw_wrong_chain
    -- `RecoveryId::from_byte` takes 0 and 1
    r ← padded_scalar f7
    s ← padded_scalar f8
    signature ← ok_or (secp256k1_scalars r s) raw_bad_scalars
    let digest = keccak256 (signing_payload nonce gas_price gas_limit to amount chain_id)
    point ← ok_or (secp256k1_recover digest signature ((v - 35) % 2)) raw_no_key
    fee ← ok_or (checked_mul u128_max gas_price gas_limit) raw_fee_overflow
    ok (record {
      from = ethereum_address crates point;
      to = append "0x" (hex_encode to);
      amount = amount;
      fee = fee;
      nonce = nonce;
      signature = append "ethraw:" (hex_encode raw);
    })
  decode_fields raw fields expected_chain_id = err raw_not_legacy

  -- `decode_legacy`
  unfoldable pub decode_legacy : String → ℕ → Outcome Error Transaction
  unfolding decode_fields
  decode_legacy raw_hex expected_chain_id = do
    raw ← ok_or (hex_decode (trim_0x raw_hex)) raw_not_hex
    fields ← decode_list raw
    decode_fields raw fields expected_chain_id

  -- `transaction_hash`
  unfoldable pub transaction_hash : String → Outcome Error String
  transaction_hash raw_hex = do
    raw ← ok_or (hex_decode (trim_0x raw_hex)) raw_not_hex
    ok (append "0x" (hex_encode (keccak256 raw)))

  -- the `v` of nine fields, with the tests of `verify_embedded`
  unfoldable pub check_chain_field : List (List ℕ) → Outcome Error (Unit {0})
  unfolding value_u64
  check_chain_field (f0 ∷ f1 ∷ f2 ∷ to ∷ f4 ∷ f5 ∷ f6 ∷ f7 ∷ f8 ∷ []) = do
    v ← value_u64 f6
    fail_if (ltb v 35) raw_no_chain_id
  check_chain_field fields = err raw_not_legacy

  -- `verify_embedded`
  unfoldable pub verify_embedded : Transaction → ℕ → Outcome Error (Unit {0})
  unfolding decode_legacy check_chain_field
  verify_embedded transaction expected_chain_id = do
    raw ← ok_or (strip_prefix "ethraw:" transaction.signature) raw_no_marker
    bytes ← ok_or (hex_decode raw) raw_not_hex
    fields ← decode_list bytes
    check_chain_field fields
    decoded ← decode_legacy raw expected_chain_id
    fail_if (not (transaction_beq decoded transaction)) raw_field_mismatch
