-- ===== src/Wallet.antt =====
-- src/wallet.rs and the verifying half of src/account.rs: signatures of addresses. Key generation
-- and signing need a private key and are not modelled.
use Prim.Native.String.{◌++◌ as append}
use text.Mathlib.Text.{starts_with}
use aah_chain.Base.{ℕ, String, List}
use aah_chain.Base.Tests.{if◌then◌else◌, eqb}
use aah_chain.Base.Keys.{◌==◌, string_eq}
use aah_chain.Base.Lists.{length, take, drop}
use aah_chain.Base.Bytes.{to_ascii_lowercase, trim_0x}
use aah_chain.Base.Outcome.{Outcome, ok, ◌>>=◌, ◌>>◌, fail_if, ok_or}
use aah_chain.Base.{not}
use aah_chain.Errors.{
  Error, address_not_hex, address_length, signature_not_hex, signature_length, bad_public_key,
  bad_signature, account_signature_length, bad_account_key, account_address_mismatch,
  bad_ecdsa_signature,
}
use aah_chain.Types.{Transaction}
use aah_chain.Crates.{Crates}
use aah_chain.Model.{signing_bytes}

-- `account::normalize_address`
unfoldable pub normalize_address : String → String
unfolding trim_0x to_ascii_lowercase
normalize_address address = append "0x" (to_ascii_lowercase (trim_0x address))

module _ (crates : Crates) where
  open crates use {
    hex_decode, hex_encode, keccak256, ed25519_key, ed25519_verify, secp256k1_key,
    secp256k1_signature, secp256k1_verify,
  }

  -- `wallet::verify_signature`
  unfoldable pub verify_signature : String → List ℕ → String → Outcome Error (Unit {0})
  verify_signature address message signature = do
    key ← ok_or (hex_decode address) address_not_hex
    fail_if (not (eqb (length key) 32)) address_length
    bytes ← ok_or (hex_decode signature) signature_not_hex
    fail_if (not (eqb (length bytes) 64)) signature_length
    fail_if (not (ed25519_key key)) bad_public_key
    fail_if (not (ed25519_verify key message bytes)) bad_signature

  -- `account::ethereum_address`, from the uncompressed point
  unfoldable pub ethereum_address : List ℕ → String
  ethereum_address point = append "0x" (hex_encode (drop 12 (keccak256 (drop 1 point))))

  -- `account::verify_account_signature`
  unfoldable pub verify_account_signature : String → List ℕ → String → Outcome Error (Unit {0})
  unfolding ethereum_address normalize_address
  verify_account_signature address message encoded_signature = do
    bytes ← ok_or (hex_decode encoded_signature) signature_not_hex
    fail_if (not (eqb (length bytes) 129)) account_signature_length
    point ← ok_or (secp256k1_key (take 65 bytes)) bad_account_key
    fail_if (not (ethereum_address point == normalize_address address)) account_address_mismatch
    signature ← ok_or (secp256k1_signature (drop 65 bytes)) bad_ecdsa_signature
    fail_if (not (secp256k1_verify point message signature)) bad_signature

  -- `wallet::verify_transaction`
  unfoldable pub verify_transaction : Transaction → Outcome Error (Unit {0})
  unfolding verify_signature verify_account_signature
  verify_transaction tx =
      if starts_with tx.signature "ethraw:"
      then ok tt
      else if starts_with tx.from "0x"
      then verify_account_signature tx.from (signing_bytes tx) tx.signature
      else verify_signature tx.from (signing_bytes tx) tx.signature
