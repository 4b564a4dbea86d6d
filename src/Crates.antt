-- ===== src/Crates.antt =====
-- What the program takes from other crates: sha2, sha3, hex, ed25519-dalek, k256, libp2p and
-- serde_json. Every module takes one value of `Crates` as a parameter, and no law of it is assumed
-- unless a theorem states it as a hypothesis.
use aah_chain.Base.{ℕ, String, List, Bool, Option}
use aah_chain.Types.{Transaction, ScheduledEvent}

pub record Crates : Type 0 where
  -- `Sha256::digest`, `Keccak256::digest`
  pub sha256 : List ℕ → List ℕ
  pub keccak256 : List ℕ → List ℕ
  -- `hex::encode`, `hex::decode`
  pub hex_encode : List ℕ → String
  pub hex_decode : String → Option (List ℕ)
  -- `ed25519_dalek`: is this a public key, and does the key verify the signature of the message
  pub ed25519_key : List ℕ → Bool
  pub ed25519_verify : List ℕ → List ℕ → List ℕ → Bool
  -- `k256`: the uncompressed point of a SEC1 key, a signature from 64 bytes or from two scalars,
  -- verification, and the key recovered from a digest, a signature and a recovery id
  pub secp256k1_key : List ℕ → Option (List ℕ)
  pub secp256k1_signature : List ℕ → Option (List ℕ)
  pub secp256k1_scalars : List ℕ → List ℕ → Option (List ℕ)
  pub secp256k1_verify : List ℕ → List ℕ → List ℕ → Bool
  pub secp256k1_recover : List ℕ → List ℕ → ℕ → Option (List ℕ)
  -- `libp2p::identity`: the `PeerId` text of a protobuf key, and verification under that key
  pub peer_id_of_key : List ℕ → Option String
  pub peer_key_verify : List ℕ → List ℕ → List ℕ → Bool
  -- `serde_json::to_vec`
  pub event_json : ScheduledEvent → List ℕ
  pub transaction_json : Transaction → List ℕ
