-- ===== src/Genesis.antt =====
-- src/genesis.rs: the settings that a chain starts with, and `from_genesis` of src/chain.rs.
mod Tests
use aah_chain.Base.{
  ℕ, ◌≤◌, String, List, [], ◌∷◌, Bool, true, false, none, some, ◌≡◌, refl, arith, ◌||◌, not, map,
}
use aah_chain.Base.Tests.{eqb, ltb}
use aah_chain.Base.Keys.{string_eq}
use aah_chain.Base.Lists.{length}
use aah_chain.Base.Sets
use aah_chain.Base.Sets.{All, IsNodup, contains, contains-insert}
use aah_chain.Base.Outcome.{Outcome, ok, ◌>>=◌, ◌>>◌, fail_if, >>=-eq-ok, fail_if-eq-ok}
use aah_chain.Errors.{
  Error, chain_id_zero, genesis_validator_count, genesis_validator, block_bytes_limit,
  active_bytes_limit,
}
use aah_chain.Crates.{Crates}
use aah_chain.Chain.{Blockchain, normalize_address}
use aah_chain.Chain.State.{with_chain_id}
use aah_chain.Consensus.Messages.{Validator}
use aah_chain.Consensus.Bft
use aah_chain.Consensus.Bft.{BftConsensus}
use aah_chain.Consensus.Bft.Members.{new-ok}

pub record GenesisConfig : Type 0 where
  pub chain_id : ℕ
  pub network_name : String
  pub genesis_time : ℕ
  pub initial_balances : List (String × ℕ)
  pub validators : List Validator
  pub max_block_bytes : ℕ
  pub max_active_block_bytes : ℕ

module _ (crates : Crates) where
  -- The key is not the hex text of 32 bytes.
  abbrev pub is_bad_key : String → Bool
  is_bad_key id = elim (crates.hex_decode id) [
    | none ↦ true
    | some bytes ↦ not (eqb (length bytes) 32)
  ]

  -- The loop of `validate` over the validators, with the ids so far.
  unfoldable pub check_validators : List Validator → List String → Outcome Error (Unit {0})
  check_validators [] ids = ok tt
  check_validators (v ∷ vs) ids = do
    fail_if (eqb v.voting_power 0 || is_bad_key v.id || Sets.contains v.id ids) genesis_validator
    check_validators vs (Sets.insert v.id ids)

  -- `GenesisConfig::validate`
  unfoldable pub validate_genesis : GenesisConfig → Outcome Error (Unit {0})
  unfolding check_validators
  validate_genesis c = do
    fail_if (eqb c.chain_id 0) chain_id_zero
    fail_if (ltb (length c.validators) 4) genesis_validator_count
    check_validators c.validators []
    fail_if (eqb c.max_block_bytes 0 || ltb 4194304 c.max_block_bytes) block_bytes_limit
    fail_if (eqb c.max_active_block_bytes 0 || ltb 100000000 c.max_active_block_bytes)
        active_bytes_limit

  module _ (json : GenesisConfig → List ℕ) where
    -- `genesis_hash`, with the text of serde_json
    unfoldable pub genesis_hash : GenesisConfig → Outcome Error String
    unfolding validate_genesis
    genesis_hash c = do validate_genesis c; ok (crates.hex_encode (crates.sha256 (json c)))

    -- `from_genesis`
    unfoldable pub from_genesis : GenesisConfig → Outcome Error Blockchain
    unfolding genesis_hash with_chain_id
    from_genesis c = do
      validate_genesis c
      let chain =
          with_chain_id crates c.chain_id
            (map (λ (b : String × ℕ). (normalize_address b.0, b.1)) c.initial_balances)
      hash ← genesis_hash c
      ok (record chain { genesis_commitment = hash })

  check_validators-IsNodup :
      (vs : List Validator) (ids : List String)
      → check_validators vs ids ≡ ok tt
      → IsNodup (map (λ (v : Validator). v.id) vs)
        × All (λ (v : Validator). 1 ≤ v.voting_power) vs
        × ((k : String)
            → contains k ids ≡ true
            → contains k (map (λ (v : Validator). v.id) vs) ≡ false)
  unfolding check_validators contains
  check_validators-IsNodup [] ids h = (tt, tt, λ k i. refl)
  check_validators-IsNodup (v ∷ vs) ids h =
      let (good, h1) =
        fail_if-eq-ok (eqb v.voting_power 0 || is_bad_key v.id || contains v.id ids) _ _ h in
      let (distinct, powers, fresh) = check_validators-IsNodup vs (Sets.insert v.id ids) h1 in
      (
        (
          fresh v.id (ground (arith, contains-insert v.id v.id ids, string_eq.beq_iff v.id v.id)),
          distinct,
        ),
        (ground (arith, good), powers),
        λ k i. ground (
          arith,
          good,
          i,
          fresh k (ground (arith, i, contains-insert v.id k ids)),
          string_eq.beq_iff v.id k,
        ),
      )

  -- If the settings of a genesis pass their validation, BftConsensus::new takes their validators.
  pub valid_genesis_starts_consensus :
      (c : GenesisConfig)
      → validate_genesis c ≡ ok tt
      → (s : BftConsensus) × (Bft.new c.validators ≡ ok s)
  unfolding validate_genesis
  valid_genesis_starts_consensus c h =
      let (_, h1) = fail_if-eq-ok (eqb c.chain_id 0) _ _ h in
      let (four, h2) = fail_if-eq-ok (ltb (length c.validators) 4) _ _ h1 in
      let (_, f, h3) = >>=-eq-ok (check_validators c.validators []) _ h2 in
      let (distinct, powers, _) = check_validators-IsNodup c.validators [] f in
      new-ok c.validators (ground (arith, four)) powers distinct
