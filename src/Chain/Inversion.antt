-- ===== src/Chain/Inversion.antt =====
-- What a call of src/chain.rs that succeeds has tested and done.
use aah_chain.Base.{ℕ, ◌+◌, List, [], ◌∷◌, ◌++◌, true, false, some, ◌≡◌, refl, arith, not, ◌↔◌}
use aah_chain.Base.Keys.{◌==◌, string_eq, nat_eq}
use aah_chain.Base.Lists.{last?}
use aah_chain.Base.Words.{u64_max, wrap}
use aah_chain.Base.Outcome.{ok, ok_or, >>=-eq-ok, fail_if-eq-ok}
use aah_chain.Errors.{no_last_block}
use aah_chain.Types.{Block, Transaction, transaction_beq}
use aah_chain.Crates.{Crates}
use aah_chain.Model.{calculate_hash, genesis}
use aah_chain.Events.Equality.{list_beq_iff, events_beq_iff}
use aah_chain.Chain.{Blockchain}
use aah_chain.Chain.State.{
  Ledger, execute, apply_block, rebuild, rebuild_from, verify_and_rebuild, is_broken_link,
  ledger_of, with_ledger, first_ledger, block_beq,
}

transaction_beq_iff : (a b : Transaction) → (transaction_beq a b ≡ true) ↔ (a ≡ b)
transaction_beq_iff a b = ground (
  arith,
  string_eq.beq_iff a.from b.from,
  string_eq.beq_iff a.to b.to,
  string_eq.beq_iff a.signature b.signature,
)

pub block_beq_iff : (a b : Block) → (block_beq a b ≡ true) ↔ (a ≡ b)
unfolding block_beq
block_beq_iff a b = ground (
  arith,
  string_eq.beq_iff a.previous_hash b.previous_hash,
  string_eq.beq_iff a.producer b.producer,
  string_eq.beq_iff a.hash b.hash,
  list_beq_iff transaction_beq transaction_beq_iff a.transactions b.transactions,
  events_beq_iff a.system_events b.system_events,
)

-- The block is the next one.
pub record IsNext (previous block : Block) : Type 0 where
  pub height : block.height ≡ wrap u64_max (previous.height + 1)
  pub link : block.previous_hash ≡ previous.hash

pub is_broken_link-IsNext :
    (previous block : Block) → is_broken_link previous block ≡ false → IsNext previous block
is_broken_link-IsNext previous block h = record {
  height = ground arith;
  link = ground (arith, string_eq.beq_iff block.previous_hash previous.hash);
}

pub IsNext-is_broken_link :
    (previous block : Block) → IsNext previous block → is_broken_link previous block ≡ false
IsNext-is_broken_link previous block n =
    ground (arith, n.height, n.link, string_eq.beq_iff block.previous_hash previous.hash)

module _ (crates : Crates) where
  is_hashed :
      (block : Block)
      → not (block.hash == calculate_hash crates block) ≡ false
      → block.hash ≡ calculate_hash crates block
  is_hashed block h = ground (arith, string_eq.beq_iff block.hash (calculate_hash crates block))

  pub record IsApplied (block : Block) (chain after : Blockchain) (previous : Block)
      (ledger : Ledger) : Type 0 where
    pub last : last? chain.blocks ≡ some previous
    pub next : IsNext previous block
    pub hashed : block.hash ≡ calculate_hash crates block
    pub executed : execute crates chain.chain_id block (ledger_of chain) ≡ ok ledger
    pub result : after ≡ with_ledger ledger (record chain { blocks = chain.blocks ++ block ∷ [] })

  pub apply_block-eq-ok :
      (block : Block) (chain : Blockchain) {after : Blockchain}
      → apply_block crates block chain ≡ ok after
      → (previous : Block) × (ledger : Ledger) × IsApplied block chain after previous ledger
  unfolding apply_block
  apply_block-eq-ok block chain h =
      let (previous, p, h1) = >>=-eq-ok (ok_or (last? chain.blocks) no_last_block) _ h in
      let (link, h2) = fail_if-eq-ok (is_broken_link previous block) _ _ h1 in
      let (hash, h3) = fail_if-eq-ok (not (block.hash == calculate_hash crates block)) _ _ h2 in
      let (ledger, e, h4) =
        >>=-eq-ok (execute crates chain.chain_id block (ledger_of chain)) _ h3 in
      (
        previous,
        ledger,
        record {
          last = ground (arith, p);
          next = is_broken_link-IsNext previous block link;
          hashed = is_hashed block hash;
          executed = e;
          result = cc (h4);
        },
      )

  pub record IsRebuiltStep (chain_id : ℕ) (previous block : Block) (blocks : List Block)
      (ledger ledger' after : Ledger) : Type 0 where
    pub next : IsNext previous block
    pub hashed : block.hash ≡ calculate_hash crates block
    pub executed : execute crates chain_id block ledger ≡ ok ledger'
    pub rest : rebuild crates chain_id block blocks ledger' ≡ ok after

  pub rebuild-eq-ok :
      (chain_id : ℕ) (previous block : Block) (blocks : List Block) (ledger : Ledger)
      {after : Ledger}
      → rebuild crates chain_id previous (block ∷ blocks) ledger ≡ ok after
      → (ledger' : Ledger) × IsRebuiltStep chain_id previous block blocks ledger ledger' after
  unfolding rebuild
  rebuild-eq-ok chain_id previous block blocks ledger h =
      let (hash, h1) = fail_if-eq-ok (not (block.hash == calculate_hash crates block)) _ _ h in
      let (link, h2) = fail_if-eq-ok (is_broken_link previous block) _ _ h1 in
      let (ledger', e, h3) = >>=-eq-ok (execute crates chain_id block ledger) _ h2 in
      (
        ledger',
        record {
          next = is_broken_link-IsNext previous block link;
          hashed = is_hashed block hash;
          executed = e;
          rest = h3;
        },
      )

  pub record IsRebuilt (chain after : Blockchain) (rest : List Block) (ledger : Ledger)
      : Type 0 where
    pub blocks : chain.blocks ≡ genesis crates ∷ rest
    pub rebuilt :
        rebuild crates chain.chain_id (genesis crates) rest (first_ledger chain) ≡ ok ledger
    pub result : after ≡ with_ledger ledger chain

  rebuild_from-eq-ok :
      (blocks : List Block) (chain : Blockchain) {after : Blockchain}
      → chain.blocks ≡ blocks
      → rebuild_from crates blocks chain ≡ ok after
      → (rest : List Block) × (ledger : Ledger) × IsRebuilt chain after rest ledger
  unfolding rebuild_from
  rebuild_from-eq-ok [] chain b h = cc
  rebuild_from-eq-ok (first ∷ rest) chain b h =
      let (same, h1) = fail_if-eq-ok (not (block_beq first (genesis crates))) _ _ h in
      let (hash, h2) = fail_if-eq-ok (not (first.hash == calculate_hash crates first)) _ _ h1 in
      let (ledger, e, h3) =
        >>=-eq-ok (rebuild crates chain.chain_id first rest (first_ledger chain)) _ h2 in
      let f : first ≡ genesis crates = ground (arith, block_beq_iff first (genesis crates)) in
      (rest, ledger, record { blocks = cc (b, f); rebuilt = rw (← f) e; result = cc h3 })

  pub verify_and_rebuild-eq-ok :
      (chain : Blockchain) {after : Blockchain}
      → verify_and_rebuild crates chain ≡ ok after
      → (rest : List Block) × (ledger : Ledger) × IsRebuilt chain after rest ledger
  unfolding verify_and_rebuild
  verify_and_rebuild-eq-ok chain h = rebuild_from-eq-ok chain.blocks chain refl h
