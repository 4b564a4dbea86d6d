-- ===== src/Chain/Rebuild.antt =====
-- src/chain.rs `verify_and_rebuild` against `apply_block`: what a chain file may hold.
use aah_chain.Base.{ℕ, String, List, [], ◌∷◌, ◌++◌, some, ◌≡◌, refl, sym, ap, ◌∙◌}
use aah_chain.Base.Keys.{string_eq}
use aah_chain.Base.Lists.{last?}
use aah_chain.Base.Outcome.{ok, >>=-eq-ok}
use aah_chain.Types.{Block}
use aah_chain.Crates.{Crates}
use aah_chain.Model.{calculate_hash, block_bytes, genesis}
use aah_chain.Chain.{Blockchain}
use aah_chain.Chain.State.{
  Ledger, execute, apply_block, apply_blocks, rebuild, rebuild_from, verify_and_rebuild, ledger_of,
  with_ledger, first_ledger, with_chain_id,
}
use aah_chain.Chain.Inversion.{
  IsNext, IsNext-is_broken_link, apply_block-eq-ok, rebuild-eq-ok, verify_and_rebuild-eq-ok,
  block_beq_iff,
}

module _ (crates : Crates) where
  -- Each block has the hash of its content and follows the one before.
  abbrev pub IsLinked : Block → List Block → Type 0
  IsLinked previous [] = Unit
  IsLinked previous (block ∷ blocks) =
      IsNext previous block × (block.hash ≡ calculate_hash crates block) × IsLinked block blocks

  rebuild-IsLinked :
      (chain_id : ℕ) (previous : Block) (blocks : List Block) (ledger : Ledger) {after : Ledger}
      → rebuild crates chain_id previous blocks ledger ≡ ok after
      → IsLinked previous blocks
  rebuild-IsLinked chain_id previous [] ledger h = tt
  rebuild-IsLinked chain_id previous (block ∷ blocks) ledger h =
      let (ledger', a) = rebuild-eq-ok crates chain_id previous block blocks ledger h in
      (a.next, a.hashed, rebuild-IsLinked chain_id block blocks ledger' a.rest)

  -- A chain that is read back is accepted only if it starts with the genesis block and each later
  -- block has the next height, the hash of the block before and the hash of its own content; the
  -- blocks and the initial balances stay as they were.
  pub rebuilt_blocks_form_chain :
      (chain : Blockchain) {after : Blockchain}
      → verify_and_rebuild crates chain ≡ ok after
      → (rest : List Block) × (chain.blocks ≡ genesis crates ∷ rest)
        × IsLinked (genesis crates) rest
        × (after.blocks ≡ chain.blocks)
        × (after.initial_balances ≡ chain.initial_balances)
  rebuilt_blocks_form_chain chain h =
      let (rest, ledger, a) = verify_and_rebuild-eq-ok crates chain h in
      (
        rest,
        a.blocks,
        rebuild-IsLinked chain.chain_id (genesis crates) rest (first_ledger chain) a.rebuilt,
        cc (a.result),
        cc (a.result),
      )

  -- One step of the loop, run forward.
  rebuild-step :
      (chain_id : ℕ) (previous block : Block) (blocks : List Block) (ledger ledger' : Ledger)
      → IsNext previous block
      → block.hash ≡ calculate_hash crates block
      → execute crates chain_id block ledger ≡ ok ledger'
      → rebuild crates chain_id previous (block ∷ blocks) ledger
        ≡ rebuild crates chain_id block blocks ledger'
  unfolding rebuild
  rebuild-step chain_id previous block blocks ledger ledger' n h e =
      rw
        (
          (string_eq.beq_iff block.hash (calculate_hash crates block)).1 h,
          IsNext-is_broken_link previous block n,
          e,
        )
        refl

  -- The loop over one block more.
  rebuild-append_one :
      (chain_id : ℕ) (previous tip block : Block) (blocks : List Block)
      (ledger middle after : Ledger)
      → rebuild crates chain_id previous blocks ledger ≡ ok middle
      → last? (previous ∷ blocks) ≡ some tip
      → IsNext tip block
      → block.hash ≡ calculate_hash crates block
      → execute crates chain_id block middle ≡ ok after
      → rebuild crates chain_id previous (blocks ++ block ∷ []) ledger ≡ ok after
  unfolding rebuild
  rebuild-append_one chain_id previous tip block [] ledger middle after r l n h e =
      let same : previous ≡ tip = cc l in
      let start : ledger ≡ middle = cc r in
      rebuild-step chain_id previous block [] ledger after (rw same n) h (rw start e)
  rebuild-append_one chain_id previous tip block (b ∷ blocks) ledger middle after r l n h e =
      let (ledger', a) = rebuild-eq-ok crates chain_id previous b blocks ledger r in
      rebuild-step chain_id previous b (blocks ++ block ∷ []) ledger ledger' a.next a.hashed
        a.executed
      ∙ rebuild-append_one chain_id b tip block blocks ledger' middle after a.rest l n h e

  -- The blocks of the chain give its ledger again.
  record IsReproducible (chain : Blockchain) (rest : List Block) : Type 0 where
    blocks : chain.blocks ≡ genesis crates ∷ rest
    replay :
        rebuild crates chain.chain_id (genesis crates) rest (first_ledger chain)
        ≡ ok (ledger_of chain)

  apply_block-IsReproducible :
      (block : Block) (chain : Blockchain) (rest : List Block) {after : Blockchain}
      → IsReproducible chain rest
      → apply_block crates block chain ≡ ok after
      → IsReproducible after (rest ++ block ∷ [])
  apply_block-IsReproducible block chain rest k h =
      let (previous, ledger, a) = apply_block-eq-ok crates block chain h in
      rw a.result (record {
        blocks = ap (λ bs. bs ++ block ∷ []) k.blocks;
        replay =
            rebuild-append_one chain.chain_id (genesis crates) previous block rest
              (first_ledger chain) (ledger_of chain) ledger k.replay
              (ap last? (sym k.blocks) ∙ a.last) a.next a.hashed a.executed;
      })

  apply_blocks-IsReproducible :
      (blocks : List Block) (chain : Blockchain) (rest : List Block) {after : Blockchain}
      → IsReproducible chain rest
      → apply_blocks crates blocks chain ≡ ok after
      → (rest' : List Block) × IsReproducible after rest'
  unfolding apply_blocks
  apply_blocks-IsReproducible [] chain rest {after} k h =
      let same : after ≡ chain = cc h in (rest, rw same k)
  apply_blocks-IsReproducible (block ∷ blocks) chain rest k h =
      let (chain', first, later) = >>=-eq-ok (apply_block crates block chain) _ h in
      apply_blocks-IsReproducible blocks chain' (rest ++ block ∷ [])
        (apply_block-IsReproducible block chain rest k first) later

  with_chain_id-IsReproducible :
      (chain_id : ℕ) (balances : List (String × ℕ))
      → IsReproducible (with_chain_id crates chain_id balances) []
  unfolding with_chain_id rebuild
  with_chain_id-IsReproducible chain_id balances = record { blocks = refl; replay = refl }

  hash-genesis : (genesis crates).hash ≡ calculate_hash crates (genesis crates)
  unfolding genesis calculate_hash block_bytes
  hash-genesis = refl

  IsReproducible-verify_and_rebuild :
      (chain : Blockchain) (rest : List Block) (tampered : Ledger)
      → IsReproducible chain rest
      → verify_and_rebuild crates (with_ledger tampered chain) ≡ ok chain
  unfolding verify_and_rebuild rebuild_from
  IsReproducible-verify_and_rebuild chain rest tampered k =
      rw
        (
          k.blocks,
          (block_beq_iff (genesis crates) (genesis crates)).1 refl,
          (string_eq.beq_iff (genesis crates).hash (calculate_hash crates (genesis crates))).1
              hash-genesis,
          k.replay,
        )
        refl

  -- A chain that starts from any initial balances and then applies any blocks, each with success,
  -- is accepted by verify_and_rebuild, which gives it back exactly: even when its stored balances,
  -- nonces and executed events have been replaced by others.
  pub applied_chain_rebuilds :
      (chain_id : ℕ) (balances : List (String × ℕ)) (blocks : List Block) (tampered : Ledger)
      {chain : Blockchain}
      → apply_blocks crates blocks (with_chain_id crates chain_id balances) ≡ ok chain
      → verify_and_rebuild crates (with_ledger tampered chain) ≡ ok chain
  applied_chain_rebuilds chain_id balances blocks tampered {chain} h =
      let (rest, k) =
        apply_blocks-IsReproducible blocks (with_chain_id crates chain_id balances) []
          (with_chain_id-IsReproducible chain_id balances) h in
      IsReproducible-verify_and_rebuild chain rest tampered k
