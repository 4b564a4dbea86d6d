-- ===== src/Runtime/Growth.antt =====
-- The chain of a `ConsensusRuntime` is one that `apply_block` makes, block after block, and its
-- certificates are for blocks of that chain.
use aah_chain.Base.{ℕ, List, [], ◌∷◌, ◌++◌, some, ◌≡◌, refl, arith, inl, inr, sym, ap, ◌∙◌}
use aah_chain.Base.Tests.{Bool-cases}
use aah_chain.Base.Keys.{◌==◌, nat_eq}
use aah_chain.Base.Maps.{sum_values}
use aah_chain.Base.Sets.{In, In-append_left, All, All-at, All-map, All-append}
use aah_chain.Base.Distinct.{append_one-In, In-All}
use aah_chain.Base.Sorting.{sort, In-sort}
use aah_chain.Base.Outcome.{ok, >>=-eq-ok}
use aah_chain.Types.{Block}
use aah_chain.Crates.{Crates}
use aah_chain.Chain.{Blockchain}
use aah_chain.Chain.State.{apply_block, apply_blocks, block_by_height, find_height}
use aah_chain.Chain.Inversion.{apply_block-eq-ok}
use aah_chain.Chain.Supply.{applied_block_keeps_supply}
use aah_chain.Consensus.Certificate.{FinalityCertificate}
use aah_chain.Runtime.{Clock, Signer, ConsensusRuntime}
use aah_chain.Runtime.Sync.{certificate_le}
use aah_chain.Runtime.Machine.{Call, run}
use aah_chain.Runtime.Rule.{IsKept}
use aah_chain.Runtime.Rule.Calls.{run-keeps}

module _ (crates : Crates) where
  -- Blocks that are applied with success lead from one chain to the other.
  abbrev pub IsExtension : Blockchain → Blockchain → Type 0
  IsExtension chain chain' = (blocks : List Block) × (apply_blocks crates blocks chain ≡ ok chain')

  apply_blocks-append_one :
      (blocks : List Block) (block : Block) (chain middle after : Blockchain)
      → apply_blocks crates blocks chain ≡ ok middle
      → apply_block crates block middle ≡ ok after
      → apply_blocks crates (blocks ++ block ∷ []) chain ≡ ok after
  unfolding apply_blocks
  apply_blocks-append_one [] block chain middle after h a =
      let same : chain ≡ middle = cc h in rw (same, a) refl
  apply_blocks-append_one (b ∷ blocks) block chain middle after h a =
      let (chain', f, h1) = >>=-eq-ok (apply_block crates b chain) _ h in
      rw f (apply_blocks-append_one blocks block chain' middle after h1 a)

  IsExtension-step :
      (start chain after : Blockchain) (block : Block)
      → IsExtension start chain
      → apply_block crates block chain ≡ ok after
      → IsExtension start after
  IsExtension-step start chain after block e a =
      (e.0 ++ block ∷ [], apply_blocks-append_one e.0 block start chain after e.1 a)

  IsExtension-IsKept : (start : Blockchain) → IsKept crates (λ chain cs. IsExtension start chain)
  IsExtension-IsKept start = record {
    certified = λ chain after cs c vs e v a. IsExtension-step start chain after c.block e a;
    synced = λ chain after cs block e a. IsExtension-step start chain after block e a;
    imported = λ chain cs c block e b h. e;
    sorted = λ chain cs e. e;
  }

  -- Whatever sequence of calls a runtime takes, failing ones included, the chain that it leaves is
  -- the one that apply_block makes from its first chain with some blocks, one after another and each
  -- with success.
  pub runtime_refines_chain :
      (signer : Signer) (calls : List (Clock × Call)) (r : ConsensusRuntime)
      → (blocks : List Block) × (apply_blocks crates blocks r.chain
          ≡ ok (run crates signer calls r).chain)
  unfolding apply_blocks
  runtime_refines_chain signer calls r =
      run-keeps crates (λ chain cs. IsExtension r.chain chain) (IsExtension-IsKept r.chain) signer
        calls r ([], refl)

  -- A block of the chain has the height and the hash of the certificate's block.
  abbrev pub IsOfChain : Blockchain → FinalityCertificate → Type 0
  IsOfChain chain c =
      (block : Block) × In block chain.blocks
      × (block.height ≡ c.block.height)
      × (block.hash ≡ c.block.hash)

  IsOfChain-step :
      (chain after : Blockchain) (cs : List FinalityCertificate) (block : Block)
      → All (IsOfChain chain) cs
      → apply_block crates block chain ≡ ok after
      → All (IsOfChain after) cs × In block after.blocks
  IsOfChain-step chain after cs block h a =
      let (previous, ledger, i) = apply_block-eq-ok crates block chain a in
      rw i.result (
        All-map (IsOfChain chain) _ cs
            (λ c k. (k.0, In-append_left k.0 chain.blocks (block ∷ []) k.1, k.2, k.3)) h,
        append_one-In chain.blocks block,
      )

  find_height-In :
      (height : ℕ) (blocks : List Block) (block : Block)
      → find_height height blocks ≡ some block
      → In block blocks × (block.height ≡ height)
  unfolding find_height
  find_height-In height [] block h = cc
  find_height-In height (b ∷ blocks) block h = elim (Bool-cases (b.height == height)) [
    | inl here ↦
        let same : b ≡ block = cc (rw here at h) in
        (inl (sym same), ground (arith, here, ap (λ (x : Block). x.height) same))
    | inr later ↦ let (i, e) = find_height-In height blocks block (rw later at h) in (inr i, e)
  ]

  IsOfChain-IsKept : IsKept crates (λ chain cs. All (IsOfChain chain) cs)
  unfolding block_by_height
  IsOfChain-IsKept = record {
    certified = λ chain after cs c vs h v a.
        let (old, new) = IsOfChain-step chain after cs c.block h a in
        All-append (IsOfChain after) cs (c ∷ []) old ((c.block, new, refl, refl), tt);
    synced = λ chain after cs block h a. (IsOfChain-step chain after cs block h a).0;
    imported = λ chain cs c block h b e.
        let (i, height) = find_height-In c.block.height chain.blocks block b in
        All-append (IsOfChain chain) cs (c ∷ []) h ((block, i, height, e), tt);
    sorted = λ chain cs h.
        In-All (IsOfChain chain) (sort certificate_le cs)
          (λ c i. All-at (IsOfChain chain) c cs h (In-sort certificate_le c cs i));
  }

  -- If the certificates that a runtime holds are for blocks of its chain, by height and hash, then
  -- so are those that it holds after any sequence of calls.
  pub certificates_match_blocks :
      (signer : Signer) (calls : List (Clock × Call)) (r : ConsensusRuntime)
      → All (IsOfChain r.chain) r.finalized
      → All (IsOfChain (run crates signer calls r).chain) (run crates signer calls r).finalized
  certificates_match_blocks signer calls r h =
      run-keeps crates (λ chain cs. All (IsOfChain chain) cs) IsOfChain-IsKept signer calls r h

  apply_blocks-supply :
      (blocks : List Block) (chain : Blockchain) {after : Blockchain}
      → apply_blocks crates blocks chain ≡ ok after
      → sum_values after.balances ≡ sum_values chain.balances
  unfolding apply_blocks
  apply_blocks-supply [] chain h = ground arith
  apply_blocks-supply (block ∷ blocks) chain h =
      let (chain', f, h1) = >>=-eq-ok (apply_block crates block chain) _ h in
      apply_blocks-supply blocks chain' h1 ∙ applied_block_keeps_supply crates block chain f

  -- No sequence of calls of a runtime makes or loses money.
  pub runtime_keeps_supply :
      (signer : Signer) (calls : List (Clock × Call)) (r : ConsensusRuntime)
      → sum_values (run crates signer calls r).chain.balances ≡ sum_values r.chain.balances
  runtime_keeps_supply signer calls r =
      let (blocks, e) = runtime_refines_chain signer calls r in apply_blocks-supply blocks r.chain e
