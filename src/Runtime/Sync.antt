-- ===== src/Runtime/Sync.antt =====
-- src/consensus_runtime.rs: the methods of `ConsensusRuntime` that take blocks and certificates of
-- other nodes, and that move to the next height. Where the source unwraps the last block of the
-- chain and would panic, the model fails with `no_last_block`.
use aah_chain.Base.{ℕ, ◌+◌, List, [], ◌∷◌, ◌++◌, Bool, true, false, none, some, ◌||◌, ◌&&◌, not}
use aah_chain.Base.Tests.{if◌then◌else◌, eqb, leb, ltb, is_some}
use aah_chain.Base.Keys.{◌==◌, string_eq, nat_eq}
use aah_chain.Base.Lists.{any, keep, take, is_empty}
use aah_chain.Base.Sorting.{sort}
use aah_chain.Base.Words.{u64_max, saturating_add}
use aah_chain.Base.Outcome.{Outcome, ok, err, ◌>>=◌, ◌>>◌, fail_if, ok_or}
use aah_chain.Errors.{
  Error, no_last_block, ledger_mismatch, no_canonical_block, finality_violation, height_gap,
  not_finalized, past_genesis,
}
use aah_chain.Types.{Block}
use aah_chain.Crates.{Crates}
use aah_chain.Chain.State.{apply_block, block_by_height, tip_height}
use aah_chain.Consensus.Messages.{Validator, ConsensusPhase, phase_beq}
use aah_chain.Consensus.Certificate.{FinalityCertificate, verify_certificate}
use aah_chain.Consensus.Bft
use aah_chain.Runtime.{
  Clock, ConsensusRuntime, Step, next_height, reset_deadline, validate_scheduled_block,
}

-- `blocks_from`
unfoldable pub blocks_from : ℕ → ConsensusRuntime → List Block
blocks_from from_height r = take 128 (keep (λ (b : Block). leb from_height b.height) r.chain.blocks)

abbrev pub max_sync_bytes : ℕ
max_sync_bytes = 1_500_000

module _ (size_of : FinalityCertificate → ℕ) where
  -- The loop of `certificates_from`, with the bytes and the certificates so far; `size_of` is the
  -- length of the JSON of a certificate.
  unfoldable pub select_certificates :
      List FinalityCertificate → ℕ → List FinalityCertificate → List FinalityCertificate
  select_certificates [] bytes selected = selected
  select_certificates (c ∷ cs) bytes selected =
      let total = saturating_add u64_max bytes (size_of c) in
      let rest = select_certificates cs total (selected ++ c ∷ []) in
      if not (is_empty selected) && ltb max_sync_bytes total then selected else rest

  -- `certificates_from`
  unfoldable pub certificates_from : ℕ → ConsensusRuntime → List FinalityCertificate
  unfolding select_certificates
  certificates_from from_height r =
      select_certificates
        (take 128 (keep (λ (c : FinalityCertificate). leb from_height c.block.height) r.finalized))
        0 []

-- `take_finalized`
unfoldable pub take_finalized : ConsensusRuntime → List FinalityCertificate × ConsensusRuntime
take_finalized r = (r.pending_finalized, record r { pending_finalized = [] })

-- The next height starts: what `advance_after_finalization` and `apply_sync_certificates` write.
unfoldable pub start_height : Clock → ConsensusRuntime → Step (Unit {0})
unfolding reset_deadline
start_height clock r = elim (next_height r.chain) [
  | none ↦ (err no_last_block, r)
  | some height ↦
      let (result, consensus) = Bft.start_round height 0 r.consensus in
      elim result [
        | err e ↦ (err e, record r { consensus = consensus })
        | ok _ ↦ (
          ok tt,
          reset_deadline clock (record r {
            consensus = consensus;
            pending = none;
            valid_block = none;
            precommits = [];
          }),
        )
      ]
]

-- `advance_after_finalization`
unfoldable pub advance_after_finalization : Clock → ConsensusRuntime → Step (Unit {0})
unfolding start_height
advance_after_finalization clock r =
    if not (phase_beq r.consensus.phase ConsensusPhase.finalized)
    then (err not_finalized, r)
    else start_height clock r

-- `replace_bootstrap_validators`
unfoldable pub replace_bootstrap_validators :
    Clock → List Validator → ConsensusRuntime → Step (Unit {0})
unfolding reset_deadline tip_height
replace_bootstrap_validators clock validators r =
    if not (eqb (tip_height r.chain) 0) || is_some r.pending
    then (err past_genesis, r)
    else elim (Bft.new validators) [
      | err e ↦ (err e, r)
      | ok fresh ↦
          let (result, consensus) = Bft.start_round 1 0 fresh in
          elim result [
            | err e ↦ (err e, r)
            | ok _ ↦ (
              ok tt,
              reset_deadline clock (record r {
                consensus = consensus;
                validators = validators;
                valid_block = none;
                precommits = [];
              }),
            )
          ]
    ]

-- the order by height
abbrev pub certificate_le : FinalityCertificate → FinalityCertificate → Bool
certificate_le a b = leb a.block.height b.block.height

module _ (crates : Crates) where
  -- The loop of `import_certificate_history`, with the number so far.
  unfoldable pub import_loop : List FinalityCertificate → ℕ → ConsensusRuntime → Step ℕ
  unfolding block_by_height
  import_loop [] imported r = (ok imported, r)
  import_loop (c ∷ cs) imported r = elim (verify_certificate crates c r.validators) [
    | err e ↦ (err e, r)
    | ok _ ↦ elim (block_by_height c.block.height r.chain) [
      | none ↦ import_loop cs imported r
      | some block ↦
          let is_known =
            any (λ (known : FinalityCertificate). known.block.height == c.block.height)
              r.finalized in
          let same = import_loop cs imported r in
          let more =
            import_loop cs (imported + 1) (record r { finalized = r.finalized ++ c ∷ [] }) in
          if not (block.hash == c.block.hash)
          then (err ledger_mismatch, r)
          else if is_known
          then same
          else more
    ]
  ]

  -- `import_certificate_history`
  unfoldable pub import_certificate_history : List FinalityCertificate → ConsensusRuntime → Step ℕ
  unfolding import_loop
  import_certificate_history certificates r =
      let (result, r') = import_loop certificates 0 r in
      elim result [
        | err e ↦ (err e, r')
        | ok imported ↦ (ok imported, record r' { finalized = sort certificate_le r'.finalized })
      ]

  -- A block of another node: its events are checked, and it goes into the chain.
  unfoldable pub sync_block : Clock → Block → ConsensusRuntime → Outcome Error ConsensusRuntime
  unfolding validate_scheduled_block apply_block
  sync_block clock block r = do
    validate_scheduled_block crates clock block r
    chain ← apply_block crates block r.chain
    ok (record r { chain = chain })

  -- One certificate of `apply_sync_certificates`: the runtime, and whether its block was applied.
  unfoldable pub sync_certificate :
      Clock → FinalityCertificate → ConsensusRuntime → Outcome Error (Bool × ConsensusRuntime)
  unfolding sync_block block_by_height
  sync_certificate clock c r = do
    verify_certificate crates c r.validators
    next ← ok_or (next_height r.chain) no_last_block
    if ltb c.block.height next
        then (do
          canonical ← ok_or (block_by_height c.block.height r.chain) no_canonical_block
          fail_if (not (canonical.hash == c.block.hash)) finality_violation
          ok (false, r))
        else (do
          fail_if (not (c.block.height == next)) height_gap
          r' ← sync_block clock c.block r
          ok (true, record r' { finalized = r'.finalized ++ c ∷ [] }))

  -- The loop of `apply_sync_certificates`, with the number so far.
  unfoldable pub sync_certificates :
      Clock → List FinalityCertificate → ℕ → ConsensusRuntime → Step ℕ
  unfolding sync_certificate
  sync_certificates clock [] applied r = (ok applied, r)
  sync_certificates clock (c ∷ cs) applied r = elim (sync_certificate clock c r) [
    | err e ↦ (err e, r)
    | ok (is_new, r') ↦ sync_certificates clock cs (if is_new then applied + 1 else applied) r'
  ]

  -- `apply_sync_certificates`
  unfoldable pub apply_sync_certificates :
      Clock → List FinalityCertificate → ConsensusRuntime → Step ℕ
  unfolding sync_certificates start_height
  apply_sync_certificates clock certificates r =
      let (result, r') = sync_certificates clock certificates 0 r in
      elim result [
        | err e ↦ (err e, r')
        | ok applied ↦
            if eqb applied 0
            then (ok applied, r')
            else (let (started, r'') = start_height clock r' in
                elim started [ ok _ ↦ (ok applied, r'') | err e ↦ (err e, r'') ])
      ]

  -- `apply_sync_batch`, with the number so far
  unfoldable pub sync_batch : Clock → List Block → ℕ → ConsensusRuntime → Step ℕ
  unfolding sync_block
  sync_batch clock [] applied r = (ok applied, r)
  sync_batch clock (block ∷ blocks) applied r = elim (next_height r.chain) [
    | none ↦ (err no_last_block, r)
    | some next ↦
        let skipped = sync_batch clock blocks applied r in
        if ltb block.height next
        then skipped
        else if not (block.height == next)
        then (err height_gap, r)
        else elim (sync_block clock block r) [
          | err e ↦ (err e, r)
          | ok r' ↦ sync_batch clock blocks (applied + 1) r'
        ]
  ]

  -- `apply_sync_batch`
  unfoldable pub apply_sync_batch : Clock → List Block → ConsensusRuntime → Step ℕ
  unfolding sync_batch
  apply_sync_batch clock blocks r = sync_batch clock blocks 0 r
