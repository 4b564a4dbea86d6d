-- ===== src/Runtime/Rule/Sync.antt =====
-- The rule for the methods of `ConsensusRuntime` that take blocks and certificates of other nodes.
use aah_chain.Base.{ℕ, ◌+◌, List, [], ◌∷◌, ◌++◌, Bool, true, false, ◌≡◌, arith, inl, inr, not}
use aah_chain.Base.Tests.{ltb, Bool-cases, Option-cases}
use aah_chain.Base.Keys.{◌==◌, string_eq, nat_eq, option_eq}
use aah_chain.Base.Outcome.{ok, ok_or, Outcome-cases, >>=-eq-ok, fail_if-eq-ok}
use aah_chain.Errors.{no_last_block, no_canonical_block}
use aah_chain.Types.{Block}
use aah_chain.Crates.{Crates}
use aah_chain.Chain.{Blockchain}
use aah_chain.Chain.State.{apply_block, block_by_height}
use aah_chain.Consensus.Certificate.{FinalityCertificate, verify_certificate}
use aah_chain.Runtime.{
  Clock, ConsensusRuntime, next_height, reset_deadline, validate_scheduled_block,
}
use aah_chain.Runtime.Sync.{
  import_loop, import_certificate_history, sync_block, sync_certificate, sync_certificates,
  apply_sync_certificates, sync_batch, start_height,
}
use aah_chain.Runtime.Rule.{IsKept, Holds}

module _ (crates : Crates) (Q : Blockchain → List FinalityCertificate → Type 0)
    (keeps : IsKept crates Q) where
  module _ (clock : Clock) where
    pub start_height-keeps :
        (r : ConsensusRuntime) → Holds crates Q r → Holds crates Q (start_height clock r).1
    unfolding start_height reset_deadline
    start_height-keeps r h = ground (arith, h)

    sync_block-keeps :
        (block : Block) (r : ConsensusRuntime) {after : ConsensusRuntime}
        → Holds crates Q r
        → sync_block crates clock block r ≡ ok after
        → Holds crates Q after
    unfolding sync_block
    sync_block-keeps block r h e =
        let (_, v, e1) = >>=-eq-ok (validate_scheduled_block crates clock block r) _ e in
        let (chain, a, e2) = >>=-eq-ok (apply_block crates block r.chain) _ e1 in
        ground (arith, e2, keeps.synced r.chain chain r.finalized block h a)

    sync_certificate-keeps :
        (c : FinalityCertificate) (r : ConsensusRuntime) {result : Bool × ConsensusRuntime}
        → Holds crates Q r
        → sync_certificate crates clock c r ≡ ok result
        → Holds crates Q result.1
    unfolding sync_certificate sync_block
    sync_certificate-keeps c r {result} h e =
        let (_, v, e1) = >>=-eq-ok (verify_certificate crates c r.validators) _ e in
        let (next, n, e2) = >>=-eq-ok (ok_or (next_height r.chain) no_last_block) _ e1 in
        elim (Bool-cases (ltb c.block.height next)) [
          | inl old ↦
              let (canonical, b, e3) =
                >>=-eq-ok (ok_or (block_by_height c.block.height r.chain) no_canonical_block) _
                  (rw old at e2) in
              let (_, e4) = fail_if-eq-ok (not (canonical.hash == c.block.hash)) _ _ e3 in
              let same : (false, r) ≡ result = cc e4 in rw (← same) h
          | inr new ↦
              let (_, e3) = fail_if-eq-ok (not (c.block.height == next)) _ _ (rw new at e2) in
              let (r', s, e4) = >>=-eq-ok (sync_block crates clock c.block r) _ e3 in
              let (_, _, s1) = >>=-eq-ok (validate_scheduled_block crates clock c.block r) _ s in
              let (chain, a, s2) = >>=-eq-ok (apply_block crates c.block r.chain) _ s1 in
              let stepped : record r { chain = chain } ≡ r' = cc s2 in
              let same : (true, record r' { finalized = r'.finalized ++ c ∷ [] }) ≡ result =
                cc e4 in
              rw (← same, ← stepped)
                (keeps.certified r.chain chain r.finalized c r.validators h v a)
        ]

    sync_certificates-keeps :
        (cs : List FinalityCertificate) (applied : ℕ) (r : ConsensusRuntime)
        → Holds crates Q r
        → Holds crates Q (sync_certificates crates clock cs applied r).1
    unfolding sync_certificates
    sync_certificates-keeps [] applied r h = h
    sync_certificates-keeps (c ∷ cs) applied r h =
        elim (Outcome-cases (sync_certificate crates clock c r)) [
          | inr (e, f) ↦ rw (f, sync_certificates) h
          | inl (result, f) ↦
              rw (f, sync_certificates)
                (sync_certificates-keeps cs _ result.1 (sync_certificate-keeps c r h f))
        ]

    pub apply_sync_certificates-keeps :
        (cs : List FinalityCertificate) (r : ConsensusRuntime)
        → Holds crates Q r
        → Holds crates Q (apply_sync_certificates crates clock cs r).1
    unfolding apply_sync_certificates
    apply_sync_certificates-keeps cs r h =
        let synced = sync_certificates crates clock cs 0 r in
        let h1 = sync_certificates-keeps cs 0 r h in
        ground (arith, h1, start_height-keeps synced.1 h1)

    pub sync_batch-keeps :
        (blocks : List Block) (applied : ℕ) (r : ConsensusRuntime)
        → Holds crates Q r
        → Holds crates Q (sync_batch crates clock blocks applied r).1
    unfolding sync_batch
    sync_batch-keeps [] applied r h = h
    sync_batch-keeps (block ∷ blocks) applied r h =
        elim (Outcome-cases (sync_block crates clock block r)) [
          | inr (e, f) ↦ ground (arith, h, f, sync_batch-keeps blocks applied r h)
          | inl (r', f) ↦ ground (
            arith,
            h,
            f,
            sync_batch-keeps blocks applied r h,
            sync_batch-keeps blocks (applied + 1) r' (sync_block-keeps block r h f),
          )
        ]

  import_loop-keeps :
      (cs : List FinalityCertificate) (imported : ℕ) (r : ConsensusRuntime)
      → Holds crates Q r
      → Holds crates Q (import_loop crates cs imported r).1
  unfolding import_loop
  import_loop-keeps [] imported r h = h
  import_loop-keeps (c ∷ cs) imported r h =
      elim (Option-cases (block_by_height c.block.height r.chain)) [
        | inl nothing ↦ ground (arith, h, nothing, import_loop-keeps cs imported r h)
        | inr (block, b) ↦ elim (Bool-cases (block.hash == c.block.hash)) [
          | inr other ↦ ground (arith, h, b, other)
          | inl same ↦
              let h' =
                keeps.imported r.chain r.finalized c block h b
                  ((string_eq.beq_iff block.hash c.block.hash).0 same) in
              ground (
                arith,
                h,
                b,
                same,
                import_loop-keeps cs imported r h,
                import_loop-keeps cs (imported + 1) (record r { finalized = r.finalized ++ c ∷ [] })
                    h',
              )
        ]
      ]

  pub import_certificate_history-keeps :
      (cs : List FinalityCertificate) (r : ConsensusRuntime)
      → Holds crates Q r
      → Holds crates Q (import_certificate_history crates cs r).1
  unfolding import_certificate_history
  import_certificate_history-keeps cs r h =
      let looped = import_loop crates cs 0 r in
      let h1 = import_loop-keeps cs 0 r h in
      ground (arith, h1, keeps.sorted looped.1.chain looped.1.finalized h1)
