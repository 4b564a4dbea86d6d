-- ===== src/Consensus/Era/Boundary.antt =====
-- src/consensus_era.rs `schedule`: the height at which a change takes effect.
use native.Mathlib.Nat.{div-add-mod', mul-mod_left, mod-lt}
use aah_chain.Base.{
  ℕ, ◌+◌, ◌*◌, ◌/◌, ◌%◌, ◌≤◌, ◌<◌, List, [], ◌∷◌, Option, none, some, ◌≡◌, refl, sym, arith, inl,
  inr, ap, ◌∙◌,
}
use aah_chain.Base.Tests.{ltb, Bool-cases}
use aah_chain.Base.Words.{u64_max, div_ceil}
use aah_chain.Base.Outcome.{ok}
use aah_chain.Consensus.Messages.{Validator}
use aah_chain.Consensus.Era.{
  ValidatorSetUpdate, EraManager, activation_height, schedule, insert_update, take_due,
  apply_height,
}
use aah_chain.Consensus.Era.Schedule.{requested, schedule-eq-ok}

-- The least multiple of `n` that is not below `a`.
div_ceil-bounds : (a n : ℕ) → 1 ≤ n → (a ≤ div_ceil a n * n) × (div_ceil a n * n < a + n)
div_ceil-bounds a n h =
    let d : a / n * n + a % n ≡ a = div-add-mod' a n in
    let r : a % n < n = mod-lt a {m = n} h in
    elim (Bool-cases (ltb 0 (a % n))) [
      | inl over ↦
          let up : div_ceil a n ≡ a / n + 1 = rw over refl in
          let rest : 0 < a % n = ground arith in
          rw up (omega (arith, d, r, rest), omega (arith, d, r, rest))
      | inr even ↦
          let same : div_ceil a n ≡ a / n = rw even refl in
          let rest : a % n ≡ 0 = ground arith in
          rw same (omega (arith, d, r, rest), omega (arith, d, r, rest, h))
    ]

-- Below the height of an entry, the entry makes no difference.
due : ℕ → List (ℕ × ValidatorSetUpdate) → Option ValidatorSetUpdate
unfolding take_due
due height m = elim (take_due height m) [ none ↦ none | some found ↦ some found.0 ]

due-insert_update_early :
    (height h : ℕ) (u : ValidatorSetUpdate) (m : List (ℕ × ValidatorSetUpdate))
    → height < h
    → due height (insert_update h u m) ≡ due height m
unfolding due insert_update
due-insert_update_early height h u [] early = ground (arith, early)
due-insert_update_early height h u ((j, w) ∷ m) early =
    ground (arith, early, due-insert_update_early height h u m early)

-- Where nothing else is due, the entry is taken as soon as it is due.
take_due-insert_update :
    (height h : ℕ) (u : ValidatorSetUpdate) (m : List (ℕ × ValidatorSetUpdate))
    → h ≤ height
    → take_due height m ≡ none
    → take_due height (insert_update h u m) ≡ some (u, m)
unfolding take_due insert_update
take_due-insert_update height h u [] late nothing = ground (arith, late)
take_due-insert_update height h u ((j, w) ∷ m) late nothing = ground (arith, late, nothing)

apply_height-due : (height : ℕ) (m : EraManager) → (apply_height height m).0 ≡ due height m.pending
unfolding apply_height due
apply_height-due height m = ground arith

applied_when_due :
    (at height : ℕ) (vs : List Validator) (activation : ℕ) (m : EraManager)
    → activation ≤ at
    → (apply_height at m).0 ≡ none
    → (apply_height at (requested height vs activation m)).1.active ≡ vs
unfolding apply_height
applied_when_due at height vs activation m late nothing =
    let quiet : take_due at m.pending ≡ none = ground (arith, nothing) in
    rw (take_due-insert_update at activation _ m.pending late quiet, apply_height) refl

-- A change that is scheduled takes effect at a boundary of an era, no earlier than the activation
-- delay after the request, and before another era has passed: below that height apply_height makes
-- the changes that it would make without it, and from that height on, where no other change is due,
-- apply_height makes it, and its validators are the active ones. The length of an era is above 0, and
-- the request, the delay and the length of an era together fit a u64.
pub scheduled_change_waits_for_boundary :
    (height : ℕ) (vs : List Validator) (m : EraManager) {r : ℕ × EraManager}
    → schedule height vs m ≡ ok r
    → 1 ≤ m.config.era_length
    → height + m.config.activation_delay + m.config.era_length ≤ u64_max
    → (r.0 % m.config.era_length ≡ 0)
      × (height + m.config.activation_delay ≤ r.0)
      × (r.0 < height + m.config.activation_delay + m.config.era_length)
      × ((h : ℕ) → h < r.0 → (apply_height h r.1).0 ≡ (apply_height h m).0)
      × ((h : ℕ) → r.0 ≤ h → (apply_height h m).0 ≡ none → (apply_height h r.1).1.active ≡ vs)
unfolding activation_height
scheduled_change_waits_for_boundary height vs m {r} h positive fits =
    let n = m.config.era_length in
    let earliest = height + m.config.activation_delay in
    let (lower, upper) = div_ceil-bounds earliest n positive in
    let (v, a, s) = schedule-eq-ok height vs m h in
    let same : r.0 ≡ div_ceil earliest n * n = ground arith in
    (
      ap (λ x. x % n) same ∙ mul-mod_left (div_ceil earliest n) n,
      rw same lower,
      rw same upper,
      λ at early. rw s (
          apply_height-due at (requested height vs r.0 m)
          ∙ (due-insert_update_early at r.0 _ m.pending early ∙ sym (apply_height-due at m))),
      λ at late nothing. rw s (applied_when_due at height vs r.0 m late nothing),
    )
