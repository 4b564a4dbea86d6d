-- ===== src/Upgrade.antt =====
-- src/upgrade.rs: the heights at which the protocol changes its version.
mod Version
mod Tests
use aah_chain.Base.{
  ℕ, ◌≤◌, ◌<◌, String, List, [], ◌∷◌, Bool, true, false, Option, none, some, ◌≡◌, refl, ap, ◌∙◌,
  inl, inr, arith, map,
}
use aah_chain.Base.Tests.{if◌then◌else◌, eqb, ltb, leb}
use aah_chain.Base.Lists.{last?, keep}
use aah_chain.Base.Sets.{In, All}
use aah_chain.Base.Sorting.{sort, insert_sorted, sort-In}
use aah_chain.Base.Outcome.{Outcome, ok, err, ◌>>=◌, ◌>>◌, fail_if, fail_if-eq-ok, >>=-eq-ok}
use aah_chain.Errors.{Error, same_upgrade_height, unsupported_version}

pub record ProtocolUpgrade : Type 0 where
  pub name : String
  pub activation_height : ℕ
  pub protocol_version : ℕ

pub record UpgradeSchedule : Type 0 where
  pub upgrades : List ProtocolUpgrade

abbrev pub not_after : ProtocolUpgrade → ProtocolUpgrade → Bool
not_after u v = leb u.activation_height v.activation_height

-- The loop over `windows(2)`: two neighbours have one height.
unfoldable pub has_twins : List ProtocolUpgrade → Bool
has_twins [] = false
has_twins (u ∷ []) = false
has_twins (u ∷ v ∷ us) =
    let rest = has_twins (v ∷ us) in
    if eqb u.activation_height v.activation_height then true else rest

-- `UpgradeSchedule::load`: `none` without the file, or what reading it and its JSON text gives.
unfoldable pub load : Option (Outcome Error (List ProtocolUpgrade)) → Outcome Error UpgradeSchedule
unfolding sort
load none = ok (record { upgrades = [] })
load (some file) = do
  upgrades ← file
  fail_if (has_twins (sort not_after upgrades)) same_upgrade_height
  ok (record { upgrades = sort not_after upgrades })

-- `UpgradeSchedule::version_at`
unfoldable pub version_at : ℕ → UpgradeSchedule → ℕ
version_at height s =
    elim (last? (keep (λ (u : ProtocolUpgrade). leb u.activation_height height) s.upgrades)) [
      | none ↦ 1
      | some u ↦ u.protocol_version
    ]

-- `UpgradeSchedule::ensure_supported`
unfoldable pub ensure_supported : ℕ → ℕ → UpgradeSchedule → Outcome Error (Unit {0})
unfolding version_at
ensure_supported height supported s = do
  fail_if (ltb supported (version_at height s)) unsupported_version
  ok tt
