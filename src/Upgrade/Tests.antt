-- ===== src/Upgrade/Tests.antt =====
-- A schedule of two upgrades, and the theorem of src/upgrade.rs applied to it.
use aah_chain.Base.{[], ◌∷◌, some, ◌≡◌, refl, inl, inr, arith}
use aah_chain.Base.Sorting.{sort, insert_sorted}
use aah_chain.Base.Outcome.{ok, err}
use aah_chain.Errors.{unsupported_version}
use aah_chain.Upgrade.{
  ProtocolUpgrade, UpgradeSchedule, load, has_twins, version_at, ensure_supported,
}
use aah_chain.Upgrade.Version.{latest_upgrade_decides}

abbrev fees : ProtocolUpgrade
fees = record { name = "fees"; activation_height = 500; protocol_version = 3 }

abbrev eras : ProtocolUpgrade
eras = record { name = "eras"; activation_height = 100; protocol_version = 2 }

abbrev schedule : UpgradeSchedule
schedule = record { upgrades = eras ∷ fees ∷ [] }

loads : load (some (ok (fees ∷ eras ∷ []))) ≡ ok schedule
unfolding load sort insert_sorted has_twins
loads = refl

is_old_version : version_at 99 schedule ≡ 1
unfolding version_at
is_old_version = refl

is_refused : ensure_supported 500 2 schedule ≡ err unsupported_version
unfolding ensure_supported version_at
is_refused = refl

latest_upgrade_decides_example : version_at 700 schedule ≡ 3
unfolding load sort insert_sorted has_twins version_at
latest_upgrade_decides_example =
    latest_upgrade_decides (fees ∷ eras ∷ []) schedule 700 fees loads (inl refl) (omega arith)
      (λ v i _. elim i [
        | inl p ↦ rw p (omega arith)
        | inr j ↦ elim j [ inl p ↦ rw p (omega arith) | inr k ↦ absurd k ]
      ])
