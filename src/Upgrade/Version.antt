-- ===== src/Upgrade/Version.antt =====
-- A schedule that src/upgrade.rs loads is in the order of its heights, and what `version_at` finds in it.
use aah_chain.Base.{ℕ, ◌≤◌, ◌<◌, List, [], ◌∷◌, true, false, some, ◌≡◌, refl, ap, inl, inr, arith}
use aah_chain.Base.Tests.{leb, Bool-cases}
use aah_chain.Base.Lists.{last?, keep}
use aah_chain.Base.Sets.{In}
use aah_chain.Base.Sorting.{sort, insert_sorted, sort-In, In-insert_sorted, In-sort}
use aah_chain.Base.Outcome.{ok, fail_if-eq-ok}
use aah_chain.Upgrade.{ProtocolUpgrade, UpgradeSchedule, not_after, has_twins, load, version_at}

-- No upgrade comes before one of a smaller height.
abbrev IsAscending : List ProtocolUpgrade → Type 0
IsAscending [] = Unit
IsAscending (u ∷ us) =
    ((v : ProtocolUpgrade) → In v us → u.activation_height ≤ v.activation_height) × IsAscending us

insert_sorted-IsAscending :
    (u : ProtocolUpgrade) (us : List ProtocolUpgrade)
    → IsAscending us
    → IsAscending (insert_sorted not_after u us)
unfolding insert_sorted
insert_sorted-IsAscending u [] h = (λ v i. absurd i, tt)
insert_sorted-IsAscending u (w ∷ us) (first, rest) = elim (Bool-cases (not_after u w)) [
  | inl before ↦ rw before (
      (
        λ v i. elim i [
          | inl p ↦ rw p (ground (arith, before))
          | inr j ↦ ground (arith, before, first v j)
        ],
        (first, rest),
      ))
  | inr after ↦ rw after (
      (
        λ v i. elim (In-insert_sorted not_after u v us i) [
          | inl p ↦ rw p (ground (arith, after))
          | inr j ↦ first v j
        ],
        insert_sorted-IsAscending u us rest,
      ))
]

sort-IsAscending : (us : List ProtocolUpgrade) → IsAscending (sort not_after us)
unfolding sort
sort-IsAscending [] = tt
sort-IsAscending (u ∷ us) = insert_sorted-IsAscending u (sort not_after us) (sort-IsAscending us)

-- Without neighbours of one height the order is strict.
twin_free_is_strict :
    (u v : ProtocolUpgrade) (us : List ProtocolUpgrade)
    → IsAscending (u ∷ us)
    → has_twins (u ∷ us) ≡ false
    → In v us
    → u.activation_height < v.activation_height
unfolding has_twins
twin_free_is_strict u v [] h t i = absurd i
twin_free_is_strict u v (w ∷ us) (first, (second, rest)) t i = elim i [
  | inl p ↦ rw p (ground (arith, t, first w (inl refl)))
  | inr j ↦ ground (arith, t, first w (inl refl), second v j)
]

-- The first upgrade with nothing kept behind it.
keep-none :
    (height : ℕ) (us : List ProtocolUpgrade)
    → ((v : ProtocolUpgrade) → In v us → height < v.activation_height)
    → keep (λ (v : ProtocolUpgrade). leb v.activation_height height) us ≡ []
keep-none height [] h = refl
keep-none height (u ∷ us) h =
    ground (arith, h u (inl refl), keep-none height us (λ v i. h v (inr i)))

last?-cons : {A : Type 0} (x y : A) (xs : List A) → last? xs ≡ some y → last? (x ∷ xs) ≡ some y
last?-cons x y [] h = cc
last?-cons x y (z ∷ xs) h = h

has_twins-tail :
    (u : ProtocolUpgrade) (us : List ProtocolUpgrade)
    → has_twins (u ∷ us) ≡ false
    → has_twins us ≡ false
unfolding has_twins
has_twins-tail u [] h = refl
has_twins-tail u (w ∷ us) h = ground (arith, h)

-- In strict order the last upgrade that is kept is the latest one.
latest_is_last :
    (height : ℕ) (u : ProtocolUpgrade) (us : List ProtocolUpgrade)
    → IsAscending us
    → has_twins us ≡ false
    → In u us
    → u.activation_height ≤ height
    → ((v : ProtocolUpgrade)
        → In v us
        → v.activation_height ≤ height
        → v.activation_height ≤ u.activation_height)
    → last? (keep (λ (v : ProtocolUpgrade). leb v.activation_height height) us) ≡ some u
latest_is_last height u [] h t i active latest = absurd i
latest_is_last height u (w ∷ us) h t (inl p) active latest =
    let same : u.activation_height ≡ w.activation_height =
      ap (λ (a : ProtocolUpgrade). a.activation_height) p in
    let none_later =
      keep-none height us
        (λ v j. ground (arith, twin_free_is_strict w v us h t j, latest v (inr j), active, same)) in
    let is_kept : leb w.activation_height height ≡ true = ground (arith, active, same) in
    rw (none_later, is_kept, p) refl
latest_is_last height u (w ∷ us) (first, rest) t (inr i) active latest =
    let later =
      latest_is_last height u us rest (has_twins-tail w us t) i active (λ v j. latest v (inr j)) in
    elim (Bool-cases (leb w.activation_height height)) [
      | inl kept ↦
          rw kept (
            last?-cons w u (keep (λ (v : ProtocolUpgrade). leb v.activation_height height) us)
              later)
      | inr left ↦ rw left later
    ]

-- Where a list of upgrades loads, the version at a height is that of its upgrade with the greatest
-- activation height that is not above it, wherever that stands in the list.
pub latest_upgrade_decides :
    (us : List ProtocolUpgrade) (s : UpgradeSchedule) (height : ℕ) (u : ProtocolUpgrade)
    → load (some (ok us)) ≡ ok s
    → In u us
    → u.activation_height ≤ height
    → ((v : ProtocolUpgrade)
        → In v us
        → v.activation_height ≤ height
        → v.activation_height ≤ u.activation_height)
    → version_at height s ≡ u.protocol_version
unfolding load version_at
latest_upgrade_decides us s height u h i active latest =
    let (strict, same) = fail_if-eq-ok (has_twins (sort not_after us)) _ _ h in
    let found =
      latest_is_last height u (sort not_after us) (sort-IsAscending us) strict
        (sort-In not_after u us i) active (λ v j. latest v (In-sort not_after v us j)) in
    let sorted : UpgradeSchedule = record { upgrades = sort not_after us } in
    let loaded : sorted ≡ s = cc in
    let order : sort not_after us ≡ s.upgrades = ap (λ (a : UpgradeSchedule). a.upgrades) loaded in
    let in_schedule : last?
          (keep (λ (v : ProtocolUpgrade). leb v.activation_height height) s.upgrades)
        ≡ some u =
      rw order at found in
    rw (in_schedule, version_at) refl
