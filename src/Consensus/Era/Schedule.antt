-- ===== src/Consensus/Era/Schedule.antt =====
-- What src/consensus_era.rs promises of a change of validators.
use aah_chain.Base.{
  ℕ, ◌≤◌, String, List, [], ◌∷◌, true, false, some, ◌≡◌, refl, arith, ◌||◌, map, inl, inr, sym, ap,
}
use aah_chain.Base.Tests.{eqb, leb, ltb, Bool-cases, Option-cases}
use aah_chain.Base.Keys.{string_eq}
use aah_chain.Base.Lists.{length}
use aah_chain.Base.Sets
use aah_chain.Base.Sets.{IsNodup, All, contains, contains-insert}
use aah_chain.Base.Outcome.{ok, err, >>=-eq-ok, fail_if-eq-ok, Outcome-cases}
use aah_chain.Consensus.Messages.{Validator}
use aah_chain.Consensus.Era.{
  EraConfig, ValidatorSetUpdate, EraManager, is_bad_set, validate_set, new, activation_height,
  schedule, insert_update, take_due, apply_height,
}

-- A set of validators that can agree: four or more, with distinct ids and some power each.
pub record IsValidSet (validators : List Validator) : Type 0 where
  pub enough : 4 ≤ length validators
  pub distinct : IsNodup (map (λ (v : Validator). v.id) validators)
  pub powerful : All (λ (v : Validator). 1 ≤ v.voting_power) validators

not_bad-contains :
    (vs : List Validator) (ids : List String) (id : String)
    → is_bad_set vs ids ≡ false
    → contains id ids ≡ true
    → contains id (map (λ (v : Validator). v.id) vs) ≡ false
unfolding is_bad_set contains
not_bad-contains [] ids id h c = refl
not_bad-contains (v ∷ vs) ids id h c = ground (
  arith,
  not_bad-contains vs (Sets.insert v.id ids) id,
  contains-insert v.id id ids,
  string_eq.beq_iff v.id id,
)

not_bad-IsNodup :
    (vs : List Validator) (ids : List String)
    → is_bad_set vs ids ≡ false
    → IsNodup (map (λ (v : Validator). v.id) vs) × All (λ (v : Validator). 1 ≤ v.voting_power) vs
unfolding is_bad_set
not_bad-IsNodup [] ids h = (tt, tt)
not_bad-IsNodup (v ∷ vs) ids h =
    let later : is_bad_set vs (Sets.insert v.id ids) ≡ false = ground arith in
    let (nodup, power) = not_bad-IsNodup vs (Sets.insert v.id ids) later in
    (
      (
        not_bad-contains vs (Sets.insert v.id ids) v.id later
            (ground (arith, contains-insert v.id v.id ids, string_eq.beq_iff v.id v.id)),
        nodup,
      ),
      (ground arith, power),
    )

validate_set-IsValidSet : (vs : List Validator) → validate_set vs ≡ ok tt → IsValidSet vs
unfolding validate_set
validate_set-IsValidSet vs h =
    let (enough, h1) = fail_if-eq-ok (ltb (length vs) 4) _ _ h in
    let good : is_bad_set vs [] ≡ false = ground arith in
    let (nodup, power) = not_bad-IsNodup vs [] good in
    record { enough = ground arith; distinct = nodup; powerful = power }

-- A call of a method of `EraManager` that may change it.
pub data Call : Type 0 where
  request : ℕ → List Validator → Call
  reach : ℕ → Call

-- The manager that a call leaves, also where it fails.
abbrev pub after : Call → EraManager → EraManager
after (Call.request height validators) m = elim (schedule height validators m) [
  | ok r ↦ r.1
  | err e ↦ m
]
after (Call.reach height) m = (apply_height height m).1

unfoldable pub run : List Call → EraManager → EraManager
run [] m = m
run (c ∷ cs) m = run cs (after c m)

-- An entry stands under its activation height and has a valid set.
pub record IsValidEntry (entry : ℕ × ValidatorSetUpdate) : Type 0 where
  pub keyed : entry.0 ≡ entry.1.activation_height
  pub valid : IsValidSet entry.1.validators

pub record IsSound (m : EraManager) : Type 0 where
  pub active : IsValidSet m.active
  pub pending : All IsValidEntry m.pending

insert_update-IsValidEntry :
    (h : ℕ) (u : ValidatorSetUpdate) (p : List (ℕ × ValidatorSetUpdate))
    → IsValidEntry (h, u)
    → All IsValidEntry p
    → All IsValidEntry (insert_update h u p)
unfolding insert_update
insert_update-IsValidEntry h u [] v k = (v, tt)
insert_update-IsValidEntry h u ((j, w) ∷ p) v k =
    ground (arith, v, k.0, k.1, insert_update-IsValidEntry h u p v k.1)

take_due-IsValidEntry :
    (height : ℕ) (p p' : List (ℕ × ValidatorSetUpdate)) (u : ValidatorSetUpdate)
    → All IsValidEntry p
    → take_due height p ≡ some (u, p')
    → IsValidSet u.validators × (u.activation_height ≤ height) × All IsValidEntry p'
unfolding take_due
take_due-IsValidEntry height [] p' u k e = cc
take_due-IsValidEntry height ((j, w) ∷ p) p' u k e = elim (Bool-cases (leb j height)) [
  | inl now ↦
      let found : some (w, p) ≡ some (u, p') = rw now at e in
      let same : w ≡ u = cc found in
      let rest : p ≡ p' = cc found in
      (
        rw (← same) k.0.valid,
        ground (arith, k.0.keyed, ap (λ (x : ValidatorSetUpdate). x.activation_height) same),
        rw (← rest) k.1,
      )
  | inr not_now ↦ elim (Option-cases (take_due height p)) [
    | inl nothing ↦ cc (rw (not_now, nothing) at e)
    | inr (found, f) ↦
        let there : some (found.0, (j, w) ∷ found.1) ≡ some (u, p') = rw (not_now, f) at e in
        let (v, due, rest) = take_due-IsValidEntry height p found.1 found.0 k.1 f in
        let same : found.0 ≡ u = cc there in
        let others : (j, w) ∷ found.1 ≡ p' = cc there in
        (rw (← same) v, rw (← same) due, rw (← others) ((k.0, rest)))
  ]
]

-- What the manager holds after a request.
abbrev pub requested : ℕ → List Validator → ℕ → EraManager → EraManager
requested height vs activation m = record m {
  pending =
      insert_update activation
        (record { requested_height = height; activation_height = activation; validators = vs })
        m.pending;
}

pub schedule-eq-ok :
    (height : ℕ) (vs : List Validator) (m : EraManager) {r : ℕ × EraManager}
    → schedule height vs m ≡ ok r
    → IsValidSet vs
      × (activation_height m.config height ≡ ok r.0)
      × (r.1 ≡ requested height vs r.0 m)
unfolding schedule
schedule-eq-ok height vs m {r} h =
    let (_, v, h1) = >>=-eq-ok (validate_set vs) _ h in
    let (activation, a, h2) = >>=-eq-ok (activation_height m.config height) _ h1 in
    let same : activation ≡ r.0 = cc h2 in
    let result : requested height vs activation m ≡ r.1 = cc h2 in
    (validate_set-IsValidSet vs v, rw (← same) a, rw (← same) (sym result))

schedule-IsSound :
    (height : ℕ) (vs : List Validator) (m : EraManager) {r : ℕ × EraManager}
    → IsSound m
    → schedule height vs m ≡ ok r
    → IsSound r.1
schedule-IsSound height vs m {r} k h =
    let (v, a, result) = schedule-eq-ok height vs m h in
    rw result (record {
      active = k.active;
      pending =
          insert_update-IsValidEntry r.0 _ m.pending (record { keyed = refl; valid = v }) k.pending;
    })

apply_height-IsSound : (height : ℕ) (m : EraManager) → IsSound m → IsSound (apply_height height m).1
unfolding apply_height
apply_height-IsSound height m k = elim (Option-cases (take_due height m.pending)) [
  | inl nothing ↦ rw (nothing, apply_height) k
  | inr (found, f) ↦
      let (v, due, rest) = take_due-IsValidEntry height m.pending found.1 found.0 k.pending f in
      rw (f, apply_height) (record { active = v; pending = rest })
]

after-IsSound : (c : Call) (m : EraManager) → IsSound m → IsSound (after c m)
after-IsSound (Call.request height vs) m k = elim (Outcome-cases (schedule height vs m)) [
  | inl (r, e) ↦ rw (e, after) (schedule-IsSound height vs m k e)
  | inr (e, r) ↦ rw (r, after) k
]
after-IsSound (Call.reach height) m k = apply_height-IsSound height m k

run-IsSound : (cs : List Call) (m : EraManager) → IsSound m → IsSound (run cs m)
unfolding run
run-IsSound [] m k = k
run-IsSound (c ∷ cs) m k = run-IsSound cs (after c m) (after-IsSound c m k)

new-IsSound :
    (config : EraConfig) (vs : List Validator) {m : EraManager} → new config vs ≡ ok m → IsSound m
unfolding new
new-IsSound config vs {m} h =
    let (_, v, h1) = >>=-eq-ok (validate_set vs) _ h in
    let (_, h2) = fail_if-eq-ok (eqb config.era_length 0 || eqb config.activation_delay 0) _ _ h1 in
    let same : m ≡ record { config = config; active = vs; pending = [] } = cc h2 in
    rw same (record { active = validate_set-IsValidSet vs v; pending = tt })

-- After any sequence of requests and heights from a new manager, the active validators, and those
-- of every pending change, are four or more, have distinct ids and some power each.
pub every_set_stays_valid :
    (config : EraConfig) (vs : List Validator) {m : EraManager} (cs : List Call)
    → new config vs ≡ ok m
    → IsSound (run cs m)
every_set_stays_valid config vs {m} cs e = run-IsSound cs m (new-IsSound config vs e)

-- A change that apply_height makes was scheduled for this height or an earlier one, and its
-- validators are then the active ones: so it is for every manager that a sequence of requests and
-- heights leaves.
applied_change_is_due :
    (config : EraConfig) (vs : List Validator) {m : EraManager} (cs : List Call) (height : ℕ)
    (u : ValidatorSetUpdate)
    → new config vs ≡ ok m
    → (apply_height height (run cs m)).0 ≡ some u
    → (u.activation_height ≤ height) × ((apply_height height (run cs m)).1.active ≡ u.validators)
unfolding apply_height
applied_change_is_due config vs {m} cs height u e h =
    let k = every_set_stays_valid config vs cs e in
    elim (Option-cases (take_due height (run cs m).pending)) [
      | inl nothing ↦ cc (rw (nothing, apply_height) at h)
      | inr (found, f) ↦
          let there : some found.0 ≡ some u = rw (f, apply_height) at h in
          let same : found.0 ≡ u = cc there in
          let (v, due, rest) =
            take_due-IsValidEntry height (run cs m).pending found.1 found.0 k.pending f in
          (rw (← same) due, rw (f, apply_height, same) refl)
    ]
