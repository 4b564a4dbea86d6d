-- ===== src/Events/Validity.antt =====
-- What src/scheduled_event.rs promises of the events that it accepts.
use aah_chain.Base.{
  ℕ, ◌≤◌, String, List, [], ◌∷◌, Bool, true, false, ◌≡◌, ◌↔◌, refl, arith, map, not, inl, inr, ◌||◌,
}
use aah_chain.Base.Tests.{eqb, Bool-cases}
use aah_chain.Base.Keys.{string_eq}
use aah_chain.Base.Lists.{length, keep}
use aah_chain.Base.Sets
use aah_chain.Base.Sets.{In, All, IsNodup, contains, contains-insert}
use aah_chain.Base.Sorting.{sort, sort-In, In-sort}
use aah_chain.Base.Outcome.{ok, >>=-eq-ok, fail_if-eq-ok}
use aah_chain.Types.{
  ValidatorRegistration, NodeRewardRegistration, ScheduledEventAction, ScheduledEvent,
}
use aah_chain.Crates.{Crates}
use aah_chain.Wallet.{verify_signature}
use aah_chain.Events.{
  registration_bytes, reward_bytes, registration_signer, verify_node_identity,
  validate_reward_address, validate_bootstrap, validate_milestone, validate_action, is_due,
  event_le, due, validate_block_events,
}
use aah_chain.Events.Equality.{events_beq_iff}

-- No id of the list is among the ones seen, and none stands twice.
abbrev pub IsApart : List String → List String → Type 0
IsApart ids [] = Unit
IsApart ids (x ∷ xs) = (contains x ids ≡ false) × IsApart (Sets.insert x ids) xs

IsApart-contains :
    (ids xs : List String) (x : String)
    → IsApart ids xs
    → contains x ids ≡ true
    → contains x xs ≡ false
unfolding contains
IsApart-contains ids [] x h c = refl
IsApart-contains ids (y ∷ xs) x h c = ground (
  arith,
  h.0,
  IsApart-contains (Sets.insert y ids) xs x h.1,
  contains-insert y x ids,
  string_eq.beq_iff y x,
)

IsApart-IsNodup : (ids xs : List String) → IsApart ids xs → IsNodup xs
IsApart-IsNodup ids [] h = tt
IsApart-IsNodup ids (x ∷ xs) h = (
  IsApart-contains (Sets.insert x ids) xs x h.1
      (ground (arith, contains-insert x x ids, string_eq.beq_iff x x)),
  IsApart-IsNodup (Sets.insert x ids) xs h.1,
)

module _ (crates : Crates) where
  -- The validator has signed its registration.
  abbrev pub HasSigned : ValidatorRegistration → Type 0
  HasSigned r =
      verify_signature crates r.validator_id (registration_bytes r.validator_id r.peer_id)
        r.signature_hex
      ≡ ok tt

  bootstrap-eq-ok :
      (rs : List ValidatorRegistration) (peers addresses : List String)
      → validate_bootstrap crates rs peers addresses ≡ ok tt
      → IsApart peers (map (λ (r : ValidatorRegistration). r.peer_id) rs)
        × IsApart addresses (map (λ (r : ValidatorRegistration). r.validator_id) rs)
        × All HasSigned rs
  unfolding validate_bootstrap
  bootstrap-eq-ok [] peers addresses h = (tt, tt, tt)
  bootstrap-eq-ok (r ∷ rs) peers addresses h =
      let (new, h1) =
        fail_if-eq-ok (contains r.peer_id peers || contains r.validator_id addresses) _ _ h in
      let (_, signed, h2) =
        >>=-eq-ok
          (verify_signature crates r.validator_id (registration_bytes r.validator_id r.peer_id)
            r.signature_hex)
          _ h1 in
      let (p, a, s) =
        bootstrap-eq-ok rs (Sets.insert r.peer_id peers) (Sets.insert r.validator_id addresses)
          h2 in
      ((ground (arith, new), p), (ground (arith, new), a), (signed, s))

  -- A reward of the first validators is accepted only for exactly four registrations and an amount
  -- above 0, where no peer and no validator stands twice and each validator has signed its own.
  pub bootstrap_reward_is_proved :
      (rs : List ValidatorRegistration) (amount : ℕ)
      → validate_action crates (ScheduledEventAction.bootstrap_validator_reward rs amount) ≡ ok tt
      → (length rs ≡ 4)
        × (1 ≤ amount)
        × IsNodup (map (λ (r : ValidatorRegistration). r.peer_id) rs)
        × IsNodup (map (λ (r : ValidatorRegistration). r.validator_id) rs)
        × All HasSigned rs
  unfolding validate_action
  bootstrap_reward_is_proved rs amount h =
      let (count, h1) = fail_if-eq-ok (not (eqb (length rs) 4) || eqb amount 0) _ _ h in
      let (p, a, s) = bootstrap-eq-ok rs [] [] h1 in
      (
        ground (arith, count),
        ground (arith, count),
        IsApart-IsNodup [] _ p,
        IsApart-IsNodup [] _ a,
        s,
      )

  -- The node has proved its key and address, and its signer the registration.
  abbrev pub HasProved : NodeRewardRegistration → Type 0
  HasProved r =
      (validate_reward_address r.reward_address ≡ ok tt)
      × (verify_node_identity crates r ≡ ok tt)
      × (verify_signature crates (registration_signer r) (reward_bytes r.reward_address r.peer_id)
            r.signature_hex
          ≡ ok tt)

  milestone-eq-ok :
      (rs : List NodeRewardRegistration) (peers addresses : List String)
      → validate_milestone crates rs peers addresses ≡ ok tt
      → IsApart peers (map (λ (r : NodeRewardRegistration). r.peer_id) rs)
        × IsApart addresses (map (λ (r : NodeRewardRegistration). r.reward_address) rs)
        × All HasProved rs
  unfolding validate_milestone
  milestone-eq-ok [] peers addresses h = (tt, tt, tt)
  milestone-eq-ok (r ∷ rs) peers addresses h =
      let (_, address, h0) = >>=-eq-ok (validate_reward_address r.reward_address) _ h in
      let (_, identity, h1) = >>=-eq-ok (verify_node_identity crates r) _ h0 in
      let (new, h2) =
        fail_if-eq-ok (contains r.peer_id peers || contains r.reward_address addresses) _ _ h1 in
      let (_, signed, h3) =
        >>=-eq-ok
          (verify_signature crates (registration_signer r) (reward_bytes r.reward_address r.peer_id)
            r.signature_hex)
          _ h2 in
      let (p, a, s) =
        milestone-eq-ok rs (Sets.insert r.peer_id peers) (Sets.insert r.reward_address addresses)
          h3 in
      ((ground (arith, new), p), (ground (arith, new), a), ((address, identity, signed), s))

  -- A reward of nodes is accepted only for exactly a hundred registrations and an amount above 0,
  -- where no peer and no address stands twice, and each has a well-formed address, a node that has
  -- proved its key, and a signature of its signer.
  pub milestone_reward_is_proved :
      (rs : List NodeRewardRegistration) (amount : ℕ)
      → validate_action crates (ScheduledEventAction.node_milestone_reward rs amount) ≡ ok tt
      → (length rs ≡ 100)
        × (1 ≤ amount)
        × IsNodup (map (λ (r : NodeRewardRegistration). r.peer_id) rs)
        × IsNodup (map (λ (r : NodeRewardRegistration). r.reward_address) rs)
        × All HasProved rs
  unfolding validate_action
  milestone_reward_is_proved rs amount h =
      let (count, h1) = fail_if-eq-ok (not (eqb (length rs) 100) || eqb amount 0) _ _ h in
      let (p, a, s) = milestone-eq-ok rs [] [] h1 in
      (
        ground (arith, count),
        ground (arith, count),
        IsApart-IsNodup [] _ p,
        IsApart-IsNodup [] _ a,
        s,
      )

In-keep :
    {A : Type 0} (p : A → Bool) (xs : List A) (x : A) → In x (keep p xs) → In x xs × (p x ≡ true)
In-keep p [] x i = absurd i
In-keep p (y ∷ xs) x i = elim (Bool-cases (p y)) [
  | inl holds ↦ split holds (rw holds at i) (In-keep p xs x)
  | inr fails ↦ let (j, q) = In-keep p xs x (rw fails at i) in (inr j, q)
]
  where
    split :
        p y ≡ true
        → In x (y ∷ keep p xs)
        → (In x (keep p xs) → In x xs × (p x ≡ true))
        → In x (y ∷ xs) × (p x ≡ true)
    split holds (inl e) rec = (inl e, rw e holds)
    split holds (inr j) rec = let (k, q) = rec j in (inr k, q)

keep-In :
    {A : Type 0} (p : A → Bool) (xs : List A) (x : A) → In x xs → p x ≡ true → In x (keep p xs)
keep-In p [] x i holds = absurd i
keep-In p (y ∷ xs) x (inl e) holds = let same : p y ≡ true = rw (← e) holds in rw same (inl e)
keep-In p (y ∷ xs) x (inr i) holds = elim (Bool-cases (p y)) [
  | inl first ↦ rw first (inr (keep-In p xs x i holds))
  | inr skip ↦ rw skip (keep-In p xs x i holds)
]

-- The events of a block are accepted only if they are exactly the events of the schedule whose time
-- has come and that have not run.
accepted_events_are_due :
    (schedule events : List ScheduledEvent) (timestamp : ℕ) (executed : List String)
    (event : ScheduledEvent)
    → validate_block_events schedule timestamp events executed ≡ ok tt
    → In event events ↔ (In event schedule × (is_due timestamp executed event ≡ true))
unfolding validate_block_events due
accepted_events_are_due schedule events timestamp executed event h =
    let p = is_due timestamp executed in
    let same : events ≡ sort event_le (keep p schedule) =
      ground (arith, events_beq_iff events (sort event_le (keep p schedule))) in
    (
      (λ i. In-keep p schedule event (In-sort event_le event (keep p schedule) (rw same at i))),
      (λ i. rw same (sort-In event_le event (keep p schedule) (keep-In p schedule event i.0 i.1))),
    )
