-- ===== src/AccountPolicy/Quorum.antt =====
-- What src/account_security.rs promises: an authorization has the weight that the policy asks for,
-- and a valid policy can be satisfied.
use aah_chain.Base.{
  ℕ, ◌+◌, ◌≤◌, String, List, [], ◌∷◌, Bool, true, false, some, ◌≡◌, refl, arith, map, not, ◌||◌,
  inl, inr, ap, ◌∙◌,
}
use aah_chain.Base.Tests.{eqb, ltb, Bool-cases}
use aah_chain.Base.Keys.{◌==◌, string_eq, nat_eq}
use aah_chain.Base.Lists.{is_empty, keep}
use aah_chain.Base.Maps.{Map, get}
use aah_chain.Base.Sets
use aah_chain.Base.Sets.{In, In-contains, contains-In, contains, contains-insert, IsNodup}
use aah_chain.Base.Distinct.{keep-IsNodup}
use aah_chain.Base.Words.{u32_max, wrap}
use aah_chain.Base.Outcome.{ok, ok_or, >>=-eq-ok, fail_if-eq-ok}
use aah_chain.Errors.{no_threshold}
use aah_chain.AccountPolicy.{
  Permission, permission_eq, permission_beq_iff, AccountKey, AccountPolicy, Authorization,
  weight_of, has_permission, is_signing, check_thresholds, validate_policy, authorize, are_bad_keys,
}

-- Tests that agree on the keys give one weight.
weight_of-cong :
    (p q : AccountKey → Bool) (keys : List AccountKey)
    → ((k : AccountKey) → In k keys → p k ≡ q k)
    → weight_of p keys ≡ weight_of q keys
unfolding weight_of
weight_of-cong p q [] h = refl
weight_of-cong p q (k ∷ keys) h =
    ground (arith, h k (inl refl), weight_of-cong p q keys (λ j i. h j (inr i)))

all_signers : List AccountKey → List String
all_signers keys = map (λ (k : AccountKey). k.public_key) keys

In-all_signers :
    (k : AccountKey) (keys : List AccountKey) → In k keys → In k.public_key (all_signers keys)
unfolding all_signers
In-all_signers k [] i = i
In-all_signers k (j ∷ keys) (inl p) = inl (ap (λ (x : AccountKey). x.public_key) p)
In-all_signers k (j ∷ keys) (inr i) = inr (In-all_signers k keys i)

check_thresholds-get :
    (keys : List AccountKey) (ts : Map Permission ℕ) (permission : Permission) (threshold : ℕ)
    → check_thresholds keys ts ≡ ok tt
    → get permission ts ≡ some threshold
    → (1 ≤ threshold) × (threshold ≤ wrap u32_max (weight_of (has_permission permission) keys))
unfolding check_thresholds get
check_thresholds-get keys [] permission threshold h g = cc
check_thresholds-get keys ((p, t) ∷ ts) permission threshold h g =
    let (fits, rest) =
      fail_if-eq-ok (eqb t 0 || ltb (wrap u32_max (weight_of (has_permission p) keys)) t) _ _ h in
    ground (
      arith,
      fits,
      check_thresholds-get keys ts permission threshold rest,
      permission_beq_iff p permission,
    )

keep-In :
    (p : AccountKey → Bool) (k : AccountKey) (keys : List AccountKey)
    → In k (keep p keys)
    → (In k keys) × (p k ≡ true)
keep-In p k [] i = absurd i
keep-In p k (j ∷ keys) i = elim (Bool-cases (p j)) [
  | inr left ↦ let (there, passes) = keep-In p k keys (rw left at i) in (inr there, passes)
  | inl kept ↦ elim (rw kept at i) [
    | inl here ↦ (inl here, ap p here ∙ kept)
    | inr later ↦ let (there, passes) = keep-In p k keys later in (inr there, passes)
  ]
]

-- The sum of the weights of all keys.
abbrev pub total_weight : List AccountKey → ℕ
total_weight [] = 0
total_weight (k ∷ keys) = k.weight + total_weight keys

total_weight-keep :
    (p : AccountKey → Bool) (keys : List AccountKey) → total_weight (keep p keys) ≡ weight_of p keys
unfolding weight_of
total_weight-keep p [] = refl
total_weight-keep p (k ∷ keys) = ground (arith, total_weight-keep p keys)

not_bad-IsNodup :
    (keys : List AccountKey) (unique : List String)
    → are_bad_keys keys unique ≡ false
    → IsNodup (map (λ (k : AccountKey). k.public_key) keys)
      × ((name : String)
          → contains name unique ≡ true
          → contains name (map (λ (k : AccountKey). k.public_key) keys) ≡ false)
unfolding are_bad_keys contains
not_bad-IsNodup [] unique h = (tt, λ name i. refl)
not_bad-IsNodup (k ∷ keys) unique h =
    let later : are_bad_keys keys (Sets.insert k.public_key unique) ≡ false = ground (arith, h) in
    let (distinct, fresh) = not_bad-IsNodup keys (Sets.insert k.public_key unique) later in
    (
      (
        fresh k.public_key (
            ground (
              arith,
              contains-insert k.public_key k.public_key unique,
              string_eq.beq_iff k.public_key k.public_key,
            )),
        distinct,
      ),
      λ name i. ground (
        arith,
        h,
        i,
        fresh name (ground (arith, i, contains-insert k.public_key name unique)),
        string_eq.beq_iff k.public_key name,
      ),
    )

-- What a key that counts is: a key of the policy that the authorization names, with the permission.
pub record IsCounted (permission : Permission) (a : Authorization) (policy : AccountPolicy)
    (k : AccountKey) : Type 0 where
  pub known : In k policy.keys
  pub signer : In k.public_key a.signer_keys
  pub permitted : In permission k.permissions

is_signing-IsCounted :
    (permission : Permission) (a : Authorization) (policy : AccountPolicy) (k : AccountKey)
    → In k (keep (is_signing permission a.signer_keys) policy.keys)
    → IsCounted permission a policy k
is_signing-IsCounted permission a policy k i =
    let (there, passes) = keep-In (is_signing permission a.signer_keys) k policy.keys i in
    record {
      known = there;
      signer = contains-In k.public_key a.signer_keys (ground (arith, passes));
      permitted = contains-In permission k.permissions (ground (arith, passes));
    }

-- If an authorization is accepted, then it is for the present policy, the permission has a
-- threshold above 0, and there are keys that weigh at least that much together, no public key
-- twice, each a key of the policy that has the permission and that the authorization names as a
-- signer; the signatures themselves are not part of this check.
pub authorization_has_weight :
    (permission : Permission) (a : Authorization) (policy : AccountPolicy)
    → authorize permission a policy ≡ ok tt
    → (threshold : ℕ) × (counted : List AccountKey) × (get permission policy.thresholds
        ≡ some threshold)
      × (a.policy_nonce ≡ policy.policy_nonce)
      × (1 ≤ threshold)
      × (threshold ≤ total_weight counted)
      × IsNodup (map (λ (k : AccountKey). k.public_key) counted)
      × ((k : AccountKey) → In k counted → IsCounted permission a policy k)
unfolding authorize validate_policy
authorization_has_weight permission a policy h =
    let signing = is_signing permission a.signer_keys in
    let (_, v, h1) = >>=-eq-ok (validate_policy policy) _ h in
    let (n, h2) = fail_if-eq-ok (not (a.policy_nonce == policy.policy_nonce)) _ _ h1 in
    let (threshold, t, h3) =
      >>=-eq-ok (ok_or (get permission policy.thresholds) no_threshold) _ h2 in
    let (_, v1) = fail_if-eq-ok (is_empty policy.keys) _ _ v in
    let (distinct, v2) = fail_if-eq-ok (are_bad_keys policy.keys []) _ _ v1 in
    let g : get permission policy.thresholds ≡ some threshold = ground (arith, t) in
    let (positive, _) =
      check_thresholds-get policy.keys policy.thresholds permission threshold v2 g in
    (
      threshold,
      keep signing policy.keys,
      g,
      ground (arith, n),
      positive,
      rw (total_weight-keep signing policy.keys) (ground (arith, h3)),
      keep-IsNodup (λ (k : AccountKey). k.public_key) signing policy.keys
          (not_bad-IsNodup policy.keys [] distinct).0,
      is_signing-IsCounted permission a policy,
    )

-- A valid policy can be satisfied: where all its keys sign the present policy, every permission that
-- has a threshold is granted.
pub valid_policy_is_satisfiable :
    (permission : Permission) (policy : AccountPolicy) (threshold : ℕ)
    → validate_policy policy ≡ ok tt
    → get permission policy.thresholds ≡ some threshold
    → authorize permission
        (record {
          policy_nonce = policy.policy_nonce;
          signer_keys = map (λ (k : AccountKey). k.public_key) policy.keys;
        })
        policy
      ≡ ok tt
unfolding authorize all_signers
valid_policy_is_satisfiable permission policy threshold v g =
    let signers = all_signers policy.keys in
    let (_, v1) = fail_if-eq-ok (is_empty policy.keys) _ _ (unfold validate_policy in v) in
    let (_, v2) = fail_if-eq-ok (are_bad_keys policy.keys []) _ _ v1 in
    let (_, enough) =
      check_thresholds-get policy.keys policy.thresholds permission threshold v2 g in
    let same : weight_of (is_signing permission signers) policy.keys
        ≡ weight_of (has_permission permission) policy.keys =
      weight_of-cong (is_signing permission signers) (has_permission permission) policy.keys
        (λ k i. rw (In-contains k.public_key signers (In-all_signers k policy.keys i)) refl) in
    let nonce : (policy.policy_nonce == policy.policy_nonce) ≡ true = ground arith in
    let heavy : ltb (wrap u32_max (weight_of (has_permission permission) policy.keys)) threshold
        ≡ false =
      ground (arith, enough) in
    rw (v, nonce, g, same, heavy) refl
