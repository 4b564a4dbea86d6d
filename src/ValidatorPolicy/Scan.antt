-- ===== src/ValidatorPolicy/Scan.antt =====
-- What the first loop of `select` of src/validator_policy.rs finds.
use aah_chain.Base.{ℕ, String, List, [], ◌∷◌, true, false, ◌≡◌, refl, arith, inl, inr, map}
use aah_chain.Base.Tests.{Bool-cases}
use aah_chain.Base.Keys.{string_eq}
use aah_chain.Base.Maps.{Map}
use aah_chain.Base.Sets
use aah_chain.Base.Sets.{In, All, All-at, All-map, IsNodup, contains, contains-insert}
use aah_chain.Base.Outcome.{ok, >>=-eq-ok, fail_if-eq-ok}
use aah_chain.Crates.{Crates}
use aah_chain.ValidatorPolicy.{
  ValidatorCandidate, ValidatorPolicy, Entry, validate_candidate, is_excluded, entry_of, scan,
  normalize_account,
}

-- The id of an entry.
abbrev pub id_of : Entry → String
id_of e = e.candidate.validator_id

module _ (crates : Crates) (p : ValidatorPolicy) (balances : Map String ℕ) (supply : ℕ) where
  -- Where an entry comes from.
  abbrev pub IsFrom : List ValidatorCandidate → Entry → Type 0
  IsFrom cs e =
      (c : ValidatorCandidate) × In c cs
      × (e ≡ entry_of p balances supply c)
      × (is_excluded p c ≡ false)

  -- What the first loop has found.
  pub record IsScanned (cs : List ValidatorCandidate) (ids : List String) (es : List Entry)
      : Type 0 where
    pub from : All (IsFrom cs) es
    pub distinct : IsNodup (map id_of es)
    pub fresh : (k : String) → contains k ids ≡ true → contains k (map id_of es) ≡ false

  pub scan-IsScanned :
      (cs : List ValidatorCandidate) (ids accounts : List String) {es : List Entry}
      → scan crates p balances supply cs ids accounts ≡ ok es
      → IsScanned cs ids es
  unfolding scan contains
  scan-IsScanned [] ids accounts {es} h =
      let same : [] ≡ es = cc h in
      rw (← same) (record { from = tt; distinct = tt; fresh = λ k i. refl })
  scan-IsScanned (c ∷ cs) ids accounts {es} h =
      let (_, _, h1) = >>=-eq-ok (validate_candidate crates c) _ h in
      let (new, h2) = fail_if-eq-ok (contains c.validator_id ids) _ _ h1 in
      let account = normalize_account c.stake_account in
      let (_, h3) = fail_if-eq-ok (contains account accounts) _ _ h2 in
      let (rest, f, h4) =
        >>=-eq-ok
          (scan crates p balances supply cs (Sets.insert c.validator_id ids)
            (Sets.insert account accounts))
          _ h3 in
      let s = scan-IsScanned cs (Sets.insert c.validator_id ids) (Sets.insert account accounts) f in
      let fresh : (k : String) → contains k ids ≡ true → contains k (map id_of rest) ≡ false =
        λ k i. s.fresh k (ground (arith, i, contains-insert c.validator_id k ids)) in
      let from =
        All-map (IsFrom cs) (IsFrom (c ∷ cs)) rest (λ e q. (q.0, inr q.1, q.2, q.3)) s.from in
      elim (Bool-cases (is_excluded p c)) [
        | inl out ↦
            let same : rest ≡ es = cc (rw out at h4) in
            rw (← same) (record { from = from; distinct = s.distinct; fresh = fresh })
        | inr kept ↦
            let same : entry_of p balances supply c ∷ rest ≡ es = cc (rw kept at h4) in
            rw (← same) (record {
              from = ((c, inl refl, refl, kept), from);
              distinct = (
                s.fresh c.validator_id (
                    ground (
                      arith,
                      contains-insert c.validator_id c.validator_id ids,
                      string_eq.beq_iff c.validator_id c.validator_id,
                    )),
                s.distinct,
              );
              fresh = λ k i. ground (arith, i, new, fresh k i, string_eq.beq_iff c.validator_id k);
            })
      ]
