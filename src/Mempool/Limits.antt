-- ===== src/Mempool/Limits.antt =====
-- The limits of src/mempool.rs, and its count of bytes.
use aah_chain.Base.{
  ℕ, zero, suc, ◌+◌, ◌-◌, ◌≤◌, ◌<◌, List, [], ◌∷◌, ◌++◌, false, none, some, ◌≡◌, refl, arith, inl,
  inr, ap, ◌∙◌,
}
use aah_chain.Base.Tests.{leb, ltb, Bool-cases, Option-cases}
use aah_chain.Base.Keys.{string_eq, nat_eq, pair_eq}
use aah_chain.Base.Lists.{length, get_elem?, length-append}
use aah_chain.Base.Maps.{get}
use aah_chain.Base.Sets
use aah_chain.Base.Sets.{In, contains}
use aah_chain.Base.Words.{u64_max}
use aah_chain.Base.Outcome.{ok, ok_or, >>=-eq-ok, fail_if-eq-ok}
use aah_chain.Errors.{broken_index}
use aah_chain.Types.{Transaction}
use aah_chain.Crates.{Crates}
use aah_chain.Model.{transaction_id}
use aah_chain.Mempool.{
  Mempool, remove_elem, cheapest, minimum_fee, size_of, remove_at, position_of, replace, is_full,
  evict, push, add,
}

cheapest-get_elem? :
    (txs : List Transaction) (i fee : ℕ)
    → cheapest txs ≡ some (i, fee)
    → (tx : Transaction) × (get_elem? txs i ≡ some tx)
unfolding cheapest
cheapest-get_elem? [] i fee h = cc
cheapest-get_elem? (tx ∷ txs) i fee h = elim (Option-cases (cheapest txs)) [
  | inl nothing ↦
      let first : some (0, tx.fee) ≡ some (i, fee) = rw nothing at h in
      let same : 0 ≡ i = cc first in (tx, rw (← same) refl)
  | inr (found, f) ↦ elim (Bool-cases (leb tx.fee found.1)) [
    | inl less ↦
        let first : some (0, tx.fee) ≡ some (i, fee) = rw (f, less) at h in
        let same : 0 ≡ i = cc first in (tx, rw (← same) refl)
    | inr more ↦
        let later : some (suc found.0, found.1) ≡ some (i, fee) = rw (f, more) at h in
        let same : suc found.0 ≡ i = cc later in
        let (t, at_place) = cheapest-get_elem? txs found.0 found.1 f in (t, rw (← same) at_place)
  ]
]

cheapest-none : (txs : List Transaction) → cheapest txs ≡ none → txs ≡ []
unfolding cheapest
cheapest-none [] h = refl
cheapest-none (tx ∷ txs) h = elim (Option-cases (cheapest txs)) [
  | inl nothing ↦ cc (rw nothing at h)
  | inr (found, f) ↦ ground (arith, rw f at h)
]

length-remove_elem :
    {A : Type 0} (xs : List A) (i : ℕ) (x : A)
    → get_elem? xs i ≡ some x
    → suc (length (remove_elem i xs)) ≡ length xs
unfolding remove_elem
length-remove_elem [] i x h = cc
length-remove_elem (y ∷ xs) zero x h = refl
length-remove_elem (y ∷ xs) (suc i) x h = omega (arith, length-remove_elem xs i x h)

module _ (crates : Crates) where
  -- the bytes of all transactions
  abbrev pub sum_sizes : List Transaction → ℕ
  sum_sizes [] = 0
  sum_sizes (tx ∷ txs) = size_of crates tx + sum_sizes txs

  sum_sizes-remove_elem :
      (txs : List Transaction) (i : ℕ) (tx : Transaction)
      → get_elem? txs i ≡ some tx
      → sum_sizes (remove_elem i txs) + size_of crates tx ≡ sum_sizes txs
  unfolding remove_elem
  sum_sizes-remove_elem [] i tx h = cc
  sum_sizes-remove_elem (t ∷ txs) zero tx h = ground arith
  sum_sizes-remove_elem (t ∷ txs) (suc i) tx h = omega (arith, sum_sizes-remove_elem txs i tx h)

  sum_sizes-append_one :
      (txs : List Transaction) (tx : Transaction)
      → sum_sizes (txs ++ tx ∷ []) ≡ sum_sizes txs + size_of crates tx
  sum_sizes-append_one [] tx = omega arith
  sum_sizes-append_one (t ∷ txs) tx = omega (arith, sum_sizes-append_one txs tx)

  -- The pool has these limits, and counts its bytes.
  record IsCounted (max_transactions max_bytes : ℕ) (p : Mempool) : Type 0 where
    bytes : p.total_bytes ≡ sum_sizes p.transactions
    same_count : p.max_transactions ≡ max_transactions
    same_bytes : p.max_bytes ≡ max_bytes

  -- The pool counts its bytes and stays within its limits, which leave room for a transaction.
  pub record IsWithin (p : Mempool) : Type 0 where
    pub bytes : p.total_bytes ≡ sum_sizes p.transactions
    pub few : length p.transactions ≤ p.max_transactions
    pub small : p.total_bytes ≤ p.max_bytes
    pub room : 1 ≤ p.max_transactions
    pub representable : p.max_bytes < u64_max

  module _ (n b : ℕ) where
    remove_at-IsCounted :
        (i : ℕ) (tx : Transaction) (p : Mempool)
        → get_elem? p.transactions i ≡ some tx
        → IsCounted n b p
        → IsCounted n b (remove_at crates i p)
          × (suc (length (remove_at crates i p).transactions) ≡ length p.transactions)
    unfolding remove_at
    remove_at-IsCounted i tx p h k =
        rw (h, remove_at)
          (
            record {
              bytes = ground (arith, k.bytes, sum_sizes-remove_elem p.transactions i tx h);
              same_count = k.same_count;
              same_bytes = k.same_bytes;
            },
            length-remove_elem p.transactions i tx h,
          )

    -- Enough turns make room.
    evict-IsCounted :
        (fuel size : ℕ) (p : Mempool)
        → 1 ≤ n
        → size ≤ b
        → b < u64_max
        → length p.transactions ≤ fuel
        → IsCounted n b p
        → IsCounted n b (evict crates fuel size p)
          × (is_full crates size (evict crates fuel size p) ≡ false)
    unfolding evict
    evict-IsCounted zero size p room fits small enough k = (
      k,
      ground (arith, k.bytes, k.same_count, k.same_bytes, empty p.transactions (ground arith)),
    )
      where
        empty : (txs : List Transaction) → length txs ≡ 0 → sum_sizes txs ≡ 0
        empty [] e = refl
        empty (t ∷ txs) e = ground arith
    evict-IsCounted (suc fuel) size p room fits small enough k =
        elim (Option-cases (cheapest p.transactions)) [
          | inl nothing ↦
              let none_left = cheapest-none p.transactions nothing in
              let bytes : p.total_bytes ≡ 0 = k.bytes ∙ ap sum_sizes none_left in
              let count : length p.transactions ≡ 0 = ap length none_left in
              rw (nothing, evict) ((k, ground (arith, bytes, count, k.same_count, k.same_bytes)))
          | inr (found, f) ↦
              let (tx, at_place) = cheapest-get_elem? p.transactions found.0 found.1 f in
              let (k', shorter) = remove_at-IsCounted found.0 tx p at_place k in
              elim (Bool-cases (is_full crates size p)) [
                | inl full ↦
                    rw (f, evict, full)
                      (evict-IsCounted fuel size (remove_at crates found.0 p) room fits small
                        (omega (arith, shorter, enough)) k')
                | inr free ↦ rw (f, evict, free) ((k, free))
              ]
        ]

  replace-IsCounted :
      (tx : Transaction) (p : Mempool) {after : Mempool}
      → replace crates tx p ≡ ok after
      → p.total_bytes ≡ sum_sizes p.transactions
      → IsCounted p.max_transactions p.max_bytes after
  unfolding replace
  replace-IsCounted tx p {after} h counted =
      elim (Option-cases (get (tx.from, tx.nonce) p.sender_nonce)) [
        | inl nothing ↦
            let found : ok p ≡ ok after = rw (nothing, replace) at h in
            let same : p ≡ after = cc found in
            rw (← same) (record { bytes = counted; same_count = refl; same_bytes = refl })
        | inr (previous_id, known) ↦
            let (i, _, h1) =
              >>=-eq-ok (ok_or (position_of crates previous_id p.transactions) broken_index) _
                (rw (known, replace) at h) in
            let (previous, e, h2) =
              >>=-eq-ok (ok_or (get_elem? p.transactions i) broken_index) _ h1 in
            let (_, h3) = fail_if-eq-ok (ltb tx.fee (minimum_fee previous.fee)) _ _ h2 in
            let at_place : get_elem? p.transactions i ≡ some previous = ground (arith, e) in
            let sizes = sum_sizes-remove_elem p.transactions i previous at_place in
            let same : after ≡ record p {
              transactions = remove_elem i p.transactions;
              ids = Sets.remove previous_id p.ids;
              total_bytes = p.total_bytes - size_of crates previous;
            } =
              cc h3 in
            rw same (record {
              bytes = omega (arith, counted, sizes);
              same_count = refl;
              same_bytes = refl;
            })
      ]

  push-IsWithin :
      (tx : Transaction) (p : Mempool) (n b : ℕ)
      → IsCounted n b p
      → is_full crates (size_of crates tx) p ≡ false
      → 1 ≤ n
      → b < u64_max
      → IsWithin (push crates tx p)
  unfolding push
  push-IsWithin tx p n b k free room small = record {
    bytes = ground (arith, free, k.bytes, k.same_bytes, sum_sizes-append_one p.transactions tx);
    few = ground (arith, free, k.same_count, length-append p.transactions (tx ∷ []));
    small = ground (arith, free, k.same_bytes);
    room = ground (arith, k.same_count);
    representable = ground (arith, k.same_bytes);
  }

  last-In : {A : Type 0} (xs : List A) (x : A) → In x (xs ++ x ∷ [])
  last-In [] x = inl refl
  last-In (y ∷ xs) x = inr (last-In xs x)

  -- If a pool counts its bytes and is within its limits (at least one transaction, and fewer bytes
  -- than the greatest usize), and a transaction is added with success, then it is in the pool, and
  -- the pool still counts its bytes and is within its limits.
  pub added_transaction_fits :
      (tx : Transaction) (p : Mempool) {after : Mempool}
      → add crates tx p ≡ ok after
      → IsWithin p
      → IsWithin after × In tx after.transactions
  unfolding add push
  added_transaction_fits tx p {after} h k =
      let size = size_of crates tx in
      let (_, h1) = fail_if-eq-ok (contains (transaction_id crates tx) p.ids) _ _ h in
      let (fits, h2) = fail_if-eq-ok (ltb p.max_bytes size) _ _ h1 in
      let (p', r, h3) = >>=-eq-ok (replace crates tx p) _ h2 in
      let c = replace-IsCounted tx p r k.bytes in
      let (c', free) =
        evict-IsCounted p.max_transactions p.max_bytes (length p'.transactions) size p' k.room
          (ground (arith, fits)) k.representable (omega arith) c in
      let room = evict crates (length p'.transactions) size p' in
      let same : after ≡ push crates tx room = cc h3 in
      (
        rw same
            (push-IsWithin tx room p.max_transactions p.max_bytes c' free k.room k.representable),
        rw same (last-In room.transactions tx),
      )
