-- ===== src/Mempool.antt =====
-- src/mempool.rs: the queue of transactions that wait for a block. `serde_json::to_vec` never fails
-- on a transaction, so its error path is left out; a `usize` has 64 bits.
pub mod Limits
mod Tests
use aah_chain.Base.{
  ℕ, zero, suc, ◌+◌, ◌-◌, ◌/◌, String, List, [], ◌∷◌, ◌++◌, Bool, true, false, Option, none, some,
  ◌≡◌, ◌||◌, ◌&&◌, max,
}
use aah_chain.Base.Tests.{if◌then◌else◌, eqb, leb, ltb}
use aah_chain.Base.Keys.{◌==◌, string_eq, nat_eq, pair_eq}
use aah_chain.Base.Lists.{length, get_elem?, take, keep}
use aah_chain.Base.Maps
use aah_chain.Base.Maps.{Map, get}
use aah_chain.Base.Sets
use aah_chain.Base.Sorting.{sort}
use aah_chain.Base.Words.{u64_max, u128_max, saturating_add}
use aah_chain.Base.Outcome.{Outcome, ok, err, ◌>>=◌, ◌>>◌, fail_if, ok_or}
use aah_chain.Errors.{Error, already_pooled, too_large, broken_index, low_replacement_fee}
use aah_chain.Types.{Transaction}
use aah_chain.Crates.{Crates}
use aah_chain.Model.{transaction_id}

pub record Mempool : Type 0 where
  pub transactions : List Transaction
  pub ids : List String
  pub sender_nonce : Map (String × ℕ) String
  pub total_bytes : ℕ
  pub max_transactions : ℕ
  pub max_bytes : ℕ

-- `with_limits`
unfoldable pub with_limits : ℕ → ℕ → Mempool
with_limits max_transactions max_bytes = record {
  transactions = [];
  ids = [];
  sender_nonce = [];
  total_bytes = 0;
  max_transactions = max max_transactions 1;
  max_bytes = max max_bytes 1;
}

-- `Vec::remove`
unfoldable pub remove_elem : {A : Type 0} → ℕ → List A → List A
remove_elem i [] = []
remove_elem zero (x ∷ xs) = xs
remove_elem (suc i) (x ∷ xs) = x ∷ remove_elem i xs

-- The place and the fee of the first transaction with the least fee: `min_by_key`.
unfoldable pub cheapest : List Transaction → Option (ℕ × ℕ)
cheapest [] = none
cheapest (tx ∷ txs) = elim (cheapest txs) [
  | none ↦ some (0, tx.fee)
  | some (i, fee) ↦ if leb tx.fee fee then some (0, tx.fee) else some (suc i, fee)
]

-- The order of `drain`: the higher fee first, then the lower nonce.
abbrev pub goes_first : Transaction → Transaction → Bool
goes_first a b = ltb b.fee a.fee || (eqb a.fee b.fee && leb a.nonce b.nonce)

-- `snapshot`
abbrev pub snapshot : ℕ → Mempool → List Transaction
snapshot max_count p = take max_count p.transactions

-- The least fee of a replacement: a tenth more, and at least one more.
unfoldable pub minimum_fee : ℕ → ℕ
minimum_fee fee = saturating_add u128_max fee (max (fee / 10) 1)

module _ (crates : Crates) where
  open crates use {transaction_json}

  abbrev pub size_of : Transaction → ℕ
  size_of tx = length (transaction_json tx)

  -- `remove_at`, the pool afterwards
  unfoldable pub remove_at : ℕ → Mempool → Mempool
  unfolding remove_elem
  remove_at position p = elim (get_elem? p.transactions position) [
    | none ↦ p
    | some tx ↦ record p {
      transactions = remove_elem position p.transactions;
      ids = Sets.remove (transaction_id crates tx) p.ids;
      sender_nonce = Maps.remove (tx.from, tx.nonce) p.sender_nonce;
      total_bytes = p.total_bytes - size_of tx;
    }
  ]

  -- `iter().position(|existing| existing.id() == id)`
  unfoldable pub position_of : String → List Transaction → Option ℕ
  position_of id [] = none
  position_of id (tx ∷ txs) =
      if transaction_id crates tx == id
      then some 0
      else elim (position_of id txs) [ none ↦ none | some i ↦ some (suc i) ]

  -- The pool without the transaction that `tx` replaces.
  unfoldable pub replace : Transaction → Mempool → Outcome Error Mempool
  unfolding position_of remove_elem minimum_fee
  replace tx p = elim (get (tx.from, tx.nonce) p.sender_nonce) [
    | none ↦ ok p
    | some previous_id ↦ (do
      position ← ok_or (position_of previous_id p.transactions) broken_index
      previous ← ok_or (get_elem? p.transactions position) broken_index
      fail_if (ltb tx.fee (minimum_fee previous.fee)) low_replacement_fee
      ok (record p {
        transactions = remove_elem position p.transactions;
        ids = Sets.remove previous_id p.ids;
        total_bytes = p.total_bytes - size_of previous;
      }))
  ]

  -- Is there no room for a transaction of this size.
  abbrev pub is_full : ℕ → Mempool → Bool
  is_full size p =
      leb p.max_transactions (length p.transactions)
      || ltb p.max_bytes (saturating_add u64_max p.total_bytes size)

  -- The loop of `add` that makes room. Each turn removes a transaction, so as many turns as there
  -- are transactions are enough.
  unfoldable pub evict : ℕ → ℕ → Mempool → Mempool
  unfolding remove_at cheapest
  evict zero size p = p
  evict (suc fuel) size p = elim (cheapest p.transactions) [
    | none ↦ p
    | some (position, fee) ↦
        let rest = evict fuel size (remove_at position p) in if is_full size p then rest else p
  ]

  -- The pool with the transaction at its end.
  unfoldable pub push : Transaction → Mempool → Mempool
  push tx p =
      let id = transaction_id crates tx in
      record p {
        transactions = p.transactions ++ tx ∷ [];
        ids = Sets.insert id p.ids;
        sender_nonce = Maps.insert (tx.from, tx.nonce) id p.sender_nonce;
        total_bytes = saturating_add u64_max p.total_bytes (size_of tx);
      }

  -- `add`
  unfoldable pub add : Transaction → Mempool → Outcome Error Mempool
  unfolding replace evict push
  add tx p = do
    fail_if (Sets.contains (transaction_id crates tx) p.ids) already_pooled
    fail_if (ltb p.max_bytes (size_of tx)) too_large
    p' ← replace tx p
    ok (push tx (evict (length p'.transactions) (size_of tx) p'))

  -- The loop of `drain`: the first transactions, and the pool without them.
  unfoldable pub drain_loop : ℕ → Mempool → List Transaction × Mempool
  unfolding remove_at
  drain_loop zero p = ([], p)
  drain_loop (suc n) p = elim p.transactions [
    | [] ↦ ([], p)
    | tx ∷ txs ↦ let rest = drain_loop n (remove_at 0 p) in (tx ∷ rest.0, rest.1)
  ]

  -- `drain`
  unfoldable pub drain : ℕ → Mempool → List Transaction × Mempool
  unfolding drain_loop
  drain max_count p =
      drain_loop max_count (record p { transactions = sort goes_first p.transactions })

  -- the loop of `retain_valid`
  unfoldable pub add_all : List Transaction → Mempool → Mempool
  unfolding add
  add_all [] p = p
  add_all (tx ∷ txs) p = add_all txs (elim (add tx p) [ ok p' ↦ p' | err e ↦ p ])

  -- `retain_valid`, for a test without state
  unfoldable pub retain_valid : (Transaction → Bool) → Mempool → Mempool
  unfolding add_all with_limits
  retain_valid valid p =
      add_all (keep valid p.transactions) (with_limits p.max_transactions p.max_bytes)
