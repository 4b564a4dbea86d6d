-- ===== src/Mempool/Tests.antt =====
-- A small pool, and the theorem of src/mempool.rs applied to it.
use aah_chain.Base.{ℕ, String, [], ◌∷◌, ◌≡◌, refl, arith}
use aah_chain.Base.Keys.{string_eq, nat_eq, pair_eq}
use aah_chain.Base.Maps
use aah_chain.Base.Maps.{get}
use aah_chain.Base.Sets
use aah_chain.Base.Sets.{In, contains}
use aah_chain.Base.Bytes.{be_bytes, as_bytes}
use aah_chain.Base.Outcome.{ok, err}
use aah_chain.Types.{Transaction}
use aah_chain.Crates.{Crates}
use aah_chain.Model.{transaction_id}
use aah_chain.Mempool.{Mempool, with_limits, add}
use aah_chain.Mempool.Limits.{IsWithin, added_transaction_fits}
use aah_chain.Consensus.Tests.{toy}

-- Three bytes for each transaction.
abbrev crates : Crates
crates = record toy { transaction_json = λ tx. 1 ∷ 2 ∷ 3 ∷ [] }

abbrev payment : String → ℕ → Transaction
payment signature fee = record {
  from = "alice";
  to = "bob";
  amount = 1;
  fee = fee;
  nonce = 0;
  signature = signature;
}

abbrev empty : Mempool
empty = with_limits 1 10

abbrev one : Mempool
one = elim (add crates (payment "a" 10) empty) [ ok p ↦ p | err e ↦ empty ]

-- The second payment has the nonce of the first, and replaces it.
abbrev two : Mempool
two = elim (add crates (payment "b" 11) one) [ ok p ↦ p | err e ↦ empty ]

payments_are_added :
    (add crates (payment "a" 10) empty ≡ ok one) × (add crates (payment "b" 11) one ≡ ok two)
unfolding add get contains transaction_id with_limits Sets.insert be_bytes as_bytes Maps.insert
payments_are_added = (refl, refl)

empty-IsWithin : IsWithin crates empty
unfolding with_limits
empty-IsWithin = record {
  bytes = refl;
  few = omega arith;
  small = omega arith;
  room = omega arith;
  representable = omega arith;
}

added_transaction_fits_example : IsWithin crates two × In (payment "b" 11) two.transactions
added_transaction_fits_example =
    added_transaction_fits crates (payment "b" 11) one payments_are_added.1
      (added_transaction_fits crates (payment "a" 10) empty payments_are_added.0 empty-IsWithin).0
