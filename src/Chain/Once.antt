-- ===== src/Chain/Once.antt =====
-- src/chain.rs: a transaction and a system event take effect at most once.
use aah_chain.Base.{
  ℕ, zero, suc, ◌+◌, ◌≤◌, ◌<◌, String, List, [], ◌∷◌, true, false, some, ◌≡◌, refl, arith, ◌||◌,
}
use aah_chain.Base.Tests.{if◌then◌else◌}
use aah_chain.Base.Keys.{◌==◌, string_eq, nat_eq}
use aah_chain.Base.Lists.{get_elem?}
use aah_chain.Base.Maps.{Map, insert, get_or_zero, get_or_zero-insert}
use aah_chain.Base.Sets
use aah_chain.Base.Sets.{contains, contains-insert, IsNodup}
use aah_chain.Base.Words.{u64_max, wrap}
use aah_chain.Base.Outcome.{ok}
use aah_chain.Types.{Transaction, Block, ScheduledEvent}
use aah_chain.Crates.{Crates}
use aah_chain.Chain.{Blockchain}
use aah_chain.Chain.State.{apply_blocks}
use aah_chain.Chain.History.{
  HasNonces, IsFresh, all_transactions, all_events, ids_of, apply_blocks-eq-ok,
}

-- An event that has run does not run again.
IsFresh-contains :
    (executed after : List String) (es : List ScheduledEvent) (id : String)
    → IsFresh executed es after
    → contains id executed ≡ true
    → contains id (ids_of es) ≡ false
unfolding contains
IsFresh-contains executed after [] id h c = refl
IsFresh-contains executed after (e ∷ es) id h c = ground (
  arith,
  h.0,
  IsFresh-contains (Sets.insert e.id executed) after es id h.1,
  contains-insert e.id id executed,
  string_eq.beq_iff e.id id,
)

IsFresh-IsNodup :
    (executed after : List String) (es : List ScheduledEvent)
    → IsFresh executed es after
    → IsNodup (ids_of es)
IsFresh-IsNodup executed after [] h = tt
IsFresh-IsNodup executed after (e ∷ es) h = (
  IsFresh-contains (Sets.insert e.id executed) after es e.id h.1
      (ground (arith, contains-insert e.id e.id executed, string_eq.beq_iff e.id e.id)),
  IsFresh-IsNodup (Sets.insert e.id executed) after es h.1,
)

-- What has run afterwards.
contains-IsFresh :
    (executed after : List String) (es : List ScheduledEvent) (id : String)
    → IsFresh executed es after
    → contains id after ≡ (contains id (ids_of es) || contains id executed)
unfolding contains
contains-IsFresh executed after [] id h = ground arith
contains-IsFresh executed after (e ∷ es) id h = ground (
  arith,
  contains-IsFresh (Sets.insert e.id executed) after es id h.1,
  contains-insert e.id id executed,
)

module _ (crates : Crates) where
  -- If blocks are applied to a chain with success, no id stands twice among their system events, no
  -- event had run before, and afterwards exactly the earlier events and those of the blocks have
  -- run.
  pub events_run_once :
      (blocks : List Block) (chain : Blockchain) {after : Blockchain}
      → apply_blocks crates blocks chain ≡ ok after
      → IsNodup (ids_of (all_events blocks))
        × ((id : String)
            → contains id chain.executed_events ≡ true
            → contains id (ids_of (all_events blocks)) ≡ false)
        × ((id : String)
            → contains id after.executed_events
              ≡ (contains id (ids_of (all_events blocks)) || contains id chain.executed_events))
  events_run_once blocks chain {after} h =
      let f = (apply_blocks-eq-ok crates blocks chain h).1 in
      let es = all_events blocks in
      (
        IsFresh-IsNodup chain.executed_events after.executed_events es f,
        λ id. IsFresh-contains chain.executed_events after.executed_events es id f,
        λ id. contains-IsFresh chain.executed_events after.executed_events es id f,
      )

-- the number of transactions of an account
abbrev pub count_from : String → List Transaction → ℕ
count_from address [] = 0
count_from address (tx ∷ txs) = (if tx.from == address then 1 else 0) + count_from address txs

-- The nonce of an account goes up by the number of its transactions.
HasNonces-count :
    (address : String) (nonces after : Map String ℕ) (txs : List Transaction)
    → HasNonces nonces txs after
    → get_or_zero address nonces + count_from address txs ≤ u64_max
    → get_or_zero address after ≡ get_or_zero address nonces + count_from address txs
HasNonces-count address nonces after [] h fits = ground arith
HasNonces-count address nonces after (tx ∷ txs) h fits =
    let next = wrap u64_max (get_or_zero tx.from nonces + 1) in
    ground (
      arith,
      HasNonces-count address (insert tx.from next nonces) after txs h.1,
      get_or_zero-insert tx.from address next nonces,
      string_eq.beq_iff tx.from address,
    )

-- A transaction at any place has a nonce from the one that the map expects on.
HasNonces-get_elem? :
    (nonces after : Map String ℕ) (txs : List Transaction) (i : ℕ) (tx : Transaction)
    → HasNonces nonces txs after
    → get_elem? txs i ≡ some tx
    → get_or_zero tx.from nonces + count_from tx.from txs ≤ u64_max
    → get_or_zero tx.from nonces ≤ tx.nonce
HasNonces-get_elem? nonces after [] i tx h e fits = cc
HasNonces-get_elem? nonces after (t ∷ txs) zero tx h e fits = ground arith
HasNonces-get_elem? nonces after (t ∷ txs) (suc i) tx h e fits =
    let next = wrap u64_max (get_or_zero t.from nonces + 1) in
    ground (
      arith,
      HasNonces-get_elem? (insert t.from next nonces) after txs i tx h.1 e,
      get_or_zero-insert t.from tx.from next nonces,
      string_eq.beq_iff t.from tx.from,
    )

-- Of two transactions of one account the later one has the greater nonce.
HasNonces-order :
    (nonces after : Map String ℕ) (txs : List Transaction) (i j : ℕ) (a b : Transaction)
    → HasNonces nonces txs after
    → get_elem? txs i ≡ some a
    → get_elem? txs j ≡ some b
    → i < j
    → a.from ≡ b.from
    → get_or_zero a.from nonces + count_from a.from txs ≤ u64_max
    → a.nonce < b.nonce
HasNonces-order nonces after [] i j a b h ea eb lt same fits = cc
HasNonces-order nonces after (t ∷ txs) i zero a b h ea eb lt same fits = ground arith
HasNonces-order nonces after (t ∷ txs) zero (suc j) a b h ea eb lt same fits =
    let next = wrap u64_max (get_or_zero t.from nonces + 1) in
    ground (
      arith,
      h.0,
      HasNonces-get_elem? (insert t.from next nonces) after txs j b h.1 eb,
      get_or_zero-insert t.from b.from next nonces,
      string_eq.beq_iff t.from b.from,
      string_eq.beq_iff t.from a.from,
    )
HasNonces-order nonces after (t ∷ txs) (suc i) (suc j) a b h ea eb lt same fits =
    let next = wrap u64_max (get_or_zero t.from nonces + 1) in
    ground (
      arith,
      HasNonces-order (insert t.from next nonces) after txs i j a b h.1 ea eb,
      get_or_zero-insert t.from a.from next nonces,
      string_eq.beq_iff t.from a.from,
    )

module _ (crates : Crates) where
  -- If blocks are applied to a chain with success, and the nonce of an account and the number of
  -- its transactions in them fit a u64, then its nonce goes up by that number.
  nonce_counts_transactions :
      (blocks : List Block) (chain : Blockchain) (address : String) {after : Blockchain}
      → apply_blocks crates blocks chain ≡ ok after
      → get_or_zero address chain.next_nonces + count_from address (all_transactions blocks)
        ≤ u64_max
      → get_or_zero address after.next_nonces
        ≡ get_or_zero address chain.next_nonces + count_from address (all_transactions blocks)
  nonce_counts_transactions blocks chain address {after} h fits =
      HasNonces-count address chain.next_nonces after.next_nonces (all_transactions blocks)
        (apply_blocks-eq-ok crates blocks chain h).0 fits

  -- If blocks are applied to a chain with success, then of two transactions of one account, in one
  -- block or in two, the later one has the greater nonce, so that none is executed twice; the nonce
  -- of the account and the number of its transactions must fit a u64.
  pub no_transaction_is_replayed :
      (blocks : List Block) (chain : Blockchain) (i j : ℕ) (a b : Transaction) {after : Blockchain}
      → apply_blocks crates blocks chain ≡ ok after
      → get_elem? (all_transactions blocks) i ≡ some a
      → get_elem? (all_transactions blocks) j ≡ some b
      → i < j
      → a.from ≡ b.from
      → get_or_zero a.from chain.next_nonces + count_from a.from (all_transactions blocks) ≤ u64_max
      → a.nonce < b.nonce
  no_transaction_is_replayed blocks chain i j a b {after} h =
      HasNonces-order chain.next_nonces after.next_nonces (all_transactions blocks) i j a b
        (apply_blocks-eq-ok crates blocks chain h).0
