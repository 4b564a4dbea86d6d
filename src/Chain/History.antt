-- ===== src/Chain/History.antt =====
-- src/chain.rs: what blocks that are applied do to the nonces and the executed events.
use aah_chain.Base.{ℕ, ◌+◌, String, List, [], ◌∷◌, ◌++◌, false, ◌≡◌, arith, not, map}
use aah_chain.Base.Tests.{eqb, ltb}
use aah_chain.Base.Keys.{◌==◌, string_eq, nat_eq}
use aah_chain.Base.Maps.{Map, insert, get_or_zero}
use aah_chain.Base.Sets
use aah_chain.Base.Sets.{contains, contains-insert, IsNodup}
use aah_chain.Base.Words.{u64_max, wrap}
use aah_chain.Base.Outcome.{ok, >>=-eq-ok, fail_if-eq-ok}
use aah_chain.Types.{Transaction, Block, ScheduledEvent}
use aah_chain.Crates.{Crates}
use aah_chain.Events.{validate_event}
use aah_chain.Chain.{
  Blockchain, check_signature, move_balances, apply_transaction, apply_transactions, transfer_all,
  transfers_of, apply_event, apply_system_events,
}
use aah_chain.Chain.State.{Ledger, execute, apply_block, apply_blocks, ledger_of}
use aah_chain.Chain.Inversion.{apply_block-eq-ok}

-- Each transaction has the nonce that the map expects, which then goes up.
abbrev pub HasNonces : Map String ℕ → List Transaction → Map String ℕ → Type 0
HasNonces nonces [] after = after ≡ nonces
HasNonces nonces (tx ∷ txs) after =
    (tx.nonce ≡ get_or_zero tx.from nonces)
    × HasNonces (insert tx.from (wrap u64_max (get_or_zero tx.from nonces + 1)) nonces) txs after

HasNonces-append :
    (nonces middle after : Map String ℕ) (txs txs' : List Transaction)
    → HasNonces nonces txs middle
    → HasNonces middle txs' after
    → HasNonces nonces (txs ++ txs') after
HasNonces-append nonces middle after [] txs' h k = rw (← h) k
HasNonces-append nonces middle after (tx ∷ txs) txs' h k = (
  h.0,
  HasNonces-append (insert tx.from (wrap u64_max (get_or_zero tx.from nonces + 1)) nonces) middle
      after txs txs' h.1 k,
)

-- Each event is new when it runs, and is then among those that have run.
abbrev pub IsFresh : List String → List ScheduledEvent → List String → Type 0
IsFresh executed [] after = after ≡ executed
IsFresh executed (event ∷ events) after =
    (contains event.id executed ≡ false) × IsFresh (Sets.insert event.id executed) events after

IsFresh-append :
    (executed middle after : List String) (es es' : List ScheduledEvent)
    → IsFresh executed es middle
    → IsFresh middle es' after
    → IsFresh executed (es ++ es') after
IsFresh-append executed middle after [] es' h k = rw (← h) k
IsFresh-append executed middle after (e ∷ es) es' h k =
    (h.0, IsFresh-append (Sets.insert e.id executed) middle after es es' h.1 k)

-- all transactions, and all events, of a list of blocks
abbrev pub all_transactions : List Block → List Transaction
all_transactions [] = []
all_transactions (b ∷ bs) = b.transactions ++ all_transactions bs

abbrev pub all_events : List Block → List ScheduledEvent
all_events [] = []
all_events (b ∷ bs) = b.system_events ++ all_events bs

abbrev pub ids_of : List ScheduledEvent → List String
ids_of es = map (λ (e : ScheduledEvent). e.id) es

module _ (crates : Crates) where
  apply_transactions-HasNonces :
      (chain_id : ℕ) (txs : List Transaction) (producer : String) (balances nonces : Map String ℕ)
      {after : Map String ℕ × Map String ℕ}
      → apply_transactions crates chain_id txs producer balances nonces ≡ ok after
      → HasNonces nonces txs after.1
  unfolding apply_transactions apply_transaction
  apply_transactions-HasNonces chain_id [] producer balances nonces h = ground arith
  apply_transactions-HasNonces chain_id (tx ∷ txs) producer balances nonces {after} h =
      let (state, first, rest) =
        >>=-eq-ok (apply_transaction crates chain_id tx producer balances nonces) _ h in
      let (_, _, h1) = >>=-eq-ok (check_signature crates chain_id tx) _ first in
      let (_, h2) = fail_if-eq-ok (eqb tx.amount 0) _ _ h1 in
      let (n, h3) = fail_if-eq-ok (not (tx.nonce == get_or_zero tx.from nonces)) _ _ h2 in
      let (moved, m, h4) = >>=-eq-ok (move_balances tx producer balances) _ h3 in
      let next : state.1 ≡ insert tx.from (wrap u64_max (get_or_zero tx.from nonces + 1)) nonces =
        cc h4 in
      let later : HasNonces state.1 txs after.1 =
        apply_transactions-HasNonces chain_id txs producer state.0 state.1 rest in
      (ground arith, rw (← next) later)

  apply_system_events-IsFresh :
      (events : List ScheduledEvent) (timestamp : ℕ) (balances : Map String ℕ)
      (executed : List String) {after : Map String ℕ × List String}
      → apply_system_events crates events timestamp balances executed ≡ ok after
      → IsFresh executed events after.1
  unfolding apply_system_events apply_event
  apply_system_events-IsFresh [] timestamp balances executed h = ground arith
  apply_system_events-IsFresh (event ∷ events) timestamp balances executed {after} h =
      let (state, first, rest) =
        >>=-eq-ok (apply_event crates event timestamp balances executed) _ h in
      let (_, _, h1) = >>=-eq-ok (validate_event crates event) _ first in
      let (_, h2) = fail_if-eq-ok (ltb timestamp event.execute_at) _ _ h1 in
      let (n, h3) = fail_if-eq-ok (contains event.id executed) _ _ h2 in
      let (moved, m, h4) = >>=-eq-ok (transfer_all (transfers_of event.action) balances) _ h3 in
      let next : state.1 ≡ Sets.insert event.id executed = cc h4 in
      let later : IsFresh state.1 events after.1 =
        apply_system_events-IsFresh events timestamp state.0 state.1 rest in
      (n, rw (← next) later)

  -- What one block does to the nonces and the executed events.
  execute-eq-ok :
      (chain_id : ℕ) (block : Block) (ledger : Ledger) {after : Ledger}
      → execute crates chain_id block ledger ≡ ok after
      → HasNonces ledger.nonces block.transactions after.nonces
        × IsFresh ledger.executed block.system_events after.executed
  unfolding execute
  execute-eq-ok chain_id block ledger {after} h =
      let (moved, m, h1) =
        >>=-eq-ok
          (apply_transactions crates chain_id block.transactions block.producer ledger.balances
            ledger.nonces)
          _ h in
      let (settled, s, h2) =
        >>=-eq-ok
          (apply_system_events crates block.system_events block.timestamp moved.0 ledger.executed) _
          h1 in
      let nonces : after.nonces ≡ moved.1 = cc h2 in
      let events : after.executed ≡ settled.1 = cc h2 in
      (
        rw nonces (
            apply_transactions-HasNonces chain_id block.transactions block.producer ledger.balances
              ledger.nonces m),
        rw events (
            apply_system_events-IsFresh block.system_events block.timestamp moved.0 ledger.executed
              s),
      )

  pub apply_blocks-eq-ok :
      (blocks : List Block) (chain : Blockchain) {after : Blockchain}
      → apply_blocks crates blocks chain ≡ ok after
      → HasNonces chain.next_nonces (all_transactions blocks) after.next_nonces
        × IsFresh chain.executed_events (all_events blocks) after.executed_events
  unfolding apply_blocks
  apply_blocks-eq-ok [] chain h = ground arith
  apply_blocks-eq-ok (block ∷ blocks) chain {after} h =
      let (chain', first, later) = >>=-eq-ok (apply_block crates block chain) _ h in
      let (previous, ledger, a) = apply_block-eq-ok crates block chain first in
      let (n, e) = execute-eq-ok chain.chain_id block (ledger_of chain) a.executed in
      let (ns, es) = apply_blocks-eq-ok blocks chain' later in
      let nonces : chain'.next_nonces ≡ ledger.nonces = cc (a.result) in
      let events : chain'.executed_events ≡ ledger.executed = cc (a.result) in
      (
        HasNonces-append chain.next_nonces ledger.nonces after.next_nonces block.transactions
            (all_transactions blocks) n (rw (← nonces) ns),
        IsFresh-append chain.executed_events ledger.executed after.executed_events
            block.system_events (all_events blocks) e (rw (← events) es),
      )
