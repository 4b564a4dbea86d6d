-- ===== src/Chain/Supply.antt =====
-- The supply: what src/chain.rs moves between accounts neither makes nor loses money.
use aah_chain.Base.{ℕ, ◌+◌, ◌-◌, ◌/◌, String, List, [], ◌∷◌, ◌≡◌, arith, ◌∙◌, not}
use aah_chain.Base.Tests.{eqb, ltb}
use aah_chain.Base.Keys.{◌==◌, string_eq, nat_eq}
use aah_chain.Base.Maps.{Map, insert, get_or_zero, sum_values, sum_values-insert}
use aah_chain.Base.Words.{u128_max, checked_add}
use aah_chain.Base.Outcome.{ok, ok_or, >>=-eq-ok, fail_if-eq-ok}
use aah_chain.Errors.{Error, total_overflow, receiver_overflow, producer_overflow}
use aah_chain.Types.{Transaction, Block, ScheduledEvent}
use aah_chain.Crates.{Crates}
use aah_chain.Chain.{
  Blockchain, credit_balance, transfer_from_foundation, transfer_all, transfers_of, apply_event,
  apply_system_events, foundation_share, move_balances, apply_transaction, apply_transactions,
  foundation_fee_address, check_signature,
}
use aah_chain.Chain.State.{
  execute, Ledger, apply_block, verify_and_rebuild, rebuild, ledger_of, first_ledger,
}
use aah_chain.Chain.Inversion.{apply_block-eq-ok, verify_and_rebuild-eq-ok, rebuild-eq-ok}
use aah_chain.Model.{genesis}
use aah_chain.Events.{validate_event}
use aah_chain.Base.Sets.{contains}

credit_balance-sum :
    (balances : Map String ℕ) (address : String) (amount : ℕ) (e : Error) {after : Map String ℕ}
    → credit_balance balances address amount e ≡ ok after
    → sum_values after ≡ sum_values balances + amount
unfolding credit_balance
credit_balance-sum balances address amount e h =
    ground (arith, sum_values-insert address (get_or_zero address balances + amount) balances)

transfer_from_foundation-sum :
    (balances : Map String ℕ) (receiver : String) (amount : ℕ) {after : Map String ℕ}
    → transfer_from_foundation balances receiver amount ≡ ok after
    → sum_values after ≡ sum_values balances
unfolding transfer_from_foundation
transfer_from_foundation-sum balances receiver amount h =
    let foundation = get_or_zero foundation_fee_address balances in
    let (enough, done) = fail_if-eq-ok (ltb foundation amount) _ _ h in
    ground (
      arith,
      sum_values-insert foundation_fee_address (foundation - amount) balances,
      credit_balance-sum _ _ amount _ done,
    )

transfer_all-sum :
    (ts : List (String × ℕ)) (balances : Map String ℕ) {after : Map String ℕ}
    → transfer_all ts balances ≡ ok after
    → sum_values after ≡ sum_values balances
unfolding transfer_all
transfer_all-sum [] balances h = ground arith
transfer_all-sum ((receiver, amount) ∷ ts) balances h =
    let (b, first, rest) = >>=-eq-ok (transfer_from_foundation balances receiver amount) _ h in
    transfer_all-sum ts b rest ∙ transfer_from_foundation-sum balances receiver amount first

-- The share of the foundation in a fee is a fifth of it, rounded down.
pub foundation_share-eq-ok :
    (fee : ℕ) {share : ℕ} → foundation_share fee ≡ ok share → share ≡ fee / 5
unfolding foundation_share
foundation_share-eq-ok fee h = ground arith

move_balances-sum :
    (tx : Transaction) (producer : String) (balances : Map String ℕ) {after : Map String ℕ}
    → move_balances tx producer balances ≡ ok after
    → sum_values after ≡ sum_values balances
unfolding move_balances
move_balances-sum tx producer balances h =
    let (total, t, h1) =
      >>=-eq-ok (ok_or (checked_add u128_max tx.amount tx.fee) total_overflow) _ h in
    let sender = get_or_zero tx.from balances in
    let (enough, h2) = fail_if-eq-ok (ltb sender total) _ _ h1 in
    let paid = insert tx.from (sender - total) balances in
    let (received, r, h3) =
      >>=-eq-ok (ok_or (checked_add u128_max (get_or_zero tx.to paid) tx.amount) receiver_overflow)
        _ h2 in
    let (share, f, h4) = >>=-eq-ok (foundation_share tx.fee) _ h3 in
    let (credited, c, h5) =
      >>=-eq-ok
        (credit_balance (insert tx.to received paid) producer (tx.fee - share) producer_overflow) _
        h4 in
    ground (
      arith,
      t,
      enough,
      r,
      sum_values-insert tx.from (sender - total) balances,
      sum_values-insert tx.to received paid,
      foundation_share-eq-ok tx.fee f,
      credit_balance-sum _ _ _ _ c,
      credit_balance-sum _ _ _ _ h5,
    )

module _ (crates : Crates) where
  apply_transactions-sum :
      (chain_id : ℕ) (txs : List Transaction) (producer : String) (balances nonces : Map String ℕ)
      {after : Map String ℕ × Map String ℕ}
      → apply_transactions crates chain_id txs producer balances nonces ≡ ok after
      → sum_values after.0 ≡ sum_values balances
  unfolding apply_transactions apply_transaction
  apply_transactions-sum chain_id [] producer balances nonces h = ground arith
  apply_transactions-sum chain_id (tx ∷ txs) producer balances nonces h =
      let (state, first, rest) =
        >>=-eq-ok (apply_transaction crates chain_id tx producer balances nonces) _ h in
      let (_, _, h1) = >>=-eq-ok (check_signature crates chain_id tx) _ first in
      let (_, h2) = fail_if-eq-ok (eqb tx.amount 0) _ _ h1 in
      let (_, h3) = fail_if-eq-ok (not (tx.nonce == get_or_zero tx.from nonces)) _ _ h2 in
      let (moved, m, h4) = >>=-eq-ok (move_balances tx producer balances) _ h3 in
      ground (
        arith,
        move_balances-sum tx producer balances m,
        apply_transactions-sum chain_id txs producer state.0 state.1 rest,
        h4,
      )

  apply_system_events-sum :
      (events : List ScheduledEvent) (timestamp : ℕ) (balances : Map String ℕ)
      (executed : List String) {after : Map String ℕ × List String}
      → apply_system_events crates events timestamp balances executed ≡ ok after
      → sum_values after.0 ≡ sum_values balances
  unfolding apply_system_events apply_event
  apply_system_events-sum [] timestamp balances executed h = ground arith
  apply_system_events-sum (event ∷ events) timestamp balances executed h =
      let (state, first, rest) =
        >>=-eq-ok (apply_event crates event timestamp balances executed) _ h in
      let (_, _, h1) = >>=-eq-ok (validate_event crates event) _ first in
      let (_, h2) = fail_if-eq-ok (ltb timestamp event.execute_at) _ _ h1 in
      let (_, h3) = fail_if-eq-ok (contains event.id executed) _ _ h2 in
      let (moved, m, h4) = >>=-eq-ok (transfer_all (transfers_of event.action) balances) _ h3 in
      ground (
        arith,
        transfer_all-sum (transfers_of event.action) balances m,
        apply_system_events-sum events timestamp state.0 state.1 rest,
        h4,
      )

  execute-sum :
      (chain_id : ℕ) (block : Block) (ledger : Ledger) {after : Ledger}
      → execute crates chain_id block ledger ≡ ok after
      → sum_values after.balances ≡ sum_values ledger.balances
  unfolding execute
  execute-sum chain_id block ledger h =
      let (moved, m, h1) =
        >>=-eq-ok
          (apply_transactions crates chain_id block.transactions block.producer ledger.balances
            ledger.nonces)
          _ h in
      let (settled, s, h2) =
        >>=-eq-ok
          (apply_system_events crates block.system_events block.timestamp moved.0 ledger.executed) _
          h1 in
      ground (
        arith,
        h2,
        apply_transactions-sum chain_id block.transactions block.producer ledger.balances
            ledger.nonces m,
        apply_system_events-sum block.system_events block.timestamp moved.0 ledger.executed s,
      )

  rebuild-sum :
      (chain_id : ℕ) (previous : Block) (blocks : List Block) (ledger : Ledger) {after : Ledger}
      → rebuild crates chain_id previous blocks ledger ≡ ok after
      → sum_values after.balances ≡ sum_values ledger.balances
  unfolding rebuild
  rebuild-sum chain_id previous [] ledger h = ground arith
  rebuild-sum chain_id previous (block ∷ blocks) ledger h =
      let (ledger', a) = rebuild-eq-ok crates chain_id previous block blocks ledger h in
      rebuild-sum chain_id block blocks ledger' a.rest
      ∙ execute-sum chain_id block ledger a.executed

  -- A block that is applied keeps the sum of all balances: transfers, fees, rewards and
  -- compensations only move money.
  pub applied_block_keeps_supply :
      (block : Block) (chain : Blockchain) {after : Blockchain}
      → apply_block crates block chain ≡ ok after
      → sum_values after.balances ≡ sum_values chain.balances
  applied_block_keeps_supply block chain h =
      let (previous, ledger, a) = apply_block-eq-ok crates block chain h in
      rw a.result (execute-sum chain.chain_id block (ledger_of chain) a.executed)

  -- A chain that is read back and rebuilt holds in its balances the sum of the initial balances.
  rebuilt_chain_has_initial_supply :
      (chain : Blockchain) {after : Blockchain}
      → verify_and_rebuild crates chain ≡ ok after
      → sum_values after.balances ≡ sum_values chain.initial_balances
  rebuilt_chain_has_initial_supply chain h =
      let (rest, ledger, a) = verify_and_rebuild-eq-ok crates chain h in
      rw a.result (rebuild-sum chain.chain_id (genesis crates) rest (first_ledger chain) a.rebuilt)
