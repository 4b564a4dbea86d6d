-- ===== src/Errors.antt =====
-- The error texts of the program, one constructor for each `Err(..)` of the modelled functions.
pub data Error : Type 0 where
  -- wallet.rs, account.rs
  address_not_hex address_length signature_not_hex signature_length bad_public_key bad_signature :
      Error
  account_signature_length bad_account_key account_address_mismatch bad_ecdsa_signature : Error
  -- raw_transaction.rs
  raw_not_hex raw_not_legacy raw_receiver_length raw_calldata raw_no_chain_id raw_wrong_chain
        raw_recovery_id raw_bad_scalars raw_no_key raw_fee_overflow raw_no_marker
        raw_field_mismatch :
      Error
  number_too_wide scalar_too_wide : Error
  rlp_trailing rlp_empty rlp_wrong_kind rlp_length_overflow rlp_too_long rlp_bad_length
        rlp_out_of_fuel :
      Error
  -- scheduled_event.rs, network.rs
  event_id event_time_zero payment_zero incident_empty protocol_version_zero bootstrap_reward_count
        bootstrap_reward_duplicate milestone_reward_count milestone_reward_duplicate
        distribution_count bad_address bad_reward_address duplicate_event schedule_mismatch :
      Error
  node_key_not_hex node_key_form peer_id_mismatch node_signature_not_hex node_signature : Error
  -- consensus.rs, consensus_era.rs
  proposal_height proposal_hash no_double_vote certificate_hash no_total_power
        certificate_mixed_votes certificate_unknown_validator power_overflow no_quorum no_validators
        bad_validator_set past_round propose_phase wrong_proposer empty_hash proposal_round
        unknown_proposer locked_on_other vote_round unknown_voter vote_phase double_vote other_block
        round_overflow :
      Error
  nil_value era_config height_overflow too_few_validators : Error
  -- chain.rs, genesis.rs
  checkpoint_hash no_transactions not_next_block block_hash event_early event_executed
        foundation_balance amount_zero nonce_mismatch total_overflow balance_too_low
        receiver_overflow fee_overflow producer_overflow foundation_overflow event_receiver_overflow
        genesis_block tampered_block broken_link no_last_block :
      Error
  -- account_security.rs
  no_account_keys bad_account_keys bad_threshold old_policy no_threshold low_weight recovery_early
        recovery_no_keys :
      Error
  -- mempool.rs
  already_pooled too_large broken_index low_replacement_fee : Error
  -- consensus_runtime.rs
  not_in_propose_phase not_our_turn time_before_previous time_in_future reward_set_mismatch
        reward_event_id event_already_run no_candidate candidate_mismatch ledger_mismatch
        no_canonical_block finality_violation height_gap not_finalized past_genesis :
      Error
  -- validator_policy.rs
  bad_stake_ratio bad_rank_limit bad_validator_count bad_uptime no_supply duplicate_candidate
        duplicate_stake_account candidate_id candidate_account candidate_country candidate_endpoint
        too_few_selected :
      Error
  -- consensus_wal.rs
  signed_other_block wal_write_failed wal_bad_line wal_double_vote : Error
  -- traffic_rewards.rs
  bad_slots bad_diversity_limits bad_bootstrap_limit bad_peer_uptime bad_epoch bad_pool_fee
        bad_reward_limits bad_minimum_uptime other_epoch self_relay empty_message short_uptime
        other_reward_address bad_node_address :
      Error
  -- governance.rs
  bad_reward_split vote_too_early not_a_validator : Error
  -- genesis.rs
  chain_id_zero genesis_validator_count genesis_validator block_bytes_limit active_bytes_limit :
      Error
  -- upgrade.rs
  same_upgrade_height unsupported_version : Error
