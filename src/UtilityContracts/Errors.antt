-- ===== src/UtilityContracts/Errors.antt =====
-- The variants of `ContractError` in lib.rs that the modelled code raises, and what else aborts a call: a
-- failed `require_auth`, a call of another contract that panics, an `unwrap` or an arithmetic panic,
-- and a `panic!` with a message.

pub data ContractError : Type 0 where
  meter_not_found invalid_token_amount unauthorized_admin flow_rate_too_low flow_rate_too_high
        rate_limit_exceeded reentrancy_detected buffer_already_depleted insufficient_buffer
        fleet_cap_exceeded self_p2p_not_allowed public_key_mismatch protocol_fee_vault_not_set
        multi_sig_already_configured multi_sig_not_configured invalid_finance_wallet_count
        invalid_signature_threshold insufficient_approvals amount_below_multi_sig_threshold
        not_authorized_finance_wallet withdrawal_request_not_found withdrawal_already_executed
        withdrawal_already_cancelled withdrawal_request_expired already_approved_withdrawal
        not_approved_by_wallet price_conversion_failed invalid_reading_value duplicate_timestamp
        reading_delta_too_large invalid_signature invalid_device_mac unauthorized_device
        admin_execution_window_expired not_found not_initialized unauthorized_contributor in_dispute
        meter_not_paired firmware_update_in_progress timestamp_too_old invalid_usage_value
        usage_exceeds_limit already_voted challenge_not_found admin_transfer_active
        no_admin_transfer_in_progress veto_threshold_not_reached :
      ContractError
  not_authorized call_failed arithmetic message : ContractError
