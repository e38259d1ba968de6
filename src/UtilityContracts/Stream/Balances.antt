-- ===== src/UtilityContracts/Stream/Balances.antt =====
-- What the payer and the provider do with the balances of a stream, of lib.rs.
use utility_contracts.Base.{
  ℕ, ℤ, pos, ◌&&◌, ◌||◌, Option, none, some, put, unwrap_or, ltb_ℤ, leb_ℤ, eqb_ℤ, if◌then◌else◌,
  saturating_add, saturating_sub, ◌>>=◌, ◌>>◌, gets, modify, pure, panic_if, or_panic,
}
use utility_contracts.UtilityContracts.Errors.{
  invalid_token_amount, buffer_already_depleted, insufficient_buffer, protocol_fee_vault_not_set,
}
use utility_contracts.UtilityContracts.Stream.Types.{
  active, depleted, ContinuousFlow, State, Env, Action, require_auth, publish, store_flow,
  is_active, is_depleted, buf_refnd, buf_added, bal_added, withdraw, fee_swept,
}
use utility_contracts.UtilityContracts.Stream.Fleet.{
  fleet_apply_delta, neg, get_continuous_flow_or_panic, call_transfer,
}
use utility_contracts.UtilityContracts.Stream.Update.{
  update_continuous_flow, buffer_warning_threshold, updated,
}

-- The refund is paid in the contract's own address as the token.
unfoldable pub refund_buffer : Env → (stream_id : ℕ) → Action ℤ
refund_buffer env stream_id = do
  flow ← get_continuous_flow_or_panic stream_id
  panic_if (is_depleted flow.status) buffer_already_depleted
  let buffer_amount = flow.buffer_balance
  panic_if (leb_ℤ buffer_amount (pos 0)) insufficient_buffer
  modify (store_flow stream_id (record flow { buffer_balance = pos 0; status = depleted }))
  call_transfer env (record {
    token = env.current_contract;
    from = env.current_contract;
    to = flow.payer;
    amount = buffer_amount;
  })
  modify (publish (buf_refnd stream_id buffer_amount flow.payer))
  pure buffer_amount

abbrev pub with_buffer : ContinuousFlow → ℤ → ContinuousFlow
with_buffer flow additional_buffer = record flow {
  buffer_balance = saturating_add flow.buffer_balance additional_buffer;
  buffer_warning_sent =
      flow.buffer_warning_sent && ltb_ℤ additional_buffer buffer_warning_threshold;
}

-- `add_buffer_to_stream`, unwrapped.
unfoldable pub add_continuous_buffer : Env → (stream_id : ℕ) → ℤ → Action (Unit {0})
unfolding update_continuous_flow
add_continuous_buffer env stream_id additional_buffer = do
  panic_if (leb_ℤ additional_buffer (pos 0)) invalid_token_amount
  flow ← get_continuous_flow_or_panic stream_id
  require_auth env flow.payer
  charged ← updated env flow
  modify (store_flow stream_id (with_buffer charged additional_buffer))
  modify (publish (buf_added stream_id additional_buffer))

abbrev pub with_balance : ContinuousFlow → ℤ → ContinuousFlow
with_balance flow additional_balance =
    let balance = saturating_add flow.accumulated_balance additional_balance in
    record flow {
      accumulated_balance = balance;
      status =
          if (ltb_ℤ (pos 0) balance || ltb_ℤ (pos 0) flow.buffer_balance)
            && ltb_ℤ (pos 0) flow.flow_rate_per_second
          then active
          else flow.status;
    }

-- `add_balance_to_flow`, unwrapped.
unfoldable pub add_continuous_balance : Env → (stream_id : ℕ) → ℤ → Action (Unit {0})
unfolding update_continuous_flow
add_continuous_balance env stream_id additional_balance = do
  panic_if (leb_ℤ additional_balance (pos 0)) invalid_token_amount
  flow ← get_continuous_flow_or_panic stream_id
  charged ← updated env flow
  modify (store_flow stream_id (with_balance charged additional_balance))
  modify (publish (bal_added stream_id additional_balance))

abbrev pub without_balance : ContinuousFlow → ℤ → ContinuousFlow
without_balance flow withdrawal_amount =
    let balance = saturating_sub flow.accumulated_balance withdrawal_amount in
    record flow {
      accumulated_balance = balance;
      status =
          if eqb_ℤ balance (pos 0) && eqb_ℤ flow.buffer_balance (pos 0)
          then depleted
          else flow.status;
    }

-- `withdraw_from_flow`, unwrapped.
unfoldable pub withdraw_continuous : Env → (stream_id : ℕ) → ℤ → Action ℤ
unfolding update_continuous_flow
withdraw_continuous env stream_id withdrawal_amount = do
  panic_if (leb_ℤ withdrawal_amount (pos 0)) invalid_token_amount
  flow ← get_continuous_flow_or_panic stream_id
  charged ← updated env flow
  panic_if (ltb_ℤ charged.accumulated_balance withdrawal_amount) invalid_token_amount
  modify (store_flow stream_id (without_balance charged withdrawal_amount))
  modify (publish (withdraw stream_id withdrawal_amount))
  pure withdrawal_amount

-- The part of `close_stream_amicably` that stops a stream which still flows; only then is the charged flow
-- stored.
abbrev pub stop_active : (stream_id : ℕ) → ContinuousFlow → State → State
stop_active stream_id flow s =
    if is_active flow.status && ltb_ℤ (pos 0) flow.flow_rate_per_second
    then store_flow stream_id (record flow { flow_rate_per_second = pos 0 })
        (fleet_apply_delta flow.provider (neg flow.flow_rate_per_second) s)
    else s

unfoldable pub close_stream_amicably : Env → (stream_id : ℕ) → Action ℤ
unfolding update_continuous_flow refund_buffer fleet_apply_delta
close_stream_amicably env stream_id = do
  flow ← get_continuous_flow_or_panic stream_id
  require_auth env flow.provider
  charged ← updated env flow
  modify (stop_active stream_id charged)
  refund_buffer env stream_id

unfoldable pub collect_streaming_fees : Env → (stream_id : ℕ) → Action ℤ
collect_streaming_fees env stream_id = do
  vault ← or_panic (← gets (λ s. s.protocol_fee_vault)) protocol_fee_vault_not_set
  accrued ← gets (λ s. unwrap_or (pos 0) (s.streaming_fee_accrued stream_id))
  if eqb_ℤ accrued (pos 0)
      then pure (pos 0)
      else (modify (λ s.
            publish (fee_swept stream_id accrued vault)
              (record s { streaming_fee_accrued = put stream_id (pos 0) s.streaming_fee_accrued }))
          >> pure accrued)

-- The buffer after a charge of a copy. The charge still writes what an update writes.
unfoldable pub get_buffer_balance : Env → (stream_id : ℕ) → State → Option ℤ × State
unfolding update_continuous_flow
get_buffer_balance env stream_id s = elim (s.flows stream_id) [
  | none ↦ (none, s)
  | some flow ↦
      let (deduction, copy, s') = update_continuous_flow env flow env.now s in
      (some copy.buffer_balance, s')
]
