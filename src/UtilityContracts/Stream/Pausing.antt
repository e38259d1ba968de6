-- ===== src/UtilityContracts/Stream/Pausing.antt =====
-- `pause_stream` and `resume_stream` of lib.rs, which return an error with the state that they leave.
use utility_contracts.Base.{
  ℕ, ◌-◌, ℤ, pos, Bool, true, false, not, ◌&&◌, put, remove, unwrap_or, ◌==◌, ltb_ℤ, eqb_ℤ,
  if◌then◌else◌, Result, ok, err, ◌>>=◌, ◌>>◌, modify, pure, panic_if,
}
use utility_contracts.UtilityContracts.Errors.{
  ContractError, invalid_token_amount, unauthorized_admin, flow_rate_too_low, flow_rate_too_high,
  reentrancy_detected,
}
use utility_contracts.UtilityContracts.Stream.Types.{
  active, paused, depleted, ContinuousFlow, State, Env, Action, publish, store_flow, is_active,
  is_paused, strm_pasd, strm_resum,
}
use utility_contracts.UtilityContracts.Stream.Fleet.{
  fleet_apply_delta, fleet_assert_room_for_new_stream, neg, get_continuous_flow_or_panic,
}
use utility_contracts.UtilityContracts.Stream.Update.{update_continuous_flow, updated}
use utility_contracts.UtilityContracts.Stream.Creation.{
  min_flow_rate_per_second, max_flow_rate_per_second,
}

abbrev pub locked : (stream_id : ℕ) → State → Bool
locked stream_id s = unwrap_or false (s.reentrancy_guard stream_id)

abbrev pub lock : (stream_id : ℕ) → State → State
lock stream_id s = record s { reentrancy_guard = put stream_id true s.reentrancy_guard }

abbrev pub unlock : (stream_id : ℕ) → State → State
unlock stream_id s = record s { reentrancy_guard = remove stream_id s.reentrancy_guard }

-- An error that is returned, with the guard removed.
abbrev refuse : (stream_id : ℕ) → ContractError → Action (Result ContractError (Unit {0}))
refuse stream_id e s = ok (err e, unlock stream_id s)

abbrev pub stopped : Env → ContinuousFlow → ContinuousFlow
stopped env flow = record flow {
  status = paused;
  paused_at = env.now;
  flow_rate_per_second = pos 0;
}

abbrev pause_active :
    Env → (stream_id provider : ℕ) → ContinuousFlow → Action (Result ContractError (Unit {0}))
pause_active env stream_id provider flow = do
  charged ← updated env flow
  modify (store_flow stream_id (stopped env charged))
  modify (fleet_apply_delta charged.provider (neg charged.flow_rate_per_second))
  modify (publish (strm_pasd stream_id env.now provider charged.accumulated_balance))
  modify (unlock stream_id)
  pure (ok tt)

abbrev pause_unlocked : Env → (stream_id provider : ℕ) → Action (Result ContractError (Unit {0}))
pause_unlocked env stream_id provider = do
  modify (lock stream_id)
  flow ← get_continuous_flow_or_panic stream_id
  panic_if (not (flow.provider == provider)) unauthorized_admin
  if is_active flow.status
      then pause_active env stream_id provider flow
      else refuse stream_id invalid_token_amount

unfoldable pub pause_stream :
    Env → (stream_id provider : ℕ) → Action (Result ContractError (Unit {0}))
unfolding update_continuous_flow fleet_apply_delta
pause_stream env stream_id provider s =
    if locked stream_id s
    then ok (err reentrancy_detected, s)
    else pause_unlocked env stream_id provider s

abbrev pub restarted : Env → ContinuousFlow → ℤ → ContinuousFlow
restarted env flow rate = record flow {
  status = active;
  flow_rate_per_second = rate;
  last_flow_timestamp = env.now;
  paused_at = 0;
}

abbrev resume_paused :
    Env
    → (stream_id : ℕ) → ℤ
    → (provider : ℕ) → ContinuousFlow
    → Action (Result ContractError (Unit {0}))
resume_paused env stream_id new_flow_rate provider flow = do
  fleet_assert_room_for_new_stream flow.provider new_flow_rate
  modify (store_flow stream_id (restarted env flow new_flow_rate))
  modify (fleet_apply_delta flow.provider new_flow_rate)
  modify (publish (strm_resum stream_id env.now provider new_flow_rate (env.now - flow.paused_at)))
  modify (unlock stream_id)
  pure (ok tt)

-- A paused stream with nothing left is stored as depleted, and the error is returned.
abbrev resume_or_deplete :
    Env
    → (stream_id : ℕ) → ℤ
    → (provider : ℕ) → ContinuousFlow
    → Action (Result ContractError (Unit {0}))
resume_or_deplete env stream_id new_flow_rate provider flow =
    if eqb_ℤ flow.accumulated_balance (pos 0) && eqb_ℤ flow.buffer_balance (pos 0)
    then (modify (store_flow stream_id (record flow { status = depleted }))
        >> refuse stream_id invalid_token_amount)
    else resume_paused env stream_id new_flow_rate provider flow

abbrev pub resume_unlocked :
    Env → (stream_id : ℕ) → ℤ → (provider : ℕ) → Action (Result ContractError (Unit {0}))
resume_unlocked env stream_id new_flow_rate provider = do
  modify (lock stream_id)
  flow ← get_continuous_flow_or_panic stream_id
  panic_if (not (flow.provider == provider)) unauthorized_admin
  if is_paused flow.status
      then resume_or_deplete env stream_id new_flow_rate provider flow
      else refuse stream_id invalid_token_amount

-- `validate_flow_rate` returns its error before anything is written, and leaves no rate below 1.
unfoldable pub resume_stream :
    Env → (stream_id : ℕ) → ℤ → (provider : ℕ) → Action (Result ContractError (Unit {0}))
unfolding fleet_apply_delta fleet_assert_room_for_new_stream
resume_stream env stream_id new_flow_rate provider s =
    if ltb_ℤ new_flow_rate min_flow_rate_per_second
    then ok (err flow_rate_too_low, s)
    else if ltb_ℤ max_flow_rate_per_second new_flow_rate
    then ok (err flow_rate_too_high, s)
    else if locked stream_id s
    then ok (err reentrancy_detected, s)
    else resume_unlocked env stream_id new_flow_rate provider s
