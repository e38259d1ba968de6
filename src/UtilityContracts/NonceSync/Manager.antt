-- ===== src/UtilityContracts/NonceSync/Manager.antt =====
-- `NonceSyncManager`. A validation whose error the source passes on by `?` aborts with it.
use utility_contracts.Base.{
  ℕ, ◌+◌, ◌-◌, ◌%◌, ◌^◌, Bool, true, false, not, ◌||◌, Option, List, [], ◌∷◌, ◌++◌, put, unwrap_or,
  is_some, ltb, leb, ◌==◌, if◌then◌else◌, ◌>>=◌, ◌>>◌, gets, modify, panic_if, ok,
}
use utility_contracts.UtilityContracts.Errors.{
  invalid_signature, invalid_device_mac, unauthorized_device, admin_execution_window_expired,
  already_approved_withdrawal,
}
use utility_contracts.UtilityContracts.NonceSync.Types.{
  NonceAlertType, old_nonce, future_nonce, out_of_order, DeviceNonceState, NonceResetRequest,
  SignedHeartbeat, State, Env, Action, publish, ndsync, hbeat_ok, nreset, nrst_app, ninit,
}

abbrev pub nonce_window_size : ℕ
nonce_window_size = 5

-- `DeviceNonceState::new`.
abbrev pub new_state : ℕ → DeviceNonceState
new_state initial_nonce = record {
  current_nonce = initial_nonce;
  last_heartbeat = 0;
  desync_count_24h = 0;
  desync_count_reset = 0;
  is_suspicious = false;
}

abbrev pub should_mark_suspicious : DeviceNonceState → Bool
should_mark_suspicious st = ltb 10 st.desync_count_24h

abbrev desync_window : (current_time : ℕ) → DeviceNonceState → DeviceNonceState
desync_window current_time st =
    if ltb 86_400 ((current_time + 2 ^ 64 - st.desync_count_reset) % 2 ^ 64)
    then record st { desync_count_24h = 0; desync_count_reset = current_time }
    else st

abbrev counted : DeviceNonceState → DeviceNonceState
counted st = record st { desync_count_24h = (st.desync_count_24h + 1) % 2 ^ 32 }

unfoldable pub update_desync_count : (current_time : ℕ) → DeviceNonceState → DeviceNonceState
update_desync_count current_time st =
    let next = counted (desync_window current_time st) in
    record next { is_suspicious = should_mark_suspicious next }

pub data NonceValidationResult : Type 0 where
  valid : NonceValidationResult
  desync : NonceAlertType → NonceValidationResult

unfoldable pub validate_nonce :
    (received_nonce expected_nonce window_size : ℕ) → NonceValidationResult
validate_nonce received_nonce expected_nonce window_size =
    if received_nonce == expected_nonce
    then valid
    else if ltb received_nonce expected_nonce
    then desync old_nonce
    else if ltb ((expected_nonce + window_size) % 2 ^ 64) received_nonce
    then desync future_nonce
    else desync out_of_order

abbrev pub store_device : (device_mac : ℕ) → DeviceNonceState → State → State
store_device device_mac st s = record s { device_nonce = put device_mac st s.device_nonce }

abbrev pub handle_nonce_desync :
    Env → SignedHeartbeat → DeviceNonceState → NonceAlertType → State → State
handle_nonce_desync env heartbeat nonce_state alert_type s =
    let next = update_desync_count env.now nonce_state in
    store_device heartbeat.device_mac next (
      publish
        (ndsync heartbeat.meter_id heartbeat.device_mac next.current_nonce heartbeat.nonce env.now
          alert_type)
        s)

-- The state after a valid heartbeat.
abbrev pub accepted : Env → SignedHeartbeat → DeviceNonceState → DeviceNonceState
accepted env heartbeat nonce_state = record nonce_state {
  current_nonce = (heartbeat.nonce + 1) % 2 ^ 64;
  last_heartbeat = env.now;
  is_suspicious = if nonce_state.desync_count_24h == 0 then false else nonce_state.is_suspicious;
}

abbrev pub act_on : Env → SignedHeartbeat → DeviceNonceState → NonceValidationResult → Action Bool
act_on env heartbeat nonce_state valid s = ok (
  true,
  publish (hbeat_ok heartbeat.meter_id heartbeat.device_mac heartbeat.nonce)
      (store_device heartbeat.device_mac (accepted env heartbeat nonce_state) s),
)
act_on env heartbeat nonce_state (desync alert_type) s =
    ok (false, handle_nonce_desync env heartbeat nonce_state alert_type s)

unfoldable pub get_device_nonce_state : (device_mac : ℕ) → State → DeviceNonceState
get_device_nonce_state device_mac s = unwrap_or (new_state 0) (s.device_nonce device_mac)

unfoldable pub verify_heartbeat_nonce : Env → SignedHeartbeat → Action Bool
unfolding validate_nonce get_device_nonce_state update_desync_count
verify_heartbeat_nonce env heartbeat = do
  panic_if (heartbeat.signature == 0) invalid_signature
  panic_if (heartbeat.public_key == 0) invalid_signature
  panic_if (heartbeat.device_mac == 0) invalid_device_mac
  panic_if (not (env.signature_valid heartbeat)) invalid_signature
  nonce_state ← gets (get_device_nonce_state heartbeat.device_mac)
  act_on env heartbeat nonce_state
      (validate_nonce heartbeat.nonce nonce_state.current_nonce nonce_window_size)

unfoldable pub length : List ℕ → ℕ
length [] = 0
length (x ∷ xs) = length xs + 1

unfoldable pub contains : List ℕ → ℕ → Bool
contains [] w = false
contains (x ∷ xs) w = x == w || contains xs w

abbrev pub is_authorized_resetter : (address : ℕ) → State → Bool
is_authorized_resetter address s = contains (unwrap_or [] s.authorized_nonce_resetters) address

abbrev pub reset_state : Env → (new_nonce : ℕ) → Option DeviceNonceState → DeviceNonceState
reset_state env new_nonce stored = record (unwrap_or (new_state new_nonce) stored) {
  current_nonce = new_nonce;
  last_heartbeat = env.now;
  desync_count_24h = 0;
  desync_count_reset = env.now;
  is_suspicious = false;
}

abbrev store_request : (meter_id : ℕ) → NonceResetRequest → State → State
store_request meter_id request s = record s {
  nonce_reset_request = put meter_id request s.nonce_reset_request;
}

-- The two ends of a reset: with enough approvals the nonce is set.
abbrev pub finish_reset :
    Env → (meter_id device_mac new_nonce : ℕ) → NonceResetRequest → (approver : ℕ) → State → State
finish_reset env meter_id device_mac new_nonce request approver s =
    if leb request.required_approvals (length request.approvals)
    then publish (nreset meter_id device_mac new_nonce approver) (
        store_request meter_id (record request { is_executed = true })
          (store_device device_mac (reset_state env new_nonce (s.device_nonce device_mac)) s))
    else publish (nrst_app meter_id device_mac approver (length request.approvals))
        (store_request meter_id request s)

-- The request is an argument of the call.
unfoldable pub reset_device_nonce :
    Env
    → (meter_id device_mac new_nonce : ℕ) → NonceResetRequest
    → (approver : ℕ) → Action (Unit {0})
unfolding length contains
reset_device_nonce env meter_id device_mac new_nonce reset_request approver = do
  panic_if (device_mac == 0) invalid_device_mac
  resetter ← gets (is_authorized_resetter approver)
  panic_if (not resetter) unauthorized_device
  panic_if (ltb reset_request.expires_at env.now) admin_execution_window_expired
  panic_if (contains reset_request.approvals approver) already_approved_withdrawal
  let request : NonceResetRequest = record reset_request {
    approvals = reset_request.approvals ++ approver ∷ [];
  }
  modify (finish_reset env meter_id device_mac new_nonce request approver)

unfoldable pub is_device_suspicious : (device_mac : ℕ) → State → Bool
unfolding get_device_nonce_state
is_device_suspicious device_mac s = (get_device_nonce_state device_mac s).is_suspicious

unfoldable pub initialize_device_nonce : (device_mac initial_nonce : ℕ) → State → State
initialize_device_nonce device_mac initial_nonce s =
    if is_some (s.device_nonce device_mac)
    then s
    else publish (ninit device_mac initial_nonce)
        (store_device device_mac (new_state initial_nonce) s)
