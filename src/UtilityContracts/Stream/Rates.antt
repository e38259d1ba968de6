-- ===== src/UtilityContracts/Stream/Rates.antt =====
-- Changes of the rate, with the public `pause_continuous_flow` and `resume_continuous_flow`, of lib.rs.
use utility_contracts.Base.{
  ℕ, ℤ, pos, Bool, not, ◌&&◌, ◌||◌, ltb_ℤ, leb_ℤ, eqb_ℤ, if◌then◌else◌, saturating_sub, ◌>>=◌, ◌>>◌,
  modify, when, panic_if,
}
use utility_contracts.UtilityContracts.Errors.{invalid_token_amount}
use utility_contracts.UtilityContracts.Stream.Types.{
  StreamStatus, active, paused, ContinuousFlow, Env, Action, require_auth, publish, store_flow,
  is_paused, is_depleted, strm_upd,
}
use utility_contracts.UtilityContracts.Stream.Fleet.{
  fleet_apply_delta, fleet_assert_room_for_new_stream, get_continuous_flow_or_panic,
}
use utility_contracts.UtilityContracts.Stream.Creation.{validate_flow_rate}

abbrev pub status_at_rate : ContinuousFlow → ℤ → StreamStatus
status_at_rate flow new_flow_rate =
    if eqb_ℤ new_flow_rate (pos 0)
    then paused
    else if (ltb_ℤ (pos 0) flow.accumulated_balance || ltb_ℤ (pos 0) flow.buffer_balance)
        && is_paused flow.status
    then active
    else flow.status

abbrev pub moves_fleet : ℤ → (old new : StreamStatus) → Bool
moves_fleet delta old new =
    not (eqb_ℤ delta (pos 0)) && not (is_depleted old) && not (is_depleted new)

-- The fleet's part in a change of rate.
abbrev pub move_fleet : (provider : ℕ) → ℤ → (old new : StreamStatus) → Action (Unit {0})
move_fleet provider delta old new = do
  when (moves_fleet delta old new) (fleet_assert_room_for_new_stream provider delta)
  when (moves_fleet delta old new) (modify (fleet_apply_delta provider delta))

-- The room is asserted for a positive change only, which `fleet_assert_room_for_new_stream` tests itself.
unfoldable pub update_flow_rate : Env → (stream_id : ℕ) → ℤ → Action (Unit {0})
unfolding fleet_assert_room_for_new_stream fleet_apply_delta
update_flow_rate env stream_id new_flow_rate = do
  when (ltb_ℤ (pos 0) new_flow_rate) (validate_flow_rate new_flow_rate)
  flow ← get_continuous_flow_or_panic stream_id
  require_auth env env.current_contract
  let new_status = status_at_rate flow new_flow_rate
  modify (
      publish
        (strm_upd stream_id flow.flow_rate_per_second new_flow_rate env.now flow.status new_status))
  move_fleet flow.provider (saturating_sub new_flow_rate flow.flow_rate_per_second) flow.status
      new_status
  modify (
      store_flow stream_id
        (record flow { flow_rate_per_second = new_flow_rate; status = new_status }))

unfoldable pub update_continuous_flow_rate : Env → (stream_id : ℕ) → ℤ → Action (Unit {0})
unfolding update_flow_rate
update_continuous_flow_rate env stream_id new_flow_rate = do
  panic_if (ltb_ℤ new_flow_rate (pos 0)) invalid_token_amount
  update_flow_rate env stream_id new_flow_rate

unfoldable pub pause_continuous_flow : Env → (stream_id : ℕ) → Action (Unit {0})
unfolding update_flow_rate
pause_continuous_flow env stream_id = update_flow_rate env stream_id (pos 0)

unfoldable pub resume_continuous_flow : Env → (stream_id : ℕ) → ℤ → Action (Unit {0})
unfolding update_flow_rate
resume_continuous_flow env stream_id flow_rate_per_second = do
  panic_if (leb_ℤ flow_rate_per_second (pos 0)) invalid_token_amount
  update_flow_rate env stream_id flow_rate_per_second
