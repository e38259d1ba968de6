-- ===== src/UtilityContracts/Stream/Creation.antt =====
-- The validation of rates and the creation of streams of lib.rs. An inner function whose error every caller
-- unwraps aborts here with that error.
use utility_contracts.Base.{
  ℕ, ◌+◌, ◌-◌, ℤ, pos, false, ◌&&◌, ◌||◌, Option, put, unwrap_or, leb, ltb_ℤ, if◌then◌else◌,
  saturating_mul, ◌>>=◌, ◌>>◌, gets, modify, panic_if,
}
use utility_contracts.UtilityContracts.Errors.{
  invalid_token_amount, flow_rate_too_low, flow_rate_too_high, rate_limit_exceeded,
}
use utility_contracts.UtilityContracts.Stream.Types.{
  active, paused, ContinuousFlow, RateLimitData, State, Env, Action, require_auth, publish,
  store_flow, is_active, stream_new,
}
use utility_contracts.UtilityContracts.Stream.Fleet.{
  fleet_apply_delta, fleet_assert_room_for_new_stream, provider_grid_state,
}

abbrev pub min_flow_rate_per_second : ℤ
min_flow_rate_per_second = pos 1

abbrev pub max_flow_rate_per_second : ℤ
max_flow_rate_per_second = pos 1_000_000_000_000_000_000

abbrev pub max_hourly_flow_rate : ℤ
max_hourly_flow_rate = pos 3_600_000_000_000_000_000_000

abbrev pub stream_creation_rate_limit : ℕ
stream_creation_rate_limit = 10

abbrev pub stream_creation_window_seconds : ℕ
stream_creation_window_seconds = 3600

abbrev pub validate_flow_rate : ℤ → Action (Unit {0})
validate_flow_rate flow_rate = do
  panic_if (ltb_ℤ flow_rate min_flow_rate_per_second) flow_rate_too_low
  panic_if (ltb_ℤ max_flow_rate_per_second flow_rate) flow_rate_too_high

pub validate_hourly_flow_rate : ℤ → Action (Unit {0})
validate_hourly_flow_rate hourly_rate = do
  panic_if (ltb_ℤ hourly_rate (pos 3600)) flow_rate_too_low
  panic_if (ltb_ℤ max_hourly_flow_rate hourly_rate) flow_rate_too_high

-- 24 hours of the rate.
abbrev pub calculate_required_buffer : ℤ → ℤ
calculate_required_buffer flow_rate_per_second = saturating_mul flow_rate_per_second (pos 86_400)

-- The window that a creation is counted in, after a reset.
abbrev current_window : Env → Option RateLimitData → RateLimitData
current_window env stored =
    let rate_data = unwrap_or (record { count = 0; last_reset = env.now }) stored in
    if leb stream_creation_window_seconds (env.now - rate_data.last_reset)
    then record { count = 0; last_reset = env.now }
    else rate_data

unfoldable pub check_stream_creation_rate_limit : Env → (provider : ℕ) → Action (Unit {0})
check_stream_creation_rate_limit env provider = do
  rate_data ← gets (λ s. current_window env (s.rate_limit provider))
  panic_if (leb stream_creation_rate_limit rate_data.count) rate_limit_exceeded
  let counted : RateLimitData = record rate_data { count = rate_data.count + 1 }
  modify (λ s. record s { rate_limit = put provider counted s.rate_limit })

abbrev pub new_flow :
    Env
    → (stream_id : ℕ) → (rate balance : ℤ)
    → (provider payer priority_tier grid_epoch_seen device_mac_pubkey : ℕ) → ContinuousFlow
new_flow env stream_id rate balance provider payer priority_tier grid_epoch_seen device_mac_pubkey =
    record {
      stream_id = stream_id;
      flow_rate_per_second = rate;
      accumulated_balance = balance;
      last_flow_timestamp = env.now;
      created_timestamp = env.now;
      status = if ltb_ℤ (pos 0) balance then active else paused;
      paused_at = 0;
      provider = provider;
      buffer_balance = calculate_required_buffer rate;
      buffer_warning_sent = false;
      payer = payer;
      priority_tier = priority_tier;
      grid_epoch_seen = grid_epoch_seen;
      device_mac_pubkey = device_mac_pubkey;
      is_unreliable = false;
    }

abbrev pub join_fleet : ContinuousFlow → State → State
join_fleet flow s =
    if is_active flow.status && ltb_ℤ (pos 0) flow.flow_rate_per_second
    then fleet_apply_delta flow.provider flow.flow_rate_per_second s
    else s

-- With `create_continuous_flow`, whose error aborts.
unfoldable pub create_continuous_stream :
    Env
    → (stream_id : ℕ) → (flow_rate_per_second initial_balance : ℤ)
    → (provider payer priority_tier device_mac_pubkey : ℕ) → Action (Unit {0})
unfolding fleet_assert_room_for_new_stream fleet_apply_delta
create_continuous_stream env stream_id flow_rate_per_second initial_balance provider payer
      priority_tier device_mac_pubkey =
    do
      require_auth env provider
      require_auth env payer
      panic_if (ltb_ℤ flow_rate_per_second (pos 0) || ltb_ℤ initial_balance (pos 0))
          invalid_token_amount
      fleet_assert_room_for_new_stream provider flow_rate_per_second
      grid_st ← gets (provider_grid_state provider)
      validate_flow_rate flow_rate_per_second
      let flow =
          new_flow env stream_id flow_rate_per_second initial_balance provider payer priority_tier
            grid_st.epoch device_mac_pubkey
      modify (store_flow stream_id flow)
      modify (join_fleet flow)
      modify (publish (stream_new stream_id flow_rate_per_second initial_balance provider))
