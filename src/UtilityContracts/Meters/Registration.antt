-- ===== src/UtilityContracts/Meters/Registration.antt =====
-- The registration of meters, and the entry points of lib.rs that set fields of one meter.
use utility_contracts.Base.{
  ℕ, ℤ, pos, Bool, true, false, not, none, ◌||◌, ◌+◌, ◌^◌, ◌%◌, unwrap_or, ltb_ℤ, remove,
  if◌then◌else◌, saturating_add, saturating_mul, ◌/ℤ◌, ◌>>=◌, ◌>>◌, gets, modify, pure, panic_if,
  or_panic, Result, ok, err, some,
}
use utility_contracts.UtilityContracts.Errors.{
  ContractError, message, invalid_usage_value, usage_exceeds_limit, flow_rate_too_high,
  challenge_not_found, call_failed,
}
use utility_contracts.UtilityContracts.Stream.Creation.{max_hourly_flow_rate}
use utility_contracts.UtilityContracts.Meters.Types.{
  BillingType, pre_paid, ResourceType, UsageData, Meter, State, Env, Action, require_auth,
  get_meter_or_panic, store_meter, publish, ping_received, paused, pair_comp,
}
use utility_contracts.UtilityContracts.Meters.Helpers.{
  hour_in_seconds, validate_ed25519_public_key, validate_ed25519_signature, refresh_activity,
}

-- `?`, and `panic_with_error!` on an error.
abbrev pub or_abort : {A : Type 0} → Result ContractError A → Action A
or_abort (ok a) s = ok (a, s)
or_abort (err e) s = err e

abbrev first_usage : (now : ℕ) → UsageData
first_usage now = record {
  total_watt_hours = pos 0;
  current_cycle_watt_hours = pos 0;
  peak_usage_watt_hours = pos 0;
  last_reading_timestamp = now;
  precision_factor = pos 1;
  renewable_watt_hours = pos 0;
  renewable_percentage = pos 0;
  monthly_volume = pos 0;
  last_volume_reset = now;
  first_reading_timestamp = now;
}

-- The meter that a registration stores.
abbrev pub new_meter :
    (now user provider : ℕ)
    → (off_peak_rate : ℤ) → (token : ℕ) → BillingType
    → (device_public_key priority_index : ℕ) → ResourceType
    → Meter
new_meter now user provider off_peak_rate token billing_type device_public_key priority_index
      resource_type =
    record {
      user = user;
      provider = provider;
      billing_type = billing_type;
      resource_type = resource_type;
      off_peak_rate = off_peak_rate;
      peak_rate = saturating_mul off_peak_rate (pos 3) /ℤ pos 2;
      rate_per_unit = off_peak_rate;
      balance = pos 0;
      debt = pos 0;
      last_update = now;
      is_active = true;
      token = token;
      usage_data = first_usage now;
      device_public_key = device_public_key;
      end_date = 0;
      rent_deposit = pos 0;
      priority_index = priority_index;
      green_energy_discount_bps = pos 0;
      carbon_credit_token = none;
      carbon_credit_drip_rate_bps = pos 0;
      is_paused = false;
      is_disputed = false;
      challenge_timestamp = 0;
      credit_drip_rate = pos 0;
      is_closed = false;
      off_peak_reward_rate_bps = pos 0;
      milestone_deadline = 0;
      milestone_confirmed = false;
      rate_per_second = off_peak_rate;
      collateral_limit = pos 0;
      max_flow_rate_per_hour = saturating_mul off_peak_rate (pos hour_in_seconds);
      last_claim_time = now;
      claimed_this_hour = pos 0;
      is_paired = false;
      tier_threshold = pos 100_000;
      tier_rate = saturating_mul off_peak_rate (pos 120) /ℤ pos 100;
      last_heartbeat = now;
      grace_period_start = 0;
      is_offline = false;
      estimated_usage_total = pos 0;
      sla_config = none;
      sla_state = record {
        accumulated_downtime = 0;
        last_report_timestamp = now;
        is_penalty_active = false;
      };
      is_updating = false;
      update_start_timestamp = 0;
    }

abbrev pub next_id : State → ℕ
next_id s = (unwrap_or 0 s.count + 1) % 2 ^ 64

-- The count of active meters is read and not written.
unfoldable pub register_meter_with_mode :
    Env
    → (user provider : ℕ) → (off_peak_rate : ℤ) → (token : ℕ) → BillingType
    → (device_public_key priority_index : ℕ) → ResourceType
    → Action ℕ
register_meter_with_mode env user provider off_peak_rate token billing_type device_public_key
      priority_index resource_type =
    do
      require_auth env user
      or_abort (validate_ed25519_public_key device_public_key)
      count ← gets next_id
      let meter =
          new_meter env.now user provider off_peak_rate token billing_type device_public_key
            priority_index resource_type
      modify (λ s. record (store_meter count meter s) { count = some count })
      pure count

unfoldable pub register_meter :
    Env
    → (user provider : ℕ) → (off_peak_rate : ℤ) → (token device_public_key priority_index : ℕ)
    → ResourceType
    → Action ℕ
register_meter env user provider off_peak_rate token device_public_key priority_index
      resource_type =
    register_meter_with_mode env user provider off_peak_rate token pre_paid device_public_key
      priority_index resource_type

-- An entry point that reads a meter, asks for an authorization and stores the meter changed.
abbrev pub changed_by :
    Env → (who : Meter → ℕ) → (Meter → Meter) → (meter_id : ℕ) → Action (Unit {0})
changed_by env who f meter_id = do
  meter ← get_meter_or_panic meter_id
  require_auth env (who meter)
  modify (store_meter meter_id (f meter))

abbrev pub pinged : (now : ℕ) → Meter → Meter
pinged now meter = record meter {
  last_heartbeat = now;
  is_offline = false;
  grace_period_start = if meter.is_offline then 0 else meter.grace_period_start;
}

unfoldable pub ping : Env → (meter_id : ℕ) → Action (Unit {0})
ping env meter_id = do
  changed_by env (λ m. m.provider) (pinged env.now) meter_id
  modify (publish (ping_received meter_id env.now))

unfoldable pub set_meter_pause : Env → (meter_id : ℕ) → Bool → Action (Unit {0})
set_meter_pause env meter_id b = do
  changed_by env (λ m. m.user) (λ m. refresh_activity (record m { is_paused = b })) meter_id
  modify (publish (paused meter_id b))

unfoldable pub set_tiered_pricing : Env → (meter_id : ℕ) → (threshold rate : ℤ) → Action (Unit {0})
set_tiered_pricing env meter_id threshold rate =
    changed_by env (λ m. m.provider)
      (λ m. record m { tier_threshold = threshold; tier_rate = rate }) meter_id

unfoldable pub emergency_shutdown : Env → (meter_id : ℕ) → Action (Unit {0})
emergency_shutdown env meter_id =
    changed_by env (λ m. m.provider) (λ m. record m { is_active = false }) meter_id

-- Both errors of the test of the rate become one, and a missing meter is an `unwrap` of none.
unfoldable pub set_max_flow_rate :
    Env → (meter_id : ℕ) → (max_rate_per_hour : ℤ) → Action (Unit {0})
set_max_flow_rate env meter_id max_rate_per_hour = do
  panic_if (ltb_ℤ max_rate_per_hour (pos 3_600) || ltb_ℤ max_hourly_flow_rate max_rate_per_hour)
      flow_rate_too_high
  meter ← or_panic (← gets (λ s. s.meter meter_id)) message
  require_auth env meter.provider
  modify (store_meter meter_id (record meter { max_flow_rate_per_hour = max_rate_per_hour }))

abbrev pub with_cycle : ℤ → (now : ℕ) → UsageData → UsageData
with_cycle cycle now usage = record usage {
  current_cycle_watt_hours = cycle;
  last_reading_timestamp = now;
}

unfoldable pub reset_cycle_usage : Env → (meter_id : ℕ) → Action (Unit {0})
reset_cycle_usage env meter_id =
    changed_by env (λ m. m.provider)
      (λ m. record m { usage_data = with_cycle (pos 0) env.now m.usage_data }) meter_id

abbrev pub max_usage_per_update : ℤ
max_usage_per_update = pos 1_000_000_000_000

abbrev pub used : (now : ℕ) → (watt_hours_consumed : ℤ) → UsageData → UsageData
used now watt_hours_consumed usage =
    let precise = saturating_mul watt_hours_consumed usage.precision_factor in
    let cycle = saturating_add usage.current_cycle_watt_hours precise in
    record (with_cycle cycle now usage) {
      total_watt_hours = saturating_add usage.total_watt_hours precise;
      peak_usage_watt_hours =
          if ltb_ℤ usage.peak_usage_watt_hours cycle then cycle else usage.peak_usage_watt_hours;
    }

unfoldable pub update_usage : Env → (meter_id : ℕ) → (watt_hours_consumed : ℤ) → Action (Unit {0})
update_usage env meter_id watt_hours_consumed = do
  panic_if (ltb_ℤ watt_hours_consumed (pos 0)) invalid_usage_value
  panic_if (ltb_ℤ max_usage_per_update watt_hours_consumed) usage_exceeds_limit
  changed_by env (λ m. m.user)
      (λ m. record m { usage_data = used env.now watt_hours_consumed m.usage_data }) meter_id

unfoldable pub complete_pairing : Env → (meter_id signature : ℕ) → Action (Unit {0})
complete_pairing env meter_id signature = do
  meter ← get_meter_or_panic meter_id
  require_auth env meter.user
  or_abort (validate_ed25519_signature signature)
  challenge ← or_panic (← gets (λ s. s.pairing_challenge meter_id)) challenge_not_found
  panic_if
      (not (
        env.verify_pairing meter.device_public_key env.current_contract meter_id env.now signature))
      call_failed
  modify (λ s.
      publish (pair_comp meter_id signature)
        (record (store_meter meter_id (record meter { is_paired = true }) s) {
          pairing_challenge = remove meter_id s.pairing_challenge;
        }))
