-- ===== src/UtilityContracts/VelocityLimit/Checks.antt =====
-- The checks of velocity_limit.rs and its overrides. A refusal is a value that the functions return, so
-- the state that they leave is kept with it. The expiry of temporary entries is not modelled.
use utility_contracts.Base.{
  ℕ, ◌*◌, ◌/◌, ℤ, pos, Bool, true, false, not, ◌&&◌, Option, none, some, ◌∷◌, put, ltb, ◌==◌, ltb_ℤ,
  if◌then◌else◌, unwrap_or, ok, err, saturating_add, ◌/ℤ◌,
}
use utility_contracts.UtilityContracts.VelocityLimit.Types.{
  day_in_seconds, default_global_limit, default_per_stream_limit, DailyOutflow,
  GlobalOutflowTracker, VelocityOverride, VelocityConfig, AnomalyType, Event, State, Env, Check,
  perstrm, global, micro, flash, accum, reset, anomaly, override_applied, vlimit, gvlimit,
}

abbrev pub get_day_boundary : ℕ → ℕ
get_day_boundary timestamp = timestamp / day_in_seconds * day_in_seconds

abbrev pub is_new_day : (window_start current_timestamp : ℕ) → Bool
is_new_day window_start current_timestamp =
    not (get_day_boundary window_start == get_day_boundary current_timestamp)

abbrev pub get_day_number : ℕ → ℕ
get_day_number timestamp = timestamp / day_in_seconds

pub detect_anomaly_type : (requested limit current_outflow : ℤ) → AnomalyType
detect_anomaly_type requested limit current_outflow =
    let micro_threshold = limit /ℤ pos 100 in
    let half = limit /ℤ pos 2 in
    if ltb_ℤ requested micro_threshold && ltb_ℤ half current_outflow
    then micro
    else if ltb_ℤ half requested
    then flash
    else accum

-- `is_override_active`, which reads the override of the scope.
abbrev pub override_holds : (now : ℕ) → Option VelocityOverride → Bool
override_holds now none = false
override_holds now (some o) =
    if not o.is_active
    then false
    else if ltb 0 o.expires_at && ltb o.expires_at now
    then false
    else true

abbrev pub is_override_active : (scope now : ℕ) → State → Bool
is_override_active scope now s = override_holds now (s.velocity_override scope)

abbrev pub publish : Event → State → State
publish e s = record s { events = e ∷ s.events }

abbrev pub get_velocity_config : State → Option VelocityConfig
get_velocity_config s = s.velocity_config

abbrev pub set_velocity_config : VelocityConfig → State → State
set_velocity_config config s = record s { velocity_config = some config }

abbrev pub default_config : Env → VelocityConfig
default_config env = record {
  global_limit = default_global_limit;
  per_stream_limit = default_per_stream_limit;
  is_enabled = true;
  admin_multisig = env.current_contract;
}

-- `get_velocity_config(env).unwrap_or_else(|| create_default_config(env))`, which stores the default.
abbrev pub config_or_default : Env → State → VelocityConfig × State
config_or_default env s = elim (get_velocity_config s) [
  | some config ↦ (config, s)
  | none ↦ (default_config env, set_velocity_config (default_config env) s)
]

abbrev pub fresh_outflow : Env → (meter_id provider : ℕ) → DailyOutflow
fresh_outflow env meter_id provider = record {
  window_start = get_day_boundary env.now;
  total_outflow = pos 0;
  meter_id = meter_id;
  provider = provider;
  is_breached = false;
  last_anomaly_timestamp = 0;
}

abbrev pub get_daily_outflow : Env → (meter_id provider : ℕ) → State → DailyOutflow
get_daily_outflow env meter_id provider s =
    unwrap_or (fresh_outflow env meter_id provider) (s.daily_outflow meter_id)

abbrev pub fresh_global : Env → GlobalOutflowTracker
fresh_global env = record {
  window_start = get_day_boundary env.now;
  total_outflow = pos 0;
  breached_meter_count = 0;
  global_breach = false;
  last_global_anomaly = 0;
}

abbrev pub get_global_outflow : Env → State → GlobalOutflowTracker
get_global_outflow env s = unwrap_or (fresh_global env) s.global_outflow

abbrev reset_event : Env → (meter_id : ℕ) → Event
reset_event env meter_id = reset record {
  meter_id = meter_id;
  previous_total = pos 0;
  reset_at = env.now;
  day_number = get_day_number env.now;
}

-- The tracking of a meter after the reset at the start of a day.
abbrev pub outflow_today : Env → (meter_id provider : ℕ) → State → DailyOutflow × State
outflow_today env meter_id provider s =
    let outflow = get_daily_outflow env meter_id provider s in
    if is_new_day outflow.window_start env.now
    then (fresh_outflow env meter_id provider, publish (reset_event env meter_id) s)
    else (outflow, s)

abbrev pub global_today : Env → State → GlobalOutflowTracker × State
global_today env s =
    let tracker = get_global_outflow env s in
    if is_new_day tracker.window_start env.now
    then (fresh_global env, publish (reset_event env 0) s)
    else (tracker, s)

abbrev per_stream_anomaly : Env → (meter_id provider : ℕ) → (amount current limit : ℤ) → Event
per_stream_anomaly env meter_id provider amount current limit = anomaly record {
  activity_type = perstrm;
  meter_id = meter_id;
  provider = provider;
  requested_amount = amount;
  current_outflow = current;
  velocity_limit = limit;
  detected_at = env.now;
  reason = detect_anomaly_type amount limit current;
}

abbrev global_anomaly : Env → (provider : ℕ) → (amount current limit : ℤ) → Event
global_anomaly env provider amount current limit = anomaly record {
  activity_type = global;
  meter_id = 0;
  provider = provider;
  requested_amount = amount;
  current_outflow = current;
  velocity_limit = limit;
  detected_at = env.now;
  reason = detect_anomaly_type amount limit current;
}

-- The comparison with the limit and the update, once the tracking of today is known.
abbrev pub spend_per_stream :
    Env → (meter_id provider : ℕ) → (limit amount : ℤ) → DailyOutflow × State → Check
spend_per_stream env meter_id provider limit amount (outflow, s) =
    let new_total = saturating_add outflow.total_outflow amount in
    if ltb_ℤ limit new_total
    then (
      err vlimit,
      publish (per_stream_anomaly env meter_id provider amount outflow.total_outflow limit) s,
    )
    else (
      ok tt,
      record s {
        daily_outflow =
            put meter_id
              (record outflow { total_outflow = new_total; last_anomaly_timestamp = env.now })
              s.daily_outflow;
      },
    )

abbrev pub spend_global :
    Env → (provider : ℕ) → (limit amount : ℤ) → GlobalOutflowTracker × State → Check
spend_global env provider limit amount (tracker, s) =
    let new_total = saturating_add tracker.total_outflow amount in
    if ltb_ℤ limit new_total
    then (err gvlimit, publish (global_anomaly env provider amount tracker.total_outflow limit) s)
    else (
      ok tt,
      record s {
        global_outflow =
            some (record tracker { total_outflow = new_total; last_global_anomaly = env.now });
      },
    )

unfoldable pub check_per_stream_velocity : Env → (meter_id provider : ℕ) → ℤ → State → Check
check_per_stream_velocity env meter_id provider withdrawal_amount s =
    let (config, s1) = config_or_default env s in
    if not config.is_enabled
    then (ok tt, s1)
    else if is_override_active meter_id env.now s1
    then (ok tt, s1)
    else spend_per_stream env meter_id provider config.per_stream_limit withdrawal_amount
        (outflow_today env meter_id provider s1)

unfoldable pub check_global_velocity : Env → ℤ → (provider : ℕ) → State → Check
check_global_velocity env withdrawal_amount provider s =
    let (config, s1) = config_or_default env s in
    if not config.is_enabled
    then (ok tt, s1)
    else if is_override_active 0 env.now s1
    then (ok tt, s1)
    else spend_global env provider config.global_limit withdrawal_amount (global_today env s1)

unfoldable pub check_velocity_limits : Env → (meter_id provider : ℕ) → ℤ → State → Check
unfolding check_per_stream_velocity check_global_velocity
check_velocity_limits env meter_id provider withdrawal_amount s =
    let (first, s1) = check_per_stream_velocity env meter_id provider withdrawal_amount s in
    elim first [
      | err e ↦ (err e, s1)
      | ok u ↦ check_global_velocity env withdrawal_amount provider s1
    ]

unfoldable pub apply_override : Env → (admin scope expires_at reason : ℕ) → State → State
apply_override env admin scope expires_at reason s =
    let entry : VelocityOverride = record {
      override_scope = scope;
      admin = admin;
      created_at = env.now;
      expires_at = expires_at;
      reason = reason;
      is_active = true;
    } in
    publish
      (override_applied record {
        scope = scope;
        admin = admin;
        expires_at = expires_at;
        reason = reason;
        applied_at = env.now;
      })
      (record s { velocity_override = put scope entry s.velocity_override })

unfoldable pub revoke_override : (scope : ℕ) → State → State
revoke_override scope s = elim (s.velocity_override scope) [
  | none ↦ s
  | some o ↦ record s {
    velocity_override = put scope (record o { is_active = false }) s.velocity_override;
  }
]
