-- ===== src/UtilityContracts/Meters/Helpers.antt =====
-- The helpers of lib.rs on one meter and on amounts.
use utility_contracts.Base.{
  ℕ, ℤ, pos, negsuc, Bool, not, ◌&&◌, ◌||◌, Option, none, some, Map, put, unwrap_or, ltb, leb,
  ltb_ℤ, leb_ℤ, ◌==◌, if◌then◌else◌, saturating_add, saturating_sub, saturating_mul, wrapping_mul,
  wrapping_sub, ◌/ℤ◌, ◌/◌, ◌%◌, ◌-◌, ◌*◌, Result, ok, err, min,
}
use utility_contracts.UtilityContracts.Errors.{
  ContractError, invalid_signature, invalid_reading_value, duplicate_timestamp,
  reading_delta_too_large, public_key_mismatch, timestamp_too_old,
}
use utility_contracts.UtilityContracts.Meters.Types.{
  BillingType, pre_paid, post_paid, ResourceType, electricity, gas, water, heat, Meter,
  SignedUsageData, ProviderWithdrawalWindow, State, Env,
}

abbrev pub hour_in_seconds : ℕ
hour_in_seconds = 3_600

abbrev pub day_in_seconds : ℕ
day_in_seconds = 86_400

abbrev pub debt_threshold : ℤ
debt_threshold = negsuc 9_999_999

abbrev pub default_tax_rate_bps : ℤ
default_tax_rate_bps = pos 50

abbrev pub maintenance_fund_percent_bps : ℤ
maintenance_fund_percent_bps = pos 100

abbrev peak_hour_start : ℕ
peak_hour_start = 18 * hour_in_seconds

abbrev peak_hour_end : ℕ
peak_hour_end = 21 * hour_in_seconds

-- `a.min(b)` and `a.max(b)`.
abbrev pub min_ℤ : ℤ → ℤ → ℤ
min_ℤ a b = if ltb_ℤ b a then b else a

abbrev pub max_ℤ : ℤ → ℤ → ℤ
max_ℤ a b = if ltb_ℤ a b then b else a

unfoldable pub provider_meter_value : Meter → ℤ
provider_meter_value meter = max_ℤ meter.balance debt_threshold

abbrev total_value : BillingType → Meter → ℤ
total_value pre_paid meter = meter.balance
total_value post_paid meter = saturating_sub meter.balance meter.debt

unfoldable pub refresh_activity : Meter → Meter
refresh_activity meter = record meter {
  is_active =
      ltb_ℤ (pos 0) (total_value meter.billing_type meter)
      && not meter.is_paused
      && not meter.is_disputed
      && not meter.is_closed;
}

unfoldable pub available_earnings : BillingType → Meter → ℤ
available_earnings pre_paid meter = meter.balance
available_earnings post_paid meter = meter.debt

unfoldable pub deduct : BillingType → ℤ → Meter → Meter
deduct pre_paid amount meter = record meter { balance = saturating_sub meter.balance amount }
deduct post_paid amount meter = record meter { debt = saturating_sub meter.debt amount }

unfoldable pub update_provider_total_pool : (provider : ℕ) → (old_val new_val : ℤ) → Map ℤ → Map ℤ
update_provider_total_pool provider old_val new_val pools =
    let current_pool = unwrap_or (pos 0) (pools provider) in
    put provider (saturating_add (saturating_sub current_pool old_val) new_val) pools

abbrev pub validate_ed25519_public_key : (public_key : ℕ) → Result ContractError (Unit {0})
validate_ed25519_public_key public_key = if public_key == 0 then err invalid_signature else ok tt

abbrev pub validate_ed25519_signature : (signature : ℕ) → Result ContractError (Unit {0})
validate_ed25519_signature signature = if signature == 0 then err invalid_signature else ok tt

abbrev pub is_peak_hour : (timestamp : ℕ) → Bool
is_peak_hour timestamp =
    let day_seconds = timestamp % day_in_seconds in
    leb peak_hour_start day_seconds && leb day_seconds peak_hour_end

unfoldable pub get_effective_rate : Meter → (timestamp : ℕ) → ℤ
get_effective_rate meter timestamp =
    if is_peak_hour timestamp then meter.peak_rate else meter.off_peak_rate

unfoldable pub calculate_tax_split : (amount tax_rate_bps : ℤ) → ℤ × ℤ
calculate_tax_split amount tax_rate_bps =
    let tax_amount = wrapping_mul amount tax_rate_bps /ℤ pos 10_000 in
    (tax_amount, wrapping_sub amount tax_amount)

unfoldable pub carbon_credit_amount : (claimable renewable_bps drip_rate_bps : ℤ) → ℤ
carbon_credit_amount claimable renewable_bps drip_rate_bps =
    if leb_ℤ claimable (pos 0) || leb_ℤ renewable_bps (pos 0) || leb_ℤ drip_rate_bps (pos 0)
    then pos 0
    else saturating_mul (saturating_mul claimable renewable_bps /ℤ pos 10_000) drip_rate_bps
      /ℤ pos 10_000

-- The test for a penalty and its use, in `claim` and in `deduct_units`.
unfoldable pub sla_penalized : Meter → ℤ → ℤ
sla_penalized meter amount = elim meter.sla_config [
  | none ↦ amount
  | some config ↦
      if meter.sla_state.is_penalty_active
        || leb config.threshold_seconds meter.sla_state.accumulated_downtime
      then saturating_mul amount config.penalty_multiplier_bps /ℤ pos 10_000
      else amount
]

abbrev pub get_max_delta : ResourceType → ℤ
get_max_delta electricity = pos 10_000_000_000
get_max_delta gas = pos 5_000_000_000
get_max_delta water = pos 20_000_000_000
get_max_delta heat = pos 10_000_000_000

abbrev pub allowed_delta : ResourceType → (elapsed : ℕ) → ℤ
allowed_delta resource_type elapsed =
    wrapping_mul (get_max_delta resource_type) (pos (min (elapsed / 300) 24))

unfoldable pub validate_reading :
    (last_reading_time : ℕ)
    → ResourceType
    → (watt_hours_consumed units_consumed : ℤ) → (timestamp : ℕ) → Result ContractError (Unit {0})
validate_reading last_reading_time resource_type watt_hours_consumed units_consumed timestamp =
    if ltb_ℤ watt_hours_consumed (pos 0) || ltb_ℤ units_consumed (pos 0)
    then err invalid_reading_value
    else if leb timestamp last_reading_time
    then err duplicate_timestamp
    else (let delta = allowed_delta resource_type (timestamp - last_reading_time) in
        if ltb_ℤ delta watt_hours_consumed || ltb_ℤ delta units_consumed
        then err reading_delta_too_large
        else ok tt)

unfoldable pub verify_usage_signature : Env → SignedUsageData → Meter → Result ContractError Bool
verify_usage_signature env signed_data meter =
    if not (signed_data.public_key == meter.device_public_key)
    then err public_key_mismatch
    else if ltb 300 (env.now - signed_data.timestamp)
    then err timestamp_too_old
    else ok (env.ed25519_verify signed_data)

abbrev window_or_default :
    Option ProviderWithdrawalWindow
    → Option ProviderWithdrawalWindow
    → (now : ℕ) → ProviderWithdrawalWindow
window_or_default (some window) stored now = window
window_or_default none (some window) now = window
window_or_default none none now = record { daily_withdrawn = pos 0; last_reset = now }

abbrev pub get_provider_window_or_default : (provider now : ℕ) → State → ProviderWithdrawalWindow
get_provider_window_or_default provider now s =
    window_or_default (s.temporary_window provider) (s.provider_window provider) now

abbrev pub reset_provider_window_if_needed :
    ProviderWithdrawalWindow → (now : ℕ) → ProviderWithdrawalWindow
reset_provider_window_if_needed window now =
    if leb day_in_seconds (now - window.last_reset)
    then record { daily_withdrawn = pos 0; last_reset = now }
    else window

-- No amount is refused.
unfoldable pub apply_provider_withdrawal_limit :
    Env → (provider : ℕ) → (amount : ℤ) → State → ProviderWithdrawalWindow
apply_provider_withdrawal_limit env provider amount s =
    reset_provider_window_if_needed (get_provider_window_or_default provider env.now s) env.now
