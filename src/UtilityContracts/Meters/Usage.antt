-- ===== src/UtilityContracts/Meters/Usage.antt =====
-- Signed usage reports of a device, `deduct_units` of lib.rs.
use utility_contracts.Base.{
  ℕ, ℤ, pos, false, not, ltb_ℤ, leb, leb_ℤ, if◌then◌else◌, saturating_add, saturating_sub,
  saturating_mul, wrapping_sub, ◌/ℤ◌, ◌&&◌, ◌-◌, ◌*◌, put, unwrap_or, ◌>>=◌, ◌>>◌, gets, modify,
  pure, panic_if, when,
}
use utility_contracts.UtilityContracts.Errors.{
  in_dispute, meter_not_paired, firmware_update_in_progress, call_failed,
}
use utility_contracts.UtilityContracts.Meters.Types.{
  BillingType, pre_paid, post_paid, Meter, UsageData, SignedUsageData, ProviderWithdrawalWindow,
  State, Env, Action, require_auth, get_meter_or_panic, publish, call_transfer, off_recon,
  usage_reported,
}
use utility_contracts.UtilityContracts.Meters.Helpers.{
  day_in_seconds, provider_meter_value, refresh_activity, get_effective_rate, sla_penalized,
  validate_reading, verify_usage_signature, validate_ed25519_signature, validate_ed25519_public_key,
  apply_provider_withdrawal_limit,
}
use utility_contracts.UtilityContracts.Meters.Registration.{or_abort}
use utility_contracts.UtilityContracts.Meters.Payouts.{
  from_contract, allocate_to_maintenance_fund, pay_tax, issue_carbon_credits, pay_fee,
  auto_extend_ttl_if_needed,
}
use utility_contracts.UtilityContracts.Meters.Claims.{store_tracked}

unfoldable pub discounted_rate : SignedUsageData → Meter → ℤ
discounted_rate signed_data meter =
    let effective_rate = get_effective_rate meter signed_data.timestamp in
    if signed_data.is_renewable_energy && ltb_ℤ (pos 0) meter.green_energy_discount_bps
    then saturating_mul effective_rate (wrapping_sub (pos 10_000) meter.green_energy_discount_bps)
      /ℤ pos 10_000
    else effective_rate

abbrev pub actual_cost : SignedUsageData → Meter → ℤ
actual_cost signed_data meter =
    saturating_mul signed_data.units_consumed (discounted_rate signed_data meter)

-- An offline meter gets its estimate back.
unfoldable pub reconciled : (now : ℕ) → Meter → Meter
reconciled now meter = record meter {
  balance =
      if meter.is_offline
      then saturating_add meter.balance meter.estimated_usage_total
      else meter.balance;
  is_offline = false;
  estimated_usage_total = if meter.is_offline then pos 0 else meter.estimated_usage_total;
  grace_period_start = if meter.is_offline then 0 else meter.grace_period_start;
  last_heartbeat = now;
}

abbrev pub cost_of : SignedUsageData → Meter → ℤ
cost_of signed_data meter = sla_penalized meter (actual_cost signed_data meter)

-- The meter's part of `apply_provider_claim`; the other part is the transfer.
unfoldable pub provider_claimed : BillingType → ℤ → Meter → Meter
provider_claimed billing_type amount meter =
    if leb_ℤ amount (pos 0) then meter else elim billing_type [
      | pre_paid ↦ record meter {
        balance = saturating_sub meter.balance amount;
        claimed_this_hour = saturating_add meter.claimed_this_hour amount;
      }
      | post_paid ↦ record meter {
        debt = saturating_add meter.debt amount;
        claimed_this_hour = saturating_add meter.claimed_this_hour amount;
      }
    ]

abbrev percentage : (renewable total : ℤ) → (before : ℤ) → ℤ
percentage renewable total before =
    if ltb_ℤ (pos 0) total then saturating_mul renewable (pos 10_000) /ℤ total else before

unfoldable pub usage_after : (now : ℕ) → SignedUsageData → (cost : ℤ) → UsageData → UsageData
usage_after now signed_data cost usage =
    let total = saturating_add usage.total_watt_hours signed_data.watt_hours_consumed in
    let cycle = saturating_add usage.current_cycle_watt_hours signed_data.watt_hours_consumed in
    let renewable =
      if signed_data.is_renewable_energy
      then saturating_add usage.renewable_watt_hours signed_data.watt_hours_consumed
      else usage.renewable_watt_hours in
    let new_month = leb (30 * day_in_seconds) (now - usage.last_volume_reset) in
    record usage {
      total_watt_hours = total;
      current_cycle_watt_hours = cycle;
      renewable_watt_hours = renewable;
      renewable_percentage = percentage renewable total usage.renewable_percentage;
      peak_usage_watt_hours =
          if ltb_ℤ usage.peak_usage_watt_hours cycle then cycle else usage.peak_usage_watt_hours;
      monthly_volume = if new_month then cost else saturating_add usage.monthly_volume cost;
      last_volume_reset = if new_month then now else usage.last_volume_reset;
    }

-- What a report costs is split and paid. It returns the provider's part.
unfoldable pub pay_usage : Env → (meter_id : ℕ) → Meter → (cost : ℤ) → Action ℤ
pay_usage env meter_id meter cost = do
  modify (allocate_to_maintenance_fund meter_id cost)
  after_tax ← pay_tax env meter_id meter cost
  credit_discount_active ← issue_carbon_credits env meter_id meter after_tax
  payout ← pay_fee env meter saturating_sub credit_discount_active after_tax
  when (ltb_ℤ (pos 0) payout) (call_transfer env (from_contract env meter meter.provider payout))
  pure payout

unfoldable pub billed_meter : (now : ℕ) → SignedUsageData → (cost payout : ℤ) → Meter → Meter
billed_meter now signed_data cost payout meter =
    let claimed = provider_claimed meter.billing_type payout meter in
    let used = record claimed {
      usage_data = usage_after now signed_data cost claimed.usage_data;
    } in
    record (refresh_activity used) { last_update = now }

-- What every report must pass.
unfoldable pub check_report : Env → SignedUsageData → Meter → Action (Unit {0})
check_report env signed_data meter = do
  require_auth env meter.provider
  or_abort (validate_ed25519_signature signed_data.signature)
  or_abort (validate_ed25519_public_key signed_data.public_key)
  last_reading_time ← gets (λ s. unwrap_or 0 (s.last_reading_time signed_data.meter_id))
  or_abort (
      validate_reading last_reading_time meter.resource_type signed_data.watt_hours_consumed
        signed_data.units_consumed signed_data.timestamp)
  verified ← or_abort (verify_usage_signature env signed_data meter)
  panic_if (not verified) call_failed
  panic_if meter.is_disputed in_dispute
  panic_if (not meter.is_paired) meter_not_paired
  panic_if meter.is_updating firmware_update_in_progress

abbrev noted_report :
    (meter_id timestamp provider : ℕ) → ProviderWithdrawalWindow → (cost : ℤ) → State → State
noted_report meter_id timestamp provider window cost s = record s {
  provider_window =
      put provider (record window { daily_withdrawn = saturating_add window.daily_withdrawn cost })
        s.provider_window;
  last_reading_time = put meter_id timestamp s.last_reading_time;
}

unfoldable pub deduct_units : Env → SignedUsageData → Action (Unit {0})
deduct_units env signed_data = do
  let meter_id = signed_data.meter_id
  meter ← get_meter_or_panic meter_id
  check_report env signed_data meter
  let actual = actual_cost signed_data meter
  let estimated = meter.estimated_usage_total
  when meter.is_offline (
      modify
        (publish (off_recon meter_id estimated actual (saturating_sub estimated actual) env.now)))
  let online = reconciled env.now meter
  let cost = cost_of signed_data meter
  window ← gets (apply_provider_withdrawal_limit env meter.provider cost)
  payout ← pay_usage env meter_id online cost
  auto_extend_ttl_if_needed env meter_id
  modify (noted_report meter_id signed_data.timestamp meter.provider window cost)
  modify (
      store_tracked meter_id (provider_meter_value meter)
        (billed_meter env.now signed_data cost payout online))
  modify (publish (usage_reported meter_id signed_data.units_consumed cost))
