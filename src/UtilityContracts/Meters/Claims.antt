-- ===== src/UtilityContracts/Meters/Claims.antt =====
-- The claim of a provider, lib.rs.
use utility_contracts.Base.{
  ℕ, ℤ, pos, Bool, ◌&&◌, ltb_ℤ, leb_ℤ, ◌==◌, if◌then◌else◌, saturating_add, saturating_sub,
  saturating_mul, wrapping_add, wrapping_sub, ◌/◌, ◌-◌, put, ◌>>=◌, ◌>>◌, modify, panic_if, when,
}
use utility_contracts.UtilityContracts.Errors.{in_dispute}
use utility_contracts.UtilityContracts.Meters.Types.{
  BillingType, pre_paid, post_paid, Meter, State, Env, Action, require_auth, get_meter_or_panic,
  call_transfer,
}
use utility_contracts.UtilityContracts.Meters.Helpers.{
  debt_threshold, provider_meter_value, refresh_activity, update_provider_total_pool, min_ℤ,
  sla_penalized,
}
use utility_contracts.UtilityContracts.Meters.Payouts.{
  from_contract, allocate_to_maintenance_fund, pay_tax, issue_carbon_credits, pay_fee,
  auto_extend_ttl_if_needed,
}

-- What the seconds since the last update cost.
unfoldable pub amount_due : (now : ℕ) → Meter → ℤ
amount_due now meter = sla_penalized meter (
    saturating_mul (pos (now - meter.last_update))
      (saturating_add meter.rate_per_unit meter.credit_drip_rate))

abbrev pub is_same_hour : (now : ℕ) → Meter → Bool
is_same_hour now meter = (now / 3_600) == (meter.last_claim_time / 3_600)

-- Only a second claim in an hour is held to the maximum of the hour.
unfoldable pub within_hour : (now : ℕ) → Meter → ℤ → ℤ
within_hour now meter amount =
    let max_allowed = wrapping_sub meter.max_flow_rate_per_hour meter.claimed_this_hour in
    if is_same_hour now meter then min_ℤ amount max_allowed else amount

-- A meter may go into debt down to the threshold.
unfoldable pub claimable_of : Meter → ℤ → ℤ
claimable_of meter amount =
    if ltb_ℤ meter.balance amount && leb_ℤ debt_threshold (wrapping_sub meter.balance amount)
    then amount
    else if ltb_ℤ meter.balance amount
    then wrapping_sub meter.balance debt_threshold
    else amount

abbrev pub claim_of : (now : ℕ) → Meter → ℤ
claim_of now meter = claimable_of meter (within_hour now meter (amount_due now meter))

unfoldable pub pay_claim : Env → (meter_id : ℕ) → Meter → (claimable : ℤ) → Action (Unit {0})
pay_claim env meter_id meter claimable = do
  modify (allocate_to_maintenance_fund meter_id claimable)
  after_tax ← pay_tax env meter_id meter claimable
  credit_discount_active ← issue_carbon_credits env meter_id meter claimable
  payout ← pay_fee env meter wrapping_sub credit_discount_active after_tax
  when (ltb_ℤ (pos 0) payout) (call_transfer env (from_contract env meter meter.provider payout))

-- A credit drip pays a post-paid meter's debt off.
abbrev debt_after : (now : ℕ) → Meter → BillingType → ℤ
debt_after now meter pre_paid = meter.debt
debt_after now meter post_paid =
    if ltb_ℤ (pos 0) meter.credit_drip_rate
    then saturating_sub meter.debt
        (min_ℤ (saturating_mul (pos (now - meter.last_update)) meter.credit_drip_rate) meter.debt)
    else meter.debt

abbrev claimed_before : (now : ℕ) → Meter → ℤ
claimed_before now meter = if is_same_hour now meter then meter.claimed_this_hour else pos 0

abbrev claimed_after : (now : ℕ) → Meter → (claimable : ℤ) → ℤ
claimed_after now meter claimable =
    if is_same_hour now meter then wrapping_add meter.claimed_this_hour claimable else claimable

unfoldable pub claimed_meter : (now : ℕ) → Meter → (claimable : ℤ) → Meter
claimed_meter now meter claimable =
    let is_paid = ltb_ℤ (pos 0) claimable in
    record meter {
      balance = if is_paid then wrapping_sub meter.balance claimable else meter.balance;
      claimed_this_hour =
          if is_paid then claimed_after now meter claimable else claimed_before now meter;
      debt = if is_paid then debt_after now meter meter.billing_type else meter.debt;
      last_update = now;
      last_claim_time = now;
    }

-- A meter is stored again, and its provider's pool follows its value.
abbrev pub store_tracked : (meter_id : ℕ) → (old_meter_value : ℤ) → Meter → State → State
store_tracked meter_id old_meter_value meter s = record s {
  meter = put meter_id meter s.meter;
  provider_total_pool =
      update_provider_total_pool meter.provider old_meter_value (provider_meter_value meter)
        s.provider_total_pool;
}

unfoldable pub claim : Env → (meter_id : ℕ) → Action (Unit {0})
claim env meter_id = do
  meter ← get_meter_or_panic meter_id
  require_auth env meter.provider
  panic_if meter.is_disputed in_dispute
  let claimable = claim_of env.now meter
  when (ltb_ℤ (pos 0) claimable) (pay_claim env meter_id meter claimable)
  auto_extend_ttl_if_needed env meter_id
  let charged = refresh_activity (claimed_meter env.now meter claimable)
  modify (store_tracked meter_id (provider_meter_value meter) charged)
