-- ===== src/UtilityContracts/Meters/Tests.antt =====
-- The theorems on meters, applied to the run of meter 1.
use utility_contracts.Base.{
  List, ◌∷◌, ℕ, ◌≡◌, refl, pos, ◌≤ℤ◌, arith, true, some, none, Option, ok, err, ◌+ℤ◌, ◌<◌, ◌≤◌,
  wrapping_sub, saturating_sub, saturating_add, saturating_mul, wrapping_mul, ◌-ℤ◌, ◌*ℤ◌, ◌/ℤ◌, ltb,
  if◌then◌else◌,
}
use utility_contracts.UtilityContracts.Errors.{duplicate_timestamp}
use utility_contracts.UtilityContracts.Meters.Types.{
  Transfer, Meter, State, SignedUsageData, pre_paid, electricity, call_transfer,
}
use utility_contracts.UtilityContracts.Meters.Helpers.{
  refresh_activity, calculate_tax_split, get_effective_rate, sla_penalized, validate_reading,
  verify_usage_signature, apply_provider_withdrawal_limit, debt_threshold,
}
use utility_contracts.UtilityContracts.Meters.Registration.{
  register_meter_with_mode, complete_pairing, new_meter,
}
use utility_contracts.UtilityContracts.Meters.Payouts.{
  from_contract, auto_extend_ttl_if_needed, allocate_to_maintenance_fund, pay_tax,
  issue_carbon_credits, pay_fee, effective_fee_bps,
}
use utility_contracts.UtilityContracts.Meters.Claims.{
  claim, amount_due, within_hour, claimable_of, pay_claim, claimed_meter, is_same_hour,
}
use utility_contracts.UtilityContracts.Meters.Funds.{top_up, credited, convert_xlm_to_usd_if_needed}
use utility_contracts.UtilityContracts.Meters.Usage.{
  deduct_units, discounted_rate, reconciled, provider_claimed, usage_after, pay_usage, billed_meter,
  check_report,
}
use utility_contracts.UtilityContracts.Meters.Pools.{IsTracked}
use utility_contracts.UtilityContracts.Meters.Shares.{sent_by}
use utility_contracts.UtilityContracts.Meters.History.{
  start, next, registered, funded, administered, Reachable-IsTracked,
}
use utility_contracts.UtilityContracts.Meters.Replay.{at_once, report_once}
use utility_contracts.UtilityContracts.Meters.Limits.{claim_limits, claim_pays}
use utility_contracts.UtilityContracts.Meters.Bills.{report_pays}
use utility_contracts.UtilityContracts.Meters.Run.{
  at_time, state_of, settings, s3, s4, s5, report, s6, opening, paying, claiming, billing, small0,
  small1, small2, small3,
}

-- The report is refused when it comes again.
again : deduct_units (at_time 1_000_220) report s6 ≡ err duplicate_timestamp
unfolding deduct_units claim complete_pairing top_up register_meter_with_mode
    convert_xlm_to_usd_if_needed call_transfer amount_due within_hour claimable_of pay_claim pay_tax
    issue_carbon_credits pay_fee credited sla_penalized calculate_tax_split refresh_activity
    allocate_to_maintenance_fund auto_extend_ttl_if_needed effective_fee_bps check_report
    validate_reading verify_usage_signature apply_provider_withdrawal_limit discounted_rate
    get_effective_rate reconciled pay_usage claimed_meter saturating_add saturating_sub
    saturating_mul wrapping_sub wrapping_mul ◌+ℤ◌ ◌-ℤ◌ ◌*ℤ◌ ◌/ℤ◌ billed_meter provider_claimed
    usage_after
again = refl

Reachable-IsTracked_example : IsTracked s3
Reachable-IsTracked_example = Reachable-IsTracked s3 (
    next
      (next
        (next start small0
          (registered (at_time 1_000_000) 5 7 (pos 10) 4 pre_paid 99 0 1 electricity (omega arith)
            opening)
          small1)
        small1 (administered settings) small2)
      small2 (funded (at_time 1_000_050) 1 (pos 5_000) 5 paying) small3)

abbrev next_report : SignedUsageData
next_report = record report { timestamp = 1_000_505 }

abbrev s7 : State
unfolding deduct_units
s7 = state_of (deduct_units (at_time 1_000_510) next_report s6)

billing_next : deduct_units (at_time 1_000_510) next_report s6 ≡ ok (tt, s7)
unfolding deduct_units claim complete_pairing top_up register_meter_with_mode
    convert_xlm_to_usd_if_needed call_transfer amount_due within_hour claimable_of pay_claim pay_tax
    issue_carbon_credits pay_fee credited sla_penalized calculate_tax_split refresh_activity
    allocate_to_maintenance_fund auto_extend_ttl_if_needed effective_fee_bps check_report
    validate_reading verify_usage_signature apply_provider_withdrawal_limit discounted_rate
    get_effective_rate reconciled pay_usage claimed_meter saturating_add saturating_sub
    saturating_mul wrapping_sub wrapping_mul ◌+ℤ◌ ◌-ℤ◌ ◌*ℤ◌ ◌/ℤ◌ billed_meter provider_claimed
    usage_after
billing_next = refl

report_once_example : 1_000_200 < 1_000_505
report_once_example =
    report_once (at_time 1_000_210) (at_time 1_000_510) report next_report s5 s6 s6 s7 billing
      at_once billing_next refl

abbrev meter_or : Option Meter → Meter
meter_or (some m) = m
meter_or none = new_meter 0 0 0 (pos 0) 0 pre_paid 0 0 electricity

abbrev m4 : Meter
m4 = meter_or (s4.meter 1)

found4 : s4.meter 1 ≡ some m4
unfolding deduct_units claim complete_pairing top_up register_meter_with_mode
    convert_xlm_to_usd_if_needed call_transfer amount_due within_hour claimable_of pay_claim pay_tax
    issue_carbon_credits pay_fee credited sla_penalized calculate_tax_split refresh_activity
    allocate_to_maintenance_fund auto_extend_ttl_if_needed effective_fee_bps check_report
    validate_reading verify_usage_signature apply_provider_withdrawal_limit discounted_rate
    get_effective_rate reconciled pay_usage claimed_meter saturating_add saturating_sub
    saturating_mul wrapping_sub wrapping_mul ◌+ℤ◌ ◌-ℤ◌ ◌*ℤ◌ ◌/ℤ◌ billed_meter provider_claimed
    usage_after
found4 = refl

claim_limits_example :
    (after : Meter) × (s5.meter 1 ≡ some after)
    × (debt_threshold ≤ℤ after.balance)
    × (after.balance ≤ℤ m4.balance)
    × ((is_same_hour 1_000_100 m4 ≡ true) → after.claimed_this_hour ≤ℤ after.max_flow_rate_per_hour)
unfolding deduct_units claim complete_pairing top_up register_meter_with_mode
    convert_xlm_to_usd_if_needed call_transfer amount_due within_hour claimable_of pay_claim pay_tax
    issue_carbon_credits pay_fee credited sla_penalized calculate_tax_split refresh_activity
    allocate_to_maintenance_fund auto_extend_ttl_if_needed effective_fee_bps check_report
    validate_reading verify_usage_signature apply_provider_withdrawal_limit discounted_rate
    get_effective_rate reconciled pay_usage claimed_meter saturating_add saturating_sub
    saturating_mul wrapping_sub wrapping_mul ◌+ℤ◌ ◌-ℤ◌ ◌*ℤ◌ ◌/ℤ◌ billed_meter provider_claimed
    usage_after
claim_limits_example =
    claim_limits (at_time 1_000_100) 1 m4 s4 s5 found4 (omega arith, omega arith)
      (omega arith, omega arith) (omega arith, omega arith, omega arith) claiming

claim_pays_example :
    (sent_by 1 s5.transfers ≡ pos 1_000 +ℤ sent_by 1 s4.transfers)
    × (after : Meter) × (s5.meter 1 ≡ some after)
    × (after.balance ≡ wrapping_sub m4.balance (pos 1_000))
unfolding deduct_units claim complete_pairing top_up register_meter_with_mode
    convert_xlm_to_usd_if_needed call_transfer amount_due within_hour claimable_of pay_claim pay_tax
    issue_carbon_credits pay_fee credited sla_penalized calculate_tax_split refresh_activity
    allocate_to_maintenance_fund auto_extend_ttl_if_needed effective_fee_bps check_report
    validate_reading verify_usage_signature apply_provider_withdrawal_limit discounted_rate
    get_effective_rate reconciled pay_usage claimed_meter saturating_add saturating_sub
    saturating_mul wrapping_sub wrapping_mul ◌+ℤ◌ ◌-ℤ◌ ◌*ℤ◌ ◌/ℤ◌ billed_meter provider_claimed
    usage_after
claim_pays_example =
    claim_pays (at_time 1_000_100) 1 m4 1_000 0 100 200 s4 s5 found4 refl (omega arith, omega arith)
      (ground arith) refl (refl, omega arith) (refl, omega arith) claiming

abbrev m5 : Meter
m5 = meter_or (s5.meter 1)

found5 : s5.meter 1 ≡ some m5
unfolding deduct_units claim complete_pairing top_up register_meter_with_mode
    convert_xlm_to_usd_if_needed call_transfer amount_due within_hour claimable_of pay_claim pay_tax
    issue_carbon_credits pay_fee credited sla_penalized calculate_tax_split refresh_activity
    allocate_to_maintenance_fund auto_extend_ttl_if_needed effective_fee_bps check_report
    validate_reading verify_usage_signature apply_provider_withdrawal_limit discounted_rate
    get_effective_rate reconciled pay_usage claimed_meter saturating_add saturating_sub
    saturating_mul wrapping_sub wrapping_mul ◌+ℤ◌ ◌-ℤ◌ ◌*ℤ◌ ◌/ℤ◌ billed_meter provider_claimed
    usage_after
found5 = refl

report_pays_example :
    (payout : ℕ) × (payout ≤ 196)
    × (195 ≤ payout)
    × (earlier : List Transfer) × (s6.transfers ≡ (
        if ltb 0 payout
        then from_contract (at_time 1_000_210) m5 7 (pos payout) ∷ earlier
        else earlier))
    × (sent_by 1 s6.transfers ≡ pos 200 +ℤ sent_by 1 s5.transfers)
    × (after : Meter) × (s6.meter 1 ≡ some after)
    × (after.balance ≡ (
        if ltb 0 payout
        then saturating_sub (reconciled 1_000_210 m5).balance (pos payout)
        else (reconciled 1_000_210 m5).balance))
unfolding deduct_units claim complete_pairing top_up register_meter_with_mode
    convert_xlm_to_usd_if_needed call_transfer amount_due within_hour claimable_of pay_claim pay_tax
    issue_carbon_credits pay_fee credited sla_penalized calculate_tax_split refresh_activity
    allocate_to_maintenance_fund auto_extend_ttl_if_needed effective_fee_bps check_report
    validate_reading verify_usage_signature apply_provider_withdrawal_limit discounted_rate
    get_effective_rate reconciled pay_usage claimed_meter saturating_add saturating_sub
    saturating_mul wrapping_sub wrapping_mul ◌+ℤ◌ ◌-ℤ◌ ◌*ℤ◌ ◌/ℤ◌ billed_meter provider_claimed
    usage_after
report_pays_example =
    report_pays (at_time 1_000_210) report m5 200 0 100 200 s5 s6 found5 refl (refl, omega arith)
      (ground arith) refl (refl, omega arith) (refl, omega arith) billing
