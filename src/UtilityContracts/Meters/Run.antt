-- ===== src/UtilityContracts/Meters/Run.antt =====
-- A run of meter 1 of user 5 and provider 7 at a rate of 10: registered, topped up, paired, claimed from, billed.
use utility_contracts.Base.{
  ℕ, ◌≡◌, ◌≢◌, refl, ℤ, pos, arith, int_laws, true, false, ◌||◌, some, none, ok, err, Result, put,
  no_entries, inl, inr, Bool-cases, ◌==◌, ◌+ℤ◌, wrapping_sub, saturating_sub, saturating_add,
  saturating_mul, wrapping_mul, ◌-ℤ◌, ◌*ℤ◌, ◌/ℤ◌,
}
use utility_contracts.UtilityContracts.Errors.{ContractError}
use utility_contracts.UtilityContracts.Meters.Types.{
  Meter, State, Env, SignedUsageData, pre_paid, electricity, call_transfer,
}
use utility_contracts.UtilityContracts.Meters.Helpers.{
  provider_meter_value, refresh_activity, calculate_tax_split, get_effective_rate, sla_penalized,
  validate_reading, verify_usage_signature, apply_provider_withdrawal_limit,
}
use utility_contracts.UtilityContracts.Meters.Registration.{
  register_meter_with_mode, complete_pairing,
}
use utility_contracts.UtilityContracts.Meters.Payouts.{
  auto_extend_ttl_if_needed, allocate_to_maintenance_fund, pay_tax, issue_carbon_credits, pay_fee,
  effective_fee_bps,
}
use utility_contracts.UtilityContracts.Meters.Claims.{
  claim, amount_due, within_hour, claimable_of, pay_claim, claimed_meter,
}
use utility_contracts.UtilityContracts.Meters.Funds.{top_up, credited, convert_xlm_to_usd_if_needed}
use utility_contracts.UtilityContracts.Meters.Usage.{
  deduct_units, discounted_rate, reconciled, pay_usage, check_report,
}
use utility_contracts.UtilityContracts.Meters.Pools.{IsModerate, IsSmall, total, worth}
use utility_contracts.UtilityContracts.Meters.History.{deployed, Settings, administer}

-- At `now`, authorized by the user and the provider.
abbrev pub at_time : (now : ℕ) → Env
at_time now = record {
  now = now;
  authorized = λ a. a == 5 || a == 7;
  ledger_sequence = now;
  current_contract = 1;
  accepts_transfer = λ earlier t. true;
  to_usd_cents = λ o a. some a;
  to_xlm = λ o a. some a;
  verify_green_source = λ o p i t. some false;
  ed25519_verify = λ d. true;
  verify_pairing = λ k c i t s. true;
}

abbrev pub state_of : {A : Type 0} → Result ContractError (A × State) → State
state_of (ok r) = r.1
state_of (err e) = deployed

-- Tax goes to vault 8, and one per cent to wallet 9.
abbrev pub settings : Settings
settings = record {
  wallet = some 9;
  tax = some (pos 200);
  fee = some (pos 100);
  vault = some 8;
  oracle = none;
  contributors = λ i. no_entries;
  challenges = put 1 33 no_entries;
}

abbrev pub s1 : State
unfolding register_meter_with_mode
s1 =
    state_of (
      register_meter_with_mode (at_time 1_000_000) 5 7 (pos 10) 4 pre_paid 99 0 electricity
        deployed)

abbrev pub s2 : State
s2 = administer settings s1

abbrev pub s3 : State
unfolding top_up
s3 = state_of (top_up (at_time 1_000_050) 1 (pos 5_000) 5 s2)

abbrev pub s4 : State
unfolding complete_pairing
s4 = state_of (complete_pairing (at_time 1_000_060) 1 77 s3)

abbrev pub s5 : State
unfolding claim
s5 = state_of (claim (at_time 1_000_100) 1 s4)

abbrev pub report : SignedUsageData
report = record {
  meter_id = 1;
  timestamp = 1_000_200;
  watt_hours_consumed = pos 50;
  units_consumed = pos 20;
  signature = 77;
  public_key = 99;
  is_renewable_energy = false;
}

abbrev pub s6 : State
unfolding deduct_units
s6 = state_of (deduct_units (at_time 1_000_210) report s5)

pub opening :
    register_meter_with_mode (at_time 1_000_000) 5 7 (pos 10) 4 pre_paid 99 0 electricity deployed
    ≡ ok (1, s1)
unfolding register_meter_with_mode
opening = refl

pub paying : top_up (at_time 1_000_050) 1 (pos 5_000) 5 s2 ≡ ok (tt, s3)
unfolding top_up register_meter_with_mode convert_xlm_to_usd_if_needed call_transfer
paying = refl

pairing : complete_pairing (at_time 1_000_060) 1 77 s3 ≡ ok (tt, s4)
unfolding complete_pairing top_up register_meter_with_mode convert_xlm_to_usd_if_needed
    call_transfer refresh_activity credited
pairing = refl

pub claiming : claim (at_time 1_000_100) 1 s4 ≡ ok (tt, s5)
unfolding claim complete_pairing top_up register_meter_with_mode convert_xlm_to_usd_if_needed
    call_transfer amount_due within_hour claimable_of pay_claim pay_tax issue_carbon_credits pay_fee
    credited sla_penalized calculate_tax_split refresh_activity allocate_to_maintenance_fund
    auto_extend_ttl_if_needed effective_fee_bps saturating_add saturating_sub saturating_mul
    wrapping_sub wrapping_mul ◌+ℤ◌ ◌-ℤ◌ ◌*ℤ◌ ◌/ℤ◌
claiming = refl

pub billing : deduct_units (at_time 1_000_210) report s5 ≡ ok (tt, s6)
unfolding deduct_units claim complete_pairing top_up register_meter_with_mode
    convert_xlm_to_usd_if_needed call_transfer amount_due within_hour claimable_of pay_claim pay_tax
    issue_carbon_credits pay_fee credited sla_penalized calculate_tax_split refresh_activity
    allocate_to_maintenance_fund auto_extend_ttl_if_needed effective_fee_bps check_report
    validate_reading verify_usage_signature apply_provider_withdrawal_limit discounted_rate
    get_effective_rate reconciled pay_usage claimed_meter saturating_add saturating_sub
    saturating_mul wrapping_sub wrapping_mul ◌+ℤ◌ ◌-ℤ◌ ◌*ℤ◌ ◌/ℤ◌
billing = refl

-- States with meter 1 alone, of a small value.
none-IsModerate : (s : State) → s.count ≡ none → ((i : ℕ) → s.meter i ≡ none) → IsModerate s
unfolding total
none-IsModerate s counted empty = record {
  totals = λ p. rw counted (omega arith, omega arith);
  values = λ i meter h. absurd (ground (arith, h, empty i));
}

worth-IsSmall : (p : ℕ) (m : Meter) → IsSmall (provider_meter_value m) → IsSmall (worth p (some m))
worth-IsSmall p m h = elim (Bool-cases (m.provider == p)) [
  | inl e ↦ rw e h
  | inr e ↦ rw e (omega arith, omega arith)
]

add_none-IsSmall : (a : ℤ) → IsSmall a → IsSmall (a +ℤ pos 0)
add_none-IsSmall a h = (omega int_laws, omega int_laws)

one-IsModerate :
    (s : State) (m : Meter)
    → s.count ≡ some 1
    → s.meter 1 ≡ some m
    → ((i : ℕ) → i ≢ 1 → s.meter i ≡ none)
    → IsSmall (provider_meter_value m)
    → IsModerate s
unfolding total
one-IsModerate s m counted here empty small = record {
  totals = λ p. rw (counted, here) (add_none-IsSmall (worth p (some m)) (worth-IsSmall p m small));
  values = λ i meter h. elim (Bool-cases (i == 1)) [
    | inl e ↦
        let one : i ≡ 1 = ground (arith, e) in
        let same : m ≡ meter = ground (arith, rw one at h, here) in rw⁻¹ same small
    | inr e ↦ absurd (ground (arith, h, empty i (ground (arith, e))))
  ];
}

pub small0 : IsModerate deployed
small0 = none-IsModerate deployed refl (λ i. refl)

pub small1 : IsModerate s1
unfolding register_meter_with_mode provider_meter_value
small1 = one-IsModerate s1 _ refl refl (λ i n. ground (arith, n)) (omega arith, omega arith)

pub small2 : IsModerate s2
unfolding register_meter_with_mode provider_meter_value
small2 = one-IsModerate s2 _ refl refl (λ i n. ground (arith, n)) (omega arith, omega arith)

pub small3 : IsModerate s3
unfolding top_up register_meter_with_mode provider_meter_value convert_xlm_to_usd_if_needed
    call_transfer refresh_activity credited saturating_add ◌+ℤ◌
small3 = one-IsModerate s3 _ refl refl (λ i n. ground (arith, n)) (omega arith, omega arith)
