-- ===== src/UtilityContracts/Stream/Tests.antt =====
-- Concrete streams: a contract of address 1 with two streams of provider 7, paid by 8.
use utility_contracts.Base.{
  ℕ, ◌≡◌, refl, pos, ◌+ℤ◌, ◌-ℤ◌, ◌≤ℤ◌, ◌≤◌, arith, some, true, false, put, ok, err, no_entries, ◌⊎◌,
  i128_max, saturating_mul, ◌-◌, saturating_add, saturating_sub, ◌*ℤ◌, ◌/ℤ◌,
}
use utility_contracts.UtilityContracts.Stream.Types.{ContinuousFlow, State, Env, active, is_active}
use utility_contracts.UtilityContracts.Stream.Fleet.{fleet_get_active_sum, fleet_get_cap}
use utility_contracts.UtilityContracts.Stream.Temporary.{
  calculate_fresh_accumulation, calculate_with_temp_storage, flush_temporary_storage,
}
use utility_contracts.UtilityContracts.Stream.Update.{update_continuous_flow}
use utility_contracts.UtilityContracts.Stream.Creation.{create_continuous_stream}
use utility_contracts.UtilityContracts.Stream.Rates.{update_flow_rate}
use utility_contracts.UtilityContracts.Stream.Balances.{withdraw_continuous}
use utility_contracts.UtilityContracts.Stream.Fees.{update_repeats}
use utility_contracts.UtilityContracts.Stream.Solvency.{IsSolvent}
use utility_contracts.UtilityContracts.Stream.Lifecycle.{create_within_cap, rate_change_reprices}
use utility_contracts.UtilityContracts.Stream.History.{
  deployed, start, next, created, withdrawn, Reachable-IsSolvent,
}

abbrev at : ℕ → Env
at now = record {
  now = now;
  sequence = 3;
  authorized = λ who. true;
  current_contract = 1;
  accepts_transfer = λ earlier t. true;
  signature_valid = λ key i meter signature. true;
}

abbrev lamp : ContinuousFlow
lamp = record {
  stream_id = 5;
  flow_rate_per_second = pos 2;
  accumulated_balance = pos 100;
  last_flow_timestamp = 1000;
  created_timestamp = 1000;
  status = active;
  paused_at = 0;
  provider = 7;
  buffer_balance = pos 172_800;
  buffer_warning_sent = false;
  payer = 8;
  priority_tier = 1;
  grid_epoch_seen = 0;
  device_mac_pubkey = 9;
  is_unreliable = false;
}

abbrev lit : State
lit = record deployed {
  flows = put 5 lamp no_entries;
  platform_fee_bps = some (pos 500);
  fleet_agg = put 7 (pos 2) no_entries;
}

charged_once : (update_continuous_flow (at 1030) lamp 1030 lit).0 ≡ pos 57
unfolding update_continuous_flow saturating_add ◌+ℤ◌ saturating_sub ◌-ℤ◌ saturating_mul ◌*ℤ◌ ◌/ℤ◌
    calculate_with_temp_storage calculate_fresh_accumulation flush_temporary_storage
charged_once = refl

-- An hour later the same 60 are accumulated again.
update_repeats_example :
    (calculate_with_temp_storage
      (update_continuous_flow (at 1030) lamp 1030 lit).1
      4630
      (update_continuous_flow (at 1030) lamp 1030 lit).2).0
    ≡ calculate_fresh_accumulation lamp 1030
update_repeats_example = update_repeats (at 1030) lamp 1030 4630 lit refl

abbrev after_creation : State
unfolding create_continuous_stream
after_creation = elim (create_continuous_stream (at 1000) 5 (pos 2) (pos 100) 7 8 1 9 deployed) [
  | ok r ↦ r.1
  | err e ↦ deployed
]

creation :
    create_continuous_stream (at 1000) 5 (pos 2) (pos 100) 7 8 1 9 deployed
    ≡ ok (tt, after_creation)
unfolding create_continuous_stream saturating_add ◌+ℤ◌
creation = refl

abbrev after_withdrawal : State
unfolding withdraw_continuous
after_withdrawal = elim (withdraw_continuous (at 1030) 5 (pos 40) after_creation) [
  | ok r ↦ r.1
  | err e ↦ deployed
]

withdrawal : withdraw_continuous (at 1030) 5 (pos 40) after_creation ≡ ok (pos 40, after_withdrawal)
unfolding withdraw_continuous after_creation saturating_add ◌+ℤ◌ saturating_sub ◌-ℤ◌ saturating_mul
    ◌*ℤ◌ ◌/ℤ◌ calculate_with_temp_storage calculate_fresh_accumulation flush_temporary_storage
withdrawal = refl

Reachable-IsSolvent_example : IsSolvent after_withdrawal
Reachable-IsSolvent_example = Reachable-IsSolvent after_withdrawal (
    next (next start (created (at 1000) 5 (pos 2) (pos 100) 7 8 1 9 (omega arith) creation))
      (withdrawn (at 1030) 5 (pos 40) (pos 40) withdrawal))

no_sum_amount :
    (pos 0 ≤ℤ fleet_get_active_sum 7 deployed) × (fleet_get_active_sum 7 deployed ≤ℤ i128_max)
unfolding fleet_get_active_sum
no_sum_amount = (omega arith, omega arith)

create_within_cap_example :
    (fleet_get_active_sum 7 after_creation ≤ℤ fleet_get_cap 7 after_creation) ⊎ (pos 100 ≡ pos 0)
create_within_cap_example =
    create_within_cap (at 1000) 5 (pos 2) (pos 100) 7 8 1 9 deployed after_creation (no_sum_amount)
      creation

abbrev after_rate_change : State
unfolding update_flow_rate
after_rate_change = elim (update_flow_rate (at 1500) 5 (pos 50) lit) [
  | ok r ↦ r.1
  | err e ↦ deployed
]

rate_change : update_flow_rate (at 1500) 5 (pos 50) lit ≡ ok (tt, after_rate_change)
unfolding update_flow_rate saturating_add ◌+ℤ◌ saturating_sub ◌-ℤ◌
rate_change = refl

-- At 1500 the rate goes from 2 to 50: the 500 seconds before count at 50.
rate_change_reprices_example :
    (flow' : ContinuousFlow) × (after_rate_change.flows 5 ≡ some flow')
    × (flow'.accumulated_balance ≡ lamp.accumulated_balance)
    × (flow'.buffer_balance ≡ lamp.buffer_balance)
    × (flow'.last_flow_timestamp ≡ lamp.last_flow_timestamp)
    × (flow'.flow_rate_per_second ≡ pos 50)
    × ((is_active flow'.status ≡ true)
        → lamp.last_flow_timestamp ≤ 1500
        → calculate_fresh_accumulation flow' 1500
          ≡ saturating_mul (pos 50) (pos (1500 - lamp.last_flow_timestamp)))
rate_change_reprices_example =
    rate_change_reprices (at 1500) 5 (pos 50) 1500 lamp lit after_rate_change refl rate_change
