-- ===== src/UtilityContracts/TariffOracle/Tests.antt =====
-- The default schedule over the change from hour 6 to hour 7, and an update that waits for its day.
use utility_contracts.Base.{
  ℕ, ◌+◌, ◌-◌, ◌*◌, ◌/◌, ◌%◌, ◌^◌, ◌≤◌, ◌≡◌, refl, pos, ◌≤ℤ◌, some, ok, err, Result, arith, true,
}
use utility_contracts.UtilityContracts.Errors.{ContractError, admin_execution_window_expired}
use utility_contracts.UtilityContracts.TariffOracle.Types.{
  HourlyTariff, DailyTariffSchedule, FlowCalculationResult, State, Env,
}
use utility_contracts.UtilityContracts.TariffOracle.Schedules.{
  initialize, propose_tariff_update, execute_tariff_update, get_current_tariff,
  get_default_schedule, tariff_notice_period, default_rates,
}
use utility_contracts.UtilityContracts.TariffOracle.Period.{calculate_flow_for_period}
use utility_contracts.UtilityContracts.TariffOracle.Blended.{per_second, calculate_flow_lem}
use utility_contracts.UtilityContracts.TariffOracle.History.{
  IsValid, Reachable, deployed, start, next, initialized, proposed,
}
use utility_contracts.UtilityContracts.TariffOracle.Proposals.{Proposed, proposals_of}
use utility_contracts.UtilityContracts.TariffOracle.Notice.{
  Reachable-priced, Reachable-PricedBy, rates_in_force, execute_after_notice,
}

abbrev at : ℕ → Env
at now = record {
  now = now;
  authorized = λ who. true;
  sha256 = λ x. x.schedule_date;
  generated = 3;
  fresh_now = 0;
}

Reachable-priced_example :
    (tariff : HourlyTariff) × (get_current_tariff (at 100) 7 deployed ≡ ok (tariff, deployed))
    × (tariff.hour ≡ 7)
    × (pos 1 ≤ℤ tariff.rate_cents_per_kwh)
Reachable-priced_example = Reachable-priced (at 100) 7 deployed start (omega arith)

-- 10 seconds at 8 and 10 at 15.
blended : per_second (rates_in_force (at 100) deployed) 25_190 20 ≡ 230
unfolding per_second rates_in_force
blended = refl

calculate_flow_lem_example :
    (result : FlowCalculationResult) × (calculate_flow_for_period
        (at 100)
        25_190
        25_210
        (pos 3)
        deployed
      ≡ ok (result, deployed))
    × (result.total_tokens
        ≡ pos (3 * per_second (rates_in_force (at 100) deployed) 25_190 (25_210 - 25_190)))
    × (result.weighted_rate_per_second
        ≡ pos (
            per_second (rates_in_force (at 100) deployed) 25_190 (25_210 - 25_190)
            / (25_210 - 25_190)))
    × (result.duration_seconds ≡ 25_210 - 25_190)
calculate_flow_lem_example =
    calculate_flow_lem (at 100) 25_190 25_210 3 (rates_in_force (at 100) deployed) deployed
      (Reachable-PricedBy (at 100) deployed start) (omega arith) (omega arith)
      (omega (arith, blended)) (omega (arith, blended))

abbrev schedule : DailyTariffSchedule
unfolding default_rates
schedule = get_default_schedule (at 0)

abbrev left : {A : Type 0} → Result ContractError (A × State) → State
left (ok r) = r.1
left (err e) = deployed

abbrev set_up : State
unfolding initialize
set_up = left (initialize (at 10) 5 schedule deployed)

setting_up : initialize (at 10) 5 schedule deployed ≡ ok (tt, set_up)
unfolding initialize schedule
setting_up = refl

abbrev waiting : State
unfolding propose_tariff_update
waiting = left (propose_tariff_update (at 100) schedule 8 set_up)

proposing : propose_tariff_update (at 100) schedule 8 set_up ≡ ok (1, waiting)
unfolding propose_tariff_update set_up schedule
proposing = refl

too_early : execute_tariff_update (at 86_499) 1 waiting ≡ err admin_execution_window_expired
unfolding execute_tariff_update waiting set_up schedule
too_early = refl

abbrev changed : State
unfolding execute_tariff_update
changed = left (execute_tariff_update (at 86_500) 1 waiting)

changing : execute_tariff_update (at 86_500) 1 waiting ≡ ok (tt, changed)
unfolding execute_tariff_update waiting set_up schedule
changing = refl

abbrev history : Reachable waiting
history =
    next (next start (initialized (at 10) 5 schedule setting_up))
      (proposed (at 100) schedule 8 1 proposing)

execute_after_notice_example :
    (time : ℕ) × (x : DailyTariffSchedule) × Proposed 1 time x (proposals_of history)
    × ((time + tariff_notice_period) % 2 ^ 64 ≤ 86_500)
    × (changed.current_tariff_schedule ≡ some x)
    × IsValid x
execute_after_notice_example = execute_after_notice (at 86_500) 1 waiting changed history changing
