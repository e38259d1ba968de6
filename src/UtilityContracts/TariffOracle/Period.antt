-- ===== src/UtilityContracts/TariffOracle/Period.antt =====
-- The cost of a consumption now and over a period. Hours start at the multiples of 3600 below 2^64, of which
-- 2^64 - 16 is the last one.
use utility_contracts.Base.{
  ℕ, zero, suc, ◌+◌, ◌-◌, ◌*◌, ◌/◌, ◌%◌, ◌^◌, ℤ, pos, ltb, leb, if◌then◌else◌, saturating_mul,
  wrapping_add, ◌/ℤ◌, ◌>>=◌, ◌>>◌, pure, ok, panic, panic_if,
}
use utility_contracts.UtilityContracts.Errors.{message, arithmetic}
use utility_contracts.UtilityContracts.TariffOracle.Types.{FlowCalculationResult, Env, Action}
use utility_contracts.UtilityContracts.TariffOracle.Schedules.{get_current_tariff}

abbrev pub timestamp_to_hour : ℕ → ℕ
timestamp_to_hour timestamp = timestamp / 3600 % 24

abbrev pub next_hour_boundary : ℕ → ℕ
next_hour_boundary timestamp = (timestamp / 3600 + 1) * 3600 % 2 ^ 64

unfoldable pub calculate_current_flow_rate : Env → ℤ → Action ℤ
unfolding get_current_tariff
calculate_current_flow_rate env consumption_rate = do
  tariff ← get_current_tariff env (timestamp_to_hour env.now)
  pure (saturating_mul tariff.rate_cents_per_kwh consumption_rate)

-- The loop's variables.
pub record Progress : Type 0 where
  pub current_time : ℕ
  pub total_tokens : ℤ
  pub weighted_rate_sum : ℤ
  pub windows_crossed : ℕ

abbrev pub period_end : (current_time end_timestamp : ℕ) → ℕ
period_end current_time end_timestamp =
    if leb (next_hour_boundary current_time) end_timestamp
    then next_hour_boundary current_time
    else end_timestamp

-- One round, at the rate of its hour.
unfoldable pub advance : (end_timestamp : ℕ) → (consumption_rate rate : ℤ) → Progress → Progress
advance end_timestamp consumption_rate rate p =
    let until = period_end p.current_time end_timestamp in
    let period_duration = pos ((until + 2 ^ 64 - p.current_time) % 2 ^ 64) in
    record {
      current_time = until;
      total_tokens =
          wrapping_add p.total_tokens
            (saturating_mul (saturating_mul consumption_rate rate) period_duration);
      weighted_rate_sum = wrapping_add p.weighted_rate_sum (saturating_mul rate period_duration);
      windows_crossed =
          if ltb until end_timestamp then (p.windows_crossed + 1) % 2 ^ 8 else p.windows_crossed;
    }

-- The loop on fuel.
unfoldable pub rounds : (fuel : ℕ) → Env → (end_timestamp : ℕ) → ℤ → Progress → Action Progress
unfolding get_current_tariff advance
rounds zero env end_timestamp consumption_rate p s = panic arithmetic s
rounds (suc fuel) env end_timestamp consumption_rate p s =
    let step = get_current_tariff env (timestamp_to_hour p.current_time) >>= (λ tariff.
      rounds fuel env end_timestamp consumption_rate
        (advance end_timestamp consumption_rate tariff.rate_cents_per_kwh p)) in
    if ltb p.current_time end_timestamp then step s else ok (p, s)

abbrev pub result_of : (duration : ℕ) → Progress → FlowCalculationResult
result_of duration p = record {
  total_tokens = p.total_tokens;
  duration_seconds = duration;
  weighted_rate_per_second = p.weighted_rate_sum /ℤ pos duration;
  spanned_multiple_windows = ltb 0 p.windows_crossed;
  windows_crossed = p.windows_crossed;
}

-- A round takes at least a second, so the seconds of the period are fuel enough for a period that ends by
-- 2^64 - 16. A later one starts over at 3,584 each time the boundary wraps: the source does not return,
-- and the model runs out of fuel.
unfoldable pub calculate_flow_for_period :
    Env → (start_timestamp end_timestamp : ℕ) → ℤ → Action FlowCalculationResult
unfolding rounds
calculate_flow_for_period env start_timestamp end_timestamp consumption_rate = do
  panic_if (leb end_timestamp start_timestamp) message
  p ← rounds (end_timestamp - start_timestamp + 1) env end_timestamp consumption_rate (record {
    current_time = start_timestamp;
    total_tokens = pos 0;
    weighted_rate_sum = pos 0;
    windows_crossed = 0;
  })
  pure (result_of (end_timestamp - start_timestamp) p)
