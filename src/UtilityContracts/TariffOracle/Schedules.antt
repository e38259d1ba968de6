-- ===== src/UtilityContracts/TariffOracle/Schedules.antt =====
-- Schedules: their validation, their change after a notice period, and the tariff of an hour.
use utility_contracts.Base.{
  ℕ, zero, suc, ◌+◌, ◌%◌, ◌^◌, pos, Bool, true, false, not, ◌&&◌, ◌||◌, Option, none, some, List,
  [], ◌∷◌, put, unwrap_or, is_some, ltb, leb, ◌==◌, leb_ℤ, if◌then◌else◌, ◌>>=◌, ◌>>◌, gets, modify,
  pure, panic_if, or_panic,
}
use utility_contracts.UtilityContracts.Errors.{
  message, invalid_signature, not_found, not_initialized, admin_execution_window_expired,
  arithmetic,
}
use utility_contracts.UtilityContracts.TariffOracle.Types.{
  off_peak, standard, peak, HourlyTariff, DailyTariffSchedule, TariffUpdateProposal, State, Env,
  Action, require_auth, publish, to_init, tupd_prop, tschd_upd,
}

abbrev pub hours_in_day : ℕ
hours_in_day = 24

abbrev pub tariff_notice_period : ℕ
tariff_notice_period = 86_400

unfoldable pub length : List HourlyTariff → ℕ
length [] = 0
length (x ∷ xs) = length xs + 1

-- The loop: the hours count from `i`, and the rates are positive.
unfoldable pub hours_valid : (i : ℕ) → List HourlyTariff → Bool
hours_valid i [] = true
hours_valid i (tariff ∷ rest) =
    (tariff.hour == i && not (leb_ℤ tariff.rate_cents_per_kwh (pos 0))) && hours_valid (i + 1) rest

unfoldable pub date_valid : ℕ → Bool
date_valid date = not (ltb date 20_000_101 || ltb 20_991_231 date)

abbrev pub validate_tariff_schedule : DailyTariffSchedule → Action (Unit {0})
validate_tariff_schedule schedule = do
  panic_if (not (length schedule.hourly_rates == hours_in_day)) message
  panic_if (not (hours_valid 0 schedule.hourly_rates)) message
  panic_if (not (date_valid schedule.schedule_date)) message

abbrev set_schedule : Env → DailyTariffSchedule → State → State
set_schedule env schedule s = record s {
  current_tariff_schedule = some schedule;
  tariff_schedule_hash = some (env.sha256 schedule);
  today_tariff_schedule = some schedule;
}

unfoldable pub initialize : Env → (grid_admin : ℕ) → DailyTariffSchedule → Action (Unit {0})
unfolding length hours_valid date_valid
initialize env grid_admin initial_schedule = do
  admin ← gets (λ s. s.tariff_oracle_admin)
  panic_if (is_some admin) message
  validate_tariff_schedule initial_schedule
  modify (λ s. record s { tariff_oracle_admin = some grid_admin })
  modify (set_schedule env initial_schedule)
  modify (λ s. record s { tariff_proposal_counter = some 0 })
  modify (publish (to_init grid_admin initial_schedule.schedule_date))

abbrev pub get_grid_admin : Action ℕ
get_grid_admin = do or_panic (← gets (λ s. s.tariff_oracle_admin)) not_initialized

unfoldable pub propose_tariff_update : Env → DailyTariffSchedule → (admin_signature : ℕ) → Action ℕ
unfolding length hours_valid date_valid
propose_tariff_update env new_schedule admin_signature = do
  grid_admin ← get_grid_admin
  require_auth env grid_admin
  validate_tariff_schedule new_schedule
  panic_if (admin_signature == 0) invalid_signature
  proposal_id ← gets (λ s. unwrap_or 0 s.tariff_proposal_counter)
  let next_proposal_id = (proposal_id + 1) % 2 ^ 64
  current_hash ← gets (λ s. unwrap_or 0 s.tariff_schedule_hash)
  let executable_at = (env.now + tariff_notice_period) % 2 ^ 64
  modify (λ s. record s {
    tariff_update_proposal =
        put next_proposal_id
          (record {
            proposal_id = next_proposal_id;
            new_schedule = new_schedule;
            proposed_by = grid_admin;
            created_at = env.now;
            executable_at = executable_at;
            is_executed = false;
            previous_schedule_hash = current_hash;
          })
          s.tariff_update_proposal;
  })
  modify (λ s. record s { tariff_proposal_counter = some next_proposal_id })
  modify (publish (tupd_prop next_proposal_id executable_at))
  pure next_proposal_id

abbrev pub get_tariff_proposal : (proposal_id : ℕ) → Action TariffUpdateProposal
get_tariff_proposal proposal_id = do
  or_panic (← gets (λ s. s.tariff_update_proposal proposal_id)) not_found

-- The current schedule is only read to see that there is one.
unfoldable pub execute_tariff_update : Env → (proposal_id : ℕ) → Action (Unit {0})
execute_tariff_update env proposal_id = do
  grid_admin ← get_grid_admin
  require_auth env grid_admin
  proposal ← get_tariff_proposal proposal_id
  panic_if proposal.is_executed message
  panic_if (ltb env.now proposal.executable_at) admin_execution_window_expired
  current_schedule ← or_panic (← gets (λ s. s.current_tariff_schedule)) arithmetic
  modify (set_schedule env proposal.new_schedule)
  let done : TariffUpdateProposal = record proposal { is_executed = true }
  modify (λ s. record s { tariff_update_proposal = put proposal_id done s.tariff_update_proposal })
  modify (publish (tschd_upd proposal_id proposal.new_schedule.schedule_date))

abbrev default_tariff : (hour : ℕ) → HourlyTariff
default_tariff hour =
    let night = leb hour 6 || (leb 22 hour && leb hour 23) in
    let busy = (leb 7 hour && leb hour 10) || (leb 17 hour && leb hour 20) in
    record {
      hour = hour;
      rate_cents_per_kwh = if night then pos 8 else if busy then pos 15 else pos 12;
      tier = if night then off_peak else if busy then peak else standard;
      is_renewable_hour = leb 10 hour && leb hour 16;
    }

-- The tariffs of `count` hours from `hour` on.
unfoldable pub default_rates : (count hour : ℕ) → List HourlyTariff
default_rates zero hour = []
default_rates (suc count) hour = default_tariff hour ∷ default_rates count (hour + 1)

abbrev pub get_default_schedule : Env → DailyTariffSchedule
get_default_schedule env = record {
  hourly_rates = default_rates hours_in_day 0;
  schedule_date = 20_240_101;
  signed_by = env.generated;
  created_at = env.fresh_now;
  effective_at = env.fresh_now;
  admin_signature = 1;
}

unfoldable pub nth : List HourlyTariff → ℕ → Option HourlyTariff
nth [] i = none
nth (tariff ∷ rest) zero = some tariff
nth (tariff ∷ rest) (suc i) = nth rest i

abbrev pub get_tariff_from_schedule : DailyTariffSchedule → (hour : ℕ) → Action HourlyTariff
get_tariff_from_schedule schedule hour = do
  panic_if (leb hours_in_day hour) message
  or_panic (nth schedule.hourly_rates hour) arithmetic

unfoldable pub get_current_schedule : Env → State → DailyTariffSchedule
unfolding default_rates
get_current_schedule env s = unwrap_or (get_default_schedule env) s.current_tariff_schedule

-- Today's schedule, if it has not expired.
unfoldable pub schedule_in_force : Env → State → DailyTariffSchedule
unfolding get_current_schedule
schedule_in_force env s = unwrap_or (get_current_schedule env s) s.today_tariff_schedule

unfoldable pub get_current_tariff : Env → (hour : ℕ) → Action HourlyTariff
unfolding nth schedule_in_force
get_current_tariff env hour = do
  schedule ← gets (schedule_in_force env)
  get_tariff_from_schedule schedule hour

pub is_configured : State → Bool
is_configured s = is_some s.tariff_oracle_admin
