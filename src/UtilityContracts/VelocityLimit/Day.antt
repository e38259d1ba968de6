-- ===== src/UtilityContracts/VelocityLimit/Day.antt =====
-- What the checks of velocity_limit.rs admit in one day.
use utility_contracts.Base.{
  ℕ, ◌≡◌, ℤ, pos, true, none, some, List, [], ◌∷◌, ◌==◌, if◌then◌else◌, ◌+ℤ◌, ◌≤ℤ◌, ◌<ℤ◌, i128_max,
}
use utility_contracts.UtilityContracts.VelocityLimit.Types.{State, VelocityConfig}
use utility_contracts.UtilityContracts.VelocityLimit.Checks.{get_day_boundary}
use utility_contracts.UtilityContracts.VelocityLimit.Admission.{
  Withdrawal, spent_by, spent_by_all, Accepts,
}

-- A run of accepted withdrawals.
pub data Accepted : State → List Withdrawal → State → Type 0 where
  none_yet : {s : State} → Accepted s [] s
  one_more :
      {s s1 s' : State} {ws : List Withdrawal} (w : Withdrawal)
      → Accepts w s s1
      → Accepted s1 ws s'
      → Accepted s (w ∷ ws) s'

abbrev pub total_of : ℕ → List Withdrawal → ℤ
total_of meter_id [] = pos 0
total_of meter_id (w ∷ ws) =
    if w.meter_id == meter_id then w.amount +ℤ total_of meter_id ws else total_of meter_id ws

abbrev pub total_of_all : List Withdrawal → ℤ
total_of_all [] = pos 0
total_of_all (w ∷ ws) = w.amount +ℤ total_of_all ws

-- All withdrawals are of one day and none is negative.
abbrev pub OnDay : ℕ → List Withdrawal → Type 0
OnDay time [] = Unit
OnDay time (w ∷ ws) =
    (get_day_boundary w.env.now ≡ get_day_boundary time) × (pos 0 ≤ℤ w.amount) × OnDay time ws

-- Limits are on and saturation stays above them; no override is stored; and what was spent on the day
-- is within the limits.
pub record Watched (config : VelocityConfig) (time : ℕ) (s : State) : Type 0 where
  pub stored : s.velocity_config ≡ some config
  pub on : config.is_enabled ≡ true
  pub free : (scope : ℕ) → s.velocity_override scope ≡ none
  pub stream_small : config.per_stream_limit <ℤ i128_max
  pub global_small : config.global_limit <ℤ i128_max
  pub stream_spent :
      (meter_id : ℕ)
      → (pos 0 ≤ℤ spent_by time s meter_id) × (spent_by time s meter_id ≤ℤ config.per_stream_limit)
  pub global_spent : (pos 0 ≤ℤ spent_by_all time s) × (spent_by_all time s ≤ℤ config.global_limit)
