-- ===== src/UtilityContracts/VelocityLimit/Admission.antt =====
-- What one withdrawal that velocity_limit.rs accepts does to the totals of its day.
use utility_contracts.Base.{
  ℕ, ◌≡◌, ◌≢◌, refl, ℤ, pos, true, false, Option, none, some, ◌==◌, if◌then◌else◌, ok, err,
  saturating_add, ◌≤ℤ◌, arith, Option-cases, ◌∙◌, Bool-cases, inl, inr,
}
use utility_contracts.UtilityContracts.VelocityLimit.Types.{
  Check, State, Env, VelocityConfig, DailyOutflow, GlobalOutflowTracker,
}
use utility_contracts.UtilityContracts.VelocityLimit.Checks.{
  get_day_boundary, check_velocity_limits, check_per_stream_velocity, check_global_velocity,
  is_override_active,
}

-- One withdrawal that is put to the checks.
pub record Withdrawal : Type 0 where
  pub env : Env
  pub meter_id : ℕ
  pub provider : ℕ
  pub amount : ℤ

-- What the tracking of a meter, and of all meters, holds for the day of a time.
abbrev pub on_boundary : ℕ → Option DailyOutflow → ℤ
on_boundary day none = pos 0
on_boundary day (some o) = if get_day_boundary o.window_start == day then o.total_outflow else pos 0

abbrev pub spent_by : ℕ → State → ℕ → ℤ
spent_by time s meter_id = on_boundary (get_day_boundary time) (s.daily_outflow meter_id)

abbrev pub global_on_boundary : ℕ → Option GlobalOutflowTracker → ℤ
global_on_boundary day none = pos 0
global_on_boundary day (some o) =
    if get_day_boundary o.window_start == day then o.total_outflow else pos 0

abbrev pub spent_by_all : ℕ → State → ℤ
spent_by_all time s = global_on_boundary (get_day_boundary time) s.global_outflow

-- Limits are on, and no override is active for the meter or globally.
abbrev pub Limited : VelocityConfig → Env → ℕ → State → Type 0
Limited config env meter_id s =
    (s.velocity_config ≡ some config)
    × (config.is_enabled ≡ true)
    × (is_override_active meter_id env.now s ≡ false)
    × (is_override_active 0 env.now s ≡ false)

per_stream_accepts :
    (config : VelocityConfig) (env : Env) (meter_id provider : ℕ) (amount : ℤ) (s s' : State)
    → Limited config env meter_id s
    → check_per_stream_velocity env meter_id provider amount s ≡ (ok tt, s')
    → (spent_by env.now s' meter_id ≡ saturating_add (spent_by env.now s meter_id) amount)
      × (spent_by env.now s' meter_id ≤ℤ config.per_stream_limit)
      × (s'.velocity_config ≡ s.velocity_config)
      × (s'.velocity_override ≡ s.velocity_override)
      × (s'.global_outflow ≡ s.global_outflow)
      × ((other : ℕ) → other ≢ meter_id → s'.daily_outflow other ≡ s.daily_outflow other)
unfolding check_per_stream_velocity
per_stream_accepts config env meter_id provider amount s s' (stored, on, free, free0) h =
    elim (Option-cases (s.daily_outflow meter_id)) [
      | inl e ↦ ground (arith, e)
      | inr (o, e) ↦
          elim (Bool-cases (get_day_boundary o.window_start == get_day_boundary env.now)) [
            | inl same ↦ ground (arith, e, same)
            | inr new ↦ ground (arith, e, new)
          ]
    ]

global_accepts :
    (config : VelocityConfig) (env : Env) (meter_id provider : ℕ) (amount : ℤ) (s s' : State)
    → Limited config env meter_id s
    → check_global_velocity env amount provider s ≡ (ok tt, s')
    → (spent_by_all env.now s' ≡ saturating_add (spent_by_all env.now s) amount)
      × (spent_by_all env.now s' ≤ℤ config.global_limit)
      × (s'.velocity_config ≡ s.velocity_config)
      × (s'.velocity_override ≡ s.velocity_override)
      × (s'.daily_outflow ≡ s.daily_outflow)
unfolding check_global_velocity
global_accepts config env meter_id provider amount s s' (stored, on, free, free0) h =
    elim (Option-cases s.global_outflow) [
      | inl e ↦ ground (arith, e)
      | inr (o, e) ↦
          elim (Bool-cases (get_day_boundary o.window_start == get_day_boundary env.now)) [
            | inl same ↦ ground (arith, e, same)
            | inr new ↦ ground (arith, e, new)
          ]
    ]

-- What one accepted withdrawal does: both totals of the day grow by the amount, and stay within the
-- limits.
pub record Admitted (config : VelocityConfig) (w : Withdrawal) (s s' : State) : Type 0 where
  pub stream_total :
      spent_by w.env.now s' w.meter_id ≡ saturating_add (spent_by w.env.now s w.meter_id) w.amount
  pub stream_within : spent_by w.env.now s' w.meter_id ≤ℤ config.per_stream_limit
  pub global_total : spent_by_all w.env.now s' ≡ saturating_add (spent_by_all w.env.now s) w.amount
  pub global_within : spent_by_all w.env.now s' ≤ℤ config.global_limit
  pub config_same : s'.velocity_config ≡ s.velocity_config
  pub override_same : s'.velocity_override ≡ s.velocity_override
  pub others_same :
      (other : ℕ) → other ≢ w.meter_id → s'.daily_outflow other ≡ s.daily_outflow other

abbrev pub Accepts : Withdrawal → State → State → Type 0
Accepts w s s' = check_velocity_limits w.env w.meter_id w.provider w.amount s ≡ (ok tt, s')

-- Two checks in a row succeed one after the other.
both_passed :
    (first : Check) (rest : State → Check) (s' : State)
    → elim (first.0) [ err e ↦ (err e, first.1) | ok u ↦ rest (first.1) ] ≡ (ok tt, s')
    → (s1 : State) × (first ≡ (ok tt, s1)) × (rest s1 ≡ (ok tt, s'))
both_passed (ok u, s1) rest s' h = (s1, refl, h)
both_passed (err e, s1) rest s' h = absurd (ground (arith, h))

pub check_velocity_limits-Admitted :
    (config : VelocityConfig) (w : Withdrawal) (s s' : State)
    → Limited config w.env w.meter_id s
    → Accepts w s s'
    → Admitted config w s s'
unfolding check_velocity_limits
check_velocity_limits-Admitted config w s s' (stored, on, free, free0) h =
    let (s1, passed, done) =
      both_passed (check_per_stream_velocity w.env w.meter_id w.provider w.amount s)
        (check_global_velocity w.env w.amount w.provider) s' h in
    let (total, within, config1, over1, global1, others) =
      per_stream_accepts config w.env w.meter_id w.provider w.amount s s1 (stored, on, free, free0)
        passed in
    let limited1 : Limited config w.env w.meter_id s1 =
      rw (config1, over1) (stored, on, free, free0) in
    let (total_all, within_all, config2, over2, daily2) =
      global_accepts config w.env w.meter_id w.provider w.amount s1 s' limited1 done in
    record {
      stream_total = rw daily2 total;
      stream_within = rw daily2 within;
      global_total = rw⁻¹ global1 total_all;
      global_within = within_all;
      config_same = config2 ∙ config1;
      override_same = over2 ∙ over1;
      others_same = λ other n. rw daily2 (others other n);
    }
