-- ===== src/MeterAggregator/History.antt =====
-- Histories of the aggregator: what the daily buckets hold after any calls.
use utility_contracts.Base.{
  ℕ, zero, suc, ◌+◌, ◌*◌, ◌/◌, ◌%◌, ◌^◌, ◌≡◌, refl, ◌∙◌, ℤ, pos, ◌+ℤ◌, none, List, [], ◌∷◌, ok,
  arith, ◌&&◌, ◌==◌, if◌then◌else◌, Option-cases, inl, inr,
}
use utility_contracts.MeterAggregator.Storage.{State, Env, remove_hourly_bucket}
use utility_contracts.MeterAggregator.Contract.{
  submit_reading, prune, rollup_day, initialize, remove_hours,
}
use utility_contracts.MeterAggregator.Pruning.{prune_stale_readings_buckets}
use utility_contracts.MeterAggregator.Totals.{daily_total, submit_reading_lem}

pub record Submission : Type 0 where
  pub device : ℕ
  pub timestamp : ℕ
  pub value : ℤ

abbrev pub deployed : State
deployed = record {
  admin = none;
  reading_seq = λ d. none;
  raw_reading = λ d j. none;
  prune_cursor = λ d. none;
  hourly_bucket = λ d h. none;
  daily_bucket = λ d e. none;
}

-- A state and the submissions that led to it, the latest first.
pub data History : State → List Submission → Type 0 where
  nothing : History deployed []
  initialized :
      {s s' : State} {log : List Submission} (env : Env) (admin : ℕ)
      → History s log
      → initialize env admin s ≡ ok (tt, s')
      → History s' log
  submitted :
      {s s' : State} {log : List Submission} (env : Env) (device source : ℕ) (value : ℤ) (seq : ℕ)
      → History s log
      → submit_reading env device source value s ≡ ok (seq, s')
      → History s' (record { device = device; timestamp = env.now; value = value } ∷ log)
  pruned :
      {s s' : State} {log : List Submission} (env : Env) (device deleted : ℕ)
      → History s log
      → prune env device s ≡ ok (deleted, s')
      → History s' log
  rolled_up :
      {s s' : State} {log : List Submission} (env : Env) (device day_epoch : ℕ) (total : ℤ)
      → History s log
      → rollup_day env device day_epoch s ≡ ok (total, s')
      → History s' log

-- What a device submitted on a day.
abbrev pub day_volume : (device day : ℕ) → List Submission → ℤ
day_volume device day [] = pos 0
day_volume device day (r ∷ log) =
    if (device == r.device) && (day == r.timestamp / 86_400)
    then day_volume device day log +ℤ r.value
    else day_volume device day log

remove_hours_kept :
    (left device hour : ℕ) (s : State)
    → ((remove_hours left device hour s).daily_bucket ≡ s.daily_bucket)
      × ((remove_hours left device hour s).admin ≡ s.admin)
unfolding remove_hours
remove_hours_kept zero device hour s = (refl, refl)
remove_hours_kept (suc left) device hour s =
    remove_hours_kept left device ((hour + 1) % 2 ^ 64) (remove_hourly_bucket device hour s)

rollup_day_kept :
    (env : Env) (device day_epoch : ℕ) (total : ℤ) (s s' : State)
    → rollup_day env device day_epoch s ≡ ok (total, s')
    → (s'.daily_bucket ≡ s.daily_bucket) × (total ≡ daily_total device day_epoch s)
unfolding rollup_day
rollup_day_kept env device day_epoch total s s' h =
    let kept = remove_hours_kept 24 device (day_epoch * 24 % 2 ^ 64) s in
    elim (Option-cases s.admin) [
      | inl n ↦ absurd (ground (arith, n))
      | inr (admin, n) ↦ elim (Option-cases (s.daily_bucket device day_epoch)) [
        | inl e ↦ ground (arith, n, e)
        | inr (b, e) ↦ ground (arith, n, e)
      ]
    ]

initialize_kept :
    (env : Env) (admin : ℕ) (s s' : State)
    → initialize env admin s ≡ ok (tt, s')
    → s'.daily_bucket ≡ s.daily_bucket
unfolding initialize
initialize_kept env admin s s' h = elim (Option-cases s.admin) [
  | inl n ↦ ground (arith, n)
  | inr (a, n) ↦ absurd (ground (arith, n))
]

prune_kept :
    (env : Env) (device n : ℕ) (s s' : State)
    → prune env device s ≡ ok (n, s')
    → s'.daily_bucket ≡ s.daily_bucket
unfolding prune
prune_kept env device n s s' h = (prune_stale_readings_buckets env device n s s' h).0

-- Through any successful calls of `initialize`, `submit_reading`, `prune` and `rollup_day`, in any
-- order, a day's total for a device is the sum of what the device submitted on that day.
pub daily_total-History :
    {s : State} {log : List Submission}
    → History s log
    → (device day : ℕ) → daily_total device day s ≡ day_volume device day log
daily_total-History nothing device day = refl
daily_total-History (initialized {s} {s'} env admin past h) device day =
    rw (initialize_kept env admin s s' h) (daily_total-History past device day)
daily_total-History (submitted {s} {s'} env d source value seq past h) device day =
    let (auth, up, same, daily, hourly) = submit_reading_lem env d source value s s' seq h in
    rw (daily device day, daily_total-History past device day)
daily_total-History (pruned {s} {s'} env d n past h) device day =
    rw (prune_kept env d n s s' h) (daily_total-History past device day)
daily_total-History (rolled_up {s} {s'} env d epoch total past h) device day =
    rw ((rollup_day_kept env d epoch total s s' h).0) (daily_total-History past device day)

-- After any history, a `rollup_day` that succeeds returns the sum of what the device submitted on
-- that day, and leaves every daily total as it was.
pub rollup_day_lem :
    {s : State} {log : List Submission} (env : Env) (device day_epoch : ℕ) (total : ℤ) (s' : State)
    → History s log
    → rollup_day env device day_epoch s ≡ ok (total, s')
    → (total ≡ day_volume device day_epoch log)
      × ((d e : ℕ) → daily_total d e s' ≡ daily_total d e s)
rollup_day_lem {s} env device day_epoch total s' past h =
    let (same, is) = rollup_day_kept env device day_epoch total s s' h in
    (is ∙ daily_total-History past device day_epoch, λ d e. rw same)
