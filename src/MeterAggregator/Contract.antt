-- ===== src/MeterAggregator/Contract.antt =====
-- The entry points of lib.rs. Sequence numbers and hours are `u64`, counts are `u32`; their arithmetic
-- wraps in a release build. Inside a loop over hours or sequence numbers nothing can wrap.
use utility_contracts.Base.{
  ℕ, zero, suc, ◌+◌, ◌-◌, ◌*◌, ◌/◌, ◌%◌, ◌^◌, ℤ, pos, true, false, ◌&&◌, Option, none, some, ltb,
  leb, ◌==◌, ltb_ℤ, ◌>>=◌, ◌>>◌, gets, modify, pure, panic_if, or_panic, is_some, unwrap_or,
  checked_add as checked_add_i128, if◌then◌else◌, ok,
}
use utility_contracts.MeterAggregator.Storage.{
  max_raw_retention_secs, prune_batch_size, rollup_interval_secs, seconds_per_day, hours_per_day,
  RawReading, HourlyBucket, DailyBucket, State, Env, Action, not_initialized, already_initialized,
  overflow, invalid_time_range, negative_value, require_auth, get_admin, get_next_seq, set_next_seq,
  get_raw_reading, set_raw_reading, remove_raw_reading, get_prune_cursor, set_prune_cursor,
  get_hourly_bucket, set_hourly_bucket, remove_hourly_bucket, get_daily_bucket, set_daily_bucket,
}

-- The contract's own `checked_add`, which panics.
abbrev pub checked_add : ℤ → ℤ → Action ℤ
checked_add a b = or_panic (checked_add_i128 a b) overflow

abbrev pub require_admin : Action ℕ
require_admin = do or_panic (← gets get_admin) not_initialized

unfoldable pub initialize : Env → (admin : ℕ) → Action (Unit {0})
initialize env admin = do
  panic_if (is_some (← gets get_admin)) already_initialized
  require_auth env admin
  modify (λ s. record s { admin = some admin })

abbrev pub empty_hour : ℕ → HourlyBucket
empty_hour hour = record { hour_epoch = hour; total = pos 0; count = 0 }

abbrev pub empty_day : ℕ → DailyBucket
empty_day day = record { day_epoch = day; total = pos 0; count = 0 }

-- The two halves of `rollup_raw_to_hourly`.
abbrev pub rollup_hour : (device ts : ℕ) → ℤ → Action (Unit {0})
rollup_hour device ts value = do
  let hour = ts / rollup_interval_secs
  hb ← gets (λ s. unwrap_or (empty_hour hour) (get_hourly_bucket device hour s))
  total ← checked_add hb.total value
  modify
      (set_hourly_bucket device hour (record hb { total = total; count = (hb.count + 1) % 2 ^ 32 }))

abbrev pub rollup_daily : (device ts : ℕ) → ℤ → Action (Unit {0})
rollup_daily device ts value = do
  let day = ts / seconds_per_day
  db ← gets (λ s. unwrap_or (empty_day day) (get_daily_bucket device day s))
  total ← checked_add db.total value
  modify
      (set_daily_bucket device day (record db { total = total; count = (db.count + 1) % 2 ^ 32 }))

unfoldable pub rollup_raw_to_hourly : (device ts : ℕ) → ℤ → Action (Unit {0})
rollup_raw_to_hourly device ts value = rollup_hour device ts value >> rollup_daily device ts value

-- The loop of `prune_stale_readings`: the sequence numbers from `cursor` to `cursor + left`, the next one to
-- assign. It returns the cursor and how many readings were deleted.
unfoldable pub prune_loop : (left cutoff device cursor pruned : ℕ) → State → (ℕ × ℕ) × State
prune_loop zero cutoff device cursor pruned s = ((cursor, pruned), s)
prune_loop (suc left) cutoff device cursor pruned s =
    if ltb pruned prune_batch_size
    then elim (get_raw_reading device cursor s) [
      | none ↦ prune_loop left cutoff device (cursor + 1) pruned s
      | some r ↦ elim (ltb r.timestamp cutoff) [
        | true ↦
            prune_loop left cutoff device (cursor + 1) (pruned + 1)
              (remove_raw_reading device cursor s)
        | false ↦ ((cursor, pruned), s)
      ]
    ]
    else ((cursor, pruned), s)

unfoldable pub prune_stale_readings : Env → (device : ℕ) → Action ℕ
unfolding prune_loop
prune_stale_readings env device s =
    let cutoff = env.now - max_raw_retention_secs in
    let next = get_next_seq device s in
    let cursor = get_prune_cursor device s in
    let (ends, s1) = prune_loop (next - cursor) cutoff device cursor 0 s in
    ok (ends.1, set_prune_cursor device ends.0 s1)

unfoldable pub prune : Env → (device : ℕ) → Action ℕ
unfolding prune_stale_readings
prune env device = prune_stale_readings env device

unfoldable pub submit_reading : Env → (device source : ℕ) → ℤ → Action ℕ
unfolding rollup_raw_to_hourly prune_stale_readings
submit_reading env device source value = do
  require_admin
  panic_if (ltb_ℤ value (pos 0)) negative_value
  require_auth env source
  let ts = env.now
  seq ← gets (get_next_seq device)
  let reading : RawReading = record { timestamp = ts; value = value; source = source }
  modify (set_raw_reading device seq reading)
  modify (set_next_seq device ((seq + 1) % 2 ^ 64))
  rollup_raw_to_hourly device ts value
  prune_stale_readings env device
  pure seq

-- The loop of `rollup_day`, with `left` hours to go.
unfoldable pub remove_hours : (left device hour : ℕ) → State → State
remove_hours zero device hour s = s
remove_hours (suc left) device hour s =
    remove_hours left device ((hour + 1) % 2 ^ 64) (remove_hourly_bucket device hour s)

unfoldable pub rollup_day : Env → (device day_epoch : ℕ) → Action ℤ
unfolding remove_hours
rollup_day env device day_epoch = do
  admin ← require_admin
  require_auth env admin
  let start_hour = day_epoch * hours_per_day % 2 ^ 64
  modify (remove_hours hours_per_day device start_hour)
  daily ← gets (get_daily_bucket device day_epoch)
  pure (elim daily [ none ↦ pos 0 | some d ↦ d.total ])

-- The loop of `sum_raw_for_hour` over the `left` sequence numbers from `seq` on.
unfoldable pub sum_raw_loop : (left device hour_epoch seq : ℕ) → ℤ → Action ℤ
sum_raw_loop zero device hour_epoch seq sum s = ok (sum, s)
sum_raw_loop (suc left) device hour_epoch seq sum s = elim (get_raw_reading device seq s) [
  | none ↦ sum_raw_loop left device hour_epoch (seq + 1) sum s
  | some r ↦ elim (r.timestamp / rollup_interval_secs == hour_epoch) [
    | false ↦ sum_raw_loop left device hour_epoch (seq + 1) sum s
    | true ↦ (checked_add sum r.value >>= λ t. sum_raw_loop left device hour_epoch (seq + 1) t) s
  ]
]

unfoldable pub sum_raw_for_hour : (device hour_epoch : ℕ) → Action ℤ
unfolding sum_raw_loop
sum_raw_for_hour device hour_epoch s =
    let next = get_next_seq device s in
    let seq = get_prune_cursor device s in sum_raw_loop (next - seq) device hour_epoch seq (pos 0) s

-- What the hour tier adds for one hour.
unfoldable pub hour_volume : (device h : ℕ) → Action ℤ
unfolding sum_raw_for_hour
hour_volume device h s = elim (get_hourly_bucket device h s) [
  | some b ↦ ok (b.total, s)
  | none ↦ sum_raw_for_hour device h s
]

-- The daily bucket, where the whole day of `h` starts at `h` and fits the window.
abbrev pub whole_day : (device h to_hour : ℕ) → State → Option DailyBucket
whole_day device h to_hour s =
    let day = h / hours_per_day in
    let day_start_hour = day * hours_per_day in
    let day_end_hour = day_start_hour + hours_per_day - 1 in
    if (h == day_start_hour) && leb day_end_hour to_hour
    then get_daily_bucket device day s
    else none

-- The loop of `get_aggregated_volume`; each round moves at least one hour on, so that as many rounds as
-- there are hours left are enough.
unfoldable pub volume_loop : (rounds device h to_hour : ℕ) → ℤ → Action ℤ
unfolding hour_volume
volume_loop zero device h to_hour total s = ok (total, s)
volume_loop (suc rounds) device h to_hour total s = elim (leb h to_hour) [
  | false ↦ ok (total, s)
  | true ↦ elim (whole_day device h to_hour s) [
    | some d ↦
        (checked_add total d.total >>= λ t.
        volume_loop rounds device (h / hours_per_day * hours_per_day + hours_per_day) to_hour t)
          s
    | none ↦
        (do
          volume ← hour_volume device h
          t ← checked_add total volume
          volume_loop rounds device (h + 1) to_hour t)
          s
  ]
]

unfoldable pub get_aggregated_volume : (device from_ts to_ts : ℕ) → Action ℤ
unfolding volume_loop
get_aggregated_volume device from_ts to_ts = do
  panic_if (ltb to_ts from_ts) invalid_time_range
  let from_hour = from_ts / rollup_interval_secs
  let to_hour = to_ts / rollup_interval_secs
  volume_loop (to_hour + 1 - from_hour) device from_hour to_hour (pos 0)

abbrev pub get_live_reading_count : (device : ℕ) → State → ℕ
get_live_reading_count device s =
    (get_next_seq device s + 2 ^ 64 - get_prune_cursor device s) % 2 ^ 64
