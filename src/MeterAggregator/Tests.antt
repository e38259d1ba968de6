-- ===== src/MeterAggregator/Tests.antt =====
-- The theorems on the meter aggregator at concrete states.
use utility_contracts.Base.{
  ℕ, ◌-◌, ◌/◌, ◌≤◌, ◌≡◌, refl, pos, ◌+ℤ◌, ◌≤ℤ◌, some, ok, true, arith, put, put₂, List, [], ◌∷◌,
  checked_add,
}
use utility_contracts.MeterAggregator.Storage.{
  State, Env, get_next_seq, get_prune_cursor, max_raw_retention_secs,
}
use utility_contracts.MeterAggregator.Contract.{
  submit_reading, prune, rollup_day, initialize, rollup_raw_to_hourly, prune_stale_readings,
  prune_loop, remove_hours,
}
use utility_contracts.MeterAggregator.Pruning.{Pruned, prune-Pruned}
use utility_contracts.MeterAggregator.Totals.{daily_total, hourly_total, Gains, submit_reading_lem}
use utility_contracts.MeterAggregator.History.{
  History, Submission, deployed, nothing, initialized, submitted, daily_total-History, day_volume,
}

-- Time 7200, in the third hour of the first day.
abbrev signed : Env
signed = record { now = 7_200; authorized = λ who. true }

abbrev opened : State
opened = record deployed { admin = some 1 }

opens : initialize signed 1 deployed ≡ ok (tt, opened)
unfolding initialize
opens = refl

-- Source 6 reports 40 for device 5.
abbrev reported : State
reported = record opened {
  reading_seq = put 5 1 opened.reading_seq;
  raw_reading =
      put₂ 5 0 (record { timestamp = 7_200; value = pos 40; source = 6 }) opened.raw_reading;
  prune_cursor = put 5 0 opened.prune_cursor;
  hourly_bucket =
      put₂ 5 2 (record { hour_epoch = 2; total = pos 40; count = 1 }) opened.hourly_bucket;
  daily_bucket = put₂ 5 0 (record { day_epoch = 0; total = pos 40; count = 1 }) opened.daily_bucket;
}

reports : submit_reading signed 5 6 (pos 40) opened ≡ ok (0, reported)
unfolding submit_reading rollup_raw_to_hourly prune_stale_readings prune_loop checked_add ◌+ℤ◌
reports = refl

submit_reading_lem_example :
    (signed.authorized 6 ≡ true)
    × (pos 0 ≤ℤ pos 40)
    × (0 ≡ get_next_seq 5 opened)
    × Gains daily_total 5 (7_200 / 86_400) (pos 40) opened reported
    × Gains hourly_total 5 (7_200 / 3_600) (pos 40) opened reported
submit_reading_lem_example = submit_reading_lem signed 5 6 (pos 40) opened reported 0 reports

abbrev log : List Submission
log = (record { device = 5; timestamp = 7_200; value = pos 40 }) ∷ []

past : History reported log
past = submitted signed 5 6 (pos 40) 0 (initialized signed 1 nothing opens) reports

daily_total-History_example : daily_total 5 0 reported ≡ day_volume 5 0 log
daily_total-History_example = daily_total-History past 5 0

-- The reading is a week and two hours old.
abbrev much_later : Env
much_later = record { now = 700_000; authorized = λ who. true }

prune-Pruned_example :
    (deleted : ℕ) × (s' : State) × (prune much_later 5 reported ≡ ok (deleted, s'))
    × (deleted ≤ 10)
    × (get_prune_cursor 5 reported ≤ get_prune_cursor 5 s')
    × (get_prune_cursor 5 s' ≤ get_next_seq 5 reported)
    × Pruned
        (much_later.now - max_raw_retention_secs)
        5
        (get_prune_cursor 5 reported)
        (get_prune_cursor 5 s')
        reported
        s'
prune-Pruned_example = prune-Pruned much_later 5 reported (omega arith)

-- The buckets of the first day's hours are deleted.
abbrev consolidated : State
unfolding remove_hours
consolidated = remove_hours 24 5 0 reported

rolls : rollup_day signed 5 0 reported ≡ ok (pos 40, consolidated)
unfolding rollup_day
rolls = refl
