-- ===== src/MeterAggregator/Storage.antt =====
-- storage.rs, types.rs and constants.rs. Key encodings are taken to be injective, so each kind of key is a
-- map; the extension of a time to live is not modelled.
use utility_contracts.Base.{
  ℕ, ℤ, Bool, not, Option, Map, put, Map₂, put₂, remove₂, unwrap_or, Call, panic_if,
}

abbrev pub max_raw_retention_secs : ℕ
max_raw_retention_secs = 604_800

abbrev pub prune_batch_size : ℕ
prune_batch_size = 10

abbrev pub rollup_interval_secs : ℕ
rollup_interval_secs = 3_600

abbrev pub seconds_per_day : ℕ
seconds_per_day = 86_400

abbrev pub hours_per_day : ℕ
hours_per_day = 24

pub record RawReading : Type 0 where
  pub timestamp : ℕ
  pub value : ℤ
  pub source : ℕ

pub record HourlyBucket : Type 0 where
  pub hour_epoch : ℕ
  pub total : ℤ
  pub count : ℕ

pub record DailyBucket : Type 0 where
  pub day_epoch : ℕ
  pub total : ℤ
  pub count : ℕ

-- The contract's errors, and a failed `require_auth`.
pub data Error : Type 0 where
  not_initialized already_initialized not_authorized overflow invalid_time_range negative_value :
      Error

-- The keys of `DataKey`; those of a device and a number are maps in two arguments.
pub record State : Type 0 where
  pub admin : Option ℕ
  pub reading_seq : Map ℕ
  pub raw_reading : Map₂ RawReading
  pub prune_cursor : Map ℕ
  pub hourly_bucket : Map₂ HourlyBucket
  pub daily_bucket : Map₂ DailyBucket

pub record Env : Type 0 where
  pub now : ℕ
  pub authorized : ℕ → Bool

abbrev pub Action : Type 0 → Type 0
Action A = Call State Error A

abbrev pub require_auth : Env → ℕ → Action (Unit {0})
require_auth env who = panic_if (not (env.authorized who)) not_authorized

abbrev pub get_admin : State → Option ℕ
get_admin s = s.admin

abbrev pub get_next_seq : (device : ℕ) → State → ℕ
get_next_seq device s = unwrap_or 0 (s.reading_seq device)

abbrev pub set_next_seq : (device seq : ℕ) → State → State
set_next_seq device seq s = record s { reading_seq = put device seq s.reading_seq }

abbrev pub get_raw_reading : (device seq : ℕ) → State → Option RawReading
get_raw_reading device seq s = s.raw_reading device seq

abbrev pub set_raw_reading : (device seq : ℕ) → RawReading → State → State
set_raw_reading device seq reading s = record s {
  raw_reading = put₂ device seq reading s.raw_reading;
}

abbrev pub remove_raw_reading : (device seq : ℕ) → State → State
remove_raw_reading device seq s = record s { raw_reading = remove₂ device seq s.raw_reading }

abbrev pub get_prune_cursor : (device : ℕ) → State → ℕ
get_prune_cursor device s = unwrap_or 0 (s.prune_cursor device)

abbrev pub set_prune_cursor : (device cursor : ℕ) → State → State
set_prune_cursor device cursor s = record s { prune_cursor = put device cursor s.prune_cursor }

abbrev pub get_hourly_bucket : (device hour_epoch : ℕ) → State → Option HourlyBucket
get_hourly_bucket device hour_epoch s = s.hourly_bucket device hour_epoch

abbrev pub set_hourly_bucket : (device hour_epoch : ℕ) → HourlyBucket → State → State
set_hourly_bucket device hour_epoch bucket s = record s {
  hourly_bucket = put₂ device hour_epoch bucket s.hourly_bucket;
}

abbrev pub remove_hourly_bucket : (device hour_epoch : ℕ) → State → State
remove_hourly_bucket device hour_epoch s = record s {
  hourly_bucket = remove₂ device hour_epoch s.hourly_bucket;
}

abbrev pub get_daily_bucket : (device day_epoch : ℕ) → State → Option DailyBucket
get_daily_bucket device day_epoch s = s.daily_bucket device day_epoch

abbrev pub set_daily_bucket : (device day_epoch : ℕ) → DailyBucket → State → State
set_daily_bucket device day_epoch bucket s = record s {
  daily_bucket = put₂ device day_epoch bucket s.daily_bucket;
}
