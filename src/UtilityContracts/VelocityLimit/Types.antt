-- ===== src/UtilityContracts/VelocityLimit/Types.antt =====
-- The types of velocity_limit.rs: its storage and its events.
use utility_contracts.Base.{ℕ, ℤ, pos, Bool, Option, List, Map, Result}

abbrev pub day_in_seconds : ℕ
day_in_seconds = 86_400

abbrev pub default_global_limit : ℤ
default_global_limit = pos 10_000_000_000

abbrev pub default_per_stream_limit : ℤ
default_per_stream_limit = pos 1_000_000_000

pub record DailyOutflow : Type 0 where
  pub window_start : ℕ
  pub total_outflow : ℤ
  pub meter_id : ℕ
  pub provider : ℕ
  pub is_breached : Bool
  pub last_anomaly_timestamp : ℕ

pub record GlobalOutflowTracker : Type 0 where
  pub window_start : ℕ
  pub total_outflow : ℤ
  pub breached_meter_count : ℕ
  pub global_breach : Bool
  pub last_global_anomaly : ℕ

-- A reason is a symbol, which is only stored and published.
pub record VelocityOverride : Type 0 where
  pub override_scope : ℕ
  pub admin : ℕ
  pub created_at : ℕ
  pub expires_at : ℕ
  pub reason : ℕ
  pub is_active : Bool

pub record VelocityConfig : Type 0 where
  pub global_limit : ℤ
  pub per_stream_limit : ℤ
  pub is_enabled : Bool
  pub admin_multisig : ℕ

pub data ActivityType : Type 0 where
  perstrm global : ActivityType

pub data AnomalyType : Type 0 where
  micro flash accum : AnomalyType

pub record AnomalousActivity : Type 0 where
  pub activity_type : ActivityType
  pub meter_id : ℕ
  pub provider : ℕ
  pub requested_amount : ℤ
  pub current_outflow : ℤ
  pub velocity_limit : ℤ
  pub detected_at : ℕ
  pub reason : AnomalyType

pub record OverrideApplied : Type 0 where
  pub scope : ℕ
  pub admin : ℕ
  pub expires_at : ℕ
  pub reason : ℕ
  pub applied_at : ℕ

pub record DailyResetOccurred : Type 0 where
  pub meter_id : ℕ
  pub previous_total : ℤ
  pub reset_at : ℕ
  pub day_number : ℕ

pub data Event : Type 0 where
  reset : DailyResetOccurred → Event
  anomaly : AnomalousActivity → Event
  override_applied : OverrideApplied → Event

-- The storage under `VelocityDataKey`, and what was published.
pub record State : Type 0 where
  pub daily_outflow : Map DailyOutflow
  pub global_outflow : Option GlobalOutflowTracker
  pub velocity_config : Option VelocityConfig
  pub velocity_override : Map VelocityOverride
  pub events : List Event

-- The ledger's clock, and the contract's own address.
pub record Env : Type 0 where
  pub now : ℕ
  pub current_contract : ℕ

-- The symbols that a refused check returns.
pub data Refusal : Type 0 where
  vlimit gvlimit : Refusal

abbrev pub Check : Type 0
Check = Result Refusal (Unit {0}) × State
