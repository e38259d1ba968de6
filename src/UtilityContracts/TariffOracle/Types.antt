-- ===== src/UtilityContracts/TariffOracle/Types.antt =====
-- What tariff_oracle.rs stores. Signatures and hashes are numbers, the one of zero bytes is 0.
use utility_contracts.Base.{ℕ, ℤ, Bool, not, Option, List, ◌∷◌, Map, Call, panic_if}
use utility_contracts.UtilityContracts.Errors.{ContractError, not_authorized}

pub data TariffTier : Type 0 where
  off_peak standard peak critical_peak : TariffTier

pub record HourlyTariff : Type 0 where
  pub hour : ℕ
  pub rate_cents_per_kwh : ℤ
  pub tier : TariffTier
  pub is_renewable_hour : Bool

pub record DailyTariffSchedule : Type 0 where
  pub hourly_rates : List HourlyTariff
  pub schedule_date : ℕ
  pub signed_by : ℕ
  pub created_at : ℕ
  pub effective_at : ℕ
  pub admin_signature : ℕ

pub record TariffUpdateProposal : Type 0 where
  pub proposal_id : ℕ
  pub new_schedule : DailyTariffSchedule
  pub proposed_by : ℕ
  pub created_at : ℕ
  pub executable_at : ℕ
  pub is_executed : Bool
  pub previous_schedule_hash : ℕ

pub record FlowCalculationResult : Type 0 where
  pub total_tokens : ℤ
  pub duration_seconds : ℕ
  pub weighted_rate_per_second : ℤ
  pub spanned_multiple_windows : Bool
  pub windows_crossed : ℕ

pub data Event : Type 0 where
  to_init : (grid_admin schedule_date : ℕ) → Event
  tupd_prop : (proposal_id executable_at : ℕ) → Event
  tschd_upd : (proposal_id schedule_date : ℕ) → Event

pub record State : Type 0 where
  pub tariff_oracle_admin : Option ℕ
  pub current_tariff_schedule : Option DailyTariffSchedule
  pub tariff_schedule_hash : Option ℕ
  pub tariff_proposal_counter : Option ℕ
  pub tariff_update_proposal : Map TariffUpdateProposal
  -- Temporary storage.
  pub today_tariff_schedule : Option DailyTariffSchedule
  pub events : List Event

-- The ledger's time, who authorized the call, the host's hash of a schedule, and, of the fresh environment
-- that the default schedule is made in, an address and the time.
pub record Env : Type 0 where
  pub now : ℕ
  pub authorized : ℕ → Bool
  pub sha256 : DailyTariffSchedule → ℕ
  pub generated : ℕ
  pub fresh_now : ℕ

abbrev pub Action : Type 0 → Type 0
Action A = Call State ContractError A

abbrev pub require_auth : Env → ℕ → Action (Unit {0})
require_auth env who = panic_if (not (env.authorized who)) not_authorized

abbrev pub publish : Event → State → State
publish e s = record s { events = e ∷ s.events }
