-- ===== src/UtilityContracts/Meters/Types.antt =====
-- Meters of lib.rs: what is stored of one, and the part of the contract's storage that the operations on
-- meters read or write.
use utility_contracts.Base.{
  ℕ, ℤ, Bool, not, Option, List, ◌∷◌, Map, Map₂, Call, panic_if, gets, modify, or_panic, ◌>>=◌,
  ◌>>◌, put,
}
use utility_contracts.UtilityContracts.Errors.{
  ContractError, not_authorized, meter_not_found, call_failed,
}

pub data BillingType : Type 0 where
  pre_paid post_paid : BillingType

pub data ResourceType : Type 0 where
  electricity gas water heat : ResourceType

pub record UsageData : Type 0 where
  pub total_watt_hours : ℤ
  pub current_cycle_watt_hours : ℤ
  pub peak_usage_watt_hours : ℤ
  pub last_reading_timestamp : ℕ
  pub precision_factor : ℤ
  pub renewable_watt_hours : ℤ
  pub renewable_percentage : ℤ
  pub monthly_volume : ℤ
  pub last_volume_reset : ℕ
  pub first_reading_timestamp : ℕ

pub record SlaConfig : Type 0 where
  pub threshold_seconds : ℕ
  pub penalty_multiplier_bps : ℤ

pub record SlaState : Type 0 where
  pub accumulated_downtime : ℕ
  pub last_report_timestamp : ℕ
  pub is_penalty_active : Bool

pub record Meter : Type 0 where
  pub user : ℕ
  pub provider : ℕ
  pub billing_type : BillingType
  pub resource_type : ResourceType
  pub off_peak_rate : ℤ
  pub peak_rate : ℤ
  pub rate_per_unit : ℤ
  pub balance : ℤ
  pub debt : ℤ
  pub last_update : ℕ
  pub is_active : Bool
  pub token : ℕ
  pub usage_data : UsageData
  pub device_public_key : ℕ
  pub end_date : ℕ
  pub rent_deposit : ℤ
  pub priority_index : ℕ
  pub green_energy_discount_bps : ℤ
  pub carbon_credit_token : Option ℕ
  pub carbon_credit_drip_rate_bps : ℤ
  pub is_paused : Bool
  pub is_disputed : Bool
  pub challenge_timestamp : ℕ
  pub credit_drip_rate : ℤ
  pub is_closed : Bool
  pub off_peak_reward_rate_bps : ℤ
  pub milestone_deadline : ℕ
  pub milestone_confirmed : Bool
  pub rate_per_second : ℤ
  pub collateral_limit : ℤ
  pub max_flow_rate_per_hour : ℤ
  pub last_claim_time : ℕ
  pub claimed_this_hour : ℤ
  pub is_paired : Bool
  pub tier_threshold : ℤ
  pub tier_rate : ℤ
  pub last_heartbeat : ℕ
  pub grace_period_start : ℕ
  pub is_offline : Bool
  pub estimated_usage_total : ℤ
  pub sla_config : Option SlaConfig
  pub sla_state : SlaState
  pub is_updating : Bool
  pub update_start_timestamp : ℕ

pub record SignedUsageData : Type 0 where
  pub meter_id : ℕ
  pub timestamp : ℕ
  pub watt_hours_consumed : ℤ
  pub units_consumed : ℤ
  pub signature : ℕ
  pub public_key : ℕ
  pub is_renewable_energy : Bool

pub record ProviderWithdrawalWindow : Type 0 where
  pub daily_withdrawn : ℤ
  pub last_reset : ℕ

-- A call of a token's `transfer`.
pub record Transfer : Type 0 where
  pub token : ℕ
  pub from : ℕ
  pub to : ℕ
  pub amount : ℤ

pub data Event : Type 0 where
  active : (meter_id timestamp : ℕ) → Event
  tok_up : (meter_id : ℕ) → (amount converted_amount : ℤ) → Event
  tax_receipt :
      (meter_id : ℕ)
      → (total_amount tax_amount net_amount tax_rate_bps : ℤ) → (government_vault timestamp : ℕ)
      → Event
  credits_issued : (meter_id : ℕ) → Transfer → (timestamp : ℕ) → Event
  off_recon : (meter_id : ℕ) → (estimated_cost actual_cost adjustment : ℤ) → (timestamp : ℕ) → Event
  ttl_extended : (meter_id ledger_sequence lifetime : ℕ) → Event
  usage_reported : (meter_id : ℕ) → (units_consumed cost : ℤ) → Event
  ping_received : (meter_id timestamp : ℕ) → Event
  paused : (meter_id : ℕ) → Bool → Event
  pair_comp : (meter_id signature : ℕ) → Event

pub record State : Type 0 where
  pub meter : Map Meter
  pub count : Option ℕ
  pub active_meters_count : Option ℕ
  pub contributor : Map₂ ℤ
  pub authorized_contributor : Map₂ Bool
  pub provider_total_pool : Map ℤ
  -- Under `DataKey::ProviderWindow`, and under the key of temporary storage.
  pub provider_window : Map ProviderWithdrawalWindow
  pub temporary_window : Map ProviderWithdrawalWindow
  pub maintenance_fund : Map ℤ
  pub auto_extend_threshold : Option ℕ
  pub maintenance_wallet : Option ℕ
  pub tax_rate_bps : Option ℤ
  pub protocol_fee_bps : Option ℤ
  pub government_vault : Option ℕ
  pub oracle : Option ℕ
  pub last_reading_time : Map ℕ
  pub pairing_challenge : Map ℕ
  pub transfers : List Transfer
  pub events : List Event

-- What a call sees of the chain. A client of another contract answers or panics.
pub record Env : Type 0 where
  pub now : ℕ
  pub ledger_sequence : ℕ
  pub authorized : ℕ → Bool
  pub current_contract : ℕ
  pub accepts_transfer : List Transfer → Transfer → Bool
  pub to_usd_cents : (oracle : ℕ) → ℤ → Option ℤ
  pub to_xlm : (oracle : ℕ) → ℤ → Option ℤ
  pub verify_green_source : (oracle provider meter_id timestamp : ℕ) → Option Bool
  pub ed25519_verify : SignedUsageData → Bool
  pub verify_pairing : (public_key contract meter_id timestamp signature : ℕ) → Bool

abbrev pub Action : Type 0 → Type 0
Action A = Call State ContractError A

abbrev pub require_auth : Env → ℕ → Action (Unit {0})
require_auth env who = panic_if (not (env.authorized who)) not_authorized

abbrev pub publish : Event → State → State
publish e s = record s { events = e ∷ s.events }

abbrev pub get_meter_or_panic : (meter_id : ℕ) → Action Meter
get_meter_or_panic meter_id = do or_panic (← gets (λ s. s.meter meter_id)) meter_not_found

abbrev pub store_meter : (meter_id : ℕ) → Meter → State → State
store_meter meter_id meter s = record s { meter = put meter_id meter s.meter }

-- A token contract takes a transfer or panics.
unfoldable pub call_transfer : Env → Transfer → Action (Unit {0})
call_transfer env t = do
  accepted ← gets (λ s. env.accepts_transfer s.transfers t)
  panic_if (not accepted) call_failed
  modify (λ s. record s { transfers = t ∷ s.transfers })
