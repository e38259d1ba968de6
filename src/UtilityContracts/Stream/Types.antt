-- ===== src/UtilityContracts/Stream/Types.antt =====
-- What the streams store, and what a call sees of the chain. Public keys are numbers, since the code only
-- compares them. The two temporary entries of a cached accumulation are written and expire together, so
-- they are one.
use utility_contracts.Base.{
  ℕ, ℤ, Bool, true, false, not, Option, List, ◌∷◌, Map, put, Call, panic_if,
}
use utility_contracts.UtilityContracts.Errors.{ContractError, not_authorized}

pub data StreamStatus : Type 0 where
  active paused depleted : StreamStatus

pub record ContinuousFlow : Type 0 where
  pub stream_id : ℕ
  pub flow_rate_per_second : ℤ
  pub accumulated_balance : ℤ
  pub last_flow_timestamp : ℕ
  pub created_timestamp : ℕ
  pub status : StreamStatus
  pub paused_at : ℕ
  pub provider : ℕ
  pub buffer_balance : ℤ
  pub buffer_warning_sent : Bool
  pub payer : ℕ
  pub priority_tier : ℕ
  pub grid_epoch_seen : ℕ
  pub device_mac_pubkey : ℕ
  pub is_unreliable : Bool

pub record ProviderGridEpoch : Type 0 where
  pub epoch : ℕ
  pub floor_rank : ℕ

pub record RateLimitData : Type 0 where
  pub count : ℕ
  pub last_reset : ℕ

-- A call of a token's `transfer`.
pub record Transfer : Type 0 where
  pub token : ℕ
  pub from : ℕ
  pub to : ℕ
  pub amount : ℤ

pub data Event : Type 0 where
  fee_flush dust_flush win_flush temp_flush : (sequence : ℕ) → Event
  buf_deplet : (stream_id now : ℕ) → ℤ → (provider : ℕ) → Event
  buf_warn : (stream_id now : ℕ) → ℤ → (provider : ℕ) → Event
  strm_pasd : (stream_id now provider : ℕ) → ℤ → Event
  strm_resum : (stream_id now provider : ℕ) → ℤ → (pause_duration : ℕ) → Event
  strm_upd :
      (stream_id : ℕ) → (old_rate new_rate : ℤ) → (now : ℕ) → (old new : StreamStatus) → Event
  buf_refnd : (stream_id : ℕ) → ℤ → (payer : ℕ) → Event
  buf_added bal_added withdraw : (stream_id : ℕ) → ℤ → Event
  stream_new : (stream_id : ℕ) → (rate balance : ℤ) → (provider : ℕ) → Event
  fee_swept : (stream_id : ℕ) → ℤ → (vault : ℕ) → Event
  fee_set : ℤ → Event
  vault_set : (vault : ℕ) → Event
  flt_limit : (provider : ℕ) → (old_cap new_cap : ℤ) → Event
  grid_alert : (provider new_epoch floor_tier : ℕ) → Event
  live_brch : (stream_id blackout_ledgers : ℕ) → ℤ → (meter_id : ℕ) → Event
  p2p_fin : (supplier consumer : ℕ) → (net fee : ℤ) → (ledger : ℕ) → Event

pub record State : Type 0 where
  -- Instance storage.
  pub flows : Map ContinuousFlow
  pub reentrancy_guard : Map Bool
  pub rate_limit : Map RateLimitData
  pub platform_fee_bps : Option ℤ
  pub protocol_fee_vault : Option ℕ
  pub streaming_fee_accrued : Map ℤ
  pub grid_epoch : Map ProviderGridEpoch
  pub grid_administrator : Option ℕ
  pub admin_address : Option ℕ
  pub current_admin : Option ℕ
  pub dao_governor : Option ℕ
  pub p2p_credit_vault : Map ℤ
  -- Persistent storage: `FleetAgg`, a record of one number, and `FleetCap`.
  pub fleet_agg : Map ℤ
  pub fleet_cap : Map ℤ
  -- Temporary storage: `FlowAccumulation` with `FlowTimestamp`, `FeeDelta` and `StreamLastHeartbeat`.
  pub flow_accumulation : Map (ℤ × ℕ)
  pub fee_delta : Map ℤ
  pub last_heartbeat : Map ℕ
  -- The transfers that the contract had made, the latest first, and what it published.
  pub transfers : List Transfer
  pub events : List Event

-- The ledger, the addresses that authorized the call, the contract's own address, whether a token accepts
-- a transfer after earlier ones, and whether a signature of a message by a key is valid.
pub record Env : Type 0 where
  pub now : ℕ
  pub sequence : ℕ
  pub authorized : ℕ → Bool
  pub current_contract : ℕ
  pub accepts_transfer : List Transfer → Transfer → Bool
  pub signature_valid : (public_key stream_id meter_id signature : ℕ) → Bool

abbrev pub Action : Type 0 → Type 0
Action A = Call State ContractError A

abbrev pub require_auth : Env → ℕ → Action (Unit {0})
require_auth env who = panic_if (not (env.authorized who)) not_authorized

abbrev pub publish : Event → State → State
publish e s = record s { events = e ∷ s.events }

abbrev pub store_flow : (stream_id : ℕ) → ContinuousFlow → State → State
store_flow stream_id flow s = record s { flows = put stream_id flow s.flows }

abbrev pub is_active : StreamStatus → Bool
is_active active = true
is_active paused = false
is_active depleted = false

abbrev pub is_paused : StreamStatus → Bool
is_paused active = false
is_paused paused = true
is_paused depleted = false

abbrev pub is_depleted : StreamStatus → Bool
is_depleted active = false
is_depleted paused = false
is_depleted depleted = true
