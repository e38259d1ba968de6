-- ===== src/UtilityContracts/Multisig/Types.antt =====
-- What the multi-signature withdrawals store. Meters are those of Meters/Types.
use utility_contracts.Base.{
  ℕ, ℤ, Bool, not, List, ◌∷◌, Map, Map₂, put₂, Call, panic_if, gets, or_panic, ◌>>=◌,
}
use utility_contracts.UtilityContracts.Meters.Types.{Meter, Transfer}
use utility_contracts.UtilityContracts.Errors.{ContractError, not_authorized, meter_not_found}

pub record MultiSigConfig : Type 0 where
  pub provider : ℕ
  pub finance_wallets : List ℕ
  pub required_signatures : ℕ
  pub threshold_amount : ℤ
  pub is_active : Bool
  pub created_at : ℕ

pub record WithdrawalRequest : Type 0 where
  pub request_id : ℕ
  pub provider : ℕ
  pub meter_id : ℕ
  pub amount_usd_cents : ℤ
  pub destination : ℕ
  pub proposer : ℕ
  pub created_at : ℕ
  pub expires_at : ℕ
  pub approval_count : ℕ
  pub is_executed : Bool
  pub is_cancelled : Bool

pub data Event : Type 0 where
  msig_cfg msig_upd : (provider required_signatures : ℕ) → ℤ → Event
  msig_prop : (provider request_id : ℕ) → ℤ → (destination proposer : ℕ) → Event
  msig_appr msig_rvke : (provider request_id wallet approval_count : ℕ) → Event
  msig_exec : (provider request_id : ℕ) → ℤ → (destination : ℕ) → ℤ → Event
  msig_canc : (provider request_id : ℕ) → Event
  msig_off : (provider : ℕ) → Event

pub record State : Type 0 where
  pub config : Map MultiSigConfig
  pub request_count : Map ℕ
  pub request : Map₂ WithdrawalRequest
  -- Whether `WithdrawalApproval(provider, request_id, wallet)` is there.
  pub approval : (provider request_id wallet : ℕ) → Bool
  pub meter : Map Meter
  pub provider_total_pool : Map ℤ
  pub transfers : List Transfer
  pub events : List Event

pub record Env : Type 0 where
  pub now : ℕ
  pub authorized : ℕ → Bool
  pub current_contract : ℕ
  pub accepts_transfer : List Transfer → Transfer → Bool

abbrev pub Action : Type 0 → Type 0
Action A = Call State ContractError A

abbrev pub require_auth : Env → ℕ → Action (Unit {0})
require_auth env who = panic_if (not (env.authorized who)) not_authorized

abbrev pub publish : Event → State → State
publish e s = record s { events = e ∷ s.events }

abbrev pub store_request : (provider request_id : ℕ) → WithdrawalRequest → State → State
store_request provider request_id request s = record s {
  request = put₂ provider request_id request s.request;
}

abbrev pub get_meter_or_panic : (meter_id : ℕ) → Action Meter
get_meter_or_panic meter_id = do or_panic (← gets (λ s. s.meter meter_id)) meter_not_found
