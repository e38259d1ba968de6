-- ===== src/UtilityContracts/NonceSync/Types.antt =====
-- What nonce_sync.rs stores. Hashes of device addresses, keys and signatures are numbers, the one of zero bytes
-- is 0.
use utility_contracts.Base.{ℕ, Bool, Option, List, ◌∷◌, Map, Call}
use utility_contracts.UtilityContracts.Errors.{ContractError}

pub data NonceAlertType : Type 0 where
  old_nonce future_nonce out_of_order : NonceAlertType

pub record DeviceNonceState : Type 0 where
  pub current_nonce : ℕ
  pub last_heartbeat : ℕ
  pub desync_count_24h : ℕ
  pub desync_count_reset : ℕ
  pub is_suspicious : Bool

pub record NonceResetRequest : Type 0 where
  pub meter_id : ℕ
  pub device_mac : ℕ
  pub new_nonce : ℕ
  pub requested_by : ℕ
  pub approvals : List ℕ
  pub required_approvals : ℕ
  pub created_at : ℕ
  pub expires_at : ℕ
  pub is_executed : Bool

pub record SignedHeartbeat : Type 0 where
  pub meter_id : ℕ
  pub device_mac : ℕ
  pub nonce : ℕ
  pub timestamp : ℕ
  pub signature : ℕ
  pub public_key : ℕ

pub data Event : Type 0 where
  ndsync : (meter_id device_mac expected_nonce received_nonce now : ℕ) → NonceAlertType → Event
  hbeat_ok : (meter_id device_mac nonce : ℕ) → Event
  nreset : (meter_id device_mac new_nonce approver : ℕ) → Event
  nrst_app : (meter_id device_mac approver approvals : ℕ) → Event
  ninit : (device_mac initial_nonce : ℕ) → Event

pub record State : Type 0 where
  pub device_nonce : Map DeviceNonceState
  pub nonce_reset_request : Map NonceResetRequest
  pub authorized_nonce_resetters : Option (List ℕ)
  pub events : List Event

-- The ledger's time, and whether the heartbeat's signature of its other fields is valid.
pub record Env : Type 0 where
  pub now : ℕ
  pub signature_valid : SignedHeartbeat → Bool

abbrev pub Action : Type 0 → Type 0
Action A = Call State ContractError A

abbrev pub publish : Event → State → State
publish e s = record s { events = e ∷ s.events }
