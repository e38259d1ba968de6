-- ===== src/UtilityContracts/NonceSync/Resets.antt =====
-- Who can reset a nonce, in the states that calls reach.
use utility_contracts.Base.{
  ℕ, ◌≡◌, refl, ◌∙◌, Bool, none, [], no_entries, ◌==◌, if◌then◌else◌, arith, ok, err, Bool-cases,
  inl, inr, is_some,
}
use utility_contracts.UtilityContracts.Errors.{invalid_device_mac, unauthorized_device}
use utility_contracts.UtilityContracts.NonceSync.Types.{
  NonceResetRequest, SignedHeartbeat, State, Env,
}
use utility_contracts.UtilityContracts.NonceSync.Manager.{
  verify_heartbeat_nonce, reset_device_nonce, initialize_device_nonce, nonce_window_size,
  get_device_nonce_state, contains,
}
use utility_contracts.UtilityContracts.NonceSync.Replay.{validate_cases}

abbrev pub deployed : State
deployed = record {
  device_nonce = no_entries;
  nonce_reset_request = no_entries;
  authorized_nonce_resetters = none;
  events = [];
}

pub data Step : State → State → Type 0 where
  heard :
      {s s' : State} (env : Env) (hb : SignedHeartbeat) (b : Bool)
      → verify_heartbeat_nonce env hb s ≡ ok (b, s')
      → Step s s'
  known : {s : State} (mac initial : ℕ) → Step s (initialize_device_nonce mac initial s)
  reset :
      {s s' : State} (env : Env) (meter mac new_nonce : ℕ) (request : NonceResetRequest)
      (approver : ℕ)
      → reset_device_nonce env meter mac new_nonce request approver s ≡ ok (tt, s')
      → Step s s'

pub data Reachable : State → Type 0 where
  start : Reachable deployed
  next : {s s' : State} → Reachable s → Step s s' → Reachable s'

-- Nobody is in the list of those who may reset.
refused :
    (env : Env) (meter mac new_nonce : ℕ) (request : NonceResetRequest) (approver : ℕ) (s : State)
    → s.authorized_nonce_resetters ≡ none
    → reset_device_nonce env meter mac new_nonce request approver s
      ≡ err (if mac == 0 then invalid_device_mac else unauthorized_device)
unfolding reset_device_nonce contains
refused env meter mac new_nonce request approver s e = elim (Bool-cases (mac == 0)) [
  | inl z ↦ ground (arith, e, z)
  | inr z ↦ ground (arith, e, z)
]

heard_list :
    (env : Env) (hb : SignedHeartbeat) (b : Bool) (s s' : State)
    → verify_heartbeat_nonce env hb s ≡ ok (b, s')
    → s'.authorized_nonce_resetters ≡ s.authorized_nonce_resetters
unfolding verify_heartbeat_nonce
heard_list env hb b s s' h =
    let at = (get_device_nonce_state hb.device_mac s).current_nonce in
    elim (validate_cases hb.nonce at nonce_window_size) [
      | inl (e, v) ↦ ground (arith, h, v)
      | inr (e, (a, v)) ↦ ground (arith, h, v)
    ]

known_list :
    (mac initial : ℕ) (s : State)
    → (initialize_device_nonce mac initial s).authorized_nonce_resetters
      ≡ s.authorized_nonce_resetters
unfolding initialize_device_nonce
known_list mac initial s = elim (Bool-cases (is_some (s.device_nonce mac))) [
  | inl e ↦ ground (arith, e)
  | inr e ↦ ground (arith, e)
]

Reachable-unlisted : (s : State) → Reachable s → s.authorized_nonce_resetters ≡ none
Reachable-unlisted _ start = refl
Reachable-unlisted s' (next {s} r (heard env hb b h)) =
    heard_list env hb b s s' h ∙ Reachable-unlisted s r
Reachable-unlisted _ (next {s} r (known mac initial)) =
    known_list mac initial s ∙ Reachable-unlisted s r
Reachable-unlisted s' (next {s} r (reset env meter mac new_nonce request approver h)) =
    let e = refused env meter mac new_nonce request approver s (Reachable-unlisted s r) in
    absurd (ground (arith, h, e))

-- In every state that heartbeats, initializations and resets reach from an empty contract, every
-- call of `reset_device_nonce` aborts, whatever request and approver it is given: with
-- `InvalidDeviceMac` for the hash of zero bytes, and else with `UnauthorizedDevice`.
pub reset_blocked :
    (env : Env) (meter mac new_nonce : ℕ) (request : NonceResetRequest) (approver : ℕ) (s : State)
    → Reachable s
    → reset_device_nonce env meter mac new_nonce request approver s
      ≡ err (if mac == 0 then invalid_device_mac else unauthorized_device)
reset_blocked env meter mac new_nonce request approver s r =
    refused env meter mac new_nonce request approver s (Reachable-unlisted s r)
