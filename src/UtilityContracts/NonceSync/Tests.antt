-- ===== src/UtilityContracts/NonceSync/Tests.antt =====
-- A device of hash 9, whose heartbeat 0 is sent, and sent again after heartbeat 1.
use utility_contracts.Base.{
  ℕ, ◌+◌, ◌%◌, ◌^◌, ◌≡◌, ◌≢◌, refl, true, false, none, [], no_entries, ok, err, Result, ◌==◌,
  if◌then◌else◌, arith,
}
use utility_contracts.UtilityContracts.Errors.{ContractError, unauthorized_device}
use utility_contracts.UtilityContracts.NonceSync.Types.{
  SignedHeartbeat, NonceResetRequest, State, Env,
}
use utility_contracts.UtilityContracts.NonceSync.Manager.{
  verify_heartbeat_nonce, reset_device_nonce,
}
use utility_contracts.UtilityContracts.NonceSync.Replay.{
  expected, verify_heartbeat_nonce_lem, none_yet, heartbeat, replay_rejected,
}
use utility_contracts.UtilityContracts.NonceSync.Resets.{
  deployed, start, next, heard, reset_blocked,
}

abbrev at : ℕ → Env
at now = record { now = now; signature_valid = λ hb. true }

abbrev beat : ℕ → SignedHeartbeat
beat nonce = record {
  meter_id = 5;
  device_mac = 9;
  nonce = nonce;
  timestamp = 50;
  signature = 77;
  public_key = 66;
}

abbrev silent : State
silent = record {
  device_nonce = no_entries;
  nonce_reset_request = no_entries;
  authorized_nonce_resetters = none;
  events = [];
}

abbrev left : {A : Type 0} → Result ContractError (A × State) → State
left (ok r) = r.1
left (err e) = silent

abbrev first : State
unfolding verify_heartbeat_nonce
first = left (verify_heartbeat_nonce (at 100) (beat 0) silent)

beat_0 : verify_heartbeat_nonce (at 100) (beat 0) silent ≡ ok (true, first)
unfolding verify_heartbeat_nonce
beat_0 = refl

abbrev second : State
unfolding verify_heartbeat_nonce
second = left (verify_heartbeat_nonce (at 200) (beat 1) first)

beat_1 : verify_heartbeat_nonce (at 200) (beat 1) first ≡ ok (true, second)
unfolding verify_heartbeat_nonce first
beat_1 = refl

abbrev third : State
unfolding verify_heartbeat_nonce
third = left (verify_heartbeat_nonce (at 300) (beat 0) second)

beat_0_again : verify_heartbeat_nonce (at 300) (beat 0) second ≡ ok (false, third)
unfolding verify_heartbeat_nonce second first
beat_0_again = refl

-- A nonce that skips one is rejected, though it is within the window.
skipped : State
unfolding verify_heartbeat_nonce
skipped = left (verify_heartbeat_nonce (at 200) (beat 2) first)

beat_2 : verify_heartbeat_nonce (at 200) (beat 2) first ≡ ok (false, skipped)
unfolding verify_heartbeat_nonce first skipped
beat_2 = refl

verify_heartbeat_nonce_lem_example :
    (true ≡ (0 == expected 9 silent))
    × ((mac : ℕ)
        → expected mac first ≡ (
            if true
            then (if 9 == mac then (0 + 1) % 2 ^ 64 else expected mac silent)
            else expected mac silent))
verify_heartbeat_nonce_lem_example =
    verify_heartbeat_nonce_lem (at 100) (beat 0) true silent first beat_0

replay_rejected_example : verify_heartbeat_nonce (at 300) (beat 0) second ≢ ok (true, third)
replay_rejected_example =
    replay_rejected (at 100) (at 300) (beat 0) (beat 0) silent first second third (omega arith)
      beat_0 (heartbeat (at 200) (beat 1) true none_yet (omega arith) beat_1) refl (omega arith)

abbrev asking : NonceResetRequest
asking = record {
  meter_id = 5;
  device_mac = 9;
  new_nonce = 0;
  requested_by = 99;
  approvals = [];
  required_approvals = 1;
  created_at = 300;
  expires_at = 400;
  is_executed = false;
}

abbrev joined : State
unfolding verify_heartbeat_nonce
joined = left (verify_heartbeat_nonce (at 100) (beat 0) deployed)

joining : verify_heartbeat_nonce (at 100) (beat 0) deployed ≡ ok (true, joined)
unfolding verify_heartbeat_nonce
joining = refl

reset_blocked_example : reset_device_nonce (at 350) 5 9 0 asking 21 joined ≡ err unauthorized_device
reset_blocked_example =
    reset_blocked (at 350) 5 9 0 asking 21 joined
      (next start (heard (at 100) (beat 0) true joining))
