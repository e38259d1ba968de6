-- ===== src/UtilityContracts/Stream/History.antt =====
-- Histories of streams: the calls that return, and the expiry of cached accumulations.
use utility_contracts.Base.{
  ℕ, ◌≡◌, ℤ, ◌≤ℤ◌, i128_max, arith, Option-cases, inl, inr, none, ok, Result, remove, remove_sub,
  no_entries, [],
}
use utility_contracts.UtilityContracts.Errors.{ContractError}
use utility_contracts.UtilityContracts.Stream.Types.{State, Env}
use utility_contracts.UtilityContracts.Stream.Fleet.{
  p2p_finalize_exchange, set_fleet_cap_super_admin, liveness_check_and_slash, stream_heartbeat,
}
use utility_contracts.UtilityContracts.Stream.Creation.{create_continuous_stream}
use utility_contracts.UtilityContracts.Stream.Pausing.{pause_stream, resume_stream}
use utility_contracts.UtilityContracts.Stream.Rates.{
  update_continuous_flow_rate, pause_continuous_flow, resume_continuous_flow,
}
use utility_contracts.UtilityContracts.Stream.Balances.{
  add_continuous_buffer, add_continuous_balance, withdraw_continuous, close_stream_amicably,
  collect_streaming_fees, get_buffer_balance,
}
use utility_contracts.UtilityContracts.Stream.Config.{
  set_platform_fee_bps, set_protocol_fee_vault, set_dao_governor, set_grid_administrator,
  grid_shortage_load_shed, pardon_stream_liveness,
}
use utility_contracts.UtilityContracts.Stream.Solvency.{IsSolvent, update-IsSound}
use utility_contracts.UtilityContracts.Stream.Steps.{
  withdraw-IsSolvent, add_balance-IsSolvent, add_buffer-IsSolvent, close-IsSolvent,
}
use utility_contracts.UtilityContracts.Stream.Lifecycle.{
  create-IsSolvent, pause-IsSolvent, resume-IsSolvent,
}
use utility_contracts.UtilityContracts.Stream.Slashing.{
  slash-IsSolvent, pardon-IsSolvent, heartbeat-IsSolvent,
}
use utility_contracts.UtilityContracts.Stream.Administration.{
  share_set-IsSolvent, fees_collected-IsSolvent, vault_set-IsSolvent, fleet_capped-IsSolvent,
  governor_set-IsSolvent, grid_administrator_set-IsSolvent, load_shed-IsSolvent,
  exchanged-IsSolvent, rate_updated-IsSolvent, flow_paused-IsSolvent, flow_resumed-IsSolvent,
}

abbrev pub deployed : State
deployed = record {
  flows = no_entries;
  reentrancy_guard = no_entries;
  rate_limit = no_entries;
  platform_fee_bps = none;
  protocol_fee_vault = none;
  streaming_fee_accrued = no_entries;
  grid_epoch = no_entries;
  grid_administrator = none;
  admin_address = none;
  current_admin = none;
  dao_governor = none;
  p2p_credit_vault = no_entries;
  fleet_agg = no_entries;
  fleet_cap = no_entries;
  flow_accumulation = no_entries;
  fee_delta = no_entries;
  last_heartbeat = no_entries;
  transfers = [];
  events = [];
}

abbrev pub expire : (stream_id : ℕ) → State → State
expire stream_id s = record s { flow_accumulation = remove stream_id s.flow_accumulation }

-- One call that returns, or the expiry of one cached accumulation.
pub data Step : State → State → Type 0 where
  created :
      {s s' : State} (env : Env) (i : ℕ) (rate balance : ℤ) (provider payer tier pubkey : ℕ)
      → balance ≤ℤ i128_max
      → create_continuous_stream env i rate balance provider payer tier pubkey s ≡ ok (tt, s')
      → Step s s'
  paused_by_provider :
      {s s' : State} (env : Env) (i provider : ℕ) (r : Result ContractError (Unit {0}))
      → pause_stream env i provider s ≡ ok (r, s')
      → Step s s'
  resumed_by_provider :
      {s s' : State} (env : Env) (i : ℕ) (rate : ℤ) (provider : ℕ)
      (r : Result ContractError (Unit {0}))
      → resume_stream env i rate provider s ≡ ok (r, s')
      → Step s s'
  rate_updated :
      {s s' : State} (env : Env) (i : ℕ) (rate : ℤ)
      → rate ≤ℤ i128_max
      → update_continuous_flow_rate env i rate s ≡ ok (tt, s')
      → Step s s'
  flow_paused :
      {s s' : State} (env : Env) (i : ℕ) → pause_continuous_flow env i s ≡ ok (tt, s') → Step s s'
  flow_resumed :
      {s s' : State} (env : Env) (i : ℕ) (rate : ℤ)
      → rate ≤ℤ i128_max
      → resume_continuous_flow env i rate s ≡ ok (tt, s')
      → Step s s'
  buffer_added :
      {s s' : State} (env : Env) (i : ℕ) (amount : ℤ)
      → add_continuous_buffer env i amount s ≡ ok (tt, s')
      → Step s s'
  balance_added :
      {s s' : State} (env : Env) (i : ℕ) (amount : ℤ)
      → add_continuous_balance env i amount s ≡ ok (tt, s')
      → Step s s'
  withdrawn :
      {s s' : State} (env : Env) (i : ℕ) (amount paid : ℤ)
      → withdraw_continuous env i amount s ≡ ok (paid, s')
      → Step s s'
  closed :
      {s s' : State} (env : Env) (i : ℕ) (paid : ℤ)
      → close_stream_amicably env i s ≡ ok (paid, s')
      → Step s s'
  fees_collected :
      {s s' : State} (env : Env) (i : ℕ) (swept : ℤ)
      → collect_streaming_fees env i s ≡ ok (swept, s')
      → Step s s'
  slashed :
      {s s' : State} (env : Env) (i meter threshold : ℕ) (cut : ℤ)
      → liveness_check_and_slash env i meter threshold s ≡ ok (cut, s')
      → Step s s'
  pardoned :
      {s s' : State} (env : Env) (i : ℕ) → pardon_stream_liveness env i s ≡ ok (tt, s') → Step s s'
  heartbeat :
      {s s' : State} (env : Env) (i meter signature pub_key : ℕ)
      → stream_heartbeat env i meter signature pub_key s ≡ ok (tt, s')
      → Step s s'
  share_set :
      {s s' : State} (env : Env) (bps : ℤ)
      → set_platform_fee_bps env bps s ≡ ok (tt, s')
      → Step s s'
  vault_set :
      {s s' : State} (env : Env) (vault : ℕ)
      → set_protocol_fee_vault env vault s ≡ ok (tt, s')
      → Step s s'
  fleet_capped :
      {s s' : State} (env : Env) (provider : ℕ) (limit : ℤ) (admin : ℕ)
      → set_fleet_cap_super_admin env provider limit admin s ≡ ok (tt, s')
      → Step s s'
  governor_set :
      {s s' : State} (env : Env) (dao : ℕ) → set_dao_governor env dao s ≡ ok (tt, s') → Step s s'
  grid_administrator_set :
      {s s' : State} (env : Env) (grid_admin : ℕ)
      → set_grid_administrator env grid_admin s ≡ ok (tt, s')
      → Step s s'
  load_shed :
      {s s' : State} (env : Env) (provider tier grid_admin : ℕ)
      → grid_shortage_load_shed env provider tier grid_admin s ≡ ok (tt, s')
      → Step s s'
  exchanged :
      {s s' : State} (env : Env) (supplier consumer treasury : ℕ)
      (supply demand seconds fee_bps limit : ℤ) (token : ℕ) (settled : ℤ × ℤ)
      → p2p_finalize_exchange env supplier consumer treasury supply demand seconds fee_bps limit
          token s
        ≡ ok (settled, s')
      → Step s s'
  buffer_read : {s : State} (env : Env) (i : ℕ) → Step s (get_buffer_balance env i s).1
  expired : {s : State} (i : ℕ) → Step s (expire i s)

pub data Reachable : State → Type 0 where
  start : Reachable deployed
  next : {s s' : State} → Reachable s → Step s s' → Reachable s'

expired-IsSolvent : (i : ℕ) (s : State) → IsSolvent s → IsSolvent (expire i s)
expired-IsSolvent i s inv = record {
  flows = inv.flows;
  cache = λ j a t h. inv.cache j a t (remove_sub i j (a, t) s.flow_accumulation h);
  share = inv.share;
}

read-IsSolvent :
    (env : Env) (i : ℕ) (s : State) → IsSolvent s → IsSolvent (get_buffer_balance env i s).1
unfolding get_buffer_balance
read-IsSolvent env i s inv = elim (Option-cases (s.flows i)) [
  | inl e ↦ rw (get_buffer_balance, e) inv
  | inr (flow, e) ↦
      rw (get_buffer_balance, e) (update-IsSound env i flow env.now s (inv.flows i flow e) inv).1
]

Step-IsSolvent : (s s' : State) → Step s s' → IsSolvent s → IsSolvent s'
Step-IsSolvent s s' (created env i rate balance provider payer tier pubkey fits h) inv =
    create-IsSolvent env i rate balance provider payer tier pubkey s s' fits inv h
Step-IsSolvent s s' (paused_by_provider env i provider r h) inv =
    pause-IsSolvent env i provider r s s' inv h
Step-IsSolvent s s' (resumed_by_provider env i rate provider r h) inv =
    resume-IsSolvent env i rate provider r s s' inv h
Step-IsSolvent s s' (rate_updated env i rate fits h) inv =
    rate_updated-IsSolvent env i rate s s' fits inv h
Step-IsSolvent s s' (flow_paused env i h) inv = flow_paused-IsSolvent env i s s' inv h
Step-IsSolvent s s' (flow_resumed env i rate fits h) inv =
    flow_resumed-IsSolvent env i rate s s' fits inv h
Step-IsSolvent s s' (buffer_added env i amount h) inv = add_buffer-IsSolvent env i amount s s' inv h
Step-IsSolvent s s' (balance_added env i amount h) inv =
    add_balance-IsSolvent env i amount s s' inv h
Step-IsSolvent s s' (withdrawn env i amount paid h) inv =
    withdraw-IsSolvent env i amount paid s s' inv h
Step-IsSolvent s s' (closed env i paid h) inv = close-IsSolvent env i paid s s' inv h
Step-IsSolvent s s' (fees_collected env i swept h) inv =
    fees_collected-IsSolvent env s s' inv i swept h
Step-IsSolvent s s' (slashed env i meter threshold cut h) inv =
    slash-IsSolvent env i meter threshold cut s s' inv h
Step-IsSolvent s s' (pardoned env i h) inv = pardon-IsSolvent env i s s' inv h
Step-IsSolvent s s' (heartbeat env i meter signature pub_key h) inv =
    heartbeat-IsSolvent env i meter signature pub_key s s' inv h
Step-IsSolvent s s' (share_set env bps h) inv = share_set-IsSolvent env s s' inv bps h
Step-IsSolvent s s' (vault_set env vault h) inv = vault_set-IsSolvent env s s' inv vault h
Step-IsSolvent s s' (fleet_capped env provider limit admin h) inv =
    fleet_capped-IsSolvent env s s' inv provider limit admin h
Step-IsSolvent s s' (governor_set env dao h) inv = governor_set-IsSolvent env s s' inv dao h
Step-IsSolvent s s' (grid_administrator_set env grid_admin h) inv =
    grid_administrator_set-IsSolvent env s s' inv grid_admin h
Step-IsSolvent s s' (load_shed env provider tier grid_admin h) inv =
    load_shed-IsSolvent env s s' inv provider tier grid_admin h
Step-IsSolvent s s'
      (exchanged env supplier consumer treasury supply demand seconds fee_bps limit token settled h)
      inv =
    exchanged-IsSolvent env supplier consumer treasury supply demand seconds fee_bps limit token
      settled s s' inv h
Step-IsSolvent s _ (buffer_read env i) inv = read-IsSolvent env i s inv
Step-IsSolvent s _ (expired i) inv = expired-IsSolvent i s inv

-- In every state that the modelled operations on streams reach from an empty contract, in whatever
-- order, with arguments that are `i128` values and with cached accumulations expiring at any time:
-- no stream has a negative balance, buffer or rate, each is stored under its own number, every
-- cached accumulation is not negative, and the platform's share is at most 10,000 basis points.
pub Reachable-IsSolvent : (s : State) → Reachable s → IsSolvent s
Reachable-IsSolvent _ start = record {
  flows = λ i flow h. absurd (ground (arith, h));
  cache = λ i a t h. absurd (ground (arith, h));
  share = omega arith;
}
Reachable-IsSolvent s' (next {s} r step) = Step-IsSolvent s s' step (Reachable-IsSolvent s r)
