-- ===== src/UtilityContracts/Meters/History.antt =====
-- Histories of meters: the calls that return, and changes of the contract's settings.
use utility_contracts.Base.{
  ℕ, suc, ◌≡◌, refl, ℤ, Bool, arith, Option, none, some, put, ok, unwrap_or, ◌+◌, ◌<◌, ◌^◌, Map,
  Map₂, no_entries, [],
}
use utility_contracts.UtilityContracts.Meters.Types.{
  BillingType, ResourceType, State, Env, SignedUsageData,
}
use utility_contracts.UtilityContracts.Meters.Helpers.{provider_meter_value}
use utility_contracts.UtilityContracts.Meters.Registration.{
  register_meter_with_mode, new_meter, next_id, ping, set_meter_pause, set_tiered_pricing,
  emergency_shutdown, set_max_flow_rate, reset_cycle_usage, update_usage, complete_pairing,
}
use utility_contracts.UtilityContracts.Meters.Claims.{claim}
use utility_contracts.UtilityContracts.Meters.Funds.{top_up, withdraw_earnings}
use utility_contracts.UtilityContracts.Meters.Usage.{deduct_units}
use utility_contracts.UtilityContracts.Meters.Pools.{
  IsTracked, IsModerate, total, move-IsTracked, rest-IsTracked, fresh-IsTracked,
}
use utility_contracts.UtilityContracts.Meters.Effects.{Tracks, claim-Tracks}
use utility_contracts.UtilityContracts.Meters.Funding.{top_up-Tracks, withdraw_earnings-Tracks}
use utility_contracts.UtilityContracts.Meters.Settings.{
  Rests, ping-Rests, set_meter_pause-Rests, set_tiered_pricing-Rests, emergency_shutdown-Rests,
  set_max_flow_rate-Rests, reset_cycle_usage-Rests, update_usage-Rests, complete_pairing-Rests,
}
use utility_contracts.UtilityContracts.Meters.Reports.{deduct_units-Tracks}

abbrev pub deployed : State
deployed = record {
  meter = no_entries;
  count = none;
  active_meters_count = none;
  contributor = λ i. no_entries;
  authorized_contributor = λ i. no_entries;
  provider_total_pool = no_entries;
  provider_window = no_entries;
  temporary_window = no_entries;
  maintenance_fund = no_entries;
  auto_extend_threshold = none;
  maintenance_wallet = none;
  tax_rate_bps = none;
  protocol_fee_bps = none;
  government_vault = none;
  oracle = none;
  last_reading_time = no_entries;
  pairing_challenge = no_entries;
  transfers = [];
  events = [];
}

-- Settings that other entry points change.
pub record Settings : Type 0 where
  pub wallet : Option ℕ
  pub tax : Option ℤ
  pub fee : Option ℤ
  pub vault : Option ℕ
  pub oracle : Option ℕ
  pub contributors : Map₂ Bool
  pub challenges : Map ℕ

abbrev pub administer : Settings → State → State
administer c s = record s {
  maintenance_wallet = c.wallet;
  tax_rate_bps = c.tax;
  protocol_fee_bps = c.fee;
  government_vault = c.vault;
  oracle = c.oracle;
  authorized_contributor = c.contributors;
  pairing_challenge = c.challenges;
}

-- One call that returns, or a change of the settings.
pub data Step : State → State → Type 0 where
  registered :
      {s s' : State} (env : Env) (user provider : ℕ) (rate : ℤ) (token : ℕ) (billing : BillingType)
      (key priority id : ℕ) (kind : ResourceType)
      → unwrap_or 0 s.count + 1 < 2 ^ 64
      → register_meter_with_mode env user provider rate token billing key priority kind s
        ≡ ok (id, s')
      → Step s s'
  funded :
      {s s' : State} (env : Env) (i : ℕ) (amount : ℤ) (contributor : ℕ)
      → top_up env i amount contributor s ≡ ok (tt, s')
      → Step s s'
  collected : {s s' : State} (env : Env) (i : ℕ) → claim env i s ≡ ok (tt, s') → Step s s'
  withdrawn :
      {s s' : State} (env : Env) (i : ℕ) (amount : ℤ)
      → withdraw_earnings env i amount s ≡ ok (tt, s')
      → Step s s'
  billed :
      {s s' : State} (env : Env) (signed_data : SignedUsageData)
      → deduct_units env signed_data s ≡ ok (tt, s')
      → Step s s'
  heard : {s s' : State} (env : Env) (i : ℕ) → ping env i s ≡ ok (tt, s') → Step s s'
  pause_set :
      {s s' : State} (env : Env) (i : ℕ) (b : Bool)
      → set_meter_pause env i b s ≡ ok (tt, s')
      → Step s s'
  tier_set :
      {s s' : State} (env : Env) (i : ℕ) (threshold rate : ℤ)
      → set_tiered_pricing env i threshold rate s ≡ ok (tt, s')
      → Step s s'
  shut_down :
      {s s' : State} (env : Env) (i : ℕ) → emergency_shutdown env i s ≡ ok (tt, s') → Step s s'
  flow_capped :
      {s s' : State} (env : Env) (i : ℕ) (rate : ℤ)
      → set_max_flow_rate env i rate s ≡ ok (tt, s')
      → Step s s'
  cycle_reset :
      {s s' : State} (env : Env) (i : ℕ) → reset_cycle_usage env i s ≡ ok (tt, s') → Step s s'
  usage_updated :
      {s s' : State} (env : Env) (i : ℕ) (watt_hours : ℤ)
      → update_usage env i watt_hours s ≡ ok (tt, s')
      → Step s s'
  paired :
      {s s' : State} (env : Env) (i signature : ℕ)
      → complete_pairing env i signature s ≡ ok (tt, s')
      → Step s s'
  administered : {s : State} (c : Settings) → Step s (administer c s)

-- States along which every pool and every meter's value stays far from the ends of an `i128`.
pub data Reachable : State → Type 0 where
  start : Reachable deployed
  next : {s s' : State} → Reachable s → IsModerate s → Step s s' → IsModerate s' → Reachable s'

module _ (s s' : State) (inv : IsTracked s) where
  Tracks-IsTracked : Tracks s s' → IsModerate s → IsModerate s' → IsTracked s'
  Tracks-IsTracked (m, moved) small small' = move-IsTracked s s' m inv small small' moved

  Rests-IsTracked : Rests s s' → IsTracked s'
  Rests-IsTracked (m, value, pools, times) = rest-IsTracked s s' m inv value pools

  registered-IsTracked :
      (env : Env) (user provider : ℕ) (rate : ℤ) (token : ℕ) (billing : BillingType)
      (key priority id : ℕ) (kind : ResourceType)
      → unwrap_or 0 s.count + 1 < 2 ^ 64
      → register_meter_with_mode env user provider rate token billing key priority kind s
        ≡ ok (id, s')
      → IsTracked s'
  unfolding register_meter_with_mode provider_meter_value
  registered-IsTracked env user provider rate token billing key priority id kind room h =
      let new = new_meter env.now user provider rate token billing key priority kind in
      let fits : next_id s ≡ suc (unwrap_or 0 s.count) = omega (arith, room) in
      let stored : s'.meter ≡ put (next_id s) new s.meter = ground (arith, h) in
      let counted : s'.count ≡ some (next_id s) = ground (arith, h) in
      fresh-IsTracked s s' new inv (ground arith) (rw fits at stored) (rw fits at counted)
        (ground (arith, h))

Step-IsTracked :
    (s s' : State) → Step s s' → IsModerate s → IsModerate s' → IsTracked s → IsTracked s'
Step-IsTracked s s' (registered env user provider rate token billing key priority id kind room h) a
      b inv =
    registered-IsTracked s s' inv env user provider rate token billing key priority id kind room h
Step-IsTracked s s' (funded env i amount contributor h) a b inv =
    Tracks-IsTracked s s' inv ((top_up-Tracks env i amount contributor s s' h).0) a b
Step-IsTracked s s' (collected env i h) a b inv =
    Tracks-IsTracked s s' inv ((claim-Tracks env i s s' h).0) a b
Step-IsTracked s s' (withdrawn env i amount h) a b inv =
    Tracks-IsTracked s s' inv ((withdraw_earnings-Tracks env i amount s s' h).0) a b
Step-IsTracked s s' (billed env signed_data h) a b inv =
    Tracks-IsTracked s s' inv ((deduct_units-Tracks env signed_data s s' h).0) a b
Step-IsTracked s s' (heard env i h) a b inv = Rests-IsTracked s s' inv (ping-Rests env i s s' h)
Step-IsTracked s s' (pause_set env i v h) a b inv =
    Rests-IsTracked s s' inv (set_meter_pause-Rests env i s s' v h)
Step-IsTracked s s' (tier_set env i threshold rate h) a b inv =
    Rests-IsTracked s s' inv (set_tiered_pricing-Rests env i s s' threshold rate h)
Step-IsTracked s s' (shut_down env i h) a b inv =
    Rests-IsTracked s s' inv (emergency_shutdown-Rests env i s s' h)
Step-IsTracked s s' (flow_capped env i rate h) a b inv =
    Rests-IsTracked s s' inv (set_max_flow_rate-Rests env i s s' rate h)
Step-IsTracked s s' (cycle_reset env i h) a b inv =
    Rests-IsTracked s s' inv (reset_cycle_usage-Rests env i s s' h)
Step-IsTracked s s' (usage_updated env i watt_hours h) a b inv =
    Rests-IsTracked s s' inv (update_usage-Rests env i s s' watt_hours h)
Step-IsTracked s s' (paired env i signature h) a b inv =
    Rests-IsTracked s s' inv (complete_pairing-Rests env i s s' signature h)
Step-IsTracked s _ (administered c) a b inv = record { pools = inv.pools; known = inv.known }

-- In every state that registrations with a mode, pairings, top-ups, claims, withdrawals of
-- earnings, usage reports, pings, pauses, tiers, shutdowns, hourly maxima, resets of a cycle and
-- updates of usage reach from an empty contract, in whatever order and with no other entry point on
-- meters between them, while the settings of the contract change at will, no registration wraps the
-- count, and along the way every pool and every meter's value stays within 2^124 of zero: the total
-- pool of every provider is the sum of the values of its meters, and the stored meters have the
-- numbers from one to the count.
pub Reachable-IsTracked : (s : State) → Reachable s → IsTracked s
unfolding total
Reachable-IsTracked _ start = record {
  pools = λ p. refl;
  known = λ i meter h. absurd (ground (arith, h));
}
Reachable-IsTracked s' (next {s} r a step b) =
    Step-IsTracked s s' step a b (Reachable-IsTracked s r)
