-- ===== src/UtilityContracts/Stream/Lifecycle.antt =====
-- The creation, the pausing and the resumption of streams keep a solvent state solvent, with what
-- they do to the fleet's total and to the price of what has flowed.
use utility_contracts.Base.{
  ℕ, ◌-◌, ◌≤◌, ◌≡◌, refl, ℤ, pos, ◌≤ℤ◌, i128_max, arith, saturating_add, ltb_ℤ, eqb_ℤ, Bool-cases,
  Option-cases, inl, inr, some, true, false, ok, le_of_not_ltb, Result, ◌&&◌,
}
use utility_contracts.UtilityContracts.Errors.{ContractError}
use utility_contracts.UtilityContracts.Stream.Types.{
  ContinuousFlow, State, Env, StreamStatus, depleted, is_active, is_paused,
}
use utility_contracts.UtilityContracts.Stream.Fleet.{
  provider_grid_state, fleet_apply_delta, fleet_get_active_sum, fleet_get_cap,
  fleet_assert_room_for_new_stream,
}
use utility_contracts.UtilityContracts.Stream.Update.{update_continuous_flow}
use utility_contracts.UtilityContracts.Stream.Creation.{create_continuous_stream, new_flow}
use utility_contracts.UtilityContracts.Stream.Pausing.{
  pause_stream, resume_stream, resume_unlocked, locked, lock, stopped, restarted,
}
use utility_contracts.UtilityContracts.Stream.Rates.{
  update_flow_rate, status_at_rate, status_at_rate,
}
use utility_contracts.UtilityContracts.Stream.Fees.{rate_bounds}
use utility_contracts.UtilityContracts.Stream.Steps.{saturating_add-IsAmount}
use utility_contracts.UtilityContracts.Stream.Solvency.{
  IsAmount, IsSoundFlow, IsSolvent, same-IsSolvent, stored-IsSolvent, update-IsSound,
}
use utility_contracts.UtilityContracts.Stream.Creation.{
  min_flow_rate_per_second, max_flow_rate_per_second,
}
use utility_contracts.UtilityContracts.Stream.Temporary.{calculate_fresh_accumulation}
use utility_contracts.Base.{saturating_mul, ◌⊎◌}

new_flow-IsSound :
    (env : Env) (i : ℕ) (rate balance : ℤ) (provider payer tier epoch pubkey : ℕ)
    → IsAmount rate
    → IsAmount balance
    → IsSoundFlow i (new_flow env i rate balance provider payer tier epoch pubkey)
new_flow-IsSound env i rate balance provider payer tier epoch pubkey p q = record {
  balance = q;
  buffer = rate_bounds rate 86_400 p.0;
  rate = p;
  keyed = refl;
}

pub create-IsSolvent :
    (env : Env) (i : ℕ) (rate balance : ℤ) (provider payer tier pubkey : ℕ) (s s' : State)
    → balance ≤ℤ i128_max
    → IsSolvent s
    → create_continuous_stream env i rate balance provider payer tier pubkey s ≡ ok (tt, s')
    → IsSolvent s'
unfolding create_continuous_stream fleet_assert_room_for_new_stream fleet_apply_delta
create-IsSolvent env i rate balance provider payer tier pubkey s s' fits inv h =
    let low : ltb_ℤ rate min_flow_rate_per_second ≡ false = ground (arith, h) in
    let high : ltb_ℤ max_flow_rate_per_second rate ≡ false = ground (arith, h) in
    let paid : ltb_ℤ balance (pos 0) ≡ false = ground (arith, h) in
    let a = le_of_not_ltb rate min_flow_rate_per_second low in
    let b = le_of_not_ltb max_flow_rate_per_second rate high in
    let c = le_of_not_ltb balance (pos 0) paid in
    let epoch = (provider_grid_state provider s).epoch in
    let sound =
      new_flow-IsSound env i rate balance provider payer tier epoch pubkey
        (omega arith, omega arith) (c, fits) in
    stored-IsSolvent i _ s s' inv sound (ground (arith, h)) (ground (arith, h)) (ground (arith, h))

module _ (i : ℕ) (flow : ContinuousFlow) (p : IsSoundFlow i flow) where
  stopped-IsSound : (env : Env) → IsSoundFlow i (stopped env flow)
  stopped-IsSound env = record {
    balance = p.balance;
    buffer = p.buffer;
    rate = (omega arith, omega arith);
    keyed = p.keyed;
  }

  restarted-IsSound :
      (env : Env) (rate : ℤ) → IsAmount rate → IsSoundFlow i (restarted env flow rate)
  restarted-IsSound env rate q = record {
    balance = p.balance;
    buffer = p.buffer;
    rate = q;
    keyed = p.keyed;
  }

  status-IsSound : (status : StreamStatus) → IsSoundFlow i (record flow { status = status })
  status-IsSound status = record {
    balance = p.balance;
    buffer = p.buffer;
    rate = p.rate;
    keyed = p.keyed;
  }

pub pause-IsSolvent :
    (env : Env) (i provider : ℕ) (r : Result ContractError (Unit {0})) (s s' : State)
    → IsSolvent s
    → pause_stream env i provider s ≡ ok (r, s')
    → IsSolvent s'
unfolding pause_stream fleet_apply_delta
pause-IsSolvent env i provider r s s' inv h = elim (Bool-cases (locked i s)) [
  | inl l ↦
      same-IsSolvent s s' inv (ground (arith, h, l)) (ground (arith, h, l)) (ground (arith, h, l))
  | inr l ↦ elim (Option-cases (s.flows i)) [
    | inl e ↦ absurd (ground (arith, h, l, e))
    | inr (flow, e) ↦ elim (Bool-cases (is_active flow.status)) [
      | inr k ↦
          same-IsSolvent s s' inv (ground (arith, h, l, e, k)) (ground (arith, h, l, e, k))
            (ground (arith, h, l, e, k))
      | inl k ↦
          let locked_state = lock i s in
          let u = update_continuous_flow env flow env.now locked_state in
          let inv1 : IsSolvent locked_state = same-IsSolvent s _ inv refl refl refl in
          let (p, kept) =
            update-IsSound env i flow env.now locked_state (inv.flows i flow e) inv1 in
          let sound = stopped-IsSound i u.1 p env in
          stored-IsSolvent i _ u.2 s' kept sound (ground (arith, h, l, e, k))
            (ground (arith, h, l, e, k)) (ground (arith, h, l, e, k))
    ]
  ]
]

resume_unlocked-IsSolvent :
    (env : Env) (i : ℕ) (rate : ℤ) (provider : ℕ) (r : Result ContractError (Unit {0}))
    (s s' : State)
    → IsAmount rate
    → IsSolvent s
    → resume_unlocked env i rate provider s ≡ ok (r, s')
    → IsSolvent s'
unfolding fleet_assert_room_for_new_stream fleet_apply_delta
resume_unlocked-IsSolvent env i rate provider r s s' q inv h = elim (Option-cases (s.flows i)) [
  | inl e ↦ absurd (ground (arith, h, e))
  | inr (flow, e) ↦
      let p = inv.flows i flow e in
      elim (Bool-cases (is_paused flow.status)) [
        | inr k ↦
            same-IsSolvent s s' inv (ground (arith, h, e, k)) (ground (arith, h, e, k))
              (ground (arith, h, e, k))
        | inl k ↦
            elim (Bool-cases
              (eqb_ℤ flow.accumulated_balance (pos 0) && eqb_ℤ flow.buffer_balance (pos 0))) [
                | inl z ↦
                    stored-IsSolvent i _ s s' inv (status-IsSound i flow p depleted)
                      (ground (arith, h, e, k, z)) (ground (arith, h, e, k, z))
                      (ground (arith, h, e, k, z))
                | inr z ↦
                    stored-IsSolvent i _ s s' inv (restarted-IsSound i flow p env rate q)
                      (ground (arith, h, e, k, z)) (ground (arith, h, e, k, z))
                      (ground (arith, h, e, k, z))
              ]
      ]
]

pub resume-IsSolvent :
    (env : Env) (i : ℕ) (rate : ℤ) (provider : ℕ) (r : Result ContractError (Unit {0}))
    (s s' : State)
    → IsSolvent s
    → resume_stream env i rate provider s ≡ ok (r, s')
    → IsSolvent s'
unfolding resume_stream fleet_assert_room_for_new_stream fleet_apply_delta
resume-IsSolvent env i rate provider r s s' inv h =
    elim (Bool-cases (ltb_ℤ rate min_flow_rate_per_second)) [
      | inl a ↦
          same-IsSolvent s s' inv (ground (arith, h, a)) (ground (arith, h, a))
            (ground (arith, h, a))
      | inr a ↦ elim (Bool-cases (ltb_ℤ max_flow_rate_per_second rate)) [
        | inl b ↦
            same-IsSolvent s s' inv (ground (arith, h, a, b)) (ground (arith, h, a, b))
              (ground (arith, h, a, b))
        | inr b ↦ elim (Bool-cases (locked i s)) [
          | inl l ↦
              same-IsSolvent s s' inv (ground (arith, h, a, b, l)) (ground (arith, h, a, b, l))
                (ground (arith, h, a, b, l))
          | inr l ↦
              let low = le_of_not_ltb rate min_flow_rate_per_second a in
              let high = le_of_not_ltb max_flow_rate_per_second rate b in
              resume_unlocked-IsSolvent env i rate provider r s s' (omega arith, omega arith) inv
                (ground (arith, h, a, b, l))
        ]
      ]
    ]

-- Where the total rate of a provider is an `i128` that is not negative, and a stream of the
-- provider is created: the provider's total is then within its cap, or the stream was created
-- without a balance.
pub create_within_cap :
    (env : Env) (i : ℕ) (rate balance : ℤ) (provider payer tier pubkey : ℕ) (s s' : State)
    → IsAmount (fleet_get_active_sum provider s)
    → create_continuous_stream env i rate balance provider payer tier pubkey s ≡ ok (tt, s')
    → (fleet_get_active_sum provider s' ≤ℤ fleet_get_cap provider s') ⊎ (balance ≡ pos 0)
unfolding create_continuous_stream fleet_assert_room_for_new_stream fleet_apply_delta
    fleet_get_active_sum fleet_get_cap
create_within_cap env i rate balance provider payer tier pubkey s s' held h =
    let next = saturating_add (fleet_get_active_sum provider s) rate in
    let up : ltb_ℤ rate min_flow_rate_per_second ≡ false = ground (arith, h) in
    let low = le_of_not_ltb rate min_flow_rate_per_second up in
    let grown = saturating_add-IsAmount (fleet_get_active_sum provider s) rate held (omega arith) in
    let paid : ltb_ℤ balance (pos 0) ≡ false = ground (arith, h) in
    let room : (ltb_ℤ (pos 0) rate && ltb_ℤ (fleet_get_cap provider s) next) ≡ false =
      ground (arith, h) in
    let within : next ≤ℤ fleet_get_cap provider s = ground (arith, room, low) in
    elim (Bool-cases (ltb_ℤ (pos 0) balance)) [
      | inr b ↦ inr (ground (arith, paid, b))
      | inl b ↦
          let positive : ltb_ℤ (pos 0) rate ≡ true = ground (arith, low) in
          let kept : s'.fleet_cap ≡ s.fleet_cap = ground (arith, h) in
          let got : s'.fleet_agg provider ≡ some next =
            ground (arith, h, b, positive, low, grown.0) in
          inl (rw (kept, got) within)
    ]

-- A change of the rate of a stored flow that returns sets the rate and keeps the balances and the
-- time of the last update: if the flow is then active, what it has accumulated at a time not before
-- that update is the new rate, saturated, times all seconds since.
pub rate_change_reprices :
    (env : Env) (i : ℕ) (rate : ℤ) (later : ℕ) (flow : ContinuousFlow) (s s' : State)
    → s.flows i ≡ some flow
    → update_flow_rate env i rate s ≡ ok (tt, s')
    → (flow' : ContinuousFlow) × (s'.flows i ≡ some flow')
      × (flow'.accumulated_balance ≡ flow.accumulated_balance)
      × (flow'.buffer_balance ≡ flow.buffer_balance)
      × (flow'.last_flow_timestamp ≡ flow.last_flow_timestamp)
      × (flow'.flow_rate_per_second ≡ rate)
      × ((is_active flow'.status ≡ true)
          → flow.last_flow_timestamp ≤ later
          → calculate_fresh_accumulation flow' later
            ≡ saturating_mul rate (pos (later - flow.last_flow_timestamp)))
unfolding update_flow_rate fleet_assert_room_for_new_stream fleet_apply_delta
    calculate_fresh_accumulation
rate_change_reprices env i rate later flow s s' e h =
    let flow' = record flow { flow_rate_per_second = rate; status = status_at_rate flow rate } in
    (flow', ground (arith, h, e), refl, refl, refl, refl, λ a le. ground (arith, a, le))
