-- ===== src/UtilityContracts/Meters/Settings.antt =====
-- The entry points that set fields of a meter leave its value, and the pools.
use utility_contracts.Base.{
  ℕ, ◌≡◌, refl, sym, ap, ◌∙◌, ℤ, pos, Bool, arith, Option-cases, inl, inr, true, false, some, put,
  ok, ok_state, bind_ok, modify,
}
use utility_contracts.UtilityContracts.Errors.{ContractError}
use utility_contracts.UtilityContracts.Meters.Types.{Event, publish, Meter, State, Env}
use utility_contracts.UtilityContracts.Meters.Helpers.{provider_meter_value, refresh_activity}
use utility_contracts.UtilityContracts.Meters.Registration.{
  changed_by, ping, pinged, set_meter_pause, set_tiered_pricing, emergency_shutdown,
  set_max_flow_rate, reset_cycle_usage, update_usage, used, with_cycle, complete_pairing,
}
use utility_contracts.UtilityContracts.Meters.Pools.{Stores}

abbrev pub Rests : State → State → Type 0
Rests s s' =
    (m : Stores s s') × (provider_meter_value m.new ≡ provider_meter_value m.old)
    × (s'.provider_total_pool ≡ s.provider_total_pool)
    × (s'.last_reading_time ≡ s.last_reading_time)

stored-Rests :
    (i : ℕ) (old new : Meter) (s s' : State)
    → s.meter i ≡ some old
    → new.provider ≡ old.provider
    → new.balance ≡ old.balance
    → (s'.meter ≡ put i new s.meter)
      × (s'.count ≡ s.count)
      × (s'.provider_total_pool ≡ s.provider_total_pool)
      × (s'.last_reading_time ≡ s.last_reading_time)
    → Rests s s'
unfolding provider_meter_value
stored-Rests i old new s s' found provider balance (stored, counted, pools, times) = (
  record {
    i = i;
    old = old;
    new = new;
    found = found;
    stored = stored;
    same_provider = provider;
    same_count = counted;
  },
  rw balance refl,
  pools,
  times,
)

changed-Rests :
    (env : Env) (who : Meter → ℕ) (f : Meter → Meter) (i : ℕ) (s s' : State)
    → ((m : Meter) → (f m).provider ≡ m.provider)
    → ((m : Meter) → (f m).balance ≡ m.balance)
    → changed_by env who f i s ≡ ok (tt, s')
    → Rests s s'
changed-Rests env who f i s s' provider balance h = elim (Option-cases (s.meter i)) [
  | inl e ↦ absurd (ground (arith, h, e))
  | inr (meter, e) ↦
      stored-Rests i meter (f meter) s s' e (provider meter) (balance meter) (ground (arith, h, e))
]

published-Rests :
    (event : Event) (s t s' : State)
    → Rests s t
    → modify {E = ContractError} (publish event) t ≡ ok (tt, s')
    → Rests s s'
published-Rests event s t s' (m, value, pools, times) h =
    let e : publish event t ≡ s' = ok_state h in
    (
      record {
        i = m.i;
        old = m.old;
        new = m.new;
        found = m.found;
        stored = sym (ap (λ u. u.meter) e) ∙ m.stored;
        same_provider = m.same_provider;
        same_count = sym (ap (λ u. u.count) e) ∙ m.same_count;
      },
      value,
      sym (ap (λ u. u.provider_total_pool) e) ∙ pools,
      sym (ap (λ u. u.last_reading_time) e) ∙ times,
    )

module _ (env : Env) (i : ℕ) (s s' : State) where
  pub ping-Rests : ping env i s ≡ ok (tt, s') → Rests s s'
  unfolding ping
  ping-Rests h =
      let (u, t, changed, noted) =
        bind_ok (changed_by env (λ m. m.provider) (pinged env.now) i) _ s s' tt h in
      published-Rests _ s t s' (changed-Rests env _ _ i s t (λ m. refl) (λ m. refl) changed) noted

  pub set_meter_pause-Rests : (b : Bool) → set_meter_pause env i b s ≡ ok (tt, s') → Rests s s'
  unfolding set_meter_pause refresh_activity
  set_meter_pause-Rests b h =
      let (u, t, changed, noted) =
        bind_ok
          (changed_by env (λ m. m.user) (λ m. refresh_activity (record m { is_paused = b })) i) _ s
          s' tt h in
      published-Rests _ s t s' (changed-Rests env _ _ i s t (λ m. refl) (λ m. refl) changed) noted

  pub set_tiered_pricing-Rests :
      (threshold rate : ℤ) → set_tiered_pricing env i threshold rate s ≡ ok (tt, s') → Rests s s'
  unfolding set_tiered_pricing
  set_tiered_pricing-Rests threshold rate h =
      changed-Rests env (λ m. m.provider)
        (λ m. record m { tier_threshold = threshold; tier_rate = rate }) i s s' (λ m. refl)
        (λ m. refl) h

  pub emergency_shutdown-Rests : emergency_shutdown env i s ≡ ok (tt, s') → Rests s s'
  unfolding emergency_shutdown
  emergency_shutdown-Rests h =
      changed-Rests env (λ m. m.provider) (λ m. record m { is_active = false }) i s s' (λ m. refl)
        (λ m. refl) h

  pub set_max_flow_rate-Rests :
      (rate : ℤ) → set_max_flow_rate env i rate s ≡ ok (tt, s') → Rests s s'
  unfolding set_max_flow_rate
  set_max_flow_rate-Rests rate h = elim (Option-cases (s.meter i)) [
    | inl e ↦ absurd (ground (arith, h, e))
    | inr (meter, e) ↦
        stored-Rests i meter (record meter { max_flow_rate_per_hour = rate }) s s' e refl refl
          (ground (arith, h, e))
  ]

  pub reset_cycle_usage-Rests : reset_cycle_usage env i s ≡ ok (tt, s') → Rests s s'
  unfolding reset_cycle_usage
  reset_cycle_usage-Rests h =
      changed-Rests env (λ m. m.provider)
        (λ m. record m { usage_data = with_cycle (pos 0) env.now m.usage_data }) i s s' (λ m. refl)
        (λ m. refl) h

  pub update_usage-Rests :
      (watt_hours : ℤ) → update_usage env i watt_hours s ≡ ok (tt, s') → Rests s s'
  unfolding update_usage
  update_usage-Rests watt_hours h =
      changed-Rests env (λ m. m.user)
        (λ m. record m { usage_data = used env.now watt_hours m.usage_data }) i s s' (λ m. refl)
        (λ m. refl) (ground (arith, h))

  pub complete_pairing-Rests :
      (signature : ℕ) → complete_pairing env i signature s ≡ ok (tt, s') → Rests s s'
  unfolding complete_pairing
  complete_pairing-Rests signature h = elim (Option-cases (s.meter i)) [
    | inl e ↦ absurd (ground (arith, h, e))
    | inr (meter, e) ↦
        stored-Rests i meter (record meter { is_paired = true }) s s' e refl refl
          (ground (arith, h, e))
  ]
