-- ===== src/UtilityContracts/Meters/Funding.antt =====
-- What a payment into a meter and a withdrawal from it change: the meter, and its provider's pool.
use utility_contracts.Base.{ℕ, ◌≡◌, refl, ℤ, arith, Option-cases, inl, inr, some, put, ok}
use utility_contracts.UtilityContracts.Meters.Types.{
  BillingType, pre_paid, post_paid, Meter, State, Env, call_transfer,
}
use utility_contracts.UtilityContracts.Meters.Helpers.{
  provider_meter_value, refresh_activity, update_provider_total_pool, deduct,
}
use utility_contracts.UtilityContracts.Meters.Funds.{
  top_up, withdraw_earnings, credited, topped_up, withdrawn_from, convert_xlm_to_usd_if_needed,
  convert_usd_to_xlm_if_needed,
}
use utility_contracts.UtilityContracts.Meters.Effects.{Tracks, stored-Tracks}

deduct_provider :
    (b : BillingType) (amount : ℤ) (meter : Meter)
    → (deduct b amount meter).provider ≡ meter.provider
unfolding deduct
deduct_provider pre_paid amount meter = refl
deduct_provider post_paid amount meter = refl

credited_provider :
    (b : BillingType) (amount : ℤ) (meter : Meter)
    → (credited b amount meter).provider ≡ meter.provider
unfolding credited
credited_provider pre_paid amount meter = refl
credited_provider post_paid amount meter = refl

pub withdraw_earnings-Tracks :
    (env : Env) (meter_id : ℕ) (amount : ℤ) (s s' : State)
    → withdraw_earnings env meter_id amount s ≡ ok (tt, s')
    → Tracks s s' × (s'.last_reading_time ≡ s.last_reading_time)
unfolding withdraw_earnings convert_usd_to_xlm_if_needed call_transfer refresh_activity
withdraw_earnings-Tracks env meter_id amount s s' h = elim (Option-cases (s.meter meter_id)) [
  | inl e ↦ absurd (ground (arith, h, e))
  | inr (meter, e) ↦
      let stored : s'.meter ≡ put meter_id (withdrawn_from env.now amount meter) s.meter =
        ground (arith, h, e) in
      let moved : s'.provider_total_pool
          ≡ update_provider_total_pool (withdrawn_from env.now amount meter).provider
              (provider_meter_value meter)
              (provider_meter_value (withdrawn_from env.now amount meter)) s.provider_total_pool =
        ground (arith, h, e) in
      (
        stored-Tracks meter_id meter (withdrawn_from env.now amount meter) s s s' e
            (deduct_provider meter.billing_type amount meter) (refl, refl, refl) stored
            (ground (arith, h, e)) moved,
        ground (arith, h, e),
      )
]

-- A top-up that returns, with the amount that the oracle made of it.
pub top_up_parts :
    (env : Env) (meter_id : ℕ) (amount : ℤ) (contributor : ℕ) (s s' : State)
    → top_up env meter_id amount contributor s ≡ ok (tt, s')
    → (meter : Meter) × (converted : ℤ) × (s.meter meter_id ≡ some meter)
      × (s'.meter ≡ put meter_id (topped_up env.now converted meter) s.meter)
      × (s'.count ≡ s.count)
      × (s'.provider_total_pool
          ≡ update_provider_total_pool
              (topped_up env.now converted meter).provider
              (provider_meter_value meter)
              (provider_meter_value (topped_up env.now converted meter))
              s.provider_total_pool)
      × (s'.last_reading_time ≡ s.last_reading_time)
unfolding top_up convert_xlm_to_usd_if_needed call_transfer
top_up_parts env meter_id amount contributor s s' h = elim (Option-cases (s.meter meter_id)) [
  | inl e ↦ absurd (ground (arith, h, e))
  | inr (meter, e) ↦ elim (Option-cases s.oracle) [
    | inl o ↦ (
      meter,
      amount,
      e,
      ground (arith, h, e, o),
      ground (arith, h, e, o),
      ground (arith, h, e, o),
      ground (arith, h, e, o),
    )
    | inr (oracle, o) ↦ elim (Option-cases (env.to_usd_cents oracle amount)) [
      | inl c ↦ absurd (ground (arith, h, e, o, c))
      | inr (converted, c) ↦ (
        meter,
        converted,
        e,
        ground (arith, h, e, o, c),
        ground (arith, h, e, o, c),
        ground (arith, h, e, o, c),
        ground (arith, h, e, o, c),
      )
    ]
  ]
]

pub top_up-Tracks :
    (env : Env) (meter_id : ℕ) (amount : ℤ) (contributor : ℕ) (s s' : State)
    → top_up env meter_id amount contributor s ≡ ok (tt, s')
    → Tracks s s' × (s'.last_reading_time ≡ s.last_reading_time)
unfolding refresh_activity
top_up-Tracks env meter_id amount contributor s s' h =
    let (meter, converted, found, stored, counted, moved, times) =
      top_up_parts env meter_id amount contributor s s' h in
    (
      stored-Tracks meter_id meter (topped_up env.now converted meter) s s s' found
          (credited_provider meter.billing_type converted meter) (refl, refl, refl) stored counted
          moved,
      times,
    )
