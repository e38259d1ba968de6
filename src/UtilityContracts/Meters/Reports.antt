-- ===== src/UtilityContracts/Meters/Reports.antt =====
-- What a usage report changes and pays, `deduct_units` of lib.rs.
use utility_contracts.Base.{
  ℕ, ◌≡◌, refl, ap, ◌∙◌, ℤ, pos, Bool, arith, Option-cases, inl, inr, true, some, unwrap_or, put,
  ok, bind_ok, bind_after, outcome_cases, when, ltb_ℤ, modify, pure, saturating_sub, ◌>>◌,
}
use utility_contracts.UtilityContracts.Errors.{ContractError}
use utility_contracts.UtilityContracts.Meters.Types.{
  BillingType, pre_paid, post_paid, Meter, State, Env, Event, Action, call_transfer,
  SignedUsageData, off_recon, get_meter_or_panic, publish,
}
use utility_contracts.UtilityContracts.Meters.Helpers.{
  provider_meter_value, refresh_activity, update_provider_total_pool, validate_reading,
  verify_usage_signature,
}
use utility_contracts.UtilityContracts.Meters.Payouts.{
  allocate_to_maintenance_fund, pay_tax, issue_carbon_credits, pay_fee, from_contract,
  auto_extend_ttl_if_needed,
}
use utility_contracts.UtilityContracts.Meters.Usage.{
  deduct_units, pay_usage, check_report, actual_cost, cost_of, reconciled, billed_meter,
  provider_claimed,
}
use utility_contracts.UtilityContracts.Meters.Frame.{
  Kept, Kept-trans, extend-Kept, tax-Kept, credits-Kept, fee-Kept,
}
use utility_contracts.UtilityContracts.Meters.Effects.{Tracks, stored-Tracks, paid-Kept}

pub paid_parts :
    (env : Env) (meter : Meter) (payout out : ℤ) (s s' : State)
    → (when
            (ltb_ℤ (pos 0) payout)
            (call_transfer env (from_contract env meter meter.provider payout))
          >> pure payout)
        s
      ≡ ok (out, s')
    → (out ≡ payout)
      × (when
            (ltb_ℤ (pos 0) payout)
            (call_transfer env (from_contract env meter meter.provider payout))
            s
          ≡ ok (tt, s'))
paid_parts env meter payout out s s' h =
    let (u, t, paid, done) =
      bind_ok
        (when (ltb_ℤ (pos 0) payout)
          (call_transfer env (from_contract env meter meter.provider payout)))
        _ s s' out h in
    (ground (arith, done), paid ∙ ground (arith, done))

pub pay_usage-Kept :
    (env : Env) (meter_id : ℕ) (meter : Meter) (cost out : ℤ) (s s' : State)
    → pay_usage env meter_id meter cost s ≡ ok (out, s')
    → Kept s s'
unfolding pay_usage allocate_to_maintenance_fund
pay_usage-Kept env meter_id meter cost out s s' h =
    let s1 = allocate_to_maintenance_fund meter_id cost s in
    let (after, s2, taxed, h2) = bind_ok (pay_tax env meter_id meter cost) _ s1 s' out h in
    let (issued, s3, credited, h3) =
      bind_ok (issue_carbon_credits env meter_id meter after) _ s2 s' out h2 in
    let (payout, s4, charged, h4) =
      bind_ok (pay_fee env meter saturating_sub issued after) _ s3 s' out h3 in
    Kept-trans s1 s2 s' (tax-Kept env meter_id meter cost after s1 s2 taxed) (
      Kept-trans s2 s3 s' (credits-Kept env meter_id meter after issued s2 s3 credited) (
        Kept-trans s3 s4 s' (fee-Kept env meter saturating_sub issued after payout s3 s4 charged)
          (paid-Kept env meter payout s4 s' ((paid_parts env meter payout out s4 s' h4).1))))

-- What a report passed when `check_report` returns.
pub checked :
    (env : Env) (signed_data : SignedUsageData) (meter : Meter) (s s' : State)
    → check_report env signed_data meter s ≡ ok (tt, s')
    → (s' ≡ s)
      × (env.authorized meter.provider ≡ true)
      × (env.ed25519_verify signed_data ≡ true)
      × (meter.is_paired ≡ true)
      × (validate_reading
            (unwrap_or 0 (s.last_reading_time signed_data.meter_id))
            meter.resource_type
            signed_data.watt_hours_consumed
            signed_data.units_consumed
            signed_data.timestamp
          ≡ ok tt)
unfolding check_report verify_usage_signature
checked env signed_data meter s s' h =
    let last = unwrap_or 0 (s.last_reading_time signed_data.meter_id) in
    elim (outcome_cases (
      validate_reading last meter.resource_type signed_data.watt_hours_consumed
        signed_data.units_consumed signed_data.timestamp)) [
          | inl (e, r) ↦ absurd (ground (arith, h, r))
          | inr (u, r) ↦ (
            ground (arith, h, r),
            ground (arith, h, r),
            ground (arith, h, r),
            ground (arith, h, r),
            r,
          )
        ]

claimed_provider :
    (b : BillingType) (payout : ℤ) (meter : Meter)
    → (provider_claimed b payout meter).provider ≡ meter.provider
unfolding provider_claimed
claimed_provider pre_paid payout meter = ground arith
claimed_provider post_paid payout meter = ground arith

unmoved :
    (m : Action (Unit {0})) (s t t1 : State) → t ≡ s → t1 ≡ t → m t ≡ ok (tt, t1) → m s ≡ ok (tt, s)
unmoved m s t t1 e e1 h = rw e at (rw e1 at h)

reconciled_provider : (now : ℕ) (meter : Meter) → (reconciled now meter).provider ≡ meter.provider
unfolding reconciled
reconciled_provider now meter = refl

pub deduct_units_found :
    (env : Env) (signed_data : SignedUsageData) (s s' : State)
    → deduct_units env signed_data s ≡ ok (tt, s')
    → (meter : Meter) × (s.meter signed_data.meter_id ≡ some meter)
unfolding deduct_units
deduct_units_found env signed_data s s' h = elim (Option-cases (s.meter signed_data.meter_id)) [
  | inl e ↦ absurd (ground (arith, h, e))
  | inr found ↦ found
]

published_here :
    (b : Bool) (event : Event) (u v : State)
    → when {E = ContractError} b (modify (publish event)) u ≡ ok (tt, v)
    → Kept u v × (v.transfers ≡ u.transfers)
published_here b event u v h = ground (arith, h)

published :
    (b : Bool) (event : Event) (s t u v : State)
    → t ≡ s
    → u ≡ t
    → when {E = ContractError} b (modify (publish event)) u ≡ ok (tt, v)
    → Kept s v × (v.transfers ≡ s.transfers)
published b event s t u v e e1 h = rw⁻¹ (e) (rw⁻¹ e1 (published_here b event u v h))

billed_provider :
    (now : ℕ) (signed_data : SignedUsageData) (cost payout : ℤ) (meter : Meter)
    → (billed_meter now signed_data cost payout meter).provider ≡ meter.provider
unfolding billed_meter provider_claimed refresh_activity
billed_provider now signed_data cost payout meter = claimed_provider meter.billing_type payout meter

-- A report that is accepted: what it passed, what it paid, and what is then stored.
pub record Accepted (env : Env) (signed_data : SignedUsageData) (meter : Meter) (s s' : State)
    : Type 0 where
  pub payout : ℤ
  -- Before and after the payments.
  pub s0 : State
  pub s1 : State
  -- After the extension of the time to live.
  pub s2 : State
  pub extended : Kept s1 s2 × (s2.transfers ≡ s1.transfers)
  pub passed : check_report env signed_data meter s ≡ ok (tt, s)
  pub before : Kept s s0 × (s0.transfers ≡ s.transfers)
  pub paid :
      pay_usage env signed_data.meter_id (reconciled env.now meter) (cost_of signed_data meter) s0
      ≡ ok (payout, s1)
  pub after :
      (s'.transfers ≡ s2.transfers)
      × (s'.meter
          ≡ put signed_data.meter_id
              (billed_meter env.now signed_data
                (cost_of signed_data meter)
                payout
                (reconciled env.now meter))
              s2.meter)
      × (s'.count ≡ s2.count)
      × (s'.provider_total_pool
          ≡ update_provider_total_pool
              (billed_meter env.now signed_data
                (cost_of signed_data meter)
                payout
                (reconciled env.now meter)).provider
              (provider_meter_value meter)
              (provider_meter_value (
                billed_meter env.now signed_data
                  (cost_of signed_data meter)
                  payout
                  (reconciled env.now meter)))
              s2.provider_total_pool)
      × (s'.last_reading_time ≡ put signed_data.meter_id signed_data.timestamp s2.last_reading_time)

pub deduct_units-Accepted :
    (env : Env) (signed_data : SignedUsageData) (meter : Meter) (s s' : State)
    → s.meter signed_data.meter_id ≡ some meter
    → deduct_units env signed_data s ≡ ok (tt, s')
    → Accepted env signed_data meter s s'
unfolding deduct_units
deduct_units-Accepted env signed_data meter s s' found h =
    let i = signed_data.meter_id in
    let got : get_meter_or_panic i s ≡ ok (meter, s) = ground (arith, found) in
    let h1 = bind_after (get_meter_or_panic i) _ s s meter _ got h in
    let (u, t1, passed, h2) = bind_ok (check_report env signed_data meter) _ s s' tt h1 in
    let kept = (checked env signed_data meter s t1 passed).0 in
    let actual = actual_cost signed_data meter in
    let estimated = meter.estimated_usage_total in
    let event = off_recon i estimated actual (saturating_sub estimated actual) env.now in
    let (v, s0, noted, h3) =
      bind_ok (when meter.is_offline (modify (publish event))) _ t1 s' tt h2 in
    let (payout, s1, paid, h4) =
      bind_ok (pay_usage env i (reconciled env.now meter) (cost_of signed_data meter)) _ s0 s' tt
        h3 in
    let (w, s2, extended, h5) = bind_ok (auto_extend_ttl_if_needed env i) _ s1 s' tt h4 in
    let before = published meter.is_offline event s s t1 s0 refl kept noted in
    record {
      payout = payout;
      s0 = s0;
      s1 = s1;
      s2 = s2;
      extended = extend-Kept env i s1 s2 extended;
      passed = unmoved (check_report env signed_data meter) s s t1 refl kept passed;
      before = before;
      paid = paid;
      after = (
        ground (arith, h5),
        ground (arith, h5),
        ground (arith, h5),
        ground (arith, h5),
        ground (arith, h5),
      );
    }

pub deduct_units-Tracks :
    (env : Env) (signed_data : SignedUsageData) (s s' : State)
    → deduct_units env signed_data s ≡ ok (tt, s')
    → Tracks s s'
      × (s'.last_reading_time ≡ put signed_data.meter_id signed_data.timestamp s.last_reading_time)
deduct_units-Tracks env signed_data s s' h =
    let (meter, found) = deduct_units_found env signed_data s s' h in
    let a = deduct_units-Accepted env signed_data meter s s' found h in
    let (m0, c0, p0, _, _, _, _, r0) = a.before.0 in
    let online = reconciled env.now meter in
    let (m1, c1, p1, _, _, _, _, r1) =
      pay_usage-Kept env signed_data.meter_id online (cost_of signed_data meter) a.payout a.s0 a.s1
        a.paid in
    let (m2, c2, p2, _, _, _, _, r2) = a.extended.0 in
    let (_, stored, counted, moved, times) = a.after in
    let provider =
      billed_provider env.now signed_data (cost_of signed_data meter) a.payout online
      ∙ reconciled_provider env.now meter in
    (
      stored-Tracks signed_data.meter_id meter _ s a.s2 s' found provider
          (m2 ∙ m1 ∙ m0, c2 ∙ c1 ∙ c0, p2 ∙ p1 ∙ p0) stored counted moved,
      times ∙ ap (put signed_data.meter_id signed_data.timestamp) (r2 ∙ r1 ∙ r0),
    )
