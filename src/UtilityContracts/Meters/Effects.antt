-- ===== src/UtilityContracts/Meters/Effects.antt =====
-- What a claim changes: one meter, and its provider's pool.
use utility_contracts.Base.{
  ℕ, ◌≡◌, refl, ap, ◌∙◌, ℤ, pos, Bool, arith, Option-cases, inl, inr, true, false, some, put, ok,
  bind_ok, when, ltb_ℤ, modify, wrapping_sub, ◌>>◌, ok_state,
}
use utility_contracts.UtilityContracts.Meters.Types.{Meter, State, Env, call_transfer}
use utility_contracts.UtilityContracts.Meters.Helpers.{
  provider_meter_value, refresh_activity, update_provider_total_pool,
}
use utility_contracts.UtilityContracts.Meters.Payouts.{
  allocate_to_maintenance_fund, pay_tax, issue_carbon_credits, pay_fee, from_contract,
  auto_extend_ttl_if_needed,
}
use utility_contracts.UtilityContracts.Meters.Claims.{
  claim, pay_claim, claim_of, claimed_meter, store_tracked,
}
use utility_contracts.UtilityContracts.Meters.Funds.{credited}
use utility_contracts.UtilityContracts.Meters.Frame.{
  Kept, Kept-trans, extend-Kept, tax-Kept, credits-Kept, fee-Kept,
}
use utility_contracts.UtilityContracts.Meters.Pools.{Stores, Follows}

pub nothing-Kept : (s : State) → Kept s s
nothing-Kept s = (refl, refl, refl, refl, refl, refl, refl, refl)

pub paid-Kept :
    (env : Env) (meter : Meter) (payout : ℤ) (s s' : State)
    → when
        (ltb_ℤ (pos 0) payout)
        (call_transfer env (from_contract env meter meter.provider payout))
        s
      ≡ ok (tt, s')
    → Kept s s'
unfolding call_transfer
paid-Kept env meter payout s s' h = ground (arith, h)

pub pay_claim-Kept :
    (env : Env) (meter_id : ℕ) (meter : Meter) (claimable : ℤ) (s s' : State)
    → pay_claim env meter_id meter claimable s ≡ ok (tt, s')
    → Kept s s'
unfolding pay_claim allocate_to_maintenance_fund
pay_claim-Kept env meter_id meter claimable s s' h =
    let s1 = allocate_to_maintenance_fund meter_id claimable s in
    let (after, s2, taxed, h2) = bind_ok (pay_tax env meter_id meter claimable) _ s1 s' tt h in
    let (issued, s3, credited, h3) =
      bind_ok (issue_carbon_credits env meter_id meter claimable) _ s2 s' tt h2 in
    let (payout, s4, charged, h4) =
      bind_ok (pay_fee env meter wrapping_sub issued after) _ s3 s' tt h3 in
    Kept-trans s1 s2 s' (tax-Kept env meter_id meter claimable after s1 s2 taxed) (
      Kept-trans s2 s3 s' (credits-Kept env meter_id meter claimable issued s2 s3 credited) (
        Kept-trans s3 s4 s' (fee-Kept env meter wrapping_sub issued after payout s3 s4 charged)
          (paid-Kept env meter payout s4 s' h4)))

-- A claim that returns: it found a meter, it paid, and then the meter is stored.
pub claim_found :
    (env : Env) (meter_id : ℕ) (s s' : State)
    → claim env meter_id s ≡ ok (tt, s')
    → (meter : Meter) × (s.meter meter_id ≡ some meter)
unfolding claim
claim_found env meter_id s s' h = elim (Option-cases (s.meter meter_id)) [
  | inl e ↦ absurd (ground (arith, h, e))
  | inr found ↦ found
]

pub claim_parts :
    (env : Env) (meter_id : ℕ) (meter : Meter) (s s' : State)
    → s.meter meter_id ≡ some meter
    → claim env meter_id s ≡ ok (tt, s')
    → (s1 : State) × (s2 : State) × (env.authorized meter.provider ≡ true)
      × (meter.is_disputed ≡ false)
      × (when
            (ltb_ℤ (pos 0) (claim_of env.now meter))
            (pay_claim env meter_id meter (claim_of env.now meter))
            s
          ≡ ok (tt, s1))
      × (auto_extend_ttl_if_needed env meter_id s1 ≡ ok (tt, s2))
      × (s'
          ≡ store_tracked meter_id
              (provider_meter_value meter)
              (refresh_activity (claimed_meter env.now meter (claim_of env.now meter)))
              s2)
unfolding claim
claim_parts env meter_id meter s s' e h =
    let claimable = claim_of env.now meter in
    let asked : env.authorized meter.provider ≡ true = ground (arith, h, e) in
    let calm : meter.is_disputed ≡ false = ground (arith, h, e) in
    let h1 : (when (ltb_ℤ (pos 0) claimable) (pay_claim env meter_id meter claimable)
            >> (auto_extend_ttl_if_needed env meter_id
                >> modify (
                    store_tracked meter_id (provider_meter_value meter)
                      (refresh_activity (claimed_meter env.now meter claimable)))))
          s
        ≡ ok (tt, s') =
      ground (arith, h, e, asked, calm) in
    let (u, s1, paid, h2) =
      bind_ok (when (ltb_ℤ (pos 0) claimable) (pay_claim env meter_id meter claimable)) _ s s' tt
        h1 in
    let (v, s2, extended, h3) = bind_ok (auto_extend_ttl_if_needed env meter_id) _ s1 s' tt h2 in
    (s1, s2, asked, calm, paid, extended, ground (arith, h3))

-- One meter is stored again, and the pool of its provider follows.
abbrev pub Tracks : State → State → Type 0
Tracks s s' = (m : Stores s s') × Follows s s' m

-- So it is after `store_tracked` on a state that kept the meters and the pools.
pub stored-Tracks :
    (i : ℕ) (old new : Meter) (s s1 s' : State)
    → s.meter i ≡ some old
    → new.provider ≡ old.provider
    → (s1.meter ≡ s.meter) × (s1.count ≡ s.count) × (s1.provider_total_pool ≡ s.provider_total_pool)
    → s'.meter ≡ put i new s1.meter
    → s'.count ≡ s1.count
    → s'.provider_total_pool
      ≡ update_provider_total_pool new.provider
          (provider_meter_value old)
          (provider_meter_value new)
          s1.provider_total_pool
    → Tracks s s'
stored-Tracks i old new s s1 s' found provider (meters, count, pools) stored counted moved = (
  record {
    i = i;
    old = old;
    new = new;
    found = found;
    stored = stored ∙ ap (put i new) meters;
    same_provider = provider;
    same_count = counted ∙ count;
  },
  rw (moved, pools, provider) refl,
)

when-Kept :
    (env : Env) (b : Bool) (meter_id : ℕ) (meter : Meter) (claimable : ℤ) (s s' : State)
    → when b (pay_claim env meter_id meter claimable) s ≡ ok (tt, s')
    → Kept s s'
when-Kept env true meter_id meter claimable s s' h =
    pay_claim-Kept env meter_id meter claimable s s' h
when-Kept env false meter_id meter claimable s s' h =
    let same : s ≡ s' = ok_state h in rw⁻¹ same (nothing-Kept s)

claimed_provider :
    (now : ℕ) (meter : Meter) (claimable : ℤ)
    → (refresh_activity (claimed_meter now meter claimable)).provider ≡ meter.provider
unfolding refresh_activity claimed_meter
claimed_provider now meter claimable = refl

pub claim-Tracks :
    (env : Env) (meter_id : ℕ) (s s' : State)
    → claim env meter_id s ≡ ok (tt, s')
    → Tracks s s' × (s'.last_reading_time ≡ s.last_reading_time)
claim-Tracks env meter_id s s' h =
    let (meter, found) = claim_found env meter_id s s' h in
    let (s1, s2, _, _, paid, extended, done) = claim_parts env meter_id meter s s' found h in
    let (a, b, c, _, _, _, _, d) =
      Kept-trans s s1 s2 (when-Kept env _ meter_id meter _ s s1 paid)
        ((extend-Kept env meter_id s1 s2 extended).0) in
    (
      stored-Tracks meter_id meter _ s s2 s' found (claimed_provider env.now meter _) (a, b, c)
          (ap (λ t. t.meter) done) (ap (λ t. t.count) done) (ap (λ t. t.provider_total_pool) done),
      ap (λ t. t.last_reading_time) done ∙ d,
    )
