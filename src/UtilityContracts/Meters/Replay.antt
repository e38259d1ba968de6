-- ===== src/UtilityContracts/Meters/Replay.antt =====
-- A usage report is accepted once.
use utility_contracts.Base.{
  ℕ, ◌≡◌, ap, ◌∙◌, ℤ, arith, Bool-cases, inl, inr, ok, unwrap_or, ◌<◌, ◌≤◌, ◌==◌,
}
use utility_contracts.UtilityContracts.Meters.Types.{
  BillingType, ResourceType, State, Env, SignedUsageData,
}
use utility_contracts.UtilityContracts.Meters.Helpers.{validate_reading}
use utility_contracts.UtilityContracts.Meters.Registration.{register_meter_with_mode}
use utility_contracts.UtilityContracts.Meters.Usage.{deduct_units}
use utility_contracts.UtilityContracts.Meters.Effects.{claim-Tracks}
use utility_contracts.UtilityContracts.Meters.Funding.{top_up-Tracks, withdraw_earnings-Tracks}
use utility_contracts.UtilityContracts.Meters.Settings.{
  ping-Rests, set_meter_pause-Rests, set_tiered_pricing-Rests, emergency_shutdown-Rests,
  set_max_flow_rate-Rests, reset_cycle_usage-Rests, update_usage-Rests, complete_pairing-Rests,
}
use utility_contracts.UtilityContracts.Meters.Reports.{
  deduct_units-Tracks, deduct_units_found, deduct_units-Accepted, checked,
}
use utility_contracts.UtilityContracts.Meters.History.{
  Step, registered, funded, collected, withdrawn, billed, heard, pause_set, tier_set, shut_down,
  flow_capped, cycle_reset, usage_updated, paired, administered,
}

abbrev pub last_of : State → (meter_id : ℕ) → ℕ
last_of s meter_id = unwrap_or 0 (s.last_reading_time meter_id)

later_reading :
    (last : ℕ) (kind : ResourceType) (watt_hours units : ℤ) (timestamp : ℕ)
    → validate_reading last kind watt_hours units timestamp ≡ ok tt
    → last < timestamp
unfolding validate_reading
later_reading last kind watt_hours units timestamp h = ground (arith, h)

-- An accepted report is later than the last one, and is the last one then.
accepted_later :
    (env : Env) (signed_data : SignedUsageData) (s s' : State)
    → deduct_units env signed_data s ≡ ok (tt, s')
    → (last_of s signed_data.meter_id < signed_data.timestamp)
      × (last_of s' signed_data.meter_id ≡ signed_data.timestamp)
accepted_later env signed_data s s' h =
    let (meter, found) = deduct_units_found env signed_data s s' h in
    let a = deduct_units-Accepted env signed_data meter s s' found h in
    let (_, _, _, _, reading) = checked env signed_data meter s s a.passed in
    let times = (deduct_units-Tracks env signed_data s s' h).1 in
    (
      later_reading _ meter.resource_type _ _ _ reading,
      ap (λ f. unwrap_or 0 (f signed_data.meter_id)) times ∙ ground arith,
    )

same_last :
    (s s' : State) (i : ℕ) → s'.last_reading_time ≡ s.last_reading_time → last_of s i ≤ last_of s' i
same_last s s' i e = rw e (omega arith)

billed_last :
    (env : Env) (signed_data : SignedUsageData) (s s' : State) (i : ℕ)
    → deduct_units env signed_data s ≡ ok (tt, s')
    → last_of s i ≤ last_of s' i
billed_last env signed_data s s' i h =
    let (later, now) = accepted_later env signed_data s s' h in
    let times = ap (λ f. f i) ((deduct_units-Tracks env signed_data s s' h).1) in
    elim (Bool-cases (signed_data.meter_id == i)) [
      | inl e ↦
          let here : signed_data.meter_id ≡ i = ground (arith, e) in
          rw⁻¹ here (omega (arith, later, now))
      | inr e ↦ rw times (ground (arith, e))
    ]

register_last :
    (env : Env) (user provider : ℕ) (rate : ℤ) (token : ℕ) (billing : BillingType)
    (key priority id : ℕ) (kind : ResourceType) (s s' : State)
    → register_meter_with_mode env user provider rate token billing key priority kind s
      ≡ ok (id, s')
    → s'.last_reading_time ≡ s.last_reading_time
unfolding register_meter_with_mode
register_last env user provider rate token billing key priority id kind s s' h = ground (arith, h)

step_last : (s s' : State) (i : ℕ) → Step s s' → last_of s i ≤ last_of s' i
step_last s s' i (registered env user provider rate token billing key priority id kind room h) =
    same_last s s' i
      (register_last env user provider rate token billing key priority id kind s s' h)
step_last s s' i (funded env j amount contributor h) =
    same_last s s' i ((top_up-Tracks env j amount contributor s s' h).1)
step_last s s' i (collected env j h) = same_last s s' i ((claim-Tracks env j s s' h).1)
step_last s s' i (withdrawn env j amount h) =
    same_last s s' i ((withdraw_earnings-Tracks env j amount s s' h).1)
step_last s s' i (billed env signed_data h) = billed_last env signed_data s s' i h
step_last s s' i (heard env j h) = same_last s s' i ((ping-Rests env j s s' h).3)
step_last s s' i (pause_set env j b h) = same_last s s' i ((set_meter_pause-Rests env j s s' b h).3)
step_last s s' i (tier_set env j threshold rate h) =
    same_last s s' i ((set_tiered_pricing-Rests env j s s' threshold rate h).3)
step_last s s' i (shut_down env j h) = same_last s s' i ((emergency_shutdown-Rests env j s s' h).3)
step_last s s' i (flow_capped env j rate h) =
    same_last s s' i ((set_max_flow_rate-Rests env j s s' rate h).3)
step_last s s' i (cycle_reset env j h) = same_last s s' i ((reset_cycle_usage-Rests env j s s' h).3)
step_last s s' i (usage_updated env j watt_hours h) =
    same_last s s' i ((update_usage-Rests env j s s' watt_hours h).3)
step_last s s' i (paired env j signature h) =
    same_last s s' i ((complete_pairing-Rests env j s s' signature h).3)
step_last s _ i (administered c) = omega arith

-- Any number of steps.
pub data Later : State → State → Type 0 where
  at_once : {s : State} → Later s s
  and_on : {s t u : State} → Step s t → Later t u → Later s u

Later-last : (s t : State) (i : ℕ) → Later s t → last_of s i ≤ last_of t i
Later-last s _ i at_once = omega arith
Later-last s u i (and_on {t = t} step rest) =
    omega (arith, step_last s t i step, Later-last t u i rest)

-- After a usage report is accepted, and any of the modelled calls on meters and changes of the
-- settings, a report that is accepted for the same meter has a later timestamp.
pub report_once :
    (env later : Env) (first second : SignedUsageData) (s s' t t' : State)
    → deduct_units env first s ≡ ok (tt, s')
    → Later s' t
    → deduct_units later second t ≡ ok (tt, t')
    → second.meter_id ≡ first.meter_id
    → first.timestamp < second.timestamp
report_once env later first second s s' t t' h rest k same =
    let (_, stamped) = accepted_later env first s s' h in
    let (after, _) = accepted_later later second t t' k in
    let kept = Later-last s' t first.meter_id rest in
    let moved : last_of t first.meter_id < second.timestamp = rw⁻¹ same after in
    omega (arith, stamped, kept, moved)
