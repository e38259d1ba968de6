-- ===== src/UtilityContracts/Stream/Fees.antt =====
-- An update as a whole: the fee, and what the cache of an accumulation does to the next update.
use native.Mathlib.Nat.{div-mul-le_self, mul-le-mul_left}
use utility_contracts.Base.{
  ℕ, ◌*◌, ◌-◌, ◌/◌, ◌≤◌, ◌≡◌, refl, ◌∙◌, ℤ, pos, negsuc, ◌/ℤ◌, ◌≤ℤ◌, i128_max, arith,
  saturating_sub, saturating_mul, saturating_mul_pos, if◌then◌else◌, ltb_ℤ, ltb, i128_half,
  Bool-cases, Option, inl, inr, none, some, unwrap_or,
}
use utility_contracts.UtilityContracts.Stream.Types.{ContinuousFlow, State, Env}
use utility_contracts.UtilityContracts.Stream.Temporary.{
  calculate_with_temp_storage, calculate_fresh_accumulation, cached, flush_temporary_storage,
  store_fee_delta,
}
use utility_contracts.UtilityContracts.Stream.Fleet.{fleet_apply_delta}
use utility_contracts.UtilityContracts.Stream.Update.{charge, fee_of, update_continuous_flow}

share : (n bps : ℕ) → bps ≤ 10_000 → n * bps / 10_000 ≤ n
share n bps h = grind (arith, div-mul-le_self (n * bps) 10_000, mul-le-mul_left n h)

taken_of :
    (m n : ℕ)
    → m / 10_000 ≤ n
    → (pos 0 ≤ℤ (if ltb m i128_half then pos m else i128_max) /ℤ pos 10_000)
      × ((if ltb m i128_half then pos m else i128_max) /ℤ pos 10_000 ≤ℤ pos n)
unfolding ◌/ℤ◌
taken_of m n h = elim (Bool-cases (ltb m i128_half)) [
  | inl e ↦ rw e (omega arith, omega arith)
  | inr e ↦ rw e (omega arith, ground (arith, h, e))
]

-- A rate of at most 10,000 basis points takes a fee between zero and the accumulation.
pub fee_of_bounds :
    (accumulation bps : ℤ)
    → pos 0 ≤ℤ accumulation
    → bps ≤ℤ pos 10_000
    → (pos 0 ≤ℤ fee_of accumulation bps) × (fee_of accumulation bps ≤ℤ accumulation)
unfolding fee_of
fee_of_bounds (pos n) (pos bps) p q =
    let got = taken_of (n * bps) n (share n bps (omega (arith, q))) in
    rw (saturating_mul_pos n bps) (ground (arith, got.0, got.1))
fee_of_bounds (pos n) (negsuc bps) p q = ground arith
fee_of_bounds (negsuc n) bps p q = absurd (omega arith)

pub rate_bounds :
    (rate : ℤ) (n : ℕ)
    → pos 0 ≤ℤ rate
    → (pos 0 ≤ℤ saturating_mul rate (pos n)) × (saturating_mul rate (pos n) ≤ℤ i128_max)
rate_bounds (pos m) n p = rw (saturating_mul_pos m n) (ground arith)
rate_bounds (negsuc m) n p = absurd (omega arith)

pub fresh_bounds :
    (flow : ContinuousFlow) (now : ℕ)
    → pos 0 ≤ℤ flow.flow_rate_per_second
    → (pos 0 ≤ℤ calculate_fresh_accumulation flow now)
      × (calculate_fresh_accumulation flow now ≤ℤ i128_max)
unfolding calculate_fresh_accumulation
fresh_bounds flow now p =
    let got = rate_bounds flow.flow_rate_per_second (now - flow.last_flow_timestamp) p in
    ground (arith, got.0, got.1)

abbrev pub bps_of : State → ℤ
bps_of s = unwrap_or (pos 0) s.platform_fee_bps

-- The cache has an entry for the stream that is not older than its last update.
abbrev pub cached_in : ContinuousFlow → State → Option ℤ
cached_in flow s = cached flow.last_flow_timestamp (s.flow_accumulation flow.stream_id)

pub flush_keeps :
    (env : Env) (s : State)
    → ((flush_temporary_storage env s).platform_fee_bps ≡ s.platform_fee_bps)
      × ((flush_temporary_storage env s).flow_accumulation ≡ s.flow_accumulation)
unfolding flush_temporary_storage
flush_keeps env s = ground arith

charge_cache :
    (env : Env) (flow : ContinuousFlow) (net : ℤ) (now : ℕ) (s : State)
    → ((charge env flow net now s).2.flow_accumulation ≡ s.flow_accumulation)
      × ((charge env flow net now s).1.stream_id ≡ flow.stream_id)
      × ((charge env flow net now s).1.last_flow_timestamp ≡ now)
unfolding charge fleet_apply_delta
charge_cache env flow net now s = ground arith

-- An update changes the cache as the accumulation did, and dates the flow.
pub update_cache :
    (env : Env) (flow : ContinuousFlow) (now : ℕ) (s : State)
    → ((update_continuous_flow env flow now s).2.flow_accumulation
        ≡ (calculate_with_temp_storage flow now s).1.flow_accumulation)
      × ((update_continuous_flow env flow now s).1.stream_id ≡ flow.stream_id)
      × ((update_continuous_flow env flow now s).1.last_flow_timestamp ≡ now)
unfolding update_continuous_flow
update_cache env flow now s =
    let s1 = (calculate_with_temp_storage flow now s).1 in
    let s2 = flush_temporary_storage env s1 in
    let fee = fee_of (calculate_with_temp_storage flow now s).0 (bps_of s2) in
    let s3 = if ltb_ℤ (pos 0) fee then store_fee_delta flow.stream_id fee s2 else s2 in
    let stored : s3.flow_accumulation ≡ s2.flow_accumulation = ground arith in
    let kept =
      charge_cache env flow (saturating_sub (calculate_with_temp_storage flow now s).0 fee) now
        s3 in
    (kept.0 ∙ stored ∙ (flush_keeps env s1).1, kept.1, kept.2)

update_entry :
    (env : Env) (flow : ContinuousFlow) (now : ℕ) (s : State)
    → cached_in flow s ≡ none
    → cached_in (update_continuous_flow env flow now s).1 (update_continuous_flow env flow now s).2
      ≡ some (calculate_fresh_accumulation flow now)
unfolding calculate_with_temp_storage calculate_fresh_accumulation
update_entry env flow now s h =
    let kept = update_cache env flow now s in
    rw (kept.0, kept.1, kept.2, calculate_with_temp_storage, h) (ground arith)

-- After an update that used no cached accumulation, and while its own cached value lives, the next
-- update of the flow accumulates the same amount again, whatever the time of that update.
pub update_repeats :
    (env : Env) (flow : ContinuousFlow) (now later : ℕ) (s : State)
    → cached_in flow s ≡ none
    → (calculate_with_temp_storage
        (update_continuous_flow env flow now s).1
        later
        (update_continuous_flow env flow now s).2).0
      ≡ calculate_fresh_accumulation flow now
unfolding calculate_with_temp_storage
update_repeats env flow now later s h =
    rw (calculate_with_temp_storage, update_entry env flow now s h) refl
