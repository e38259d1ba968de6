-- ===== src/UtilityContracts/Stream/Solvency.antt =====
-- What every history of streams keeps: no stream ever holds a negative balance.
use utility_contracts.Base.{
  ℕ, ◌≡◌, refl, ap, ◌∙◌, ℤ, pos, ◌≤ℤ◌, i128_max, int_laws, arith, saturating_sub,
  saturating_sub_fits, if◌then◌else◌, leb_ℤ, ltb_ℤ, Bool-cases, Option-cases, inl, inr, some, true,
  false, put, le_of_leb, le_of_not_leb, le_of_not_ltb, Map, put_cases,
}
use mathlib.Core.Path.{subst}
use utility_contracts.UtilityContracts.Stream.Types.{ContinuousFlow, State, Env}
use utility_contracts.UtilityContracts.Stream.Fleet.{fleet_apply_delta}
use utility_contracts.UtilityContracts.Stream.Temporary.{
  calculate_with_temp_storage, flush_temporary_storage, store_fee_delta,
}
use utility_contracts.UtilityContracts.Stream.Update.{
  charge, fee_of, update_continuous_flow, from_balance, from_buffer, settle_status, warn, terminate,
}
use utility_contracts.UtilityContracts.Stream.Fees.{fee_of_bounds, fresh_bounds, bps_of, cached_in}

-- Zero or more, and an `i128`.
abbrev pub IsAmount : ℤ → Type 0
IsAmount a = (pos 0 ≤ℤ a) × (a ≤ℤ i128_max)

pub record IsSoundFlow (i : ℕ) (flow : ContinuousFlow) : Type 0 where
  pub balance : IsAmount flow.accumulated_balance
  pub buffer : IsAmount flow.buffer_balance
  pub rate : IsAmount flow.flow_rate_per_second
  pub keyed : flow.stream_id ≡ i

pub record IsSolvent (s : State) : Type 0 where
  pub flows : (i : ℕ) (flow : ContinuousFlow) → s.flows i ≡ some flow → IsSoundFlow i flow
  pub cache : (i : ℕ) (a : ℤ) (t : ℕ) → s.flow_accumulation i ≡ some (a, t) → IsAmount a
  pub share : bps_of s ≤ℤ pos 10_000

-- The state changes in nothing that the invariant reads.
pub same-IsSolvent :
    (s s' : State)
    → IsSolvent s
    → s'.flows ≡ s.flows
    → s'.flow_accumulation ≡ s.flow_accumulation
    → s'.platform_fee_bps ≡ s.platform_fee_bps
    → IsSolvent s'
same-IsSolvent s s' inv ef ec eb = record {
  flows = rw ef inv.flows;
  cache = rw ec inv.cache;
  share = rw eb inv.share;
}

put_flow :
    (i : ℕ) (flow : ContinuousFlow) (flows : Map ContinuousFlow)
    → IsSoundFlow i flow
    → ((j : ℕ) (f : ContinuousFlow) → flows j ≡ some f → IsSoundFlow j f)
    → (j : ℕ) (f : ContinuousFlow) → put i flow flows j ≡ some f
    → IsSoundFlow j f
put_flow i flow flows p q j f h = elim (put_cases i j flow f flows h) [
  | inl (e, k) ↦ subst (λ x. IsSoundFlow x f) e (subst (IsSoundFlow i) k p)
  | inr k ↦ q j f k
]

-- One stream is written.
pub stored-IsSolvent :
    (i : ℕ) (flow : ContinuousFlow) (s s' : State)
    → IsSolvent s
    → IsSoundFlow i flow
    → s'.flows ≡ put i flow s.flows
    → s'.flow_accumulation ≡ s.flow_accumulation
    → s'.platform_fee_bps ≡ s.platform_fee_bps
    → IsSolvent s'
stored-IsSolvent i flow s s' inv p ef ec eb = record {
  flows = rw ef (put_flow i flow s.flows p inv.flows);
  cache = rw ec inv.cache;
  share = rw eb inv.share;
}

zero-IsAmount : IsAmount (pos 0)
zero-IsAmount = (omega arith, omega arith)

settle_status-IsSound :
    (i : ℕ) (flow : ContinuousFlow) (now : ℕ) (s : State)
    → IsSoundFlow i flow
    → IsSolvent s
    → IsSoundFlow i (settle_status flow now s).0 × IsSolvent (settle_status flow now s).1
unfolding fleet_apply_delta
settle_status-IsSound i flow now s p inv = (
  record {
    balance = ground (arith, p.balance.0, p.balance.1);
    buffer = ground (arith, p.buffer.0, p.buffer.1);
    rate = ground (arith, p.rate.0, p.rate.1);
    keyed = ground (arith, p.keyed);
  },
  same-IsSolvent s _ inv (ground arith) (ground arith) (ground arith),
)

module _ (i : ℕ) (flow : ContinuousFlow) (now : ℕ) (net : ℤ) (s : State) (p : IsSoundFlow i flow)
    (inv : IsSolvent s) (n : IsAmount net) where
  Balance-IsSound :
      leb_ℤ net flow.accumulated_balance ≡ true → IsSoundFlow i (from_balance flow net)
  Balance-IsSound h =
      let le = le_of_leb net flow.accumulated_balance h in
      let old = p.balance in
      let left =
        saturating_sub_fits flow.accumulated_balance net (omega int_laws) (omega int_laws) in
      record {
        balance = rw left (omega int_laws, omega int_laws);
        buffer = p.buffer;
        rate = p.rate;
        keyed = p.keyed;
      }

  Buffer-IsSound :
      (rest : ℤ)
      → rest ≡ saturating_sub net flow.accumulated_balance
      → leb_ℤ net flow.accumulated_balance ≡ false
      → ltb_ℤ flow.buffer_balance rest ≡ false
      → IsSoundFlow i (from_buffer flow rest)
  Buffer-IsSound rest e h k =
      let ge = le_of_not_leb net flow.accumulated_balance h in
      let le = le_of_not_ltb flow.buffer_balance rest k in
      let old = p.balance in
      let held = p.buffer in
      let exact =
        e ∙ saturating_sub_fits net flow.accumulated_balance (omega int_laws) (omega int_laws) in
      let up : pos 0 ≤ℤ rest = rw exact (omega int_laws) in
      let left = saturating_sub_fits flow.buffer_balance rest (omega int_laws) (omega int_laws) in
      record {
        balance = zero-IsAmount;
        buffer = rw left (omega int_laws, omega int_laws);
        rate = p.rate;
        keyed = p.keyed;
      }

  Ended-IsSound :
      (env : Env)
      → IsSoundFlow i (terminate env flow now s).1 × IsSolvent (terminate env flow now s).2
  unfolding fleet_apply_delta
  Ended-IsSound env =
      let ended : IsSoundFlow i (terminate env flow now s).1 = record {
        balance = zero-IsAmount;
        buffer = zero-IsAmount;
        rate = zero-IsAmount;
        keyed = p.keyed;
      } in
      (
        ended,
        stored-IsSolvent i _ s _ inv ended (rw p.keyed (ground arith)) (ground arith)
            (ground arith),
      )

  warn-IsSolvent : (left : ℤ) → IsSolvent (warn flow left now s)
  warn-IsSolvent left = same-IsSolvent s _ inv (ground arith) (ground arith) (ground arith)

  charge-IsSound :
      (env : Env)
      → IsSoundFlow i (charge env flow net now s).1 × IsSolvent (charge env flow net now s).2
  unfolding charge
  charge-IsSound env =
      let rest = saturating_sub net flow.accumulated_balance in
      elim (Bool-cases (leb_ℤ net flow.accumulated_balance)) [
        | inl h ↦ rw h (settle_status-IsSound i _ now s (Balance-IsSound h) inv)
        | inr h ↦ elim (Bool-cases (ltb_ℤ flow.buffer_balance rest)) [
          | inl k ↦ rw (h, k) (Ended-IsSound env)
          | inr k ↦
              rw (h, k)
                (settle_status-IsSound i _ now _ (Buffer-IsSound rest refl h k)
                  (warn-IsSolvent (saturating_sub flow.buffer_balance rest)))
        ]
      ]

cached-IsAmount :
    (flow : ContinuousFlow) (s : State) (a : ℤ)
    → IsSolvent s
    → cached_in flow s ≡ some a
    → IsAmount a
cached-IsAmount flow s a inv h = elim (Option-cases (s.flow_accumulation flow.stream_id)) [
  | inl e ↦ absurd (ground (arith, h, e))
  | inr ((b, t), e) ↦
      let same : b ≡ a = ground (arith, h, e) in
      subst IsAmount same (inv.cache flow.stream_id b t e)
]

put_cache :
    (i : ℕ) (a : ℤ) (now : ℕ) (m : Map (ℤ × ℕ))
    → IsAmount a
    → ((j : ℕ) (b : ℤ) (t : ℕ) → m j ≡ some (b, t) → IsAmount b)
    → (j : ℕ) (b : ℤ) (t : ℕ) → put i (a, now) m j ≡ some (b, t)
    → IsAmount b
put_cache i a now m p q j b t h = elim (put_cases i j (a, now) (b, t) m h) [
  | inl (e, k) ↦ subst IsAmount (ap (λ x. x.0) k) p
  | inr k ↦ q j b t k
]

accumulated-IsSolvent :
    (i : ℕ) (flow : ContinuousFlow) (now : ℕ) (s : State)
    → IsSoundFlow i flow
    → IsSolvent s
    → IsAmount (calculate_with_temp_storage flow now s).0
      × IsSolvent (calculate_with_temp_storage flow now s).1
unfolding calculate_with_temp_storage
accumulated-IsSolvent i flow now s p inv =
    let fresh = fresh_bounds flow now p.rate.0 in
    elim (Option-cases (cached_in flow s)) [
      | inr (a, h) ↦ rw (calculate_with_temp_storage, h) (cached-IsAmount flow s a inv h, inv)
      | inl h ↦
          rw (calculate_with_temp_storage, h)
            (
              fresh,
              record {
                flows = inv.flows;
                cache = put_cache flow.stream_id _ now s.flow_accumulation fresh inv.cache;
                share = inv.share;
              },
            )
    ]

flush-IsSolvent : (env : Env) (s : State) → IsSolvent s → IsSolvent (flush_temporary_storage env s)
unfolding flush_temporary_storage
flush-IsSolvent env s inv = same-IsSolvent s _ inv (ground arith) (ground arith) (ground arith)

-- An update of a sound flow leaves a sound flow, and a solvent state solvent.
pub update-IsSound :
    (env : Env) (i : ℕ) (flow : ContinuousFlow) (now : ℕ) (s : State)
    → IsSoundFlow i flow
    → IsSolvent s
    → IsSoundFlow i (update_continuous_flow env flow now s).1
      × IsSolvent (update_continuous_flow env flow now s).2
unfolding update_continuous_flow
update-IsSound env i flow now s p inv =
    let gross = (calculate_with_temp_storage flow now s).0 in
    let s1 = (calculate_with_temp_storage flow now s).1 in
    let (amount, inv1) = accumulated-IsSolvent i flow now s p inv in
    let s2 = flush_temporary_storage env s1 in
    let inv2 : IsSolvent s2 = flush-IsSolvent env s1 inv1 in
    let fee = fee_of gross (bps_of s2) in
    let bounds = fee_of_bounds gross (bps_of s2) amount.0 inv2.share in
    let exact = saturating_sub_fits gross fee (omega int_laws) (omega int_laws) in
    let net : IsAmount (saturating_sub gross fee) = rw exact (omega int_laws, omega int_laws) in
    let inv3 : IsSolvent (if ltb_ℤ (pos 0) fee then store_fee_delta flow.stream_id fee s2 else s2) =
      same-IsSolvent s2 _ inv2 (ground arith) (ground arith) (ground arith) in
    charge-IsSound i flow now (saturating_sub gross fee) _ p inv3 net env
