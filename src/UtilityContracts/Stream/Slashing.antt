-- ===== src/UtilityContracts/Stream/Slashing.antt =====
-- The slashing of silent devices, their pardon and their heartbeats keep a solvent state solvent.
use utility_contracts.Base.{
  ℕ, ◌+◌, ◌-◌, ◌≤◌, ◌≡◌, ℤ, pos, ◌≤ℤ◌, int_laws, arith, saturating_sub, negsuc, saturating_sub_fits,
  if◌then◌else◌, ltb, Bool-cases, Option-cases, inl, inr, true, false, ok, ◌==◌, Bool,
}
use utility_contracts.UtilityContracts.Stream.Types.{ContinuousFlow, State, Env}
use utility_contracts.UtilityContracts.Stream.Fleet.{
  blackout, slash_of, liveness_check_and_slash, stream_heartbeat,
}
use utility_contracts.UtilityContracts.Stream.Solvency.{
  IsAmount, IsSoundFlow, IsSolvent, same-IsSolvent, stored-IsSolvent,
}
use utility_contracts.UtilityContracts.Stream.Config.{pardon_stream_liveness}
use native.Mathlib.Nat.{le_of_mul-le-mul_left, div-mul-le_self, mul-le-mul_left}
use utility_contracts.Base.{saturating_mul_pos, ◌/ℤ◌, ◌*◌, ◌/◌, i128_half, ◌<◌, zero, leb}

mark-IsSound :
    (i : ℕ) (flow : ContinuousFlow) (mark : Bool)
    → IsSoundFlow i flow
    → IsSoundFlow i (record flow { is_unreliable = mark })
mark-IsSound i flow mark p = record {
  balance = p.balance;
  buffer = p.buffer;
  rate = p.rate;
  keyed = p.keyed;
}

part : (m n e d : ℕ) → m ≤ n * e → e ≤ d → zero < d → m / d ≤ n
part m n e d h k up =
    le_of_mul-le-mul_left {k = d} (grind (arith, div-mul-le_self m d, mul-le-mul_left n k, h)) up

slashed_part :
    (m n e d : ℕ)
    → m ≤ n * e
    → e ≤ d
    → zero < d
    → (pos 0 ≤ℤ pos m /ℤ pos d) × (pos m /ℤ pos d ≤ℤ pos n)
unfolding ◌/ℤ◌
slashed_part m n e d h k up = let got = part m n e d h k up in (omega arith, omega (arith, got))

pub slash_of_bounds :
    (buffer : ℤ) (excess base : ℕ)
    → IsAmount buffer
    → (pos 0 ≤ℤ slash_of buffer excess base) × (slash_of buffer excess base ≤ℤ buffer)
unfolding slash_of
slash_of_bounds (negsuc n) excess base p = absurd (omega (arith, p.0))
slash_of_bounds (pos n) excess base p =
    let d = if ltb (base + excess) 1 then 1 else base + excess in
    let small : excess ≤ d = ground arith in
    let up : zero < d = ground arith in
    rw (saturating_mul_pos n excess) (elim (Bool-cases (ltb (n * excess) i128_half)) [
      | inl e ↦ rw e (slashed_part (n * excess) n excess d (omega arith) small up)
      | inr e ↦ rw e (slashed_part (i128_half - 1) n excess d (ground (arith, e)) small up)
    ])

slash-IsSound :
    (i : ℕ) (flow : ContinuousFlow) (excess base : ℕ)
    → IsSoundFlow i flow
    → IsSoundFlow i (record flow {
      buffer_balance =
          saturating_sub flow.buffer_balance (slash_of flow.buffer_balance excess base);
      is_unreliable = true;
    })
slash-IsSound i flow excess base p =
    let held = p.buffer in
    let cut = slash_of_bounds flow.buffer_balance excess base held in
    let left =
      saturating_sub_fits flow.buffer_balance (slash_of flow.buffer_balance excess base)
        (omega int_laws) (omega int_laws) in
    record {
      balance = p.balance;
      buffer = rw left (omega int_laws, omega int_laws);
      rate = p.rate;
      keyed = p.keyed;
    }

pub slash-IsSolvent :
    (env : Env) (i meter threshold : ℕ) (slashed : ℤ) (s s' : State)
    → IsSolvent s
    → liveness_check_and_slash env i meter threshold s ≡ ok (slashed, s')
    → IsSolvent s'
unfolding liveness_check_and_slash
slash-IsSolvent env i meter threshold slashed s s' inv h =
    let delta = blackout env (s.last_heartbeat i) in
    elim (Bool-cases (threshold == 0)) [
      | inl a ↦
          same-IsSolvent s s' inv (ground (arith, h, a)) (ground (arith, h, a))
            (ground (arith, h, a))
      | inr a ↦ elim (Bool-cases (leb delta threshold)) [
        | inl b ↦
            same-IsSolvent s s' inv (ground (arith, h, a, b)) (ground (arith, h, a, b))
              (ground (arith, h, a, b))
        | inr b ↦ elim (Option-cases (s.flows i)) [
          | inl e ↦ absurd (ground (arith, h, a, b, e))
          | inr (flow, e) ↦
              let sound = slash-IsSound i flow (delta - threshold) threshold (inv.flows i flow e) in
              stored-IsSolvent i _ s s' inv sound (ground (arith, h, a, b, e))
                (ground (arith, h, a, b, e)) (ground (arith, h, a, b, e))
        ]
      ]
    ]

pub pardon-IsSolvent :
    (env : Env) (i : ℕ) (s s' : State)
    → IsSolvent s
    → pardon_stream_liveness env i s ≡ ok (tt, s')
    → IsSolvent s'
unfolding pardon_stream_liveness
pardon-IsSolvent env i s s' inv h = elim (Option-cases (s.flows i)) [
  | inl e ↦ absurd (ground (arith, h, e))
  | inr (flow, e) ↦
      let sound = mark-IsSound i flow false (inv.flows i flow e) in
      stored-IsSolvent i _ s s' inv sound (ground (arith, h, e)) (ground (arith, h, e))
        (ground (arith, h, e))
]

pub heartbeat-IsSolvent :
    (env : Env) (i meter signature pub_key : ℕ) (s s' : State)
    → IsSolvent s
    → stream_heartbeat env i meter signature pub_key s ≡ ok (tt, s')
    → IsSolvent s'
unfolding stream_heartbeat
heartbeat-IsSolvent env i meter signature pub_key s s' inv h = elim (Option-cases (s.flows i)) [
  | inl e ↦ absurd (ground (arith, h, e))
  | inr (flow, e) ↦
      let sound = mark-IsSound i flow false (inv.flows i flow e) in
      stored-IsSolvent i _ s s' inv sound (ground (arith, h, e)) (ground (arith, h, e))
        (ground (arith, h, e))
]
