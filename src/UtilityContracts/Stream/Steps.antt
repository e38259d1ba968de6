-- ===== src/UtilityContracts/Stream/Steps.antt =====
-- The operations on streams keep a solvent state solvent.
use utility_contracts.Base.{
  ℕ, ◌≡◌, ℤ, pos, ◌≤ℤ◌, int_laws, arith, saturating_add, saturating_sub, saturating_add_pos, negsuc,
  saturating_sub_fits, ltb_ℤ, Bool-cases, Option-cases, inl, inr, false, ok, le_of_not_ltb, ◌&&◌,
}
use utility_contracts.UtilityContracts.Stream.Types.{
  ContinuousFlow, Transfer, State, Env, StreamStatus, depleted, is_active,
}
use utility_contracts.UtilityContracts.Stream.Fleet.{
  fleet_apply_delta, fleet_assert_room_for_new_stream,
}
use utility_contracts.UtilityContracts.Stream.Update.{update_continuous_flow}
use utility_contracts.UtilityContracts.Stream.Rates.{update_flow_rate, status_at_rate, moves_fleet}
use utility_contracts.UtilityContracts.Stream.Balances.{
  refund_buffer, add_continuous_buffer, add_continuous_balance, withdraw_continuous,
  close_stream_amicably, with_buffer, with_balance, without_balance, stop_active,
}
use utility_contracts.UtilityContracts.Stream.Solvency.{
  IsAmount, IsSoundFlow, IsSolvent, stored-IsSolvent, update-IsSound,
}

pub saturating_add-IsAmount : (a b : ℤ) → IsAmount a → pos 0 ≤ℤ b → IsAmount (saturating_add a b)
saturating_add-IsAmount (pos m) (pos n) p q = rw (saturating_add_pos m n) (ground arith)
saturating_add-IsAmount (negsuc m) b p q = absurd (omega (arith, p.0))
saturating_add-IsAmount (pos m) (negsuc n) p q = absurd (omega (arith, q))

module _ (i : ℕ) (flow : ContinuousFlow) (p : IsSoundFlow i flow) where
  without_balance-IsSound :
      (amount : ℤ)
      → pos 0 ≤ℤ amount
      → amount ≤ℤ flow.accumulated_balance
      → IsSoundFlow i (without_balance flow amount)
  without_balance-IsSound amount q r =
      let held = p.balance in
      let left =
        saturating_sub_fits flow.accumulated_balance amount (omega int_laws) (omega int_laws) in
      record {
        balance = rw left (omega int_laws, omega int_laws);
        buffer = p.buffer;
        rate = p.rate;
        keyed = p.keyed;
      }

  with_balance-IsSound : (amount : ℤ) → pos 0 ≤ℤ amount → IsSoundFlow i (with_balance flow amount)
  with_balance-IsSound amount q = record {
    balance = saturating_add-IsAmount flow.accumulated_balance amount p.balance q;
    buffer = p.buffer;
    rate = p.rate;
    keyed = p.keyed;
  }

  with_buffer-IsSound : (amount : ℤ) → pos 0 ≤ℤ amount → IsSoundFlow i (with_buffer flow amount)
  with_buffer-IsSound amount q = record {
    balance = p.balance;
    buffer = saturating_add-IsAmount flow.buffer_balance amount p.buffer q;
    rate = p.rate;
    keyed = p.keyed;
  }

  emptied-IsSound : IsSoundFlow i (record flow { buffer_balance = pos 0; status = depleted })
  emptied-IsSound = record {
    balance = p.balance;
    buffer = (omega arith, omega arith);
    rate = p.rate;
    keyed = p.keyed;
  }

  rate-IsSound :
      (rate : ℤ) (status : StreamStatus)
      → IsAmount rate
      → IsSoundFlow i (record flow { flow_rate_per_second = rate; status = status })
  rate-IsSound rate status q = record {
    balance = p.balance;
    buffer = p.buffer;
    rate = q;
    keyed = p.keyed;
  }

-- The operations that charge first: they write one flow over the state that the update leaves.
pub withdraw-IsSolvent :
    (env : Env) (i : ℕ) (amount paid : ℤ) (s s' : State)
    → IsSolvent s
    → withdraw_continuous env i amount s ≡ ok (paid, s')
    → IsSolvent s'
unfolding withdraw_continuous
withdraw-IsSolvent env i amount paid s s' inv h = elim (Option-cases (s.flows i)) [
  | inl e ↦ absurd (ground (arith, h, e))
  | inr (flow, e) ↦
      let u = update_continuous_flow env flow env.now s in
      let q : pos 0 ≤ℤ amount = ground (arith, h, e) in
      let covered : ltb_ℤ u.1.accumulated_balance amount ≡ false = ground (arith, h, e) in
      let r = le_of_not_ltb u.1.accumulated_balance amount covered in
      let (p, kept) = update-IsSound env i flow env.now s (inv.flows i flow e) inv in
      let sound = without_balance-IsSound i u.1 p amount q r in
      stored-IsSolvent i _ u.2 s' kept sound (ground (arith, h, e)) (ground (arith, h, e))
        (ground (arith, h, e))
]

pub add_balance-IsSolvent :
    (env : Env) (i : ℕ) (amount : ℤ) (s s' : State)
    → IsSolvent s
    → add_continuous_balance env i amount s ≡ ok (tt, s')
    → IsSolvent s'
unfolding add_continuous_balance
add_balance-IsSolvent env i amount s s' inv h = elim (Option-cases (s.flows i)) [
  | inl e ↦ absurd (ground (arith, h, e))
  | inr (flow, e) ↦
      let u = update_continuous_flow env flow env.now s in
      let (p, kept) = update-IsSound env i flow env.now s (inv.flows i flow e) inv in
      let sound = with_balance-IsSound i u.1 p amount (ground (arith, h, e)) in
      stored-IsSolvent i _ u.2 s' kept sound (ground (arith, h, e)) (ground (arith, h, e))
        (ground (arith, h, e))
]

pub add_buffer-IsSolvent :
    (env : Env) (i : ℕ) (amount : ℤ) (s s' : State)
    → IsSolvent s
    → add_continuous_buffer env i amount s ≡ ok (tt, s')
    → IsSolvent s'
unfolding add_continuous_buffer
add_buffer-IsSolvent env i amount s s' inv h = elim (Option-cases (s.flows i)) [
  | inl e ↦ absurd (ground (arith, h, e))
  | inr (flow, e) ↦
      let u = update_continuous_flow env flow env.now s in
      let (p, kept) = update-IsSound env i flow env.now s (inv.flows i flow e) inv in
      let sound = with_buffer-IsSound i u.1 p amount (ground (arith, h, e)) in
      stored-IsSolvent i _ u.2 s' kept sound (ground (arith, h, e)) (ground (arith, h, e))
        (ground (arith, h, e))
]

pub refund-IsSolvent :
    (env : Env) (i : ℕ) (paid : ℤ) (s s' : State)
    → IsSolvent s
    → refund_buffer env i s ≡ ok (paid, s')
    → IsSolvent s'
unfolding refund_buffer
refund-IsSolvent env i paid s s' inv h = elim (Option-cases (s.flows i)) [
  | inl e ↦ absurd (ground (arith, h, e))
  | inr (flow, e) ↦
      let sound = emptied-IsSound i flow (inv.flows i flow e) in
      let payment : Transfer = record {
        token = env.current_contract;
        from = env.current_contract;
        to = flow.payer;
        amount = flow.buffer_balance;
      } in
      elim (Bool-cases (env.accepts_transfer s.transfers payment)) [
        | inl k ↦
            stored-IsSolvent i _ s s' inv sound (ground (arith, h, e, k)) (ground (arith, h, e, k))
              (ground (arith, h, e, k))
        | inr k ↦ absurd (ground (arith, h, e, k))
      ]
]

pub stop_active-IsSolvent :
    (i : ℕ) (flow : ContinuousFlow) (s : State)
    → IsSoundFlow i flow
    → IsSolvent s
    → IsSolvent (stop_active i flow s)
unfolding fleet_apply_delta
stop_active-IsSolvent i flow s p inv =
    elim (Bool-cases (is_active flow.status && ltb_ℤ (pos 0) flow.flow_rate_per_second)) [
      | inl e ↦
          let sound = rate-IsSound i flow p (pos 0) flow.status (omega arith, omega arith) in
          rw e (stored-IsSolvent i _ s _ inv sound (ground arith) (ground arith) (ground arith))
      | inr e ↦ rw e inv
    ]

pub close-IsSolvent :
    (env : Env) (i : ℕ) (paid : ℤ) (s s' : State)
    → IsSolvent s
    → close_stream_amicably env i s ≡ ok (paid, s')
    → IsSolvent s'
unfolding close_stream_amicably
close-IsSolvent env i paid s s' inv h = elim (Option-cases (s.flows i)) [
  | inl e ↦ absurd (ground (arith, h, e))
  | inr (flow, e) ↦
      let u = update_continuous_flow env flow env.now s in
      let (p, kept) = update-IsSound env i flow env.now s (inv.flows i flow e) inv in
      refund-IsSolvent env i paid _ s' (stop_active-IsSolvent i u.1 u.2 p kept)
        (ground (arith, h, e))
]

pub update_rate-IsSolvent :
    (env : Env) (i : ℕ) (rate : ℤ) (s s' : State)
    → IsAmount rate
    → IsSolvent s
    → update_flow_rate env i rate s ≡ ok (tt, s')
    → IsSolvent s'
unfolding update_flow_rate fleet_assert_room_for_new_stream fleet_apply_delta
update_rate-IsSolvent env i rate s s' q inv h = elim (Option-cases (s.flows i)) [
  | inl e ↦ absurd (ground (arith, h, e))
  | inr (flow, e) ↦
      let sound = rate-IsSound i flow (inv.flows i flow e) rate (status_at_rate flow rate) q in
      let delta = saturating_sub rate flow.flow_rate_per_second in
      elim (Bool-cases (moves_fleet delta flow.status (status_at_rate flow rate))) [
        | inl k ↦
            stored-IsSolvent i _ s s' inv sound (ground (arith, h, e, k)) (ground (arith, h, e, k))
              (ground (arith, h, e, k))
        | inr k ↦
            stored-IsSolvent i _ s s' inv sound (ground (arith, h, e, k)) (ground (arith, h, e, k))
              (ground (arith, h, e, k))
      ]
]
