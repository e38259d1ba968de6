-- ===== src/UtilityContracts/Stream/Charge.antt =====
-- What an update charges.
use mathlib.Core.Path.{subst}
use utility_contracts.Base.{
  ℕ, ◌≡◌, refl, sym, ℤ, pos, ◌+ℤ◌, ◌-ℤ◌, ◌≤ℤ◌, i128_max, int_laws, arith, saturating_add,
  saturating_sub, saturating_add_fits, saturating_sub_fits, if◌then◌else◌, leb_ℤ, ltb_ℤ, Bool-cases,
  inl, inr, ◌∙◌, eq_of_parts, le_of_leb, le_of_not_leb, le_of_ltb, le_of_not_ltb,
}
use utility_contracts.UtilityContracts.Stream.Types.{ContinuousFlow, State, Env}
use utility_contracts.UtilityContracts.Stream.Update.{
  charge, from_balance, from_buffer, settle_status, warn,
}

-- What a stream still holds.
abbrev pub total : ContinuousFlow → ℤ
total flow = flow.accumulated_balance +ℤ flow.buffer_balance

-- Balances that are not negative and together fit an `i128`.
pub record IsFunded (flow : ContinuousFlow) : Type 0 where
  pub balance_nonneg : pos 0 ≤ℤ flow.accumulated_balance
  pub buffer_nonneg : pos 0 ≤ℤ flow.buffer_balance
  pub total_fits : total flow ≤ℤ i128_max

abbrev pub lesser : ℤ → ℤ → ℤ
lesser a b = if leb_ℤ a b then a else b

settle_status_keeps :
    (flow : ContinuousFlow) (now : ℕ) (s : State)
    → (((settle_status flow now s).0).accumulated_balance ≡ flow.accumulated_balance)
      × (((settle_status flow now s).0).buffer_balance ≡ flow.buffer_balance)
      × (((settle_status flow now s).0).last_flow_timestamp ≡ now)
settle_status_keeps flow now s = ground arith

-- What a charge of `net` takes and leaves.
pub record IsCharge (flow : ContinuousFlow) (net : ℤ) (now : ℕ) (deduction : ℤ)
    (flow' : ContinuousFlow) : Type 0 where
  pub taken : deduction ≡ lesser net (total flow)
  pub conserved : deduction +ℤ total flow' ≡ total flow
  pub balance_first :
      flow'.accumulated_balance ≡ flow.accumulated_balance -ℤ lesser net flow.accumulated_balance
  pub funded : IsFunded flow'
  pub timed : flow'.last_flow_timestamp ≡ now

lesser_left : (a b : ℤ) → a ≤ℤ b → lesser a b ≡ a
lesser_left a b h = ground arith

lesser_right : (a b : ℤ) → b ≤ℤ a → lesser a b ≡ b
lesser_right a b h = elim (Bool-cases (leb_ℤ a b)) [
  | inl e ↦ rw e (eq_of_parts a b (ground (arith, e)))
  | inr e ↦ rw e refl
]

module _ (flow flow' : ContinuousFlow) (net deduction : ℤ) (now : ℕ) (funded : IsFunded flow)
    (nonneg : pos 0 ≤ℤ net) (timed : flow'.last_flow_timestamp ≡ now) where
  covered :
      net ≤ℤ flow.accumulated_balance
      → deduction ≡ net
      → flow'.accumulated_balance ≡ flow.accumulated_balance -ℤ net
      → flow'.buffer_balance ≡ flow.buffer_balance
      → IsCharge flow net now deduction flow'
  covered h ed eb ec =
      let p = funded.balance_nonneg in
      let q = funded.buffer_nonneg in
      let f = funded.total_fits in
      record {
        taken = rw (ed, lesser_left net (total flow) (omega int_laws)) refl;
        conserved = rw (ed, eb, ec) (omega int_laws);
        balance_first = rw (lesser_left net flow.accumulated_balance h, eb) refl;
        funded = record {
          balance_nonneg = rw eb (omega int_laws);
          buffer_nonneg = rw ec q;
          total_fits = rw (eb, ec) (omega int_laws);
        };
        timed = timed;
      }

  -- The balance does not cover the charge: it goes to zero.
  emptied :
      flow.accumulated_balance ≤ℤ net
      → deduction ≡ lesser net (total flow)
      → flow'.accumulated_balance ≡ pos 0
      → flow'.buffer_balance ≡ total flow -ℤ deduction
      → deduction ≤ℤ total flow
      → pos 0 ≤ℤ deduction
      → IsCharge flow net now deduction flow'
  emptied h ed eb ec le ge =
      let f = funded.total_fits in
      record {
        taken = ed;
        conserved = rw (eb, ec) (omega int_laws);
        balance_first = rw (lesser_right net flow.accumulated_balance h, eb) (omega int_laws);
        funded = record {
          balance_nonneg = rw eb (omega arith);
          buffer_nonneg = rw ec (omega int_laws);
          total_fits = rw (eb, ec) (omega int_laws);
        };
        timed = timed;
      }

-- A charge that is not negative, of a stream with balances that are not negative and fit together, takes
-- all of it or, if that is more, all that the stream holds. What it takes is what the balances lose, from
-- the main balance first, and what they keep is not negative.
pub charge_conserves :
    (env : Env) (flow : ContinuousFlow) (net : ℤ) (now : ℕ) (s : State)
    → IsFunded flow
    → pos 0 ≤ℤ net
    → net ≤ℤ i128_max
    → IsCharge flow net now (charge env flow net now s).0 (charge env flow net now s).1
unfolding charge
charge_conserves env flow net now s funded p m =
    let b = funded.balance_nonneg in
    let c = funded.buffer_nonneg in
    let f = funded.total_fits in
    elim (Bool-cases (leb_ℤ net flow.accumulated_balance)) [
      | inl h ↦
          let le = le_of_leb net flow.accumulated_balance h in
          let keeps = settle_status_keeps (from_balance flow net) now s in
          let left =
            saturating_sub_fits flow.accumulated_balance net (omega int_laws) (omega int_laws) in
          rw h (covered flow _ net net now funded p keeps.2 le refl (keeps.0 ∙ left) keeps.1)
      | inr h ↦
          let le = le_of_not_leb net flow.accumulated_balance h in
          let rest =
            saturating_sub_fits net flow.accumulated_balance (omega int_laws) (omega int_laws) in
          elim (Bool-cases
            (ltb_ℤ flow.buffer_balance (saturating_sub net flow.accumulated_balance))) [
              | inl k ↦
                  let short =
                    le_of_ltb flow.buffer_balance (saturating_sub net flow.accumulated_balance) k in
                  let lost : flow.buffer_balance ≤ℤ net -ℤ flow.accumulated_balance =
                    subst (λ r. flow.buffer_balance ≤ℤ r) rest short in
                  let all =
                    saturating_add_fits flow.accumulated_balance flow.buffer_balance
                      (omega int_laws) f in
                  let taken = lesser_right net (total flow) (omega int_laws) in
                  rw (h, k)
                    (emptied flow _ net _ now funded p refl le (all ∙ sym taken) refl
                      (rw all (omega int_laws)) (rw all (omega int_laws)) (rw all (omega int_laws)))
              | inr k ↦
                  let r = saturating_sub net flow.accumulated_balance in
                  let enough : net -ℤ flow.accumulated_balance ≤ℤ flow.buffer_balance =
                    subst (λ x. x ≤ℤ flow.buffer_balance) rest
                      (le_of_not_ltb flow.buffer_balance r k) in
                  let keeps =
                    settle_status_keeps (from_buffer flow r) now
                      (warn flow (saturating_sub flow.buffer_balance r) now s) in
                  let left : saturating_sub flow.buffer_balance r
                      ≡ flow.buffer_balance -ℤ (net -ℤ flow.accumulated_balance) =
                    rw rest (saturating_sub_fits _ _ (omega int_laws) (omega int_laws)) in
                  let all : saturating_add flow.accumulated_balance r ≡ net =
                    rw rest (
                      saturating_add_fits _ _ (omega int_laws) (omega int_laws) ∙ omega int_laws) in
                  let taken = lesser_left net (total flow) (omega int_laws) in
                  rw (h, k)
                    (emptied flow _ net _ now funded p keeps.2 le (all ∙ sym taken) keeps.0
                      (keeps.1 ∙ left ∙ rw all (omega int_laws)) (rw all (omega int_laws))
                      (rw all p))
            ]
    ]
