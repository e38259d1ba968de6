-- ===== src/UtilityContracts/Meters/Limits.antt =====
-- What a claim pays, and how far it can go.
use utility_contracts.Base.{
  ℕ, ◌≡◌, ◌≢◌, refl, ap, ◌∙◌, ℤ, pos, arith, int_laws, Bool-cases, inl, inr, true, some, ok,
  unwrap_or, ◌+ℤ◌, ◌≤ℤ◌, ◌-ℤ◌, ◌+◌, ◌-◌, ◌<◌, ◌≤◌, ◌^◌, wrapping_sub, wrapping_add, wrap-eq_self,
  ltb_ℤ, leb_ℤ, IsI128, i128_min, i128_max, le_of_leb, le_of_not_leb, le_of_not_ltb, le_of_ltb,
}
use utility_contracts.UtilityContracts.Meters.Types.{Meter, State, Env}
use utility_contracts.UtilityContracts.Meters.Helpers.{refresh_activity, debt_threshold}
use utility_contracts.UtilityContracts.Meters.Payouts.{get_tax_rate_or_default}
use utility_contracts.UtilityContracts.Meters.Claims.{
  claim, pay_claim, claim_of, claimed_meter, amount_due, within_hour, claimable_of, is_same_hour,
}
use utility_contracts.UtilityContracts.Meters.Shares.{sent_by, levied, share}
use utility_contracts.UtilityContracts.Meters.Payments.{claim_shares}
use utility_contracts.UtilityContracts.Meters.Frame.{extend-Kept}
use utility_contracts.UtilityContracts.Meters.Effects.{claim_parts}

bounded-IsI128 : (a : ℤ) → i128_min ≤ℤ a → a ≤ℤ i128_max → IsI128 a
bounded-IsI128 a low high = ground arith

wrapping_sub_fits : (a b : ℤ) → i128_min ≤ℤ a -ℤ b → a -ℤ b ≤ℤ i128_max → wrapping_sub a b ≡ a -ℤ b
unfolding wrapping_sub
wrapping_sub_fits a b low high = wrap-eq_self (a -ℤ b) (bounded-IsI128 (a -ℤ b) low high)

wrapping_add_fits : (a b : ℤ) → i128_min ≤ℤ a +ℤ b → a +ℤ b ≤ℤ i128_max → wrapping_add a b ≡ a +ℤ b
unfolding wrapping_add
wrapping_add_fits a b low high = wrap-eq_self (a +ℤ b) (bounded-IsI128 (a +ℤ b) low high)

-- The meter that a claim stores.
stored_meter :
    (env : Env) (meter_id : ℕ) (s s' : State) (meter : Meter)
    → s.meter meter_id ≡ some meter
    → claim env meter_id s ≡ ok (tt, s')
    → s'.meter meter_id
      ≡ some (refresh_activity (claimed_meter env.now meter (claim_of env.now meter)))
stored_meter env meter_id s s' meter found h =
    let (_, s2, _, _, _, _, done) = claim_parts env meter_id meter s s' found h in
    ap (λ t. t.meter meter_id) done ∙ ground arith

-- What is claimed leaves the balance at the threshold or above, and is no more than the hour allows.
claimable_bounds :
    (meter : Meter) (amount : ℤ)
    → debt_threshold ≤ℤ meter.balance
    → meter.balance ≤ℤ pos (2 ^ 126)
    → pos 0 ≤ℤ amount
    → amount ≤ℤ pos (2 ^ 126)
    → (claimable_of meter amount ≤ℤ amount)
      × (debt_threshold ≤ℤ wrapping_sub meter.balance (claimable_of meter amount))
      × (pos 0 ≤ℤ claimable_of meter amount)
unfolding claimable_of
claimable_bounds meter amount low high up small =
    let b = meter.balance in
    let e = wrapping_sub_fits b amount (omega int_laws) (omega int_laws) in
    let e' = wrapping_sub_fits b debt_threshold (omega int_laws) (omega int_laws) in
    elim (Bool-cases (ltb_ℤ b amount)) [
      | inr k ↦
          let covered = le_of_not_ltb b amount k in
          let got : claimable_of meter amount ≡ amount = ground (arith, k) in
          rw (got, e) (omega arith, omega (int_laws, covered), omega (arith, up))
      | inl k ↦ elim (Bool-cases (leb_ℤ debt_threshold (wrapping_sub b amount))) [
        | inl d ↦
            let room = le_of_leb debt_threshold (wrapping_sub b amount) d in
            let got : claimable_of meter amount ≡ amount = ground (arith, k, d) in
            rw got (omega arith, room, omega (arith, up))
        | inr d ↦
            let short = le_of_not_leb debt_threshold (wrapping_sub b amount) d in
            let short' : b -ℤ amount ≤ℤ debt_threshold = rw e at short in
            let got : claimable_of meter amount ≡ b -ℤ debt_threshold = ground (arith, k, d, e') in
            let back =
              wrapping_sub_fits b (b -ℤ debt_threshold) (omega int_laws) (omega int_laws) in
            rw (got, back) (omega (int_laws, short'), omega int_laws, omega int_laws)
      ]
    ]

within_hour_bounds :
    (now : ℕ) (meter : Meter) (amount : ℤ)
    → pos 0 ≤ℤ amount
    → amount ≤ℤ pos (2 ^ 126)
    → pos 0 ≤ℤ meter.claimed_this_hour
    → meter.claimed_this_hour ≤ℤ meter.max_flow_rate_per_hour
    → meter.max_flow_rate_per_hour ≤ℤ pos (2 ^ 126)
    → (pos 0 ≤ℤ within_hour now meter amount)
      × (within_hour now meter amount ≤ℤ amount)
      × ((is_same_hour now meter ≡ true)
          → within_hour now meter amount +ℤ meter.claimed_this_hour ≤ℤ meter.max_flow_rate_per_hour)
unfolding within_hour
within_hour_bounds now meter amount up small low under most =
    let room = meter.max_flow_rate_per_hour in
    let done = meter.claimed_this_hour in
    let e = wrapping_sub_fits room done (omega int_laws) (omega int_laws) in
    elim (Bool-cases (is_same_hour now meter)) [
      | inr k ↦
          let got : within_hour now meter amount ≡ amount = ground (arith, k) in
          rw got (up, omega arith, λ s. absurd (ground (arith, s, k)))
      | inl k ↦ elim (Bool-cases (ltb_ℤ (wrapping_sub room done) amount)) [
        | inl over ↦
            let got : within_hour now meter amount ≡ room -ℤ done = ground (arith, k, over, e) in
            let more : room -ℤ done ≤ℤ amount =
              rw e at (le_of_ltb (wrapping_sub room done) amount over) in
            rw got (omega int_laws, more, λ _. omega int_laws)
        | inr under_it ↦
            let got : within_hour now meter amount ≡ amount = ground (arith, k, under_it) in
            let less : amount ≤ℤ room -ℤ done =
              rw e at (le_of_not_ltb (wrapping_sub room done) amount under_it) in
            rw got (up, omega arith, λ _. omega (int_laws, less))
      ]
    ]

-- For a meter whose balance is between the debt threshold and 2^126, with a due amount between zero
-- and 2^126, and with a claimed amount of the hour between zero and the hourly maximum, which is at
-- most 2^126: after a claim that returns, the balance is not below the threshold and not above what
-- it was, and after a second claim in an hour the claimed amount is within the hourly maximum.
pub claim_limits :
    (env : Env) (meter_id : ℕ) (meter : Meter) (s s' : State)
    → s.meter meter_id ≡ some meter
    → (debt_threshold ≤ℤ meter.balance) × (meter.balance ≤ℤ pos (2 ^ 126))
    → (pos 0 ≤ℤ amount_due env.now meter) × (amount_due env.now meter ≤ℤ pos (2 ^ 126))
    → (pos 0 ≤ℤ meter.claimed_this_hour)
      × (meter.claimed_this_hour ≤ℤ meter.max_flow_rate_per_hour)
      × (meter.max_flow_rate_per_hour ≤ℤ pos (2 ^ 126))
    → claim env meter_id s ≡ ok (tt, s')
    → (after : Meter) × (s'.meter meter_id ≡ some after)
      × (debt_threshold ≤ℤ after.balance)
      × (after.balance ≤ℤ meter.balance)
      × ((is_same_hour env.now meter ≡ true)
          → after.claimed_this_hour ≤ℤ after.max_flow_rate_per_hour)
unfolding claimed_meter refresh_activity
claim_limits env meter_id meter s s' found (low, high) (up, small) (c0, c1, c2) h =
    let now = env.now in
    let asked = within_hour now meter (amount_due now meter) in
    let c = claim_of now meter in
    let (w0, w1, w2) = within_hour_bounds now meter (amount_due now meter) up small c0 c1 c2 in
    let (b0, b1, b2) = claimable_bounds meter asked low high w0 (omega (arith, w1, small)) in
    let stored = stored_meter env meter_id s s' meter found h in
    let kept =
      wrapping_sub_fits meter.balance c (omega (int_laws, b0, w1)) (omega (int_laws, b2)) in
    (
      refresh_activity (claimed_meter now meter c),
      stored,
      elim (Bool-cases (ltb_ℤ (pos 0) c)) [ inl e ↦ rw e b1 | inr e ↦ rw e low ],
      elim (Bool-cases (ltb_ℤ (pos 0) c)) [
        | inl e ↦ rw (e, kept) (omega (int_laws, b2))
        | inr e ↦ rw e (omega arith)
      ],
      λ same. elim (Bool-cases (ltb_ℤ (pos 0) c)) [
        | inl e ↦
            let fits = w2 same in
            let sum =
              wrapping_add_fits meter.claimed_this_hour c (omega (int_laws, b2))
                (omega (int_laws, b0, fits)) in
            rw (e, same, sum) (omega (int_laws, b0, fits))
        | inr e ↦ rw (e, same) (omega arith)
      ],
    )

-- For a claim that returns, of a positive amount below 2^112, with a tax and a fee of at most
-- 10,000 basis points, a green discount that is not negative and a provider other than the
-- contract: the contract sends the amount without the tax, and the tax where there is a vault, to
-- whomever else it pays; and the meter's balance falls by the whole amount.
pub claim_pays :
    (env : Env) (meter_id : ℕ) (meter : Meter) (n d f r : ℕ) (s s' : State)
    → s.meter meter_id ≡ some meter
    → claim_of env.now meter ≡ pos n
    → (0 < n) × (n < 2 ^ 112)
    → meter.provider ≢ env.current_contract
    → meter.green_energy_discount_bps ≡ pos d
    → (unwrap_or (pos 0) s.protocol_fee_bps ≡ pos f) × (f ≤ 10_000)
    → (get_tax_rate_or_default s ≡ pos r) × (r ≤ 10_000)
    → claim env meter_id s ≡ ok (tt, s')
    → (sent_by env.current_contract s'.transfers
        ≡ pos (n - share n r + levied s.government_vault (share n r))
          +ℤ sent_by env.current_contract s.transfers)
      × (after : Meter) × (s'.meter meter_id ≡ some after)
      × (after.balance ≡ wrapping_sub meter.balance (pos n))
unfolding claimed_meter refresh_activity
claim_pays env meter_id meter n d f r s s' found due (up, small) other given (fee, fee_small)
      (tax, tax_small) h =
    let c = env.current_contract in
    let (s1, s2, _, _, paid, extended, done) = claim_parts env meter_id meter s s' found h in
    let positive : ltb_ℤ (pos 0) (pos n) ≡ true = ground (arith, up) in
    let paid' : pay_claim env meter_id meter (pos n) s ≡ ok (tt, s1) =
      rw positive at (rw due at paid) in
    let flown =
      claim_shares env meter_id meter n d f r s s1 small other given fee fee_small tax tax_small
        paid' in
    (
      ap (λ t. sent_by c t.transfers) done
          ∙ ap (sent_by c) (extend-Kept env meter_id s1 s2 extended).1
          ∙ flown,
      refresh_activity (claimed_meter env.now meter (claim_of env.now meter)),
      stored_meter env meter_id s s' meter found h,
      rw (due, positive) refl,
    )
