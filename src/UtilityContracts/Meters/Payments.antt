-- ===== src/UtilityContracts/Meters/Payments.antt =====
-- The payments of a claim, added up.
use native.Mathlib.Nat.{mul-le-mul_left}
use utility_contracts.Base.{
  ◌*◌, if◌then◌else◌, ℕ, ◌≡◌, ◌≢◌, refl, ℤ, pos, Bool, arith, int_laws, ok, bind_ok, Option-cases,
  Bool-cases, inl, inr, ltb_ℤ, when, ◌∷◌, ◌+ℤ◌, ◌≤◌, ◌<◌, ◌^◌, ◌-◌, wrapping_sub, wrapping_sub_pos,
  saturating_sub_pos, unwrap_or, ltb, i128_half, ◌+◌,
}
use utility_contracts.UtilityContracts.Meters.Types.{Meter, State, Env, call_transfer}
use utility_contracts.UtilityContracts.Meters.Claims.{pay_claim}
use utility_contracts.UtilityContracts.Meters.Frame.{tax-Kept, credits-Kept}
use utility_contracts.UtilityContracts.Meters.Payouts.{
  allocate_to_maintenance_fund, pay_tax, issue_carbon_credits, pay_fee, from_contract,
  get_tax_rate_or_default, effective_fee_bps,
}
use utility_contracts.UtilityContracts.Meters.Shares.{
  sent_by, share, share_pos, levied, sent_own, sent_nothing, tax_shares, credits_shares,
}

fee_bps_pos :
    (meter : Meter) (active : Bool) (d f : ℕ)
    → meter.green_energy_discount_bps ≡ pos d
    → f < i128_half
    → (g : ℕ) × (g ≤ f) × (effective_fee_bps meter active (pos f) ≡ pos g)
unfolding effective_fee_bps
fee_bps_pos meter active d f given small = elim (Bool-cases active) [
  | inr e ↦ (f, omega arith, ground (arith, e, saturating_sub_pos f 0 (omega arith) small))
  | inl e ↦ elim (Bool-cases (ltb f d)) [
    | inl k ↦
        (0, omega arith, ground (arith, given, e, k, saturating_sub_pos f f (omega arith) small))
    | inr k ↦ (
      f - d,
      omega arith,
      ground (arith, given, e, k, saturating_sub_pos f d (ground (arith, k)) small),
    )
  ]
]

pub fee_shares :
    (env : Env) (meter : Meter) (minus : ℤ → ℤ → ℤ) (active : Bool) (n d f : ℕ) (after : ℤ)
    (s s' : State)
    → n < 2 ^ 112
    → meter.green_energy_discount_bps ≡ pos d
    → unwrap_or (pos 0) s.protocol_fee_bps ≡ pos f
    → f ≤ 10_000
    → ((a b : ℕ) → b ≤ a → a < i128_half → minus (pos a) (pos b) ≡ pos (a - b))
    → pay_fee env meter minus active (pos n) s ≡ ok (after, s')
    → (fee : ℕ) × (fee ≤ n)
      × (fee ≤ share n f)
      × (after ≡ pos (n - fee))
      × (sent_by env.current_contract s'.transfers
          ≡ pos fee +ℤ sent_by env.current_contract s.transfers)
unfolding pay_fee call_transfer
fee_shares env meter minus active n d f after s s' small given rate le exact h =
    let c = env.current_contract in
    let (g, low, bps) = fee_bps_pos meter active d f given (omega (arith, le)) in
    let (fee, part, within, exactly) = share_pos n g small (omega (arith, low, le)) in
    let rest = exact n fee within (omega (arith, small)) in
    let most : n * g ≤ n * f = mul-le-mul_left n low in
    let under_full : fee ≤ share n f = omega (arith, exactly, most) in
    elim (Option-cases s.maintenance_wallet) [
      | inl e ↦
          let same : s'.transfers ≡ s.transfers = ground (arith, h, e) in
          (0, omega arith, omega arith, ground (arith, h, e), rw same (sent_nothing c s.transfers))
      | inr (wallet, e) ↦
          let left : after ≡ pos (n - fee) = ground (arith, h, e, rate, bps, part, rest) in
          (
            fee,
            within,
            under_full,
            left,
            elim (Bool-cases (ltb 0 fee)) [
              | inl up ↦
                  let one : s'.transfers ≡ from_contract env meter wallet (pos fee) ∷ s.transfers =
                    ground (arith, h, e, rate, bps, part, rest, up) in
                  rw one (sent_own env meter wallet fee s.transfers)
              | inr no_fee ↦
                  let same : s'.transfers ≡ s.transfers =
                    ground (arith, h, e, rate, bps, part, rest, no_fee) in
                  let nothing : fee ≡ 0 = ground (arith, no_fee) in
                  rw (same, nothing) (sent_nothing c s.transfers)
            ],
          )
    ]

pub payout_shares :
    (env : Env) (meter : Meter) (payout : ℤ) (m : ℕ) (s s' : State)
    → payout ≡ pos m
    → when
        (ltb_ℤ (pos 0) payout)
        (call_transfer env (from_contract env meter meter.provider payout))
        s
      ≡ ok (tt, s')
    → sent_by env.current_contract s'.transfers ≡ pos m +ℤ sent_by env.current_contract s.transfers
unfolding call_transfer
payout_shares env meter payout m s s' e h = elim (Bool-cases (ltb 0 m)) [
  | inl up ↦
      let one : s'.transfers ≡ from_contract env meter meter.provider (pos m) ∷ s.transfers =
        ground (arith, h, e, up) in
      rw one (sent_own env meter meter.provider m s.transfers)
  | inr down ↦
      let same : s'.transfers ≡ s.transfers = ground (arith, h, e, down) in
      let nothing : m ≡ 0 = ground (arith, down) in
      rw (same, nothing) (sent_nothing env.current_contract s.transfers)
]

-- The payout is the last transfer.
pub payout_last :
    (env : Env) (meter : Meter) (payout : ℤ) (m : ℕ) (s s' : State)
    → payout ≡ pos m
    → when
        (ltb_ℤ (pos 0) payout)
        (call_transfer env (from_contract env meter meter.provider payout))
        s
      ≡ ok (tt, s')
    → s'.transfers ≡ (
        if ltb 0 m
        then from_contract env meter meter.provider (pos m) ∷ s.transfers
        else s.transfers)
unfolding call_transfer
payout_last env meter payout m s s' e h = elim (Bool-cases (ltb 0 m)) [
  | inl up ↦ ground (arith, h, e, up)
  | inr down ↦ ground (arith, h, e, down)
]

pub under : (a x y z : ℤ) → x ≡ a +ℤ y → y ≡ z → x ≡ a +ℤ z
under a x y z p q = rw p (rw q refl)

pub add_three :
    (a b c d : ℕ) (x0 x1 x2 x3 : ℤ)
    → x1 ≡ pos a +ℤ x0
    → x2 ≡ pos b +ℤ x1
    → x3 ≡ pos c +ℤ x2
    → a + b + c ≡ d
    → x3 ≡ pos d +ℤ x0
add_three a b c d x0 x1 x2 x3 p q r e = grind (int_laws, p, q, r, e)

-- The payments of a claim, added up.
pub claim_shares :
    (env : Env) (meter_id : ℕ) (meter : Meter) (n d f r : ℕ) (s s' : State)
    → n < 2 ^ 112
    → meter.provider ≢ env.current_contract
    → meter.green_energy_discount_bps ≡ pos d
    → unwrap_or (pos 0) s.protocol_fee_bps ≡ pos f
    → f ≤ 10_000
    → get_tax_rate_or_default s ≡ pos r
    → r ≤ 10_000
    → pay_claim env meter_id meter (pos n) s ≡ ok (tt, s')
    → sent_by env.current_contract s'.transfers
      ≡ pos (n - share n r + levied s.government_vault (share n r))
        +ℤ sent_by env.current_contract s.transfers
unfolding pay_claim allocate_to_maintenance_fund
claim_shares env meter_id meter n d f r s s' small other given fee fee_small rate rate_small h =
    let c = env.current_contract in
    let s1 = allocate_to_maintenance_fund meter_id (pos n) s in
    let (after, s2, taxed, h2) = bind_ok (pay_tax env meter_id meter (pos n)) _ s1 s' tt h in
    let (issued, s3, credited, h3) =
      bind_ok (issue_carbon_credits env meter_id meter (pos n)) _ s2 s' tt h2 in
    let (payout, s4, charged, h4) =
      bind_ok (pay_fee env meter wrapping_sub issued after) _ s3 s' tt h3 in
    let tax = share n r in
    let (low, left, t1) =
      tax_shares env meter_id meter n r after s1 s2 small rate rate_small taxed in
    let (_, _, _, _, fees1, _, _, _) = tax-Kept env meter_id meter (pos n) after s1 s2 taxed in
    let (_, _, _, _, fees2, _, _, _) =
      credits-Kept env meter_id meter (pos n) issued s2 s3 credited in
    let t2 = credits_shares env meter_id meter (pos n) issued s2 s3 other credited in
    let bps : unwrap_or (pos 0) s3.protocol_fee_bps ≡ pos f = rw (fees2, fees1) fee in
    let charged' : pay_fee env meter wrapping_sub issued (pos (n - tax)) s3 ≡ ok (payout, s4) =
      rw⁻¹ left charged in
    let (cut, cut_low, _, rest, t3) =
      fee_shares env meter wrapping_sub issued (n - tax) d f payout s3 s4 (omega (arith, small))
        given bps fee_small wrapping_sub_pos charged' in
    let t4 = payout_shares env meter payout (n - tax - cut) s4 s' rest h4 in
    add_three (levied s.government_vault tax) cut (n - tax - cut) _ _ _ _ _ t1
      (under (pos cut) _ _ _ t3 t2) t4 (omega (arith, cut_low, low))
