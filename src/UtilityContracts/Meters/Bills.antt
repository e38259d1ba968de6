-- ===== src/UtilityContracts/Meters/Bills.antt =====
-- What an accepted usage report pays, and what it charges the meter.
use utility_contracts.Base.{
  ℕ, ◌≡◌, ◌≢◌, ap, ◌∙◌, ℤ, pos, arith, inl, inr, Bool-cases, some, ok, bind_ok, unwrap_or, ◌+ℤ◌,
  ◌+◌, ◌-◌, ◌<◌, ◌≤◌, ◌^◌, List, ◌∷◌, saturating_sub, saturating_sub_pos, ltb, if◌then◌else◌,
}
use utility_contracts.UtilityContracts.Meters.Types.{
  pre_paid, Meter, Transfer, State, Env, SignedUsageData,
}
use utility_contracts.UtilityContracts.Meters.Helpers.{refresh_activity}
use utility_contracts.UtilityContracts.Meters.Payouts.{
  allocate_to_maintenance_fund, pay_tax, issue_carbon_credits, pay_fee, from_contract,
  get_tax_rate_or_default,
}
use utility_contracts.UtilityContracts.Meters.Usage.{
  deduct_units, pay_usage, cost_of, reconciled, billed_meter, provider_claimed,
}
use utility_contracts.UtilityContracts.Meters.Frame.{tax-Kept, credits-Kept}
use utility_contracts.UtilityContracts.Meters.Shares.{
  sent_by, levied, share, tax_shares, credits_shares,
}
use utility_contracts.UtilityContracts.Meters.Payments.{
  fee_shares, payout_shares, payout_last, add_three, under,
}
use utility_contracts.UtilityContracts.Meters.Reports.{deduct_units-Accepted, paid_parts}

chain : (a b c : ℤ) → a ≡ b → b ≡ c → a ≡ c
chain a b c p q = p ∙ q

-- The payments of a report, added up.
usage_shares :
    (env : Env) (meter_id : ℕ) (meter : Meter) (n d f r : ℕ) (out : ℤ) (s s' : State)
    → n < 2 ^ 112
    → meter.provider ≢ env.current_contract
    → meter.green_energy_discount_bps ≡ pos d
    → (unwrap_or (pos 0) s.protocol_fee_bps ≡ pos f) × (f ≤ 10_000)
    → (get_tax_rate_or_default s ≡ pos r) × (r ≤ 10_000)
    → pay_usage env meter_id meter (pos n) s ≡ ok (out, s')
    → (payout : ℕ) × (out ≡ pos payout)
      × (payout ≤ n - share n r)
      × (n - share n r - share (n - share n r) f ≤ payout)
      × (earlier : List Transfer) × (s'.transfers ≡ (
          if ltb 0 payout
          then from_contract env meter meter.provider (pos payout) ∷ earlier
          else earlier))
      × (sent_by env.current_contract s'.transfers
          ≡ pos (n - share n r + levied s.government_vault (share n r))
            +ℤ sent_by env.current_contract s.transfers)
unfolding pay_usage allocate_to_maintenance_fund
usage_shares env meter_id meter n d f r out s s' small other given (fee, fee_small)
      (rate, rate_small) h =
    let s1 = allocate_to_maintenance_fund meter_id (pos n) s in
    let (after, s2, taxed, h2) = bind_ok (pay_tax env meter_id meter (pos n)) _ s1 s' out h in
    let (issued, s3, credited, h3) =
      bind_ok (issue_carbon_credits env meter_id meter after) _ s2 s' out h2 in
    let (payout, s4, charged, h4) =
      bind_ok (pay_fee env meter saturating_sub issued after) _ s3 s' out h3 in
    let tax = share n r in
    let (low, left, t1) =
      tax_shares env meter_id meter n r after s1 s2 small rate rate_small taxed in
    let (_, _, _, _, fees1, _, _, _) = tax-Kept env meter_id meter (pos n) after s1 s2 taxed in
    let (_, _, _, _, fees2, _, _, _) =
      credits-Kept env meter_id meter after issued s2 s3 credited in
    let t2 = credits_shares env meter_id meter after issued s2 s3 other credited in
    let bps : unwrap_or (pos 0) s3.protocol_fee_bps ≡ pos f = rw (fees2, fees1) fee in
    let charged' : pay_fee env meter saturating_sub issued (pos (n - tax)) s3 ≡ ok (payout, s4) =
      rw⁻¹ left charged in
    let (cut, cut_low, cut_most, rest, t3) =
      fee_shares env meter saturating_sub issued (n - tax) d f payout s3 s4 (omega (arith, small))
        given bps fee_small saturating_sub_pos charged' in
    let (same_out, h5) = paid_parts env meter payout out s4 s' h4 in
    let t4 = payout_shares env meter payout (n - tax - cut) s4 s' rest h5 in
    (
      n - tax - cut,
      chain out payout (pos (n - tax - cut)) same_out rest,
      omega arith,
      omega (arith, cut_most),
      s4.transfers,
      payout_last env meter payout (n - tax - cut) s4 s' rest h5,
      add_three (levied s.government_vault tax) cut (n - tax - cut) _ _ _ _ _ t1
          (under (pos cut) _ _ _ t3 t2) t4 (omega (arith, cut_low, low)),
    )

billed_balance :
    (now : ℕ) (signed_data : SignedUsageData) (cost : ℤ) (payout : ℕ) (meter : Meter)
    → meter.billing_type ≡ pre_paid
    → (billed_meter now signed_data cost (pos payout) meter).balance
      ≡ (if ltb 0 payout then saturating_sub meter.balance (pos payout) else meter.balance)
unfolding billed_meter provider_claimed refresh_activity
billed_balance now signed_data cost payout meter prepaid =
    rw prepaid
      (elim (Bool-cases (ltb 0 payout)) [ inl e ↦ ground (arith, e) | inr e ↦ ground (arith, e) ])

-- For an accepted report on a pre-paid meter, of a cost below 2^112, with a tax and a fee of at
-- most 10,000 basis points, a green discount that is not negative and a provider other than the
-- contract: the contract sends the cost without the tax, and the tax where there is a vault; but
-- the balance of the meter, once an offline estimate is returned, falls by the provider's payout
-- only, which is the last transfer, where it is not zero, and is the cost without the tax less at
-- most the fee's share of it.
pub report_pays :
    (env : Env) (signed_data : SignedUsageData) (meter : Meter) (n d f r : ℕ) (s s' : State)
    → s.meter signed_data.meter_id ≡ some meter
    → meter.billing_type ≡ pre_paid
    → (cost_of signed_data meter ≡ pos n) × (n < 2 ^ 112)
    → meter.provider ≢ env.current_contract
    → meter.green_energy_discount_bps ≡ pos d
    → (unwrap_or (pos 0) s.protocol_fee_bps ≡ pos f) × (f ≤ 10_000)
    → (get_tax_rate_or_default s ≡ pos r) × (r ≤ 10_000)
    → deduct_units env signed_data s ≡ ok (tt, s')
    → (payout : ℕ) × (payout ≤ n - share n r)
      × (n - share n r - share (n - share n r) f ≤ payout)
      × (earlier : List Transfer) × (s'.transfers ≡ (
          if ltb 0 payout
          then from_contract env meter meter.provider (pos payout) ∷ earlier
          else earlier))
      × (sent_by env.current_contract s'.transfers
          ≡ pos (n - share n r + levied s.government_vault (share n r))
            +ℤ sent_by env.current_contract s.transfers)
      × (after : Meter) × (s'.meter signed_data.meter_id ≡ some after)
      × (after.balance ≡ (
          if ltb 0 payout
          then saturating_sub (reconciled env.now meter).balance (pos payout)
          else (reconciled env.now meter).balance))
unfolding reconciled
report_pays env signed_data meter n d f r s s' found prepaid (due, small) other given
      (fee, fee_small) (tax, tax_small) h =
    let a = deduct_units-Accepted env signed_data meter s s' found h in
    let online = reconciled env.now meter in
    let (_, _, _, taxes, fees, vaults, _, _) = a.before.0 in
    let (payout, out, within, least, earlier, last, flown) =
      usage_shares env signed_data.meter_id online n d f r a.payout a.s0 a.s1 small other given
        (rw fees fee, fee_small) (rw taxes tax, tax_small) (rw due at a.paid) in
    let (logged, stored, _, _, _) = a.after in
    let c = env.current_contract in
    let cost = cost_of signed_data meter in
    let after = billed_meter env.now signed_data cost a.payout online in
    let here : s'.meter signed_data.meter_id ≡ some after =
      ap (λ f. f signed_data.meter_id) stored ∙ ground arith in
    let sent : sent_by c a.s1.transfers
        ≡ pos (n - share n r + levied s.government_vault (share n r)) +ℤ sent_by c s.transfers =
      rw vaults at (rw (a.before.1) at flown) in
    (
      payout,
      within,
      least,
      earlier,
      logged ∙ (a.extended).1 ∙ last,
      ap (sent_by c) (logged ∙ (a.extended).1) ∙ sent,
      after,
      here,
      ap (λ x. (billed_meter env.now signed_data cost x online).balance) out
          ∙ billed_balance env.now signed_data cost payout online prepaid,
    )
