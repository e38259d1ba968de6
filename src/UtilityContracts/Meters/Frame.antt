-- ===== src/UtilityContracts/Meters/Frame.antt =====
-- What the payments of a claim and of a report leave as it is: the meters, their number, the pools of
-- the providers, the settings of the contract and the times of the last readings.
use utility_contracts.Base.{ℕ, ◌≡◌, ◌∙◌, ℤ, Bool, ◌∷◌, arith, ok, Option-cases, inl, inr}
use utility_contracts.UtilityContracts.Meters.Types.{Meter, Transfer, State, Env, call_transfer}
use utility_contracts.UtilityContracts.Meters.Payouts.{
  auto_extend_ttl_if_needed, pay_tax, issue_carbon_credits, pay_fee,
}

abbrev pub Kept : State → State → Type 0
Kept s s' =
    (s'.meter ≡ s.meter)
    × (s'.count ≡ s.count)
    × (s'.provider_total_pool ≡ s.provider_total_pool)
    × (s'.tax_rate_bps ≡ s.tax_rate_bps)
    × (s'.protocol_fee_bps ≡ s.protocol_fee_bps)
    × (s'.government_vault ≡ s.government_vault)
    × (s'.maintenance_wallet ≡ s.maintenance_wallet)
    × (s'.last_reading_time ≡ s.last_reading_time)

pub Kept-trans : (s t u : State) → Kept s t → Kept t u → Kept s u
Kept-trans s t u (a1, a2, a3, a4, a5, a6, a7, a8) (b1, b2, b3, b4, b5, b6, b7, b8) =
    (b1 ∙ a1, b2 ∙ a2, b3 ∙ a3, b4 ∙ a4, b5 ∙ a5, b6 ∙ a6, b7 ∙ a7, b8 ∙ a8)

pub transfer-Kept :
    (env : Env) (t : Transfer) (s s' : State)
    → call_transfer env t s ≡ ok (tt, s')
    → Kept s s' × (s'.transfers ≡ t ∷ s.transfers)
unfolding call_transfer
transfer-Kept env t s s' h = ground (arith, h)

pub extend-Kept :
    (env : Env) (meter_id : ℕ) (s s' : State)
    → auto_extend_ttl_if_needed env meter_id s ≡ ok (tt, s')
    → Kept s s' × (s'.transfers ≡ s.transfers)
unfolding auto_extend_ttl_if_needed
extend-Kept env meter_id s s' h = ground (arith, h)

pub tax-Kept :
    (env : Env) (meter_id : ℕ) (meter : Meter) (amount after : ℤ) (s s' : State)
    → pay_tax env meter_id meter amount s ≡ ok (after, s')
    → Kept s s'
unfolding pay_tax call_transfer
tax-Kept env meter_id meter amount after s s' h = elim (Option-cases s.government_vault) [
  | inl e ↦ ground (arith, h, e)
  | inr (vault, e) ↦ ground (arith, h, e)
]

pub credits-Kept :
    (env : Env) (meter_id : ℕ) (meter : Meter) (claimable : ℤ) (issued : Bool) (s s' : State)
    → issue_carbon_credits env meter_id meter claimable s ≡ ok (issued, s')
    → Kept s s'
unfolding issue_carbon_credits call_transfer
credits-Kept env meter_id meter claimable issued s s' h =
    elim (Option-cases meter.carbon_credit_token) [
      | inl e ↦ ground (arith, h, e)
      | inr (token, e) ↦ elim (Option-cases s.oracle) [
        | inl o ↦ ground (arith, h, e, o)
        | inr (oracle, o) ↦ ground (arith, h, e, o)
      ]
    ]

pub fee-Kept :
    (env : Env) (meter : Meter) (minus : ℤ → ℤ → ℤ) (discounted : Bool) (payout after : ℤ)
    (s s' : State)
    → pay_fee env meter minus discounted payout s ≡ ok (after, s')
    → Kept s s'
unfolding pay_fee call_transfer
fee-Kept env meter minus discounted payout after s s' h = elim (Option-cases s.maintenance_wallet) [
  | inl e ↦ ground (arith, h, e)
  | inr (wallet, e) ↦ ground (arith, h, e)
]
