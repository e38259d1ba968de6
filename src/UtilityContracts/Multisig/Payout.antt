-- ===== src/UtilityContracts/Multisig/Payout.antt =====
-- What an execution that returns has tested, paid and stored.
use utility_contracts.Base.{
  ℕ, ◌≡◌, refl, sym, ◌∙◌, ℤ, true, false, ◌||◌, some, saturating_sub, ◌∷◌, arith, ok, err, ltb,
  eqb_self, ok_state, ◌==◌, ltb_ℤ,
}
use utility_contracts.UtilityContracts.Errors.{withdrawal_already_executed}
use utility_contracts.UtilityContracts.Meters.Types.{Meter, pre_paid, post_paid}
use utility_contracts.UtilityContracts.Meters.Helpers.{available_earnings, deduct, refresh_activity}
use utility_contracts.UtilityContracts.Multisig.Types.{
  MultiSigConfig, WithdrawalRequest, State, Env,
}
use utility_contracts.UtilityContracts.Multisig.Config.{
  length, unique, minimum_multisig_threshold, min_finance_wallets, max_finance_wallets,
}
use utility_contracts.UtilityContracts.Multisig.Execution.{
  record_payout, approvals, execute_multisig_withdrawal, payment, charged_meter,
}

pub settled :
    (env : Env) (p r : ℕ) (request : WithdrawalRequest) (verified : ℕ) (meter : Meter) (amount : ℤ)
    (s : State)
    → ((record_payout env p r request verified meter amount s).config p ≡ s.config p)
      × ((record_payout env p r request verified meter amount s).transfers ≡ s.transfers)
      × ((record_payout env p r request verified meter amount s).meter request.meter_id
          ≡ some (charged_meter env request.amount_usd_cents meter))
      × ((record_payout env p r request verified meter amount s).request p r
          ≡ some (record request { approval_count = verified; is_executed = true }))
unfolding record_payout
settled env p r request verified meter amount s =
    (refl, refl, rw (eqb_self request.meter_id) refl, rw (eqb_self p, eqb_self r) refl)

pub reject :
    (env : Env) (s : State) (p r : ℕ) (config : MultiSigConfig) (request : WithdrawalRequest)
    → s.config p ≡ some config
    → s.request p r ≡ some request
    → request.is_executed ≡ true
    → execute_multisig_withdrawal env p r s ≡ err withdrawal_already_executed
unfolding execute_multisig_withdrawal
reject env s p r config request e f h = ground (arith, e, f, h)

pub execute_state :
    (s s' : State) (env : Env) (p r : ℕ) (config : MultiSigConfig) (request : WithdrawalRequest)
    (meter : Meter)
    → s.config p ≡ some config
    → s.request p r ≡ some request
    → s.meter request.meter_id ≡ some meter
    → execute_multisig_withdrawal env p r s ≡ ok (tt, s')
    → (ltb_ℤ (available_earnings meter.billing_type meter) request.amount_usd_cents ≡ false)
      × (record_payout env p r request
            (length (approvals (s.approval p r) config.finance_wallets))
            meter
            request.amount_usd_cents
            (record s {
              transfers = payment env request meter request.amount_usd_cents ∷ s.transfers;
            })
          ≡ s')
unfolding execute_multisig_withdrawal
execute_state s s' env p r config request meter e f g h =
    let ws = config.finance_wallets in
    let n = length (approvals (s.approval p r) ws) in
    let t = payment env request meter request.amount_usd_cents in
    let c1 : request.is_executed ≡ false = ground (arith, h, e, f, g) in
    let c2 : request.is_cancelled ≡ false = ground (arith, h, e, f, g) in
    let c3 : ltb request.expires_at env.now ≡ false = ground (arith, h, e, f, g) in
    let c4 : (ltb (length ws) min_finance_wallets || ltb max_finance_wallets (length ws)) ≡ false =
      ground (arith, h, e, f, g) in
    let c5 : unique ws ≡ true = ground (arith, h, e, f, g) in
    let c6 : (ltb config.required_signatures (minimum_multisig_threshold (length ws))
          || ltb (length ws) config.required_signatures)
        ≡ false =
      ground (arith, h, e, f, g) in
    let c7 : ltb n config.required_signatures ≡ false = ground (arith, h, e, f, g) in
    let c8 : (meter.provider == p) ≡ true = ground (arith, h, e, f, g) in
    let c9 : ltb_ℤ (available_earnings meter.billing_type meter) request.amount_usd_cents ≡ false =
      ground (arith, h, e, f, g) in
    let c10 : env.accepts_transfer s.transfers t ≡ true = ground (arith, h, e, f, g) in
    let run : execute_multisig_withdrawal env p r s
        ≡ ok (
          tt,
          record_payout env p r request n meter request.amount_usd_cents
              (record s { transfers = t ∷ s.transfers }),
        ) =
      ground (arith, e, f, c1, c2, c3, c4, c5, c6, c7, g, c8, c9, c10) in
    (c9, ok_state (sym run ∙ h))

-- What a deduction from the meter's earnings leaves.
pub charged_meter_lem :
    (env : Env) (amount : ℤ) (meter : Meter)
    → ((meter.billing_type ≡ pre_paid)
        → ((charged_meter env amount meter).balance ≡ saturating_sub meter.balance amount)
          × ((charged_meter env amount meter).debt ≡ meter.debt))
      × ((meter.billing_type ≡ post_paid)
          → ((charged_meter env amount meter).debt ≡ saturating_sub meter.debt amount)
            × ((charged_meter env amount meter).balance ≡ meter.balance))
unfolding deduct refresh_activity
charged_meter_lem env amount meter =
    (λ e. (ground (arith, e), ground (arith, e)), λ e. (ground (arith, e), ground (arith, e)))
