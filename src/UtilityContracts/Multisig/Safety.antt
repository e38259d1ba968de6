-- ===== src/UtilityContracts/Multisig/Safety.antt =====
-- What an execution shows of the past and does to the state.
use mathlib.Core.Path.{subst}
use utility_contracts.Base.{
  ℕ, ◌≡◌, ◌≤◌, refl, sym, ap, ◌∙◌, Bool, true, false, some, none, saturating_sub, List, [], ◌∷◌,
  arith, Option-cases, Bool-cases, inl, inr, ok, err, ltb, ltb→le, ◌==◌, ◌≤ℤ◌, le_of_not_ltb,
}
use utility_contracts.UtilityContracts.Errors.{withdrawal_already_executed}
use utility_contracts.UtilityContracts.Meters.Types.{Meter, pre_paid, post_paid}
use utility_contracts.UtilityContracts.Meters.Helpers.{available_earnings}
use utility_contracts.UtilityContracts.Multisig.Types.{
  MultiSigConfig, WithdrawalRequest, State, Env,
}
use utility_contracts.UtilityContracts.Multisig.Config.{
  length, contains, unique, minimum_multisig_threshold,
}
use utility_contracts.UtilityContracts.Multisig.Execution.{
  approvals, execute_multisig_withdrawal, payment, charged_meter,
}
use utility_contracts.UtilityContracts.Multisig.Once.{
  Steps, begun-IsNumbered, executed_stays, executing-IsNumbered,
}
use utility_contracts.UtilityContracts.Multisig.Consent.{
  Consent, Consented, Run, approval-Consented,
}
use utility_contracts.UtilityContracts.Multisig.Payout.{
  settled, reject, execute_state, charged_meter_lem,
}

approvals_sound :
    (f : ℕ → Bool) (ws : List ℕ) (w : ℕ)
    → contains (approvals f ws) w ≡ true
    → (contains ws w ≡ true) × (f w ≡ true)
unfolding approvals contains
approvals_sound f [] w h = absurd (ground (arith, h))
approvals_sound f (v ∷ ws) w h = elim (Bool-cases (f v)) [
  | inr e ↦
      let rest = approvals_sound f ws w (ground (arith, h, e)) in (ground (arith, rest.0), rest.1)
  | inl e ↦ elim (Bool-cases (v == w)) [
    | inl k ↦
        let same : v ≡ w = ground (arith, k) in (ground (arith, k), subst (λ x. f x ≡ true) same e)
    | inr k ↦
        let rest = approvals_sound f ws w (ground (arith, h, e, k)) in
        (ground (arith, rest.0), rest.1)
  ]
]

approvals_unique : (f : ℕ → Bool) (ws : List ℕ) → unique ws ≡ true → unique (approvals f ws) ≡ true
unfolding approvals unique
approvals_unique f [] h = refl
approvals_unique f (v ∷ ws) h =
    let rest = approvals_unique f ws (ground (arith, h)) in
    elim (Bool-cases (f v)) [
      | inr e ↦ ground (arith, rest, e)
      | inl e ↦ elim (Bool-cases (contains (approvals f ws) v)) [
        | inl k ↦ let old = (approvals_sound f ws v k).0 in absurd (ground (arith, h, old))
        | inr k ↦ ground (arith, rest, e, k)
      ]
    ]

-- What an execution relies on.
pub record IsBacked (log : List Consent) (s : State) (env : Env) (provider request_id : ℕ)
    : Type 0 where
  pub config : MultiSigConfig
  pub configured : s.config provider ≡ some config
  pub request : WithdrawalRequest
  pub requested : s.request provider request_id ≡ some request
  pub pending : (request.is_executed ≡ false) × (request.is_cancelled ≡ false)
  pub in_time : env.now ≤ request.expires_at
  pub wallets : List ℕ
  pub distinct : unique wallets ≡ true
  pub consented :
      (w : ℕ)
      → contains wallets w ≡ true
      → (contains config.finance_wallets w ≡ true) × Consented provider request_id w log
  pub enough : config.required_signatures ≤ length wallets
  pub several : 2 ≤ config.required_signatures

-- In a state that calls reach from one without approvals, where the rest of the contract changes
-- meters, pools and tokens as it likes: a withdrawal that is executed was neither executed nor
-- cancelled nor expired, and there are different wallets, all in the provider's configuration, as
-- many as it requires and at least two, each of which authorized a call that proposed or approved
-- that request.
pub execute-IsBacked :
    (log : List Consent) (s s' : State) (env : Env) (p r : ℕ)
    → Run log s
    → execute_multisig_withdrawal env p r s ≡ ok (tt, s')
    → IsBacked log s env p r
unfolding execute_multisig_withdrawal
execute-IsBacked log s s' env p r run h = elim (Option-cases (s.config p)) [
  | inl e ↦ absurd (ground (arith, h, e))
  | inr (config, e) ↦ elim (Option-cases (s.request p r)) [
    | inl f ↦ absurd (ground (arith, h, e, f))
    | inr (request, f) ↦
        let wallets = approvals (s.approval p r) config.finance_wallets in
        let few : ltb (length wallets) config.required_signatures ≡ false =
          ground (arith, h, e, f) in
        let late : ltb request.expires_at env.now ≡ false = ground (arith, h, e, f) in
        let low : ltb config.required_signatures
              (minimum_multisig_threshold (length config.finance_wallets))
            ≡ false =
          ground (arith, h, e, f) in
        let several : 2 ≤ config.required_signatures = ground (arith, low) in
        let distinct : unique config.finance_wallets ≡ true = ground (arith, h, e, f) in
        record {
          config = config;
          configured = e;
          request = request;
          requested = f;
          pending = (ground (arith, h, e, f), ground (arith, h, e, f));
          in_time = ltb→le request.expires_at env.now late;
          wallets = wallets;
          distinct = approvals_unique (s.approval p r) config.finance_wallets distinct;
          consented = λ w k.
              let got = approvals_sound (s.approval p r) config.finance_wallets w k in
              (got.0, approval-Consented log s p r w run got.1);
          enough = ltb→le (length wallets) config.required_signatures few;
          several = several;
        }
  ]
]

-- After any calls on a contract that had no request, of which no proposal wraps the count, and with
-- any changes of meters, pools and tokens between them, a withdrawal that is executed makes exactly
-- one transfer, of the requested amount, in the meter's token, from the contract to the requested
-- destination. The amount is no more than the meter's earnings. It is subtracted, with saturation,
-- from the balance of a pre-paid meter, whose debt stays, or from the debt of a post-paid meter,
-- whose balance stays. And after any such calls and changes from then on, an execution of that
-- request aborts with the error that it was executed.
pub execute_once :
    (o s s' : State) (env : Env) (p r : ℕ)
    → ((a b : ℕ) → o.request a b ≡ none)
    → Steps o s
    → execute_multisig_withdrawal env p r s ≡ ok (tt, s')
    → (request : WithdrawalRequest) × (meter : Meter) × (s.request p r ≡ some request)
      × (s.meter request.meter_id ≡ some meter)
      × (s'.transfers ≡ payment env request meter request.amount_usd_cents ∷ s.transfers)
      × (request.amount_usd_cents ≤ℤ available_earnings meter.billing_type meter)
      × (after : Meter) × (s'.meter request.meter_id ≡ some after)
      × ((meter.billing_type ≡ pre_paid)
          → (after.balance ≡ saturating_sub meter.balance request.amount_usd_cents)
            × (after.debt ≡ meter.debt))
      × ((meter.billing_type ≡ post_paid)
          → (after.debt ≡ saturating_sub meter.debt request.amount_usd_cents)
            × (after.balance ≡ meter.balance))
      × ((later : Env) (u : State)
          → Steps s' u
          → execute_multisig_withdrawal later p r u ≡ err withdrawal_already_executed)
unfolding execute_multisig_withdrawal
execute_once o s s' env p r bare steps h = elim (Option-cases (s.config p)) [
  | inl e ↦ absurd (ground (arith, h, e))
  | inr (config, e) ↦ elim (Option-cases (s.request p r)) [
    | inl f ↦ absurd (ground (arith, h, e, f))
    | inr (request, f) ↦ elim (Option-cases (s.meter request.meter_id)) [
      | inl g ↦ absurd (ground (arith, h, e, f, g))
      | inr (meter, g) ↦
          let amount = request.amount_usd_cents in
          let paid = record s { transfers = payment env request meter amount ∷ s.transfers } in
          let n = length (approvals (s.approval p r) config.finance_wallets) in
          let (low, done) = execute_state s s' env p r config request meter e f g h in
          let (kept, transfers, charged, executed) = settled env p r request n meter amount paid in
          (
            request,
            meter,
            f,
            g,
            ap (λ x. x.transfers) (sym done) ∙ transfers,
            le_of_not_ltb (available_earnings meter.billing_type meter) amount low,
            charged_meter env amount meter,
            ap (λ x. x.meter request.meter_id) (sym done) ∙ charged,
            (charged_meter_lem env amount meter).0,
            (charged_meter_lem env amount meter).1,
            λ later u more.
                let inv = executing-IsNumbered env s s' p r (begun-IsNumbered o s bare steps) h in
                let stored = ap (λ x. x.request p r) (sym done) ∙ executed in
                let (still, (c, configured)) = executed_stays s' u p r _ inv more stored refl in
                reject later u p r c _ configured still refl,
          )
    ]
  ]
]
