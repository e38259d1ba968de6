-- ===== src/UtilityContracts/Multisig/Effects.antt =====
-- What each call does to the requests.
use utility_contracts.Base.{
  ℕ, ◌+◌, ◌-◌, ◌%◌, ◌^◌, ◌<◌, ◌≡◌, ap, ◌∙◌, ℤ, true, false, none, some, List, ◌==◌, unwrap_or,
  arith, Option-cases, Bool-cases, inl, inr, ok,
}
use utility_contracts.UtilityContracts.Multisig.Types.{
  MultiSigConfig, WithdrawalRequest, State, Env,
}
use utility_contracts.UtilityContracts.Multisig.Config.{
  configure_multisig_withdrawal, update_multisig_config, disable_multisig, length,
}
use utility_contracts.UtilityContracts.Multisig.Requests.{
  propose_multisig_withdrawal, approve_multisig_withdrawal, revoke_multisig_approval,
  cancel_multisig_withdrawal, first_wallet, withdrawal_request_expiry,
}
use utility_contracts.UtilityContracts.Multisig.Execution.{
  record_payout, execute_multisig_withdrawal, approvals,
}
use utility_contracts.UtilityContracts.Multisig.Numbers.{Rests, Adds, Changes}

module _ (env : Env) (s s' : State) where
  pub configure-Rests :
      (p : ℕ) (wallets : List ℕ) (n : ℕ) (threshold : ℤ)
      → configure_multisig_withdrawal env p wallets n threshold s ≡ ok (tt, s')
      → Rests s s'
  unfolding configure_multisig_withdrawal
  configure-Rests p wallets n threshold h = (
    ground (arith, h),
    λ a c e.
        let bare : (s.config p) ≡ none = ground (arith, h) in
        elim (Bool-cases (p == a)) [
          | inl z ↦ absurd (ground (arith, z, bare, e))
          | inr z ↦ (c, ground (arith, h, z, e), ground (arith, h, z))
        ],
  )

  pub update-Rests :
      (p : ℕ) (wallets : List ℕ) (n : ℕ) (threshold : ℤ)
      → update_multisig_config env p wallets n threshold s ≡ ok (tt, s')
      → Rests s s'
  unfolding update_multisig_config
  update-Rests p wallets n threshold h = (
    ground (arith, h),
    λ a c e. elim (Bool-cases (p == a)) [
      | inl z ↦
          let here : s.config p ≡ some c = ap s.config (ground (arith, z)) ∙ e in
          let next : MultiSigConfig = record {
            provider = p;
            finance_wallets = wallets;
            required_signatures = n;
            threshold_amount = threshold;
            is_active = c.is_active;
            created_at = c.created_at;
          } in
          (next, ground (arith, h, z, here), ground (arith, h, z, here))
      | inr z ↦ (c, ground (arith, h, z, e), ground (arith, h, z))
    ],
  )

  pub disable-Rests : (p : ℕ) → disable_multisig env p s ≡ ok (tt, s') → Rests s s'
  unfolding disable_multisig
  disable-Rests p h = (
    ground (arith, h),
    λ a c e. elim (Bool-cases (p == a)) [
      | inl z ↦
          let here : s.config p ≡ some c = ap s.config (ground (arith, z)) ∙ e in
          (record c { is_active = false }, ground (arith, h, z, here), ground (arith, h, z, here))
      | inr z ↦ (c, ground (arith, h, z, e), ground (arith, h, z))
    ],
  )

  pub propose-Adds :
      (p meter : ℕ) (amount : ℤ) (destination r : ℕ)
      → r + 1 < 2 ^ 64
      → propose_multisig_withdrawal env p meter amount destination s ≡ ok (r, s')
      → Adds p s s'
  unfolding propose_multisig_withdrawal
  propose-Adds p meter amount destination r room h = elim (Option-cases (s.config p)) [
    | inl e ↦ absurd (ground (arith, h, e))
    | inr (config, e) ↦ elim (Option-cases (first_wallet config.finance_wallets)) [
      | inl f ↦ absurd (ground (arith, h, e, f))
      | inr (wallet, f) ↦
          let same : unwrap_or 0 (s.request_count p) ≡ r = ground (arith, h, e, f) in
          let q : WithdrawalRequest = record {
            request_id = unwrap_or 0 (s.request_count p);
            provider = p;
            meter_id = meter;
            amount_usd_cents = amount;
            destination = destination;
            proposer = wallet;
            created_at = env.now;
            expires_at = (env.now + withdrawal_request_expiry) % 2 ^ 64;
            approval_count = 1;
            is_executed = false;
            is_cancelled = false;
          } in
          (
            q,
            ground (arith, h, e, f),
            ground (arith, h, e, f),
            (config, e),
            omega (arith, same, room),
            ground (arith, h, e, f),
          )
    ]
  ]

  pub approve-Changes :
      (p r approver : ℕ)
      → approve_multisig_withdrawal env p r approver s ≡ ok (tt, s')
      → Changes p r s s'
  unfolding approve_multisig_withdrawal
  approve-Changes p r approver h = elim (Option-cases (s.request p r)) [
    | inl e ↦ absurd (ground (arith, h, e))
    | inr (old, e) ↦ (
      old,
      record old { approval_count = (old.approval_count + 1) % 2 ^ 32 },
      e,
      ground (arith, h, e),
      ground (arith, h, e),
      ground (arith, h, e),
      ground (arith, h, e),
    )
  ]

  pub revoke-Changes :
      (p r : ℕ) → revoke_multisig_approval env p r s ≡ ok (tt, s') → Changes p r s s'
  unfolding revoke_multisig_approval
  revoke-Changes p r h = elim (Option-cases (s.request p r)) [
    | inl e ↦ absurd (ground (arith, h, e))
    | inr (old, e) ↦ (
      old,
      record old { approval_count = old.approval_count - 1 },
      e,
      ground (arith, h, e),
      ground (arith, h, e),
      ground (arith, h, e),
      ground (arith, h, e),
    )
  ]

  pub cancel-Changes :
      (p r : ℕ) → cancel_multisig_withdrawal env p r s ≡ ok (tt, s') → Changes p r s s'
  unfolding cancel_multisig_withdrawal
  cancel-Changes p r h = elim (Option-cases (s.request p r)) [
    | inl e ↦ absurd (ground (arith, h, e))
    | inr (old, e) ↦ (
      old,
      record old { is_cancelled = true },
      e,
      ground (arith, h, e),
      ground (arith, h, e),
      ground (arith, h, e),
      ground (arith, h, e),
    )
  ]

  pub execute-Changes :
      (p r : ℕ) → execute_multisig_withdrawal env p r s ≡ ok (tt, s') → Changes p r s s'
  unfolding execute_multisig_withdrawal record_payout
  execute-Changes p r h = elim (Option-cases (s.config p)) [
    | inl e ↦ absurd (ground (arith, h, e))
    | inr (config, e) ↦ elim (Option-cases (s.request p r)) [
      | inl f ↦ absurd (ground (arith, h, e, f))
      | inr (old, f) ↦ elim (Option-cases (s.meter old.meter_id)) [
        | inl g ↦ absurd (ground (arith, h, e, f, g))
        | inr (meter, g) ↦ (
          old,
          record old {
            approval_count = length (approvals (s.approval p r) config.finance_wallets);
            is_executed = true;
          },
          f,
          ground (arith, h, e, f, g),
          ground (arith, h, e, f, g),
          ground (arith, h, e, f, g),
          ground (arith, h, e, f, g),
        )
      ]
    ]
  ]
