-- ===== src/UtilityContracts/Multisig/Consent.antt =====
-- What an executed withdrawal needed: consents that its wallets gave in earlier calls.
use mathlib.Core.Path.{subst}
use utility_contracts.Base.{
  ℕ, ◌≡◌, sym, ap, ◌∙◌, ℤ, Bool, true, false, ◌&&◌, List, [], ◌∷◌, arith, Option-cases, Bool-cases,
  inl, inr, ◌⊎◌, ok, Map, ◌==◌,
}
use utility_contracts.UtilityContracts.Meters.Types.{Meter, Transfer}
use utility_contracts.UtilityContracts.Multisig.Types.{State, Env}
use utility_contracts.UtilityContracts.Multisig.Config.{
  configure_multisig_withdrawal, update_multisig_config, disable_multisig,
}
use utility_contracts.UtilityContracts.Multisig.Requests.{
  propose_multisig_withdrawal, approve_multisig_withdrawal, revoke_multisig_approval,
  cancel_multisig_withdrawal, first_wallet, set_approval,
}
use utility_contracts.UtilityContracts.Multisig.Execution.{
  record_payout, execute_multisig_withdrawal,
}

-- A proposal or an approval that returned: for which request, and who authorized the call.
pub record Consent : Type 0 where
  pub provider : ℕ
  pub request_id : ℕ
  pub authorized : ℕ → Bool

pub data Consented (provider request_id wallet : ℕ) : List Consent → Type 0 where
  here :
      {log : List Consent} (authorized : ℕ → Bool)
      → authorized wallet ≡ true
      → Consented provider request_id wallet
          (record { provider = provider; request_id = request_id; authorized = authorized } ∷ log)
  there :
      {log : List Consent} (c : Consent)
      → Consented provider request_id wallet log
      → Consented provider request_id wallet (c ∷ log)

abbrev pub consent : Env → (provider request_id : ℕ) → Consent
consent env provider request_id = record {
  provider = provider;
  request_id = request_id;
  authorized = env.authorized;
}

-- The states that calls reach, with the consents on the way. The rest of the contract changes meters, pools
-- and tokens as it likes.
pub data Run : List Consent → State → Type 0 where
  start : (s : State) → ((p r w : ℕ) → s.approval p r w ≡ false) → Run [] s
  configured :
      {log : List Consent} {s s' : State} (env : Env) (p : ℕ) (wallets : List ℕ) (n : ℕ)
      (threshold : ℤ)
      → Run log s
      → configure_multisig_withdrawal env p wallets n threshold s ≡ ok (tt, s')
      → Run log s'
  updated :
      {log : List Consent} {s s' : State} (env : Env) (p : ℕ) (wallets : List ℕ) (n : ℕ)
      (threshold : ℤ)
      → Run log s
      → update_multisig_config env p wallets n threshold s ≡ ok (tt, s')
      → Run log s'
  disabled :
      {log : List Consent} {s s' : State} (env : Env) (p : ℕ)
      → Run log s
      → disable_multisig env p s ≡ ok (tt, s')
      → Run log s'
  proposed :
      {log : List Consent} {s s' : State} (env : Env) (p meter : ℕ) (amount : ℤ) (destination r : ℕ)
      → Run log s
      → propose_multisig_withdrawal env p meter amount destination s ≡ ok (r, s')
      → Run (consent env p r ∷ log) s'
  approved :
      {log : List Consent} {s s' : State} (env : Env) (p r approver : ℕ)
      → Run log s
      → approve_multisig_withdrawal env p r approver s ≡ ok (tt, s')
      → Run (consent env p r ∷ log) s'
  revoked :
      {log : List Consent} {s s' : State} (env : Env) (p r : ℕ)
      → Run log s
      → revoke_multisig_approval env p r s ≡ ok (tt, s')
      → Run log s'
  cancelled :
      {log : List Consent} {s s' : State} (env : Env) (p r : ℕ)
      → Run log s
      → cancel_multisig_withdrawal env p r s ≡ ok (tt, s')
      → Run log s'
  executed :
      {log : List Consent} {s s' : State} (env : Env) (p r : ℕ)
      → Run log s
      → execute_multisig_withdrawal env p r s ≡ ok (tt, s')
      → Run log s'
  elsewhere :
      {log : List Consent} {s : State} (meters : Map Meter) (pools : Map ℤ)
      (transfers : List Transfer)
      → Run log s
      → Run log (record s { meter = meters; provider_total_pool = pools; transfers = transfers })

set_cases :
    (p r w a b x : ℕ) (s : State)
    → (set_approval p r w true s).approval a b x ≡ true
    → ((a ≡ p) × (b ≡ r) × (x ≡ w)) ⊎ (s.approval a b x ≡ true)
set_cases p r w a b x s h = elim (Bool-cases (a == p && (b == r && x == w))) [
  | inl e ↦ inl (ground (arith, e), ground (arith, e), ground (arith, e))
  | inr e ↦ inr (ground (arith, h, e))
]

module _ (env : Env) (s s' : State) where
  configure_approval :
      (p : ℕ) (wallets : List ℕ) (n : ℕ) (threshold : ℤ)
      → configure_multisig_withdrawal env p wallets n threshold s ≡ ok (tt, s')
      → s'.approval ≡ s.approval
  unfolding configure_multisig_withdrawal
  configure_approval p wallets n threshold h = ground (arith, h)

  update_approval :
      (p : ℕ) (wallets : List ℕ) (n : ℕ) (threshold : ℤ)
      → update_multisig_config env p wallets n threshold s ≡ ok (tt, s')
      → s'.approval ≡ s.approval
  unfolding update_multisig_config
  update_approval p wallets n threshold h = ground (arith, h)

  disable_approval : (p : ℕ) → disable_multisig env p s ≡ ok (tt, s') → s'.approval ≡ s.approval
  unfolding disable_multisig
  disable_approval p h = ground (arith, h)

  cancel_approval :
      (p r : ℕ) → cancel_multisig_withdrawal env p r s ≡ ok (tt, s') → s'.approval ≡ s.approval
  unfolding cancel_multisig_withdrawal
  cancel_approval p r h = ground (arith, h)

  execute_approval :
      (p r : ℕ) → execute_multisig_withdrawal env p r s ≡ ok (tt, s') → s'.approval ≡ s.approval
  unfolding execute_multisig_withdrawal record_payout
  execute_approval p r h = ground (arith, h)

  revoke_approval :
      (p r a b w : ℕ)
      → revoke_multisig_approval env p r s ≡ ok (tt, s')
      → s'.approval a b w ≡ true
      → s.approval a b w ≡ true
  unfolding revoke_multisig_approval
  revoke_approval p r a b w h k = ground (arith, h, k)

  approve_approval :
      (p r approver a b w : ℕ)
      → approve_multisig_withdrawal env p r approver s ≡ ok (tt, s')
      → s'.approval a b w ≡ true
      → ((a ≡ p) × (b ≡ r) × (env.authorized w ≡ true)) ⊎ (s.approval a b w ≡ true)
  unfolding approve_multisig_withdrawal
  approve_approval p r approver a b w h k =
      let asked : env.authorized approver ≡ true = ground (arith, h) in
      let set : s'.approval ≡ (set_approval p r approver true s).approval = ground (arith, h) in
      elim (set_cases p r approver a b w s (ap (λ f. f a b w) (sym set) ∙ k)) [
        | inl (x, y, z) ↦ inl (x, y, rw z asked)
        | inr o ↦ inr o
      ]

  propose_approval :
      (p meter : ℕ) (amount : ℤ) (destination r a b w : ℕ)
      → propose_multisig_withdrawal env p meter amount destination s ≡ ok (r, s')
      → s'.approval a b w ≡ true
      → ((a ≡ p) × (b ≡ r) × (env.authorized w ≡ true)) ⊎ (s.approval a b w ≡ true)
  unfolding propose_multisig_withdrawal
  propose_approval p meter amount destination r a b w h k = elim (Option-cases (s.config p)) [
    | inl e ↦ absurd (ground (arith, h, e))
    | inr (config, e) ↦ elim (Option-cases (first_wallet config.finance_wallets)) [
      | inl f ↦ absurd (ground (arith, h, e, f))
      | inr (wallet, f) ↦
          let asked : env.authorized wallet ≡ true = ground (arith, h, e, f) in
          let set : s'.approval ≡ (set_approval p r wallet true s).approval =
            ground (arith, h, e, f) in
          elim (set_cases p r wallet a b w s (ap (λ f. f a b w) (sym set) ∙ k)) [
            | inl (x, y, z) ↦ inl (x, y, rw z asked)
            | inr o ↦ inr o
          ]
    ]
  ]

recorded :
    (env : Env) (p r a b w : ℕ) (log : List Consent)
    → ((a ≡ p) × (b ≡ r) × (env.authorized w ≡ true)) ⊎ Consented a b w log
    → Consented a b w (consent env p r ∷ log)
recorded env p r a b w log (inr o) = there (consent env p r) o
recorded env p r a b w log (inl (x, y, z)) =
    subst (λ q. Consented a b w (consent env q r ∷ log)) x
      (subst (λ q. Consented a b w (consent env a q ∷ log)) y (here env.authorized z))

-- In every state that calls reach, a recorded approval was given in a proposal or an approval of that request
-- by a call that the wallet authorized.
pub approval-Consented :
    (log : List Consent) (s : State) (a b w : ℕ)
    → Run log s
    → s.approval a b w ≡ true
    → Consented a b w log
approval-Consented _ s a b w (start _ bare) h = absurd (ground (arith, bare a b w, h))
approval-Consented _ s' a b w (configured {log} {s} env p wallets n threshold run e) h =
    approval-Consented log s a b w run
      (ap (λ f. f a b w) (sym (configure_approval env s s' p wallets n threshold e)) ∙ h)
approval-Consented _ s' a b w (updated {log} {s} env p wallets n threshold run e) h =
    approval-Consented log s a b w run
      (ap (λ f. f a b w) (sym (update_approval env s s' p wallets n threshold e)) ∙ h)
approval-Consented _ s' a b w (disabled {log} {s} env p run e) h =
    approval-Consented log s a b w run (ap (λ f. f a b w) (sym (disable_approval env s s' p e)) ∙ h)
approval-Consented _ s' a b w (cancelled {log} {s} env p r run e) h =
    approval-Consented log s a b w run
      (ap (λ f. f a b w) (sym (cancel_approval env s s' p r e)) ∙ h)
approval-Consented _ s' a b w (executed {log} {s} env p r run e) h =
    approval-Consented log s a b w run
      (ap (λ f. f a b w) (sym (execute_approval env s s' p r e)) ∙ h)
approval-Consented _ s' a b w (revoked {log} {s} env p r run e) h =
    approval-Consented log s a b w run (revoke_approval env s s' p r a b w e h)
approval-Consented _ s' a b w (proposed {log} {s} env p meter amount destination r run e) h =
    elim (propose_approval env s s' p meter amount destination r a b w e h) [
      | inl new ↦ recorded env p r a b w log (inl new)
      | inr old ↦ recorded env p r a b w log (inr (approval-Consented log s a b w run old))
    ]
approval-Consented _ s' a b w (approved {log} {s} env p r approver run e) h =
    elim (approve_approval env s s' p r approver a b w e h) [
      | inl new ↦ recorded env p r a b w log (inl new)
      | inr old ↦ recorded env p r a b w log (inr (approval-Consented log s a b w run old))
    ]
approval-Consented _ _ a b w (elsewhere {log} {s} meters pools transfers run) h =
    approval-Consented log s a b w run h
