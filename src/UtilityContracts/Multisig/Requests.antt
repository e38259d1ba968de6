-- ===== src/UtilityContracts/Multisig/Requests.antt =====
-- The life of a request until it is executed: proposal, approval, revocation and cancellation. What the
-- proposal asks of each wallet by `try_invoke_contract` decides nothing and is left out.
use utility_contracts.Base.{
  ℕ, ◌+◌, ◌-◌, ◌%◌, ◌^◌, ℤ, Bool, true, false, not, Option, none, some, List, [], ◌∷◌, put,
  unwrap_or, ltb, ◌==◌, ltb_ℤ, if◌then◌else◌, ◌&&◌, ◌>>=◌, ◌>>◌, gets, modify, pure, panic_if,
  or_panic,
}
use utility_contracts.UtilityContracts.Errors.{
  multi_sig_not_configured, meter_not_found, amount_below_multi_sig_threshold,
  not_authorized_finance_wallet, arithmetic, withdrawal_request_not_found,
  withdrawal_already_executed, withdrawal_already_cancelled, withdrawal_request_expired,
  already_approved_withdrawal, not_approved_by_wallet,
}
use utility_contracts.UtilityContracts.Multisig.Types.{
  WithdrawalRequest, State, Env, Action, require_auth, publish, store_request, get_meter_or_panic,
  msig_prop, msig_appr, msig_rvke, msig_canc,
}
use utility_contracts.UtilityContracts.Multisig.Config.{config_of, contains}

-- Seven days.
abbrev pub withdrawal_request_expiry : ℕ
withdrawal_request_expiry = 604_800

abbrev pub request_of : (provider request_id : ℕ) → Action WithdrawalRequest
request_of provider request_id = do
  or_panic (← gets (λ s. s.request provider request_id)) withdrawal_request_not_found

abbrev pub check_open : WithdrawalRequest → Action (Unit {0})
check_open request = do
  panic_if request.is_executed withdrawal_already_executed
  panic_if request.is_cancelled withdrawal_already_cancelled

abbrev pub set_approval : (provider request_id wallet : ℕ) → Bool → State → State
set_approval provider request_id wallet b s = record s {
  approval =
      λ p r w. if p == provider && (r == request_id && w == wallet) then b else s.approval p r w;
}

abbrev pub first_wallet : List ℕ → Option ℕ
first_wallet [] = none
first_wallet (wallet ∷ rest) = some wallet

-- The loop that looks for the proposer ends with the first wallet, which has to authorize the call.
unfoldable pub propose_multisig_withdrawal :
    Env → (provider meter_id : ℕ) → ℤ → (destination : ℕ) → Action ℕ
propose_multisig_withdrawal env provider meter_id amount_usd_cents destination = do
  config ← config_of provider
  panic_if (not config.is_active) multi_sig_not_configured
  meter ← get_meter_or_panic meter_id
  panic_if (not (meter.provider == provider)) meter_not_found
  panic_if (ltb_ℤ amount_usd_cents config.threshold_amount) amount_below_multi_sig_threshold
  wallet ← or_panic (first_wallet config.finance_wallets) arithmetic
  require_auth env wallet
  request_id ← gets (λ s. unwrap_or 0 (s.request_count provider))
  modify (
      store_request provider request_id (record {
        request_id = request_id;
        provider = provider;
        meter_id = meter_id;
        amount_usd_cents = amount_usd_cents;
        destination = destination;
        proposer = wallet;
        created_at = env.now;
        expires_at = (env.now + withdrawal_request_expiry) % 2 ^ 64;
        approval_count = 1;
        is_executed = false;
        is_cancelled = false;
      }))
  modify (set_approval provider request_id wallet true)
  modify
      (λ s. record s { request_count = put provider ((request_id + 1) % 2 ^ 64) s.request_count })
  modify (publish (msig_prop provider request_id amount_usd_cents destination wallet))
  pure request_id

unfoldable pub approve_multisig_withdrawal :
    Env → (provider request_id approver : ℕ) → Action (Unit {0})
unfolding contains
approve_multisig_withdrawal env provider request_id approver = do
  config ← config_of provider
  request ← request_of provider request_id
  check_open request
  panic_if (ltb request.expires_at env.now) withdrawal_request_expired
  panic_if (not (contains config.finance_wallets approver)) not_authorized_finance_wallet
  require_auth env approver
  approved ← gets (λ s. s.approval provider request_id approver)
  panic_if approved already_approved_withdrawal
  modify (set_approval provider request_id approver true)
  let counted : WithdrawalRequest = record request {
    approval_count = (request.approval_count + 1) % 2 ^ 32;
  }
  modify (store_request provider request_id counted)
  modify (publish (msig_appr provider request_id approver counted.approval_count))

-- The wallet that revokes is the first one, as in a proposal.
unfoldable pub revoke_multisig_approval : Env → (provider request_id : ℕ) → Action (Unit {0})
revoke_multisig_approval env provider request_id = do
  config ← config_of provider
  request ← request_of provider request_id
  check_open request
  revoker ← or_panic (first_wallet config.finance_wallets) not_authorized_finance_wallet
  require_auth env revoker
  approved ← gets (λ s. s.approval provider request_id revoker)
  panic_if (not approved) not_approved_by_wallet
  modify (set_approval provider request_id revoker false)
  let counted : WithdrawalRequest = record request { approval_count = request.approval_count - 1 }
  modify (store_request provider request_id counted)
  modify (publish (msig_rvke provider request_id revoker counted.approval_count))

unfoldable pub cancel_multisig_withdrawal : Env → (provider request_id : ℕ) → Action (Unit {0})
cancel_multisig_withdrawal env provider request_id = do
  request ← request_of provider request_id
  check_open request
  require_auth env provider
  modify (store_request provider request_id (record request { is_cancelled = true }))
  modify (publish (msig_canc provider request_id))

pub get_withdrawal_request_count : (provider : ℕ) → State → ℕ
get_withdrawal_request_count provider s = unwrap_or 0 (s.request_count provider)
