-- ===== src/UtilityContracts/Multisig/Execution.antt =====
-- The execution of an approved withdrawal, with the helpers on meters that it calls.
use utility_contracts.Base.{
  ℕ, ℤ, Bool, true, not, ◌&&◌, Option, none, some, List, [], ◌∷◌, put, ltb, ltb_ℤ, if◌then◌else◌,
  ◌==◌, ◌>>=◌, ◌>>◌, gets, modify, pure, panic_if, or_panic, Result, ok, err,
}
use utility_contracts.UtilityContracts.Errors.{
  ContractError, meter_not_found, invalid_token_amount, insufficient_approvals,
  withdrawal_request_expired, call_failed, price_conversion_failed,
}
use utility_contracts.UtilityContracts.Multisig.Types.{
  MultiSigConfig, WithdrawalRequest, State, Env, Action, publish, store_request, get_meter_or_panic,
  msig_exec,
}
use utility_contracts.UtilityContracts.Meters.Types.{Meter, Transfer}
use utility_contracts.UtilityContracts.Meters.Helpers.{
  provider_meter_value, refresh_activity, available_earnings, deduct, update_provider_total_pool,
}
use utility_contracts.UtilityContracts.Multisig.Config.{
  config_of, length, unique, validate_multisig_config,
}
use utility_contracts.UtilityContracts.Multisig.Requests.{request_of, check_open}

-- The signers with an approval.
unfoldable pub approvals : (approved : ℕ → Bool) → List ℕ → List ℕ
approvals f [] = []
approvals f (w ∷ ws) = let rest = approvals f ws in if f w then w ∷ rest else rest

-- The loop counts them.
abbrev pub validate_multisig_approvals : (provider request_id : ℕ) → MultiSigConfig → Action ℕ
validate_multisig_approvals provider request_id config = do
  validate_multisig_config config.finance_wallets config.required_signatures
  approval_count ←
      gets (λ s. length (approvals (s.approval provider request_id) config.finance_wallets))
  panic_if (ltb approval_count config.required_signatures) insufficient_approvals
  pure approval_count

abbrev pub convert_usd_to_token_if_needed : ℤ → (destination_token : ℕ) → Result ContractError ℤ
convert_usd_to_token_if_needed usd_cents destination_token = ok usd_cents

abbrev converted : Result ContractError ℤ → Option ℤ
converted (ok amount) = some amount
converted (err e) = none

-- A meter that the withdrawal makes active starts at now.
abbrev woken : Env → (was_active : Bool) → Meter → Meter
woken env was_active meter =
    if not was_active && meter.is_active then record meter { last_update = env.now } else meter

abbrev pub charged_meter : Env → ℤ → Meter → Meter
charged_meter env amount meter =
    woken env meter.is_active (refresh_activity (deduct meter.billing_type amount meter))

abbrev pub payment : Env → WithdrawalRequest → Meter → ℤ → Transfer
payment env request meter amount = record {
  token = meter.token;
  from = env.current_contract;
  to = request.destination;
  amount = amount;
}

abbrev pub call_transfer : Env → Transfer → Action (Unit {0})
call_transfer env t = do
  accepted ← gets (λ s. env.accepts_transfer s.transfers t)
  panic_if (not accepted) call_failed
  modify (λ s. record s { transfers = t ∷ s.transfers })

-- What is written once the transfer has returned.
unfoldable pub record_payout :
    Env → (provider request_id : ℕ) → WithdrawalRequest → (verified : ℕ) → Meter → ℤ → State → State
record_payout env provider request_id request verified meter amount s =
    let charged = charged_meter env request.amount_usd_cents meter in
    publish (msig_exec provider request_id request.amount_usd_cents request.destination amount) (
      store_request provider request_id
        (record request { approval_count = verified; is_executed = true })
        (record s {
          meter = put request.meter_id charged s.meter;
          provider_total_pool =
              update_provider_total_pool charged.provider (provider_meter_value meter)
                (provider_meter_value charged) s.provider_total_pool;
        }))

unfoldable pub execute_multisig_withdrawal : Env → (provider request_id : ℕ) → Action (Unit {0})
unfolding length unique approvals
execute_multisig_withdrawal env provider request_id = do
  config ← config_of provider
  request ← request_of provider request_id
  check_open request
  panic_if (ltb request.expires_at env.now) withdrawal_request_expired
  verified ← validate_multisig_approvals provider request_id config
  meter ← get_meter_or_panic request.meter_id
  panic_if (not (meter.provider == provider)) meter_not_found
  panic_if (ltb_ℤ (available_earnings meter.billing_type meter) request.amount_usd_cents)
      invalid_token_amount
  amount ←
      or_panic (converted (convert_usd_to_token_if_needed request.amount_usd_cents meter.token))
        price_conversion_failed
  call_transfer env (payment env request meter amount)
  modify (record_payout env provider request_id request verified meter amount)
