-- ===== src/UtilityContracts/Meters/Funds.antt =====
-- Payments into a meter and the provider's withdrawals from it, lib.rs.
use utility_contracts.Base.{
  ℕ, ℤ, pos, negsuc, suc, Bool, false, not, ◌&&◌, ◌||◌, Option, none, some, unwrap_or, ltb_ℤ, leb_ℤ,
  ◌==◌, if◌then◌else◌, saturating_add, saturating_sub, wrap, put₂, ◌>>=◌, ◌>>◌, gets, modify,
  panic_if, or_panic, when,
}
use utility_contracts.UtilityContracts.Errors.{
  unauthorized_contributor, invalid_token_amount, call_failed,
}
use utility_contracts.UtilityContracts.Meters.Types.{
  BillingType, pre_paid, post_paid, Meter, State, Env, Action, require_auth, get_meter_or_panic,
  publish, call_transfer, active, tok_up,
}
use utility_contracts.UtilityContracts.Meters.Helpers.{
  provider_meter_value, refresh_activity, available_earnings, deduct, min_ℤ, max_ℤ,
}
use utility_contracts.UtilityContracts.Meters.Payouts.{from_contract}
use utility_contracts.UtilityContracts.Meters.Claims.{store_tracked}

abbrev pub is_contributor : (meter_id contributor : ℕ) → Meter → State → Bool
is_contributor meter_id contributor meter s =
    contributor == meter.user || unwrap_or false (s.authorized_contributor meter_id contributor)

abbrev asked :
    (convert : (oracle : ℕ) → ℤ → Option ℤ) → (amount : ℤ) → (oracle : Option ℕ) → Option ℤ
asked convert amount none = some amount
asked convert amount (some oracle) = convert oracle amount

-- The oracle's answer, or the amount itself without an oracle.
unfoldable pub convert_xlm_to_usd_if_needed : Env → (amount : ℤ) → Action ℤ
convert_xlm_to_usd_if_needed env amount = do
  oracle ← gets (λ s. s.oracle)
  or_panic (asked env.to_usd_cents amount oracle) call_failed

unfoldable pub convert_usd_to_xlm_if_needed : Env → (usd_cents : ℤ) → Action ℤ
convert_usd_to_xlm_if_needed env usd_cents = do
  oracle ← gets (λ s. s.oracle)
  or_panic (asked env.to_xlm usd_cents oracle) call_failed

-- `abs` of a release build.
abbrev abs : ℤ → ℤ
abs (pos n) = pos n
abs (negsuc n) = wrap (pos (suc n))

-- A payment pays debt off first.
unfoldable pub credited : BillingType → ℤ → Meter → Meter
credited pre_paid amount meter =
    let debt_settlement = min_ℤ amount (abs meter.balance) in
    record meter {
      balance =
          if ltb_ℤ meter.balance (pos 0)
          then saturating_add (saturating_add meter.balance debt_settlement)
              (saturating_sub amount debt_settlement)
          else saturating_add meter.balance amount;
    }
credited post_paid amount meter =
    let settlement = min_ℤ amount (max_ℤ meter.debt (pos 0)) in
    record meter {
      debt = saturating_sub meter.debt settlement;
      collateral_limit = saturating_add meter.collateral_limit (saturating_sub amount settlement);
    }

-- A meter that becomes active starts at now.
abbrev pub woken : (now : ℕ) → (was_active : Bool) → Meter → Meter
woken now was_active meter = record meter {
  last_update = if not was_active && meter.is_active then now else meter.last_update;
}

abbrev pub topped_up : (now : ℕ) → ℤ → Meter → Meter
topped_up now amount meter =
    woken now meter.is_active (refresh_activity (credited meter.billing_type amount meter))

abbrev contributed : (meter_id contributor : ℕ) → (amount : ℤ) → State → State
contributed meter_id contributor amount s = record s {
  contributor =
      put₂ meter_id contributor
        (saturating_add (unwrap_or (pos 0) (s.contributor meter_id contributor)) amount)
        s.contributor;
}

unfoldable pub top_up : Env → (meter_id : ℕ) → (amount : ℤ) → (contributor : ℕ) → Action (Unit {0})
top_up env meter_id amount contributor = do
  meter ← get_meter_or_panic meter_id
  allowed ← gets (is_contributor meter_id contributor meter)
  panic_if (not allowed) unauthorized_contributor
  require_auth env contributor
  call_transfer env (record {
    token = meter.token;
    from = contributor;
    to = env.current_contract;
    amount = amount;
  })
  modify (contributed meter_id contributor amount)
  converted_amount ← convert_xlm_to_usd_if_needed env amount
  panic_if (leb_ℤ converted_amount (pos 0)) invalid_token_amount
  let charged = topped_up env.now converted_amount meter
  when (not meter.is_active && charged.is_active) (modify (publish (active meter_id env.now)))
  modify (store_tracked meter_id (provider_meter_value meter) charged)
  modify (publish (tok_up meter_id amount converted_amount))

abbrev pub withdrawn_from : (now : ℕ) → ℤ → Meter → Meter
withdrawn_from now amount meter =
    woken now meter.is_active (refresh_activity (deduct meter.billing_type amount meter))

unfoldable pub withdraw_earnings : Env → (meter_id : ℕ) → (amount_usd_cents : ℤ) → Action (Unit {0})
withdraw_earnings env meter_id amount_usd_cents = do
  meter ← get_meter_or_panic meter_id
  require_auth env meter.provider
  panic_if (leb_ℤ amount_usd_cents (pos 0)) invalid_token_amount
  panic_if (ltb_ℤ (available_earnings meter.billing_type meter) amount_usd_cents)
      invalid_token_amount
  withdrawal_amount ← convert_usd_to_xlm_if_needed env amount_usd_cents
  call_transfer env (from_contract env meter meter.provider withdrawal_amount)
  modify (
      store_tracked meter_id (provider_meter_value meter)
        (withdrawn_from env.now amount_usd_cents meter))
