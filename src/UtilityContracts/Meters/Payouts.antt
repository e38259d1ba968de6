-- ===== src/UtilityContracts/Meters/Payouts.antt =====
-- What a claim and a usage report pay: tax, carbon credits, the protocol's fee and the maintenance fund.
use utility_contracts.Base.{
  ℕ, ℤ, pos, Bool, true, false, not, ◌||◌, ◌&&◌, Option, none, some, put, unwrap_or, ltb_ℤ, leb_ℤ,
  if◌then◌else◌, saturating_add, saturating_sub, wrapping_mul, ◌/ℤ◌, ◌==◌, ◌%◌, panic_if, ◌>>=◌,
  ◌>>◌, gets, modify, pure, or_panic, when,
}
use utility_contracts.UtilityContracts.Errors.{call_failed, arithmetic}
use utility_contracts.UtilityContracts.Meters.Types.{
  Meter, Transfer, State, Env, Action, publish, call_transfer, tax_receipt, credits_issued,
  ttl_extended,
}
use utility_contracts.UtilityContracts.Meters.Helpers.{
  default_tax_rate_bps, maintenance_fund_percent_bps, calculate_tax_split, carbon_credit_amount,
  min_ℤ,
}

abbrev pub from_contract : Env → Meter → (to : ℕ) → ℤ → Transfer
from_contract env meter to amount = record {
  token = meter.token;
  from = env.current_contract;
  to = to;
  amount = amount;
}

unfoldable pub allocate_to_maintenance_fund : (meter_id : ℕ) → (amount : ℤ) → State → State
allocate_to_maintenance_fund meter_id amount s =
    let maintenance_amount = wrapping_mul amount maintenance_fund_percent_bps /ℤ pos 10_000 in
    let current_fund = unwrap_or (pos 0) (s.maintenance_fund meter_id) in
    record s {
      maintenance_fund =
          if ltb_ℤ (pos 0) maintenance_amount
          then put meter_id (saturating_add current_fund maintenance_amount) s.maintenance_fund
          else s.maintenance_fund;
    }

abbrev pub auto_extend_ledger_threshold : ℕ
auto_extend_ledger_threshold = 100

abbrev ledger_lifetime_extension : ℕ
ledger_lifetime_extension = 10_000

-- A call of `claim` or `deduct_units` in some ledgers pays for the extension of the storage's time to live from
-- the fund of its meter.
abbrev pub is_extended : Env → (threshold : ℕ) → (maintenance_balance : ℤ) → Bool
is_extended env threshold maintenance_balance =
    (env.ledger_sequence % threshold) == 0 && leb_ℤ (pos 1_000_000) maintenance_balance

unfoldable pub auto_extend_ttl_if_needed : Env → (meter_id : ℕ) → Action (Unit {0})
auto_extend_ttl_if_needed env meter_id = do
  threshold ← gets (λ s. unwrap_or auto_extend_ledger_threshold s.auto_extend_threshold)
  panic_if (threshold == 0) arithmetic
  maintenance_balance ← gets (λ s. unwrap_or (pos 0) (s.maintenance_fund meter_id))
  when (is_extended env threshold maintenance_balance) (
      modify (λ s.
        publish (ttl_extended meter_id env.ledger_sequence ledger_lifetime_extension) (record s {
          maintenance_fund =
              put meter_id (saturating_sub maintenance_balance (pos 1_000_000)) s.maintenance_fund;
        })))

abbrev pub get_tax_rate_or_default : State → ℤ
get_tax_rate_or_default s = unwrap_or default_tax_rate_bps s.tax_rate_bps

-- The transfer of a tax to the vault, where there is one.
abbrev pub to_vault :
    Env → (meter_id : ℕ) → Meter → (total tax net rate : ℤ) → Option ℕ → Action (Unit {0})
to_vault env meter_id meter total tax net rate none = pure tt
to_vault env meter_id meter total tax net rate (some vault) = do
  call_transfer env (from_contract env meter vault tax)
  modify (publish (tax_receipt meter_id total tax net rate vault env.now))

-- It returns what is left after the tax.
unfoldable pub pay_tax : Env → (meter_id : ℕ) → Meter → (amount : ℤ) → Action ℤ
pay_tax env meter_id meter amount = do
  rate ← gets get_tax_rate_or_default
  vault ← gets (λ s. s.government_vault)
  let split = calculate_tax_split amount rate
  when (ltb_ℤ (pos 0) (split.0)) (to_vault env meter_id meter amount (split.0) (split.1) rate vault)
  pure (split.1)

abbrev pub is_green_source_verified :
    Env → (provider meter_id timestamp : ℕ) → (oracle : Option ℕ) → Action Bool
is_green_source_verified env provider meter_id timestamp none = pure false
is_green_source_verified env provider meter_id timestamp (some oracle) =
    or_panic (env.verify_green_source oracle provider meter_id timestamp) call_failed

abbrev pub credit : Meter → (token : ℕ) → ℤ → Transfer
credit meter token amount = record {
  token = token;
  from = meter.provider;
  to = meter.user;
  amount = amount;
}

abbrev pub credits_of : Meter → (claimable : ℤ) → ℤ
credits_of meter claimable =
    carbon_credit_amount claimable meter.usage_data.renewable_percentage
      meter.carbon_credit_drip_rate_bps

-- The guards, one after the other.
abbrev pub send_credits : Env → (meter_id : ℕ) → Meter → (claimable : ℤ) → (token : ℕ) → Action Bool
send_credits env meter_id meter claimable token = do
  let amount = credits_of meter claimable
  oracle ← gets (λ s. s.oracle)
  verified ← is_green_source_verified env meter.provider meter_id env.now oracle
  let issued = verified && ltb_ℤ (pos 0) amount
  when issued (do
    call_transfer env (credit meter token amount)
    modify (publish (credits_issued meter_id (credit meter token amount) env.now)))
  pure issued

abbrev eligible : Meter → Bool
eligible meter = not (
    leb_ℤ meter.carbon_credit_drip_rate_bps (pos 0)
    || leb_ℤ meter.usage_data.renewable_percentage (pos 0))

abbrev pub credits_in :
    Env → (meter_id : ℕ) → Meter → (claimable : ℤ) → (eligible : Bool) → Option ℕ → Action Bool
credits_in env meter_id meter claimable true (some token) =
    send_credits env meter_id meter claimable token
credits_in env meter_id meter claimable false token = pure false
credits_in env meter_id meter claimable true none = pure false

unfoldable pub issue_carbon_credits : Env → (meter_id : ℕ) → Meter → (claimable : ℤ) → Action Bool
issue_carbon_credits env meter_id meter claimable =
    credits_in env meter_id meter claimable (eligible meter) meter.carbon_credit_token

-- The share of the protocol in basis points, less the discount of a meter that earned credits.
unfoldable pub effective_fee_bps : Meter → (credit_discount_active : Bool) → (fee_bps : ℤ) → ℤ
effective_fee_bps meter credit_discount_active fee_bps =
    saturating_sub fee_bps
      (if credit_discount_active then min_ℤ meter.green_energy_discount_bps fee_bps else pos 0)

abbrev pub fee_to :
    Env
    → Meter
    → (minus : ℤ → ℤ → ℤ) → (credit_discount_active : Bool) → (payout : ℤ) → (wallet : Option ℕ)
    → Action ℤ
fee_to env meter minus credit_discount_active payout none = pure payout
fee_to env meter minus credit_discount_active payout (some wallet) = do
  fee_bps ← gets (λ s. unwrap_or (pos 0) s.protocol_fee_bps)
  let fee =
      wrapping_mul payout (effective_fee_bps meter credit_discount_active fee_bps) /ℤ pos 10_000
  when (ltb_ℤ (pos 0) fee) (call_transfer env (from_contract env meter wallet fee))
  pure (minus payout fee)

-- It returns what is left after the fee. `claim` and `deduct_units` subtract differently.
unfoldable pub pay_fee :
    Env → Meter → (minus : ℤ → ℤ → ℤ) → (credit_discount_active : Bool) → (payout : ℤ) → Action ℤ
pay_fee env meter minus credit_discount_active payout = do
  fee_to env meter minus credit_discount_active payout (← gets (λ s. s.maintenance_wallet))
