-- ===== src/Settlement/Entry.antt =====
-- The entry points of lib.rs: `settle`, `calculate_fee` and `finalize_settlement`.
pub mod Locking
pub mod Lockstep
pub mod Payment
mod Tests
use utility_contracts.Base.{
  ℕ, ℤ, pos, Option, ltb, ltb_ℤ, leb_ℤ, if◌then◌else◌, saturating_sub, ◌>>=◌, ◌>>◌, pure, panic_if,
}
use utility_contracts.Settlement.Host.{
  Outside, Action, Env, contract, invalid_fee_rate, require_auth, call_transfer, acquire, release,
  guarded,
}
use utility_contracts.Settlement.Fees.{compute_fee, collect_fee, max_fee_rate_bps}
use utility_contracts.Settlement.Rates.{resolve_rate, convert_to_settlement_currency}

pub record SettlementArgs : Type 0 where
  pub token_address : ℕ
  pub volume : ℤ
  pub recipient : ℕ
  pub min_expected_amount : Option ℤ

pub record SettlementResult : Type 0 where
  pub net_amount : ℤ
  pub fee_amount : ℤ
  pub rate_used : ℤ

pub calculate_fee : (amount : ℤ) (rate_bps : ℕ) → ℤ
unfolding compute_fee
calculate_fee amount rate_bps = compute_fee amount rate_bps

module _ {W : Type 0} (out : Outside W) (env : Env) where
  -- The net transfer, which is left out where nothing remains.
  abbrev pay_net : (token payer payee : ℕ) → ℤ → Action W (Unit {0})
  pay_net token payer payee net_amount =
      if ltb_ℤ (pos 0) net_amount then call_transfer out token payer payee net_amount else pure tt

  -- The part of `settle` after the checks: fee first, then the rest to the payee.
  abbrev pay : (token payer payee fee_collector : ℕ) → ℤ → (rate_bps : ℕ) → Action W (ℤ × ℤ)
  pay token payer payee fee_collector amount rate_bps = do
    fee ← collect_fee out token payer fee_collector amount rate_bps
    let net_amount = saturating_sub amount fee
    pay_net token payer payee net_amount
    pure (net_amount, fee)

  abbrev settle_body : (token payer payee fee_collector : ℕ) → ℤ → (rate_bps : ℕ) → Action W (ℤ × ℤ)
  settle_body token payer payee fee_collector amount rate_bps = do
    panic_if (ltb max_fee_rate_bps rate_bps) (contract invalid_fee_rate)
    if leb_ℤ amount (pos 0)
        then pure (pos 0, pos 0)
        else (require_auth env payer >> pay token payer payee fee_collector amount rate_bps)

  pub settle : (token payer payee fee_collector : ℕ) → ℤ → (rate_bps : ℕ) → Action W (ℤ × ℤ)
  settle token payer payee fee_collector amount rate_bps =
      guarded (settle_body token payer payee fee_collector amount rate_bps)

  abbrev result : ℤ → ℤ → ℤ → SettlementResult
  result net fee rate = record { net_amount = net; fee_amount = fee; rate_used = rate }

  abbrev convert_and_pay :
      (oracle payer fee_collector : ℕ) → SettlementArgs → (rate_bps : ℕ) → Action W SettlementResult
  convert_and_pay oracle payer fee_collector args rate_bps = do
    require_auth env payer
    rate ← resolve_rate out env oracle
    settlement_amount ← convert_to_settlement_currency rate args.volume args.min_expected_amount
    paid ← pay args.token_address payer args.recipient fee_collector settlement_amount rate_bps
    pure (result paid.0 paid.1 rate)

  abbrev finalize_body :
      (oracle payer fee_collector : ℕ) → SettlementArgs → (rate_bps : ℕ) → Action W SettlementResult
  finalize_body oracle payer fee_collector args rate_bps = do
    panic_if (ltb max_fee_rate_bps rate_bps) (contract invalid_fee_rate)
    if leb_ℤ args.volume (pos 0)
        then pure (result (pos 0) (pos 0) (pos 0))
        else convert_and_pay oracle payer fee_collector args rate_bps

  pub finalize_settlement :
      (oracle payer fee_collector : ℕ) → SettlementArgs → (rate_bps : ℕ) → Action W SettlementResult
  finalize_settlement oracle payer fee_collector args rate_bps =
      guarded (finalize_body oracle payer fee_collector args rate_bps)
