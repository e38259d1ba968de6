-- ===== src/Common/Scaling.antt =====
-- contracts/common/src/scaling.rs: resource deposits into token amounts.
mod Tests
use native.Mathlib.Nat.{div-le_self, div-mul-le_self, lt-div-mul-add}
use utility_contracts.Base.{
  ℕ, ◌+◌, ◌*◌, ◌/◌, ◌^◌, ◌≤◌, ◌<◌, ◌≡◌, Bool, Option, none, some, ◌&&◌, arith, ltb, leb, ◌==◌,
  if◌then◌else◌, Result, ok, err, true,
}
use utility_contracts.Common.WeightedRate.{mul_div_floor}
use utility_contracts.Common.WeightedRate.Rounding.{mul_div_floor_lem}

abbrev pub token_scale_factor : ℕ
token_scale_factor = 1_000_000_000_000_000_000

abbrev pub min_asset_precision : ℕ
min_asset_precision = 1

abbrev pub max_asset_precision : ℕ
max_asset_precision = 1_000_000_000_000

-- `u128::MAX / TOKEN_SCALE_FACTOR`.
abbrev pub max_safe_deposit : ℕ
max_safe_deposit = 340_282_366_920_938_463_463_374_607_431_768_211_455 / token_scale_factor

pub data ScaleError : Type 0 where
  invalid_precision overflow : ScaleError

pub is_valid_precision : ℕ → Bool
is_valid_precision precision =
    leb min_asset_precision precision && leb precision max_asset_precision

pub is_safe_deposit : ℕ → Bool
is_safe_deposit deposit_amount = leb deposit_amount max_safe_deposit

abbrev ok_or_overflow : Option ℕ → Result ScaleError ℕ
ok_or_overflow none = err overflow
ok_or_overflow (some tokens) = ok tokens

pub reconcile_tokens : (deposit_amount asset_precision : ℕ) → Result ScaleError ℕ
unfolding is_valid_precision
reconcile_tokens deposit_amount asset_precision =
    if is_valid_precision asset_precision
    then ok_or_overflow (mul_div_floor deposit_amount token_scale_factor asset_precision)
    else err invalid_precision

pub scale : (amount scale_factor precision : ℕ) → Result ScaleError ℕ
scale amount scale_factor precision =
    if precision == 0
    then err invalid_precision
    else ok_or_overflow (mul_div_floor amount scale_factor precision)

-- For `u128` arguments, a reconciliation fails with `InvalidPrecision` where the precision is out
-- of range, with `Overflow` where the tokens do not fit a `u128`, and otherwise mints the exact
-- floor of deposit * 10^18 / precision.
pub reconcile_tokens_lem :
    (deposit precision : ℕ)
    → deposit < 2 ^ 128
    → precision < 2 ^ 128
    → let tokens = deposit * token_scale_factor / precision in
      reconcile_tokens deposit precision ≡ (
        if leb 1 precision && leb precision max_asset_precision
        then if ltb tokens (2 ^ 128) then ok tokens else err overflow
        else err invalid_precision)
unfolding reconcile_tokens
reconcile_tokens_lem deposit precision hd hp =
    rw (mul_div_floor_lem deposit token_scale_factor precision hd (omega arith) hp) (ground arith)

-- For `u128` arguments, the tokens of a reconciliation that succeeds never exceed what the deposit
-- backs, fall short of it by less than one base unit, and fit a `u128`.
pub reconcile_tokens_backed :
    (deposit precision : ℕ) {tokens : ℕ}
    → deposit < 2 ^ 128
    → precision < 2 ^ 128
    → reconcile_tokens deposit precision ≡ ok tokens
    → (tokens * precision ≤ deposit * token_scale_factor)
      × (deposit * token_scale_factor < tokens * precision + precision)
      × (tokens < 2 ^ 128)
reconcile_tokens_backed deposit precision {tokens} hd hp e =
    let minted = deposit * token_scale_factor in
    let exact = rw (reconcile_tokens_lem deposit precision hd hp) at e in
    let hp : 0 < precision = ground arith in
    let eq : minted / precision ≡ tokens = ground arith in
    let below : minted / precision * precision ≤ minted = div-mul-le_self minted precision in
    let above : minted < minted / precision * precision + precision = lt-div-mul-add hp in
    (rw eq at below, rw eq at above, ground arith)

-- A deposit that `is_safe_deposit` accepts reconciles at every precision that `is_valid_precision`
-- accepts, to the exact floor.
pub reconcile_tokens_safe :
    (deposit precision : ℕ)
    → is_safe_deposit deposit ≡ true
    → is_valid_precision precision ≡ true
    → reconcile_tokens deposit precision ≡ ok (deposit * token_scale_factor / precision)
unfolding is_safe_deposit is_valid_precision
reconcile_tokens_safe deposit precision hs hv =
    rw (reconcile_tokens_lem deposit precision (ground arith) (ground arith))
      (ground (arith, div-le_self (deposit * token_scale_factor) precision))
