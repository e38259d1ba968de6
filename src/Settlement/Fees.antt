-- ===== src/Settlement/Fees.antt =====
-- fees.rs and token_utils.rs: the protocol fee, its rounding and its collection.
use native.Mathlib.Nat.{mul-le-mul_left, mul-le-mul_right}
use utility_contracts.Base.{
  ℕ, ◌+◌, ◌*◌, ◌/◌, ◌≤◌, ◌<◌, ◌≡◌, ℤ, pos, ◌==◌, if◌then◌else◌, Bool, true, leb_ℤ, eqb_ℤ,
  wrapping_add, wrapping_mul, wrapping_sub, ◌/ℤ◌, wrapping_mul_pos, wrapping_add_pos, div_pos, ◌-ℤ◌,
  pure, ◌>>◌, arith, ltb_ℤ, ◌≤ℤ◌, i128_half,
}
use utility_contracts.Settlement.Host.{Outside, Action, call_transfer}

abbrev pub max_fee_rate_bps : ℕ
max_fee_rate_bps = 1000

abbrev pub bps_denominator : ℕ
bps_denominator = 10000

unfoldable pub compute_fee : (amount : ℤ) (rate_bps : ℕ) → ℤ
compute_fee amount rate_bps =
    wrapping_add (wrapping_mul amount (pos rate_bps)) (pos 5000) /ℤ pos bps_denominator

-- `i128::abs` of a release build.
abbrev abs : ℤ → ℤ
abs a = if ltb_ℤ a (pos 0) then wrapping_sub (pos 0) a else a

pub verify_fee_invariant : (amount : ℤ) (rate_bps : ℕ) (fee : ℤ) → Bool
verify_fee_invariant amount rate_bps fee =
    let scaled_fee = wrapping_mul fee (pos bps_denominator) in
    let exact = wrapping_mul amount (pos rate_bps) in
    leb_ℤ (abs (wrapping_sub scaled_fee exact)) (pos 5000)

unfoldable pub collect_fee :
    {W : Type 0} → Outside W → (token payer fee_collector : ℕ) → ℤ → (rate_bps : ℕ) → Action W ℤ
collect_fee out token payer fee_collector amount rate_bps =
    if rate_bps == 0
    then pure (pos 0)
    else let fee = compute_fee amount rate_bps in
      if eqb_ℤ fee (pos 0)
      then pure (pos 0)
      else do call_transfer out token payer fee_collector fee; pure fee

-- The products of the fee stay inside an `i128`.
abbrev pub Fits : ℕ → ℕ → Type 0
Fits amount rate_bps = amount * rate_bps + 5000 < i128_half

-- The fee is amount × rate / 10000 rounded half up, as long as the product fits an `i128`.
pub compute_fee_lem :
    (amount rate_bps : ℕ)
    → Fits amount rate_bps
    → compute_fee (pos amount) rate_bps ≡ pos ((amount * rate_bps + 5000) / 10000)
unfolding compute_fee
compute_fee_lem amount rate_bps h =
    let product = wrapping_mul_pos amount rate_bps (omega arith) in
    let sum = wrapping_add_pos (amount * rate_bps) 5000 h in rw (product, sum, div_pos _ _)

abs_difference :
    (scaled exact : ℕ)
    → scaled ≤ exact + 5000
    → exact ≤ scaled + 5000
    → exact + 5000 < i128_half
    → leb_ℤ (abs (wrapping_sub (pos scaled) (pos exact))) (pos 5000) ≡ true
unfolding wrapping_sub ◌-ℤ◌
abs_difference scaled exact h k fits = ground arith

-- For an amount whose product with the rate fits an `i128`, the fee is the product over 10000
-- rounded half up: scaled back it is at most 5000 above the product and at most 4999 below it, and
-- `verify_fee_invariant` accepts it.
pub compute_fee_rounding :
    (amount rate_bps : ℕ)
    → Fits amount rate_bps
    → let fee = compute_fee (pos amount) rate_bps in
      (fee ≡ pos ((amount * rate_bps + 5000) / 10000))
      × ((amount * rate_bps + 5000) / 10000 * 10000 ≤ amount * rate_bps + 5000)
      × (amount * rate_bps ≤ (amount * rate_bps + 5000) / 10000 * 10000 + 4999)
      × (verify_fee_invariant (pos amount) rate_bps fee ≡ true)
unfolding verify_fee_invariant
compute_fee_rounding amount rate_bps h =
    let exact : ℕ = amount * rate_bps in
    let fee : ℕ = (exact + 5000) / 10000 in
    let scaled = wrapping_mul_pos fee 10000 (omega arith) in
    let product = wrapping_mul_pos amount rate_bps (omega arith) in
    let fee_eq = compute_fee_lem amount rate_bps h in
    (
      fee_eq,
      omega arith,
      omega arith,
      rw (fee_eq, scaled, product)
          (abs_difference (fee * 10000) exact (omega arith) (omega arith) (omega arith)),
    )

-- At a rate of at most 10% the fee of a positive amount is below the amount.
pub compute_fee-lt :
    (amount rate_bps : ℕ)
    → 0 < amount
    → rate_bps ≤ max_fee_rate_bps
    → (amount * rate_bps + 5000) / 10000 < amount
compute_fee-lt amount rate_bps ha hr = omega (arith, mul-le-mul_left amount hr)

-- At one rate, and as long as the product fits an `i128`, a larger amount never pays a smaller fee.
pub compute_fee_mono :
    (small large rate_bps : ℕ)
    → Fits large rate_bps
    → small ≤ large
    → compute_fee (pos small) rate_bps ≤ℤ compute_fee (pos large) rate_bps
compute_fee_mono small large rate_bps h le =
    let scaled = mul-le-mul_right rate_bps le in
    rw (compute_fee_lem small rate_bps (omega (arith, scaled)), compute_fee_lem large rate_bps h)
      (omega (arith, scaled))
