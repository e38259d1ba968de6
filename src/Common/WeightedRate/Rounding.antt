-- ===== src/Common/WeightedRate/Rounding.antt =====
-- Dividing 256-bit values, rounding down and to the nearest, against division of numbers.
use native.Mathlib.Nat.{le-div_iff_mul-le, div-add-mod', mod-lt}
use utility_contracts.Base.{
  ℕ, ◌+◌, ◌-◌, ◌*◌, ◌/◌, ◌%◌, ◌^◌, ◌≤◌, ◌<◌, ◌≡◌, ◌↔◌, Bool, Bool-cases, inl, inr, true, false,
  none, some, arith, leb, ◌==◌, ◌||◌, if◌then◌else◌,
}
use utility_contracts.Common.WeightedRate.{
  mul_full, div_256_by_128, div_loop, round_half_up, mul_div_floor, mul_div_round, checked_u128,
  rounded,
}
use utility_contracts.Common.WeightedRate.Limbs.{value-mul_full}
use utility_contracts.Common.WeightedRate.Division.{div_loop_lem}

-- `n / d` rounded to the nearest number, a tie upwards.
abbrev pub half_up : ℕ → ℕ → ℕ
half_up n d = (2 * n + d) / (2 * d)

div_unique : (n d q r : ℕ) → q * d + r ≡ n → r < d → (n / d ≡ q) × (n % d ≡ r)
div_unique n d q r e h = (grind arith, grind arith)

-- The quotient fits a `u128` exactly when the high limb is below the divisor.
le-div_iff : (hi lo d : ℕ) → lo < 2 ^ 128 → 0 < d → (2 ^ 128 ≤ (hi * 2 ^ 128 + lo) / d) ↔ (d ≤ hi)
le-div_iff hi lo d hl hd =
    let n : ℕ = hi * 2 ^ 128 + lo in
    let (le_mul, le_div) = le-div_iff_mul-le {k = d} {x = 2 ^ 128} {y = n} hd in
    (λ h. omega (arith, le_mul h), λ h. le_div (omega arith))

-- The long division returns quotient and remainder, or `None` where the quotient does not fit.
pub div_256_by_128_lem :
    (hi lo d : ℕ)
    → hi < 2 ^ 128
    → lo < 2 ^ 128
    → d < 2 ^ 128
    → let n = hi * 2 ^ 128 + lo in
      div_256_by_128 hi lo d
      ≡ (if d == 0 || leb (2 ^ 128) (n / d) then none else some (n / d, n % d))
unfolding div_256_by_128
div_256_by_128_lem hi lo d hh hl hd =
    let n : ℕ = hi * 2 ^ 128 + lo in
    elim (Bool-cases (d == 0 || leb d hi)) [
      | inl e ↦ rw (e, refused e)
      | inr e ↦
          let hi-lt : hi < d = ground arith in
          let start : 0 * d + hi ≡ hi * 1 + lo / 2 ^ 128 = omega arith in
          let (exact, r-lt, fits) = div_loop_lem 128 lo d hi 1 hi 0 hd hi-lt (omega arith) start in
          let q : ℕ = (div_loop 128 lo d hi 0).0 in
          let r : ℕ = (div_loop 128 lo d hi 0).1 in
          let (quot, rem) = div_unique n d q r (omega (arith, exact)) r-lt in
          rw (e, accepted e, quot, rem)
    ]
  where
    test : Bool
    test = d == 0 || leb (2 ^ 128) ((hi * 2 ^ 128 + lo) / d)

    refused : (d == 0 || leb d hi) ≡ true → test ≡ true
    refused e = grind (arith, le-div_iff)

    accepted : (d == 0 || leb d hi) ≡ false → test ≡ false
    accepted e = grind (arith, le-div_iff)

-- For operands that are `u128`, `mul_div_floor` is the exact floor of a * b / d, or `None` for a
-- zero divisor or a quotient that no `u128` holds.
pub mul_div_floor_lem :
    (a b d : ℕ)
    → a < 2 ^ 128
    → b < 2 ^ 128
    → d < 2 ^ 128
    → mul_div_floor a b d ≡ (if d == 0 then none else checked_u128 (a * b / d))
unfolding mul_div_floor
mul_div_floor_lem a b d ha hb hd =
    let (product, (hi-lt, lo-lt)) = value-mul_full a b ha hb in
    rw (div_256_by_128_lem (mul_full a b).0 (mul_full a b).1 d hi-lt lo-lt hd, product)
      (ground arith)

half_up_lem : (n d : ℕ) → 0 < d → half_up n d ≡ (if leb d (n % d * 2) then n / d + 1 else n / d)
half_up_lem n d hd =
    let q : ℕ = n / d in
    let r : ℕ = n % d in
    let split : q * d + r ≡ n = div-add-mod' n d in
    let r-lt : r < d = mod-lt n hd in
    elim (Bool-cases (leb d (n % d * 2))) [
      | inl e ↦
          let up : d ≤ r * 2 = ground arith in
          rw e (div_unique (2 * n + d) (2 * d) (q + 1) (2 * r - d) (omega arith) (omega arith)).0
      | inr e ↦
          let down : r * 2 < d = ground arith in
          rw e (div_unique (2 * n + d) (2 * d) q (2 * r + d) (omega arith) (omega arith)).0
    ]

-- A quotient is rounded up when twice the remainder reaches the divisor.
round_half_up_lem :
    (n d : ℕ)
    → 0 < d
    → d < 2 ^ 128
    → n / d < 2 ^ 128
    → round_half_up (n / d) (n % d) d ≡ checked_u128 (half_up n d)
unfolding round_half_up
round_half_up_lem n d hd fits hq = rw (half_up_lem n d hd) (ground arith)

pub rounded_lem :
    (hi lo d : ℕ)
    → hi < 2 ^ 128
    → lo < 2 ^ 128
    → d < 2 ^ 128
    → rounded d (div_256_by_128 hi lo d)
      ≡ (if d == 0 then none else checked_u128 (half_up (hi * 2 ^ 128 + lo) d))
rounded_lem hi lo d hh hl hd =
    let n : ℕ = hi * 2 ^ 128 + lo in
    rw (div_256_by_128_lem hi lo d hh hl hd) (elim (Bool-cases (d == 0)) [
      | inl e ↦ rw e
      | inr e ↦
          let hp : 0 < d = ground arith in
          elim (Bool-cases (leb (2 ^ 128) (n / d))) [
            | inl big ↦ rw (e, big, half_up_lem n d hp) (ground arith)
            | inr small ↦ rw (e, small, round_half_up_lem n d hp hd (ground arith))
          ]
    ])

-- For operands that are `u128`, `mul_div_round` is the exact quotient a * b / d rounded half up, or
-- `None` for a zero divisor or a result that no `u128` holds.
pub mul_div_round_lem :
    (a b d : ℕ)
    → a < 2 ^ 128
    → b < 2 ^ 128
    → d < 2 ^ 128
    → mul_div_round a b d ≡ (if d == 0 then none else checked_u128 (half_up (a * b) d))
unfolding mul_div_round
mul_div_round_lem a b d ha hb hd =
    let (product, (hi-lt, lo-lt)) = value-mul_full a b ha hb in
    rw (rounded_lem (mul_full a b).0 (mul_full a b).1 d hi-lt lo-lt hd, product)
