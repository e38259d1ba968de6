-- ===== src/Common/WeightedRate.antt =====
-- contracts/common/src/weighted_rate.rs. A `u128` is a number below 2^128, and a pair (hi, lo) of
-- them is a 256-bit value. Sums and products wrap unless the source asks for a check.
pub mod Limbs
pub mod Division
pub mod Rounding
pub mod Average
mod Tests
use Prim.Native.Nat.{bit_or}
use utility_contracts.Base.{
  ℕ, zero, suc, ◌+◌, ◌-◌, ◌*◌, ◌/◌, ◌%◌, ◌^◌, Bool, true, false, ◌||◌, Option, none, some, List, [],
  ◌∷◌, ltb, leb, ◌==◌, if◌then◌else◌, add128, mul128, shl128, shr, low_bits,
}

abbrev pub max_tariff_intervals : ℕ
max_tariff_intervals = 2880

-- `mul_full`: the 256-bit product of two limbs, by four products of 64-bit halves.
pub mul_full : ℕ → ℕ → ℕ × ℕ
mul_full a b =
    let a0 = low_bits a 64 in
    let a1 = shr a 64 in
    let b0 = low_bits b 64 in
    let b1 = shr b 64 in
    let p00 = mul128 a0 b0 in
    let p01 = mul128 a0 b1 in
    let p10 = mul128 a1 b0 in
    let p11 = mul128 a1 b1 in
    let mid = add128 (add128 (shr p00 64) (low_bits p01 64)) (low_bits p10 64) in
    let lo = bit_or (low_bits p00 64) (shl128 (low_bits mid 64) 64) in
    let hi = add128 (add128 (add128 p11 (shr p01 64)) (shr p10 64)) (shr mid 64) in (hi, lo)

-- `overflowing_add`, with the carry as a number.
abbrev pub overflowing_add : ℕ → ℕ → ℕ × ℕ
overflowing_add a b = (add128 a b, (a + b) / 2 ^ 128)

pub add_256 : ℕ × ℕ → ℕ × ℕ → (ℕ × ℕ) × Bool
add_256 (acc_hi, acc_lo) (add_hi, add_lo) =
    let (lo, c0) = overflowing_add acc_lo add_lo in
    let (hi1, c1) = overflowing_add acc_hi add_hi in
    let (hi, c2) = overflowing_add hi1 c0 in ((hi, lo), c1 == 1 || c2 == 1)

-- One round of the long division: (rem, quot) after the next bit of the dividend.
pub div_step : ℕ → ℕ → ℕ → ℕ → ℕ × ℕ
div_step bit d rem quot =
    let carry_out = shr rem 127 in
    let shifted = bit_or bit (shl128 rem 1) in
    if carry_out == 1 || leb d shifted
    then ((shifted + 2 ^ 128 - d) % 2 ^ 128, bit_or 1 (shl128 quot 1))
    else (shifted, shl128 quot 1)

-- The loop, with `i` bits of `lo` to go.
pub div_loop : (i lo d rem quot : ℕ) → ℕ × ℕ
div_loop zero lo d rem quot = (quot, rem)
div_loop (suc i) lo d rem quot =
    let (rem', quot') = div_step (shr lo i % 2) d rem quot in div_loop i lo d rem' quot'

pub div_256_by_128 : (hi lo d : ℕ) → Option (ℕ × ℕ)
div_256_by_128 hi lo d = if d == 0 || leb d hi then none else some (div_loop 128 lo d hi 0)

-- `checked_add(1)`, `checked_mul` and `checked_add` of a `u128`.
abbrev pub checked_u128 : ℕ → Option ℕ
checked_u128 n = if ltb n (2 ^ 128) then some n else none

pub round_half_up : (q r d : ℕ) → Option ℕ
round_half_up q r d =
    let round_up : Bool = elim (checked_u128 (r * 2)) [ some two_r ↦ leb d two_r | none ↦ true ] in
    if round_up then checked_u128 (q + 1) else some q

abbrev pub quotient : Option (ℕ × ℕ) → Option ℕ
quotient none = none
quotient (some (q, r)) = some q

abbrev pub rounded : ℕ → Option (ℕ × ℕ) → Option ℕ
rounded d none = none
rounded d (some (q, r)) = round_half_up q r d

pub mul_div_floor : (a b d : ℕ) → Option ℕ
mul_div_floor a b d = let (hi, lo) = mul_full a b in quotient (div_256_by_128 hi lo d)

pub mul_div_round : (a b d : ℕ) → Option ℕ
mul_div_round a b d = let (hi, lo) = mul_full a b in rounded d (div_256_by_128 hi lo d)

pub interval_product_fits_u128 : (rate duration : ℕ) → Bool
interval_product_fits_u128 rate duration = elim (checked_u128 (rate * duration)) [
  | some product ↦ true
  | none ↦ false
]

-- The loop of `weighted_average`: the 256-bit sum of the products, and the total duration.
pub accumulate : List (ℕ × ℕ) → ℕ × ℕ → ℕ → Option ((ℕ × ℕ) × ℕ)
accumulate [] acc total = some (acc, total)
accumulate ((rate, duration) ∷ intervals) acc total =
    let (next, overflow) = add_256 acc (mul_full rate duration) in
    let rest = accumulate intervals next (total + duration) in
    if overflow then none else if leb (2 ^ 128) (total + duration) then none else rest

pub weighted_average : List (ℕ × ℕ) → Option ℕ
weighted_average intervals = elim (accumulate intervals (0, 0) 0) [
  | none ↦ none
  | some (acc, total) ↦
      if total == 0 then none else rounded total (div_256_by_128 acc.0 acc.1 total)
]
