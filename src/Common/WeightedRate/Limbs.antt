-- ===== src/Common/WeightedRate/Limbs.antt =====
-- The 256-bit product and sum of `weighted_rate.rs` are exact.
use Prim.Native.Nat.{bit_or}
use native.Mathlib.Nat.{mul-le-mul}
use utility_contracts.Base.{
  ℕ, ◌+◌, ◌-◌, ◌*◌, ◌/◌, ◌%◌, ◌^◌, ◌≤◌, ◌<◌, ◌≡◌, true, false, arith, add128, mul128, shl128, shr,
  low_bits, bit_or_disjoint,
}
use utility_contracts.Common.WeightedRate.{mul_full, add_256}

-- The value of a pair of limbs.
abbrev pub value : ℕ × ℕ → ℕ
value (hi, lo) = hi * 2 ^ 128 + lo

abbrev pub IsU256 : ℕ × ℕ → Type 0
IsU256 (hi, lo) = (hi < 2 ^ 128) × (lo < 2 ^ 128)

product-lt : (a b : ℕ) → a < 2 ^ 64 → b < 2 ^ 64 → a * b ≤ (2 ^ 64 - 1) * (2 ^ 64 - 1)
product-lt a b h k =
    let a' : a ≤ 2 ^ 64 - 1 = omega arith in
    let b' : b ≤ 2 ^ 64 - 1 = omega arith in mul-le-mul a' b'

-- The limbs that `mul_full` puts together from the four partial products.
abbrev mid_of : ℕ → ℕ → ℕ → ℕ
mid_of p00 p01 p10 = add128 (add128 (shr p00 64) (low_bits p01 64)) (low_bits p10 64)

abbrev hi_of : ℕ → ℕ → ℕ → ℕ → ℕ
hi_of p00 p01 p10 p11 =
    add128 (add128 (add128 p11 (shr p01 64)) (shr p10 64)) (shr (mid_of p00 p01 p10) 64)

abbrev lo_of : ℕ → ℕ → ℕ → ℕ
lo_of p00 p01 p10 = bit_or (low_bits p00 64) (shl128 (low_bits (mid_of p00 p01 p10) 64) 64)

lo_of_lem :
    (p00 p01 p10 : ℕ) → lo_of p00 p01 p10 ≡ p00 % 2 ^ 64 + mid_of p00 p01 p10 % 2 ^ 64 * 2 ^ 64
lo_of_lem p00 p01 p10 =
    let m : ℕ = mid_of p00 p01 p10 % 2 ^ 64 in
    let fits : shl128 m 64 ≡ m * 2 ^ 64 = omega arith in
    rw fits (bit_or_disjoint 64 (p00 % 2 ^ 64) m (omega arith))

abbrev max_product : ℕ
max_product = (2 ^ 64 - 1) * (2 ^ 64 - 1)

partial_products :
    (p00 p01 p10 p11 : ℕ)
    → p00 ≤ max_product
    → p01 ≤ max_product
    → p10 ≤ max_product
    → p11 ≤ max_product
    → (hi_of p00 p01 p10 p11 * 2 ^ 128 + (p00 % 2 ^ 64 + mid_of p00 p01 p10 % 2 ^ 64 * 2 ^ 64)
        ≡ p11 * 2 ^ 128 + (p01 + p10) * 2 ^ 64 + p00)
partial_products p00 p01 p10 p11 h00 h01 h10 h11 = omega arith

expand :
    (a a1 a0 b b1 b0 : ℕ)
    → a ≡ a1 * 2 ^ 64 + a0
    → b ≡ b1 * 2 ^ 64 + b0
    → a * b ≡ a1 * b1 * 2 ^ 128 + (a0 * b1 + a1 * b0) * 2 ^ 64 + a0 * b0
expand a a1 a0 b b1 b0 ea eb = rw (ea, eb) (omega arith)

-- Products of 64-bit halves do not wrap.
mul128_halves :
    (x y : ℕ) → x < 2 ^ 64 → y < 2 ^ 64 → (mul128 x y ≡ x * y) × (mul128 x y ≤ max_product)
mul128_halves x y hx hy = omega (arith, product-lt x y hx hy)

-- For two `u128`, both limbs of `mul_full` fit a `u128`, and together they are the exact product.
pub value-mul_full :
    (a b : ℕ) → a < 2 ^ 128 → b < 2 ^ 128 → (value (mul_full a b) ≡ a * b) × IsU256 (mul_full a b)
unfolding mul_full
value-mul_full a b ha hb =
    let a0 : ℕ = a % 2 ^ 64 in
    let a1 : ℕ = a / 2 ^ 64 in
    let b0 : ℕ = b % 2 ^ 64 in
    let b1 : ℕ = b / 2 ^ 64 in
    let (e00, m00) = mul128_halves a0 b0 (omega arith) (omega arith) in
    let (e01, m01) = mul128_halves a0 b1 (omega arith) (omega arith) in
    let (e10, m10) = mul128_halves a1 b0 (omega arith) (omega arith) in
    let (e11, m11) = mul128_halves a1 b1 (omega arith) (omega arith) in
    let product = expand a a1 a0 b b1 b0 (omega arith) (omega arith) in
    let sum =
      partial_products (mul128 a0 b0) (mul128 a0 b1) (mul128 a1 b0) (mul128 a1 b1) m00 m01 m10
        m11 in
    let low = lo_of_lem (mul128 a0 b0) (mul128 a0 b1) (mul128 a1 b0) in
    (omega (arith, sum, low, product), (omega arith, omega (arith, low)))

-- The sum of two 256-bit values, with its carry.
pub value-add_256 :
    (x y : ℕ × ℕ)
    → IsU256 x
    → IsU256 y
    → let (z, overflow) = add_256 x y in
      IsU256 z
      × (overflow ≡ false → value z ≡ value x + value y)
      × (overflow ≡ true → 2 ^ 256 ≤ value x + value y)
unfolding add_256
value-add_256 (xh, xl) (yh, yl) hx hy = ground arith
