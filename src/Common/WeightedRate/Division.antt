-- ===== src/Common/WeightedRate/Division.antt =====
-- The binary long division of `weighted_rate.rs` is exact, and the functions built on it round as
-- they say.
use Prim.Native.Nat.{bit_or}
use native.Mathlib.Nat.{pow-suc, mul-le-mul_left, mul-le-mul_right, pow-succ', div-div-eq-div-mul}
use utility_contracts.Base.{
  ℕ, zero, suc, ◌+◌, ◌*◌, ◌/◌, ◌%◌, ◌^◌, ◌≤◌, ◌<◌, ◌≡◌, Bool, true, false, arith, shl128, shr,
  bit_or_disjoint, ap, sym, Bool-cases, inl, inr, leb, ◌==◌, ◌||◌,
}
use utility_contracts.Common.WeightedRate.{div_step, div_loop}

-- `(k << 1) | bit` takes in a bit at the low end.
or_double : (k bit : ℕ) → bit < 2 → bit_or bit (shl128 k 1) ≡ bit + k * 2 % 2 ^ 128
or_double k bit h =
    let even : shl128 k 1 ≡ k % 2 ^ 127 * 2 ^ 1 = omega arith in
    rw (even, bit_or_disjoint 1 bit (k % 2 ^ 127) h) (omega arith)

-- The test of a round compares the divisor with the remainder, its lost top bit included.
test_round :
    (bit d rem : ℕ)
    → bit < 2
    → d < 2 ^ 128
    → rem < d
    → let test : Bool = shr rem 127 == 1 || leb d (bit + rem * 2 % 2 ^ 128) in
      (test ≡ true → d ≤ bit + rem * 2) × (test ≡ false → bit + rem * 2 < d)
test_round bit d rem hb hd hr = (λ h. ground arith, λ h. ground arith)

-- One round doubles the quotient and the remainder and takes in the next bit.
div_step_lem :
    (bit d rem quot : ℕ)
    → bit < 2
    → d < 2 ^ 128
    → rem < d
    → quot * 2 + 1 < 2 ^ 128
    → let (rem', quot') = div_step bit d rem quot in
      (quot' * d + rem' ≡ (quot * d + rem) * 2 + bit) × (rem' < d) × (quot' ≤ quot * 2 + 1)
unfolding div_step
div_step_lem bit d rem quot hb hd hr hq =
    let exact : quot * 2 % 2 ^ 128 ≡ quot * 2 = omega arith in
    let test : Bool = shr rem 127 == 1 || leb d (bit + rem * 2 % 2 ^ 128) in
    let (enough, short) = test_round bit d rem hb hd hr in
    rw (or_double rem bit hb, or_double quot 1 (omega arith), exact)
      (elim (Bool-cases test) [
        | inl e ↦ let h = enough e in rw e (omega arith)
        | inr e ↦ let h = short e in rw e (omega arith)
      ])

one-le-pow : (i : ℕ) → 1 ≤ 2 ^ i
one-le-pow zero = omega arith
one-le-pow (suc i) = omega (arith, pow-succ' 2 i, one-le-pow i)

-- With `i` bits to go, quotient and remainder account for all bits read so far.
pub div_loop_lem :
    (i lo d hi P rem quot : ℕ)
    → d < 2 ^ 128
    → rem < d
    → (quot + 1) * 2 ^ i ≤ 2 ^ 128
    → quot * d + rem ≡ hi * P + lo / 2 ^ i
    → let (q, r) = div_loop i lo d rem quot in
      (q * d + r ≡ hi * (P * 2 ^ i) + lo) × (r < d) × (q < 2 ^ 128)
unfolding div_loop
div_loop_lem zero lo d hi P rem quot hd hr hq e = (omega arith, omega arith, omega arith)
div_loop_lem (suc i) lo d hi P rem quot hd hr hq e =
    let bit : ℕ = shr lo i % 2 in
    let power : 2 ^ suc i ≡ 2 * 2 ^ i = pow-succ' 2 i in
    let halves : lo / 2 ^ suc i ≡ lo / 2 ^ i / 2 =
      rw (pow-suc 2 i) (sym (div-div-eq-div-mul lo (2 ^ i) 2)) in
    let room : (quot + 1) * 2 * 2 ^ i ≤ 2 ^ 128 =
      omega (arith, ap (λ (t : ℕ). (quot + 1) * t) power) in
    let small : (quot + 1) * 2 * 1 ≤ (quot + 1) * 2 * 2 ^ i =
      mul-le-mul_left ((quot + 1) * 2) (one-le-pow i) in
    let (doubled, rem-lt, quot-le) =
      div_step_lem bit d rem quot (omega arith) hd hr (omega arith) in
    let rem' : ℕ = (div_step bit d rem quot).0 in
    let quot' : ℕ = (div_step bit d rem quot).1 in
    let next : (quot' + 1) * 2 ^ i ≤ (quot + 1) * 2 * 2 ^ i =
      mul-le-mul_right (2 ^ i) (omega arith) in
    let (exact, rest-lt, fits) =
      div_loop_lem i lo d hi (P * 2) rem' quot' hd rem-lt (omega arith) (omega arith) in
    (omega (arith, exact, ap (λ (t : ℕ). hi * (P * t)) power), rest-lt, fits)
