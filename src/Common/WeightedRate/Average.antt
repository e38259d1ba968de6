-- ===== src/Common/WeightedRate/Average.antt =====
-- `weighted_average` against the mathematical weighted mean.
use native.Mathlib.Nat.{le-div_iff_mul-le, div-lt_iff_lt-mul, mul-le-mul_left, mul-le-mul_right}
use utility_contracts.Base.{
  ℕ, suc, ◌+◌, ◌*◌, ◌/◌, ◌%◌, ◌^◌, ◌≤◌, ◌<◌, ◌≡◌, none, some, List, [], ◌∷◌, arith, leb, ◌==◌, ◌||◌,
  if◌then◌else◌, Bool-cases, inl, inr,
}
use utility_contracts.Common.WeightedRate.{
  accumulate, weighted_average, mul_full, add_256, checked_u128, max_tariff_intervals,
}
use utility_contracts.Common.WeightedRate.Limbs.{value, IsU256, value-mul_full, value-add_256}
use utility_contracts.Common.WeightedRate.Rounding.{half_up, rounded_lem}

-- Σ(rate × duration) and Σ(duration).
abbrev pub weighted_sum : List (ℕ × ℕ) → ℕ
weighted_sum [] = 0
weighted_sum ((rate, duration) ∷ intervals) = rate * duration + weighted_sum intervals

abbrev pub total_duration : List (ℕ × ℕ) → ℕ
total_duration [] = 0
total_duration ((rate, duration) ∷ intervals) = duration + total_duration intervals

abbrev pub count : List (ℕ × ℕ) → ℕ
count [] = 0
count (interval ∷ intervals) = suc (count intervals)

-- Rates are `u128` and durations `u64`.
abbrev pub IsSchedule : List (ℕ × ℕ) → Type 0
IsSchedule [] = Unit
IsSchedule ((rate, duration) ∷ intervals) =
    (rate < 2 ^ 128) × (duration < 2 ^ 64) × IsSchedule intervals

-- Every rate lies in a range.
abbrev pub RatesIn : ℕ → ℕ → List (ℕ × ℕ) → Type 0
RatesIn low high [] = Unit
RatesIn low high ((rate, duration) ∷ intervals) =
    (low ≤ rate) × (rate ≤ high) × RatesIn low high intervals

abbrev limbs : ℕ → ℕ × ℕ
limbs v = (v / 2 ^ 128, v % 2 ^ 128)

accumulate_lem :
    (intervals : List (ℕ × ℕ)) (acc : ℕ × ℕ) (total : ℕ)
    → IsSchedule intervals
    → IsU256 acc
    → total < 2 ^ 128
    → let sum = value acc + weighted_sum intervals in
      let time = total + total_duration intervals in
      accumulate intervals acc total
      ≡ (if leb (2 ^ 256) sum || leb (2 ^ 128) time then none else some (limbs sum, time))
unfolding accumulate
accumulate_lem [] (hi, lo) total s (hh, hl) ht = ground arith
accumulate_lem ((rate, duration) ∷ intervals) acc total (hr, hd, s) ha ht =
    let (product, fits) = value-mul_full rate duration hr (omega arith) in
    let (z-fits, exact, over) = value-add_256 acc (mul_full rate duration) ha fits in
    let z = (add_256 acc (mul_full rate duration)).0 in
    elim (Bool-cases (add_256 acc (mul_full rate duration)).1) [
      | inl e ↦ let big = over e in rw e (ground arith)
      | inr e ↦
          let same = exact e in
          elim (Bool-cases (leb (2 ^ 128) (total + duration))) [
            | inl late ↦ rw (e, late) (ground arith)
            | inr early ↦
                rw (e, early, accumulate_lem intervals z (total + duration) s z-fits (ground arith))
                  (ground arith)
          ]
    ]

-- For rates that are `u128` and durations that are `u64`, `weighted_average` is the weighted mean
-- rounded half up; it is `None` where the total duration is zero or does not fit a `u128`, the
-- weighted sum needs more than 256 bits, or the mean does not fit a `u128`.
pub weighted_average_lem :
    (intervals : List (ℕ × ℕ))
    → IsSchedule intervals
    → let sum = weighted_sum intervals in
      let time = total_duration intervals in
      weighted_average intervals ≡ (
        if time == 0 || leb (2 ^ 256) sum || leb (2 ^ 128) time
        then none
        else checked_u128 (half_up sum time))
unfolding weighted_average
weighted_average_lem intervals s =
    let sum : ℕ = weighted_sum intervals in
    let time : ℕ = total_duration intervals in
    let zero_sum : 0 * 2 ^ 128 + 0 + sum ≡ sum = omega arith in
    let zero_time : 0 + time ≡ time = omega arith in
    let run = accumulate_lem intervals (0, 0) 0 s (omega arith) (omega arith) in
    rw (weighted_average, run, zero_sum, zero_time)
      (elim (Bool-cases (leb (2 ^ 256) sum || leb (2 ^ 128) time)) [
        | inl e ↦ rw e (ground arith)
        | inr e ↦
            let divided =
              rounded_lem (sum / 2 ^ 128) (sum % 2 ^ 128) time (ground arith) (omega arith)
                (ground arith) in
            let joined : sum / 2 ^ 128 * 2 ^ 128 + sum % 2 ^ 128 ≡ sum = omega arith in
            rw (e, divided, joined) (ground arith)
      ])

half_up_between :
    (sum time low high : ℕ)
    → 0 < time
    → low * time ≤ sum
    → sum ≤ high * time
    → (low ≤ half_up sum time) × (half_up sum time ≤ high)
half_up_between sum time low high ht hl hh =
    let (mul_le, le_div) =
      le-div_iff_mul-le {k = 2 * time} {x = low} {y = 2 * sum + time} (omega arith) in
    let (lt_mul, div_lt) =
      div-lt_iff_lt-mul {k = 2 * time} {x = 2 * sum + time} {y = high + 1} (omega arith) in
    (le_div (omega arith), omega (arith, div_lt (omega arith)))

weighted_sum_between :
    (low high : ℕ) (intervals : List (ℕ × ℕ))
    → RatesIn low high intervals
    → (low * total_duration intervals ≤ weighted_sum intervals)
      × (weighted_sum intervals ≤ high * total_duration intervals)
weighted_sum_between low high [] h = omega arith
weighted_sum_between low high ((rate, duration) ∷ intervals) (hl, hh, h) =
    let (below, above) = weighted_sum_between low high intervals h in
    omega (arith, mul-le-mul_right duration hl, mul-le-mul_right duration hh, below, above)

total_duration-lt :
    (intervals : List (ℕ × ℕ))
    → IsSchedule intervals
    → total_duration intervals ≤ count intervals * 2 ^ 64
total_duration-lt [] s = omega arith
total_duration-lt ((rate, duration) ∷ intervals) (hr, hd, s) =
    omega (arith, total_duration-lt intervals s)

-- A schedule of at most 2880 intervals, with `u128` rates, `u64` durations and a positive total
-- duration, has an average, and it lies within every range below 2^128 that holds all the rates.
pub weighted_average_total :
    (low high : ℕ) (intervals : List (ℕ × ℕ))
    → IsSchedule intervals
    → high < 2 ^ 128
    → RatesIn low high intervals
    → count intervals ≤ max_tariff_intervals
    → 0 < total_duration intervals
    → (average : ℕ) × (weighted_average intervals ≡ some average)
      × (low ≤ average)
      × (average ≤ high)
weighted_average_total low high intervals s hm h hc hp =
    let sum : ℕ = weighted_sum intervals in
    let time : ℕ = total_duration intervals in
    let (below, above) = weighted_sum_between low high intervals h in
    let (low-le, le-high) = half_up_between sum time low high hp below above in
    let time-lt : time ≤ 2 ^ 76 = omega (arith, total_duration-lt intervals s) in
    let sum-le : high * time ≤ high * 2 ^ 76 = mul-le-mul_left high time-lt in
    (half_up sum time, rw (weighted_average_lem intervals s) (ground arith), low-le, le-high)
