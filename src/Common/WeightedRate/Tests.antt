-- ===== src/Common/WeightedRate/Tests.antt =====
-- Runs of `weighted_rate.rs`, and its theorems at concrete inputs.
use utility_contracts.Base.{ℕ, ◌^◌, ◌≤◌, ◌≡◌, refl, some, List, [], ◌∷◌, arith}
use utility_contracts.Common.WeightedRate.{
  mul_full, add_256, div_256_by_128, div_loop, div_step, round_half_up, mul_div_floor,
  mul_div_round, accumulate, weighted_average,
}
use utility_contracts.Common.WeightedRate.Rounding.{mul_div_floor_lem}
use utility_contracts.Common.WeightedRate.Average.{weighted_average_lem, weighted_average_total}

-- 2^127 × 6 needs the high limb.
high_limb : mul_full (2 ^ 127) 6 ≡ (3, 0)
unfolding mul_full
high_limb = refl

thirds : (mul_div_floor 7 1_000_000_000_000_000_000 3 ≡ some 2_333_333_333_333_333_333)
unfolding mul_div_floor mul_full div_256_by_128 div_loop div_step
thirds = refl

rounds_up : mul_div_round 5 1 2 ≡ some 3
unfolding mul_div_round mul_full div_256_by_128 div_loop div_step round_half_up
rounds_up = refl

-- Peak, off-peak and shoulder windows: rate and seconds.
abbrev tariff : List (ℕ × ℕ)
tariff = (300, 10_800) ∷ (100, 50_400) ∷ (150, 25_200) ∷ []

average_runs : weighted_average tariff ≡ some 140
unfolding weighted_average accumulate mul_full add_256 div_256_by_128 div_loop div_step
    round_half_up
average_runs = refl

mul_div_floor_lem_example : mul_div_floor (2 ^ 127) 6 (2 ^ 126) ≡ some 12
mul_div_floor_lem_example =
    mul_div_floor_lem (2 ^ 127) 6 (2 ^ 126) (omega arith) (omega arith) (omega arith)

weighted_average_lem_example : weighted_average tariff ≡ some 140
weighted_average_lem_example = weighted_average_lem tariff (omega arith)

weighted_average_total_example :
    (average : ℕ) × (weighted_average tariff ≡ some average) × (100 ≤ average) × (average ≤ 300)
weighted_average_total_example =
    weighted_average_total 100 300 tariff (omega arith) (omega arith) (omega arith) (omega arith)
      (omega arith)
