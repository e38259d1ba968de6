-- ===== src/UtilityContracts/TariffOracle/Blended.antt =====
-- The loop over the hours of a period adds what a second-by-second account does.
use native.Mathlib.Nat.{mul-le-mul_left, mul-add, mul_assoc}
use mathlib.Core.Path.{subst}
use utility_contracts.Base.{
  ℕ, zero, suc, ◌+◌, ◌-◌, ◌*◌, ◌/◌, ◌%◌, ◌^◌, ◌≤◌, ◌<◌, ◌≡◌, refl, sym, ap, ◌∙◌, ℤ, pos, true,
  false, ltb, ltb→lt, leb, if◌then◌else◌, ok, err, arith, Bool-cases, inl, inr, i128_half,
  saturating_mul, saturating_mul_pos, wrapping_add_pos, div_pos,
}
use utility_contracts.UtilityContracts.TariffOracle.Types.{
  HourlyTariff, FlowCalculationResult, State, Env,
}
use utility_contracts.UtilityContracts.TariffOracle.Schedules.{get_current_tariff}
use utility_contracts.UtilityContracts.TariffOracle.Period.{
  timestamp_to_hour, next_hour_boundary, period_end, Progress, advance, rounds,
  calculate_flow_for_period, result_of,
}

-- The rates of `count` seconds from `t` on, each at its own hour.
unfoldable pub per_second : (rate : ℕ → ℕ) → (t count : ℕ) → ℕ
per_second rate t zero = 0
per_second rate t (suc count) = rate (timestamp_to_hour t) + per_second rate (t + 1) count

-- The tariffs in force have these rates.
abbrev pub PricedBy : Env → State → (ℕ → ℕ) → Type 0
PricedBy env s rate =
    (hour : ℕ)
    → hour < 24
    → (tariff : HourlyTariff) × (get_current_tariff env hour s ≡ ok (tariff, s))
      × (tariff.rate_cents_per_kwh ≡ pos (rate hour))

per_second_none : (rate : ℕ → ℕ) (t : ℕ) → per_second rate t 0 ≡ 0
unfolding per_second
per_second_none rate t = refl

per_second_split :
    (rate : ℕ → ℕ) (t m n : ℕ)
    → per_second rate t (m + n) ≡ per_second rate t m + per_second rate (t + m) n
unfolding per_second
per_second_split rate t zero n =
    let e : zero + n ≡ n = omega arith in
    let f : t + zero ≡ t = omega arith in rw (e, f) (omega arith)
per_second_split rate t (suc m) n =
    let e : suc m + n ≡ suc (m + n) = omega arith in
    let f : t + 1 + m ≡ t + suc m = omega arith in
    let rest = per_second_split rate (t + 1) m n in rw (e, rest, f) (omega arith)

-- Within an hour the rate is that of its start.
per_second_hour :
    (rate : ℕ → ℕ) (t u n : ℕ)
    → t / 3600 ≡ u / 3600
    → t + n ≤ next_hour_boundary u
    → per_second rate t n ≡ rate (timestamp_to_hour u) * n
unfolding per_second
per_second_hour rate t u zero e h = omega arith
per_second_hour rate t u (suc zero) e h = rw e (omega arith)
per_second_hour rate t u (suc (suc n)) e h =
    let same : (t + 1) / 3600 ≡ u / 3600 = omega (arith, e, h) in
    let rest = per_second_hour rate (t + 1) u (suc n) same (omega (arith, h)) in
    rw (e, rest) (grind arith)

-- Two exact products.
mul_fits : (a b : ℕ) → a * b < i128_half → saturating_mul (pos a) (pos b) ≡ pos (a * b)
mul_fits a b h = rw (saturating_mul_pos a b) (ground (arith, h))

distributes : (c sum r d : ℕ) → c * sum + c * r * d ≡ c * (sum + r * d)
distributes c sum r d = rw (mul-add c sum (r * d), mul_assoc c r d) refl

-- What fits the end of a round fits its parts.
parts_fit :
    (bound c sum r d : ℕ)
    → 0 < d
    → c * (sum + r * d) < bound
    → (c * r < bound) × (c * r * d < bound)
parts_fit bound c sum r d up h =
    let whole = distributes c sum r d in
    let grown : c * r * 1 ≤ c * r * d = mul-le-mul_left (c * r) up in
    (omega (arith, whole, grown, h), omega (arith, whole, h))

next_hour_boundary_fits : (t : ℕ) → t < 2 ^ 64 - 16 → next_hour_boundary t ≡ (t / 3600 + 1) * 3600
next_hour_boundary_fits t h = omega (arith, h)

-- A round takes at least one second, and stays within its hour and the period.
period_end_bounds :
    (t e : ℕ)
    → t < e
    → e ≤ 2 ^ 64 - 16
    → (t < period_end t e) × (period_end t e ≤ e) × (period_end t e ≤ next_hour_boundary t)
period_end_bounds t e h most =
    let boundary = next_hour_boundary_fits t (omega (arith, h, most)) in ground (arith, h, boundary)

-- The seconds of a round do not wrap.
duration_fits : (t u : ℕ) → t ≤ u → u < 2 ^ 64 → (u + 2 ^ 64 - t) % 2 ^ 64 ≡ u - t
duration_fits t u le small = omega (arith, le, small)

-- The variables of the loop at `t`, when the account so far is `sum`.
abbrev at : (c t sum windows : ℕ) → Progress
at c t sum windows = record {
  current_time = t;
  total_tokens = pos (c * sum);
  weighted_rate_sum = pos sum;
  windows_crossed = windows;
}

round_once :
    (fuel : ℕ) (env : Env) (e : ℕ) (c : ℤ) (p : Progress) (tariff : HourlyTariff) (s : State)
    → ltb p.current_time e ≡ true
    → get_current_tariff env (timestamp_to_hour p.current_time) s ≡ ok (tariff, s)
    → rounds (suc fuel) env e c p s
      ≡ rounds fuel env e c (advance e c tariff.rate_cents_per_kwh p) s
unfolding rounds
round_once fuel env e c p tariff s h got = rw h (
    ap
      (λ r. elim r [
        | ok x ↦ rounds fuel env e c (advance e c (x.0.rate_cents_per_kwh) p) x.1
        | err x ↦ err x
      ])
      got)

module _ (env : Env) (e c : ℕ) (rate : ℕ → ℕ) (s : State) (priced : PricedBy env s rate)
    (most : e ≤ 2 ^ 64 - 16) where
  advance_lem :
      (t sum windows : ℕ)
      → t < e
      → sum + per_second rate t (period_end t e - t) < i128_half
      → c * (sum + per_second rate t (period_end t e - t)) < i128_half
      → (w : ℕ) × (advance e (pos c) (pos (rate (timestamp_to_hour t))) (at c t sum windows)
          ≡ at c (period_end t e) (sum + per_second rate t (period_end t e - t)) w)
  unfolding advance
  advance_lem t sum windows lt fits fits_c =
      let until = period_end t e in
      let d = until - t in
      let r = rate (timestamp_to_hour t) in
      let (later, inside, hour) = period_end_bounds t e lt most in
      let seconds = duration_fits t until (omega (arith, later)) (omega (arith, inside, most)) in
      let up : 0 < d = omega (arith, later) in
      let flat : per_second rate t d ≡ r * d =
        per_second_hour rate t t d refl (omega (arith, later, hour)) in
      let bound : sum + r * d < i128_half = subst (λ x. sum + x < i128_half) flat fits in
      let bound_c : c * (sum + r * d) < i128_half =
        subst (λ x. c * (sum + x) < i128_half) flat fits_c in
      let (once, whole) = parts_fit i128_half c sum r d up bound_c in
      (
        (if ltb until e then (windows + 1) % 2 ^ 8 else windows),
        rw
            (
              flat,
              seconds,
              mul_fits c r once,
              mul_fits (c * r) d whole,
              mul_fits r d (omega (arith, bound)),
              wrapping_add_pos sum (r * d) bound,
              wrapping_add_pos (c * sum) (c * r * d)
                  (subst (λ x. x < i128_half) (sym (distributes c sum r d)) bound_c),
              distributes c sum r d,
            )
            refl,
      )

  rounds_lem :
      (fuel t sum windows : ℕ)
      → t ≤ e
      → e - t < fuel
      → sum + per_second rate t (e - t) < i128_half
      → c * (sum + per_second rate t (e - t)) < i128_half
      → (w : ℕ) × (rounds fuel env e (pos c) (at c t sum windows) s
          ≡ ok (at c e (sum + per_second rate t (e - t)) w, s))
  unfolding rounds
  rounds_lem zero t sum windows le few fits fits_c = absurd (omega (arith, few))
  rounds_lem (suc fuel) t sum windows le few fits fits_c = elim (Bool-cases (ltb t e)) [
    | inr h ↦
        let ended : t ≡ e = ground (arith, h, le) in
        let none_left : e - t ≡ 0 = omega (arith, ended) in
        let same : sum + per_second rate t 0 ≡ sum =
          ap (λ x. sum + x) (per_second_none rate t) ∙ omega arith in
        (windows, rw (h, none_left, same, ended) refl)
    | inl h ↦
        let lt : t < e = ltb→lt t e h in
        let until = period_end t e in
        let (later, inside, hour) = period_end_bounds t e lt most in
        let (tariff, got, cost) = priced (timestamp_to_hour t) (omega arith) in
        let cut : e - t ≡ (until - t) + (e - until) = omega (arith, later, inside) in
        let here : t + (until - t) ≡ until = omega (arith, later) in
        let split : per_second rate t (e - t)
            ≡ per_second rate t (until - t) + per_second rate until (e - until) =
          ap (per_second rate t) cut
          ∙ per_second_split rate t (until - t) (e - until)
          ∙ ap (λ x. per_second rate t (until - t) + per_second rate x (e - until)) here in
        let total : sum + per_second rate t (e - t)
            ≡ sum + per_second rate t (until - t) + per_second rate until (e - until) =
          omega (arith, split) in
        let so_far = sum + per_second rate t (until - t) in
        let part : so_far ≤ sum + per_second rate t (e - t) = omega (arith, total) in
        let part_c = mul-le-mul_left c part in
        let (w, moved) =
          advance_lem t sum windows lt (omega (arith, part, fits))
            (omega (arith, part_c, fits_c)) in
        let (v, rest) =
          rounds_lem fuel until so_far w inside (omega (arith, few, later))
            (subst (λ x. x < i128_half) total fits) (subst (λ x. c * x < i128_half) total fits_c) in
        let once = round_once fuel env e (pos c) (at c t sum windows) tariff s h got in
        (
          v,
          once
              ∙ ap (λ r. rounds fuel env e (pos c) (advance e (pos c) r (at c t sum windows)) s)
                  cost
              ∙ ap (λ p. rounds fuel env e (pos c) p s) moved
              ∙ rest
              ∙ ap (λ x. ok (at c e x v, s)) (sym total),
        )
  ]

-- Let the tariffs in force have the rates `rate`, none negative, let the period end after its start
-- and by 2^64 - 16, the last hour of a `u64`, and let the sum of the rates of its seconds, each
-- taken at the hour of that second, fit an `i128`, also times the consumption, which is not
-- negative. Then `calculate_flow_for_period`, which goes from hour to hour, returns: the tokens are
-- the consumption times that sum, and the blended rate is the sum divided by the duration, rounded
-- down. The state is unchanged.
pub calculate_flow_lem :
    (env : Env) (start e c : ℕ) (rate : ℕ → ℕ) (s : State)
    → PricedBy env s rate
    → start < e
    → e ≤ 2 ^ 64 - 16
    → per_second rate start (e - start) < i128_half
    → c * per_second rate start (e - start) < i128_half
    → (result : FlowCalculationResult) × (calculate_flow_for_period env start e (pos c) s
        ≡ ok (result, s))
      × (result.total_tokens ≡ pos (c * per_second rate start (e - start)))
      × (result.weighted_rate_per_second ≡ pos (per_second rate start (e - start) / (e - start)))
      × (result.duration_seconds ≡ e - start)
unfolding calculate_flow_for_period
calculate_flow_lem env start e c rate s priced lt most fits fits_c =
    let total = per_second rate start (e - start) in
    let nothing : c * 0 ≡ 0 = omega arith in
    let alone : 0 + total ≡ total = omega arith in
    let (w, done) =
      rounds_lem env e c rate s priced most (e - start + 1) start 0 0 (omega (arith, lt))
        (omega arith) (subst (λ x. x < i128_half) (sym alone) fits)
        (subst (λ x. c * x < i128_half) (sym alone) fits_c) in
    let early : leb e start ≡ false = ground (arith, lt) in
    let begin : ℕ → Progress = λ tokens. record {
      current_time = start;
      total_tokens = pos tokens;
      weighted_rate_sum = pos 0;
      windows_crossed = 0;
    } in
    let ran : rounds (e - start + 1) env e (pos c) (begin 0) s ≡ ok (at c e total w, s) =
      ap (λ x. rounds (e - start + 1) env e (pos c) (begin x) s) (sym nothing)
      ∙ done
      ∙ ap (λ x. ok (at c e x w, s)) alone in
    let run : calculate_flow_for_period env start e (pos c) s
        ≡ ok (result_of (e - start) (at c e total w), s) =
      rw early
        (ap (λ r. elim r [ ok x ↦ ok (result_of (e - start) x.0, x.1) | err x ↦ err x ]) ran) in
    (result_of (e - start) (at c e total w), run, refl, div_pos total (e - start), refl)
