-- ===== src/MeterAggregator/Totals.antt =====
-- The rollup buckets against the readings that were submitted.
use utility_contracts.Base.{
  ℕ, ◌+◌, ◌/◌, ◌%◌, ◌^◌, ◌≡◌, ℤ, pos, ◌+ℤ◌, ◌≤ℤ◌, ok, arith, true, ◌&&◌, ◌==◌, if◌then◌else◌,
  unwrap_or, Option-cases, Result-cases, inl, inr, checked_add, checked_add_exact, pure, ◌>>=◌,
}
use utility_contracts.MeterAggregator.Storage.{
  State, Env, RawReading, get_next_seq, set_next_seq, set_raw_reading, set_hourly_bucket,
  set_daily_bucket,
}
use utility_contracts.MeterAggregator.Contract.{
  submit_reading, rollup_raw_to_hourly, prune_stale_readings, empty_hour, empty_day,
}
use utility_contracts.MeterAggregator.Pruning.{prune_stale_readings_buckets}

abbrev pub daily_total : (device day : ℕ) → State → ℤ
daily_total device day s = (unwrap_or (empty_day day) (s.daily_bucket device day)).total

abbrev pub hourly_total : (device hour : ℕ) → State → ℤ
hourly_total device hour s = (unwrap_or (empty_hour hour) (s.hourly_bucket device hour)).total

-- The bucket of the given device and epoch gains the value, and every other bucket is as before.
abbrev pub Gains : (total : ℕ → ℕ → State → ℤ) → (device epoch : ℕ) → ℤ → State → State → Type 0
Gains total device epoch value s s' =
    (d e : ℕ)
    → total d e s' ≡ (if (d == device) && (e == epoch) then total d e s +ℤ value else total d e s)

-- The state after a reading is stored and folded into its buckets, whose totals become `hour` and `day`.
abbrev recorded : Env → (device source : ℕ) → (value hour day : ℤ) → State → State
recorded env device source value hour day s =
    let hb = unwrap_or (empty_hour (env.now / 3_600)) (s.hourly_bucket device (env.now / 3_600)) in
    let db = unwrap_or (empty_day (env.now / 86_400)) (s.daily_bucket device (env.now / 86_400)) in
    let reading : RawReading = record { timestamp = env.now; value = value; source = source } in
    set_daily_bucket device (env.now / 86_400)
      (record db { total = day; count = (db.count + 1) % 2 ^ 32 })
      (set_hourly_bucket device (env.now / 3_600)
        (record hb { total = hour; count = (hb.count + 1) % 2 ^ 32 })
        (set_next_seq device ((get_next_seq device s + 1) % 2 ^ 64)
          (set_raw_reading device (get_next_seq device s) reading s)))

finish :
    (env : Env) (device result seq : ℕ) (s2 s' : State)
    → (prune_stale_readings env device >>= λ n. pure result) s2 ≡ ok (seq, s')
    → (seq ≡ result) × (s'.daily_bucket ≡ s2.daily_bucket) × (s'.hourly_bucket ≡ s2.hourly_bucket)
finish env device result seq s2 s' h = elim (Result-cases (prune_stale_readings env device s2)) [
  | inl (e, failed) ↦ absurd (ground (arith, failed))
  | inr (n, t, done) ↦
      let ends : (seq ≡ result) × (t ≡ s') = ground (arith, done) in
      let (daily, hourly) = prune_stale_readings_buckets env device n s2 t done in
      (ends.0, rw⁻¹ ends.1 daily, rw⁻¹ ends.1 hourly)
]

gains_daily :
    (env : Env) (device source : ℕ) (value hour day : ℤ) (d x : ℕ) (s s' : State)
    → s'.daily_bucket ≡ (recorded env device source value hour day s).daily_bucket
    → day ≡ daily_total device (env.now / 86_400) s +ℤ value
    → daily_total d x s' ≡ (
        if (d == device) && (x == env.now / 86_400)
        then daily_total d x s +ℤ value
        else daily_total d x s)
gains_daily env device source value hour day d x s s' same total = rw same (ground (arith, total))

gains_hourly :
    (env : Env) (device source : ℕ) (value hour day : ℤ) (d x : ℕ) (s s' : State)
    → s'.hourly_bucket ≡ (recorded env device source value hour day s).hourly_bucket
    → hour ≡ hourly_total device (env.now / 3_600) s +ℤ value
    → hourly_total d x s' ≡ (
        if (d == device) && (x == env.now / 3_600)
        then hourly_total d x s +ℤ value
        else hourly_total d x s)
gains_hourly env device source value hour day d x s s' same total = rw same (ground (arith, total))

-- A submission that succeeds was authorized by its source, carries a value that is not negative,
-- returns the device's next sequence number, and adds the value to the totals of its hour and of
-- its day and to no other.
pub submit_reading_lem :
    (env : Env) (device source : ℕ) (value : ℤ) (s s' : State) (seq : ℕ)
    → submit_reading env device source value s ≡ ok (seq, s')
    → (env.authorized source ≡ true)
      × (pos 0 ≤ℤ value)
      × (seq ≡ get_next_seq device s)
      × Gains daily_total device (env.now / 86_400) value s s'
      × Gains hourly_total device (env.now / 3_600) value s s'
unfolding submit_reading rollup_raw_to_hourly
submit_reading_lem env device source value s s' seq h = elim (Option-cases s.admin) [
  | inl n ↦ absurd (ground (arith, n))
  | inr (admin, n) ↦
      elim (Option-cases (checked_add (hourly_total device (env.now / 3_600) s) value)) [
        | inl e ↦ absurd (ground (arith, n, e))
        | inr (hour, e) ↦
            elim (Option-cases (checked_add (daily_total device (env.now / 86_400) s) value)) [
              | inl f ↦ absurd (ground (arith, n, e, f))
              | inr (day, f) ↦
                  let s2 : State = recorded env device source value hour day s in
                  let ran : (prune_stale_readings env device >>= λ n. pure (get_next_seq device s))
                        s2
                      ≡ ok (seq, s') =
                    ground (arith, n, e, f) in
                  let auth : env.authorized source ≡ true = ground (arith, n, e, f) in
                  let up : pos 0 ≤ℤ value = ground (arith, n, e, f) in
                  let (same, daily, hourly) =
                    finish env device (get_next_seq device s) seq s2 s' ran in
                  (
                    auth,
                    up,
                    same,
                    λ d x.
                        gains_daily env device source value hour day d x s s' daily
                          (checked_add_exact _ _ _ f).0,
                    λ d x.
                        gains_hourly env device source value hour day d x s s' hourly
                          (checked_add_exact _ _ _ e).0,
                  )
            ]
      ]
]
