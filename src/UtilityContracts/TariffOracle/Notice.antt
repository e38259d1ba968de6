-- ===== src/UtilityContracts/TariffOracle/Notice.antt =====
-- Every history of the oracle has a price for every hour, and no schedule takes force before its notice.
use utility_contracts.Base.{
  ℕ, zero, suc, ◌+◌, ◌%◌, ◌^◌, ◌≤◌, ◌<◌, ◌≡◌, refl, pos, ◌≤ℤ◌, leb_ℤ, true, false, some, List, [],
  ◌∷◌, ltb, leb, ltb→le, ◌==◌, ok, arith, Option-cases, inl, inr, pos_part, err,
}
use utility_contracts.UtilityContracts.TariffOracle.Blended.{PricedBy}
use utility_contracts.UtilityContracts.TariffOracle.Types.{
  DailyTariffSchedule, HourlyTariff, State, Env,
}
use utility_contracts.UtilityContracts.TariffOracle.Schedules.{
  length, hours_valid, execute_tariff_update, get_current_tariff, schedule_in_force,
  get_current_schedule, get_default_schedule, default_rates, nth, hours_in_day,
  tariff_notice_period,
}
use utility_contracts.UtilityContracts.TariffOracle.Proposals.{
  Proposed, proposals_of, Reachable-AreDated,
}
use utility_contracts.UtilityContracts.TariffOracle.History.{
  IsValid, IsSound, Reachable, Reachable-IsSound,
}

default-IsValid : (env : Env) → IsValid (get_default_schedule env)
unfolding length hours_valid default_rates
default-IsValid env = record { complete = refl; ordered = refl }

in_force-IsValid : (env : Env) (s : State) → IsSound s → IsValid (schedule_in_force env s)
unfolding schedule_in_force get_current_schedule
in_force-IsValid env s inv = elim (Option-cases s.today_tariff_schedule) [
  | inr (x, e) ↦ rw (schedule_in_force, e) (inv.today x e)
  | inl e ↦ elim (Option-cases s.current_tariff_schedule) [
    | inr (x, f) ↦ rw (schedule_in_force, e, f) (inv.current x f)
    | inl f ↦ rw (schedule_in_force, e, f) (default-IsValid env)
  ]
]

nth_valid :
    (rates : List HourlyTariff) (i h : ℕ)
    → hours_valid i rates ≡ true
    → h < length rates
    → (tariff : HourlyTariff) × (nth rates h ≡ some tariff)
      × (tariff.hour ≡ i + h)
      × (pos 1 ≤ℤ tariff.rate_cents_per_kwh)
unfolding hours_valid length nth
nth_valid [] i h v lt = absurd (omega (arith, lt))
nth_valid (x ∷ rest) i zero v lt =
    let same : (x.hour == i) ≡ true = ground (arith, v) in
    let up : leb_ℤ x.rate_cents_per_kwh (pos 0) ≡ false = ground (arith, v) in
    (x, refl, ground (arith, same), ground (arith, up))
nth_valid (x ∷ rest) i (suc h) v lt =
    let (tariff, found, hour, up) =
      nth_valid rest (i + 1) h (ground (arith, v)) (omega (arith, lt)) in
    (tariff, found, omega (arith, hour), up)

-- In every state that calls reach from an oracle with nothing stored, with today's schedule
-- expiring at any time, and for every hour below 24: the oracle returns a tariff, it is the one of
-- that hour, and its rate is positive.
pub Reachable-priced :
    (env : Env) (hour : ℕ) (s : State)
    → Reachable s
    → hour < 24
    → (tariff : HourlyTariff) × (get_current_tariff env hour s ≡ ok (tariff, s))
      × (tariff.hour ≡ hour)
      × (pos 1 ≤ℤ tariff.rate_cents_per_kwh)
unfolding get_current_tariff
Reachable-priced env hour s r lt =
    let v = in_force-IsValid env s (Reachable-IsSound s r) in
    let few : hour < length (schedule_in_force env s).hourly_rates =
      omega (arith, lt, v.complete) in
    let (tariff, found, named, up) =
      nth_valid (schedule_in_force env s).hourly_rates 0 hour v.ordered few in
    let in_day : leb hours_in_day hour ≡ false = ground (arith, lt) in
    (tariff, ground (arith, in_day, found), omega (arith, named), up)

-- After any history of calls, where an update is executed: a call in that history proposed it under
-- that number, at a ledger's time such that the time now is at least a day later, modulo 2^64, and
-- the schedule of that call, which has 24 positive rates in the order of the hours, becomes the
-- current one.
pub execute_after_notice :
    (env : Env) (i : ℕ) (s s' : State) (r : Reachable s)
    → execute_tariff_update env i s ≡ ok (tt, s')
    → (time : ℕ) × (x : DailyTariffSchedule) × Proposed i time x (proposals_of r)
      × ((time + tariff_notice_period) % 2 ^ 64 ≤ env.now)
      × (s'.current_tariff_schedule ≡ some x)
      × IsValid x
unfolding execute_tariff_update
execute_after_notice env i s s' r h = elim (Option-cases s.tariff_oracle_admin) [
  | inl a ↦ absurd (ground (arith, h, a))
  | inr (admin, a) ↦ elim (Option-cases (s.tariff_update_proposal i)) [
    | inl e ↦ absurd (ground (arith, h, a, e))
    | inr (p, e) ↦ elim (Option-cases s.current_tariff_schedule) [
      | inl f ↦ absurd (ground (arith, h, a, e, f))
      | inr (old, f) ↦
          let valid = (Reachable-IsSound s r).proposals i p e in
          let d = Reachable-AreDated s r i p e in
          let due : ltb env.now p.executable_at ≡ false = ground (arith, h, a, e, f) in
          let late = ltb→le env.now p.executable_at due in
          (
            d.time,
            p.new_schedule,
            d.logged,
            omega (arith, late, d.notice),
            ground (arith, h, a, e, f),
            valid,
          )
    ]
  ]
]

-- The rates by the hour that are in force.
unfoldable pub rates_in_force : Env → State → (hour : ℕ) → ℕ
unfolding get_current_tariff
rates_in_force env s hour = elim (get_current_tariff env hour s) [
  | ok r ↦ pos_part r.0.rate_cents_per_kwh
  | err e ↦ 0
]

pub Reachable-PricedBy :
    (env : Env) (s : State) → Reachable s → PricedBy env s (rates_in_force env s)
unfolding rates_in_force
Reachable-PricedBy env s r hour lt =
    let (tariff, got, named, up) = Reachable-priced env hour s r lt in
    (tariff, got, ground (arith, got, up))
