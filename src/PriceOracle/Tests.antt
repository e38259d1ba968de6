-- ===== src/PriceOracle/Tests.antt =====
-- The theorems on the price oracle at concrete states.
use utility_contracts.Base.{◌≡◌, refl, pos, some, ok, true, arith, inr}
use utility_contracts.PriceOracle.Contract.{
  State, Env, PriceData, initialize, xlm_to_usd_cents, usd_cents_to_xlm,
}
use utility_contracts.PriceOracle.Prices.{
  deployed, Reachable, start, next, initialized, IsSound, Reachable-IsSound, xlm_round_trip,
}

-- 12 cents for one XLM, set at time 1000 by administrator 1 for updater 2.
abbrev signed : Env
signed = record { now = 1000; authorized = λ who. true }

abbrev price : PriceData
price = record { price = pos 12; decimals = 2; last_updated = 1000 }

abbrev initial : State
initial = record deployed {
  scoped = record { price = some price; admin = some 1; updater = some 2 };
}

initializes : initialize signed 1 2 (pos 12) 2 deployed ≡ ok (tt, initial)
unfolding initialize
initializes = refl

initial-Reachable : Reachable initial
initial-Reachable = next start (initialized signed 1 2 (pos 12) 2 initializes)

Reachable-IsSound_example : IsSound initial
Reachable-IsSound_example = Reachable-IsSound initial-Reachable

abbrev later : Env
later = record { now = 1301; authorized = λ who. true }

initial-IsSound : IsSound initial
initial-IsSound = record { positive = omega arith; priced = inr (price, refl); migrated = refl }

xlm_round_trip_example :
    (xlm_to_usd_cents signed (pos 500) initial ≡ ok (pos 6000, initial))
    × (usd_cents_to_xlm signed (pos 6000) initial ≡ ok (pos 500, initial))
xlm_round_trip_example =
    xlm_round_trip signed initial price 500 12 initial-IsSound refl refl (omega arith) (omega arith)
