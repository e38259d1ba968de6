-- ===== src/Settlement/Rates.antt =====
-- rate_application.rs and conversion.rs: the oracle's rate, its staleness, and the conversion of a
-- volume into settlement currency.
use native.Mathlib.Nat.{sub_self}
use utility_contracts.Base.{
  ℕ, ◌*◌, ◌/◌, ◌-◌, ◌<◌, ◌≡◌, ℤ, pos, Option, some, none, ok, err, Result, Bool, false, ltb, ltb_ℤ,
  if◌then◌else◌, checked_mul, checked_div, saturating_sub, to_u32, ◌>>=◌, ◌>>◌, pure, modify,
  or_panic, arith, i128_half, checked_mul_pos, saturating_sub_pos, ◌∷◌, Bool-cases, inl, inr,
  ltb→lt, ◌/ℤ◌, panic_if,
}
use utility_contracts.Settlement.Host.{
  Outside, Action, Env, State, stale_fallback, contract, arithmetic, SettlementError,
  slippage_exceeded, oracle_stale, call_get_price, OraclePrice,
}
use utility_contracts.Settlement.Fees.{bps_denominator}

abbrev pub max_slippage_bps : ℕ
max_slippage_bps = 100

abbrev pub decimal_denominator : ℕ
decimal_denominator = 10_000_000

abbrev pub max_oracle_age : ℕ
max_oracle_age = 600

abbrev pub fallback_rate : ℕ
fallback_rate = 50_000_000

unfoldable pub is_stale : (now last_updated : ℕ) → Bool
is_stale now last_updated = ltb max_oracle_age (now - last_updated)

unfoldable pub compute_fallback_rate : ℤ
compute_fallback_rate = pos fallback_rate

abbrev pub below_minimum : Option ℤ → ℤ → Bool
below_minimum none actual = false
below_minimum (some min_expected) actual = ltb_ℤ actual min_expected

checked_div_scale :
    (n : ℕ) → n < i128_half → checked_div (pos n) (pos 10_000_000) ≡ some (pos (n / 10_000_000))
unfolding checked_div ◌/ℤ◌
checked_div_scale n h = ground arith

module _ {W : Type 0} where
  -- `volume.checked_mul(rate).expect(..).checked_div(DECIMAL_DENOMINATOR).expect(..)`
  unfoldable pub apply_rate_to_volume : (volume rate : ℤ) → Action W ℤ
  apply_rate_to_volume volume rate = do
    product ← or_panic (checked_mul volume rate) arithmetic
    or_panic (checked_div product (pos decimal_denominator)) arithmetic

  unfoldable pub get_fresh_rate :
      Outside W → Env → (oracle : ℕ) → Action W (Result SettlementError ℤ)
  unfolding is_stale
  get_fresh_rate out env oracle = do
    price ← call_get_price out oracle
    pure (if is_stale env.now price.last_updated then err oracle_stale else ok price.price)

  abbrev fall_back : Env → OraclePrice → Action W ℤ
  fall_back env price = do
    let fallback = compute_fallback_rate
    modify
        (λ s. record s { events = stale_fallback env.now price.last_updated fallback ∷ s.events })
    pure fallback

  unfoldable pub resolve_rate : Outside W → Env → (oracle : ℕ) → Action W ℤ
  unfolding is_stale compute_fallback_rate
  resolve_rate out env oracle = do
    price ← call_get_price out oracle
    if is_stale env.now price.last_updated then fall_back env price else pure price.price

  -- The slippage of `actual` against `expected`, in basis points.
  unfoldable pub slippage_of : (expected actual : ℤ) → Action W ℕ
  slippage_of expected actual =
      if ltb_ℤ (pos 0) expected
      then (do
        scaled ←
            or_panic (checked_mul (saturating_sub expected actual) (pos bps_denominator)) arithmetic
        bps ← or_panic (checked_div scaled expected) arithmetic
        pure (to_u32 bps))
      else pure 0

  unfoldable pub convert_to_settlement_currency :
      (rate volume : ℤ) → (min_expected_amount : Option ℤ) → Action W ℤ
  convert_to_settlement_currency rate volume min_expected_amount = do
    expected_amount ← apply_rate_to_volume volume rate
    let actual_amount = expected_amount
    slippage_bps ← slippage_of expected_amount actual_amount
    panic_if (ltb max_slippage_bps slippage_bps) (contract slippage_exceeded)
    panic_if (below_minimum min_expected_amount actual_amount) (contract slippage_exceeded)
    pure actual_amount

  -- `convert_to_settlement_currency` compares the amount with itself, so the slippage is always zero.
  slippage_of_self :
      (n : ℕ) (s : State W) → n < i128_half → slippage_of (pos n) (pos n) s ≡ ok (0, s)
  unfolding slippage_of checked_div ◌/ℤ◌
  slippage_of_self n s h =
      rw (saturating_sub_pos n n (omega arith) h, sub_self n, checked_mul_pos 0 10000)
        (ground arith)

  -- For a volume and a rate that are not negative, a conversion fails only where the product
  -- overflows or the caller's own minimum is missed, and changes no state: the protocol's bound on
  -- slippage rejects nothing.
  pub convert_to_settlement_currency_lem :
      (rate volume : ℕ) (minimum : Option ℤ) (s : State W)
      → let amount = pos (volume * rate / 10_000_000) in
        convert_to_settlement_currency (pos rate) (pos volume) minimum s ≡ (
          if ltb (volume * rate) i128_half
          then if below_minimum minimum amount
            then err (contract slippage_exceeded)
            else ok (amount, s)
          else err arithmetic)
  unfolding convert_to_settlement_currency apply_rate_to_volume
  convert_to_settlement_currency_lem rate volume minimum s =
      let amount : ℕ = volume * rate / 10_000_000 in
      rw (checked_mul_pos volume rate) (elim (Bool-cases (ltb (volume * rate) i128_half)) [
        | inr e ↦ rw e
        | inl e ↦
            let small : volume * rate < i128_half = ltb→lt _ _ e in
            let self = slippage_of_self amount s (omega arith) in
            let scaled = checked_div_scale (volume * rate) small in ground (arith, scaled, self)
      ])
