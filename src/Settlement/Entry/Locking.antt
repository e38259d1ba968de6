-- ===== src/Settlement/Entry/Locking.antt =====
-- The reentrancy lock around the entry points.
use utility_contracts.Base.{
  ℕ, ◌≡◌, refl, true, false, ok, err, arith, Bool-cases, Result-cases, ◌⊎◌, inl, inr, not, leb_ℤ,
  ltb, to_u32, checked_mul, checked_div, ℤ, pos, ◌==◌, eqb_ℤ, ltb_ℤ, saturating_sub, Option,
}
use utility_contracts.Settlement.Host.{
  Outside, Env, State, Action, contract, reentrant_call, call_transfer, call_get_price, acquire,
  release, guarded, arithmetic, slippage_exceeded, not_authorized, invalid_fee_rate,
}
use utility_contracts.Settlement.Fees.{collect_fee, compute_fee, bps_denominator, max_fee_rate_bps}
use utility_contracts.Settlement.Rates.{
  below_minimum, decimal_denominator, max_slippage_bps, slippage_of, apply_rate_to_volume,
  resolve_rate, is_stale, convert_to_settlement_currency,
}
use utility_contracts.Settlement.Entry.Lockstep.{
  Same, bind-Same, branch-Same, pure-Same, panic_if-Same, or_panic-Same,
}
use utility_contracts.Settlement.Entry.{
  pay, settle_body, finalize_body, convert_and_pay, settle, finalize_settlement, SettlementArgs,
  SettlementResult,
}

module _ {W : Type 0} where
  guarded_locked :
      {A : Type 0} (body : Action W A) (s : State W)
      → s.lock ≡ true
      → guarded body s ≡ err (contract reentrant_call)
  unfolding acquire
  guarded_locked body s h = ground arith

  -- While the lock is held both entry points abort with `ReentrantCall`, whatever their arguments.
  pub reentry_aborts :
      (out : Outside W) (env : Env) (oracle token payer payee fee_collector : ℕ) (amount : ℤ)
      (args : SettlementArgs) (rate_bps : ℕ) (s : State W)
      → s.lock ≡ true
      → (settle out env token payer payee fee_collector amount rate_bps s
          ≡ err (contract reentrant_call))
        × (finalize_settlement out env oracle payer fee_collector args rate_bps s
            ≡ err (contract reentrant_call))
  unfolding settle finalize_settlement
  reentry_aborts out env oracle token payer payee fee_collector amount args rate_bps s h =
      (guarded_locked _ s h, guarded_locked _ s h)

  -- Two worlds whose contracts behave alike towards a caller that holds the lock.
  pub record AgreeLocked (out out' : Outside W) : Type 0 where
    pub transfers :
        (token from to : ℕ) (x : ℤ) (w : W)
        → out.transfer true token from to x w ≡ out'.transfer true token from to x w
    pub prices : (oracle : ℕ) (w : W) → out.get_price true oracle w ≡ out'.get_price true oracle w

  module _ (out out' : Outside W) (agree : AgreeLocked out out') (env : Env) where
    call_transfer-Same :
        (token from to : ℕ) (x : ℤ)
        → Same (call_transfer out token from to x) (call_transfer out' token from to x)
    call_transfer-Same token from to x = record {
      at = λ s h. (ground (arith, agree.transfers token from to x s.outside), ground arith);
    }

    call_get_price-Same :
        (oracle : ℕ) → Same (call_get_price out oracle) (call_get_price out' oracle)
    call_get_price-Same oracle = record {
      at = λ s h. (ground (arith, agree.prices oracle s.outside), ground arith);
    }

    collect_fee-Same :
        (token payer fee_collector : ℕ) (amount : ℤ) (rate_bps : ℕ)
        → Same
            (collect_fee out token payer fee_collector amount rate_bps)
            (collect_fee out' token payer fee_collector amount rate_bps)
    unfolding collect_fee
    collect_fee-Same token payer fee_collector amount rate_bps =
        let fee = compute_fee amount rate_bps in
        branch-Same (rate_bps == 0) _ _ _ _ (pure-Same (pos 0)) (
          branch-Same (eqb_ℤ fee (pos 0)) _ _ _ _ (pure-Same (pos 0)) (
            bind-Same _ _ _ _ (call_transfer-Same token payer fee_collector fee)
              λ _. pure-Same fee))

    pay-Same :
        (token payer payee fee_collector : ℕ) (amount : ℤ) (rate_bps : ℕ)
        → Same
            (pay out env token payer payee fee_collector amount rate_bps)
            (pay out' env token payer payee fee_collector amount rate_bps)
    pay-Same token payer payee fee_collector amount rate_bps =
        bind-Same _ _ _ _ (collect_fee-Same token payer fee_collector amount rate_bps) λ fee.
          let net = saturating_sub amount fee in
          bind-Same _ _ _ _
            (branch-Same (ltb_ℤ (pos 0) net) _ _ _ _ (call_transfer-Same token payer payee net)
              (pure-Same tt))
            λ _. pure-Same (net, fee)

    resolve_rate-Same :
        (oracle : ℕ) → Same (resolve_rate out env oracle) (resolve_rate out' env oracle)
    unfolding resolve_rate
    resolve_rate-Same oracle = bind-Same _ _ _ _ (call_get_price-Same oracle) λ price.
        branch-Same (is_stale env.now price.last_updated) _ _ _ _ (record { at = λ s h. (refl, h) })
          (pure-Same price.price)

    slippage-Same :
        (expected actual : ℤ)
        → Same {W = W} {A = ℕ} (slippage_of expected actual) (slippage_of expected actual)
    unfolding slippage_of
    slippage-Same expected actual =
        branch-Same (ltb_ℤ (pos 0) expected) _ _ _ _
          (bind-Same _ _ _ _
            (or_panic-Same (checked_mul (saturating_sub expected actual) (pos bps_denominator))
              arithmetic)
            λ scaled.
              bind-Same _ _ _ _ (or_panic-Same (checked_div scaled expected) arithmetic)
                λ bps. pure-Same (to_u32 bps))
          (pure-Same 0)

    convert-Same :
        (rate volume : ℤ) (minimum : Option ℤ)
        → Same {W = W} {A = ℤ}
            (convert_to_settlement_currency rate volume minimum)
            (convert_to_settlement_currency rate volume minimum)
    unfolding convert_to_settlement_currency apply_rate_to_volume slippage_of
    convert-Same rate volume minimum =
        bind-Same _ _ _ _
          (bind-Same _ _ _ _ (or_panic-Same (checked_mul volume rate) arithmetic)
            λ product. or_panic-Same (checked_div product (pos decimal_denominator)) arithmetic)
          λ amount. bind-Same _ _ _ _ (slippage-Same amount amount) λ bps.
            bind-Same _ _ _ _
              (panic_if-Same (ltb max_slippage_bps bps) (contract slippage_exceeded))
              λ _.
                bind-Same _ _ _ _
                  (panic_if-Same (below_minimum minimum amount) (contract slippage_exceeded))
                  λ _. pure-Same amount

    convert_and_pay-Same :
        (oracle payer fee_collector : ℕ) (args : SettlementArgs) (rate_bps : ℕ)
        → Same
            (convert_and_pay out env oracle payer fee_collector args rate_bps)
            (convert_and_pay out' env oracle payer fee_collector args rate_bps)
    convert_and_pay-Same oracle payer fee_collector args rate_bps =
        bind-Same _ _ _ _ (panic_if-Same (not (env.authorized payer)) not_authorized) λ _.
          bind-Same _ _ _ _ (resolve_rate-Same oracle) λ rate.
            bind-Same _ _ _ _ (convert-Same rate args.volume args.min_expected_amount) λ amount.
              bind-Same _ _ _ _
                (pay-Same args.token_address payer args.recipient fee_collector amount rate_bps)
                λ paid. pure-Same _

    settle_body-Same :
        (token payer payee fee_collector : ℕ) (amount : ℤ) (rate_bps : ℕ)
        → Same
            (settle_body out env token payer payee fee_collector amount rate_bps)
            (settle_body out' env token payer payee fee_collector amount rate_bps)
    settle_body-Same token payer payee fee_collector amount rate_bps =
        bind-Same _ _ _ _
          (panic_if-Same (ltb max_fee_rate_bps rate_bps) (contract invalid_fee_rate))
          λ _. branch-Same (leb_ℤ amount (pos 0)) _ _ _ _ (pure-Same (pos 0, pos 0)) (
            bind-Same _ _ _ _ (panic_if-Same (not (env.authorized payer)) not_authorized)
              λ _. pay-Same token payer payee fee_collector amount rate_bps)

    finalize_body-Same :
        (oracle payer fee_collector : ℕ) (args : SettlementArgs) (rate_bps : ℕ)
        → Same
            (finalize_body out env oracle payer fee_collector args rate_bps)
            (finalize_body out' env oracle payer fee_collector args rate_bps)
    finalize_body-Same oracle payer fee_collector args rate_bps =
        bind-Same _ _ _ _
          (panic_if-Same (ltb max_fee_rate_bps rate_bps) (contract invalid_fee_rate))
          λ _.
            branch-Same (leb_ℤ args.volume (pos 0)) _ _ _ _ (pure-Same _)
              (convert_and_pay-Same oracle payer fee_collector args rate_bps)

  guarded-Same :
      {A : Type 0} (m m' : Action W A) (s : State W) → Same m m' → guarded m s ≡ guarded m' s
  unfolding acquire release
  guarded-Same m m' s same = elim (Bool-cases s.lock) [
    | inl e ↦ ground arith
    | inr e ↦ ground (arith, (same.at (record s { lock = true }) refl).0)
  ]

  -- Every call of another contract is made under the lock: two outsides that answer alike while the
  -- lock is held give the same results of `settle` and of `finalize_settlement`, whatever they
  -- would answer without the lock.
  pub calls_locked :
      (out out' : Outside W) (env : Env) (oracle token payer payee fee_collector : ℕ) (amount : ℤ)
      (args : SettlementArgs) (rate_bps : ℕ) (s : State W)
      → AgreeLocked out out'
      → (settle out env token payer payee fee_collector amount rate_bps s
          ≡ settle out' env token payer payee fee_collector amount rate_bps s)
        × (finalize_settlement out env oracle payer fee_collector args rate_bps s
            ≡ finalize_settlement out' env oracle payer fee_collector args rate_bps s)
  unfolding settle finalize_settlement
  calls_locked out out' env oracle token payer payee fee_collector amount args rate_bps s agree = (
    guarded-Same _ _ s
        (settle_body-Same out out' agree env token payer payee fee_collector amount rate_bps),
    guarded-Same _ _ s
        (finalize_body-Same out out' agree env oracle payer fee_collector args rate_bps),
  )

  guarded_unlocks :
      {A : Type 0} (m : Action W A) (s s' : State W) (a : A)
      → guarded m s ≡ ok (a, s')
      → (s.lock ≡ false) × (s'.lock ≡ false)
  unfolding acquire release
  guarded_unlocks m s s' a h = elim (Result-cases (m (record s { lock = true }))) [
    | inl (e, failed) ↦ ground (arith, failed)
    | inr (b, t, done) ↦ ground (arith, done)
  ]

  -- A call of `settle` or `finalize_settlement` that returns found the lock free and leaves it
  -- free.
  pub entry_unlocks :
      (out : Outside W) (env : Env) (oracle token payer payee fee_collector : ℕ) (amount : ℤ)
      (args : SettlementArgs) (rate_bps : ℕ) (s s' : State W) (pair : ℤ × ℤ)
      (result : SettlementResult)
      → (settle out env token payer payee fee_collector amount rate_bps s ≡ ok (pair, s'))
        ⊎ (finalize_settlement out env oracle payer fee_collector args rate_bps s ≡ ok (result, s'))
      → (s.lock ≡ false) × (s'.lock ≡ false)
  unfolding settle finalize_settlement
  entry_unlocks out env oracle token payer payee fee_collector amount args rate_bps s s' pair
        result =
      elim [ inl h ↦ guarded_unlocks _ s s' pair h | inr h ↦ guarded_unlocks _ s s' result h ]
