-- ===== src/UtilityContracts/Meters/Shares.antt =====
-- How the payments of a claim and of a report add up.
use native.Mathlib.Nat.{mul-le-mul_left}
use utility_contracts.Base.{
  ℕ, ◌≡◌, ◌≢◌, refl, sym, ℤ, pos, Bool, arith, int_laws, ok, Option, Option-cases, Bool-cases, inl,
  inr, false, none, some, List, [], ◌∷◌, ◌+ℤ◌, ◌/ℤ◌, ◌*◌, ◌/◌, ◌≤◌, ◌<◌, ◌^◌, ◌-◌, wrapping_mul,
  wrapping_sub, wrapping_mul_pos, wrapping_sub_pos, div_pos, ◌==◌, if◌then◌else◌, ltb, i128_half,
}
use utility_contracts.UtilityContracts.Meters.Types.{Meter, Transfer, State, Env, call_transfer}
use utility_contracts.UtilityContracts.Meters.Helpers.{calculate_tax_split}
use utility_contracts.UtilityContracts.Meters.Payouts.{
  credit, credits_of, pay_tax, issue_carbon_credits, from_contract, get_tax_rate_or_default,
}

-- What an address sent in a list of transfers.
unfoldable pub sent_by : (address : ℕ) → List Transfer → ℤ
sent_by address [] = pos 0
sent_by address (t ∷ ts) = (if t.from == address then t.amount else pos 0) +ℤ sent_by address ts

-- A share of an amount is at most the amount.
pub share_pos :
    (n r : ℕ)
    → n < 2 ^ 112
    → r ≤ 10_000
    → (q : ℕ) × (wrapping_mul (pos n) (pos r) /ℤ pos 10_000 ≡ pos q)
      × (q ≤ n)
      × (q ≡ n * r / 10_000)
share_pos n r small le =
    let bound : n * r ≤ n * 10_000 = mul-le-mul_left n le in
    let fits : n * r < i128_half = omega (arith, bound, small) in
    (
      n * r / 10_000,
      rw (wrapping_mul_pos n r fits) (div_pos (n * r) 10_000),
      omega (arith, bound),
      refl,
    )

-- What a tax takes from the contract: nothing without a vault.
abbrev pub levied : Option ℕ → (tax : ℕ) → ℕ
levied none tax = 0
levied (some vault) tax = tax

pub sent_own :
    (env : Env) (meter : Meter) (to n : ℕ) (log : List Transfer)
    → sent_by env.current_contract (from_contract env meter to (pos n) ∷ log)
      ≡ pos n +ℤ sent_by env.current_contract log
unfolding sent_by
sent_own env meter to n log = ground arith

pub sent_nothing :
    (address : ℕ) (log : List Transfer) → sent_by address log ≡ pos 0 +ℤ sent_by address log
sent_nothing address log = grind int_laws

abbrev pub share : (n r : ℕ) → ℕ
share n r = n * r / 10_000

tax_split_pos :
    (n r : ℕ)
    → n < 2 ^ 112
    → r ≤ 10_000
    → (share n r ≤ n)
      × (calculate_tax_split (pos n) (pos r) ≡ (pos (share n r), pos (n - share n r)))
unfolding calculate_tax_split
tax_split_pos n r small le =
    let (q, shared, within, exact) = share_pos n r small le in
    let at_most : share n r ≤ n = rw exact at within in
    let rest : wrapping_sub (pos n) (pos (share n r)) ≡ pos (n - share n r) =
      wrapping_sub_pos n (share n r) at_most (omega (arith, small)) in
    (at_most, rw (rw exact at shared, rest) refl)

pub tax_shares :
    (env : Env) (meter_id : ℕ) (meter : Meter) (n r : ℕ) (after : ℤ) (s s' : State)
    → n < 2 ^ 112
    → get_tax_rate_or_default s ≡ pos r
    → r ≤ 10_000
    → pay_tax env meter_id meter (pos n) s ≡ ok (after, s')
    → (share n r ≤ n)
      × (after ≡ pos (n - share n r))
      × (sent_by env.current_contract s'.transfers
          ≡ pos (levied s.government_vault (share n r)) +ℤ sent_by env.current_contract s.transfers)
unfolding pay_tax call_transfer
tax_shares env meter_id meter n r after s s' small rate le h =
    let c = env.current_contract in
    let tax = share n r in
    let (within, split) = tax_split_pos n r small le in
    let left : after ≡ pos (n - tax) = elim (Option-cases s.government_vault) [
      | inl e ↦ ground (arith, h, rate, split, e)
      | inr (vault, e) ↦ ground (arith, h, rate, split, e)
    ] in
    (
      within,
      left,
      elim (Option-cases s.government_vault) [
        | inl e ↦
            let same : s'.transfers ≡ s.transfers = ground (arith, h, rate, split, e) in
            rw (same, e) (sent_nothing c s.transfers)
        | inr (vault, e) ↦ elim (Bool-cases (ltb 0 tax)) [
          | inl up ↦
              let one : s'.transfers ≡ from_contract env meter vault (pos tax) ∷ s.transfers =
                ground (arith, h, rate, split, e, up) in
              rw (one, e) (sent_own env meter vault tax s.transfers)
          | inr zero_tax ↦
              let same : s'.transfers ≡ s.transfers = ground (arith, h, rate, split, e, zero_tax) in
              let nothing : tax ≡ 0 = ground (arith, zero_tax) in
              rw (same, e, nothing) (sent_nothing c s.transfers)
        ]
      ],
    )

pub sent_other :
    (env : Env) (meter : Meter) (token : ℕ) (amount : ℤ) (log : List Transfer)
    → meter.provider ≢ env.current_contract
    → sent_by env.current_contract (credit meter token amount ∷ log)
      ≡ sent_by env.current_contract log
unfolding sent_by
sent_other env meter token amount log other =
    let else_where : (meter.provider == env.current_contract) ≡ false = ground (arith, other) in
    rw else_where (sym (sent_nothing env.current_contract log))

-- Carbon credits come from the provider.
pub credits_shares :
    (env : Env) (meter_id : ℕ) (meter : Meter) (claimable : ℤ) (issued : Bool) (s s' : State)
    → meter.provider ≢ env.current_contract
    → issue_carbon_credits env meter_id meter claimable s ≡ ok (issued, s')
    → sent_by env.current_contract s'.transfers ≡ sent_by env.current_contract s.transfers
unfolding issue_carbon_credits call_transfer
credits_shares env meter_id meter claimable issued s s' other h =
    elim (Option-cases meter.carbon_credit_token) [
      | inl e ↦ ground (arith, h, e)
      | inr (token, e) ↦ elim (Option-cases s.oracle) [
        | inl o ↦ ground (arith, h, e, o)
        | inr (oracle, o) ↦ elim (Bool-cases issued) [
          | inl y ↦
              let one : s'.transfers
                  ≡ credit meter token (credits_of meter claimable) ∷ s.transfers =
                ground (arith, h, e, o, y) in
              rw one (sent_other env meter token (credits_of meter claimable) s.transfers other)
          | inr n ↦ ground (arith, h, e, o, n)
        ]
      ]
    ]
