-- ===== src/UtilityContracts/Meters/Pools.antt =====
-- A provider's total pool as the sum of the values of its meters.
use utility_contracts.Base.{
  ℕ, suc, zero, ◌≡◌, refl, sym, ap, ◌∙◌, ◌⊎◌, put_cases, ℤ, pos, negsuc, arith, int_laws, Option,
  Bool-cases, inl, inr, false, none, some, ◌+ℤ◌, ◌-ℤ◌, ◌≤ℤ◌, ◌≤◌, ◌<◌, ◌^◌, ◌==◌, if◌then◌else◌,
  unwrap_or, Map, put, saturating_add, saturating_sub, saturating_add_fits, saturating_sub_fits,
}
use utility_contracts.UtilityContracts.Meters.Types.{Meter, State}
use utility_contracts.UtilityContracts.Meters.Helpers.{
  provider_meter_value, update_provider_total_pool,
}

-- What a meter adds to the pool of a provider.
abbrev pub worth : (provider : ℕ) → Option Meter → ℤ
worth provider none = pos 0
worth provider (some meter) =
    if meter.provider == provider then provider_meter_value meter else pos 0

-- The sum over the meters with the numbers from one to `n`.
unfoldable pub total : (provider : ℕ) → Map Meter → (n : ℕ) → ℤ
total provider meters zero = pos 0
total provider meters (suc n) = worth provider (meters (suc n)) +ℤ total provider meters n

total-put_outside :
    (p i : ℕ) (b : Meter) (m : Map Meter) (n : ℕ) → n < i → total p (put i b m) n ≡ total p m n
unfolding total
total-put_outside p i b m zero h = refl
total-put_outside p i b m (suc n) h =
    let other : (i == suc n) ≡ false = ground (arith, h) in
    rw (other, total-put_outside p i b m n (omega (arith, h))) refl

add_swap : (a b c : ℤ) → a +ℤ b +ℤ c ≡ c +ℤ b +ℤ a
add_swap a b c = grind int_laws

add_under : (a b c d e : ℤ) → b +ℤ c ≡ d +ℤ e → a +ℤ b +ℤ c ≡ a +ℤ d +ℤ e
add_under a b c d e h = grind (int_laws, h)

pub total-put :
    (p i : ℕ) (b : Meter) (m : Map Meter) (n : ℕ)
    → 1 ≤ i
    → i ≤ n
    → total p (put i b m) n +ℤ worth p (m i) ≡ total p m n +ℤ worth p (some b)
unfolding total
total-put p i b m zero low high = absurd (omega (arith, low, high))
total-put p i b m (suc n) low high = elim (Bool-cases (i == suc n)) [
  | inl e ↦
      let here : suc n ≡ i = ground (arith, e) in
      let found : put i b m (suc n) ≡ some b = ground (arith, e) in
      let rest = total-put_outside p i b m n (omega (arith, here)) in
      rw (found, rest) (rw here (add_swap (worth p (some b)) (total p m n) (worth p (m i))))
  | inr e ↦
      let below : i ≤ n = ground (arith, e, high) in
      let missed : put i b m (suc n) ≡ m (suc n) = ground (arith, e) in
      let rest = total-put p i b m n low below in
      rw missed (
        add_under (worth p (m (suc n))) (total p (put i b m) n) (worth p (m i)) (total p m n)
          (worth p (some b)) rest)
]

-- The pools agree with the meters, and the meters have the numbers from one to the count.
pub record IsTracked (s : State) : Type 0 where
  pub pools :
      (p : ℕ) → unwrap_or (pos 0) (s.provider_total_pool p) ≡ total p s.meter (unwrap_or 0 s.count)
  pub known : (i : ℕ) (meter : Meter) → s.meter i ≡ some meter → (1 ≤ i) × (i ≤ unwrap_or 0 s.count)

-- Far from where an `i128` saturates.
abbrev pub IsSmall : ℤ → Type 0
IsSmall a = (negsuc (2 ^ 124) ≤ℤ a) × (a ≤ℤ pos (2 ^ 124))

pub record IsModerate (s : State) : Type 0 where
  pub totals : (p : ℕ) → IsSmall (total p s.meter (unwrap_or 0 s.count))
  pub values :
      (i : ℕ) (meter : Meter) → s.meter i ≡ some meter → IsSmall (provider_meter_value meter)

-- One meter is stored again with the same provider.
pub record Stores (s s' : State) : Type 0 where
  pub i : ℕ
  pub old : Meter
  pub new : Meter
  pub found : s.meter i ≡ some old
  pub stored : s'.meter ≡ put i new s.meter
  pub same_provider : new.provider ≡ old.provider
  pub same_count : s'.count ≡ s.count

-- The pool of the provider follows the meter's value.
abbrev pub Follows : (s s' : State) → Stores s s' → Type 0
Follows s s' m =
    s'.provider_total_pool
    ≡ update_provider_total_pool m.old.provider (provider_meter_value m.old)
        (provider_meter_value m.new) s.provider_total_pool

shift_exact :
    (a b c : ℤ)
    → IsSmall a
    → IsSmall b
    → IsSmall c
    → saturating_add (saturating_sub a b) c ≡ a -ℤ b +ℤ c
shift_exact a b c p q r =
    let first = saturating_sub_fits a b (omega int_laws) (omega int_laws) in
    rw first (saturating_add_fits (a -ℤ b) c (omega int_laws) (omega int_laws))

cross : (a b c d : ℤ) → d +ℤ b ≡ a +ℤ c → a -ℤ b +ℤ c ≡ d
cross a b c d h = grind (int_laws, h)

same_after : (a b : ℤ) → a +ℤ pos 0 ≡ b +ℤ pos 0 → b ≡ a
same_after a b h = grind (int_laws, h)

module _ (s s' : State) (inv : IsTracked s) (m : Stores s s') where
  abbrev n : ℕ
  n = unwrap_or 0 s.count

  kept_known :
      (j : ℕ) (meter : Meter) → s'.meter j ≡ some meter → (1 ≤ j) × (j ≤ unwrap_or 0 s'.count)
  kept_known j meter h =
      let old : ((m.i ≡ j) × (m.new ≡ meter)) ⊎ (s.meter j ≡ some meter) =
        put_cases m.i j m.new meter s.meter (sym (ap (λ f. f j) m.stored) ∙ h) in
      let found : (1 ≤ j) × (j ≤ n) = elim old [
        | inl e ↦ rw⁻¹ (e.0) (inv.known m.i m.old m.found)
        | inr e ↦ inv.known j meter e
      ] in
      rw m.same_count found

  summed :
      (p : ℕ)
      → total p s'.meter (unwrap_or 0 s'.count) +ℤ worth p (some m.old)
        ≡ total p s.meter n +ℤ worth p (some m.new)
  summed p =
      let (low, high) = inv.known m.i m.old m.found in
      rw (m.stored, m.same_count) (rw m.found at (total-put p m.i m.new s.meter n low high))

  pools_after :
      (p : ℕ)
      → IsModerate s
      → IsModerate s'
      → Follows s s' m
      → unwrap_or (pos 0) (s'.provider_total_pool p) ≡ total p s'.meter (unwrap_or 0 s'.count)
  unfolding update_provider_total_pool
  pools_after p small small' moved = elim (Bool-cases (m.old.provider == p)) [
    | inr other ↦
        let same : s'.provider_total_pool p ≡ s.provider_total_pool p =
          ap (λ f. f p) moved ∙ ground (arith, other) in
        let sum : total p s'.meter (unwrap_or 0 s'.count) +ℤ pos 0 ≡ total p s.meter n +ℤ pos 0 =
          ground (arith, summed p, other, m.same_provider) in
        rw same (inv.pools p ∙ same_after _ _ sum)
    | inl own ↦
        let old = provider_meter_value m.old in
        let new = provider_meter_value m.new in
        let pool : unwrap_or (pos 0) (s'.provider_total_pool p)
            ≡ saturating_add (saturating_sub (unwrap_or (pos 0) (s.provider_total_pool p)) old)
                new =
          ap (λ f. unwrap_or (pos 0) (f p)) moved ∙ ground (arith, own) in
        let sum : total p s'.meter (unwrap_or 0 s'.count) +ℤ old ≡ total p s.meter n +ℤ new =
          ground (arith, summed p, own, m.same_provider) in
        let stored : s'.meter m.i ≡ some m.new = ap (λ f. f m.i) m.stored ∙ ground arith in
        let exact =
          shift_exact (total p s.meter n) old new (small.totals p) (small.values m.i m.old m.found)
            (small'.values m.i m.new stored) in
        pool ∙ rw (inv.pools p) (exact ∙ cross _ old new _ sum)
  ]

pub move-IsTracked :
    (s s' : State) (m : Stores s s')
    → IsTracked s
    → IsModerate s
    → IsModerate s'
    → Follows s s' m
    → IsTracked s'
move-IsTracked s s' m inv small small' moved = record {
  pools = λ p. pools_after s s' inv m p small small' moved;
  known = kept_known s s' inv m;
}

cancel : (a b c : ℤ) → a +ℤ c ≡ b +ℤ c → b ≡ a
cancel a b c h = grind (int_laws, h)

same_worth :
    (p : ℕ) (a b : Meter)
    → b.provider ≡ a.provider
    → provider_meter_value b ≡ provider_meter_value a
    → worth p (some b) ≡ worth p (some a)
same_worth p a b e h = ground (arith, e, h)

-- A meter that is stored with the same value leaves the pools right.
pub rest-IsTracked :
    (s s' : State) (m : Stores s s')
    → IsTracked s
    → provider_meter_value m.new ≡ provider_meter_value m.old
    → s'.provider_total_pool ≡ s.provider_total_pool
    → IsTracked s'
rest-IsTracked s s' m inv value pools = record {
  pools = λ p.
      let sum = summed s s' inv m p in
      let same = cancel _ _ _ (
        sum
        ∙ ap (λ w. total p s.meter (unwrap_or 0 s.count) +ℤ w)
            (same_worth p m.old m.new m.same_provider value)) in
      rw pools (inv.pools p ∙ same);
  known = kept_known s s' inv m;
}

add_zero : (a b : ℤ) → a ≡ pos 0 → b ≡ a +ℤ b
add_zero a b h = grind (int_laws, h)

-- A new meter without a balance leaves the pools right.
pub fresh-IsTracked :
    (s s' : State) (new : Meter)
    → IsTracked s
    → provider_meter_value new ≡ pos 0
    → s'.meter ≡ put (suc (unwrap_or 0 s.count)) new s.meter
    → s'.count ≡ some (suc (unwrap_or 0 s.count))
    → s'.provider_total_pool ≡ s.provider_total_pool
    → IsTracked s'
unfolding total
fresh-IsTracked s s' new inv empty stored counted pools = record {
  pools = λ p.
      let n = unwrap_or 0 s.count in
      let nothing : worth p (some new) ≡ pos 0 = ground (arith, empty) in
      let rest = total-put_outside p (suc n) new s.meter n (omega arith) in
      let here : put (suc n) new s.meter (suc n) ≡ some new = ground arith in
      rw (pools, stored, counted)
        (rw (here, rest) (inv.pools p ∙ add_zero (worth p (some new)) (total p s.meter n) nothing));
  known = λ j meter h.
      let n = unwrap_or 0 s.count in
      let old : ((suc n ≡ j) × (new ≡ meter)) ⊎ (s.meter j ≡ some meter) =
        put_cases (suc n) j new meter s.meter (sym (ap (λ f. f j) stored) ∙ h) in
      let found : (1 ≤ j) × (j ≤ suc n) = elim old [
        | inl e ↦ (omega (arith, e.0), omega (arith, e.0))
        | inr e ↦ let (low, high) = inv.known j meter e in (low, omega (arith, high))
      ] in
      rw counted found;
}
