-- ===== src/PriceOracle/Prices.antt =====
-- What every history of the oracle keeps, and what a reader of a price can rely on.
use mathlib.Core.Path.{subst}
use native.Mathlib.Nat.{mul-div_cancel, mul-le-mul_left}
use utility_contracts.Base.{
  ℕ, ◌*◌, ◌-◌, ◌≤◌, ◌<◌, ◌≡◌, refl, sym, ℤ, pos, ◌<ℤ◌, Option, none, some, ok, err, leb, arith,
  i128_half, Option-cases, Bool-cases, inl, inr, if◌then◌else◌, saturating_mul_pos, checked_div,
  ◌/ℤ◌, ◌⊎◌, ◌∙◌,
}
use utility_contracts.PriceOracle.Contract.{
  State, Entries, Env, PriceData, initialize, update_price, set_admin, set_updater,
  migrate_namespace, get_price, get_decimals, get_fresh_price, is_price_fresh, xlm_to_usd_cents,
  usd_cents_to_xlm, dated, stale_price,
}

abbrev pub no_entries : Entries
no_entries = record { price = none; admin = none; updater = none }

abbrev pub deployed : State
deployed = record { scoped = no_entries; legacy = no_entries }

-- One successful call of an entry point that changes the state.
pub data Step : State → State → Type 0 where
  initialized :
      {s s' : State} (env : Env) (admin updater : ℕ) (price : ℤ) (decimals : ℕ)
      → initialize env admin updater price decimals s ≡ ok (tt, s')
      → Step s s'
  price_updated :
      {s s' : State} (env : Env) (price : ℤ) → update_price env price s ≡ ok (tt, s') → Step s s'
  admin_changed :
      {s s' : State} (env : Env) (admin : ℕ) → set_admin env admin s ≡ ok (tt, s') → Step s s'
  updater_changed :
      {s s' : State} (env : Env) (updater : ℕ) → set_updater env updater s ≡ ok (tt, s') → Step s s'
  migrated : {s s' : State} → migrate_namespace s ≡ ok (tt, s') → Step s s'

pub data Reachable : State → Type 0 where
  start : Reachable deployed
  next : {s s' : State} → Reachable s → Step s s' → Reachable s'

-- A stored price is positive.
abbrev pub PositivePrice : Option PriceData → Type 0
PositivePrice none = Unit
PositivePrice (some p) = pos 0 <ℤ p.price

-- The price is positive, it is there once the oracle has an admin, and the old keys are empty.
pub record IsSound (s : State) : Type 0 where
  pub positive : PositivePrice s.scoped.price
  pub priced : (s.scoped.admin ≡ none) ⊎ ((p : PriceData) × (s.scoped.price ≡ some p))
  pub migrated : s.legacy ≡ no_entries

initialize-IsSound :
    (env : Env) (admin updater : ℕ) (price : ℤ) (decimals : ℕ) (s s' : State)
    → IsSound s
    → initialize env admin updater price decimals s ≡ ok (tt, s')
    → IsSound s'
unfolding initialize
initialize-IsSound env admin updater price decimals s s' inv h =
    elim (Option-cases s.scoped.admin) [
      | inr (current, e) ↦ absurd (ground (arith, e))
      | inl e ↦
          let up : pos 0 <ℤ price = ground (arith, e) in
          let stored : s'.scoped.price ≡ some (dated env price decimals) = ground (arith, e) in
          let old : s'.legacy ≡ s.legacy = ground (arith, e) in
          record {
            positive = rw stored up;
            priced = inr (dated env price decimals, stored);
            migrated = old ∙ inv.migrated;
          }
    ]

update_price-IsSound :
    (env : Env) (price : ℤ) (s s' : State)
    → IsSound s
    → update_price env price s ≡ ok (tt, s')
    → IsSound s'
unfolding update_price get_decimals get_price
update_price-IsSound env price s s' inv h = elim (Option-cases s.scoped.updater) [
  | inl e ↦ absurd (ground (arith, e))
  | inr (updater, e) ↦ elim (Option-cases s.scoped.price) [
    | inl f ↦ absurd (ground (arith, e, f))
    | inr (p, f) ↦
        let up : pos 0 <ℤ price = ground (arith, e, f) in
        let stored : s'.scoped.price ≡ some (dated env price p.decimals) = ground (arith, e, f) in
        let old : s'.legacy ≡ s.legacy = ground (arith, e, f) in
        record {
          positive = rw stored up;
          priced = inr (dated env price p.decimals, stored);
          migrated = old ∙ inv.migrated;
        }
  ]
]

set_admin-IsSound :
    (env : Env) (admin : ℕ) (s s' : State)
    → IsSound s
    → set_admin env admin s ≡ ok (tt, s')
    → IsSound s'
unfolding set_admin
set_admin-IsSound env admin s s' inv h = elim (Option-cases s.scoped.admin) [
  | inl e ↦ absurd (ground (arith, e))
  | inr (current, e) ↦
      let price : s'.scoped.price ≡ s.scoped.price = ground (arith, e) in
      let old : s'.legacy ≡ s.legacy = ground (arith, e) in
      record {
        positive = rw price inv.positive;
        priced = elim (inv.priced) [
          | inl n ↦ absurd (ground (arith, e, n))
          | inr (p, f) ↦ inr (p, price ∙ f)
        ];
        migrated = old ∙ inv.migrated;
      }
]

set_updater-IsSound :
    (env : Env) (updater : ℕ) (s s' : State)
    → IsSound s
    → set_updater env updater s ≡ ok (tt, s')
    → IsSound s'
unfolding set_updater
set_updater-IsSound env updater s s' inv h = elim (Option-cases s.scoped.admin) [
  | inl e ↦ absurd (ground (arith, e))
  | inr (current, e) ↦
      let price : s'.scoped.price ≡ s.scoped.price = ground (arith, e) in
      let old : s'.legacy ≡ s.legacy = ground (arith, e) in
      record {
        positive = rw price inv.positive;
        priced = elim (inv.priced) [
          | inl n ↦ absurd (ground (arith, e, n))
          | inr (p, f) ↦ inr (p, price ∙ f)
        ];
        migrated = old ∙ inv.migrated;
      }
]

migrate-IsSound : (s s' : State) → IsSound s → migrate_namespace s ≡ ok (tt, s') → IsSound s'
unfolding migrate_namespace
migrate-IsSound s s' inv h =
    let empty = inv.migrated in
    let same : s' ≡ s = ground (arith, empty) in subst IsSound (sym same) inv

Step-IsSound : {s s' : State} → Step s s' → IsSound s → IsSound s'
Step-IsSound {s} {s'} (initialized env a u p d h) inv = initialize-IsSound env a u p d s s' inv h
Step-IsSound {s} {s'} (price_updated env p h) inv = update_price-IsSound env p s s' inv h
Step-IsSound {s} {s'} (admin_changed env a h) inv = set_admin-IsSound env a s s' inv h
Step-IsSound {s} {s'} (updater_changed env u h) inv = set_updater-IsSound env u s s' inv h
Step-IsSound {s} {s'} (migrated h) inv = migrate-IsSound s s' inv h

-- In every state that a newly deployed oracle reaches by successful calls, a stored price is
-- positive, one is stored once there is an admin, and the old keys are empty.
pub Reachable-IsSound : {s : State} → Reachable s → IsSound s
Reachable-IsSound start = record { positive = tt; priced = inl refl; migrated = refl }
Reachable-IsSound (next r step) = Step-IsSound step (Reachable-IsSound r)

-- With a price stored, it is fresh for 300 seconds: `is_price_fresh` says so, and `get_fresh_price`
-- returns it then and fails with `StalePrice` afterwards; neither changes the state.
pub get_fresh_price_lem :
    (env : Env) (s : State) (p : PriceData)
    → s.scoped.price ≡ some p
    → let fresh = leb (env.now - p.last_updated) 300 in
      (is_price_fresh env s ≡ ok (fresh, s))
      × (get_fresh_price env s ≡ (if fresh then ok (p, s) else err stale_price))
unfolding is_price_fresh get_fresh_price get_price
get_fresh_price_lem env s p h = elim (Bool-cases (leb (env.now - p.last_updated) 300)) [
  | inl e ↦ ground (arith, h, e)
  | inr e ↦ ground (arith, h, e)
]

divides_back :
    (amount rate : ℕ)
    → 0 < rate
    → amount * rate < i128_half
    → checked_div (pos (amount * rate)) (pos rate) ≡ some (pos amount)
unfolding checked_div ◌/ℤ◌
divides_back amount rate positive small =
    let cancel = mul-div_cancel amount positive in
    let bound = mul-le-mul_left amount positive in rw cancel (ground (arith, cancel, bound))

-- In a sound state with a fresh price, an amount that is not negative and whose value in cents fits
-- an `i128` converts to cents and back to itself.
pub xlm_round_trip :
    (env : Env) (s : State) (p : PriceData) (amount : ℕ) (rate : ℕ)
    → IsSound s
    → s.scoped.price ≡ some p
    → p.price ≡ pos rate
    → env.now - p.last_updated ≤ 300
    → amount * rate < i128_half
    → (xlm_to_usd_cents env (pos amount) s ≡ ok (pos (amount * rate), s))
      × (usd_cents_to_xlm env (pos (amount * rate)) s ≡ ok (pos amount, s))
unfolding xlm_to_usd_cents usd_cents_to_xlm get_fresh_price get_price
xlm_round_trip env s p amount rate inv stored is fresh small =
    let positive : 0 < rate = ground (arith, inv.positive, stored) in
    let product = saturating_mul_pos amount rate in
    let back : checked_div (pos (amount * rate)) (pos rate) ≡ some (pos amount) =
      divides_back amount rate positive small in
    ground (arith, stored, product, back)
