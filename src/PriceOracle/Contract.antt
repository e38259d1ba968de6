-- ===== src/PriceOracle/Contract.antt =====
-- The price oracle's storage and entry points. Each of its three keys exists under the namespace prefix
-- and, before a migration, without it; key encodings are taken to be injective.
use utility_contracts.Base.{
  ℕ, ◌-◌, ℤ, pos, Bool, not, Option, none, some, ltb, leb, leb_ℤ, Call, ◌>>=◌, ◌>>◌, gets, modify,
  pure, panic_if, or_panic, is_some, saturating_mul, checked_div,
}

pub record PriceData : Type 0 where
  pub price : ℤ
  pub decimals : ℕ
  pub last_updated : ℕ

-- The keys of `DataKey`.
pub record Entries : Type 0 where
  pub price : Option PriceData
  pub admin : Option ℕ
  pub updater : Option ℕ

pub record State : Type 0 where
  pub scoped : Entries
  pub legacy : Entries

-- `ContractError`, the panic of a second `initialize`, a failed `require_auth` and a failed division.
pub data ContractError : Type 0 where
  already_initialized not_authorized invalid_price stale_price not_initialized arithmetic :
      ContractError

pub record Env : Type 0 where
  pub now : ℕ
  pub authorized : ℕ → Bool

abbrev pub Action : Type 0 → Type 0
Action A = Call State ContractError A

abbrev pub require_auth : Env → ℕ → Action (Unit {0})
require_auth env who = panic_if (not (env.authorized who)) not_authorized

abbrev pub max_price_age_seconds : ℕ
max_price_age_seconds = 300

abbrev pub on_scoped : (Entries → Entries) → Action (Unit {0})
on_scoped f = modify (λ s. record s { scoped = f s.scoped })

-- The free function `migrate_namespace`: what is present under an old key replaces the new entry.
abbrev move_admin : State → State
move_admin s = elim s.legacy.admin [
  | none ↦ s
  | some a ↦ record s {
    scoped = record (s.scoped) { admin = some a };
    legacy = record (s.legacy) { admin = none };
  }
]

abbrev move_updater : State → State
move_updater s = elim s.legacy.updater [
  | none ↦ s
  | some a ↦ record s {
    scoped = record (s.scoped) { updater = some a };
    legacy = record (s.legacy) { updater = none };
  }
]

abbrev move_price : State → State
move_price s = elim s.legacy.price [
  | none ↦ s
  | some p ↦ record s {
    scoped = record (s.scoped) { price = some p };
    legacy = record (s.legacy) { price = none };
  }
]

unfoldable pub migrate_namespace : Action (Unit {0})
migrate_namespace = modify (λ s. move_price (move_updater (move_admin s)))

-- A price as of now.
abbrev pub dated : Env → ℤ → ℕ → PriceData
dated env price decimals = record { price = price; decimals = decimals; last_updated = env.now }

unfoldable pub initialize : Env → (admin updater : ℕ) → ℤ → (decimals : ℕ) → Action (Unit {0})
initialize env admin updater initial_price decimals = do
  panic_if (is_some (← gets (λ s. s.scoped.admin))) already_initialized
  panic_if (leb_ℤ initial_price (pos 0)) invalid_price
  on_scoped (λ e. record e { admin = some admin })
  on_scoped (λ e. record e { updater = some updater })
  on_scoped (λ e. record e { price = some (dated env initial_price decimals) })

unfoldable pub get_price : Action PriceData
get_price = do or_panic (← gets (λ s. s.scoped.price)) not_initialized

unfoldable pub get_decimals : Action ℕ
unfolding get_price
get_decimals = do price_data ← get_price; pure price_data.decimals

unfoldable pub get_price_value : Action ℤ
unfolding get_price
get_price_value = do price_data ← get_price; pure price_data.price

unfoldable pub update_price : Env → ℤ → Action (Unit {0})
unfolding get_decimals
update_price env new_price = do
  updater ← or_panic (← gets (λ s. s.scoped.updater)) not_initialized
  require_auth env updater
  panic_if (leb_ℤ new_price (pos 0)) invalid_price
  decimals ← get_decimals
  on_scoped (λ e. record e { price = some (dated env new_price decimals) })

-- `now.saturating_sub(last_updated)` of two `u64` stops at zero.
unfoldable pub get_fresh_price : Env → Action PriceData
unfolding get_price
get_fresh_price env = do
  price_data ← get_price
  panic_if (ltb max_price_age_seconds (env.now - price_data.last_updated)) stale_price
  pure price_data

unfoldable pub is_price_fresh : Env → Action Bool
unfolding get_price
is_price_fresh env = do
  price_data ← get_price
  pure (leb (env.now - price_data.last_updated) max_price_age_seconds)

unfoldable pub xlm_to_usd_cents : Env → ℤ → Action ℤ
unfolding get_fresh_price
xlm_to_usd_cents env xlm_amount = do
  price_data ← get_fresh_price env
  pure (saturating_mul xlm_amount price_data.price)

-- Rust's division panics on zero and on the one overflow.
unfoldable pub usd_cents_to_xlm : Env → ℤ → Action ℤ
unfolding get_fresh_price
usd_cents_to_xlm env usd_cents = do
  price_data ← get_fresh_price env
  or_panic (checked_div usd_cents price_data.price) arithmetic

unfoldable pub get_admin : Action ℕ
get_admin = do or_panic (← gets (λ s. s.scoped.admin)) not_initialized

unfoldable pub get_updater : Action ℕ
get_updater = do or_panic (← gets (λ s. s.scoped.updater)) not_initialized

unfoldable pub set_admin : Env → ℕ → Action (Unit {0})
set_admin env new_admin = do
  admin ← or_panic (← gets (λ s. s.scoped.admin)) not_initialized
  require_auth env admin
  on_scoped (λ e. record e { admin = some new_admin })

unfoldable pub set_updater : Env → ℕ → Action (Unit {0})
set_updater env new_updater = do
  admin ← or_panic (← gets (λ s. s.scoped.admin)) not_initialized
  require_auth env admin
  on_scoped (λ e. record e { updater = some new_updater })
