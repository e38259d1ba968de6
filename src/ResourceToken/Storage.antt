-- ===== src/ResourceToken/Storage.antt =====
-- storage.rs. The keys of the contract, once under the namespace prefix and once as they were before
-- it: `DataKey::encode` is taken to be injective, so each key is a field of its own. The extension of a
-- key's time to live is not modelled.
use utility_contracts.Base.{
  ℕ, ◌+◌, ◌%◌, ◌^◌, ℤ, pos, eqb_ℤ, Bool, not, Option, none, some, List, [], ◌∷◌, Table, lookup,
  insert, erase, Call, modify, panic_if, if◌then◌else◌, unwrap_or, ◌==◌,
}

pub record Entries : Type 0 where
  pub admin : Option ℕ
  pub operator : Table ℕ
  pub nonce : Table ℕ
  pub total_supply : Option ℤ
  pub balance : Table ℤ

pub data Event : Type 0 where
  admin_set : ℕ → Event
  operator_auth : (operator expiration : ℕ) → Event
  operator_revoke : ℕ → Event
  mint_event burn_event : ℕ → ℤ → Event

pub record State : Type 0 where
  pub scoped : Entries
  pub legacy : Entries
  pub events : List Event

-- The messages of the contract's panics, and a failed `require_auth`.
pub data Panic : Type 0 where
  already_initialized admin_not_set no_admin not_authorized expiration_not_future
        amount_not_positive supply_overflow max_supply_exceeded balance_overflow
        insufficient_balance balance_underflow supply_underflow :
      Panic

-- The ledger's clock and the addresses that authorized the call.
pub record Env : Type 0 where
  pub now : ℕ
  pub authorized : ℕ → Bool

abbrev pub Action : Type 0 → Type 0
Action A = Call State Panic A

abbrev pub require_auth : Env → ℕ → Action (Unit {0})
require_auth env who = panic_if (not (env.authorized who)) not_authorized

abbrev pub publish : Event → Action (Unit {0})
publish e = modify (λ s. record s { events = e ∷ s.events })

-- `MAX_SUPPLY`.
abbrev pub max_supply : ℕ
max_supply = 1_000_000_000_000_000

abbrev pub on_scoped : (Entries → Entries) → State → State
on_scoped f s = record s { scoped = f s.scoped }

unfoldable pub get_admin : State → Option ℕ
get_admin s = s.scoped.admin

unfoldable pub set_admin : ℕ → State → State
set_admin admin = on_scoped (λ e. record e { admin = some admin })

unfoldable pub get_operator_expiration : ℕ → State → Option ℕ
get_operator_expiration operator s = lookup operator s.scoped.operator

unfoldable pub set_operator : (operator expiration : ℕ) → State → State
set_operator operator expiration =
    on_scoped (λ e. record e { operator = insert operator expiration e.operator })

unfoldable pub remove_operator : ℕ → State → State
remove_operator operator = on_scoped (λ e. record e { operator = erase operator e.operator })

unfoldable pub get_nonce : ℕ → State → ℕ
get_nonce address s = unwrap_or 0 (lookup address s.scoped.nonce)

-- The nonce is a `u64`, whose increment wraps in a release build.
unfoldable pub increment_nonce : ℕ → State → State
unfolding get_nonce
increment_nonce address s =
    let new_nonce = (get_nonce address s + 1) % 2 ^ 64 in
    on_scoped (λ e. record e { nonce = insert address new_nonce e.nonce }) s

unfoldable pub get_total_supply : State → ℤ
get_total_supply s = unwrap_or (pos 0) s.scoped.total_supply

unfoldable pub set_total_supply : ℤ → State → State
set_total_supply supply = on_scoped (λ e. record e { total_supply = some supply })

unfoldable pub get_balance : ℕ → State → ℤ
get_balance address s = unwrap_or (pos 0) (lookup address s.scoped.balance)

unfoldable pub set_balance : ℕ → ℤ → State → State
set_balance address balance =
    on_scoped (λ e. record e { balance = insert address balance e.balance })

-- `migrate_namespace`: each legacy entry that is present (for numbers, not zero) replaces the scoped
-- one and is removed.
abbrev pub move_admin : State → State
move_admin s = elim s.legacy.admin [
  | none ↦ s
  | some a ↦ record s {
    scoped = record (s.scoped) { admin = some a };
    legacy = record (s.legacy) { admin = none };
  }
]

abbrev pub move_supply : State → State
move_supply s =
    let supply = unwrap_or (pos 0) s.legacy.total_supply in
    if eqb_ℤ supply (pos 0) then s else record s {
      scoped = record (s.scoped) { total_supply = some supply };
      legacy = record (s.legacy) { total_supply = none };
    }

abbrev move_balance : ℕ → State → State
move_balance addr s =
    let balance = unwrap_or (pos 0) (lookup addr s.legacy.balance) in
    if eqb_ℤ balance (pos 0) then s else record s {
      scoped = record (s.scoped) { balance = insert addr balance s.scoped.balance };
      legacy = record (s.legacy) { balance = erase addr s.legacy.balance };
    }

abbrev move_nonce : ℕ → State → State
move_nonce addr s =
    let nonce = unwrap_or 0 (lookup addr s.legacy.nonce) in
    if nonce == 0 then s else record s {
      scoped = record (s.scoped) { nonce = insert addr nonce s.scoped.nonce };
      legacy = record (s.legacy) { nonce = erase addr s.legacy.nonce };
    }

abbrev move_operator : ℕ → State → State
move_operator addr s = elim (lookup addr s.legacy.operator) [
  | none ↦ s
  | some expiration ↦ record s {
    scoped = record (s.scoped) { operator = insert addr expiration s.scoped.operator };
    legacy = record (s.legacy) { operator = erase addr s.legacy.operator };
  }
]

unfoldable pub move_address : ℕ → State → State
move_address addr s = move_operator addr (move_nonce addr (move_balance addr s))

unfoldable pub move_addresses : List ℕ → State → State
move_addresses [] s = s
move_addresses (addr ∷ addresses) s = move_addresses addresses (move_address addr s)

unfoldable pub migrate : List ℕ → State → State
unfolding move_addresses move_address
migrate addresses s = move_addresses addresses (move_supply (move_admin s))
