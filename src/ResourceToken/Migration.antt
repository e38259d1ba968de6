-- ===== src/ResourceToken/Migration.antt =====
-- The contract's histories: every entry point as a step, and what no history can break.
use utility_contracts.Base.{
  ℕ, ◌≡◌, refl, ℤ, none, ok, List, [], ◌∷◌, arith, Option-cases, inl, inr, ◌∙◌, sym, checked_add,
  checked_sub,
}
use utility_contracts.ResourceToken.Storage.{
  Env, State, Entries, migrate, move_addresses, move_address, move_supply, move_admin,
  set_admin as store_admin, get_admin, increment_nonce, set_operator, remove_operator,
}
use utility_contracts.ResourceToken.Contract.{
  initialize, set_admin, authorize_operator, revoke_operator, mint, burn, migrate_namespace,
  authorize_admin,
}
use utility_contracts.ResourceToken.Supply.{IsBacked, supply, balance_in, mint_effect, burn_effect}

abbrev pub no_entries : Entries
no_entries = record { admin = none; operator = []; nonce = []; total_supply = none; balance = [] }

-- A contract as it is deployed, with nothing stored.
abbrev pub deployed : State
deployed = record { scoped = no_entries; legacy = no_entries; events = [] }

-- One successful call of an entry point.
pub data Step : State → State → Type 0 where
  initialized :
      {s s' : State} (env : Env) (admin : ℕ) → initialize env admin s ≡ ok (tt, s') → Step s s'
  admin_changed :
      {s s' : State} (env : Env) (admin : ℕ) → set_admin env admin s ≡ ok (tt, s') → Step s s'
  delegated :
      {s s' : State} (env : Env) (operator expiration : ℕ)
      → authorize_operator env operator expiration s ≡ ok (tt, s')
      → Step s s'
  revoked :
      {s s' : State} (env : Env) (operator : ℕ)
      → revoke_operator env operator s ≡ ok (tt, s')
      → Step s s'
  minted :
      {s s' : State} (env : Env) (to : ℕ) (amount : ℤ)
      → mint env to amount s ≡ ok (tt, s')
      → Step s s'
  burned :
      {s s' : State} (env : Env) (from : ℕ) (amount : ℤ)
      → burn env from amount s ≡ ok (tt, s')
      → Step s s'
  migrated :
      {s s' : State} (addresses : List ℕ) → migrate_namespace addresses s ≡ ok (tt, s') → Step s s'

pub data Reachable : State → Type 0 where
  start : Reachable deployed
  next : {s s' : State} → Reachable s → Step s s' → Reachable s'

move_addresses_empty :
    (addresses : List ℕ) (s : State) → s.legacy ≡ no_entries → move_addresses addresses s ≡ s
unfolding move_addresses move_address
move_addresses_empty [] s h = refl
move_addresses_empty (addr ∷ addresses) s h =
    let unmoved : move_address addr s ≡ s = rw h in rw unmoved (move_addresses_empty addresses s h)

-- With nothing stored under the old keys a migration changes nothing.
pub migrate_empty :
    (addresses : List ℕ) (s : State) → s.legacy ≡ no_entries → migrate addresses s ≡ s
unfolding migrate
migrate_empty addresses s h =
    let unmoved : move_supply (move_admin s) ≡ s = rw h in
    rw unmoved (move_addresses_empty addresses s h)

-- The ledger's tables and the old keys are as they were.
abbrev pub LedgerKept : State → State → Type 0
LedgerKept s s' =
    (s'.scoped.balance ≡ s.scoped.balance)
    × (s'.scoped.total_supply ≡ s.scoped.total_supply)
    × (s'.legacy ≡ s.legacy)

pub initialize_kept :
    (env : Env) (admin : ℕ) (s s' : State) → initialize env admin s ≡ ok (tt, s') → LedgerKept s s'
unfolding initialize set_admin get_admin store_admin
initialize_kept env admin s s' h = elim (Option-cases s.scoped.admin) [
  | inl e ↦ ground (arith, e)
  | inr (current, e) ↦ ground (arith, e)
]

pub set_admin_kept :
    (env : Env) (admin : ℕ) (s s' : State) → set_admin env admin s ≡ ok (tt, s') → LedgerKept s s'
unfolding set_admin get_admin store_admin
set_admin_kept env admin s s' h = elim (Option-cases s.scoped.admin) [
  | inl e ↦ ground (arith, e)
  | inr (current, e) ↦ ground (arith, e)
]

pub authorize_operator_kept :
    (env : Env) (operator expiration : ℕ) (s s' : State)
    → authorize_operator env operator expiration s ≡ ok (tt, s')
    → LedgerKept s s'
unfolding authorize_operator authorize_admin get_admin increment_nonce set_operator
authorize_operator_kept env operator expiration s s' h = elim (Option-cases s.scoped.admin) [
  | inl e ↦ absurd (ground (arith, e))
  | inr (current, e) ↦ ground (arith, e)
]

pub revoke_operator_kept :
    (env : Env) (operator : ℕ) (s s' : State)
    → revoke_operator env operator s ≡ ok (tt, s')
    → LedgerKept s s'
unfolding revoke_operator authorize_admin get_admin increment_nonce remove_operator
revoke_operator_kept env operator s s' h = elim (Option-cases s.scoped.admin) [
  | inl e ↦ absurd (ground (arith, e))
  | inr (current, e) ↦ ground (arith, e)
]

mint_legacy :
    (env : Env) (to : ℕ) (amount : ℤ) (s s' : State)
    → mint env to amount s ≡ ok (tt, s')
    → s'.legacy ≡ s.legacy
unfolding mint
mint_legacy env to amount s s' h = elim (Option-cases (checked_add (supply s) amount)) [
  | inl e ↦ absurd (ground (arith, e))
  | inr (new_supply, e) ↦ elim (Option-cases (checked_add (balance_in s to) amount)) [
    | inl f ↦ absurd (ground (arith, e, f))
    | inr (new_balance, f) ↦ ground (arith, e, f)
  ]
]

burn_legacy :
    (env : Env) (from : ℕ) (amount : ℤ) (s s' : State)
    → burn env from amount s ≡ ok (tt, s')
    → s'.legacy ≡ s.legacy
unfolding burn
burn_legacy env from amount s s' h = elim (Option-cases (checked_sub (balance_in s from) amount)) [
  | inl e ↦ absurd (ground (arith, e))
  | inr (new_balance, e) ↦ elim (Option-cases (checked_sub (supply s) amount)) [
    | inl f ↦ absurd (ground (arith, e, f))
    | inr (new_supply, f) ↦ ground (arith, e, f)
  ]
]

pub migrate_kept :
    (addresses : List ℕ) (s s' : State)
    → s.legacy ≡ no_entries
    → migrate_namespace addresses s ≡ ok (tt, s')
    → LedgerKept s s'
unfolding migrate_namespace
migrate_kept addresses s s' empty h =
    let same = migrate_empty addresses s empty in
    let ends : migrate addresses s ≡ s' = ground (arith, h) in
    let unchanged : s' ≡ s = sym ends ∙ same in rw unchanged (refl, refl, refl)

abbrev pub Sound : State → Type 0
Sound s = IsBacked s × (s.legacy ≡ no_entries)

kept : {s s' : State} → Sound s → LedgerKept s s' → Sound s'
kept (inv, empty) (eb, es, el) = (
  record { nonneg = rw eb inv.nonneg; backed = rw (eb, es) inv.backed; capped = rw es inv.capped },
  el ∙ empty,
)

pub Step-Sound : {s s' : State} → Step s s' → Sound s → Sound s'
Step-Sound {s} {s'} (initialized env admin h) inv = kept inv (initialize_kept env admin s s' h)
Step-Sound {s} {s'} (admin_changed env admin h) inv = kept inv (set_admin_kept env admin s s' h)
Step-Sound {s} {s'} (delegated env who n h) inv =
    kept inv (authorize_operator_kept env who n s s' h)
Step-Sound {s} {s'} (revoked env who h) inv = kept inv (revoke_operator_kept env who s s' h)
Step-Sound {s} {s'} (minted env to x h) (inv, empty) =
    ((mint_effect env to x s s' inv h).0, mint_legacy env to x s s' h ∙ empty)
Step-Sound {s} {s'} (burned env from x h) (inv, empty) =
    ((burn_effect env from x s s' inv h).0, burn_legacy env from x s s' h ∙ empty)
Step-Sound {s} {s'} (migrated addresses h) inv = kept inv (migrate_kept addresses s s' inv.1 h)

-- In every state that a newly deployed contract reaches by successful calls of its entry points,
-- the supply is the sum of the balances, no balance is negative, the supply is at most
-- `MAX_SUPPLY`, and the old keys are empty.
pub Reachable-IsBacked : {s : State} → Reachable s → IsBacked s × (s.legacy ≡ no_entries)
Reachable-IsBacked start = (record { nonneg = tt; backed = refl; capped = omega arith }, refl)
Reachable-IsBacked (next r step) = Step-Sound step (Reachable-IsBacked r)
