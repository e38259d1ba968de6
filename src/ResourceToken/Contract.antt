-- ===== src/ResourceToken/Contract.antt =====
-- admin.rs, auth.rs, operators.rs and the entry points of lib.rs.
use utility_contracts.Base.{
  ℕ, ℤ, pos, Bool, false, true, none, some, List, ltb, leb, ltb_ℤ, leb_ℤ, ◌==◌, ◌>>=◌, ◌>>◌, gets,
  modify, pure, panic_if, or_panic, is_some, checked_add, checked_sub, if◌then◌else◌,
}
use utility_contracts.ResourceToken.Storage.{
  Env, State, Action, already_initialized, admin_not_set, no_admin, expiration_not_future,
  amount_not_positive, supply_overflow, max_supply_exceeded, balance_overflow, insufficient_balance,
  balance_underflow, supply_underflow, admin_set, operator_auth, operator_revoke, mint_event,
  burn_event, require_auth, publish, max_supply, get_admin, set_admin as store_admin,
  get_operator_expiration, set_operator, remove_operator, increment_nonce, get_total_supply,
  set_total_supply, get_balance, set_balance, migrate,
}

-- `admin::set_admin`: the current admin authorizes a change; with none set, anyone may set one.
unfoldable pub set_admin : Env → ℕ → Action (Unit {0})
unfolding get_admin store_admin
set_admin env new_admin = do
  current ← gets get_admin
  (elim current [ none ↦ pure tt | some admin ↦ require_auth env admin ])
  modify (store_admin new_admin)
  publish (admin_set new_admin)

pub is_admin : ℕ → State → Bool
unfolding get_admin
is_admin address s = elim (get_admin s) [ none ↦ false | some admin ↦ admin == address ]

unfoldable pub initialize : Env → ℕ → Action (Unit {0})
unfolding set_admin get_admin
initialize env admin = do
  panic_if (is_some (← gets get_admin)) already_initialized
  require_auth env admin
  set_admin env admin

unfoldable pub authorize_admin : Env → Action (Unit {0})
unfolding get_admin
authorize_admin env = do admin ← or_panic (← gets get_admin) admin_not_set; require_auth env admin

-- `authorize_with_chain`, which `authorize_mint` and `authorize_burn` call.
unfoldable pub authorize_with_chain : Env → Action (Unit {0})
unfolding get_admin
authorize_with_chain env = do admin ← or_panic (← gets get_admin) no_admin; require_auth env admin

-- The operator is not looked at.
pub authorize_with_operator : Env → (operator : ℕ) → Action (Unit {0})
unfolding get_admin
authorize_with_operator env operator = do
  admin ← or_panic (← gets get_admin) no_admin
  require_auth env admin

unfoldable pub is_valid_operator : Env → ℕ → State → Bool
unfolding get_operator_expiration
is_valid_operator env operator s = elim (get_operator_expiration operator s) [
  | none ↦ false
  | some expiration ↦ ltb env.now expiration
]

unfoldable pub authorize_operator : Env → (operator expiration : ℕ) → Action (Unit {0})
unfolding authorize_admin increment_nonce set_operator
authorize_operator env operator expiration = do
  authorize_admin env
  panic_if (leb expiration env.now) expiration_not_future
  modify (increment_nonce operator)
  modify (set_operator operator expiration)
  publish (operator_auth operator expiration)

unfoldable pub revoke_operator : Env → ℕ → Action (Unit {0})
unfolding authorize_admin increment_nonce remove_operator
revoke_operator env operator = do
  authorize_admin env
  modify (remove_operator operator)
  modify (increment_nonce operator)
  publish (operator_revoke operator)

pub check_operator_auth : Env → ℕ → Action Bool
unfolding is_valid_operator
check_operator_auth env operator = do
  valid ← gets (is_valid_operator env operator)
  if valid then (require_auth env operator >> pure true) else pure false

unfoldable pub mint : Env → (to : ℕ) → ℤ → Action (Unit {0})
unfolding authorize_with_chain get_total_supply set_total_supply get_balance set_balance
mint env to amount = do
  authorize_with_chain env
  panic_if (leb_ℤ amount (pos 0)) amount_not_positive
  current_supply ← gets get_total_supply
  new_supply ← or_panic (checked_add current_supply amount) supply_overflow
  panic_if (ltb_ℤ (pos max_supply) new_supply) max_supply_exceeded
  current_balance ← gets (get_balance to)
  new_balance ← or_panic (checked_add current_balance amount) balance_overflow
  modify (set_balance to new_balance)
  modify (set_total_supply new_supply)
  publish (mint_event to amount)

unfoldable pub burn : Env → (from : ℕ) → ℤ → Action (Unit {0})
unfolding authorize_with_chain get_total_supply set_total_supply get_balance set_balance
burn env from amount = do
  authorize_with_chain env
  panic_if (leb_ℤ amount (pos 0)) amount_not_positive
  current_balance ← gets (get_balance from)
  panic_if (ltb_ℤ current_balance amount) insufficient_balance
  new_balance ← or_panic (checked_sub current_balance amount) balance_underflow
  modify (set_balance from new_balance)
  current_supply ← gets get_total_supply
  new_supply ← or_panic (checked_sub current_supply amount) supply_underflow
  modify (set_total_supply new_supply)
  publish (burn_event from amount)

unfoldable pub migrate_namespace : List ℕ → Action (Unit {0})
migrate_namespace addresses = modify (migrate addresses)
