-- ===== src/ResourceToken/Tests.antt =====
-- The theorems on the resource token at concrete states.
use utility_contracts.Base.{◌≡◌, refl, pos, ◌+ℤ◌, ◌-ℤ◌, some, ok, arith, true, [], ◌∷◌, inl}
use utility_contracts.ResourceToken.Storage.{
  admin_set, operator_auth, Env, State, get_admin, set_admin as store_admin, increment_nonce,
  get_nonce, set_operator,
}
use utility_contracts.ResourceToken.Contract.{
  mint, burn, authorize_operator, initialize, authorize_admin, set_admin,
}
use utility_contracts.ResourceToken.Supply.{IsBacked}
use utility_contracts.ResourceToken.Operators.{ByAdmin, privileged_by_admin}
use utility_contracts.ResourceToken.Completion.{
  mint_completes, burn_completes, mint_state, burn_state,
}
use utility_contracts.ResourceToken.Migration.{
  no_entries, deployed, Reachable, start, next, initialized, Reachable-IsBacked,
}

-- Address 1 administers and address 2 holds 50 tokens.
abbrev held : State
held = record {
  scoped = record {
    admin = some 1;
    operator = [];
    nonce = [];
    total_supply = some (pos 50);
    balance = (2, pos 50) ∷ [];
  };
  legacy = no_entries;
  events = [];
}

held-IsBacked : IsBacked held
unfolding ◌+ℤ◌
held-IsBacked = record { nonneg = (omega arith, tt); backed = refl; capped = omega arith }

-- A call at time 100 that everybody authorized.
abbrev signed : Env
signed = record { now = 100; authorized = λ who. true }

abbrev by_one : ByAdmin signed held
by_one = (1, refl, refl)

mint_completes_example : mint signed 3 (pos 7) held ≡ ok (tt, mint_state 3 (pos 7) held)
unfolding ◌+ℤ◌ ◌-ℤ◌
mint_completes_example =
    mint_completes signed 3 (pos 7) held held-IsBacked by_one (omega arith) (omega arith)

mints : mint signed 3 (pos 7) held ≡ ok (tt, mint_state 3 (pos 7) held)
unfolding ◌+ℤ◌
mints = mint_completes signed 3 (pos 7) held held-IsBacked by_one (omega arith) (omega arith)

burns : burn signed 2 (pos 20) held ≡ ok (tt, burn_state 2 (pos 20) held)
burns = burn_completes signed 2 (pos 20) held held-IsBacked by_one (omega arith) (omega arith)

privileged_by_admin_example : ByAdmin signed held
privileged_by_admin_example =
    privileged_by_admin signed held (mint_state 3 (pos 7) held) 3 (pos 7) 0 (inl mints)

-- Address 9 is an operator until time 500.
abbrev delegated_state : State
delegated_state = record held {
  scoped = record (held.scoped) { operator = (9, 500) ∷ []; nonce = (9, 1) ∷ [] };
  events = operator_auth 9 500 ∷ [];
}

delegates : authorize_operator signed 9 500 held ≡ ok (tt, delegated_state)
unfolding authorize_operator authorize_admin increment_nonce set_operator get_admin get_nonce
delegates = refl

-- The contract after `initialize`.
abbrev initial : State
initial = record deployed {
  scoped = record no_entries { admin = some 1 };
  events = admin_set 1 ∷ [];
}

initializes : initialize signed 1 deployed ≡ ok (tt, initial)
unfolding initialize set_admin store_admin get_admin
initializes = refl

initial-Reachable : Reachable initial
initial-Reachable = next start (initialized signed 1 initializes)

Reachable-IsBacked_example : IsBacked initial × (initial.legacy ≡ no_entries)
Reachable-IsBacked_example = Reachable-IsBacked initial-Reachable

minted_state : State
minted_state = mint_state 3 (pos 7) initial
