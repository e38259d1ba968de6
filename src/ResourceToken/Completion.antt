-- ===== src/ResourceToken/Completion.antt =====
-- When mint and burn succeed.
use utility_contracts.Base.{
  ℕ, ◌≡◌, ℤ, pos, ◌+ℤ◌, ◌-ℤ◌, ◌≤ℤ◌, ◌<ℤ◌, int_laws, some, ok, arith, pos_part, neg_part, ap,
  checked_add_fits, checked_sub_fits, within-IsI128, insert, ltb_ℤ, leb_ℤ, false, ◌∷◌,
}
use utility_contracts.ResourceToken.Storage.{Env, State, max_supply, mint_event, burn_event}
use utility_contracts.ResourceToken.Contract.{mint, burn}
use utility_contracts.ResourceToken.Balances.{balance_of_bounds}
use utility_contracts.ResourceToken.Supply.{IsBacked, supply, balance_in}
use utility_contracts.ResourceToken.Operators.{ByAdmin}

-- The state with one balance, the supply and one more event written.
abbrev pub mint_state : ℕ → ℤ → State → State
mint_state to amount s = record s {
  scoped = record (s.scoped) {
    balance = insert to (balance_in s to +ℤ amount) s.scoped.balance;
    total_supply = some (supply s +ℤ amount);
  };
  events = mint_event to amount ∷ s.events;
}

abbrev pub burn_state : ℕ → ℤ → State → State
burn_state from amount s = record s {
  scoped = record (s.scoped) {
    balance = insert from (balance_in s from -ℤ amount) s.scoped.balance;
    total_supply = some (supply s -ℤ amount);
  };
  events = burn_event from amount ∷ s.events;
}

-- In a backed state, a mint of a positive amount that the admin authorizes and that the cap has
-- room for succeeds, and writes one balance, the supply and one event.
pub mint_completes :
    (env : Env) (to : ℕ) (amount : ℤ) (s : State)
    → IsBacked s
    → ByAdmin env s
    → pos 0 <ℤ amount
    → (supply s +ℤ amount) ≤ℤ pos max_supply
    → mint env to amount s ≡ ok (tt, mint_state to amount s)
unfolding mint
mint_completes env to amount s inv (admin, stored, signed) up room =
    let bounds = balance_of_bounds to s.scoped.balance inv.nonneg in
    let whole = ap pos_part inv.backed in
    let owed = ap neg_part inv.backed in
    let new_supply =
      checked_add_fits (supply s) amount
        (within-IsI128 _ max_supply (omega arith) (omega (int_laws, whole, owed)) room) in
    let new_balance = checked_add_fits (balance_in s to) amount (
      within-IsI128 _ max_supply (omega arith) (omega (int_laws, bounds))
        (omega (int_laws, whole, owed, bounds))) in
    let within : ltb_ℤ (pos max_supply) (supply s +ℤ amount) ≡ false = ground arith in
    let positive : leb_ℤ amount (pos 0) ≡ false = ground arith in
    ground (arith, stored, new_supply, new_balance)

-- In a backed state, a burn of a positive amount that the admin authorizes and that the balance
-- covers succeeds, and writes one balance, the supply and one event.
pub burn_completes :
    (env : Env) (from : ℕ) (amount : ℤ) (s : State)
    → IsBacked s
    → ByAdmin env s
    → pos 0 <ℤ amount
    → amount ≤ℤ balance_in s from
    → burn env from amount s ≡ ok (tt, burn_state from amount s)
unfolding burn
burn_completes env from amount s inv (admin, stored, signed) up enough =
    let bounds = balance_of_bounds from s.scoped.balance inv.nonneg in
    let whole = ap pos_part inv.backed in
    let owed = ap neg_part inv.backed in
    let new_supply = checked_sub_fits (supply s) amount (
      within-IsI128 _ max_supply (omega arith) (omega (int_laws, whole, owed, bounds))
        (omega (int_laws, inv.capped))) in
    let new_balance = checked_sub_fits (balance_in s from) amount (
      within-IsI128 _ max_supply (omega arith) (omega (int_laws, enough))
        (omega (int_laws, whole, owed, bounds, inv.capped))) in
    let covered : ltb_ℤ (balance_in s from) amount ≡ false = ground arith in
    let positive : leb_ℤ amount (pos 0) ≡ false = ground arith in
    ground (arith, stored, new_balance, new_supply)
