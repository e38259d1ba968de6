-- ===== src/ResourceToken/Supply.antt =====
-- The backing invariant: the supply is the sum of the balances, within the cap.
use utility_contracts.Base.{
  ℕ, ◌≡◌, ℤ, pos, ◌+ℤ◌, ◌-ℤ◌, ◌≤ℤ◌, int_laws, insert, unwrap_or, some, ok, arith, ◌==◌,
  if◌then◌else◌, lookup-insert, checked_add, checked_sub, checked_add_exact, checked_sub_exact,
  Option-cases, inl, inr, sym, ap, ◌∙◌, pos_part, neg_part,
}
use utility_contracts.ResourceToken.Storage.{Env, State, max_supply}
use utility_contracts.ResourceToken.Contract.{mint, burn}
use utility_contracts.ResourceToken.Balances.{
  balance_of, sum, AllNonneg, sum-insert, insert-AllNonneg, balance_of_bounds,
}

abbrev pub supply : State → ℤ
supply s = unwrap_or (pos 0) s.scoped.total_supply

pub record IsBacked (s : State) : Type 0 where
  pub nonneg : AllNonneg s.scoped.balance
  pub backed : supply s ≡ sum s.scoped.balance
  pub capped : supply s ≤ℤ pos max_supply

abbrev pub balance_in : State → ℕ → ℤ
balance_in s who = balance_of who s.scoped.balance

cancel : (a b c : ℤ) → a +ℤ c ≡ b +ℤ c → a ≡ b
cancel a b c h = omega (int_laws, ap pos_part h, ap neg_part h)

-- One balance and the supply are written, and change by the same amount.
rebalance :
    (who : ℕ) (s s' : State) (new_supply new_balance : ℤ)
    → IsBacked s
    → s'.scoped.total_supply ≡ some new_supply
    → s'.scoped.balance ≡ insert who new_balance s.scoped.balance
    → pos 0 ≤ℤ new_balance
    → new_supply ≤ℤ pos max_supply
    → new_supply +ℤ balance_in s who ≡ supply s +ℤ new_balance
    → IsBacked s'
rebalance who s s' new_supply new_balance inv es eb p cap moved =
    let table = s.scoped.balance in
    let summed : sum (insert who new_balance table) +ℤ balance_of who table
        ≡ sum table +ℤ new_balance =
      sum-insert who new_balance table in
    record {
      nonneg = rw eb (insert-AllNonneg who new_balance table inv.nonneg p);
      backed =
          rw (es, eb)
            (cancel _ _ (balance_in s who)
              (moved ∙ ap (λ t. t +ℤ new_balance) inv.backed ∙ sym summed));
      capped = rw es cap;
    }

balance_after :
    (who j : ℕ) (s s' : State) (new_balance : ℤ)
    → s'.scoped.balance ≡ insert who new_balance s.scoped.balance
    → balance_in s' j ≡ (if j == who then new_balance else balance_in s j)
balance_after who j s s' new_balance eb =
    rw (eb, lookup-insert j who new_balance s.scoped.balance) (ground arith)

-- In a backed state, a mint that succeeds keeps the state backed, adds the amount to the supply and
-- to the balance of its receiver, and changes no other balance.
pub mint_effect :
    (env : Env) (to : ℕ) (amount : ℤ) (s s' : State)
    → IsBacked s
    → mint env to amount s ≡ ok (tt, s')
    → IsBacked s'
      × (supply s' ≡ supply s +ℤ amount)
      × ((who : ℕ)
          → balance_in s' who ≡ (if who == to then balance_in s to +ℤ amount else balance_in s who))
unfolding mint
mint_effect env to amount s s' inv h = elim (Option-cases (checked_add (supply s) amount)) [
  | inl e ↦ absurd (ground (arith, e))
  | inr (new_supply, e) ↦ elim (Option-cases (checked_add (balance_in s to) amount)) [
    | inl f ↦ absurd (ground (arith, e, f))
    | inr (new_balance, f) ↦
        let es : s'.scoped.total_supply ≡ some new_supply = ground (arith, e, f) in
        let eb : s'.scoped.balance ≡ insert to new_balance s.scoped.balance =
          ground (arith, e, f) in
        let cap : new_supply ≤ℤ pos max_supply = ground (arith, e, f) in
        let up : pos 1 ≤ℤ amount = ground (arith, e, f) in
        let total = (checked_add_exact (supply s) amount new_supply e).0 in
        let held = (checked_add_exact (balance_in s to) amount new_balance f).0 in
        let old = (balance_of_bounds to s.scoped.balance inv.nonneg).0 in
        (
          rebalance to s s' new_supply new_balance inv es eb (rw held (omega int_laws)) cap
              (rw (total, held) (omega int_laws)),
          rw es total,
          λ who. rw (balance_after to who s s' new_balance eb, held),
        )
  ]
]

-- In a backed state, a burn that succeeds keeps the state backed, takes the amount off the supply
-- and off the balance of its address, and changes no other balance.
pub burn_effect :
    (env : Env) (from : ℕ) (amount : ℤ) (s s' : State)
    → IsBacked s
    → burn env from amount s ≡ ok (tt, s')
    → IsBacked s'
      × (supply s' ≡ supply s -ℤ amount)
      × ((who : ℕ)
          → balance_in s' who
            ≡ (if who == from then balance_in s from -ℤ amount else balance_in s who))
unfolding burn
burn_effect env from amount s s' inv h =
    elim (Option-cases (checked_sub (balance_in s from) amount)) [
      | inl e ↦ absurd (ground (arith, e))
      | inr (new_balance, e) ↦ elim (Option-cases (checked_sub (supply s) amount)) [
        | inl f ↦ absurd (ground (arith, e, f))
        | inr (new_supply, f) ↦
            let es : s'.scoped.total_supply ≡ some new_supply = ground (arith, e, f) in
            let eb : s'.scoped.balance ≡ insert from new_balance s.scoped.balance =
              ground (arith, e, f) in
            let enough : amount ≤ℤ balance_in s from = ground (arith, e, f) in
            let up : pos 1 ≤ℤ amount = ground (arith, e, f) in
            let total = (checked_sub_exact (supply s) amount new_supply f).0 in
            let held = (checked_sub_exact (balance_in s from) amount new_balance e).0 in
            (
              rebalance from s s' new_supply new_balance inv es eb
                  (rw held (omega (int_laws, enough))) (rw total (omega (int_laws, inv.capped)))
                  (rw (total, held) (omega int_laws)),
              rw es total,
              λ who. rw (balance_after from who s s' new_balance eb, held),
            )
      ]
    ]
