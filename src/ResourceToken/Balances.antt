-- ===== src/ResourceToken/Balances.antt =====
-- The sum of a table of balances, and how one write changes it.
use utility_contracts.Base.{
  ℕ, ◌≡◌, ℤ, pos, ◌+ℤ◌, ◌≤ℤ◌, int_laws, Table, lookup, insert, unwrap_or, [], ◌∷◌, arith,
}

abbrev pub balance_of : ℕ → Table ℤ → ℤ
balance_of k d = unwrap_or (pos 0) (lookup k d)

abbrev pub sum : Table ℤ → ℤ
sum [] = pos 0
sum ((k, v) ∷ d) = v +ℤ sum d

-- No balance is negative.
abbrev pub AllNonneg : Table ℤ → Type 0
AllNonneg [] = Unit
AllNonneg ((k, v) ∷ d) = (pos 0 ≤ℤ v) × AllNonneg d

pub sum-insert : (k : ℕ) (v : ℤ) (d : Table ℤ) → sum (insert k v d) +ℤ balance_of k d ≡ sum d +ℤ v
sum-insert k v [] = omega int_laws
sum-insert k v ((j, w) ∷ d) = grind (int_laws, sum-insert k v d)

pub insert-AllNonneg :
    (k : ℕ) (v : ℤ) (d : Table ℤ) → AllNonneg d → pos 0 ≤ℤ v → AllNonneg (insert k v d)
insert-AllNonneg k v [] h p = (p, tt)
insert-AllNonneg k v (e ∷ d) h p = ground (arith, insert-AllNonneg k v d h.1)

pub sum_nonneg : (d : Table ℤ) → AllNonneg d → pos 0 ≤ℤ sum d
sum_nonneg [] h = omega arith
sum_nonneg ((k, v) ∷ d) (p, h) = omega (int_laws, sum_nonneg d h)

-- A single balance is neither negative nor above the sum.
pub balance_of_bounds :
    (k : ℕ) (d : Table ℤ) → AllNonneg d → (pos 0 ≤ℤ balance_of k d) × (balance_of k d ≤ℤ sum d)
balance_of_bounds k [] h = omega arith
balance_of_bounds k ((j, v) ∷ d) (p, h) = grind (int_laws, balance_of_bounds k d h, sum_nonneg d h)
