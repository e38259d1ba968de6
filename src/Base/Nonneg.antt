-- ===== src/Base/Nonneg.antt =====
-- The `i128` operations on values that are not negative, where they are those of the numbers.
use Prim.Native.Nat.{ℕ, ◌+◌, ◌-◌, ◌*◌, ◌/◌, ◌≤◌, ◌<◌}
use mathlib.Core.Path.{◌≡◌, refl}
use mathlib.Core.Option.{some, none}
use native.Mathlib.Omega.{arith}
use utility_contracts.Base.Tests.{ltb, if◌then◌else◌}
use utility_contracts.Base.Int.{
  pos, ◌+ℤ◌, ◌-ℤ◌, ◌*ℤ◌, ◌/ℤ◌, i128_half, i128_max, wrapping_add, wrapping_sub, wrapping_mul,
  saturating_add, saturating_sub, saturating_mul, checked_add, checked_sub, checked_mul,
  wrap-eq_self,
}

pub +ℤ_pos : (a b : ℕ) → pos a +ℤ pos b ≡ pos (a + b)
unfolding ◌+ℤ◌
+ℤ_pos a b = ground arith

pub -ℤ_pos : (a b : ℕ) → b ≤ a → pos a -ℤ pos b ≡ pos (a - b)
unfolding ◌-ℤ◌
-ℤ_pos a b h = ground arith

pub *ℤ_pos : (a b : ℕ) → pos a *ℤ pos b ≡ pos (a * b)
unfolding ◌*ℤ◌
*ℤ_pos a b = ground arith

pub wrapping_add_pos : (a b : ℕ) → a + b < i128_half → wrapping_add (pos a) (pos b) ≡ pos (a + b)
unfolding wrapping_add
wrapping_add_pos a b h = rw (+ℤ_pos a b) (wrap-eq_self (pos (a + b)) (omega arith))

pub wrapping_sub_pos :
    (a b : ℕ) → b ≤ a → a < i128_half → wrapping_sub (pos a) (pos b) ≡ pos (a - b)
unfolding wrapping_sub
wrapping_sub_pos a b h k = rw (-ℤ_pos a b h) (wrap-eq_self (pos (a - b)) (omega arith))

pub wrapping_mul_pos : (a b : ℕ) → a * b < i128_half → wrapping_mul (pos a) (pos b) ≡ pos (a * b)
unfolding wrapping_mul
wrapping_mul_pos a b h = rw (*ℤ_pos a b) (wrap-eq_self (pos (a * b)) (omega arith))

pub saturating_add_pos :
    (a b : ℕ)
    → saturating_add (pos a) (pos b) ≡ (if ltb (a + b) i128_half then pos (a + b) else i128_max)
unfolding saturating_add
saturating_add_pos a b = rw (+ℤ_pos a b) (ground arith)

pub saturating_sub_pos :
    (a b : ℕ) → b ≤ a → a < i128_half → saturating_sub (pos a) (pos b) ≡ pos (a - b)
unfolding saturating_sub
saturating_sub_pos a b h k = rw (-ℤ_pos a b h) (ground arith)

pub saturating_mul_pos :
    (a b : ℕ)
    → saturating_mul (pos a) (pos b) ≡ (if ltb (a * b) i128_half then pos (a * b) else i128_max)
unfolding saturating_mul
saturating_mul_pos a b = rw (*ℤ_pos a b) (ground arith)

pub checked_add_pos :
    (a b : ℕ)
    → checked_add (pos a) (pos b) ≡ (if ltb (a + b) i128_half then some (pos (a + b)) else none)
unfolding checked_add
checked_add_pos a b = rw (+ℤ_pos a b) (ground arith)

pub checked_sub_pos :
    (a b : ℕ) → b ≤ a → a < i128_half → checked_sub (pos a) (pos b) ≡ some (pos (a - b))
unfolding checked_sub
checked_sub_pos a b h k = rw (-ℤ_pos a b h) (ground arith)

pub checked_mul_pos :
    (a b : ℕ)
    → checked_mul (pos a) (pos b) ≡ (if ltb (a * b) i128_half then some (pos (a * b)) else none)
unfolding checked_mul
checked_mul_pos a b = rw (*ℤ_pos a b) (ground arith)

pub div_pos : (a b : ℕ) → pos a /ℤ pos b ≡ pos (a / b)
unfolding ◌/ℤ◌
div_pos a b = refl
