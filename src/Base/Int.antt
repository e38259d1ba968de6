-- ===== src/Base/Int.antt =====
-- Signed integers over the native numbers, and the arithmetic of Rust's `i128` on them: checked,
-- saturating and wrapping operations, and division that truncates towards zero.
use Prim.Native.Nat.{ℕ, suc, ◌+◌, ◌-◌, ◌*◌, ◌/◌, ◌%◌, ◌^◌, ◌≤◌, ◌<◌}
use mathlib.Core.Path.{◌≡◌}
use mathlib.Core.Bool.{Bool, true, false, ◌&&◌}
use mathlib.Core.Option.{Option, none, some}
use native.Mathlib.Omega.{arith}
use utility_contracts.Base.Tests.{ltb, leb, ◌==◌, if◌then◌else◌}

-- `negsuc n` is -(n + 1).
pub data ℤ : Type 0 where
  pos : ℕ → ℤ
  negsuc : ℕ → ℤ

abbrev pub pos_part : ℤ → ℕ
pos_part (pos n) = n
pos_part (negsuc n) = 0

abbrev pub neg_part : ℤ → ℕ
neg_part (pos n) = 0
neg_part (negsuc n) = suc n

abbrev pub sub_ℕ : ℕ → ℕ → ℤ
sub_ℕ a b = if leb b a then pos (a - b) else negsuc (b - a - 1)

infixl 65 ◌+ℤ◌ ◌-ℤ◌
infixl 70 ◌*ℤ◌
infix 50 ◌≤ℤ◌ ◌<ℤ◌
unfoldable pub ◌+ℤ◌ : ℤ → ℤ → ℤ
a +ℤ b = sub_ℕ (pos_part a + pos_part b) (neg_part a + neg_part b)

unfoldable pub ◌-ℤ◌ : ℤ → ℤ → ℤ
a -ℤ b = sub_ℕ (pos_part a + neg_part b) (neg_part a + pos_part b)

unfoldable pub ◌*ℤ◌ : ℤ → ℤ → ℤ
a *ℤ b =
    sub_ℕ (pos_part a * pos_part b + neg_part a * neg_part b)
      (pos_part a * neg_part b + neg_part a * pos_part b)

abbrev pub ◌≤ℤ◌ : ℤ → ℤ → Type 0
a ≤ℤ b = pos_part a + neg_part b ≤ pos_part b + neg_part a

abbrev pub ◌<ℤ◌ : ℤ → ℤ → Type 0
a <ℤ b = pos_part a + neg_part b < pos_part b + neg_part a

abbrev pub ltb_ℤ : ℤ → ℤ → Bool
ltb_ℤ a b = ltb (pos_part a + neg_part b) (pos_part b + neg_part a)

abbrev pub leb_ℤ : ℤ → ℤ → Bool
leb_ℤ a b = leb (pos_part a + neg_part b) (pos_part b + neg_part a)

abbrev pub eqb_ℤ : ℤ → ℤ → Bool
eqb_ℤ a b = (pos_part a + neg_part b) == (pos_part b + neg_part a)

-- Truncation towards zero. The sources divide by constants and by tested values only.
unfoldable pub ◌/ℤ◌ : ℤ → ℤ → ℤ
pos a /ℤ pos b = pos (a / b)
pos a /ℤ negsuc b = sub_ℕ 0 (a / suc b)
negsuc a /ℤ pos b = sub_ℕ 0 (suc a / b)
negsuc a /ℤ negsuc b = pos (suc a / suc b)

infixl 70 ◌/ℤ◌
-- `i128::MAX + 1`, and the number of values of a `u128`.
abbrev pub i128_half : ℕ
i128_half = 2 ^ 127

abbrev pub u128_mod : ℕ
u128_mod = 2 ^ 128

abbrev pub i128_max : ℤ
i128_max = pos (2 ^ 127 - 1)

abbrev pub i128_min : ℤ
i128_min = negsuc (2 ^ 127 - 1)

-- The values that an `i128` can hold.
abbrev pub IsI128 : ℤ → Type 0
IsI128 a = (pos_part a < i128_half) × (neg_part a ≤ i128_half)

abbrev pub in_i128 : ℤ → Bool
in_i128 a = ltb (pos_part a) i128_half && leb (neg_part a) i128_half

abbrev pub checked : ℤ → Option ℤ
checked a = if in_i128 a then some a else none

abbrev pub saturate : ℤ → ℤ
saturate a =
    if leb i128_half (pos_part a)
    then i128_max
    else if ltb i128_half (neg_part a)
    then i128_min
    else a

-- The value whose two's complement pattern is that of `a`.
abbrev of_pattern : ℕ → ℤ
of_pattern r = if ltb r i128_half then pos r else negsuc (u128_mod - r - 1)

abbrev pub wrap : ℤ → ℤ
wrap (pos n) = of_pattern (n % u128_mod)
wrap (negsuc n) = of_pattern (u128_mod - 1 - n % u128_mod)

unfoldable pub checked_add : ℤ → ℤ → Option ℤ
checked_add a b = checked (a +ℤ b)

unfoldable pub checked_sub : ℤ → ℤ → Option ℤ
checked_sub a b = checked (a -ℤ b)

unfoldable pub checked_mul : ℤ → ℤ → Option ℤ
checked_mul a b = checked (a *ℤ b)

unfoldable pub saturating_add : ℤ → ℤ → ℤ
saturating_add a b = saturate (a +ℤ b)

unfoldable pub saturating_sub : ℤ → ℤ → ℤ
saturating_sub a b = saturate (a -ℤ b)

unfoldable pub saturating_mul : ℤ → ℤ → ℤ
saturating_mul a b = saturate (a *ℤ b)

-- `+`, `-` and `*` of a release build, whose overflow checks are off.
unfoldable pub wrapping_add : ℤ → ℤ → ℤ
wrapping_add a b = wrap (a +ℤ b)

unfoldable pub wrapping_sub : ℤ → ℤ → ℤ
wrapping_sub a b = wrap (a -ℤ b)

unfoldable pub wrapping_mul : ℤ → ℤ → ℤ
wrapping_mul a b = wrap (a *ℤ b)

unfoldable pub checked_div : ℤ → ℤ → Option ℤ
checked_div a b = if eqb_ℤ b (pos 0) then none else checked (a /ℤ b)

-- `as u32`.
abbrev pub to_u32 : ℤ → ℕ
to_u32 (pos n) = n % 2 ^ 32
to_u32 (negsuc n) = 2 ^ 32 - 1 - n % 2 ^ 32

pub +ℤ_parts :
    (a b : ℤ)
    → pos_part (a +ℤ b) + neg_part a + neg_part b ≡ neg_part (a +ℤ b) + pos_part a + pos_part b
unfolding ◌+ℤ◌
+ℤ_parts a b = ground arith

pub -ℤ_parts :
    (a b : ℤ)
    → pos_part (a -ℤ b) + neg_part a + pos_part b ≡ neg_part (a -ℤ b) + pos_part a + neg_part b
unfolding ◌-ℤ◌
-ℤ_parts a b = ground arith

pub eq_of_parts : (a b : ℤ) → pos_part a + neg_part b ≡ pos_part b + neg_part a → a ≡ b
eq_of_parts a b h = ground arith

pub ruleset int_laws = (arith, +ℤ_parts, -ℤ_parts, eq_of_parts)

-- Where the exact result fits, wrapping gives it.
pub wrap-eq_self : (a : ℤ) → IsI128 a → wrap a ≡ a
wrap-eq_self (pos n) h = ground arith
wrap-eq_self (negsuc n) h = ground arith

pub wrap-IsI128 : (a : ℤ) → IsI128 (wrap a)
wrap-IsI128 (pos n) = ground arith
wrap-IsI128 (negsuc n) = ground arith

pub saturate-eq_self : (a : ℤ) → IsI128 a → saturate a ≡ a
saturate-eq_self a h = ground arith

-- A checked operation gives the exact result, and gives it whenever that fits.
pub checked_add_exact : (a b c : ℤ) → checked_add a b ≡ some c → (c ≡ a +ℤ b) × IsI128 c
unfolding checked_add
checked_add_exact a b c h = ground arith

pub checked_sub_exact : (a b c : ℤ) → checked_sub a b ≡ some c → (c ≡ a -ℤ b) × IsI128 c
unfolding checked_sub
checked_sub_exact a b c h = ground arith

pub checked_add_fits : (a b : ℤ) → IsI128 (a +ℤ b) → checked_add a b ≡ some (a +ℤ b)
unfolding checked_add
checked_add_fits a b h = ground arith

pub checked_sub_fits : (a b : ℤ) → IsI128 (a -ℤ b) → checked_sub a b ≡ some (a -ℤ b)
unfolding checked_sub
checked_sub_fits a b h = ground arith

-- A number between zero and a small bound is an `i128`.
pub within-IsI128 : (a : ℤ) (bound : ℕ) → bound < i128_half → pos 0 ≤ℤ a → a ≤ℤ pos bound → IsI128 a
within-IsI128 a bound h p q = ground arith

saturate_within : (a : ℤ) → i128_min ≤ℤ a → a ≤ℤ i128_max → saturate a ≡ a
saturate_within a p q = ground arith

pub saturating_add_fits :
    (a b : ℤ) → i128_min ≤ℤ a +ℤ b → a +ℤ b ≤ℤ i128_max → saturating_add a b ≡ a +ℤ b
unfolding saturating_add
saturating_add_fits a b p q = saturate_within (a +ℤ b) p q

pub saturating_sub_fits :
    (a b : ℤ) → i128_min ≤ℤ a -ℤ b → a -ℤ b ≤ℤ i128_max → saturating_sub a b ≡ a -ℤ b
unfolding saturating_sub
saturating_sub_fits a b p q = saturate_within (a -ℤ b) p q

pub le_of_leb : (a b : ℤ) → leb_ℤ a b ≡ true → a ≤ℤ b
le_of_leb a b h = ground (arith, h)

pub le_of_not_leb : (a b : ℤ) → leb_ℤ a b ≡ false → b ≤ℤ a
le_of_not_leb a b h = ground (arith, h)

pub le_of_not_ltb : (a b : ℤ) → ltb_ℤ a b ≡ false → b ≤ℤ a
le_of_not_ltb a b h = ground (arith, h)

pub le_of_ltb : (a b : ℤ) → ltb_ℤ a b ≡ true → a ≤ℤ b
le_of_ltb a b h = ground (arith, h)
