-- ===== src/Base/Maps.antt =====
-- Contract storage: a map from keys to values as a function, and as an association list where a
-- sum over the keys is needed.
use Prim.Native.Nat.{ℕ}
use mathlib.Core.Path.{◌≡◌, refl}
use mathlib.Core.Option.{Option, none, some}
use mathlib.Core.List.{List, [], ◌∷◌}
use native.Mathlib.Omega.{arith}
use utility_contracts.Base.Tests.{◌==◌, if◌then◌else◌, Bool-cases}
use mathlib.Core.Logic.{◌⊎◌, inl, inr}

abbrev pub Map {ℓ} : Type ℓ → Type ℓ
Map V = ℕ → Option V

abbrev pub no_entries {ℓ} : {V : Type ℓ} → Map V
no_entries k = none

-- `storage().set(key, value)` and `storage().remove(key)`.
abbrev pub put {ℓ} : {V : Type ℓ} → ℕ → V → Map V → Map V
put k v m j = if k == j then some v else m j

abbrev pub remove {ℓ} : {V : Type ℓ} → ℕ → Map V → Map V
remove k m j = if k == j then none else m j

-- An entry after a `put` is the new one or an old one, and after a `remove` an old one.
pub put_cases :
    {V : Type 0} (i j : ℕ) (v w : V) (m : Map V)
    → put i v m j ≡ some w
    → ((i ≡ j) × (v ≡ w)) ⊎ (m j ≡ some w)
put_cases i j v w m h = elim (Bool-cases (i == j)) [
  | inl e ↦ inl (ground (arith, e), ground (arith, h, e))
  | inr e ↦ inr (ground (arith, h, e))
]

pub remove_sub : {V : Type 0} (i j : ℕ) (w : V) (m : Map V) → remove i m j ≡ some w → m j ≡ some w
remove_sub i j w m h = elim (Bool-cases (i == j)) [
  | inl e ↦ absurd (ground (arith, h, e))
  | inr e ↦ ground (arith, h, e)
]

-- Maps under a pair of keys.
abbrev pub Map₂ {ℓ} : Type ℓ → Type ℓ
Map₂ V = ℕ → ℕ → Option V

abbrev pub put₂ {ℓ} : {V : Type ℓ} → ℕ → ℕ → V → Map₂ V → Map₂ V
put₂ d k v m e j = if d == e then (if k == j then some v else m e j) else m e j

abbrev pub remove₂ {ℓ} : {V : Type ℓ} → ℕ → ℕ → Map₂ V → Map₂ V
remove₂ d k m e j = if d == e then (if k == j then none else m e j) else m e j

abbrev pub Table {ℓ} : Type ℓ → Type ℓ
Table V = List (ℕ × V)

module _ {ℓ} {Value : Type ℓ} where
  abbrev pub lookup : (key : ℕ) → Table Value → Option Value
  lookup key [] = none
  lookup key ((stored, value) ∷ rows) = if key == stored then some value else lookup key rows

  abbrev pub insert : (key : ℕ) → Value → Table Value → Table Value
  insert key value [] = (key, value) ∷ []
  insert key value (row ∷ rows) =
      if key == row.0 then (key, value) ∷ rows else row ∷ insert key value rows

  abbrev pub erase : (key : ℕ) → Table Value → Table Value
  erase key [] = []
  erase key (row ∷ rows) = if key == row.0 then erase key rows else row ∷ erase key rows

  pub lookup-insert :
      (asked key : ℕ) (value : Value) (rows : Table Value)
      → lookup asked (insert key value rows)
        ≡ (if asked == key then some value else lookup asked rows)
  lookup-insert asked key value [] = refl
  lookup-insert asked key value (row ∷ rows) = ground (arith, lookup-insert asked key value rows)

  pub lookup-erase :
      (asked key : ℕ) (rows : Table Value)
      → lookup asked (erase key rows) ≡ (if asked == key then none else lookup asked rows)
  lookup-erase asked key [] = ground arith
  lookup-erase asked key (row ∷ rows) = ground (arith, lookup-erase asked key rows)
