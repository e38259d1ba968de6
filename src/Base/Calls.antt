-- ===== src/Base/Calls.antt =====
-- A call of a contract: it returns a value and the new state, or it panics. The host undoes every
-- write of a call that panics, so a panic carries no state.
use mathlib.Core.Path.{◌≡◌, refl, ap}
use mathlib.Core.Logic.{◌⊎◌, inl, inr}
use mathlib.Core.Bool.{Bool, true, false}
use native.Mathlib.Omega.{arith}
use mathlib.Core.Option.{Option, none, some}

pub data Result {ℓ κ} (E : Type ℓ) (A : Type κ) : Type (ℓ ⊔ κ) where
  ok : A → Result E A
  err : E → Result E A

pub outcome_cases :
    {E A : Type 0} (r : Result E A) → ((e : E) × (r ≡ err e)) ⊎ ((a : A) × (r ≡ ok a))
outcome_cases (ok a) = inr (a, refl)
outcome_cases (err e) = inl (e, refl)

abbrev pub Call : Type 0 → Type 0 → Type 0 → Type 0
Call S E A = S → Result E (A × S)

pub Result-cases :
    {S E A : Type 0} (r : Result E (A × S))
    → ((e : E) × (r ≡ err e)) ⊎ ((a : A) × (s : S) × (r ≡ ok (a, s)))
Result-cases (ok (a, s)) = inr (a, s, refl)
Result-cases (err e) = inl (e, refl)

infixl 5 ◌>>=◌ ◌>>◌
abbrev pub ◌>>=◌ : {S E A B : Type 0} → Call S E A → (A → Call S E B) → Call S E B
◌>>=◌ m f s = elim (m s) [ ok (a, s') ↦ f a s' | err e ↦ err e ]

abbrev pub ◌>>◌ : {S E A B : Type 0} → Call S E A → Call S E B → Call S E B
m >> k = m >>= λ _. k

module _ {S E : Type 0} where
  abbrev pub pure : {A : Type 0} → A → Call S E A
  pure a s = ok (a, s)

  abbrev pub panic : {A : Type 0} → E → Call S E A
  panic e s = err e

  abbrev pub gets : {A : Type 0} → (S → A) → Call S E A
  gets f s = ok (f s, s)

  abbrev pub modify : (S → S) → Call S E (Unit {0})
  modify f s = ok (tt, f s)

  -- `if b { m }`.
  abbrev pub when : Bool → Call S E (Unit {0}) → Call S E (Unit {0})
  when true m s = m s
  when false m s = ok (tt, s)

  abbrev pub panic_if : Bool → E → Call S E (Unit {0})
  panic_if true e s = err e
  panic_if false e s = ok (tt, s)

  abbrev pub or_panic : {A : Type 0} → Option A → E → Call S E A
  or_panic none e s = err e
  or_panic (some a) e s = ok (a, s)

-- What a call that returned went through.
module _ {S E : Type 0} where
  pub ok_state :
      {A : Type 0} {a b : A} {s s' : S}
      → ◌≡◌ {A = Result E (A × S)} (ok (a, s)) (ok (b, s'))
      → s ≡ s'
  ok_state {s = s} h = ap (λ r. elim r [ ok x ↦ x.1 | err e ↦ s ]) h

  pub bind_ok :
      {A B : Type 0} (m : Call S E A) (f : A → Call S E B) (s s' : S) (b : B)
      → (m >>= f) s ≡ ok (b, s')
      → (a : A) × (t : S) × (m s ≡ ok (a, t)) × (f a t ≡ ok (b, s'))
  bind_ok m f s s' b h = elim (Result-cases (m s)) [
    | inl (e, r) ↦ absurd (ground (arith, h, r))
    | inr (a, t, r) ↦ (a, t, r, ground (arith, h, r))
  ]

  -- A call whose first part is known goes on with the rest.
  pub bind_after :
      {A B : Type 0} (m : Call S E A) (f : A → Call S E B) (s t : S) (a : A) (r : Result E (B × S))
      → m s ≡ ok (a, t)
      → (m >>= f) s ≡ r
      → f a t ≡ r
  bind_after m f s t a r e h = ground (arith, h, e)

  pub panic_if_ok :
      (b : Bool) (e : E) (s s' : S) → panic_if b e s ≡ ok (tt, s') → (b ≡ false) × (s' ≡ s)
  panic_if_ok true e s s' h = absurd (ground (arith, h))
  panic_if_ok false e s s' h = (refl, ground (arith, h))
