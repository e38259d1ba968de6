-- ===== src/Settlement/Entry/Lockstep.antt =====
-- Actions that give the same result under the reentrancy lock and keep it, and the forms of code that preserve
-- this: a sequence, a test, a guard and an unwrap.
use utility_contracts.Base.{
  ◌≡◌, refl, true, false, ok, err, Result, Bool, ◌>>=◌, pure, panic_if, or_panic, Option, some,
  none, if◌then◌else◌,
}
use utility_contracts.Settlement.Host.{State, Action, Panic}

module _ {W : Type 0} where
  -- Under the lock two actions give the same result, and the lock stays.
  abbrev KeepsLock : {A : Type 0} → Result Panic (A × State W) → Type 0
  KeepsLock (ok (a, s)) = s.lock ≡ true
  KeepsLock (err e) = Unit

  pub record Same {A : Type 0} (m m' : Action W A) : Type 0 where
    pub at : (s : State W) → s.lock ≡ true → (m s ≡ m' s) × KeepsLock (m s)

  continue-Same :
      {A B : Type 0} (f f' : A → Action W B) (r r' : Result Panic (A × State W))
      → ((a : A) → Same (f a) (f' a))
      → r ≡ r'
      → KeepsLock r
      → (elim r [ ok (a, s) ↦ f a s | err e ↦ err e ]
          ≡ elim r' [ ok (a, s) ↦ f' a s | err e ↦ err e ])
        × KeepsLock (elim r [ ok (a, s) ↦ f a s | err e ↦ err e ])
  continue-Same f f' (ok (a, s)) r' hf e k = rw (← e) ((hf a).at s k)
  continue-Same f f' (err x) r' hf e k = rw (← e) (refl, tt)

  pub bind-Same :
      {A B : Type 0} (m m' : Action W A) (f f' : A → Action W B)
      → Same m m'
      → ((a : A) → Same (f a) (f' a))
      → Same (m >>= f) (m' >>= f')
  bind-Same m m' f f' hm hf = record {
    at = λ s h. continue-Same f f' (m s) (m' s) hf (hm.at s h).0 (hm.at s h).1;
  }

  pub branch-Same :
      {A : Type 0} (b : Bool) (m m' n n' : Action W A)
      → Same m m'
      → Same n n'
      → Same (if b then m else n) (if b then m' else n')
  branch-Same true m m' n n' hm hn = hm
  branch-Same false m m' n n' hm hn = hn

  pub pure-Same : {A : Type 0} (a : A) → Same (pure a) (pure a)
  pure-Same a = record { at = λ s h. (refl, h) }

  pub panic_if-Same : (b : Bool) (e : Panic) → Same (panic_if b e) (panic_if b e)
  panic_if-Same true e = record { at = λ s h. (refl, tt) }
  panic_if-Same false e = record { at = λ s h. (refl, h) }

  pub or_panic-Same : {A : Type 0} (o : Option A) (e : Panic) → Same (or_panic o e) (or_panic o e)
  or_panic-Same none e = record { at = λ s h. (refl, tt) }
  or_panic-Same (some a) e = record { at = λ s h. (refl, h) }
