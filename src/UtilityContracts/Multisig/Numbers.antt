-- ===== src/UtilityContracts/Multisig/Numbers.antt =====
-- Requests have the numbers below their provider's count, and an executed one stays as it is.
use utility_contracts.Base.{
  ℕ, ◌+◌, ◌%◌, ◌^◌, ◌<◌, ◌≡◌, sym, ap, ◌∙◌, true, false, ◌&&◌, some, ◌==◌, put, put₂, ◌≤◌,
  unwrap_or, arith, Bool-cases, inl, inr, ◌⊎◌,
}
use utility_contracts.UtilityContracts.Multisig.Types.{MultiSigConfig, WithdrawalRequest, State}

-- A stored request has a configured provider and a number below its count.
pub record IsNumbered (s : State) : Type 0 where
  pub config :
      (p r : ℕ) (q : WithdrawalRequest)
      → s.request p r ≡ some q
      → (c : MultiSigConfig) × (s.config p ≡ some c)
  pub number :
      (p r : ℕ) (q : WithdrawalRequest)
      → s.request p r ≡ some q
      → r < unwrap_or 0 (s.request_count p)

-- What an executed request is kept by.
abbrev pub KeepsExecuted : State → State → Type 0
KeepsExecuted s s' =
    (p r : ℕ) (q : WithdrawalRequest)
    → s.request p r ≡ some q
    → q.is_executed ≡ true
    → s'.request p r ≡ some q

put₂_cases :
    (p r a b : ℕ) (q x : WithdrawalRequest) (s : State)
    → put₂ p r q s.request a b ≡ some x
    → ((a ≡ p) × (b ≡ r)) ⊎ (s.request a b ≡ some x)
put₂_cases p r a b q x s h = elim (Bool-cases (p == a && r == b)) [
  | inl e ↦ inl (ground (arith, e), ground (arith, e))
  | inr e ↦ inr (ground (arith, h, e))
]

put₂_other :
    (p r a b : ℕ) (q : WithdrawalRequest) (s : State)
    → (p == a && r == b) ≡ false
    → put₂ p r q s.request a b ≡ s.request a b
put₂_other p r a b q s h = ground (arith, h)

-- What a step does to the requests: nothing, or it adds one with the next number, or it changes one that was
-- not executed.
abbrev pub Rests : State → State → Type 0
Rests s s' =
    (s'.request ≡ s.request)
    × ((p : ℕ) (c : MultiSigConfig)
        → s.config p ≡ some c
        → (d : MultiSigConfig) × (s'.config p ≡ some d) × (s'.request_count p ≡ s.request_count p))

abbrev pub Adds : ℕ → State → State → Type 0
Adds p s s' =
    (q : WithdrawalRequest) × (s'.request ≡ put₂ p (unwrap_or 0 (s.request_count p)) q s.request)
    × (s'.config ≡ s.config)
    × ((c : MultiSigConfig) × (s.config p ≡ some c))
    × (unwrap_or 0 (s.request_count p) + 1 < 2 ^ 64)
    × (s'.request_count ≡ put p ((unwrap_or 0 (s.request_count p) + 1) % 2 ^ 64) s.request_count)

abbrev pub Changes : ℕ → ℕ → State → State → Type 0
Changes p r s s' =
    (old : WithdrawalRequest) × (new : WithdrawalRequest) × (s.request p r ≡ some old)
    × (old.is_executed ≡ false)
    × (s'.request ≡ put₂ p r new s.request)
    × (s'.config ≡ s.config)
    × (s'.request_count ≡ s.request_count)

-- The count of a provider that gets a request goes up by one.
counts_up :
    (p a : ℕ) (s s' : State)
    → unwrap_or 0 (s.request_count p) + 1 < 2 ^ 64
    → s'.request_count ≡ put p ((unwrap_or 0 (s.request_count p) + 1) % 2 ^ 64) s.request_count
    → (unwrap_or 0 (s.request_count a) ≤ unwrap_or 0 (s'.request_count a))
      × (a ≡ p → unwrap_or 0 (s'.request_count a) ≡ unwrap_or 0 (s.request_count p) + 1)
counts_up p a s s' room e =
    let r = unwrap_or 0 (s.request_count p) in
    let at : s'.request_count a ≡ put p ((r + 1) % 2 ^ 64) s.request_count a = ap (λ m. m a) e in
    elim (Bool-cases (p == a)) [
      | inl z ↦
          let one : unwrap_or 0 (s'.request_count a) ≡ (r + 1) % 2 ^ 64 =
            ap (unwrap_or 0) at ∙ ground (arith, z) in
          let same : unwrap_or 0 (s.request_count a) ≡ r =
            ap (λ n. unwrap_or 0 (s.request_count n)) (ground (arith, z)) in
          (omega (arith, one, same, room), λ _. omega (arith, one, room))
      | inr z ↦
          let kept : s'.request_count a ≡ s.request_count a = at ∙ ground (arith, z) in
          (rw kept (omega arith), λ w. absurd (ground (arith, z, w)))
    ]

module _ (s s' : State) (inv : IsNumbered s) where
  pub Rests-lem : Rests s s' → IsNumbered s' × KeepsExecuted s s'
  Rests-lem (same, kept) = (
    record {
      config = λ p r q e.
          let (c, f) = inv.config p r q (ap (λ m. m p r) (sym same) ∙ e) in
          let (d, g, _) = kept p c f in (d, g);
      number = λ p r q e.
          let before = ap (λ m. m p r) (sym same) ∙ e in
          let (c, f) = inv.config p r q before in
          let (d, g, counted) = kept p c f in rw counted (inv.number p r q before);
    },
    λ p r q e done. ap (λ m. m p r) same ∙ e,
  )

  pub Adds-lem : (p : ℕ) → Adds p s s' → IsNumbered s' × KeepsExecuted s s'
  Adds-lem p (q, stored, configs, (c, f), room, counted) =
      let r = unwrap_or 0 (s.request_count p) in
      let at : (a b : ℕ) → s'.request a b ≡ put₂ p r q s.request a b =
        λ a b. ap (λ m. m a b) stored in
      (
        record {
          config = λ a b x e. elim (put₂_cases p r a b q x s (sym (at a b) ∙ e)) [
            | inl (here, _) ↦ (c, ap (λ m. m a) configs ∙ ap s.config here ∙ f)
            | inr old ↦ let (d, g) = inv.config a b x old in (d, ap (λ m. m a) configs ∙ g)
          ];
          number = λ a b x e.
              let (more, next) = counts_up p a s s' room counted in
              elim (put₂_cases p r a b q x s (sym (at a b) ∙ e)) [
                | inl (here, same) ↦ omega (arith, next here, same)
                | inr old ↦ let low = inv.number a b x old in omega (arith, low, more)
              ];
        },
        λ a b x e done. elim (Bool-cases (p == a && r == b)) [
          | inr z ↦ at a b ∙ put₂_other p r a b q s z ∙ e
          | inl z ↦
              let low = inv.number a b x e in
              let here : p ≡ a = ground (arith, z) in
              let same : r ≡ b = ground (arith, z) in
              let last = ap (λ n. unwrap_or 0 (s.request_count n)) here in
              absurd (omega (arith, low, same, last))
        ],
      )

  pub Changes-lem : (p r : ℕ) → Changes p r s s' → IsNumbered s' × KeepsExecuted s s'
  Changes-lem p r (old, new, found, pending, stored, configs, counted) =
      let at : (a b : ℕ) → s'.request a b ≡ put₂ p r new s.request a b =
        λ a b. ap (λ m. m a b) stored in
      let before : (a b : ℕ) (x : WithdrawalRequest)
          → s'.request a b ≡ some x
          → (y : WithdrawalRequest) × (s.request a b ≡ some y) =
        λ a b x e. elim (put₂_cases p r a b new x s (sym (at a b) ∙ e)) [
          | inl (here, same) ↦ (old, ap (λ n. s.request n b) here ∙ ap (s.request p) same ∙ found)
          | inr was ↦ (x, was)
        ] in
      (
        record {
          config = λ a b x e.
              let (y, was) = before a b x e in
              let (c, f) = inv.config a b y was in (c, ap (λ m. m a) configs ∙ f);
          number = λ a b x e.
              let (y, was) = before a b x e in
              let low = inv.number a b y was in rw (ap (λ m. m a) counted) low;
        },
        λ a b x e done. elim (Bool-cases (p == a && r == b)) [
          | inr z ↦ at a b ∙ put₂_other p r a b new s z ∙ e
          | inl z ↦
              let here : p ≡ a = ground (arith, z) in
              let same : r ≡ b = ground (arith, z) in
              let was : s.request a b ≡ some old =
                ap (λ n. s.request n b) (sym here) ∙ ap (s.request p) (sym same) ∙ found in
              absurd (ground (arith, e, was, done, pending))
        ],
      )
