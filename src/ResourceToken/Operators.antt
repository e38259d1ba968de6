-- ===== src/ResourceToken/Operators.antt =====
-- The delegations of operators.rs and who may use the privileged entry points.
use utility_contracts.Base.{
  ℕ, ◌<◌, ◌≡◌, ℤ, true, some, ok, Option-cases, Bool-cases, inl, inr, ltb, lookup-insert,
  if◌then◌else◌, ◌==◌, arith, ◌⊎◌,
}
use utility_contracts.ResourceToken.Storage.{
  Env, State, get_admin, set_operator, get_operator_expiration, increment_nonce,
}
use utility_contracts.ResourceToken.Contract.{
  mint, burn, authorize_operator, revoke_operator, is_valid_operator, authorize_admin,
  authorize_with_chain,
}

-- The state's admin has authorized the call.
abbrev pub ByAdmin : Env → State → Type 0
ByAdmin env s = (admin : ℕ) × (s.scoped.admin ≡ some admin) × (env.authorized admin ≡ true)

-- A delegation that succeeds was authorized by the admin and expires in the future; from then on
-- the operator is valid exactly before the expiration, and every other address is valid when it was
-- before.
pub authorize_operator_lem :
    (env later : Env) (operator expiration other : ℕ) (s s' : State)
    → authorize_operator env operator expiration s ≡ ok (tt, s')
    → ByAdmin env s
      × (env.now < expiration)
      × (is_valid_operator later other s' ≡ (
          if other == operator then ltb later.now expiration else is_valid_operator later other s))
unfolding authorize_operator is_valid_operator authorize_admin increment_nonce set_operator
    get_admin get_operator_expiration
authorize_operator_lem env later operator expiration other s s' h =
    elim (Option-cases s.scoped.admin) [
      | inl e ↦ absurd (ground (arith, e))
      | inr (admin, e) ↦
          let looked = lookup-insert other operator expiration s.scoped.operator in
          ((admin, e, ground (arith, e)), ground (arith, e), ground (arith, e, looked))
    ]

-- A call of `mint`, `burn`, `authorize_operator` or `revoke_operator` that succeeds was authorized
-- by the admin that the state holds: a delegation never suffices.
pub privileged_by_admin :
    (env : Env) (s s' : State) (who : ℕ) (amount : ℤ) (n : ℕ)
    → (mint env who amount s ≡ ok (tt, s'))
      ⊎ (burn env who amount s ≡ ok (tt, s'))
      ⊎ (authorize_operator env who n s ≡ ok (tt, s'))
      ⊎ (revoke_operator env who s ≡ ok (tt, s'))
    → ByAdmin env s
unfolding mint burn authorize_operator revoke_operator authorize_admin authorize_with_chain
    get_admin
privileged_by_admin env s s' who amount n h = elim (Option-cases s.scoped.admin) [
  | inl e ↦ absurd (ground (arith, e))
  | inr (admin, e) ↦ elim (Bool-cases (env.authorized admin)) [
    | inl a ↦ (admin, e, a)
    | inr a ↦ absurd (ground (arith, e, a))
  ]
]
