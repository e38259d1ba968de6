-- ===== src/UtilityContracts/VelocityLimit/Overrides.antt =====
-- What an override of velocity_limit.rs suspends, and until when.
use utility_contracts.Base.{
  ℕ, ◌≡◌, ◌≤◌, ◌⊎◌, ◌≢◌, ℤ, false, ◌||◌, some, ok, arith, Option-cases, inl, inr, ◌==◌, leb,
}
use utility_contracts.UtilityContracts.VelocityLimit.Types.{State, Env, VelocityConfig}
use utility_contracts.UtilityContracts.VelocityLimit.Checks.{
  check_per_stream_velocity, is_override_active, apply_override, revoke_override,
}

-- With a configuration stored, after `apply_override` the override of its scope is active exactly
-- until it expires, where an expiration of zero is never; while it is unexpired the per-stream
-- check of that meter accepts every amount and changes nothing; and whether another scope has an
-- active override is as before.
pub apply_override_lem :
    (env later : Env) (admin scope expires_at reason other provider : ℕ) (amount : ℤ) (s : State)
    (config : VelocityConfig)
    → s.velocity_config ≡ some config
    → other ≢ scope
    → let s' = apply_override env admin scope expires_at reason s in
      (is_override_active scope later.now s' ≡ (expires_at == 0 || leb later.now expires_at))
      × ((expires_at ≡ 0) ⊎ (later.now ≤ expires_at)
          → check_per_stream_velocity later scope provider amount s' ≡ (ok tt, s'))
      × (is_override_active other later.now s' ≡ is_override_active other later.now s)
unfolding apply_override check_per_stream_velocity
apply_override_lem env later admin scope expires_at reason other provider amount s config h ne = (
  ground arith,
  λ live. elim live [ inl e ↦ ground (arith, e, h) | inr e ↦ ground (arith, e, h) ],
  ground arith,
)

-- After `revoke_override` no override of the scope is active, at any time, and whether another
-- scope has one is as before.
pub revoke_override_lem :
    (scope other now : ℕ) (s : State)
    → other ≢ scope
    → let s' = revoke_override scope s in
      (is_override_active scope now s' ≡ false)
      × (is_override_active other now s' ≡ is_override_active other now s)
unfolding revoke_override
revoke_override_lem scope other now s ne = elim (Option-cases (s.velocity_override scope)) [
  | inl e ↦ ground (arith, e)
  | inr (o, e) ↦ ground (arith, e)
]
