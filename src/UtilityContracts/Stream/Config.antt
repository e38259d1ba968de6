-- ===== src/UtilityContracts/Stream/Config.antt =====
-- The settings of streaming fees and the thin entry points of lib.rs for enterprise.rs.
use utility_contracts.Base.{
  ℕ, ℤ, pos, some, ◌||◌, ◌==◌, ltb_ℤ, unwrap_or, if◌then◌else◌, ◌>>=◌, ◌>>◌, gets, modify, panic_if,
  or_panic,
}
use utility_contracts.UtilityContracts.Errors.{invalid_token_amount, unauthorized_admin}
use utility_contracts.UtilityContracts.Stream.Types.{
  State, Env, Action, require_auth, publish, fee_set, vault_set,
}
use utility_contracts.UtilityContracts.Stream.Fleet.{
  PriorityTier, critical, high, standard, low, global_load_shed, pardon_liveness_slash,
  get_continuous_flow_or_panic,
}

abbrev pub max_platform_fee_bps : ℤ
max_platform_fee_bps = pos 1000

abbrev get_admin_or_panic : Action ℕ
get_admin_or_panic = do or_panic (← gets (λ s. s.admin_address)) unauthorized_admin

unfoldable pub set_platform_fee_bps : Env → ℤ → Action (Unit {0})
set_platform_fee_bps env fee_bps = do
  admin ← get_admin_or_panic
  require_auth env admin
  panic_if (ltb_ℤ fee_bps (pos 0) || ltb_ℤ max_platform_fee_bps fee_bps) invalid_token_amount
  modify (λ s. record s { platform_fee_bps = some fee_bps })
  modify (publish (fee_set fee_bps))

unfoldable pub set_protocol_fee_vault : Env → (vault : ℕ) → Action (Unit {0})
set_protocol_fee_vault env vault = do
  admin ← get_admin_or_panic
  require_auth env admin
  modify (λ s. record s { protocol_fee_vault = some vault })
  modify (publish (vault_set vault))

pub get_platform_fee_bps : State → ℤ
get_platform_fee_bps s = unwrap_or (pos 0) s.platform_fee_bps

pub get_accrued_streaming_fees : (stream_id : ℕ) → State → ℤ
get_accrued_streaming_fees stream_id s = unwrap_or (pos 0) (s.streaming_fee_accrued stream_id)

abbrev current_admin_or_panic : Action ℕ
current_admin_or_panic = do or_panic (← gets (λ s. s.current_admin)) unauthorized_admin

unfoldable pub set_dao_governor : Env → (dao : ℕ) → Action (Unit {0})
set_dao_governor env dao = do
  super_a ← current_admin_or_panic
  require_auth env super_a
  modify (λ s. record s { dao_governor = some dao })

unfoldable pub set_grid_administrator : Env → (grid_admin : ℕ) → Action (Unit {0})
set_grid_administrator env grid_admin = do
  super_a ← current_admin_or_panic
  require_auth env super_a
  modify (λ s. record s { grid_administrator = some grid_admin })

abbrev pub tier_of : ℕ → PriorityTier
tier_of rank =
    if rank == 3 then critical else if rank == 2 then high else if rank == 1 then standard else low

unfoldable pub grid_shortage_load_shed :
    Env → (provider min_surviving_tier grid_admin : ℕ) → Action (Unit {0})
unfolding global_load_shed
grid_shortage_load_shed env provider min_surviving_tier grid_admin =
    global_load_shed env provider (tier_of min_surviving_tier) grid_admin

unfoldable pub pardon_stream_liveness : Env → (stream_id : ℕ) → Action (Unit {0})
unfolding pardon_liveness_slash
pardon_stream_liveness env stream_id = do
  flow ← get_continuous_flow_or_panic stream_id
  pardon_liveness_slash env stream_id flow.provider
