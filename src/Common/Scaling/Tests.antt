-- ===== src/Common/Scaling/Tests.antt =====
-- The theorems on `scaling.rs` at concrete inputs.
use utility_contracts.Base.{ℕ, ◌+◌, ◌*◌, ◌-◌, ◌^◌, ◌≤◌, ◌<◌, ◌≡◌, arith, err}
use utility_contracts.Common.Scaling.{
  token_scale_factor, reconcile_tokens, overflow, reconcile_tokens_lem, reconcile_tokens_backed,
}

reconcile_tokens_lem_example : reconcile_tokens (2 ^ 128 - 1) 1 ≡ err overflow
reconcile_tokens_lem_example = reconcile_tokens_lem (2 ^ 128 - 1) 1 (omega arith) (omega arith)

reconcile_tokens_backed_example :
    let tokens : ℕ = 2_333_333_333_333_333_333 in
    (tokens * 3 ≤ 7 * token_scale_factor)
    × (7 * token_scale_factor < tokens * 3 + 3)
    × (tokens < 2 ^ 128)
reconcile_tokens_backed_example =
    reconcile_tokens_backed 7 3 (omega arith) (omega arith)
      (reconcile_tokens_lem 7 3 (omega arith) (omega arith))
