-- ===== src/UtilityContracts/AdminTransfer/Tests.antt =====
-- Admin 3 hands over to 4 without a wait, and with five users nothing can be executed.
use utility_contracts.Base.{ℕ, ◌≡◌, refl, some, List, [], ◌∷◌, ok, err, Result, ◌==◌, arith}
use utility_contracts.UtilityContracts.Errors.{ContractError}
use utility_contracts.UtilityContracts.AdminTransfer.Protocol.{
  State, Env, initiate_admin_transfer, execute_admin_transfer, set_initial_admin,
}
use utility_contracts.UtilityContracts.AdminTransfer.Handover.{
  deployed, Consent, execute_at_once, few_users_blocked,
}

abbrev by : (who now : ℕ) → Env
by who now = record { now = now; authorized = λ a. a == who }

abbrev state_of : {A : Type 0} → Result ContractError (A × State) → State
state_of (ok r) = r.1
state_of (err e) = deployed

abbrev s1 : State
unfolding set_initial_admin
s1 = state_of (set_initial_admin (by 3 10) 3 deployed)

abbrev s2 : State
unfolding initiate_admin_transfer
s2 = state_of (initiate_admin_transfer (by 3 20) 4 s1)

abbrev s3 : State
unfolding execute_admin_transfer
s3 = state_of (execute_admin_transfer (by 9 20) s2)

asking : initiate_admin_transfer (by 3 20) 4 s1 ≡ ok (tt, s2)
unfolding initiate_admin_transfer set_initial_admin
asking = refl

abbrev log : List Consent
log = record { env = by 3 20; proposed = 4 } ∷ []

execute_at_once_example :
    (t : State) × (execute_admin_transfer (by 9 20) s2 ≡ ok (tt, t)) × (t.current_admin ≡ some 4)
unfolding set_initial_admin
execute_at_once_example =
    execute_at_once (by 3 20) (by 9 20) 4 s1 s2 asking (omega arith) (omega arith) (omega arith)

few_users_blocked_example :
    (e : ContractError) × (execute_admin_transfer (by 9 20) (record s2 { active_users = some 5 })
      ≡ err e)
few_users_blocked_example =
    few_users_blocked (by 9 20) (record s2 { active_users = some 5 }) 5 refl (omega arith)
