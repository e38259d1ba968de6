-- ===== src/UtilityContracts/Multisig/Once.antt =====
-- The calls on withdrawals as steps: the numbers of requests, and what an executed one stays.
use utility_contracts.Base.{ℕ, ◌+◌, ◌^◌, ◌<◌, ◌≡◌, ℤ, true, none, some, List, Map, arith, ok}
use utility_contracts.UtilityContracts.Meters.Types.{Meter, Transfer}
use utility_contracts.UtilityContracts.Multisig.Types.{
  MultiSigConfig, WithdrawalRequest, State, Env,
}
use utility_contracts.UtilityContracts.Multisig.Config.{
  configure_multisig_withdrawal, update_multisig_config, disable_multisig,
}
use utility_contracts.UtilityContracts.Multisig.Requests.{
  propose_multisig_withdrawal, approve_multisig_withdrawal, revoke_multisig_approval,
  cancel_multisig_withdrawal,
}
use utility_contracts.UtilityContracts.Multisig.Execution.{execute_multisig_withdrawal}
use utility_contracts.UtilityContracts.Multisig.Numbers.{
  IsNumbered, KeepsExecuted, Rests-lem, Adds-lem, Changes-lem,
}
use utility_contracts.UtilityContracts.Multisig.Effects.{
  configure-Rests, update-Rests, disable-Rests, propose-Adds, approve-Changes, revoke-Changes,
  cancel-Changes, execute-Changes,
}

-- One call that returns, whose proposal does not wrap the count, or a change of meters, pools and tokens by the
-- rest of the contract.
pub data Step : State → State → Type 0 where
  configuring :
      {s s' : State} (env : Env) (p : ℕ) (wallets : List ℕ) (n : ℕ) (threshold : ℤ)
      → configure_multisig_withdrawal env p wallets n threshold s ≡ ok (tt, s')
      → Step s s'
  updating :
      {s s' : State} (env : Env) (p : ℕ) (wallets : List ℕ) (n : ℕ) (threshold : ℤ)
      → update_multisig_config env p wallets n threshold s ≡ ok (tt, s')
      → Step s s'
  disabling :
      {s s' : State} (env : Env) (p : ℕ) → disable_multisig env p s ≡ ok (tt, s') → Step s s'
  proposing :
      {s s' : State} (env : Env) (p meter : ℕ) (amount : ℤ) (destination r : ℕ)
      → r + 1 < 2 ^ 64
      → propose_multisig_withdrawal env p meter amount destination s ≡ ok (r, s')
      → Step s s'
  approving :
      {s s' : State} (env : Env) (p r approver : ℕ)
      → approve_multisig_withdrawal env p r approver s ≡ ok (tt, s')
      → Step s s'
  revoking :
      {s s' : State} (env : Env) (p r : ℕ)
      → revoke_multisig_approval env p r s ≡ ok (tt, s')
      → Step s s'
  cancelling :
      {s s' : State} (env : Env) (p r : ℕ)
      → cancel_multisig_withdrawal env p r s ≡ ok (tt, s')
      → Step s s'
  executing :
      {s s' : State} (env : Env) (p r : ℕ)
      → execute_multisig_withdrawal env p r s ≡ ok (tt, s')
      → Step s s'
  meanwhile :
      {s : State} (meters : Map Meter) (pools : Map ℤ) (transfers : List Transfer)
      → Step s (record s { meter = meters; provider_total_pool = pools; transfers = transfers })

pub data Steps (s : State) : State → Type 0 where
  none_yet : Steps s s
  then_one : {t u : State} → Steps s t → Step t u → Steps s u

Step-lem : (s s' : State) → IsNumbered s → Step s s' → IsNumbered s' × KeepsExecuted s s'
Step-lem s s' inv (configuring env p wallets n threshold h) =
    Rests-lem s s' inv (configure-Rests env s s' p wallets n threshold h)
Step-lem s s' inv (updating env p wallets n threshold h) =
    Rests-lem s s' inv (update-Rests env s s' p wallets n threshold h)
Step-lem s s' inv (disabling env p h) = Rests-lem s s' inv (disable-Rests env s s' p h)
Step-lem s s' inv (proposing env p meter amount destination r room h) =
    Adds-lem s s' inv p (propose-Adds env s s' p meter amount destination r room h)
Step-lem s s' inv (approving env p r approver h) =
    Changes-lem s s' inv p r (approve-Changes env s s' p r approver h)
Step-lem s s' inv (revoking env p r h) = Changes-lem s s' inv p r (revoke-Changes env s s' p r h)
Step-lem s s' inv (cancelling env p r h) = Changes-lem s s' inv p r (cancel-Changes env s s' p r h)
Step-lem s s' inv (executing env p r h) = Changes-lem s s' inv p r (execute-Changes env s s' p r h)
Step-lem s _ inv (meanwhile meters pools transfers) =
    (record { config = inv.config; number = inv.number }, λ p r q e done. e)

Steps-lem : (s u : State) → IsNumbered s → Steps s u → IsNumbered u × KeepsExecuted s u
Steps-lem s _ inv none_yet = (inv, λ p r q e done. e)
Steps-lem s u inv (then_one {t} steps step) =
    let (inv', kept) = Steps-lem s t inv steps in
    let (inv'', last) = Step-lem t u inv' step in
    (inv'', λ p r q e done. last p r q (kept p r q e done) done)

-- From a contract without requests on, requests stay numbered.
pub begun-IsNumbered : (s u : State) → ((p r : ℕ) → s.request p r ≡ none) → Steps s u → IsNumbered u
begun-IsNumbered s u bare steps =
    (Steps-lem s u
      (record {
        config = λ p r q e. absurd (ground (arith, e, bare p r));
        number = λ p r q e. absurd (ground (arith, e, bare p r));
      })
      steps).0

-- An executed request stays stored as it is, with a configuration of its provider.
pub executed_stays :
    (s u : State) (p r : ℕ) (q : WithdrawalRequest)
    → IsNumbered s
    → Steps s u
    → s.request p r ≡ some q
    → q.is_executed ≡ true
    → (u.request p r ≡ some q) × ((c : MultiSigConfig) × (u.config p ≡ some c))
executed_stays s u p r q inv steps e done =
    let (inv', kept) = Steps-lem s u inv steps in
    let still = kept p r q e done in (still, inv'.config p r q still)

pub executing-IsNumbered :
    (env : Env) (s s' : State) (p r : ℕ)
    → IsNumbered s
    → execute_multisig_withdrawal env p r s ≡ ok (tt, s')
    → IsNumbered s'
executing-IsNumbered env s s' p r inv h = (Step-lem s s' inv (executing env p r h)).0
