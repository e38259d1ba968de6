-- ===== src/UtilityContracts/Multisig/Tests.antt =====
-- A withdrawal of provider 7 that wallets 11 and 13 of three let through.
use utility_contracts.Base.{
  ℕ, ◌≡◌, refl, pos, ◌≤ℤ◌, true, false, ◌||◌, some, List, [], ◌∷◌, no_entries, put, ok, err, Result,
  ◌==◌, arith, saturating_sub,
}
use utility_contracts.UtilityContracts.Errors.{
  ContractError, withdrawal_already_executed, insufficient_approvals,
}
use utility_contracts.UtilityContracts.Meters.Types.{Meter, pre_paid, post_paid, electricity}
use utility_contracts.UtilityContracts.Meters.Registration.{new_meter}
use utility_contracts.UtilityContracts.Meters.Helpers.{available_earnings}
use utility_contracts.UtilityContracts.Multisig.Types.{WithdrawalRequest, State, Env}
use utility_contracts.UtilityContracts.Multisig.Config.{configure_multisig_withdrawal}
use utility_contracts.UtilityContracts.Multisig.Requests.{
  propose_multisig_withdrawal, approve_multisig_withdrawal,
}
use utility_contracts.UtilityContracts.Multisig.Execution.{
  execute_multisig_withdrawal, record_payout, payment,
}
use utility_contracts.UtilityContracts.Multisig.Consent.{
  consent, Run, start, configured, proposed, approved,
}
use utility_contracts.UtilityContracts.Multisig.Once.{
  Steps, none_yet, then_one, configuring, proposing, approving,
}
use utility_contracts.UtilityContracts.Multisig.Safety.{IsBacked, execute-IsBacked, execute_once}

-- At `now`, authorized by `who` and the provider.
abbrev by : (who now : ℕ) → Env
by who now = record {
  now = now;
  authorized = λ a. a == who || a == 7;
  current_contract = 1;
  accepts_transfer = λ earlier t. true;
}

abbrev plant : Meter
plant = record (new_meter 10 5 7 (pos 1) 4 pre_paid 99 0 electricity) { balance = pos 900 }

abbrev bare : State
bare = record {
  config = no_entries;
  request_count = no_entries;
  request = λ p. no_entries;
  approval = λ p r w. false;
  meter = put 3 plant no_entries;
  provider_total_pool = put 7 (pos 900) no_entries;
  transfers = [];
  events = [];
}

abbrev left : {A : Type 0} → Result ContractError (A × State) → State
left (ok r) = r.1
left (err e) = bare

abbrev wallets : List ℕ
wallets = 11 ∷ 12 ∷ 13 ∷ []

abbrev set_up : State
unfolding configure_multisig_withdrawal
set_up = left (configure_multisig_withdrawal (by 7 100) 7 wallets 2 (pos 500) bare)

setting_up : configure_multisig_withdrawal (by 7 100) 7 wallets 2 (pos 500) bare ≡ ok (tt, set_up)
unfolding configure_multisig_withdrawal
setting_up = refl

abbrev asked : State
unfolding propose_multisig_withdrawal
asked = left (propose_multisig_withdrawal (by 11 200) 7 3 (pos 600) 20 set_up)

asking : propose_multisig_withdrawal (by 11 200) 7 3 (pos 600) 20 set_up ≡ ok (0, asked)
unfolding propose_multisig_withdrawal set_up
asking = refl

-- One approval is not enough.
too_early : execute_multisig_withdrawal (by 7 250) 7 0 asked ≡ err insufficient_approvals
unfolding execute_multisig_withdrawal asked set_up
too_early = refl

abbrev agreed : State
unfolding approve_multisig_withdrawal
agreed = left (approve_multisig_withdrawal (by 13 300) 7 0 13 asked)

agreeing : approve_multisig_withdrawal (by 13 300) 7 0 13 asked ≡ ok (tt, agreed)
unfolding approve_multisig_withdrawal asked set_up
agreeing = refl

abbrev paid : State
unfolding execute_multisig_withdrawal record_payout available_earnings
paid = left (execute_multisig_withdrawal (by 7 400) 7 0 agreed)

paying : execute_multisig_withdrawal (by 7 400) 7 0 agreed ≡ ok (tt, paid)
unfolding execute_multisig_withdrawal record_payout available_earnings agreed asked set_up
paying = refl

history : Run (consent (by 13 300) 7 0 ∷ consent (by 11 200) 7 0 ∷ []) agreed
history =
    approved (by 13 300) 7 0 13
      (proposed (by 11 200) 7 3 (pos 600) 20 0
        (configured (by 7 100) 7 wallets 2 (pos 500) (start bare (λ p r w. refl)) setting_up)
        asking)
      agreeing

execute-IsBacked_example :
    IsBacked (consent (by 13 300) 7 0 ∷ consent (by 11 200) 7 0 ∷ []) agreed (by 7 400) 7 0
execute-IsBacked_example = execute-IsBacked _ agreed paid (by 7 400) 7 0 history paying

calls : Steps bare agreed
calls =
    then_one
      (then_one (then_one none_yet (configuring (by 7 100) 7 wallets 2 (pos 500) setting_up))
        (proposing (by 11 200) 7 3 (pos 600) 20 0 (omega arith) asking))
      (approving (by 13 300) 7 0 13 agreeing)

execute_once_example :
    (request : WithdrawalRequest) × (meter : Meter) × (agreed.request 7 0 ≡ some request)
    × (agreed.meter request.meter_id ≡ some meter)
    × (paid.transfers
        ≡ payment (by 7 400) request meter request.amount_usd_cents ∷ agreed.transfers)
    × (request.amount_usd_cents ≤ℤ available_earnings meter.billing_type meter)
    × (after : Meter) × (paid.meter request.meter_id ≡ some after)
    × ((meter.billing_type ≡ pre_paid)
        → (after.balance ≡ saturating_sub meter.balance request.amount_usd_cents)
          × (after.debt ≡ meter.debt))
    × ((meter.billing_type ≡ post_paid)
        → (after.debt ≡ saturating_sub meter.debt request.amount_usd_cents)
          × (after.balance ≡ meter.balance))
    × ((later : Env) (u : State)
        → Steps paid u
        → execute_multisig_withdrawal later 7 0 u ≡ err withdrawal_already_executed)
execute_once_example = execute_once bare agreed paid (by 7 400) 7 0 (λ a b. refl) calls paying
