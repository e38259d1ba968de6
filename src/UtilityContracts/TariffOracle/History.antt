-- ===== src/UtilityContracts/TariffOracle/History.antt =====
-- The histories of the oracle and what every one keeps: the stored schedules are valid.
use mathlib.Core.Path.{subst}
use utility_contracts.Base.{
  ℕ, ◌+◌, ◌%◌, ◌^◌, ◌≡◌, sym, ◌∙◌, true, false, none, some, [], ok, arith, Option-cases, inl, inr,
  put, put_cases, no_entries, unwrap_or,
}
use utility_contracts.UtilityContracts.TariffOracle.Types.{
  DailyTariffSchedule, TariffUpdateProposal, State, Env,
}
use utility_contracts.UtilityContracts.TariffOracle.Schedules.{
  length, hours_valid, initialize, propose_tariff_update, execute_tariff_update,
  tariff_notice_period,
}

-- 24 tariffs of the hours in order, with positive rates.
pub record IsValid (schedule : DailyTariffSchedule) : Type 0 where
  pub complete : length schedule.hourly_rates ≡ 24
  pub ordered : hours_valid 0 schedule.hourly_rates ≡ true

pub record IsSound (s : State) : Type 0 where
  pub current : (x : DailyTariffSchedule) → s.current_tariff_schedule ≡ some x → IsValid x
  pub today : (x : DailyTariffSchedule) → s.today_tariff_schedule ≡ some x → IsValid x
  pub proposals :
      (i : ℕ) (p : TariffUpdateProposal)
      → s.tariff_update_proposal i ≡ some p
      → IsValid p.new_schedule

abbrev pub deployed : State
deployed = record {
  tariff_oracle_admin = none;
  current_tariff_schedule = none;
  tariff_schedule_hash = none;
  tariff_proposal_counter = none;
  tariff_update_proposal = no_entries;
  today_tariff_schedule = none;
  events = [];
}

pub data Step : State → State → Type 0 where
  initialized :
      {s s' : State} (env : Env) (admin : ℕ) (schedule : DailyTariffSchedule)
      → initialize env admin schedule s ≡ ok (tt, s')
      → Step s s'
  proposed :
      {s s' : State} (env : Env) (schedule : DailyTariffSchedule) (signature i : ℕ)
      → propose_tariff_update env schedule signature s ≡ ok (i, s')
      → Step s s'
  executed :
      {s s' : State} (env : Env) (i : ℕ) → execute_tariff_update env i s ≡ ok (tt, s') → Step s s'
  expired : {s : State} → Step s (record s { today_tariff_schedule = none })

pub data Reachable : State → Type 0 where
  start : Reachable deployed
  next : {s s' : State} → Reachable s → Step s s' → Reachable s'

-- A schedule that is the only one written.
only : (x y : DailyTariffSchedule) → IsValid x → some x ≡ some y → IsValid y
only x y v h = subst IsValid (ground (arith, h)) v

module _ (env : Env) (s s' : State) (inv : IsSound s) where
  initialize-IsSound :
      (admin : ℕ) (x : DailyTariffSchedule) → initialize env admin x s ≡ ok (tt, s') → IsSound s'
  unfolding initialize
  initialize-IsSound admin x h =
      let v : IsValid x = record { complete = ground (arith, h); ordered = ground (arith, h) } in
      let ec : s'.current_tariff_schedule ≡ some x = ground (arith, h) in
      let et : s'.today_tariff_schedule ≡ some x = ground (arith, h) in
      let ep : s'.tariff_update_proposal ≡ s.tariff_update_proposal = ground (arith, h) in
      record {
        current = λ y e. only x y v (sym ec ∙ e);
        today = λ y e. only x y v (sym et ∙ e);
        proposals = rw ep inv.proposals;
      }

  put_proposal :
      (i : ℕ) (p : TariffUpdateProposal)
      → IsValid p.new_schedule
      → (j : ℕ) (q : TariffUpdateProposal) → put i p s.tariff_update_proposal j ≡ some q
      → IsValid q.new_schedule
  put_proposal i p v j q h = elim (put_cases i j p q s.tariff_update_proposal h) [
    | inl (e, k) ↦ subst (λ x. IsValid x.new_schedule) k v
    | inr k ↦ inv.proposals j q k
  ]

  propose-IsSound :
      (x : DailyTariffSchedule) (signature i : ℕ)
      → propose_tariff_update env x signature s ≡ ok (i, s')
      → IsSound s'
  unfolding propose_tariff_update
  propose-IsSound x signature i h = elim (Option-cases s.tariff_oracle_admin) [
    | inl a ↦ absurd (ground (arith, h, a))
    | inr (admin, a) ↦
        let v : IsValid x = record {
          complete = ground (arith, h, a);
          ordered = ground (arith, h, a);
        } in
        let p : TariffUpdateProposal = record {
          proposal_id = i;
          new_schedule = x;
          proposed_by = admin;
          created_at = env.now;
          executable_at = (env.now + tariff_notice_period) % 2 ^ 64;
          is_executed = false;
          previous_schedule_hash = unwrap_or 0 s.tariff_schedule_hash;
        } in
        let ep : s'.tariff_update_proposal ≡ put i p s.tariff_update_proposal =
          ground (arith, h, a) in
        let ec : s'.current_tariff_schedule ≡ s.current_tariff_schedule = ground (arith, h, a) in
        let et : s'.today_tariff_schedule ≡ s.today_tariff_schedule = ground (arith, h, a) in
        record {
          current = rw ec inv.current;
          today = rw et inv.today;
          proposals = rw ep (put_proposal i p v);
        }
  ]

  execute-IsSound : (i : ℕ) → execute_tariff_update env i s ≡ ok (tt, s') → IsSound s'
  unfolding execute_tariff_update
  execute-IsSound i h = elim (Option-cases s.tariff_oracle_admin) [
    | inl a ↦ absurd (ground (arith, h, a))
    | inr (admin, a) ↦ elim (Option-cases (s.tariff_update_proposal i)) [
      | inl e ↦ absurd (ground (arith, h, a, e))
      | inr (p, e) ↦ elim (Option-cases s.current_tariff_schedule) [
        | inl f ↦ absurd (ground (arith, h, a, e, f))
        | inr (old, f) ↦
            let valid = inv.proposals i p e in
            let ep : s'.tariff_update_proposal
                ≡ put i (record p { is_executed = true }) s.tariff_update_proposal =
              ground (arith, h, a, e, f) in
            let ec : s'.current_tariff_schedule ≡ some p.new_schedule =
              ground (arith, h, a, e, f) in
            let et : s'.today_tariff_schedule ≡ some p.new_schedule = ground (arith, h, a, e, f) in
            record {
              current = λ y k. only p.new_schedule y valid (sym ec ∙ k);
              today = λ y k. only p.new_schedule y valid (sym et ∙ k);
              proposals = rw ep (put_proposal i (record p { is_executed = true }) valid);
            }
      ]
    ]
  ]

Step-IsSound : (s s' : State) → Step s s' → IsSound s → IsSound s'
Step-IsSound s s' (initialized env admin x h) inv = initialize-IsSound env s s' inv admin x h
Step-IsSound s s' (proposed env x signature i h) inv = propose-IsSound env s s' inv x signature i h
Step-IsSound s s' (executed env i h) inv = execute-IsSound env s s' inv i h
Step-IsSound s _ expired inv = record {
  current = inv.current;
  today = λ x e. absurd (ground (arith, e));
  proposals = inv.proposals;
}

pub Reachable-IsSound : (s : State) → Reachable s → IsSound s
Reachable-IsSound _ start = record {
  current = λ x e. absurd (ground (arith, e));
  today = λ x e. absurd (ground (arith, e));
  proposals = λ i p e. absurd (ground (arith, e));
}
Reachable-IsSound s' (next {s} r step) = Step-IsSound s s' step (Reachable-IsSound s r)
