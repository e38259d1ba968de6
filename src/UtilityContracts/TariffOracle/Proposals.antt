-- ===== src/UtilityContracts/TariffOracle/Proposals.antt =====
-- The proposals of a history of the oracle, with the ledger's time of each.
use mathlib.Core.Path.{subst}
use utility_contracts.Base.{
  ℕ, ◌+◌, ◌%◌, ◌^◌, ◌≡◌, refl, sym, ap, ◌∙◌, some, unwrap_or, List, [], ◌∷◌, true, false, ok, arith,
  Option-cases, inl, inr, put, put_cases,
}
use utility_contracts.UtilityContracts.TariffOracle.Types.{
  DailyTariffSchedule, TariffUpdateProposal, State, Env,
}
use utility_contracts.UtilityContracts.TariffOracle.Schedules.{
  initialize, propose_tariff_update, execute_tariff_update, tariff_notice_period,
}
use utility_contracts.UtilityContracts.TariffOracle.History.{
  Step, initialized, proposed, executed, expired, Reachable, start, next,
}

-- A call of `propose_tariff_update` that returned: the number it gave, the ledger's time, the schedule.
pub record Proposal : Type 0 where
  pub proposal_id : ℕ
  pub time : ℕ
  pub schedule : DailyTariffSchedule

pub data Proposed (proposal_id time : ℕ) (schedule : DailyTariffSchedule)
    : List Proposal → Type 0 where
  here :
      {log : List Proposal}
      → Proposed proposal_id time schedule
          (record { proposal_id = proposal_id; time = time; schedule = schedule } ∷ log)
  there :
      {log : List Proposal} (p : Proposal)
      → Proposed proposal_id time schedule log
      → Proposed proposal_id time schedule (p ∷ log)

unfoldable pub noted : {s s' : State} → Step s s' → List Proposal → List Proposal
noted (initialized env admin x h) log = log
noted (proposed env x signature i h) log =
    record { proposal_id = i; time = env.now; schedule = x } ∷ log
noted (executed env i h) log = log
noted expired log = log

-- The latest first.
unfoldable pub proposals_of : {s : State} → Reachable s → List Proposal
unfolding noted
proposals_of start = []
proposals_of (next r step) = noted step (proposals_of r)

module _ (env : Env) (s s' : State) where
  initialize_stored :
      (admin : ℕ) (x : DailyTariffSchedule)
      → initialize env admin x s ≡ ok (tt, s')
      → s'.tariff_update_proposal ≡ s.tariff_update_proposal
  unfolding initialize
  initialize_stored admin x h = ground (arith, h)

  propose_stored :
      (x : DailyTariffSchedule) (signature i : ℕ)
      → propose_tariff_update env x signature s ≡ ok (i, s')
      → (p : TariffUpdateProposal) × (s'.tariff_update_proposal ≡ put i p s.tariff_update_proposal)
        × (p.new_schedule ≡ x)
        × (p.executable_at ≡ (env.now + tariff_notice_period) % 2 ^ 64)
  unfolding propose_tariff_update
  propose_stored x signature i h = elim (Option-cases s.tariff_oracle_admin) [
    | inl a ↦ absurd (ground (arith, h, a))
    | inr (admin, a) ↦
        let p : TariffUpdateProposal = record {
          proposal_id = i;
          new_schedule = x;
          proposed_by = admin;
          created_at = env.now;
          executable_at = (env.now + tariff_notice_period) % 2 ^ 64;
          is_executed = false;
          previous_schedule_hash = unwrap_or 0 s.tariff_schedule_hash;
        } in
        (p, ground (arith, h, a), refl, refl)
  ]

  execute_stored :
      (i : ℕ)
      → execute_tariff_update env i s ≡ ok (tt, s')
      → (p : TariffUpdateProposal) × (s.tariff_update_proposal i ≡ some p)
        × (s'.tariff_update_proposal
            ≡ put i (record p { is_executed = true }) s.tariff_update_proposal)
  unfolding execute_tariff_update
  execute_stored i h = elim (Option-cases s.tariff_oracle_admin) [
    | inl a ↦ absurd (ground (arith, h, a))
    | inr (admin, a) ↦ elim (Option-cases (s.tariff_update_proposal i)) [
      | inl e ↦ absurd (ground (arith, h, a, e))
      | inr (p, e) ↦ elim (Option-cases s.current_tariff_schedule) [
        | inl f ↦ absurd (ground (arith, h, a, e, f))
        | inr (old, f) ↦ (p, e, ground (arith, h, a, e, f))
      ]
    ]
  ]

-- The stored proposal came from a call whose time its notice counts from.
pub record IsDated (log : List Proposal) (i : ℕ) (p : TariffUpdateProposal) : Type 0 where
  pub time : ℕ
  pub logged : Proposed i time p.new_schedule log
  pub notice : p.executable_at ≡ (time + tariff_notice_period) % 2 ^ 64

abbrev AreDated : List Proposal → State → Type 0
AreDated log s =
    (i : ℕ) (p : TariffUpdateProposal) → s.tariff_update_proposal i ≡ some p → IsDated log i p

earlier-IsDated :
    (log : List Proposal) (c : Proposal) (i : ℕ) (p : TariffUpdateProposal)
    → IsDated log i p
    → IsDated (c ∷ log) i p
earlier-IsDated log c i p d = record { time = d.time; logged = there c d.logged; notice = d.notice }

same-IsDated :
    (log : List Proposal) (i j : ℕ) (p q : TariffUpdateProposal)
    → i ≡ j
    → p ≡ q
    → IsDated log i p
    → IsDated log j q
same-IsDated log i j p q at same d =
    subst (λ x. IsDated log j x) same (subst (λ n. IsDated log n p) at d)

Step-AreDated :
    (s s' : State) (step : Step s s') (log : List Proposal)
    → AreDated log s
    → AreDated (noted step log) s'
unfolding noted
Step-AreDated s s' (initialized env admin x h) log old j q e =
    old j q (ap (λ f. f j) (sym (initialize_stored env s s' admin x h)) ∙ e)
Step-AreDated s s' (proposed env x signature i h) log old j q e =
    let (p, stored, same, due) = propose_stored env s s' x signature i h in
    elim (put_cases i j p q s.tariff_update_proposal (ap (λ f. f j) (sym stored) ∙ e)) [
      | inr k ↦ earlier-IsDated log _ j q (old j q k)
      | inl (at, k) ↦
          let log' = noted (proposed {s = s} {s' = s'} env x signature i h) log in
          same-IsDated log' i j p q at k (record {
            time = env.now;
            logged = subst (λ y. Proposed i env.now y log') (sym same) here;
            notice = due;
          })
    ]
Step-AreDated s s' (executed env i h) log old j q e =
    let (p, found, stored) = execute_stored env s s' i h in
    elim (put_cases i j (record p { is_executed = true }) q s.tariff_update_proposal
      (ap (λ f. f j) (sym stored) ∙ e)) [
        | inr k ↦ old j q k
        | inl (at, k) ↦
            let d = old i p found in
            same-IsDated log i j (record p { is_executed = true }) q at k
              (record { time = d.time; logged = d.logged; notice = d.notice })
      ]
Step-AreDated s _ expired log old j q e = old j q e

pub Reachable-AreDated : (s : State) (r : Reachable s) → AreDated (proposals_of r) s
unfolding proposals_of
Reachable-AreDated _ start i p e = absurd (ground (arith, e))
Reachable-AreDated s' (next {s} r step) i p e =
    Step-AreDated s s' step (proposals_of r) (Reachable-AreDated s r) i p e
