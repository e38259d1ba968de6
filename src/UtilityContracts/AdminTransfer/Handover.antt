-- ===== src/UtilityContracts/AdminTransfer/Handover.antt =====
-- Who can take over the administration, and when.
use mathlib.Core.List.{Memᴰ}
use utility_contracts.Base.{
  ℕ, ◌≡◌, refl, true, false, Option-cases, inl, inr, none, some, List, [], ◌∷◌, ok, err,
  Result-cases, ◌+◌, ◌%◌, ◌^◌, ◌≤◌, ◌<◌, arith, leb, ltb,
}
use utility_contracts.UtilityContracts.Errors.{ContractError}
use utility_contracts.UtilityContracts.AdminTransfer.Protocol.{
  AdminTransferProposal, State, Env, new_proposal, initiate_admin_transfer, veto_admin_transfer,
  execute_admin_transfer, set_initial_admin, register_active_user, veto_threshold, handed_over,
}

abbrev pub deployed : State
deployed = record {
  current_admin = none;
  proposal = none;
  admin_veto = λ u t. false;
  active_users = none;
  events = [];
}

-- A call that proposed an address.
pub record Consent : Type 0 where
  pub env : Env
  pub proposed : ℕ

-- The states that calls reach, with the proposals that returned, the last one first.
pub data Run : List Consent → State → Type 0 where
  start : Run [] deployed
  proposed_next :
      {log : List Consent} {s s' : State} (env : Env) (proposed : ℕ)
      → Run log s
      → initiate_admin_transfer env proposed s ≡ ok (tt, s')
      → Run (record { env = env; proposed = proposed } ∷ log) s'
  vetoed_next :
      {log : List Consent} {s s' : State} (env : Env) (user : ℕ)
      → Run log s
      → veto_admin_transfer env user s ≡ ok (tt, s')
      → Run log s'
  executed_next :
      {log : List Consent} {s s' : State} (env : Env)
      → Run log s
      → execute_admin_transfer env s ≡ ok (tt, s')
      → Run log s'
  set_next :
      {log : List Consent} {s s' : State} (env : Env) (admin : ℕ)
      → Run log s
      → set_initial_admin env admin s ≡ ok (tt, s')
      → Run log s'
  registered_next :
      {log : List Consent} {s s' : State} (env : Env) (user : ℕ)
      → Run log s
      → register_active_user env user s ≡ ok (tt, s')
      → Run log s'

-- The admin authorized the call that proposed the address.
pub record Agreed (log : List Consent) (admin proposed at : ℕ) : Type 0 where
  pub consent : Consent
  pub made : Memᴰ consent log
  pub asked : consent.env.authorized admin ≡ true
  pub named : consent.proposed ≡ proposed
  pub dated : consent.env.now ≡ at

-- A stored proposal is one of the admin in office.
abbrev Sound : List Consent → State → Type 0
Sound log s =
    (p : AdminTransferProposal)
    → s.proposal ≡ some p
    → (s.current_admin ≡ some p.current_admin)
      × Agreed log p.current_admin p.proposed_admin p.proposed_at

weaker :
    (log : List Consent) (c : Consent) (admin proposed at : ℕ)
    → Agreed log admin proposed at
    → Agreed (c ∷ log) admin proposed at
weaker log c admin proposed at a = record {
  consent = a.consent;
  made = Memᴰ.tail a.made;
  asked = a.asked;
  named = a.named;
  dated = a.dated;
}

-- What an execution of a transfer found and did.
pub record HandedOver (log : List Consent) (s s' : State) (now : ℕ) : Type 0 where
  pub old : ℕ
  pub new : ℕ
  pub at : ℕ
  pub before : s.current_admin ≡ some old
  pub after : s'.current_admin ≡ some new
  pub agreed : Agreed log old new at

-- After a proposal that returned, with a positive veto threshold, with no other call in between,
-- and with times that do not wrap: a call of `execute_admin_transfer` succeeds at any time up to
-- three days after the proposal, whoever makes it, also at once, and puts the proposed address in
-- office.
pub execute_at_once :
    (env later : Env) (proposed : ℕ) (s s' : State)
    → initiate_admin_transfer env proposed s ≡ ok (tt, s')
    → 0 < veto_threshold s
    → env.now + 259_200 < 2 ^ 64
    → later.now ≤ env.now + 259_200
    → (t : State) × (execute_admin_transfer later s' ≡ ok (tt, t))
      × (t.current_admin ≡ some proposed)
unfolding initiate_admin_transfer execute_admin_transfer
execute_at_once env later proposed s s' h up fits soon = elim (Option-cases s.current_admin) [
  | inl a ↦ absurd (ground (arith, h, a))
  | inr (admin, a) ↦
      let stored : s'.proposal ≡ some (new_proposal env.now admin proposed) =
        ground (arith, h, a) in
      let users : s'.active_users ≡ s.active_users = ground (arith, h, a) in
      let open_still : ltb (((env.now + 172_800) % 2 ^ 64 + 86_400) % 2 ^ 64) later.now ≡ false =
        ground (arith, soon, fits) in
      let enough : leb (veto_threshold s) 0 ≡ false = ground (arith, up) in
      (
        handed_over later.now (new_proposal env.now admin proposed) s',
        ground (arith, stored, users, open_still, enough),
        refl,
      )
]

-- Where registrations of users are counted and they are fewer than 20, every call of
-- `execute_admin_transfer` fails.
pub few_users_blocked :
    (env : Env) (s : State) (n : ℕ)
    → s.active_users ≡ some n
    → n < 20
    → (e : ContractError) × (execute_admin_transfer env s ≡ err e)
unfolding execute_admin_transfer
few_users_blocked env s n counted few = elim (Result-cases (execute_admin_transfer env s)) [
  | inl e ↦ e
  | inr (u, t, r) ↦ elim (Option-cases s.proposal) [
    | inl a ↦ absurd (ground (arith, r, a))
    | inr (p, a) ↦ absurd (ground (arith, r, a, counted, few))
  ]
]
