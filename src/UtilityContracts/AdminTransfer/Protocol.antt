-- ===== src/UtilityContracts/AdminTransfer/Protocol.antt =====
-- The entry points that propose, veto and execute a transfer of the administration, lib.rs.
use utility_contracts.Base.{
  ℕ, Bool, true, false, not, ◌&&◌, ◌||◌, Option, none, some, List, ◌∷◌, ◌+◌, ◌*◌, ◌/◌, ◌%◌, ◌^◌,
  ltb, leb, ◌==◌, unwrap_or, is_some, Call, ◌>>=◌, ◌>>◌, gets, modify, panic_if, or_panic,
}
use utility_contracts.UtilityContracts.Errors.{
  ContractError, not_authorized, message, admin_transfer_active, no_admin_transfer_in_progress,
  already_voted, admin_execution_window_expired, veto_threshold_not_reached,
}

pub record AdminTransferProposal : Type 0 where
  pub current_admin : ℕ
  pub proposed_admin : ℕ
  pub proposed_at : ℕ
  pub execution_deadline : ℕ
  pub veto_count : ℕ
  pub is_active : Bool

pub data Event : Type 0 where
  admin_xfer : (current_admin proposed_admin deadline : ℕ) → Event
  veto_cast : (veto_count : ℕ) → Event
  admin_done : (proposed_admin now : ℕ) → Event
  admin_set : (admin : ℕ) → Event
  active_user : (user : ℕ) → Event

pub record State : Type 0 where
  pub current_admin : Option ℕ
  pub proposal : Option AdminTransferProposal
  -- `DataKey::AdminVeto(user, proposed_at)`.
  pub admin_veto : (user proposed_at : ℕ) → Bool
  pub active_users : Option ℕ
  pub events : List Event

pub record Env : Type 0 where
  pub now : ℕ
  pub authorized : ℕ → Bool

abbrev pub Action : Type 0 → Type 0
Action A = Call State ContractError A

abbrev pub require_auth : Env → ℕ → Action (Unit {0})
require_auth env who = panic_if (not (env.authorized who)) not_authorized

abbrev publish : Event → State → State
publish e s = record s { events = e ∷ s.events }

abbrev pub admin_transfer_timelock : ℕ
admin_transfer_timelock = 172_800

abbrev pub veto_threshold_bps : ℕ
veto_threshold_bps = 500

abbrev is_pending : (now : ℕ) → Option AdminTransferProposal → Bool
is_pending now none = false
is_pending now (some proposal) = proposal.is_active && ltb now proposal.execution_deadline

abbrev pub new_proposal : (now current_admin proposed_admin : ℕ) → AdminTransferProposal
new_proposal now current_admin proposed_admin = record {
  current_admin = current_admin;
  proposed_admin = proposed_admin;
  proposed_at = now;
  execution_deadline = (now + admin_transfer_timelock) % 2 ^ 64;
  veto_count = 0;
  is_active = true;
}

unfoldable pub initiate_admin_transfer : Env → (proposed_admin : ℕ) → Action (Unit {0})
initiate_admin_transfer env proposed_admin = do
  current_admin ← or_panic (← gets (λ s. s.current_admin)) message
  require_auth env current_admin
  pending ← gets (λ s. is_pending env.now s.proposal)
  panic_if pending admin_transfer_active
  let proposal = new_proposal env.now current_admin proposed_admin
  modify (λ s.
      publish (admin_xfer current_admin proposed_admin proposal.execution_deadline)
        (record s { proposal = some proposal }))

abbrev pub mark_veto : (user proposed_at : ℕ) → (ℕ → ℕ → Bool) → ℕ → ℕ → Bool
mark_veto user proposed_at vetoes u t = (u == user && t == proposed_at) || vetoes u t

unfoldable pub veto_admin_transfer : Env → (user : ℕ) → Action (Unit {0})
veto_admin_transfer env user = do
  require_auth env user
  proposal ← or_panic (← gets (λ s. s.proposal)) message
  panic_if (not proposal.is_active || leb proposal.execution_deadline env.now)
      no_admin_transfer_in_progress
  has_vetoed ← gets (λ s. s.admin_veto user proposal.proposed_at)
  panic_if has_vetoed already_voted
  let veto_count = (proposal.veto_count + 1) % 2 ^ 32
  modify (λ s. publish (veto_cast veto_count) (record s {
    admin_veto = mark_veto user proposal.proposed_at s.admin_veto;
    proposal = some (record proposal { veto_count = veto_count });
  }))

abbrev pub veto_threshold : State → ℕ
veto_threshold s = (unwrap_or 100 s.active_users * veto_threshold_bps / 10_000) % 2 ^ 32

abbrev pub handed_over : (now : ℕ) → AdminTransferProposal → State → State
handed_over now proposal s =
    publish (admin_done proposal.proposed_admin now)
      (record s { current_admin = some proposal.proposed_admin; proposal = none })

-- It does not compare the time with the deadline from below.
unfoldable pub execute_admin_transfer : Env → Action (Unit {0})
execute_admin_transfer env = do
  proposal ← or_panic (← gets (λ s. s.proposal)) message
  panic_if (not proposal.is_active) no_admin_transfer_in_progress
  panic_if (ltb ((proposal.execution_deadline + 86_400) % 2 ^ 64) env.now)
      admin_execution_window_expired
  threshold ← gets veto_threshold
  panic_if (leb threshold proposal.veto_count) veto_threshold_not_reached
  modify (handed_over env.now proposal)

unfoldable pub set_initial_admin : Env → (admin : ℕ) → Action (Unit {0})
set_initial_admin env admin = do
  existing ← gets (λ s. is_some s.current_admin)
  panic_if existing admin_transfer_active
  require_auth env admin
  modify (λ s. publish (admin_set admin) (record s { current_admin = some admin }))

unfoldable pub register_active_user : Env → (user : ℕ) → Action (Unit {0})
register_active_user env user = do
  require_auth env user
  modify (λ s.
      publish (active_user user)
        (record s { active_users = some ((unwrap_or 0 s.active_users + 1) % 2 ^ 32) }))
