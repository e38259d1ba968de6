-- ===== src/UtilityContracts/Stream/Administration.antt =====
-- The administration of the contract, exchanges between providers and the entry points that change a
-- rate keep a solvent state solvent.
use utility_contracts.Base.{
  ℕ, ◌≡◌, ℤ, pos, ◌≤ℤ◌, i128_max, arith, Bool-cases, inl, inr, some, false, ok, ltb_ℤ,
  le_of_not_ltb, leb_ℤ,
}
use utility_contracts.UtilityContracts.Stream.Types.{State, Env}
use utility_contracts.UtilityContracts.Stream.Fleet.{
  p2p_finalize_exchange, set_fleet_cap_super_admin,
}
use utility_contracts.UtilityContracts.Stream.Rates.{
  update_continuous_flow_rate, pause_continuous_flow, resume_continuous_flow,
}
use utility_contracts.UtilityContracts.Stream.Balances.{collect_streaming_fees}
use utility_contracts.UtilityContracts.Stream.Config.{
  set_platform_fee_bps, set_protocol_fee_vault, set_dao_governor, set_grid_administrator,
  grid_shortage_load_shed, max_platform_fee_bps,
}
use utility_contracts.UtilityContracts.Stream.Solvency.{IsSolvent, same-IsSolvent}
use utility_contracts.UtilityContracts.Stream.Steps.{update_rate-IsSolvent}

module _ (env : Env) (s s' : State) (inv : IsSolvent s) where
  pub share_set-IsSolvent : (bps : ℤ) → set_platform_fee_bps env bps s ≡ ok (tt, s') → IsSolvent s'
  unfolding set_platform_fee_bps
  share_set-IsSolvent bps h =
      let low : ltb_ℤ max_platform_fee_bps bps ≡ false = ground (arith, h) in
      let le = le_of_not_ltb max_platform_fee_bps bps low in
      let set : s'.platform_fee_bps ≡ some bps = ground (arith, h) in
      let ef : s'.flows ≡ s.flows = ground (arith, h) in
      let ec : s'.flow_accumulation ≡ s.flow_accumulation = ground (arith, h) in
      record { flows = rw ef inv.flows; cache = rw ec inv.cache; share = rw set (omega arith) }

  pub fees_collected-IsSolvent :
      (i : ℕ) (swept : ℤ) → collect_streaming_fees env i s ≡ ok (swept, s') → IsSolvent s'
  unfolding collect_streaming_fees
  fees_collected-IsSolvent i swept h =
      same-IsSolvent s s' inv (ground (arith, h)) (ground (arith, h)) (ground (arith, h))

  pub vault_set-IsSolvent :
      (vault : ℕ) → set_protocol_fee_vault env vault s ≡ ok (tt, s') → IsSolvent s'
  unfolding set_protocol_fee_vault
  vault_set-IsSolvent vault h =
      same-IsSolvent s s' inv (ground (arith, h)) (ground (arith, h)) (ground (arith, h))

  pub fleet_capped-IsSolvent :
      (provider : ℕ) (limit : ℤ) (admin : ℕ)
      → set_fleet_cap_super_admin env provider limit admin s ≡ ok (tt, s')
      → IsSolvent s'
  unfolding set_fleet_cap_super_admin
  fleet_capped-IsSolvent provider limit admin h =
      same-IsSolvent s s' inv (ground (arith, h)) (ground (arith, h)) (ground (arith, h))

  pub governor_set-IsSolvent : (dao : ℕ) → set_dao_governor env dao s ≡ ok (tt, s') → IsSolvent s'
  unfolding set_dao_governor
  governor_set-IsSolvent dao h =
      same-IsSolvent s s' inv (ground (arith, h)) (ground (arith, h)) (ground (arith, h))

  pub grid_administrator_set-IsSolvent :
      (grid_admin : ℕ) → set_grid_administrator env grid_admin s ≡ ok (tt, s') → IsSolvent s'
  unfolding set_grid_administrator
  grid_administrator_set-IsSolvent grid_admin h =
      same-IsSolvent s s' inv (ground (arith, h)) (ground (arith, h)) (ground (arith, h))

  pub load_shed-IsSolvent :
      (provider tier grid_admin : ℕ)
      → grid_shortage_load_shed env provider tier grid_admin s ≡ ok (tt, s')
      → IsSolvent s'
  unfolding grid_shortage_load_shed
  load_shed-IsSolvent provider tier grid_admin h =
      same-IsSolvent s s' inv (ground (arith, h)) (ground (arith, h)) (ground (arith, h))

pub exchanged-IsSolvent :
    (env : Env) (supplier consumer treasury : ℕ) (supply demand seconds fee_bps limit : ℤ)
    (token : ℕ) (settled : ℤ × ℤ) (s s' : State)
    → IsSolvent s
    → p2p_finalize_exchange env supplier consumer treasury supply demand seconds fee_bps limit token
        s
      ≡ ok (settled, s')
    → IsSolvent s'
unfolding p2p_finalize_exchange
exchanged-IsSolvent env supplier consumer treasury supply demand seconds fee_bps limit token settled
      s s' inv h =
    elim (Bool-cases (leb_ℤ seconds (pos 0))) [
      | inl k ↦
          same-IsSolvent s s' inv (ground (arith, h, k)) (ground (arith, h, k))
            (ground (arith, h, k))
      | inr k ↦
          same-IsSolvent s s' inv (ground (arith, h, k)) (ground (arith, h, k))
            (ground (arith, h, k))
    ]

pub rate_updated-IsSolvent :
    (env : Env) (i : ℕ) (rate : ℤ) (s s' : State)
    → rate ≤ℤ i128_max
    → IsSolvent s
    → update_continuous_flow_rate env i rate s ≡ ok (tt, s')
    → IsSolvent s'
unfolding update_continuous_flow_rate
rate_updated-IsSolvent env i rate s s' fits inv h =
    let up : ltb_ℤ rate (pos 0) ≡ false = ground (arith, h) in
    update_rate-IsSolvent env i rate s s' (le_of_not_ltb rate (pos 0) up, fits) inv
      (ground (arith, h, up))

pub flow_paused-IsSolvent :
    (env : Env) (i : ℕ) (s s' : State)
    → IsSolvent s
    → pause_continuous_flow env i s ≡ ok (tt, s')
    → IsSolvent s'
unfolding pause_continuous_flow
flow_paused-IsSolvent env i s s' inv h =
    update_rate-IsSolvent env i (pos 0) s s' (omega arith, omega arith) inv h

pub flow_resumed-IsSolvent :
    (env : Env) (i : ℕ) (rate : ℤ) (s s' : State)
    → rate ≤ℤ i128_max
    → IsSolvent s
    → resume_continuous_flow env i rate s ≡ ok (tt, s')
    → IsSolvent s'
unfolding resume_continuous_flow
flow_resumed-IsSolvent env i rate s s' fits inv h =
    let up : leb_ℤ rate (pos 0) ≡ false = ground (arith, h) in
    update_rate-IsSolvent env i rate s s' (ground (arith, up), fits) inv (ground (arith, h, up))
