-- ===== src/UtilityContracts/Stream/Fleet.antt =====
-- enterprise.rs: the fleet's rate and its cap, the exchange of energy between peers, liveness, and load
-- shedding.
use utility_contracts.Base.{
  ℕ, ◌+◌, ◌-◌, ◌^◌, min, ℤ, pos, Bool, true, false, not, ◌&&◌, ◌||◌, Option, none, some, ◌∷◌, put,
  unwrap_or, ltb, leb, ◌==◌, ltb_ℤ, leb_ℤ, eqb_ℤ, if◌then◌else◌, saturating_add, saturating_sub,
  saturating_mul, wrapping_sub, ◌/ℤ◌, ◌>>=◌, ◌>>◌, gets, modify, when, pure, panic_if, or_panic,
}
use utility_contracts.UtilityContracts.Errors.{
  meter_not_found, unauthorized_admin, fleet_cap_exceeded, self_p2p_not_allowed,
  invalid_token_amount, public_key_mismatch, call_failed,
}
use utility_contracts.UtilityContracts.Stream.Types.{
  ContinuousFlow, ProviderGridEpoch, Transfer, State, Env, Action, flt_limit, grid_alert, live_brch,
  p2p_fin, require_auth, publish, store_flow,
}

-- `i128::MAX / 4`.
abbrev pub fleet_cap_default_unlimited : ℤ
fleet_cap_default_unlimited = pos (2 ^ 125 - 1)

abbrev pub neg : ℤ → ℤ
neg a = wrapping_sub (pos 0) a

unfoldable pub fleet_get_active_sum : (provider : ℕ) → State → ℤ
fleet_get_active_sum provider s = unwrap_or (pos 0) (s.fleet_agg provider)

unfoldable pub fleet_get_cap : (provider : ℕ) → State → ℤ
fleet_get_cap provider s = unwrap_or fleet_cap_default_unlimited (s.fleet_cap provider)

unfoldable pub fleet_apply_delta : (provider : ℕ) → ℤ → State → State
unfolding fleet_get_active_sum
fleet_apply_delta provider delta s =
    if eqb_ℤ delta (pos 0)
    then s
    else let next = saturating_add (fleet_get_active_sum provider s) delta in
      record s { fleet_agg = put provider (if ltb_ℤ next (pos 0) then pos 0 else next) s.fleet_agg }

unfoldable pub fleet_assert_room_for_new_stream : (provider : ℕ) → ℤ → Action (Unit {0})
unfolding fleet_get_active_sum fleet_get_cap
fleet_assert_room_for_new_stream provider new_stream_rate = do
  next ← gets (λ s. saturating_add (fleet_get_active_sum provider s) new_stream_rate)
  limit ← gets (fleet_get_cap provider)
  panic_if (ltb_ℤ (pos 0) new_stream_rate && ltb_ℤ limit next) fleet_cap_exceeded

abbrev is_governor : ℕ → Option ℕ → Bool
is_governor admin none = false
is_governor admin (some dao) = dao == admin

unfoldable pub set_fleet_cap_super_admin :
    Env → (provider : ℕ) → ℤ → (admin : ℕ) → Action (Unit {0})
unfolding fleet_get_cap
set_fleet_cap_super_admin env provider new_cap admin = do
  require_auth env admin
  super_a ← or_panic (← gets (λ s. s.current_admin)) unauthorized_admin
  dao ← gets (λ s. s.dao_governor)
  panic_if (not ((admin == super_a) || is_governor admin dao)) unauthorized_admin
  old ← gets (fleet_get_cap provider)
  modify (λ s. record s { fleet_cap = put provider new_cap s.fleet_cap })
  modify (publish (flt_limit provider old new_cap))

-- `p2p_net_flow_amount`.
unfoldable pub p2p_net_flow_amount : (supply_rate demand_rate delta_seconds : ℤ) → ℤ
p2p_net_flow_amount supply_rate demand_rate delta_seconds =
    saturating_mul (saturating_sub supply_rate demand_rate) delta_seconds

abbrev abs : ℤ → ℤ
abs a = if ltb_ℤ a (pos 0) then neg a else a

abbrev min_ℤ : ℤ → ℤ → ℤ
min_ℤ a b = if leb_ℤ a b then a else b

-- The supplier's vault after a credit, and the credit that was booked.
unfoldable pub book_credit : (credit limit vault : ℤ) → ℤ × ℤ
book_credit credit limit vault =
    let room = saturating_sub limit vault in
    let booked = if ltb_ℤ room credit then room else credit in
    let pay = min_ℤ (neg credit) vault in
    if ltb_ℤ (pos 0) credit
    then (saturating_add vault booked, booked)
    else if ltb_ℤ credit (pos 0)
    then (saturating_sub vault pay, neg pay)
    else (vault, credit)

-- `token::Client::transfer`.
abbrev pub call_transfer : Env → Transfer → Action (Unit {0})
call_transfer env t = do
  accepted ← gets (λ s. env.accepts_transfer s.transfers t)
  panic_if (not accepted) call_failed
  modify (λ s. record s { transfers = t ∷ s.transfers })

abbrev p2p_grid_fee : (trade_volume grid_fee_bps : ℤ) → ℤ
p2p_grid_fee trade_volume grid_fee_bps =
    if ltb_ℤ (pos 0) trade_volume && ltb_ℤ (pos 0) grid_fee_bps
    then saturating_mul trade_volume grid_fee_bps /ℤ pos 10_000
    else pos 0

-- A credit of zero leaves the vault's entry unwritten.
abbrev p2p_book : (supplier : ℕ) → (credit_delta battery_credit_cap : ℤ) → Action ℤ
p2p_book supplier credit_delta battery_credit_cap = do
  vault ← gets (λ s. unwrap_or (pos 0) (s.p2p_credit_vault supplier))
  let booking = book_credit credit_delta battery_credit_cap vault
  when (not (eqb_ℤ credit_delta (pos 0)))
      (modify (λ s. record s { p2p_credit_vault = put supplier booking.0 s.p2p_credit_vault }))
  pure booking.1

abbrev p2p_pay_fee : Env → (consumer treasury consumer_token : ℕ) → ℤ → Action (Unit {0})
p2p_pay_fee env consumer treasury consumer_token grid_fee = when (ltb_ℤ (pos 0) grid_fee) (
    call_transfer env
      (record { token = consumer_token; from = consumer; to = treasury; amount = grid_fee }))

abbrev p2p_settle :
    Env
    → (supplier consumer treasury consumer_token : ℕ) → (gross grid_fee limit : ℤ) → Action (ℤ × ℤ)
p2p_settle env supplier consumer treasury consumer_token gross grid_fee limit = do
  booked ← p2p_book supplier (saturating_sub gross grid_fee) limit
  p2p_pay_fee env consumer treasury consumer_token grid_fee
  modify (publish (p2p_fin supplier consumer booked grid_fee env.sequence))
  pure (booked, grid_fee)

unfoldable pub p2p_finalize_exchange :
    Env
    → (supplier consumer utility_treasury : ℕ)
    → (supply_rate demand_rate delta_seconds grid_fee_bps battery_credit_cap : ℤ)
    → (consumer_token : ℕ) → Action (ℤ × ℤ)
unfolding p2p_net_flow_amount book_credit
p2p_finalize_exchange env supplier consumer utility_treasury supply_rate demand_rate delta_seconds
      grid_fee_bps battery_credit_cap consumer_token =
    do
      require_auth env supplier
      require_auth env consumer
      panic_if (supplier == consumer) self_p2p_not_allowed
      panic_if (ltb_ℤ grid_fee_bps (pos 0) || ltb_ℤ (pos 10_000) grid_fee_bps) invalid_token_amount
      let gross = p2p_net_flow_amount supply_rate demand_rate delta_seconds
      if leb_ℤ delta_seconds (pos 0)
          then pure (pos 0, pos 0)
          else p2p_settle env supplier consumer utility_treasury consumer_token gross
              (p2p_grid_fee (abs gross) grid_fee_bps) battery_credit_cap

-- `get_continuous_flow_or_panic` of lib.rs.
abbrev pub get_continuous_flow_or_panic : (stream_id : ℕ) → Action ContinuousFlow
get_continuous_flow_or_panic stream_id = do
  or_panic (← gets (λ s. s.flows stream_id)) meter_not_found

-- A signature that is not valid makes `ed25519_verify` panic.
unfoldable pub stream_heartbeat :
    Env → (stream_id meter_id signature pub_key : ℕ) → Action (Unit {0})
stream_heartbeat env stream_id meter_id signature pub_key = do
  flow ← get_continuous_flow_or_panic stream_id
  panic_if (not (flow.device_mac_pubkey == pub_key)) public_key_mismatch
  panic_if (not (env.signature_valid pub_key stream_id meter_id signature)) call_failed
  modify (λ s. record s { last_heartbeat = put stream_id env.sequence s.last_heartbeat })
  modify (store_flow stream_id (record flow { is_unreliable = false }))

-- How many ledgers a device has been silent; none where no heartbeat is known.
abbrev pub blackout : Env → Option ℕ → ℕ
blackout env last = let l = unwrap_or 0 last in if l == 0 then 0 else env.sequence - l

-- The slashed part of the buffer. The divisor is at least 1, so the division neither panics nor overflows.
unfoldable pub slash_of : (buffer : ℤ) → (excess base : ℕ) → ℤ
slash_of buffer excess base =
    saturating_mul buffer (pos excess) /ℤ pos (if ltb (base + excess) 1 then 1 else base + excess)

abbrev slash : Env → (stream_id meter_id delta stale_threshold_ledgers : ℕ) → Action ℤ
slash env stream_id meter_id delta stale_threshold_ledgers = do
  flow ← get_continuous_flow_or_panic stream_id
  let slashed =
      slash_of flow.buffer_balance (delta - stale_threshold_ledgers) stale_threshold_ledgers
  modify (
      store_flow stream_id (record flow {
        buffer_balance = saturating_sub flow.buffer_balance slashed;
        is_unreliable = true;
      }))
  modify (publish (live_brch stream_id delta slashed meter_id))
  pure slashed

unfoldable pub liveness_check_and_slash :
    Env → (stream_id meter_id stale_threshold_ledgers : ℕ) → Action ℤ
unfolding slash_of
liveness_check_and_slash env stream_id meter_id stale_threshold_ledgers s =
    let delta = blackout env (s.last_heartbeat stream_id) in
    if stale_threshold_ledgers == 0
    then pure (pos 0) s
    else if leb delta stale_threshold_ledgers
    then pure (pos 0) s
    else slash env stream_id meter_id delta stale_threshold_ledgers s

unfoldable pub pardon_liveness_slash : Env → (stream_id provider : ℕ) → Action (Unit {0})
pardon_liveness_slash env stream_id provider = do
  require_auth env provider
  flow ← get_continuous_flow_or_panic stream_id
  panic_if (not (flow.provider == provider)) unauthorized_admin
  modify (store_flow stream_id (record flow { is_unreliable = false }))

pub data PriorityTier : Type 0 where
  critical high standard low : PriorityTier

abbrev pub tier_rank : PriorityTier → ℕ
tier_rank critical = 3
tier_rank high = 2
tier_rank standard = 1
tier_rank low = 0

abbrev pub provider_grid_state : (provider : ℕ) → State → ProviderGridEpoch
provider_grid_state provider s =
    unwrap_or (record { epoch = 0; floor_rank = 0 }) (s.grid_epoch provider)

-- `saturating_add(1)` of a `u64`.
abbrev next_epoch : ℕ → ℕ
next_epoch epoch = min (epoch + 1) (2 ^ 64 - 1)

unfoldable pub global_load_shed :
    Env → (provider : ℕ) → PriorityTier → (grid_admin : ℕ) → Action (Unit {0})
global_load_shed env provider minimum_surviving_tier grid_admin = do
  require_auth env grid_admin
  admin ← or_panic (← gets (λ s. s.grid_administrator)) unauthorized_admin
  panic_if (not (grid_admin == admin)) unauthorized_admin
  st ← gets (provider_grid_state provider)
  let shed : ProviderGridEpoch = record {
    epoch = next_epoch st.epoch;
    floor_rank = tier_rank minimum_surviving_tier;
  }
  modify (λ s. record s { grid_epoch = put provider shed s.grid_epoch })
  modify (publish (grid_alert provider shed.epoch (tier_rank minimum_surviving_tier)))

unfoldable pub stream_should_grid_pause : ContinuousFlow → ProviderGridEpoch → Bool
stream_should_grid_pause flow grid =
    if flow.priority_tier == 3
    then false
    else if leb grid.epoch flow.grid_epoch_seen
    then false
    else ltb flow.priority_tier grid.floor_rank

unfoldable pub stream_acknowledge_grid_epoch :
    (stream_id : ℕ) → ContinuousFlow → State → ContinuousFlow × State
stream_acknowledge_grid_epoch stream_id flow s =
    let flow' = record flow { grid_epoch_seen = (provider_grid_state flow.provider s).epoch } in
    (flow', store_flow stream_id flow' s)
