-- ===== src/UtilityContracts/Stream/Update.antt =====
-- `update_continuous_flow` of lib.rs: what has flowed since the last update is charged, first to the main
-- balance, then to the buffer.
use utility_contracts.Base.{
  ℕ, ℤ, pos, not, ◌&&◌, ◌||◌, ltb_ℤ, leb_ℤ, eqb_ℤ, if◌then◌else◌, unwrap_or, saturating_add,
  saturating_sub, saturating_mul, ◌/ℤ◌, ok,
}
use utility_contracts.UtilityContracts.Stream.Types.{
  ContinuousFlow, State, Env, Action, active, depleted, is_paused, is_depleted, publish, store_flow,
  buf_deplet, buf_warn,
}
use utility_contracts.UtilityContracts.Stream.Fleet.{fleet_apply_delta, neg}
use utility_contracts.UtilityContracts.Stream.Temporary.{
  calculate_with_temp_storage, flush_temporary_storage, store_fee_delta,
}

abbrev pub buffer_warning_threshold : ℤ
buffer_warning_threshold = pos 3600

-- The fee on an accumulation, rounded down.
unfoldable pub fee_of : (accumulation platform_fee_bps : ℤ) → ℤ
fee_of accumulation platform_fee_bps =
    if ltb_ℤ (pos 0) platform_fee_bps && ltb_ℤ (pos 0) accumulation
    then saturating_mul accumulation platform_fee_bps /ℤ pos 10_000
    else pos 0

-- A flow whose buffer does not cover the rest: all that is left is taken, and the stream ends.
abbrev pub terminate : Env → ContinuousFlow → (now : ℕ) → State → ℤ × ContinuousFlow × State
terminate env flow now s =
    let ended = record flow {
      accumulated_balance = pos 0;
      buffer_balance = pos 0;
      flow_rate_per_second = pos 0;
      status = depleted;
      last_flow_timestamp = now;
    } in
    (
      saturating_add flow.accumulated_balance flow.buffer_balance,
      ended,
      store_flow flow.stream_id ended (
          publish (buf_deplet flow.stream_id now flow.buffer_balance flow.provider)
            (fleet_apply_delta flow.provider (neg flow.flow_rate_per_second) s)),
    )

-- The end of an update: the timestamp, and the status by the balances that remain.
abbrev pub settle_status : ContinuousFlow → (now : ℕ) → State → ContinuousFlow × State
settle_status flow now s =
    let timed = record flow { last_flow_timestamp = now } in
    if eqb_ℤ flow.accumulated_balance (pos 0)
      && eqb_ℤ flow.buffer_balance (pos 0)
      && not (is_depleted flow.status)
    then (
      record timed { flow_rate_per_second = pos 0; status = depleted },
      fleet_apply_delta flow.provider (neg flow.flow_rate_per_second) s,
    )
    else if is_paused flow.status
        && (ltb_ℤ (pos 0) flow.accumulated_balance || ltb_ℤ (pos 0) flow.buffer_balance)
    then (record timed { status = active }, s)
    else (timed, s)

abbrev pub from_balance : ContinuousFlow → ℤ → ContinuousFlow
from_balance flow net = record flow {
  accumulated_balance = saturating_sub flow.accumulated_balance net;
}

-- The main balance goes to zero and the rest is taken from the buffer.
abbrev pub from_buffer : ContinuousFlow → ℤ → ContinuousFlow
from_buffer flow rest =
    let left = saturating_sub flow.buffer_balance rest in
    record flow {
      accumulated_balance = pos 0;
      buffer_balance = left;
      buffer_warning_sent = flow.buffer_warning_sent || leb_ℤ left buffer_warning_threshold;
    }

-- The warning is published once, when the buffer falls to the threshold.
abbrev pub warn : ContinuousFlow → ℤ → (now : ℕ) → State → State
warn flow left now s =
    if not flow.buffer_warning_sent && leb_ℤ left buffer_warning_threshold
    then publish (buf_warn flow.stream_id now left flow.provider) s
    else s

-- The charge of a net accumulation.
unfoldable pub charge :
    Env → ContinuousFlow → (net : ℤ) → (now : ℕ) → State → ℤ × ContinuousFlow × State
charge env flow net now s =
    let rest = saturating_sub net flow.accumulated_balance in
    let by_balance = settle_status (from_balance flow net) now s in
    let by_buffer =
      settle_status (from_buffer flow rest) now
        (warn flow (saturating_sub flow.buffer_balance rest) now s) in
    if leb_ℤ net flow.accumulated_balance
    then (net, by_balance.0, by_balance.1)
    else if ltb_ℤ flow.buffer_balance rest
    then terminate env flow now s
    else (saturating_add flow.accumulated_balance rest, by_buffer.0, by_buffer.1)

unfoldable pub update_continuous_flow :
    Env → ContinuousFlow → (now : ℕ) → State → ℤ × ContinuousFlow × State
unfolding fee_of charge
update_continuous_flow env flow now s =
    let (accumulation, s1) = calculate_with_temp_storage flow now s in
    let s2 = flush_temporary_storage env s1 in
    let fee_amount = fee_of accumulation (unwrap_or (pos 0) s2.platform_fee_bps) in
    let net_accumulation = saturating_sub accumulation fee_amount in
    let s3 =
      if ltb_ℤ (pos 0) fee_amount then store_fee_delta flow.stream_id fee_amount s2 else s2 in
    charge env flow net_accumulation now s3

-- `update_continuous_flow` as a step of a call.
abbrev pub updated : Env → ContinuousFlow → Action ContinuousFlow
updated env flow s =
    let (deduction, flow', s') = update_continuous_flow env flow env.now s in ok (flow', s')
