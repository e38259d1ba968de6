-- ===== src/UtilityContracts/Stream/Temporary.antt =====
-- temporary_storage.rs, as far as streams use it: the cache of an accumulation, and the fee that is set
-- aside. An entry may expire between calls.
use utility_contracts.Base.{
  ℕ, ◌-◌, ℤ, pos, Option, none, some, put, remove, ltb, leb, ◌==◌, ◌%◌, if◌then◌else◌,
  saturating_mul,
}
use utility_contracts.UtilityContracts.Stream.Types.{
  ContinuousFlow, State, Env, is_active, publish, fee_flush, dust_flush, win_flush, temp_flush,
}

abbrev pub store_flow_accumulation : (stream_id : ℕ) → ℤ → (timestamp : ℕ) → State → State
store_flow_accumulation stream_id accumulation timestamp s = record s {
  flow_accumulation = put stream_id (accumulation, timestamp) s.flow_accumulation;
}

abbrev pub get_flow_accumulation : (stream_id : ℕ) → State → Option (ℤ × ℕ)
get_flow_accumulation stream_id s = s.flow_accumulation stream_id

abbrev pub store_fee_delta : (stream_id : ℕ) → ℤ → State → State
store_fee_delta stream_id fee_delta s = record s { fee_delta = put stream_id fee_delta s.fee_delta }

-- What was set aside, and the state without it.
pub get_and_clear_fee_delta : (stream_id : ℕ) → State → Option ℤ × State
get_and_clear_fee_delta stream_id s = elim (s.fee_delta stream_id) [
  | none ↦ (none, s)
  | some delta ↦ (some delta, record s { fee_delta = remove stream_id s.fee_delta })
]

unfoldable pub calculate_fresh_accumulation : ContinuousFlow → (current_timestamp : ℕ) → ℤ
calculate_fresh_accumulation flow current_timestamp =
    if is_active flow.status
    then if ltb current_timestamp flow.last_flow_timestamp
      then pos 0
      else saturating_mul flow.flow_rate_per_second
          (pos (current_timestamp - flow.last_flow_timestamp))
    else pos 0

-- The cached value, where it is not older than the flow's own timestamp.
abbrev pub cached : (last_flow_timestamp : ℕ) → Option (ℤ × ℕ) → Option ℤ
cached last_flow_timestamp none = none
cached last_flow_timestamp (some (accumulation, timestamp)) =
    if leb last_flow_timestamp timestamp then some accumulation else none

unfoldable pub calculate_with_temp_storage :
    ContinuousFlow → (current_timestamp : ℕ) → State → ℤ × State
calculate_with_temp_storage flow current_timestamp s =
    let fresh = calculate_fresh_accumulation flow current_timestamp in
    elim (cached flow.last_flow_timestamp (get_flow_accumulation flow.stream_id s)) [
      | some accumulation ↦ (accumulation, s)
      | none ↦ (fresh, store_flow_accumulation flow.stream_id fresh current_timestamp s)
    ]

-- `flush_temporary_storage` of lib.rs, whose three parts only publish.
unfoldable pub flush_temporary_storage : Env → State → State
flush_temporary_storage env s =
    let n = env.sequence in
    if n % 5 == 0
    then publish (temp_flush n)
        (publish (win_flush n) (publish (dust_flush n) (publish (fee_flush n) s)))
    else s

-- `TempStorageManager::flush_to_persistent`.
pub flush_to_persistent : Env → State → State
flush_to_persistent env s = if env.sequence % 5 == 0 then publish (temp_flush env.sequence) s else s
