-- ===== src/UtilityContracts/NonceSync/Replay.antt =====
-- No heartbeat is accepted twice unless a device's nonce is reset.
use utility_contracts.Base.{
  ℕ, ◌+◌, ◌%◌, ◌^◌, ◌≤◌, ◌<◌, ◌≡◌, ◌≢◌, refl, sym, ap, ◌∙◌, Bool, true, false, none, put, unwrap_or,
  ltb, ◌==◌, if◌then◌else◌, arith, ok, Bool-cases, Option-cases, inl, inr, ◌⊎◌,
}
use utility_contracts.UtilityContracts.NonceSync.Types.{
  NonceAlertType, DeviceNonceState, SignedHeartbeat, State, Env, old_nonce, future_nonce,
  out_of_order,
}
use utility_contracts.UtilityContracts.NonceSync.Manager.{
  verify_heartbeat_nonce, validate_nonce, valid, desync, get_device_nonce_state,
  initialize_device_nonce, update_desync_count, accepted, nonce_window_size, new_state,
}

abbrev pub expected : (device_mac : ℕ) → State → ℕ
expected device_mac s = (get_device_nonce_state device_mac s).current_nonce

update_desync_count_nonce :
    (now : ℕ) (st : DeviceNonceState)
    → (update_desync_count now st).current_nonce ≡ st.current_nonce
unfolding update_desync_count
update_desync_count_nonce now st = ground arith

expected-put :
    (k mac : ℕ) (st : DeviceNonceState) (s s' : State)
    → s'.device_nonce ≡ put k st s.device_nonce
    → expected mac s' ≡ (if k == mac then st.current_nonce else expected mac s)
unfolding get_device_nonce_state
expected-put k mac st s s' e =
    let at : s'.device_nonce mac ≡ put k st s.device_nonce mac = ap (λ f. f mac) e in
    ground (arith, at)

-- A write that keeps the device's expected nonce keeps every device's.
expected_kept :
    (k mac : ℕ) (st : DeviceNonceState) (s s' : State)
    → s'.device_nonce ≡ put k st s.device_nonce
    → st.current_nonce ≡ expected k s
    → expected mac s' ≡ expected mac s
expected_kept k mac st s s' e h = expected-put k mac st s s' e ∙ elim (Bool-cases (k == mac)) [
  | inl q ↦ rw q (h ∙ ap (λ m. expected m s) (ground (arith, q)))
  | inr q ↦ rw q refl
]

pub validate_cases :
    (received expected_nonce window : ℕ)
    → ((received == expected_nonce) ≡ true
        × (validate_nonce received expected_nonce window ≡ valid))
      ⊎ ((received == expected_nonce) ≡ false
          × ((a : NonceAlertType) × (validate_nonce received expected_nonce window ≡ desync a)))
unfolding validate_nonce
validate_cases received expected_nonce window = elim (Bool-cases (received == expected_nonce)) [
  | inl h ↦ inl (h, rw h refl)
  | inr h ↦ elim (Bool-cases (ltb received expected_nonce)) [
    | inl k ↦ inr (h, (old_nonce, rw (h, k) refl))
    | inr k ↦ elim (Bool-cases (ltb ((expected_nonce + window) % 2 ^ 64) received)) [
      | inl l ↦ inr (h, (future_nonce, rw (h, k, l) refl))
      | inr l ↦ inr (h, (out_of_order, rw (h, k, l) refl))
    ]
  ]
]

-- A heartbeat that is verified without an abort is accepted exactly if it carries the nonce that is
-- expected of its device. If it is accepted, the next one is expected of that device, modulo 2^64,
-- and the expected nonces of the other devices stay; if not, all stay.
pub verify_heartbeat_nonce_lem :
    (env : Env) (hb : SignedHeartbeat) (b : Bool) (s s' : State)
    → verify_heartbeat_nonce env hb s ≡ ok (b, s')
    → (b ≡ (hb.nonce == expected hb.device_mac s))
      × ((mac : ℕ)
          → expected mac s' ≡ (
              if b
              then (if hb.device_mac == mac then (hb.nonce + 1) % 2 ^ 64 else expected mac s)
              else expected mac s))
unfolding verify_heartbeat_nonce
verify_heartbeat_nonce_lem env hb b s s' h =
    let st = get_device_nonce_state hb.device_mac s in
    elim (validate_cases hb.nonce st.current_nonce nonce_window_size) [
      | inl (e, v) ↦
          let yes : b ≡ true = ground (arith, h, v) in
          let set : s'.device_nonce ≡ put hb.device_mac (accepted env hb st) s.device_nonce =
            ground (arith, h, v) in
          (
            yes ∙ sym e,
            λ mac. rw yes (expected-put hb.device_mac mac (accepted env hb st) s s' set),
          )
      | inr (e, (a, v)) ↦
          let no : b ≡ false = ground (arith, h, v) in
          let set : s'.device_nonce
              ≡ put hb.device_mac (update_desync_count env.now st) s.device_nonce =
            ground (arith, h, v) in
          (
            no ∙ sym e,
            λ mac.
                rw no (
                  expected_kept hb.device_mac mac _ s s' set
                    (update_desync_count_nonce env.now st)),
          )
    ]

-- What may happen between two heartbeats of a device, short of a reset: heartbeats, whose nonces are not the
-- last of a `u64`, and initializations.
pub data Quiet : State → State → Type 0 where
  none_yet : {s : State} → Quiet s s
  heartbeat :
      {s t s' : State} (env : Env) (hb : SignedHeartbeat) (b : Bool)
      → Quiet s t
      → hb.nonce + 1 < 2 ^ 64
      → verify_heartbeat_nonce env hb t ≡ ok (b, s')
      → Quiet s s'
  initialized :
      {s t : State} (mac initial : ℕ) → Quiet s t → Quiet s (initialize_device_nonce mac initial t)

grows :
    (env : Env) (hb : SignedHeartbeat) (b : Bool) (mac : ℕ) (s s' : State)
    → hb.nonce + 1 < 2 ^ 64
    → verify_heartbeat_nonce env hb s ≡ ok (b, s')
    → expected mac s ≤ expected mac s'
grows env hb b mac s s' fits h =
    let (e, f) = verify_heartbeat_nonce_lem env hb b s s' h in
    let moved = f mac in
    elim (Bool-cases b) [
      | inr rejected ↦ ground (arith, moved, rejected)
      | inl taken ↦ elim (Bool-cases (hb.device_mac == mac)) [
        | inr k ↦ ground (arith, moved, taken, k)
        | inl k ↦
            let same : hb.device_mac ≡ mac = ground (arith, k) in
            let carried : hb.nonce ≡ expected hb.device_mac s = ground (arith, taken, e) in
            let was : hb.nonce ≡ expected mac s = carried ∙ ap (λ m. expected m s) same in
            let next : expected mac s' ≡ (hb.nonce + 1) % 2 ^ 64 =
              ground (arith, moved, taken, k) in
            omega (arith, fits, was, next)
      ]
    ]

absent_expected : (mac : ℕ) (s : State) → s.device_nonce mac ≡ none → expected mac s ≡ 0
unfolding get_device_nonce_state
absent_expected mac s e = ap (λ o. (unwrap_or (new_state 0) o).current_nonce) e

initialize_grows :
    (mac other initial : ℕ) (s : State)
    → expected mac s ≤ expected mac (initialize_device_nonce other initial s)
unfolding initialize_device_nonce get_device_nonce_state
initialize_grows mac other initial s = elim (Option-cases (s.device_nonce other)) [
  | inr (st, e) ↦ rw (initialize_device_nonce, e) (omega arith)
  | inl e ↦ elim (Bool-cases (other == mac)) [
    | inr k ↦ ground (arith, e, k)
    | inl k ↦
        let same : other ≡ mac = ground (arith, k) in
        let absent : s.device_nonce mac ≡ none = ap s.device_nonce (sym same) ∙ e in
        rw (absent_expected mac s absent) (omega arith)
  ]
]

Quiet-grows : (mac : ℕ) (s s' : State) → Quiet s s' → expected mac s ≤ expected mac s'
Quiet-grows mac s _ none_yet = omega arith
Quiet-grows mac s s' (heartbeat {t} env hb b quiet fits h) =
    let before = Quiet-grows mac s t quiet in
    let step = grows env hb b mac t s' fits h in omega (arith, before, step)
Quiet-grows mac s _ (initialized {t} other initial quiet) =
    let before = Quiet-grows mac s t quiet in
    let step = initialize_grows mac other initial t in omega (arith, before, step)

-- After a heartbeat of a device is accepted whose nonce is not the last of a `u64`, and after any
-- heartbeats with such nonces and initializations, of any devices, but no reset: a heartbeat of
-- that device with the same or a smaller nonce is not accepted.
pub replay_rejected :
    (env later : Env) (hb again : SignedHeartbeat) (s t u u' : State)
    → hb.nonce + 1 < 2 ^ 64
    → verify_heartbeat_nonce env hb s ≡ ok (true, t)
    → Quiet t u
    → again.device_mac ≡ hb.device_mac
    → again.nonce ≤ hb.nonce
    → verify_heartbeat_nonce later again u ≢ ok (true, u')
replay_rejected env later hb again s t u u' fits h quiet same le k =
    let moved = (verify_heartbeat_nonce_lem env hb true s t h).1 hb.device_mac in
    let next : expected hb.device_mac t ≡ (hb.nonce + 1) % 2 ^ 64 = ground (arith, moved) in
    let grown = Quiet-grows hb.device_mac t u quiet in
    let asked = (verify_heartbeat_nonce_lem later again true u u' k).0 in
    let here : expected again.device_mac u ≡ expected hb.device_mac u =
      ap (λ m. expected m u) same in
    let past : again.nonce < expected again.device_mac u =
      omega (arith, here, grown, next, fits, le) in
    absurd (ground (arith, asked, past))
