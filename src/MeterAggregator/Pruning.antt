-- ===== src/MeterAggregator/Pruning.antt =====
-- What a call of `prune` deletes, and what it leaves.
use mathlib.Core.Path.{subst}
use utility_contracts.Base.{
  sym, ℕ, zero, suc, ◌+◌, ◌-◌, ◌≤◌, ◌<◌, ◌≡◌, ◌≢◌, refl, ◌⊎◌, inl, inr, none, some, ok, arith, ltb,
  Option-cases, Bool-cases, ◌==◌, ◌∙◌,
}
use utility_contracts.MeterAggregator.Storage.{
  State, Env, RawReading, max_raw_retention_secs, prune_batch_size, get_next_seq, get_prune_cursor,
  remove_raw_reading, set_prune_cursor,
}
use utility_contracts.MeterAggregator.Contract.{prune, prune_loop, prune_stale_readings}

-- Between two cursors of one device every reading is gone, and those that were there were older than
-- the cutoff; every other reading, and everything else that is stored but the cursor, is as before.
pub record Pruned (cutoff device cursor cursor' : ℕ) (s s' : State) : Type 0 where
  pub gone : (j : ℕ) → cursor ≤ j → j < cursor' → s'.raw_reading device j ≡ none
  pub stale :
      (j : ℕ) (r : RawReading)
      → cursor ≤ j
      → j < cursor'
      → s.raw_reading device j ≡ some r
      → r.timestamp < cutoff
  pub kept :
      (d j : ℕ)
      → (d ≢ device) ⊎ (j < cursor) ⊎ (cursor' ≤ j)
      → s'.raw_reading d j ≡ s.raw_reading d j
  pub seq_same : s'.reading_seq ≡ s.reading_seq
  pub hourly_same : s'.hourly_bucket ≡ s.hourly_bucket
  pub daily_same : s'.daily_bucket ≡ s.daily_bucket
  pub admin_same : s'.admin ≡ s.admin

Pruned-none : (cutoff device cursor : ℕ) (s : State) → Pruned cutoff device cursor cursor s s
Pruned-none cutoff device cursor s = record {
  gone = λ j a b. absurd (omega arith);
  stale = λ j r a b h. absurd (omega arith);
  kept = λ d j h. refl;
  seq_same = refl;
  hourly_same = refl;
  daily_same = refl;
  admin_same = refl;
}

-- A sequence number without a reading is passed over.
Pruned-gap :
    (cutoff device cursor cursor' : ℕ) (s s' : State)
    → s.raw_reading device cursor ≡ none
    → cursor + 1 ≤ cursor'
    → Pruned cutoff device (cursor + 1) cursor' s s'
    → Pruned cutoff device cursor cursor' s s'
Pruned-gap cutoff device cursor cursor' s s' e le rest = record {
  gone = λ j a b. elim (Bool-cases (j == cursor)) [
    | inl same ↦ rest.kept device j (inr (inl (ground (arith, same)))) ∙ ground (arith, same, e)
    | inr other ↦ rest.gone j (ground (arith, other)) b
  ];
  stale = λ j r a b h. elim (Bool-cases (j == cursor)) [
    | inl same ↦ absurd (ground (arith, same, e, h))
    | inr other ↦ rest.stale j r (ground (arith, other)) b h
  ];
  kept = λ d j h. rest.kept d j (ground (arith, h));
  seq_same = rest.seq_same;
  hourly_same = rest.hourly_same;
  daily_same = rest.daily_same;
  admin_same = rest.admin_same;
}

-- A stale reading is deleted.
Pruned-one :
    (cutoff device cursor cursor' : ℕ) (s s' : State) (r : RawReading)
    → s.raw_reading device cursor ≡ some r
    → r.timestamp < cutoff
    → cursor + 1 ≤ cursor'
    → Pruned cutoff device (cursor + 1) cursor' (remove_raw_reading device cursor s) s'
    → Pruned cutoff device cursor cursor' s s'
Pruned-one cutoff device cursor cursor' s s' r e old le rest = record {
  gone = λ j a b. elim (Bool-cases (j == cursor)) [
    | inl same ↦ rest.kept device j (inr (inl (ground (arith, same)))) ∙ ground (arith, same)
    | inr other ↦ rest.gone j (ground (arith, other)) b
  ];
  stale = λ j r2 a b h. elim (Bool-cases (j == cursor)) [
    | inl same ↦ ground (arith, same, e, h)
    | inr other ↦ rest.stale j r2 (ground (arith, other)) b (ground (arith, other, h))
  ];
  kept = λ d j h. rest.kept d j (ground (arith, h)) ∙ ground (arith, h);
  seq_same = rest.seq_same;
  hourly_same = rest.hourly_same;
  daily_same = rest.daily_same;
  admin_same = rest.admin_same;
}

pub prune_loop-Pruned :
    (left cutoff device cursor pruned : ℕ) (s : State)
    → pruned ≤ prune_batch_size
    → let (ends, s') = prune_loop left cutoff device cursor pruned s in
      Pruned cutoff device cursor ends.0 s s'
      × (cursor ≤ ends.0)
      × (ends.0 ≤ cursor + left)
      × (ends.1 ≤ prune_batch_size)
      × (ends.1 + cursor ≤ pruned + ends.0)
unfolding prune_loop
prune_loop-Pruned zero cutoff device cursor pruned s few =
    (Pruned-none cutoff device cursor s, omega arith, omega arith, few, omega arith)
prune_loop-Pruned (suc left) cutoff device cursor pruned s few =
    elim (Bool-cases (ltb pruned prune_batch_size)) [
      | inr full ↦
          rw full (Pruned-none cutoff device cursor s, omega arith, omega arith, few, omega arith)
      | inl more ↦ rw more (elim (Option-cases (s.raw_reading device cursor)) [
        | inl e ↦
            let (p, a, b, c, d) = prune_loop-Pruned left cutoff device (cursor + 1) pruned s few in
            rw e (Pruned-gap _ _ _ _ s _ e a p, omega arith, omega arith, c, omega arith)
        | inr (r, e) ↦ rw e (elim (Bool-cases (ltb r.timestamp cutoff)) [
          | inr fresh ↦
              rw fresh
                (Pruned-none cutoff device cursor s, omega arith, omega arith, few, omega arith)
          | inl old ↦
              let (p, a, b, c, d) =
                prune_loop-Pruned left cutoff device (cursor + 1) (pruned + 1)
                  (remove_raw_reading device cursor s) (ground (arith, more)) in
              rw old (
                Pruned-one _ _ _ _ s _ r e (ground (arith, old)) a p,
                omega arith,
                omega arith,
                c,
                omega arith,
              )
        ])
      ])
    ]

moved_cursor :
    (cutoff device cursor cursor' stored : ℕ) (s s' : State)
    → Pruned cutoff device cursor cursor' s s'
    → Pruned cutoff device cursor cursor' s (set_prune_cursor device stored s')
moved_cursor cutoff device cursor cursor' stored s s' p = record {
  gone = p.gone;
  stale = p.stale;
  kept = p.kept;
  seq_same = p.seq_same;
  hourly_same = p.hourly_same;
  daily_same = p.daily_same;
  admin_same = p.admin_same;
}

-- Pruning touches no bucket.
pub prune_stale_readings_buckets :
    (env : Env) (device n : ℕ) (s s' : State)
    → prune_stale_readings env device s ≡ ok (n, s')
    → (s'.daily_bucket ≡ s.daily_bucket) × (s'.hourly_bucket ≡ s.hourly_bucket)
unfolding prune_stale_readings
prune_stale_readings_buckets env device n s s' h =
    let cutoff : ℕ = env.now - max_raw_retention_secs in
    let cursor : ℕ = get_prune_cursor device s in
    let left : ℕ = get_next_seq device s - cursor in
    let run = prune_loop left cutoff device cursor 0 s in
    let all = prune_loop-Pruned left cutoff device cursor 0 s (omega arith) in
    let p : Pruned cutoff device cursor run.0.0 s run.1 = all.0 in
    let ends : set_prune_cursor device run.0.0 run.1 ≡ s' = ground (arith, h) in
    (rw⁻¹ ends p.daily_same, rw⁻¹ ends p.hourly_same)

-- With the cursor not past the next sequence number, a call of `prune` succeeds, counts at most ten
-- deletions, and moves the cursor forward or not at all and never past the next sequence number;
-- the readings in between are gone and were older than the retention period; and every other
-- reading, every bucket, every sequence number and the admin are as before.
pub prune-Pruned :
    (env : Env) (device : ℕ) (s : State)
    → get_prune_cursor device s ≤ get_next_seq device s
    → (deleted : ℕ) × (s' : State) × (prune env device s ≡ ok (deleted, s'))
      × (deleted ≤ 10)
      × (get_prune_cursor device s ≤ get_prune_cursor device s')
      × (get_prune_cursor device s' ≤ get_next_seq device s)
      × Pruned
          (env.now - max_raw_retention_secs)
          device
          (get_prune_cursor device s)
          (get_prune_cursor device s')
          s
          s'
unfolding prune prune_stale_readings
prune-Pruned env device s ordered =
    let cutoff : ℕ = env.now - max_raw_retention_secs in
    let cursor : ℕ = get_prune_cursor device s in
    let run = prune_loop (get_next_seq device s - cursor) cutoff device cursor 0 s in
    let (p, a, b, c, d) =
      prune_loop-Pruned (get_next_seq device s - cursor) cutoff device cursor 0 s (omega arith) in
    let here : get_prune_cursor device (set_prune_cursor device run.0.0 run.1) ≡ run.0.0 =
      ground arith in
    (
      run.0.1,
      set_prune_cursor device run.0.0 run.1,
      refl,
      c,
      rw here a,
      rw here (omega arith),
      subst (λ c. Pruned cutoff device cursor c s (set_prune_cursor device run.0.0 run.1))
          (sym here) (moved_cursor cutoff device cursor run.0.0 run.0.0 s run.1 p),
    )
