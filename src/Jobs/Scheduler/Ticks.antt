-- ===== src/Jobs/Scheduler/Ticks.antt =====
-- A schedule that is due fires once, however many controllers saw it due.
use blitze_cdn_cp.Prelude.{
  ℕ, ◌+◌, ◌≤◌, ◌<◌, List, [], ◌∷◌, Memᴰ, true, false, ◌≡◌, refl, ◌⊎◌, inl, inr, arith, eq_iff, All,
  All-at, All-of, All-mono, Bool-cases, leb→le, ap,
}
use blitze_cdn_cp.Sql.Laws.{
  All-update_where, mem_of_select_where, mem-select_where, matches_unmatched,
  update_where_unmatched,
}
use blitze_cdn_cp.Sql.Order.{mem_of_order_by, mem-order_by}
use blitze_cdn_cp.Jobs.Schedule.{
  Schedule, Schedules, next_due, due, is_due, soonest, expecting, reschedule,
}
use blitze_cdn_cp.Jobs.Scheduler.{Readings, Tables, tick, tick_from, tick_one}

-- `job_schedules_interval_check`
abbrev pub HasInterval : Schedule → Type 0
HasInterval s = 1 ≤ s.interval_seconds

next_due-later :
    (now interval jitter drawn : ℕ) → 1 ≤ interval → now < next_due now interval jitter drawn
unfolding next_due
next_due-later now interval jitter drawn h = ground arith

-- Behind the moment, or among the schedules that are still to be fired.
abbrev IsHandled : ℕ → List Schedule → Schedule → Type 0
IsHandled moment rest r = (moment < r.next_run_at) ⊎ Memᴰ r rest

expecting_self : (s : Schedule) → expecting s.name s.next_run_at s ≡ true
unfolding expecting
expecting_self s = ground (arith, eq_iff s.name s.name)

reschedule-IsHandled :
    (moment next : ℕ) (s : Schedule) (rest rows : Schedules)
    → moment < next
    → All (IsHandled moment (s ∷ rest)) rows
    → All (IsHandled moment rest) (reschedule s.name s.next_run_at next moment rows).1
unfolding reschedule
reschedule-IsHandled moment next s rest rows later =
    All-update_where (IsHandled moment (s ∷ rest)) (IsHandled moment rest) _ _ rows
      (λ r _ _. inl later) missed
  where
    self : (r : Schedule) → r ≡ s → expecting s.name s.next_run_at r ≡ false → ⊥
    self r e miss = absurd (cc (ap (expecting s.name s.next_run_at) e, expecting_self s, miss))

    missed :
        (r : Schedule)
        → IsHandled moment (s ∷ rest) r
        → expecting s.name s.next_run_at r ≡ false
        → IsHandled moment rest r
    missed r (inl ahead) miss = inl ahead
    missed r (inr (Memᴰ.head e)) miss = absurd (self r e miss)
    missed r (inr (Memᴰ.tail m)) miss = inr m

tick_one_schedules :
    (env : Readings) (i moment : ℕ) (s : Schedule) (db : Tables)
    → (tick_one env i moment s db).1.schedules
      ≡ (reschedule s.name s.next_run_at
          (next_due moment s.interval_seconds s.jitter_seconds (env.entropy i))
          moment
          db.schedules).1
unfolding tick_one
tick_one_schedules env i moment s db = ground arith

tick_from-IsHandled :
    (env : Readings) (i moment : ℕ) (rest : List Schedule) (db : Tables)
    → All HasInterval rest
    → All (IsHandled moment rest) db.schedules
    → All (IsHandled moment []) (tick_from env i moment rest db).1.schedules
unfolding tick_from
tick_from-IsHandled env i moment [] db h k = k
tick_from-IsHandled env i moment (s ∷ rest) db h k =
    tick_from-IsHandled env (i + 1) moment rest (tick_one env i moment s db).1 h.1 (
      rw tick_one_schedules
        (reschedule-IsHandled moment _ s rest db.schedules (next_due-later moment _ _ _ h.0) k))

due-IsHandled : (moment : ℕ) (rows : Schedules) → All (IsHandled moment (due moment rows)) rows
unfolding due
due-IsHandled moment rows = All-of _ rows (λ r m. elim (Bool-cases (is_due moment r)) [
  | inl e ↦ inr (mem-order_by soonest _ (mem-select_where (is_due moment) rows m e))
  | inr e ↦ inl (ground arith)
])

due-mem :
    (moment : ℕ) (rows : Schedules) {s : Schedule}
    → Memᴰ s (due moment rows)
    → Memᴰ s rows × (s.next_run_at ≤ moment)
unfolding due is_due
due-mem moment rows {s} m =
    let (k, e) = mem_of_select_where (is_due moment) rows (mem_of_order_by soonest _ m) in
    (k, leb→le s.next_run_at moment e)

-- After a tick at a moment no schedule is due at that moment: each one that was due has been
-- advanced past it, whether or not its job could be queued.
pub tick_leaves_none_due :
    (env : Readings) (moment : ℕ) (db : Tables)
    → All HasInterval db.schedules
    → All (λ r. moment < r.next_run_at) (tick env moment db).1.schedules
unfolding tick
tick_leaves_none_due env moment db h =
    All-mono (IsHandled moment []) (λ r. moment < r.next_run_at) _ (λ r k. ahead r k)
      (tick_from-IsHandled env 0 moment (due moment db.schedules) db
        (All-of HasInterval _ (λ s m. All-at HasInterval _ h (due-mem moment db.schedules m).0))
        (due-IsHandled moment db.schedules))
  where
    ahead : (r : Schedule) → IsHandled moment [] r → moment < r.next_run_at
    ahead r (inl k) = k
    ahead r (inr m) = elim m [ ]

-- A round on a schedule that was advanced since it was read.
tick_one_lost :
    (env : Readings) (i moment seen_at : ℕ) (s : Schedule) (db : Tables)
    → s.next_run_at ≤ seen_at
    → All (λ r. seen_at < r.next_run_at) db.schedules
    → tick_one env i moment s db ≡ ([], db)
unfolding tick_one reschedule
tick_one_lost env i moment seen_at s db h k =
    rw (matches_unmatched _ db.schedules missed, update_where_unmatched _ _ db.schedules missed)
      refl
  where
    missed : All (λ r. expecting s.name s.next_run_at r ≡ false) db.schedules
    missed = All-mono _ _ db.schedules (λ r ahead. ground arith) k

lost_rounds :
    (env : Readings) (i moment seen_at : ℕ) (seen : List Schedule) (db : Tables)
    → All (λ s. s.next_run_at ≤ seen_at) seen
    → All (λ r. seen_at < r.next_run_at) db.schedules
    → tick_from env i moment seen db ≡ ([], db)
unfolding tick_from
lost_rounds env i moment seen_at [] db h k = refl
lost_rounds env i moment seen_at (s ∷ seen) db h k =
    rw
      (
        tick_one_lost env i moment seen_at s db h.0 k,
        lost_rounds env (i + 1) moment seen_at seen db h.1 k,
      )
      refl

-- Of two controllers that read the same schedules as due, the one whose rounds come after the
-- other's tick fires nothing and changes neither table, whenever it does so.
pub second_controller :
    (env env' : Readings) (moment moment' : ℕ) (db : Tables)
    → All HasInterval db.schedules
    → tick_from env' 0 moment' (due moment db.schedules) (tick env moment db).1
      ≡ ([], (tick env moment db).1)
second_controller env env' moment moment' db h =
    lost_rounds env' 0 moment' moment (due moment db.schedules) (tick env moment db).1
      (All-of _ _ (λ s m. (due-mem moment db.schedules m).1)) (tick_leaves_none_due env moment db h)
