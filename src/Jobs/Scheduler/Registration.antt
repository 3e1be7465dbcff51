-- ===== src/Jobs/Scheduler/Registration.antt =====
-- What `register` makes of the schedule table.
use blitze_cdn_cp.Prelude.{
  ℕ, ◌+◌, String, List, [], ◌∷◌, ◌++◌, Memᴰ, Bool, true, false, ◌≡◌, refl, inl, inr, arith, eq_iff,
  Pairwise, Bool-cases, All, All-mono, All-both, Option-cases, string_eq, subst, sym, ◌∙◌,
  if◌then◌else◌,
}
use blitze_cdn_cp.Sql.{delete_where, first_where}
use blitze_cdn_cp.Sql.Laws.{
  mem_of_select_where, mem-select_where, mem-update_where, first_where-some,
}
use blitze_cdn_cp.Jobs.Schedule.{
  Schedule, Schedules, recadenced, named, upsert, upsert_found, contains, forget,
}
use blitze_cdn_cp.Jobs.Scheduler.{
  Readings, ScheduleSpec, first_schedule, register_all, register, spec_names,
}

-- Some row is under this name with the firings of `row`.
abbrev pub KeepsFirings : Schedule → Schedules → Type 0
KeepsFirings row rows =
    (r : Schedule) × Memᴰ r rows
    × (r.name ≡ row.name)
    × (r.next_run_at ≡ row.next_run_at)
    × (r.last_run_at ≡ row.last_run_at)

mem-append_left :
    {r : Schedule} (s : Schedule) (rows : Schedules) → Memᴰ r rows → Memᴰ r (rows ++ s ∷ [])
mem-append_left s [] m = elim m [ ]
mem-append_left s (x ∷ rows) (Memᴰ.head e) = Memᴰ.head e
mem-append_left s (x ∷ rows) (Memᴰ.tail m) = Memᴰ.tail (mem-append_left s rows m)

mem-append_last : {s : Schedule} (rows : Schedules) → Memᴰ s (rows ++ s ∷ [])
mem-append_last [] = Memᴰ.head refl
mem-append_last (x ∷ rows) = Memᴰ.tail (mem-append_last rows)

version_keeps :
    (s row : Schedule) (b : Bool)
    → let r = if b then recadenced s row else row in
      (r.name ≡ row.name) × (r.next_run_at ≡ row.next_run_at) × (r.last_run_at ≡ row.last_run_at)
unfolding recadenced
version_keeps s row true = (refl, refl, refl)
version_keeps s row false = (refl, refl, refl)

upsert-KeepsFirings :
    (s row : Schedule) (rows : Schedules) → Memᴰ row rows → KeepsFirings row (upsert s rows).1
unfolding upsert
upsert-KeepsFirings s row rows m = elim (Option-cases (first_where (named s.name) rows)) [
  | inl e ↦ rw (e, upsert_found) (row, mem-append_left s rows m, refl, refl, refl)
  | inr (x, e) ↦
      let (name, at, last) = version_keeps s row (named s.name row) in
      rw (e, upsert_found)
        (
          (if named s.name row then recadenced s row else row),
          mem-update_where (named s.name) (recadenced s) rows m,
          name,
          at,
          last,
        )
]

KeepsFirings-trans :
    (row : Schedule) (rows rows' : Schedules)
    → KeepsFirings row rows
    → ((r : Schedule) → Memᴰ r rows → KeepsFirings r rows')
    → KeepsFirings row rows'
KeepsFirings-trans row rows rows' (r, m, name, at, last) f =
    let (r', m', name', at', last') = f r m in (r', m', name' ∙ name, at' ∙ at, last' ∙ last)

register_all-KeepsFirings :
    (env : Readings) (i now : ℕ) (specs : List ScheduleSpec) (row : Schedule) (rows : Schedules)
    → Memᴰ row rows
    → KeepsFirings row (register_all env i now specs rows).1
unfolding register_all
register_all-KeepsFirings env i now [] row rows m = (row, m, refl, refl, refl)
register_all-KeepsFirings env i now (spec ∷ specs) row rows m =
    KeepsFirings-trans row (upsert (first_schedule env i now spec) rows).1 _
      (upsert-KeepsFirings (first_schedule env i now spec) row rows m)
      (λ r k. register_all-KeepsFirings env (i + 1) now specs r _ k)

-- A schedule is registered under the name of the contributed one, with its interval, jitter and lease.
abbrev pub IsScheduled : Schedules → ScheduleSpec → Type 0
IsScheduled rows spec =
    (r : Schedule) × Memᴰ r rows
    × (r.name ≡ spec.name)
    × (r.interval_seconds ≡ spec.interval_seconds)
    × (r.jitter_seconds ≡ spec.jitter_seconds)
    × (r.lease_seconds ≡ spec.lease_seconds)

-- No two contributed schedules have one name.
abbrev pub DistinctSpecs : List ScheduleSpec → Type 0
DistinctSpecs = Pairwise (λ a b. ¬ (a.name ≡ b.name))

name-named : (name : String) (x : Schedule) → named name x ≡ true → x.name ≡ name
unfolding named
name-named name x hit = (eq_iff x.name name).0 hit

upsert-IsScheduled :
    (env : Readings) (i now : ℕ) (spec : ScheduleSpec) (rows : Schedules)
    → IsScheduled (upsert (first_schedule env i now spec) rows).1 spec
unfolding upsert
upsert-IsScheduled env i now spec rows = elim (Option-cases (first_where (named spec.name) rows)) [
  | inl e ↦ rw (e, upsert_found) (s, mem-append_last rows, refl, refl, refl, refl)
  | inr (x, e) ↦
      let (m, hit) = first_where-some (named spec.name) rows e in
      rw (e, upsert_found)
        (
          recadenced s x,
          rw hit at (mem-update_where (named spec.name) (recadenced s) rows m),
          unfold recadenced in name-named spec.name x hit,
          unfold recadenced in refl,
          unfold recadenced in refl,
          unfold recadenced in refl,
        )
]
  where
    s : Schedule
    s = first_schedule env i now spec

-- The contribution of another name leaves a row as it is.
upsert-other :
    (s r : Schedule) (rows : Schedules)
    → ¬ (s.name ≡ r.name)
    → Memᴰ r rows
    → Memᴰ r (upsert s rows).1
unfolding upsert
upsert-other s r rows other m = elim (Option-cases (first_where (named s.name) rows)) [
  | inl e ↦ rw (e, upsert_found) (mem-append_left s rows m)
  | inr (x, e) ↦
      let miss : named s.name r ≡ false = unnamed in
      rw (e, upsert_found) (rw miss at (mem-update_where (named s.name) (recadenced s) rows m))
]
  where
    unnamed : named s.name r ≡ false
    unnamed = elim (Bool-cases (named s.name r)) [
      | inl hit ↦ absurd (other (sym (name-named s.name r hit)))
      | inr miss ↦ miss
    ]

register_all-others :
    (env : Readings) (i now : ℕ) (specs : List ScheduleSpec) (r : Schedule) (rows : Schedules)
    → All (λ spec. ¬ (r.name ≡ spec.name)) specs
    → Memᴰ r rows
    → Memᴰ r (register_all env i now specs rows).1
unfolding register_all
register_all-others env i now [] r rows others m = m
register_all-others env i now (spec ∷ specs) r rows others m =
    register_all-others env (i + 1) now specs r _ others.1
      (upsert-other (first_schedule env i now spec) r rows (λ e. others.0 (sym e)) m)

register_all-IsScheduled :
    (env : Readings) (i now : ℕ) (specs : List ScheduleSpec) (rows : Schedules)
    → DistinctSpecs specs
    → All (IsScheduled (register_all env i now specs rows).1) specs
unfolding register_all
register_all-IsScheduled env i now [] rows distinct = tt
register_all-IsScheduled env i now (spec ∷ specs) rows distinct =
    let rows' = (upsert (first_schedule env i now spec) rows).1 in
    let (r, m, e, interval, jitter, lease) = upsert-IsScheduled env i now spec rows in
    (
      (
        r,
        register_all-others env (i + 1) now specs r rows'
            (subst (λ n. All (λ other. ¬ (n ≡ other.name)) specs) (sym e) distinct.0) m,
        e,
        interval,
        jitter,
        lease,
      ),
      register_all-IsScheduled env (i + 1) now specs rows' distinct.1,
    )

contains-All :
    (specs : List ScheduleSpec) → All (λ spec. contains (spec_names specs) spec.name ≡ true) specs
unfolding contains
contains-All [] = tt
contains-All (spec ∷ specs) = (
  ground (arith, eq_iff spec.name spec.name),
  All-mono _ _ specs (λ s h. ground (arith, h)) (contains-All specs),
)

-- The table after a registration.
pub record Registers (specs : List ScheduleSpec) (rows rows' : Schedules) : Type 0 where
  pub only : (r : Schedule) → Memᴰ r rows' → contains (spec_names specs) r.name ≡ true
  pub each : All (IsScheduled rows') specs
  pub firings :
      (r : Schedule)
      → Memᴰ r rows
      → contains (spec_names specs) r.name ≡ true
      → KeepsFirings r rows'

module _ (names : List String) (rows : Schedules) where
  forget-mem :
      {r : Schedule} → Memᴰ r rows → contains names r.name ≡ true → Memᴰ r (forget names rows).1
  unfolding forget delete_where
  forget-mem m e = mem-select_where _ rows m (ground arith)

  forget-only : (r : Schedule) → Memᴰ r (forget names rows).1 → contains names r.name ≡ true
  unfolding forget delete_where
  forget-only r m = let (_, e) = mem_of_select_where _ rows m in ground arith

-- Where no two contributed schedules have one name, the table holds after a registration a schedule for
-- each contributed one, under its name and with its interval, jitter and lease, and none under any
-- other name; and one that was there under a contributed name keeps when it fires next and when it
-- last ran.
pub register-Registers :
    (env : Readings) (specs : List ScheduleSpec) (rows : Schedules)
    → DistinctSpecs specs
    → Registers specs rows (register env specs rows).1
unfolding register
register-Registers env specs rows distinct = record {
  only = forget-only (spec_names specs) after;
  each =
      All-mono (λ spec. IsScheduled after spec × (contains (spec_names specs) spec.name ≡ true)) _
        specs
        (λ spec h.
          let (r, m, e, interval, jitter, lease) = h.0 in
          (
            r,
            forget-mem (spec_names specs) after m
                (subst (λ n. contains (spec_names specs) n ≡ true) (sym e) h.1),
            e,
            interval,
            jitter,
            lease,
          ))
        (All-both _ _ specs (register_all-IsScheduled env 0 (env.clock 0) specs rows distinct)
          (contains-All specs));
  firings = λ r m known.
      let (r', m', e, at, last) = register_all-KeepsFirings env 0 (env.clock 0) specs r rows m in
      (
        r',
        forget-mem (spec_names specs) after m'
            (subst (λ n. contains (spec_names specs) n ≡ true) (sym e) known),
        e,
        at,
        last,
      );
}
  where
    after : Schedules
    after = (register_all env 0 (env.clock 0) specs rows).1
