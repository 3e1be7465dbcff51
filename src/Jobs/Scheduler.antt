-- ===== src/Jobs/Scheduler.antt =====
-- jobs/service/scheduling.py: registering recurring work, and turning what is due into jobs.
pub mod Ticks
pub mod Registration
use blitze_cdn_cp.Prelude.{
  ℕ, zero, suc, ◌+◌, String, List, [], ◌∷◌, ◌++◌, map, Bool, true, false, Option, none, some,
  if◌then◌else◌,
}
use blitze_cdn_cp.Jobs.Domain.{Job}
use blitze_cdn_cp.Jobs.Store.{Jobs}
use blitze_cdn_cp.Jobs.Queue.{enqueue_scheduled}
use blitze_cdn_cp.Jobs.Schedule.{Schedule, Schedules, next_due, upsert, forget, due, reschedule}

pub record ScheduleSpec : Type 0 where
  pub name : String
  pub interval_seconds : ℕ
  pub lease_seconds : ℕ
  pub jitter_seconds : ℕ

-- The two tables of this capability.
pub record Tables : Type 0 where
  pub jobs : Jobs
  pub schedules : Schedules

-- What the process reads from outside, by the number of the reading: drawn jitters, drawn
-- identifiers, the clock, and the database's clock.
pub record Readings : Type 0 where
  pub entropy : ℕ → ℕ
  pub uuid : ℕ → String
  pub clock : ℕ → ℕ
  pub db_clock : ℕ → ℕ

abbrev pub first_schedule : Readings → ℕ → ℕ → ScheduleSpec → Schedule
first_schedule env i now spec = record {
  name = spec.name;
  interval_seconds = spec.interval_seconds;
  jitter_seconds = spec.jitter_seconds;
  lease_seconds = spec.lease_seconds;
  next_run_at = next_due now spec.interval_seconds spec.jitter_seconds (env.entropy i);
  last_run_at = none;
}

-- The comprehension in `register`.
unfoldable pub register_all :
    Readings → ℕ → ℕ → List ScheduleSpec → Schedules → List Schedule × Schedules
register_all env i now [] rows = ([], rows)
register_all env i now (spec ∷ specs) rows =
    let (schedule, rows') = upsert (first_schedule env i now spec) rows in
    let (registered, rows'') = register_all env (i + 1) now specs rows' in
    (schedule ∷ registered, rows'')

abbrev pub spec_names : List ScheduleSpec → List String
spec_names = map (λ spec. spec.name)

unfoldable pub register : Readings → List ScheduleSpec → Schedules → List Schedule × Schedules
unfolding register_all
register env specs rows =
    let (registered, rows') = register_all env 0 (env.clock 0) specs rows in
    (registered, (forget (spec_names specs) rows').1)

-- The end of one round of `tick`, when the schedule was advanced.
fire : Readings → ℕ → Schedule → Schedules → Jobs → List String × Tables
fire env i schedule schedules jobs =
    let (queued, jobs') =
      enqueue_scheduled (env.uuid i) schedule.name none 1 (env.clock i) (env.db_clock i) jobs in
    let names : List String = elim queued [ none ↦ [] | some job ↦ schedule.name ∷ [] ] in
    (names, record { jobs = jobs'; schedules = schedules })

-- One round of `tick`: its transaction.
unfoldable pub tick_one : Readings → ℕ → ℕ → Schedule → Tables → List String × Tables
unfolding fire
tick_one env i moment schedule db =
    let (won, schedules') =
      reschedule schedule.name schedule.next_run_at
        (next_due moment schedule.interval_seconds schedule.jitter_seconds (env.entropy i)) moment
        db.schedules in
    if won
    then fire env i schedule schedules' db.jobs
    else ([], record db { schedules = schedules' })

-- The loop of `tick` over the schedules that it read as due.
unfoldable pub tick_from : Readings → ℕ → ℕ → List Schedule → Tables → List String × Tables
unfolding tick_one
tick_from env i moment [] db = ([], db)
tick_from env i moment (schedule ∷ rest) db =
    let (fired, db') = tick_one env i moment schedule db in
    let (later, db'') = tick_from env (i + 1) moment rest db' in (fired ++ later, db'')

unfoldable pub tick : Readings → ℕ → Tables → List String × Tables
unfolding tick_from
tick env moment db = tick_from env 0 moment (due moment db.schedules) db

-- leases: the lease that each schedule declares; of two of one name the later one counts.
unfoldable pub leases : Schedules → List (String × ℕ)
leases rows = map (λ row. (row.name, row.lease_seconds)) rows
