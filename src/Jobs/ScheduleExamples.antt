-- ===== src/Jobs/ScheduleExamples.antt =====
-- The theorems on schedules, operations and turns at concrete tables.
use blitze_cdn_cp.Prelude.{◌<◌, String, List, [], ◌∷◌, Memᴰ, none, some, ◌≡◌, refl, arith, All}
use blitze_cdn_cp.Sql.{select_where, update_where, matches, order_by}
use blitze_cdn_cp.Jobs.Domain.{Job}
use blitze_cdn_cp.Jobs.Store
use blitze_cdn_cp.Jobs.Store.{Jobs, new_job}
use blitze_cdn_cp.Jobs.Store.Handing.{OnOffer}
use blitze_cdn_cp.Jobs.Queue
use blitze_cdn_cp.Jobs.Queue.{JobQueue, enqueue_scheduled}
use blitze_cdn_cp.Jobs.Schedule.{Schedule, due, reschedule, contains, next_due}
use blitze_cdn_cp.Jobs.Scheduler.{Readings, ScheduleSpec, Tables, tick, tick_from, register}
use blitze_cdn_cp.Jobs.Scheduler.Ticks.{tick_leaves_none_due, second_controller}
use blitze_cdn_cp.Jobs.Scheduler.Registration.{Registers, register-Registers}
use blitze_cdn_cp.Jobs.Operations.{conflict, job, submit, get}
use blitze_cdn_cp.Jobs.Operations.Conflicts.{submit_busy, get-submit}
use blitze_cdn_cp.Jobs.Runner.{TurnClock, turn}
use blitze_cdn_cp.Jobs.Runner.Turns.{turn_idle}

abbrev readings : Readings
readings = record { entropy = λ i. i; uuid = λ i. "x"; clock = λ i. 50; db_clock = λ i. 50 }

abbrev hourly : Schedule
hourly = record {
  name = "drift";
  interval_seconds = 3600;
  jitter_seconds = 0;
  lease_seconds = 900;
  next_run_at = 40;
  last_run_at = none;
}

abbrev tables : Tables
tables = record { jobs = []; schedules = hourly ∷ [] }

tick_leaves_none_due_example : All (λ r. 50 < r.next_run_at) (tick readings 50 tables).1.schedules
tick_leaves_none_due_example = tick_leaves_none_due readings 50 tables (omega arith, tt)

second_controller_example :
    tick_from readings 0 60 (due 50 tables.schedules) (tick readings 50 tables).1
    ≡ ([], (tick readings 50 tables).1)
second_controller_example = second_controller readings readings 50 60 tables (omega arith, tt)

-- The first of them fires the schedule, and queues its job.
tick_fires : tick readings 50 tables ≡ (
  "drift" ∷ [],
  record {
    jobs = new_job "x" "scheduled" (("job", "drift") ∷ []) 50 (some "scheduled:drift") 1 50 ∷ [];
    schedules = record hourly { next_run_at = 3600000050; last_run_at = some 50 } ∷ [];
  },
)
unfolding tick due order_by select_where reschedule update_where matches enqueue_scheduled
    Store.enqueue next_due
tick_fires = refl

abbrev cleanup : ScheduleSpec
cleanup = record { name = "cleanup"; interval_seconds = 60; lease_seconds = 30; jitter_seconds = 5 }

register-Registers_example :
    Registers (cleanup ∷ []) (hourly ∷ []) (register readings (cleanup ∷ []) (hourly ∷ [])).1
register-Registers_example = register-Registers readings (cleanup ∷ []) (hourly ∷ []) (tt, tt)

abbrev kinds : List String
kinds = "probe" ∷ []

abbrev probing : Job
probing = new_job "p" "probe" [] 0 (some "probe:edge") 1 0

submit_busy_example :
    submit kinds "q" "probe" [] (some "probe:edge") 9 9 (probing ∷ [])
    ≡ (conflict "probe", probing ∷ [])
unfolding contains Store.enqueue
submit_busy_example =
    submit_busy kinds "q" "probe" [] "probe:edge" 9 9 (probing ∷ []) probing refl (Memᴰ.head refl)
      refl refl

get-submit_example :
    get kinds "p" (submit kinds "p" "probe" [] (some "probe:edge") 0 0 []).1 ≡ job probing
unfolding submit Store.enqueue matches
get-submit_example = get-submit kinds "p" "probe" [] (some "probe:edge") 0 0 [] probing refl

abbrev queue : JobQueue
queue = record { handlers = []; worker_id = "w"; lease_seconds = 900; retention = 10 }

abbrev at_ten : TurnClock
at_ten = record { ticked = 10; claimed = 10; held = 10; reported = 11 }

turn_idle_example :
    ((tick readings 10 tables).0 ≡ [])
    × ((r : Job) → Memᴰ r (turn queue readings at_ten tables).1.jobs → ¬ OnOffer 10 r)
unfolding tick due order_by select_where Queue.claim Store.claim turn
turn_idle_example = turn_idle queue readings at_ten tables tt refl
