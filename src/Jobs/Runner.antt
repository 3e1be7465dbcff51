-- ===== src/Jobs/Runner.antt =====
-- jobs/service/runner.py: one turn of the worker's loop. Progress reports, signals and the waiting
-- between turns are left out.
pub mod Turns
use blitze_cdn_cp.Prelude.{
  ℕ, zero, suc, String, List, [], ◌∷◌, Bool, true, false, not, Option, none, some, ◌==◌, string_eq,
  if◌then◌else◌,
}
use blitze_cdn_cp.Jobs.Domain.{JobClaim}
use blitze_cdn_cp.Jobs.Store.{Jobs}
use blitze_cdn_cp.Jobs.Queue
use blitze_cdn_cp.Jobs.Queue.{JobQueue, scheduled_job}
use blitze_cdn_cp.Jobs.Scheduler.{Readings, Tables, tick, leases}

-- `dict.get`, of a dict built from a list: the last entry of a key counts.
last_entry {ℓ} : {V : Type ℓ} → String → Option V → List (String × V) → Option V
last_entry key found [] = found
last_entry key found ((k, v) ∷ rest) = last_entry key (if k == key then some v else found) rest

text_or : String → Option String → String
text_or d none = d
text_or d (some t) = t

hold : JobQueue → JobClaim → ℕ → Option ℕ → Jobs → Jobs
hold queue c now none jobs = jobs
hold queue c now (some zero) jobs = jobs
hold queue c now (some (suc declared)) jobs = (Queue.renew queue c (some (suc declared)) now jobs).1

-- _hold_for_declared_lease
pub hold_for_declared_lease : JobQueue → JobClaim → ℕ → Tables → Jobs
unfolding last_entry text_or hold leases
hold_for_declared_lease queue c now db =
    if not (c.job.kind == scheduled_job)
    then db.jobs
    else hold queue c now
        (last_entry (text_or "" (last_entry "job" none c.job.payload)) none (leases db.schedules))
        db.jobs

is_empty : List String → Bool
is_empty [] = true
is_empty (x ∷ xs) = false

-- The clock's readings in one turn: of the tick, the claim, the lease and the report.
pub record TurnClock : Type 0 where
  pub ticked : ℕ
  pub claimed : ℕ
  pub held : ℕ
  pub reported : ℕ

after_claim : JobQueue → TurnClock → List String → Option JobClaim → Tables → Bool × Tables
unfolding hold_for_declared_lease is_empty
after_claim queue clock fired none db = (not (is_empty fired), db)
after_claim queue clock fired (some c) db =
    let jobs = Queue.run queue c clock.reported (hold_for_declared_lease queue c clock.held db) in
    (true, record db { jobs = (Queue.prune queue jobs).1 })

-- `tick` of the runner.
unfoldable pub turn : JobQueue → Readings → TurnClock → Tables → Bool × Tables
unfolding after_claim
turn queue env clock db =
    let (fired, db') = tick env clock.ticked db in
    let (found, jobs) = Queue.claim queue none clock.claimed db'.jobs in
    after_claim queue clock fired found (record db' { jobs = jobs })
