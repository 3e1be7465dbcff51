-- ===== src/Jobs/Schedule.antt =====
-- jobs/domain/schedule.py and ScheduleStore of jobs/adapters/persistence.py: when recurring work is
-- next due, and the table that remembers it.
use blitze_cdn_cp.Prelude.{
  ℕ, ◌+◌, String, List, [], ◌∷◌, ◌++◌, Bool, false, not, ◌&&◌, ◌||◌, Option, none, some, leb, ◌==◌,
  nat_eq, string_eq, if◌then◌else◌,
}
use blitze_cdn_cp.Sql.{
  select_where, update_where, delete_where, rows_affected, matches, first_where, order_by,
}
use blitze_cdn_cp.Jobs.Domain.{seconds}

-- `Schedule`, and `ScheduleRow` with the same fields.
pub record Schedule : Type 0 where
  pub name : String
  pub interval_seconds : ℕ
  pub jitter_seconds : ℕ
  pub lease_seconds : ℕ
  pub next_run_at : ℕ
  pub last_run_at : Option ℕ

abbrev pub Schedules : Type 0
Schedules = List Schedule

-- `drawn` is what `uniform(0, jitter_seconds)` answers, in microseconds.
unfoldable pub next_due : ℕ → ℕ → ℕ → ℕ → ℕ
unfolding seconds
next_due now interval_seconds jitter_seconds drawn =
    now + (seconds interval_seconds + (if jitter_seconds == 0 then 0 else drawn))

unfoldable pub recadenced : Schedule → Schedule → Schedule
recadenced schedule row = record row {
  interval_seconds = schedule.interval_seconds;
  jitter_seconds = schedule.jitter_seconds;
  lease_seconds = schedule.lease_seconds;
}

unfoldable pub named : String → Schedule → Bool
named name row = row.name == name

unfoldable pub upsert_found : Schedule → Option Schedule → Schedules → Schedule × Schedules
unfolding recadenced named
upsert_found schedule none rows = (schedule, rows ++ schedule ∷ [])
upsert_found schedule (some row) rows =
    (recadenced schedule row, update_where (named schedule.name) (recadenced schedule) rows)

unfoldable pub upsert : Schedule → Schedules → Schedule × Schedules
unfolding upsert_found
upsert schedule rows = upsert_found schedule (first_where (named schedule.name) rows) rows

unfoldable pub contains : List String → String → Bool
contains [] name = false
contains (n ∷ names) name = n == name || contains names name

unfoldable pub forgotten : List String → Schedule → Bool
unfolding contains
forgotten names row = not (contains names row.name)

unfoldable pub forget : List String → Schedules → ℕ × Schedules
unfolding forgotten
forget names rows = (rows_affected (forgotten names) rows, delete_where (forgotten names) rows)

unfoldable pub soonest : Schedule → Schedule → Bool
soonest a b = leb a.next_run_at b.next_run_at

unfoldable pub is_due : ℕ → Schedule → Bool
is_due now row = leb row.next_run_at now

unfoldable pub due : ℕ → Schedules → Schedules
unfolding soonest is_due
due now rows = order_by soonest (select_where (is_due now) rows)

-- WHERE name = :name AND next_run_at = :expected
unfoldable pub expecting : String → ℕ → Schedule → Bool
expecting name expected row = row.name == name && row.next_run_at == expected

unfoldable pub advanced : ℕ → ℕ → Schedule → Schedule
advanced next_run_at ran_at row = record row {
  next_run_at = next_run_at;
  last_run_at = some ran_at;
}

unfoldable pub reschedule : String → ℕ → ℕ → ℕ → Schedules → Bool × Schedules
unfolding expecting advanced
reschedule name expected next_run_at ran_at rows = (
  matches (expecting name expected) rows,
  update_where (expecting name expected) (advanced next_run_at ran_at) rows,
)
