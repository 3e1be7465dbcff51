-- ===== src/Jobs/Store.antt =====
-- jobs/adapters/persistence.py, JobStore: every write is a compare-and-swap on the job table.
-- A claim runs in one immediate transaction, so no other statement comes between its own. The
-- identifier that `uuid4` draws and the database's clock are arguments.
pub mod Ops
pub mod ClaimLoop
pub mod Keys
pub mod Claiming
pub mod Handing
pub mod Valid
pub mod Pruning
pub mod SingleFlight
pub mod Fence
use blitze_cdn_cp.Prelude.{
  ℕ, zero, suc, ◌+◌, ◌-◌, String, List, [], ◌∷◌, ◌++◌, take, length, Bool, true, false, not, ◌&&◌,
  ◌||◌, Option, none, some, ltb, leb, ◌==◌, string_eq, nat_eq, if◌then◌else◌,
}
use blitze_cdn_cp.Sql.{
  select_where, update_where, delete_where, rows_affected, matches, first_where, order_by,
}
use blitze_cdn_cp.Jobs.Domain.{
  Job, JobStatus, JobClaim, Payload, Message, is_pending, is_running, is_terminal, is_truthy,
  lapsed, seconds,
}

abbrev pub Jobs : Type 0
Jobs = List Job

-- Two values under a unique index: NULL clashes with nothing.
unfoldable pub same_key : Option String → Option String → Bool
same_key none _ = false
same_key (some k) none = false
same_key (some k) (some j) = k == j

-- The partial unique index `ix_jobs_dedupe_key_unfinished`.
unfoldable pub in_flight : Option String → Job → Bool
unfolding is_terminal
in_flight key r = not (is_terminal r.status) && same_key key r.dedupe_key

-- The constraints of the table that an insert can break: the primary key, the partial unique
-- index and the check on `max_attempts`.
unfoldable pub violates : Job → Jobs → Bool
unfolding in_flight
violates row rows =
    matches (λ r. r.id == row.id) rows
    || matches (in_flight row.dedupe_key) rows
    || ltb row.max_attempts 1

abbrev pub new_job : String → String → Payload → ℕ → Option String → ℕ → ℕ → Job
new_job id kind payload available_at dedupe_key max_attempts created_at = record {
  id = id;
  kind = kind;
  payload = payload;
  status = JobStatus.pending;
  dedupe_key = dedupe_key;
  attempts = 0;
  max_attempts = max_attempts;
  available_at = available_at;
  leased_until = none;
  leased_by = none;
  fence = 0;
  created_at = created_at;
  finished_at = none;
  last_error = none;
  result = none;
}

-- `none` is the refused insert. `row` is the one that `new_job` builds from the arguments.
unfoldable pub enqueue : Job → Jobs → Option Job × Jobs
unfolding violates
enqueue row rows = if violates row rows then (none, rows) else (some row, rows ++ row ∷ [])

unfoldable pub runnable : ℕ → Job → Bool
unfolding is_pending is_running lapsed
runnable now r =
    (is_pending r.status && leb r.available_at now)
    || (is_running r.status && lapsed r.leased_until now)

-- ORDER BY available_at, created_at
unfoldable pub due_before : Job → Job → Bool
due_before a b =
    ltb a.available_at b.available_at
    || (a.available_at == b.available_at && leb a.created_at b.created_at)

head? : Jobs → Option Job
head? [] = none
head? (r ∷ rs) = some r

unfoldable pub next_runnable : ℕ → Jobs → Option Job
unfolding head?
next_runnable now rows = head? (order_by due_before (select_where (runnable now) rows))

-- WHERE id = :id AND fence = :fence
unfoldable pub fenced : String → ℕ → Job → Bool
fenced id fence r = r.id == id && r.fence == fence

earlier_error : ℕ → Option Message → Message
unfolding is_truthy
earlier_error attempts none = Message.abandoned attempts
earlier_error attempts (some m) =
    if is_truthy m then Message.abandoned_after attempts m else Message.abandoned attempts

unfoldable pub retired : Job → ℕ → Job → Job
unfolding earlier_error
retired row now r = record r {
  status = JobStatus.failed;
  fence = row.fence + 1;
  finished_at = some now;
  leased_until = none;
  leased_by = none;
  dedupe_key = none;
  last_error = some (earlier_error row.attempts row.last_error);
}

-- _abandon
unfoldable pub abandon : Job → ℕ → Jobs → Jobs
unfolding fenced retired
abandon row now = update_where (fenced row.id row.fence) (retired row now)

unfoldable pub leased : String → ℕ → ℕ → Job → Job → Job
unfolding seconds
leased worker now lease_seconds row r = record r {
  status = JobStatus.running;
  fence = row.fence + 1;
  attempts = row.attempts + 1;
  leased_by = some worker;
  leased_until = some (now + seconds lease_seconds);
}

claimed : ℕ → Option Job → Option JobClaim
claimed fence none = none
claimed fence (some job) = some (record { job = job; fence = fence })

-- The end of `claim`, behind its loop.
unfoldable pub take_row : String → ℕ → ℕ → Job → Jobs → Option JobClaim × Jobs
unfolding fenced leased claimed
take_row worker now lease_seconds row rows =
    let rows' = update_where (fenced row.id row.fence) (leased worker now lease_seconds row) rows in
    if matches (fenced row.id row.fence) rows
    then (claimed (row.fence + 1) (first_where (λ r. r.id == row.id) rows'), rows')
    else (none, rows)

-- A running job, its lease lapsed, that has no attempt left.
unfoldable pub spent : Job → Bool
unfolding is_running
spent row = is_running row.status && leb row.max_attempts row.attempts

-- The loop of `claim`, on fuel; `none` is the end of the fuel.
unfoldable pub claim_loop : ℕ → String → ℕ → ℕ → Jobs → Option (Option JobClaim × Jobs)
unfolding next_runnable take_row abandon spent
claim_loop zero worker now lease_seconds rows = none
claim_loop (suc fuel) worker now lease_seconds rows = elim (next_runnable now rows) [
  | none ↦ some (none, rows)
  | some row ↦ elim (spent row) [
    | true ↦ claim_loop fuel worker now lease_seconds (abandon row now rows)
    | false ↦ some (take_row worker now lease_seconds row rows)
  ]
]

or_unchanged : Jobs → Option (Option JobClaim × Jobs) → Option JobClaim × Jobs
or_unchanged rows none = (none, rows)
or_unchanged rows (some answer) = answer

-- One round for each row, and one more, is enough fuel.
unfoldable pub claim : String → ℕ → ℕ → Jobs → Option JobClaim × Jobs
unfolding or_unchanged claim_loop
claim worker now lease_seconds rows =
    or_unchanged rows (claim_loop (suc (length rows)) worker now lease_seconds rows)

-- WHERE id = :id AND fence = :fence AND status = 'running'
unfoldable pub held : String → ℕ → Job → Bool
unfolding fenced is_running
held id fence r = fenced id fence r && is_running r.status

unfoldable pub completed : ℕ → Option Payload → Job → Job
completed now result r = record r {
  status = JobStatus.succeeded;
  finished_at = some now;
  result = result;
  leased_until = none;
  leased_by = none;
  dedupe_key = none;
}

unfoldable pub complete : String → ℕ → ℕ → Option Payload → Jobs → Bool × Jobs
unfolding held completed
complete id fence now result rows =
    (matches (held id fence) rows, update_where (held id fence) (completed now result) rows)

unfoldable pub failing : ℕ → Message → Option ℕ → Job → Job
failing now error none r = record r {
  status = JobStatus.failed;
  last_error = some error;
  leased_until = none;
  leased_by = none;
  finished_at = some now;
  dedupe_key = none;
}
failing now error (some retry_at) r = record r {
  status = JobStatus.pending;
  last_error = some error;
  leased_until = none;
  leased_by = none;
  available_at = retry_at;
}

unfoldable pub fail : String → ℕ → ℕ → Message → Option ℕ → Jobs → Bool × Jobs
unfolding held failing
fail id fence now error retry_at rows =
    (matches (held id fence) rows, update_where (held id fence) (failing now error retry_at) rows)

unfoldable pub deferrable : String → ℕ → Job → Bool
unfolding held
deferrable id fence r = held id fence r && ltb 0 r.attempts

unfoldable pub deferred : ℕ → ℕ → Message → Job → Job
deferred fence retry_at reason r = record r {
  status = JobStatus.pending;
  attempts = r.attempts - 1;
  fence = fence + 1;
  available_at = retry_at;
  leased_until = none;
  leased_by = none;
  finished_at = none;
  last_error = some reason;
}

unfoldable pub defer : String → ℕ → ℕ → Message → Jobs → Bool × Jobs
unfolding deferrable deferred
defer id fence retry_at reason rows = (
  matches (deferrable id fence) rows,
  update_where (deferrable id fence) (deferred fence retry_at reason) rows,
)

unfoldable pub renewed : ℕ → Job → Job
renewed until r = record r { leased_until = some until }

unfoldable pub renew : String → ℕ → ℕ → Jobs → Bool × Jobs
unfolding held renewed
renew id fence until rows =
    (matches (held id fence) rows, update_where (held id fence) (renewed until) rows)

-- ORDER BY created_at DESC
unfoldable pub newest_first : Job → Job → Bool
newest_first a b = leb b.created_at a.created_at

unfoldable pub survivors : ℕ → Jobs → Jobs
unfolding newest_first is_terminal
survivors keep rows =
    take keep (order_by newest_first (select_where (λ r. is_terminal r.status) rows))

unfoldable pub prunable : ℕ → Jobs → Job → Bool
unfolding survivors is_terminal
prunable keep rows r =
    is_terminal r.status && not (matches (λ kept. kept.id == r.id) (survivors keep rows))

unfoldable pub prune : ℕ → Jobs → ℕ × Jobs
unfolding prunable
prune keep rows = (rows_affected (prunable keep rows) rows, delete_where (prunable keep rows) rows)

-- `None` is the NotFoundError.
unfoldable pub get : String → Jobs → Option Job
get id rows = first_where (λ r. r.id == id) rows
