-- ===== src/Jobs/Queue.antt =====
-- jobs/service/queue.py: the queue over the job store, and what each outcome of a handler records.
-- A reading of the clock is an argument. Log lines and the monotonic clock that times a handler
-- are left out: nothing is decided by them.
pub mod Current
pub mod System
pub mod Invariant
use blitze_cdn_cp.Prelude.{
  ℕ, zero, suc, ◌+◌, String, List, [], ◌∷◌, Bool, true, false, ◌||◌, Option, none, some,
  if◌then◌else◌, ◌==◌, string_eq,
}
use Prim.Native.String.{◌++◌ as append}
use blitze_cdn_cp.Jobs.Domain.{
  Job, JobClaim, JobOutcome, Message, Payload, exhausted, backoff_for, seconds,
}
use blitze_cdn_cp.Jobs.Store
use blitze_cdn_cp.Jobs.Store.{Jobs, new_job}

-- How a call of a handler ends: an outcome, a value that is none, or an escaping exception.
pub data Ending : Type 0 where
  outcome : JobOutcome → Ending
  stranger : Ending
  raises : String → String → Ending

-- A handler gets the payload. While it runs, other processes may call the store: it hands on the
-- table that it leaves behind.
abbrev pub JobHandler : Type 0
JobHandler = Payload → Jobs → Ending × Jobs

pub record JobQueue : Type 0 where
  pub handlers : List (String × JobHandler)
  pub worker_id : String
  pub lease_seconds : ℕ
  pub retention : ℕ

unfoldable pub handler_for : String → List (String × JobHandler) → Option JobHandler
handler_for kind [] = none
handler_for kind ((k, h) ∷ rest) = if k == kind then some h else handler_for kind rest

-- `none` is the RuntimeError.
unfoldable pub consume_with : JobQueue → List (String × JobHandler) → Option JobQueue
consume_with queue handlers = elim queue.handlers [
  | [] ↦ some (record queue { handlers = handlers })
  | h ∷ hs ↦ none
]

abbrev pub deployment_job : String
deployment_job = "deployment"

abbrev pub scheduled_job : String
scheduled_job = "scheduled"

-- The f-string that names what a job is about.
abbrev pub dedupe_of : String → String → String
dedupe_of kind name = append kind (append ":" name)

unfoldable pub enqueue_deployment : String → String → ℕ → ℕ → Jobs → Option Job × Jobs
enqueue_deployment id deployment_id now created_at = Store.enqueue (
    new_job id deployment_job (("deployment_id", deployment_id) ∷ []) now
      (some (dedupe_of deployment_job deployment_id)) 3 created_at)

or_else : Option ℕ → ℕ → ℕ
or_else none d = d
or_else (some zero) d = d
or_else (some (suc n)) d = suc n

-- `available_at or self.clock()`: no instant is false.
available : Option ℕ → ℕ → ℕ
available none now = now
available (some t) now = t

unfoldable pub enqueue_scheduled : String → String → Option ℕ → ℕ → ℕ → ℕ → Jobs → Option Job × Jobs
unfolding available
enqueue_scheduled id job available_at max_attempts now created_at = Store.enqueue (
    new_job id scheduled_job (("job", job) ∷ []) (available available_at now)
      (some (dedupe_of scheduled_job job)) max_attempts created_at)

unfoldable pub claim : JobQueue → Option ℕ → ℕ → Jobs → Option JobClaim × Jobs
unfolding or_else
claim queue lease_seconds now =
    Store.claim queue.worker_id now (or_else lease_seconds queue.lease_seconds)

abbrev pub deferral_seconds : ℕ
deferral_seconds = 5

-- _defer
unfoldable pub defer : JobClaim → String → ℕ → Jobs → Bool × Jobs
unfolding seconds
defer c text now = Store.defer c.job.id c.fence (now + seconds deferral_seconds) (Message.said text)

unfoldable pub retry_time : Job → Bool → ℕ → Option ℕ
unfolding exhausted backoff_for
retry_time job permanent now =
    if permanent || exhausted job then none else some (now + backoff_for job.attempts)

-- _fail
unfoldable pub fail : JobClaim → Message → Bool → ℕ → Jobs → Bool × Jobs
unfolding retry_time
fail c error permanent now = Store.fail c.job.id c.fence now error (retry_time c.job permanent now)

-- `run`, behind the handler's call.
unfoldable pub settle : JobClaim → Ending → ℕ → Jobs → Bool × Jobs
unfolding defer fail
settle c (outcome (JobOutcome.done result)) now = Store.complete c.job.id c.fence now result
settle c (outcome (JobOutcome.defer text)) now = defer c text now
settle c (outcome (JobOutcome.retry text)) now = fail c (Message.said text) false now
settle c (outcome (JobOutcome.fail text)) now = fail c (Message.said text) true now
settle c stranger now = fail c (Message.not_an_outcome c.job.kind) true now
settle c (raises type text) now = fail c (Message.raised type text) false now

run_with : JobClaim → ℕ → Option JobHandler → Jobs → Jobs
unfolding settle
run_with c now none rows = (fail c (Message.no_handler c.job.kind) true now rows).1
run_with c now (some handler) rows =
    let (ending, rows') = handler c.job.payload rows in (settle c ending now rows').1

-- `now` is the reading of the clock that the report takes, after the handler.
unfoldable pub run : JobQueue → JobClaim → ℕ → Jobs → Jobs
unfolding run_with handler_for
run queue c now = run_with c now (handler_for c.job.kind queue.handlers)

run_claimed : JobQueue → ℕ → Option JobClaim → Jobs → Option Job × Jobs
unfolding run
run_claimed queue later none rows = (none, rows)
run_claimed queue later (some c) rows = (some c.job, run queue c later rows)

-- Claims at `now`, and reports at `later`.
unfoldable pub run_one : JobQueue → Option ℕ → ℕ → ℕ → Jobs → Option Job × Jobs
unfolding claim run_claimed
run_one queue lease_seconds now later rows =
    let (found, rows') = claim queue lease_seconds now rows in run_claimed queue later found rows'

unfoldable pub renew : JobQueue → JobClaim → Option ℕ → ℕ → Jobs → Bool × Jobs
unfolding or_else seconds
renew queue c lease_seconds now =
    Store.renew c.job.id c.fence (now + seconds (or_else lease_seconds queue.lease_seconds))

unfoldable pub prune : JobQueue → Jobs → ℕ × Jobs
prune queue = Store.prune queue.retention
