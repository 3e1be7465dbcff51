-- ===== src/Jobs/Domain.antt =====
-- jobs/domain: one unit of background work, and the rules of its lifecycle.
-- An instant is a number of microseconds since an epoch, the resolution of `datetime`.
use blitze_cdn_cp.Prelude.{
  ℕ, ◌*◌, ◌^◌, min, max, String, List, Bool, true, false, Option, none, some, leb, ◌==◌, string_eq,
  not,
}

pub data JobStatus : Type 0 where
  pending running succeeded failed : JobStatus

unfoldable pub is_pending : JobStatus → Bool
is_pending JobStatus.pending = true
is_pending _ = false

unfoldable pub is_running : JobStatus → Bool
is_running JobStatus.running = true
is_running _ = false

unfoldable pub is_terminal : JobStatus → Bool
is_terminal JobStatus.succeeded = true
is_terminal JobStatus.failed = true
is_terminal _ = false

abbrev pub default_lease_seconds : ℕ
default_lease_seconds = 900

abbrev pub max_backoff_seconds : ℕ
max_backoff_seconds = 300

abbrev base_backoff_seconds : ℕ
base_backoff_seconds = 2

-- timedelta(seconds=n)
unfoldable pub seconds : ℕ → ℕ
seconds n = n * 1000000

unfoldable pub backoff_for : ℕ → ℕ
backoff_for attempt = seconds (min (base_backoff_seconds ^ max attempt 1) max_backoff_seconds)

-- A JSON object. Every value that the program reads from one is a text.
abbrev pub Payload : Type 0
Payload = List (String × String)

-- The text in `last_error`, by the f-string that it was written with.
pub data Message : Type 0 where
  said : String → Message
  raised : String → String → Message
  no_handler : String → Message
  not_an_outcome : String → Message
  abandoned : ℕ → Message
  abandoned_after : ℕ → Message → Message

-- The truth value of the text: only the empty one is false.
unfoldable pub is_truthy : Message → Bool
is_truthy (Message.said t) = not (t == "")
is_truthy _ = true

-- `Job`, and `JobRow` with the same fields.
pub record Job : Type 0 where
  pub id : String
  pub kind : String
  pub payload : Payload
  pub status : JobStatus
  pub dedupe_key : Option String
  pub attempts : ℕ
  pub max_attempts : ℕ
  pub available_at : ℕ
  pub leased_until : Option ℕ
  pub leased_by : Option String
  pub fence : ℕ
  pub created_at : ℕ
  pub finished_at : Option ℕ
  pub last_error : Option Message
  pub result : Option Payload

unfoldable pub exhausted : Job → Bool
exhausted job = leb job.max_attempts job.attempts

unfoldable pub lapsed : Option ℕ → ℕ → Bool
lapsed none now = false
lapsed (some until) now = leb until now

claimable_when : JobStatus → Job → ℕ → Bool
unfolding lapsed
claimable_when JobStatus.pending job now = leb job.available_at now
claimable_when JobStatus.running job now = lapsed job.leased_until now
claimable_when _ job now = false

unfoldable pub claimable_at : Job → ℕ → Bool
unfolding claimable_when
claimable_at job now = claimable_when job.status job now

pub record JobClaim : Type 0 where
  pub job : Job
  pub fence : ℕ

-- JobClaim.of
unfoldable pub claim_of : Job → JobClaim
claim_of job = record { job = job; fence = job.fence }

pub data JobOutcome : Type 0 where
  done : Option Payload → JobOutcome
  retry defer fail : String → JobOutcome
