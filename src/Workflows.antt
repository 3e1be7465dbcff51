-- ===== src/Workflows.antt =====
-- workflows/domain/workflow.py and WorkflowStore of workflows/adapters/persistence.py: the journal
-- of work that crosses out of a transaction. Times and the journal's identifiers are given by the
-- caller; the `details` of a step stand by their JSON text.
pub mod Coordinator
mod Advance
pub mod Closing
pub mod Recovery
pub mod Restarts
mod Examples
use blitze_cdn_cp.Prelude.{
  ℕ, String, List, [], ◌∷◌, ◌++◌, Bool, true, false, not, Option, none, some, ◌==◌, string_eq, leb,
  take, if◌then◌else◌,
}
use blitze_cdn_cp.Sql.{select_where, update_where, matches, first_where, order_by, drop_surplus}

pub data WorkflowStatus : Type 0 where
  pending running succeeded failed needs_review : WorkflowStatus

pub record WorkflowStep : Type 0 where
  pub name : String
  pub completed_at : ℕ
  pub details : String

-- NotFoundError, the IntegrityError of a second row under one identifier, and the ValidationError
-- of a failed workflow that does not explain itself.
pub data JournalError : Type 0 where
  not_found duplicate invalid : JournalError

-- An exception, by the name of its type and its text, or one of the journal's own.
pub data Raised : Type 0 where
  outside : String → String → Raised
  journal : JournalError → Raised

-- The texts of `error`: as given, f"{type(exc).__name__}: {exc}", and that of a restart.
pub data Explanation : Type 0 where
  said : String → Explanation
  exception : Raised → Explanation
  restarted : Explanation

pub record Workflow : Type 0 where
  pub id : String
  pub kind : String
  pub resource_id : Option String
  pub status : WorkflowStatus
  pub operator : String
  pub created_at : ℕ
  pub updated_at : ℕ
  pub steps : List WorkflowStep
  pub error : Option Explanation

abbrev pub Journal : Type 0
Journal = List Workflow

pub data JournalAnswer : Type 0 where
  answers : Workflow → JournalAnswer
  refuses : JournalError → JournalAnswer

unfoldable pub is_unfinished : WorkflowStatus → Bool
is_unfinished WorkflowStatus.pending = true
is_unfinished WorkflowStatus.running = true
is_unfinished _ = false

unfoldable pub unfinished_row : Workflow → Bool
unfolding is_unfinished
unfinished_row w = is_unfinished w.status

unfoldable pub identified : String → Workflow → Bool
identified id w = w.id == id

-- The truth of `error`: neither None nor an empty text. The other texts are not empty.
unfoldable pub explains : Option Explanation → Bool
explains none = false
explains (some (said text)) = not (text == "")
explains (some _) = true

-- terminal_workflow_has_an_outcome
unfoldable pub is_valid : WorkflowStatus → Option Explanation → Bool
unfolding explains
is_valid WorkflowStatus.failed error = explains error
is_valid _ error = true

abbrev pub new_workflow : String → String → String → Option String → ℕ → Workflow
new_workflow id kind operator resource now = record {
  id = id;
  kind = kind;
  resource_id = resource;
  status = WorkflowStatus.pending;
  operator = operator;
  created_at = now;
  updated_at = now;
  steps = [];
  error = none;
}

unfoldable pub create :
    String → String → String → Option String → ℕ → Journal → JournalAnswer × Journal
unfolding identified
create id kind operator resource now rows =
    let row = new_workflow id kind operator resource now in
    if matches (identified id) rows
    then (refuses duplicate, rows)
    else (answers row, rows ++ row ∷ [])

-- [*row.steps, step] if a step is given
unfoldable pub with_step : Option WorkflowStep → List WorkflowStep → List WorkflowStep
with_step none steps = steps
with_step (some step) steps = steps ++ step ∷ []

unfoldable pub moved :
    WorkflowStatus → Option WorkflowStep → Option Explanation → ℕ → Workflow → Workflow
unfolding with_step
moved status step error now row = record row {
  steps = with_step step row.steps;
  status = status;
  error = error;
  updated_at = now;
}

advance_row :
    WorkflowStatus
    → Option WorkflowStep
    → Option Explanation
    → ℕ
    → Option Workflow
    → Journal
    → JournalAnswer × Journal
unfolding moved is_valid identified
advance_row status step error now none rows = (refuses not_found, rows)
advance_row status step error now (some row) rows =
    if is_valid status error
    then (
      answers (moved status step error now row),
      update_where (identified row.id) (moved status step error now) rows,
    )
    else (refuses invalid, rows)

-- The session rolls its writes back when the row does not validate.
unfoldable pub advance :
    String
    → WorkflowStatus
    → Option WorkflowStep
    → Option Explanation
    → ℕ
    → Journal
    → JournalAnswer × Journal
unfolding advance_row identified
advance id status step error now rows =
    advance_row status step error now (first_where (identified id) rows) rows

unfoldable pub get : String → Journal → Option Workflow
unfolding identified
get id rows = first_where (identified id) rows

unfoldable pub oldest_first : Workflow → Workflow → Bool
oldest_first a b = leb a.created_at b.created_at

unfoldable pub unfinished : Journal → Journal
unfolding oldest_first unfinished_row
unfinished rows = order_by oldest_first (select_where unfinished_row rows)

unfoldable pub list_workflows : ℕ → Journal → Journal
list_workflows limit rows = take limit (order_by (λ a b. leb b.created_at a.created_at) rows)

unfoldable pub prune_finished : ℕ → Journal → ℕ × Journal
unfolding unfinished_row
prune_finished keep =
    drop_surplus (λ w. w.id) (λ w. not (unfinished_row w)) (λ w. w.created_at) keep
