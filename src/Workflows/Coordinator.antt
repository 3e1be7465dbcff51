-- ===== src/Workflows/Coordinator.antt =====
-- workflows/service/coordinator.py. The work of a `with` block is a sequence of checkpoints,
-- reported failures and writes of other processes between them, that ends or raises; a checkpoint
-- that raises ends it. The clock gives the time of its n-th reading.
use blitze_cdn_cp.Prelude.{
  ℕ, ◌+◌, String, Option, none, some, Bool, true, false, if◌then◌else◌, ◌==◌, string_eq, List, [],
  ◌∷◌,
}
use blitze_cdn_cp.Sql.{select_where}
use blitze_cdn_cp.Workflows.{
  WorkflowStatus, WorkflowStep, Workflow, Journal, Raised, outside, journal, Explanation, said,
  exception, restarted, JournalAnswer, answers, refuses, explains, create, advance, prune_finished,
  unfinished,
}

pub data Work : Type 0 where
  done : Work
  raises : String → String → Work
  checkpoint : String → String → Work → Work
  fail : String → Work → Work
  elsewhere : (Journal → Journal) → Work → Work

-- How a block ends: with what `progress.error` says, or with an exception.
pub data Ended : Type 0 where
  ended : Option Explanation → Ended
  raised : Raised → Ended

pub data Outcome : Type 0 where
  completed : Outcome
  escaped : Raised → Outcome

module _ (clock : ℕ → ℕ) (id : String) where
  module _ (go : Journal → Ended × ℕ × Journal) where
    after_checkpoint : ℕ → JournalAnswer → Journal → Ended × ℕ × Journal
    after_checkpoint n (answers row) rows = go rows
    after_checkpoint n (refuses e) rows = (raised (journal e), n, rows)

  unfoldable pub perform : Work → Option Explanation → ℕ → Journal → Ended × ℕ × Journal
  unfolding after_checkpoint
  perform done error n rows = (ended error, n, rows)
  perform (raises type text) error n rows = (raised (outside type text), n, rows)
  perform (checkpoint name details work) error n rows =
      let step : WorkflowStep = record { name = name; completed_at = clock n; details = details } in
      let (answer, rows') =
        advance id WorkflowStatus.running (some step) none (clock (n + 1)) rows in
      after_checkpoint (perform work error (n + 2)) (n + 2) answer rows'
  perform (fail text work) error n rows = perform work (some (said text)) n rows
  perform (elsewhere write work) error n rows = perform work error n (write rows)

  after_success : ℕ → JournalAnswer → Journal → Outcome × Journal
  after_success retention (answers row) rows = (completed, (prune_finished retention rows).1)
  after_success retention (refuses e) rows = (escaped (journal e), rows)

  after_failure : Raised → JournalAnswer → Journal → Outcome × Journal
  after_failure exc (answers row) rows = (escaped exc, rows)
  after_failure exc (refuses e) rows = (escaped (journal e), rows)

  -- The `else` and the `except` of the block.
  unfoldable pub close : ℕ → Ended → ℕ → Journal → Outcome × Journal
  unfolding after_success after_failure explains
  close retention (ended error) n rows =
      let status = if explains error then WorkflowStatus.failed else WorkflowStatus.succeeded in
      let (answer, rows') = advance id status none error (clock n) rows in
      after_success retention answer rows'
  close retention (raised exc) n rows =
      let (answer, rows') =
        advance id WorkflowStatus.failed none (some (exception exc)) (clock n) rows in
      after_failure exc answer rows'

  -- The transaction that opens the workflow: both writes, or neither.
  opened : JournalAnswer → Journal → Journal → JournalAnswer × Journal
  opened (answers row) rows before = (answers row, rows)
  opened (refuses e) rows before = (refuses e, before)

  began : JournalAnswer → Journal → Journal → JournalAnswer × Journal
  unfolding opened
  began (answers row) rows before =
      let (answer, rows') = advance id WorkflowStatus.running none none (clock 1) rows in
      opened answer rows' before
  began (refuses e) rows before = (refuses e, before)

  unfoldable pub start : String → String → Option String → Journal → JournalAnswer × Journal
  unfolding began
  start kind operator resource rows =
      let (answer, rows') = create id kind operator resource (clock 0) rows in
      began answer rows' rows

  run_opened : ℕ → Work → JournalAnswer → Journal → Outcome × Journal
  unfolding perform close
  run_opened retention work (answers row) rows =
      let (end, n, rows') = perform work none 2 rows in close retention end n rows'
  run_opened retention work (refuses e) rows = (escaped (journal e), rows)

  unfoldable pub run : ℕ → String → String → Option String → Work → Journal → Outcome × Journal
  unfolding run_opened start
  run retention kind operator resource work rows =
      let (answer, rows') = start kind operator resource rows in
      run_opened retention work answer rows'

-- `resource_id is None or workflow.resource_id == resource_id`
unfoldable pub concerns : Option String → Workflow → Bool
concerns none w = true
concerns (some resource) w = elim w.resource_id [ none ↦ false | some r ↦ r == resource ]

module _ (clock : ℕ → ℕ) where
  listed : Workflow → Option (List Workflow) × Journal → Option (List Workflow) × Journal
  listed row (none, rows) = (none, rows)
  listed row (some recovered, rows) = (some (row ∷ recovered), rows)

  review_rest :
      (Journal → Option (List Workflow) × Journal)
      → JournalAnswer
      → Journal
      → Option (List Workflow) × Journal
  unfolding listed
  review_rest go (answers row) rows = listed row (go rows)
  review_rest go (refuses e) rows = (none, rows)

  unfoldable pub review : List Workflow → ℕ → Journal → Option (List Workflow) × Journal
  unfolding review_rest
  review [] n rows = (some [], rows)
  review (w ∷ ws) n rows =
      let (answer, rows') =
        advance w.id WorkflowStatus.needs_review none (some restarted) (clock n) rows in
      review_rest (review ws (n + 1)) answer rows'

  -- All in one transaction: `none` is the NotFoundError, and nothing is written.
  settled : Journal → Option (List Workflow) × Journal → Option (List Workflow) × Journal
  settled before (none, rows) = (none, before)
  settled before (some recovered, rows) = (some recovered, rows)

  unfoldable pub reconcile_interrupted : Option String → Journal → Option (List Workflow) × Journal
  unfolding review settled concerns
  reconcile_interrupted resource rows =
      settled rows (review (select_where (concerns resource) (unfinished rows)) 0 rows)
