-- ===== src/Workflows/Closing.antt =====
-- The way of one workflow through `run` of workflows/service/coordinator.py.
use blitze_cdn_cp.Prelude.{
  ℕ, ◌+◌, String, List, [], ◌∷◌, ◌++◌, map, true, false, Option, none, some, ◌≡◌, refl, sym, subst,
  ap, ◌∙◌, inl, inr, Bool-cases, eq_iff, string_eq, if◌then◌else◌,
}
use mathlib.Core.List.{append_assoc, append-nil}
use blitze_cdn_cp.Sql.{matches, first_where}
use blitze_cdn_cp.Sql.Laws.{first_where-update_where, first_where-snoc}
use blitze_cdn_cp.Workflows.{
  WorkflowStatus, WorkflowStep, Workflow, Journal, outside, Explanation, said, exception, answers,
  identified, explains, is_valid, moved, with_step, advance, create, new_workflow, prune_finished,
}
use blitze_cdn_cp.Workflows.Advance.{advance_lem}
use blitze_cdn_cp.Workflows.Coordinator.{
  Work, done, raises, checkpoint, fail, elsewhere, Ended, ended, raised, Outcome, completed,
  escaped, perform, close, start, run,
}

-- What work checkpoints, by name and details, and how it ends.
unfoldable pub checkpoints : Work → List (String × String)
checkpoints done = []
checkpoints (raises type text) = []
checkpoints (checkpoint name details work) = (name, details) ∷ checkpoints work
checkpoints (fail text work) = checkpoints work
checkpoints (elsewhere write work) = checkpoints work

unfoldable pub ending : Option Explanation → Work → Ended
ending error done = ended error
ending error (raises type text) = raised (outside type text)
ending error (checkpoint name details work) = ending error work
ending error (fail text work) = ending (some (said text)) work
ending error (elsewhere write work) = ending error work

abbrev pub entry : WorkflowStep → String × String
entry step = (step.name, step.details)

module _ (id : String) where
  -- The other processes leave the workflow's own row as it is.
  unfoldable pub Spares : Work → Type 0
  Spares done = Unit {0}
  Spares (raises type text) = Unit {0}
  Spares (checkpoint name details work) = Spares work
  Spares (fail text work) = Spares work
  Spares (elsewhere write work) =
      ((rows : Journal)
        → first_where (identified id) (write rows) ≡ first_where (identified id) rows)
      × Spares work

  -- The row of the workflow, with its status, its error and its steps.
  abbrev pub Shows : WorkflowStatus → Option Explanation → List (String × String) → Journal → Type 0
  Shows status error steps rows =
      (w : Workflow) × (first_where (identified id) rows ≡ some w)
      × (w.status ≡ status)
      × (w.error ≡ error)
      × (map entry w.steps ≡ steps)

  map-append :
      (steps : List WorkflowStep) (step : WorkflowStep)
      → map entry (steps ++ step ∷ []) ≡ map entry steps ++ entry step ∷ []
  map-append [] step = refl
  map-append (s ∷ steps) step = ap (λ z. entry s ∷ z) (map-append steps step)

  -- An update of the row that is there answers, and shows.
  advance_found :
      (status : WorkflowStatus) (step : Option WorkflowStep) (error : Option Explanation) (now : ℕ)
      (rows : Journal) {w : Workflow}
      → first_where (identified id) rows ≡ some w
      → is_valid status error ≡ true
      → ((advance id status step error now rows).0 ≡ answers (moved status step error now w))
        × (first_where (identified id) (advance id status step error now rows).1
            ≡ some (moved status step error now w))
  unfolding moved identified
  advance_found status step error now rows {w} h v =
      rw (advance_lem id status step error now rows h v) (
        refl,
        first_where-update_where (identified id) (moved status step error now) rows h (λ y k. k),
      )

  module _ (clock : ℕ → ℕ) where
    perform_lem :
        (work : Work) (error : Option Explanation) (n : ℕ) (rows : Journal)
        (steps : List (String × String))
        → Spares work
        → Shows WorkflowStatus.running none steps rows
        → ((perform clock id work error n rows).0 ≡ ending error work)
          × Shows WorkflowStatus.running none
              (steps ++ checkpoints work)
              (perform clock id work error n rows).2
    unfolding perform ending checkpoints Spares moved with_step
    perform_lem done error n rows steps s (w, h, st, er, k) =
        (refl, (w, h, st, er, k ∙ sym (append-nil steps)))
    perform_lem (raises type text) error n rows steps s (w, h, st, er, k) =
        (refl, (w, h, st, er, k ∙ sym (append-nil steps)))
    perform_lem (checkpoint name details work) error n rows steps s (w, h, st, er, k) =
        let step : WorkflowStep = record {
          name = name;
          completed_at = clock n;
          details = details;
        } in
        let (a, found) =
          advance_found WorkflowStatus.running (some step) none (clock (n + 1)) rows h
            (unfold is_valid in refl) in
        let (e, shows) = perform_lem work error (n + 2) _ (steps ++ (name, details) ∷ []) s (
          _,
          found,
          refl,
          refl,
          (map-append w.steps step ∙ ap (λ z. z ++ (name, details) ∷ []) k),
        ) in
        rw a (
          e,
          subst
              (λ z.
                Shows WorkflowStatus.running none z
                  (perform clock id work error (n + 2)
                    (advance id WorkflowStatus.running (some step) none (clock (n + 1)) rows).1).2)
              (append_assoc steps ((name, details) ∷ []) (checkpoints work)) shows,
        )
    perform_lem (fail text work) error n rows steps s h =
        perform_lem work (some (said text)) n rows steps s h
    perform_lem (elsewhere write work) error n rows steps s (w, h, st, er, k) =
        perform_lem work error n (write rows) steps s.1 (w, s.0 rows ∙ h, st, er, k)

  -- The workflow is closed as its work ended, with its checkpoints as its steps.
  unfoldable pub Closes : ℕ → List (String × String) → Ended → Outcome × Journal → Type 0
  Closes retention steps (ended error) (outcome, rows) =
      (outcome ≡ completed)
      × (before : Journal) × (rows ≡ (prune_finished retention before).1)
      × Shows (if explains error then WorkflowStatus.failed else WorkflowStatus.succeeded) error
          steps before
  Closes retention steps (raised exc) (outcome, rows) =
      (outcome ≡ escaped exc) × Shows WorkflowStatus.failed (some (exception exc)) steps rows

  judged-is_valid :
      (error : Option Explanation)
      → is_valid (if explains error then WorkflowStatus.failed else WorkflowStatus.succeeded) error
        ≡ true
  unfolding is_valid
  judged-is_valid error = elim (Bool-cases (explains error)) [
    | inl e ↦ rw (e, e) refl
    | inr e ↦ rw e refl
  ]

  module _ (clock : ℕ → ℕ) (retention : ℕ) where
    close-Closes :
        (end : Ended) (n : ℕ) (rows : Journal) (steps : List (String × String))
        → Shows WorkflowStatus.running none steps rows
        → Closes retention steps end (close clock id retention end n rows)
    unfolding close Closes moved with_step
    close-Closes (ended error) n rows steps (w, h, st, er, k) =
        let (a, found) =
          advance_found (if explains error then WorkflowStatus.failed else WorkflowStatus.succeeded)
            none error (clock n) rows h (judged-is_valid error) in
        rw a (refl, _, refl, (_, found, refl, refl, k))
    close-Closes (raised exc) n rows steps (w, h, st, er, k) =
        let (a, found) =
          advance_found WorkflowStatus.failed none (some (exception exc)) (clock n) rows h
            (unfold is_valid in unfold explains in refl) in
        rw a (refl, (_, found, refl, refl, k))

    start_lem :
        (kind operator : String) (resource : Option String) (rows : Journal)
        → matches (identified id) rows ≡ false
        → ((row : Workflow) × ((start clock id kind operator resource rows).0 ≡ answers row))
          × Shows WorkflowStatus.running none [] (start clock id kind operator resource rows).1
    unfolding start create moved with_step
    start_lem kind operator resource rows fresh =
        let row = new_workflow id kind operator resource (clock 0) in
        let (a, found) =
          advance_found WorkflowStatus.running none none (clock 1) (rows ++ row ∷ []) {w = row}
            (first_where-snoc (identified id) rows row fresh
              (unfold identified in ((eq_iff id id).1 refl)))
            (unfold is_valid in refl) in
        rw (fresh, a) ((_, refl), (_, found, refl, refl, refl))

    -- A `with` block of `run`, if no row has its identifier before and no other process touches its
    -- row, leaves the workflow closed: with every checkpoint of the work as a step, in order; failed,
    -- with the exception, if the work raised, which the block then raises too; otherwise completed,
    -- failed if a failure with a text was reported last and succeeded if not, with that failure as
    -- its error, and then the finished workflows beyond the newest are dropped.
    pub run-Closes :
        (kind operator : String) (resource : Option String) (work : Work) (rows : Journal)
        → matches (identified id) rows ≡ false
        → Spares work
        → Closes retention
            (checkpoints work)
            (ending none work)
            (run clock id retention kind operator resource work rows)
    unfolding run
    run-Closes kind operator resource work rows fresh spares =
        let ((row, a), shows) = start_lem kind operator resource rows fresh in
        let (e, shows') = perform_lem clock work none 2 _ [] spares shows in
        rw (a, e) (close-Closes (ending none work) _ _ (checkpoints work) shows')
