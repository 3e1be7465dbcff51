-- ===== src/Workflows/Examples.antt =====
-- Small journals, and the theorems of workflows/ applied to them.
use blitze_cdn_cp.Prelude.{
  ◌+◌, List, [], ◌∷◌, map, false, none, some, ◌≡◌, refl, Memᴰ, string_eq, eq_iff, arith,
}
use blitze_cdn_cp.Sql.{matches}
use blitze_cdn_cp.Workflows.{
  WorkflowStatus, WorkflowStep, Workflow, Journal, new_workflow, identified,
}
use blitze_cdn_cp.Workflows.Coordinator.{
  Work, done, checkpoint, fail, elsewhere, run, reconcile_interrupted,
}
use blitze_cdn_cp.Workflows.Closing.{Spares, Closes, checkpoints, ending, run-Closes}
use blitze_cdn_cp.Workflows.Restarts.{Restarts, reconcile-Restarts}

abbrev issued : WorkflowStep
issued = record { name = "issued"; completed_at = 3; details = "{}" }

abbrev interrupted : Workflow
interrupted = record (new_workflow "w1" "certificate" "ops" (some "site") 1) {
  status = WorkflowStatus.running;
  steps = issued ∷ [];
}

abbrev finished : Workflow
finished = record (new_workflow "w2" "deployment" "ops" none 2) {
  status = WorkflowStatus.succeeded;
}

abbrev two_workflows : Journal
two_workflows = interrupted ∷ finished ∷ []

-- A deployment that checkpoints, and then reports its failure.
abbrev failing_work : Work
failing_work = checkpoint "converged" "{}" (elsewhere (λ rows. rows) (fail "edge down" done))

two_fresh : matches (identified "w3") two_workflows ≡ false
unfolding matches identified
two_fresh = refl

failing_work-Spares : Spares "w3" failing_work
unfolding Spares
failing_work-Spares = ((λ rows. refl), tt)

run-Closes_example :
    Closes "w3" 1000
      (checkpoints failing_work)
      (ending none failing_work)
      (run (λ n. n) "w3" 1000 "deployment" "ops" none failing_work two_workflows)
run-Closes_example =
    run-Closes "w3" (λ n. n) 1000 "deployment" "ops" none failing_work two_workflows two_fresh
      failing_work-Spares

reconcile-Restarts_example :
    (recovered : List Workflow) × (rows' : Journal) × (reconcile_interrupted
        (λ n. n + 9)
        none
        two_workflows
      ≡ (some recovered, rows'))
    × (map (λ w. w.id) rows' ≡ "w1" ∷ "w2" ∷ [])
    × ((w : Workflow) → Memᴰ w rows' → Restarts none two_workflows w)
reconcile-Restarts_example =
    reconcile-Restarts (λ n. n + 9) none two_workflows
      (((λ e. ground (arith, eq_iff "w1" "w2")), tt), (tt, tt))
