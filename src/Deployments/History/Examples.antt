-- ===== src/Deployments/History/Examples.antt =====
-- A small history of deployments, and the theorems of deployments/ on its rows applied to it.
use blitze_cdn_cp.Prelude.{[], ◌∷◌, false, none, some, refl, Memᴰ, eq_iff, arith, string_eq}
use blitze_cdn_cp.Deployments.Targets.{said}
use blitze_cdn_cp.Deployments.History.{
  DeploymentStatus, Deployment, DeploymentTable, new_deployment, is_final,
  successful_rollback_target,
}
use blitze_cdn_cp.Deployments.History.Events.{begun, ended, restarted, pruned, happen_all}
use blitze_cdn_cp.Deployments.History.Terminal.{Distinct, finished_stays}
use blitze_cdn_cp.Deployments.History.Choice.{Newest, successful_rollback_target-Newest}

abbrev done_run : Deployment
done_run = record (new_deployment "d1" "ops" false "r1" none none none 1) {
  status = DeploymentStatus.succeeded;
}

abbrev waiting_run : Deployment
waiting_run = new_deployment "d2" "ops" false "r2" none none none 2

abbrev two_runs : DeploymentTable
two_runs = done_run ∷ waiting_run ∷ []

two_runs-Distinct : Distinct two_runs
two_runs-Distinct = (((λ e. ground (arith, eq_iff "d1" "d2")), tt), (tt, tt))

-- A stale copy of the finished run as it was when it ran is among the events.
finished_stays_example : Memᴰ done_run (
    happen_all
      (begun waiting_run 3
        ∷ ended
            (record done_run { status = DeploymentStatus.running })
            DeploymentStatus.failed
            4
            none
            (some (said "late"))
        ∷ restarted "u1" 5
        ∷ pruned 0
        ∷ [])
      two_runs)
unfolding is_final
finished_stays_example =
    finished_stays done_run
      (begun waiting_run 3
        ∷ ended (record done_run { status = DeploymentStatus.running }) DeploymentStatus.failed 4
            none (some (said "late"))
        ∷ restarted "u1" 5
        ∷ pruned 0
        ∷ [])
      two_runs two_runs-Distinct (Memᴰ.head refl) refl refl

successful_rollback_target-Newest_example :
    Newest "r2" two_runs (successful_rollback_target "r2" two_runs)
successful_rollback_target-Newest_example = successful_rollback_target-Newest "r2" two_runs
