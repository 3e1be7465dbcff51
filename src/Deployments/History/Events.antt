-- ===== src/Deployments/History/Events.antt =====
-- The calls of DeploymentStore (deployments/adapters/persistence.py) as events on its table, and any
-- sequence of them.
use blitze_cdn_cp.Prelude.{ℕ, String, List, [], ◌∷◌, Bool, Option, none, some, string_eq}
use blitze_cdn_cp.Deployments.Targets.{Detail}
use blitze_cdn_cp.Deployments.History.{
  DeploymentStatus, RecordedRun, Deployment, DeploymentTable, save, begin_deployment,
  finish_deployment, create_deployment, abandon_running, prune_history,
}

-- A call of the store: a new deployment, a step from a copy of any age, the restart, the pruning.
pub data Event : Type 0 where
  submitted :
      (id operator : String)
      → Bool
      → (release_id : String) → (rollback_of host_limit digest : Option String) → ℕ
      → Event
  begun : Deployment → ℕ → Event
  ended : Deployment → DeploymentStatus → ℕ → Option RecordedRun → Option Detail → Event
  restarted : String → ℕ → Event
  pruned : ℕ → Event

transition : Deployment → Option Deployment → DeploymentTable → DeploymentTable
transition before none rows = rows
transition before (some after) rows = (save before after rows).1

unfoldable pub happen : Event → DeploymentTable → DeploymentTable
unfolding transition
happen (submitted id operator check release rollback limit digest now) rows =
    (create_deployment id operator check release rollback limit digest now rows).1
happen (begun before now) rows = transition before (begin_deployment now before) rows
happen (ended before status now result error) rows =
    transition before (finish_deployment status now result error before) rows
happen (restarted draw now) rows = (abandon_running draw now rows).1
happen (pruned keep) rows = (prune_history keep rows).1

unfoldable pub happen_all : List Event → DeploymentTable → DeploymentTable
happen_all [] rows = rows
happen_all (e ∷ es) rows = happen_all es (happen e rows)
