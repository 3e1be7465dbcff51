-- ===== src/Deployments/Admission.antt =====
-- `_queue` of deployments/service/convergence.py behind the choice of the release: the deployment, its
-- targets, the pruning of the history and the job, in one transaction. The host limit is one that its
-- validation has passed; the releases on record, the queue of the jobs and its `enqueue` are parameters.
pub mod Submitted
mod Examples
use blitze_cdn_cp.Prelude.{
  ℕ, String, List, [], ◌∷◌, ◌++◌, Bool, true, false, not, ◌&&◌, Option, none, some, if◌then◌else◌,
  ◌==◌, string_eq,
}
use blitze_cdn_cp.Sql.{select_where, matches}
use blitze_cdn_cp.Deployments.Targets.{Fleet, PlanError, plan}
use blitze_cdn_cp.Deployments.History.{
  Deployment, DeploymentTable, keyed, create_deployment, prune_history,
}

pub record Admission : Type 0 where
  pub operator : String
  pub check : Bool
  pub release_id : String
  pub rollback_of : Option String
  pub host_limit : Option String
  pub canonical_digest : Option String
  pub edges : List String
  pub background : Bool

pub record Ledger (Q : Type 0) : Type 0 where
  pub history : DeploymentTable
  pub fleet : Fleet
  pub jobs : Q

-- An identifier that is taken, a reference to a release or a deployment that is not there, a plan that
-- is refused, and a job that is refused.
pub data Refusal : Type 0 where
  taken : Refusal
  dangling : Refusal
  unplannable : PlanError → Refusal
  not_enqueued : Refusal

pub data Admitted (Q : Type 0) : Type 0 where
  admitted : Deployment → Ledger Q → Admitted Q
  turned_away : Refusal → Admitted Q

unfoldable pub with_row : String → Fleet → Fleet
with_row id fleet = record fleet {
  deployments = fleet.deployments ++ (record { id = id; generation = 0 }) ∷ [];
}

-- What ON DELETE CASCADE leaves for the deployments that stay.
unfoldable pub cascade : DeploymentTable → Fleet → Fleet
unfolding keyed
cascade rows fleet = record {
  deployments = select_where (λ row. matches (keyed row.id) rows) fleet.deployments;
  targets = select_where (λ t. matches (keyed t.deployment_id) rows) fleet.targets;
}

refers : Option String → DeploymentTable → Bool
unfolding keyed
refers none rows = true
refers (some id) rows = matches (keyed id) rows

-- The foreign keys of the deployment; `known` are the identifiers of the releases on record.
unfoldable pub has_references : (String → Bool) → Admission → DeploymentTable → Bool
unfolding refers
has_references known a rows = known a.release_id && refers a.rollback_of rows

module _ {Q : Type 0} (enqueue : String → Q → Option Q) where
  after_job : Deployment → DeploymentTable → Fleet → Option Q → Admitted Q
  after_job d rows fleet none = turned_away not_enqueued
  after_job d rows fleet (some jobs) =
      admitted d (record { history = rows; fleet = fleet; jobs = jobs })

  after_plan : ℕ → Bool → Deployment → DeploymentTable → Q → Option PlanError × Fleet → Admitted Q
  unfolding after_job prune_history cascade
  after_plan keep background d rows jobs (some e, fleet) = turned_away (unplannable e)
  after_plan keep background d rows jobs (none, fleet) =
      let kept = (prune_history keep rows).1 in
      after_job d kept (cascade kept fleet) (if background then enqueue d.id jobs else some jobs)

  after_create : ℕ → Admission → Ledger Q → Option Deployment × DeploymentTable → Admitted Q
  unfolding after_plan plan with_row
  after_create keep a s (none, rows) = turned_away taken
  after_create keep a s (some d, rows) =
      after_plan keep a.background d rows s.jobs (plan d.id a.edges 0 (with_row d.id s.fleet))

  -- What is refused leaves the ledger as it was.
  unfoldable pub queue : (String → Bool) → ℕ → String → ℕ → Admission → Ledger Q → Admitted Q
  unfolding has_references after_create create_deployment
  queue known keep id now a s =
      if not (has_references known a s.history)
      then turned_away dangling
      else after_create keep a s (
          create_deployment id a.operator a.check a.release_id a.rollback_of a.host_limit
            a.canonical_digest now s.history)
