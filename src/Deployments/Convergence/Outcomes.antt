-- ===== src/Deployments/Convergence/Outcomes.antt =====
-- What `converge` of deployments/service/convergence.py works on, and how it reads the outcome of a
-- rollout: the rows, the exceptions, the status and the run that are recorded.
use blitze_cdn_cp.Prelude.{
  ℕ, String, List, Bool, true, false, not, ◌&&◌, Option, none, some, ◌==◌, string_eq, if◌then◌else◌,
}
use blitze_cdn_cp.Sql.{select_where, matches}
use blitze_cdn_cp.Deployments.Targets.{Detail, PlanError}
use blitze_cdn_cp.Deployments.Rollout.{
  AnsibleRun, Failure, execution, other, Outside, World, RolloutOutcome, succeeds, text_of,
}
use blitze_cdn_cp.Deployments.History.{
  DeploymentStatus, RecordedRun, reported, unstarted_run, interrupted_by, runner_error, Deployment,
  DeploymentTable, status_of, status_eq,
}

-- What the releases capability answers: a release by its identifier, the canonical state that it was
-- compiled from, and the digest of a canonical state. `none` is the NotFoundError.
pub record Releases (I : Type 0) : Type 0 where
  pub known : String → Bool
  pub inputs_for : String → Option I
  pub digest : I → String

-- The rows that a convergence writes beside those of the rollout: the history, whether certificates
-- require a deployment, and the canonical state.
pub record Shared (I : Type 0) : Type 0 where
  pub history : DeploymentTable
  pub required : Bool
  pub canonical : I

pub record Control (I : Type 0) : Type 0 where
  pub shared : Shared I
  pub world : World

-- An exception: one that `except Exception` catches, or an interrupt by the name of its type.
pub data Exc : Type 0 where
  failure : Failure → Exc
  interrupt : String → Exc

pub data Ran : Type 0 where
  returned : Deployment → Ran
  raised : Exc → Ran

-- The exceptions of the control plane's own, by the names of their types; their texts are shortened.
abbrev pub conflict_error : Failure
conflict_error = other "ConflictError" (Detail.said "conflict")

abbrev pub not_found_error : Failure
not_found_error = other "NotFoundError" (Detail.said "not found")

abbrev pub integrity_error : Failure
integrity_error = other "IntegrityError" (Detail.said "UNIQUE constraint failed")

abbrev pub value_error : Failure
value_error = other "ValueError" (Detail.said "illegal deployment transition")

abbrev pub configuration_error : Failure
configuration_error =
    other "ConfigurationError" (Detail.said "deployment targets were removed after admission")

type_name : Failure → String
type_name (execution text) = "ExecutionError"
type_name (other type text) = type

-- aborted_run
unfoldable pub aborted_run : String → ℕ → Exc → RecordedRun
unfolding type_name text_of
aborted_run draw now (failure f) = unstarted_run draw now (runner_error (type_name f) (text_of f))
aborted_run draw now (interrupt type) = unstarted_run draw now (interrupted_by type)

abbrev pub no_edges : Detail
no_edges =
    Detail.said
      "no edges are registered, so nothing was converged; add one with 'blitzecdn edge add'"

error_or_no_edges : Option Detail → Detail
error_or_no_edges none = no_edges
error_or_no_edges (some text) = text

-- `outcome.run or aborted_run(RuntimeError(outcome.error or …))`
unfoldable pub run_of : String → ℕ → RolloutOutcome → RecordedRun
unfolding aborted_run error_or_no_edges
run_of draw now o = elim o.run [
  | some run ↦ reported run
  | none ↦ aborted_run draw now (failure (other "RuntimeError" (error_or_no_edges o.error)))
]

-- A clean run inside a stopped rollout is a failure.
unfoldable pub not_clean : DeploymentStatus → DeploymentStatus
not_clean DeploymentStatus.succeeded = DeploymentStatus.failed
not_clean status = status

unfoldable pub unclean_status : Option AnsibleRun → DeploymentStatus
unfolding status_of not_clean
unclean_status none = DeploymentStatus.failed
unclean_status (some run) = not_clean (status_of run.status)

unfoldable pub target_status : RolloutOutcome → DeploymentStatus
unfolding unclean_status succeeds
target_status o = if succeeds o then DeploymentStatus.succeeded else unclean_status o.run

unfoldable pub is_named : Option String → Bool
is_named none = false
is_named (some id) = not (id == "")

unfoldable pub is_success : DeploymentStatus → Bool
unfolding status_eq
is_success status = status_eq status DeploymentStatus.succeeded

unfoldable pub adopts_rollback : Deployment → DeploymentStatus → Bool
unfolding is_named is_success
adopts_rollback d status = is_named d.rollback_of && (is_success status && not d.check_mode)

unfoldable pub is_interrupt : Exc → Bool
is_interrupt (failure f) = false
is_interrupt (interrupt type) = true

-- The exceptions that the rollout lets through.
unfoldable pub planning_failure : PlanError → Failure
planning_failure PlanError.not_found = not_found_error
planning_failure PlanError.stale = conflict_error
planning_failure PlanError.repeated = integrity_error

-- set(planned) - set(selected)
unfoldable pub removed_edges : List String → List String → List String
removed_edges planned selected =
    select_where (λ edge. not (matches (λ other. other == edge) selected)) planned

-- A transaction: what it gives with the rows it leaves, or the exception that rolls it back.
pub data Transacted (I : Type 0) : Type 0 where
  commits : Deployment → Shared I → Transacted I
  aborts : Failure → Transacted I

-- The canonical state after the adoption, or the exception that refuses it.
pub data Adopted (I : Type 0) : Type 0 where
  adopted : Shared I → Adopted I
  refused : Failure → Adopted I

-- The times that the clock gives when the deployment starts, when a run that never started is
-- recorded, when the deployment ends and when it fails, and the identifiers that are drawn.
pub record Readings : Type 0 where
  pub started : ℕ
  pub unstarted : ℕ
  pub finished : ℕ
  pub failed : ℕ
  pub unstarted_id : String
  pub failed_id : String

-- An interrupt (a BaseException such as KeyboardInterrupt) that cuts a convergence short: the name of
-- its type, and what it leaves of the rollout's work.
pub record Interrupt : Type 0 where
  pub name : String
  pub leaves : World → World

-- What stands around a convergence: the releases, the outside of the rollout, the registered edges,
-- what other processes write to the shared rows while the rollout runs, and the interrupt, if one
-- comes before the result is saved.
pub record Setting (I : Type 0) : Type 0 where
  pub releases : Releases I
  pub out : Outside
  pub selected : List String
  pub during : Shared I → Shared I
  pub interrupted : Option Interrupt
