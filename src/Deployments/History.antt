-- ===== src/Deployments/History.antt =====
-- deployments/domain/deployment.py (the lifecycle of a deployment) and DeploymentStore of
-- deployments/adapters/persistence.py. Of a reported run its status and its summary are kept. Times and
-- drawn identifiers are given by the caller.
pub mod Events
pub mod Terminal
pub mod Choice
pub mod Saving
mod Examples
use blitze_cdn_cp.Prelude.{
  ℕ, String, List, [], ◌∷◌, ◌++◌, Bool, true, false, not, ◌&&◌, Option, none, some, ◌==◌, string_eq,
  leb, if◌then◌else◌,
}
use blitze_cdn_cp.Sql.{
  select_where, update_where, matches, first_where, order_by, drop_surplus, rows_affected,
}
use blitze_cdn_cp.Deployments.Targets.{Detail}
use blitze_cdn_cp.Deployments.Rollout.{RunStatus, AnsibleRun}

pub data DeploymentStatus : Type 0 where
  queued running succeeded failed timed_out abandoned : DeploymentStatus

-- The text that the column holds.
unfoldable pub value : DeploymentStatus → String
value DeploymentStatus.queued = "queued"
value DeploymentStatus.running = "running"
value DeploymentStatus.succeeded = "succeeded"
value DeploymentStatus.failed = "failed"
value DeploymentStatus.timed_out = "timed_out"
value DeploymentStatus.abandoned = "abandoned"

unfoldable pub status_eq : DeploymentStatus → DeploymentStatus → Bool
unfolding value
status_eq a b = value a == value b

-- DeploymentStatus.of
unfoldable pub status_of : RunStatus → DeploymentStatus
status_of RunStatus.timed_out = DeploymentStatus.timed_out
status_of RunStatus.succeeded = DeploymentStatus.succeeded
status_of _ = DeploymentStatus.failed

-- TERMINAL_STATUSES
unfoldable pub is_final : DeploymentStatus → Bool
is_final DeploymentStatus.queued = false
is_final DeploymentStatus.running = false
is_final _ = true

-- DEPLOYMENT_TRANSITIONS
unfoldable pub is_lawful : DeploymentStatus → DeploymentStatus → Bool
is_lawful DeploymentStatus.queued DeploymentStatus.running = true
is_lawful DeploymentStatus.queued DeploymentStatus.failed = true
is_lawful DeploymentStatus.running DeploymentStatus.succeeded = true
is_lawful DeploymentStatus.running DeploymentStatus.failed = true
is_lawful DeploymentStatus.running DeploymentStatus.timed_out = true
is_lawful DeploymentStatus.running DeploymentStatus.abandoned = true
is_lawful _ _ = false

-- The texts of the `error` of a run that never reached Ansible: a reason, an interrupt by the name of
-- its type, and an exception by the name of its type and its text.
pub data RunError : Type 0 where
  reason : String → RunError
  interrupted_by : String → RunError
  runner_error : String → Detail → RunError

-- A run as Ansible reported it, or one that never started: its drawn identifier, its time, its text.
pub data RecordedRun : Type 0 where
  reported : AnsibleRun → RecordedRun
  unstarted_run : String → ℕ → RunError → RecordedRun

pub record Deployment : Type 0 where
  pub id : String
  pub status : DeploymentStatus
  pub operator : String
  pub check_mode : Bool
  pub release_id : String
  pub host_limit : Option String
  pub rollback_of : Option String
  pub canonical_digest : Option String
  pub created_at : ℕ
  pub started_at : Option ℕ
  pub finished_at : Option ℕ
  pub result : Option RecordedRun
  pub error : Option Detail

abbrev pub DeploymentTable : Type 0
DeploymentTable = List Deployment

unfoldable pub abandoned_run : String → String → ℕ → RecordedRun
abandoned_run draw text now = unstarted_run draw now (reason text)

-- `none` is the ValueError of `require_transition`.
unfoldable pub begin_deployment : ℕ → Deployment → Option Deployment
unfolding is_lawful
begin_deployment now d =
    if is_lawful d.status DeploymentStatus.running
    then some (record d { status = DeploymentStatus.running; started_at = some now })
    else none

unfoldable pub finish_deployment :
    DeploymentStatus → ℕ → Option RecordedRun → Option Detail → Deployment → Option Deployment
unfolding is_final is_lawful
finish_deployment status now result error d =
    if is_final status && is_lawful d.status status
    then some (record d { status = status; finished_at = some now; result = result; error = error })
    else none

unfoldable pub keyed : String → Deployment → Bool
keyed id d = d.id == id

abbrev pub new_deployment :
    String → String → Bool → String → Option String → Option String → Option String → ℕ → Deployment
new_deployment id operator check_mode release_id rollback_of host_limit digest now = record {
  id = id;
  status = DeploymentStatus.queued;
  operator = operator;
  check_mode = check_mode;
  release_id = release_id;
  host_limit = host_limit;
  rollback_of = rollback_of;
  canonical_digest = digest;
  created_at = now;
  started_at = none;
  finished_at = none;
  result = none;
  error = none;
}

unfoldable pub create_deployment :
    String
    → String
    → Bool
    → String
    → Option String
    → Option String
    → Option String
    → ℕ
    → DeploymentTable
    → Option Deployment × DeploymentTable
unfolding keyed
create_deployment id operator check_mode release_id rollback_of host_limit digest now rows =
    let row = new_deployment id operator check_mode release_id rollback_of host_limit digest now in
    if matches (keyed id) rows then (none, rows) else (some row, rows ++ row ∷ [])

-- What `save` writes of `after` to the row.
unfoldable pub saved : Deployment → Deployment → Deployment
saved after row = record row {
  status = after.status;
  started_at = after.started_at;
  finished_at = after.finished_at;
  result = after.result;
  error = after.error;
}

save_row :
    Deployment
    → Deployment
    → Option Deployment
    → DeploymentTable
    → Option Deployment × DeploymentTable
unfolding status_eq saved keyed
save_row before after none rows = (none, rows)
save_row before after (some row) rows =
    if status_eq row.status before.status
    then (some (saved after row), update_where (keyed before.id) (saved after) rows)
    else (none, rows)

-- `none` is the ConflictError, or the ValueError of a change of the identifier.
unfoldable pub save :
    Deployment → Deployment → DeploymentTable → Option Deployment × DeploymentTable
unfolding save_row keyed
save before after rows =
    if after.id == before.id
    then save_row before after (first_where (keyed before.id) rows) rows
    else (none, rows)

unfoldable pub is_running : Deployment → Bool
unfolding status_eq
is_running d = status_eq d.status DeploymentStatus.running

unfoldable pub abandon_running : String → ℕ → DeploymentTable → ℕ × DeploymentTable
unfolding is_running abandoned_run
abandon_running draw now rows = (
  rows_affected is_running rows,
  update_where is_running
      (λ d. record d {
        status = DeploymentStatus.abandoned;
        finished_at = some now;
        result =
            some
              (abandoned_run draw "the controller restarted before this deployment completed" now);
      })
      rows,
)

unfoldable pub finished_check : Deployment → Bool
unfolding is_final
finished_check d = d.check_mode && is_final d.status

unfoldable pub prune_history : ℕ → DeploymentTable → ℕ × DeploymentTable
unfolding finished_check
prune_history keep = drop_surplus (λ d. d.id) finished_check (λ d. d.created_at) keep

unfoldable pub is_fleet_wide : Option String → Bool
is_fleet_wide none = true
is_fleet_wide (some pattern) = false

unfoldable pub can_restore : String → Deployment → Bool
unfolding status_eq is_fleet_wide
can_restore current d =
    status_eq d.status DeploymentStatus.succeeded
    && (not d.check_mode && (not (d.release_id == current) && is_fleet_wide d.host_limit))

unfoldable pub latest_first : Deployment → Deployment → Bool
latest_first a b = leb b.created_at a.created_at

unfoldable pub head : DeploymentTable → Option Deployment
head [] = none
head (d ∷ ds) = some d

-- `none` is the NotFoundError.
unfoldable pub successful_rollback_target : String → DeploymentTable → Option Deployment
unfolding can_restore latest_first head
successful_rollback_target current rows =
    head (order_by latest_first (select_where (can_restore current) rows))
