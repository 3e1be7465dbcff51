-- ===== src/Deployments/Convergence.antt =====
-- deployments/service/convergence.py, with the adoption of deployments/service/rollback.py: the
-- rollout of one deployment, its result, and what becomes of a failure. The canonical state (zones,
-- rules, records and settings) is a parameter with its digest, and so are the releases. Audit events
-- and log lines are left out.
pub mod Outcomes
pub mod Endings
pub mod Finishing
pub mod Adoption
mod Examples
unfoldable pub use Outcomes.*
use blitze_cdn_cp.Prelude.{
  ℕ, ◌+◌, String, List, [], ◌∷◌, map, Bool, true, false, not, ◌&&◌, Option, none, some, ◌==◌,
  string_eq, if◌then◌else◌,
}
use blitze_cdn_cp.Sql.{select_where, matches}
use blitze_cdn_cp.Deployments.Targets.{Detail, Fleet, PlanError, targets}
use blitze_cdn_cp.Deployments.Rollout.{
  AnsibleRun, Failure, execution, other, Outside, World, RolloutOutcome, Rolled, rolled, escaped,
  unplanned, succeeds, text_of,
}
use blitze_cdn_cp.Deployments.Rollout
use blitze_cdn_cp.Deployments.History.{
  DeploymentStatus, RecordedRun, reported, unstarted_run, RunError, interrupted_by, runner_error,
  Deployment, DeploymentTable, status_of, status_eq, begin_deployment, finish_deployment, save,
}

module _ {I : Type 0} where
  saved_row : Option Deployment × DeploymentTable → Shared I → Transacted I
  saved_row (none, rows) s = aborts conflict_error
  saved_row (some d, rows) s = commits d (record s { history = rows })

  -- save(before, after), where `after` is what the transition gives.
  unfoldable pub save_step : Deployment → Option Deployment → Shared I → Transacted I
  unfolding saved_row save
  save_step before none s = aborts value_error
  save_step before (some after) s = saved_row (save before after s.history) s

  cleared : Bool → Transacted I → Transacted I
  cleared clears (aborts f) = aborts f
  cleared clears (commits d s) = commits d (if clears then record s { required = false } else s)

  -- require_unchanged_canonical
  unfoldable pub is_unchanged : Releases I → Deployment → I → Bool
  is_unchanged releases d canonical = elim d.canonical_digest [
    | none ↦ true
    | some digest ↦ releases.digest canonical == digest
  ]

  adopt_found : Option I → Shared I → Adopted I
  adopt_found none s = refused not_found_error
  adopt_found (some inputs) s = adopted (record s { canonical = inputs })

  -- The first part of the transaction: a successful rollback adopts the inputs of its release.
  unfoldable pub adopt_inputs : Releases I → Deployment → Bool → Shared I → Adopted I
  unfolding adopt_found is_unchanged
  adopt_inputs releases d adopts s =
      if not adopts
      then adopted s
      else (if is_unchanged releases d s.canonical
          then adopt_found (releases.inputs_for d.release_id) s
          else refused conflict_error)

  finish_adopted : Readings → Deployment → RolloutOutcome → Adopted I → Transacted I
  unfolding cleared save_step finish_deployment target_status run_of is_success
  finish_adopted at d o (refused f) = aborts f
  finish_adopted at d o (adopted s) =
      let status = target_status o in
      cleared (is_success status && not d.check_mode) (
        save_step d
          (finish_deployment status at.finished (some (run_of at.unstarted_id at.unstarted o))
            o.error d)
          s)

  unfoldable pub complete_rollout :
      Releases I → Readings → Deployment → RolloutOutcome → Shared I → Transacted I
  unfolding finish_adopted adopt_inputs adopts_rollback target_status
  complete_rollout releases at d o s =
      finish_adopted at d o (adopt_inputs releases d (adopts_rollback d (target_status o)) s)

  after_failure : Exc → Transacted I → Shared I → Ran × Shared I
  after_failure exc (aborts f) s = (raised (failure f), s)
  after_failure (interrupt type) (commits d s') s = (raised (interrupt type), s')
  after_failure (failure (execution text)) (commits d s') s =
      (raised (failure (execution text)), s')
  after_failure (failure (other type text)) (commits d s') s = (returned d, s')

  -- _fail_convergence, and what `converge` does behind it.
  unfoldable pub fail_convergence : Readings → Deployment → Exc → Shared I → Ran × Shared I
  unfolding after_failure save_step finish_deployment aborted_run is_interrupt
  fail_convergence at d exc s =
      let status =
        if is_interrupt exc then DeploymentStatus.abandoned else DeploymentStatus.failed in
      after_failure exc
        (save_step d
          (finish_deployment status at.failed (some (aborted_run at.failed_id at.failed exc)) none
            d)
          s)
        s

  after_completion : Readings → Deployment → Transacted I → Shared I → Ran × Shared I
  unfolding fail_convergence
  after_completion at d (commits d' s') s = (returned d', s')
  after_completion at d (aborts f) s = fail_convergence at d (failure f) s

  unfoldable pub after_rollout :
      Releases I → Readings → Deployment → Rolled → Shared I → Ran × Shared I
  unfolding after_completion complete_rollout fail_convergence planning_failure
  after_rollout releases at d (rolled o) s =
      after_completion at d (complete_rollout releases at d o s) s
  after_rollout releases at d (escaped f) s = fail_convergence at d (failure f) s
  after_rollout releases at d (unplanned e) s =
      fail_convergence at d (failure (planning_failure e)) s

  unfoldable pub planned_edges : Deployment → Control I → List String
  planned_edges d c = map (λ t. t.edge) (targets d.id c.world.db)

  roll_planned :
      Setting I → Readings → Deployment → List String → List String → Control I → Ran × Control I
  unfolding after_rollout fail_convergence
  roll_planned set at d planned (edge ∷ edges) c =
      let (ran, s) = fail_convergence at d (failure configuration_error) c.shared in
      (ran, record c { shared = s })
  roll_planned set at d planned [] c =
      let (ended, w) = Rollout.converge set.out d.id planned d.check_mode c.world in
      let (ran, s) = after_rollout set.releases at d ended (set.during c.shared) in
      (ran, record { shared = s; world = w })

  -- The `try` of `converge`, if no interrupt comes.
  unfoldable pub attempt : Setting I → Readings → Deployment → Control I → Ran × Control I
  unfolding roll_planned removed_edges planned_edges fail_convergence
  attempt set at d c =
      if set.releases.known d.release_id
      then (let planned = planned_edges d c in
          roll_planned set at d planned (removed_edges planned set.selected) c)
      else (let (ran, s) = fail_convergence at d (failure not_found_error) c.shared in
          (ran, record c { shared = s }))

  -- What is raised in the `try` and caught as a BaseException is recorded too.
  unfoldable pub attempt_or_cut :
      Setting I → Readings → Deployment → Option Interrupt → Control I → Ran × Control I
  unfolding attempt fail_convergence
  attempt_or_cut set at d none c = attempt set at d c
  attempt_or_cut set at d (some cut) c =
      let (ran, s) = fail_convergence at d (interrupt cut.name) (set.during c.shared) in
      (ran, record { shared = s; world = cut.leaves c.world })

  after_start : Setting I → Readings → Transacted I → Control I → Ran × Control I
  unfolding attempt_or_cut
  after_start set at (aborts f) c = (raised (failure f), c)
  after_start set at (commits d s) c =
      attempt_or_cut set at d set.interrupted (record c { shared = s })

  unfoldable pub converge : Setting I → Readings → Deployment → Control I → Ran × Control I
  unfolding after_start save_step begin_deployment status_eq attempt_or_cut
  converge set at d c =
      if status_eq d.status DeploymentStatus.queued
      then after_start set at (save_step d (begin_deployment at.started d) c.shared) c
      else attempt_or_cut set at d set.interrupted c
