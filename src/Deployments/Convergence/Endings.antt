-- ===== src/Deployments/Convergence/Endings.antt =====
-- How `converge` of deployments/service/convergence.py reads the outcome of a rollout, and the step
-- that ends a deployment.
use blitze_cdn_cp.Prelude.{
  ℕ, String, List, true, false, not, ◌&&◌, Option, none, some, string_eq, ◌≡◌, refl, ap, ◌⊎◌, inl,
  inr, Bool-cases, arith,
}
use blitze_cdn_cp.Sql.{first_where}
use blitze_cdn_cp.Deployments.Targets.{Detail, PlanError}
use blitze_cdn_cp.Deployments.Rollout
use blitze_cdn_cp.Deployments.Rollout.{
  AnsibleRun, RunStatus, Failure, execution, other, World, RolloutOutcome, Rolled, rolled, escaped,
  unplanned, succeeds,
}
use blitze_cdn_cp.Deployments.History.{
  DeploymentStatus, RecordedRun, Deployment, status_of, status_eq, value, is_final, is_lawful,
  keyed, begin_deployment, finish_deployment,
}
use blitze_cdn_cp.Deployments.Convergence.{
  Shared, Control, Setting, target_status, unclean_status, not_clean, planning_failure, is_success,
}

-- This is the row of the deployment.
abbrev pub IsRow : {I : Type 0} → String → Shared I → Deployment → Type 0
IsRow id s d = first_where (keyed id) s.history ≡ some d

not_clean-failure :
    (r : RunStatus)
    → (not_clean (status_of r) ≡ DeploymentStatus.failed)
      ⊎ (not_clean (status_of r) ≡ DeploymentStatus.timed_out)
unfolding not_clean status_of
not_clean-failure RunStatus.succeeded = inl refl
not_clean-failure RunStatus.failed = inl refl
not_clean-failure RunStatus.timed_out = inr refl
not_clean-failure RunStatus.unstarted = inl refl

unclean-failure :
    (run : Option AnsibleRun)
    → (unclean_status run ≡ DeploymentStatus.failed)
      ⊎ (unclean_status run ≡ DeploymentStatus.timed_out)
unfolding unclean_status
unclean-failure none = inl refl
unclean-failure (some run) = not_clean-failure run.status

-- A deployment ends as its rollout did: succeeded only if this succeeded.
pub target_status-cases :
    (o : RolloutOutcome)
    → ((target_status o ≡ DeploymentStatus.succeeded) × (succeeds o ≡ true))
      ⊎ ((target_status o ≡ DeploymentStatus.failed)
          ⊎ (target_status o ≡ DeploymentStatus.timed_out))
unfolding target_status
target_status-cases o = elim (Bool-cases (succeeds o)) [
  | inl e ↦ rw e (inl (refl, refl))
  | inr e ↦ rw e (inr (unclean-failure o.run))
]

-- The deployment as it ends.
abbrev pub ended : DeploymentStatus → ℕ → RecordedRun → Option Detail → Deployment → Deployment
ended status now run error d = record d {
  status = status;
  finished_at = some now;
  result = some run;
  error = error;
}

pub finish_lawful :
    (status : DeploymentStatus) (now : ℕ) (run : RecordedRun) (error : Option Detail)
    (d : Deployment)
    → is_final status ≡ true
    → is_lawful d.status status ≡ true
    → finish_deployment status now (some run) error d ≡ some (ended status now run error d)
unfolding finish_deployment
finish_lawful status now run error d final lawful = rw (final, lawful) refl

abbrev pub begun : ℕ → Deployment → Deployment
begun now d = record d { status = DeploymentStatus.running; started_at = some now }

pub begin_lawful :
    (now : ℕ) (d : Deployment)
    → is_lawful d.status DeploymentStatus.running ≡ true
    → begin_deployment now d ≡ some (begun now d)
unfolding begin_deployment
begin_lawful now d lawful = rw lawful refl

pub finish_running :
    (o : RolloutOutcome) (now : ℕ) (run : RecordedRun) (d : Deployment)
    → d.status ≡ DeploymentStatus.running
    → finish_deployment (target_status o) now (some run) o.error d
      ≡ some (ended (target_status o) now run o.error d)
unfolding is_final is_lawful
finish_running o now run d running = elim (target_status-cases o) [
  | inl (e, _) ↦
      finish_lawful (target_status o) now run o.error d (rw e refl) (rw (running, e) refl)
  | inr (inl e) ↦
      finish_lawful (target_status o) now run o.error d (rw e refl) (rw (running, e) refl)
  | inr (inr e) ↦
      finish_lawful (target_status o) now run o.error d (rw e refl) (rw (running, e) refl)
]

-- What the rollout of the planned targets answers.
unfoldable pub rollout_of : {I : Type 0} → Setting I → Deployment → List String → Control I → Rolled
rollout_of set d planned c = (Rollout.converge set.out d.id planned d.check_mode c.world).0

-- The failure is no ExecutionError, or it is the one that the rollout let through.
unfoldable pub Explains : Rolled → Failure → Type 0
Explains rolling f = (text : Detail) → f ≡ execution text → rolling ≡ escaped (execution text)

pub other-Explains :
    (rolling : Rolled) (type : String) (text : Detail) → Explains rolling (other type text)
unfolding Explains
other-Explains rolling type text = λ text e. absurd (cc e)

pub escaped-Explains : (f : Failure) → Explains (escaped f) f
unfolding Explains
escaped-Explains f = λ text e. ap escaped e

pub planning-Explains : (rolling : Rolled) (e : PlanError) → Explains rolling (planning_failure e)
unfolding planning_failure
planning-Explains rolling PlanError.not_found =
    other-Explains rolling "NotFoundError" (Detail.said "not found")
planning-Explains rolling PlanError.stale =
    other-Explains rolling "ConflictError" (Detail.said "conflict")
planning-Explains rolling PlanError.repeated =
    other-Explains rolling "IntegrityError" (Detail.said "UNIQUE constraint failed")

succeeds-is_success : (o : RolloutOutcome) → is_success (target_status o) ≡ true → succeeds o ≡ true
unfolding is_success status_eq value
succeeds-is_success o h = elim (target_status-cases o) [
  | inl (_, win) ↦ win
  | inr (inl e) ↦ absurd (cc (rw e at h))
  | inr (inr e) ↦ absurd (cc (rw e at h))
]

is_success-eq :
    (status : DeploymentStatus) → is_success status ≡ true → status ≡ DeploymentStatus.succeeded
unfolding is_success status_eq value
is_success-eq DeploymentStatus.queued h = absurd (cc h)
is_success-eq DeploymentStatus.running h = absurd (cc h)
is_success-eq DeploymentStatus.succeeded h = refl
is_success-eq DeploymentStatus.failed h = absurd (cc h)
is_success-eq DeploymentStatus.timed_out h = absurd (cc h)
is_success-eq DeploymentStatus.abandoned h = absurd (cc h)

pub finish-cases :
    (status : DeploymentStatus) (now : ℕ) (run : RecordedRun) (error : Option Detail)
    (d : Deployment)
    → (finish_deployment status now (some run) error d ≡ none)
      ⊎ (finish_deployment status now (some run) error d ≡ some (ended status now run error d))
unfolding finish_deployment
finish-cases status now run error d =
    elim (Bool-cases (is_final status && is_lawful d.status status)) [
      | inl e ↦ inr (rw e refl)
      | inr e ↦ inl (rw e refl)
    ]

pub clears_facts :
    (o : RolloutOutcome) (d : Deployment)
    → (is_success (target_status o) && not d.check_mode) ≡ true
    → (target_status o ≡ DeploymentStatus.succeeded) × (succeeds o ≡ true) × (d.check_mode ≡ false)
clears_facts o d h =
    let won : is_success (target_status o) ≡ true = ground arith in
    (is_success-eq (target_status o) won, succeeds-is_success o won, ground arith)

pub check_facts :
    (o : RolloutOutcome) (d : Deployment)
    → (is_success (target_status o) && not d.check_mode) ≡ false
    → target_status o ≡ DeploymentStatus.succeeded
    → d.check_mode ≡ true
unfolding is_success status_eq value
check_facts o d h won =
    let success : is_success (target_status o) ≡ true = rw won refl in ground arith
