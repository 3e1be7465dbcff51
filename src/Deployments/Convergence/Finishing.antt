-- ===== src/Deployments/Convergence/Finishing.antt =====
-- How `converge` of deployments/service/convergence.py leaves the row of its deployment.
use blitze_cdn_cp.Prelude.{
  String, List, [], ◌∷◌, Bool, true, false, not, ◌&&◌, Option, none, some, string_eq, ◌≡◌, refl,
  sym, ◌∙◌, ◌⊎◌, inl, inr, Bool-cases,
}
use blitze_cdn_cp.Sql.{first_where, update_where}
use blitze_cdn_cp.Deployments.Targets.{Detail}
use blitze_cdn_cp.Deployments.Rollout.{
  Failure, execution, other, RolloutOutcome, Rolled, rolled, escaped, unplanned, succeeds,
}
use blitze_cdn_cp.Deployments.History.{
  DeploymentStatus, Deployment, status_eq, value, is_final, is_lawful, keyed, saved,
}
use blitze_cdn_cp.Deployments.History.Saving.{save_found, saved_found}
use blitze_cdn_cp.Deployments.Convergence.{
  Releases, Shared, Control, Interrupt, failure, interrupt, Ran, attempt_or_cut, returned, raised,
  Readings, Setting, commits, Adopted, adopted, refused, target_status, save_step, cleared,
  adopt_inputs, adopt_found, is_unchanged, adopts_rollback, finish_adopted, complete_rollout,
  fail_convergence, after_failure, after_completion, after_rollout, planned_edges, roll_planned,
  attempt, after_start, converge, run_of, is_interrupt, aborted_run, planning_failure,
  configuration_error, not_found_error, removed_edges, is_success,
}
use blitze_cdn_cp.Deployments.Convergence.Endings.{
  IsRow, target_status-cases, ended, finish_lawful, begun, begin_lawful, finish_running, rollout_of,
  Explains, other-Explains, escaped-Explains, planning-Explains,
}

module _ {I : Type 0} where
  -- The answer of a transaction that saves a step of the row that is there.
  save_step_found :
      (d after : Deployment) (s : Shared I)
      → IsRow d.id s d
      → after.id ≡ d.id
      → (s' : Shared I) × (save_step d (some after) s ≡ commits (saved after d) s')
        × IsRow d.id s' (saved after d)
        × (s'.required ≡ s.required)
        × (s'.canonical ≡ s.canonical)
  unfolding save_step
  save_step_found d after s h same = (
    record s { history = update_where (keyed d.id) (saved after) s.history },
    rw (save_found d after s.history h same) refl,
    saved_found d after s.history h,
    refl,
    refl,
  )

  -- What is left of a convergence that is not interrupted: an answer whose row is the deployment that is returned, finished,
  -- and succeeded only if the rollout succeeded; or an ExecutionError that the rollout let through, and a
  -- row that failed.
  unfoldable pub Completes : String → Rolled → Ran × Shared I → Type 0
  Completes id rolling (returned d, s) =
      IsRow id s d
      × (is_final d.status ≡ true)
      × (d.status ≡ DeploymentStatus.succeeded
          → (o : RolloutOutcome) × (rolling ≡ rolled o) × (succeeds o ≡ true))
  Completes id rolling (raised exc, s) =
      ((row : Deployment) × IsRow id s row × (row.status ≡ DeploymentStatus.failed))
      × ((text : Detail) × (rolling ≡ escaped (execution text)) × (exc ≡ failure (execution text)))

  failed_row-Completes :
      (id : String) (rolling : Rolled) (f : Failure) (d : Deployment) (s' s : Shared I)
      → Explains rolling f
      → IsRow id s' d
      → d.status ≡ DeploymentStatus.failed
      → Completes id rolling (after_failure (failure f) (commits d s') s)
  unfolding Completes after_failure is_final Explains
  failed_row-Completes id rolling (execution text) d s' s why row e =
      ((d, row, e), (text, why text refl, refl))
  failed_row-Completes id rolling (other type text) d s' s why row e =
      (row, rw e refl, λ win. absurd (cc (sym e ∙ win)))

  -- The history is as it was, or the refusal is no ExecutionError.
  KeepsHistory : Shared I → Adopted I → Type 0
  KeepsHistory s (refused f) = (rolling : Rolled) → Explains rolling f
  KeepsHistory s (adopted s') = s'.history ≡ s.history

  adopt_found-KeepsHistory : (i : Option I) (s : Shared I) → KeepsHistory s (adopt_found i s)
  unfolding KeepsHistory adopt_found
  adopt_found-KeepsHistory none s =
      λ rolling. other-Explains rolling "NotFoundError" (Detail.said "not found")
  adopt_found-KeepsHistory (some i) s = refl

  adopt_inputs-KeepsHistory :
      (releases : Releases I) (d : Deployment) (adopts : Bool) (s : Shared I)
      → KeepsHistory s (adopt_inputs releases d adopts s)
  unfolding KeepsHistory adopt_inputs
  adopt_inputs-KeepsHistory releases d false s = refl
  adopt_inputs-KeepsHistory releases d true s =
      elim (Bool-cases (is_unchanged releases d s.canonical)) [
        | inl e ↦ rw e (adopt_found-KeepsHistory (releases.inputs_for d.release_id) s)
        | inr e ↦ rw e (λ rolling. other-Explains rolling "ConflictError" (Detail.said "conflict"))
      ]

  module _ (at : Readings) (d : Deployment) (running : d.status ≡ DeploymentStatus.running) where
    failed-Completes :
        (rolling : Rolled) (f : Failure) (s : Shared I)
        → Explains rolling f
        → IsRow d.id s d
        → Completes d.id rolling (fail_convergence at d (failure f) s)
    unfolding fail_convergence is_final is_lawful is_interrupt saved
    failed-Completes rolling f s why h =
        let run = aborted_run at.failed_id at.failed (failure f) in
        let after = ended DeploymentStatus.failed at.failed run none d in
        let (s', e, row, _, _) = save_step_found d after s h refl in
        let step =
          finish_lawful DeploymentStatus.failed at.failed run none d refl (rw running refl) in
        rw (step, e) (failed_row-Completes d.id rolling f (saved after d) s' s why row refl)

    won-Completes :
        (o : RolloutOutcome) (d' : Deployment) (s : Shared I)
        → d'.status ≡ target_status o
        → IsRow d.id s d'
        → Completes d.id (rolled o) (returned d', s)
    unfolding Completes is_final
    won-Completes o d' s same row = elim (target_status-cases o) [
      | inl (e, win) ↦ (row, rw (same, e) refl, λ _. (o, refl, win))
      | inr (inl e) ↦ (row, rw (same, e) refl, λ lost. absurd (cc (sym e ∙ sym same ∙ lost)))
      | inr (inr e) ↦ (row, rw (same, e) refl, λ lost. absurd (cc (sym e ∙ sym same ∙ lost)))
    ]

    cleared-Completes :
        (o : RolloutOutcome) (clears : Bool) (d' : Deployment) (s s0 : Shared I)
        → d'.status ≡ target_status o
        → IsRow d.id s d'
        → Completes d.id (rolled o) (after_completion at d (cleared clears (commits d' s)) s0)
    unfolding cleared after_completion
    cleared-Completes o true d' s s0 same row =
        won-Completes o d' (record s { required = false }) same row
    cleared-Completes o false d' s s0 same row = won-Completes o d' s same row

    adopted-Completes :
        (o : RolloutOutcome) (a : Adopted I) (s : Shared I)
        → KeepsHistory s a
        → IsRow d.id s d
        → Completes d.id (rolled o) (after_completion at d (finish_adopted at d o a) s)
    unfolding finish_adopted after_completion KeepsHistory saved
    adopted-Completes o (refused f) s keeps h = failed-Completes (rolled o) f s (keeps (rolled o)) h
    adopted-Completes o (adopted s1) s keeps h =
        let run = run_of at.unstarted_id at.unstarted o in
        let after = ended (target_status o) at.finished run o.error d in
        let (s', e, row, _, _) = save_step_found d after s1 (rw keeps h) refl in
        rw (finish_running o at.finished run d running, e)
          (cleared-Completes o (is_success (target_status o) && not d.check_mode) (saved after d) s'
            s refl row)

    after_rollout-Completes :
        (releases : Releases I) (rolling : Rolled) (s : Shared I)
        → IsRow d.id s d
        → Completes d.id rolling (after_rollout releases at d rolling s)
    unfolding after_rollout complete_rollout
    after_rollout-Completes releases (rolled o) s h =
        adopted-Completes o (adopt_inputs releases d (adopts_rollback d (target_status o)) s) s
          (adopt_inputs-KeepsHistory releases d (adopts_rollback d (target_status o)) s) h
    after_rollout-Completes releases (escaped f) s h =
        failed-Completes (escaped f) f s (escaped-Explains f) h
    after_rollout-Completes releases (unplanned e) s h =
        failed-Completes (unplanned e) (planning_failure e) s (planning-Explains (unplanned e) e) h

    module _ (set : Setting I) (c : Control I) (h : IsRow d.id c.shared d) where
      roll_planned-Completes :
          (planned removed : List String)
          → IsRow d.id (set.during c.shared) d
          → let (ran, c') = roll_planned set at d planned removed c in
            Completes d.id (rollout_of set d planned c) (ran, c'.shared)
      unfolding roll_planned rollout_of
      roll_planned-Completes planned [] later =
          after_rollout-Completes set.releases (rollout_of set d planned c) (set.during c.shared)
            later
      roll_planned-Completes planned (edge ∷ edges) later =
          failed-Completes (rollout_of set d planned c) configuration_error c.shared
            (other-Explains (rollout_of set d planned c) "ConfigurationError"
              (Detail.said "deployment targets were removed after admission"))
            h

      attempt-Completes :
          IsRow d.id (set.during c.shared) d
          → let (ran, c') = attempt set at d c in
            Completes d.id (rollout_of set d (planned_edges d c) c) (ran, c'.shared)
      unfolding attempt
      attempt-Completes later = elim (Bool-cases (set.releases.known d.release_id)) [
        | inl e ↦ rw e (
            roll_planned-Completes (planned_edges d c)
              (removed_edges (planned_edges d c) set.selected) later)
        | inr e ↦ rw e (
            failed-Completes (rollout_of set d (planned_edges d c) c) not_found_error c.shared
              (other-Explains (rollout_of set d (planned_edges d c) c) "NotFoundError"
                (Detail.said "not found"))
              h)
      ]

  -- What is left of a convergence that this interrupt cuts short, if it is one: the interrupt is raised,
  -- and the row is abandoned.
  unfoldable pub Finished : String → Option Interrupt → Rolled → Ran × Shared I → Type 0
  unfolding Completes
  Finished id none rolling result = Completes id rolling result
  Finished id (some cut) rolling (returned d, s) = ⊥
  Finished id (some cut) rolling (raised exc, s) =
      ((row : Deployment) × IsRow id s row × (row.status ≡ DeploymentStatus.abandoned))
      × (exc ≡ interrupt cut.name)

  module _ (set : Setting I) (at : Readings) (d : Deployment)
      (running : d.status ≡ DeploymentStatus.running) (c : Control I) (h : IsRow d.id c.shared d)
      (later : IsRow d.id (set.during c.shared) d) where
    cut_short-Finished :
        (cut : Option Interrupt)
        → let (ran, c') = attempt_or_cut set at d cut c in
          Finished d.id cut (rollout_of set d (planned_edges d c) c) (ran, c'.shared)
    unfolding attempt_or_cut Finished fail_convergence after_failure is_final is_lawful is_interrupt
        saved
    cut_short-Finished none = attempt-Completes at d running set c h later
    cut_short-Finished (some cut) =
        let s = set.during c.shared in
        let run = aborted_run at.failed_id at.failed (interrupt cut.name) in
        let after = ended DeploymentStatus.abandoned at.failed run none d in
        let (s', e, row, _, _) = save_step_found d after s later refl in
        let step =
          finish_lawful DeploymentStatus.abandoned at.failed run none d refl (rw running refl) in
        rw (step, e) ((saved after d, row, refl), refl)

  -- Other processes leave the row of the deployment.
  unfoldable pub LeavesRow : String → (Shared I → Shared I) → Type 0
  LeavesRow id during =
      (s : Shared I) → first_where (keyed id) (during s).history ≡ first_where (keyed id) s.history

  -- `converge` of a deployment that is queued or running, and is what the history holds of it, while
  -- other processes leave its row, ends the deployment. If an interrupt cuts it short, the interrupt is
  -- raised and the row is abandoned. Otherwise either it returns a deployment that is the row of the
  -- history, in a final status, and succeeded only if the rollout of the planned targets answered an
  -- outcome that succeeds; or it raises, and then the row failed, and what it raises is an
  -- ExecutionError that the rollout let through.
  pub converge-Finished :
      (set : Setting I) (at : Readings) (d : Deployment) (c : Control I)
      → IsRow d.id c.shared d
      → (d.status ≡ DeploymentStatus.queued) ⊎ (d.status ≡ DeploymentStatus.running)
      → LeavesRow d.id set.during
      → let (ran, c') = converge set at d c in
        Finished d.id set.interrupted (rollout_of set d (planned_edges d c) c) (ran, c'.shared)
  unfolding converge is_lawful after_start LeavesRow status_eq value saved rollout_of planned_edges
  converge-Finished set at d c h (inr running) leaves =
      let second : status_eq d.status DeploymentStatus.queued ≡ false = rw running refl in
      rw second (cut_short-Finished set at d running c h (leaves c.shared ∙ h) set.interrupted)
  converge-Finished set at d c h (inl queued) leaves =
      let after = begun at.started d in
      let (s', e, row, _, _) = save_step_found d after c.shared h refl in
      let step = begin_lawful at.started d (rw queued refl) in
      let d1 = saved after d in
      let first : status_eq d.status DeploymentStatus.queued ≡ true = rw queued refl in
      rw (first, step, e)
        (cut_short-Finished set at d1 refl (record c { shared = s' }) row (leaves s' ∙ row)
          set.interrupted)
