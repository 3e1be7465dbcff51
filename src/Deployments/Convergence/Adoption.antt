-- ===== src/Deployments/Convergence/Adoption.antt =====
-- The adoption of a rollback of deployments/service/rollback.py in `converge` of
-- deployments/service/convergence.py, and the requirement that a deployment clears.
use blitze_cdn_cp.Prelude.{
  ℕ, Bool, true, false, not, ◌&&◌, Option, none, some, ◌≡◌, refl, sym, ◌∙◌, ◌⊎◌, inl, inr,
  Bool-cases,
}
use blitze_cdn_cp.Deployments.Targets.{Detail}
use blitze_cdn_cp.Deployments.Rollout.{
  Failure, execution, other, RolloutOutcome, Rolled, rolled, escaped, unplanned, succeeds,
}
use blitze_cdn_cp.Deployments.History.{
  DeploymentStatus, RecordedRun, Deployment, saved, finish_deployment,
}
use blitze_cdn_cp.Deployments.History.Saving.{save-cases}
use blitze_cdn_cp.Deployments.Convergence.{
  Releases, Shared, failure, Ran, returned, raised, Readings, Transacted, commits, aborts, Adopted,
  adopted, refused, target_status, is_success, is_named, save_step, saved_row, cleared,
  adopt_inputs, adopt_found, is_unchanged, adopts_rollback, finish_adopted, complete_rollout,
  fail_convergence, after_failure, after_completion, after_rollout, run_of, aborted_run,
  planning_failure, is_interrupt,
}
use blitze_cdn_cp.Deployments.Convergence.Endings.{ended, finish-cases, clears_facts, check_facts}

module _ {I : Type 0} where
  -- The canonical state and the requirement are as they were.
  unfoldable pub Untouched : Shared I → Shared I → Type 0
  Untouched s s' = (s'.canonical ≡ s.canonical) × (s'.required ≡ s.required)

  Steps : DeploymentStatus → Shared I → Transacted I → Type 0
  Steps status s (aborts f) = Unit
  Steps status s (commits d s') = (d.status ≡ status) × Untouched s s'

  save_step-Steps :
      (d : Deployment) (status : DeploymentStatus) (now : ℕ) (run : RecordedRun)
      (error : Option Detail) (s : Shared I)
      → Steps status s (save_step d (finish_deployment status now (some run) error d) s)
  unfolding Steps Untouched save_step saved_row saved
  save_step-Steps d status now run error s = elim (finish-cases status now run error d) [
    | inl e ↦ rw e tt
    | inr e ↦ elim (save-cases d (ended status now run error d) s.history) [
      | inl n ↦ rw (e, n) tt
      | inr (row, rows, y) ↦ rw (e, y) (refl, (refl, refl))
    ]
  ]

  -- Nothing is touched, and a deployment that is returned succeeded was a check.
  unfoldable pub Unapplied : Deployment → Shared I → Ran × Shared I → Type 0
  unfolding Untouched
  Unapplied d s (raised exc, s') = Untouched s s'
  Unapplied d s (returned d', s') =
      Untouched s s' × (d'.status ≡ DeploymentStatus.succeeded → d.check_mode ≡ true)

  after_failure-Unapplied :
      (d : Deployment) (f : Failure) (step : Transacted I) (s : Shared I)
      → Steps DeploymentStatus.failed s step
      → Unapplied d s (after_failure (failure f) step s)
  unfolding Steps Untouched after_failure Unapplied
  after_failure-Unapplied d f (aborts g) s h = (refl, refl)
  after_failure-Unapplied d (execution text) (commits d' s') s h = h.1
  after_failure-Unapplied d (other type text) (commits d' s') s (failed, kept) =
      (kept, λ won. absurd (cc (sym failed ∙ won)))

  fail-Unapplied :
      (at : Readings) (d : Deployment) (f : Failure) (s : Shared I)
      → Unapplied d s (fail_convergence at d (failure f) s)
  unfolding fail_convergence is_interrupt
  fail-Unapplied at d f s =
      let run = aborted_run at.failed_id at.failed (failure f) in
      after_failure-Unapplied d f
        (save_step d (finish_deployment DeploymentStatus.failed at.failed (some run) none d) s) s
        (save_step-Steps d DeploymentStatus.failed at.failed run none s)

  -- A deployment that was returned succeeded, and was not a check: the requirement is cleared, and the
  -- canonical state is the one before, or for a rollback the one that its release was compiled from,
  -- provided that the one before was still the one that the rollback was admitted with.
  unfoldable pub Applied : Releases I → Deployment → Rolled → Shared I → Ran × Shared I → Type 0
  Applied releases d rolling s (raised exc, s') = ⊥
  Applied releases d rolling s (returned d', s') =
      (d'.status ≡ DeploymentStatus.succeeded)
      × ((o : RolloutOutcome) × (rolling ≡ rolled o) × (succeeds o ≡ true))
      × (d.check_mode ≡ false)
      × (s'.required ≡ false)
      × (((is_named d.rollback_of ≡ false) × (s'.canonical ≡ s.canonical))
          ⊎ ((is_named d.rollback_of ≡ true)
              × (is_unchanged releases d s.canonical ≡ true)
              × (releases.inputs_for d.release_id ≡ some s'.canonical)))

  -- What the adoption gives, by whether it adopts.
  Adopts : Releases I → Deployment → Bool → Shared I → Adopted I → Type 0
  Adopts releases d adopts s (refused f) = Unit
  Adopts releases d false s (adopted s') = Untouched s s'
  Adopts releases d true s (adopted s') =
      (is_unchanged releases d s.canonical ≡ true)
      × (releases.inputs_for d.release_id ≡ some s'.canonical)

  adopt_found-Adopts :
      (releases : Releases I) (d : Deployment) (s : Shared I) (i : Option I)
      → is_unchanged releases d s.canonical ≡ true
      → releases.inputs_for d.release_id ≡ i
      → Adopts releases d true s (adopt_found i s)
  unfolding Adopts adopt_found
  adopt_found-Adopts releases d s none same e = tt
  adopt_found-Adopts releases d s (some i) same e = (same, e)

  adopt_inputs-Adopts :
      (releases : Releases I) (d : Deployment) (adopts : Bool) (s : Shared I)
      → Adopts releases d adopts s (adopt_inputs releases d adopts s)
  unfolding Adopts adopt_inputs Untouched
  adopt_inputs-Adopts releases d false s = (refl, refl)
  adopt_inputs-Adopts releases d true s = elim (Bool-cases (is_unchanged releases d s.canonical)) [
    | inl e ↦ rw e (adopt_found-Adopts releases d s (releases.inputs_for d.release_id) e refl)
    | inr e ↦ rw e tt
  ]

  module _ (releases : Releases I) (at : Readings) (d : Deployment) (o : RolloutOutcome)
      (s : Shared I) where
    -- Either nothing is touched, or the outcome is applied.
    Atomic : Rolled → Ran × Shared I → Type 0
    Atomic rolling ended = Unapplied d s ended ⊎ Applied releases d rolling s ended

    failed-Atomic :
        (rolling : Rolled) (f : Failure) → Atomic rolling (fail_convergence at d (failure f) s)
    unfolding Atomic
    failed-Atomic rolling f = inl (fail-Unapplied at d f s)

    cleared-Atomic :
        (named clears : Bool) (s1 : Shared I) (step : Transacted I)
        → is_named d.rollback_of ≡ named
        → (is_success (target_status o) && not d.check_mode) ≡ clears
        → Adopts releases d (named && clears) s (adopted s1)
        → Steps (target_status o) s1 step
        → Atomic (rolled o) (after_completion at d (cleared clears step) s)
    unfolding Unapplied Atomic cleared after_completion Steps Adopts Untouched Applied
    cleared-Atomic named clears s1 (aborts f) is e a steps = failed-Atomic (rolled o) f
    cleared-Atomic false false s1 (commits d' s') is e (a, b) (st, (same, kept)) =
        inl ((same ∙ a, kept ∙ b), λ won. check_facts o d e (sym st ∙ won))
    cleared-Atomic true false s1 (commits d' s') is e (a, b) (st, (same, kept)) =
        inl ((same ∙ a, kept ∙ b), λ won. check_facts o d e (sym st ∙ won))
    cleared-Atomic true true s1 (commits d' s') is e (unchanged, found) (st, (same, kept)) =
        let (won, succ, checked) = clears_facts o d e in
        inr (st ∙ won, (o, refl, succ), checked, refl, inr (is, unchanged, rw same found))
    cleared-Atomic false true s1 (commits d' s') is e (a, b) (st, (same, kept)) =
        let (won, succ, checked) = clears_facts o d e in
        inr (st ∙ won, (o, refl, succ), checked, refl, inl (is, same ∙ a))

    finish-Atomic :
        (a : Adopted I)
        → Adopts releases d (adopts_rollback d (target_status o)) s a
        → Atomic (rolled o) (after_completion at d (finish_adopted at d o a) s)
    unfolding finish_adopted after_completion adopts_rollback
    finish-Atomic (refused f) a = failed-Atomic (rolled o) f
    finish-Atomic (adopted s1) a =
        cleared-Atomic (is_named d.rollback_of) (is_success (target_status o) && not d.check_mode)
          s1
          (save_step d
            (finish_deployment (target_status o) at.finished
              (some (run_of at.unstarted_id at.unstarted o)) o.error d)
            s1)
          refl refl a
          (save_step-Steps d (target_status o) at.finished (run_of at.unstarted_id at.unstarted o)
            o.error s1)

  -- What a convergence makes of its rollout is applied as a whole or not at all. Either the canonical
  -- state and the requirement of a deployment are as they were, and a deployment that is returned
  -- succeeded was a check. Or the deployment is returned succeeded, the rollout succeeded and was not a
  -- check, the requirement is cleared, and the canonical state is as it was if the deployment is not a
  -- rollback; if it is one, the state had the digest it was admitted with, if it has one, and is now the
  -- one of the release.
  pub after_rollout-Atomic :
      (releases : Releases I) (at : Readings) (d : Deployment) (rolling : Rolled) (s : Shared I)
      → let ended = after_rollout releases at d rolling s in
        Unapplied d s ended ⊎ Applied releases d rolling s ended
  unfolding after_rollout complete_rollout Atomic
  after_rollout-Atomic releases at d (rolled o) s =
      finish-Atomic releases at d o s
        (adopt_inputs releases d (adopts_rollback d (target_status o)) s)
        (adopt_inputs-Adopts releases d (adopts_rollback d (target_status o)) s)
  after_rollout-Atomic releases at d (escaped f) s = inl (fail-Unapplied at d f s)
  after_rollout-Atomic releases at d (unplanned e) s =
      inl (fail-Unapplied at d (planning_failure e) s)
