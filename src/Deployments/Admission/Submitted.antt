-- ===== src/Deployments/Admission/Submitted.antt =====
-- A deployment that `_queue` of deployments/service/convergence.py admits, up to its end.
use blitze_cdn_cp.Prelude.{
  ℕ, String, [], ◌∷◌, ◌++◌, Bool, true, false, ◌&&◌, Option, none, some, if◌then◌else◌, string_eq,
  ◌≡◌, refl, sym, subst, inl, inr, Bool-cases,
}
use blitze_cdn_cp.Sql.{delete_where, first_where, matches, drop_surplus, surplus}
use blitze_cdn_cp.Sql.Laws.{first_where-snoc, first_where-select_where}
use blitze_cdn_cp.Deployments.Targets.{Fleet, PlanError, plan}
use blitze_cdn_cp.Deployments.History.{
  DeploymentStatus, Deployment, DeploymentTable, keyed, new_deployment, create_deployment,
  prune_history, finished_check, is_final,
}
use blitze_cdn_cp.Deployments.Convergence.{Setting, Readings, Control, planned_edges, converge}
use blitze_cdn_cp.Deployments.Convergence.Endings.{IsRow, rollout_of}
use blitze_cdn_cp.Deployments.Convergence.Finishing.{Finished, LeavesRow, converge-Finished}
use blitze_cdn_cp.Deployments.Admission.{
  Admission, Ledger, Admitted, admitted, turned_away, with_row, cascade, after_job, after_plan,
  after_create, has_references, queue,
}

-- A deployment that is queued is not pruned.
prune-keeps :
    (keep : ℕ) (id : String) (d : Deployment) (rows : DeploymentTable)
    → d.status ≡ DeploymentStatus.queued
    → first_where (keyed id) rows ≡ some d
    → first_where (keyed id) (prune_history keep rows).1 ≡ some d
unfolding prune_history drop_surplus delete_where surplus finished_check is_final
prune-keeps keep id d rows queued h =
    let unfinished : finished_check d ≡ false = rw queued (never d.check_mode) in
    first_where-select_where (keyed id) _ rows h (rw unfinished refl)
  where
    never : (b : Bool) → (b && false) ≡ false
    never true = refl
    never false = refl

module _ {Q : Type 0} (enqueue : String → Q → Option Q) where
  -- What was admitted is the queued row of its identifier.
  Queued : String → Admitted Q → Type 0
  Queued id (turned_away r) = Unit
  Queued id (admitted d s) =
      (d.id ≡ id)
      × (d.status ≡ DeploymentStatus.queued)
      × (first_where (keyed id) s.history ≡ some d)

  job-Queued :
      (d : Deployment) (rows : DeploymentTable) (fleet : Fleet) (jobs : Option Q)
      → d.status ≡ DeploymentStatus.queued
      → first_where (keyed d.id) rows ≡ some d
      → Queued d.id (after_job enqueue d rows fleet jobs)
  unfolding Queued after_job
  job-Queued d rows fleet none queued h = tt
  job-Queued d rows fleet (some jobs) queued h = (refl, queued, h)

  plan-Queued :
      (keep : ℕ) (background : Bool) (d : Deployment) (rows : DeploymentTable) (jobs : Q)
      (planned : Option PlanError × Fleet)
      → d.status ≡ DeploymentStatus.queued
      → first_where (keyed d.id) rows ≡ some d
      → Queued d.id (after_plan enqueue keep background d rows jobs planned)
  unfolding Queued after_plan
  plan-Queued keep background d rows jobs (some e, fleet) queued h = tt
  plan-Queued keep background d rows jobs (none, fleet) queued h =
      let kept = (prune_history keep rows).1 in
      job-Queued d kept (cascade kept fleet) (if background then enqueue d.id jobs else some jobs)
        queued (prune-keeps keep d.id d rows queued h)

  queue-Queued :
      (known : String → Bool) (keep : ℕ) (id : String) (now : ℕ) (a : Admission) (s : Ledger Q)
      → Queued id (queue enqueue known keep id now a s)
  unfolding Queued queue create_deployment after_create
  queue-Queued known keep id now a s = elim (Bool-cases (has_references known a s.history)) [
    | inr dangles ↦ rw dangles tt
    | inl refers ↦ elim (Bool-cases (matches (keyed id) s.history)) [
      | inl e ↦ rw (refers, e) tt
      | inr e ↦
          let d =
            new_deployment id a.operator a.check a.release_id a.rollback_of a.host_limit
              a.canonical_digest now in
          rw (refers, e)
            (plan-Queued keep a.background d (s.history ++ d ∷ []) s.jobs
              (plan id a.edges 0 (with_row id s.fleet)) refl
              (first_where-snoc (keyed id) s.history d e
                (unfold keyed in (string_eq.reflexive id))))
    ]
  ]

  -- A deployment that was admitted, converged from the history that its admission left, while other
  -- processes leave its row, ends. If an interrupt cuts the convergence short, it is raised and the row
  -- is abandoned. Otherwise the deployment is returned as the row of the history, in a final status,
  -- and succeeded only if the rollout of its targets did; or an ExecutionError that the rollout let
  -- through is raised, and the row failed.
  pub admitted-Finished :
      (known : String → Bool) (keep : ℕ) (id : String) (now : ℕ) (a : Admission) (s s' : Ledger Q)
      (d : Deployment) {I : Type 0} (set : Setting I) (at : Readings) (c : Control I)
      → queue enqueue known keep id now a s ≡ admitted d s'
      → c.shared.history ≡ s'.history
      → LeavesRow id set.during
      → let (ran, c') = converge set at d c in
        Finished id set.interrupted (rollout_of set d (planned_edges d c) c) (ran, c'.shared)
  unfolding Queued
  admitted-Finished known keep id now a s s' d {I} set at c h same leaves =
      let (own, queued, row) : (d.id ≡ id)
          × (d.status ≡ DeploymentStatus.queued)
          × (first_where (keyed id) s'.history ≡ some d) =
        subst (λ z. Queued id z) h (queue-Queued known keep id now a s) in
      subst
        (λ z.
          Finished z set.interrupted (rollout_of set d (planned_edges d c) c)
            ((converge set at d c).0, (converge set at d c).1.shared))
        own
        (converge-Finished set at d c
          (subst (λ z. IsRow z c.shared d) (sym own)
            (subst (λ z. first_where (keyed id) z ≡ some d) (sym same) row))
          (inl queued) (subst (λ z. LeavesRow z set.during) (sym own) leaves))
