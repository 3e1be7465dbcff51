-- ===== src/Deployments/Rollout/DryRun.antt =====
-- A rollout of deployments/service/rollout.py in check mode.
use blitze_cdn_cp.Prelude.{ℕ, String, List, true, false, Option, none, some, All}
use blitze_cdn_cp.Deployments.Targets.{TargetPhase, PlanError, targets}
use blitze_cdn_cp.Deployments.Rollout.{
  Call, published, tool, observed, Failure, Outside, World, contact, produced_tool, run_tool,
  phases, run_phase, withdraw, roll, publish_then, plan_then, claim_then, converge,
}
use blitze_cdn_cp.Deployments.Rollout.Histories.{roll_keeps}

-- A call that changes no edge: the publication, and a run of the tool in check mode.
unfoldable pub Harmless : Call → Type 0
Harmless published = Unit
Harmless (tool true edge tags) = Unit
Harmless (tool false edge tags) = ⊥
Harmless (observed edge) = ⊥

Planned : TargetPhase → Type 0
Planned TargetPhase.prepare = Unit
Planned TargetPhase.validate = Unit
Planned _ = ⊥

module _ (out : Outside) where
  phase-Harmless :
      (phase : TargetPhase) (edge : String) (w : World)
      → Planned phase
      → All Harmless w.calls
      → All Harmless (run_phase out phase edge true w).1.calls
  unfolding run_phase Planned Harmless produced_tool run_tool contact
  phase-Harmless TargetPhase.prepare edge w a h = h
  phase-Harmless TargetPhase.validate edge w a h = (tt, h)
  phase-Harmless TargetPhase.stage edge w a h = absurd a
  phase-Harmless TargetPhase.activate edge w a h = absurd a
  phase-Harmless TargetPhase.verify edge w a h = absurd a

  publish_then-Harmless :
      (id : String) (fence : ℕ) (f : Option Failure) (w : World)
      → All Harmless w.calls
      → All Harmless
          (publish_then out (λ w'. roll out id fence true (targets id w'.db) none w') f w).1.calls
  unfolding publish_then withdraw phases Planned
  publish_then-Harmless id fence (some f) w h = h
  publish_then-Harmless id fence none w h =
      roll_keeps out true (All Harmless) Planned phase-Harmless (λ _ _ _ _ k. k)
        (λ _ _ e _. absurd (cc e)) dry_phases id fence _ none w h
    where
      dry_phases : All Planned (phases true)
      dry_phases = (tt, (tt, tt))

  plan_then-Harmless :
      (id : String) (fence : ℕ) (error : Option PlanError) (w : World)
      → All Harmless w.calls
      → All Harmless (plan_then out id fence true error w).1.calls
  unfolding plan_then Harmless contact
  plan_then-Harmless id fence (some e) w h = h
  plan_then-Harmless id fence none w h =
      publish_then-Harmless id fence (out.publish w.calls) (contact out published w) (tt, h)

  claim_then-Harmless :
      (id : String) (edges : List String) (claimed : Option ℕ) (w : World)
      → All Harmless w.calls
      → All Harmless (claim_then out id edges true claimed w).1.calls
  unfolding claim_then
  claim_then-Harmless id edges none w h = h
  claim_then-Harmless id edges (some fence) w h = plan_then-Harmless id fence _ _ h

  -- A rollout in check mode makes only calls that change no edge: publications and runs of the
  -- tool in check mode. It probes no edge and withdraws nothing, however the calls end.
  pub converge_dry-Harmless :
      (id : String) (edges : List String) (w : World)
      → All Harmless w.calls
      → All Harmless (converge out id edges true w).1.calls
  unfolding converge
  converge_dry-Harmless id edges w h = claim_then-Harmless id edges _ _ h
