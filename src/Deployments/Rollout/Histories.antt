-- ===== src/Deployments/Rollout/Histories.antt =====
-- The rule by which facts about the calls of a rollout are proved: what the phases, the withdrawals
-- and the verifications keep of a history, a whole rollout keeps.
use blitze_cdn_cp.Prelude.{
  ℕ, String, List, [], ◌∷◌, Bool, true, false, Option, none, some, ◌≡◌, refl, All, Bool-cases, inl,
  inr,
}
use blitze_cdn_cp.Deployments.Targets.{TargetPhase, Detail, DeploymentTarget, begin, record_phase}
use blitze_cdn_cp.Deployments.Rollout.{
  Call, AnsibleRun, Failure, execution, other, Outside, World, Produced, nothing, raised, EdgeEnd,
  converged, stopped, escapes, Rolled, phases, already_done, is_succeeded, run_succeeded,
  verify_edge, run_phase, withdraw, fail, close, stop, record_then, after_phase, walk,
  converge_edge, after_recovery, recheck, after_edge, roll,
}

-- One edge.
module _ (out : Outside) (check : Bool) (P : List Call → Type 0) (Allowed : TargetPhase → Type 0)
    (edge : String)
    (phase_keeps : (phase : TargetPhase) (w : World)
      → Allowed phase
      → P w.calls
      → P (run_phase out phase edge check w).1.calls)
    (withdraw_keeps : (phase : TargetPhase) (detail : Detail) (w : World)
      → P w.calls
      → P (withdraw out phase edge detail check w).1.calls) where
  module _ (id : String) (fence : ℕ) where
    close_keeps :
        (phase : TargetPhase) (detail : Detail) (w : World)
        → P w.calls
        → P (close out id fence edge phase detail check w).1.calls
    unfolding close fail
    close_keeps phase detail w h = withdraw_keeps phase detail w h

    record_then_keeps :
        (phase : TargetPhase) (go : World → EdgeEnd × World) (last : Option AnsibleRun) (w : World)
        → ((w' : World) → P w'.calls → P (go w').1.calls)
        → P w.calls
        → P (record_then out id fence edge phase go last w).1.calls
    unfolding record_then
    record_then_keeps phase go last w k h =
        elim (Bool-cases (record_phase id edge phase fence w.db).0) [
          | inl e ↦ rw e (k _ h)
          | inr e ↦ rw e h
        ]

    after_phase_keeps :
        (phase : TargetPhase) (go : Option AnsibleRun → World → EdgeEnd × World)
        (last : Option AnsibleRun) (produced : Produced) (w : World)
        → ((l : Option AnsibleRun) (w' : World) → P w'.calls → P (go l w').1.calls)
        → P w.calls
        → P (after_phase out id fence edge phase check go last produced w).1.calls
    unfolding after_phase stop
    after_phase_keeps phase go last nothing w k h =
        record_then_keeps phase (go last) last w (k last) h
    after_phase_keeps phase go last (Produced.ran r) w k h =
        elim (Bool-cases (run_succeeded r.status)) [
          | inl e ↦ rw e (record_then_keeps phase (go (some r)) (some r) w (k (some r)) h)
          | inr e ↦ rw e (close_keeps phase _ w h)
        ]
    after_phase_keeps phase go last (raised (execution text)) w k h = close_keeps phase text w h
    after_phase_keeps phase go last (raised (other type text)) w k h = close_keeps phase _ w h

    walk_keeps :
        (reached : Option TargetPhase) (ps : List TargetPhase) (last : Option AnsibleRun)
        (w : World)
        → All Allowed ps
        → P w.calls
        → P (walk out id fence edge check reached ps last w).1.calls
    unfolding walk
    walk_keeps reached [] last w a h = h
    walk_keeps reached (p ∷ ps) last w a h = elim (Bool-cases (already_done reached p)) [
      | inl e ↦ rw (e, walk) (walk_keeps reached ps last w a.1 h)
      | inr e ↦
          rw (e, walk)
            (after_phase_keeps p (walk out id fence edge check reached ps) last _ _
              (λ l w' k. walk_keeps reached ps l w' a.1 k) (phase_keeps p w a.0 h))
    ]

-- The walk of one edge keeps what its own phases and withdrawals keep.
pub converge_edge_keeps :
    (out : Outside) (check : Bool) (P : List Call → Type 0) (Allowed : TargetPhase → Type 0)
    (t : DeploymentTarget)
    → ((phase : TargetPhase) (w : World)
        → Allowed phase
        → P w.calls
        → P (run_phase out phase t.edge check w).1.calls)
    → ((phase : TargetPhase) (detail : Detail) (w : World)
        → P w.calls
        → P (withdraw out phase t.edge detail check w).1.calls)
    → All Allowed (phases check)
    → (id : String) (fence : ℕ) (w : World) → P w.calls
    → P (converge_edge out id fence t check w).1.calls
unfolding converge_edge
converge_edge_keeps out check P Allowed t phase_keeps withdraw_keeps allowed id fence w h =
    elim (Bool-cases (begin id t.edge fence (out.clock w.calls) w.db).0) [
      | inl e ↦ rw e (
          walk_keeps out check P Allowed t.edge phase_keeps withdraw_keeps id fence t.phase
            (phases check) none _ allowed h)
      | inr e ↦ rw e h
    ]

-- All edges.
module _ (out : Outside) (check : Bool) (P : List Call → Type 0) (Allowed : TargetPhase → Type 0)
    (phase_keeps : (phase : TargetPhase) (edge : String) (w : World)
      → Allowed phase
      → P w.calls
      → P (run_phase out phase edge check w).1.calls)
    (withdraw_keeps : (phase : TargetPhase) (edge : String) (detail : Detail) (w : World)
      → P w.calls
      → P (withdraw out phase edge detail check w).1.calls)
    (verify_keeps : (edge : String) (w : World)
      → check ≡ false
      → P w.calls
      → P (verify_edge out edge w).1.calls)
    (allowed : All Allowed (phases check)) where
  module _ (id : String) (fence : ℕ) where
    after_recovery_keeps :
        (edge : String) (go : World → Rolled × World) (last : Option AnsibleRun)
        (f : Option Failure) (w : World)
        → ((w' : World) → P w'.calls → P (go w').1.calls)
        → P w.calls
        → P (after_recovery out id fence edge go last f w).1.calls
    unfolding after_recovery
    after_recovery_keeps edge go last none w k h = k w h
    after_recovery_keeps edge go last (some f) w k h = h

    after_edge_keeps :
        (edge : String) (go : Option AnsibleRun → World → Rolled × World) (ending : EdgeEnd)
        (w : World)
        → ((l : Option AnsibleRun) (w' : World) → P w'.calls → P (go l w').1.calls)
        → P w.calls
        → P (after_edge out id fence edge go ending w).1.calls
    unfolding after_edge
    after_edge_keeps edge go (converged last) w k h = k last w h
    after_edge_keeps edge go (stopped detail last) w k h = h
    after_edge_keeps edge go (escapes f) w k h = h

    recheck_keeps :
        (dry : Bool) (edge : String) (go : World → Rolled × World) (last : Option AnsibleRun)
        (w : World)
        → (dry ≡ false → check ≡ false)
        → ((w' : World) → P w'.calls → P (go w').1.calls)
        → P w.calls
        → P (recheck out id fence dry edge go last w).1.calls
    unfolding recheck
    recheck_keeps true edge go last w same k h = k w h
    recheck_keeps false edge go last w same k h =
        after_recovery_keeps edge go last _ _ k (verify_keeps edge w (same refl) h)

    pub roll_keeps :
        (ts : List DeploymentTarget) (last : Option AnsibleRun) (w : World)
        → P w.calls
        → P (roll out id fence check ts last w).1.calls
    unfolding roll
    roll_keeps [] last w h = h
    roll_keeps (t ∷ ts) last w h = elim (Bool-cases (is_succeeded t.status)) [
      | inl e ↦
          rw (e, roll)
            (recheck_keeps check t.edge (roll out id fence check ts last) last w (λ e'. e')
              (λ w' k. roll_keeps ts last w' k) h)
      | inr e ↦
          rw (e, roll)
            (after_edge_keeps t.edge (roll out id fence check ts) _ _
              (λ l w' k. roll_keeps ts l w' k)
              (converge_edge_keeps out check P Allowed t (λ phase w'. phase_keeps phase t.edge w')
                (λ phase detail w'. withdraw_keeps phase t.edge detail w') allowed id fence w h))
    ]
