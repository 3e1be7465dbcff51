-- ===== src/Deployments/Rollout/Order.antt =====
-- The order in which deployments/service/rollout.py takes one edge through its phases.
use blitze_cdn_cp.Prelude.{
  ℕ, String, List, [], ◌∷◌, ◌++◌, Bool, true, false, Option, none, some, ◌≡◌, refl, Bool-cases, inl,
  inr, if◌then◌else◌,
}
use blitze_cdn_cp.Deployments.Targets.{TargetPhase, Detail, DeploymentTarget, record_phase, begin}
use blitze_cdn_cp.Deployments.Rollout.{
  Call, tool, observed, Tags, Failure, execution, other, AnsibleRun, Outside, World, Produced,
  nothing, raised, EdgeEnd, converged, stopped, already_done, phases, run_succeeded, failure_text,
  produced_tool, run_tool, contact, commit_after, verify_at, verify_edge, run_phase, record_then,
  after_phase, stop, walk, converge_edge,
}

-- What a phase that is gone through asks of the outside, newest first.
unfoldable pub tasks : Bool → TargetPhase → String → List Call
tasks check TargetPhase.prepare edge = []
tasks check TargetPhase.validate edge = tool true edge Tags.whole ∷ []
tasks check TargetPhase.stage edge = tool false edge Tags.stage ∷ []
tasks check TargetPhase.activate edge = tool check edge Tags.activate ∷ []
tasks check TargetPhase.verify edge = tool false edge Tags.commit ∷ observed edge ∷ []

-- The calls after the phases that are not reached yet, each in its turn.
unfoldable pub trail : Bool → String → Option TargetPhase → List TargetPhase → List Call → List Call
unfolding tasks
trail check edge reached [] calls = calls
trail check edge reached (phase ∷ rest) calls =
    trail check edge reached rest
      (if already_done reached phase then calls else tasks check phase edge ++ calls)

Ends : Produced → Type 0
Ends nothing = Unit
Ends (Produced.ran r) = Unit
Ends (raised f) = ⊥

module _ (out : Outside) where
  commit_tasks :
      (edge : String) (a : Option String) (w : World)
      → Ends (commit_after out edge (verify_at out edge a w).0 (verify_at out edge a w).1).0
      → (commit_after out edge (verify_at out edge a w).0 (verify_at out edge a w).1).1.calls
        ≡ tasks false TargetPhase.verify edge ++ w.calls
  unfolding verify_at commit_after produced_tool run_tool contact tasks Ends
  commit_tasks edge none w e = absurd e
  commit_tasks edge (some address) w e = go _ e
    where
      go :
          (f : Option Failure)
          → Ends (commit_after out edge f (contact out (observed edge) w)).0
          → (commit_after out edge f (contact out (observed edge) w)).1.calls
            ≡ tool false edge Tags.commit ∷ observed edge ∷ w.calls
      go none k = refl
      go (some f) k = absurd k

  run_phase-tasks :
      (phase : TargetPhase) (edge : String) (check : Bool) (w : World)
      → Ends (run_phase out phase edge check w).0
      → (run_phase out phase edge check w).1.calls ≡ tasks check phase edge ++ w.calls
  unfolding run_phase produced_tool run_tool contact tasks verify_edge
  run_phase-tasks TargetPhase.prepare edge check w e = refl
  run_phase-tasks TargetPhase.validate edge check w e = refl
  run_phase-tasks TargetPhase.stage edge check w e = refl
  run_phase-tasks TargetPhase.activate edge check w e = refl
  run_phase-tasks TargetPhase.verify edge check w e = commit_tasks edge _ w e

  module _ (id : String) (fence : ℕ) where
    -- The walk ends as the rest of it ends, from a state with these calls.
    abbrev Goes :
        (Option AnsibleRun → World → EdgeEnd × World) → List Call → EdgeEnd × World → Type 0
    Goes go calls answer =
        (last : Option AnsibleRun) × (w' : World) × (w'.calls ≡ calls) × (answer ≡ go last w')

    abbrev Converges : EdgeEnd × World → Option AnsibleRun → Type 0
    Converges answer last = answer.0 ≡ converged last

    record_then-Goes :
        (edge : String) (phase : TargetPhase) (go : Option AnsibleRun → World → EdgeEnd × World)
        (last final : Option AnsibleRun) (w : World)
        → Converges (record_then out id fence edge phase (go last) last w) final
        → Goes go w.calls (record_then out id fence edge phase (go last) last w)
    unfolding record_then
    record_then-Goes edge phase go last final w = split _
      where
        w' : World
        w' = record w { db = (record_phase id edge phase fence w.db).1 }

        split :
            (recorded : Bool)
            → Converges
                (if recorded then go last w' else (stopped Detail.taken_over last, w'))
                final
            → Goes go w.calls
                (if recorded then go last w' else (stopped Detail.taken_over last, w'))
        split true e = (last, w', refl, refl)
        split false e = absurd (cc e)

    after_phase-Goes :
        (edge : String) (phase : TargetPhase) (check : Bool)
        (go : Option AnsibleRun → World → EdgeEnd × World) (last final : Option AnsibleRun)
        (produced : Produced) (w : World)
        → Converges (after_phase out id fence edge phase check go last produced w) final
        → Ends produced
          × Goes go w.calls (after_phase out id fence edge phase check go last produced w)
    unfolding after_phase stop Ends
    after_phase-Goes edge phase check go last final nothing w e =
        (tt, record_then-Goes edge phase go last final w e)
    after_phase-Goes edge phase check go last final (Produced.ran r) w e =
        split (run_succeeded r.status) e
      where
        split :
            (good : Bool)
            → Converges
                (if good
                  then record_then out id fence edge phase (go (some r)) (some r) w
                  else stop out id fence edge phase (failure_text r) check (some r) w)
                final
            → Unit {0}
              × Goes go w.calls (
                  if good
                  then record_then out id fence edge phase (go (some r)) (some r) w
                  else stop out id fence edge phase (failure_text r) check (some r) w)
        split true e = (tt, record_then-Goes edge phase go (some r) final w e)
        split false e = absurd (cc e)
    after_phase-Goes edge phase check go last final (raised (execution text)) w e = absurd (cc e)
    after_phase-Goes edge phase check go last final (raised (other type text)) w e = absurd (cc e)

    -- A phase that is due, and what follows it.
    due-trail :
        (edge : String) (phase : TargetPhase) (check : Bool)
        (go : Option AnsibleRun → World → EdgeEnd × World) (after : List Call → List Call)
        (last final : Option AnsibleRun) (w : World)
        → ((l : Option AnsibleRun) (w' : World)
            → Converges (go l w') final
            → (go l w').1.calls ≡ after w'.calls)
        → let next = run_phase out phase edge check w in
          let answer = after_phase out id fence edge phase check go last next.0 next.1 in
          Converges answer final → answer.1.calls ≡ after (tasks check phase edge ++ w.calls)
    due-trail edge phase check go after last final w rest e =
        let next = run_phase out phase edge check w in
        let goes = after_phase-Goes edge phase check go last final next.0 next.1 e in
        let calls = run_phase-tasks phase edge check w goes.0 in
        let ends = rest goes.1.0 goes.1.1 (cc (e, goes.1.3)) in cc (calls, ends, goes.1.2, goes.1.3)

    walk_done :
        (edge : String) (check : Bool) (reached : Option TargetPhase) (p : TargetPhase)
        (ps : List TargetPhase) (last : Option AnsibleRun) (w : World)
        → already_done reached p ≡ true
        → walk out id fence edge check reached (p ∷ ps) last w
          ≡ walk out id fence edge check reached ps last w
    unfolding walk
    walk_done edge check reached p ps last w is = rw (is, walk) refl

    walk_due :
        (edge : String) (check : Bool) (reached : Option TargetPhase) (p : TargetPhase)
        (ps : List TargetPhase) (last : Option AnsibleRun) (w : World)
        → already_done reached p ≡ false
        → let next = run_phase out p edge check w in
          walk out id fence edge check reached (p ∷ ps) last w
          ≡ after_phase out id fence edge p check
              (walk out id fence edge check reached ps)
              last
              next.0
              next.1
    unfolding walk
    walk_due edge check reached p ps last w is = rw (is, walk) refl

    walk-trail :
        (edge : String) (check : Bool) (reached : Option TargetPhase) (ps : List TargetPhase)
        (last final : Option AnsibleRun) (w : World)
        → Converges (walk out id fence edge check reached ps last w) final
        → (walk out id fence edge check reached ps last w).1.calls
          ≡ trail check edge reached ps w.calls
    unfolding trail walk
    walk-trail edge check reached [] last final w e = refl
    walk-trail edge check reached (p ∷ ps) last final w e =
        elim (Bool-cases (already_done reached p)) [
          | inl is ↦
              let step = walk_done edge check reached p ps last w is in
              rw (step, is) (walk-trail edge check reached ps last final w (cc (e, step)))
          | inr is ↦
              let step = walk_due edge check reached p ps last w is in
              rw (step, is)
                (due-trail edge p check (walk out id fence edge check reached ps)
                  (trail check edge reached ps) last final w
                  (λ l w' k. walk-trail edge check reached ps l final w' k) (cc (e, step)))
        ]

    -- An edge that converges has been taken through exactly the phases that it had not reached,
    -- each once and in their order, and nothing else was asked of the outside.
    pub converge_edge-trail :
        (t : DeploymentTarget) (check : Bool) (w : World) (last : Option AnsibleRun)
        → (converge_edge out id fence t check w).0 ≡ converged last
        → (converge_edge out id fence t check w).1.calls
          ≡ trail check t.edge t.phase (phases check) w.calls
    unfolding converge_edge
    converge_edge-trail t check w last = split (begin id t.edge fence (out.clock w.calls) w.db).0
      where
        w' : World
        w' = record w { db = (begin id t.edge fence (out.clock w.calls) w.db).1 }

        split :
            (begun : Bool)
            → let answer =
                if begun
                then walk out id fence t.edge check t.phase (phases check) none w'
                else (stopped Detail.taken_over none, w') in
              Converges answer last
              → answer.1.calls ≡ trail check t.edge t.phase (phases check) w.calls
        split true e = walk-trail t.edge check t.phase (phases check) none last w' e
        split false e = absurd (cc e)
