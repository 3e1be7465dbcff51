-- ===== src/Deployments/Rollout/Commit.antt =====
-- When deployments/service/rollout.py commits an edge.
use blitze_cdn_cp.Prelude.{
  ℕ, String, List, [], ◌∷◌, Bool, true, false, Option, none, some, ◌≡◌, refl, All, All-of,
  Bool-cases, not, ◌||◌, if◌then◌else◌, inl, inr,
}
use blitze_cdn_cp.Deployments.Targets.{TargetPhase, Detail, SiteResult, PlanError, targets}
use blitze_cdn_cp.Deployments.Rollout.{
  Call, published, tool, observed, Tags, Failure, Outside, Observation, answered, World,
  commit_after, produced_tool, run_tool, uncommitted, phases, publish_then, plan_then, claim_then,
  converge, verify_at, verify_edge, judge, unserved, unserved_failure, contact, run_phase, withdraw,
  roll,
}
use blitze_cdn_cp.Sql.{select_where}
use blitze_cdn_cp.Deployments.Rollout.Histories.{roll_keeps}

-- The calls so far end with a probe of this edge, at its public address, that found every
-- hostname served.
unfoldable pub JustServed : Outside → String → List Call → Type 0
JustServed out edge (observed e ∷ calls) =
    (e ≡ edge)
    × (address : String) × (out.public_address calls edge ≡ some address)
    × (results : List SiteResult) × (out.verify calls edge address ≡ answered results)
    × All (λ r. r.served ≡ true) results
JustServed out edge _ = ⊥

Justified : Outside → Call → List Call → Type 0
unfolding JustServed
Justified out (tool check edge Tags.commit) calls = JustServed out edge calls
Justified out _ calls = Unit

-- Every commit follows at once on a probe of its edge that found every hostname served.
unfoldable pub CommitsServed : Outside → List Call → Type 0
unfolding Justified
CommitsServed out [] = Unit
CommitsServed out (call ∷ calls) = Justified out call calls × CommitsServed out calls

unserved-none :
    (edge : String) (all results : List SiteResult)
    → unserved_failure edge all (unserved results) ≡ none
    → All (λ r. r.served ≡ true) results
unfolding unserved unserved_failure select_where
unserved-none edge all [] e = tt
unserved-none edge all (r ∷ rs) e = go r.served refl (unserved-none edge all rs) e
  where
    go :
        (b : Bool)
        → r.served ≡ b
        → (unserved_failure edge all (unserved rs) ≡ none → All (λ r'. r'.served ≡ true) rs)
        → unserved_failure edge all (if not b then r ∷ unserved rs else unserved rs) ≡ none
        → All (λ r. r.served ≡ true) (r ∷ rs)
    go true is rest k = (is, rest k)
    go false is rest k = absurd (cc k)

judge-none :
    (edge : String) (o : Observation)
    → judge edge o ≡ none
    → (results : List SiteResult) × (o ≡ answered results) × All (λ r. r.served ≡ true) results
unfolding judge
judge-none edge (answered results) e = (results, refl, unserved-none edge results results e)
judge-none edge (Observation.raises f) e = absurd (cc e)

module _ (out : Outside) where
  verify_at-JustServed :
      (edge : String) (w : World) (a : Option String)
      → out.public_address w.calls edge ≡ a
      → (verify_at out edge a w).0 ≡ none
      → JustServed out edge (verify_at out edge a w).1.calls
  unfolding verify_at JustServed contact
  verify_at-JustServed edge w none at e = absurd (cc e)
  verify_at-JustServed edge w (some address) at e =
      let served = judge-none edge _ e in (refl, address, at, served.0, served.1, served.2)

  -- A probe adds no commit.
  verify_at-CommitsServed :
      (edge : String) (w : World) (a : Option String)
      → CommitsServed out w.calls
      → CommitsServed out (verify_at out edge a w).1.calls
  unfolding verify_at CommitsServed Justified contact
  verify_at-CommitsServed edge w none h = h
  verify_at-CommitsServed edge w (some address) h = (tt, h)

  commit_after-CommitsServed :
      (edge : String) (f : Option Failure) (w : World)
      → (f ≡ none → JustServed out edge w.calls)
      → CommitsServed out w.calls
      → CommitsServed out (commit_after out edge f w).1.calls
  unfolding commit_after produced_tool run_tool contact CommitsServed Justified
  commit_after-CommitsServed edge none w served h = (served refl, h)
  commit_after-CommitsServed edge (some f) w served h = h

  verify_edge-CommitsServed :
      (edge : String) (w : World)
      → CommitsServed out w.calls
      → CommitsServed out (verify_edge out edge w).1.calls
  unfolding verify_edge
  verify_edge-CommitsServed edge w h = verify_at-CommitsServed edge w _ h

  phase-CommitsServed :
      (phase : TargetPhase) (edge : String) (check : Bool) (w : World)
      → CommitsServed out w.calls
      → CommitsServed out (run_phase out phase edge check w).1.calls
  unfolding run_phase produced_tool run_tool contact CommitsServed Justified verify_edge
  phase-CommitsServed TargetPhase.prepare edge check w h = h
  phase-CommitsServed TargetPhase.validate edge check w h = (tt, h)
  phase-CommitsServed TargetPhase.stage edge check w h = (tt, h)
  phase-CommitsServed TargetPhase.activate edge check w h = (tt, h)
  phase-CommitsServed TargetPhase.verify edge check w h =
      commit_after-CommitsServed edge _ _ (verify_at-JustServed edge w _ refl)
        (verify_at-CommitsServed edge w _ h)

  withdraw-CommitsServed :
      (phase : TargetPhase) (edge : String) (detail : Detail) (check : Bool) (w : World)
      → CommitsServed out w.calls
      → CommitsServed out (withdraw out phase edge detail check w).1.calls
  unfolding withdraw run_tool contact CommitsServed Justified
  withdraw-CommitsServed phase edge detail check w h =
      elim (Bool-cases (check || not (uncommitted phase))) [ inl e ↦ rw e h | inr e ↦ rw e (tt, h) ]

  publish_then-CommitsServed :
      (id : String) (fence : ℕ) (check : Bool) (f : Option Failure) (w : World)
      → CommitsServed out w.calls
      → CommitsServed out
          (publish_then out (λ w'. roll out id fence check (targets id w'.db) none w') f w).1.calls
  unfolding publish_then
  publish_then-CommitsServed id fence check (some f) w h = h
  publish_then-CommitsServed id fence check none w h =
      roll_keeps out check (CommitsServed out) (λ _. Unit {0})
        (λ phase edge w' _ k. phase-CommitsServed phase edge check w' k)
        (λ phase edge detail w' k. withdraw-CommitsServed phase edge detail check w' k)
        (λ edge w' _ k. verify_edge-CommitsServed edge w' k) (All-of _ (phases check) (λ _ _. tt))
        id fence _ none w h

  plan_then-CommitsServed :
      (id : String) (fence : ℕ) (check : Bool) (error : Option PlanError) (w : World)
      → CommitsServed out w.calls
      → CommitsServed out (plan_then out id fence check error w).1.calls
  unfolding plan_then CommitsServed Justified contact
  plan_then-CommitsServed id fence check (some e) w h = h
  plan_then-CommitsServed id fence check none w h =
      publish_then-CommitsServed id fence check (out.publish w.calls) (contact out published w)
        (tt, h)

  claim_then-CommitsServed :
      (id : String) (edges : List String) (check : Bool) (claimed : Option ℕ) (w : World)
      → CommitsServed out w.calls
      → CommitsServed out (claim_then out id edges check claimed w).1.calls
  unfolding claim_then
  claim_then-CommitsServed id edges check none w h = h
  claim_then-CommitsServed id edges check (some fence) w h =
      plan_then-CommitsServed id fence check _ _ h

  -- In the calls of a rollout every commit of an edge comes right after a probe of this edge at
  -- its public address that found every hostname of it served.
  pub converge-CommitsServed :
      (id : String) (edges : List String) (check : Bool) (w : World)
      → CommitsServed out w.calls
      → CommitsServed out (converge out id edges check w).1.calls
  unfolding converge
  converge-CommitsServed id edges check w h = claim_then-CommitsServed id edges check _ _ h
