-- ===== src/Deployments/Examples.antt =====
-- Runs of a small fleet, and the theorems of deployments/ applied to them.
use blitze_cdn_cp.Prelude.{[], ◌∷◌, true, false, none, some, ◌≡◌, refl, All, string_eq, length, ◌⊎◌}
use blitze_cdn_cp.Deployments.Targets.{
  TargetPhase, TargetStatus, Detail, SiteResult, DeploymentTarget, Fleet, new_target,
  claim_generation, begin, record_phase, finish, skip_remaining, targets, index,
}
use blitze_cdn_cp.Sql.{update_where, first_where, matches, select_where}
use blitze_cdn_cp.Deployments.Targets.Takeover.{Ignored, takeover_shuts_out}
use blitze_cdn_cp.Deployments.Rollout.{
  tool, observed, published, Tags, RunStatus, AnsibleRun, Reply, answered, Outside, World,
  converged, phases, converge, converge_edge, roll, walk, run_phase, already_done, unserved,
}
use blitze_cdn_cp.Deployments.Rollout.DryRun.{Harmless, converge_dry-Harmless}
use blitze_cdn_cp.Deployments.Rollout.Commit.{CommitsServed, converge-CommitsServed}
use blitze_cdn_cp.Deployments.Rollout.Order.{trail, converge_edge-trail}
use blitze_cdn_cp.Deployments.Rollout.Stopping.{Clean, Halted, roll-Halted}

abbrev good_run : AnsibleRun
good_run = record { status = RunStatus.succeeded; summary = "ok" }

abbrev served_site : SiteResult
served_site = record { hostname = "a.example"; served = true; detail = "200" }

-- A fleet where every run succeeds, and every edge serves.
abbrev healthy : Outside
healthy = record {
  run = λ _ _ _ _. Reply.ran good_run;
  verify = λ _ _ _. answered (served_site ∷ []);
  public_address = λ _ _. some "192.0.2.1";
  publish = λ _. none;
  meanwhile = λ _ db. db;
  clock = λ calls. length calls;
}

abbrev two_edges : Fleet
two_edges = record {
  deployments = record { id = "d1"; generation = 0 } ∷ [];
  targets = new_target "d1" 0 "fra1" ∷ new_target "d1" 0 "ams1" ∷ [];
}

abbrev start : World
start = record { db = two_edges; calls = [] }

abbrev done_edge : DeploymentTarget
done_edge = record (new_target "d1" 0 "ams1") {
  status = TargetStatus.succeeded;
  phase = some TargetPhase.verify;
}

abbrev activated_edge : DeploymentTarget
activated_edge = record (new_target "d1" 0 "ams1") { phase = some TargetPhase.stage }

abbrev one_edge : World
one_edge = record {
  db = record {
    deployments = record { id = "d1"; generation = 0 } ∷ [];
    targets = activated_edge ∷ [];
  };
  calls = published ∷ [];
}

claimed : (claim_generation "d1" two_edges).0 ≡ some 1
unfolding claim_generation update_where first_where
claimed = refl

takeover_shuts_out_example :
    let db' = (claim_generation "d1" two_edges).1 in
    Ignored db' (begin "d1" "fra1" 0 5 db')
    × Ignored db' (record_phase "d1" "fra1" TargetPhase.stage 0 db')
    × Ignored db' (finish "d1" "fra1" 0 TargetStatus.failed 5 none db')
    × ((skip_remaining "d1" 0 5 Detail.taken_over db').1 ≡ db')
takeover_shuts_out_example =
    takeover_shuts_out "d1" two_edges 1 0 "fra1" TargetPhase.stage TargetStatus.failed 5 none
      Detail.taken_over claimed (λ e. absurd (cc e))

converge_dry-Harmless_example :
    All Harmless (converge healthy "d1" ("ams1" ∷ "fra1" ∷ []) true start).1.calls
converge_dry-Harmless_example = converge_dry-Harmless healthy "d1" ("ams1" ∷ "fra1" ∷ []) start tt

converge-CommitsServed_example :
    CommitsServed healthy (converge healthy "d1" ("ams1" ∷ "fra1" ∷ []) false start).1.calls
unfolding CommitsServed
converge-CommitsServed_example =
    converge-CommitsServed healthy "d1" ("ams1" ∷ "fra1" ∷ []) false start tt

activated_converges :
    (converge_edge healthy "d1" 0 activated_edge false one_edge).0 ≡ converged (some good_run)
unfolding converge_edge walk run_phase begin record_phase finish update_where matches index
    already_done unserved select_where
activated_converges = refl

converge_edge-trail_example :
    (converge_edge healthy "d1" 0 activated_edge false one_edge).1.calls
    ≡ tool false "ams1" Tags.commit
      ∷ observed "ams1"
      ∷ tool false "ams1" Tags.activate
      ∷ published
      ∷ []
unfolding trail phases index already_done
converge_edge-trail_example =
    converge_edge-trail healthy "d1" 0 activated_edge false one_edge (some good_run)
      activated_converges

-- A fleet where no run succeeds.
abbrev faulty : Outside
faulty = record healthy {
  run = λ _ _ _ _. Reply.ran (record { status = RunStatus.failed; summary = "unreachable" });
}

roll-Halted_example :
    Clean faulty "d1" 0 false
      (targets "d1" two_edges)
      start
      (roll faulty "d1" 0 false (targets "d1" two_edges) none start)
    ⊎ Halted faulty "d1" 0 false
        (targets "d1" two_edges)
        start
        (roll faulty "d1" 0 false (targets "d1" two_edges) none start)
roll-Halted_example = roll-Halted faulty "d1" 0 false (targets "d1" two_edges) none start
