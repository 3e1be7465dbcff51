-- ===== src/Deployments/Convergence/Examples.antt =====
-- A rollback that `converge` of deployments/service/convergence.py rolls out to two edges.
use blitze_cdn_cp.Prelude.{
  [], ◌∷◌, true, false, some, none, ℕ, ◌==◌, ◌≡◌, refl, length, string_eq, ◌⊎◌, inl,
}
use blitze_cdn_cp.Sql.{first_where, select_where, order_by, matches, update_where}
use blitze_cdn_cp.Deployments.Rollout
use blitze_cdn_cp.Deployments.Targets.{
  TargetStatus, new_target, targets, claim_generation, plan, is_repeated, has_edge, begin,
  record_phase, finish,
}
use blitze_cdn_cp.Deployments.Rollout.{
  RunStatus, AnsibleRun, Reply, answered, Outside, World, Rolled, RolloutOutcome, rolled,
  already_done, unserved,
}
use blitze_cdn_cp.Deployments.History.{Deployment, DeploymentStatus, new_deployment, keyed}
use blitze_cdn_cp.Deployments.Convergence.{
  Releases, Shared, Control, Setting, Readings, converge, after_rollout, planned_edges,
}
use blitze_cdn_cp.Deployments.Convergence.Endings.{IsRow, rollout_of}
use blitze_cdn_cp.Deployments.Convergence.Finishing.{Finished, LeavesRow, converge-Finished}
use blitze_cdn_cp.Deployments.Convergence.Adoption.{Unapplied, Applied, after_rollout-Atomic}

abbrev clean_run : AnsibleRun
clean_run = record { status = RunStatus.succeeded; summary = "ok" }

abbrev all_served : Outside
all_served = record {
  run = λ _ _ _ _. Reply.ran clean_run;
  verify =
      λ _ _ _. answered ((record { hostname = "a.example"; served = true; detail = "200" }) ∷ []);
  public_address = λ _ _. some "192.0.2.1";
  publish = λ _. none;
  meanwhile = λ _ db. db;
  clock = λ calls. length calls;
}

-- The canonical state is a number here, and the release was compiled from 3.
abbrev one_release : Releases ℕ
one_release = record {
  known = λ id. id == "r1";
  inputs_for = λ id. some 3;
  digest = λ canonical. "digest";
}

-- While the rollout runs a certificate is issued.
abbrev certified : Setting ℕ
certified = record {
  releases = one_release;
  out = all_served;
  selected = "fra1" ∷ "ams1" ∷ [];
  during = λ s. record s { required = true };
  interrupted = none;
}

abbrev readings : Readings
readings = record {
  started = 2;
  unstarted = 3;
  finished = 4;
  failed = 5;
  unstarted_id = "run-1";
  failed_id = "run-2";
}

abbrev rollback : Deployment
rollback = new_deployment "d1" "ops" false "r1" (some "d0") none (some "digest") 1

abbrev control : Control ℕ
control = record {
  shared = record { history = rollback ∷ []; required = false; canonical = 7 };
  world = record {
    db = record {
      deployments = (record { id = "d1"; generation = 0 }) ∷ [];
      targets = new_target "d1" 0 "fra1" ∷ new_target "d1" 0 "ams1" ∷ [];
    };
    calls = [];
  };
}

rollback-IsRow : IsRow "d1" control.shared rollback
unfolding keyed first_where
rollback-IsRow = refl

certified-LeavesRow : LeavesRow "d1" certified.during
unfolding LeavesRow
certified-LeavesRow = λ s. refl

-- The rollback adopts the state of its release, and clears the requirement.
rollback_adopts : (converge certified readings rollback control).1.shared.canonical ≡ 3
unfolding converge keyed planned_edges first_where select_where targets order_by matches
    Rollout.converge claim_generation update_where plan is_repeated has_edge begin already_done
    record_phase unserved finish
rollback_adopts = refl

converge-Finished_example :
    let (ran, c') = converge certified readings rollback control in
    Finished "d1" certified.interrupted
      (rollout_of certified rollback (planned_edges rollback control) control)
      (ran, c'.shared)
converge-Finished_example =
    converge-Finished certified readings rollback control rollback-IsRow (inl refl)
      certified-LeavesRow

abbrev good_outcome : RolloutOutcome
good_outcome = record {
  targets = (record (new_target "d1" 0 "fra1") { status = TargetStatus.succeeded }) ∷ [];
  run = some clean_run;
  error = none;
}

abbrev running_rollback : Deployment
running_rollback = record rollback { status = DeploymentStatus.running }

abbrev running : Shared ℕ
running = record { history = running_rollback ∷ []; required = true; canonical = 7 }

after_rollout-Atomic_example :
    let ended = after_rollout one_release readings running_rollback (rolled good_outcome) running in
    Unapplied running_rollback running ended
    ⊎ Applied one_release running_rollback (rolled good_outcome) running ended
after_rollout-Atomic_example =
    after_rollout-Atomic one_release readings running_rollback (rolled good_outcome) running
