-- ===== src/Deployments/Admission/Examples.antt =====
-- A deployment that is admitted with a job, and converged.
use blitze_cdn_cp.Prelude.{
  ℕ, ◌==◌, string_eq, String, Option, ◌+◌, [], ◌∷◌, true, false, some, none, ◌≡◌, refl, length,
}
use blitze_cdn_cp.Sql.{matches, first_where, select_where, order_by, drop_surplus, update_where}
use blitze_cdn_cp.Deployments.Targets.{has_id, new_target, plan, is_repeated, has_edge}
use blitze_cdn_cp.Deployments.Rollout.{RunStatus, Reply, answered, Outside}
use blitze_cdn_cp.Deployments.History.{
  Deployment, keyed, new_deployment, create_deployment, prune_history,
}
use blitze_cdn_cp.Deployments.Convergence.{Setting, Readings, Control, planned_edges, converge}
use blitze_cdn_cp.Deployments.Convergence.Endings.{rollout_of}
use blitze_cdn_cp.Deployments.Convergence.Finishing.{Finished, LeavesRow}
use blitze_cdn_cp.Deployments.Admission.{
  Admission, Ledger, admitted, queue, has_references, cascade, with_row,
}
use blitze_cdn_cp.Deployments.Admission.Submitted.{admitted-Finished}

-- The queue of the jobs is the list of their deployments here.
abbrev ledger : Ledger ℕ
ledger = record { history = []; fleet = record { deployments = []; targets = [] }; jobs = 0 }

abbrev wish : Admission
wish = record {
  operator = "ops";
  check = false;
  release_id = "r1";
  rollback_of = none;
  host_limit = none;
  canonical_digest = none;
  edges = "fra1" ∷ [];
  background = true;
}

abbrev enqueue : String → ℕ → Option ℕ
enqueue id jobs = some (jobs + 1)

abbrev queued : Deployment
queued = new_deployment "d1" "ops" false "r1" none none none 1

abbrev after : Ledger ℕ
after = record {
  history = queued ∷ [];
  fleet = record {
    deployments = (record { id = "d1"; generation = 0 }) ∷ [];
    targets = new_target "d1" 0 "fra1" ∷ [];
  };
  jobs = 1;
}

admits : queue enqueue (λ id. id == "r1") 5 "d1" 1 wish ledger ≡ admitted queued after
unfolding has_references queue create_deployment plan is_repeated has_edge cascade prune_history
    with_row matches first_where select_where order_by keyed has_id drop_surplus update_where
admits = refl

abbrev failing : Outside
failing = record {
  run = λ _ _ _ _. Reply.ran (record { status = RunStatus.failed; summary = "unreachable" });
  verify = λ _ _ _. answered [];
  public_address = λ _ _. none;
  publish = λ _. none;
  meanwhile = λ _ db. db;
  clock = λ calls. length calls;
}

abbrev setting : Setting ℕ
setting = record {
  releases = record {
    known = λ id. true;
    inputs_for = λ id. some 3;
    digest = λ canonical. "digest";
  };
  out = failing;
  selected = "fra1" ∷ [];
  during = λ s. s;
  interrupted = some (record { name = "KeyboardInterrupt"; leaves = λ w. w });
}

abbrev times : Readings
times = record {
  started = 2;
  unstarted = 3;
  finished = 4;
  failed = 5;
  unstarted_id = "run-1";
  failed_id = "run-2";
}

abbrev control : Control ℕ
control = record {
  shared = record { history = after.history; required = false; canonical = 7 };
  world = record { db = after.fleet; calls = [] };
}

leaves : LeavesRow "d1" setting.during
unfolding LeavesRow
leaves = λ s. refl

admitted-Finished_example :
    let (ran, c') = converge setting times queued control in
    Finished "d1" setting.interrupted
      (rollout_of setting queued (planned_edges queued control) control)
      (ran, c'.shared)
admitted-Finished_example =
    admitted-Finished enqueue (λ id. id == "r1") 5 "d1" 1 wish ledger after queued setting times
      control admits refl leaves
