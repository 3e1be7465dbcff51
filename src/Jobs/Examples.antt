-- ===== src/Jobs/Examples.antt =====
-- The theorems on jobs at concrete tables, and runs of the store and the queue.
use blitze_cdn_cp.Prelude.{
  ℕ, ◌≤◌, ◌<◌, String, List, [], ◌∷◌, Memᴰ, none, some, ◌≡◌, refl, arith, eq_iff,
}
use blitze_cdn_cp.Sql.{
  select_where, update_where, delete_where, matches, first_where, order_by, rows_affected,
}
use blitze_cdn_cp.Jobs.Domain.{Job, JobStatus, JobClaim, JobOutcome, Message, backoff_for, seconds}
use blitze_cdn_cp.Jobs.Backoff.{backoff_for_lem}
use blitze_cdn_cp.Jobs.Store
use blitze_cdn_cp.Jobs.Store.{Jobs, new_job, leased, claim}
use blitze_cdn_cp.Jobs.Store.Keys.{UniqueIds}
use blitze_cdn_cp.Jobs.Store.Ops.{Op, prunes, renews, apply, run_ops}
use blitze_cdn_cp.Jobs.Store.Fence.{Refused, claims_rise, old_claim_shut_out}
use blitze_cdn_cp.Jobs.Store.Handing.{HandsOut, claim-HandsOut}
use blitze_cdn_cp.Sql.Pruning.{Prunes}
use blitze_cdn_cp.Jobs.Domain.{is_terminal}
use blitze_cdn_cp.Jobs.Store.Pruning.{prune-Prunes}
use blitze_cdn_cp.Jobs.Queue.{outcome, settle}
use blitze_cdn_cp.Jobs.Queue.System.{here, next, publish, take, report}
use blitze_cdn_cp.Jobs.Queue.Invariant.{Inv, Reach-Inv}

abbrev waiting : Job
waiting = new_job "a" "deployment" [] 0 (some "deployment:1") 3 0

abbrev table : Jobs
table = waiting ∷ []

-- The first worker's claim, and that of the worker that takes over when the lease has lapsed.
abbrev first_claim : JobClaim
first_claim = record {
  job = record waiting {
    status = JobStatus.running;
    attempts = 1;
    leased_until = some 1000010;
    leased_by = some "w1";
    fence = 1;
  };
  fence = 1;
}

abbrev second_claim : JobClaim
second_claim = record {
  job = record waiting {
    status = JobStatus.running;
    attempts = 2;
    leased_until = some 3000000;
    leased_by = some "w2";
    fence = 2;
  };
  fence = 2;
}

claim_first : claim "w1" 10 1 table ≡ (some first_claim, first_claim.job ∷ [])
unfolding claim order_by select_where update_where matches first_where Store.runnable
    Store.due_before
claim_first = refl

claim_second :
    claim "w2" 2000000 1 (first_claim.job ∷ []) ≡ (some second_claim, second_claim.job ∷ [])
unfolding claim order_by select_where update_where matches first_where Store.runnable
    Store.due_before
claim_second = refl

backoff_for_lem_example :
    (backoff_for 3 ≤ backoff_for 12)
    × (seconds 2 ≤ backoff_for 3)
    × (backoff_for 12 ≤ seconds 300)
    × (9 ≤ 3 → backoff_for 3 ≡ seconds 300)
backoff_for_lem_example = backoff_for_lem 3 12 (omega arith)

abbrev housekeeping : List Op
housekeeping = prunes 5 ∷ renews "a" 7 9000000 ∷ []

claims_rise_example : 1 < 2
unfolding claim order_by select_where update_where matches first_where Store.runnable
    Store.due_before run_ops apply delete_where Store.prune Store.renew
claims_rise_example =
    claims_rise table first_claim second_claim housekeeping "w1" "w2" 10 1 2000000 1 (tt, tt) refl
      tt refl refl

old_claim_shut_out_example :
    let later = run_ops housekeeping (second_claim.job ∷ []) in
    Refused "a" 1 later (Store.complete "a" 1 2500000 none later)
    × Refused "a" 1 later (Store.fail "a" 1 2500000 (Message.said "late") none later)
    × Refused "a" 1 later (Store.defer "a" 1 0 (Message.said "late") later)
    × Refused "a" 1 later (Store.renew "a" 1 0 later)
unfolding claim order_by select_where update_where matches first_where Store.runnable
    Store.due_before run_ops apply delete_where Store.prune Store.renew
old_claim_shut_out_example =
    old_claim_shut_out table first_claim second_claim housekeeping housekeeping "w1" "w2" 10 1
      2000000 1 2500000 0 none (Message.said "late") none (tt, tt) refl tt refl refl tt

claim-HandsOut_example : HandsOut "w1" 10 1 table (claim "w1" 10 1 table)
claim-HandsOut_example = claim-HandsOut "w1" 10 1 table (tt, tt)

abbrev finished : String → ℕ → Job
finished id created = record (new_job id "scheduled" [] 0 none 1 created) {
  status = JobStatus.succeeded;
  finished_at = some 5;
}

abbrev history : Jobs
history = finished "b" 1 ∷ waiting ∷ finished "c" 2 ∷ []

history-UniqueIds : UniqueIds history
history-UniqueIds = (
  ((λ e. ground (arith, eq_iff "b" "a")), ((λ e. ground (arith, eq_iff "b" "c")), tt)),
  (((λ e. ground (arith, eq_iff "a" "c")), tt), (tt, tt)),
)

prune-Prunes_example :
    Prunes
      (λ r. r.id)
      (λ r. is_terminal r.status)
      (λ r. r.created_at)
      1
      history
      (Store.prune 1 history).1
prune-Prunes_example = prune-Prunes 1 history history-UniqueIds

prune_drops_oldest : Store.prune 1 history ≡ (1, waiting ∷ finished "c" 2 ∷ [])
unfolding Store.prune order_by select_where matches delete_where rows_affected
prune_drops_oldest = refl

Reach-Inv_example :
    Inv
      (first_claim ∷ [])
      (settle first_claim
        (outcome (JobOutcome.retry "busy"))
        20
        (claim "w1" 10 1 (Store.enqueue waiting []).1).1).1
unfolding claim order_by select_where update_where matches first_where Store.runnable
    Store.due_before Store.enqueue
Reach-Inv_example = Reach-Inv (
    next
      (next (next here (publish "a" "deployment" [] 0 (some "deployment:1") 3 0 tt))
        (take "w1" 10 1 first_claim refl))
      (report first_claim (outcome (JobOutcome.retry "busy")) 20 (Memᴰ.head refl)))

-- The first failure waits two seconds.
retry_waits :
    (settle first_claim (outcome (JobOutcome.retry "busy")) 20 (first_claim.job ∷ [])).1
    ≡ record waiting {
      attempts = 1;
      available_at = 2000020;
      fence = 1;
      last_error = some (Message.said "busy");
    }
      ∷ []
unfolding settle Store.fail update_where
retry_waits = refl
