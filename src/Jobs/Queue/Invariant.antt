-- ===== src/Jobs/Queue/Invariant.antt =====
-- What holds of the job table in every state of the system.
use blitze_cdn_cp.Prelude.{
  ℕ, ◌<◌, String, List, Option, none, Bool, true, false, ◌≡◌, ◌≢◌, refl, inl, inr, arith, All,
  All-at, All-mono, All-of, All-both, All-snoc, Memᴰ, Bool-cases, eq_iff,
}
use blitze_cdn_cp.Sql.{update_where, delete_where}
use blitze_cdn_cp.Sql.Laws.{All-update_where, All-select_where, Pairwise-select_where}
use blitze_cdn_cp.Jobs.Domain.{Job, JobClaim, JobOutcome, Payload, Message}
use blitze_cdn_cp.Jobs.Store
use blitze_cdn_cp.Jobs.Store.{
  Jobs, new_job, violates, held, deferrable, completed, failing, deferred, renewed, fenced,
}
use blitze_cdn_cp.Jobs.Store.Keys.{
  UniqueIds, update_where-UniqueIds, failing-id, claim-UniqueIds, enqueue-UniqueIds,
}
use blitze_cdn_cp.Jobs.Store.Valid.{
  IsValid, claim-IsValid, completed-IsValid, failing-IsValid, deferred-IsValid, renewed-IsValid,
}
use blitze_cdn_cp.Jobs.Store.SingleFlight.{
  Apart, SingleFlight, Releases, update_where-SingleFlight, completed-Releases, failing-Releases,
  deferred-Releases, renewed-Releases, enqueue-SingleFlight, claim-SingleFlight,
}
use blitze_cdn_cp.Jobs.Queue.{Ending, settle, fail, retry_time, outcome, stranger, raises}
use blitze_cdn_cp.Jobs.Queue.Current.{
  IsCurrent, Ages, update_where-IsCurrent, completed-Ages, failing-Ages, deferred-Ages,
  renewed-Ages, claim-IsCurrent, claim-IsCurrent_self,
}
use blitze_cdn_cp.Jobs.Queue.System.{
  System, IsFresh, empty, Step, publish, take, idle, report, orphan, renews, prunes, Reach, here,
  next,
}

-- The table keeps its keys, its rows have the shapes of their statuses, no two unfinished jobs
-- hold one key, and what each claim knows of its job is true.
pub record Inv (held_by : List JobClaim) (rows : Jobs) : Type 0 where
  pub unique : UniqueIds rows
  pub valid : All IsValid rows
  pub single : SingleFlight rows
  pub current : All (λ c. All (IsCurrent c) rows) held_by

-- A statement that updates the rows that meet its condition, under what is known of every row.
record IsUpdate (P : Job → Type 0) (p : Job → Bool) (f : Job → Job) : Type 0 where
  same : (r : Job) → (f r).id ≡ r.id
  valid : (r : Job) → IsValid r → P r → p r ≡ true → IsValid (f r)
  releases : (r : Job) → p r ≡ true → Releases r (f r)
  ages : (r : Job) → p r ≡ true → Ages r (f r)

update-Inv :
    (held_by : List JobClaim) (P : Job → Type 0) (p : Job → Bool) (f : Job → Job) (rows : Jobs)
    → IsUpdate P p f
    → All P rows
    → Inv held_by rows
    → Inv held_by (update_where p f rows)
update-Inv held_by P p f rows u k inv = record {
  unique = update_where-UniqueIds f u.same p rows inv.unique;
  valid =
      All-update_where (λ r. IsValid r × P r) IsValid p f rows (λ r h e. u.valid r h.0 h.1 e)
        (λ r h _. h.0) (All-both IsValid P rows inv.valid k);
  single = update_where-SingleFlight P p f rows (λ r _ e. u.releases r e) k inv.single;
  current = All-mono _ _ held_by (λ c h. update_where-IsCurrent c p f rows u.ages h) inv.current;
}

no_more : (rows : Jobs) → All (λ _. Unit {0}) rows
no_more rows = All-of _ rows (λ _ _. tt)

module _ (held_by : List JobClaim) (rows : Jobs) (inv : Inv held_by rows) where
  complete-Inv :
      (id : String) (fence now : ℕ) (result : Option Payload)
      → Inv held_by (Store.complete id fence now result rows).1
  unfolding Store.complete
  complete-Inv id fence now result =
      update-Inv held_by (λ _. Unit) _ _ rows
        (record {
          same = λ r. refl;
          valid = λ r v _ e. completed-IsValid id fence r v now result e;
          releases = λ r _. completed-Releases id fence r now result;
          ages = λ r _. completed-Ages now result r;
        })
        (no_more rows) inv

  defer-Inv :
      (id : String) (fence retry_at : ℕ) (error : Message)
      → Inv held_by (Store.defer id fence retry_at error rows).1
  unfolding Store.defer
  defer-Inv id fence retry_at error =
      update-Inv held_by (λ _. Unit) _ _ rows
        (record {
          same = λ r. refl;
          valid = λ r v _ e. deferred-IsValid id fence r v retry_at error e;
          releases = λ r e. deferred-Releases id fence r retry_at error e;
          ages = λ r e. deferred-Ages id fence retry_at error r e;
        })
        (no_more rows) inv

  renew-Inv : (id : String) (fence until : ℕ) → Inv held_by (Store.renew id fence until rows).1
  unfolding Store.renew
  renew-Inv id fence until =
      update-Inv held_by (λ _. Unit) _ _ rows
        (record {
          same = λ r. refl;
          valid = λ r v _ e. renewed-IsValid id fence r v until e;
          releases = λ r _. renewed-Releases id fence r until;
          ages = λ r _. renewed-Ages until r;
        })
        (no_more rows) inv

  -- A failure by the queue retries only a row that has an attempt left.
  retry_has_room :
      (c : JobClaim) (permanent : Bool) (now : ℕ) (r : Job)
      → IsCurrent c r
      → held c.job.id c.fence r ≡ true
      → retry_time c.job permanent now ≢ none
      → r.attempts < r.max_attempts
  unfolding retry_time held fenced
  retry_has_room c permanent now r k e again = ground (arith, k, eq_iff r.id c.job.id)

  fail-Inv :
      (c : JobClaim) (error : Message) (permanent : Bool) (now : ℕ)
      → Memᴰ c held_by
      → Inv held_by (fail c error permanent now rows).1
  unfolding fail Store.fail
  fail-Inv c error permanent now m =
      update-Inv held_by (IsCurrent c) _ _ rows
        (record {
          same = failing-id now error _;
          valid = λ r v k e.
              failing-IsValid c.job.id c.fence r v now error _ e
                (retry_has_room c permanent now r k e);
          releases = λ r e. failing-Releases c.job.id c.fence r now error _ e;
          ages = λ r _. failing-Ages now error _ r;
        })
        (All-at _ held_by inv.current m) inv

  settle-Inv :
      (c : JobClaim) (ending : Ending) (now : ℕ)
      → Memᴰ c held_by
      → Inv held_by (settle c ending now rows).1
  unfolding settle
  settle-Inv c (outcome (JobOutcome.done result)) now m = complete-Inv c.job.id c.fence now result
  settle-Inv c (outcome (JobOutcome.defer text)) now m = defer-Inv c.job.id c.fence _ _
  settle-Inv c (outcome (JobOutcome.retry text)) now m = fail-Inv c _ false now m
  settle-Inv c (outcome (JobOutcome.fail text)) now m = fail-Inv c _ true now m
  settle-Inv c stranger now m = fail-Inv c _ true now m
  settle-Inv c (raises type text) now m = fail-Inv c _ false now m

  claim-Inv : (worker : String) (now lease : ℕ) → Inv held_by (Store.claim worker now lease rows).1
  claim-Inv worker now lease = record {
    unique = claim-UniqueIds worker now lease rows inv.unique;
    valid = claim-IsValid worker now lease rows inv.unique inv.valid;
    single = claim-SingleFlight worker now lease rows inv.unique inv.single;
    current =
        All-mono _ _ held_by (λ c h. claim-IsCurrent c worker now lease rows inv.unique h)
          inv.current;
  }

  prune-Inv : (keep : ℕ) → Inv held_by (Store.prune keep rows).1
  unfolding Store.prune delete_where
  prune-Inv keep = record {
    unique = Pairwise-select_where _ _ rows inv.unique;
    valid = All-select_where _ _ rows inv.valid;
    single = Pairwise-select_where Apart _ rows inv.single;
    current = All-mono _ _ held_by (λ c h. All-select_where _ _ rows h) inv.current;
  }

  enqueue-Inv :
      (id kind : String) (payload : Payload) (at : ℕ) (key : Option String)
      (max_attempts created : ℕ)
      → IsFresh id held_by
      → Inv held_by (Store.enqueue (new_job id kind payload at key max_attempts created) rows).1
  unfolding Store.enqueue
  enqueue-Inv id kind payload at key max_attempts created fresh = record {
    unique = enqueue-UniqueIds row rows inv.unique;
    valid = added IsValid inv.valid (λ e. (refl, refl, refl, ground arith));
    single = enqueue-SingleFlight row rows inv.single;
    current =
        All-mono _ _ held_by (λ c h. added (IsCurrent c) h.0 (λ _ e. absurd (h.1 e)))
          (All-both _ _ held_by inv.current fresh);
  }
    where
      row : Job
      row = new_job id kind payload at key max_attempts created

      added :
          (P : Job → Type 0)
          → All P rows
          → (violates row rows ≡ false → P row)
          → All P (Store.enqueue row rows).1
      added P h k = elim (Bool-cases (violates row rows)) [
        | inl e ↦ rw e h
        | inr e ↦ rw e (All-snoc P rows row h (k e))
      ]

-- Every step of the system keeps the invariant.
pub Step-Inv : {s t : System} → Step s t → Inv s.held s.rows → Inv t.held t.rows
Step-Inv {s} (publish id kind payload at key max_attempts created fresh) inv =
    enqueue-Inv s.held s.rows inv id kind payload at key max_attempts created fresh
Step-Inv {s} (take worker now lease c e) inv =
    let kept = claim-Inv s.held s.rows inv worker now lease in
    record {
      unique = kept.unique;
      valid = kept.valid;
      single = kept.single;
      current = (claim-IsCurrent_self worker now lease s.rows c inv.unique e, kept.current);
    }
Step-Inv {s} (idle worker now lease e) inv = claim-Inv s.held s.rows inv worker now lease
Step-Inv {s} (report c ending now m) inv = settle-Inv s.held s.rows inv c ending now m
Step-Inv {s} (orphan c now m) inv = fail-Inv s.held s.rows inv c _ true now m
Step-Inv {s} (renews c until m) inv = renew-Inv s.held s.rows inv c.job.id c.fence until
Step-Inv {s} (prunes keep) inv = prune-Inv s.held s.rows inv keep

-- In every state that the queue can reach from an empty table, whatever publishers and workers do
-- and in whatever order, with identifiers never drawn again for a job that is held: identifiers
-- are unique, no two unfinished jobs hold one key, a pending job has an attempt left and no lease,
-- a running one has a lease and is in one of its attempts, and a finished one has neither lease
-- nor key and was never run more often than it may be.
pub Reach-Inv : {s : System} → Reach empty s → Inv s.held s.rows
Reach-Inv here = record { unique = tt; valid = tt; single = tt; current = tt }
Reach-Inv (next r st) = Step-Inv st (Reach-Inv r)
