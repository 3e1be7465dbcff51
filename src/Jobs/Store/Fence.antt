-- ===== src/Jobs/Store/Fence.antt =====
-- Fencing: what a claim's token proves, in every history of calls.
use blitze_cdn_cp.Prelude.{
  ℕ, suc, ◌+◌, ◌≤◌, ◌<◌, String, List, [], ◌∷◌, Memᴰ, Bool, true, false, Option, none, some, ◌≡◌,
  inl, inr, ap, subst, sym, ◌∙◌, arith, All, All-at, All-of, All-mono, All-snoc, eq_iff, Bool-cases,
  string_eq,
}
use blitze_cdn_cp.Sql.{update_where, delete_where, matches}
use blitze_cdn_cp.Sql.Laws.{
  All-update_where, All-select_where, update_where_unmatched, matches_unmatched,
}
use blitze_cdn_cp.Jobs.Domain.{Job, JobClaim, Payload, Message}
use blitze_cdn_cp.Jobs.Store.{
  Jobs, enqueue, claim, take_row, abandon, spent, next_runnable, complete, fail, defer, renew,
  prune, fenced, held, deferrable, leased, failing, violates,
}
use blitze_cdn_cp.Jobs.Store.ClaimLoop.{claim_rule, fenced_self, next_runnable-some}
use blitze_cdn_cp.Jobs.Store.Keys.{
  UniqueIds, UniqueIds-eq, abandon-UniqueIds, take_row_lem, claim-UniqueIds, run_ops-UniqueIds,
}
use blitze_cdn_cp.Jobs.Store.Ops.{
  Op, enqueues, claims, completes, fails, defers, renews, prunes, apply, run_ops, NeverInserts,
}

-- Every row of this job carries at least this fence.
abbrev pub FenceFrom : String → ℕ → Job → Type 0
FenceFrom id n r = r.id ≡ id → n ≤ r.fence

module _ (id : String) (n : ℕ) where
  fenced-fence : (j : String) (fence : ℕ) (r : Job) → fenced j fence r ≡ true → r.fence ≡ fence
  unfolding fenced
  fenced-fence j fence r h = ground arith

  deferrable-fence :
      (j : String) (fence : ℕ) (r : Job) → deferrable j fence r ≡ true → r.fence ≡ fence
  unfolding deferrable fenced
  deferrable-fence j fence r h = ground arith

  failing-FenceFrom :
      (now : ℕ) (error : Message) (retry_at : Option ℕ) (r : Job)
      → FenceFrom id n r
      → FenceFrom id n (failing now error retry_at r)
  unfolding failing
  failing-FenceFrom now error none r h = h
  failing-FenceFrom now error (some t) r h = h

  abandon-FenceFrom :
      (row : Job) (now : ℕ) (rows : Jobs)
      → All (FenceFrom id n) rows
      → All (FenceFrom id n) (abandon row now rows)
  unfolding abandon
  abandon-FenceFrom row now rows =
      All-update_where _ _ _ _ rows
        (λ r h e same. omega (arith, h same, fenced-fence row.id row.fence r e)) (λ r h e. h)

  take_row-FenceFrom :
      (worker : String) (now lease : ℕ) (row : Job) (rows : Jobs)
      → All (FenceFrom id n) rows
      → All (FenceFrom id n) (take_row worker now lease row rows).1
  unfolding take_row
  take_row-FenceFrom worker now lease row rows h =
      elim (Bool-cases (matches (fenced row.id row.fence) rows)) [
        | inl e ↦ rw e (
            All-update_where _ _ _ _ rows
              (λ r k e same. omega (arith, k same, fenced-fence row.id row.fence r e)) (λ r h e. h)
              h)
        | inr e ↦ rw e h
      ]

  pub claim-FenceFrom :
      (worker : String) (now lease : ℕ) (rows : Jobs)
      → All (FenceFrom id n) rows
      → All (FenceFrom id n) (claim worker now lease rows).1
  claim-FenceFrom worker now lease =
      claim_rule worker now lease (All (FenceFrom id n)) (λ a. All (FenceFrom id n) a.1)
        (λ row rows h _ _. abandon-FenceFrom row now rows h) (λ rows h _. h)
        (λ row rows h _ _. take_row-FenceFrom worker now lease row rows h)

  -- No call but an insert under this identifier lowers its fence.
  apply-FenceFrom :
      (op : Op) (ops : List Op) (rows : Jobs)
      → NeverInserts id (op ∷ ops)
      → All (FenceFrom id n) rows
      → All (FenceFrom id n) (apply op rows) × NeverInserts id ops
  unfolding apply enqueue complete fail defer renew prune delete_where
  apply-FenceFrom (enqueues row) ops rows never h = (kept, never.1)
    where
      kept : All (FenceFrom id n) (enqueue row rows).1
      kept = elim (Bool-cases (violates row rows)) [
        | inl e ↦ rw e h
        | inr e ↦ rw e (All-snoc (FenceFrom id n) rows row h (λ same. absurd (never.0 same)))
      ]
  apply-FenceFrom (claims worker now lease) ops rows never h =
      (claim-FenceFrom worker now lease rows h, never)
  apply-FenceFrom (completes j fence now result) ops rows never h =
      (All-update_where _ _ _ _ rows (λ r k _. k) (λ r k _. k) h, never)
  apply-FenceFrom (fails j fence now error retry_at) ops rows never h = (
    All-update_where _ _ _ _ rows (λ r k _. failing-FenceFrom now error retry_at r k) (λ r k _. k)
        h,
    never,
  )
  apply-FenceFrom (defers j fence retry_at error) ops rows never h = (
    All-update_where _ _ _ _ rows
        (λ r k e same. omega (arith, k same, deferrable-fence j fence r e)) (λ r k _. k) h,
    never,
  )
  apply-FenceFrom (renews j fence until) ops rows never h =
      (All-update_where _ _ _ _ rows (λ r k _. k) (λ r k _. k) h, never)
  apply-FenceFrom (prunes keep) ops rows never h = (All-select_where _ _ rows h, never)

  pub run_ops-FenceFrom :
      (ops : List Op) (rows : Jobs)
      → NeverInserts id ops
      → All (FenceFrom id n) rows
      → All (FenceFrom id n) (run_ops ops rows)
  unfolding run_ops
  run_ops-FenceFrom [] rows never h = h
  run_ops-FenceFrom (op ∷ ops) rows never h =
      let (kept, rest) = apply-FenceFrom op ops rows never h in
      run_ops-FenceFrom ops (apply op rows) rest kept

leased-FenceFrom :
    (worker : String) (now lease : ℕ) (row : Job) (rows : Jobs)
    → UniqueIds rows
    → Memᴰ row rows
    → All
        (FenceFrom row.id (row.fence + 1))
        (update_where (fenced row.id row.fence) (leased worker now lease row) rows)
unfolding leased
leased-FenceFrom worker now lease row rows unique m =
    All-update_where (λ r. r.id ≡ row.id → r ≡ row) (FenceFrom row.id (row.fence + 1))
      (fenced row.id row.fence) (leased worker now lease row) rows (λ r _ _ _. omega arith)
      (λ r one e same. absurd (cc (one same, e, fenced_self row)))
      (All-of _ rows (λ r k same. UniqueIds-eq rows unique k m same))

-- What a claim answers, if it answers a job.
module _ (worker : String) (now lease : ℕ) (c : JobClaim) where
  abbrev IsAbove : String → ℕ → Option JobClaim × Jobs → Type 0
  IsAbove id n answer = answer.0 ≡ some c → c.job.id ≡ id → n < c.fence

  -- The token of a claim is above the fences that its job had.
  pub claim_above :
      (id : String) (n : ℕ) (rows : Jobs)
      → UniqueIds rows
      → All (FenceFrom id n) rows
      → (claim worker now lease rows).0 ≡ some c
      → c.job.id ≡ id
      → n < c.fence
  unfolding leased
  claim_above id n rows unique h =
      claim_rule worker now lease (λ t. UniqueIds t × All (FenceFrom id n) t) (IsAbove id n)
        (λ row t i _ _. (abandon-UniqueIds row now t i.0, abandon-FenceFrom id n row now t i.1))
        (λ t _ _ e. absurd (cc e)) takes rows (unique, h)
    where
      takes :
          (row : Job) (t : Jobs)
          → UniqueIds t × All (FenceFrom id n) t
          → next_runnable now t ≡ some row
          → spent row ≡ false
          → IsAbove id n (take_row worker now lease row t)
      takes row t i found left e same =
          let (m, _, _) = next_runnable-some now t found in
          let above : row.id ≡ id → n ≤ row.fence = All-at (FenceFrom id n) t i.1 m in
          ground (arith, take_row_lem worker now lease row t i.0 m, above)

  -- After it, every row of the job carries at least the token.
  pub claim-FenceFrom_self :
      (rows : Jobs)
      → UniqueIds rows
      → (claim worker now lease rows).0 ≡ some c
      → All (FenceFrom c.job.id c.fence) (claim worker now lease rows).1
  unfolding leased
  claim-FenceFrom_self rows unique =
      claim_rule worker now lease UniqueIds
        (λ a. a.0 ≡ some c → All (FenceFrom c.job.id c.fence) a.1)
        (λ row t i _ _. abandon-UniqueIds row now t i) (λ t _ _ e. absurd (cc e)) takes rows unique
    where
      takes :
          (row : Job) (t : Jobs)
          → UniqueIds t
          → next_runnable now t ≡ some row
          → spent row ≡ false
          → (take_row worker now lease row t).0 ≡ some c
          → All (FenceFrom c.job.id c.fence) (take_row worker now lease row t).1
      takes row t i found left e =
          let (m, _, _) = next_runnable-some now t found in
          let shape = take_row_lem worker now lease row t i m in
          let same : record { job = leased worker now lease row row; fence = row.fence + 1 } ≡ c =
            cc (ap (λ (a : Option JobClaim × Jobs). a.0) shape) in
          subst (λ k. All (FenceFrom k.job.id k.fence) (take_row worker now lease row t).1) same
            (rw (ap (λ (a : Option JobClaim × Jobs). a.1) shape)
              (leased-FenceFrom worker now lease row t i m))

-- A report under a token that the job's rows have passed changes nothing, and is refused.
module _ (id : String) (fence : ℕ) (rows : Jobs) where
  passed-unmatched :
      (p : Job → Bool)
      → ((r : Job) → p r ≡ true → fenced id fence r ≡ true)
      → All (FenceFrom id (suc fence)) rows
      → All (λ r. p r ≡ false) rows
  unfolding fenced
  passed-unmatched p sub h =
      All-mono (FenceFrom id (suc fence)) (λ r. p r ≡ false) rows
        (λ r k. elim (Bool-cases (p r)) [
          | inl e ↦ absurd (ground (arith, sub r e, k, eq_iff r.id id))
          | inr e ↦ e
        ])
        h

  -- The four reports of a worker on its claim.
  abbrev pub Refused : Bool × Jobs → Type 0
  Refused answer = (answer.0 ≡ false) × (answer.1 ≡ rows)

  reports-Refused :
      (now until : ℕ) (result : Option Payload) (error : Message) (retry_at : Option ℕ)
      → All (FenceFrom id (suc fence)) rows
      → Refused (complete id fence now result rows)
        × Refused (fail id fence now error retry_at rows)
        × Refused (defer id fence until error rows)
        × Refused (renew id fence until rows)
  unfolding complete fail defer renew held deferrable
  reports-Refused now until result error retry_at h =
      let none_held = passed-unmatched (held id fence) (λ r e. ground arith) h in
      let none_deferrable = passed-unmatched (deferrable id fence) (λ r e. ground arith) h in
      (
        (matches_unmatched _ rows none_held, update_where_unmatched _ _ rows none_held),
        (matches_unmatched _ rows none_held, update_where_unmatched _ _ rows none_held),
        (matches_unmatched _ rows none_deferrable, update_where_unmatched _ _ rows none_deferrable),
        (matches_unmatched _ rows none_held, update_where_unmatched _ _ rows none_held),
      )

-- Two claims of one job, with any calls in between that do not insert under its identifier: the
-- token of the later claim is the greater.
pub claims_rise :
    (rows : Jobs) (c d : JobClaim) (ops : List Op) (worker worker' : String)
    (now lease now' lease' : ℕ)
    → UniqueIds rows
    → (claim worker now lease rows).0 ≡ some c
    → NeverInserts c.job.id ops
    → (claim worker' now' lease' (run_ops ops (claim worker now lease rows).1)).0 ≡ some d
    → d.job.id ≡ c.job.id
    → c.fence < d.fence
claims_rise rows c d ops worker worker' now lease now' lease' unique e never e' same =
    claim_above worker' now' lease' d c.job.id c.fence _
      (run_ops-UniqueIds ops _ (claim-UniqueIds worker now lease rows unique))
      (run_ops-FenceFrom c.job.id c.fence ops _ never
        (claim-FenceFrom_self worker now lease c rows unique e))
      e' same

-- A worker whose job was claimed again, under whatever calls before and after that do not insert
-- under its identifier, can no longer complete, fail, defer or renew it: each report is refused
-- and leaves the table as it was.
pub old_claim_shut_out :
    (rows : Jobs) (c d : JobClaim) (ops ops' : List Op) (worker worker' : String)
    (now lease now' lease' t until : ℕ) (result : Option Payload) (error : Message)
    (retry_at : Option ℕ)
    → UniqueIds rows
    → (claim worker now lease rows).0 ≡ some c
    → NeverInserts c.job.id ops
    → (claim worker' now' lease' (run_ops ops (claim worker now lease rows).1)).0 ≡ some d
    → d.job.id ≡ c.job.id
    → NeverInserts c.job.id ops'
    → let later =
        run_ops ops' (claim worker' now' lease' (run_ops ops (claim worker now lease rows).1)).1 in
      Refused c.job.id c.fence later (complete c.job.id c.fence t result later)
      × Refused c.job.id c.fence later (fail c.job.id c.fence t error retry_at later)
      × Refused c.job.id c.fence later (defer c.job.id c.fence until error later)
      × Refused c.job.id c.fence later (renew c.job.id c.fence until later)
old_claim_shut_out rows c d ops ops' worker worker' now lease now' lease' t until result error
      retry_at unique e never e' same never' =
    reports-Refused c.job.id c.fence _ t until result error retry_at (
      run_ops-FenceFrom c.job.id (suc c.fence) ops' _ never' (
        All-mono (FenceFrom d.job.id d.fence) (FenceFrom c.job.id (suc c.fence)) _
          (λ r k h. omega (arith, rises, k (h ∙ sym same)))
          (claim-FenceFrom_self worker' now' lease' d _ between e')))
  where
    between : UniqueIds (run_ops ops (claim worker now lease rows).1)
    between = run_ops-UniqueIds ops _ (claim-UniqueIds worker now lease rows unique)

    rises : c.fence < d.fence
    rises = claims_rise rows c d ops worker worker' now lease now' lease' unique e never e' same
