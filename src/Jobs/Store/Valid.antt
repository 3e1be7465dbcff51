-- ===== src/Jobs/Store/Valid.antt =====
-- The rows that the store keeps: what each status says of the lease, the finish, the key and the
-- attempts of a job.
use blitze_cdn_cp.Prelude.{
  ℕ, ◌≤◌, ◌<◌, String, true, false, Option, none, some, ◌≡◌, ◌≢◌, refl, arith, All, All-of, All-at,
  Memᴰ, subst, sym, All-both,
}
use blitze_cdn_cp.Sql.{update_where}
use blitze_cdn_cp.Sql.Laws.{All-update_where}
use blitze_cdn_cp.Jobs.Domain.{Job, JobStatus, Message, Payload, is_running}
use blitze_cdn_cp.Jobs.Store.{
  Jobs, runnable, fenced, held, deferrable, leased, retired, completed, failing, deferred, renewed,
  spent, abandon, claim,
}
use blitze_cdn_cp.Jobs.Store.ClaimLoop.{claim_rule, next_runnable-some}
use blitze_cdn_cp.Jobs.Store.Claiming.{fenced-id}
use blitze_cdn_cp.Jobs.Store.Keys.{UniqueIds, UniqueIds-eq, take_row_lem, abandon-UniqueIds}

-- A pending job is not leased and has an attempt left. A running one is leased, and is in one of
-- its attempts. A finished one is not leased, and holds no key.
abbrev pub Shape : JobStatus → Job → Type 0
Shape JobStatus.pending r =
    (r.leased_until ≡ none)
    × (r.leased_by ≡ none)
    × (r.finished_at ≡ none)
    × (r.attempts < r.max_attempts)
Shape JobStatus.running r =
    (r.leased_until ≢ none)
    × (r.leased_by ≢ none)
    × (r.finished_at ≡ none)
    × (0 < r.attempts)
    × (r.attempts ≤ r.max_attempts)
Shape _ r =
    (r.leased_until ≡ none)
    × (r.leased_by ≡ none)
    × (r.finished_at ≢ none)
    × (r.dedupe_key ≡ none)
    × (r.attempts ≤ r.max_attempts)

abbrev pub IsValid : Job → Type 0
IsValid r = Shape r.status r

-- A valid job has not been run more often than it may be.
pub attempts-le-max : (r : Job) → IsValid r → r.attempts ≤ r.max_attempts
attempts-le-max r v = at_status r.status v
  where
    at_status : (s : JobStatus) → Shape s r → r.attempts ≤ r.max_attempts
    at_status JobStatus.pending v = omega arith
    at_status JobStatus.running v = omega arith
    at_status _ v = omega arith

runnable-Shape :
    (now : ℕ) (r : Job) (s : JobStatus)
    → r.status ≡ s
    → Shape s r
    → runnable now r ≡ true
    → spent r ≡ false
    → r.attempts < r.max_attempts × (r.finished_at ≡ none)
unfolding runnable spent
runnable-Shape now r JobStatus.pending e v h k = (v.3, v.2)
runnable-Shape now r JobStatus.running e v h k = ground arith
runnable-Shape now r JobStatus.succeeded e v h k = ground arith
runnable-Shape now r JobStatus.failed e v h k = ground arith

pub leased-IsValid :
    (worker : String) (now lease : ℕ) (r : Job)
    → IsValid r
    → runnable now r ≡ true
    → spent r ≡ false
    → IsValid (leased worker now lease r r)
unfolding leased
leased-IsValid worker now lease r v h k =
    let (room, open_) = runnable-Shape now r r.status refl v h k in
    (λ e. cc e, λ e. cc e, open_, omega arith, omega arith)

pub retired-IsValid : (row : Job) (now : ℕ) (r : Job) → IsValid r → IsValid (retired row now r)
unfolding retired
retired-IsValid row now r v = (refl, refl, (λ e. cc e), refl, attempts-le-max r v)

-- A held row is running.
pub held-Shape :
    (id : String) (fence : ℕ) (r : Job)
    → IsValid r
    → held id fence r ≡ true
    → Shape JobStatus.running r
unfolding held
held-Shape id fence r v h = at_status r.status refl v
  where
    at_status : (s : JobStatus) → r.status ≡ s → Shape s r → Shape JobStatus.running r
    at_status JobStatus.running e w = w
    at_status JobStatus.pending e w = ground arith
    at_status JobStatus.succeeded e w = ground arith
    at_status JobStatus.failed e w = ground arith

module _ (id : String) (fence : ℕ) (r : Job) (v : IsValid r) where
  pub completed-IsValid :
      (now : ℕ) (result : Option Payload)
      → held id fence r ≡ true
      → IsValid (completed now result r)
  unfolding completed
  completed-IsValid now result h = (refl, refl, (λ e. cc e), refl, attempts-le-max r v)

  -- A retry is for a row that has an attempt left.
  pub failing-IsValid :
      (now : ℕ) (error : Message) (retry_at : Option ℕ)
      → held id fence r ≡ true
      → (retry_at ≢ none → r.attempts < r.max_attempts)
      → IsValid (failing now error retry_at r)
  unfolding failing
  failing-IsValid now error none h left = (refl, refl, (λ e. cc e), refl, attempts-le-max r v)
  failing-IsValid now error (some t) h left =
      (refl, refl, (held-Shape id fence r v h).2, left (λ e. cc e))

  pub deferred-IsValid :
      (retry_at : ℕ) (error : Message)
      → deferrable id fence r ≡ true
      → IsValid (deferred fence retry_at error r)
  unfolding deferred deferrable
  deferred-IsValid retry_at error h =
      let w = held-Shape id fence r v (ground arith) in (refl, refl, refl, omega (arith, w.3, w.4))

  pub renewed-IsValid : (until : ℕ) → held id fence r ≡ true → IsValid (renewed until r)
  unfolding renewed held
  renewed-IsValid until h =
      let w = held-Shape id fence r v h in
      let running : r.status ≡ JobStatus.running = at_status r.status refl (ground arith) in
      subst (λ s. Shape s (renewed until r)) (sym running) ((λ e. cc e), w.1, w.2, w.3, w.4)
    where
      at_status :
          (s : JobStatus) → r.status ≡ s → is_running r.status ≡ true → r.status ≡ JobStatus.running
      at_status JobStatus.running e h = e
      at_status JobStatus.pending e h = ground arith
      at_status JobStatus.succeeded e h = ground arith
      at_status JobStatus.failed e h = ground arith

leased-All-IsValid :
    (worker : String) (now lease : ℕ) (row : Job) (rows : Jobs)
    → UniqueIds rows
    → Memᴰ row rows
    → runnable now row ≡ true
    → spent row ≡ false
    → All IsValid rows
    → All IsValid (update_where (fenced row.id row.fence) (leased worker now lease row) rows)
leased-All-IsValid worker now lease row rows unique m run left h =
    All-update_where (λ r. IsValid r × (r.id ≡ row.id → r ≡ row)) IsValid _ _ rows
      (λ r k e.
        subst (λ z. IsValid (leased worker now lease row z)) (sym (k.1 (fenced-id row r e)))
          (leased-IsValid worker now lease row (All-at IsValid rows h m) run left))
      (λ r k _. k.0)
      (All-both _ _ rows h (All-of _ rows (λ r k same. UniqueIds-eq rows unique k m same)))

-- A claim keeps the rows valid.
pub claim-IsValid :
    (worker : String) (now lease : ℕ) (rows : Jobs)
    → UniqueIds rows
    → All IsValid rows
    → All IsValid (claim worker now lease rows).1
unfolding abandon
claim-IsValid worker now lease rows unique h =
    claim_rule worker now lease (λ t. UniqueIds t × All IsValid t) (λ a. All IsValid a.1)
      (λ row t i _ _. (
        abandon-UniqueIds row now t i.0,
        All-update_where IsValid IsValid _ _ t (λ r v _. retired-IsValid row now r v) (λ r v _. v)
            i.1,
      ))
      (λ t i _. i.1)
      (λ row t i found left.
        let (m, run, _) = next_runnable-some now t found in
        rw (take_row_lem worker now lease row t i.0 m)
          (leased-All-IsValid worker now lease row t i.0 m run left i.1))
      rows (unique, h)
