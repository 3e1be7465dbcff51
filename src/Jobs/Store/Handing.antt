-- ===== src/Jobs/Store/Handing.antt =====
-- What `claim` of jobs/adapters/persistence.py promises a worker, in the words of the columns.
use blitze_cdn_cp.Prelude.{
  ℕ, ◌+◌, ◌*◌, ◌<◌, ◌≤◌, String, Memᴰ, true, Option, none, some, ◌≡◌, refl, ap, ◌⊎◌, inl, inr,
  arith, leb→le, nat_eq,
}
use blitze_cdn_cp.Jobs.Domain.{Job, JobStatus, JobClaim, is_pending, is_running, lapsed, seconds}
use blitze_cdn_cp.Jobs.Store.{Jobs, runnable, due_before, spent, leased, claim}
use blitze_cdn_cp.Jobs.Store.Keys.{UniqueIds}
use blitze_cdn_cp.Jobs.Store.Claiming.{
  IsOffered, SameOffer, IsAbandoned, ComesFrom, Takes, Answers, claim-Answers,
}

-- The lease of a running job has run out by now.
pub record HasLapsed (now : ℕ) (r : Job) : Type 0 where
  pub running : r.status ≡ JobStatus.running
  pub until : ℕ
  pub lease : r.leased_until ≡ some until
  pub over : until ≤ now

-- A job that a worker may be given now: one that waits and is available, or one whose lease has
-- lapsed and that has attempts left.
pub data OnOffer (now : ℕ) (r : Job) : Type 0 where
  waits : r.status ≡ JobStatus.pending → r.available_at ≤ now → OnOffer now r
  lapses : HasLapsed now r → r.attempts < r.max_attempts → OnOffer now r

-- A lapsed job without an attempt left, as it was failed.
abbrev pub GivenUp : ℕ → Jobs → Job → Type 0
GivenUp now rows r =
    (x : Job) × Memᴰ x rows
    × HasLapsed now x
    × (x.max_attempts ≤ x.attempts)
    × (r.id ≡ x.id)
    × (r.status ≡ JobStatus.failed)

-- What a claim gives a worker, and the table behind it.
pub record Hands (worker : String) (now lease : ℕ) (rows : Jobs) (c : JobClaim) (t : Jobs)
    : Type 0 where
  pub row : Job
  pub there : Memᴰ row rows
  pub offered : OnOffer now row
  pub oldest :
      (r : Job)
      → Memᴰ r rows
      → OnOffer now r
      → (row.available_at < r.available_at)
        ⊎ ((row.available_at ≡ r.available_at) × (row.created_at ≤ r.created_at))
  pub job : c.job ≡ record row {
    status = JobStatus.running;
    fence = row.fence + 1;
    attempts = row.attempts + 1;
    leased_by = some worker;
    leased_until = some (now + lease * 1000000);
  }
  pub fence : c.fence ≡ row.fence + 1
  pub stored : Memᴰ c.job t
  pub others : (r : Job) → Memᴰ r rows → OnOffer now r → ¬ (r.id ≡ row.id) → Memᴰ r t
  pub rest : (r : Job) → Memᴰ r t → (r ≡ c.job) ⊎ (Memᴰ r rows ⊎ GivenUp now rows r)

-- Without an answer no job is on offer, neither before nor after, and every row is as it was or was
-- given up.
unfoldable pub HandsOut : String → ℕ → ℕ → Jobs → Option JobClaim × Jobs → Type 0
HandsOut worker now lease rows (none, t) =
    ((r : Job) → Memᴰ r rows → ¬ OnOffer now r)
    × ((r : Job) → Memᴰ r t → ¬ OnOffer now r)
    × ((r : Job) → Memᴰ r t → Memᴰ r rows ⊎ GivenUp now rows r)
HandsOut worker now lease rows (some c, t) = Hands worker now lease rows c t

OnOffer-IsOffered : (now : ℕ) (r : Job) → OnOffer now r → IsOffered now r
unfolding runnable spent is_pending is_running lapsed
OnOffer-IsOffered now r (waits s h) = (rw s (ground arith), rw s refl)
OnOffer-IsOffered now r (lapses l h) =
    let over = l.over in (rw (l.running, l.lease) (ground arith), rw l.running (ground arith))

runnable-cases :
    (now : ℕ) (r : Job) (status : JobStatus) (until : Option ℕ)
    → r.status ≡ status
    → r.leased_until ≡ until
    → runnable now r ≡ true
    → ((r.status ≡ JobStatus.pending) × (r.available_at ≤ now)) ⊎ HasLapsed now r
unfolding runnable is_pending is_running lapsed
runnable-cases now r JobStatus.pending until s u h =
    inl (s, leb→le r.available_at now (let k = rw s at h in ground arith))
runnable-cases now r JobStatus.running none s u h = absurd (cc (rw (s, u) at h))
runnable-cases now r JobStatus.running (some until) s u h =
    inr (record { running = s; until = until; lease = u; over = leb→le until now (rw (s, u) at h) })
runnable-cases now r JobStatus.succeeded until s u h = absurd (cc (rw s at h))
runnable-cases now r JobStatus.failed until s u h = absurd (cc (rw s at h))

IsOffered-OnOffer : (now : ℕ) (r : Job) → IsOffered now r → OnOffer now r
unfolding spent is_running
IsOffered-OnOffer now r (run, left) =
    elim (runnable-cases now r r.status r.leased_until refl refl run) [
      | inl (s, h) ↦ waits s h
      | inr l ↦ let running = l.running in lapses l (let k = rw l.running at left in ground arith)
    ]

IsAbandoned-GivenUp :
    (now : ℕ) (rows : Jobs) (r : Job) → IsAbandoned now rows r → GivenUp now rows r
unfolding spent is_running is_pending
IsAbandoned-GivenUp now rows r (x, m, run, gone, same, failed) =
    elim (runnable-cases now x x.status x.leased_until refl refl run) [
      | inl (s, _) ↦ absurd (cc (rw s at gone))
      | inr l ↦ (x, m, l, leb→le x.max_attempts x.attempts (rw l.running at gone), same, failed)
    ]

due_before-cases :
    (a b : Job)
    → due_before a b ≡ true
    → (a.available_at < b.available_at)
      ⊎ ((a.available_at ≡ b.available_at) × (a.created_at ≤ b.created_at))
unfolding due_before
due_before-cases a b h = ground arith

module _ (worker : String) (now lease : ℕ) (rows : Jobs) where
  none-HandsOut :
      (t : Jobs)
      → SameOffer now rows t
      → ((r : Job) → Memᴰ r t → ¬ IsOffered now r)
      → ComesFrom now rows t
      → HandsOut worker now lease rows (none, t)
  unfolding HandsOut
  none-HandsOut t same absent from = (
    λ r m offer. (let o = OnOffer-IsOffered now r offer in absent r ((same r o).0 m) o),
    λ r m offer. absent r m (OnOffer-IsOffered now r offer),
    λ r m. elim (from r m) [ inl k ↦ inl k | inr gone ↦ inr (IsAbandoned-GivenUp now rows r gone) ],
  )

  Takes-Hands :
      (c : JobClaim) (t : Jobs) → Takes worker now lease rows c t → Hands worker now lease rows c t
  unfolding leased seconds
  Takes-Hands c t k = record {
    row = k.row;
    there = k.there;
    offered = IsOffered-OnOffer now k.row k.offered;
    oldest = λ r m offer. due_before-cases k.row r (k.oldest r m (OnOffer-IsOffered now r offer));
    job = ap (λ z. z.job) k.given;
    fence = ap (λ z. z.fence) k.given;
    stored = k.stored;
    others = λ r m offer. k.others r m (OnOffer-IsOffered now r offer);
    rest = λ r m. elim (k.rest r m) [
      | inl new ↦ inl new
      | inr (inl old) ↦ inr (inl old)
      | inr (inr gone) ↦ inr (inr (IsAbandoned-GivenUp now rows r gone))
    ];
  }

  Answers-HandsOut :
      (answer : Option JobClaim × Jobs)
      → Answers worker now lease rows answer
      → HandsOut worker now lease rows answer
  unfolding Answers HandsOut
  Answers-HandsOut (none, t) (same, absent, from) = none-HandsOut t same absent from
  Answers-HandsOut (some c, t) k = Takes-Hands c t k

  -- On a table with unique identifiers, a claim hands out a job that waits and is available, or that
  -- a lapsed lease left with attempts, and no other such job is available earlier, or as early and
  -- older. It hands it out running, leased to this worker for the lease from now on, with one attempt
  -- and one fence more, and the table holds it so. Every other job on offer stays, and every other
  -- row was there, or is a lapsed job with no attempt left that was failed. The claim answers none
  -- only if no job is on offer, and none is then on offer in the table that it leaves.
  pub claim-HandsOut : UniqueIds rows → HandsOut worker now lease rows (claim worker now lease rows)
  claim-HandsOut unique = Answers-HandsOut _ (claim-Answers worker now lease rows unique)
