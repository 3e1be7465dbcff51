-- ===== src/Jobs/Queue/Current.antt =====
-- What a claim knows of its job: as long as the row carries the claim's token, its attempts are
-- those that the claim was given; after that, the token is behind.
use blitze_cdn_cp.Prelude.{
  ℕ, ◌+◌, ◌<◌, String, Bool, true, Option, none, some, ◌≡◌, refl, ◌⊎◌, inl, inr, arith, All, All-of,
  Memᴰ, subst, sym, ap, ◌∙◌,
}
use blitze_cdn_cp.Sql.{update_where}
use blitze_cdn_cp.Sql.Laws.{All-update_where}
use blitze_cdn_cp.Jobs.Domain.{Job, JobClaim, Message, Payload}
use blitze_cdn_cp.Jobs.Store.{
  Jobs, fenced, held, deferrable, leased, retired, completed, failing, deferred, renewed, abandon,
  take_row, claim,
}
use blitze_cdn_cp.Jobs.Store.ClaimLoop.{claim_rule, fenced_self, next_runnable-some}
use blitze_cdn_cp.Jobs.Store.Claiming.{fenced-id}
use blitze_cdn_cp.Jobs.Store.Keys.{UniqueIds, UniqueIds-eq, take_row_lem, abandon-UniqueIds}

abbrev pub IsCurrent : JobClaim → Job → Type 0
IsCurrent c r =
    r.id ≡ c.job.id
    → (c.fence < r.fence)
      ⊎ ((r.fence ≡ c.fence)
          × (r.attempts ≡ c.job.attempts)
          × (r.max_attempts ≡ c.job.max_attempts))

-- A new version of a row: under a greater fence, or with the same attempts.
abbrev pub Ages : Job → Job → Type 0
Ages r r' =
    (r'.id ≡ r.id)
    × ((r.fence < r'.fence)
        ⊎ ((r'.fence ≡ r.fence) × (r'.attempts ≡ r.attempts) × (r'.max_attempts ≡ r.max_attempts)))

Ages-IsCurrent : (c : JobClaim) (r r' : Job) → Ages r r' → IsCurrent c r → IsCurrent c r'
Ages-IsCurrent c r r' (same, inl up) h e = inl (ground (arith, h (sym same ∙ e)))
Ages-IsCurrent c r r' (same, inr (f, a, m)) h e = ground (arith, h (sym same ∙ e))

pub update_where-IsCurrent :
    (c : JobClaim) (p : Job → Bool) (f : Job → Job) (rows : Jobs)
    → ((r : Job) → p r ≡ true → Ages r (f r))
    → All (IsCurrent c) rows
    → All (IsCurrent c) (update_where p f rows)
update_where-IsCurrent c p f rows ages =
    All-update_where (IsCurrent c) (IsCurrent c) p f rows
      (λ r h e. Ages-IsCurrent c r (f r) (ages r e) h) (λ r h _. h)

fenced-fence : (row r : Job) → fenced row.id row.fence r ≡ true → r.fence ≡ row.fence
unfolding fenced
fenced-fence row r h = ground arith

retired-Ages :
    (row : Job) (now : ℕ) (r : Job) → fenced row.id row.fence r ≡ true → Ages r (retired row now r)
unfolding retired
retired-Ages row now r h = (refl, inl (omega (arith, fenced-fence row r h)))

leased-Ages :
    (worker : String) (now lease : ℕ) (row r : Job)
    → fenced row.id row.fence r ≡ true
    → Ages r (leased worker now lease row r)
unfolding leased
leased-Ages worker now lease row r h = (refl, inl (omega (arith, fenced-fence row r h)))

pub completed-Ages : (now : ℕ) (result : Option Payload) (r : Job) → Ages r (completed now result r)
unfolding completed
completed-Ages now result r = (refl, inr (refl, refl, refl))

pub failing-Ages :
    (now : ℕ) (error : Message) (retry_at : Option ℕ) (r : Job)
    → Ages r (failing now error retry_at r)
unfolding failing
failing-Ages now error none r = (refl, inr (refl, refl, refl))
failing-Ages now error (some t) r = (refl, inr (refl, refl, refl))

pub deferred-Ages :
    (id : String) (fence retry_at : ℕ) (error : Message) (r : Job)
    → deferrable id fence r ≡ true
    → Ages r (deferred fence retry_at error r)
unfolding deferred deferrable held fenced
deferred-Ages id fence retry_at error r h = (refl, inl (ground arith))

pub renewed-Ages : (until : ℕ) (r : Job) → Ages r (renewed until r)
unfolding renewed
renewed-Ages until r = (refl, inr (refl, refl, refl))

-- A claim by anybody leaves what this claim knows true.
pub claim-IsCurrent :
    (c : JobClaim) (worker : String) (now lease : ℕ) (rows : Jobs)
    → UniqueIds rows
    → All (IsCurrent c) rows
    → All (IsCurrent c) (claim worker now lease rows).1
unfolding abandon
claim-IsCurrent c worker now lease rows unique h =
    claim_rule worker now lease (λ t. UniqueIds t × All (IsCurrent c) t)
      (λ a. All (IsCurrent c) a.1)
      (λ row t i _ _. (
        abandon-UniqueIds row now t i.0,
        update_where-IsCurrent c _ _ t (λ r e. retired-Ages row now r e) i.1,
      ))
      (λ t i _. i.1)
      (λ row t i found left.
        let (m, _, _) = next_runnable-some now t found in
        rw (take_row_lem worker now lease row t i.0 m)
          (update_where-IsCurrent c _ _ t (λ r e. leased-Ages worker now lease row r e) i.1))
      rows (unique, h)

-- The table after a claim shows what the claim was given.
pub claim-IsCurrent_self :
    (worker : String) (now lease : ℕ) (rows : Jobs) (c : JobClaim)
    → UniqueIds rows
    → (claim worker now lease rows).0 ≡ some c
    → All (IsCurrent c) (claim worker now lease rows).1
unfolding leased
claim-IsCurrent_self worker now lease rows c unique =
    claim_rule worker now lease UniqueIds (λ a. a.0 ≡ some c → All (IsCurrent c) a.1)
      (λ row t i _ _. abandon-UniqueIds row now t i) (λ t _ _ e. absurd (cc e))
      (λ row t i found left e.
        let (m, _, _) = next_runnable-some now t found in
        let shape = take_row_lem worker now lease row t i m in
        let given : record { job = leased worker now lease row row; fence = row.fence + 1 } ≡ c =
          cc (ap (λ (a : Option JobClaim × Jobs). a.0) shape) in
        subst (λ k. All (IsCurrent k) (take_row worker now lease row t).1) given
          (rw (ap (λ (a : Option JobClaim × Jobs). a.1) shape) (fresh row t i m)))
      rows unique
  where
    fresh :
        (row : Job) (t : Jobs)
        → UniqueIds t
        → Memᴰ row t
        → All
            (IsCurrent (record { job = leased worker now lease row row; fence = row.fence + 1 }))
            (update_where (fenced row.id row.fence) (leased worker now lease row) t)
    fresh row t i m =
        All-update_where (λ r. r.id ≡ row.id → r ≡ row) _ _ _ t
          (λ r one e _.
            inr (refl, refl, ap (λ (j : Job). j.max_attempts) (one (fenced-id row r e))))
          (λ r one e same. absurd (cc (one same, e, fenced_self row)))
          (All-of _ t (λ r k same. UniqueIds-eq t i k m same))
