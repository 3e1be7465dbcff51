-- ===== src/Jobs/Store/Claiming.antt =====
-- What `claim` does to a table: which job it takes, when it finds none, and what it abandons.
use blitze_cdn_cp.Prelude.{
  ℕ, ◌+◌, String, Memᴰ, Bool, true, false, Option, none, some, ◌≡◌, refl, subst, sym, ap, inl, inr,
  ◌⊎◌, ◌∙◌, arith, eq_iff, Bool-cases, string_eq, nat_eq,
}
use blitze_cdn_cp.Sql.{update_where}
use blitze_cdn_cp.Sql.Laws.{mem-update_where, mem_of_update_where}
use blitze_cdn_cp.Jobs.Domain.{Job, JobStatus, JobClaim, is_pending, is_running}
use blitze_cdn_cp.Jobs.Store.{
  Jobs, runnable, due_before, next_runnable, spent, fenced, retired, leased, abandon, take_row,
  claim,
}
use blitze_cdn_cp.Jobs.Store.ClaimLoop.{
  claim_rule, fenced_self, next_runnable-some, next_runnable-none,
}
use blitze_cdn_cp.Jobs.Store.Keys.{UniqueIds, UniqueIds-eq, abandon-UniqueIds, take_row_lem}

-- A job that a worker may be given: runnable, and not a lapsed job whose attempts are used up.
abbrev pub IsOffered : ℕ → Job → Type 0
IsOffered now r = (runnable now r ≡ true) × (spent r ≡ false)

-- The jobs on offer are the same in two tables.
abbrev pub SameOffer : ℕ → Jobs → Jobs → Type 0
SameOffer now rows t =
    (r : Job) → IsOffered now r → (Memᴰ r rows → Memᴰ r t) × (Memᴰ r t → Memᴰ r rows)

retired_gone : (now : ℕ) (row r : Job) → runnable now (retired row now r) ≡ false
unfolding runnable retired
retired_gone now row r = refl

pub fenced-id : (row r : Job) → fenced row.id row.fence r ≡ true → r.id ≡ row.id
unfolding fenced
fenced-id row r h = ground (arith, eq_iff r.id row.id)

module _ (now : ℕ) (row : Job) (rows : Jobs) (unique : UniqueIds rows) (m : Memᴰ row rows)
    (gone : spent row ≡ true) where
  -- Abandoning a row with no attempt left takes nothing off the offer, and puts nothing on it.
  abandon-SameOffer : SameOffer now rows (abandon row now rows)
  unfolding abandon
  abandon-SameOffer r offer = (kept, old)
    where
      p : Job → Bool
      p = fenced row.id row.fence

      kept : Memᴰ r rows → Memᴰ r (abandon row now rows)
      kept k = elim (Bool-cases (p r)) [
        | inl e ↦
            let same : r ≡ row = UniqueIds-eq rows unique k m (fenced-id row r e) in
            absurd (cc (ap spent same, gone, offer.1))
        | inr e ↦ rw e at (mem-update_where p (retired row now) rows k)
      ]

      old : Memᴰ r (abandon row now rows) → Memᴰ r rows
      old k =
          let (x, kx, e) = mem_of_update_where p (retired row now) rows k in
          elim (Bool-cases (p x)) [
            | inl hit ↦
                let new : r ≡ retired row now x = rw hit at e in
                absurd (cc (ap (runnable now) new, retired_gone now row x, offer.0))
            | inr miss ↦ let same : r ≡ x = rw miss at e in subst (λ z. Memᴰ z rows) (sym same) kx
          ]

SameOffer-trans :
    (now : ℕ) {rows t u : Jobs} → SameOffer now rows t → SameOffer now t u → SameOffer now rows u
SameOffer-trans now f g r offer =
    (λ k. (g r offer).0 ((f r offer).0 k), λ k. (f r offer).1 ((g r offer).1 k))

-- What abandoning makes of a lapsed job whose attempts are used up.
abbrev pub IsAbandoned : ℕ → Jobs → Job → Type 0
IsAbandoned now rows r =
    (x : Job) × Memᴰ x rows
    × (runnable now x ≡ true)
    × (spent x ≡ true)
    × (r.id ≡ x.id)
    × (r.status ≡ JobStatus.failed)

-- Every row is one of these, or was abandoned.
abbrev pub ComesFrom : ℕ → Jobs → Jobs → Type 0
ComesFrom now rows t = (r : Job) → Memᴰ r t → Memᴰ r rows ⊎ IsAbandoned now rows r

-- A claim of the oldest job on offer, and the table behind it.
pub record Takes (worker : String) (now lease : ℕ) (rows : Jobs) (c : JobClaim) (t : Jobs)
    : Type 0 where
  pub row : Job
  pub there : Memᴰ row rows
  pub offered : IsOffered now row
  pub oldest : (r : Job) → Memᴰ r rows → IsOffered now r → due_before row r ≡ true
  pub given : c ≡ record { job = leased worker now lease row row; fence = row.fence + 1 }
  pub stored : Memᴰ c.job t
  pub others : (r : Job) → Memᴰ r rows → IsOffered now r → ¬ (r.id ≡ row.id) → Memᴰ r t
  pub rest : (r : Job) → Memᴰ r t → (r ≡ c.job) ⊎ (Memᴰ r rows ⊎ IsAbandoned now rows r)

-- What `claim` may answer on a table, and leave of it.
unfoldable pub Answers : String → ℕ → ℕ → Jobs → Option JobClaim × Jobs → Type 0
Answers worker now lease rows (none, t) =
    SameOffer now rows t × ((r : Job) → Memᴰ r t → ¬ IsOffered now r) × ComesFrom now rows t
Answers worker now lease rows (some c, t) = Takes worker now lease rows c t

module _ (worker : String) (now lease : ℕ) (rows : Jobs) (unique : UniqueIds rows) where
  abbrev Seen : Jobs → Type 0
  Seen t = UniqueIds t × SameOffer now rows t × ComesFrom now rows t

  -- A runnable row was there from the start.
  runnable-old :
      (r : Job) → runnable now r ≡ true → Memᴰ r rows ⊎ IsAbandoned now rows r → Memᴰ r rows
  unfolding runnable is_pending is_running
  runnable-old r run (inl m) = m
  runnable-old r run (inr (x, _, _, _, _, failed)) = absurd (cc (rw failed at run))

  abandon-ComesFrom :
      (row : Job) (t : Jobs)
      → Seen t
      → Memᴰ row t
      → runnable now row ≡ true
      → spent row ≡ true
      → ComesFrom now rows (abandon row now t)
  unfolding abandon
  abandon-ComesFrom row t i m run gone r k =
      let (x, kx, e) = mem_of_update_where (fenced row.id row.fence) (retired row now) t k in
      elim (Bool-cases (fenced row.id row.fence x)) [
        | inl hit ↦
            let new : r ≡ retired row now x = rw hit at e in
            inr (
              row,
              runnable-old row run (i.2 row m),
              run,
              gone,
              ap (λ z. z.id) new ∙ unfold retired in fenced-id row x hit,
              ap (λ z. z.status) new ∙ unfold retired in refl,
            )
        | inr miss ↦
            let same : r ≡ x = rw miss at e in
            subst (λ z. Memᴰ z rows ⊎ IsAbandoned now rows z) (sym same) (i.2 x kx)
      ]

  abandons :
      (row : Job) (t : Jobs)
      → Seen t
      → next_runnable now t ≡ some row
      → spent row ≡ true
      → Seen (abandon row now t)
  abandons row t i found gone =
      let (m, run, _) = next_runnable-some now t found in
      (
        abandon-UniqueIds row now t i.0,
        SameOffer-trans now i.1 (abandon-SameOffer now row t i.0 m gone),
        abandon-ComesFrom row t i m run gone,
      )

  takes :
      (row : Job) (t : Jobs)
      → Seen t
      → next_runnable now t ≡ some row
      → spent row ≡ false
      → Answers worker now lease rows (take_row worker now lease row t)
  unfolding Answers
  takes row t i found left =
      let (m, run, first) = next_runnable-some now t found in
      let shape = take_row_lem worker now lease row t i.0 m in
      rw shape (record {
        row = row;
        there = (i.1 row (run, left)).1 m;
        offered = (run, left);
        oldest = λ r k offer. first r ((i.1 r offer).0 k) offer.0;
        given = refl;
        stored = rw (fenced_self row) at (mem-update_where p f t m);
        others = λ r k offer other.
            (let miss : p r ≡ false = unfenced r other in
              rw miss at (mem-update_where p f t ((i.1 r offer).0 k)));
        rest = rest m;
      })
    where
      p : Job → Bool
      p = fenced row.id row.fence

      f : Job → Job
      f = leased worker now lease row

      unfenced : (r : Job) → ¬ (r.id ≡ row.id) → p r ≡ false
      unfenced r other = elim (Bool-cases (p r)) [
        | inl hit ↦ absurd (other (fenced-id row r hit))
        | inr miss ↦ miss
      ]

      rest :
          Memᴰ row t
          → (r : Job) → Memᴰ r (update_where p f t)
          → (r ≡ f row) ⊎ (Memᴰ r rows ⊎ IsAbandoned now rows r)
      rest m r k =
          let (x, kx, e) = mem_of_update_where p f t k in
          elim (Bool-cases (p x)) [
            | inl hit ↦
                let new : r ≡ f x = rw hit at e in
                inl (new ∙ ap f (UniqueIds-eq t i.0 kx m (fenced-id row x hit)))
            | inr miss ↦
                let same : r ≡ x = rw miss at e in
                inr (subst (λ z. Memᴰ z rows ⊎ IsAbandoned now rows z) (sym same) (i.2 x kx))
          ]

  -- On a table with unique identifiers, a claim takes the oldest job on offer, whatever jobs it has
  -- abandoned before, and it answers none only if no job is on offer.
  pub claim-Answers : Answers worker now lease rows (claim worker now lease rows)
  unfolding Answers
  claim-Answers =
      claim_rule worker now lease Seen (Answers worker now lease rows) abandons
        (λ t i absent. (i.1, λ r m offer. cc (next_runnable-none now t absent r m, offer.0), i.2))
        takes rows (unique, (λ r _. (λ k. k, λ k. k)), λ r m. inl m)
