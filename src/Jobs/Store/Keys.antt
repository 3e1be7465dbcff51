-- ===== src/Jobs/Store/Keys.antt =====
-- The primary key of the job table: no two rows share an identifier, whatever is called.
use blitze_cdn_cp.Prelude.{
  ℕ, ◌+◌, String, List, [], ◌∷◌, Memᴰ, Bool, true, false, Option, none, some, ◌≡◌, refl, sym, ap,
  ◌∙◌, inl, inr, arith, eq_iff, All-at, All-mono, All-of, Pairwise, Pairwise-snoc, Bool-cases,
  if◌then◌else◌, ◌==◌, string_eq, nat_eq,
}
use blitze_cdn_cp.Sql.{update_where, delete_where, first_where, matches}
use blitze_cdn_cp.Sql.Laws.{
  Pairwise-update_where, Pairwise-select_where, mem-update_where, matches-mem, unmatched_of_matches,
}
use blitze_cdn_cp.Jobs.Domain.{Job, Message}
use blitze_cdn_cp.Jobs.Store.{
  Jobs, enqueue, violates, claim, take_row, abandon, complete, fail, defer, renew, prune, fenced,
  leased, retired, completed, failing, deferred, renewed,
}
use blitze_cdn_cp.Jobs.Store.ClaimLoop.{claim_rule, fenced_self}
use blitze_cdn_cp.Jobs.Store.Ops.{
  Op, enqueues, claims, completes, fails, defers, renews, prunes, apply, run_ops,
}

abbrev pub DifferentIds : Job → Job → Type 0
DifferentIds a b = ¬ (a.id ≡ b.id)

abbrev pub UniqueIds : Jobs → Type 0
UniqueIds = Pairwise DifferentIds

module _ (f : Job → Job) (same : (r : Job) → (f r).id ≡ r.id) where
  version-id : (b : Bool) (r : Job) → (if b then f r else r).id ≡ r.id
  version-id true r = same r
  version-id false r = refl

  pub update_where-UniqueIds :
      (p : Job → Bool) (rows : Jobs) → UniqueIds rows → UniqueIds (update_where p f rows)
  update_where-UniqueIds p rows h =
      Pairwise-update_where (λ _. Unit {0}) DifferentIds p f rows
        (λ x y _ _ d e. d (sym (version-id (p x) x) ∙ e ∙ version-id (p y) y))
        (All-of _ rows (λ _ _. tt)) h

pub failing-id :
    (now : ℕ) (error : Message) (retry_at : Option ℕ) (r : Job)
    → (failing now error retry_at r).id ≡ r.id
unfolding failing
failing-id now error none r = refl
failing-id now error (some t) r = refl

pub abandon-UniqueIds :
    (row : Job) (now : ℕ) (rows : Jobs) → UniqueIds rows → UniqueIds (abandon row now rows)
unfolding abandon
abandon-UniqueIds row now rows = update_where-UniqueIds (retired row now) (λ r. refl) _ rows

take_row-UniqueIds :
    (worker : String) (now lease : ℕ) (row : Job) (rows : Jobs)
    → UniqueIds rows
    → UniqueIds (take_row worker now lease row rows).1
unfolding take_row
take_row-UniqueIds worker now lease row rows h =
    elim (Bool-cases (matches (fenced row.id row.fence) rows)) [
      | inl e ↦ rw e (update_where-UniqueIds (leased worker now lease row) (λ r. refl) _ rows h)
      | inr e ↦ rw e h
    ]

pub claim-UniqueIds :
    (worker : String) (now lease : ℕ) (rows : Jobs)
    → UniqueIds rows
    → UniqueIds (claim worker now lease rows).1
claim-UniqueIds worker now lease =
    claim_rule worker now lease UniqueIds (λ a. UniqueIds a.1)
      (λ row rows h _ _. abandon-UniqueIds row now rows h) (λ rows h _. h)
      (λ row rows h _ _. take_row-UniqueIds worker now lease row rows h)

pub enqueue-UniqueIds : (row : Job) (rows : Jobs) → UniqueIds rows → UniqueIds (enqueue row rows).1
unfolding enqueue violates
enqueue-UniqueIds row rows h = elim (Bool-cases (violates row rows)) [
  | inl e ↦ rw e h
  | inr e ↦ rw e (
      Pairwise-snoc DifferentIds rows row h (
        All-mono _ _ rows (λ r k same. ground (arith, k, eq_iff r.id row.id))
          (unmatched_of_matches _ rows (fresh e))))
]
  where
    fresh : violates row rows ≡ false → matches (λ r. r.id == row.id) rows ≡ false
    fresh e = ground arith

-- Every call keeps the primary key.
pub apply-UniqueIds : (op : Op) (rows : Jobs) → UniqueIds rows → UniqueIds (apply op rows)
unfolding apply enqueue complete fail defer renew prune delete_where
apply-UniqueIds (enqueues row) rows h = enqueue-UniqueIds row rows h
apply-UniqueIds (claims worker now lease) rows h = claim-UniqueIds worker now lease rows h
apply-UniqueIds (completes id fence now result) rows h =
    update_where-UniqueIds (completed now result) (λ r. refl) _ rows h
apply-UniqueIds (fails id fence now error retry_at) rows h =
    update_where-UniqueIds (failing now error retry_at) (failing-id now error retry_at) _ rows h
apply-UniqueIds (defers id fence retry_at error) rows h =
    update_where-UniqueIds (deferred fence retry_at error) (λ r. refl) _ rows h
apply-UniqueIds (renews id fence until) rows h =
    update_where-UniqueIds (renewed until) (λ r. refl) _ rows h
apply-UniqueIds (prunes keep) rows h = Pairwise-select_where DifferentIds _ rows h

pub run_ops-UniqueIds :
    (ops : List Op) (rows : Jobs) → UniqueIds rows → UniqueIds (run_ops ops rows)
unfolding run_ops
run_ops-UniqueIds [] rows h = h
run_ops-UniqueIds (op ∷ ops) rows h = run_ops-UniqueIds ops _ (apply-UniqueIds op rows h)

-- A row is found by its identifier.
pub first_where-UniqueIds :
    {row : Job} (rows : Jobs)
    → UniqueIds rows
    → Memᴰ row rows
    → first_where (λ r. r.id == row.id) rows ≡ some row
unfolding first_where
first_where-UniqueIds [] h m = elim m [ ]
first_where-UniqueIds {row} (x ∷ rows) h (Memᴰ.head e) = ground (arith, eq_iff x.id row.id)
first_where-UniqueIds {row} (x ∷ rows) h (Memᴰ.tail m) =
    let other = All-at _ rows h.0 m in
    ground (arith, eq_iff x.id row.id, first_where-UniqueIds rows h.1 m)

-- Two rows of one identifier are one row.
pub UniqueIds-eq :
    {a b : Job} (rows : Jobs) → UniqueIds rows → Memᴰ a rows → Memᴰ b rows → a.id ≡ b.id → a ≡ b
UniqueIds-eq {a} {b} rows h m k e = some_eq (
    sym (first_where-UniqueIds rows h m)
    ∙ ap (λ i. first_where (λ r. r.id == i) rows) e
    ∙ first_where-UniqueIds rows h k)
  where
    some_eq : some a ≡ some b → a ≡ b
    some_eq p = cc

-- The end of a claim: the row is there, its update hits, and what the worker gets is its new version.
pub take_row_lem :
    (worker : String) (now lease : ℕ) (row : Job) (rows : Jobs)
    → UniqueIds rows
    → Memᴰ row rows
    → take_row worker now lease row rows ≡ (
      some (record { job = leased worker now lease row row; fence = row.fence + 1 }),
      update_where (fenced row.id row.fence) (leased worker now lease row) rows,
    )
unfolding take_row
take_row_lem worker now lease row rows h m =
    rw (matches-mem _ rows m (fenced_self row), first_where-UniqueIds _ unique there) refl
  where
    rows' : Jobs
    rows' = update_where (fenced row.id row.fence) (leased worker now lease row) rows

    unique : UniqueIds rows'
    unique = update_where-UniqueIds (leased worker now lease row) (λ r. refl) _ rows h

    there : Memᴰ (leased worker now lease row row) rows'
    there =
        rw (fenced_self row) at
          (mem-update_where (fenced row.id row.fence) (leased worker now lease row) rows m)
