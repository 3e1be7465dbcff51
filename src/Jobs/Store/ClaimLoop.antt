-- ===== src/Jobs/Store/ClaimLoop.antt =====
-- The loop of `claim`: which row it looks at, that it ends, and the rule by which the facts about
-- `claim` are proved.
use blitze_cdn_cp.Prelude.{
  ℕ, zero, suc, ◌<◌, String, [], ◌∷◌, length, Memᴰ, Bool, true, false, Option, none, some, ◌≡◌,
  refl, inl, inr, arith, eq_iff, Bool-cases, Option-cases, ◌&&◌, string_eq, nat_eq,
}
use blitze_cdn_cp.Sql.{select_where, rows_affected, order_by}
use blitze_cdn_cp.Sql.Laws.{
  mem_of_select_where, mem-select_where, rows_affected-le-length, rows_affected-update_where-lt,
}
use blitze_cdn_cp.Sql.Order.{IsOrder, order_by-IsSorted, mem_of_order_by, mem-order_by, first-least}
use blitze_cdn_cp.Jobs.Domain.{Job, JobClaim}
use blitze_cdn_cp.Jobs.Store.{
  Jobs, head?, runnable, due_before, next_runnable, spent, fenced, retired, abandon, take_row,
  claim_loop, or_unchanged, claim,
}

due_before-IsOrder : IsOrder due_before
unfolding due_before
due_before-IsOrder = record {
  total = λ a b h. ground arith;
  transitive = λ a b c h k. ground arith;
}

due_before_refl : (a : Job) → due_before a a ≡ true
unfolding due_before
due_before_refl a = ground arith

head?-mem : (xs : Jobs) {x : Job} → head? xs ≡ some x → (ys : Jobs) × (xs ≡ x ∷ ys)
unfolding head?
head?-mem [] h = absurd (cc h)
head?-mem (y ∷ ys) h = (ys, ground arith)

head?-none : (xs : Jobs) {x : Job} → head? xs ≡ none → ¬ Memᴰ x xs
unfolding head?
head?-none [] h m = elim m [ ]
head?-none (y ∷ ys) h m = cc h

module _ (now : ℕ) (rows : Jobs) where
  -- The row that `claim` looks at is runnable, and no runnable row comes before it.
  pub next_runnable-some :
      {row : Job}
      → next_runnable now rows ≡ some row
      → Memᴰ row rows
        × (runnable now row ≡ true)
        × ((r : Job) → Memᴰ r rows → runnable now r ≡ true → due_before row r ≡ true)
  unfolding next_runnable
  next_runnable-some {row} h = (found.0, found.1, least)
    where
      sorted : Jobs
      sorted = order_by due_before (select_where (runnable now) rows)

      split : (ys : Jobs) × (sorted ≡ row ∷ ys)
      split = head?-mem sorted h

      found : Memᴰ row rows × (runnable now row ≡ true)
      found =
          mem_of_select_where (runnable now) rows
            (mem_of_order_by due_before _ (rw (split.1) (Memᴰ.head refl)))

      least : (r : Job) → Memᴰ r rows → runnable now r ≡ true → due_before row r ≡ true
      least r m e =
          elim (first-least due_before
            (rw split.1 at
              (order_by-IsSorted due_before due_before-IsOrder (select_where (runnable now) rows)))
            (rw split.1 at
              (mem-order_by due_before _ (mem-select_where (runnable now) rows m e)))) [
                | inl same ↦ rw same (due_before_refl row)
                | inr k ↦ k
              ]

  -- It finds none only if no row is runnable.
  pub next_runnable-none :
      next_runnable now rows ≡ none → (r : Job) → Memᴰ r rows → runnable now r ≡ false
  unfolding next_runnable
  next_runnable-none h r m = elim (Bool-cases (runnable now r)) [
    | inl e ↦
        absurd
          (head?-none _ h (mem-order_by due_before _ (mem-select_where (runnable now) rows m e)))
    | inr e ↦ e
  ]

-- What `claim` abandons on its way: a runnable row with no attempt left.
abbrev doomed : ℕ → Job → Bool
doomed now r = runnable now r && spent r

retired_not_runnable : (now : ℕ) (row r : Job) → doomed now (retired row now r) ≡ false
unfolding runnable retired
retired_not_runnable now row r = refl

pub fenced_self : (row : Job) → fenced row.id row.fence row ≡ true
unfolding fenced
fenced_self row = ground (arith, eq_iff row.id row.id)

abandon-lt :
    (now : ℕ) (row : Job) (rows : Jobs)
    → Memᴰ row rows
    → doomed now row ≡ true
    → rows_affected (doomed now) (abandon row now rows) < rows_affected (doomed now) rows
unfolding abandon
abandon-lt now row rows m h =
    rows_affected-update_where-lt (doomed now) (fenced row.id row.fence) (retired row now) rows
      (λ r _. retired_not_runnable now row r) m h (fenced_self row)

module _ {κ} (worker : String) (now lease : ℕ) (I : Jobs → Type κ)
    (Q : Option JobClaim × Jobs → Type κ)
    (abandons : (row : Job) (rows : Jobs)
      → I rows
      → next_runnable now rows ≡ some row
      → spent row ≡ true
      → I (abandon row now rows))
    (absent : (rows : Jobs) → I rows → next_runnable now rows ≡ none → Q (none, rows))
    (takes : (row : Job) (rows : Jobs)
      → I rows
      → next_runnable now rows ≡ some row
      → spent row ≡ false
      → Q (take_row worker now lease row rows)) where
  -- An invariant of the loop: with more fuel than rows to abandon, the loop ends, and at its end.
  loop_rule :
      (fuel : ℕ) (rows : Jobs)
      → rows_affected (doomed now) rows < fuel
      → I rows
      → (answer : Option JobClaim × Jobs) × (claim_loop fuel worker now lease rows ≡ some answer)
        × Q answer
  unfolding claim_loop
  loop_rule zero rows lt h = absurd (omega arith)
  loop_rule (suc fuel) rows lt h = elim (Option-cases (next_runnable now rows)) [
    | inl e ↦ ((none, rows), rw (e, claim_loop) refl, absent rows h e)
    | inr (row, e) ↦ elim (Bool-cases (spent row)) [
      | inr left ↦ (
        take_row worker now lease row rows,
        rw (e, claim_loop) (rw (left, claim_loop) refl),
        takes row rows h e left,
      )
      | inl gone ↦
          let (m, run, _) = next_runnable-some now rows e in
          let (answer, ends, q) =
            loop_rule fuel (abandon row now rows)
              (omega (arith, abandon-lt now row rows m (ground arith)))
              (abandons row rows h e gone) in
          (answer, rw (e, claim_loop) (rw (gone, claim_loop) ends), q)
    ]
  ]

  -- So `claim` has its fuel.
  pub claim_rule : (rows : Jobs) → I rows → Q (claim worker now lease rows)
  unfolding claim
  claim_rule rows h =
      let (answer, e, q) =
        loop_rule (suc (length rows)) rows
          (omega (arith, rows_affected-le-length (doomed now) rows)) h in
      rw (e, or_unchanged) q
