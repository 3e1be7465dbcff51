-- ===== src/Workflows/Recovery.antt =====
-- `reconcile_interrupted` of workflows/service/coordinator.py over a whole journal.
use blitze_cdn_cp.Prelude.{
  ℕ, ◌+◌, String, List, [], ◌∷◌, map, Bool, true, false, ◌&&◌, Option, none, some, ◌≡◌, refl, sym,
  subst, ap, ◌∙◌, ◌⊎◌, inl, inr, Bool-cases, arith, eq_iff, string_eq, Memᴰ, All, All-of, All-at,
  All-mono,
}
use blitze_cdn_cp.Sql.{matches, update_where, select_where}
use blitze_cdn_cp.Sql.Laws.{
  first_where-found, mem_of_matches, matches-mem, mem_of_update_where, mem_of_select_where,
  mem-select_where,
}
use blitze_cdn_cp.Sql.Order.{mem_of_order_by, mem-order_by}
use blitze_cdn_cp.Sql.Pruning.{DistinctIn, same_row}
use blitze_cdn_cp.Workflows.{
  WorkflowStatus, Workflow, Journal, restarted, identified, is_valid, moved, with_step, unfinished,
  unfinished_row, oldest_first,
}
use blitze_cdn_cp.Workflows.Advance.{advance_lem}
use blitze_cdn_cp.Workflows.Coordinator.{review, reconcile_interrupted, concerns}

-- The row as an operator is to look at it.
abbrev pub Reviewed : Workflow → Workflow → Type 0
Reviewed before after =
    (now : ℕ) × (after ≡ moved WorkflowStatus.needs_review none (some restarted) now before)

reviewed : ℕ → Workflow → Workflow
reviewed now = moved WorkflowStatus.needs_review none (some restarted) now

ids-reviewed :
    (id : String) (now : ℕ) (rows : Journal)
    → map (λ w. w.id) (update_where (identified id) (reviewed now) rows) ≡ map (λ w. w.id) rows
unfolding update_where reviewed moved
ids-reviewed id now [] = refl
ids-reviewed id now (w ∷ rows) = elim (Bool-cases (identified id w)) [
  | inl e ↦ rw e (ap (λ z. w.id ∷ z) (ids-reviewed id now rows))
  | inr e ↦ rw e (ap (λ z. w.id ∷ z) (ids-reviewed id now rows))
]

matches-reviewed :
    (id other : String) (now : ℕ) (rows : Journal)
    → matches (identified other) (update_where (identified id) (reviewed now) rows)
      ≡ matches (identified other) rows
unfolding matches update_where reviewed moved identified
matches-reviewed id other now [] = refl
matches-reviewed id other now (w ∷ rows) = ground (arith, matches-reviewed id other now rows)

-- What became of the rows after the reviews of these workflows.
abbrev Follows : List Workflow → Journal → Workflow → Type 0
Follows ws rows w =
    (before : Workflow) × Memᴰ before rows
    × (((w ≡ before) × All (λ x. ¬ (x.id ≡ before.id)) ws)
        ⊎ ((x : Workflow) × Memᴰ x ws × (x.id ≡ before.id) × Reviewed before w))

Follows-cons :
    (x : Workflow) (ws : List Workflow) (now : ℕ) (rows : Journal) (w : Workflow)
    → Follows ws (update_where (identified x.id) (reviewed now) rows) w
    → Follows (x ∷ ws) rows w
unfolding reviewed moved with_step
Follows-cons x ws now rows w (before, m, h) =
    let (origin, k, e) = mem_of_update_where (identified x.id) (reviewed now) rows m in
    elim (Bool-cases (identified x.id origin)) [
      | inl hit ↦
          let same : before ≡ reviewed now origin = rw hit at e in
          let key : x.id ≡ origin.id = sym ((eq_iff origin.id x.id).0 (unfold identified in hit)) in
          (
            origin,
            k,
            inr (
              x,
              Memᴰ.head refl,
              key,
              elim h [
                | inl (e', _) ↦ (now, e' ∙ same)
                | inr (y, _, _, (later, e')) ↦ (later, e' ∙ ap (reviewed later) same)
              ],
            ),
          )
      | inr miss ↦
          let same : before ≡ origin = rw miss at e in
          let key : ¬ (x.id ≡ origin.id) = λ k.
            (let hit : identified x.id origin ≡ true =
                unfold identified in ((eq_iff origin.id x.id).1 (sym k)) in
              cc) in
          (
            origin,
            k,
            elim h [
              | inl (e', others) ↦
                  inl (e' ∙ same, (key, subst (λ z. All (λ y. ¬ (y.id ≡ z.id)) ws) same others))
              | inr (y, my, ey, (later, e')) ↦ inr (
                y,
                Memᴰ.tail my,
                ey ∙ ap (λ z. z.id) same,
                (later, e' ∙ ap (reviewed later) same),
              )
            ],
          )
    ]

-- The workflows that a restart left unfinished, of one resource if it is given.
unfoldable pub is_due : Option String → Workflow → Bool
is_due resource w = unfinished_row w && concerns resource w

-- What a row was: itself, if it was not due, or the row that was due, reviewed.
unfoldable pub Resolves : Option String → Journal → Workflow → Type 0
Resolves resource rows w =
    (before : Workflow) × Memᴰ before rows
    × (((is_due resource before ≡ false) × (w ≡ before))
        ⊎ ((is_due resource before ≡ true) × Reviewed before w))

module _ (resource : Option String) (rows : Journal) where
  due :
      {x : Workflow}
      → Memᴰ x (select_where (concerns resource) (unfinished rows))
      → Memᴰ x rows × (is_due resource x ≡ true)
  unfolding unfinished is_due
  due m =
      let (k, c) = mem_of_select_where (concerns resource) _ m in
      let (there, u) = mem_of_select_where unfinished_row rows (mem_of_order_by oldest_first _ k) in
      (there, rw (u, c) refl)

  chosen :
      {x : Workflow}
      → Memᴰ x rows
      → is_due resource x ≡ true
      → Memᴰ x (select_where (concerns resource) (unfinished rows))
  unfolding unfinished is_due
  chosen {x} m d =
      mem-select_where (concerns resource) _
        (mem-order_by oldest_first _ (mem-select_where unfinished_row rows m (ground arith)))
        (ground arith)

  known :
      (x : Workflow)
      → Memᴰ x (select_where (concerns resource) (unfinished rows))
      → matches (identified x.id) rows ≡ true
  known x m =
      matches-mem (identified x.id) rows (due m).0
        (unfold identified in ((eq_iff x.id x.id).1 refl))

  resolve :
      DistinctIn (λ w. w.id) (λ w. true) (λ w. w.created_at) rows
      → (w : Workflow) → Follows (select_where (concerns resource) (unfinished rows)) rows w
      → Resolves resource rows w
  unfolding Resolves
  resolve unique w (before, m, inl (e, others)) = (
    before,
    m,
    inl (
      elim (Bool-cases (is_due resource before)) [
        | inl d ↦ absurd (All-at _ _ others (chosen m d) refl)
        | inr d ↦ d
      ],
      e,
    ),
  )
  resolve unique w (before, m, inr (x, mx, ex, r)) = (
    before,
    m,
    inr (
      subst (λ z. is_due resource z ≡ true)
          (same_row (λ w. w.id) (λ w. true) (λ w. w.created_at) rows unique (due mx).0 m ex)
          (due mx).1,
      r,
    ),
  )

module _ (clock : ℕ → ℕ) where
  review_lem :
      (ws : List Workflow) (n : ℕ) (rows : Journal)
      → All (λ x. matches (identified x.id) rows ≡ true) ws
      → (recovered : List Workflow) × (rows' : Journal) × (review clock ws n rows
          ≡ (some recovered, rows'))
        × (map (λ w. w.id) rows' ≡ map (λ w. w.id) rows)
        × ((w : Workflow) → Memᴰ w rows' → Follows ws rows w)
  unfolding review reviewed
  review_lem [] n rows h = ([], rows, refl, refl, λ w m. (w, m, inl (refl, tt)))
  review_lem (x ∷ ws) n rows h =
      let (y, my, hy) = mem_of_matches (identified x.id) rows h.0 in
      let (first, found) = first_where-found (identified x.id) rows my hy in
      let rows₁ = update_where (identified x.id) (reviewed (clock n)) rows in
      let (recovered, rows', e, ids, all) =
        review_lem ws (n + 1) rows₁
          (All-mono _ _ ws (λ z k. matches-reviewed x.id z.id (clock n) rows ∙ k) h.1) in
      (
        reviewed (clock n) first ∷ recovered,
        rows',
        rw
            (
              advance_lem x.id WorkflowStatus.needs_review none (some restarted) (clock n) rows
                  found (unfold is_valid in refl),
              e,
            )
            refl,
        ids ∙ ids-reviewed x.id (clock n) rows,
        λ w m. Follows-cons x ws (clock n) rows w (all w m),
      )

  -- On a journal with identifiers of their own, a reconciliation succeeds and keeps the identifiers
  -- in their order. Each row of it then is a row of before that was finished or concerns another
  -- resource, unchanged, or one that was pending or running, now under review with its steps and
  -- all else but its time and error as before.
  pub reconcile-Resolves :
      (resource : Option String) (rows : Journal)
      → DistinctIn (λ w. w.id) (λ w. true) (λ w. w.created_at) rows
      → (recovered : List Workflow) × (rows' : Journal) × (reconcile_interrupted clock resource rows
          ≡ (some recovered, rows'))
        × (map (λ w. w.id) rows' ≡ map (λ w. w.id) rows)
        × ((w : Workflow) → Memᴰ w rows' → Resolves resource rows w)
  unfolding reconcile_interrupted
  reconcile-Resolves resource rows unique =
      let ws = select_where (concerns resource) (unfinished rows) in
      let (recovered, rows', e, ids, all) =
        review_lem ws 0 rows (All-of _ ws (known resource rows)) in
      (recovered, rows', rw e refl, ids, λ w m. resolve resource rows unique w (all w m))
