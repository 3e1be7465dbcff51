-- ===== src/Sql/Pruning.antt =====
-- The rows that a DELETE beyond the newest ones leaves.
use blitze_cdn_cp.Prelude.{
  ℕ, suc, ◌≤◌, String, All-of, mem_of_take, ap, leb→le, Bool, true, false, not, List, [], ◌∷◌,
  length, length-take, Memᴰ, ◌≡◌, refl, inl, inr, arith, eq_iff, Bool-cases, ◌==◌, string_eq, All,
  All-at, Pairwise, subst, sym, ◌∙◌,
}
use blitze_cdn_cp.Sql.{
  select_where, delete_where, order_by, matches, newer, newest, surplus, drop_surplus,
}
use blitze_cdn_cp.Sql.Laws.{
  Pairwise-select_where, mem-select_where, mem_of_select_where, matches-mem, mem_of_matches,
}
use native.Mathlib.Nat.{le_trans}
use blitze_cdn_cp.Sql.Order.{
  Pairwise-order_by, Pairwise-take, take-full, sorted-take, IsOrder, order_by-IsSorted,
  mem_of_order_by, mem-order_by,
}

module _ {A : Type 0} (key : A → String) (finished : A → Bool) (created : A → ℕ) where
  abbrev pub DistinctIn : List A → Type 0
  DistinctIn = Pairwise (λ a b. ¬ (key a ≡ key b))

  pub same_row :
      {x y : A} (rows : List A)
      → DistinctIn rows
      → Memᴰ x rows
      → Memᴰ y rows
      → key x ≡ key y
      → x ≡ y
  same_row [] h m k e = elim m [ ]
  same_row (z ∷ rows) h (Memᴰ.head p) (Memᴰ.head q) e = p ∙ sym q
  same_row (z ∷ rows) h (Memᴰ.head p) (Memᴰ.tail k) e =
      absurd (All-at _ rows h.0 k (sym (ap key p) ∙ e))
  same_row (z ∷ rows) h (Memᴰ.tail m) (Memᴰ.head q) e =
      absurd (All-at _ rows h.0 m (sym (ap key q) ∙ sym e))
  same_row (z ∷ rows) h (Memᴰ.tail m) (Memᴰ.tail k) e = same_row rows h.1 m k e

  newer-IsOrder : IsOrder (newer key finished created)
  unfolding newer
  newer-IsOrder = record { total = λ a b h. ground arith; transitive = λ a b c h k. ground arith }

  -- At most one of the rows has this identifier.
  length-without :
      (id : String) (xs : List A)
      → DistinctIn xs
      → length xs ≤ suc (length (delete_where (λ r. id == (key r)) xs))
  unfolding delete_where
  length-without id [] h = omega arith
  length-without id (x ∷ xs) h = elim (Bool-cases (id == (key x))) [
    | inl e ↦ rw e (omega (arith, ap length (untouched xs h.0 ((eq_iff id (key x)).0 e))))
    | inr e ↦ rw e (omega (arith, length-without id xs h.1))
  ]
    where
      untouched :
          (ys : List A)
          → All (λ y. ¬ ((key x) ≡ (key y))) ys
          → id ≡ (key x)
          → delete_where (λ r. id == (key r)) ys ≡ ys
      untouched [] hs e = refl
      untouched (y ∷ ys) hs e = ground (arith, untouched ys hs.1 e, eq_iff id (key y), hs.0)

  -- Rows with different identifiers, each of which some row of `ys` has, are not more than `ys`.
  pigeonhole :
      (ys xs : List A)
      → DistinctIn xs
      → All (λ x. matches (λ k. (key k) == (key x)) ys ≡ true) xs
      → length xs ≤ length ys
  unfolding matches delete_where
  pigeonhole [] [] h k = omega arith
  pigeonhole [] (x ∷ xs) h k = absurd (cc (k.0))
  pigeonhole (y ∷ ys) xs h k = omega (
    arith,
    length-without (key y) xs h,
    pigeonhole ys (delete_where (λ r. (key y) == (key r)) xs) (Pairwise-select_where _ _ xs h)
        others,
  )
    where
      one :
          (x : A)
          → Memᴰ x (delete_where (λ r. (key y) == (key r)) xs)
          → matches (λ k. (key k) == (key x)) ys ≡ true
      one x m =
          let (there, other) = mem_of_select_where (λ r. not ((key y) == (key r))) xs m in
          let hit : matches (λ k. (key k) == (key x)) (y ∷ ys) ≡ true = All-at _ xs k there in
          ground arith

      others :
          All
            (λ x. matches (λ k. (key k) == (key x)) ys ≡ true)
            (delete_where (λ r. (key y) == (key r)) xs)
      others = All-of _ _ one

  module _ (keep : ℕ) (rows : List A) (unique : DistinctIn rows) where
    abbrev kept : List A
    kept = (drop_surplus key finished created keep rows).1

    newest-mem :
        {r : A} → Memᴰ r (newest key finished created keep rows) → Memᴰ r rows × (finished r ≡ true)
    unfolding newest
    newest-mem m =
        mem_of_select_where _ rows
          (mem_of_order_by (newer key finished created) _ (mem_of_take keep _ m))

    -- A finished row is kept exactly if it survives.
    kept-survives :
        {r : A} → Memᴰ r kept → finished r ≡ true → Memᴰ r (newest key finished created keep rows)
    unfolding drop_surplus delete_where surplus
    kept-survives {r} m t =
        let (k, e) = mem_of_select_where _ rows m in
        let (s, ms, same) =
          mem_of_matches (λ s. (key s) == (key r)) (newest key finished created keep rows)
            (ground arith) in
        subst (λ z. Memᴰ z (newest key finished created keep rows))
          (same_row rows unique (newest-mem ms).0 k ((eq_iff (key s) (key r)).0 same)) ms

    kept-mem :
        {r : A} → Memᴰ r kept → Memᴰ r rows × (surplus key finished created keep rows r ≡ false)
    unfolding drop_surplus delete_where
    kept-mem {r} m = let (k, e) = mem_of_select_where _ rows m in (k, ground arith)

    newest-kept : {r : A} → Memᴰ r (newest key finished created keep rows) → Memᴰ r kept
    unfolding drop_surplus delete_where surplus
    newest-kept {r} m = mem-select_where _ rows (newest-mem m).0 (
        ground (
          arith,
          matches-mem (λ s. (key s) == (key r)) (newest key finished created keep rows) m
              ((eq_iff (key r) (key r)).1 refl),
        ))

    kept_bounded : length (select_where (λ r. finished r) kept) ≤ keep
    unfolding drop_surplus newest delete_where
    kept_bounded =
        le_trans
          (pigeonhole (newest key finished created keep rows) (select_where (λ r. finished r) kept)
            (Pairwise-select_where _ _ kept (Pairwise-select_where _ _ rows unique))
            (All-of _ _ (λ r m.
              let (k, t) = mem_of_select_where (λ r. finished r) kept m in
              matches-mem (λ s. (key s) == (key r)) (newest key finished created keep rows)
                (kept-survives k t) ((eq_iff (key r) (key r)).1 refl))))
          (length-take keep _)

    unfinished_kept : {r : A} → Memᴰ r rows → finished r ≡ false → Memᴰ r kept
    unfolding drop_surplus delete_where surplus
    unfinished_kept {r} m t = mem-select_where _ rows m (ground arith)

    -- A finished row that is dropped is not newer than one that is kept.
    dropped_older :
        {r s : A}
        → Memᴰ r rows
        → finished r ≡ true
        → ¬ Memᴰ r kept
        → Memᴰ s kept
        → finished s ≡ true
        → (created r) ≤ (created s)
    unfolding newest newer
    dropped_older {r} {s} m t out k t' =
        elim (sorted-take (newer key finished created) keep
          (order_by (newer key finished created) (select_where finished rows))
          (order_by-IsSorted (newer key finished created) newer-IsOrder
            (select_where finished rows))
          (kept-survives k t')
          (mem-order_by (newer key finished created) _ (mem-select_where _ rows m t))) [
            | inl there ↦ absurd (out (newest-kept there))
            | inr newer ↦ leb→le (created r) (created s) newer
          ]

    newest-DistinctIn : DistinctIn (newest key finished created keep rows)
    unfolding newest
    newest-DistinctIn =
        Pairwise-take (λ a b. ¬ (key a ≡ key b)) keep _
          (Pairwise-order_by (λ a b. ¬ (key a ≡ key b)) (λ a b d e. d (sym e))
            (newer key finished created) _ (Pairwise-select_where _ finished rows unique))

    -- Where a finished row is dropped, `keep` of them are left.
    kept_full :
        {r : A}
        → Memᴰ r rows
        → finished r ≡ true
        → ¬ Memᴰ r kept
        → length (select_where (λ r. finished r) kept) ≡ keep
    unfolding newest
    kept_full {r} m t out =
        let top = newest key finished created keep rows in
        let enough : keep ≤ length top =
          take-full keep _
            (mem-order_by (newer key finished created) _ (mem-select_where _ rows m t))
            (λ k. out (newest-kept k)) in
        let less : length top ≤ length (select_where (λ r. finished r) kept) =
          pigeonhole (select_where (λ r. finished r) kept) top newest-DistinctIn (
            All-of _ top (λ s k.
              matches-mem (λ z. (key z) == (key s)) (select_where (λ r. finished r) kept)
                (mem-select_where _ kept (newest-kept k) (newest-mem k).1)
                ((eq_iff (key s) (key s)).1 refl))) in
        omega (arith, enough, less, kept_bounded)

  -- What pruning leaves of a table.
  pub record Prunes (keep : ℕ) (rows kept : List A) : Type 0 where
    pub old : {r : A} → Memᴰ r kept → Memᴰ r rows
    pub unfinished_stay : {r : A} → Memᴰ r rows → finished r ≡ false → Memᴰ r kept
    pub bounded : length (select_where (λ r. finished r) kept) ≤ keep
    pub full :
        {r : A}
        → Memᴰ r rows
        → finished r ≡ true
        → ¬ Memᴰ r kept
        → length (select_where (λ r. finished r) kept) ≡ keep
    pub newest_stay :
        {r s : A}
        → Memᴰ r rows
        → finished r ≡ true
        → ¬ Memᴰ r kept
        → Memᴰ s kept
        → finished s ≡ true
        → (created r) ≤ (created s)

  -- On a table with unique identifiers pruning adds no row and drops no unfinished one, leaves at
  -- most `keep` finished ones, and exactly `keep` if it drops any, and drops no finished row that is
  -- newer than one that it leaves.
  pub drop_surplus-Prunes :
      (keep : ℕ) (rows : List A)
      → DistinctIn rows
      → Prunes keep rows (drop_surplus key finished created keep rows).1
  drop_surplus-Prunes keep rows unique = record {
    old = λ m. (kept-mem keep rows unique m).0;
    unfinished_stay = unfinished_kept keep rows unique;
    bounded = kept_bounded keep rows unique;
    full = kept_full keep rows unique;
    newest_stay = dropped_older keep rows unique;
  }
