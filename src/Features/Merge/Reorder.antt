-- ===== src/Features/Merge/Reorder.antt =====
-- `merge_variables` (core/features/registry.py) on the same contributions in another order.
use blitze_cdn_cp.Prelude.{
  ◌+◌, ◌≤◌, String, List, [], ◌∷◌, ◌++◌, length, Bool, true, false, Dict, lookup, string_eq, ◌≡◌,
  refl, sym, ap, ◌∙◌, subst, arith, if◌then◌else◌,
}
use mathlib.Core.List.{Permᴰ}
use blitze_cdn_cp.Features.Merge.{
  StateContribution, Writer, in_set, Verdict, wins, conflicts, missing, Conflict, Merged, merged,
  fails, crashed, decide, merge_variables,
}
use blitze_cdn_cp.Features.Merge.Gathered.{agrees, share, writes}
use blitze_cdn_cp.Features.Merge.Decides.{verdict, Settles, Decides, merge_variables-Decides}

-- As many writers, and the same one if there is only one.
abbrev Alike : {A : Type 0} → List A → List A → Type 0
Alike xs ys = (length xs ≡ length ys) × (length xs ≤ 1 → xs ≡ ys)

module _ {A : Type 0} where
  length-append : (xs ys : List A) → length (xs ++ ys) ≡ length xs + length ys
  length-append [] ys = omega arith
  length-append (x ∷ xs) ys = omega (arith, length-append xs ys)

  append-Alike : (zs xs ys : List A) → Alike xs ys → Alike (zs ++ xs) (zs ++ ys)
  append-Alike [] xs ys h = h
  append-Alike (z ∷ zs) xs ys (n, e) = (
    omega (arith, length-append zs xs, length-append zs ys),
    λ small. ap (λ w. z ∷ zs ++ w) (e (omega (arith, length-append zs xs))),
  )

  swap-Alike : (xs ys zs : List A) → Alike (xs ++ (ys ++ zs)) (ys ++ (xs ++ zs))
  swap-Alike [] ys zs = (refl, λ small. refl)
  swap-Alike (x ∷ xs) [] zs = (refl, λ small. refl)
  swap-Alike (x ∷ xs) (y ∷ ys) zs = (
    omega (
      arith,
      length-append xs (y ∷ ys ++ zs),
      length-append ys zs,
      length-append ys (x ∷ (xs ++ zs)),
      length-append xs zs,
    ),
    λ small. absurd (omega (arith, length-append xs (y ∷ ys ++ zs))),
  )

  trans-Alike : (xs ys zs : List A) → Alike xs ys → Alike ys zs → Alike xs zs
  trans-Alike xs ys zs (n, e) (m, f) = (n ∙ m, λ small. e small ∙ f (omega (arith, n)))

module _ {V : Type 0} where
  module _ (side : Bool) (key : String) where
    -- What one contribution writes on this side.
    mine : StateContribution V → List (Writer V)
    mine c = if agrees side (in_set key c.overrides) then share c.feature key c.variables else []

    writes-Alike :
        (cs ds : List (StateContribution V))
        → Permᴰ cs ds
        → Alike (writes side key cs) (writes side key ds)
    unfolding writes mine
    writes-Alike [] [] Permᴰ.nil = (refl, λ small. refl)
    writes-Alike (a ∷ cs) (b ∷ ds) (Permᴰ.cons e p) =
        subst (λ c. Alike (mine a ++ writes side key cs) (mine c ++ writes side key ds)) e
          (append-Alike (mine a) _ _ (writes-Alike cs ds p))
    writes-Alike (a ∷ b ∷ cs) (a' ∷ b' ∷ ds) (Permᴰ.swap e e') =
        subst
          (λ c.
            Alike (mine a ++ (mine b ++ writes side key cs))
              (mine c ++ (mine b' ++ writes side key cs)))
          e'
          (subst
            (λ c.
              Alike (mine a ++ (mine b ++ writes side key cs))
                (mine b ++ (mine c ++ writes side key cs)))
            e (swap-Alike (mine a) (mine b) (writes side key cs)))
    writes-Alike cs ds (Permᴰ.trans {l₂ = es} p q) =
        trans-Alike _ _ _ (writes-Alike cs es p) (writes-Alike es ds q)

  -- The same answer, but for which failure is met first.
  abbrev pub Corresponds : Verdict V → Verdict V → Type 0
  Corresponds (wins v) w = w ≡ wins v
  Corresponds (conflicts c) w = (c' : Conflict) × (w ≡ conflicts c')
  Corresponds missing w = w ≡ missing

  decide-Corresponds :
      (key : String) (claims claims' plains plains' : List (Writer V))
      → Alike claims claims'
      → Alike plains plains'
      → Corresponds (decide key claims plains) (decide key claims' plains')
  unfolding decide
  decide-Corresponds key (a ∷ b ∷ ws) (a' ∷ b' ∷ ws') ps ps' h k = (_, refl)
  decide-Corresponds key (a ∷ b ∷ ws) (a' ∷ []) ps ps' h k = absurd (omega (arith, h.0))
  decide-Corresponds key (a ∷ b ∷ ws) [] ps ps' h k = absurd (omega (arith, h.0))
  decide-Corresponds key (a ∷ []) cs ps ps' h k =
      let same : cs ≡ a ∷ [] = sym (h.1 (omega arith)) in rw same refl
  decide-Corresponds key [] cs ps ps' h k =
      let same : cs ≡ [] = sym (h.1 (omega arith)) in rw same (only_plain ps ps' k)
    where
      only_plain :
          (ps ps' : List (Writer V))
          → Alike ps ps'
          → Corresponds (decide key [] ps) (decide key [] ps')
      only_plain (a ∷ b ∷ ws) (a' ∷ b' ∷ ws') k = (_, refl)
      only_plain (a ∷ b ∷ ws) (a' ∷ []) k = absurd (omega (arith, k.0))
      only_plain (a ∷ b ∷ ws) [] k = absurd (omega (arith, k.0))
      only_plain (a ∷ []) qs k = let same : qs ≡ a ∷ [] = sym (k.1 (omega arith)) in rw same refl
      only_plain [] qs k = let same : qs ≡ [] = sym (k.1 (omega arith)) in rw same refl

  verdict-Corresponds :
      (key : String) (cs ds : List (StateContribution V))
      → Permᴰ cs ds
      → Corresponds (verdict key cs) (verdict key ds)
  verdict-Corresponds key cs ds p =
      decide-Corresponds key _ _ _ _ (writes-Alike true key cs ds p)
        (writes-Alike false key cs ds p)

  -- Both fail, or both answer documents that hold the same.
  unfoldable pub SameMerge : Merged V → Merged V → Type 0
  SameMerge (merged d) (merged d') = (key : String) → lookup key d ≡ lookup key d'
  SameMerge (fails c) (fails c') = Unit {0}
  SameMerge _ _ = ⊥

  module _ (cs ds : List (StateContribution V)) (p : Permᴰ cs ds) where
    settled_alike :
        (key : String) (v w : Verdict V) (d d' : Dict String V)
        → Corresponds v w
        → Settles key v d
        → Settles key w d'
        → lookup key d ≡ lookup key d'
    unfolding Settles
    settled_alike key (wins v) w d d' same h k =
        let h' : Settles key (wins v) d' = subst (λ z. Settles key z d') same k in h ∙ sym h'
    settled_alike key (conflicts c) w d d' same h k = absurd h
    settled_alike key missing w d d' same h k =
        let h' : Settles key missing d' = subst (λ z. Settles key z d') same k in h ∙ sym h'

    no_conflict :
        (key : String) (v : Verdict V) (c : Conflict) (d : Dict String V)
        → Corresponds (conflicts c) v
        → Settles key v d
        → ⊥
    unfolding Settles
    no_conflict key v c d (c', e) h = subst (λ z. Settles key z d) e h

    other_conflict :
        (v : Verdict V) (c : Conflict)
        → Corresponds v (conflicts c)
        → (c' : Conflict) × (v ≡ conflicts c')
    other_conflict (wins v) c e = absurd (cc e)
    other_conflict (conflicts c') c e = (c', refl)
    other_conflict missing c e = absurd (cc e)

    both_decide : (m n : Merged V) → Decides cs m → Decides ds n → SameMerge m n
    unfolding Decides SameMerge
    both_decide (merged d) (merged d') h k =
        λ key. settled_alike key _ _ d d' (verdict-Corresponds key cs ds p) (h key) (k key)
    both_decide (fails c) (fails c') h k = tt
    both_decide (fails c) (merged d) (key, e) k =
        no_conflict key _ c d
          (subst (λ z. Corresponds z (verdict key ds)) e (verdict-Corresponds key cs ds p)) (k key)
    both_decide (merged d) (fails c) h (key, e) =
        let (c', e') =
          other_conflict (verdict key cs) c
            (subst (λ z. Corresponds (verdict key cs) z) e (verdict-Corresponds key cs ds p)) in
        unfold Settles in (subst (λ z. Settles key z d) e' (h key))
    both_decide crashed n h k = absurd h
    both_decide m crashed h k = absurd k

  -- Contributions in another order merge to the same document, up to the order of its keys, or fail
  -- in both orders.
  pub merge_variables-SameMerge :
      (cs ds : List (StateContribution V))
      → Permᴰ cs ds
      → SameMerge (merge_variables cs) (merge_variables ds)
  merge_variables-SameMerge cs ds p =
      both_decide cs ds p _ _ (merge_variables-Decides cs) (merge_variables-Decides ds)
