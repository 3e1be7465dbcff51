-- ===== src/Features/Merge/Mentioned.antt =====
-- The order in which `merge_variables` (core/features/registry.py) visits the variables: those that
-- some contribution writes.
use blitze_cdn_cp.Prelude.{
  String, List, [], ◌∷◌, ◌++◌, Bool, true, false, ◌||◌, ◌==◌, string_eq, if◌then◌else◌, Dict, ◌≡◌,
  refl, sym, ap, ◌∙◌, inl, inr, Bool-cases,
}
use blitze_cdn_cp.Sql.{matches}
use blitze_cdn_cp.Features.Merge.{
  StateContribution, Writer, Buckets, in_set, found, note_order, gather_variable, gather_variables,
  gather_all,
}
use blitze_cdn_cp.Features.Merge.Gathered.{found-append_writer}

in_set-snoc :
    (key k : String) (ks : List String) → in_set key (ks ++ k ∷ []) ≡ in_set key ks || (k == key)
unfolding in_set matches
in_set-snoc key k [] = elim (Bool-cases (k == key)) [ inl e ↦ rw e refl | inr e ↦ rw e refl ]
in_set-snoc key k (j ∷ ks) = elim (Bool-cases (j == key)) [
  | inl e ↦ rw e refl
  | inr e ↦ rw e (in_set-snoc key k ks)
]

in_set-note_order :
    (key k : String) (ks : List String) → in_set key (note_order k ks) ≡ in_set key ks || (k == key)
unfolding note_order
in_set-note_order key k ks = elim (Bool-cases (in_set k ks)) [
  | inr o ↦ rw o (in_set-snoc key k ks)
  | inl o ↦ rw o (elim (Bool-cases (k == key)) [
    | inl e ↦
        let there : in_set key ks ≡ true =
          ap (λ z. in_set z ks) (sym (string_eq.sound k key e)) ∙ o in
        rw (e, there) refl
    | inr e ↦ rw e (elim (Bool-cases (in_set key ks)) [ inl h ↦ rw h refl | inr h ↦ rw h refl ])
  ])
]

left_first : (x y b : Bool) → (x || y) || b ≡ (x || b) || y
left_first true y b = refl
left_first false true true = refl
left_first false true false = refl
left_first false false true = refl
left_first false false false = refl

right_last : (x y b : Bool) → (x || y) || b ≡ x || (y || b)
right_last true y b = refl
right_last false y b = refl

module _ {V : Type 0} where
  abbrev pub some_of : List (Writer V) → Bool
  some_of [] = false
  some_of (w ∷ ws) = true

  some_of-snoc :
      (ws : List (Writer V)) (b : Bool) (w : Writer V)
      → some_of (ws ++ (if b then w ∷ [] else [])) ≡ some_of ws || b
  some_of-snoc [] true w = refl
  some_of-snoc [] false w = refl
  some_of-snoc (x ∷ ws) b w = refl

  abbrev pub is_written : String → Buckets V → Bool
  is_written key b = some_of (found key b.claimed) || some_of (found key b.plain)

  -- The order holds the variables that are written, and no others.
  abbrev pub Ordered : Buckets V → Type 0
  Ordered b = (key : String) → in_set key b.order ≡ is_written key b

  gather_variable-Ordered :
      (c : StateContribution V) (k : String) (v : V) (b : Buckets V)
      → Ordered b
      → Ordered (gather_variable c (k, v) b)
  unfolding gather_variable
  gather_variable-Ordered c k v b h key = elim (Bool-cases (in_set k c.overrides)) [
    | inl o ↦
        rw
          (
            o,
            found-append_writer key k (c.feature, v) b.claimed,
            some_of-snoc (found key b.claimed) (k == key) (c.feature, v),
          )
          (in_set-note_order key k b.order
            ∙ ap (λ z. z || (k == key)) (h key)
            ∙ left_first (some_of (found key b.claimed)) (some_of (found key b.plain)) (k == key))
    | inr o ↦
        rw
          (
            o,
            found-append_writer key k (c.feature, v) b.plain,
            some_of-snoc (found key b.plain) (k == key) (c.feature, v),
          )
          (in_set-note_order key k b.order
            ∙ ap (λ z. z || (k == key)) (h key)
            ∙ right_last (some_of (found key b.claimed)) (some_of (found key b.plain)) (k == key))
  ]

  gather_variables-Ordered :
      (c : StateContribution V) (vs : Dict String V) (b : Buckets V)
      → Ordered b
      → Ordered (gather_variables c vs b)
  unfolding gather_variables
  gather_variables-Ordered c [] b h = h
  gather_variables-Ordered c ((k, v) ∷ vs) b h =
      gather_variables-Ordered c vs (gather_variable c (k, v) b) (gather_variable-Ordered c k v b h)

  pub gather_all-Ordered :
      (cs : List (StateContribution V)) (b : Buckets V) → Ordered b → Ordered (gather_all cs b)
  unfolding gather_all
  gather_all-Ordered [] b h = h
  gather_all-Ordered (c ∷ cs) b h =
      gather_all-Ordered cs (gather_variables c c.variables b)
        (gather_variables-Ordered c c.variables b h)
