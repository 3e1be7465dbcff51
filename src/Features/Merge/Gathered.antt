-- ===== src/Features/Merge/Gathered.antt =====
-- What the two buckets of `merge_variables` (core/features/registry.py) hold.
use blitze_cdn_cp.Prelude.{
  String, List, [], ◌∷◌, ◌++◌, Bool, true, false, not, ◌==◌, string_eq, if◌then◌else◌, Dict, lookup,
  lookup-insert_self, lookup-insert_other, ◌≡◌, refl, sym, ap, ◌∙◌, inl, inr, Bool-cases,
}
use mathlib.Core.List.{append_assoc, append-nil}
use blitze_cdn_cp.Features.Merge.{
  StateContribution, Writer, Bucket, Buckets, in_set, found, none_yet, append_writer,
  gather_variable, gather_variables, gather_all,
}

-- A write is on the side of the claims, or on the other.
abbrev pub agrees : Bool → Bool → Bool
agrees true o = o
agrees false o = not o

module _ {V : Type 0} where
  -- What one contribution writes to a variable.
  unfoldable pub share : String → String → Dict String V → List (Writer V)
  share feature key [] = []
  share feature key ((k, v) ∷ vs) =
      let rest = share feature key vs in if k == key then (feature, v) ∷ rest else rest

  -- The bucket of the writes that claim to override, or that of the others.
  abbrev pub bucket : Bool → Buckets V → Bucket V
  bucket true b = b.claimed
  bucket false b = b.plain

  -- All writes to a variable on one side, in the order of the contributions.
  unfoldable pub writes : Bool → String → List (StateContribution V) → List (Writer V)
  writes side key [] = []
  writes side key (c ∷ cs) =
      (if agrees side (in_set key c.overrides) then share c.feature key c.variables else [])
      ++ writes side key cs

  pub found-append_writer :
      (key k : String) (w : Writer V) (d : Bucket V)
      → found key (append_writer k w d) ≡ found key d ++ (if k == key then w ∷ [] else [])
  unfolding found append_writer
  found-append_writer key k w d = elim (Bool-cases (k == key)) [
    | inl e ↦
        let same = string_eq.sound k key e in
        rw (e, same) (ap none_yet (lookup-insert_self key _ d))
    | inr e ↦ rw e (
        ap none_yet (lookup-insert_other k key _ d (λ same. cc (e, string_eq.reflexive k, same)))
        ∙ sym (append-nil (none_yet (lookup key d))))
  ]

  module _ (side : Bool) (key k : String) (overrides : List String) (ws : List (Writer V)) where
    same_side : (k == key) ≡ true → in_set key overrides ≡ in_set k overrides
    same_side e = ap (λ z. in_set z overrides) (sym (string_eq.sound k key e))

    picked :
        agrees side (in_set k overrides) ≡ true
        → (if k == key then ws else [])
          ≡ (if agrees side (in_set key overrides) then (if k == key then ws else []) else [])
    picked h = elim (Bool-cases (k == key)) [
      | inl e ↦ rw (e, same_side e, h) refl
      | inr e ↦ rw e (elim (Bool-cases (agrees side (in_set key overrides))) [
        | inl o ↦ rw o refl
        | inr o ↦ rw o refl
      ])
    ]

    passed :
        agrees side (in_set k overrides) ≡ false
        → ◌≡◌ {A = List (Writer V)} []
            (if agrees side (in_set key overrides) then (if k == key then ws else []) else [])
    passed h = elim (Bool-cases (k == key)) [
      | inl e ↦ rw (e, same_side e, h) refl
      | inr e ↦ rw e (elim (Bool-cases (agrees side (in_set key overrides))) [
        | inl o ↦ rw o refl
        | inr o ↦ rw o refl
      ])
    ]

  module _ (key : String) (c : StateContribution V) where
    one_written :
        (side : Bool) (k : String) (v : V) (b : Buckets V)
        → found key (bucket side (gather_variable c (k, v) b))
          ≡ found key (bucket side b)
            ++ (if agrees side (in_set key c.overrides)
                then (if k == key then (c.feature, v) ∷ [] else [])
                else [])
    unfolding gather_variable
    one_written true k v b = elim (Bool-cases (in_set k c.overrides)) [
      | inl o ↦ rw o (
          found-append_writer key k (c.feature, v) b.claimed
          ∙ ap (λ z. found key b.claimed ++ z)
              (picked true key k c.overrides ((c.feature, v) ∷ []) o))
      | inr o ↦ rw o (
          sym (append-nil _)
          ∙ ap (λ z. found key b.claimed ++ z)
              (passed true key k c.overrides ((c.feature, v) ∷ []) o))
    ]
    one_written false k v b = elim (Bool-cases (in_set k c.overrides)) [
      | inl o ↦ rw o (
          sym (append-nil _)
          ∙ ap (λ z. found key b.plain ++ z)
              (passed false key k c.overrides ((c.feature, v) ∷ []) (rw o refl)))
      | inr o ↦ rw o (
          found-append_writer key k (c.feature, v) b.plain
          ∙ ap (λ z. found key b.plain ++ z)
              (picked false key k c.overrides ((c.feature, v) ∷ []) (rw o refl)))
    ]

  joined :
      (o b : Bool) (w : Writer V) (rest : List (Writer V))
      → (if o then (if b then w ∷ [] else []) else []) ++ (if o then rest else [])
        ≡ (if o then (if b then w ∷ rest else rest) else [])
  joined true true w rest = refl
  joined true false w rest = refl
  joined false b w rest = refl

  variables_written :
      (side : Bool) (key : String) (c : StateContribution V) (vs : Dict String V) (b : Buckets V)
      → found key (bucket side (gather_variables c vs b))
        ≡ found key (bucket side b)
          ++ (if agrees side (in_set key c.overrides) then share c.feature key vs else [])
  unfolding gather_variables share
  variables_written side key c [] b = elim (Bool-cases (agrees side (in_set key c.overrides))) [
    | inl o ↦ rw o (sym (append-nil _))
    | inr o ↦ rw o (sym (append-nil _))
  ]
  variables_written side key c ((k, v) ∷ vs) b =
      variables_written side key c vs (gather_variable c (k, v) b)
      ∙ ap (λ z. z ++ (if agrees side (in_set key c.overrides) then share c.feature key vs else []))
          (one_written key c side k v b)
      ∙ append_assoc (found key (bucket side b)) _ _
      ∙ ap (λ z. found key (bucket side b) ++ z)
          (joined (agrees side (in_set key c.overrides)) (k == key) (c.feature, v)
            (share c.feature key vs))

  pub gather_all-writes :
      (side : Bool) (key : String) (cs : List (StateContribution V)) (b : Buckets V)
      → found key (bucket side (gather_all cs b)) ≡ found key (bucket side b) ++ writes side key cs
  unfolding gather_all writes
  gather_all-writes side key [] b = sym (append-nil _)
  gather_all-writes side key (c ∷ cs) b =
      gather_all-writes side key cs (gather_variables c c.variables b)
      ∙ ap (λ z. z ++ writes side key cs) (variables_written side key c c.variables b)
      ∙ append_assoc (found key (bucket side b)) _ _
