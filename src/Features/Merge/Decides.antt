-- ===== src/Features/Merge/Decides.antt =====
-- What `merge_variables` (core/features/registry.py) answers, variable by variable.
use blitze_cdn_cp.Prelude.{
  String, List, [], ◌∷◌, true, false, ◌||◌, none, some, ◌==◌, string_eq, Dict, lookup, insert,
  lookup-insert_self, lookup-insert_other, ◌≡◌, refl, sym, ◌∙◌, subst, ◌⊎◌, inl, inr, Bool-cases,
  Option, ◌<◌, length, arith,
}
use blitze_cdn_cp.Sql.{matches}
use blitze_cdn_cp.Features.Merge.{
  StateContribution, Writer, Conflict, Buckets, in_set, found, Verdict, wins, conflicts, missing,
  Merged, merged, fails, crashed, decide, settle_key, settle_keys, none_yet, gather_all, no_buckets,
  merge_variables,
}
use blitze_cdn_cp.Features.Merge.Gathered.{writes, gather_all-writes}
use blitze_cdn_cp.Features.Merge.Mentioned.{some_of, Ordered, gather_all-Ordered}

module _ {V : Type 0} where
  -- What the writers of a variable amount to: the only claim to override, or the only write if there
  -- is no claim.
  abbrev pub verdict : String → List (StateContribution V) → Verdict V
  verdict key cs = decide key (writes true key cs) (writes false key cs)

  unfoldable pub Settles : String → Verdict V → Dict String V → Type 0
  Settles key (wins v) d = lookup key d ≡ some v
  Settles key (conflicts c) d = ⊥
  Settles key missing d = lookup key d ≡ none

  -- A document holds for each variable what its writers amount to, and nothing else; a failure is
  -- that of a variable.
  unfoldable pub Decides : List (StateContribution V) → Merged V → Type 0
  Decides cs (merged d) = (key : String) → Settles key (verdict key cs) d
  Decides cs (fails c) = (key : String) × (verdict key cs ≡ conflicts c)
  Decides cs crashed = ⊥

  decide-missing :
      (key : String) (claimed plain : List (Writer V))
      → (some_of claimed || some_of plain) ≡ false
      → decide key claimed plain ≡ missing
  unfolding decide
  decide-missing key [] [] h = refl
  decide-missing key [] (w ∷ ws) h = absurd (cc h)
  decide-missing key (w ∷ ws) plain h = absurd (cc h)

  decide-present :
      (key : String) (claimed plain : List (Writer V))
      → (some_of claimed || some_of plain) ≡ true
      → ¬ (decide key claimed plain ≡ missing)
  unfolding decide
  decide-present key (a ∷ b ∷ ws) plain h e = cc
  decide-present key (a ∷ []) plain h e = cc
  decide-present key [] (a ∷ b ∷ ws) h e = cc
  decide-present key [] (a ∷ []) h e = cc
  decide-present key [] [] h e = absurd (cc h)

  module _ (b : Buckets V) where
    said : String → Verdict V
    said key = decide key (found key b.claimed) (found key b.plain)

    -- What the loop over the rest of the variables leaves.
    Ends : List String → Dict String V → Merged V → Type 0
    Ends keys d (merged d') =
        (key : String)
        → ((in_set key keys ≡ false) × (lookup key d' ≡ lookup key d))
          ⊎ ((in_set key keys ≡ true) × Settles key (said key) d')
    Ends keys d (fails c) = (key : String) × (said key ≡ conflicts c)
    Ends keys d crashed = (key : String) × (in_set key keys ≡ true) × (said key ≡ missing)

    module _ (k : String) (keys : List String) (d : Dict String V) where
      won :
          (v : V) (m : Merged V)
          → said k ≡ wins v
          → Ends keys (insert k v d) m
          → Ends (k ∷ keys) d m
      unfolding in_set matches Settles Ends
      won v (merged d') e h = λ key. elim (h key) [
        | inr (there, s) ↦
            inr
              (rw there (elim (Bool-cases (k == key)) [ inl o ↦ rw o refl | inr o ↦ rw o refl ]), s)
        | inl (out, same) ↦ elim (Bool-cases (k == key)) [
          | inl o ↦
              let eq = string_eq.sound k key o in
              inr (
                rw o refl,
                subst (λ z. Settles z (said z) d') eq
                    (rw e (
                      subst (λ z. lookup z d' ≡ lookup z (insert k v d)) (sym eq) same
                      ∙ lookup-insert_self k v d)),
              )
          | inr o ↦ inl (
            rw (o, out) refl,
            same ∙ lookup-insert_other k key v d (λ eq. cc (o, string_eq.reflexive k, eq)),
          )
        ]
      ]
      won v (fails c) e h = h
      won v crashed e (key, there, h) = (
        key,
        rw there (elim (Bool-cases (k == key)) [ inl o ↦ rw o refl | inr o ↦ rw o refl ]),
        h,
      )

    settled_key :
        (k : String) (keys : List String) (d : Dict String V) (v : Verdict V)
        → said k ≡ v
        → ((d' : Dict String V) → Ends keys d' (settle_keys b keys d'))
        → Ends (k ∷ keys) d (settle_key (settle_keys b keys) k v d)
    unfolding settle_key in_set matches Ends
    settled_key k keys d (wins v) e rest = won k keys d v _ e (rest (insert k v d))
    settled_key k keys d (conflicts c) e rest = (k, e)
    settled_key k keys d missing e rest = (k, rw (string_eq.reflexive k) refl, e)

    settle_keys-Ends : (keys : List String) (d : Dict String V) → Ends keys d (settle_keys b keys d)
    unfolding settle_keys in_set matches said Ends
    settle_keys-Ends [] d = λ key. inl (refl, refl)
    settle_keys-Ends (k ∷ keys) d = settled_key k keys d (said k) refl (settle_keys-Ends keys)

    module _ (cs : List (StateContribution V)) (ordered : Ordered b)
        (same : (key : String) → said key ≡ verdict key cs) where
      conclude : (m : Merged V) → Ends b.order [] m → Decides cs m
      unfolding Decides Settles said lookup Ends
      conclude (merged d) h = λ key. elim (h key) [
        | inl (out, e) ↦
            subst (λ v. Settles key v d)
              (sym (decide-missing key _ _ (sym (ordered key) ∙ out)) ∙ same key) e
        | inr (there, s) ↦ subst (λ v. Settles key v d) (same key) s
      ]
      conclude (fails c) (key, e) = (key, sym (same key) ∙ e)
      conclude crashed (key, there, e) = decide-present key _ _ (sym (ordered key) ∙ there) e

  pub merge_variables-Decides : (cs : List (StateContribution V)) → Decides cs (merge_variables cs)
  unfolding merge_variables said found lookup none_yet matches
  merge_variables-Decides cs =
      conclude (gather_all cs no_buckets) cs (gather_all-Ordered cs no_buckets (λ key. refl))
        (λ key.
          rw (gather_all-writes true key cs no_buckets, gather_all-writes false key cs no_buckets)
            refl)
        (settle_keys (gather_all cs no_buckets) (gather_all cs no_buckets).order [])
        (settle_keys-Ends (gather_all cs no_buckets) (gather_all cs no_buckets).order [])

  -- What is found of a variable with these claims to override and these other writes.
  unfoldable pub OfWriters : List (Writer V) → List (Writer V) → Option V → Type 0
  OfWriters [] [] value = value ≡ none
  OfWriters [] (w ∷ []) value = value ≡ some w.1
  OfWriters [] (w ∷ x ∷ ws) value = ⊥
  OfWriters (w ∷ []) plain value = value ≡ some w.1
  OfWriters (w ∷ x ∷ ws) plain value = ⊥

  -- Several claims, or several writes and no claim.
  unfoldable pub Disputed : List (Writer V) → List (Writer V) → Type 0
  Disputed claims plain = (1 < length claims) ⊎ ((claims ≡ []) × (1 < length plain))

  unfoldable pub Settled : List (StateContribution V) → Merged V → Type 0
  unfolding OfWriters Disputed
  Settled cs (merged d) =
      (key : String) → OfWriters (writes true key cs) (writes false key cs) (lookup key d)
  Settled cs (fails c) = (key : String) × Disputed (writes true key cs) (writes false key cs)
  Settled cs crashed = ⊥

  Settles-OfWriters :
      (key : String) (claims plain : List (Writer V)) (d : Dict String V)
      → Settles key (decide key claims plain) d
      → OfWriters claims plain (lookup key d)
  unfolding decide Settles OfWriters
  Settles-OfWriters key [] [] d h = h
  Settles-OfWriters key [] (w ∷ []) d h = h
  Settles-OfWriters key [] (w ∷ x ∷ ws) d h = h
  Settles-OfWriters key (w ∷ []) plain d h = h
  Settles-OfWriters key (w ∷ x ∷ ws) plain d h = h

  conflicts-Disputed :
      (key : String) (claims plain : List (Writer V)) (c : Conflict)
      → decide key claims plain ≡ conflicts c
      → Disputed claims plain
  unfolding decide Disputed
  conflicts-Disputed key [] [] c h = absurd (cc h)
  conflicts-Disputed key [] (w ∷ []) c h = absurd (cc h)
  conflicts-Disputed key [] (w ∷ x ∷ ws) c h = inr (refl, omega arith)
  conflicts-Disputed key (w ∷ []) plain c h = absurd (cc h)
  conflicts-Disputed key (w ∷ x ∷ ws) plain c h = inl (omega arith)

  decided-Settled : (cs : List (StateContribution V)) (m : Merged V) → Decides cs m → Settled cs m
  unfolding Decides Settled
  decided-Settled cs (merged d) h =
      λ key. Settles-OfWriters key (writes true key cs) (writes false key cs) d (h key)
  decided-Settled cs (fails c) (key, e) =
      (key, conflicts-Disputed key (writes true key cs) (writes false key cs) c e)
  decided-Settled cs crashed h = h

  -- A merge never raises an IndexError. If it answers a document, this has for each variable the
  -- value of its only claim to override, or of its only write if there is no claim, and no variable
  -- that nobody writes. If it fails, a variable has several claims, or several writes and no claim.
  pub merge_variables-Settled : (cs : List (StateContribution V)) → Settled cs (merge_variables cs)
  merge_variables-Settled cs = decided-Settled cs (merge_variables cs) (merge_variables-Decides cs)
