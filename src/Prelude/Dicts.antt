-- ===== src/Prelude/Dicts.antt =====
-- Python dictionaries as association lists in the order of first insertion: `d.get(k)`, `d[k] = v`,
-- and `d.setdefault(k, []).append(v)`.
use mathlib.Core.Path.{◌≡◌, refl, subst, sym, ◌∙◌}
use mathlib.Core.Bool.{true}
use mathlib.Core.Logic.{inl, inr}
use mathlib.Core.Option.{Option, none, some}
use mathlib.Core.List.{List, [], ◌∷◌, Memᴰ}
use blitze_cdn_cp.Prelude.Lists.{All, All-at, Pairwise}
use blitze_cdn_cp.Prelude.Tests.{HasEq, ◌==◌, if◌then◌else◌, Bool-cases}

abbrev pub Dict : Type 0 → Type 0 → Type 0
Dict K V = List (K × V)

module _ {K V : Type 0} ⦃has : HasEq K⦄ where
  unfoldable pub lookup : K → Dict K V → Option V
  lookup k [] = none
  lookup k ((j, v) ∷ d) = if j == k then some v else lookup k d

  unfoldable pub insert : K → V → Dict K V → Dict K V
  insert k v [] = (k, v) ∷ []
  insert k v ((j, w) ∷ d) = if j == k then (j, v) ∷ d else (j, w) ∷ insert k v d

  -- What is read behind an assignment to one key.
  pub lookup-insert_self : (k : K) (v : V) (d : Dict K V) → lookup k (insert k v d) ≡ some v
  unfolding lookup insert
  lookup-insert_self k v [] = rw (has.reflexive k)
  lookup-insert_self k v ((j, w) ∷ d) = elim (Bool-cases (j == k)) [
    | inl e ↦ rw (e, insert) (rw e)
    | inr e ↦ rw (e, insert) (rw e (lookup-insert_self k v d))
  ]

  pub lookup-insert_other :
      (k j : K) (v : V) (d : Dict K V) → ¬ (k ≡ j) → lookup j (insert k v d) ≡ lookup j d
  unfolding lookup insert
  lookup-insert_other k j v [] different = elim (Bool-cases (k == j)) [
    | inl e ↦ absurd (different (has.sound k j e))
    | inr e ↦ rw e
  ]
  lookup-insert_other k j v ((i, w) ∷ d) different = elim (Bool-cases (i == k)) [
    | inl e ↦ rw e (elim (Bool-cases (i == j)) [
      | inl e' ↦ absurd (different (sym (has.sound i k e) ∙ has.sound i j e'))
      | inr e' ↦ rw e'
    ])
    | inr e ↦ rw e (elim (Bool-cases (i == j)) [
      | inl e' ↦ rw e'
      | inr e' ↦ rw e' (lookup-insert_other k j v d different)
    ])
  ]

  -- What is found stands in the dictionary, under its key.
  pub mem_of_lookup : (k : K) (d : Dict K V) {v : V} → lookup k d ≡ some v → Memᴰ (k, v) d
  unfolding lookup
  mem_of_lookup k [] h = absurd (cc h)
  mem_of_lookup k ((j, w) ∷ d) {v} h = elim (Bool-cases (j == k)) [
    | inl e ↦ Memᴰ.head (found (has.sound j k e) (rw e at h))
    | inr e ↦ Memᴰ.tail (mem_of_lookup k d (rw e at h))
  ]
    where
      found : j ≡ k → some w ≡ some v → ◌≡◌ {A = K × V} (k, v) (j, w)
      found same e = cc (same, e)

  -- A key that stands in the dictionary is found.
  pub lookup_of_mem :
      (k : K) {v : V} (d : Dict K V) → Memᴰ (k, v) d → (w : V) × (lookup k d ≡ some w)
  unfolding lookup
  lookup_of_mem k [] m = elim m [ ]
  lookup_of_mem k {v} ((j, w) ∷ d) (Memᴰ.head e) = (w, rw (hit (sym e)) refl)
    where
      hit : ◌≡◌ {A = K × V} (j, w) (k, v) → (j == k) ≡ true
      hit same = subst (λ z. (j == z) ≡ true) (λ i. (same i).0) (has.reflexive j)
  lookup_of_mem k ((j, w) ∷ d) (Memᴰ.tail m) = elim (Bool-cases (j == k)) [
    | inl e ↦ (w, rw e)
    | inr e ↦ let (w', found) = lookup_of_mem k d m in (w', rw e found)
  ]

  -- What holds of each entry holds of each behind an assignment, if it holds of the new one.
  pub insert-All {κ} :
      (Q : K × V → Type κ) (k : K) (v : V) (d : Dict K V)
      → ((j : K) → j ≡ k → Q (j, v))
      → All Q d
      → All Q (insert k v d)
  unfolding insert
  insert-All Q k v [] new h = (new k refl, tt)
  insert-All Q k v ((j, w) ∷ d) new h = elim (Bool-cases (j == k)) [
    | inl e ↦ rw e (new j (has.sound j k e), h.1)
    | inr e ↦ rw e (h.0, insert-All Q k v d new h.1)
  ]

  -- A dictionary has each key once.
  abbrev pub DistinctKeys : Dict K V → Type 0
  DistinctKeys = Pairwise (λ a b. ¬ (a.0 ≡ b.0))

  pub insert-DistinctKeys :
      (k : K) (v : V) (d : Dict K V) → DistinctKeys d → DistinctKeys (insert k v d)
  unfolding insert
  insert-DistinctKeys k v [] h = (tt, tt)
  insert-DistinctKeys k v ((j, w) ∷ d) h = elim (Bool-cases (j == k)) [
    | inl e ↦ rw e h
    | inr e ↦ rw e (
      insert-All (λ b. ¬ (j ≡ b.0)) k v d
          (λ i same other. absurd (cc (e, has.reflexive k, other ∙ same))) h.0,
      insert-DistinctKeys k v d h.1,
    )
  ]

  pub lookup-mem :
      (k : K) (v : V) (d : Dict K V) → DistinctKeys d → Memᴰ (k, v) d → lookup k d ≡ some v
  unfolding lookup
  lookup-mem k v [] h m = elim m [ ]
  lookup-mem k v ((j, w) ∷ d) h (Memᴰ.head e) =
      subst (λ p. lookup k (p ∷ d) ≡ some v) e (rw (has.reflexive k) refl)
  lookup-mem k v ((j, w) ∷ d) h (Memᴰ.tail m) = elim (Bool-cases (j == k)) [
    | inl e ↦ absurd (All-at (λ b. ¬ (j ≡ b.0)) d h.0 m (has.sound j k e))
    | inr e ↦ rw e (lookup-mem k v d h.1 m)
  ]
