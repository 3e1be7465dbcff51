-- ===== src/Features/Modules/Claims.antt =====
-- The claims of modules and shared objects in `resolve_edge_modules`
-- (core/features/resolution/modules.py).
use mathlib.Core.List.{append_assoc, append-nil}
use blitze_cdn_cp.Prelude.{
  String, List, [], ◌∷◌, ◌++◌, Memᴰ, true, ◌&&◌, Option, none, some, ◌==◌, string_eq, bool_eq,
  list_eq, both, Dict, lookup, insert, lookup-insert_self, lookup-insert_other, ◌≡◌, ◌≢◌, refl, sym,
  ap, ◌∙◌, subst, inl, inr, Bool-cases, All, All-mono, Pairwise,
}
use blitze_cdn_cp.Features.Roles.{EdgeModule}
use blitze_cdn_cp.Features.Modules.{
  ResolvedEdgeModule, Found, Step, goes_on, stops, then_on, same_module, claimed_object,
  claim_objects,
}

pub of_goes_on : {A : Type 0} {x y : A} → goes_on x ≡ goes_on y → x ≡ y
of_goes_on e = cc e

pub then_on-goes_on :
    {A B : Type 0} (go : A → Step B) (first : Step A) (b : B)
    → then_on go first ≡ goes_on b
    → (a : A) × (first ≡ goes_on a) × (go a ≡ goes_on b)
unfolding then_on
then_on-goes_on go (goes_on a) b h = (a, refl, h)
then_on-goes_on go (stops e) b h = absurd (cc h)

-- The shared objects that the modules load, in order.
unfoldable pub load_list : List ResolvedEdgeModule → List String
load_list [] = []
load_list (r ∷ rs) = r.objects ++ load_list rs

pub load_list-snoc :
    (rs : List ResolvedEdgeModule) (r : ResolvedEdgeModule)
    → load_list (rs ++ r ∷ []) ≡ load_list rs ++ r.objects
unfolding load_list
load_list-snoc [] r = append-nil r.objects
load_list-snoc (q ∷ rs) r =
    ap (λ z. q.objects ++ z) (load_list-snoc rs r)
    ∙ sym (append_assoc q.objects (load_list rs) r.objects)

unset_before_insert :
    {V : Type 0} (x o : String) (v : V) (d : Dict String V)
    → lookup x (insert o v d) ≡ none
    → (o ≢ x) × (lookup x d ≡ none)
unset_before_insert x o v d h = elim (Bool-cases (o == x)) [
  | inl e ↦ absurd (
      cc (
        sym (lookup-insert_self x v d)
        ∙ subst (λ z. lookup x (insert z v d) ≡ none) (string_eq.sound o x e) h))
  | inr e ↦
      let other : o ≢ x = λ same. cc (e, string_eq.reflexive o, same) in
      (other, sym (lookup-insert_other o x v d other) ∙ h)
]

claimed_object-goes_on :
    (name object : String) (o : Option String) (rest : Step (Dict String String))
    (d' : Dict String String)
    → claimed_object name object o rest ≡ goes_on d'
    → (o ≡ none) × (rest ≡ goes_on d')
unfolding claimed_object
claimed_object-goes_on name object none rest d' h = (refl, h)
claimed_object-goes_on name object (some other) rest d' h = absurd (cc h)

-- The objects that are claimed are new and distinct, and they are claimed then.
pub claim_objects-fresh :
    (name : String) (os : List String) (d d' : Dict String String)
    → claim_objects name os d ≡ goes_on d'
    → Pairwise (λ a b. a ≢ b) os
      × All (λ o. lookup o d ≡ none) os
      × ((x : String) → lookup x d' ≡ none → (lookup x d ≡ none) × (¬ Memᴰ x os))
unfolding claim_objects
claim_objects-fresh name [] d d' h =
    (tt, tt, λ x free. (subst (λ z. lookup x z ≡ none) (sym (of_goes_on h)) free, λ m. elim m [ ]))
claim_objects-fresh name (o ∷ os) d d' h =
    let (new, rest) =
      claimed_object-goes_on name o (lookup o d) (claim_objects name os (insert o name d)) d' h in
    let (distinct, fresh, out) = claim_objects-fresh name os (insert o name d) d' rest in
    let behind =
      All-mono _ (λ x. (o ≢ x) × (lookup x d ≡ none)) os
        (λ x free. unset_before_insert x o name d free) fresh in
    (
      (All-mono _ (λ x. o ≢ x) os (λ x h. h.0) behind, distinct),
      (new, All-mono _ (λ x. lookup x d ≡ none) os (λ x h. h.1) behind),
      λ x free.
          let (free', absent) = out x free in
          let (other, before) = unset_before_insert x o name d free' in
          (before, outside x other absent),
    )
  where
    outside : (x : String) → o ≢ x → ¬ Memᴰ x os → ¬ Memᴰ x (o ∷ os)
    outside x other absent (Memᴰ.head e) = other (sym e)
    outside x other absent (Memᴰ.tail m) = absent m

pub same_module-equal :
    (a b : ResolvedEdgeModule)
    → same_module a b ≡ true
    → (a.objects ≡ b.objects) × (a.build ≡ b.build) × (a.probe ≡ b.probe)
unfolding same_module
same_module-equal a b h =
    let (objects, rest) =
      both (a.objects == b.objects) (a.build == b.build && a.probe == b.probe) h in
    let (build, probe) = both (a.build == b.build) (a.probe == b.probe) rest in
    (
      list_eq.sound a.objects b.objects objects,
      bool_eq.sound a.build b.build build,
      string_eq.sound a.probe b.probe probe,
    )

-- A module of this name that is described alike is loaded.
unfoldable pub Loaded : EdgeModule → List ResolvedEdgeModule → Type 0
Loaded m rs =
    (r : ResolvedEdgeModule) × Memᴰ r rs
    × (r.name ≡ m.name)
    × (r.objects ≡ m.objects)
    × (r.build ≡ m.build)
    × (r.probe ≡ m.probe)

unfoldable pub Grows : Found → Found → Type 0
Grows f f' = (r : ResolvedEdgeModule) → Memᴰ r f.resolved → Memᴰ r f'.resolved

pub grown-Loaded :
    (m : EdgeModule) (f f' : Found) → Grows f f' → Loaded m f.resolved → Loaded m f'.resolved
unfolding Grows Loaded
grown-Loaded m f f' grows (r, k, name, objects, build, probe) =
    (r, grows r k, name, objects, build, probe)
