-- ===== src/Features/Modules/Loads.antt =====
-- What `resolve_edge_modules` (core/features/resolution/modules.py) makes an edge load.
use blitze_cdn_cp.Prelude.{
  String, List, [], ◌∷◌, Memᴰ, Option, none, some, ◌==◌, string_eq, bool_eq, list_eq, Dict, lookup,
  insert, lookup-insert_self, lookup-insert_other, ◌≡◌, ◌≢◌, refl, sym, ap, ◌∙◌, subst, inl, inr,
  Bool-cases, All, All-at, All-of, All-mono, Pairwise, Pairwise-append, mem-append_left,
  mem-append_right, mem_of_append, of_some,
}
use blitze_cdn_cp.Sql.{order_by}
use blitze_cdn_cp.Sql.Order.{mem-order_by, mem_of_order_by}
use blitze_cdn_cp.Features.Roles.{AnsibleContribution, EdgeModule, by_feature}
use blitze_cdn_cp.Features.Modules.{
  ResolvedEdgeModule, Found, goes_on, candidate_of, same_module, claim_objects, add_candidate,
  settle_candidate, modules_from, contributions_from, nothing_found, resolve_edge_modules,
}
use blitze_cdn_cp.Features.Modules.Claims.{
  of_goes_on, then_on-goes_on, load_list, load_list-snoc, claim_objects-fresh, same_module-equal,
  Loaded, Grows, grown-Loaded,
}

module _ (Q : ResolvedEdgeModule → Type 0) where
  -- The tables of the loop describe what it has resolved, which loads no object twice.
  record Sound (f : Found) : Type 0 where
    owned :
        (name : String) (r : ResolvedEdgeModule)
        → lookup name f.owners ≡ some r
        → Memᴰ r f.resolved × (r.name ≡ name)
    distinct : Pairwise (λ a b. a ≢ b) (load_list f.resolved)
    free : (x : String) → lookup x f.objects ≡ none → ¬ Memᴰ x (load_list f.resolved)
    origin : (r : ResolvedEdgeModule) → Memᴰ r f.resolved → Q r

  -- What a step of the loop keeps and adds.
  Advances : Found → Found → Type 0
  Advances f f' = Sound f' × Grows f f'

  add_candidate-Advances :
      (candidate : ResolvedEdgeModule) (f : Found) (objects : Dict String String)
      → Sound f
      → Q candidate
      → claim_objects candidate.name candidate.objects f.objects ≡ goes_on objects
      → Advances f (add_candidate candidate f objects)
  unfolding Advances Grows add_candidate
  add_candidate-Advances candidate f objects sound q claimed =
      let (distinct, fresh, out) =
        claim_objects-fresh candidate.name candidate.objects f.objects objects claimed in
      (
        record {
          owned = λ name r found. elim (Bool-cases (candidate.name == name)) [
            | inl e ↦
                let same = string_eq.sound candidate.name name e in
                let is : candidate ≡ r = of_some (
                  sym (lookup-insert_self candidate.name candidate f.owners)
                  ∙ subst (λ z. lookup z (insert candidate.name candidate f.owners) ≡ some r)
                      (sym same) found) in
                (
                  mem-append_right f.resolved (candidate ∷ []) (Memᴰ.head (sym is)),
                  ap (λ z. z.name) (sym is) ∙ same,
                )
            | inr e ↦
                let other : candidate.name ≢ name =
                  λ same. cc (e, string_eq.reflexive candidate.name, same) in
                let (m, named) = sound.owned name r (
                  sym (lookup-insert_other candidate.name name candidate f.owners other) ∙ found) in
                (mem-append_left f.resolved (candidate ∷ []) m, named)
          ];
          distinct =
              subst (λ z. Pairwise (λ a b. a ≢ b) z) (sym (load_list-snoc f.resolved candidate))
                (Pairwise-append (λ a b. a ≢ b) (load_list f.resolved) candidate.objects
                  sound.distinct distinct
                  (λ x y m n same.
                    sound.free x
                      (subst (λ z. lookup z f.objects ≡ none) (sym same)
                        (All-at _ candidate.objects fresh n))
                      m));
          free = λ x none_there m.
              let (before, absent) = out x none_there in
              elim (mem_of_append (load_list f.resolved) candidate.objects
                (subst (λ z. Memᴰ x z) (load_list-snoc f.resolved candidate) m)) [
                  | inl old ↦ sound.free x before old
                  | inr new ↦ absent new
                ];
          origin = λ r m. elim (mem_of_append f.resolved (candidate ∷ []) m) [
            | inl old ↦ sound.origin r old
            | inr (Memᴰ.head e) ↦ subst Q (sym e) q
            | inr (Memᴰ.tail k) ↦ elim k [ ]
          ];
        },
        λ r m. mem-append_left f.resolved (candidate ∷ []) m,
      )

  settle-Advances :
      (feature : String) (m : EdgeModule) (found : Option ResolvedEdgeModule) (f f' : Found)
      → lookup m.name f.owners ≡ found
      → settle_candidate (candidate_of feature m) found f ≡ goes_on f'
      → Sound f
      → Q (candidate_of feature m)
      → Advances f f' × Loaded m f'.resolved
  unfolding settle_candidate Advances Grows Loaded add_candidate
  settle-Advances feature m none f f' e h sound q =
      let (objects, claimed, same) =
        then_on-goes_on _ (claim_objects m.name m.objects f.objects) f' h in
      subst (λ z. Advances f z × Loaded m z.resolved) (of_goes_on same)
        (
          add_candidate-Advances (candidate_of feature m) f objects sound q claimed,
          (
            candidate_of feature m,
            mem-append_right f.resolved (candidate_of feature m ∷ []) (Memᴰ.head refl),
            refl,
            refl,
            refl,
            refl,
          ),
        )
  settle-Advances feature m (some existing) f f' e h sound q =
      elim (Bool-cases (same_module existing (candidate_of feature m))) [
        | inl same ↦
            let (objects, build, probe) =
              same_module-equal existing (candidate_of feature m) same in
            let (there, named) = sound.owned m.name existing e in
            subst (λ z. Advances f z × Loaded m z.resolved) (of_goes_on (rw same at h))
              ((sound, λ r k. k), (existing, there, named, objects, build, probe))
        | inr other ↦ absurd (cc (rw other at h))
      ]

  modules_from-Advances :
      (feature : String) (ms : List EdgeModule) (f f' : Found)
      → modules_from feature ms f ≡ goes_on f'
      → Sound f
      → All (λ m. Q (candidate_of feature m)) ms
      → Advances f f' × All (λ m. Loaded m f'.resolved) ms
  unfolding modules_from Advances Grows
  modules_from-Advances feature [] f f' h sound qs =
      subst (λ z. Advances f z × Unit) (of_goes_on h) ((sound, λ r k. k), tt)
  modules_from-Advances feature (m ∷ ms) f f' h sound (q, qs) =
      let (g, first, rest) =
        then_on-goes_on (modules_from feature ms)
          (settle_candidate (candidate_of feature m) (lookup m.name f.owners) f) f' h in
      let ((sound', grows), loaded) =
        settle-Advances feature m (lookup m.name f.owners) f g refl first sound q in
      let ((sound'', grows'), others) = modules_from-Advances feature ms g f' rest sound' qs in
      ((sound'', λ r k. grows' r (grows r k)), (grown-Loaded m g f' grows' loaded, others))

  contributions_from-Advances :
      (cs : List AnsibleContribution) (f f' : Found)
      → contributions_from cs f ≡ goes_on f'
      → Sound f
      → All (λ c. All (λ m. Q (candidate_of c.feature m)) c.edge_modules) cs
      → Advances f f' × All (λ c. All (λ m. Loaded m f'.resolved) c.edge_modules) cs
  unfolding contributions_from Advances Grows
  contributions_from-Advances [] f f' h sound qs =
      subst (λ z. Advances f z × Unit) (of_goes_on h) ((sound, λ r k. k), tt)
  contributions_from-Advances (c ∷ cs) f f' h sound (q, qs) =
      let (g, first, rest) =
        then_on-goes_on (contributions_from cs) (modules_from c.feature c.edge_modules f) f' h in
      let ((sound', grows), loaded) =
        modules_from-Advances c.feature c.edge_modules f g first sound q in
      let ((sound'', grows'), others) = contributions_from-Advances cs g f' rest sound' qs in
      (
        (sound'', λ r k. grows' r (grows r k)),
        (
          All-mono _ (λ m. Loaded m f'.resolved) c.edge_modules (λ m. grown-Loaded m g f' grows')
              loaded,
          others,
        ),
      )

-- A feature declares the module so.
unfoldable pub Declares : List AnsibleContribution → ResolvedEdgeModule → Type 0
Declares cs r =
    (c : AnsibleContribution) × Memᴰ c cs
    × (m : EdgeModule) × Memᴰ m c.edge_modules
    × (r ≡ candidate_of c.feature m)

nothing-Sound : (Q : ResolvedEdgeModule → Type 0) → Sound Q nothing_found
unfolding load_list lookup
nothing-Sound Q = record {
  owned = λ name r e. absurd (cc e);
  distinct = tt;
  free = λ x e m. elim m [ ];
  origin = λ r m. elim m [ ];
}

-- A load list that is resolved loads no shared object twice, has each module that a feature declares,
-- with the objects, the build and the probe that it declares, and has only modules that a feature
-- declares so.
pub resolve_edge_modules-Loads :
    (contributions : List AnsibleContribution) (resolved : List ResolvedEdgeModule)
    → resolve_edge_modules contributions ≡ goes_on resolved
    → Pairwise (λ a b. a ≢ b) (load_list resolved)
      × ((c : AnsibleContribution)
          → Memᴰ c contributions
          → All (λ m. Loaded m resolved) c.edge_modules)
      × ((r : ResolvedEdgeModule) → Memᴰ r resolved → Declares contributions r)
unfolding resolve_edge_modules Advances Declares
resolve_edge_modules-Loads contributions resolved h =
    let ordered = order_by by_feature contributions in
    let (f, found, same) =
      then_on-goes_on _ (contributions_from ordered nothing_found) resolved h in
    let ((sound, _), loaded) =
      contributions_from-Advances (Declares contributions) ordered nothing_found f found
        (nothing-Sound (Declares contributions))
        (All-of _ ordered (λ c m.
          All-of _ c.edge_modules
            (λ e k. (c, mem_of_order_by by_feature contributions m, e, k, refl)))) in
    subst
      (λ z.
        Pairwise (λ a b. a ≢ b) (load_list z)
        × ((c : AnsibleContribution) → Memᴰ c contributions → All (λ m. Loaded m z) c.edge_modules)
        × ((r : ResolvedEdgeModule) → Memᴰ r z → Declares contributions r))
      (of_goes_on same)
      (
        sound.distinct,
        λ c m. All-at _ ordered loaded (mem-order_by by_feature contributions m),
        sound.origin,
      )
