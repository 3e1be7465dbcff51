-- ===== src/Features/Roles/Found.antt =====
-- Where the roles of a play are found, by core/features/resolution/ansible.py.
use blitze_cdn_cp.Prelude.{
  String, List, [], ◌∷◌, ◌++◌, Memᴰ, true, false, ◌||◌, Option, none, some, ◌==◌, string_eq, Dict,
  lookup, insert, ◌≡◌, refl, sym, ap, ◌∙◌, subst, ◌⊎◌, inl, inr, Bool-cases, All, All-at, All-of,
  mem_of_append,
}
use mathlib.Core.List.{append_assoc, append-nil}
use blitze_cdn_cp.Sql.{matches, first_where, order_by}
use blitze_cdn_cp.Sql.Laws.{first_where-append, first_where-snoc}
use blitze_cdn_cp.Sql.Order.{mem-order_by, mem_of_order_by}
use blitze_cdn_cp.Features.Merge.{in_set}
use blitze_cdn_cp.Features.Roles.{
  AnsibleContribution, Disk, Owner, control_plane, Slot, Composed, composed, rejected, and_then,
  by_feature, requested, core_owned, role_names, ship, search_from, resolve_role_search_path,
  slot_roles, slot_from, resolve_slot,
}
use blitze_cdn_cp.Features.Roles.Owners.{
  matches-snoc, of_composed, swap_or, is_owned, owned, owned-insert, claim_roles-owned, has_role,
}

module _ (disk : Disk) where
  -- The owners are those of the roles that the search path has.
  Owns : List String → Dict String Owner → Type 0
  Owns search owners = (role : String) → owned role owners ≡ matches (has_role disk role) search

  ship-Owns :
      (c : AnsibleContribution) (found : Option (List String)) (search : List String)
      (owners owners' : Dict String Owner)
      → ship disk c found owners ≡ composed owners'
      → Owns search owners
      → ((role : String)
          → has_role disk role c.roles_path ≡ true
          → matches (has_role disk role) search ≡ false)
        × Owns (search ++ c.roles_path ∷ []) owners'
  unfolding ship Owns has_role
  ship-Owns c none search owners owners' h owns = absurd (cc h)
  ship-Owns c (some names) search owners owners' h owns =
      let (free, after) =
        claim_roles-owned c.feature (role_names disk c.roles_path) owners owners' h in
      (
        λ role there. sym (owns role) ∙ free role there,
        λ role.
            after role
            ∙ ap (λ b. has_role disk role c.roles_path || b) (owns role)
            ∙ sym (matches-snoc (has_role disk role) search c.roles_path),
      )

  and_then-composed :
      {A B : Type 0} (go : A → Composed B) (first : Composed A) (b : B)
      → and_then go first ≡ composed b
      → (a : A) × (first ≡ composed a) × (go a ≡ composed b)
  unfolding and_then
  and_then-composed go (composed a) b h = (a, refl, h)
  and_then-composed go (rejected e) b h = absurd (cc h)

  -- What is found stays found, and each directory that follows is where its roles are found.
  search_from-finds :
      (cs : List AnsibleContribution) (search : List String) (owners : Dict String Owner)
      (path : List String)
      → search_from disk cs search owners ≡ composed path
      → Owns search owners
      → (role : String)
      → ((dir : String)
          → first_where (has_role disk role) search ≡ some dir
          → first_where (has_role disk role) path ≡ some dir)
        × ((c : AnsibleContribution)
            → Memᴰ c cs
            → has_role disk role c.roles_path ≡ true
            → first_where (has_role disk role) path ≡ some c.roles_path)
  unfolding search_from
  search_from-finds [] search owners path h owns role = (
    λ dir found. subst (λ z. first_where (has_role disk role) z ≡ some dir) (of_composed h) found,
    λ c m there. elim m [ ],
  )
  search_from-finds (d ∷ cs) search owners path h owns role =
      let (owners', shipped, rest) =
        and_then-composed (search_from disk cs (search ++ d.roles_path ∷ []))
          (ship disk d (disk d.roles_path) owners) path h in
      let (free, owns') = ship-Owns d (disk d.roles_path) search owners owners' shipped owns in
      let (kept, later) =
        search_from-finds cs (search ++ d.roles_path ∷ []) owners' path rest owns' role in
      (
        λ dir found. kept dir (first_where-append (has_role disk role) search _ found),
        λ c m there. at_head free kept later c m there,
      )
    where
      at_head :
          ((role : String)
            → has_role disk role d.roles_path ≡ true
            → matches (has_role disk role) search ≡ false)
          → ((dir : String)
              → first_where (has_role disk role) (search ++ d.roles_path ∷ []) ≡ some dir
              → first_where (has_role disk role) path ≡ some dir)
          → ((c : AnsibleContribution)
              → Memᴰ c cs
              → has_role disk role c.roles_path ≡ true
              → first_where (has_role disk role) path ≡ some c.roles_path)
          → (c : AnsibleContribution) → Memᴰ c (d ∷ cs)
          → has_role disk role c.roles_path ≡ true
          → first_where (has_role disk role) path ≡ some c.roles_path
      at_head free kept later c (Memᴰ.tail m) there = later c m there
      at_head free kept later c (Memᴰ.head e) there =
          subst (λ z. first_where (has_role disk role) path ≡ some z.roles_path) (sym e)
            (kept d.roles_path (
              first_where-snoc (has_role disk role) search d.roles_path
                (free role (subst (λ z. has_role disk role z.roles_path ≡ true) e there))
                (subst (λ z. has_role disk role z.roles_path ≡ true) e there)))

  core_owned-owned :
      (names : List String) (d : Dict String Owner) (role : String)
      → owned role (core_owned names d) ≡ (in_set role names || owned role d)
  unfolding core_owned in_set matches
  core_owned-owned [] d role = refl
  core_owned-owned (name ∷ names) d role =
      core_owned-owned names (insert name control_plane d) role
      ∙ ap (λ b. in_set role names || b) (owned-insert role name control_plane d)
      ∙ swap_or (in_set role names) (name == role) (owned role d)

  core-Owns :
      (core_roles : String) → Owns (core_roles ∷ []) (core_owned (role_names disk core_roles) [])
  unfolding Owns matches has_role owned lookup is_owned
  core-Owns core_roles = λ role. core_owned-owned (role_names disk core_roles) [] role

  -- A search path that is composed shadows no role. Ansible takes the first directory of the search path
  -- that has a role: this is the directory of the core for each role that the core ships, and for each
  -- role that a feature ships the directory of this feature.
  pub search_path-finds :
      (core_roles : String) (contributions : List AnsibleContribution) (path : List String)
      → resolve_role_search_path disk core_roles contributions ≡ composed path
      → (role : String)
      → (has_role disk role core_roles ≡ true
          → first_where (has_role disk role) path ≡ some core_roles)
        × ((c : AnsibleContribution)
            → Memᴰ c contributions
            → has_role disk role c.roles_path ≡ true
            → first_where (has_role disk role) path ≡ some c.roles_path)
  unfolding resolve_role_search_path first_where
  search_path-finds core_roles contributions path h role =
      let (kept, found) =
        search_from-finds (order_by by_feature contributions) (core_roles ∷ []) _ path h
          (core-Owns core_roles) role in
      (
        λ there. kept core_roles (rw there refl),
        λ c m there. found c (mem-order_by by_feature contributions m) there,
      )

  -- A feature asked for the role in this slot, and ships it.
  Asked : Slot → List AnsibleContribution → String → Type 0
  Asked slot cs role =
      (c : AnsibleContribution) × Memᴰ c cs
      × Memᴰ role (requested slot c)
      × (has_role disk role c.roles_path ≡ true)

  slot_roles-ships :
      (slot : Slot) (c : AnsibleContribution) (rest roles result : List String)
      → slot_roles disk slot c rest roles ≡ composed result
      → (result ≡ roles ++ rest) × All (λ role. has_role disk role c.roles_path ≡ true) rest
  unfolding slot_roles has_role
  slot_roles-ships slot c [] roles result h = (sym (of_composed h) ∙ sym (append-nil roles), tt)
  slot_roles-ships slot c (role ∷ rest) roles result h =
      elim (Bool-cases (in_set role (role_names disk c.roles_path))) [
        | inl e ↦
            let (same, all) =
              slot_roles-ships slot c rest (roles ++ role ∷ []) result (rw e at h) in
            (same ∙ append_assoc roles (role ∷ []) rest, (e, all))
        | inr e ↦ absurd (cc (rw e at h))
      ]

  slot_from-Asked :
      (slot : Slot) (cs : List AnsibleContribution) (roles result : List String)
      → slot_from disk slot cs roles ≡ composed result
      → (role : String) → Memᴰ role result
      → Memᴰ role roles ⊎ Asked slot cs role
  unfolding slot_from Asked
  slot_from-Asked slot [] roles result h role m =
      inl (subst (λ z. Memᴰ role z) (sym (of_composed h)) m)
  slot_from-Asked slot (c ∷ cs) roles result h role m =
      let (middle, first, rest) =
        and_then-composed (slot_from disk slot cs) (slot_roles disk slot c (requested slot c) roles)
          result h in
      let (same, all) = slot_roles-ships slot c (requested slot c) roles middle first in
      elim (slot_from-Asked slot cs middle result rest role m) [
        | inr (a, k, asked, there) ↦ inr (a, Memᴰ.tail k, asked, there)
        | inl k ↦ elim (mem_of_append roles (requested slot c) (subst (λ z. Memᴰ role z) same k)) [
          | inl before ↦ inl before
          | inr asked ↦ inr (c, Memᴰ.head refl, asked, All-at _ (requested slot c) all asked)
        ]
      ]

  -- Each role that a slot of a play runs is one that a feature asked for in this slot, and Ansible finds
  -- it in the directory of this feature, if the search path and the slot are composed of the same
  -- contributions.
  pub resolve_slot-finds :
      (core_roles : String) (contributions : List AnsibleContribution) (slot : Slot)
      (path roles : List String)
      → resolve_role_search_path disk core_roles contributions ≡ composed path
      → resolve_slot disk slot contributions ≡ composed roles
      → All
          (λ role.
            (c : AnsibleContribution) × Memᴰ c contributions
            × Memᴰ role (requested slot c)
            × (first_where (has_role disk role) path ≡ some c.roles_path))
          roles
  unfolding resolve_slot Asked
  resolve_slot-finds core_roles contributions slot path roles searched resolved =
      All-of _ roles (λ role m.
        elim (slot_from-Asked slot (order_by by_feature contributions) [] roles resolved role m) [
          | inl none_there ↦ elim none_there [ ]
          | inr (c, k, asked, there) ↦
              let listed = mem_of_order_by by_feature contributions k in
              (
                c,
                listed,
                asked,
                (search_path-finds core_roles contributions path searched role).1 c listed there,
              )
        ])
