-- ===== src/Features/Roles.antt =====
-- core/features/resolution/ansible.py over the contributions of core/features/types/ansible.py: the
-- search path of the roles, and the roles of each slot of a play. The directories of the host are a
-- parameter: the names under a path, or none where there is no directory.
pub mod Owners
pub mod Found
use blitze_cdn_cp.Prelude.{
  String, List, [], ◌∷◌, ◌++◌, Bool, true, false, Option, none, some, Dict, lookup, insert,
  string_eq, if◌then◌else◌,
}
use blitze_cdn_cp.Sql.{order_by}
use blitze_cdn_cp.Features.Merge.{in_set, name_le}

pub record EdgeModule : Type 0 where
  pub name : String
  pub objects : List String
  pub build : Bool
  pub probe : String

pub record AnsibleContribution : Type 0 where
  pub feature : String
  pub roles_path : String
  pub edge_roles : List String
  pub host_roles : List String
  pub teardown_roles : List String
  pub edge_modules : List EdgeModule

abbrev pub Disk : Type 0
Disk = String → Option (List String)

-- The labels of the owners in a message.
pub data Owner : Type 0 where
  control_plane : Owner
  feature_named : String → Owner

pub data Slot : Type 0 where
  edge_slot host_slot teardown_slot : Slot

-- The FeatureErrors.
pub data RoleError : Type 0 where
  missing_directory : String → String → RoleError
  shipped_twice : String → Owner → String → RoleError
  not_shipped : String → String → Slot → String → RoleError

pub data Composed (A : Type 0) : Type 0 where
  composed : A → Composed A
  rejected : RoleError → Composed A

unfoldable pub and_then : {A B : Type 0} → (A → Composed B) → Composed A → Composed B
and_then go (composed a) = go a
and_then go (rejected e) = rejected e

unfoldable pub by_feature : AnsibleContribution → AnsibleContribution → Bool
unfolding name_le
by_feature a b = name_le a.feature b.feature

unfoldable pub requested : Slot → AnsibleContribution → List String
requested Slot.edge_slot c = c.edge_roles
requested Slot.host_slot c = c.host_roles
requested Slot.teardown_slot c = c.teardown_roles

listed_names : Option (List String) → List String
unfolding name_le
listed_names none = []
listed_names (some names) = order_by name_le names

unfoldable pub core_owned : List String → Dict String Owner → Dict String Owner
core_owned [] owners = owners
core_owned (role ∷ roles) owners = core_owned roles (insert role control_plane owners)

unfoldable pub claimed_once :
    String → String → Option Owner → Composed (Dict String Owner) → Composed (Dict String Owner)
claimed_once feature role none rest = rest
claimed_once feature role (some owner) rest = rejected (shipped_twice role owner feature)

unfoldable pub claim_roles : String → List String → Dict String Owner → Composed (Dict String Owner)
unfolding claimed_once
claim_roles feature [] owners = composed owners
claim_roles feature (role ∷ roles) owners =
    claimed_once feature role (lookup role owners)
      (claim_roles feature roles (insert role (feature_named feature) owners))

module _ (disk : Disk) where
  -- _role_names
  unfoldable pub role_names : String → List String
  unfolding listed_names
  role_names path = listed_names (disk path)

  unfoldable pub ship :
      AnsibleContribution → Option (List String) → Dict String Owner → Composed (Dict String Owner)
  unfolding claim_roles role_names
  ship c none owners = rejected (missing_directory c.feature c.roles_path)
  ship c (some names) owners = claim_roles c.feature (role_names c.roles_path) owners

  unfoldable pub search_from :
      List AnsibleContribution → List String → Dict String Owner → Composed (List String)
  unfolding ship and_then
  search_from [] search owners = composed search
  search_from (c ∷ cs) search owners =
      and_then (search_from cs (search ++ c.roles_path ∷ [])) (ship c (disk c.roles_path) owners)

  unfoldable pub resolve_role_search_path :
      String → List AnsibleContribution → Composed (List String)
  unfolding search_from by_feature core_owned role_names
  resolve_role_search_path core_roles contributions =
      search_from (order_by by_feature contributions) (core_roles ∷ [])
        (core_owned (role_names core_roles) [])

  unfoldable pub slot_roles :
      Slot → AnsibleContribution → List String → List String → Composed (List String)
  unfolding role_names in_set
  slot_roles slot c [] roles = composed roles
  slot_roles slot c (role ∷ rest) roles =
      let more = slot_roles slot c rest (roles ++ role ∷ []) in
      if in_set role (role_names c.roles_path)
      then more
      else rejected (not_shipped c.feature role slot c.roles_path)

  unfoldable pub slot_from : Slot → List AnsibleContribution → List String → Composed (List String)
  unfolding slot_roles and_then requested
  slot_from slot [] roles = composed roles
  slot_from slot (c ∷ cs) roles =
      and_then (slot_from slot cs) (slot_roles slot c (requested slot c) roles)

  -- _resolve_slot, which the three resolvers of a slot call.
  unfoldable pub resolve_slot : Slot → List AnsibleContribution → Composed (List String)
  unfolding slot_from by_feature
  resolve_slot slot contributions = slot_from slot (order_by by_feature contributions) []
