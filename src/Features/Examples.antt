-- ===== src/Features/Examples.antt =====
-- Contributions of three features, and the theorems of core/features applied to them.
use mathlib.Core.List.{Permᴰ}
use blitze_cdn_cp.Prelude.{
  List, [], ◌∷◌, ℕ, Memᴰ, true, some, none, ◌==◌, string_eq, ◌≡◌, ◌≢◌, refl, Pairwise, All,
  if◌then◌else◌, lookup, insert,
}
use blitze_cdn_cp.Sql.{matches, first_where, order_by}
use blitze_cdn_cp.Features.Merge.{StateContribution, merged, merge_variables, in_set}
use blitze_cdn_cp.Features.Merge.Decides.{Settled, merge_variables-Settled}
use blitze_cdn_cp.Features.Merge.Reorder.{SameMerge, merge_variables-SameMerge}
use blitze_cdn_cp.Features.Roles.{
  AnsibleContribution, EdgeModule, Disk, Slot, composed, requested, resolve_role_search_path,
  resolve_slot,
}
use blitze_cdn_cp.Features.Modules.{ResolvedEdgeModule, goes_on, candidate_of, resolve_edge_modules}
use blitze_cdn_cp.Features.Modules.Claims.{load_list, Loaded}
use blitze_cdn_cp.Features.Modules.Loads.{Declares, resolve_edge_modules-Loads}
use blitze_cdn_cp.Features.Roles.Owners.{has_role}
use blitze_cdn_cp.Features.Roles.Found.{search_path-finds, resolve_slot-finds}

abbrev site_model : StateContribution ℕ
site_model = record {
  feature = "serving";
  variables = ("certificate", 1) ∷ ("port", 443) ∷ [];
  overrides = [];
}

-- It declares that it overrides the path of the certificate.
abbrev certificates : StateContribution ℕ
certificates = record {
  feature = "certificates";
  variables = ("certificate", 2) ∷ [];
  overrides = "certificate" ∷ [];
}

abbrev states : List (StateContribution ℕ)
states = site_model ∷ certificates ∷ []

states_merge : merge_variables states ≡ merged (("certificate", 2) ∷ ("port", 443) ∷ [])
unfolding merge_variables in_set matches lookup insert
states_merge = refl

merge_variables-Settled_example : Settled states (merge_variables states)
merge_variables-Settled_example = merge_variables-Settled states

merge_variables-SameMerge_example :
    SameMerge (merge_variables states) (merge_variables (certificates ∷ site_model ∷ []))
merge_variables-SameMerge_example =
    merge_variables-SameMerge states (certificates ∷ site_model ∷ []) (Permᴰ.swap refl refl)

abbrev njs : EdgeModule
njs = record { name = "njs"; objects = "njs.so" ∷ []; build = true; probe = "js_import" }

abbrev brotli : EdgeModule
brotli = record {
  name = "brotli";
  objects = "brotli_filter.so" ∷ "brotli_static.so" ∷ [];
  build = true;
  probe = "brotli";
}

abbrev cache : AnsibleContribution
cache = record {
  feature = "cache";
  roles_path = "/cache/roles";
  edge_roles = "cache_zones" ∷ [];
  host_roles = [];
  teardown_roles = "cache_purge" ∷ [];
  edge_modules = njs ∷ brotli ∷ [];
}

abbrev tls : AnsibleContribution
tls = record {
  feature = "tls";
  roles_path = "/tls/roles";
  edge_roles = "certificates" ∷ "tls_keys" ∷ [];
  host_roles = [];
  teardown_roles = [];
  edge_modules = njs ∷ [];
}

abbrev ansible : List AnsibleContribution
ansible = tls ∷ cache ∷ []

abbrev disk : Disk
disk path =
    if path == "/core/roles"
    then some ("nginx" ∷ [])
    else (if path == "/tls/roles"
        then some ("tls_keys" ∷ "certificates" ∷ [])
        else (if path == "/cache/roles" then some ("cache_purge" ∷ "cache_zones" ∷ []) else none))

searched :
    resolve_role_search_path disk "/core/roles" ansible
    ≡ composed ("/core/roles" ∷ "/cache/roles" ∷ "/tls/roles" ∷ [])
unfolding resolve_role_search_path order_by lookup insert
searched = refl

resolved :
    resolve_slot disk Slot.edge_slot ansible
    ≡ composed ("cache_zones" ∷ "certificates" ∷ "tls_keys" ∷ [])
unfolding resolve_slot order_by matches
resolved = refl

search_path-finds_example :
    (has_role disk "tls_keys" "/core/roles" ≡ true
      → first_where (has_role disk "tls_keys") ("/core/roles" ∷ "/cache/roles" ∷ "/tls/roles" ∷ [])
        ≡ some "/core/roles")
    × ((c : AnsibleContribution)
        → Memᴰ c ansible
        → has_role disk "tls_keys" c.roles_path ≡ true
        → first_where
            (has_role disk "tls_keys")
            ("/core/roles" ∷ "/cache/roles" ∷ "/tls/roles" ∷ [])
          ≡ some c.roles_path)
search_path-finds_example =
    search_path-finds disk "/core/roles" ansible
      ("/core/roles" ∷ "/cache/roles" ∷ "/tls/roles" ∷ []) searched "tls_keys"

resolve_slot-finds_example :
    All
      (λ role.
        (c : AnsibleContribution) × Memᴰ c ansible
        × Memᴰ role (requested Slot.edge_slot c)
        × (first_where (has_role disk role) ("/core/roles" ∷ "/cache/roles" ∷ "/tls/roles" ∷ [])
            ≡ some c.roles_path))
      ("cache_zones" ∷ "certificates" ∷ "tls_keys" ∷ [])
resolve_slot-finds_example =
    resolve_slot-finds disk "/core/roles" ansible Slot.edge_slot
      ("/core/roles" ∷ "/cache/roles" ∷ "/tls/roles" ∷ [])
      ("cache_zones" ∷ "certificates" ∷ "tls_keys" ∷ []) searched resolved

-- Both features declare njs, and it is loaded once.
abbrev loaded : List ResolvedEdgeModule
loaded = candidate_of "cache" njs ∷ candidate_of "cache" brotli ∷ []

modules_resolved : resolve_edge_modules ansible ≡ goes_on loaded
unfolding resolve_edge_modules order_by lookup insert
modules_resolved = refl

resolve_edge_modules-Loads_example :
    Pairwise (λ a b. a ≢ b) (load_list loaded)
    × ((c : AnsibleContribution) → Memᴰ c ansible → All (λ m. Loaded m loaded) c.edge_modules)
    × ((r : ResolvedEdgeModule) → Memᴰ r loaded → Declares ansible r)
resolve_edge_modules-Loads_example = resolve_edge_modules-Loads ansible loaded modules_resolved
