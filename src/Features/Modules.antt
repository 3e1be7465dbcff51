-- ===== src/Features/Modules.antt =====
-- core/features/resolution/modules.py: the dynamic modules that the Nginx of an edge loads.
pub mod Claims
pub mod Loads
use blitze_cdn_cp.Prelude.{
  String, List, [], ◌∷◌, ◌++◌, Bool, ◌&&◌, Option, none, some, ◌==◌, string_eq, bool_eq, list_eq,
  Dict, lookup, insert, if◌then◌else◌,
}
use blitze_cdn_cp.Sql.{order_by}
use blitze_cdn_cp.Features.Roles.{AnsibleContribution, EdgeModule, by_feature}

pub record ResolvedEdgeModule : Type 0 where
  pub feature : String
  pub name : String
  pub objects : List String
  pub build : Bool
  pub probe : String

-- The FeatureErrors: a module with the two features that declare it, and a shared object with the two
-- modules that load it.
pub data ModuleError : Type 0 where
  declared_differently : String → String → String → ModuleError
  loaded_twice : String → String → String → ModuleError

-- What the loop has found so far: the modules in their order, the modules by their names, and the
-- name of the module that loads each shared object.
pub record Found : Type 0 where
  pub resolved : List ResolvedEdgeModule
  pub owners : Dict String ResolvedEdgeModule
  pub objects : Dict String String

-- What a step of the loop gives, or the error that it raises.
pub data Step (A : Type 0) : Type 0 where
  goes_on : A → Step A
  stops : ModuleError → Step A

unfoldable pub then_on : {A B : Type 0} → (A → Step B) → Step A → Step B
then_on go (goes_on a) = go a
then_on go (stops e) = stops e

abbrev pub candidate_of : String → EdgeModule → ResolvedEdgeModule
candidate_of feature m = record {
  feature = feature;
  name = m.name;
  objects = m.objects;
  build = m.build;
  probe = m.probe;
}

unfoldable pub same_module : ResolvedEdgeModule → ResolvedEdgeModule → Bool
same_module left right =
    left.objects == right.objects && (left.build == right.build && left.probe == right.probe)

unfoldable pub claimed_object :
    String → String → Option String → Step (Dict String String) → Step (Dict String String)
claimed_object name object none rest = rest
claimed_object name object (some other) rest = stops (loaded_twice object other name)

unfoldable pub claim_objects : String → List String → Dict String String → Step (Dict String String)
unfolding claimed_object
claim_objects name [] objects = goes_on objects
claim_objects name (object ∷ rest) objects =
    claimed_object name object (lookup object objects)
      (claim_objects name rest (insert object name objects))

unfoldable pub add_candidate : ResolvedEdgeModule → Found → Dict String String → Found
add_candidate candidate f objects = record {
  resolved = f.resolved ++ candidate ∷ [];
  owners = insert candidate.name candidate f.owners;
  objects = objects;
}

unfoldable pub settle_candidate :
    ResolvedEdgeModule → Option ResolvedEdgeModule → Found → Step Found
unfolding same_module claim_objects then_on add_candidate
settle_candidate candidate none f =
    then_on (λ objects. goes_on (add_candidate candidate f objects))
      (claim_objects candidate.name candidate.objects f.objects)
settle_candidate candidate (some existing) f =
    if same_module existing candidate
    then goes_on f
    else stops (declared_differently candidate.name existing.feature candidate.feature)

unfoldable pub modules_from : String → List EdgeModule → Found → Step Found
unfolding settle_candidate then_on
modules_from feature [] f = goes_on f
modules_from feature (m ∷ ms) f =
    then_on (modules_from feature ms)
      (settle_candidate (candidate_of feature m) (lookup m.name f.owners) f)

unfoldable pub contributions_from : List AnsibleContribution → Found → Step Found
unfolding modules_from then_on
contributions_from [] f = goes_on f
contributions_from (c ∷ cs) f =
    then_on (contributions_from cs) (modules_from c.feature c.edge_modules f)

abbrev pub nothing_found : Found
nothing_found = record { resolved = []; owners = []; objects = [] }

unfoldable pub resolve_edge_modules : List AnsibleContribution → Step (List ResolvedEdgeModule)
unfolding contributions_from then_on by_feature
resolve_edge_modules contributions =
    then_on (λ f. goes_on f.resolved)
      (contributions_from (order_by by_feature contributions) nothing_found)
