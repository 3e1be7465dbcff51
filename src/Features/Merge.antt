-- ===== src/Features/Merge.antt =====
-- core/features/registry.py: `merge_variables`, over the contributions of core/features/types/state.py.
pub mod Gathered
mod Mentioned
pub mod Decides
pub mod Reorder
use Prim.Native.Nat.{Ordering}
use Prim.Native.String.{compare}
use blitze_cdn_cp.Prelude.{
  String, List, [], ◌∷◌, ◌++◌, map, Bool, true, false, Option, none, some, ◌==◌, string_eq,
  if◌then◌else◌, Dict, lookup, insert,
}
use blitze_cdn_cp.Sql.{matches, order_by}

-- SiteStateContribution, FleetStateContribution
pub record StateContribution (V : Type 0) : Type 0 where
  pub feature : String
  pub variables : Dict String V
  pub overrides : List String

unfoldable pub in_set : String → List String → Bool
in_set key = matches (λ k. k == key)

unfoldable pub name_le : String → String → Bool
name_le a b = elim (compare a b) [ Ordering.gt ↦ false | _ ↦ true ]

-- A FeatureError of the merge, with the names of the features and the variable.
pub data Conflict : Type 0 where
  each_override : List String → String → Conflict
  both_set : List String → String → Conflict

abbrev pub Writer : Type 0 → Type 0
Writer V = String × V

abbrev pub Bucket : Type 0 → Type 0
Bucket V = Dict String (List (Writer V))

pub record Buckets (V : Type 0) : Type 0 where
  pub plain : Bucket V
  pub claimed : Bucket V
  pub order : List String

-- What is said of one variable; `missing` is the IndexError of `[][0]`.
pub data Verdict (V : Type 0) : Type 0 where
  wins : V → Verdict V
  conflicts : Conflict → Verdict V
  missing : Verdict V

pub data Merged (V : Type 0) : Type 0 where
  merged : Dict String V → Merged V
  fails : Conflict → Merged V
  crashed : Merged V

unfoldable pub note_order : String → List String → List String
unfolding in_set
note_order key order = if in_set key order then order else order ++ key ∷ []

module _ {V : Type 0} where
  unfoldable pub none_yet : Option (List (Writer V)) → List (Writer V)
  none_yet none = []
  none_yet (some ws) = ws

  -- bucket.get(key, [])
  unfoldable pub found : String → Bucket V → List (Writer V)
  unfolding none_yet
  found key d = none_yet (lookup key d)

  -- bucket.setdefault(key, []).append(writer)
  unfoldable pub append_writer : String → Writer V → Bucket V → Bucket V
  unfolding found
  append_writer key w d = insert key (found key d ++ w ∷ []) d

  unfoldable pub gather_variable : StateContribution V → String × V → Buckets V → Buckets V
  unfolding append_writer note_order in_set
  gather_variable c (key, value) b =
      if in_set key c.overrides
      then record b {
        claimed = append_writer key (c.feature, value) b.claimed;
        order = note_order key b.order;
      }
      else record b {
        plain = append_writer key (c.feature, value) b.plain;
        order = note_order key b.order;
      }

  unfoldable pub gather_variables : StateContribution V → Dict String V → Buckets V → Buckets V
  unfolding gather_variable
  gather_variables c [] b = b
  gather_variables c (v ∷ vs) b = gather_variables c vs (gather_variable c v b)

  unfoldable pub gather_all : List (StateContribution V) → Buckets V → Buckets V
  unfolding gather_variables
  gather_all [] b = b
  gather_all (c ∷ cs) b = gather_all cs (gather_variables c c.variables b)

  abbrev pub no_buckets : Buckets V
  no_buckets = record { plain = []; claimed = []; order = [] }

  abbrev pub writer_names : List (Writer V) → List String
  writer_names ws = order_by name_le (map (λ w. w.0) ws)

  unfoldable pub decide : String → List (Writer V) → List (Writer V) → Verdict V
  decide key (a ∷ b ∷ ws) writers = conflicts (each_override (writer_names (a ∷ b ∷ ws)) key)
  decide key (a ∷ []) writers = wins a.1
  decide key [] (a ∷ b ∷ ws) = conflicts (both_set (writer_names (a ∷ b ∷ ws)) key)
  decide key [] (a ∷ []) = wins a.1
  decide key [] [] = missing

  settle_key : (Dict String V → Merged V) → String → Verdict V → Dict String V → Merged V
  settle_key go key (wins v) d = go (insert key v d)
  settle_key go key (conflicts c) d = fails c
  settle_key go key missing d = crashed

  unfoldable pub settle_keys : Buckets V → List String → Dict String V → Merged V
  unfolding settle_key decide found
  settle_keys b [] d = merged d
  settle_keys b (key ∷ keys) d =
      settle_key (settle_keys b keys) key (decide key (found key b.claimed) (found key b.plain)) d

  unfoldable pub merge_variables : List (StateContribution V) → Merged V
  unfolding settle_keys gather_all
  merge_variables cs = let b = gather_all cs no_buckets in settle_keys b b.order []
