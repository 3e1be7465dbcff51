-- ===== src/Dns/Groups.antt =====
-- dns/domain/hosts.py: the zones by name, the hostnames by zone, winning rule and origin, and the
-- turns that the loops over these groups take.
pub mod Entries
pub mod Turns
use blitze_cdn_cp.Prelude.{
  ℕ, ◌+◌, List, [], ◌∷◌, ◌++◌, map, Bool, true, ◌&&◌, Option, none, some, ◌==◌, HasEq, nat_eq,
  list_eq, option_eq, both, ◌≡◌, Dict, lookup, insert,
}
use blitze_cdn_cp.Sql.{select_where, order_by}
use blitze_cdn_cp.Dns.Texts.{Text, text_le}
use blitze_cdn_cp.Dns.Names.{distinct}
use blitze_cdn_cp.Dns.Rules.{Domain, Rule, order_le}

-- What groups hostnames: zone, winning rule and origin.
pub record HostKey : Type 0 where
  pub zone : Text
  pub rule : Option Text
  pub origin : Text

abbrev pub host_key_beq : HostKey → HostKey → Bool
host_key_beq x y = x.zone == y.zone && (x.rule == y.rule && x.origin == y.origin)

pub host_key_beq_sound : (x y : HostKey) → host_key_beq x y ≡ true → x ≡ y
host_key_beq_sound x y h =
    let (z, more) = both (x.zone == y.zone) _ h in
    let (r, o) = both (x.rule == y.rule) _ more in
    let zones = list_eq.sound x.zone y.zone z in
    let rules = option_eq.sound x.rule y.rule r in
    let origins = list_eq.sound x.origin y.origin o in
    λ i. record { zone = zones i; rule = rules i; origin = origins i }

pub host_key_beq_reflexive : (x : HostKey) → host_key_beq x x ≡ true
host_key_beq_reflexive x =
    rw (list_eq.reflexive x.zone, option_eq.reflexive x.rule) (list_eq.reflexive x.origin)

instance abbrev pub host_key_eq : HasEq HostKey
host_key_eq = record {
  test = host_key_beq;
  sound = host_key_beq_sound;
  reflexive = host_key_beq_reflexive;
}

-- One turn of the innermost of the three loops over zones, groups and origins: the zone, the name
-- of the group's rule, the place of the origin among those of the group, and the origin.
pub record Round (P : Type 0) : Type 0 where
  pub zone : Domain P
  pub rule : Option Text
  pub place : ℕ
  pub origin : Text

module _ {O : Type 0} where
  -- rules_by_zone[name]
  unfoldable pub rules_of : Text → List (Rule O) → List (Rule O)
  rules_of zone rules = select_where (λ r. r.domain == zone) rules

  -- The groups of a zone: itself, and its rules in their order.
  unfoldable pub groups : Text → List (Rule O) → List (Option Text)
  unfolding rules_of
  groups zone rules = none ∷ map (λ r. some r.name) (order_by order_le (rules_of zone rules))

-- {domain.name: domain for domain in domains}
unfoldable pub by_zone :
    {P : Type 0} → List (Domain P) → Dict Text (Domain P) → Dict Text (Domain P)
by_zone [] zones = zones
by_zone (d ∷ ds) zones = by_zone ds (insert d.name d zones)

unfoldable pub or_empty : Option (List Text) → List Text
or_empty none = []
or_empty (some names) = names

-- hostnames.setdefault(key, []).append(name)
unfoldable pub append_to : HostKey → Text → Dict HostKey (List Text) → Dict HostKey (List Text)
unfolding or_empty
append_to key name d = insert key (or_empty (lookup key d) ++ name ∷ []) d

-- The origins of one group among the keys.
of_group : Text → Option Text → Dict HostKey (List Text) → List Text
of_group zone rule d =
    map (λ e. e.0.origin) (select_where (λ e. e.0.zone == zone && e.0.rule == rule) d)

unfoldable pub origins : Text → Option Text → Dict HostKey (List Text) → List Text
unfolding of_group
origins zone rule d = order_by text_le (distinct (of_group zone rule d))

unfoldable pub enumerate : {P : Type 0} → Domain P → Option Text → ℕ → List Text → List (Round P)
enumerate zone rule n [] = []
enumerate zone rule n (o ∷ os) =
    record { zone = zone; rule = rule; place = n; origin = o } ∷ enumerate zone rule (n + 1) os

module _ {P : Type 0} (d : Dict HostKey (List Text)) where
  unfoldable pub rounds_of_groups : Domain P → List (Option Text) → List (Round P)
  unfolding enumerate
  rounds_of_groups zone [] = []
  rounds_of_groups zone (g ∷ gs) =
      enumerate zone g 0 (origins zone.name g d) ++ rounds_of_groups zone gs

  unfoldable pub rounds_of_zones :
      {O : Type 0} → List (Rule O) → Dict Text (Domain P) → List (Round P)
  unfolding rounds_of_groups
  rounds_of_zones rules [] = []
  rounds_of_zones rules ((name, zone) ∷ zones) =
      rounds_of_groups zone (groups name rules) ++ rounds_of_zones rules zones

-- sorted(by_zone.items())
unfoldable pub zone_le : {P : Type 0} → Text × Domain P → Text × Domain P → Bool
zone_le a b = text_le a.0 b.0

-- The loops over zones, groups and origins, as the list of their turns.
unfoldable pub rounds :
    {P O : Type 0}
    → Dict Text (Domain P)
    → List (Rule O)
    → Dict HostKey (List Text)
    → List (Round P)
unfolding zone_le rounds_of_zones
rounds zones rules d = rounds_of_zones d rules (order_by zone_le zones)
