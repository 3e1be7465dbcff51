-- ===== src/Dns/Groups/Turns.antt =====
-- The key and the group of each turn of the loops of dns/domain/hosts.py.
use blitze_cdn_cp.Prelude.{
  ℕ, ◌+◌, List, [], ◌∷◌, Memᴰ, not, Option, some, ◌==◌, nat_eq, list_eq, option_eq, both, ◌≡◌, sym,
  subst, All, All-at, All-of, Dict, lookup, lookup_of_mem, All-append, mem_of_map,
}
use blitze_cdn_cp.Sql.{order_by}
use blitze_cdn_cp.Sql.Laws.{mem_of_select_where}
use blitze_cdn_cp.Sql.Order.{mem_of_order_by}
use blitze_cdn_cp.Dns.Texts.{Text, text_le}
use blitze_cdn_cp.Dns.Names.{distinct}
use blitze_cdn_cp.Dns.Rules.{Domain, Rule}
use blitze_cdn_cp.Dns.Groups.{
  HostKey, host_key_eq, Round, of_group, origins, enumerate, rounds_of_groups, rounds_of_zones,
  rounds, groups, zone_le,
}
use blitze_cdn_cp.Dns.Groups.Entries.{Has, Listed}

pub mem_of_distinct : {x : Text} (ts : List Text) → Memᴰ x (distinct ts) → Memᴰ x ts
unfolding distinct
mem_of_distinct [] m = m
mem_of_distinct (t ∷ ts) (Memᴰ.head e) = Memᴰ.head e
mem_of_distinct (t ∷ ts) (Memᴰ.tail m) =
    Memᴰ.tail (mem_of_distinct ts (mem_of_select_where (λ s. not (t == s)) (distinct ts) m).0)

origins-Has :
    (zone : Text) (rule : Option Text) (origin : Text) (d : Dict HostKey (List Text))
    → Memᴰ origin (origins zone rule d)
    → Has (record { zone = zone; rule = rule; origin = origin }) d
unfolding origins of_group
origins-Has zone rule origin d m =
    let (entry, among, is) =
      mem_of_map (λ e. e.0.origin) _ (mem_of_distinct _ (mem_of_order_by text_le _ m)) in
    let (there, fits) = mem_of_select_where _ d among in
    let (z, r) = both (entry.0.zone == zone) _ fits in
    let zones = list_eq.sound entry.0.zone zone z in
    let rules = option_eq.sound entry.0.rule rule r in
    let key : ◌≡◌ {A = HostKey} entry.0 (record { zone = zone; rule = rule; origin = origin }) =
      λ i. record { zone = zones i; rule = rules i; origin = sym is i } in
    lookup_of_mem _ d (subst (λ k. Memᴰ (k, entry.1) d) key there)

module _ {P O : Type 0} (rules : List (Rule O)) (d : Dict HostKey (List Text))
    (known : Dict Text (Domain P)) where
  -- The turn looks up a key that is there, of a group of its zone.
  pub record IsGrounded (round : Round P) : Type 0 where
    pub key : Has (record { zone = round.zone.name; rule = round.rule; origin = round.origin }) d
    pub zone_known : lookup round.zone.name known ≡ some round.zone
    pub group : Memᴰ round.rule (groups round.zone.name rules)

  enumerate-IsGrounded :
      (zone : Domain P) (rule : Option Text) (n : ℕ) (os : List Text)
      → lookup zone.name known ≡ some zone
      → Memᴰ rule (groups zone.name rules)
      → All (λ o. Memᴰ o (origins zone.name rule d)) os
      → All IsGrounded (enumerate zone rule n os)
  unfolding enumerate
  enumerate-IsGrounded zone rule n [] found group h = tt
  enumerate-IsGrounded zone rule n (o ∷ os) found group h = (
    record { key = origins-Has zone.name rule o d h.0; zone_known = found; group = group },
    enumerate-IsGrounded zone rule (n + 1) os found group h.1,
  )

  rounds_of_groups-IsGrounded :
      (zone : Domain P) (gs : List (Option Text))
      → lookup zone.name known ≡ some zone
      → All (λ g. Memᴰ g (groups zone.name rules)) gs
      → All IsGrounded (rounds_of_groups d zone gs)
  unfolding rounds_of_groups
  rounds_of_groups-IsGrounded zone [] found h = tt
  rounds_of_groups-IsGrounded zone (g ∷ gs) found h =
      All-append IsGrounded (enumerate zone g 0 (origins zone.name g d)) _
        (enumerate-IsGrounded zone g 0 _ found h.0 (All-of _ _ (λ o m. m)))
        (rounds_of_groups-IsGrounded zone gs found h.1)

  rounds_of_zones-IsGrounded :
      (zones : Dict Text (Domain P))
      → All (Listed known) zones
      → All IsGrounded (rounds_of_zones d rules zones)
  unfolding rounds_of_zones
  rounds_of_zones-IsGrounded [] h = tt
  rounds_of_zones-IsGrounded ((name, zone) ∷ zones) h =
      All-append IsGrounded (rounds_of_groups d zone (groups name rules)) _
        (rounds_of_groups-IsGrounded zone (groups name rules)
          (subst (λ n. lookup n known ≡ some zone) (sym h.0.0) h.0.1)
          (All-of _ _ (λ g m. subst (λ n. Memᴰ g (groups n rules)) (sym h.0.0) m)))
        (rounds_of_zones-IsGrounded zones h.1)

  pub rounds-IsGrounded :
      (zones : Dict Text (Domain P))
      → All (Listed known) zones
      → All IsGrounded (rounds zones rules d)
  unfolding rounds
  rounds-IsGrounded zones keyed = rounds_of_zones-IsGrounded (order_by zone_le zones) (
      All-of (Listed known) _
        (λ e m. All-at (Listed known) zones keyed (mem_of_order_by zone_le zones m)))
