-- ===== src/Dns/Groups/Entries.antt =====
-- The dictionaries of dns/domain/hosts.py, and the turns that are taken for their keys.
use blitze_cdn_cp.Prelude.{
  ℕ, ◌+◌, List, [], ◌∷◌, ◌++◌, Memᴰ, not, Option, some, ◌==◌, HasEq, nat_eq, list_eq, option_eq,
  ◌≡◌, refl, sym, subst, ap, ◌∙◌, inl, inr, Bool-cases, All, All-at, Dict, lookup, insert,
  lookup-insert_self, insert-All, All-of, DistinctKeys, insert-DistinctKeys, lookup-mem,
  lookup-insert_other, mem_of_lookup, mem-append_left, mem-append_right, mem-map,
}
use blitze_cdn_cp.Sql.{order_by}
use blitze_cdn_cp.Sql.Laws.{mem-select_where}
use blitze_cdn_cp.Sql.Order.{mem-order_by}
use blitze_cdn_cp.Dns.Texts.{Text, text_le}
use blitze_cdn_cp.Dns.Names.{distinct}
use blitze_cdn_cp.Dns.Rules.{Domain, Rule}
use blitze_cdn_cp.Dns.Groups.{
  HostKey, host_key_eq, Round, or_empty, append_to, of_group, origins, enumerate, rounds_of_groups,
  rounds_of_zones, rounds, groups, zone_le, by_zone,
}

-- This hostname stands under this key.
abbrev pub Named : HostKey → Text → Dict HostKey (List Text) → Type 0
Named key name d = (names : List Text) × (lookup key d ≡ some names) × Memᴰ name names

-- The dictionary has this key.
abbrev pub Has : {K V : Type 0} ⦃has : HasEq K⦄ → K → Dict K V → Type 0
Has {V = V} key d = (v : V) × (lookup key d ≡ some v)

pub insert-Has :
    {K V : Type 0} ⦃has : HasEq K⦄ (key k : K) (v : V) (d : Dict K V)
    → Has key d
    → Has key (insert k v d)
insert-Has ⦃has⦄ key k v d h = elim (Bool-cases (k == key)) [
  | inl e ↦ (
    v,
    subst (λ z. lookup z (insert k v d) ≡ some v) (has.sound k key e) (lookup-insert_self k v d),
  )
  | inr e ↦ (h.0, lookup-insert_other k key v d (λ same. cc (e, has.reflexive k)) ∙ h.1)
]

pub append_to-Named :
    (key : HostKey) (name : Text) (d : Dict HostKey (List Text))
    → Named key name (append_to key name d)
unfolding append_to
append_to-Named key name d = (
  or_empty (lookup key d) ++ name ∷ [],
  lookup-insert_self key _ d,
  mem-append_right (or_empty (lookup key d)) (name ∷ []) (Memᴰ.head refl),
)

pub append_to_keeps :
    (key k : HostKey) (name n : Text) (d : Dict HostKey (List Text))
    → Named key name d
    → Named key name (append_to k n d)
unfolding append_to or_empty
append_to_keeps key k name n d (names, found, m) = elim (Bool-cases (k == key)) [
  | inl e ↦
      let same = host_key_eq.sound k key e in
      let old : or_empty (lookup k d) ≡ names = rw (same, found) refl in
      (
        names ++ n ∷ [],
        subst
            (λ z. lookup z (insert k (or_empty (lookup k d) ++ n ∷ []) d) ≡ some (names ++ n ∷ []))
            same (lookup-insert_self k _ d ∙ ap (λ ns. some (ns ++ n ∷ [])) old),
        mem-append_left names (n ∷ []) m,
      )
  | inr e ↦
      (names, lookup-insert_other k key _ d (λ same. cc (e, host_key_eq.reflexive k)) ∙ found, m)
]

pub mem-distinct : {x : Text} (ts : List Text) → Memᴰ x ts → Memᴰ x (distinct ts)
unfolding distinct
mem-distinct [] m = m
mem-distinct (t ∷ ts) (Memᴰ.head e) = Memᴰ.head e
mem-distinct {x} (t ∷ ts) (Memᴰ.tail m) = elim (Bool-cases (t == x)) [
  | inl e ↦ Memᴰ.head (sym (list_eq.sound t x e))
  | inr e ↦
      Memᴰ.tail (mem-select_where (λ s. not (t == s)) (distinct ts) (mem-distinct ts m) (rw e refl))
]

mem-origins :
    (zone : Text) (rule : Option Text) (origin : Text) (d : Dict HostKey (List Text))
    {names : List Text}
    → Memᴰ (record { zone = zone; rule = rule; origin = origin }, names) d
    → Memᴰ origin (origins zone rule d)
unfolding origins of_group
mem-origins zone rule origin d m = mem-order_by text_le _ (
    mem-distinct _ (
      mem-map (λ e. e.0.origin) _
        (mem-select_where _ d m (rw (list_eq.reflexive zone, option_eq.reflexive rule) refl))))

-- A turn with this zone, group and origin is among these.
abbrev pub HasTurn : {P : Type 0} → Domain P → Option Text → Text → List (Round P) → Type 0
HasTurn {P} zone rule origin turns =
    (place : ℕ) × Memᴰ {A = Round P}
      (record { zone = zone; rule = rule; place = place; origin = origin }) turns

module _ {P : Type 0} (zone : Domain P) (rule : Option Text) (origin : Text) where
  enumerate-HasTurn :
      (n : ℕ) (os : List Text)
      → Memᴰ origin os
      → HasTurn zone rule origin (enumerate zone rule n os)
  unfolding enumerate
  enumerate-HasTurn n [] m = elim m [ ]
  enumerate-HasTurn n (o ∷ os) (Memᴰ.head e) =
      (n, Memᴰ.head (λ i. record { zone = zone; rule = rule; place = n; origin = e i }))
  enumerate-HasTurn n (o ∷ os) (Memᴰ.tail m) =
      let (place, k) = enumerate-HasTurn (n + 1) os m in (place, Memᴰ.tail k)

  module _ (d : Dict HostKey (List Text)) (there : Memᴰ origin (origins zone.name rule d)) where
    rounds_of_groups-HasTurn :
        (gs : List (Option Text))
        → Memᴰ rule gs
        → HasTurn zone rule origin (rounds_of_groups d zone gs)
    unfolding rounds_of_groups
    rounds_of_groups-HasTurn [] m = elim m [ ]
    rounds_of_groups-HasTurn (g ∷ gs) (Memᴰ.head e) =
        subst
          (λ g.
            HasTurn zone rule origin
              (enumerate zone g 0 (origins zone.name g d) ++ rounds_of_groups d zone gs))
          e
          (let (place, k) = enumerate-HasTurn 0 (origins zone.name rule d) there in
            (place, mem-append_left _ (rounds_of_groups d zone gs) k))
    rounds_of_groups-HasTurn (g ∷ gs) (Memᴰ.tail m) =
        let (place, k) = rounds_of_groups-HasTurn gs m in
        (place, mem-append_right (enumerate zone g 0 (origins zone.name g d)) _ k)

    module _ {O : Type 0} (rules : List (Rule O)) (name : Text)
        (group : Memᴰ rule (groups name rules)) where
      rounds_of_zones-HasTurn :
          (zones : Dict Text (Domain P))
          → Memᴰ (name, zone) zones
          → HasTurn zone rule origin (rounds_of_zones d rules zones)
      unfolding rounds_of_zones
      rounds_of_zones-HasTurn [] m = elim m [ ]
      rounds_of_zones-HasTurn ((other, z) ∷ zones) (Memᴰ.head e) =
          subst
            (λ p.
              HasTurn zone rule origin
                (rounds_of_groups d p.1 (groups p.0 rules) ++ rounds_of_zones d rules zones))
            e
            (let (place, k) = rounds_of_groups-HasTurn (groups name rules) group in
              (place, mem-append_left _ (rounds_of_zones d rules zones) k))
      rounds_of_zones-HasTurn ((other, z) ∷ zones) (Memᴰ.tail m) =
          let (place, k) = rounds_of_zones-HasTurn zones m in
          (place, mem-append_right (rounds_of_groups d z (groups other rules)) _ k)

-- A key of the dictionary, with a zone that exists and a group of it, has its turn.
pub rounds-HasTurn :
    {P O : Type 0} (zones : Dict Text (Domain P)) (rules : List (Rule O))
    (d : Dict HostKey (List Text)) (zone : Domain P) (rule : Option Text) (origin : Text)
    {names : List Text}
    → lookup zone.name zones ≡ some zone
    → Memᴰ rule (groups zone.name rules)
    → lookup (record { zone = zone.name; rule = rule; origin = origin }) d ≡ some names
    → HasTurn zone rule origin (rounds zones rules d)
unfolding rounds
rounds-HasTurn zones rules d zone rule origin found group stands =
    rounds_of_zones-HasTurn zone rule origin d
      (mem-origins zone.name rule origin d (mem_of_lookup _ d stands)) rules zone.name group
      (order_by zone_le zones) (mem-order_by zone_le zones (mem_of_lookup zone.name zones found))

-- Each zone stands under its own name.
abbrev Keyed : {P : Type 0} → Text × Domain P → Type 0
Keyed entry = entry.1.name ≡ entry.0

by_zone_zones-Keyed :
    {P : Type 0} (domains : List (Domain P)) (zones : Dict Text (Domain P))
    → All Keyed zones
    → All Keyed (by_zone domains zones)
unfolding by_zone
by_zone_zones-Keyed [] zones h = h
by_zone_zones-Keyed (d ∷ ds) zones h =
    by_zone_zones-Keyed ds (insert d.name d zones)
      (insert-All Keyed d.name d zones (λ j same. sym same) h)

by_zone-Keyed : {P : Type 0} (domains : List (Domain P)) → All Keyed (by_zone domains [])
by_zone-Keyed domains = by_zone_zones-Keyed domains [] tt

by_zone-DistinctKeys :
    {P : Type 0} (domains : List (Domain P)) (zones : Dict Text (Domain P))
    → DistinctKeys zones
    → DistinctKeys (by_zone domains zones)
unfolding by_zone
by_zone-DistinctKeys [] zones h = h
by_zone-DistinctKeys (d ∷ ds) zones h =
    by_zone-DistinctKeys ds (insert d.name d zones) (insert-DistinctKeys d.name d zones h)

-- Each zone stands under its own name, and is found there.
abbrev pub Listed : {P : Type 0} → Dict Text (Domain P) → Text × Domain P → Type 0
Listed zones entry = (entry.1.name ≡ entry.0) × (lookup entry.0 zones ≡ some entry.1)

pub by_zone-Listed :
    {P : Type 0} (domains : List (Domain P))
    → All (Listed (by_zone domains [])) (by_zone domains [])
by_zone-Listed domains = All-of (Listed (by_zone domains [])) (by_zone domains []) (λ e m. (
  All-at Keyed (by_zone domains []) (by_zone-Keyed domains) m,
  lookup-mem e.0 e.1 _ (by_zone-DistinctKeys domains [] tt) m,
))

-- A zone is found under its own name.
pub by_zone_named :
    {P : Type 0} (domains : List (Domain P)) {name : Text} {zone : Domain P}
    → lookup name (by_zone domains []) ≡ some zone
    → zone.name ≡ name
by_zone_named domains {name} e =
    All-at Keyed (by_zone domains []) (by_zone-Keyed domains) (mem_of_lookup name _ e)

by_zone_keeps :
    {P : Type 0} (domains : List (Domain P)) (zones : Dict Text (Domain P)) (name : Text)
    → Has name zones
    → Has name (by_zone domains zones)
unfolding by_zone
by_zone_keeps [] zones name h = h
by_zone_keeps (d ∷ ds) zones name h =
    by_zone_keeps ds (insert d.name d zones) name (insert-Has name d.name d zones h)

-- Each zone's name is found.
pub by_zone-Has :
    {P : Type 0} (domains : List (Domain P)) (zones : Dict Text (Domain P)) {zone : Domain P}
    → Memᴰ zone domains
    → Has zone.name (by_zone domains zones)
unfolding by_zone
by_zone-Has [] zones m = elim m [ ]
by_zone-Has (d ∷ ds) zones (Memᴰ.head e) =
    subst (λ n. Has n (by_zone ds (insert d.name d zones))) (ap (λ z. z.name) (sym e))
      (by_zone_keeps ds (insert d.name d zones) d.name (d, lookup-insert_self d.name d zones))
by_zone-Has (d ∷ ds) zones (Memᴰ.tail m) = by_zone-Has ds (insert d.name d zones) m
