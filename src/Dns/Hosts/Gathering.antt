-- ===== src/Dns/Hosts/Gathering.antt =====
-- What the loop over the records of dns/domain/hosts.py files each proxied record under.
use blitze_cdn_cp.Prelude.{
  List, [], ◌∷◌, Memᴰ, map, true, Option, none, some, ◌≡◌, refl, subst, ◌⊎◌, inl, inr, Bool-cases,
  Dict, lookup, lookup-insert_self, list_eq, nat_eq, mem-map, arith,
}
use blitze_cdn_cp.Sql.{order_by}
use blitze_cdn_cp.Sql.Order.{mem-order_by}
use blitze_cdn_cp.Dns.Texts.{Text}
use blitze_cdn_cp.Dns.Names.{DnsRecord, fqdn}
use blitze_cdn_cp.Dns.Rules.{
  Checked, valid, invalid, Domain, Rule, ResolvedPolicy, order_le, merged, resolve_policy,
}
use blitze_cdn_cp.Dns.Rules.FirstMatch.{Decided, by_rule, by_zone, resolve_policy-Decided}
use blitze_cdn_cp.Dns.Groups.{host_key_eq, groups, rules_of}
use blitze_cdn_cp.Dns.Groups.Entries.{Named, Has, insert-Has, append_to-Named, append_to_keeps}
use blitze_cdn_cp.Dns.Hosts.{refusal_key_eq, Gathered, gather_resolved, gather_in, gather}

-- A policy that was resolved names a group of its zone.
resolved-group :
    {P O R : Type 0} (applying : P → O → Checked R P) (zone : Domain P) (rules : List (Rule O))
    (name : Text) {resolved : ResolvedPolicy P}
    → resolve_policy applying zone (rules_of zone.name rules) name ≡ valid resolved
    → Memᴰ resolved.rule (groups zone.name rules)
unfolding groups merged
resolved-group {P} {O} {R} applying zone rules name {resolved} e =
    go _ (resolve_policy-Decided applying zone name (rules_of zone.name rules)) e
  where
    named :
        (rule : Rule O) (answer : Checked R P)
        → Memᴰ rule (rules_of zone.name rules)
        → merged applying zone rule answer ≡ valid resolved
        → Memᴰ resolved.rule
            (none ∷ map (λ r. some r.name) (order_by order_le (rules_of zone.name rules)))
    named rule (valid policy) m h = Memᴰ.tail (
        subst (λ z. Memᴰ z (map (λ r. some r.name) (order_by order_le (rules_of zone.name rules))))
          (ground arith)
          (mem-map (λ r. some r.name) _ (mem-order_by order_le (rules_of zone.name rules) m)))
    named rule (invalid reason) m h = absurd (cc h)

    go :
        (answer : Checked R (ResolvedPolicy P))
        → Decided applying zone (rules_of zone.name rules) name answer
        → answer ≡ valid resolved
        → Memᴰ resolved.rule
            (none ∷ map (λ r. some r.name) (order_by order_le (rules_of zone.name rules)))
    go _ (by_rule rule first) h = named rule _ first.among h
    go _ (by_zone misses) h = Memᴰ.head (ground arith)

-- A hostname with its origin is filed: under a group of its zone, or among the refusals.
abbrev pub Filed : {O R : Type 0} → List (Rule O) → Text → Text → Text → Gathered R → Type 0
Filed rules zone name value g =
    ((rule : Option Text) × Memᴰ rule (groups zone rules)
      × Named (record { zone = zone; rule = rule; origin = value }) name g.hostnames)
    ⊎ Has (record { name = none; hostnames = name ∷ [] }) g.refusals

module _ {P O R : Type 0} (applying : P → O → Checked R P)
    (composes : P → Text → List Text → Text → Option R) (hexdigest : Text → Text)
    (zones : Dict Text (Domain P)) (rules : List (Rule O)) where
  gather_resolved_keeps :
      (zone name value other : Text) (r : DnsRecord) (answer : Checked R (ResolvedPolicy P))
      (g : Gathered R)
      → Filed rules zone name value g
      → Filed rules zone name value (gather_resolved applying composes hexdigest r other answer g)
  unfolding gather_resolved
  gather_resolved_keeps zone name value other r (valid resolved) g (inl (rule, group, named)) =
      inl (rule, group, append_to_keeps _ _ name (fqdn r) g.hostnames named)
  gather_resolved_keeps zone name value other r (valid resolved) g (inr has) = inr has
  gather_resolved_keeps zone name value other r (invalid reason) g (inl filed) = inl filed
  gather_resolved_keeps zone name value other r (invalid reason) g (inr has) =
      inr (insert-Has _ _ reason g.refusals has)

  gather_in_keeps :
      (zone name value : Text) (r : DnsRecord) (found : Option (Domain P)) (g : Gathered R)
      → Filed rules zone name value g
      → Filed rules zone name value (gather_in applying composes hexdigest rules r found g)
  unfolding gather_in
  gather_in_keeps zone name value r none g h = h
  gather_in_keeps zone name value r (some z) g h = elim (Bool-cases r.proxied) [
    | inl e ↦ rw e (gather_resolved_keeps zone name value z.name r _ g h)
    | inr e ↦ rw e h
  ]

  gather_keeps :
      (zone name value : Text) (rs : List DnsRecord) (g : Gathered R)
      → Filed rules zone name value g
      → Filed rules zone name value (gather applying composes hexdigest zones rules rs g)
  unfolding gather
  gather_keeps zone name value [] g h = h
  gather_keeps zone name value (r ∷ rs) g h =
      gather_keeps zone name value rs _
        (gather_in_keeps zone name value r (lookup r.domain zones) g h)

  gather_in-Filed :
      (r : DnsRecord) (zone : Domain P) (g : Gathered R)
      → r.proxied ≡ true
      → Filed rules zone.name
          (fqdn r)
          r.value
          (gather_in applying composes hexdigest rules r (some zone) g)
  unfolding gather_in
  gather_in-Filed r zone g proxied = rw proxied (go _ refl)
    where
      go :
          (answer : Checked R (ResolvedPolicy P))
          → resolve_policy applying zone (rules_of zone.name rules) (fqdn r) ≡ answer
          → Filed rules zone.name
              (fqdn r)
              r.value
              (gather_resolved applying composes hexdigest r zone.name answer g)
      go (valid resolved) e =
          unfold gather_resolved in
          inl (
            resolved.rule,
            resolved-group applying zone rules (fqdn r) e,
            append_to-Named _ (fqdn r) g.hostnames,
          )
      go (invalid reason) e =
          unfold gather_resolved in inr (reason, lookup-insert_self _ reason g.refusals)

  -- Each proxied record of a zone that exists is filed.
  pub gather-Filed :
      (r : DnsRecord) (zone : Domain P) (rs : List DnsRecord) (g : Gathered R)
      → Memᴰ r rs
      → r.proxied ≡ true
      → lookup r.domain zones ≡ some zone
      → Filed rules zone.name (fqdn r) r.value (gather applying composes hexdigest zones rules rs g)
  unfolding gather
  gather-Filed r zone [] g m proxied found = elim m [ ]
  gather-Filed r zone (q ∷ rs) g (Memᴰ.head e) proxied found =
      gather_keeps zone.name (fqdn r) r.value rs _ (
        subst
          (λ z.
            Filed rules zone.name (fqdn r) r.value
              (gather_in applying composes hexdigest rules z (lookup z.domain zones) g))
          e (rw found (gather_in-Filed r zone g proxied)))
  gather-Filed r zone (q ∷ rs) g (Memᴰ.tail m) proxied found =
      gather-Filed r zone rs _ m proxied found
