-- ===== src/Dns/Rules/FirstMatch.antt =====
-- The choice of a rule by resolve_policy (dns/domain/resolution.py).
use blitze_cdn_cp.Prelude.{
  ◌<◌, ltb, some, List, [], ◌∷◌, Memᴰ, true, false, none, ◌≡◌, refl, sym, subst, ap, ◌⊎◌, inl, inr,
  Bool-cases, All-at, arith, nat_eq,
}
use blitze_cdn_cp.Sql.{order_by}
use blitze_cdn_cp.Sql.Order.{IsOrder, IsSorted, order_by-IsSorted, mem_of_order_by, mem-order_by}
use blitze_cdn_cp.Dns.Texts.{Text, text_le}
use blitze_cdn_cp.Dns.Rules.{
  Domain, Rule, ResolvedPolicy, Checked, valid, invalid, matches, order_le, merged, first_match,
  resolve_policy,
}

text_le_total : (s t : Text) → text_le s t ≡ false → text_le t s ≡ true
unfolding text_le
text_le_total [] t h = absurd (cc h)
text_le_total (c ∷ s) [] h = refl
text_le_total (c ∷ s) (d ∷ t) h = ground (arith, text_le_total s t)

text_le_trans : (s t u : Text) → text_le s t ≡ true → text_le t u ≡ true → text_le s u ≡ true
unfolding text_le
text_le_trans [] t u h k = refl
text_le_trans (c ∷ s) [] u h k = absurd (cc h)
text_le_trans (c ∷ s) (d ∷ t) [] h k = absurd (cc k)
text_le_trans (c ∷ s) (d ∷ t) (e ∷ u) h k = ground (arith, text_le_trans s t u)

pub order_le-IsOrder : {O : Type 0} → IsOrder (order_le {O = O})
unfolding order_le
order_le-IsOrder = record {
  total = λ a b h. ground (arith, text_le_total a.name b.name);
  transitive = λ a b c h k. ground (arith, text_le_trans a.name b.name c.name);
}

module _ {P O R : Type 0} (applying : P → O → Checked R P) (zone : Domain P) (rules : List (Rule O))
    (fqdn : Text) where
  -- This rule matches, and every rule that matches comes no earlier in the order.
  pub record IsFirst (rule : Rule O) : Type 0 where
    pub among : Memᴰ rule rules
    pub hits : matches rule fqdn ≡ true
    pub earliest :
        (other : Rule O)
        → Memᴰ other rules
        → matches other fqdn ≡ true
        → (other ≡ rule) ⊎ (order_le rule other ≡ true)

  -- What is answered if this rule is the one that decides, or no rule matches.
  pub data Decided : Checked R (ResolvedPolicy P) → Type 0 where
    by_rule :
        (rule : Rule O)
        → IsFirst rule
        → Decided (merged applying zone rule (applying zone.policy rule.overrides))
    by_zone :
        ((rule : Rule O) → Memᴰ rule rules → matches rule fqdn ≡ false)
        → Decided (valid (record { policy = zone; rule = none }))

module _ {P O R : Type 0} (applying : P → O → Checked R P) (zone : Domain P) (fqdn : Text) where
  abbrev DecidedOf : List (Rule O) → Checked R (ResolvedPolicy P) → Type 0
  DecidedOf rules answer = Decided applying zone rules fqdn answer

  -- A rule in front that does not match changes nothing.
  skipped :
      (rule : Rule O) (rules : List (Rule O)) {answer : Checked R (ResolvedPolicy P)}
      → matches rule fqdn ≡ false
      → DecidedOf rules answer
      → DecidedOf (rule ∷ rules) answer
  skipped rule rules miss (by_rule r first) =
      by_rule r (record { among = Memᴰ.tail first.among; hits = first.hits; earliest = later })
    where
      later :
          (other : Rule O)
          → Memᴰ other (rule ∷ rules)
          → matches other fqdn ≡ true
          → (other ≡ r) ⊎ (order_le r other ≡ true)
      later other (Memᴰ.head e) h = absurd (cc (ap (λ z. matches z fqdn) e, miss, h))
      later other (Memᴰ.tail m) h = first.earliest other m h
  skipped rule rules miss (by_zone none_hits) = by_zone misses
    where
      misses : (other : Rule O) → Memᴰ other (rule ∷ rules) → matches other fqdn ≡ false
      misses other (Memᴰ.head e) = subst (λ z. matches z fqdn ≡ false) (sym e) miss
      misses other (Memᴰ.tail m) = none_hits other m

  first_match-Decided :
      (rules : List (Rule O))
      → IsSorted order_le rules
      → DecidedOf rules (first_match applying zone rules fqdn)
  unfolding first_match
  first_match-Decided [] sorted = by_zone (λ rule m. elim m [ ])
  first_match-Decided (rule ∷ rules) sorted = elim (Bool-cases (matches rule fqdn)) [
    | inl hit ↦
        rw (hit, first_match)
          (by_rule rule (record { among = Memᴰ.head refl; hits = hit; earliest = behind }))
    | inr miss ↦
        rw (miss, first_match) (skipped rule rules miss (first_match-Decided rules sorted.1))
  ]
    where
      behind :
          (other : Rule O)
          → Memᴰ other (rule ∷ rules)
          → matches other fqdn ≡ true
          → (other ≡ rule) ⊎ (order_le rule other ≡ true)
      behind other (Memᴰ.head e) h = inl e
      behind other (Memᴰ.tail m) h = inr (All-at _ rules sorted.0 m)

  unsorted :
      (rules : List (Rule O)) {answer : Checked R (ResolvedPolicy P)}
      → DecidedOf (order_by order_le rules) answer
      → DecidedOf rules answer
  unsorted rules (by_rule r first) = by_rule r (record {
    among = mem_of_order_by order_le rules first.among;
    hits = first.hits;
    earliest = λ other m h. first.earliest other (mem-order_by order_le rules m) h;
  })
  unsorted rules (by_zone none_hits) =
      by_zone (λ other m. none_hits other (mem-order_by order_le rules m))

  -- The answer by the rule that decides, its merge written out.
  pub resolve_policy-Decided :
      (rules : List (Rule O))
      → Decided applying zone rules fqdn (resolve_policy applying zone rules fqdn)
  unfolding resolve_policy
  resolve_policy-Decided rules = unsorted rules (
      first_match-Decided (order_by order_le rules)
        (order_by-IsSorted order_le order_le-IsOrder rules))

-- A rule comes before another: its priority is the lower number, or the same, and its name is no
-- later by the code points.
unfoldable pub Precedes : {O : Type 0} → Rule O → Rule O → Type 0
Precedes a b =
    (a.priority < b.priority) ⊎ ((a.priority ≡ b.priority) × (text_le a.name b.name ≡ true))

order_le-Precedes : {O : Type 0} (a b : Rule O) → order_le a b ≡ true → Precedes a b
unfolding order_le Precedes
order_le-Precedes a b h = elim (Bool-cases (ltb a.priority b.priority)) [
  | inl lower ↦ inl (ground arith)
  | inr not_lower ↦ inr (ground arith, ground arith)
]

module _ {P O R : Type 0} (applying : P → O → Checked R P) (zone : Domain P) (fqdn : Text)
    (rules : List (Rule O)) where
  -- This rule matches, and comes before every other that matches.
  pub record Leads (rule : Rule O) : Type 0 where
    pub among : Memᴰ rule rules
    pub hits : matches rule fqdn ≡ true
    pub before_all :
        (other : Rule O)
        → Memᴰ other rules
        → matches other fqdn ≡ true
        → (other ≡ rule) ⊎ Precedes rule other

  -- What the rules answer: the policy that the overrides of the rule that leads make of the zone's,
  -- under the rule's name; the reason that these are refused for; or the zone.
  pub data Decides : Checked R (ResolvedPolicy P) → Type 0 where
    merges :
        (rule : Rule O) (policy : P)
        → Leads rule
        → applying zone.policy rule.overrides ≡ valid policy
        → Decides (
            valid (record {
              policy = record { name = zone.name; policy = policy };
              rule = some rule.name;
            }))
    refuses :
        (rule : Rule O) (reason : R)
        → Leads rule
        → applying zone.policy rule.overrides ≡ invalid reason
        → Decides (invalid reason)
    alone :
        ((rule : Rule O) → Memᴰ rule rules → matches rule fqdn ≡ false)
        → Decides (valid (record { policy = zone; rule = none }))

  IsFirst-Leads : (rule : Rule O) → IsFirst applying zone rules fqdn rule → Leads rule
  IsFirst-Leads rule first = record {
    among = first.among;
    hits = first.hits;
    before_all = λ other m h. elim (first.earliest other m h) [
      | inl same ↦ inl same
      | inr le ↦ inr (order_le-Precedes rule other le)
    ];
  }

  merged-Decides :
      (rule : Rule O) (answer : Checked R P)
      → Leads rule
      → applying zone.policy rule.overrides ≡ answer
      → Decides (merged applying zone rule answer)
  unfolding merged
  merged-Decides rule (valid policy) leads is = merges rule policy leads is
  merged-Decides rule (invalid reason) leads is = refuses rule reason leads is

  Decided-Decides :
      {answer : Checked R (ResolvedPolicy P)}
      → Decided applying zone rules fqdn answer
      → Decides answer
  Decided-Decides (by_rule rule first) = merged-Decides rule _ (IsFirst-Leads rule first) refl
  Decided-Decides (by_zone none_hits) = alone none_hits

  -- Whatever the order in which the rules are given: if some rule matches, then one that matches and
  -- comes before every other that matches, by priority and then by name, decides. The answer is the
  -- zone with the policy that the rule's overrides make of the zone's, and the rule's name, or the
  -- reason that they are refused for. If none matches, the zone answers by itself.
  pub resolve_policy-Decides : Decides (resolve_policy applying zone rules fqdn)
  resolve_policy-Decides = Decided-Decides (resolve_policy-Decided applying zone fqdn rules)
