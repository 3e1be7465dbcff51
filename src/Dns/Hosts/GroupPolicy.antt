-- ===== src/Dns/Hosts/GroupPolicy.antt =====
-- The policy that dns/domain/hosts.py looks up for a group of hostnames.
use blitze_cdn_cp.Prelude.{
  List, [], ◌∷◌, Memᴰ, true, Option, some, ◌==◌, list_eq, nat_eq, ◌≡◌, refl, sym, subst, ap, ◌∙◌,
  All-at, Pairwise,
}
use blitze_cdn_cp.Sql.{first_where}
use blitze_cdn_cp.Sql.Laws.{first_where-some, first_where-found, mem_of_select_where}
use blitze_cdn_cp.Dns.Texts.{Text}
use blitze_cdn_cp.Dns.Rules.{
  Checked, valid, invalid, Domain, Rule, ResolvedPolicy, merged, resolve_policy,
}
use blitze_cdn_cp.Dns.Rules.FirstMatch.{
  Decided, by_rule, by_zone as by_zone_alone, resolve_policy-Decided,
}
use blitze_cdn_cp.Dns.Groups.{host_key_eq, rules_of}
use blitze_cdn_cp.Dns.Hosts.{policy_by, policy_for}

valid-injective : {R A : Type 0} {x y : A} → ◌≡◌ {A = Checked R A} (valid x) (valid y) → x ≡ y
valid-injective h = cc

-- The primary key of the rules: no two of a zone have one name.
abbrev pub DistinctRules : {O : Type 0} → List (Rule O) → Type 0
DistinctRules = Pairwise (λ a b. a.domain ≡ b.domain → ¬ (a.name ≡ b.name))

distinct-same :
    {O : Type 0} (rules : List (Rule O)) {a b : Rule O}
    → DistinctRules rules
    → Memᴰ a rules
    → Memᴰ b rules
    → a.domain ≡ b.domain
    → a.name ≡ b.name
    → a ≡ b
distinct-same [] h m k d n = elim m [ ]
distinct-same (r ∷ rules) h (Memᴰ.head e) (Memᴰ.head e') d n = e ∙ sym e'
distinct-same (r ∷ rules) {a} {b} h (Memᴰ.head e) (Memᴰ.tail k) d n =
    absurd (All-at _ rules h.0 k (ap (λ z. z.domain) (sym e) ∙ d) (ap (λ z. z.name) (sym e) ∙ n))
distinct-same (r ∷ rules) {a} {b} h (Memᴰ.tail m) (Memᴰ.head e) d n =
    absurd
      (All-at _ rules h.0 m (ap (λ z. z.domain) (sym e) ∙ sym d) (ap (λ z. z.name) (sym e) ∙ sym n))
distinct-same (r ∷ rules) h (Memᴰ.tail m) (Memᴰ.tail k) d n = distinct-same rules h.1 m k d n

mem_of_rules_of :
    {O : Type 0} (zone : Text) (rules : List (Rule O)) {r : Rule O}
    → Memᴰ r (rules_of zone rules)
    → Memᴰ r rules × (r.domain ≡ zone)
unfolding rules_of
mem_of_rules_of zone rules {r} m =
    let (k, is) = mem_of_select_where (λ r. r.domain == zone) rules m in
    (k, list_eq.sound r.domain zone is)

module _ {P O R : Type 0} (applying : P → O → Checked R P)
    (composes : P → Text → List Text → Text → Option R) (hexdigest : Text → Text)
    (rules : List (Rule O)) (unique : DistinctRules rules) where
  -- By its name the rule is found again that decided.
  policy_for-merged :
      (zone : Domain P) (rule : Rule O) (resolved : ResolvedPolicy P)
      → Memᴰ rule (rules_of zone.name rules)
      → merged applying zone rule (applying zone.policy rule.overrides) ≡ valid resolved
      → policy_for applying composes hexdigest zone (rules_of zone.name rules) resolved.rule
        ≡ some (valid resolved.policy.policy)
  unfolding merged policy_for policy_by
  policy_for-merged zone rule resolved m e = go _ refl e
    where
      same :
          (item : Rule O)
          → Memᴰ item (rules_of zone.name rules)
          → (item.name == rule.name) ≡ true
          → item ≡ rule
      same item k is =
          let (ma, da) = mem_of_rules_of zone.name rules k in
          let (mb, db) = mem_of_rules_of zone.name rules m in
          distinct-same rules unique ma mb (da ∙ sym db) (list_eq.sound item.name rule.name is)

      found : (first_where (λ item. item.name == rule.name) (rules_of zone.name rules)) ≡ some rule
      found =
          let (item, at) =
            first_where-found (λ r. r.name == rule.name) (rules_of zone.name rules) m
              (list_eq.reflexive rule.name) in
          let (k, is) = first_where-some (λ r. r.name == rule.name) (rules_of zone.name rules) at in
          at ∙ ap some (same item k is)

      go :
          (answer : Checked R P)
          → applying zone.policy rule.overrides ≡ answer
          → merged applying zone rule answer ≡ valid resolved
          → policy_for applying composes hexdigest zone (rules_of zone.name rules) resolved.rule
            ≡ some (valid resolved.policy.policy)
      go (valid policy) is h =
          subst
            (λ r.
              policy_for applying composes hexdigest zone (rules_of zone.name rules) r.rule
              ≡ some (valid r.policy.policy))
            (valid-injective h) (rw (found, policy_by) (ap some is))
      go (invalid reason) is h = absurd (cc h)

  -- The policy of a group is the one that each hostname of the group resolves to.
  pub policy_for-resolved :
      (zone : Domain P) (name : Text) (resolved : ResolvedPolicy P)
      → resolve_policy applying zone (rules_of zone.name rules) name ≡ valid resolved
      → policy_for applying composes hexdigest zone (rules_of zone.name rules) resolved.rule
        ≡ some (valid resolved.policy.policy)
  policy_for-resolved zone name resolved e =
      go _ (resolve_policy-Decided applying zone name (rules_of zone.name rules)) e
    where
      go :
          (answer : Checked R (ResolvedPolicy P))
          → Decided applying zone (rules_of zone.name rules) name answer
          → answer ≡ valid resolved
          → policy_for applying composes hexdigest zone (rules_of zone.name rules) resolved.rule
            ≡ some (valid resolved.policy.policy)
      go _ (by_rule rule first) h = policy_for-merged zone rule resolved first.among h
      go _ (by_zone_alone misses) h =
          subst
            (λ r.
              policy_for applying composes hexdigest zone (rules_of zone.name rules) r.rule
              ≡ some (valid r.policy.policy))
            (valid-injective h) (unfold policy_for in refl)
