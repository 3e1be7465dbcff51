-- ===== src/Dns/Hosts/Faithful.antt =====
-- Where the hostnames, origins and policies come from that the hosts of dns/domain/hosts.py have.
use blitze_cdn_cp.Prelude.{
  List, [], ◌∷◌, ◌++◌, Memᴰ, true, Option, none, some, list_eq, nat_eq, ◌≡◌, refl, sym, subst, ap,
  ◌∙◌, inl, inr, Bool-cases, All, All-at, All-of, All-append, Dict, lookup, insert-All,
  mem_of_lookup, of_some,
}
use blitze_cdn_cp.Dns.Texts.{Text, normalized}
use blitze_cdn_cp.Dns.Names.{DnsRecord, fqdn, distinct}
use blitze_cdn_cp.Dns.Rules.{Checked, valid, invalid, Domain, Rule, ResolvedPolicy, resolve_policy}
use blitze_cdn_cp.Dns.Groups.{
  HostKey, host_key_eq, Round, or_empty, append_to, rules_of, by_zone, rounds,
}
use blitze_cdn_cp.Dns.Groups.Entries.{by_zone-Listed, by_zone_named}
use blitze_cdn_cp.Dns.Groups.Turns.{IsGrounded, rounds-IsGrounded, mem_of_distinct}
use blitze_cdn_cp.Dns.Hosts.{
  CdnSite, UnservableHost, Gathered, Derivation, gather_resolved, gather_in, gather, policy_for,
  refuse, add_composed, add_site, add_named, add_names, add_rounds, finished, derive,
}
use blitze_cdn_cp.Dns.Hosts.Turns.{Turn, add_rounds_keep_all}
use blitze_cdn_cp.Dns.Hosts.GroupPolicy.{DistinctRules, policy_for-resolved}

valid-injective : {R A : Type 0} {x y : A} → ◌≡◌ {A = Checked R A} (valid x) (valid y) → x ≡ y
valid-injective h = cc

module _ {P O R : Type 0} (applying : P → O → Checked R P) (rules : List (Rule O))
    (records : List DnsRecord) (zones : Dict Text (Domain P)) where
  -- A proxied record asks that this hostname be served under this key: it has the origin, its zone
  -- is there, and the policy of the hostname comes from the key's rule.
  pub record IsAsked (key : HostKey) (name : Text) : Type 0 where
    pub source : DnsRecord
    pub listed : Memᴰ source records
    pub proxied : source.proxied ≡ true
    pub named : fqdn source ≡ name
    pub from_origin : source.value ≡ key.origin
    pub zone : Domain P
    pub found : lookup key.zone zones ≡ some zone
    pub resolved : ResolvedPolicy P
    pub resolves : resolve_policy applying zone (rules_of zone.name rules) name ≡ valid resolved
    pub by_rule : resolved.rule ≡ key.rule

  abbrev AllAsked : HostKey × List Text → Type 0
  AllAsked entry = All (IsAsked entry.0) entry.1

  append_to-AllAsked :
      (key : HostKey) (name : Text) (d : Dict HostKey (List Text))
      → IsAsked key name
      → All AllAsked d
      → All AllAsked (append_to key name d)
  unfolding append_to or_empty
  append_to-AllAsked key name d asked h =
      insert-All AllAsked key _ d
        (λ j same.
          subst (λ k. All (IsAsked k) (or_empty (lookup key d) ++ name ∷ [])) (sym same)
            (All-append (IsAsked key) (or_empty (lookup key d)) (name ∷ [])
              (before (lookup key d) refl) (asked, tt)))
        h
    where
      before :
          (found : Option (List Text)) → lookup key d ≡ found → All (IsAsked key) (or_empty found)
      before none e = tt
      before (some names) e = All-at AllAsked d h (mem_of_lookup key d e)

  module _ (composes : P → Text → List Text → Text → Option R) (hexdigest : Text → Text)
      (named : (name : Text) (zone : Domain P)
        → lookup name zones ≡ some zone
        → zone.name ≡ name) where
    gather_in-AllAsked :
        (r : DnsRecord) (found : Option (Domain P)) (g : Gathered R)
        → Memᴰ r records
        → lookup r.domain zones ≡ found
        → All AllAsked g.hostnames
        → All AllAsked (gather_in applying composes hexdigest rules r found g).hostnames
    unfolding gather_in
    gather_in-AllAsked r none g m at h = h
    gather_in-AllAsked r (some zone) g m at h = elim (Bool-cases r.proxied) [
      | inl e ↦ rw e (go _ refl e)
      | inr e ↦ rw e h
    ]
      where
        go :
            (answer : Checked R (ResolvedPolicy P))
            → resolve_policy applying zone (rules_of zone.name rules) (fqdn r) ≡ answer
            → r.proxied ≡ true
            → All AllAsked
                (gather_resolved applying composes hexdigest r zone.name answer g).hostnames
        go (valid resolved) is proxied =
            unfold gather_resolved in
            (append_to-AllAsked _ (fqdn r) g.hostnames
              (record {
                source = r;
                listed = m;
                proxied = proxied;
                named = refl;
                from_origin = refl;
                zone = zone;
                found = subst (λ n. lookup n zones ≡ some zone) (sym (named r.domain zone at)) at;
                resolved = resolved;
                resolves = is;
                by_rule = refl;
              })
              h)
        go (invalid reason) is proxied = unfold gather_resolved in h

    gather-AllAsked :
        (rs : List DnsRecord) (g : Gathered R)
        → All (λ r. Memᴰ r records) rs
        → All AllAsked g.hostnames
        → All AllAsked (gather applying composes hexdigest zones rules rs g).hostnames
    unfolding gather
    gather-AllAsked [] g m h = h
    gather-AllAsked (r ∷ rs) g m h =
        gather-AllAsked rs _ m.1 (gather_in-AllAsked r (lookup r.domain zones) g m.0 refl h)

  -- A host that serves what was asked: each of its hostnames is that of a proxied record whose
  -- normalized value is the host's origin, and the policy that the hostname resolves to is the host's.
  pub record IsFaithful (h : CdnSite P) (name : Text) : Type 0 where
    pub key : HostKey
    pub origin : normalized key.origin ≡ h.origin_host
    pub asked : IsAsked key name
    pub policy : asked.resolved.policy.policy ≡ h.policy

  abbrev pub AllFaithful : CdnSite P → Type 0
  AllFaithful h = All (IsFaithful h) h.server_names

  module _ (composes : P → Text → List Text → Text → Option R) (hexdigest : Text → Text) where
    -- The policy that the group's turn looks up is that of each hostname asked for.
    asked-policy :
        (unique : DistinctRules rules) (round : Round P)
        (known : lookup round.zone.name zones ≡ some round.zone) {name : Text} {policy : P}
        → (asked : IsAsked
            (record { zone = round.zone.name; rule = round.rule; origin = round.origin })
            name)
        → policy_for applying composes hexdigest round.zone
            (rules_of round.zone.name rules)
            round.rule
          ≡ some (valid policy)
        → asked.resolved.policy.policy ≡ policy
    asked-policy unique round known {name} {policy} asked e = valid-injective (
        of_some (
          sym (
            subst
              (λ z.
                policy_for applying composes hexdigest z (rules_of z.name rules) round.rule
                ≡ some (valid asked.resolved.policy.policy))
              (of_some (sym asked.found ∙ known))
              (subst
                (λ r.
                  policy_for applying composes hexdigest asked.zone (rules_of asked.zone.name rules)
                    r
                  ≡ some (valid asked.resolved.policy.policy))
                asked.by_rule
                (policy_for-resolved applying composes hexdigest rules unique asked.zone name
                  asked.resolved asked.resolves)))
          ∙ e))

    module _ (unique : DistinctRules rules) (round : Round P)
        (known : lookup round.zone.name zones ≡ some round.zone) (names : List Text)
        (asked : All
          (IsAsked (record { zone = round.zone.name; rule = round.rule; origin = round.origin }))
          names) where
      add_site-AllFaithful :
          (name : Text) (policy : Option (Checked R P)) (st st' : Derivation P R)
          → policy_for applying composes hexdigest round.zone
              (rules_of round.zone.name rules)
              round.rule
            ≡ policy
          → All AllFaithful st.hosts
          → add_site applying composes hexdigest name (distinct names) round.origin policy st
            ≡ some st'
          → All AllFaithful st'.hosts
      unfolding add_site refuse
      add_site-AllFaithful name none st st' at h e = absurd (cc e)
      add_site-AllFaithful name (some (invalid reason)) st st' at h e =
          subst (λ s. All AllFaithful s.hosts) (of_some e) h
      add_site-AllFaithful name (some (valid policy)) st st' at h e =
          subst (λ s. All AllFaithful s.hosts) (of_some e)
            (added (composes policy name (distinct names) round.origin))
        where
          faithful :
              (n : Text)
              → Memᴰ n (distinct names)
              → IsFaithful
                  (record {
                    name = name;
                    policy = policy;
                    server_names = distinct names;
                    origin_host = normalized round.origin;
                  })
                  n
          faithful n m =
              let a = All-at _ names asked (mem_of_distinct names m) in
              record {
                key = _;
                origin = refl;
                asked = a;
                policy = asked-policy unique round known a at;
              }

          added :
              (answer : Option R)
              → All AllFaithful
                  (add_composed applying composes hexdigest name
                    (distinct names)
                    round.origin
                    policy
                    answer
                    st).hosts
          added none =
              unfold add_composed in
              (All-append AllFaithful st.hosts _ h (All-of _ (distinct names) faithful, tt))
          added (some reason) = unfold add_composed refuse in h

      add_named-AllFaithful :
          (name : Option Text) (st st' : Derivation P R)
          → All AllFaithful st.hosts
          → add_named applying composes hexdigest rules round names name st ≡ some st'
          → All AllFaithful st'.hosts
      unfolding add_named
      add_named-AllFaithful none st st' h e = absurd (cc e)
      add_named-AllFaithful (some name) st st' h e =
          add_site-AllFaithful name _ (record st { used = name ∷ st.used }) st' refl h e

    Turn-AllFaithful :
        (unique : DistinctRules rules) (d : Dict HostKey (List Text))
        → All AllAsked d
        → (round : Round P) (st st' : Derivation P R) → IsGrounded rules d zones round
        → Turn applying composes hexdigest rules d round st st'
        → All AllFaithful st.hosts
        → All AllFaithful st'.hosts
    unfolding add_names
    Turn-AllFaithful unique d asked round st st' grounded ([], at, e) h =
        subst (λ s. All AllFaithful s.hosts) (of_some e) h
    Turn-AllFaithful unique d asked round st st' grounded (n ∷ ns, at, e) h =
        add_named-AllFaithful unique round grounded.zone_known (n ∷ ns)
          (All-at AllAsked d asked (mem_of_lookup _ d at)) _ st st' h e

-- Each hostname of a host that the derivation answers is that of a proxied record whose value
-- (stripped, in lower case, without dots behind) is the host's origin, and the policy that `resolve_policy` gives the hostname in its zone is the host's,
-- if no two rules of a zone have one name.
pub derive-AllFaithful :
    {P O R : Type 0} (applying : P → O → Checked R P)
    (composes : P → Text → List Text → Text → Option R) (hexdigest : Text → Text)
    (domains : List (Domain P)) (rules : List (Rule O)) (records : List DnsRecord)
    (hosts : List (CdnSite P)) (reported : List (UnservableHost R))
    → DistinctRules rules
    → derive applying composes hexdigest domains rules records ≡ some (hosts, reported)
    → All (AllFaithful applying rules records (by_zone domains [])) hosts
unfolding derive finished
derive-AllFaithful {P} {O} {R} applying composes hexdigest domains rules records hosts reported
      unique e =
    go _ refl e
  where
    zones : Dict Text (Domain P)
    zones = by_zone domains []

    g : Gathered R
    g =
        gather applying composes hexdigest zones rules records
          (record { refusals = []; hostnames = [] })

    asked : All (AllAsked applying rules records zones) g.hostnames
    asked =
        gather-AllAsked applying rules records zones composes hexdigest
          (λ name zone at. by_zone_named domains at) records _ (All-of _ records (λ r m. m)) tt

    go :
        (answer : Option (Derivation P R))
        → add_rounds applying composes hexdigest rules g.hostnames
            (rounds zones rules g.hostnames)
            (record { hosts = []; used = []; refusals = g.refusals })
          ≡ answer
        → finished applying composes hexdigest answer ≡ some (hosts, reported)
        → All (AllFaithful applying rules records zones) hosts
    go none h k = absurd (cc k)
    go (some final) h k =
        subst (λ hs. All (AllFaithful applying rules records zones) hs) (ap (λ p. p.0) (of_some k))
          (add_rounds_keep_all applying composes hexdigest rules g.hostnames
            (IsGrounded rules g.hostnames zones)
            (λ st. All (AllFaithful applying rules records zones) st.hosts)
            (Turn-AllFaithful applying rules records zones composes hexdigest unique g.hostnames
              asked)
            (rounds zones rules g.hostnames) _ final
            (rounds-IsGrounded rules g.hostnames zones zones (by_zone-Listed domains)) h tt)
