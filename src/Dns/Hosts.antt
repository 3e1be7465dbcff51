-- ===== src/Dns/Hosts.antt =====
-- dns/domain/hosts.py: the virtual hosts that follow from the zones, the rules and the proxied
-- records. Parameters are the merge of a policy, the validation of a virtual host (`none` is that
-- it composes), and the hexadecimal digest of SHA-1.
pub mod Turns
pub mod Totality
pub mod OwnNames
pub mod GroupPolicy
pub mod Faithful
pub mod Gathering
pub mod Coverage
use blitze_cdn_cp.Prelude.{
  List, [], ◌∷◌, ◌++◌, map, Bool, true, false, ◌&&◌, Option, none, some, ◌==◌, HasEq, nat_eq,
  list_eq, option_eq, both, if◌then◌else◌, ◌≡◌, Dict, lookup, insert,
}
use blitze_cdn_cp.Sql.{order_by, first_where}
use blitze_cdn_cp.Dns.Texts.{Text, text, normalized, text_le}
use blitze_cdn_cp.Dns.Groups.{HostKey, host_key_eq, Round, rules_of, by_zone, append_to, rounds}
use blitze_cdn_cp.Dns.Names.{DnsRecord, fqdn, host_name, origin_slug, unique_name, distinct}
use blitze_cdn_cp.Dns.Rules.{Checked, valid, invalid, Domain, Rule, ResolvedPolicy, resolve_policy}

-- Under which a refusal is kept: the derived name, if there is one, and the hostnames.
pub record RefusalKey : Type 0 where
  pub name : Option Text
  pub hostnames : List Text

abbrev pub refusal_key_beq : RefusalKey → RefusalKey → Bool
refusal_key_beq x y = x.name == y.name && x.hostnames == y.hostnames

pub refusal_key_beq_sound : (x y : RefusalKey) → refusal_key_beq x y ≡ true → x ≡ y
refusal_key_beq_sound x y h =
    let (n, hs) = both (x.name == y.name) _ h in
    let names = option_eq.sound x.name y.name n in
    let hosts = list_eq.sound x.hostnames y.hostnames hs in
    λ i. record { name = names i; hostnames = hosts i }

pub refusal_key_beq_reflexive : (x : RefusalKey) → refusal_key_beq x x ≡ true
refusal_key_beq_reflexive x = rw (option_eq.reflexive x.name) (list_eq.reflexive x.hostnames)

instance abbrev pub refusal_key_eq : HasEq RefusalKey
refusal_key_eq = record {
  test = refusal_key_beq;
  sound = refusal_key_beq_sound;
  reflexive = refusal_key_beq_reflexive;
}

-- The parts of a virtual host that the derivation sets. Its origin is kept the way that
-- `validate_origin` answers it.
pub record CdnSite (P : Type 0) : Type 0 where
  pub name : Text
  pub policy : P
  pub server_names : List Text
  pub origin_host : Text

pub record UnservableHost (R : Type 0) : Type 0 where
  pub hostnames : List Text
  pub reason : R
  pub name : Option Text

-- What the loop over the records keeps.
pub record Gathered (R : Type 0) : Type 0 where
  pub refusals : Dict RefusalKey R
  pub hostnames : Dict HostKey (List Text)

-- What these loops keep.
pub record Derivation (P R : Type 0) : Type 0 where
  pub hosts : List (CdnSite P)
  pub used : List Text
  pub refusals : Dict RefusalKey R

-- The keys by which the refusals are sorted: the hostnames, then the name or "".
texts_le : List Text → List Text → Bool
texts_le [] ts = true
texts_le (s ∷ ss) [] = false
texts_le (s ∷ ss) (t ∷ ts) = if s == t then texts_le ss ts else text_le s t

name_or_empty : Option Text → Text
name_or_empty none = []
name_or_empty (some t) = t

refusal_le : {R : Type 0} → RefusalKey × R → RefusalKey × R → Bool
unfolding texts_le name_or_empty
refusal_le a b =
    if a.0.hostnames == b.0.hostnames
    then text_le (name_or_empty a.0.name) (name_or_empty b.0.name)
    else texts_le a.0.hostnames b.0.hostnames

abbrev pub unservable : {R : Type 0} → RefusalKey × R → UnservableHost R
unservable e = record { hostnames = e.0.hostnames; reason = e.1; name = e.0.name }

unfoldable pub refused : {R : Type 0} → Dict RefusalKey R → List (UnservableHost R)
unfolding refusal_le
refused refusals = map unservable (order_by refusal_le refusals)

-- base, or base and the slug of the origin.
unfoldable pub candidate_name : {P : Type 0} → (Text → Text) → Round P → Text
unfolding host_name origin_slug
candidate_name hexdigest round =
    if round.place == 0
    then host_name round.zone.name round.rule
    else host_name round.zone.name round.rule ++ text "--" ++ origin_slug hexdigest round.origin

module _ {P O R : Type 0} (applying : P → O → Checked R P)
    (composes : P → Text → List Text → Text → Option R) (hexdigest : Text → Text) where
  gather_resolved : DnsRecord → Text → Checked R (ResolvedPolicy P) → Gathered R → Gathered R
  unfolding append_to fqdn
  gather_resolved r zone (valid resolved) g = record g {
    hostnames =
        append_to (record { zone = zone; rule = resolved.rule; origin = r.value }) (fqdn r)
          g.hostnames;
  }
  gather_resolved r zone (invalid reason) g = record g {
    refusals = insert (record { name = none; hostnames = fqdn r ∷ [] }) reason g.refusals;
  }

  gather_in : List (Rule O) → DnsRecord → Option (Domain P) → Gathered R → Gathered R
  unfolding gather_resolved rules_of
  gather_in rules r none g = g
  gather_in rules r (some zone) g =
      if r.proxied
      then gather_resolved r zone.name
          (resolve_policy applying zone (rules_of zone.name rules) (fqdn r)) g
      else g

  -- The loop over the records.
  unfoldable pub gather :
      Dict Text (Domain P) → List (Rule O) → List DnsRecord → Gathered R → Gathered R
  unfolding gather_in
  gather zones rules [] g = g
  gather zones rules (r ∷ rs) g =
      gather zones rules rs (gather_in rules r (lookup r.domain zones) g)

  policy_by : Domain P → Option (Rule O) → Option (Checked R P)
  policy_by zone none = none
  policy_by zone (some rule) = some (applying zone.policy rule.overrides)

  -- `_policy_for`. `none` is the StopIteration of `next`.
  unfoldable pub policy_for : Domain P → List (Rule O) → Option Text → Option (Checked R P)
  unfolding policy_by
  policy_for zone rules none = some (valid zone.policy)
  policy_for zone rules (some name) = policy_by zone (first_where (λ item. item.name == name) rules)

  refuse : Text → List Text → R → Derivation P R → Derivation P R
  refuse name server_names reason st = record st {
    refusals = insert (record { name = some name; hostnames = server_names }) reason st.refusals;
  }

  add_composed : Text → List Text → Text → P → Option R → Derivation P R → Derivation P R
  unfolding refuse
  add_composed name server_names origin policy none st = record st {
    hosts =
        st.hosts
        ++ record {
          name = name;
          policy = policy;
          server_names = server_names;
          origin_host = normalized origin;
        }
          ∷ [];
  }
  add_composed name server_names origin policy (some reason) st = refuse name server_names reason st

  add_site :
      Text → List Text → Text → Option (Checked R P) → Derivation P R → Option (Derivation P R)
  unfolding add_composed refuse
  add_site name server_names origin none st = none
  add_site name server_names origin (some (valid policy)) st =
      some
        (add_composed name server_names origin policy (composes policy name server_names origin) st)
  add_site name server_names origin (some (invalid reason)) st =
      some (refuse name server_names reason st)

  add_named :
      List (Rule O) → Round P → List Text → Option Text → Derivation P R → Option (Derivation P R)
  unfolding add_site policy_for distinct rules_of
  add_named rules round names none st = none
  add_named rules round names (some name) st =
      add_site name (distinct names) round.origin
        (policy_for round.zone (rules_of round.zone.name rules) round.rule)
        (record st { used = name ∷ st.used })

  unfoldable pub add_names :
      List (Rule O) → Round P → Option (List Text) → Derivation P R → Option (Derivation P R)
  unfolding add_named unique_name candidate_name
  add_names rules round none st = none
  add_names rules round (some []) st = some st
  add_names rules round (some (n ∷ ns)) st =
      add_named rules round (n ∷ ns) (unique_name (candidate_name hexdigest round) st.used) st

  -- The key that a turn looks up.
  abbrev pub key_of : Round P → HostKey
  key_of round = record { zone = round.zone.name; rule = round.rule; origin = round.origin }

  unfoldable pub add_rounds :
      List (Rule O)
      → Dict HostKey (List Text)
      → List (Round P)
      → Derivation P R
      → Option (Derivation P R)
  unfolding add_names
  add_rounds rules d [] st = some st
  add_rounds rules d (round ∷ more) st = elim (add_names rules round (lookup (key_of round) d) st) [
    | none ↦ none
    | some st' ↦ add_rounds rules d more st'
  ]

  finished : Option (Derivation P R) → Option (List (CdnSite P) × List (UnservableHost R))
  unfolding refused
  finished none = none
  finished (some st) = some (st.hosts, refused st.refusals)

  -- `_derive`. `none` is an exception that no caller expects: no name is left, or a lookup failed.
  unfoldable pub derive :
      List (Domain P)
      → List (Rule O)
      → List DnsRecord
      → Option (List (CdnSite P) × List (UnservableHost R))
  unfolding finished add_rounds gather rounds by_zone
  derive domains rules records =
      let zones = by_zone domains [] in
      let g = gather zones rules records (record { refusals = []; hostnames = [] }) in
      finished (
        add_rounds rules g.hostnames (rounds zones rules g.hostnames)
          (record { hosts = []; used = []; refusals = g.refusals }))
