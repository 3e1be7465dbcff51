-- ===== src/Dns/Examples.antt =====
-- A small set of zones, and the theorems of dns/domain applied to it.
use blitze_cdn_cp.Prelude.{
  ℕ, List, [], ◌∷◌, String, true, Option, none, some, ◌≡◌, refl, ◌==◌, nat_eq, list_eq,
  if◌then◌else◌, lookup, insert, ◌⊎◌, ◌≤◌, length, Memᴰ, All, Pairwise, arith,
}
use blitze_cdn_cp.Sql.{select_where, order_by, first_where}
use blitze_cdn_cp.Dns.Texts.{
  Text, text, starts_with, ends_with, remove_prefix, lower, strip_left, strip_right, normalized,
  text_le, decimal,
}
use blitze_cdn_cp.Dns.Names.{
  RecordType, DnsRecord, contains, fqdn, host_name, origin_slug, unique_name, distinct,
}
use blitze_cdn_cp.Dns.Rules.{
  Checked, valid, invalid, Domain, Rule, matches, match_is_inside, is_inside, resolve_policy,
}
use blitze_cdn_cp.Dns.Groups.{groups, origins, rules_of, by_zone, append_to, rounds}
use blitze_cdn_cp.Dns.Hosts.{CdnSite, UnservableHost, derive, gather}
use blitze_cdn_cp.Dns.Hosts.Coverage.{IsServed, IsReported, derive-covers}
use blitze_cdn_cp.Dns.Hosts.OwnNames.{derive-distinct_names}
use blitze_cdn_cp.Dns.Hosts.Faithful.{AllFaithful, derive-AllFaithful}
use blitze_cdn_cp.Dns.Hosts.Totality.{turns_of, derive_total}
use blitze_cdn_cp.Dns.Rules.FirstMatch.{Decides, resolve_policy-Decides}
use blitze_cdn_cp.Dns.Rules.Match.{matches-is_inside}

-- Policies as numbers: a rule sets the number, and 13 is refused; a host composes unless it is 7.
abbrev applying : ℕ → ℕ → Checked String ℕ
applying p o = if o == 13 then invalid "unlucky" else valid o

abbrev composes : ℕ → Text → List Text → Text → Option String
composes p name server_names origin = if p == 7 then some "seven" else none

abbrev hexdigest : Text → Text
hexdigest s = text "da39a3ee"

abbrev zone : Domain ℕ
zone = record { name = text "b.io"; policy = 1 }

abbrev api_rule : Rule ℕ
api_rule = record {
  domain = text "b.io";
  name = text "api";
  priority = 100;
  match = text "*.b.io";
  overrides = 2;
  enabled = true;
}

abbrev proxied_record : String → String → DnsRecord
proxied_record name value = record {
  domain = text "b.io";
  name = text name;
  type = RecordType.a;
  value = text value;
  ttl = 300;
  proxied = true;
}

abbrev apex : DnsRecord
apex = proxied_record "@" "10.0.0.1"

abbrev subdomain : DnsRecord
subdomain = proxied_record "v" "10.0.0.2 "

abbrev example_records : List DnsRecord
example_records = apex ∷ subdomain ∷ []

abbrev example_hosts : List (CdnSite ℕ)
example_hosts =
    record {
      name = text "b-io";
      policy = 1;
      server_names = text "b.io" ∷ [];
      origin_host = text "10.0.0.1";
    }
    ∷ record {
      name = text "b-io--api";
      policy = 2;
      server_names = text "v.b.io" ∷ [];
      origin_host = text "10.0.0.2";
    }
    ∷ []

derived :
    derive applying composes hexdigest (zone ∷ []) (api_rule ∷ []) example_records
    ≡ some (example_hosts, [])
unfolding derive gather select_where order_by first_where starts_with ends_with remove_prefix lower
    strip_left strip_right normalized text_le decimal contains fqdn host_name origin_slug
    unique_name distinct matches resolve_policy rules_of by_zone append_to rounds groups origins
    lookup insert
derived = refl

derive-covers_example :
    IsServed (fqdn subdomain) (text "10.0.0.2 ") example_hosts
    ⊎ IsReported {R = String} (fqdn subdomain) []
derive-covers_example =
    derive-covers applying composes hexdigest (api_rule ∷ []) (zone ∷ []) example_records subdomain
      zone example_hosts [] (Memᴰ.tail (Memᴰ.head refl)) refl (Memᴰ.head refl) refl derived

derive-distinct_names_example : Pairwise (λ a b. ¬ (a.name ≡ b.name)) example_hosts
derive-distinct_names_example =
    derive-distinct_names applying composes hexdigest (zone ∷ []) (api_rule ∷ []) example_records
      example_hosts [] derived

derive-AllFaithful_example :
    All
      (AllFaithful applying (api_rule ∷ []) example_records (by_zone (zone ∷ []) []))
      example_hosts
derive-AllFaithful_example =
    derive-AllFaithful applying composes hexdigest (zone ∷ []) (api_rule ∷ []) example_records
      example_hosts [] (tt, tt) derived

few :
    length (turns_of applying composes hexdigest (zone ∷ []) (api_rule ∷ []) example_records) ≤ 998
unfolding gather select_where order_by starts_with ends_with remove_prefix lower strip_left
    strip_right normalized text_le contains fqdn distinct matches resolve_policy rules_of by_zone
    append_to rounds groups origins lookup insert
few = omega arith

derive_total_example :
    (answer : List (CdnSite ℕ) × List (UnservableHost String)) × (derive applying composes hexdigest
        (zone ∷ [])
        (api_rule ∷ [])
        example_records
      ≡ some answer)
derive_total_example =
    derive_total applying composes hexdigest (zone ∷ []) (api_rule ∷ []) example_records few

resolve_policy-Decides_example :
    Decides applying zone
      (text "v.b.io")
      (api_rule ∷ [])
      (resolve_policy applying zone (api_rule ∷ []) (text "v.b.io"))
resolve_policy-Decides_example =
    resolve_policy-Decides applying zone (text "v.b.io") (api_rule ∷ [])

api_rule_inside : match_is_inside api_rule ≡ true
unfolding match_is_inside ends_with remove_prefix
api_rule_inside = refl

api_rule_hits : matches api_rule (text "V.b.io.") ≡ true
unfolding matches ends_with remove_prefix normalized
api_rule_hits = refl

matches-is_inside_example :
    (api_rule.enabled ≡ true) × (is_inside (text "b.io") (normalized (text "V.b.io.")) ≡ true)
matches-is_inside_example =
    matches-is_inside api_rule (text "V.b.io.") api_rule_inside api_rule_hits
