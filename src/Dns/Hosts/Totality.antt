-- ===== src/Dns/Hosts/Totality.antt =====
-- When the derivation of dns/domain/hosts.py answers.
use blitze_cdn_cp.Prelude.{
  suc, ◌+◌, ◌≤◌, ◌<◌, List, [], ◌∷◌, length, map, Memᴰ, true, Option, none, some, ◌==◌, list_eq,
  nat_eq, ◌≡◌, refl, sym, subst, All, Dict, arith, of_some, mem_of_map,
}
use blitze_cdn_cp.Sql.{first_where, order_by}
use blitze_cdn_cp.Sql.Laws.{first_where-found}
use blitze_cdn_cp.Sql.Order.{mem_of_order_by}
use blitze_cdn_cp.Dns.Texts.{Text}
use blitze_cdn_cp.Dns.Names.{DnsRecord}
use blitze_cdn_cp.Dns.Names.Unique.{unique_name_found}
use blitze_cdn_cp.Dns.Rules.{Checked, valid, invalid, Domain, Rule, order_le}
use blitze_cdn_cp.Dns.Groups.{HostKey, host_key_eq, Round, rules_of, by_zone, groups, rounds}
use blitze_cdn_cp.Dns.Groups.Entries.{by_zone-Listed}
use blitze_cdn_cp.Dns.Groups.Turns.{IsGrounded, rounds-IsGrounded}
use blitze_cdn_cp.Dns.Hosts.{
  CdnSite, UnservableHost, Gathered, Derivation, gather, policy_by, policy_for, refuse,
  add_composed, add_site, add_named, add_names, add_rounds, finished, refused, derive,
  candidate_name,
}

module _ {P O R : Type 0} (applying : P → O → Checked R P)
    (composes : P → Text → List Text → Text → Option R) (hexdigest : Text → Text) where
  policy_for_found :
      (zone : Domain P) (rules : List (Rule O)) (rule : Option Text)
      → Memᴰ rule (groups zone.name rules)
      → (policy : Checked R P) × (policy_for applying composes hexdigest zone
            (rules_of zone.name rules)
            rule
          ≡ some policy)
  unfolding policy_for
  policy_for_found zone rules none m = (valid zone.policy, refl)
  policy_for_found zone rules (some name) m =
      let (item, found) = there (unfold groups in m) in
      (applying zone.policy item.overrides, rw (found, policy_by) refl)
    where
      there :
          Memᴰ
            (some name)
            (none ∷ map (λ r. some r.name) (order_by order_le (rules_of zone.name rules)))
          → (item : Rule O) × (first_where (λ item. item.name == name) (rules_of zone.name rules)
              ≡ some item)
      there (Memᴰ.head e) = absurd (cc e)
      there (Memᴰ.tail m') =
          let (item, k, e) = mem_of_map (λ r. some r.name) _ m' in
          first_where-found (λ r. r.name == name) (rules_of zone.name rules)
            (mem_of_order_by order_le _ k)
            (subst (λ n. (item.name == n) ≡ true) (sym (of_some e)) (list_eq.reflexive item.name))

  -- A state that uses at most one name more than another.
  abbrev Continues : Derivation P R → Option (Derivation P R) → Type 0
  Continues st answer =
      (st' : Derivation P R) × (answer ≡ some st') × (length st'.used ≤ suc (length st.used))

  add_site-Continues :
      (name : Text) (server_names : List Text) (origin : Text) (policy : Checked R P)
      (st : Derivation P R)
      → Continues st (
          add_site applying composes hexdigest name server_names origin
            (some policy)
            (record st { used = name ∷ st.used }))
  unfolding add_site refuse
  add_site-Continues name server_names origin (valid policy) st =
      (_, refl, added (composes policy name server_names origin))
    where
      added :
          (answer : Option R)
          → length
              (add_composed applying composes hexdigest name server_names origin policy answer
                (record st { used = name ∷ st.used })).used
            ≤ suc (length st.used)
      added none = unfold add_composed in (omega arith)
      added (some reason) = unfold add_composed in (omega arith)
  add_site-Continues name server_names origin (invalid reason) st = (_, refl, omega arith)

  add_names-Continues :
      (rules : List (Rule O)) (round : Round P) (names : List Text) (st : Derivation P R)
      → Memᴰ round.rule (groups round.zone.name rules)
      → length st.used < 998
      → Continues st (add_names applying composes hexdigest rules round (some names) st)
  unfolding add_names
  add_names-Continues rules round [] st group few = (st, refl, omega arith)
  add_names-Continues rules round (n ∷ ns) st group few =
      let (name, given) = unique_name_found (candidate_name hexdigest round) st.used few in
      let (policy, found) = policy_for_found round.zone rules round.rule group in
      rw (given, add_named)
        (unfold add_named in (rw found (add_site-Continues name _ round.origin policy st)))

  add_rounds_total :
      (rules : List (Rule O)) (d : Dict HostKey (List Text)) (known : Dict Text (Domain P))
      (turns : List (Round P)) (st : Derivation P R)
      → All (IsGrounded rules d known) turns
      → length st.used + length turns ≤ 998
      → (final : Derivation P R) × (add_rounds applying composes hexdigest rules d turns st
          ≡ some final)
  unfolding add_rounds
  add_rounds_total rules d known [] st grounded few = (st, refl)
  add_rounds_total rules d known (round ∷ more) st grounded few =
      let (names, at) = grounded.0.key in
      let (st', e, longer) =
        add_names-Continues rules round names st grounded.0.group (omega arith) in
      let (final, rest) = add_rounds_total rules d known more st' grounded.1 (omega arith) in
      (final, rw (at, add_rounds) (rw (e, add_rounds) rest))

  -- The turns that a derivation takes: one for each group of hostnames.
  abbrev pub turns_of : List (Domain P) → List (Rule O) → List DnsRecord → List (Round P)
  turns_of domains rules records =
      rounds (by_zone domains []) rules
        (gather applying composes hexdigest (by_zone domains []) rules records
          (record { refusals = []; hostnames = [] })).hostnames

  -- For at most 998 groups of hostnames the derivation answers: no name runs out, and no lookup
  -- fails.
  pub derive_total :
      (domains : List (Domain P)) (rules : List (Rule O)) (records : List DnsRecord)
      → length (turns_of domains rules records) ≤ 998
      → (answer : List (CdnSite P) × List (UnservableHost R)) × (derive applying composes hexdigest
            domains rules records
          ≡ some answer)
  unfolding derive finished
  derive_total domains rules records few =
      let g : Gathered R =
        gather applying composes hexdigest (by_zone domains []) rules records
          (record { refusals = []; hostnames = [] }) in
      let (final, e) =
        add_rounds_total rules g.hostnames (by_zone domains []) (turns_of domains rules records)
          (record { hosts = []; used = []; refusals = g.refusals })
          (rounds-IsGrounded rules g.hostnames (by_zone domains []) (by_zone domains [])
            (by_zone-Listed domains))
          (omega arith) in
      ((final.hosts, refused final.refusals), rw e refl)
