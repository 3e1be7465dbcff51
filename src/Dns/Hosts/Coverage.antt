-- ===== src/Dns/Hosts/Coverage.antt =====
-- Which proxied hostnames the derivation of dns/domain/hosts.py serves or reports.
use blitze_cdn_cp.Prelude.{
  List, [], ◌∷◌, Memᴰ, true, Option, none, some, ◌≡◌, refl, sym, subst, ap, ◌∙◌, ◌⊎◌, inl, inr,
  Dict, lookup, lookup-insert_self, mem_of_lookup, mem-map, mem-append_left, mem-append_right,
  of_some, list_eq, nat_eq,
}
use blitze_cdn_cp.Sql.Order.{mem-order_by}
use blitze_cdn_cp.Dns.Texts.{Text, normalized}
use blitze_cdn_cp.Dns.Names.{DnsRecord, fqdn, distinct}
use blitze_cdn_cp.Dns.Rules.{Checked, valid, invalid, Domain, Rule}
use blitze_cdn_cp.Dns.Groups.{HostKey, host_key_eq, Round, by_zone, rounds}
use blitze_cdn_cp.Dns.Groups.Entries.{
  Has, insert-Has, rounds-HasTurn, by_zone_named, by_zone-Has, mem-distinct,
}
use blitze_cdn_cp.Dns.Hosts.{
  RefusalKey, refusal_key_eq, refusal_le, unservable, refused, CdnSite, UnservableHost, Derivation,
  Gathered, gather, refuse, add_composed, add_site, add_named, add_names, key_of, add_rounds,
  finished, derive,
}
use blitze_cdn_cp.Dns.Hosts.Gathering.{Filed, gather-Filed}
use blitze_cdn_cp.Dns.Hosts.Turns.{Turn, add_rounds_keep, add_rounds_establish}

-- Some host serves this hostname from this origin: stripped, in lower case, without dots behind.
abbrev pub IsServed : {P : Type 0} → Text → Text → List (CdnSite P) → Type 0
IsServed {P} name origin hosts =
    (h : CdnSite P) × Memᴰ h hosts × Memᴰ name h.server_names × (h.origin_host ≡ normalized origin)

-- Some refusal names this hostname.
abbrev pub IsReported : {R : Type 0} → Text → List (UnservableHost R) → Type 0
IsReported {R} name refusals = (u : UnservableHost R) × Memᴰ u refusals × Memᴰ name u.hostnames

abbrev HasRefusal : {R : Type 0} → Text → Dict RefusalKey R → Type 0
HasRefusal name refusals = (key : RefusalKey) × Memᴰ name key.hostnames × Has key refusals

module _ {P R : Type 0} where
  -- The state has the hostname, served or refused.
  abbrev Covers : Text → Text → Derivation P R → Type 0
  Covers name origin st = IsServed name origin st.hosts ⊎ HasRefusal name st.refusals

  -- What one state covers, the other covers.
  abbrev Grows : Derivation P R → Derivation P R → Type 0
  Grows st st' = (name origin : Text) → Covers name origin st → Covers name origin st'

  module _ {O : Type 0} (applying : P → O → Checked R P)
      (composes : P → Text → List Text → Text → Option R) (hexdigest : Text → Text) where
    refuse-Grows :
        (name : Text) (server_names : List Text) (reason : R) (st : Derivation P R)
        → Grows st (refuse applying composes hexdigest name server_names reason st)
    unfolding refuse
    refuse-Grows name server_names reason st n o (inl served) = inl served
    refuse-Grows name server_names reason st n o (inr (key, m, has)) =
        inr (key, m, insert-Has key _ reason st.refusals has)

    refuse-Covers :
        (name : Text) (server_names : List Text) (reason : R) (st : Derivation P R)
        (n origin : Text)
        → Memᴰ n server_names
        → Covers n origin (refuse applying composes hexdigest name server_names reason st)
    unfolding refuse
    refuse-Covers name server_names reason st n origin m =
        inr (_, m, (reason, lookup-insert_self _ reason st.refusals))

    add_composed-Grows :
        (name : Text) (server_names : List Text) (origin : Text) (policy : P) (answer : Option R)
        (st : Derivation P R)
        → Grows st
            (add_composed applying composes hexdigest name server_names origin policy answer st)
    unfolding add_composed
    add_composed-Grows name server_names origin policy none st n o (inl (h, m, k, e)) =
        inl (h, mem-append_left st.hosts _ m, k, e)
    add_composed-Grows name server_names origin policy none st n o (inr refusal) = inr refusal
    add_composed-Grows name server_names origin policy (some reason) st n o c =
        refuse-Grows name server_names reason st n o c

    add_composed-Covers :
        (name : Text) (server_names : List Text) (origin : Text) (policy : P) (answer : Option R)
        (st : Derivation P R) (n : Text)
        → Memᴰ n server_names
        → Covers n origin
            (add_composed applying composes hexdigest name server_names origin policy answer st)
    unfolding add_composed
    add_composed-Covers name server_names origin policy none st n m =
        inl (_, mem-append_right st.hosts _ (Memᴰ.head refl), m, refl)
    add_composed-Covers name server_names origin policy (some reason) st n m =
        refuse-Covers name server_names reason st n origin m

    -- A turn that ends keeps what was covered, and covers the names that it was given.
    abbrev Turned : List Text → Text → Derivation P R → Option (Derivation P R) → Type 0
    Turned names origin st answer =
        (st' : Derivation P R)
        → answer ≡ some st'
        → Grows st st' × ((n : Text) → Memᴰ n names → Covers n origin st')

    add_site-Turned :
        (name : Text) (server_names : List Text) (origin : Text) (policy : Option (Checked R P))
        (st : Derivation P R)
        → Turned server_names origin st
            (add_site applying composes hexdigest name server_names origin policy st)
    unfolding add_site
    add_site-Turned name server_names origin none st st' e = absurd (cc e)
    add_site-Turned name server_names origin (some (valid policy)) st st' e =
        subst (λ z. Grows st z × ((n : Text) → Memᴰ n server_names → Covers n origin z)) (of_some e)
          (
            add_composed-Grows name server_names origin policy _ st,
            add_composed-Covers name server_names origin policy _ st,
          )
    add_site-Turned name server_names origin (some (invalid reason)) st st' e =
        subst (λ z. Grows st z × ((n : Text) → Memᴰ n server_names → Covers n origin z)) (of_some e)
          (
            refuse-Grows name server_names reason st,
            λ n m. refuse-Covers name server_names reason st n origin m,
          )

    add_named-Turned :
        (rules : List (Rule O)) (round : Round P) (names : List Text) (name : Option Text)
        (st : Derivation P R)
        → Turned names round.origin st
            (add_named applying composes hexdigest rules round names name st)
    unfolding add_named
    add_named-Turned rules round names none st st' e = absurd (cc e)
    add_named-Turned rules round names (some name) st st' e =
        let (grows, covers) =
          add_site-Turned name (distinct names) round.origin _ (record st { used = name ∷ st.used })
            st' e in
        (grows, λ n m. covers n (mem-distinct names m))

    nothing-Turned : (origin : Text) (st : Derivation P R) → Turned [] origin st (some st)
    nothing-Turned origin st st' e =
        subst (λ z. Grows st z × ((n : Text) → Memᴰ n [] → Covers n origin z)) (of_some e)
          ((λ n o c. c), (λ n m. elim m [ ]))

    add_names-Turned :
        (rules : List (Rule O)) (round : Round P) (names : List Text) (st : Derivation P R)
        → Turned names round.origin st
            (add_names applying composes hexdigest rules round (some names) st)
    unfolding add_names
    add_names-Turned rules round [] st = nothing-Turned round.origin st
    add_names-Turned rules round (m ∷ ms) st = add_named-Turned rules round (m ∷ ms) _ st

    -- The turn of a key leaves each hostname under the key covered.
    Turn-Covers :
        (rules : List (Rule O)) (d : Dict HostKey (List Text)) (round : Round P) {names : List Text}
        (name : Text) (st st' : Derivation P R)
        → lookup (key_of applying composes hexdigest round) d ≡ some names
        → Memᴰ name names
        → Turn applying composes hexdigest rules d round st st'
        → Covers name round.origin st'
    Turn-Covers rules d round name st st' at m (ns, found, e) =
        (add_names-Turned rules round ns st st' e).1 name
          (subst (λ z. Memᴰ name z) (of_some (sym at ∙ found)) m)

    Turn-Grows :
        (rules : List (Rule O)) (d : Dict HostKey (List Text)) (round : Round P)
        (st st' : Derivation P R)
        → Turn applying composes hexdigest rules d round st st'
        → Grows st st'
    Turn-Grows rules d round st st' (ns, found, e) = (add_names-Turned rules round ns st st' e).0

    refused-IsReported :
        (name : Text) (refusals : Dict RefusalKey R)
        → HasRefusal name refusals
        → IsReported name (refused refusals)
    unfolding refused
    refused-IsReported name refusals (key, m, (reason, found)) = (
      unservable (key, reason),
      mem-map unservable _ (mem-order_by refusal_le refusals (mem_of_lookup key refusals found)),
      m,
    )

    module _ (rules : List (Rule O)) (domains : List (Domain P)) (records : List DnsRecord) where
      abbrev gathered : Gathered R
      gathered =
          gather applying composes hexdigest (by_zone domains []) rules records
            (record { refusals = []; hostnames = [] })

      abbrev beginning : Derivation P R
      beginning = record { hosts = []; used = []; refusals = gathered.refusals }

      -- Behind all turns, what the loop over the records filed is covered.
      Filed-Covers :
          (zone : Domain P) (name value : Text) (final : Derivation P R)
          → lookup zone.name (by_zone domains []) ≡ some zone
          → Filed rules zone.name name value gathered
          → add_rounds applying composes hexdigest rules gathered.hostnames
              (rounds (by_zone domains []) rules gathered.hostnames)
              beginning
            ≡ some final
          → Covers name value final
      Filed-Covers zone name value final found (inl (rule, group, (names, at, m))) e =
          let (place, turn) =
            rounds-HasTurn (by_zone domains []) rules gathered.hostnames zone rule value found group
              at in
          add_rounds_establish applying composes hexdigest rules gathered.hostnames
            (Covers name value) _
            (λ st st' t. Turn-Covers rules gathered.hostnames _ name st st' at m t)
            (λ r st st' t. Turn-Grows rules gathered.hostnames r st st' t name value)
            (rounds (by_zone domains []) rules gathered.hostnames) beginning final turn e
      Filed-Covers zone name value final found (inr has) e =
          add_rounds_keep applying composes hexdigest rules gathered.hostnames (Covers name value)
            (λ r st st' t. Turn-Grows rules gathered.hostnames r st st' t name value)
            (rounds (by_zone domains []) rules gathered.hostnames) beginning final e
            (inr (_, Memᴰ.head refl, has))

      covered :
          (name value : Text) (answer : Option (Derivation P R)) (hosts : List (CdnSite P))
          (reported : List (UnservableHost R))
          → ((final : Derivation P R) → answer ≡ some final → Covers name value final)
          → finished applying composes hexdigest answer ≡ some (hosts, reported)
          → IsServed name value hosts ⊎ IsReported name reported
      unfolding finished
      covered name value none hosts reported h e = absurd (cc e)
      covered name value (some final) hosts reported h e = elim (h final refl) [
        | inl served ↦ inl (subst (IsServed name value) (ap (λ p. p.0) (of_some e)) served)
        | inr refusal ↦ inr (
            subst (IsReported name) (ap (λ p. p.1) (of_some e))
              (refused-IsReported name final.refusals refusal))
      ]

      -- When the derivation answers, each proxied record of a zone that is there has its hostname
      -- served from the record's value (stripped, in lower case, without dots behind), or reported
      -- with a reason why not.
      pub derive-covers :
          (r : DnsRecord) (zone : Domain P) (hosts : List (CdnSite P))
          (reported : List (UnservableHost R))
          → Memᴰ r records
          → r.proxied ≡ true
          → Memᴰ zone domains
          → r.domain ≡ zone.name
          → derive applying composes hexdigest domains rules records ≡ some (hosts, reported)
          → IsServed (fqdn r) r.value hosts ⊎ IsReported (fqdn r) reported
      unfolding derive
      derive-covers r zone hosts reported m proxied known same e =
          let (z, found) = by_zone-Has domains [] known in
          let named = by_zone_named domains found in
          covered (fqdn r) r.value _ hosts reported
            (λ final h.
              Filed-Covers z (fqdn r) r.value final (rw named found)
                (gather-Filed applying composes hexdigest (by_zone domains []) rules r z records _ m
                  proxied (rw same found))
                h)
            e
