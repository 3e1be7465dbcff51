-- ===== src/Dns/Hosts/OwnNames.antt =====
-- The names of the hosts that dns/domain/hosts.py derives.
use blitze_cdn_cp.Prelude.{
  List, [], ◌∷◌, ◌++◌, Memᴰ, false, Option, none, some, list_eq, nat_eq, ◌≡◌, refl, subst, ap, All,
  All-mono, All-append, Pairwise, Pairwise-snoc, Dict, of_some,
}
use blitze_cdn_cp.Dns.Texts.{Text}
use blitze_cdn_cp.Dns.Names.{DnsRecord, contains, distinct}
use blitze_cdn_cp.Dns.Names.Unique.{unique_name-new, mem-contains}
use blitze_cdn_cp.Dns.Rules.{Checked, valid, invalid, Domain, Rule}
use blitze_cdn_cp.Dns.Groups.{HostKey, host_key_eq, Round, by_zone, rounds}
use blitze_cdn_cp.Dns.Hosts.{
  CdnSite, UnservableHost, Gathered, Derivation, gather, refuse, add_composed, add_site, add_named,
  add_names, add_rounds, finished, derive, candidate_name,
}
use blitze_cdn_cp.Dns.Hosts.Turns.{Turn, add_rounds_keep}

module _ {P R : Type 0} where
  -- No two hosts have one name, and each name is in use.
  pub record OwnNames (st : Derivation P R) : Type 0 where
    pub distinct_names : Pairwise (λ a b. ¬ (a.name ≡ b.name)) st.hosts
    pub used_names : All (λ h. Memᴰ h.name st.used) st.hosts

  -- The same hosts, with more names in use.
  more_used :
      (st st' : Derivation P R)
      → st'.hosts ≡ st.hosts
      → ((n : Text) → Memᴰ n st.used → Memᴰ n st'.used)
      → OwnNames st
      → OwnNames st'
  more_used st st' same more own = record {
    distinct_names = rw same own.distinct_names;
    used_names = rw same (All-mono _ _ st.hosts (λ h m. more h.name m) own.used_names);
  }

  -- One host more, under a name that was not in use.
  one_more :
      (st : Derivation P R) (h : CdnSite P) (refusals : Dict _ R)
      → contains st.used h.name ≡ false
      → OwnNames st
      → OwnNames
          (record { hosts = st.hosts ++ h ∷ []; used = h.name ∷ st.used; refusals = refusals })
  one_more st h refusals free own = record {
    distinct_names = Pairwise-snoc _ st.hosts h own.distinct_names (
        All-mono _ _ st.hosts
          (λ g m same.
            absurd (cc (mem-contains st.used (subst (λ n. Memᴰ n st.used) same m), free)))
          own.used_names);
    used_names =
        All-append _ st.hosts (h ∷ []) (All-mono _ _ st.hosts (λ g m. Memᴰ.tail m) own.used_names)
          (Memᴰ.head refl, tt);
  }

  module _ {O : Type 0} (applying : P → O → Checked R P)
      (composes : P → Text → List Text → Text → Option R) (hexdigest : Text → Text) where
    add_site-OwnNames :
        (name : Text) (server_names : List Text) (origin : Text) (policy : Option (Checked R P))
        (st st' : Derivation P R)
        → contains st.used name ≡ false
        → OwnNames st
        → add_site applying composes hexdigest name server_names origin policy
            (record st { used = name ∷ st.used })
          ≡ some st'
        → OwnNames st'
    unfolding add_site
    add_site-OwnNames name server_names origin none st st' free own e = absurd (cc e)
    add_site-OwnNames name server_names origin (some (valid policy)) st st' free own e =
        subst OwnNames (of_some e) (added (composes policy name server_names origin))
      where
        added :
            (answer : Option R)
            → OwnNames (
                add_composed applying composes hexdigest name server_names origin policy answer
                  (record st { used = name ∷ st.used }))
        added none = unfold add_composed in (one_more st _ st.refusals free own)
        added (some reason) =
            unfold add_composed refuse in (more_used st _ refl (λ n m. Memᴰ.tail m) own)
    add_site-OwnNames name server_names origin (some (invalid reason)) st st' free own e =
        subst OwnNames (of_some e) (unfold refuse in (more_used st _ refl (λ n m. Memᴰ.tail m) own))

    add_named-OwnNames :
        (rules : List (Rule O)) (round : Round P) (names : List Text) (name : Option Text)
        (st st' : Derivation P R)
        → ((n : Text) → name ≡ some n → contains st.used n ≡ false)
        → OwnNames st
        → add_named applying composes hexdigest rules round names name st ≡ some st'
        → OwnNames st'
    unfolding add_named
    add_named-OwnNames rules round names none st st' free own e = absurd (cc e)
    add_named-OwnNames rules round names (some name) st st' free own e =
        add_site-OwnNames name (distinct names) round.origin _ st st' (free name refl) own e

    Turn-OwnNames :
        (rules : List (Rule O)) (d : Dict HostKey (List Text)) (round : Round P)
        (st st' : Derivation P R)
        → Turn applying composes hexdigest rules d round st st'
        → OwnNames st
        → OwnNames st'
    unfolding add_names
    Turn-OwnNames rules d round st st' ([], at, e) own = subst OwnNames (of_some e) own
    Turn-OwnNames rules d round st st' (n ∷ ns, at, e) own =
        add_named-OwnNames rules round (n ∷ ns) _ st st'
          (λ name given. unique_name-new (candidate_name hexdigest round) st.used name given) own e

    -- The hosts that the derivation answers have names of their own: a name is a directory of
    -- certificates.
    pub derive-distinct_names :
        (domains : List (Domain P)) (rules : List (Rule O)) (records : List DnsRecord)
        (hosts : List (CdnSite P)) (reported : List (UnservableHost R))
        → derive applying composes hexdigest domains rules records ≡ some (hosts, reported)
        → Pairwise (λ a b. ¬ (a.name ≡ b.name)) hosts
    unfolding derive
    derive-distinct_names domains rules records hosts reported e = go _ refl e
      where
        g : Gathered R
        g =
            gather applying composes hexdigest (by_zone domains []) rules records
              (record { refusals = []; hostnames = [] })

        go :
            (answer : Option (Derivation P R))
            → add_rounds applying composes hexdigest rules g.hostnames
                (rounds (by_zone domains []) rules g.hostnames)
                (record { hosts = []; used = []; refusals = g.refusals })
              ≡ answer
            → finished applying composes hexdigest answer ≡ some (hosts, reported)
            → Pairwise (λ a b. ¬ (a.name ≡ b.name)) hosts
        go none h k = absurd (unfold finished in (cc k))
        go (some final) h k =
            subst (λ hs. Pairwise (λ a b. ¬ (a.name ≡ b.name)) hs)
              (unfold finished in (ap (λ p. p.0) (of_some k)))
              (add_rounds_keep applying composes hexdigest rules g.hostnames OwnNames
                (Turn-OwnNames rules g.hostnames) _ _ final h
                (record { distinct_names = tt; used_names = tt })).distinct_names
