-- ===== src/Dns/Hosts/Turns.antt =====
-- The loop over the groups of dns/domain/hosts.py, turn by turn: what a predicate needs for each
-- turn, so that it holds behind all turns.
use blitze_cdn_cp.Prelude.{
  List, [], ◌∷◌, Memᴰ, Option, none, some, ◌≡◌, refl, subst, sym, Dict, lookup, of_some, All,
  All-of, list_eq, nat_eq,
}
use blitze_cdn_cp.Dns.Texts.{Text}
use blitze_cdn_cp.Dns.Rules.{Checked, Rule}
use blitze_cdn_cp.Dns.Groups.{HostKey, host_key_eq, Round}
use blitze_cdn_cp.Dns.Hosts.{Derivation, add_names, key_of, add_rounds}

module _ {P O R : Type 0} (applying : P → O → Checked R P)
    (composes : P → Text → List Text → Text → Option R) (hexdigest : Text → Text)
    (rules : List (Rule O)) (d : Dict HostKey (List Text)) where
  -- One turn goes from this state to that, with the names that it looks up.
  abbrev pub Turn : Round P → Derivation P R → Derivation P R → Type 0
  Turn round st st' =
      (names : List Text) × (lookup (key_of applying composes hexdigest round) d ≡ some names)
      × (add_names applying composes hexdigest rules round (some names) st ≡ some st')

  add_names-Turn :
      (round : Round P) (found : Option (List Text)) (st st' : Derivation P R)
      → lookup (key_of applying composes hexdigest round) d ≡ found
      → add_names applying composes hexdigest rules round found st ≡ some st'
      → Turn round st st'
  unfolding add_names
  add_names-Turn round none st st' at e = absurd (cc e)
  add_names-Turn round (some names) st st' at e = (names, at, e)

  -- Turns that end begin with one that ends.
  pub add_rounds-Turn :
      (round : Round P) (more : List (Round P)) (st final : Derivation P R)
      → add_rounds applying composes hexdigest rules d (round ∷ more) st ≡ some final
      → (st' : Derivation P R) × Turn round st st'
        × (add_rounds applying composes hexdigest rules d more st' ≡ some final)
  unfolding add_rounds
  add_rounds-Turn round more st final e = go _ refl e
    where
      go :
          (answer : Option (Derivation P R))
          → add_names applying composes hexdigest rules round
              (lookup (key_of applying composes hexdigest round) d)
              st
            ≡ answer
          → (elim answer as (λ _. Option (Derivation P R)) [
            | none ↦ none
            | some st' ↦ add_rounds applying composes hexdigest rules d more st'
          ])
            ≡ some final
          → (st' : Derivation P R) × Turn round st st'
            × (add_rounds applying composes hexdigest rules d more st' ≡ some final)
      go none h k = absurd (cc k)
      go (some st') h k = (st', add_names-Turn round _ st st' refl h, k)

  -- What each turn of a kind keeps, the turns of this kind keep.
  pub add_rounds_keep_all :
      (G : Round P → Type 0) (I : Derivation P R → Type 0)
      → ((round : Round P) (st st' : Derivation P R) → G round → Turn round st st' → I st → I st')
      → (turns : List (Round P)) (st final : Derivation P R) → All G turns
      → add_rounds applying composes hexdigest rules d turns st ≡ some final
      → I st
      → I final
  unfolding add_rounds
  add_rounds_keep_all G I keep [] st final g e h = subst I (of_some e) h
  add_rounds_keep_all G I keep (round ∷ more) st final g e h =
      let (st', turn, rest) = add_rounds-Turn round more st final e in
      add_rounds_keep_all G I keep more st' final g.1 rest (keep round st st' g.0 turn h)

  pub add_rounds_keep :
      (I : Derivation P R → Type 0)
      → ((round : Round P) (st st' : Derivation P R) → Turn round st st' → I st → I st')
      → (turns : List (Round P)) (st final : Derivation P R)
      → add_rounds applying composes hexdigest rules d turns st ≡ some final
      → I st
      → I final
  add_rounds_keep I keep turns st final e h =
      add_rounds_keep_all (λ _. Unit {0}) I (λ round s s' _. keep round s s') turns st final
        (All-of _ turns (λ _ _. tt)) e h

  -- What one turn establishes and each turn keeps, holds behind turns with this one among them.
  pub add_rounds_establish :
      (I : Derivation P R → Type 0) (round : Round P)
      → ((st st' : Derivation P R) → Turn round st st' → I st')
      → ((r : Round P) (st st' : Derivation P R) → Turn r st st' → I st → I st')
      → (turns : List (Round P)) (st final : Derivation P R) → Memᴰ round turns
      → add_rounds applying composes hexdigest rules d turns st ≡ some final
      → I final
  add_rounds_establish I round made keep [] st final m e = elim m [ ]
  add_rounds_establish I round made keep (r ∷ more) st final (Memᴰ.head same) e =
      let (st', turn, rest) = add_rounds-Turn r more st final e in
      add_rounds_keep I keep more st' final rest
        (made st st' (subst (λ z. Turn z st st') (sym same) turn))
  add_rounds_establish I round made keep (r ∷ more) st final (Memᴰ.tail m) e =
      let (st', turn, rest) = add_rounds-Turn r more st final e in
      add_rounds_establish I round made keep more st' final m rest
