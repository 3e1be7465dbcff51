-- ===== src/Jobs/Store/SingleFlight.antt =====
-- The partial unique index: no two unfinished jobs hold one key.
use blitze_cdn_cp.Prelude.{
  ℕ, String, Bool, true, false, Option, none, some, ◌≡◌, refl, sym, ◌⊎◌, inl, inr, arith, eq_iff,
  All, All-mono, All-of, Pairwise, Pairwise-snoc, Bool-cases, subst, if◌then◌else◌,
}
use blitze_cdn_cp.Sql.{update_where}
use blitze_cdn_cp.Sql.Laws.{Pairwise-update_where, unmatched_of_matches}
use blitze_cdn_cp.Jobs.Domain.{Job, Message, Payload, is_running, is_terminal}
use blitze_cdn_cp.Jobs.Store.{
  Jobs, same_key, in_flight, violates, enqueue, runnable, held, deferrable, leased, retired,
  completed, failing, deferred, renewed, abandon, claim,
}
use blitze_cdn_cp.Jobs.Store.ClaimLoop.{claim_rule, next_runnable-some}
use blitze_cdn_cp.Jobs.Store.Claiming.{fenced-id}
use blitze_cdn_cp.Jobs.Store.Keys.{UniqueIds, UniqueIds-eq, take_row_lem, abandon-UniqueIds}

-- If `a` is unfinished, `b` is not an unfinished job under its key.
abbrev pub Apart : Job → Job → Type 0
Apart a b = is_terminal a.status ≡ false → in_flight a.dedupe_key b ≡ false

abbrev pub SingleFlight : Jobs → Type 0
SingleFlight = Pairwise Apart

-- The new version of a row holds no key that the old one did not, and is unfinished only if the old one was.
abbrev pub Releases : Job → Job → Type 0
Releases r r' =
    (is_terminal r'.status ≡ false → is_terminal r.status ≡ false)
    × ((r'.dedupe_key ≡ r.dedupe_key) ⊎ (r'.dedupe_key ≡ none))

Releases-Apart : (a a' b b' : Job) → Releases a a' → Releases b b' → Apart a b → Apart a' b'
unfolding in_flight same_key
Releases-Apart a a' b b' f g h open_ = ground (arith, h (f.0 open_))

pub update_where-SingleFlight :
    (P : Job → Type 0) (p : Job → Bool) (f : Job → Job) (rows : Jobs)
    → ((r : Job) → P r → p r ≡ true → Releases r (f r))
    → All P rows
    → SingleFlight rows
    → SingleFlight (update_where p f rows)
update_where-SingleFlight P p f rows releases = Pairwise-update_where P Apart p f rows λ x y hx hy.
    Releases-Apart x (if p x then f x else x) y (if p y then f y else y) (version x (p x) refl hx)
      (version y (p y) refl hy)
  where
    version : (r : Job) (b : Bool) → p r ≡ b → P r → Releases r (if b then f r else r)
    version r true e h = releases r h e
    version r false e h = (λ o. o, inl refl)

held-open :
    (id : String) (fence : ℕ) (r : Job) → held id fence r ≡ true → is_terminal r.status ≡ false
unfolding held is_running is_terminal
held-open id fence r h = ground arith

runnable-open : (now : ℕ) (r : Job) → runnable now r ≡ true → is_terminal r.status ≡ false
unfolding runnable is_terminal
runnable-open now r h = ground arith

pub retired-Releases : (row : Job) (now : ℕ) (r : Job) → Releases r (retired row now r)
unfolding retired is_terminal
retired-Releases row now r = (λ e. cc e, inr refl)

module _ (id : String) (fence : ℕ) (r : Job) where
  pub completed-Releases : (now : ℕ) (result : Option Payload) → Releases r (completed now result r)
  unfolding completed is_terminal
  completed-Releases now result = (λ e. cc e, inr refl)

  pub failing-Releases :
      (now : ℕ) (error : Message) (retry_at : Option ℕ)
      → held id fence r ≡ true
      → Releases r (failing now error retry_at r)
  unfolding failing is_terminal
  failing-Releases now error none h = (λ e. cc e, inr refl)
  failing-Releases now error (some t) h = (λ _. held-open id fence r h, inl refl)

  pub deferred-Releases :
      (retry_at : ℕ) (error : Message)
      → deferrable id fence r ≡ true
      → Releases r (deferred fence retry_at error r)
  unfolding deferred deferrable
  deferred-Releases retry_at error h = (λ _. held-open id fence r (ground arith), inl refl)

  pub renewed-Releases : (until : ℕ) → Releases r (renewed until r)
  unfolding renewed
  renewed-Releases until = (λ o. o, inl refl)

same_key_sym : (a b : Option String) → same_key a b ≡ same_key b a
unfolding same_key
same_key_sym none none = refl
same_key_sym none (some k) = refl
same_key_sym (some k) none = refl
same_key_sym (some k) (some j) = ground (arith, eq_iff k j, eq_iff j k)

pub enqueue-SingleFlight :
    (row : Job) (rows : Jobs) → SingleFlight rows → SingleFlight (enqueue row rows).1
unfolding enqueue violates
enqueue-SingleFlight row rows h = elim (Bool-cases (violates row rows)) [
  | inl e ↦ rw (e, enqueue) h
  | inr e ↦
      rw (e, enqueue)
        (Pairwise-snoc Apart rows row h (
          All-mono (λ r. in_flight row.dedupe_key r ≡ false) (λ r. Apart r row) rows
            (λ r k. apart r k)
            (unmatched_of_matches (in_flight row.dedupe_key) rows (ground arith))))
]
  where
    apart : (r : Job) → in_flight row.dedupe_key r ≡ false → Apart r row
    apart r k o = ground (arith, same_key_sym r.dedupe_key row.dedupe_key)

pub claim-SingleFlight :
    (worker : String) (now lease : ℕ) (rows : Jobs)
    → UniqueIds rows
    → SingleFlight rows
    → SingleFlight (claim worker now lease rows).1
unfolding abandon leased
claim-SingleFlight worker now lease rows unique h =
    claim_rule worker now lease (λ t. UniqueIds t × SingleFlight t) (λ a. SingleFlight a.1)
      (λ row t i _ _. (
        abandon-UniqueIds row now t i.0,
        update_where-SingleFlight (λ _. Unit) _ _ t (λ r _ _. retired-Releases row now r)
            (All-of _ t (λ _ _. tt)) i.1,
      ))
      (λ t i _. i.1)
      (λ row t i found left.
        let (m, run, _) = next_runnable-some now t found in
        rw (take_row_lem worker now lease row t i.0 m) (
          update_where-SingleFlight (λ r. r.id ≡ row.id → r ≡ row) _ _ t
            (λ r k e. (
              λ _.
                  runnable-open now r
                    (subst (λ z. runnable now z ≡ true) (sym (k (fenced-id row r e))) run),
              inl refl,
            ))
            (All-of _ t (λ r k same. UniqueIds-eq t i.0 k m same)) i.1))
      rows (unique, h)
