-- ===== src/Dns/Rules/Match.antt =====
-- The hostnames that the match of a rule covers (dns/domain/rule.py).
use blitze_cdn_cp.Prelude.{
  [], ◌∷◌, ◌++◌, Bool, true, false, ◌||◌, Option, none, some, ◌==◌, nat_eq, list_eq, ◌≡◌, refl,
  subst, inl, inr, Bool-cases, both, ap, list_beq_sound, list_beq_reflexive,
}
use mathlib.Core.List.{append_assoc}
use blitze_cdn_cp.Dns.Texts.{Text, text, normalized, ends_with, remove_prefix}
use blitze_cdn_cp.Dns.Rules.{
  Rule, matches, match_is_inside, is_inside, covers, match_target, or_else,
}

-- A text that ends with this suffix is something before it.
abbrev Ending : Text → Text → Type 0
Ending s suffix = (front : Text) × (s ≡ front ++ suffix)

ends_with-Ending : (s suffix : Text) → ends_with s suffix ≡ true → Ending s suffix
unfolding ends_with
ends_with-Ending [] suffix h = ([], list_beq_sound [] suffix h)
ends_with-Ending (c ∷ s) suffix h = elim (Bool-cases (c ∷ s == suffix)) [
  | inl e ↦ ([], list_beq_sound (c ∷ s) suffix e)
  | inr e ↦
      let (front, same) = ends_with-Ending s suffix (rw e at h) in (c ∷ front, ap (◌∷◌ c) same)
]

Ending-ends_with : (front suffix : Text) → ends_with (front ++ suffix) suffix ≡ true
unfolding ends_with
Ending-ends_with [] [] = refl
Ending-ends_with [] (c ∷ s) = rw (list_beq_reflexive (c ∷ s)) refl
Ending-ends_with (c ∷ front) suffix = elim (Bool-cases (c ∷ (front ++ suffix) == suffix)) [
  | inl e ↦ rw e refl
  | inr e ↦ rw e (Ending-ends_with front suffix)
]

-- Behind a dot, what ends with a hostname inside the zone is inside the zone.
below_inside :
    (domain suffix candidate : Text)
    → is_inside domain suffix ≡ true
    → ends_with candidate (b'.' ∷ suffix) ≡ true
    → is_inside domain candidate ≡ true
unfolding is_inside
below_inside domain suffix candidate inside below = elim (Bool-cases (suffix == domain)) [
  | inl same ↦
      rw
        (subst (λ s. ends_with candidate (b'.' ∷ s) ≡ true) (list_beq_sound suffix domain same)
          below)
        (or_true (candidate == domain))
  | inr other ↦
      let (front, e) = ends_with-Ending candidate (b'.' ∷ suffix) below in
      let (front', e') = ends_with-Ending suffix (b'.' ∷ domain) (rw other at inside) in
      rw (regroup front front' e e', Ending-ends_with (front ++ b'.' ∷ front') (b'.' ∷ domain))
        (or_true _)
]
  where
    or_true : (b : Bool) → (b || true) ≡ true
    or_true true = refl
    or_true false = refl

    regroup :
        (front front' : Text)
        → candidate ≡ front ++ b'.' ∷ suffix
        → suffix ≡ front' ++ b'.' ∷ domain
        → candidate ≡ (front ++ b'.' ∷ front') ++ b'.' ∷ domain
    regroup front front' e e' = simp (e, e', append_assoc)

covers-is_inside :
    {O : Type 0} (rule : Rule O) (s : Option Text) (candidate : Text)
    → is_inside rule.domain (or_else s rule.match) ≡ true
    → covers rule s candidate ≡ true
    → is_inside rule.domain candidate ≡ true
unfolding covers or_else
covers-is_inside rule (some suffix) candidate inside h =
    below_inside rule.domain suffix candidate inside h
covers-is_inside rule none candidate inside h = rw (list_beq_sound candidate rule.match h) inside

-- A rule whose match was accepted for its zone covers a hostname only if it is enabled and the
-- hostname, in its normal form, is the zone or stands below it.
pub matches-is_inside :
    {O : Type 0} (rule : Rule O) (fqdn : Text)
    → match_is_inside rule ≡ true
    → matches rule fqdn ≡ true
    → (rule.enabled ≡ true) × (is_inside rule.domain (normalized fqdn) ≡ true)
unfolding matches match_is_inside match_target
matches-is_inside rule fqdn accepted h =
    let (enabled, hit) = both rule.enabled _ h in
    (
      enabled,
      elim (Bool-cases (rule.match == text "*")) [
        | inl all ↦ rw all at hit
        | inr part ↦
            covers-is_inside rule (remove_prefix rule.match (text "*.")) (normalized fqdn)
              (rw part at accepted) (rw part at hit)
      ],
    )
