-- ===== src/Dns/Rules.antt =====
-- dns/domain/rule.py and resolution.py: which rule of a zone decides for a hostname, and the policy
-- that comes of it. The policy of a virtual host, the overrides of a rule and the reasons of a
-- refusal are parameters, and so is `applying`, which validates what it merges.
pub mod Match
pub mod FirstMatch
use blitze_cdn_cp.Prelude.{
  ℕ, List, [], ◌∷◌, ◌++◌, Bool, true, false, ◌&&◌, ◌||◌, Option, none, some, ltb, ◌==◌, nat_eq,
  list_eq, if◌then◌else◌,
}
use blitze_cdn_cp.Sql.{order_by}
use blitze_cdn_cp.Dns.Texts.{Text, text, normalized, ends_with, remove_prefix, text_le}

-- What the validation of a model answers: the value, or the reason of the ValidationError.
pub data Checked (R A : Type 0) : Type 0 where
  valid : A → Checked R A
  invalid : R → Checked R A

-- A zone. `P` is the type of its policy.
pub record Domain (P : Type 0) : Type 0 where
  pub name : Text
  pub policy : P

pub record Rule (O : Type 0) : Type 0 where
  pub domain : Text
  pub name : Text
  pub priority : ℕ
  pub match : Text
  pub overrides : O
  pub enabled : Bool

-- ResolvedPolicy, without the hostname that was asked for.
pub record ResolvedPolicy (P : Type 0) : Type 0 where
  pub policy : Domain P
  pub rule : Option Text

-- candidate == domain or candidate.endswith(f".{domain}")
unfoldable pub is_inside : Text → Text → Bool
unfolding ends_with
is_inside domain candidate = candidate == domain || ends_with candidate (b'.' ∷ domain)

or_else : Option Text → Text → Text
or_else none s = s
or_else (some t) s = t

-- match.removeprefix("*.")
unfoldable pub match_target : Text → Text
unfolding remove_prefix or_else
match_target match = or_else (remove_prefix match (text "*.")) match

-- validate_match_is_inside_the_zone
unfoldable pub match_is_inside : {O : Type 0} → Rule O → Bool
unfolding match_target is_inside
match_is_inside rule = rule.match == text "*" || is_inside rule.domain (match_target rule.match)

covers : {O : Type 0} → Rule O → Option Text → Text → Bool
unfolding is_inside
covers rule (some suffix) candidate = ends_with candidate (b'.' ∷ suffix)
covers rule none candidate = candidate == rule.match

-- Rule.matches
unfoldable pub matches : {O : Type 0} → Rule O → Text → Bool
unfolding covers is_inside remove_prefix normalized
matches rule fqdn =
    rule.enabled
    && (if rule.match == text "*"
        then is_inside rule.domain (normalized fqdn)
        else covers rule (remove_prefix rule.match (text "*.")) (normalized fqdn))

-- Rule.order: by priority, then by name.
unfoldable pub order_le : {O : Type 0} → Rule O → Rule O → Bool
unfolding text_le
order_le a b = ltb a.priority b.priority || (a.priority == b.priority && text_le a.name b.name)

module _ {P O R : Type 0} (applying : P → O → Checked R P) where
  unfoldable pub merged : Domain P → Rule O → Checked R P → Checked R (ResolvedPolicy P)
  merged zone rule (valid policy) =
      valid
        (record { policy = record { name = zone.name; policy = policy }; rule = some rule.name })
  merged zone rule (invalid reason) = invalid reason

  -- The loop over the sorted rules.
  unfoldable pub first_match : Domain P → List (Rule O) → Text → Checked R (ResolvedPolicy P)
  unfolding matches merged
  first_match zone [] fqdn = valid (record { policy = zone; rule = none })
  first_match zone (rule ∷ rules) fqdn =
      if matches rule fqdn
      then merged zone rule (applying zone.policy rule.overrides)
      else first_match zone rules fqdn

  unfoldable pub resolve_policy : Domain P → List (Rule O) → Text → Checked R (ResolvedPolicy P)
  unfolding first_match order_le
  resolve_policy zone rules fqdn = first_match zone (order_by order_le rules) fqdn
