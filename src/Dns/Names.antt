-- ===== src/Dns/Names.antt =====
-- dns/domain/record.py, and the names of dns/domain/hosts.py: the hostname of a record, and the
-- name of a virtual host. The hexadecimal digest of SHA-1 is a parameter.
pub mod Unique
use Prim.Native.Nat.{◌/◌}
use blitze_cdn_cp.Prelude.{
  ℕ, zero, suc, ◌+◌, List, [], ◌∷◌, ◌++◌, take, length, Bool, false, not, ◌&&◌, ◌||◌, Option, none,
  some, ltb, leb, ◌==◌, nat_eq, list_eq, if◌then◌else◌,
}
use blitze_cdn_cp.Sql.{select_where}
use blitze_cdn_cp.Dns.Texts.{Text, text, replace, lower, strip_left, strip_right, decimal}

pub data RecordType : Type 0 where
  a aaaa : RecordType

pub record DnsRecord : Type 0 where
  pub domain : Text
  pub name : Text
  pub type : RecordType
  pub value : Text
  pub ttl : ℕ
  pub proxied : Bool

-- DnsRecord.fqdn
unfoldable pub fqdn : DnsRecord → Text
fqdn r = if r.name == text "@" then r.domain else r.name ++ b'.' ∷ r.domain

unfoldable pub host_name : Text → Option Text → Text
unfolding replace
host_name domain none = replace b'.' b'-' domain
host_name domain (some rule) = replace b'.' b'-' domain ++ text "--" ++ rule

abbrev slug_limit : ℕ
slug_limit = 40

abbrev slug_digest_bits : ℕ
slug_digest_bits = 16

is_slug_char : ℕ → Bool
is_slug_char c = (leb b'a' c && leb c b'z') || (leb b'0' c && leb c b'9')

-- re.sub(r"[^a-z0-9]+", "-", s): `inside` a run that has its dash already.
dashed : Bool → Text → Text
unfolding is_slug_char
dashed inside [] = []
dashed inside (c ∷ s) =
    let rest = dashed (not (is_slug_char c)) s in
    if is_slug_char c then c ∷ rest else if inside then rest else b'-' ∷ rest

-- `slug or "origin"`
or_origin : Text → Text
or_origin [] = text "origin"
or_origin (c ∷ s) = c ∷ s

unfoldable pub origin_slug : (Text → Text) → Text → Text
unfolding or_origin dashed lower strip_left strip_right
origin_slug hexdigest origin =
    let is_dash = λ (c : ℕ). c == b'-' in
    let slug = or_origin (strip_right is_dash (strip_left is_dash (dashed false (lower origin)))) in
    if ltb slug_limit (length slug)
    then take slug_limit slug ++ b'-' ∷ take (slug_digest_bits / 4) (hexdigest origin)
    else slug

unfoldable pub contains : List Text → Text → Bool
contains [] t = false
contains (s ∷ ss) t = s == t || contains ss t

-- The candidate with a counter behind it.
unfoldable pub alternative : Text → ℕ → Text
unfolding decimal
alternative candidate counter = candidate ++ b'-' ∷ decimal counter

-- The loop over `range(2, 1000)`, with the rounds that are left.
unfoldable pub next_alternative : ℕ → ℕ → Text → List Text → Option Text
unfolding contains alternative
next_alternative zero counter candidate used = none
next_alternative (suc rounds) counter candidate used =
    let rest = next_alternative rounds (counter + 1) candidate used in
    if contains used (alternative candidate counter)
    then rest
    else some (alternative candidate counter)

-- `none` is the ValueError.
unfoldable pub unique_name : Text → List Text → Option Text
unfolding next_alternative
unique_name candidate used =
    if contains used candidate then next_alternative 998 2 candidate used else some candidate

-- A list without its repetitions, in the order of first appearance: dict.fromkeys, or a set.
unfoldable pub distinct : List Text → List Text
unfolding contains
distinct [] = []
distinct (t ∷ ts) = t ∷ select_where (λ s. not (t == s)) (distinct ts)
