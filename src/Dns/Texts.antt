-- ===== src/Dns/Texts.antt =====
-- Texts as the lists of their code points, and the methods of `str` that dns/domain calls. The
-- values are validated hostnames and names in ASCII, which `lower` and `strip` are written for.
use blitze_cdn_cp.Prelude.{
  ℕ, zero, suc, ◌+◌, ◌*◌, ◌-◌, ◌<◌, String, List, [], ◌∷◌, ◌++◌, Bool, true, false, ◌&&◌, ◌||◌, ltb,
  leb, ◌==◌, nat_eq, list_eq, if◌then◌else◌, ◌≡◌, refl, ap, arith, Option, none, some,
}
use Prim.Native.Char.{code}
use Prim.Native.Nat.{◌/◌, ◌%◌}
use mathlib.Core.List.{reverse}

abbrev pub Text : Type 0
Text = List ℕ

abbrev pub text : String → Text
text String.[] = []
text (String.◌∷◌ c s) = code c ∷ text s

unfoldable pub starts_with : Text → Text → Bool
starts_with s [] = true
starts_with [] (p ∷ ps) = false
starts_with (c ∷ s) (p ∷ ps) = c == p && starts_with s ps

unfoldable pub ends_with : Text → Text → Bool
ends_with [] suffix = [] == suffix
ends_with (c ∷ s) suffix = c ∷ s == suffix || ends_with s suffix

unfoldable pub remove_prefix : Text → Text → Option Text
remove_prefix s [] = some s
remove_prefix [] (p ∷ ps) = none
remove_prefix (c ∷ s) (p ∷ ps) = if c == p then remove_prefix s ps else none

-- s.replace(a, b) for single characters
unfoldable pub replace : ℕ → ℕ → Text → Text
replace a b [] = []
replace a b (c ∷ s) = (if c == a then b else c) ∷ replace a b s

lower_char : ℕ → ℕ
lower_char c = if leb b'A' c && leb c b'Z' then c + 32 else c

unfoldable pub lower : Text → Text
unfolding lower_char
lower [] = []
lower (c ∷ s) = lower_char c ∷ lower s

unfoldable pub strip_left : (ℕ → Bool) → Text → Text
strip_left p [] = []
strip_left p (c ∷ s) = if p c then strip_left p s else c ∷ s

unfoldable pub strip_right : (ℕ → Bool) → Text → Text
unfolding strip_left
strip_right p s = reverse (strip_left p (reverse s))

unfoldable pub is_space : ℕ → Bool
is_space c = c == 32 || (leb 9 c && leb c 13)

-- value.strip().lower().rstrip(".")
unfoldable pub normalized : Text → Text
unfolding strip_left strip_right is_space lower
normalized s = strip_right (λ c. c == b'.') (lower (strip_right is_space (strip_left is_space s)))

-- s <= t, the order by code points
unfoldable pub text_le : Text → Text → Bool
text_le [] t = true
text_le (c ∷ s) [] = false
text_le (c ∷ s) (d ∷ t) = ltb c d || (c == d && text_le s t)

-- str(n), on fuel; a number has no more digits than itself and one more.
digits : ℕ → ℕ → Text
digits zero n = []
digits (suc fuel) n =
    let rest = digits fuel (n / 10) in
    if ltb n 10 then (b'0' + n) ∷ [] else rest ++ (b'0' + n % 10) ∷ []

unfoldable pub decimal : ℕ → Text
unfolding digits
decimal n = digits (suc n) n

-- The number that a text of digits stands for.
value_from : ℕ → Text → ℕ
value_from acc [] = acc
value_from acc (c ∷ s) = value_from (acc * 10 + (c - b'0')) s

value_from-append :
    (s : Text) (acc c : ℕ) → value_from acc (s ++ c ∷ []) ≡ value_from acc s * 10 + (c - b'0')
unfolding value_from
value_from-append [] acc c = refl
value_from-append (d ∷ s) acc c = value_from-append s (acc * 10 + (d - b'0')) c

value-digits : (fuel n : ℕ) → n < fuel → value_from 0 (digits fuel n) ≡ n
unfolding value_from digits
value-digits zero n h = absurd (omega arith)
value-digits (suc fuel) n h =
    ground (
      arith,
      value_from-append (digits fuel (n / 10)) 0 (b'0' + n % 10),
      value-digits fuel (n / 10),
    )

-- Different numbers are written differently.
pub decimal-injective : (m n : ℕ) → decimal m ≡ decimal n → m ≡ n
unfolding decimal
decimal-injective m n h =
    omega (arith, value-digits (suc m) m, value-digits (suc n) n, ap (value_from 0) h)
