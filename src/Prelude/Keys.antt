-- ===== src/Prelude/Keys.antt =====
-- Equality of lists and of optional values, from that of their elements.
use mathlib.Core.Path.{◌≡◌, refl, ap, ap₂}
use mathlib.Core.Bool.{Bool, true, false, ◌&&◌}
use mathlib.Core.Option.{Option, none, some}
use mathlib.Core.List.{List, [], ◌∷◌}
use blitze_cdn_cp.Prelude.Tests.{HasEq, ◌==◌}

-- Both halves of a conjunction of tests.
pub both : (a b : Bool) → (a && b) ≡ true → (a ≡ true) × (b ≡ true)
both true true h = (refl, refl)
both true false h = absurd (cc h)
both false b h = absurd (cc h)

abbrev pub bool_beq : Bool → Bool → Bool
bool_beq true b = b
bool_beq false true = false
bool_beq false false = true

pub bool_beq_sound : (a b : Bool) → bool_beq a b ≡ true → a ≡ b
bool_beq_sound true true h = refl
bool_beq_sound true false h = absurd (cc h)
bool_beq_sound false true h = absurd (cc h)
bool_beq_sound false false h = refl

pub bool_beq_reflexive : (a : Bool) → bool_beq a a ≡ true
bool_beq_reflexive true = refl
bool_beq_reflexive false = refl

instance abbrev pub bool_eq : HasEq Bool
bool_eq = record { test = bool_beq; sound = bool_beq_sound; reflexive = bool_beq_reflexive }

module _ {A : Type 0} ⦃has : HasEq A⦄ where
  abbrev pub list_beq : List A → List A → Bool
  list_beq [] [] = true
  list_beq [] (y ∷ ys) = false
  list_beq (x ∷ xs) [] = false
  list_beq (x ∷ xs) (y ∷ ys) = x == y && list_beq xs ys

  pub list_beq_sound : (xs ys : List A) → list_beq xs ys ≡ true → xs ≡ ys
  list_beq_sound [] [] h = refl
  list_beq_sound [] (y ∷ ys) h = absurd (cc h)
  list_beq_sound (x ∷ xs) [] h = absurd (cc h)
  list_beq_sound (x ∷ xs) (y ∷ ys) h =
      let (e, r) = both (x == y) (list_beq xs ys) h in
      ap₂ ◌∷◌ (has.sound x y e) (list_beq_sound xs ys r)

  pub list_beq_reflexive : (xs : List A) → list_beq xs xs ≡ true
  list_beq_reflexive [] = refl
  list_beq_reflexive (x ∷ xs) = rw (has.reflexive x) (list_beq_reflexive xs)

  abbrev pub option_beq : Option A → Option A → Bool
  option_beq none none = true
  option_beq none (some b) = false
  option_beq (some a) none = false
  option_beq (some a) (some b) = a == b

  pub option_beq_sound : (x y : Option A) → option_beq x y ≡ true → x ≡ y
  option_beq_sound none none h = refl
  option_beq_sound none (some b) h = absurd (cc h)
  option_beq_sound (some a) none h = absurd (cc h)
  option_beq_sound (some a) (some b) h = ap some (has.sound a b h)

  pub option_beq_reflexive : (x : Option A) → option_beq x x ≡ true
  option_beq_reflexive none = refl
  option_beq_reflexive (some a) = has.reflexive a

  instance abbrev pub list_eq : HasEq (List A)
  list_eq = record { test = list_beq; sound = list_beq_sound; reflexive = list_beq_reflexive }

  instance abbrev pub option_eq : HasEq (Option A)
  option_eq = record {
    test = option_beq;
    sound = option_beq_sound;
    reflexive = option_beq_reflexive;
  }
