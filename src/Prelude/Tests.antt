-- ===== src/Prelude/Tests.antt =====
-- Boolean tests, the conditional, and equality of the types that the program compares.
use Prim.Native.Nat.{ℕ, ◌≤◌, ◌<◌, compare, Ordering}
use Prim.Native.String.{String}
use mathlib.Core.Path.{◌≡◌, refl}
use mathlib.Core.Logic.{◌⊎◌, inl, inr}
use mathlib.Core.Bool.{Bool, true, false}
use mathlib.Core.Option.{Option, none, some}
use native.Mathlib.Omega.{arith}
use text.Mathlib.Text.{◌==◌ as str_eq}
use text.Mathlib.TextEquality.{eq_iff}

abbrev pub ltb : ℕ → ℕ → Bool
ltb a b = elim (compare a b) [ Ordering.lt ↦ true | _ ↦ false ]

abbrev pub leb : ℕ → ℕ → Bool
leb a b = elim (compare a b) [ Ordering.gt ↦ false | _ ↦ true ]

abbrev nat_beq : ℕ → ℕ → Bool
nat_beq a b = elim (compare a b) [ Ordering.eq ↦ true | _ ↦ false ]

infix 1 if◌then◌else◌
abbrev pub if◌then◌else◌ {ℓ} : {A : Type ℓ} → Bool → A → A → A
if true then x else y = x
if false then x else y = y

-- A type whose values the program compares: the test, that it finds only equal values, and that it
-- finds each value equal to itself.
pub record HasEq {ℓ} (A : Type ℓ) : Type ℓ where
  pub test : A → A → Bool
  pub sound : (x y : A) → test x y ≡ true → x ≡ y
  pub reflexive : (x : A) → test x x ≡ true

infix 50 ◌==◌
abbrev pub ◌==◌ {ℓ} : {A : Type ℓ} ⦃has : HasEq A⦄ → A → A → Bool
◌==◌ ⦃has⦄ x y = has.test x y

pub nat_beq_sound : (m n : ℕ) → nat_beq m n ≡ true → m ≡ n
nat_beq_sound m n h = ground arith

pub nat_beq_reflexive : (n : ℕ) → nat_beq n n ≡ true
nat_beq_reflexive n = ground arith

instance abbrev pub nat_eq : HasEq ℕ
nat_eq = record { test = nat_beq; sound = nat_beq_sound; reflexive = nat_beq_reflexive }

pub str_eq_sound : (s t : String) → str_eq s t ≡ true → s ≡ t
str_eq_sound s t = (eq_iff s t).0

pub str_eq_reflexive : (s : String) → str_eq s s ≡ true
str_eq_reflexive s = (eq_iff s s).1 refl

instance abbrev pub string_eq : HasEq String
string_eq = record { test = str_eq; sound = str_eq_sound; reflexive = str_eq_reflexive }

pub ltb→lt : (a b : ℕ) → ltb a b ≡ true → a < b
ltb→lt a b h = ground arith

pub leb→le : (a b : ℕ) → leb a b ≡ true → a ≤ b
leb→le a b h = ground arith

pub le→leb : (a b : ℕ) → a ≤ b → leb a b ≡ true
le→leb a b h = ground arith

-- To split on a computed value and keep the equation.
pub Bool-cases : (b : Bool) → (b ≡ true) ⊎ (b ≡ false)
Bool-cases true = inl refl
Bool-cases false = inr refl

pub Option-cases {ℓ} : {A : Type ℓ} (o : Option A) → (o ≡ none) ⊎ ((a : A) × (o ≡ some a))
Option-cases none = inl refl
Option-cases (some a) = inr (a, refl)

pub of_some {ℓ} : {A : Type ℓ} {x y : A} → some x ≡ some y → x ≡ y
of_some h = cc
