-- ===== src/Dns/Names/Unique.antt =====
-- The search for an unused name in dns/domain/hosts.py.
use blitze_cdn_cp.Prelude.{
  ℕ, zero, suc, ◌+◌, ◌<◌, List, [], ◌∷◌, ◌++◌, length, Memᴰ, true, false, Option, none, some, ◌==◌,
  list_eq, nat_eq, ◌≡◌, refl, sym, ap, ◌∙◌, inl, inr, Bool-cases, All, Pairwise, pigeonhole, arith,
  of_some,
}
use blitze_cdn_cp.Dns.Texts.{Text, decimal, decimal-injective}
use blitze_cdn_cp.Dns.Names.{contains, alternative, next_alternative, unique_name}

contains-mem : (used : List Text) (t : Text) → contains used t ≡ true → Memᴰ t used
unfolding contains
contains-mem [] t h = absurd (cc h)
contains-mem (s ∷ used) t h = elim (Bool-cases (s == t)) [
  | inl e ↦ Memᴰ.head (sym (list_eq.sound s t e))
  | inr e ↦ Memᴰ.tail (contains-mem used t (rw e at h))
]

pub mem-contains : (used : List Text) {t : Text} → Memᴰ t used → contains used t ≡ true
unfolding contains
mem-contains [] m = elim m [ ]
mem-contains (s ∷ used) {t} (Memᴰ.head e) = rw (e, list_eq.reflexive s) refl
mem-contains (s ∷ used) {t} (Memᴰ.tail m) = elim (Bool-cases (s == t)) [
  | inl e ↦ rw e refl
  | inr e ↦ rw e (mem-contains used m)
]

next_alternative-new :
    (rounds counter : ℕ) (candidate : Text) (used : List Text) (name : Text)
    → next_alternative rounds counter candidate used ≡ some name
    → contains used name ≡ false
unfolding next_alternative
next_alternative-new zero counter candidate used name e = absurd (cc e)
next_alternative-new (suc rounds) counter candidate used name e =
    elim (Bool-cases (contains used (alternative candidate counter))) [
      | inl taken ↦ next_alternative-new rounds (counter + 1) candidate used name (rw taken at e)
      | inr free ↦ ap (contains used) (sym (of_some (rw free at e))) ∙ free
    ]

-- A name that is given is not in use.
pub unique_name-new :
    (candidate : Text) (used : List Text) (name : Text)
    → unique_name candidate used ≡ some name
    → contains used name ≡ false
unfolding unique_name
unique_name-new candidate used name e = elim (Bool-cases (contains used candidate)) [
  | inl taken ↦ next_alternative-new 998 2 candidate used name (rw taken at e)
  | inr free ↦ ap (contains used) (sym (of_some (rw free at e))) ∙ free
]

alternatives : ℕ → ℕ → Text → List Text
alternatives zero counter candidate = []
alternatives (suc rounds) counter candidate =
    alternative candidate counter ∷ alternatives rounds (counter + 1) candidate

length-alternatives :
    (rounds counter : ℕ) (candidate : Text)
    → length (alternatives rounds counter candidate) ≡ rounds
unfolding alternatives
length-alternatives zero counter candidate = refl
length-alternatives (suc rounds) counter candidate =
    ap suc (length-alternatives rounds (counter + 1) candidate)

append_cancel : (xs ys zs : Text) → xs ++ ys ≡ xs ++ zs → ys ≡ zs
append_cancel [] ys zs h = h
append_cancel (x ∷ xs) ys zs h = append_cancel xs ys zs (cc h)

alternative-injective :
    (candidate : Text) (m n : ℕ) → alternative candidate m ≡ alternative candidate n → m ≡ n
unfolding alternative
alternative-injective candidate m n h =
    decimal-injective m n (cc (append_cancel candidate (b'-' ∷ decimal m) (b'-' ∷ decimal n) h))

alternatives-later :
    (candidate : Text) (first rounds counter : ℕ)
    → first < counter
    → All (λ t. ¬ (alternative candidate first ≡ t)) (alternatives rounds counter candidate)
unfolding alternatives
alternatives-later candidate first zero counter h = tt
alternatives-later candidate first (suc rounds) counter h = (
  (λ e. absurd (omega (arith, alternative-injective candidate first counter e))),
  alternatives-later candidate first rounds (counter + 1) (omega arith),
)

alternatives-distinct :
    (candidate : Text) (rounds counter : ℕ)
    → Pairwise (λ a b. ¬ (a ≡ b)) (alternatives rounds counter candidate)
unfolding alternatives
alternatives-distinct candidate zero counter = tt
alternatives-distinct candidate (suc rounds) counter = (
  alternatives-later candidate counter rounds (counter + 1) (omega arith),
  alternatives-distinct candidate rounds (counter + 1),
)

alternatives_taken :
    (rounds counter : ℕ) (candidate : Text) (used : List Text)
    → next_alternative rounds counter candidate used ≡ none
    → All (λ t. Memᴰ t used) (alternatives rounds counter candidate)
unfolding next_alternative alternatives
alternatives_taken zero counter candidate used e = tt
alternatives_taken (suc rounds) counter candidate used e =
    elim (Bool-cases (contains used (alternative candidate counter))) [
      | inl taken ↦ (
        contains-mem used (alternative candidate counter) taken,
        alternatives_taken rounds (counter + 1) candidate used (rw taken at e),
      )
      | inr free ↦ absurd (cc (rw free at e))
    ]

next_alternative_found :
    (rounds counter : ℕ) (candidate : Text) (used : List Text)
    → length used < rounds
    → (answer : Option Text) → next_alternative rounds counter candidate used ≡ answer
    → (name : Text) × (answer ≡ some name)
next_alternative_found rounds counter candidate used few none e = absurd (
    omega (
      arith,
      length-alternatives rounds counter candidate,
      pigeonhole (alternatives rounds counter candidate) used
          (alternatives-distinct candidate rounds counter)
          (alternatives_taken rounds counter candidate used e),
    ))
next_alternative_found rounds counter candidate used few (some name) e = (name, refl)

-- While fewer than 998 names are in use, every candidate gets one.
pub unique_name_found :
    (candidate : Text) (used : List Text)
    → length used < 998
    → (name : Text) × (unique_name candidate used ≡ some name)
unfolding unique_name
unique_name_found candidate used few = elim (Bool-cases (contains used candidate)) [
  | inl taken ↦ rw taken (next_alternative_found 998 2 candidate used few _ refl)
  | inr free ↦ (candidate, rw free refl)
]
