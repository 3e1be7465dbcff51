-- ===== src/Prelude/Lists.antt =====
-- Lists over the native numbers, and predicates on all elements or all pairs of a list.
use Prim.Native.Nat.{ℕ, zero, suc, ◌≤◌}
use mathlib.Core.Path.{◌≡◌, refl, subst, sym, ap, ◌∙◌}
use mathlib.Core.Logic.{◌⊎◌, inl, inr}
use mathlib.Core.List.{List, [], ◌∷◌, ◌++◌, Memᴰ, map}
use native.Mathlib.Omega.{arith}

module _ {ℓ} {A : Type ℓ} where
  abbrev pub length : List A → ℕ
  length [] = 0
  length (x ∷ xs) = suc (length xs)

  abbrev pub take : ℕ → List A → List A
  take zero xs = []
  take (suc n) [] = []
  take (suc n) (x ∷ xs) = x ∷ take n xs

  pub length-take : (n : ℕ) (xs : List A) → length (take n xs) ≤ n
  length-take zero xs = omega arith
  length-take (suc n) [] = omega arith
  length-take (suc n) (x ∷ xs) = omega (arith, length-take n xs)

  abbrev pub All {κ} : (A → Type κ) → List A → Type κ
  All P [] = Unit
  All P (x ∷ xs) = P x × All P xs

  -- Every element is related to each element behind it.
  abbrev pub Pairwise {κ} : (A → A → Type κ) → List A → Type κ
  Pairwise R [] = Unit
  Pairwise R (x ∷ xs) = All (R x) xs × Pairwise R xs

  pub All-at {κ} : (P : A → Type κ) {x : A} (xs : List A) → All P xs → Memᴰ x xs → P x
  All-at P [] h m = elim m [ ]
  All-at P (y ∷ xs) h (Memᴰ.head e) = subst P (sym e) h.0
  All-at P (y ∷ xs) h (Memᴰ.tail m) = All-at P xs h.1 m

  pub All-of {κ} : (P : A → Type κ) (xs : List A) → ((x : A) → Memᴰ x xs → P x) → All P xs
  All-of P [] f = tt
  All-of P (x ∷ xs) f = (f x (Memᴰ.head refl), All-of P xs (λ y m. f y (Memᴰ.tail m)))

  pub All-mono {κ μ} :
      (P : A → Type κ) (Q : A → Type μ) (xs : List A) → ((x : A) → P x → Q x) → All P xs → All Q xs
  All-mono P Q [] f h = tt
  All-mono P Q (x ∷ xs) f h = (f x h.0, All-mono P Q xs f h.1)

  pub All-both {κ μ} :
      (P : A → Type κ) (Q : A → Type μ) (xs : List A)
      → All P xs
      → All Q xs
      → All (λ x. P x × Q x) xs
  All-both P Q [] h k = tt
  All-both P Q (x ∷ xs) h k = ((h.0, k.0), All-both P Q xs h.1 k.1)

  pub Pairwise-snoc {κ} :
      (R : A → A → Type κ) (xs : List A) (y : A)
      → Pairwise R xs
      → All (λ x. R x y) xs
      → Pairwise R (xs ++ y ∷ [])
  Pairwise-snoc R [] y h k = (tt, tt)
  Pairwise-snoc R (x ∷ xs) y h k = (behind xs h.0, Pairwise-snoc R xs y h.1 k.1)
    where
      behind : (zs : List A) → All (R x) zs → All (R x) (zs ++ y ∷ [])
      behind [] hs = (k.0, tt)
      behind (z ∷ zs) hs = (hs.0, behind zs hs.1)

  pub All-snoc {κ} : (P : A → Type κ) (xs : List A) (y : A) → All P xs → P y → All P (xs ++ y ∷ [])
  All-snoc P [] y h k = (k, tt)
  All-snoc P (x ∷ xs) y h k = (h.0, All-snoc P xs y h.1 k)

  pub mem_of_take : (n : ℕ) {x : A} (xs : List A) → Memᴰ x (take n xs) → Memᴰ x xs
  mem_of_take zero xs m = elim m [ ]
  mem_of_take (suc n) [] m = m
  mem_of_take (suc n) (y ∷ xs) (Memᴰ.head e) = Memᴰ.head e
  mem_of_take (suc n) (y ∷ xs) (Memᴰ.tail m) = Memᴰ.tail (mem_of_take n xs m)

  pub All-append {κ} : (P : A → Type κ) (xs ys : List A) → All P xs → All P ys → All P (xs ++ ys)
  All-append P [] ys h k = k
  All-append P (x ∷ xs) ys h k = (h.0, All-append P xs ys h.1 k)

  pub Pairwise-append {κ} :
      (R : A → A → Type κ) (xs ys : List A)
      → Pairwise R xs
      → Pairwise R ys
      → ((x y : A) → Memᴰ x xs → Memᴰ y ys → R x y)
      → Pairwise R (xs ++ ys)
  Pairwise-append R [] ys h k across = k
  Pairwise-append R (x ∷ xs) ys h k across = (
    All-append (R x) xs ys h.0 (All-of (R x) ys (λ y m. across x y (Memᴰ.head refl) m)),
    Pairwise-append R xs ys h.1 k (λ z y m n. across z y (Memᴰ.tail m) n),
  )

  pub mem-append_left : {x : A} (xs ys : List A) → Memᴰ x xs → Memᴰ x (xs ++ ys)
  mem-append_left [] ys m = elim m [ ]
  mem-append_left (z ∷ xs) ys (Memᴰ.head e) = Memᴰ.head e
  mem-append_left (z ∷ xs) ys (Memᴰ.tail m) = Memᴰ.tail (mem-append_left xs ys m)

  pub mem-append_right : {x : A} (xs ys : List A) → Memᴰ x ys → Memᴰ x (xs ++ ys)
  mem-append_right [] ys m = m
  mem-append_right (z ∷ xs) ys m = Memᴰ.tail (mem-append_right xs ys m)

  pub mem_of_append : {x : A} (xs ys : List A) → Memᴰ x (xs ++ ys) → Memᴰ x xs ⊎ Memᴰ x ys
  mem_of_append [] ys m = inr m
  mem_of_append (z ∷ xs) ys (Memᴰ.head e) = inl (Memᴰ.head e)
  mem_of_append (z ∷ xs) ys (Memᴰ.tail m) = elim (mem_of_append xs ys m) [
    | inl l ↦ inl (Memᴰ.tail l)
    | inr r ↦ inr r
  ]

pub mem-map {ℓ κ} :
    {A : Type ℓ} {B : Type κ} (f : A → B) {x : A} (xs : List A) → Memᴰ x xs → Memᴰ (f x) (map f xs)
mem-map f [] m = elim m [ ]
mem-map f (y ∷ xs) (Memᴰ.head e) = Memᴰ.head (ap f e)
mem-map f (y ∷ xs) (Memᴰ.tail m) = Memᴰ.tail (mem-map f xs m)

pub mem_of_map {ℓ κ} :
    {A : Type ℓ} {B : Type κ} (f : A → B) {y : B} (xs : List A)
    → Memᴰ y (map f xs)
    → (x : A) × Memᴰ x xs × (y ≡ f x)
mem_of_map f [] m = elim m [ ]
mem_of_map f (x ∷ xs) (Memᴰ.head e) = (x, Memᴰ.head refl, e)
mem_of_map f (x ∷ xs) (Memᴰ.tail m) = let (z, k, e) = mem_of_map f xs m in (z, Memᴰ.tail k, e)

-- Distinct elements that all stand in a list are not more than the list has.
module _ {A : Type 0} where
  remove : {x : A} (ys : List A) → Memᴰ x ys → List A
  remove [] m = []
  remove (y ∷ ys) (Memᴰ.head e) = ys
  remove (y ∷ ys) (Memᴰ.tail m) = y ∷ remove ys m

  length-remove : {x : A} (ys : List A) (m : Memᴰ x ys) → length ys ≡ suc (length (remove ys m))
  unfolding remove
  length-remove [] m = elim m [ ]
  length-remove (y ∷ ys) (Memᴰ.head e) = refl
  length-remove (y ∷ ys) (Memᴰ.tail m) = ap suc (length-remove ys m)

  mem-remove :
      {x z : A} (ys : List A) (m : Memᴰ x ys) → Memᴰ z ys → ¬ (x ≡ z) → Memᴰ z (remove ys m)
  unfolding remove
  mem-remove [] m k different = elim m [ ]
  mem-remove (y ∷ ys) (Memᴰ.head e) (Memᴰ.head e') different = absurd (different (e ∙ sym e'))
  mem-remove (y ∷ ys) (Memᴰ.head e) (Memᴰ.tail k) different = k
  mem-remove (y ∷ ys) (Memᴰ.tail m) (Memᴰ.head e') different = Memᴰ.head e'
  mem-remove (y ∷ ys) (Memᴰ.tail m) (Memᴰ.tail k) different =
      Memᴰ.tail (mem-remove ys m k different)

  pub pigeonhole :
      (xs ys : List A)
      → Pairwise (λ a b. ¬ (a ≡ b)) xs
      → All (λ x. Memᴰ x ys) xs
      → length xs ≤ length ys
  pigeonhole [] ys d h = omega arith
  pigeonhole (x ∷ xs) ys d h = omega (
    arith,
    length-remove ys h.0,
    pigeonhole xs (remove ys h.0) d.1 (
        All-of (λ z. Memᴰ z (remove ys h.0)) xs
          (λ z m.
            mem-remove ys h.0 (All-at (λ w. Memᴰ w ys) xs h.1 m)
              (All-at (λ b. ¬ (x ≡ b)) xs d.0 m))),
  )
