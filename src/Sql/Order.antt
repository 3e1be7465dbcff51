-- ===== src/Sql/Order.antt =====
-- ORDER BY: the same rows, and the first of them is least.
use blitze_cdn_cp.Prelude.{
  ℕ, zero, suc, take, Bool, true, false, List, [], ◌∷◌, Memᴰ, ◌≡◌, refl, sym, subst, ◌⊎◌, inl, inr,
  All, All-of, All-at, mem_of_take, length, ◌≤◌, arith, Pairwise, Bool-cases,
}
use blitze_cdn_cp.Sql.{insert_by, order_by}

-- A comparison that sorts: any two rows compare, and it is transitive.
pub record IsOrder {ℓ} {A : Type ℓ} (le : A → A → Bool) : Type ℓ where
  pub total : (a b : A) → le a b ≡ false → le b a ≡ true
  pub transitive : (a b c : A) → le a b ≡ true → le b c ≡ true → le a c ≡ true

module _ {ℓ} {A : Type ℓ} (le : A → A → Bool) where
  mem_of_insert_by :
      {x : A} (y : A) (xs : List A) → Memᴰ x (insert_by le y xs) → (x ≡ y) ⊎ Memᴰ x xs
  unfolding insert_by
  mem_of_insert_by y [] (Memᴰ.head e) = inl e
  mem_of_insert_by y [] (Memᴰ.tail m) = inr m
  mem_of_insert_by {x} y (z ∷ xs) m = elim (Bool-cases (le y z)) [
    | inl e ↦ front (rw e at m)
    | inr e ↦ behind (mem_of_insert_by y xs) (rw e at m)
  ]
    where
      front : Memᴰ x (y ∷ z ∷ xs) → (x ≡ y) ⊎ Memᴰ x (z ∷ xs)
      front (Memᴰ.head h) = inl h
      front (Memᴰ.tail h) = inr h

      behind :
          (Memᴰ x (insert_by le y xs) → (x ≡ y) ⊎ Memᴰ x xs)
          → Memᴰ x (z ∷ insert_by le y xs)
          → (x ≡ y) ⊎ Memᴰ x (z ∷ xs)
      behind ih (Memᴰ.head h) = inr (Memᴰ.head h)
      behind ih (Memᴰ.tail h) = elim (ih h) [ inl k ↦ inl k | inr k ↦ inr (Memᴰ.tail k) ]

  mem-insert_by_self : (y : A) (xs : List A) → Memᴰ y (insert_by le y xs)
  unfolding insert_by
  mem-insert_by_self y [] = Memᴰ.head refl
  mem-insert_by_self y (z ∷ xs) = elim (Bool-cases (le y z)) [
    | inl e ↦ rw e (Memᴰ.head refl)
    | inr e ↦ rw e (Memᴰ.tail (mem-insert_by_self y xs))
  ]

  mem-insert_by : {x : A} (y : A) (xs : List A) → Memᴰ x xs → Memᴰ x (insert_by le y xs)
  unfolding insert_by
  mem-insert_by y [] m = elim m [ ]
  mem-insert_by y (z ∷ xs) (Memᴰ.head h) = elim (Bool-cases (le y z)) [
    | inl e ↦ rw e (Memᴰ.tail (Memᴰ.head h))
    | inr e ↦ rw e (Memᴰ.head h)
  ]
  mem-insert_by y (z ∷ xs) (Memᴰ.tail m) = elim (Bool-cases (le y z)) [
    | inl e ↦ rw e (Memᴰ.tail (Memᴰ.tail m))
    | inr e ↦ rw e (Memᴰ.tail (mem-insert_by y xs m))
  ]

  pub mem_of_order_by : {x : A} (xs : List A) → Memᴰ x (order_by le xs) → Memᴰ x xs
  unfolding order_by
  mem_of_order_by [] m = m
  mem_of_order_by (y ∷ xs) m = elim (mem_of_insert_by y (order_by le xs) m) [
    | inl e ↦ Memᴰ.head e
    | inr k ↦ Memᴰ.tail (mem_of_order_by xs k)
  ]

  pub mem-order_by : {x : A} (xs : List A) → Memᴰ x xs → Memᴰ x (order_by le xs)
  unfolding order_by
  mem-order_by [] m = m
  mem-order_by (y ∷ xs) (Memᴰ.head e) =
      subst (λ z. Memᴰ z (order_by le (y ∷ xs))) (sym e) (mem-insert_by_self y (order_by le xs))
  mem-order_by (y ∷ xs) (Memᴰ.tail m) = mem-insert_by y (order_by le xs) (mem-order_by xs m)

  abbrev pub IsSorted : List A → Type 0
  IsSorted = Pairwise (λ a b. le a b ≡ true)

  module _ (order : IsOrder le) where
    insert_by-IsSorted : (y : A) (xs : List A) → IsSorted xs → IsSorted (insert_by le y xs)
    unfolding insert_by
    insert_by-IsSorted y [] h = (tt, tt)
    insert_by-IsSorted y (z ∷ xs) h = elim (Bool-cases (le y z)) [
      | inl e ↦ rw e (
        (e, All-of (λ b. le y b ≡ true) xs (λ b m. order.transitive y z b e (All-at _ xs h.0 m))),
        h,
      )
      | inr e ↦ rw e (
        All-of (λ b. le z b ≡ true) (insert_by le y xs)
            (λ b m. elim (mem_of_insert_by y xs m) [
              | inl same ↦ rw same (order.total y z e)
              | inr k ↦ All-at _ xs h.0 k
            ]),
        insert_by-IsSorted y xs h.1,
      )
    ]

    pub order_by-IsSorted : (xs : List A) → IsSorted (order_by le xs)
    unfolding order_by
    order_by-IsSorted [] = tt
    order_by-IsSorted (x ∷ xs) = insert_by-IsSorted x (order_by le xs) (order_by-IsSorted xs)

-- The first row of a sorted table comes before the others.
pub first-least {ℓ} :
    {A : Type ℓ} (le : A → A → Bool) {x y : A} {xs : List A}
    → IsSorted le (x ∷ xs)
    → Memᴰ y (x ∷ xs)
    → (y ≡ x) ⊎ (le x y ≡ true)
first-least le h (Memᴰ.head e) = inl e
first-least le {xs = xs} h (Memᴰ.tail m) = inr (All-at _ xs h.0 m)

-- In a sorted table what LIMIT keeps comes before what it drops.
pub sorted-take {ℓ} :
    {A : Type ℓ} (le : A → A → Bool) {x y : A} (n : ℕ) (xs : List A)
    → IsSorted le xs
    → Memᴰ x (take n xs)
    → Memᴰ y xs
    → Memᴰ y (take n xs) ⊎ (le x y ≡ true)
sorted-take le zero xs h m k = elim m [ ]
sorted-take le (suc n) [] h m k = inl k
sorted-take le (suc n) (z ∷ xs) h m (Memᴰ.head e) = inl (Memᴰ.head e)
sorted-take le {x} {y} (suc n) (z ∷ xs) h (Memᴰ.head e) (Memᴰ.tail k) =
    inr (subst (λ w. le w y ≡ true) (sym e) (All-at _ xs h.0 k))
sorted-take le (suc n) (z ∷ xs) h (Memᴰ.tail m) (Memᴰ.tail k) = elim (sorted-take le n xs h.1 m k) [
  | inl l ↦ inl (Memᴰ.tail l)
  | inr r ↦ inr r
]

-- What holds between any two rows, in either order, holds in any order of them.
module _ {ℓ} {A : Type ℓ} (R : A → A → Type ℓ) (symmetric : (x y : A) → R x y → R y x) where
  Pairwise-insert_by :
      (le : A → A → Bool) (x : A) (xs : List A)
      → All (R x) xs
      → Pairwise R xs
      → Pairwise R (insert_by le x xs)
  unfolding insert_by
  Pairwise-insert_by le x [] h k = (tt, tt)
  Pairwise-insert_by le x (y ∷ ys) h k = elim (Bool-cases (le x y)) [
    | inl e ↦ rw e (h, k)
    | inr e ↦ rw e (
      All-of (R y) (insert_by le x ys) (λ z m. behind z (mem_of_insert_by le x ys m)),
      Pairwise-insert_by le x ys h.1 k.1,
    )
  ]
    where
      behind : (z : A) → (z ≡ x) ⊎ Memᴰ z ys → R y z
      behind z (inl e) = subst (λ w. R y w) (sym e) (symmetric x y h.0)
      behind z (inr m) = All-at (R y) ys k.0 m

  pub Pairwise-order_by :
      (le : A → A → Bool) (xs : List A) → Pairwise R xs → Pairwise R (order_by le xs)
  unfolding order_by
  Pairwise-order_by le [] h = tt
  Pairwise-order_by le (x ∷ xs) h =
      Pairwise-insert_by le x (order_by le xs)
        (All-of (R x) (order_by le xs) (λ z m. All-at (R x) xs h.0 (mem_of_order_by le xs m)))
        (Pairwise-order_by le xs h.1)

pub Pairwise-take {ℓ} :
    {A : Type ℓ} (R : A → A → Type ℓ) (n : ℕ) (xs : List A) → Pairwise R xs → Pairwise R (take n xs)
Pairwise-take R zero xs h = tt
Pairwise-take R (suc n) [] h = tt
Pairwise-take R (suc n) (x ∷ xs) h = (
  All-of (R x) (take n xs) (λ z m. All-at (R x) xs h.0 (mem_of_take n xs m)),
  Pairwise-take R n xs h.1,
)

-- A row that is not taken leaves the full number taken.
pub take-full {ℓ} :
    {A : Type ℓ} {x : A} (n : ℕ) (xs : List A)
    → Memᴰ x xs
    → ¬ Memᴰ x (take n xs)
    → n ≤ length (take n xs)
take-full zero xs m out = omega arith
take-full (suc n) [] m out = absurd (out m)
take-full (suc n) (y ∷ xs) (Memᴰ.head e) out = absurd (out (Memᴰ.head e))
take-full (suc n) (y ∷ xs) (Memᴰ.tail m) out =
    omega (arith, take-full n xs m (λ k. out (Memᴰ.tail k)))
