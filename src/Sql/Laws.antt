-- ===== src/Sql/Laws.antt =====
-- What the statements of Sql.antt keep of a table.
use blitze_cdn_cp.Prelude.{
  ◌≤◌, ◌<◌, ◌++◌, Bool, true, false, List, [], ◌∷◌, Memᴰ, length, ◌≡◌, ◌⊎◌, inl, inr, refl, sym,
  subst, ap, if◌then◌else◌, some, arith, All, Pairwise, Bool-cases,
}
use blitze_cdn_cp.Sql.{select_where, update_where, rows_affected, matches, first_where}

module _ {ℓ} {A : Type ℓ} where
  pub All-select_where {κ} :
      (P : A → Type κ) (p : A → Bool) (xs : List A) → All P xs → All P (select_where p xs)
  unfolding select_where
  All-select_where P p [] h = tt
  All-select_where P p (x ∷ xs) h = elim (Bool-cases (p x)) [
    | inl e ↦ rw e (h.0, All-select_where P p xs h.1)
    | inr e ↦ rw e (All-select_where P p xs h.1)
  ]

  -- A selection meets its condition.
  pub select_where-All : (p : A → Bool) (xs : List A) → All (λ x. p x ≡ true) (select_where p xs)
  unfolding select_where
  select_where-All p [] = tt
  select_where-All p (x ∷ xs) = elim (Bool-cases (p x)) [
    | inl e ↦ rw e (e, select_where-All p xs)
    | inr e ↦ rw e (select_where-All p xs)
  ]

  pub mem-select_where :
      (p : A → Bool) {x : A} (xs : List A) → Memᴰ x xs → p x ≡ true → Memᴰ x (select_where p xs)
  unfolding select_where
  mem-select_where p [] m h = elim m [ ]
  mem-select_where p (y ∷ xs) (Memᴰ.head e) h = rw (subst (λ z. p z ≡ true) e h) (Memᴰ.head e)
  mem-select_where p (y ∷ xs) (Memᴰ.tail m) h = elim (Bool-cases (p y)) [
    | inl e ↦ rw e (Memᴰ.tail (mem-select_where p xs m h))
    | inr e ↦ rw e (mem-select_where p xs m h)
  ]

  mem-uncons : {x y : A} {xs : List A} → Memᴰ x (y ∷ xs) → (x ≡ y) ⊎ Memᴰ x xs
  mem-uncons (Memᴰ.head e) = inl e
  mem-uncons (Memᴰ.tail m) = inr m

  pub mem_of_select_where :
      (p : A → Bool) {x : A} (xs : List A) → Memᴰ x (select_where p xs) → Memᴰ x xs × (p x ≡ true)
  unfolding select_where
  mem_of_select_where p [] m = elim m [ ]
  mem_of_select_where p {x} (y ∷ xs) m = elim (Bool-cases (p y)) [
    | inl e ↦ elim (mem-uncons (rw e at m)) [
      | inl h ↦ (Memᴰ.head h, rw h e)
      | inr k ↦ later (mem_of_select_where p xs k)
    ]
    | inr e ↦ later (mem_of_select_where p xs (rw e at m))
  ]
    where
      later : Memᴰ x xs × (p x ≡ true) → Memᴰ x (y ∷ xs) × (p x ≡ true)
      later (k, e) = (Memᴰ.tail k, e)

  pub All-update_where {κ μ} :
      (P : A → Type κ) (Q : A → Type μ) (p : A → Bool) (f : A → A) (xs : List A)
      → ((x : A) → P x → p x ≡ true → Q (f x))
      → ((x : A) → P x → p x ≡ false → Q x)
      → All P xs
      → All Q (update_where p f xs)
  unfolding update_where
  All-update_where P Q p f [] hit miss h = tt
  All-update_where P Q p f (x ∷ xs) hit miss h =
      let rest = All-update_where P Q p f xs hit miss h.1 in
      elim (Bool-cases (p x)) [
        | inl e ↦ rw e (hit x h.0 e, rest)
        | inr e ↦ rw e (miss x h.0 e, rest)
      ]

  -- A relation between rows is kept by an update that keeps it from each row to its new version.
  pub Pairwise-update_where {κ μ} :
      (P : A → Type κ) (R : A → A → Type μ) (p : A → Bool) (f : A → A) (xs : List A)
      → ((x y : A) → P x → P y → R x y → R (if p x then f x else x) (if p y then f y else y))
      → All P xs
      → Pairwise R xs
      → Pairwise R (update_where p f xs)
  unfolding update_where
  Pairwise-update_where P R p f [] step h k = tt
  Pairwise-update_where P R p f (x ∷ xs) step h k =
      (related xs h.1 k.0, Pairwise-update_where P R p f xs step h.1 k.1)
    where
      related :
          (ys : List A)
          → All P ys
          → All (R x) ys
          → All (R (if p x then f x else x)) (update_where p f ys)
      related [] hs ks = tt
      related (y ∷ ys) hs ks = (step x y h.0 hs.0 ks.0, related ys hs.1 ks.1)

  pub Pairwise-select_where {κ} :
      (R : A → A → Type κ) (p : A → Bool) (xs : List A)
      → Pairwise R xs
      → Pairwise R (select_where p xs)
  unfolding select_where
  Pairwise-select_where R p [] k = tt
  Pairwise-select_where R p (x ∷ xs) k =
      let rest = Pairwise-select_where R p xs k.1 in
      elim (Bool-cases (p x)) [
        | inl e ↦ rw e (All-select_where (R x) p xs k.0, rest)
        | inr e ↦ rw e rest
      ]

  -- An update whose condition no row meets changes nothing.
  pub update_where_unmatched :
      (p : A → Bool) (f : A → A) (xs : List A)
      → All (λ x. p x ≡ false) xs
      → update_where p f xs ≡ xs
  unfolding update_where
  update_where_unmatched p f [] h = refl
  update_where_unmatched p f (x ∷ xs) h = rw (h.0, update_where_unmatched p f xs h.1)

  pub matches_unmatched :
      (p : A → Bool) (xs : List A) → All (λ x. p x ≡ false) xs → matches p xs ≡ false
  unfolding matches
  matches_unmatched p [] h = refl
  matches_unmatched p (x ∷ xs) h = rw h.0 (matches_unmatched p xs h.1)

  pub unmatched_of_matches :
      (p : A → Bool) (xs : List A) → matches p xs ≡ false → All (λ x. p x ≡ false) xs
  unfolding matches
  unmatched_of_matches p [] h = tt
  unmatched_of_matches p (x ∷ xs) h = elim (Bool-cases (p x)) [
    | inl e ↦ absurd (cc (rw e at h))
    | inr e ↦ (e, unmatched_of_matches p xs (rw e at h))
  ]

  pub matches-mem :
      (p : A → Bool) {x : A} (xs : List A) → Memᴰ x xs → p x ≡ true → matches p xs ≡ true
  unfolding matches
  matches-mem p [] m h = elim m [ ]
  matches-mem p (y ∷ xs) (Memᴰ.head e) h = rw (subst (λ z. p z ≡ true) e h)
  matches-mem p (y ∷ xs) (Memᴰ.tail m) h = ground (arith, matches-mem p xs m h)

  pub mem_of_matches :
      (p : A → Bool) (xs : List A) → matches p xs ≡ true → (x : A) × Memᴰ x xs × (p x ≡ true)
  unfolding matches
  mem_of_matches p [] h = absurd (cc h)
  mem_of_matches p (x ∷ xs) h = elim (Bool-cases (p x)) [
    | inl e ↦ (x, Memᴰ.head refl, e)
    | inr e ↦ let (y, m, k) = mem_of_matches p xs (rw e at h) in (y, Memᴰ.tail m, k)
  ]

  -- What is in an updated table: a new version of a row that matched, or a row that did not.
  pub mem-update_where :
      (p : A → Bool) (f : A → A) {x : A} (xs : List A)
      → Memᴰ x xs
      → Memᴰ (if p x then f x else x) (update_where p f xs)
  unfolding update_where
  mem-update_where p f [] m = elim m [ ]
  mem-update_where p f (y ∷ xs) (Memᴰ.head e) = Memᴰ.head (ap (λ z. if p z then f z else z) e)
  mem-update_where p f (y ∷ xs) (Memᴰ.tail m) = Memᴰ.tail (mem-update_where p f xs m)

  pub first_where-some :
      (p : A → Bool) (xs : List A) {x : A} → first_where p xs ≡ some x → Memᴰ x xs × (p x ≡ true)
  unfolding first_where
  first_where-some p [] h = absurd (cc h)
  first_where-some p (y ∷ xs) {x} h = elim (Bool-cases (p y)) [
    | inl e ↦
        let same : y ≡ x = ground arith in (Memᴰ.head (sym same), subst (λ z. p z ≡ true) same e)
    | inr e ↦ let (m, k) = first_where-some p xs {x = x} (rw e at h) in (Memᴰ.tail m, k)
  ]

  pub mem_of_update_where :
      (p : A → Bool) (f : A → A) {y : A} (xs : List A)
      → Memᴰ y (update_where p f xs)
      → (x : A) × Memᴰ x xs × (y ≡ (if p x then f x else x))
  unfolding update_where
  mem_of_update_where p f [] m = elim m [ ]
  mem_of_update_where p f (x ∷ xs) (Memᴰ.head e) = (x, Memᴰ.head refl, e)
  mem_of_update_where p f (x ∷ xs) (Memᴰ.tail m) =
      let (z, k, e) = mem_of_update_where p f xs m in (z, Memᴰ.tail k, e)

  pub rows_affected-le-length : (p : A → Bool) (xs : List A) → rows_affected p xs ≤ length xs
  unfolding rows_affected
  rows_affected-le-length p [] = omega arith
  rows_affected-le-length p (x ∷ xs) = ground (arith, rows_affected-le-length p xs)

  rows_affected-update_where-le :
      (p q : A → Bool) (f : A → A) (xs : List A)
      → ((x : A) → q x ≡ true → p (f x) ≡ false)
      → rows_affected p (update_where q f xs) ≤ rows_affected p xs
  unfolding rows_affected update_where
  rows_affected-update_where-le p q f [] out = omega arith
  rows_affected-update_where-le p q f (x ∷ xs) out =
      ground (arith, out x, rows_affected-update_where-le p q f xs out)

  -- An update that takes its rows out of a condition, one of them at least, lowers its count.
  pub rows_affected-update_where-lt :
      (p q : A → Bool) (f : A → A) {x : A} (xs : List A)
      → ((x : A) → q x ≡ true → p (f x) ≡ false)
      → Memᴰ x xs
      → p x ≡ true
      → q x ≡ true
      → rows_affected p (update_where q f xs) < rows_affected p xs
  unfolding rows_affected update_where
  rows_affected-update_where-lt p q f [] out m hp hq = elim m [ ]
  rows_affected-update_where-lt p q f (y ∷ xs) out (Memᴰ.head e) hp hq =
      let hp' = subst (λ z. p z ≡ true) e hp in
      let hq' = subst (λ z. q z ≡ true) e hq in
      ground (arith, out y, rows_affected-update_where-le p q f xs out)
  rows_affected-update_where-lt p q f (y ∷ xs) out (Memᴰ.tail m) hp hq =
      ground (arith, out y, rows_affected-update_where-lt p q f xs out m hp hq)

  -- A row that meets the condition lets a first one be found.
  pub first_where-found :
      (p : A → Bool) {x : A} (xs : List A)
      → Memᴰ x xs
      → p x ≡ true
      → (y : A) × (first_where p xs ≡ some y)
  unfolding first_where
  first_where-found p [] m h = elim m [ ]
  first_where-found p (y ∷ xs) (Memᴰ.head e) h = (y, rw (subst (λ z. p z ≡ true) e h) refl)
  first_where-found p (y ∷ xs) (Memᴰ.tail m) h = elim (Bool-cases (p y)) [
    | inl e ↦ (y, rw e refl)
    | inr e ↦ let (z, found) = first_where-found p xs m h in (z, rw e found)
  ]

  -- The row of a key after its update is its new version.
  pub first_where-update_where :
      (p : A → Bool) (f : A → A) (xs : List A) {x : A}
      → first_where p xs ≡ some x
      → ((y : A) → p y ≡ true → p (f y) ≡ true)
      → first_where p (update_where p f xs) ≡ some (f x)
  unfolding first_where update_where
  first_where-update_where p f [] h k = absurd (cc h)
  first_where-update_where p f (y ∷ xs) {x} h k = elim (Bool-cases (p y)) [
    | inl e ↦ let same : y ≡ x = ground arith in rw (e, k y e, same) refl
    | inr e ↦ rw (e, e) (first_where-update_where p f xs {x = x} (rw e at h) k)
  ]

  pub first_where-append :
      (p : A → Bool) (xs ys : List A) {x : A}
      → first_where p xs ≡ some x
      → first_where p (xs ++ ys) ≡ some x
  unfolding first_where
  first_where-append p [] ys h = absurd (cc h)
  first_where-append p (z ∷ xs) ys {x} h = elim (Bool-cases (p z)) [
    | inl e ↦ rw e (rw e at h)
    | inr e ↦ rw e (first_where-append p xs ys {x = x} (rw e at h))
  ]

  -- A selection that keeps the first row that meets a condition has it first.
  pub first_where-select_where :
      (p q : A → Bool) (xs : List A) {x : A}
      → first_where p xs ≡ some x
      → q x ≡ true
      → first_where p (select_where q xs) ≡ some x
  unfolding first_where select_where
  first_where-select_where p q [] h k = absurd (cc h)
  first_where-select_where p q (z ∷ xs) {x} h k = elim (Bool-cases (p z)) [
    | inl e ↦
        let same : z ≡ x = ground arith in
        rw (subst (λ y. q y ≡ true) (sym same) k, e) (ap some same)
    | inr e ↦
        let rest = first_where-select_where p q xs {x = x} (rw e at h) k in
        elim (Bool-cases (q z)) [ inl e' ↦ rw (e', e) rest | inr e' ↦ rw e' rest ]
  ]

  pub first_where-snoc :
      (p : A → Bool) (xs : List A) (x : A)
      → matches p xs ≡ false
      → p x ≡ true
      → first_where p (xs ++ x ∷ []) ≡ some x
  unfolding first_where matches
  first_where-snoc p [] x h k = rw k refl
  first_where-snoc p (y ∷ xs) x h k = elim (Bool-cases (p y)) [
    | inl e ↦ absurd (cc (rw e at h))
    | inr e ↦ rw e (first_where-snoc p xs x (rw e at h) k)
  ]
