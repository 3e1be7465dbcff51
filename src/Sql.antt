-- ===== src/Sql.antt =====
-- The statements that the stores send to the database, over a table as the list of its rows in
-- insertion order: SELECT … WHERE … ORDER BY … LIMIT, UPDATE … WHERE and its row count,
-- DELETE … WHERE. Rows that an ORDER BY leaves equal stay in insertion order.
pub mod Laws
pub mod Order
pub mod Pruning
use blitze_cdn_cp.Prelude.{
  ℕ, Bool, true, false, not, List, [], ◌∷◌, length, if◌then◌else◌, ◌||◌, ◌&&◌, Option, none, some,
  String, string_eq, leb, take, ◌==◌,
}

module _ {ℓ} {A : Type ℓ} where
  unfoldable pub select_where : (A → Bool) → List A → List A
  select_where p [] = []
  select_where p (x ∷ xs) = let rest = select_where p xs in if p x then x ∷ rest else rest

  unfoldable pub update_where : (A → Bool) → (A → A) → List A → List A
  update_where p f [] = []
  update_where p f (x ∷ xs) = (if p x then f x else x) ∷ update_where p f xs

  unfoldable pub delete_where : (A → Bool) → List A → List A
  unfolding select_where
  delete_where p = select_where (λ x. not (p x))

  -- The row count of a statement with this condition.
  unfoldable pub rows_affected : (A → Bool) → List A → ℕ
  unfolding select_where
  rows_affected p xs = length (select_where p xs)

  -- Whether some row meets the condition: `bool(rowcount)`.
  unfoldable pub matches : (A → Bool) → List A → Bool
  matches p [] = false
  matches p (x ∷ xs) = p x || matches p xs

  insert_by : (A → A → Bool) → A → List A → List A
  insert_by le x [] = x ∷ []
  insert_by le x (y ∷ ys) = if le x y then x ∷ y ∷ ys else y ∷ insert_by le x ys

  unfoldable pub order_by : (A → A → Bool) → List A → List A
  unfolding insert_by
  order_by le [] = []
  order_by le (x ∷ xs) = insert_by le x (order_by le xs)

  -- `.first()`, or `session.get` with a condition on the key.
  unfoldable pub first_where : (A → Bool) → List A → Option A
  first_where p [] = none
  first_where p (x ∷ xs) = if p x then some x else first_where p xs

  -- DELETE of the finished rows, but for the newest `keep` of them: `id NOT IN (SELECT … LIMIT …)`.
  module _ (key : A → String) (finished : A → Bool) (created : A → ℕ) where
    unfoldable pub newer : A → A → Bool
    newer a b = leb (created b) (created a)

    unfoldable pub newest : ℕ → List A → List A
    unfolding newer order_by select_where
    newest keep rows = take keep (order_by newer (select_where finished rows))

    unfoldable pub surplus : ℕ → List A → A → Bool
    unfolding newest matches
    surplus keep rows r = finished r && not (matches (λ kept. key kept == key r) (newest keep rows))

    unfoldable pub drop_surplus : ℕ → List A → ℕ × List A
    unfolding surplus rows_affected delete_where
    drop_surplus keep rows =
        (rows_affected (surplus keep rows) rows, delete_where (surplus keep rows) rows)
