-- ===== src/Base/Orders.antt =====
-- `ORDER BY` on the rows of a statement.
use mathlib.Core.Bool.{Bool}
use mathlib.Core.Logic.{inl, inr}
use mathlib.Core.List.{List, [], ◌∷◌}
use kitstack.Base.Tests.{if◌then◌else◌, Bool-cases}
use kitstack.Base.Lists.{All}

-- An insertion of each row before the first that does not stand before it.
module _ {A : Type 0} (before : A → A → Bool) where
  abbrev pub insert_row : A → List A → List A
  insert_row x [] = x ∷ []
  insert_row x (y ∷ ys) = let rest = insert_row x ys in if before x y then x ∷ y ∷ ys else y ∷ rest

  unfoldable pub order_by : List A → List A
  order_by [] = []
  order_by (x ∷ xs) = insert_row x (order_by xs)

module _ {A : Type 0} (P : A → Type 0) where
  All-insert_row :
      (before : A → A → Bool) (x : A) (xs : List A)
      → P x
      → All P xs
      → All P (insert_row before x xs)
  All-insert_row before x [] h hs = (h, tt)
  All-insert_row before x (y ∷ ys) h (k, ks) = elim (Bool-cases (before x y)) [
    | inl first ↦ rw first (h, (k, ks))
    | inr later ↦ rw later (k, All-insert_row before x ys h ks)
  ]

  pub All-order_by : (before : A → A → Bool) (xs : List A) → All P xs → All P (order_by before xs)
  unfolding order_by
  All-order_by before [] h = tt
  All-order_by before (x ∷ xs) (h, hs) =
      All-insert_row before x (order_by before xs) h (All-order_by before xs hs)
