-- ===== src/Common/Sorts.antt =====
-- `ORDER BY` and its result on rows that are in order already.
use mathlib.Core.Path.{◌≡◌, refl}
use mathlib.Core.Bool.{Bool, false}
use mathlib.Core.Option.{Option, none, some}
use mathlib.Core.List.{List, [], ◌∷◌}
use quick_bite_order_service.Common.Tests.{if◌then◌else◌}

-- `ORDER BY`: ties keep the order of the table.
unfoldable pub insert_by {ℓ} : {A : Type ℓ} → (A → A → Bool) → A → List A → List A
insert_by before x [] = x ∷ []
insert_by before x (y ∷ ys) =
    let rest = insert_by before x ys in if before y x then y ∷ rest else x ∷ y ∷ ys

unfoldable pub sort_by {ℓ} : {A : Type ℓ} → (A → A → Bool) → List A → List A
unfolding insert_by
sort_by before [] = []
sort_by before (x ∷ xs) = insert_by before x (sort_by before xs)

abbrev pub head_of {ℓ} : {A : Type ℓ} → List A → Option A
head_of [] = none
head_of (x ∷ _) = some x

module _ {ℓ} {A : Type ℓ} (before : A → A → Bool) where
  -- No row stands behind one that it has to precede.
  abbrev pub InOrder : List A → Type ℓ
  InOrder [] = Unit
  InOrder (x ∷ []) = Unit
  InOrder (x ∷ y ∷ ys) = (before y x ≡ false) × InOrder (y ∷ ys)

  insert_front : (x : A) (ys : List A) → InOrder (x ∷ ys) → insert_by before x ys ≡ x ∷ ys
  unfolding insert_by
  insert_front x [] h = refl
  insert_front x (y ∷ ys) h = rw h.0 refl

  InOrder-tail : (x : A) (ys : List A) → InOrder (x ∷ ys) → InOrder ys
  InOrder-tail x [] h = tt
  InOrder-tail x (y ∷ ys) h = h.1

  pub sort_by-InOrder : (xs : List A) → InOrder xs → sort_by before xs ≡ xs
  unfolding sort_by
  sort_by-InOrder [] h = refl
  sort_by-InOrder (x ∷ xs) h = rw (sort_by-InOrder xs (InOrder-tail x xs h)) (insert_front x xs h)
