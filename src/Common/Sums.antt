-- ===== src/Common/Sums.antt =====
-- Sums over the rows of a table, and what an update of the rows that pass a test does to them.
use mathlib.Core.Path.{◌≡◌, refl}
use mathlib.Core.Bool.{Bool, true}
use mathlib.Core.Logic.{inl, inr}
use mathlib.Core.Option
use mathlib.Core.Option.{Option, none, some}
use mathlib.Core.List.{List, [], ◌∷◌, ◌++◌}
use native.Mathlib.Omega.{arith}
use quick_bite_order_service.Common.Tests.{Bool-cases, is_some}
use quick_bite_order_service.Common.Int.{ℤ, pos, ◌+ℤ◌, int_laws, swap_sums, add_front}
use quick_bite_order_service.Common.Lists.{find, update}

module _ {ℓ} {A : Type ℓ} where
  abbrev pub sum_by : (A → ℤ) → List A → ℤ
  sum_by f [] = pos 0
  sum_by f (x ∷ xs) = f x +ℤ sum_by f xs

  -- No two rows pass the test.
  abbrev pub AtMostOne : (A → Bool) → List A → Type ℓ
  AtMostOne p [] = Unit
  AtMostOne p (x ∷ xs) = (p x ≡ true → find p xs ≡ none) × AtMostOne p xs

  pub sum_by-append_one :
      (f : A → ℤ) (xs : List A) (x : A) → sum_by f (xs ++ x ∷ []) ≡ sum_by f xs +ℤ f x
  sum_by-append_one f [] x = omega int_laws
  sum_by-append_one f (y ∷ xs) x = rw (sum_by-append_one f xs x) (omega int_laws)

  pub update-none : (p : A → Bool) (g : A → A) (xs : List A) → find p xs ≡ none → update p g xs ≡ xs
  update-none p g [] h = refl
  update-none p g (x ∷ xs) h = ground (arith, update-none p g xs)

  pub sum_by-update_same :
      (f : A → ℤ) (p : A → Bool) (g : A → A) (xs : List A)
      → ((x : A) → f (g x) ≡ f x)
      → sum_by f (update p g xs) ≡ sum_by f xs
  sum_by-update_same f p g [] h = refl
  sum_by-update_same f p g (x ∷ xs) h = ground (arith, h x, sum_by-update_same f p g xs h)

  pub sum_by-update_one :
      (f : A → ℤ) (p : A → Bool) (g : A → A) (xs : List A) {x : A}
      → AtMostOne p xs
      → find p xs ≡ some x
      → sum_by f (update p g xs) +ℤ f x ≡ sum_by f xs +ℤ f (g x)
  sum_by-update_one f p g [] u h = cc
  sum_by-update_one f p g (y ∷ xs) {x} u h = elim (Bool-cases (p y)) [
    | inl hit ↦
        let same : y ≡ x = ground (arith, hit) in
        rw (hit, update-none p g xs (u.0 hit), same) (swap_sums (f (g x)) (f x) (sum_by f xs))
    | inr miss ↦
        let later : find p xs ≡ some x = ground (arith, miss) in
        rw miss (
          add_front (f y) (sum_by f (update p g xs)) (f x) (sum_by f xs) (f (g x))
            (sum_by-update_one f p g xs u.1 later))
  ]

  pub find-update :
      (p : A → Bool) (g : A → A) (xs : List A)
      → ((x : A) → p (g x) ≡ p x)
      → find p (update p g xs) ≡ Option.map g (find p xs)
  find-update p g [] h = refl
  find-update p g (x ∷ xs) h = ground (arith, h x, find-update p g xs h)

  -- A row that is found passes the test.
  pub find_passes : (p : A → Bool) (xs : List A) {x : A} → find p xs ≡ some x → p x ≡ true
  find_passes p [] h = cc
  find_passes p (y ∷ xs) {x} h = ground (arith, find_passes p xs {x = x})

module _ {ℓ} {A : Type ℓ} where
  -- Two updates of the rows that pass one test, the first of which keeps the test.
  pub update-update :
      (p : A → Bool) (f g : A → A) (xs : List A)
      → ((x : A) → p (f x) ≡ p x)
      → update p g (update p f xs) ≡ update p (λ x. g (f x)) xs
  update-update p f g [] h = refl
  update-update p f g (x ∷ xs) h = ground (arith, h x, update-update p f g xs h)

module _ {ℓ} {A : Type ℓ} where
  pub find-append_hit :
      (p : A → Bool) (xs : List A) (x : A) → p x ≡ true → is_some (find p (xs ++ x ∷ [])) ≡ true
  find-append_hit p [] x h = ground arith
  find-append_hit p (y ∷ xs) x h = ground (arith, find-append_hit p xs x h)

  -- An update that keeps a test keeps whether a row passes it.
  pub is_some-update :
      (p q : A → Bool) (g : A → A) (xs : List A)
      → ((x : A) → p (g x) ≡ p x)
      → is_some (find p xs) ≡ true
      → is_some (find p (update q g xs)) ≡ true
  is_some-update p q g [] h f = f
  is_some-update p q g (x ∷ xs) h f = ground (arith, h x, is_some-update p q g xs h)
