-- ===== src/Http/Cursor/Order.antt =====
-- Sorting and filtering by a strict weak order.
use quick_bite_order_service.Common.{
  All, Bool, List, [], ap, arith, false, if◌then◌else◌, inl, inr, insert_by, keep, length, refl,
  sort_by, suc, sym, true, ◌++◌, ◌∙◌, ◌∷◌, ◌≡◌, ◌⊎◌,
}

module _ {A : Type 0} where
  abbrev pub Pairwise : (A → A → Type 0) → List A → Type 0
  Pairwise R [] = Unit
  Pairwise R (x ∷ xs) = All (R x) xs × Pairwise R xs

  pub All-weaken : (P Q : A → Type 0) (xs : List A) → ((x : A) → P x → Q x) → All P xs → All Q xs
  All-weaken P Q [] f h = tt
  All-weaken P Q (x ∷ xs) f (p, h) = (f x p, All-weaken P Q xs f h)

  All-both :
      (P Q R : A → Type 0) (xs : List A)
      → ((x : A) → P x → Q x → R x)
      → All P xs
      → All Q xs
      → All R xs
  All-both P Q R [] f h k = tt
  All-both P Q R (x ∷ xs) f (p, h) (q, k) = (f x p q, All-both P Q R xs f h k)

  -- Two relations of each pair give a third.
  pub Pairwise-both :
      (R S T : A → A → Type 0) (xs : List A)
      → ((x y : A) → R x y → S x y → T x y)
      → Pairwise R xs
      → Pairwise S xs
      → Pairwise T xs
  Pairwise-both R S T [] f h k = tt
  Pairwise-both R S T (x ∷ xs) f (p, h) (q, k) =
      (All-both (R x) (S x) (T x) xs (f x) p q, Pairwise-both R S T xs f h k)

  pub All-middle : (P : A → Type 0) (xs ys : List A) (x : A) → All P (xs ++ x ∷ ys) → P x
  All-middle P [] ys x (p, h) = p
  All-middle P (y ∷ xs) ys x (p, h) = All-middle P xs ys x h

  pub keep-ext : (p q : A → Bool) (xs : List A) → ((x : A) → p x ≡ q x) → keep p xs ≡ keep q xs
  keep-ext p q [] f = refl
  keep-ext p q (x ∷ xs) f = rw (f x, keep-ext p q xs f) refl

  chosen_or :
      (P : A → Type 0) (x : A) (xs : List A) (b : Bool)
      → P x
      → All P xs
      → All P (if b then x ∷ xs else xs)
  chosen_or P x xs true p h = (p, h)
  chosen_or P x xs false p h = h

  pub All-keep : (P : A → Type 0) (p : A → Bool) (xs : List A) → All P xs → All P (keep p xs)
  All-keep P p [] h = tt
  All-keep P p (x ∷ xs) (q, h) = chosen_or P x (keep p xs) (p x) q (All-keep P p xs h)

module _ {A : Type 0} (before : A → A → Bool) where
  -- No row comes before one that stands ahead of it.
  abbrev pub Sorted : List A → Type 0
  Sorted = Pairwise (λ a b. before b a ≡ false)

  abbrev pub Strict : List A → Type 0
  Strict = Pairwise (λ a b. before a b ≡ true)

  placed :
      (P : A → Type 0) (x y : A) (ys rest : List A) (b : Bool)
      → P x
      → P y
      → All P ys
      → All P rest
      → All P (if b then y ∷ rest else x ∷ y ∷ ys)
  placed P x y ys rest true p q h k = (q, k)
  placed P x y ys rest false p q h k = (p, (q, h))

  All-insert :
      (P : A → Type 0) (x : A) (ys : List A) → P x → All P ys → All P (insert_by before x ys)
  unfolding insert_by
  All-insert P x [] p h = (p, tt)
  All-insert P x (y ∷ ys) p (q, h) =
      placed P x y ys (insert_by before x ys) (before y x) p q h (All-insert P x ys p h)

  insert_front :
      (x : A) (ys : List A) → All (λ y. before y x ≡ false) ys → insert_by before x ys ≡ x ∷ ys
  unfolding insert_by
  insert_front x [] h = refl
  insert_front x (y ∷ ys) (q, h) = rw q refl

  insert_after :
      (x y : A) (ys : List A)
      → before y x ≡ true
      → insert_by before x (y ∷ ys) ≡ y ∷ insert_by before x ys
  unfolding insert_by
  insert_after x y ys h = rw h refl

  length-insert : (x : A) (ys : List A) → length (insert_by before x ys) ≡ suc (length ys)
  unfolding insert_by
  length-insert x [] = refl
  length-insert x (y ∷ ys) = by_place (before y x) (length-insert x ys)
    where
      by_place :
          (b : Bool)
          → length (insert_by before x ys) ≡ suc (length ys)
          → length (if b then y ∷ insert_by before x ys else x ∷ y ∷ ys) ≡ suc (suc (length ys))
      by_place true e = ap suc e
      by_place false e = refl

  pub length-sort : (xs : List A) → length (sort_by before xs) ≡ length xs
  unfolding sort_by
  length-sort [] = refl
  length-sort (x ∷ xs) = length-insert x (sort_by before xs) ∙ ap suc (length-sort xs)

  -- A symmetric relation of each pair stays when a row is put in.
  Pairwise-insert :
      (R : A → A → Type 0) (x : A) (ys : List A)
      → ((a b : A) → R a b → R b a)
      → All (R x) ys
      → Pairwise R ys
      → Pairwise R (insert_by before x ys)
  unfolding insert_by
  Pairwise-insert R x [] f h k = (tt, tt)
  Pairwise-insert R x (y ∷ ys) f (p, h) (q, k) =
      at_place (before y x) (All-insert (R y) x ys (f x y p) q) (Pairwise-insert R x ys f h k)
    where
      at_place :
          (b : Bool)
          → All (R y) (insert_by before x ys)
          → Pairwise R (insert_by before x ys)
          → Pairwise R (if b then y ∷ insert_by before x ys else x ∷ y ∷ ys)
      at_place true m n = (m, n)
      at_place false m n = ((p, h), (q, k))

  pub All-sort : (P : A → Type 0) (l : List A) → All P l → All P (sort_by before l)
  unfolding sort_by
  All-sort P [] k = tt
  All-sort P (y ∷ l) (q, k) = All-insert P y (sort_by before l) q (All-sort P l k)

  pub Pairwise-sort :
      (R : A → A → Type 0) (xs : List A)
      → ((a b : A) → R a b → R b a)
      → Pairwise R xs
      → Pairwise R (sort_by before xs)
  unfolding sort_by
  Pairwise-sort R [] f h = tt
  Pairwise-sort R (x ∷ xs) f (p, h) =
      Pairwise-insert R x (sort_by before xs) f (All-sort (R x) xs p) (Pairwise-sort R xs f h)

  -- Neither precedes what does not precede the other.
  module _ (asymmetric : (a b : A) → before a b ≡ true → before b a ≡ false)
      (split : (a b c : A) → before a c ≡ true → (before a b ≡ true) ⊎ (before b c ≡ true)) where
    not_before : (a b c : A) → before a b ≡ false → before b c ≡ false → before a c ≡ false
    not_before a b c h k = by_case (before a c) refl
      where
        by_case : (d : Bool) → before a c ≡ d → d ≡ false
        by_case false e = refl
        by_case true e = elim (split a b c e) [
          | inl first ↦ cc (first, h)
          | inr second ↦ cc (second, k)
        ]

    Sorted-insert : (x : A) (ys : List A) → Sorted ys → Sorted (insert_by before x ys)
    unfolding insert_by
    Sorted-insert x [] h = (tt, tt)
    Sorted-insert x (y ∷ ys) (p, h) = by_place (before y x) refl (Sorted-insert x ys h)
      where
        by_place :
            (b : Bool)
            → before y x ≡ b
            → Sorted (insert_by before x ys)
            → Sorted (if b then y ∷ insert_by before x ys else x ∷ y ∷ ys)
        by_place true e k = (All-insert (λ z. before z y ≡ false) x ys (asymmetric y x e) p, k)
        by_place false e k = (
          (
            e,
            All-weaken (λ z. before z y ≡ false) (λ z. before z x ≡ false) ys
                (λ z q. not_before z y x q e) p,
          ),
          (p, h),
        )

    pub Sorted-sort : (xs : List A) → Sorted (sort_by before xs)
    unfolding sort_by
    Sorted-sort [] = tt
    Sorted-sort (x ∷ xs) = Sorted-insert x (sort_by before xs) (Sorted-sort xs)

    keep-insert :
        (p : A → Bool) (x : A) (ys : List A)
        → Sorted ys
        → keep p (insert_by before x ys)
          ≡ (if p x then insert_by before x (keep p ys) else keep p ys)
    unfolding insert_by
    keep-insert p x [] h = ground arith
    keep-insert p x (y ∷ ys) (q, h) = by_place (before y x) refl (keep-insert p x ys h) (λ e.
        insert_front x (keep p (y ∷ ys)) (
          All-keep (λ z. before z x ≡ false) p (y ∷ ys)
            (
              e,
              All-weaken (λ z. before z y ≡ false) (λ z. before z x ≡ false) ys
                  (λ z r. not_before z y x r e) q,
            )))
      where
        by_place :
            (b : Bool)
            → before y x ≡ b
            → keep p (insert_by before x ys)
              ≡ (if p x then insert_by before x (keep p ys) else keep p ys)
            → (before y x ≡ false → insert_by before x (keep p (y ∷ ys)) ≡ x ∷ keep p (y ∷ ys))
            → keep p (if b then y ∷ insert_by before x ys else x ∷ y ∷ ys)
              ≡ (if p x then insert_by before x (keep p (y ∷ ys)) else keep p (y ∷ ys))
        by_place true e ih front = by_both (p x) (p y) e ih
          where
            by_both :
                (px py : Bool)
                → before y x ≡ true
                → keep p (insert_by before x ys)
                  ≡ (if px then insert_by before x (keep p ys) else keep p ys)
                → (if py
                    then y ∷ keep p (insert_by before x ys)
                    else keep p (insert_by before x ys))
                  ≡ (if px
                      then insert_by before x (if py then y ∷ keep p ys else keep p ys)
                      else if py
                      then y ∷ keep p ys
                      else keep p ys)
            by_both true true e ih = ap (λ l. y ∷ l) ih ∙ sym (insert_after x y (keep p ys) e)
            by_both true false e ih = ih
            by_both false true e ih = ap (λ l. y ∷ l) ih
            by_both false false e ih = ih
        by_place false e ih front = by_first (p x) (front e)
          where
            by_first :
                (px : Bool)
                → insert_by before x (keep p (y ∷ ys)) ≡ x ∷ keep p (y ∷ ys)
                → (if px then x ∷ keep p (y ∷ ys) else keep p (y ∷ ys))
                  ≡ (if px then insert_by before x (keep p (y ∷ ys)) else keep p (y ∷ ys))
            by_first true f = sym f
            by_first false f = refl

    -- Filtering and sorting commute.
    pub keep-sort :
        (p : A → Bool) (xs : List A) → sort_by before (keep p xs) ≡ keep p (sort_by before xs)
    unfolding sort_by
    keep-sort p [] = refl
    keep-sort p (x ∷ xs) =
        by_first (p x) (keep-sort p xs) (keep-insert p x (sort_by before xs) (Sorted-sort xs))
      where
        by_first :
            (b : Bool)
            → sort_by before (keep p xs) ≡ keep p (sort_by before xs)
            → keep p (insert_by before x (sort_by before xs)) ≡ (
                if b
                then insert_by before x (keep p (sort_by before xs))
                else keep p (sort_by before xs))
            → sort_by before (if b then x ∷ keep p xs else keep p xs)
              ≡ keep p (insert_by before x (sort_by before xs))
        by_first true e f = ap (insert_by before x) e ∙ sym f
        by_first false e f = e ∙ sym f

    itself : (x : A) → before x x ≡ false
    itself x = by_case (before x x) refl
      where
        by_case : (d : Bool) → before x x ≡ d → d ≡ false
        by_case false e = refl
        by_case true e = sym (sym (asymmetric x x e) ∙ e)

    keep_all : (x : A) (ys : List A) → All (λ y. before x y ≡ true) ys → keep (before x) ys ≡ ys
    keep_all x [] h = refl
    keep_all x (y ∷ ys) (q, h) = rw q (ap (λ l. y ∷ l) (keep_all x ys h))

    -- The rows behind one of a strictly sorted list are those that it precedes.
    pub keep-behind :
        (ahead behind : List A) (x : A)
        → Strict (ahead ++ x ∷ behind)
        → keep (before x) (ahead ++ x ∷ behind) ≡ behind
    keep-behind [] behind x (h, k) = rw (itself x) (keep_all x behind h)
    keep-behind (y ∷ ahead) behind x (h, k) =
        let off = asymmetric y x (All-middle (λ z. before y z ≡ true) ahead behind x h) in
        rw off (keep-behind ahead behind x k)
