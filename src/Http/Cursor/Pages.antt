-- ===== src/Http/Cursor/Pages.antt =====
-- One page, as `buildPaginationResult` cuts it from one row more than fits.
use quick_bite_order_service.Common.{
  List, Option, String, [], ap, arith, false, length, ltb, none, refl, some, suc, take, true, zero,
  ℕ, ◌++◌, ◌+◌, ◌<◌, ◌∙◌, ◌∷◌, ◌≡◌, ◌≤◌,
}
use quick_bite_order_service.Http.Cursor.{
  Columns, build_pagination_result, cursor_at, last_of, next_cursor_of,
}

module _ {A : Type 0} where
  take_all : (n : ℕ) (xs : List A) → length xs ≤ n → take n xs ≡ xs
  take_all zero [] h = refl
  take_all zero (x ∷ xs) h = absurd (omega (arith, h))
  take_all (suc n) [] h = refl
  take_all (suc n) (x ∷ xs) h = ap (λ l. x ∷ l) (take_all n xs (omega (arith, h)))

  take_less : (n : ℕ) (xs : List A) → take n (take (suc n) xs) ≡ take n xs
  take_less zero xs = refl
  take_less (suc n) [] = refl
  take_less (suc n) (x ∷ xs) = ap (λ l. x ∷ l) (take_less n xs)

  length-take_full : (n : ℕ) (xs : List A) → n ≤ length xs → length (take n xs) ≡ n
  length-take_full zero xs h = refl
  length-take_full (suc n) [] h = absurd (omega (arith, h))
  length-take_full (suc n) (x ∷ xs) h = omega (arith, length-take_full n xs (omega (arith, h)))

  -- The first rows of a list that is long enough end with one row.
  pub record Front (n : ℕ) (xs : List A) : Type 0 where
    pub ahead : List A
    pub last : A
    pub behind : List A
    pub whole : xs ≡ ahead ++ last ∷ behind
    pub front : take n xs ≡ ahead ++ last ∷ []

  pub Front-of : (n : ℕ) (xs : List A) → 0 < n → n ≤ length xs → Front n xs
  Front-of zero xs pos_n h = absurd (omega (arith, pos_n))
  Front-of (suc n) [] pos_n h = absurd (omega (arith, h))
  Front-of (suc zero) (x ∷ xs) pos_n h = record {
    ahead = [];
    last = x;
    behind = xs;
    whole = refl;
    front = refl;
  }
  Front-of (suc (suc n)) (x ∷ xs) pos_n h =
      let f = Front-of (suc n) xs (omega arith) (omega (arith, h)) in
      record {
        ahead = x ∷ f.ahead;
        last = f.last;
        behind = f.behind;
        whole = ap (λ l. x ∷ l) f.whole;
        front = ap (λ l. x ∷ l) f.front;
      }

  last_of-append : (xs : List A) (x : A) → last_of (xs ++ x ∷ []) ≡ some x
  last_of-append [] x = refl
  last_of-append (y ∷ []) x = refl
  last_of-append (y ∷ z ∷ xs) x = last_of-append (z ∷ xs) x

module _ {A : Type 0} (columns : Columns A) (field : String) where
  no_more : (last : Option A) → next_cursor_of columns field false last ≡ none
  no_more none = refl
  no_more (some x) = refl

  -- The rows fit: all of them, and no cursor.
  pub build_short :
      (limit : ℕ) (rest : List A)
      → length rest ≤ limit
      → let result = build_pagination_result columns (take (limit + 1) rest) limit field in
        (result.0 ≡ rest) × (result.1.next_cursor ≡ none)
  unfolding build_pagination_result
  build_short limit rest h =
      cut (take (limit + 1) rest) (take_all (limit + 1) rest (omega (arith, h)))
    where
      cut :
          (rows : List A)
          → rows ≡ rest
          → let result = build_pagination_result columns rows limit field in
            (result.0 ≡ rest) × (result.1.next_cursor ≡ none)
      cut rows e =
          let fits : ltb limit (length rows) ≡ false = ground (arith, ap length e, h) in
          rw fits (e, no_more (last_of rows))

  -- The rows do not fit: the first of them, and a cursor at the last of these.
  pub build_long :
      (limit : ℕ) (rest : List A) (f : Front limit rest)
      → limit < length rest
      → let result = build_pagination_result columns (take (limit + 1) rest) limit field in
        (result.0 ≡ f.ahead ++ f.last ∷ [])
        × (result.1.next_cursor ≡ some (cursor_at columns field f.last))
  unfolding build_pagination_result
  build_long limit rest f h =
      cut (take (limit + 1) rest)
        (ap (λ n. take limit (take n rest)) {y = suc limit} (omega arith)
          ∙ take_less limit rest
          ∙ f.front)
        (length-take_full (limit + 1) rest (omega (arith, h)))
    where
      cut :
          (rows : List A)
          → take limit rows ≡ f.ahead ++ f.last ∷ []
          → length rows ≡ limit + 1
          → let result = build_pagination_result columns rows limit field in
            (result.0 ≡ f.ahead ++ f.last ∷ [])
            × (result.1.next_cursor ≡ some (cursor_at columns field f.last))
      cut rows e n =
          let more : ltb limit (length rows) ≡ true = ground (arith, n) in
          rw more (rw e (refl, rw (last_of-append f.ahead f.last) refl))
