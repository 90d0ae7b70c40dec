-- ===== src/Http/Cursor/Walk/Complete.antt =====
-- Page by page, every row comes once.
use mathlib.Core.List.{append-nil, append_assoc}
use quick_bite_order_service.Common.{
  All, Bool, List, Option, String, [], ap, arith, false, keep, length, length-append, ltb, nat_eq,
  none, refl, some, sort_by, string_eq, subst, suc, sym, take, true, zero, ℕ, ◌++◌, ◌+◌, ◌<◌, ◌==◌,
  ◌∙◌, ◌∷◌, ◌≡◌, ◌≢◌, ◌⊎◌,
}
use quick_bite_order_service.Http.Cursor.{
  Columns, PaginationMeta, PaginationParams, apply_cursor_pagination, build_pagination_result,
  cursor_at, decode_cursor, from_cursor, given, is_after, row_precedes,
}
use quick_bite_order_service.Http.Cursor.Order.{
  All-middle, All-sort, Pairwise, Pairwise-both, Pairwise-sort, Sorted-sort, Strict, keep-behind,
  keep-ext, keep-sort, length-sort,
}
use quick_bite_order_service.Http.Cursor.Pages.{build_long, build_short, Front-of}
use quick_bite_order_service.Http.Cursor.RoundTrip.{
  decode_cursor-encode_cursor, given-encode_cursor,
}
use quick_bite_order_service.Http.Cursor.Walk.{
  IsReadable, follow, page_at, precedes-asymmetric, precedes-distinct, precedes-split, walk,
}
use quick_bite_order_service.Order.Model.{actor_eq, status_eq}

module _ {A : Type 0} (columns : Columns A) (params : PaginationParams) (rows : List A)
    (named : (params.sort_by_field == "") ≡ false) (some_rows : 0 < params.limit)
    (readable : All (IsReadable columns params.sort_by_field) rows)
    (distinct : Pairwise (λ a b. columns.id a ≢ columns.id b) rows) where
  before : A → A → Bool
  before = row_precedes columns params.sort_order params.sort_by_field

  before-asymmetric : (a b : A) → before a b ≡ true → before b a ≡ false
  unfolding before
  before-asymmetric a b =
      precedes-asymmetric params.sort_order (columns.value params.sort_by_field a) (columns.id a)
        (columns.value params.sort_by_field b) (columns.id b)

  before-split : (a b c : A) → before a c ≡ true → (before a b ≡ true) ⊎ (before b c ≡ true)
  unfolding before
  before-split a b c =
      precedes-split params.sort_order (columns.value params.sort_by_field a) (columns.id a)
        (columns.value params.sort_by_field b) (columns.id b) (columns.value params.sort_by_field c)
        (columns.id c)

  sorted : List A
  sorted = sort_by before rows

  sorted-Strict : Strict before sorted
  unfolding before sorted
  sorted-Strict =
      Pairwise-both (λ a b. before b a ≡ false) (λ a b. columns.id a ≢ columns.id b)
        (λ a b. before a b ≡ true) sorted
        (λ a b later other.
          precedes-distinct params.sort_order (columns.value params.sort_by_field a) (columns.id a)
            (columns.value params.sort_by_field b) (columns.id b) other later)
        (Sorted-sort before before-asymmetric before-split rows)
        (Pairwise-sort before (λ a b. columns.id a ≢ columns.id b) rows (λ a b d e. d (sym e))
          distinct)

  sorted-IsReadable : All (IsReadable columns params.sort_by_field) sorted
  unfolding sorted
  sorted-IsReadable = All-sort before (IsReadable columns params.sort_by_field) rows readable

  at_start : Option String → PaginationParams
  at_start cursor = record params { cursor = cursor }

  -- The condition that a cursor at a row stands for.
  is_after-cursor :
      (cursor : Option String) (x y : A)
      → IsReadable columns params.sort_by_field x
      → is_after columns
          (at_start cursor)
          (decode_cursor (cursor_at columns params.sort_by_field x))
          y
        ≡ before x y
  unfolding before at_start
  is_after-cursor cursor x y r =
      ap (λ c. is_after columns params c y)
        (decode_cursor-encode_cursor (columns.value_text (columns.value params.sort_by_field x))
          (columns.id_text (columns.id x)) r.plain)
      ∙ rw (r.value_back, r.id_back) refl

  -- The rows that are left for a client at `cursor`.
  left_at : Option String → List A
  left_at cursor = sort_by before (from_cursor columns (at_start cursor) (given cursor) rows)

  left-behind :
      (ahead behind : List A) (x : A)
      → sorted ≡ ahead ++ x ∷ behind
      → left_at (some (cursor_at columns params.sort_by_field x)) ≡ behind
  unfolding left_at sorted
  left-behind ahead behind x e =
      let r =
        All-middle (IsReadable columns params.sort_by_field) ahead behind x
          (subst (All (IsReadable columns params.sort_by_field)) e sorted-IsReadable) in
      let c = cursor_at columns params.sort_by_field x in
      ap (λ g. sort_by before (from_cursor columns (at_start (some c)) g rows))
        (given-encode_cursor (columns.value_text (columns.value params.sort_by_field x))
          (columns.id_text (columns.id x)))
      ∙ ap (sort_by before) (
          keep-ext (is_after columns (at_start (some c)) (decode_cursor c)) (before x) rows
            (λ y. is_after-cursor (some c) x y r))
      ∙ keep-sort before before-asymmetric before-split (before x) rows
      ∙ ap (keep (before x)) e
      ∙ keep-behind before before-asymmetric before-split ahead behind x
          (subst (Strict before) e sorted-Strict)

  apply-left :
      (cursor : Option String)
      → apply_cursor_pagination columns (at_start cursor) rows
        ≡ take (params.limit + 1) (left_at cursor)
  unfolding apply_cursor_pagination left_at before at_start
  apply-left cursor = rw named refl

  -- From a place where `ahead` has been seen and `rest` is left.
  walk-left :
      (fuel : ℕ) (cursor : Option String) (ahead rest : List A)
      → sorted ≡ ahead ++ rest
      → left_at cursor ≡ rest
      → length rest < fuel
      → walk columns fuel (at_start cursor) rows ≡ rest
  unfolding walk at_start
  walk-left zero cursor ahead rest e l h = absurd (omega (arith, h))
  walk-left (suc fuel) cursor ahead rest e l h =
      by_size (ltb params.limit (length rest)) refl
        (apply-left cursor ∙ ap (take (params.limit + 1)) l)
        (λ c ahead' rest' e' l' h'. walk-left fuel (some c) ahead' rest' e' l' h')
    where
      cut : List A → List A × PaginationMeta
      cut r = build_pagination_result columns r params.limit params.sort_by_field

      joined :
          (page : List A × PaginationMeta) (l : List A) (c : Option String)
          → page.0 ≡ l
          → page.1.next_cursor ≡ c
          → page.0
              ++ follow columns page.1.next_cursor (λ x. walk columns fuel (at_start (some x)) rows)
            ≡ l ++ follow columns c (λ x. walk columns fuel (at_start (some x)) rows)
      joined page l c e0 e1 =
          ap
            (λ a.
              a
              ++ follow columns page.1.next_cursor
                  (λ x. walk columns fuel (at_start (some x)) rows))
            e0
          ∙ ap (λ a. l ++ follow columns a (λ x. walk columns fuel (at_start (some x)) rows)) e1

      by_size :
          (b : Bool)
          → ltb params.limit (length rest) ≡ b
          → apply_cursor_pagination columns (at_start cursor) rows ≡ take (params.limit + 1) rest
          → ((c : String) (ahead' rest' : List A)
              → sorted ≡ ahead' ++ rest'
              → left_at (some c) ≡ rest'
              → length rest' < fuel
              → walk columns fuel (at_start (some c)) rows ≡ rest')
          → (page_at columns (at_start cursor) rows).0
              ++ follow columns
                  (page_at columns (at_start cursor) rows).1.next_cursor
                  (λ c. walk columns fuel (at_start (some c)) rows)
            ≡ rest
      by_size false fits page ih =
          let (all, no_cursor) =
            build_short columns params.sort_by_field params.limit rest (ground (arith, fits)) in
          joined (page_at columns (at_start cursor) rows) rest none (ap (λ r. (cut r).0) page ∙ all)
            (ap (λ r. (cut r).1.next_cursor) page ∙ no_cursor)
          ∙ append-nil rest
      by_size true more page ih =
          let f = Front-of params.limit rest some_rows (ground (arith, more)) in
          let (front, at_last) =
            build_long columns params.sort_by_field params.limit rest f (ground (arith, more)) in
          let whole : sorted ≡ (ahead ++ f.ahead) ++ f.last ∷ f.behind =
            e
            ∙ ap (λ r. ahead ++ r) f.whole
            ∙ sym (append_assoc ahead f.ahead (f.last ∷ f.behind)) in
          let seen : sorted ≡ ((ahead ++ f.ahead) ++ f.last ∷ []) ++ f.behind =
            whole ∙ sym (append_assoc (ahead ++ f.ahead) (f.last ∷ []) f.behind) in
          let shorter : length f.behind < fuel =
            omega (arith, h, ap length f.whole, length-append f.ahead (f.last ∷ f.behind)) in
          joined (page_at columns (at_start cursor) rows) (f.ahead ++ f.last ∷ [])
            (some (cursor_at columns params.sort_by_field f.last))
            (ap (λ r. (cut r).0) page ∙ front) (ap (λ r. (cut r).1.next_cursor) page ∙ at_last)
          ∙ ap (λ r. (f.ahead ++ f.last ∷ []) ++ r)
              (ih (cursor_at columns params.sort_by_field f.last)
                ((ahead ++ f.ahead) ++ f.last ∷ []) f.behind seen
                (left-behind (ahead ++ f.ahead) f.behind f.last whole) shorter)
          ∙ append_assoc f.ahead (f.last ∷ []) f.behind
          ∙ sym f.whole

  -- A client that follows the cursors from the first page, over rows that have pairwise different ids and
  -- whose cursors are read back as they were written, gets every row exactly once, in the order of the
  -- query, with at most one request for each row and one more, whatever limit above 0 it asks for.
  pub walk-sorted :
      (fuel : ℕ)
      → length rows < fuel
      → walk columns fuel (record params { cursor = none }) rows
        ≡ sort_by (row_precedes columns params.sort_order params.sort_by_field) rows
  unfolding at_start left_at sorted before
  walk-sorted fuel h =
      walk-left fuel none [] sorted refl refl (omega (arith, h, length-sort before rows))
