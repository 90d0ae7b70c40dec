-- ===== src/Http/Cursor/Walk.antt =====
-- A client that follows the cursors from page to page.
pub mod Complete
use quick_bite_order_service.Common.{
  Bool-cases, List, Option, String, [], arith, false, inl, inr, none, some, suc, true, zero, ℕ,
  ◌++◌, ◌≡◌, ◌≢◌, ◌⊎◌,
}
use quick_bite_order_service.Http.Cursor.{
  Columns, PaginationMeta, PaginationParams, SortOrder, apply_cursor_pagination, asc,
  build_pagination_result, desc, precedes,
}
use quick_bite_order_service.Http.Cursor.RoundTrip.{no_bar}

pub precedes-asymmetric :
    (order : SortOrder) (v i w j : ℕ)
    → precedes order v i w j ≡ true
    → precedes order w j v i ≡ false
precedes-asymmetric asc v i w j h = ground arith
precedes-asymmetric desc v i w j h = ground arith

pub precedes-split :
    (order : SortOrder) (v i u k w j : ℕ)
    → precedes order v i w j ≡ true
    → (precedes order v i u k ≡ true) ⊎ (precedes order u k w j ≡ true)
precedes-split asc v i u k w j h = elim (Bool-cases (precedes asc v i u k)) [
  | inl first ↦ inl first
  | inr late ↦ inr (ground (arith, late))
]
precedes-split desc v i u k w j h = elim (Bool-cases (precedes desc v i u k)) [
  | inl first ↦ inl first
  | inr late ↦ inr (ground (arith, late))
]

pub precedes-distinct :
    (order : SortOrder) (v i w j : ℕ)
    → i ≢ j
    → precedes order w j v i ≡ false
    → precedes order v i w j ≡ true
precedes-distinct asc v i w j h k = ground (arith, h)
precedes-distinct desc v i w j h k = ground (arith, h)

module _ {A : Type 0} (columns : Columns A) where
  -- What a cursor says about a row is read back: the text of its value as the value, that of its id as
  -- the id, and an id is written without bars.
  pub record IsReadable (field : String) (row : A) : Type 0 where
    pub value_back :
        columns.read_value (columns.value_text (columns.value field row)) ≡ columns.value field row
    pub id_back : columns.read_id (columns.id_text (columns.id row)) ≡ columns.id row
    pub plain : no_bar (columns.id_text (columns.id row)) ≡ true

  -- One page of the table.
  abbrev pub page_at : PaginationParams → List A → List A × PaginationMeta
  page_at params rows =
      build_pagination_result columns (apply_cursor_pagination columns params rows) params.limit
        params.sort_by_field

  abbrev pub follow : Option String → (String → List A) → List A
  follow none k = []
  follow (some cursor) k = k cursor

  abbrev pub at_cursor : PaginationParams → String → PaginationParams
  at_cursor params cursor = record params { cursor = some cursor }

  -- The rows of all pages, for a client that starts with `params` and asks at most `fuel` times.
  unfoldable pub walk : ℕ → PaginationParams → List A → List A
  walk zero params rows = []
  walk (suc fuel) params rows =
      (page_at params rows).0
      ++ follow (page_at params rows).1.next_cursor (λ c. walk fuel (at_cursor params c) rows)
