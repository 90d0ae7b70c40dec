-- ===== src/Http/Cursor.antt =====
-- Pages of a table by a cursor: `src/lib/http/pagination/cursor-pagination.ts`.
pub mod RoundTrip
pub mod Order
pub mod Pages
pub mod Walk
use Prim.Native.Char.{Char, code}
use Prim.Native.String.{◌++◌}
use quick_bite_order_service.Common.{
  Bool, List, Option, String, [], if◌then◌else◌, keep, length, ltb, nat_beq, nat_eq, none, some,
  sort_by, string_eq, take, ℕ, ◌&&◌, ◌+◌, ◌==◌, ◌||◌, ◌∷◌,
}
use quick_bite_order_service.Order.Model.{actor_eq, status_eq}

pub data SortOrder : Type 0 where
  asc desc : SortOrder

pub record PaginationParams : Type 0 where
  pub cursor : Option String
  pub limit : ℕ
  pub sort_by_field : String
  pub sort_order : SortOrder

pub record PaginationMeta : Type 0 where
  pub next_cursor : Option String
  pub has_more : Bool
  pub count : ℕ

-- The column of a field has its name in snake case, so `value` takes the field.
-- What the functions take from the database and from JavaScript: the value of a column in a row and
-- that of its `id`, how `Date` and `String` write them into a cursor, and how the database reads them.
pub record Columns (A : Type 0) : Type 0 where
  pub value : String → A → ℕ
  pub id : A → ℕ
  pub value_text : ℕ → String
  pub id_text : ℕ → String
  pub read_value : String → ℕ
  pub read_id : String → ℕ

-- `encodeCursor`: the separator stands between the value and the id.
unfoldable pub encode_cursor : String → Option String → String
encode_cursor sort_value none = sort_value
encode_cursor sort_value (some id) = sort_value ++ ("||" ++ id)

-- `c` and the text after it begin with the separator; what follows the separator.
abbrev pub after_bars : Char → String → Option String
after_bars c String.[] = none
after_bars c (String.◌∷◌ d rest) =
    if nat_beq (code c) 124 && nat_beq (code d) 124 then some rest else none

-- The text before the last separator, and the text after it: `lastIndexOf` and the two `slice`s.
unfoldable pub split_last : String → Option (String × String)
split_last String.[] = none
split_last (String.◌∷◌ c s) =
    let later = split_last s in
    elim later [
      | some (before, after) ↦ some (String.◌∷◌ c before, after)
      | none ↦ elim (after_bars c s) [ none ↦ none | some rest ↦ some ("", rest) ]
    ]

abbrev pub cursor_parts : String → Option (String × String) → String × Option String
cursor_parts cursor none = (cursor, none)
cursor_parts cursor (some (value, id)) = (value, some id)

-- `decodeCursor`
unfoldable pub decode_cursor : String → String × Option String
decode_cursor cursor = cursor_parts cursor (split_last cursor)

-- `cursor` is falsy if it is empty.
abbrev pub given : Option String → Option String
given none = none
given (some String.[]) = none
given (some (String.◌∷◌ c s)) = some (String.◌∷◌ c s)

-- `>` or `<`, by the order.
abbrev pub beyond : SortOrder → ℕ → ℕ → Bool
beyond asc bound x = ltb bound x
beyond desc bound x = ltb x bound

-- One pair of a value and an id comes before another.
abbrev pub precedes : SortOrder → ℕ → ℕ → ℕ → ℕ → Bool
precedes order v i x j = beyond order v x || (x == v && beyond order i j)

abbrev pub last_of : {A : Type 0} → List A → Option A
last_of [] = none
last_of (x ∷ []) = some x
last_of (x ∷ y ∷ ys) = last_of (y ∷ ys)

module _ {A : Type 0} (columns : Columns A) where
  -- The condition of `where`, from the cursor.
  abbrev pub is_after : PaginationParams → String × Option String → A → Bool
  is_after params (text, none) row =
      beyond params.sort_order (columns.read_value text) (columns.value params.sort_by_field row)
  is_after params (text, some id) row =
      precedes params.sort_order (columns.read_value text) (columns.read_id id)
        (columns.value params.sort_by_field row) (columns.id row)

  -- `orderBy(column).orderBy("id")`
  abbrev pub row_precedes : SortOrder → String → A → A → Bool
  row_precedes order field a b =
      precedes order (columns.value field a) (columns.id a) (columns.value field b) (columns.id b)

  abbrev pub from_cursor : PaginationParams → Option String → List A → List A
  from_cursor params none rows = rows
  from_cursor params (some cursor) rows = keep (is_after params (decode_cursor cursor)) rows

  -- `applyCursorPagination`, on the rows that the query has otherwise.
  unfoldable pub apply_cursor_pagination : PaginationParams → List A → List A
  unfolding sort_by
  apply_cursor_pagination params rows =
      if params.sort_by_field == ""
      then rows
      else take (params.limit + 1) (
          sort_by (row_precedes params.sort_order params.sort_by_field)
            (from_cursor params (given params.cursor) rows))

  abbrev pub cursor_at : String → A → String
  cursor_at field row =
      encode_cursor (columns.value_text (columns.value field row))
        (some (columns.id_text (columns.id row)))

  abbrev pub next_cursor_of : String → Bool → Option A → Option String
  next_cursor_of field has_more none = none
  next_cursor_of field has_more (some last) = if has_more then some (cursor_at field last) else none

  -- `buildPaginationResult`; no row lacks the field or the id.
  unfoldable pub build_pagination_result : List A → ℕ → String → List A × PaginationMeta
  build_pagination_result rows limit field =
      let has_more = ltb limit (length rows) in
      let page = if has_more then take limit rows else rows in
      (
        page,
        record {
          next_cursor = next_cursor_of field has_more (last_of page);
          has_more = has_more;
          count = length page;
        },
      )
