-- ===== src/Tests/Pagination.antt =====
-- Pages of a small table.
use quick_bite_order_service.Common.{
  List, String, [], arith, if◌then◌else◌, insert_by, nat_eq, none, refl, some, sort_by, string_eq,
  true, ℕ, ◌==◌, ◌∷◌, ◌≡◌,
}
use quick_bite_order_service.Http.Cursor.{
  Columns, PaginationParams, apply_cursor_pagination, build_pagination_result, decode_cursor, desc,
  encode_cursor, row_precedes, split_last,
}
use quick_bite_order_service.Http.Cursor.RoundTrip.{decode_cursor-encode_cursor, no_bar}
use quick_bite_order_service.Http.Cursor.Walk.{IsReadable, walk}
use quick_bite_order_service.Http.Cursor.Walk.Complete.{walk-sorted}
use quick_bite_order_service.Order.Model.{actor_eq, status_eq}

abbrev digit : ℕ → String
digit n = if n == 1 then "1" else if n == 2 then "2" else "3"

abbrev number : String → ℕ
number text = if text == "1" then 1 else if text == "2" then 2 else 3

-- Rows of a time of creation and an id.
abbrev columns : Columns (ℕ × ℕ)
columns = record {
  value = λ field row. row.0;
  id = λ row. row.1;
  value_text = digit;
  id_text = digit;
  read_value = number;
  read_id = number;
}

-- The first two rows have the same time.
abbrev rows : List (ℕ × ℕ)
rows = (1, 1) ∷ (1, 2) ∷ (2, 3) ∷ []

abbrev params : PaginationParams
params = record { cursor = none; limit = 1; sort_by_field = "createdAt"; sort_order = desc }

decode_cursor-encode_cursor_example :
    decode_cursor (encode_cursor "a||b" (some "17")) ≡ ("a||b", some "17")
decode_cursor-encode_cursor_example = decode_cursor-encode_cursor "a||b" "17" refl

readable :
    (t i : ℕ)
    → number (digit t) ≡ t
    → number (digit i) ≡ i
    → no_bar (digit i) ≡ true
    → IsReadable columns "createdAt" (t, i)
readable t i h k l = record { value_back = h; id_back = k; plain = l }

walk-sorted_example :
    walk columns 4 params rows ≡ sort_by (row_precedes columns desc "createdAt") rows
walk-sorted_example =
    walk-sorted columns params rows refl (omega arith)
      (
        readable 1 1 refl refl refl,
        (readable 1 2 refl refl refl, (readable 2 3 refl refl refl, tt)),
      )
      (
        ((λ e. omega (arith, e)), ((λ e. omega (arith, e)), tt)),
        (((λ e. omega (arith, e)), tt), (tt, tt)),
      )
      4 (omega arith)

-- The three pages of one row each, latest first.
walk_rows : walk columns 4 params rows ≡ (2, 3) ∷ (1, 2) ∷ (1, 1) ∷ []
unfolding walk build_pagination_result apply_cursor_pagination sort_by insert_by encode_cursor
    decode_cursor split_last
walk_rows = refl
