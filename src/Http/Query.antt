-- ===== src/Http/Query.antt =====
-- What a request may ask of a paged read: `src/lib/http/pagination/parse-query.ts`.
use quick_bite_order_service.Common.{
  Bool, List, Option, String, arith, contains, false, if◌then◌else◌, inl, inr, ltb, nat_eq, none,
  refl, some, string_eq, suc, true, zero, ℕ, ◌<◌, ◌==◌, ◌≡◌, ◌≤◌, ◌⊎◌,
}
use quick_bite_order_service.Http.Cursor.{PaginationParams, SortOrder, asc, desc}
use quick_bite_order_service.Order.Model.{actor_eq, status_eq}
use quick_bite_order_service.World.Monad.{query}

-- The query string, with `limit` as `Number` reads it: nothing if it is absent or no finite number above
-- 0. A fraction is not taken into account.
pub record PageQuery : Type 0 where
  pub cursor : Option String
  pub limit : Option ℕ
  pub sort_by_field : Option String
  pub sort_order : Option String

abbrev pub default_limit : ℕ
default_limit = 20

abbrev pub max_limit : ℕ
max_limit = 100

abbrev pub default_sort_by : String
default_sort_by = "createdAt"

-- `Number.isFinite(parsedLimit) && parsedLimit > 0 ? Math.min(MAX_LIMIT, parsedLimit) : DEFAULT_LIMIT`
unfoldable pub limit_of : Option ℕ → ℕ
limit_of none = default_limit
limit_of (some zero) = default_limit
limit_of (some (suc n)) = if ltb max_limit (suc n) then max_limit else suc n

unfoldable pub sort_field_of : List String → Option String → String
sort_field_of allowed none = default_sort_by
sort_field_of allowed (some field) = if contains allowed field then field else default_sort_by

abbrev pub sort_order_of : Option String → SortOrder
sort_order_of none = desc
sort_order_of (some text) = if text == "asc" then asc else desc

-- `parsePaginationQuery`
unfoldable pub parse_pagination_query : PageQuery → List String → PaginationParams
unfolding limit_of sort_field_of
parse_pagination_query query allowed = record {
  cursor = query.cursor;
  limit = limit_of query.limit;
  sort_by_field = sort_field_of allowed query.sort_by_field;
  sort_order = sort_order_of query.sort_order;
}

-- A page holds at least one row and at most a hundred, and is sorted by an allowed field or by the time
-- of creation, whatever the request says.
pub parse_pagination_query_bounds :
    (query : PageQuery) (allowed : List String)
    → let params = parse_pagination_query query allowed in
      (0 < params.limit)
      × (params.limit ≤ 100)
      × ((contains allowed params.sort_by_field ≡ true) ⊎ (params.sort_by_field ≡ "createdAt"))
unfolding parse_pagination_query limit_of sort_field_of
parse_pagination_query_bounds query allowed =
    let (least, most) = bounds query.limit in (least, most, field query.sort_by_field)
  where
    bounds : (l : Option ℕ) → (0 < limit_of l) × (limit_of l ≤ 100)
    bounds none = (omega arith, omega arith)
    bounds (some zero) = (omega arith, omega arith)
    bounds (some (suc n)) = (ground arith, ground arith)

    field :
        (f : Option String)
        → (contains allowed (sort_field_of allowed f) ≡ true)
          ⊎ (sort_field_of allowed f ≡ "createdAt")
    field none = inr refl
    field (some f) = chosen f (contains allowed f) refl
      where
        chosen :
            (g : String) (b : Bool)
            → contains allowed g ≡ b
            → (contains allowed (if b then g else "createdAt") ≡ true)
              ⊎ ((if b then g else "createdAt") ≡ "createdAt")
        chosen g true e = inl e
        chosen g false e = inr refl
