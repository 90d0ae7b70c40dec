-- ===== src/Order/Queries.antt =====
-- The paged reads of orders: `src/app/order/repository/order.repo.ts`, and the count of their items in
-- `order-item.repo.ts`.
use quick_bite_order_service.Common.{
  Bool, List, Option, [], contains, false, is_some, keep, leb, length, ltb, nat_eq, none, not, some,
  sort_by, string_eq, take, true, ℕ, ◌&&◌, ◌==◌, ◌∷◌,
}
use quick_bite_order_service.Http.Cursor.{
  Columns, PaginationMeta, PaginationParams, apply_cursor_pagination, build_pagination_result,
}
use quick_bite_order_service.Order.Model.{
  OrderEntity, OrderStatus, actor_eq, pending_payment, status_eq,
}
use quick_bite_order_service.Order.Repository.{is_agent_of}
use quick_bite_order_service.World.State.{Db}

pub record ListCustomerOrdersFilter : Type 0 where
  pub customer_id : ℕ
  pub year_start : ℕ
  pub year_end : ℕ

pub record ListRestaurantOrdersFilter : Type 0 where
  pub restaurant_id : ℕ
  pub branch_id : ℕ
  pub status : Option OrderStatus
  pub from : Option ℕ
  pub to : Option ℕ

-- `page` is the field `data`.
pub record ListResult (A : Type 0) : Type 0 where
  pub page : List A
  pub meta : PaginationMeta

-- `created_at >= from`
abbrev pub since : Option ℕ → OrderEntity → Bool
since none o = true
since (some from) o = leb from o.created_at

-- `created_at < to`
abbrev pub until : Option ℕ → OrderEntity → Bool
until none o = true
until (some to) o = ltb o.created_at to

abbrev pub in_status : Option OrderStatus → OrderEntity → Bool
in_status none o = true
in_status (some s) o = o.status == s

abbrev pub matches_customer : ListCustomerOrdersFilter → OrderEntity → Bool
matches_customer filter o =
    o.customer_id == filter.customer_id
    && (since (some filter.year_start) o && until (some filter.year_end) o)

-- `extra` is what `applyFilters` adds.
abbrev pub matches_branch : ListRestaurantOrdersFilter → (OrderEntity → Bool) → OrderEntity → Bool
matches_branch filter extra o =
    (o.restaurant_id == filter.restaurant_id && o.branch_id == filter.branch_id)
    && (in_status filter.status o && (since filter.from o && (until filter.to o && extra o)))

abbrev pub matches_year : ℕ → ℕ → OrderEntity → Bool
matches_year year_start year_end o =
    not (o.status == pending_payment) && (since (some year_start) o && until (some year_end) o)

module _ (columns : Columns OrderEntity) where
  -- The end of each of these functions: one page of the rows that the query finds.
  unfoldable pub page_of : PaginationParams → List OrderEntity → ListResult OrderEntity
  unfolding apply_cursor_pagination build_pagination_result
  page_of pagination rows =
      let result =
        build_pagination_result columns (apply_cursor_pagination columns pagination rows)
          pagination.limit pagination.sort_by_field in
      record { page = result.0; meta = result.1 }

  unfoldable pub find_orders_by_customer :
      ListCustomerOrdersFilter → PaginationParams → ℕ → Db → ListResult OrderEntity
  unfolding page_of
  find_orders_by_customer filter pagination now d =
      page_of pagination (keep (matches_customer filter) d.orders.rows)

  unfoldable pub find_orders_by_restaurant_branch :
      ListRestaurantOrdersFilter
      → PaginationParams
      → (OrderEntity → Bool)
      → ℕ
      → Db
      → ListResult OrderEntity
  unfolding page_of
  find_orders_by_restaurant_branch filter pagination extra now d =
      page_of pagination (keep (matches_branch filter extra) d.orders.rows)

  unfoldable pub find_orders_for_backfill :
      ℕ → ℕ → PaginationParams → ℕ → Db → ListResult OrderEntity
  unfolding page_of
  find_orders_for_backfill year_start year_end pagination now d =
      page_of pagination (keep (matches_year year_start year_end) d.orders.rows)

abbrev pub assigned_later : OrderEntity → OrderEntity → Bool
assigned_later a b = elim a.assigned_at [
  | none ↦ is_some b.assigned_at
  | some x ↦ elim b.assigned_at [ none ↦ false | some y ↦ ltb y x ]
]

abbrev pub has_status_of : Option (List OrderStatus) → OrderEntity → Bool
has_status_of none o = true
has_status_of (some []) o = true
has_status_of (some (s ∷ ss)) o = contains (s ∷ ss) o.status

-- Sorted downwards, PostgreSQL puts the rows without a time first.
unfoldable pub find_agent_tasks : ℕ → Option (List OrderStatus) → ℕ → ℕ → Db → List OrderEntity
unfolding sort_by
find_agent_tasks agent_id statuses limit now d = take limit (
    sort_by assigned_later
      (keep (λ o. is_agent_of agent_id o && has_status_of statuses o) d.orders.rows))

-- What `counts.get(id) ?? 0` gives: the map has the orders among `order_ids` that have an item.
unfoldable pub count_items_by_order_ids : List ℕ → ℕ → Db → ℕ → ℕ
count_items_by_order_ids order_ids now d id =
    length (keep (λ i. contains order_ids i.order_id && i.order_id == id) d.order_items.rows)
