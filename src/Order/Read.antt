-- ===== src/Order/Read.antt =====
-- The reads of `src/app/order/service/order.service.ts`. Rows of earlier years stand in the archive, a
-- cluster of its own.
pub mod Granted
pub mod Listed
pub mod Owned
pub mod Branch
use quick_bite_order_service.Common.{
  Bool, List, Option, String, [], contains, false, if◌then◌else◌, keep, leb, ltb, map, nat_eq, none,
  not, some, sort_by, string_eq, suc, true, ℕ, ◌++◌, ◌==◌, ◌∷◌,
}
use quick_bite_order_service.Errors.{Result, err, ok, order_not_found}
use quick_bite_order_service.Http.Cursor.{
  Columns, PaginationParams, SortOrder, asc, build_pagination_result, desc,
}
use quick_bite_order_service.Order.Access.{assert_read_access, can_read_archive}
use quick_bite_order_service.Order.Model.{
  ActorContext, OrderEntity, OrderItemEntity, actor_eq, status_eq,
}
use quick_bite_order_service.Order.Queries.{
  ListCustomerOrdersFilter, ListRestaurantOrdersFilter, ListResult, count_items_by_order_ids,
  find_orders_by_customer, find_orders_by_restaurant_branch, find_orders_for_backfill,
}
use quick_bite_order_service.Order.Repository.{find_items_by_order_ids, find_order_by_public_id}
use quick_bite_order_service.Order.Responses.{
  OrderDetailResponse, OrderHistoryResponse, build_history, detail_response, history_response,
}
use quick_bite_order_service.World.Monad.{
  M, archive_query, clock, lift, pure, query, throw, ◌>>=◌, ◌>>◌,
}
use quick_bite_order_service.World.State.{Db, OrderSummaryResponse, World, summary_response}

-- `db(region)` and `dbArchive(region)`
pub data Cluster : Type 0 where
  hot archived : Cluster

abbrev pub one_of : Cluster → Db → Db → Db
one_of hot recent old = recent
one_of archived recent old = old

abbrev pub tables_of : Cluster → World → Db
tables_of at w = one_of at w.db w.archive

abbrev pub query_at : {A : Type 0} → Cluster → (ℕ → Db → A) → M A
query_at hot f = query f
query_at archived f = archive_query f

abbrev pub from_archive : Option OrderEntity → Result (OrderEntity × Cluster)
from_archive none = err order_not_found
from_archive (some o) = ok (o, archived)

-- The order, and the cluster where it was found.
abbrev pub or_from_archive : ActorContext → String → Option OrderEntity → M (OrderEntity × Cluster)
or_from_archive actor public_id (some o) = pure (o, hot)
or_from_archive actor public_id none =
    if can_read_archive actor
    then archive_query (find_order_by_public_id public_id) >>= (λ found. lift (from_archive found))
    else throw order_not_found

-- `getOrder`
unfoldable pub get_order : ActorContext → String → M OrderDetailResponse
unfolding find_order_by_public_id assert_read_access find_items_by_order_ids build_history
get_order actor public_id = do
  in_hot ← query (find_order_by_public_id public_id)
  (o, at) ← or_from_archive actor public_id in_hot
  lift (assert_read_access actor o)
  items ← query_at at (find_items_by_order_ids (o.id ∷ []))
  pure (detail_response o items)

-- `getUTCFullYear()` of an instant, and `Date.UTC(year, 0, 1)`.
pub record Calendar : Type 0 where
  pub year_of : ℕ → ℕ
  pub year_start : ℕ → ℕ

abbrev pub cluster_of_year : Calendar → ℕ → ℕ → Cluster
cluster_of_year calendar year now = if ltb year (calendar.year_of now) then archived else hot

abbrev pub ids_of : List OrderEntity → List ℕ
ids_of orders = map (λ o. o.id) orders

-- No query is made for no orders.
abbrev pub counts_at : Cluster → List ℕ → M (ℕ → ℕ)
counts_at at [] = pure (λ id. 0)
counts_at at (id ∷ ids) = query_at at (count_items_by_order_ids (id ∷ ids))

abbrev pub items_at : Cluster → List ℕ → M (List OrderItemEntity)
items_at at [] = pure []
items_at at (id ∷ ids) = query_at at (find_items_by_order_ids (id ∷ ids))

-- `hotIds.has(o.id)`
abbrev pub is_among : List OrderEntity → OrderEntity → Bool
is_among orders o = contains (ids_of orders) o.id

abbrev pub summaries : (ℕ → ℕ) → List OrderEntity → List OrderSummaryResponse
summaries counts orders = map (λ o. summary_response o (counts o.id)) orders

-- A page of one cluster, with the number of items of each order.
abbrev pub list_at :
    Cluster → (ℕ → Db → ListResult OrderEntity) → M (ListResult OrderSummaryResponse)
list_at at find_page = do
  result ← query_at at find_page
  counts ← counts_at at (ids_of result.page)
  pure (record { page = summaries counts result.page; meta = result.meta })

-- The comparator of the merge, which takes only the time.
abbrev pub merge_before : SortOrder → OrderEntity → OrderEntity → Bool
merge_before asc a b = ltb a.created_at b.created_at
merge_before desc a b = ltb b.created_at a.created_at

-- `archiveOnly`
abbrev pub archive_only : Option ℕ → ℕ → Bool
archive_only none year_start = false
archive_only (some to) year_start = leb to year_start

-- `!from || from >= yearStart`
abbrev pub starts_recently : Option ℕ → ℕ → Bool
starts_recently none year_start = true
starts_recently (some from) year_start = leb year_start from

-- The number of items of an order in the merged map of counts.
abbrev pub count_in : List OrderEntity → (ℕ → ℕ) → (ℕ → ℕ) → OrderEntity → ℕ
count_in recent hot_counts old_counts o =
    if is_among recent o then hot_counts o.id else old_counts o.id

abbrev pub summaries_of : (OrderEntity → ℕ) → List OrderEntity → List OrderSummaryResponse
summaries_of items orders = map (λ o. summary_response o (items o)) orders

abbrev pub customer_filter : Calendar → ActorContext → ℕ → ListCustomerOrdersFilter
customer_filter calendar actor year = record {
  customer_id = actor.user_id;
  year_start = calendar.year_start year;
  year_end = calendar.year_start (suc year);
}

module _ (columns : Columns OrderEntity) (calendar : Calendar) where
  -- `listCustomerOrders`
  unfoldable pub list_customer_orders :
      ActorContext → ℕ → PaginationParams → M (ListResult OrderSummaryResponse)
  unfolding find_orders_by_customer
  list_customer_orders actor year pagination = do
    now ← clock
    list_at (cluster_of_year calendar year now)
        (find_orders_by_customer columns (customer_filter calendar actor year) pagination)

  -- The end of `listRestaurantOrdersAcrossClusters`
  unfoldable pub merge_pages :
      List OrderEntity → List OrderEntity → PaginationParams → M (ListResult OrderSummaryResponse)
  unfolding build_pagination_result sort_by
  merge_pages recent old pagination = do
    let merged = sort_by (merge_before pagination.sort_order) (recent ++ old)
    let result = build_pagination_result columns merged pagination.limit pagination.sort_by_field
    hot_counts ← counts_at hot (ids_of (keep (is_among recent) result.0))
    old_counts ← counts_at archived (ids_of (keep (λ o. not (is_among recent o)) result.0))
    pure (record {
      page = summaries_of (count_in recent hot_counts old_counts) result.0;
      meta = result.1;
    })

  -- `listRestaurantOrdersAcrossClusters`; the two queries start at once, and neither changes anything.
  unfoldable pub list_across_clusters :
      ListRestaurantOrdersFilter
      → ℕ
      → (OrderEntity → Bool)
      → PaginationParams
      → M (ListResult OrderSummaryResponse)
  unfolding find_orders_by_restaurant_branch merge_pages
  list_across_clusters filter year_start extra pagination = do
    recent ← query_at hot (
        find_orders_by_restaurant_branch columns (record filter { from = some year_start })
          pagination extra)
    old ← query_at archived (
        find_orders_by_restaurant_branch columns (record filter { to = some year_start }) pagination
          extra)
    merge_pages recent.page old.page pagination

  -- `listRestaurantOrders`
  unfoldable pub list_restaurant_orders :
      ListRestaurantOrdersFilter
      → (OrderEntity → Bool)
      → PaginationParams
      → M (ListResult OrderSummaryResponse)
  unfolding find_orders_by_restaurant_branch list_across_clusters
  list_restaurant_orders filter extra pagination = do
    now ← clock
    let year_start = calendar.year_start (calendar.year_of now)
    if archive_only filter.to year_start
        then list_at archived (find_orders_by_restaurant_branch columns filter pagination extra)
        else if starts_recently filter.from year_start
        then list_at hot (find_orders_by_restaurant_branch columns filter pagination extra)
        else list_across_clusters filter year_start extra pagination

  -- `listOrdersForBackfill`
  unfoldable pub list_orders_for_backfill :
      ℕ → PaginationParams → M (ListResult OrderHistoryResponse)
  unfolding find_orders_for_backfill
  list_orders_for_backfill year pagination = do
    now ← clock
    let at = cluster_of_year calendar year now
    result ← query_at at (
        find_orders_for_backfill columns (calendar.year_start year) (calendar.year_start (suc year))
          pagination)
    items ← items_at at (ids_of result.page)
    pure (record {
      page = map (λ o. history_response o (keep (λ i. i.order_id == o.id) items)) result.page;
      meta = result.meta;
    })
