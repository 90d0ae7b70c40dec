-- ===== src/Order/Read/Branch.antt =====
-- The list of a branch: `listRestaurantOrders`, over one cluster or both.
use quick_bite_order_service.Common.{
  All, Bool, List, arith, false, if◌then◌else◌, keep, map, not, refl, some, sort_by, subst, sym,
  true, ℕ, ◌++◌, ◌≡◌,
}
use quick_bite_order_service.Http.Cursor.{
  Columns, PaginationMeta, PaginationParams, build_pagination_result,
}
use quick_bite_order_service.Http.Cursor.Order.{All-sort, All-weaken}
use quick_bite_order_service.Order.Model.{OrderEntity}
use quick_bite_order_service.Order.Queries.{
  ListRestaurantOrdersFilter, ListResult, find_orders_by_restaurant_branch, matches_branch,
}
use quick_bite_order_service.Order.Read.{
  Calendar, Cluster, archive_only, archived, count_in, counts_at, hot, ids_of, is_among,
  list_across_clusters, list_at, list_restaurant_orders, merge_before, merge_pages, starts_recently,
  summaries, summaries_of, tables_of,
}
use quick_bite_order_service.Order.Read.Granted.{query_at-Reads}
use quick_bite_order_service.Order.Read.Listed.{
  All-append, All-kept, All-page, Shows, counts_at-Reads, item_count, list_at-Shows, page_of-All,
}
use quick_bite_order_service.World.Reads.{Reads, Reads-bind, Reads-weaken, at_faults}
use quick_bite_order_service.World.State.{Db, OrderSummaryResponse, World, summary_response}

abbrev pub OfBranch : ListRestaurantOrdersFilter → OrderEntity → Type 0
OfBranch filter o = (o.restaurant_id ≡ filter.restaurant_id) × (o.branch_id ≡ filter.branch_id)

matches_branch-OfBranch :
    (P : OrderEntity → Type 0) (filter : ListRestaurantOrdersFilter) (extra : OrderEntity → Bool)
    (o : OrderEntity)
    → P o × (matches_branch filter extra o ≡ true)
    → P o × OfBranch filter o
matches_branch-OfBranch P filter extra o (p, h) = (p, (ground (arith, h), ground (arith, h)))

module _ (columns : Columns OrderEntity) (filter : ListRestaurantOrdersFilter)
    (extra : OrderEntity → Bool) (pagination : PaginationParams) (P : OrderEntity → Type 0) where
  found-OfBranch :
      (now : ℕ) (d : Db)
      → All P d.orders.rows
      → All
          (λ o. P o × OfBranch filter o)
          (find_orders_by_restaurant_branch columns filter pagination extra now d).page
  unfolding find_orders_by_restaurant_branch
  found-OfBranch now d h =
      page_of-All columns pagination (λ o. P o × OfBranch filter o)
        (keep (matches_branch filter extra) d.orders.rows)
        (All-weaken (λ o. P o × (matches_branch filter extra o ≡ true))
          (λ o. P o × OfBranch filter o) _ (matches_branch-OfBranch P filter extra)
          (All-kept P (matches_branch filter extra) d.orders.rows h))

counted :
    (at : Cluster) (w : World) (orders : List OrderEntity)
    → Reads (λ _. Unit {0}) w (counts_at at (ids_of orders) w)
counted at w orders =
    Reads-weaken
      (λ counts.
        summaries counts orders
        ≡ map (λ o. summary_response o (item_count (tables_of at w) o)) orders)
      (λ _. Unit) w (counts_at at (ids_of orders) w) (counts_at-Reads at w orders) (λ _ _. tt)

-- The page shows orders of the branch.
abbrev pub ShowsBranch :
    ListRestaurantOrdersFilter → (OrderEntity → Type 0) → ListResult OrderSummaryResponse → Type 0
ShowsBranch filter P r =
    (items : OrderEntity → ℕ) × Shows (All (λ o. P o × OfBranch filter o)) items r

module _ (columns : Columns OrderEntity) (calendar : Calendar) (filter : ListRestaurantOrdersFilter)
    (extra : OrderEntity → Bool) (pagination : PaginationParams) (P : OrderEntity → Type 0)
    (w : World) (in_hot : All P w.db.orders.rows) (in_archive : All P w.archive.orders.rows) where
  one-ShowsBranch :
      (at : Cluster)
      → All P (tables_of at w).orders.rows
      → Reads
          (ShowsBranch filter P)
          w
          (list_at at (find_orders_by_restaurant_branch columns filter pagination extra) w)
  one-ShowsBranch at h =
      Reads-weaken (Shows (All (λ o. P o × OfBranch filter o)) (item_count (tables_of at w)))
        (ShowsBranch filter P) w _
        (list_at-Shows (All (λ o. P o × OfBranch filter o)) at w _
          (found-OfBranch columns filter extra pagination P w.now (tables_of at w) h))
        (λ r s. (item_count (tables_of at w), s))

  Q : OrderEntity → Type 0
  Q o = P o × OfBranch filter o

  merge_pages-ShowsBranch :
      (recent old : List OrderEntity) (fs : List Bool)
      → All Q recent
      → All Q old
      → Reads
          (ShowsBranch filter P)
          (at_faults w fs)
          (merge_pages columns calendar recent old pagination (at_faults w fs))
  unfolding merge_pages Q
  merge_pages-ShowsBranch recent old fs h k =
      Reads-bind (λ _. Unit) (ShowsBranch filter P) (at_faults w fs) _ _
        (counted hot (at_faults w fs) (keep (is_among recent) result))
        (λ hot_counts gs _.
          Reads-bind (λ _. Unit) (ShowsBranch filter P) (at_faults w gs) _
            (counts_at archived (ids_of (keep (λ o. not (is_among recent o)) result))
              (at_faults w gs))
            (counted archived (at_faults w gs) (keep (λ o. not (is_among recent o)) result))
            (λ old_counts hs _. (hs, refl, shown (count_in recent hot_counts old_counts))))
    where
      merged : List OrderEntity
      merged = sort_by (merge_before pagination.sort_order) (recent ++ old)

      result : List OrderEntity
      result = (build_pagination_result columns merged pagination.limit pagination.sort_by_field).0

      meta : PaginationMeta
      meta = (build_pagination_result columns merged pagination.limit pagination.sort_by_field).1

      shown :
          (items : OrderEntity → ℕ)
          → ShowsBranch filter P (record { page = summaries_of items result; meta = meta })
      shown items = (
        items,
        record {
          orders = result;
          shown = refl;
          right = All-page columns pagination Q merged (
              All-sort (merge_before pagination.sort_order) Q (recent ++ old)
                (All-append Q recent old h k));
        },
      )

  across-ShowsBranch :
      (year_start : ℕ)
      → Reads
          (ShowsBranch filter P)
          w
          (list_across_clusters columns calendar filter year_start extra pagination w)
  unfolding list_across_clusters Q
  across-ShowsBranch year_start =
      Reads-bind
        (λ r. r ≡ find_orders_by_restaurant_branch columns since_start pagination extra w.now w.db)
        (ShowsBranch filter P) w _ _
        (query_at-Reads hot w
          (find_orders_by_restaurant_branch columns since_start pagination extra))
        (λ recent fs e.
          Reads-bind
            (λ r.
              r
              ≡ find_orders_by_restaurant_branch columns until_start pagination extra w.now
                  w.archive)
            (ShowsBranch filter P) (at_faults w fs) _ _
            (query_at-Reads archived (at_faults w fs)
              (find_orders_by_restaurant_branch columns until_start pagination extra))
            (λ old gs f.
              merge_pages-ShowsBranch recent.page old.page gs
                (subst (λ x. All Q x.page) (sym e)
                  (found-OfBranch columns since_start extra pagination P w.now w.db in_hot))
                (subst (λ x. All Q x.page) (sym f)
                  (found-OfBranch columns until_start extra pagination P w.now w.archive
                    in_archive))))
    where
      since_start : ListRestaurantOrdersFilter
      since_start = record filter { from = some year_start }

      until_start : ListRestaurantOrdersFilter
      until_start = record filter { to = some year_start }

  either-ShowsBranch :
      (a b : Bool) (year_start : ℕ)
      → Reads (ShowsBranch filter P) w (
          (if a
              then list_at archived
                  (find_orders_by_restaurant_branch columns filter pagination extra)
              else if b
              then list_at hot (find_orders_by_restaurant_branch columns filter pagination extra)
              else list_across_clusters columns calendar filter year_start extra pagination)
            w)
  either-ShowsBranch true b year_start = one-ShowsBranch archived in_archive
  either-ShowsBranch false true year_start = one-ShowsBranch hot in_hot
  either-ShowsBranch false false year_start = across-ShowsBranch year_start

-- Under any faults `listRestaurantOrders`, over one cluster or both, leaves the world as it was, and if
-- it returns, each line of the page shows a row of one of the clusters that belongs to the asked branch
-- of the asked restaurant, whatever filters the request adds. `P` is anything that holds of all rows.
pub list_restaurant_orders-Branch :
    (columns : Columns OrderEntity) (calendar : Calendar) (filter : ListRestaurantOrdersFilter)
    (extra : OrderEntity → Bool) (pagination : PaginationParams) (P : OrderEntity → Type 0)
    (w : World)
    → All P w.db.orders.rows
    → All P w.archive.orders.rows
    → Reads
        (ShowsBranch filter P)
        w
        (list_restaurant_orders columns calendar filter extra pagination w)
unfolding list_restaurant_orders
list_restaurant_orders-Branch columns calendar filter extra pagination P w in_hot in_archive =
    let year_start = calendar.year_start (calendar.year_of w.now) in
    either-ShowsBranch columns calendar filter extra pagination P w in_hot in_archive
      (archive_only filter.to year_start) (starts_recently filter.from year_start) year_start
