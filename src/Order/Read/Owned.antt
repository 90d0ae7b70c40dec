-- ===== src/Order/Read/Owned.antt =====
-- The list of a customer: `listCustomerOrders`.
use quick_bite_order_service.Common.{All, List, arith, keep, refl, suc, true, ℕ, ◌<◌, ◌≡◌, ◌≤◌}
use quick_bite_order_service.Http.Cursor.{Columns, PaginationParams}
use quick_bite_order_service.Http.Cursor.Order.{All-weaken}
use quick_bite_order_service.Http.Cursor.Walk.{page_at}
use quick_bite_order_service.Order.Model.{ActorContext, OrderEntity}
use quick_bite_order_service.Order.Queries.{
  ListCustomerOrdersFilter, find_orders_by_customer, matches_customer, page_of,
}
use quick_bite_order_service.Order.Read.{
  Calendar, Cluster, cluster_of_year, customer_filter, list_customer_orders, tables_of,
}
use quick_bite_order_service.Order.Read.Listed.{
  All-kept, Shows, item_count, list_at-Shows, page_of-All,
}
use quick_bite_order_service.World.Reads.{Reads}
use quick_bite_order_service.World.State.{Db, World}

-- An order of the customer, made in the year.
abbrev pub OfCustomer : ActorContext → ℕ → ℕ → OrderEntity → Type 0
OfCustomer actor year_start year_end o =
    (o.customer_id ≡ actor.user_id) × (year_start ≤ o.created_at) × (o.created_at < year_end)

matches_customer-OfCustomer :
    (P : OrderEntity → Type 0) (actor : ActorContext) (year_start year_end : ℕ) (o : OrderEntity)
    → P o
      × (matches_customer
            (record { customer_id = actor.user_id; year_start = year_start; year_end = year_end })
            o
          ≡ true)
    → P o × OfCustomer actor year_start year_end o
matches_customer-OfCustomer P actor year_start year_end o (p, h) =
    (p, (ground (arith, h), ground (arith, h), ground (arith, h)))

-- The page of the orders that the caller made in the year, of those in `d`: the page that paging over
-- these rows gives, and each of its rows is one of them.
abbrev pub IsOwnPage :
    Columns OrderEntity
    → Calendar
    → ActorContext
    → ℕ
    → PaginationParams
    → (OrderEntity → Type 0)
    → Db
    → List OrderEntity
    → Type 0
IsOwnPage columns calendar actor year pagination P d orders =
    (orders
      ≡ (page_at columns pagination
          (keep (matches_customer (customer_filter calendar actor year)) d.orders.rows)).0)
    × All
        (λ o. P o × OfCustomer actor (calendar.year_start year) (calendar.year_start (suc year)) o)
        orders

-- Under any faults `listCustomerOrders` leaves the world as it was, and if it returns, it shows the page
-- of the caller's rows of that year in the cluster of that year, each row with the number of its items
-- there. `P` is anything that holds of all rows of that cluster, and it holds of all that is shown.
pub list_customer_orders-Own :
    (columns : Columns OrderEntity) (calendar : Calendar) (actor : ActorContext) (year : ℕ)
    (pagination : PaginationParams) (w : World) (P : OrderEntity → Type 0)
    → let d = tables_of (cluster_of_year calendar year w.now) w in
      All P d.orders.rows
      → Reads
          (Shows (IsOwnPage columns calendar actor year pagination P d) (item_count d))
          w
          (list_customer_orders columns calendar actor year pagination w)
unfolding list_customer_orders find_orders_by_customer page_of
list_customer_orders-Own columns calendar actor year pagination w P h =
    list_at-Shows (IsOwnPage columns calendar actor year pagination P (tables_of at w)) at w
      (find_orders_by_customer columns filter pagination)
      (
        refl,
        page_of-All columns pagination Q
            (keep (matches_customer filter) (tables_of at w).orders.rows)
            (All-weaken (λ o. P o × (matches_customer filter o ≡ true)) Q _
              (matches_customer-OfCustomer P actor (calendar.year_start year)
                (calendar.year_start (suc year)))
              (All-kept P (matches_customer filter) (tables_of at w).orders.rows h)),
      )
  where
    at : Cluster
    at = cluster_of_year calendar year w.now

    filter : ListCustomerOrdersFilter
    filter = customer_filter calendar actor year

    Q : OrderEntity → Type 0
    Q o = P o × OfCustomer actor (calendar.year_start year) (calendar.year_start (suc year)) o
