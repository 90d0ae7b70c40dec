-- ===== src/Order/Repository.antt =====
-- Statements on the orders and their items: `src/app/order/repository/order.repo.ts` and
-- `order-item.repo.ts`. Each takes the time of its transaction and the tables.
pub mod Rows
use mathlib.Core.Option
use quick_bite_order_service.Common.{
  Bool, List, Option, String, [], contains, false, find, head_of, is_some, keep, length, ltb,
  nat_eq, none, not, some, sort_by, string_eq, suc, take, update, ℕ, ◌&&◌, ◌++◌, ◌+◌, ◌==◌, ◌∷◌,
}
use quick_bite_order_service.Order.Model.{
  CreateOrderInput, InsertOrderItemInput, OrderEntity, OrderItemEntity, OrderStatus, actor_eq,
  assigned, ready, status_eq,
}
use quick_bite_order_service.Order.Status.{
  StampColumn, accepted_at, assigned_at, cancelled_at, delivered_at, picked_at, ready_at,
  rejected_at,
}
use quick_bite_order_service.Payment.Model.{commission, delivery_fee, service_fee}
use quick_bite_order_service.World.State.{Db}

abbrev pub has_public_id : String → OrderEntity → Bool
has_public_id public_id o = o.public_id == public_id

-- `createOrder`: the columns that the insert leaves out take their defaults.
abbrev pub new_order : CreateOrderInput → ℕ → ℕ → OrderEntity
new_order input id now = record {
  id = id;
  region = input.region;
  public_id = input.public_id;
  country_code = input.country_code;
  restaurant_id = input.restaurant_id;
  restaurant_owner_id = input.restaurant_owner_id;
  branch_id = input.branch_id;
  customer_id = input.customer_id;
  customer_address_id = input.customer_address_id;
  delivery_lat = input.delivery_lat;
  delivery_lng = input.delivery_lng;
  delivery_address_text_snapshot = input.delivery_address_text_snapshot;
  branch_lat = input.branch_lat;
  branch_lng = input.branch_lng;
  status = input.status;
  subtotal = input.subtotal;
  delivery_fee = input.delivery_fee;
  service_fee = input.service_fee;
  total = input.total;
  commission = 0;
  currency = input.currency;
  payment_method = input.payment_method;
  delivery_agent_id = none;
  created_at = now;
  updated_at = now;
  accepted_at = none;
  rejected_at = none;
  ready_at = none;
  assigned_at = none;
  picked_at = none;
  delivered_at = none;
  cancelled_at = none;
}

unfoldable pub create_order : CreateOrderInput → ℕ → Db → OrderEntity × Db
create_order input now d =
    let o = new_order input d.orders.next_id now in
    (
      o,
      record d {
        orders = record { rows = d.orders.rows ++ o ∷ []; next_id = d.orders.next_id + 1 };
      },
    )

abbrev pub created_before : OrderEntity → OrderEntity → Bool
created_before a b = ltb a.created_at b.created_at

abbrev pub created_after : OrderEntity → OrderEntity → Bool
created_after a b = ltb b.created_at a.created_at

unfoldable pub find_owner_id_for_restaurant : ℕ → ℕ → Db → Option ℕ
unfolding sort_by
find_owner_id_for_restaurant restaurant_id now d =
    elim (head_of
      (sort_by created_after (keep (λ o. o.restaurant_id == restaurant_id) d.orders.rows))) [
        | none ↦ none
        | some o ↦ some o.restaurant_owner_id
      ]

unfoldable pub find_order_by_public_id : String → ℕ → Db → Option OrderEntity
find_order_by_public_id public_id now d = find (has_public_id public_id) d.orders.rows

abbrev pub is_ready_unassigned : OrderEntity → Bool
is_ready_unassigned o = o.status == ready && not (is_some o.delivery_agent_id)

unfoldable pub find_ready_unassigned : ℕ → ℕ → Db → List OrderEntity
unfolding sort_by
find_ready_unassigned limit now d =
    take limit (sort_by created_before (keep is_ready_unassigned d.orders.rows))

abbrev pub with_orders : Db → List OrderEntity → Db
with_orders d rows = record d { orders = record { rows = rows; next_id = d.orders.next_id } }

abbrev pub assign_to : ℕ → ℕ → OrderEntity → OrderEntity
assign_to agent_id now o = record o {
  status = assigned;
  delivery_agent_id = some agent_id;
  assigned_at = some now;
  updated_at = now;
}

abbrev pub claimable : String → OrderEntity → Bool
claimable public_id o = has_public_id public_id o && is_ready_unassigned o

-- `claimReadyOrderForAgent`: the row comes back if it was still ready and unassigned.
unfoldable pub claim_ready_order_for_agent : String → ℕ → ℕ → Db → Option OrderEntity × Db
claim_ready_order_for_agent public_id agent_id now d = (
  Option.map (assign_to agent_id now) (find (claimable public_id) d.orders.rows),
  with_orders d (update (claimable public_id) (assign_to agent_id now) d.orders.rows),
)

abbrev pub is_agent_of : ℕ → OrderEntity → Bool
is_agent_of agent_id o = elim o.delivery_agent_id [ none ↦ false | some a ↦ a == agent_id ]

abbrev pub is_held_by : ℕ → OrderStatus → OrderEntity → Bool
is_held_by agent_id s o = is_agent_of agent_id o && o.status == s

abbrev pub back_to_ready : ℕ → OrderEntity → OrderEntity
back_to_ready now o = record o {
  status = ready;
  delivery_agent_id = none;
  assigned_at = none;
  updated_at = now;
}

-- `releaseAssignedOrderToReady`, which `goOffline` also writes out.
unfoldable pub release_assigned_order_to_ready : ℕ → ℕ → Db → ℕ × Db
release_assigned_order_to_ready agent_id now d = (
  length (keep (is_held_by agent_id assigned) d.orders.rows),
  with_orders d (update (is_held_by agent_id assigned) (back_to_ready now) d.orders.rows),
)

unfoldable pub update_order_commission : String → ℕ → ℕ → Db → Unit {0} × Db
update_order_commission public_id amount now d = (
  tt,
  with_orders d (
      update (has_public_id public_id) (λ o. record o { commission = amount; updated_at = now })
        d.orders.rows),
)

-- `update[stampColumn] = now()`
unfoldable pub stamp_order : Option StampColumn → ℕ → OrderEntity → OrderEntity
stamp_order none now o = o
stamp_order (some StampColumn.accepted_at) now o = record o { accepted_at = some now }
stamp_order (some StampColumn.rejected_at) now o = record o { rejected_at = some now }
stamp_order (some StampColumn.ready_at) now o = record o { ready_at = some now }
stamp_order (some StampColumn.assigned_at) now o = record o { assigned_at = some now }
stamp_order (some StampColumn.picked_at) now o = record o { picked_at = some now }
stamp_order (some StampColumn.delivered_at) now o = record o { delivered_at = some now }
stamp_order (some StampColumn.cancelled_at) now o = record o { cancelled_at = some now }

unfoldable pub set_status : OrderStatus → Option StampColumn → ℕ → OrderEntity → OrderEntity
unfolding stamp_order
set_status status column now o =
    stamp_order column now (record o { status = status; updated_at = now })

-- `updateOrderStatus`: with no such row the code fails on reading the result.
unfoldable pub update_order_status :
    String → OrderStatus → Option StampColumn → ℕ → Db → Option (OrderEntity × Db)
unfolding set_status
update_order_status public_id status column now d =
    Option.map
      (λ o. (
        set_status status column now o,
        with_orders d
            (update (has_public_id public_id) (set_status status column now) d.orders.rows),
      ))
      (find (has_public_id public_id) d.orders.rows)

abbrev pub new_item : InsertOrderItemInput → ℕ → ℕ → OrderItemEntity
new_item i id now = record {
  id = id;
  region = i.region;
  order_id = i.order_id;
  product_id = i.product_id;
  quantity = i.quantity;
  unit_price_snapshot = i.unit_price_snapshot;
  name_snapshot = i.name_snapshot;
  image_url_snapshot = i.image_url_snapshot;
  line_total = i.line_total;
  created_at = now;
}

unfoldable pub number_items : List InsertOrderItemInput → ℕ → ℕ → List OrderItemEntity
number_items [] id now = []
number_items (i ∷ is) id now = new_item i id now ∷ number_items is (suc id) now

unfoldable pub bulk_insert_items : List InsertOrderItemInput → ℕ → Db → List OrderItemEntity × Db
unfolding number_items
bulk_insert_items inputs now d =
    let items = number_items inputs d.order_items.next_id now in
    (
      items,
      record d {
        order_items = record {
          rows = d.order_items.rows ++ items;
          next_id = d.order_items.next_id + length inputs;
        };
      },
    )

abbrev pub id_before : OrderItemEntity → OrderItemEntity → Bool
id_before a b = ltb a.id b.id

unfoldable pub find_items_by_order_ids : List ℕ → ℕ → Db → List OrderItemEntity
unfolding sort_by
find_items_by_order_ids order_ids now d =
    sort_by id_before (keep (λ i. contains order_ids i.order_id) d.order_items.rows)
