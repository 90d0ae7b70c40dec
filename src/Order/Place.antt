-- ===== src/Order/Place.antt =====
-- `OrderService.placeOrder`: `src/app/order/service/order.service.ts`. The public id, which the code
-- draws at random, is an argument.
pub mod Money
pub mod Stock
use Prim.Native.String.{◌++◌}
use mathlib.Core.Option.{get_or}
use quick_bite_order_service.Common.{
  Bool, List, Option, String, [], contains, false, if◌then◌else◌, is_some, keep, length, map,
  nat_eq, none, not, some, string_eq, true, ℕ, ◌&&◌, ◌+◌, ◌==◌, ◌||◌, ◌∷◌,
}
use quick_bite_order_service.Core.Client.{CoreService, get_branch}
use quick_bite_order_service.Core.Model.{CoreBranchMetadata, CoreCustomerAddress, ReserveStockItem}
use quick_bite_order_service.Errors.{
  AppError, Result, branch_not_accepting_orders, err, ok, online_payment_not_available,
  un_authorised, unknown_region,
}
use quick_bite_order_service.Events.Payloads.{order_placed_event}
use quick_bite_order_service.Events.Repository.{insert_outbox_event}
use quick_bite_order_service.Finance.Payout.{roll_back}
use quick_bite_order_service.Order.Lines.{RequestedItem, build_order_line_drafts, sum_minor}
use quick_bite_order_service.Order.Model.{
  ActorContext, CreateOrderInput, InsertOrderItemInput, OrderEntity, OrderItemEntity,
  OrderLineDraft, PaymentMethod, actor_eq, cancelled, is_cod, is_online, pending_payment, placed,
  status_eq,
}
use quick_bite_order_service.Order.Repository.{bulk_insert_items, create_order, update_order_status}
use quick_bite_order_service.Order.Status.{StampColumn}
use quick_bite_order_service.Order.Update.{
  core_write, invalidate_branch_orders_cache, release_stock_safe,
}
use quick_bite_order_service.Payment.Model.{delivery_fee, service_fee}
use quick_bite_order_service.Payment.Session.{
  InitOnlinePaymentResult, PaymentProvider, init_online_payment,
}
use quick_bite_order_service.World.Cache.{live}
use quick_bite_order_service.World.Monad.{
  M, call, catch, checked, command, emit, ignore_errors, lift, pure, statement, throw, transaction,
  when, ◌>>=◌, ◌>>◌,
}
use quick_bite_order_service.World.State.{
  branch_room, order_created, reserve_stock, summary_response,
}

-- What the configuration says (`src/lib/config/env.ts`), and lower case.
pub record RegionConfig : Type 0 where
  pub regions : List String
  pub online_regions : List String
  pub to_lower : String → String

-- `assertRegion` of `src/lib/sharding/regions.ts`, on a candidate that is a text.
unfoldable pub assert_region : RegionConfig → String → Result String
assert_region config candidate =
    let norm = config.to_lower candidate in
    if not (norm == "") && contains (map config.to_lower config.regions) norm
    then ok norm
    else err (unknown_region (some candidate))

pub record CreateOrderRequest : Type 0 where
  pub branch_id : ℕ
  pub customer_address_id : ℕ
  pub items : List RequestedItem
  pub payment_method : PaymentMethod

-- `SERVICE_FEE_MINOR`
abbrev pub service_fee_minor : ℕ
service_fee_minor = 1000

-- `flattenAddress`: the parts that are not empty, with commas.
unfoldable pub join_parts : List String → String
join_parts [] = ""
join_parts (p ∷ []) = p
join_parts (p ∷ q ∷ ps) = p ++ ", " ++ join_parts (q ∷ ps)

unfoldable pub flatten_address : CoreCustomerAddress → String
flatten_address a =
    join_parts (keep (λ p. not (p == "")) (a.building ∷ a.street ∷ a.city ∷ a.country ∷ []))

unfoldable pub is_accepting : CoreBranchMetadata → Bool
is_accepting b = b.is_active && b.accept_orders && b.restaurant_status == "active"

-- `isBranchRejectingOrders`
unfoldable pub is_branch_rejecting_orders : ℕ → M Bool
is_branch_rejecting_orders branch_id =
    command (λ now r. (is_some (live now branch_id r.reject_flags), r))

abbrev pub require : Bool → AppError → M (Unit {0})
require true e = pure tt
require false e = throw e

abbrev pub lines_total : List OrderLineDraft → ℕ
lines_total drafts = sum_minor (map (λ l. l.line_total) drafts)

abbrev pub requested : List RequestedItem → List ReserveStockItem
requested [] = []
requested (i ∷ is) = record { product_id = i.product_id; quantity = i.quantity } ∷ requested is

-- What is settled before any stock is reserved.
pub record Draft : Type 0 where
  pub branch : CoreBranchMetadata
  pub address : CoreCustomerAddress
  pub region : String
  pub drafts : List OrderLineDraft

-- Steps 1 to 4.
unfoldable pub draft_order :
    CoreService → RegionConfig → ActorContext → CreateOrderRequest → Option String → M Draft
draft_order core config actor body region = do
  branch ← get_branch core body.branch_id
  require (is_accepting branch) branch_not_accepting_orders
  rejecting ← is_branch_rejecting_orders body.branch_id
  require (not rejecting) branch_not_accepting_orders
  resolved ← lift (assert_region config (get_or region branch.region))
  require (not (is_online body.payment_method) || contains config.online_regions resolved)
      online_payment_not_available
  address ← call (λ w. (core.address body.customer_address_id, w))
  require (address.user_id == actor.user_id) un_authorised
  products ← call (λ w. (core.products body.branch_id (map (λ i. i.product_id) body.items), w))
  drafts ← lift (build_order_line_drafts body.items products)
  pure (record { branch = branch; address = address; region = resolved; drafts = drafts })

abbrev pub order_row : ActorContext → CreateOrderRequest → String → Draft → CreateOrderInput
order_row actor body public_id d = record {
  region = d.region;
  public_id = public_id;
  country_code = d.branch.region;
  restaurant_id = d.branch.restaurant_id;
  restaurant_owner_id = d.branch.restaurant_owner_id;
  branch_id = d.branch.id;
  customer_id = actor.user_id;
  customer_address_id = d.address.id;
  delivery_lat = d.address.lat;
  delivery_lng = d.address.lng;
  delivery_address_text_snapshot = flatten_address d.address;
  branch_lat = d.branch.lat;
  branch_lng = d.branch.lng;
  status = if is_online body.payment_method then pending_payment else placed;
  subtotal = lines_total d.drafts;
  delivery_fee = d.branch.delivery_fee;
  service_fee = service_fee_minor;
  total = lines_total d.drafts + d.branch.delivery_fee + service_fee_minor;
  currency = d.branch.currency;
  payment_method = body.payment_method;
}

abbrev pub item_rows : String → ℕ → List OrderLineDraft → List InsertOrderItemInput
item_rows region order_id [] = []
item_rows region order_id (l ∷ ls) =
    record {
      region = region;
      order_id = order_id;
      product_id = l.product_id;
      quantity = l.quantity;
      unit_price_snapshot = l.unit_price;
      name_snapshot = l.name;
      image_url_snapshot = l.image_url;
      line_total = l.line_total;
    }
    ∷ item_rows region order_id ls

-- The block of the `try`, with its commit.
unfoldable pub place_writes :
    ActorContext → CreateOrderRequest → String → Draft → M (OrderEntity × List OrderItemEntity)
place_writes actor body public_id d = do
  o ← statement (create_order (order_row actor body public_id d))
  items ← statement (bulk_insert_items (item_rows d.region o.id d.drafts))
  when (o.status == placed) (statement (insert_outbox_event (order_placed_event o items)))
  call (λ w. (ok tt, w))
  pure (o, items)

-- The transaction; the stock goes back once it has failed and is rolled back.
unfoldable pub place_transaction :
    CoreService
    → ActorContext
    → CreateOrderRequest
    → String
    → Draft
    → M (OrderEntity × List OrderItemEntity)
place_transaction core actor body public_id d = do
  call (λ w. (ok tt, w))
  λ w.
      catch (place_writes actor body public_id d)
        (λ e.
          roll_back w.db
          >> (release_stock_safe core body.branch_id (requested body.items) public_id >> throw e))
        w

-- `voidOrderSafe`
unfoldable pub void_order_safe : String → M (Unit {0})
void_order_safe public_id = ignore_errors (
    transaction (checked (update_order_status public_id cancelled (some StampColumn.cancelled_at))))

-- Step 7.
unfoldable pub init_payment :
    CoreService
    → PaymentProvider
    → CreateOrderRequest
    → OrderEntity
    → M (Option InitOnlinePaymentResult)
init_payment core provider body o =
    if is_online body.payment_method
    then catch (init_online_payment provider o >>= λ p. pure (some p)) (λ e.
      void_order_safe o.public_id
      >> (release_stock_safe core body.branch_id (requested body.items) o.public_id >> throw e))
    else pure none

pub record PlacedOrder : Type 0 where
  pub order : OrderEntity
  pub items : List OrderItemEntity
  pub payment : Option InitOnlinePaymentResult

-- `placeOrder`
unfoldable pub place_order :
    CoreService
    → PaymentProvider
    → RegionConfig
    → ActorContext
    → CreateOrderRequest
    → Option String
    → String
    → M PlacedOrder
place_order core provider config actor body region public_id = do
  d ← draft_order core config actor body region
  core_write (reserve_stock body.branch_id (requested body.items) public_id)
      (core.reserve body.branch_id (requested body.items) public_id)
  (o, items) ← place_transaction core actor body public_id d
  payment ← init_payment core provider body o
  invalidate_branch_orders_cache d.branch.id
  when (is_cod body.payment_method)
      (emit (branch_room d.branch.id) (order_created (summary_response o (length items))))
  pure (record { order = o; items = items; payment = payment })
