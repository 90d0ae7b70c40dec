-- ===== src/Events/Payloads.antt =====
-- The `order.placed` event, which `buildOrderPlacedPayload` of
-- `src/app/order/service/order.service.ts` and the Kashier webhook build alike.
use quick_bite_order_service.Common.{List, [], ◌∷◌}
use quick_bite_order_service.Events.Model.{
  EventType, InsertOutboxInput, PlacedItem, order_aggregate, placed_payload,
}
use quick_bite_order_service.Order.Model.{OrderEntity, OrderItemEntity}

unfoldable pub placed_items : List OrderItemEntity → List PlacedItem
placed_items [] = []
placed_items (i ∷ is) =
    record {
      product_id = i.product_id;
      quantity = i.quantity;
      unit_price = i.unit_price_snapshot;
      line_total = i.line_total;
    }
    ∷ placed_items is

abbrev pub order_placed_event : OrderEntity → List OrderItemEntity → InsertOutboxInput
order_placed_event o items = record {
  aggregate_type = order_aggregate;
  aggregate_id = o.public_id;
  event_type = EventType.order_placed;
  payload = placed_payload (record {
    order_id = o.public_id;
    region = o.region;
    country_code = o.country_code;
    restaurant_id = o.restaurant_id;
    branch_id = o.branch_id;
    customer_id = o.customer_id;
    status = o.status;
    payment_method = o.payment_method;
    subtotal = o.subtotal;
    delivery_fee = o.delivery_fee;
    service_fee = o.service_fee;
    total = o.total;
    currency = o.currency;
    items = placed_items items;
    placed_at = o.created_at;
  });
}
