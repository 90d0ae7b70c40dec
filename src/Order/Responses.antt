-- ===== src/Order/Responses.antt =====
-- What the reads answer: `src/app/order/dto/order.response.dto.ts`. Times stay instants.
use quick_bite_order_service.Common.{List, Option, String, [], map, none, some, ℕ, ℤ, ◌++◌, ◌∷◌}
use quick_bite_order_service.Order.Model.{
  OrderEntity, OrderItemEntity, OrderStatus, PaymentMethod, accepted, assigned, cancelled, cod,
  delivered, online, pending_payment, picked, rejected,
}

pub record OrderItemResponse : Type 0 where
  pub product_id : ℕ
  pub name : String
  pub image_url : Option String
  pub quantity : ℕ
  pub unit_price : ℕ
  pub line_total : ℕ

abbrev pub item_response : OrderItemEntity → OrderItemResponse
item_response item = record {
  product_id = item.product_id;
  name = item.name_snapshot;
  image_url = item.image_url_snapshot;
  quantity = item.quantity;
  unit_price = item.unit_price_snapshot;
  line_total = item.line_total;
}

-- `OrderResponseDTO` without the session of a payment, which only `placeOrder` adds.
pub record OrderResponse : Type 0 where
  pub public_id : String
  pub status : OrderStatus
  pub payment_method : PaymentMethod
  pub branch_id : ℕ
  pub restaurant_id : ℕ
  pub address_lat : ℤ
  pub address_lng : ℤ
  pub address_text : String
  pub subtotal : ℕ
  pub delivery_fee : ℕ
  pub service_fee : ℕ
  pub total : ℕ
  pub currency : String
  pub items : List OrderItemResponse
  pub created_at : ℕ

abbrev pub order_response : OrderEntity → List OrderItemEntity → OrderResponse
order_response o items = record {
  public_id = o.public_id;
  status = o.status;
  payment_method = o.payment_method;
  branch_id = o.branch_id;
  restaurant_id = o.restaurant_id;
  address_lat = o.delivery_lat;
  address_lng = o.delivery_lng;
  address_text = o.delivery_address_text_snapshot;
  subtotal = o.subtotal;
  delivery_fee = o.delivery_fee;
  service_fee = o.service_fee;
  total = o.total;
  currency = o.currency;
  items = map item_response items;
  created_at = o.created_at;
}

-- `push`
abbrev pub stamped : OrderStatus → Option ℕ → List (OrderStatus × ℕ)
stamped status none = []
stamped status (some at) = (status, at) ∷ []

abbrev pub first_stages : PaymentMethod → ℕ → List (OrderStatus × ℕ)
first_stages online at = (pending_payment, at) ∷ (OrderStatus.placed, at) ∷ []
first_stages cod at = (OrderStatus.placed, at) ∷ []

-- `buildHistory`
unfoldable pub build_history : OrderEntity → List (OrderStatus × ℕ)
build_history o =
    first_stages o.payment_method o.created_at
    ++ (stamped accepted o.accepted_at
        ++ (stamped rejected o.rejected_at
            ++ (stamped OrderStatus.ready o.ready_at
                ++ (stamped assigned o.assigned_at
                    ++ (stamped picked o.picked_at
                        ++ (stamped delivered o.delivered_at
                            ++ stamped cancelled o.cancelled_at))))))

pub record OrderDetailResponse : Type 0 where
  pub base : OrderResponse
  pub history : List (OrderStatus × ℕ)

abbrev pub detail_response : OrderEntity → List OrderItemEntity → OrderDetailResponse
detail_response o items = record { base = order_response o items; history = build_history o }

pub record OrderHistoryItemResponse : Type 0 where
  pub product_id : ℕ
  pub quantity : ℕ
  pub unit_price : ℕ
  pub line_total : ℕ

abbrev pub history_item_response : OrderItemEntity → OrderHistoryItemResponse
history_item_response item = record {
  product_id = item.product_id;
  quantity = item.quantity;
  unit_price = item.unit_price_snapshot;
  line_total = item.line_total;
}

pub record OrderHistoryResponse : Type 0 where
  pub order_id : String
  pub restaurant_id : ℕ
  pub branch_id : ℕ
  pub total : ℕ
  pub currency : String
  pub items : List OrderHistoryItemResponse
  pub placed_at : ℕ

abbrev pub history_response : OrderEntity → List OrderItemEntity → OrderHistoryResponse
history_response o items = record {
  order_id = o.public_id;
  restaurant_id = o.restaurant_id;
  branch_id = o.branch_id;
  total = o.total;
  currency = o.currency;
  items = map history_item_response items;
  placed_at = o.created_at;
}
