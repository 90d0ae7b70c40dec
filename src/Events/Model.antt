-- ===== src/Events/Model.antt =====
-- The rows of the outbox and their payloads: `src/lib/events/event-types.ts`, `types.ts`, and the
-- payload builders of the order, settlement and webhook services.
use quick_bite_order_service.Common.{List, Option, String, ℕ}
use quick_bite_order_service.Order.Model.{OrderStatus, PaymentMethod, StatusActor}

pub data EventType : Type 0 where
  order_placed order_accepted order_rejected order_delivered order_cancelled : EventType
  payment_completed payment_failed : EventType

pub data AggregateType : Type 0 where
  order_aggregate payment_aggregate : AggregateType

pub record PlacedItem : Type 0 where
  pub product_id : ℕ
  pub quantity : ℕ
  pub unit_price : ℕ
  pub line_total : ℕ

pub record OrderPlacedPayload : Type 0 where
  pub order_id : String
  pub region : String
  pub country_code : String
  pub restaurant_id : ℕ
  pub branch_id : ℕ
  pub customer_id : ℕ
  pub status : OrderStatus
  pub payment_method : PaymentMethod
  pub subtotal : ℕ
  pub delivery_fee : ℕ
  pub service_fee : ℕ
  pub total : ℕ
  pub currency : String
  pub items : List PlacedItem
  pub placed_at : ℕ

pub record OrderTransitionPayload : Type 0 where
  pub order_id : String
  pub region : String
  pub restaurant_id : ℕ
  pub branch_id : ℕ
  pub customer_id : ℕ
  pub status : OrderStatus
  pub reason : Option String
  pub actor : StatusActor
  pub occurred_at : ℕ

pub record OrderDeliveredPayload : Type 0 where
  pub order_id : String
  pub region : String
  pub restaurant_id : ℕ
  pub branch_id : ℕ
  pub customer_id : ℕ
  pub delivery_agent_id : ℕ
  pub total : ℕ
  pub subtotal : ℕ
  pub delivery_fee : ℕ
  pub commission : ℕ
  pub currency : String
  pub payment_method : PaymentMethod
  pub delivered_at : ℕ

pub record PaymentPayload : Type 0 where
  pub order_id : String
  pub region : String
  pub restaurant_id : ℕ
  pub branch_id : ℕ
  pub customer_id : ℕ
  pub provider_reference_id : String
  pub amount : ℕ
  pub currency : String
  pub at : ℕ

pub data Payload : Type 0 where
  placed_payload : OrderPlacedPayload → Payload
  transition_payload : OrderTransitionPayload → Payload
  delivered_payload : OrderDeliveredPayload → Payload
  payment_payload : PaymentPayload → Payload

pub record InsertOutboxInput : Type 0 where
  pub aggregate_type : AggregateType
  pub aggregate_id : String
  pub event_type : EventType
  pub payload : Payload

-- `event_id` is the random identifier that the insert draws; here it is the row's own number.
pub record OutboxRow : Type 0 where
  pub id : ℕ
  pub aggregate_type : AggregateType
  pub aggregate_id : String
  pub event_type : EventType
  pub event_id : ℕ
  pub payload : Payload
  pub attempts : ℕ
  pub last_error : Option String
  pub dispatched_at : Option ℕ

-- The message that the drain publishes for a row.
pub record Envelope : Type 0 where
  pub event_id : ℕ
  pub event_type : EventType
  pub occurred_at : ℕ
  pub aggregate_type : AggregateType
  pub aggregate_id : String
  pub region : String
  pub payload : Payload
