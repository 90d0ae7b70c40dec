-- ===== src/World/State.antt =====
-- The state that the services share: the tables of one region's hot cluster (`src/migrations`), the
-- keys of Redis, the messages sent to sockets, and the writes sent to the core service. `faults` says
-- for each I/O call to come whether it fails.
use quick_bite_order_service.Agent.Model.{AgentEarningEntity}
use quick_bite_order_service.Common.{Bool, Dict, List, Option, String, none, some, ℕ, ℤ}
use quick_bite_order_service.Core.Model.{CoreBranchMetadata, ReserveStockItem}
use quick_bite_order_service.Events.Model.{Envelope, OutboxRow}
use quick_bite_order_service.Finance.Model.{RestaurantBalanceEntity}
use quick_bite_order_service.Order.Model.{OrderEntity, OrderItemEntity, OrderStatus, PaymentMethod}
use quick_bite_order_service.Payment.Model.{
  PaymentSessionEntity, PaymentWebhookEventEntity, TransactionEntity,
}

-- A table with its sequence.
pub record Table (A : Type 0) : Type 0 where
  pub rows : List A
  pub next_id : ℕ

pub record Db : Type 0 where
  pub orders : Table OrderEntity
  pub order_items : Table OrderItemEntity
  pub transactions : Table TransactionEntity
  pub balances : List RestaurantBalanceEntity
  pub earnings : Table AgentEarningEntity
  pub sessions : Table PaymentSessionEntity
  pub webhook_events : Table PaymentWebhookEventEntity
  pub outbox : Table OutboxRow

-- A value with the instant at which its key expires.
pub record Entry (V : Type 0) : Type 0 where
  pub value : V
  pub expires_at : Option ℕ

pub record AgentMeta : Type 0 where
  pub lat : ℤ
  pub lng : ℤ
  pub last_seen_at : ℕ

-- One dictionary for each family of keys, at the part of the key that varies: `offer:order:<id>`,
-- `claim:order:<id>`, `assign:attempts:<id>`, `presence:meta:<region>:<agent>`,
-- `presence:geo:<region>`, `presence:busy:<region>`, `core:branch:<id>`,
-- `branch:reject-new-orders:<id>`, and the cached order list of a branch.
pub record Redis : Type 0 where
  pub offers : Dict String (Entry (List ℕ))
  pub claims : Dict String (Entry ℕ)
  pub attempts : Dict String (Entry ℕ)
  pub presence : Dict ℕ (Entry AgentMeta)
  pub geo : Dict ℕ (ℤ × ℤ)
  pub busy : List ℕ
  pub branches : Dict ℕ (Entry CoreBranchMetadata)
  pub reject_flags : Dict ℕ (Entry (Unit {0}))
  pub branch_orders : Dict ℕ (Entry (Unit {0}))

pub data Room : Type 0 where
  customer_room branch_room agent_room : ℕ → Room
  admin_alerts : Room

-- `OrderStatusResponseDTO`
pub record OrderStatusResponse : Type 0 where
  pub public_id : String
  pub status : OrderStatus
  pub updated_at : ℕ

-- `OrderSummaryResponseDTO`
pub record OrderSummaryResponse : Type 0 where
  pub public_id : String
  pub status : OrderStatus
  pub total : ℕ
  pub currency : String
  pub items_count : ℕ
  pub restaurant_id : ℕ
  pub branch_id : ℕ
  pub created_at : ℕ

-- The display fields of a branch in a task.
pub record Pickup : Type 0 where
  pub branch_id : ℕ
  pub lat : Option ℤ
  pub lng : Option ℤ
  pub name : Option String
  pub address_text : Option String

-- `DeliveryTaskResponseDTO`
pub record DeliveryTaskResponse : Type 0 where
  pub order_id : String
  pub status : OrderStatus
  pub pickup : Pickup
  pub dropoff_lat : ℤ
  pub dropoff_lng : ℤ
  pub dropoff_text : String
  pub total : ℕ
  pub currency : String
  pub payment_method : PaymentMethod
  pub assigned_at : Option ℕ
  pub picked_at : Option ℕ
  pub delivered_at : Option ℕ

-- `OfferPayload` of the assignment service.
pub record OfferPayload : Type 0 where
  pub order_id : String
  pub branch_id : ℕ
  pub branch_lat : ℤ
  pub branch_lng : ℤ
  pub branch_name : String
  pub branch_text : String
  pub dropoff_lat : ℤ
  pub dropoff_lng : ℤ
  pub dropoff_text : String
  pub total : ℕ
  pub currency : String
  pub payment_method : PaymentMethod
  pub expires_at : ℕ

pub data Message : Type 0 where
  order_created : OrderSummaryResponse → Message
  status_changed : OrderStatusResponse → Message
  task_offered : OfferPayload → Message
  task_assigned : DeliveryTaskResponse → Message
  offer_cancelled : String → Message
  assignment_exhausted : String → ℕ → Message

-- A write at the core service that was sent, under its idempotency key.
pub data CoreCall : Type 0 where
  reserve_stock : ℕ → List ReserveStockItem → String → CoreCall
  release_stock : ℕ → List ReserveStockItem → String → CoreCall

-- An entry of `PermissionCacheService`, which lives in the process.
pub record CachedPermissions : Type 0 where
  pub permissions : List String
  pub cached_at : ℕ

-- `archive` is the cluster with the rows of the years before. `sent`, `core_calls` and `published`, what
-- went to the message broker, have the latest first. `now` is the time of the request.
pub record World : Type 0 where
  pub db : Db
  pub archive : Db
  pub redis : Redis
  pub sent : List (Room × Message)
  pub core_calls : List CoreCall
  pub published : List Envelope
  pub permission_cache : Dict String CachedPermissions
  pub faults : List Bool
  pub now : ℕ

abbrev pub status_response : OrderEntity → OrderStatusResponse
status_response o = record { public_id = o.public_id; status = o.status; updated_at = o.updated_at }

abbrev pub summary_response : OrderEntity → ℕ → OrderSummaryResponse
summary_response o items_count = record {
  public_id = o.public_id;
  status = o.status;
  total = o.total;
  currency = o.currency;
  items_count = items_count;
  restaurant_id = o.restaurant_id;
  branch_id = o.branch_id;
  created_at = o.created_at;
}

abbrev pub pickup_of : OrderEntity → Option CoreBranchMetadata → Pickup
pickup_of o none = record {
  branch_id = o.branch_id;
  lat = none;
  lng = none;
  name = none;
  address_text = none;
}
pickup_of o (some b) = record {
  branch_id = o.branch_id;
  lat = some b.lat;
  lng = some b.lng;
  name = some b.name;
  address_text = some b.address_text;
}

abbrev pub task_response : OrderEntity → Option CoreBranchMetadata → DeliveryTaskResponse
task_response o branch = record {
  order_id = o.public_id;
  status = o.status;
  pickup = pickup_of o branch;
  dropoff_lat = o.delivery_lat;
  dropoff_lng = o.delivery_lng;
  dropoff_text = o.delivery_address_text_snapshot;
  total = o.total;
  currency = o.currency;
  payment_method = o.payment_method;
  assigned_at = o.assigned_at;
  picked_at = o.picked_at;
  delivered_at = o.delivered_at;
}
