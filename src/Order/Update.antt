-- ===== src/Order/Update.antt =====
-- `OrderService.updateStatus`: `src/app/order/service/order.service.ts`.
pub mod Frame
pub mod Permitted
pub mod Entered
pub mod Lawful
pub mod Unsettled
use quick_bite_order_service.Common.{
  Bool, List, Option, String, [], erase, false, nat_eq, none, some, string_eq, true, ℕ, ◌&&◌, ◌==◌,
  ◌||◌, ◌∷◌,
}
use quick_bite_order_service.Core.Client.{CoreService}
use quick_bite_order_service.Core.Model.{ReserveStockItem}
use quick_bite_order_service.Errors.{Result, or_throw, order_not_found}
use quick_bite_order_service.Events.Model.{
  EventType, InsertOutboxInput, order_aggregate, transition_payload,
}
use quick_bite_order_service.Events.Repository.{insert_outbox_event}
use quick_bite_order_service.Order.Access.{
  assert_restaurant_member_permission, resolve_status_actor,
}
use quick_bite_order_service.Order.Model.{
  ActorContext, OrderEntity, OrderItemEntity, OrderStatus, StatusActor, accepted, actor_eq,
  cancelled, pending_payment, placed, rejected, restaurant_member, status_eq,
}
use quick_bite_order_service.Order.Repository.{
  find_items_by_order_ids, find_order_by_public_id, update_order_status,
}
use quick_bite_order_service.Order.Status.{StampColumn, assert_transition}
use quick_bite_order_service.World.Monad.{
  M, call, checked, clock, command, emit, ignore_errors, lift, pure, query, statement, transaction,
  when, ◌>>=◌, ◌>>◌,
}
use quick_bite_order_service.World.State.{
  CoreCall, OrderStatusResponse, branch_room, customer_room, release_stock, status_changed,
  status_response,
}

-- A write at the core service: sent, then answered.
abbrev pub core_write : CoreCall → Result (Unit {0}) → M (Unit {0})
core_write c answer w = call (λ v. (answer, v)) (record w { core_calls = c ∷ w.core_calls })

-- `releaseStockSafe`: a failure is logged and forgotten.
unfoldable pub release_stock_safe : CoreService → ℕ → List ReserveStockItem → String → M (Unit {0})
release_stock_safe core branch_id items key =
    ignore_errors
      (core_write (release_stock branch_id items key) (core.release branch_id items key))

-- `invalidateBranchOrdersCache`
unfoldable pub invalidate_branch_orders_cache : ℕ → M (Unit {0})
invalidate_branch_orders_cache branch_id =
    ignore_errors
      (command (λ now r. (tt, record r { branch_orders = erase branch_id r.branch_orders })))

-- `OUTBOX_EVENT_FOR_STATUS[body.status]`
unfoldable pub outbox_event_for_status : OrderStatus → Option EventType
outbox_event_for_status accepted = some EventType.order_accepted
outbox_event_for_status rejected = some EventType.order_rejected
outbox_event_for_status cancelled = some EventType.order_cancelled
outbox_event_for_status _ = none

-- `STOCK_RELEASE_ELIGIBLE_FROM_STATUSES.has(order.status)`
unfoldable pub is_release_eligible : OrderStatus → Bool
is_release_eligible pending_payment = true
is_release_eligible placed = true
is_release_eligible accepted = true
is_release_eligible _ = false

unfoldable pub gives_stock_back : OrderStatus → OrderStatus → Bool
gives_stock_back from to = (to == cancelled || to == rejected) && is_release_eligible from

-- `buildOrderTransitionPayload`
abbrev pub transition_event :
    OrderEntity → Option String → StatusActor → EventType → InsertOutboxInput
transition_event o reason who type = record {
  aggregate_type = order_aggregate;
  aggregate_id = o.public_id;
  event_type = type;
  payload = transition_payload (record {
    order_id = o.public_id;
    region = o.region;
    restaurant_id = o.restaurant_id;
    branch_id = o.branch_id;
    customer_id = o.customer_id;
    status = o.status;
    reason = reason;
    actor = who;
    occurred_at = o.updated_at;
  });
}

abbrev pub insert_event_for :
    OrderEntity → Option String → StatusActor → Option EventType → M (Unit {0})
insert_event_for o reason who none = pure tt
insert_event_for o reason who (some type) =
    statement (insert_outbox_event (transition_event o reason who type))

unfoldable pub update_writes :
    String → OrderStatus → Option StampColumn → Option String → StatusActor → M OrderEntity
update_writes public_id status stamp reason who = do
  updated ← checked (update_order_status public_id status stamp)
  insert_event_for updated reason who (outbox_event_for_status status)
  pure updated

abbrev pub reserved_items : List OrderItemEntity → List ReserveStockItem
reserved_items [] = []
reserved_items (i ∷ is) =
    record { product_id = i.product_id; quantity = i.quantity } ∷ reserved_items is

abbrev pub give_stock_back : CoreService → OrderEntity → M (Unit {0})
give_stock_back core o = do
  items ← query (find_items_by_order_ids (o.id ∷ []))
  release_stock_safe core o.branch_id (reserved_items items) o.public_id

-- What `updateStatus` checks before it opens its transaction: who acts, and the column to stamp.
unfoldable pub check_update :
    CoreService
    → ActorContext
    → OrderStatus
    → Option String
    → OrderEntity
    → M (StatusActor × Option StampColumn)
check_update core actor status reason o = do
  who ← lift (resolve_status_actor actor o)
  when (who == restaurant_member) (assert_restaurant_member_permission core actor status)
  now ← clock
  stamp ← lift (
      assert_transition o.status status
        (record {
          actor = who;
          reason = reason;
          placed_at = some o.created_at;
          accepted_at = o.accepted_at;
        })
        now)
  pure (who, stamp)

abbrev pub announce_update : OrderEntity → M (Unit {0})
announce_update o = do
  emit (customer_room o.customer_id) (status_changed (status_response o))
  emit (branch_room o.branch_id) (status_changed (status_response o))

-- `updateStatus`, from the row that was read on.
unfoldable pub update_order :
    CoreService → ActorContext → OrderStatus → Option String → OrderEntity → M OrderStatusResponse
update_order core actor status reason o = do
  (who, stamp) ← check_update core actor status reason o
  updated ← transaction (update_writes o.public_id status stamp reason who)
  when (gives_stock_back o.status status) (give_stock_back core o)
  invalidate_branch_orders_cache o.branch_id
  announce_update updated
  pure (status_response updated)

-- `updateStatus`
unfoldable pub update_status :
    CoreService → ActorContext → String → OrderStatus → Option String → M OrderStatusResponse
update_status core actor public_id status reason = do
  found ← query (find_order_by_public_id public_id)
  o ← lift (or_throw found order_not_found)
  update_order core actor status reason o
