-- ===== src/Agent/Settlement.antt =====
-- Settlement of a delivered order: `src/app/agent/service/settlement.service.ts`.
pub mod Writes
pub mod Booking
pub mod Outcome
pub mod Money
pub mod Delivered
pub mod Conservation
pub mod Once
pub mod Progress
use Prim.Native.String.{◌++◌}
use mathlib.Core.Option.{get_or}
use quick_bite_order_service.Agent.Model.{InsertAgentEarningInput}
use quick_bite_order_service.Agent.Repository.{insert_earning}
use quick_bite_order_service.Common.{
  Option, String, erase, if◌then◌else◌, is_zero_ℤ, keep, ltb, nat_eq, none, not, pos, some,
  string_eq, ℕ, ℤ, ◌*◌, ◌-ℤ◌, ◌/◌, ◌==◌,
}
use quick_bite_order_service.Core.Client.{CoreService, get_branch}
use quick_bite_order_service.Core.Model.{CoreBranchMetadata}
use quick_bite_order_service.Errors.{
  Result, err, invalid_status_transition, not_your_task, ok, or_throw, order_not_found,
}
use quick_bite_order_service.Events.Model.{
  EventType, InsertOutboxInput, delivered_payload, order_aggregate,
}
use quick_bite_order_service.Events.Repository.{insert_outbox_event}
use quick_bite_order_service.Finance.Repository.{upsert_increment}
use quick_bite_order_service.Order.Model.{
  OrderEntity, actor_eq, delivered, is_cod, picked, status_eq,
}
use quick_bite_order_service.Order.Repository.{
  find_order_by_public_id, is_agent_of, update_order_commission, update_order_status,
}
use quick_bite_order_service.Order.Status.{delivered_at}
use quick_bite_order_service.Payment.Model.{
  CreateTransactionInput, TransactionMethod, TransactionStatus, TransactionType,
}
use quick_bite_order_service.Payment.Repository.{book}
use quick_bite_order_service.World.Monad.{
  M, checked, clock, command, emit, lift, or_null, pure, query, statement, transaction, when, ◌>>=◌,
  ◌>>◌,
}
use quick_bite_order_service.World.State.{
  Db, branch_room, customer_room, status_changed, status_response,
}

-- `Math.floor((amount * bps) / 10000)`. The products stay far below 2 ^ 53.
unfoldable pub share_of : ℕ → ℕ → ℕ
share_of amount bps = amount * bps / 10000

-- A ledger row of the settlement; all four have the order, its currency and no provider.
abbrev pub ledger_row :
    OrderEntity
    → String
    → TransactionType
    → TransactionMethod
    → ℕ
    → Option ℕ
    → Option ℕ
    → String
    → CreateTransactionInput
ledger_row o region type method amount src dst key = record {
  region = region;
  order_id = some o.id;
  transaction_type = type;
  method = method;
  provider_id = none;
  provider_reference_id = none;
  status = TransactionStatus.succeeded;
  amount = amount;
  currency = o.currency;
  src_acc_id = src;
  dst_acc_id = dst;
  idempotency_key = some (key ++ o.public_id);
}

abbrev pub cod_row : OrderEntity → String → CreateTransactionInput
cod_row o region =
    ledger_row o region TransactionType.cod_collection TransactionMethod.cod o.total
      (some o.customer_id) (some o.restaurant_owner_id) "cod-collect:"

abbrev pub commission_row : OrderEntity → String → ℕ → CreateTransactionInput
commission_row o region commission =
    ledger_row o region TransactionType.commission TransactionMethod.system commission
      (some o.restaurant_owner_id) none "commission:"

abbrev pub service_fee_row : OrderEntity → String → CreateTransactionInput
service_fee_row o region =
    ledger_row o region TransactionType.service_fee TransactionMethod.system o.service_fee
      (some o.restaurant_owner_id) none "service-fee:"

abbrev pub delivery_fee_row : OrderEntity → String → CreateTransactionInput
delivery_fee_row o region =
    ledger_row o region TransactionType.delivery_fee TransactionMethod.system o.delivery_fee
      (some o.restaurant_owner_id) none "delivery-fee:"

unfoldable pub earn : InsertAgentEarningInput → ℕ → Db → Unit {0} × Db
earn input now d = (tt, (insert_earning input now d).1)

-- `order.subtotal - commission`
unfoldable pub net_to_restaurant : OrderEntity → ℕ → ℤ
net_to_restaurant o commission = pos o.subtotal -ℤ pos commission

abbrev pub earning_input : OrderEntity → String → ℕ → ℕ → InsertAgentEarningInput
earning_input o region agent_id earning = record {
  region = region;
  agent_id = agent_id;
  order_id = o.id;
  amount = earning;
  currency = o.currency;
}

abbrev pub delivered_event : OrderEntity → ℕ → ℕ → ℕ → InsertOutboxInput
delivered_event updated agent_id commission now = record {
  aggregate_type = order_aggregate;
  aggregate_id = updated.public_id;
  event_type = EventType.order_delivered;
  payload = delivered_payload (record {
    order_id = updated.public_id;
    region = updated.region;
    restaurant_id = updated.restaurant_id;
    branch_id = updated.branch_id;
    customer_id = updated.customer_id;
    delivery_agent_id = agent_id;
    total = updated.total;
    subtotal = updated.subtotal;
    delivery_fee = updated.delivery_fee;
    commission = commission;
    currency = updated.currency;
    payment_method = updated.payment_method;
    delivered_at = get_or updated.delivered_at now;
  });
}

-- The body of the transaction. The caller has found that the order's agent is `agent_id`, so
-- `deliveryAgentId!` is there.
unfoldable pub settle_writes : OrderEntity → String → ℕ → String → ℕ → ℕ → M OrderEntity
settle_writes o public_id agent_id region commission earning = do
  statement (update_order_commission public_id commission)
  when (is_cod o.payment_method) (statement (book (cod_row o region)))
  when (ltb 0 commission) (statement (book (commission_row o region commission)))
  when (ltb 0 o.service_fee) (statement (book (service_fee_row o region)))
  when (ltb 0 o.delivery_fee) (statement (book (delivery_fee_row o region)))
  when (not (is_zero_ℤ (net_to_restaurant o commission))) (
      statement
        (upsert_increment o.restaurant_id region o.currency (net_to_restaurant o commission)))
  statement (earn (earning_input o region (get_or o.delivery_agent_id agent_id) earning))
  updated ← checked (update_order_status public_id delivered (some delivered_at))
  now ← clock
  statement (insert_outbox_event (delivered_event updated agent_id commission now))
  pure updated

-- The checks on the row that was read before the transaction.
unfoldable pub check_settleable : OrderEntity → ℕ → Result (Unit {0})
check_settleable o agent_id =
    if not (is_agent_of agent_id o)
    then err not_your_task
    else if not (o.status == picked)
    then err (invalid_status_transition o.status delivered)
    else ok tt

abbrev pub order_to_settle : String → ℕ → M OrderEntity
order_to_settle public_id agent_id = do
  found ← query (find_order_by_public_id public_id)
  o ← lift (or_throw found order_not_found)
  lift (check_settleable o agent_id)
  pure o

-- `Number(branch.commissionBps ?? 0)`; 0 where the branch cannot be fetched.
abbrev pub commission_bps_of : Option CoreBranchMetadata → ℕ
commission_bps_of none = 0
commission_bps_of (some b) = b.commission_bps

abbrev pub clear_busy : ℕ → M (Unit {0})
clear_busy agent_id =
    command (λ now r. (tt, record r { busy = keep (λ a. not (a == agent_id)) r.busy }))

abbrev pub drop_claim : String → M (Unit {0})
drop_claim public_id = command (λ now r. (tt, record r { claims = erase public_id r.claims }))

abbrev pub announce_status : OrderEntity → M (Unit {0})
announce_status o = do
  emit (customer_room o.customer_id) (status_changed (status_response o))
  emit (branch_room o.branch_id) (status_changed (status_response o))

-- What follows the check: the second half of `settleDelivered`, on the row that the first half read.
unfoldable pub settle_order : CoreService → ℕ → String → ℕ → String → OrderEntity → M OrderEntity
settle_order core earning_share_bps public_id agent_id region o = do
  branch ← or_null (get_branch core o.branch_id)
  let commission = share_of o.subtotal (commission_bps_of branch)
  let earning = share_of o.delivery_fee earning_share_bps
  updated ← transaction (settle_writes o public_id agent_id region commission earning)
  clear_busy agent_id
  drop_claim public_id
  announce_status updated
  pure updated

-- `settleDelivered`
unfoldable pub settle_delivered : CoreService → ℕ → String → ℕ → String → M OrderEntity
settle_delivered core earning_share_bps public_id agent_id region = do
  o ← order_to_settle public_id agent_id
  settle_order core earning_share_bps public_id agent_id region o
