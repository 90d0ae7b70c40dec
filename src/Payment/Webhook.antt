-- ===== src/Payment/Webhook.antt =====
-- `KashierWebhookService`: `src/app/payment/service/kashier-webhook.service.ts`. The parsed envelope and
-- the signature header are arguments.
pub mod Once
use Prim.Native.String.{◌++◌}
use quick_bite_order_service.Common.{
  List, Option, String, [], if◌then◌else◌, length, nat_eq, none, not, some, string_eq, ℕ, ◌==◌, ◌∷◌,
}
use quick_bite_order_service.Errors.{Result, err, invalid_webhook_signature, ok}
use quick_bite_order_service.Events.Model.{
  EventType, InsertOutboxInput, payment_aggregate, payment_payload,
}
use quick_bite_order_service.Events.Payloads.{order_placed_event}
use quick_bite_order_service.Events.Repository.{insert_outbox_event}
use quick_bite_order_service.Order.Model.{
  OrderEntity, OrderItemEntity, actor_eq, pending_payment, placed, status_eq,
}
use quick_bite_order_service.Order.Repository.{
  find_items_by_order_ids, find_order_by_public_id, update_order_status,
}
use quick_bite_order_service.Payment.Model.{
  CreateTransactionInput, KashierWebhookEnvelope, PaymentSessionEntity, PaymentSessionStatus,
  PaymentWebhookEventEntity, RecordWebhookInput, TransactionMethod, TransactionStatus,
  TransactionType, kashier_provider_id,
}
use quick_bite_order_service.Payment.Repository.{
  create_transaction, find_active_session_by_order_id, mark_webhook_processed,
  record_webhook_or_skip, update_session,
}
use quick_bite_order_service.Payment.Session.{PaymentProvider}
use quick_bite_order_service.World.Monad.{
  M, catch, checked, clock, emit, lift, pure, query, statement, throw, transaction, ◌>>=◌, ◌>>◌,
}
use quick_bite_order_service.World.State.{
  branch_room, customer_room, order_created, status_changed, status_response, summary_response,
}

abbrev pub charge_row :
    OrderEntity
    → PaymentSessionEntity
    → String
    → String
    → TransactionStatus
    → Option ℕ
    → CreateTransactionInput
charge_row o s region transaction_id status dst = record {
  region = region;
  order_id = some o.id;
  transaction_type = TransactionType.charge;
  method = TransactionMethod.online;
  provider_id = some kashier_provider_id;
  provider_reference_id = some transaction_id;
  status = status;
  amount = s.amount;
  currency = s.currency;
  src_acc_id = some o.customer_id;
  dst_acc_id = dst;
  idempotency_key = some ("kashier:" ++ transaction_id);
}

abbrev pub payment_event :
    OrderEntity → PaymentSessionEntity → String → String → EventType → ℕ → InsertOutboxInput
payment_event o s region transaction_id type now = record {
  aggregate_type = payment_aggregate;
  aggregate_id = o.public_id;
  event_type = type;
  payload = payment_payload (record {
    order_id = o.public_id;
    region = region;
    restaurant_id = o.restaurant_id;
    branch_id = o.branch_id;
    customer_id = o.customer_id;
    provider_reference_id = transaction_id;
    amount = s.amount;
    currency = s.currency;
    at = now;
  });
}

-- `if (order.status === PENDING_PAYMENT)`: the order is placed, with its items.
unfoldable pub place_paid : OrderEntity → M (Option (OrderEntity × List OrderItemEntity))
place_paid o = do
  placed_row ← checked (update_order_status o.public_id placed none)
  items ← query (find_items_by_order_ids (placed_row.id ∷ []))
  statement (insert_outbox_event (order_placed_event placed_row items))
  pure (some (placed_row, items))

-- The transaction of a successful payment; the order comes back if it was placed by it.
unfoldable pub capture_writes :
    OrderEntity
    → PaymentSessionEntity
    → KashierWebhookEnvelope
    → String
    → M (Option (OrderEntity × List OrderItemEntity))
capture_writes o s envelope region = do
  checked (update_session s.id PaymentSessionStatus.captured envelope)
  checked (
      create_transaction (
        charge_row o s region envelope.transaction_id TransactionStatus.succeeded
          (some o.restaurant_owner_id)))
  now ← clock
  statement (
      insert_outbox_event
        (payment_event o s region envelope.transaction_id EventType.payment_completed now))
  if o.status == pending_payment then place_paid o else pure none

-- The transaction of a failed payment: the order keeps its status.
unfoldable pub failure_writes :
    OrderEntity
    → PaymentSessionEntity
    → KashierWebhookEnvelope
    → String
    → M (Option (OrderEntity × List OrderItemEntity))
failure_writes o s envelope region = do
  checked (update_session s.id PaymentSessionStatus.failed envelope)
  checked (
      create_transaction
        (charge_row o s region envelope.transaction_id TransactionStatus.failed none))
  now ← clock
  statement (
      insert_outbox_event
        (payment_event o s region envelope.transaction_id EventType.payment_failed now))
  pure none

abbrev pub reconcile_writes :
    OrderEntity
    → PaymentSessionEntity
    → KashierWebhookEnvelope
    → String
    → M (Option (OrderEntity × List OrderItemEntity))
reconcile_writes o s envelope region =
    if envelope.status == "SUCCESS"
    then capture_writes o s envelope region
    else failure_writes o s envelope region

abbrev pub announce_placed : Option (OrderEntity × List OrderItemEntity) → M (Unit {0})
announce_placed none = pure tt
announce_placed (some (o, items)) = do
  emit (branch_room o.branch_id) (order_created (summary_response o (length items)))
  emit (customer_room o.customer_id) (status_changed (status_response o))

abbrev pub reconcile_session :
    KashierWebhookEnvelope → String → OrderEntity → Option PaymentSessionEntity → M (Unit {0})
reconcile_session envelope region o none = pure tt
reconcile_session envelope region o (some s) = do
  placed_order ← transaction (reconcile_writes o s envelope region)
  announce_placed placed_order

abbrev pub reconcile_order : KashierWebhookEnvelope → String → Option OrderEntity → M (Unit {0})
reconcile_order envelope region none = pure tt
reconcile_order envelope region (some o) = do
  s ← query (find_active_session_by_order_id o.id)
  reconcile_session envelope region o s

-- `reconcile`: what is no payment, or has no order or no active session, is ignored.
unfoldable pub reconcile : KashierWebhookEnvelope → String → M (Unit {0})
reconcile envelope region = if not (envelope.event == "pay") then pure tt else (do
  o ← query (find_order_by_public_id envelope.merchant_order_id)
  reconcile_order envelope region o)

abbrev pub webhook_row : KashierWebhookEnvelope → String → String → RecordWebhookInput
webhook_row envelope signature region = record {
  region = region;
  provider_id = kashier_provider_id;
  provider_event_id = envelope.transaction_id;
  signature = signature;
  payload = envelope;
}

abbrev pub reconcile_recorded :
    KashierWebhookEnvelope → String → Option PaymentWebhookEventEntity → M (Unit {0})
reconcile_recorded envelope region none = pure tt
reconcile_recorded envelope region (some row) =
    catch (reconcile envelope region >> statement (mark_webhook_processed row.id none))
      (λ e. statement (mark_webhook_processed row.id (some e)) >> throw e)

-- `if (!signatureHeader || !verifyWebhook(…)) throw InvalidWebhookSignatureError;`
unfoldable pub check_signature :
    PaymentProvider → KashierWebhookEnvelope → Option String → Result String
check_signature provider envelope none = err invalid_webhook_signature
check_signature provider envelope (some signature) =
    if signature == ""
    then err invalid_webhook_signature
    else if provider.verify envelope signature
    then ok signature
    else err invalid_webhook_signature

-- `processKashierWebhook`, on a body that parsed.
unfoldable pub process_kashier_webhook :
    PaymentProvider → KashierWebhookEnvelope → Option String → String → M (Unit {0})
process_kashier_webhook provider envelope signature region = do
  s ← lift (check_signature provider envelope signature)
  recorded ← statement (record_webhook_or_skip (webhook_row envelope s region))
  reconcile_recorded envelope region recorded
