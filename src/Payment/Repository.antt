-- ===== src/Payment/Repository.antt =====
-- Statements on the ledger, the payment sessions and the webhook events:
-- `src/app/payment/repository/transaction.repo.ts`, `payment-session.repo.ts` and
-- `payment-webhook-event.repo.ts`, with the UNIQUE constraints of their tables.
use mathlib.Core.Option
use quick_bite_order_service.Common.{
  Bool, Option, String, [], false, find, head_of, if◌then◌else◌, is_some, keep, ltb, nat_eq, none,
  some, sort_by, string_eq, true, update, ℕ, ◌&&◌, ◌++◌, ◌+◌, ◌==◌, ◌∷◌,
}
use quick_bite_order_service.Errors.{AppError}
use quick_bite_order_service.Order.Model.{actor_eq, status_eq}
use quick_bite_order_service.Payment.Model.{
  CreateSessionRowInput, CreateTransactionInput, KashierWebhookEnvelope, PaymentSessionEntity,
  PaymentSessionStatus, PaymentWebhookEventEntity, RecordWebhookInput, TransactionEntity,
}
use quick_bite_order_service.World.State.{Db}

-- UNIQUE (idempotency_key): NULLs never clash.
abbrev pub has_key : Option String → TransactionEntity → Bool
has_key none t = false
has_key (some k) t = elim t.idempotency_key [ none ↦ false | some j ↦ j == k ]

abbrev pub key_taken : Option String → Db → Bool
key_taken key d = is_some (find (has_key key) d.transactions.rows)

abbrev pub new_transaction : CreateTransactionInput → ℕ → ℕ → TransactionEntity
new_transaction input id now = record {
  id = id;
  region = input.region;
  order_id = input.order_id;
  transaction_type = input.transaction_type;
  method = input.method;
  provider_id = input.provider_id;
  provider_reference_id = input.provider_reference_id;
  status = input.status;
  amount = input.amount;
  currency = input.currency;
  src_acc_id = input.src_acc_id;
  dst_acc_id = input.dst_acc_id;
  is_refunded = false;
  refunded_payment_id = none;
  idempotency_key = input.idempotency_key;
  created_at = now;
  updated_at = now;
}

-- The insert itself.
unfoldable pub append_transaction : CreateTransactionInput → ℕ → Db → TransactionEntity × Db
append_transaction input now d =
    let t = new_transaction input d.transactions.next_id now in
    (
      t,
      record d {
        transactions = record {
          rows = d.transactions.rows ++ t ∷ [];
          next_id = d.transactions.next_id + 1;
        };
      },
    )

-- `createTransaction`: a key that is taken is a unique violation.
unfoldable pub create_transaction :
    CreateTransactionInput → ℕ → Db → Option (TransactionEntity × Db)
create_transaction input now d =
    if key_taken input.idempotency_key d then none else some (append_transaction input now d)

-- `createTransactionIdempotent`: ON CONFLICT DO NOTHING.
unfoldable pub create_transaction_idempotent :
    CreateTransactionInput → ℕ → Db → Option TransactionEntity × Db
unfolding append_transaction
create_transaction_idempotent input now d =
    let taken = key_taken input.idempotency_key d in
    let (t, d') = append_transaction input now d in
    (
      if taken then none else some t,
      record d { transactions = if taken then d.transactions else d'.transactions },
    )

-- `createTransactionIdempotent`, whose result the settlement drops.
unfoldable pub book : CreateTransactionInput → ℕ → Db → Unit {0} × Db
book input now d = (tt, (create_transaction_idempotent input now d).1)

unfoldable pub find_transaction_by_id : ℕ → ℕ → Db → Option TransactionEntity
find_transaction_by_id id now d = find (λ t. t.id == id) d.transactions.rows

-- `findTransactionWithRestaurant`: the LEFT JOIN gives no restaurant where no order matches.
abbrev restaurant_of_order : Option ℕ → Db → Option ℕ
restaurant_of_order none d = none
restaurant_of_order (some order_id) d =
    Option.map (λ o. o.restaurant_id) (find (λ o. o.id == order_id) d.orders.rows)

unfoldable pub find_transaction_with_restaurant : ℕ → ℕ → Db → Option (TransactionEntity × Option ℕ)
unfolding find_transaction_by_id
find_transaction_with_restaurant id now d =
    Option.map (λ t. (t, restaurant_of_order t.order_id d)) (find_transaction_by_id id now d)

-- `whereIn("status", [INITIALIZED, PENDING])`
abbrev pub is_active : PaymentSessionStatus → Bool
is_active PaymentSessionStatus.initialized = true
is_active PaymentSessionStatus.pending = true
is_active _ = false

abbrev later_session : PaymentSessionEntity → PaymentSessionEntity → Bool
later_session a b = ltb b.id a.id

unfoldable pub find_active_session_by_order_id : ℕ → ℕ → Db → Option PaymentSessionEntity
unfolding sort_by
find_active_session_by_order_id order_id now d = head_of (
    sort_by later_session
      (keep (λ s. s.order_id == order_id && is_active s.status) d.sessions.rows))

unfoldable pub create_session : CreateSessionRowInput → ℕ → Db → Option (PaymentSessionEntity × Db)
create_session input now d =
    let s : PaymentSessionEntity = record {
      id = d.sessions.next_id;
      region = input.region;
      order_id = input.order_id;
      provider_id = input.provider_id;
      provider_session_id = input.provider_session_id;
      redirect_url = input.redirect_url;
      amount = input.amount;
      currency = input.currency;
      status = input.status;
      raw_init_payload = input.raw_init_payload;
      raw_last_payload = none;
      created_at = now;
      updated_at = now;
    } in
    if is_some (find (λ t. t.provider_session_id == input.provider_session_id) d.sessions.rows)
    then none
    else some (
      s,
      record d {
        sessions = record { rows = d.sessions.rows ++ s ∷ []; next_id = d.sessions.next_id + 1 };
      },
    )

unfoldable pub set_session :
    PaymentSessionStatus → KashierWebhookEnvelope → ℕ → PaymentSessionEntity → PaymentSessionEntity
set_session status envelope now s = record s {
  status = status;
  raw_last_payload = some envelope;
  updated_at = now;
}

-- `updateSession`, with the envelope that both of its callers pass; with no such row the code fails on
-- reading the result.
unfoldable pub update_session :
    ℕ → PaymentSessionStatus → KashierWebhookEnvelope → ℕ → Db → Option (PaymentSessionEntity × Db)
update_session id status envelope now d =
    Option.map
      (λ s. (
        set_session status envelope now s,
        record d {
          sessions = record {
            rows = update (λ s. s.id == id) (set_session status envelope now) d.sessions.rows;
            next_id = d.sessions.next_id;
          };
        },
      ))
      (find (λ s. s.id == id) d.sessions.rows)

abbrev pub is_event : ℕ → String → PaymentWebhookEventEntity → Bool
is_event provider_id event_id e = e.provider_id == provider_id && e.provider_event_id == event_id

abbrev pub event_recorded : ℕ → String → Db → Bool
event_recorded provider_id event_id d =
    is_some (find (is_event provider_id event_id) d.webhook_events.rows)

-- `recordWebhookOrSkip`: nothing comes back for an event that is already recorded.
unfoldable pub record_webhook_or_skip :
    RecordWebhookInput → ℕ → Db → Option PaymentWebhookEventEntity × Db
record_webhook_or_skip input now d =
    let e : PaymentWebhookEventEntity = record {
      id = d.webhook_events.next_id;
      region = input.region;
      provider_id = input.provider_id;
      provider_event_id = input.provider_event_id;
      signature = input.signature;
      payload = input.payload;
      received_at = now;
      processed_at = none;
      process_error = none;
    } in
    if event_recorded input.provider_id input.provider_event_id d then (none, d) else (
      some e,
      record d {
        webhook_events = record {
          rows = d.webhook_events.rows ++ e ∷ [];
          next_id = d.webhook_events.next_id + 1;
        };
      },
    )

abbrev pub mark_processed :
    Option AppError → ℕ → PaymentWebhookEventEntity → PaymentWebhookEventEntity
mark_processed error now e = record e { processed_at = some now; process_error = error }

unfoldable pub mark_webhook_processed : ℕ → Option AppError → ℕ → Db → Unit {0} × Db
mark_webhook_processed id error now d = (
  tt,
  record d {
    webhook_events = record {
      rows = update (λ e. e.id == id) (mark_processed error now) d.webhook_events.rows;
      next_id = d.webhook_events.next_id;
    };
  },
)
