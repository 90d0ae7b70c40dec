-- ===== src/Payment/Webhook/Once.antt =====
-- Each event of the provider is handled once.
use quick_bite_order_service.Common.{
  Bool, Bool-cases, List, Option, String, [], ap, arith, beq_refl, false, find, find-append_hit,
  if◌then◌else◌, inl, inr, is_some-update, map-some, nat_eq, none, not, refl, some, some-injective,
  string_eq, subst, sym, true, ℕ, ◌==◌, ◌∷◌, ◌≡◌,
}
use quick_bite_order_service.Errors.{AppError, Result, err, invalid_webhook_signature, ok}
use quick_bite_order_service.Events.Model.{EventType}
use quick_bite_order_service.Events.Payloads.{order_placed_event}
use quick_bite_order_service.Events.Repository.{insert_outbox_event}
use quick_bite_order_service.Order.Model.{
  OrderEntity, OrderItemEntity, OrderStatus, actor_eq, pending_payment, placed, status_eq,
}
use quick_bite_order_service.Order.Repository.{
  find_items_by_order_ids, find_order_by_public_id, update_order_status,
}
use quick_bite_order_service.Order.Repository.Rows.{update_order_status-StatusSet}
use quick_bite_order_service.Order.Status.{StampColumn}
use quick_bite_order_service.Payment.Model.{
  CreateTransactionInput, KashierWebhookEnvelope, PaymentSessionEntity, PaymentSessionStatus,
  PaymentWebhookEventEntity, TransactionEntity, TransactionStatus, kashier_provider_id,
}
use quick_bite_order_service.Payment.Repository.{
  append_transaction, create_transaction, event_recorded, find_active_session_by_order_id, is_event,
  key_taken, mark_processed, mark_webhook_processed, record_webhook_or_skip, update_session,
}
use quick_bite_order_service.Payment.Session.{PaymentProvider}
use quick_bite_order_service.Payment.Webhook.{
  announce_placed, capture_writes, charge_row, check_signature, failure_writes, payment_event,
  place_paid, process_kashier_webhook, reconcile, reconcile_order, reconcile_recorded,
  reconcile_session, reconcile_writes, webhook_row,
}
use quick_bite_order_service.World.Frame.{Keeps, Tables, Tables-of_Keeps, query-Keeps}
use quick_bite_order_service.World.Monad.{
  bind_result, call, call_on, checked, lift, pure, query, statement, throw, transaction, ◌>>=◌,
  ◌>>◌,
}
use quick_bite_order_service.World.State.{Db, World}
use quick_bite_order_service.World.Stays.{
  Stays, Stays-Keeps, Stays-bind, Stays-catch, Stays-checked, Stays-statement, Stays-transaction,
}

-- A webhook whose signature is missing or does not verify is refused, and changes nothing.
pub process_kashier_webhook-unsigned :
    (provider : PaymentProvider) (envelope : KashierWebhookEnvelope) (signature : Option String)
    (region : String) (w : World)
    → ((s : String) → signature ≡ some s → provider.verify envelope s ≡ false)
    → process_kashier_webhook provider envelope signature region w
      ≡ (err invalid_webhook_signature, w)
unfolding process_kashier_webhook check_signature
process_kashier_webhook-unsigned provider envelope none region w h = refl
process_kashier_webhook-unsigned provider envelope (some s) region w h =
    elim (Bool-cases (s == "")) [
      | inl empty ↦ rw empty refl
      | inr signed ↦ rw (signed, h s refl) refl
    ]

module _ (provider : PaymentProvider) (envelope : KashierWebhookEnvelope) (s region : String) where
  Recorded : Db → Type 0
  Recorded d = event_recorded kashier_provider_id envelope.transaction_id d ≡ true

  records :
      (now : ℕ) (d : Db) → Recorded (record_webhook_or_skip (webhook_row envelope s region) now d).1
  unfolding record_webhook_or_skip Recorded
  records now d = elim (Bool-cases (event_recorded kashier_provider_id envelope.transaction_id d)) [
    | inl taken ↦ rw (taken, taken) refl
    | inr fresh ↦ rw fresh (
        find-append_hit (is_event kashier_provider_id envelope.transaction_id) d.webhook_events.rows
          _ (ground (arith, beq_refl envelope.transaction_id)))
  ]

  mark-Recorded :
      (id : ℕ) (e : Option AppError) (now : ℕ) (d : Db)
      → Recorded d
      → Recorded (mark_webhook_processed id e now d).1
  unfolding Recorded mark_webhook_processed
  mark-Recorded id e now d h =
      is_some-update (is_event kashier_provider_id envelope.transaction_id) (λ r. r.id == id)
        (mark_processed e now) d.webhook_events.rows (λ r. refl) h

  update_order_status-events :
      (public_id : String) (status : OrderStatus) (column : Option StampColumn) (now : ℕ) (d : Db)
      (o : OrderEntity) (d' : Db)
      → update_order_status public_id status column now d ≡ some (o, d')
      → Recorded d
      → Recorded d'
  unfolding Recorded
  update_order_status-events public_id status column now d o d' e h =
      let t = update_order_status-StatusSet public_id status column now d e in
      subst (λ x. event_recorded kashier_provider_id envelope.transaction_id x ≡ true)
        (sym t.tables) h

  create_transaction-events :
      (input : CreateTransactionInput) (now : ℕ) (d : Db) (t : TransactionEntity) (d' : Db)
      → create_transaction input now d ≡ some (t, d')
      → Recorded d
      → Recorded d'
  unfolding Recorded create_transaction append_transaction
  create_transaction-events input now d t d' e h =
      elim (Bool-cases (key_taken input.idempotency_key d)) [
        | inl taken ↦ cc (rw taken at e)
        | inr free ↦
            subst (λ x. event_recorded kashier_provider_id envelope.transaction_id x ≡ true)
              (ap (λ x. x.1) (some-injective (rw free at e))) h
      ]

  update_session-events :
      (id : ℕ) (status : PaymentSessionStatus) (now : ℕ) (d : Db) (x : PaymentSessionEntity)
      (d' : Db)
      → update_session id status envelope now d ≡ some (x, d')
      → Recorded d
      → Recorded d'
  unfolding Recorded update_session
  update_session-events id status now d x d' e h =
      let (b, f, same) = map-some _ (find (λ s. s.id == id) d.sessions.rows) e in
      subst (λ z. event_recorded kashier_provider_id envelope.transaction_id z ≡ true)
        (ap (λ z. z.1) same) h

  place_paid-Recorded : (o : OrderEntity) → Stays Recorded (place_paid o)
  unfolding place_paid insert_outbox_event Recorded
  place_paid-Recorded o =
      let P = Recorded in
      Stays-bind P (checked (update_order_status o.public_id placed none)) _
        (Stays-checked P (update_order_status o.public_id placed none)
          (update_order_status-events o.public_id placed none))
        λ row.
          Stays-bind P (query (find_items_by_order_ids (row.id ∷ []))) _
            (Stays-Keeps P (query (find_items_by_order_ids (row.id ∷ []))) (query-Keeps _))
            λ items.
              Stays-bind P (statement (insert_outbox_event (order_placed_event row items)))
                (λ _. pure (some (row, items)))
                (Stays-statement P (insert_outbox_event (order_placed_event row items))
                  (λ now d h. h))
                (λ _ w h. h)

  paid_or_not :
      (b : Bool) (o : OrderEntity) → Stays Recorded (if b then place_paid o else pure none)
  paid_or_not true o = place_paid-Recorded o
  paid_or_not false o = λ w h. h

  capture-Recorded :
      (o : OrderEntity) (x : PaymentSessionEntity)
      → Stays Recorded (capture_writes o x envelope region)
  unfolding capture_writes insert_outbox_event Recorded
  capture-Recorded o x =
      let P = Recorded in
      let set = update_session x.id PaymentSessionStatus.captured envelope in
      let row =
        charge_row o x region envelope.transaction_id TransactionStatus.succeeded
          (some o.restaurant_owner_id) in
      Stays-bind P (checked set) _
        (Stays-checked P set (update_session-events x.id PaymentSessionStatus.captured))
        λ _.
          Stays-bind P (checked (create_transaction row)) _
            (Stays-checked P (create_transaction row) (create_transaction-events row))
            λ _ w h.
              let event = insert_outbox_event (
                payment_event o x region envelope.transaction_id EventType.payment_completed
                  w.now) in
              Stays-bind P (statement event)
                (λ _. if o.status == pending_payment then place_paid o else pure none)
                (Stays-statement P event (λ now d h. h))
                (λ _. paid_or_not (o.status == pending_payment) o) w h

  failure-Recorded :
      (o : OrderEntity) (x : PaymentSessionEntity)
      → Stays Recorded (failure_writes o x envelope region)
  unfolding failure_writes insert_outbox_event Recorded
  failure-Recorded o x =
      let P = Recorded in
      let set = update_session x.id PaymentSessionStatus.failed envelope in
      let row = charge_row o x region envelope.transaction_id TransactionStatus.failed none in
      Stays-bind P (checked set) _
        (Stays-checked P set (update_session-events x.id PaymentSessionStatus.failed))
        λ _.
          Stays-bind P (checked (create_transaction row)) _
            (Stays-checked P (create_transaction row) (create_transaction-events row))
            λ _ w h.
              let event =
                insert_outbox_event (
                  payment_event o x region envelope.transaction_id EventType.payment_failed
                    w.now) in
              Stays-bind P (statement event) (λ _. pure none)
                (Stays-statement P event (λ now d h. h)) (λ _ w h. h) w h

  either_writes :
      (b : Bool) (o : OrderEntity) (x : PaymentSessionEntity)
      → Stays Recorded
          (if b then capture_writes o x envelope region else failure_writes o x envelope region)
  either_writes true o x = capture-Recorded o x
  either_writes false o x = failure-Recorded o x

  announced : (p : Option (OrderEntity × List OrderItemEntity)) → Stays Recorded (announce_placed p)
  announced none w h = h
  announced (some (o, items)) w h = h

  session_lem :
      (o : OrderEntity) (x : Option PaymentSessionEntity)
      → Stays Recorded (reconcile_session envelope region o x)
  session_lem o none = λ w h. h
  session_lem o (some x) =
      Stays-bind Recorded (transaction (reconcile_writes o x envelope region)) announce_placed
        (Stays-transaction Recorded (reconcile_writes o x envelope region)
          (either_writes (envelope.status == "SUCCESS") o x))
        announced

  order_lem : (o : Option OrderEntity) → Stays Recorded (reconcile_order envelope region o)
  order_lem none = λ w h. h
  order_lem (some o) =
      Stays-bind Recorded (query (find_active_session_by_order_id o.id))
        (reconcile_session envelope region o)
        (Stays-Keeps Recorded (query (find_active_session_by_order_id o.id)) (query-Keeps _))
        (session_lem o)

  reconcile-Recorded : Stays Recorded (reconcile envelope region)
  unfolding reconcile
  reconcile-Recorded = pay_or_not (envelope.event == "pay")
    where
      pay_or_not :
          (b : Bool)
          → Stays Recorded (
              if not b
              then pure tt
              else (query (find_order_by_public_id envelope.merchant_order_id)
                  >>= reconcile_order envelope region))
      pay_or_not true =
          Stays-bind Recorded (query (find_order_by_public_id envelope.merchant_order_id))
            (reconcile_order envelope region)
            (Stays-Keeps Recorded (query (find_order_by_public_id envelope.merchant_order_id))
              (query-Keeps _))
            order_lem
      pay_or_not false = λ w h. h

  marked : (id : ℕ) (e : Option AppError) → Stays Recorded (statement (mark_webhook_processed id e))
  marked id e = Stays-statement Recorded (mark_webhook_processed id e) (mark-Recorded id e)

  recorded_lem :
      (row : Option PaymentWebhookEventEntity)
      → Stays Recorded (reconcile_recorded envelope region row)
  recorded_lem none = λ w h. h
  recorded_lem (some row) =
      Stays-catch Recorded
        (reconcile envelope region >> statement (mark_webhook_processed row.id none)) _
        (Stays-bind Recorded (reconcile envelope region)
          (λ _. statement (mark_webhook_processed row.id none)) reconcile-Recorded
          (λ _. marked row.id none))
        (λ e.
          Stays-bind Recorded (statement (mark_webhook_processed row.id (some e))) (λ _. throw e)
            (marked row.id (some e)) (λ _ w h. h))

  duplicate_on :
      (l : List Bool) (z : World) (signature : String)
      → Recorded z.db
      → let f = record_webhook_or_skip (webhook_row envelope signature region) in
        Keeps z (
          bind_result
            (reconcile_recorded envelope region)
            (call_on (λ v. (ok (f v.now v.db).0, record v { db = (f v.now v.db).1 })) l z))
  unfolding record_webhook_or_skip Recorded
  duplicate_on [] z signature h = rw h (refl, refl)
  duplicate_on (true ∷ fs) z signature h = (refl, refl)
  duplicate_on (false ∷ fs) z signature h = rw h (refl, refl)

  duplicate-Keeps :
      (z : World) (signature : Option String)
      → Recorded z.db
      → Keeps z (process_kashier_webhook provider envelope signature region z)
  unfolding process_kashier_webhook call
  duplicate-Keeps z signature h = checked_signature (check_signature provider envelope signature)
    where
      checked_signature :
          (r : Result String)
          → Keeps z (
              bind_result
                (λ x.
                  statement (record_webhook_or_skip (webhook_row envelope x region))
                  >>= reconcile_recorded envelope region)
                (lift r z))
      checked_signature (ok x) = duplicate_on z.faults z x h
      checked_signature (err e) = (refl, refl)

  -- A webhook is handled at most once: once a signed webhook has written its row, whether its handling
  -- then succeeded or failed, a further webhook of the same event leaves every table as it is.
  pub process_kashier_webhook_once :
      (w z : World) (fs : List Bool) (other : Option String)
      → (s == "") ≡ false
      → provider.verify envelope s ≡ true
      → w.faults ≡ false ∷ fs
      → z.db ≡ (process_kashier_webhook provider envelope (some s) region w).1.db
      → Tables (λ d. d ≡ z.db) (process_kashier_webhook provider envelope other region z)
  unfolding process_kashier_webhook check_signature call
  process_kashier_webhook_once w z fs other signed valid through same =
      let n = record_webhook_or_skip (webhook_row envelope s region) w.now w.db in
      let after : Tables Recorded
          (reconcile_recorded envelope region n.0 (record w { faults = fs; db = n.1 })) =
        recorded_lem n.0 (record w { faults = fs; db = n.1 }) (records w.now w.db) in
      let known : Recorded z.db = subst Recorded (sym same) (rw (signed, valid, through) after) in
      Tables-of_Keeps (λ d. d ≡ z.db) z (process_kashier_webhook provider envelope other region z)
        (duplicate-Keeps z other known) refl
