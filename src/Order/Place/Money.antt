-- ===== src/Order/Place/Money.antt =====
-- What `placeOrder` writes.
use quick_bite_order_service.Agent.Settlement.Booking.{if_keeps}
use quick_bite_order_service.Common.{
  List, String, [], ap, arith, nat_eq, none, refl, string_eq, suc, sym, ℕ, ◌++◌, ◌+◌, ◌==◌, ◌∷◌,
  ◌≡◌,
}
use quick_bite_order_service.Core.Client.{CoreService}
use quick_bite_order_service.Errors.{AppError, Result, err, ok}
use quick_bite_order_service.Events.Payloads.{order_placed_event}
use quick_bite_order_service.Events.Repository.{insert_outbox_event}
use quick_bite_order_service.Finance.Payout.{roll_back}
use quick_bite_order_service.Order.Lines.{sum_minor}
use quick_bite_order_service.Order.Model.{
  ActorContext, OrderEntity, OrderItemEntity, OrderLineDraft, actor_eq, placed, status_eq,
}
use quick_bite_order_service.Order.Place.{
  CreateOrderRequest, Draft, item_rows, lines_total, order_row, place_transaction, place_writes,
  requested,
}
use quick_bite_order_service.Order.Repository.{
  bulk_insert_items, create_order, new_order, number_items,
}
use quick_bite_order_service.Order.Update.{release_stock_safe}
use quick_bite_order_service.World.Frame.{of_Ensures}
use quick_bite_order_service.World.Monad.{M, catch_result, throw, ◌>>◌}
use quick_bite_order_service.World.Rules.{Ensures, bind_call, bind-Ensures, bind_when}
use quick_bite_order_service.World.State.{Db, World}

abbrev pub items_total : List OrderItemEntity → ℕ
items_total [] = 0
items_total (i ∷ is) = i.line_total + items_total is

items_total-number :
    (region : String) (id : ℕ) (ls : List OrderLineDraft) (n now : ℕ)
    → items_total (number_items (item_rows region id ls) n now) ≡ lines_total ls
unfolding number_items sum_minor
items_total-number region id [] n now = refl
items_total-number region id (l ∷ ls) n now =
    ap (λ x. l.line_total + x) (items_total-number region id ls (suc n) now)

-- The tables after an order was placed: its row and those of its items are new, and the money of the
-- row adds up.
pub record Placed (d : Db) (o : OrderEntity) (items : List OrderItemEntity) (d' : Db) : Type 0 where
  pub row_added : d'.orders.rows ≡ d.orders.rows ++ o ∷ []
  pub items_added : d'.order_items.rows ≡ d.order_items.rows ++ items
  pub subtotal_adds : o.subtotal ≡ items_total items
  pub total_adds : o.total ≡ o.subtotal + o.service_fee + o.delivery_fee
  pub unsettled : (o.commission ≡ 0) × (o.delivery_agent_id ≡ none)
  pub money_kept : (d'.transactions ≡ d.transactions) × (d'.balances ≡ d.balances)

returns_any : {A : Type 0} (r : Result A × World) → Ensures (λ _ _. Unit {0}) r
returns_any (ok a, w) = tt
returns_any (err e, w) = tt

caught_throws :
    {A : Type 0} (Q : A → World → Type 0) (f : AppError → M A) (r : Result A × World)
    → Ensures Q r
    → ((e : AppError) (v : World) → Ensures Q (f e v))
    → Ensures Q (catch_result f r)
caught_throws Q f (ok a, v) q h = q
caught_throws Q f (err e, v) q h = h e v

module _ (core : CoreService) (actor : ActorContext) (body : CreateOrderRequest)
    (public_id : String) (draft : Draft) where
  place_writes-Placed :
      (w : World)
      → Ensures (λ r v. Placed w.db r.0 r.1 v.db) (place_writes actor body public_id draft w)
  unfolding place_writes create_order bulk_insert_items insert_outbox_event
  place_writes-Placed w = bind_call _ _ _ w λ _. bind_call _ _ _ _ λ fs.
      let o = new_order (order_row actor body public_id draft) w.db.orders.next_id w.now in
      let items =
        number_items (item_rows draft.region o.id draft.drafts) w.db.order_items.next_id w.now in
      bind_when _ (o.status == placed) (insert_outbox_event (order_placed_event o items)) _ _ λ _.
        bind_call _ _ _ _ λ _. record {
          row_added = if_keeps (λ d. d.orders.rows) (o.status == placed) _ _ refl;
          items_added = if_keeps (λ d. d.order_items.rows) (o.status == placed) _ _ refl;
          subtotal_adds =
              sym
                (items_total-number draft.region o.id draft.drafts w.db.order_items.next_id w.now);
          total_adds = omega arith;
          unsettled = (refl, refl);
          money_kept = (
            if_keeps (λ d. d.transactions) (o.status == placed) _ _ refl,
            if_keeps (λ d. d.balances) (o.status == placed) _ _ refl,
          );
        }

  -- If the transaction of `placeOrder` returns, exactly one order and its items were added; the subtotal
  -- is the sum of the item lines, the total is the subtotal with both fees, no commission is charged
  -- yet, no agent is set, and neither the ledger nor a balance moved.
  pub place_transaction-Placed :
      (w : World) {o : OrderEntity} {items : List OrderItemEntity} {v : World}
      → place_transaction core actor body public_id draft w ≡ (ok (o, items), v)
      → Placed w.db o items v.db
  unfolding place_transaction
  place_transaction-Placed w e =
      let Q = λ (r : OrderEntity × List OrderItemEntity) (v : World). Placed w.db r.0 r.1 v.db in
      of_Ensures Q _
        (bind_call Q (λ v. (ok (tt {0}), v)) _ w
          λ fs.
            caught_throws Q _ (place_writes actor body public_id draft (record w { faults = fs }))
              (place_writes-Placed (record w { faults = fs }))
              λ x v.
                let give_back =
                  release_stock_safe core body.branch_id (requested body.items) public_id in
                bind-Ensures (λ _ _. Unit {0}) Q (λ _. give_back >> throw x) (roll_back w.db v)
                  (returns_any _)
                  λ _ u _.
                    bind-Ensures (λ _ _. Unit {0}) Q (λ _. throw x) (give_back u) (returns_any _)
                      (λ _ _ _. tt))
        e
