-- ===== src/Agent/Settlement/Money.antt =====
-- Where the money of a settlement goes: the balance of the restaurant, the ledger, the order.
use quick_bite_order_service.Agent.Repository.{insert_earning}
use quick_bite_order_service.Agent.Settlement.{
  cod_row, commission_row, delivered_event, delivery_fee_row, earn, net_to_restaurant,
  service_fee_row,
}
use quick_bite_order_service.Agent.Settlement.Booking.{if_keeps}
use quick_bite_order_service.Agent.Settlement.Writes.{Settled, credited, ledger_booked}
use quick_bite_order_service.Common.{
  Bool, String, [], ap, find, find-update, if◌then◌else◌, map-some, pos, refl, some, sum_by, sym,
  update, update-update, ℕ, ◌++◌, ◌+ℤ◌, ◌∙◌, ◌∷◌, ◌≡◌,
}
use quick_bite_order_service.Events.Repository.{insert_outbox_event, new_event}
use quick_bite_order_service.Finance.Accounts.{held, held-credit_if}
use quick_bite_order_service.Finance.Repository.{upsert_increment}
use quick_bite_order_service.Order.Model.{OrderEntity, delivered}
use quick_bite_order_service.Order.Repository.{
  has_public_id, set_status, update_order_commission, with_orders,
}
use quick_bite_order_service.Order.Repository.Rows.{update_order_status-StatusSet}
use quick_bite_order_service.Order.Status.{delivered_at}
use quick_bite_order_service.Payment.Model.{CreateTransactionInput}
use quick_bite_order_service.Payment.Repository.{book, create_transaction_idempotent}
use quick_bite_order_service.World.State.{Db}

module _ (o : OrderEntity) (public_id : String) (agent_id : ℕ) (region : String)
    (commission earning : ℕ) where
  -- A part of the tables that the ledger does not touch.
  ledger_booked_keeps :
      {X : Type 0} (view : Db → X) (now : ℕ) (d : Db)
      → ((input : CreateTransactionInput) (e : Db) → view (book input now e).1 ≡ view e)
      → view (ledger_booked o public_id agent_id region commission earning now d)
        ≡ view (update_order_commission public_id commission now d).1
  ledger_booked_keeps view now d h =
      if_keeps view _ _ _ (h (delivery_fee_row o region) _)
      ∙ if_keeps view _ _ _ (h (service_fee_row o region) _)
      ∙ if_keeps view _ _ _ (h (commission_row o region commission) _)
      ∙ if_keeps view _ _ _ (h (cod_row o region) _)

  unfoldable pub booked : ℕ → Db → Db
  booked = ledger_booked o public_id agent_id region commission earning

  booked-balances : (now : ℕ) (d : Db) → (booked now d).balances ≡ d.balances
  unfolding booked book create_transaction_idempotent update_order_commission
  booked-balances now d = ledger_booked_keeps (λ e. e.balances) now d (λ input e. refl)

  booked-outbox : (now : ℕ) (d : Db) → (booked now d).outbox ≡ d.outbox
  unfolding booked book create_transaction_idempotent update_order_commission
  booked-outbox now d = ledger_booked_keeps (λ e. e.outbox) now d (λ input e. refl)

  booked-orders :
      (now : ℕ) (d : Db)
      → (booked now d).orders.rows
        ≡ (update_order_commission public_id commission now d).1.orders.rows
  unfolding booked book create_transaction_idempotent
  booked-orders now d = ledger_booked_keeps (λ e. e.orders.rows) now d (λ input e. refl)

  held-credited :
      (p : ℕ → String → Bool) (now : ℕ) (d : Db)
      → held p (credited o public_id agent_id region commission earning now d)
        ≡ held p d
          +ℤ (if p o.restaurant_id o.currency then net_to_restaurant o commission else pos 0)
  unfolding earn insert_earning booked
  held-credited p now d =
      held-credit_if p o.restaurant_id region o.currency (net_to_restaurant o commission) now
        (booked now d)
      ∙ ap
          (λ bs.
            sum_by (λ b. if p b.restaurant_id b.currency then b.balance else pos 0) bs
            +ℤ (if p o.restaurant_id o.currency then net_to_restaurant o commission else pos 0))
          (booked-balances now d)

  unfoldable pub priced : ℕ → OrderEntity → OrderEntity
  priced now b = record b { commission = commission; updated_at = now }

  pub credited-orders :
      (now : ℕ) (d : Db)
      → (credited o public_id agent_id region commission earning now d).orders.rows
        ≡ update (has_public_id public_id) (priced now) d.orders.rows
  unfolding earn insert_earning upsert_increment booked update_order_commission priced
  credited-orders now d =
      if_keeps (λ e. e.orders.rows) _ (upsert_increment _ region _ _ now (booked now d)).1
        (booked now d) refl
      ∙ booked-orders now d

  credited-outbox :
      (now : ℕ) (d : Db)
      → (credited o public_id agent_id region commission earning now d).outbox ≡ d.outbox
  unfolding earn insert_earning upsert_increment booked
  credited-outbox now d =
      if_keeps (λ e. e.outbox) _ (upsert_increment _ region _ _ now (booked now d)).1 (booked now d)
        refl
      ∙ booked-outbox now d

  credited-ledger :
      (now : ℕ) (d : Db)
      → (credited o public_id agent_id region commission earning now d).transactions
        ≡ (booked now d).transactions
  unfolding earn insert_earning upsert_increment booked
  credited-ledger now d =
      if_keeps (λ e. e.transactions) _ (upsert_increment _ region _ _ now (booked now d)).1
        (booked now d) refl

  -- The order's row after the settlement.
  abbrev pub settled_row : ℕ → OrderEntity → OrderEntity
  settled_row now b =
      set_status delivered (some delivered_at) now
        (record b { commission = commission; updated_at = now })

  -- What a settlement of the tables `d` leaves behind.
  pub record Paid (now : ℕ) (d : Db) (u : OrderEntity) (d' : Db) : Type 0 where
    pub before : OrderEntity
    pub found : find (has_public_id public_id) d.orders.rows ≡ some before
    pub returned : u ≡ settled_row now before
    pub held_after :
        (p : ℕ → String → Bool)
        → held p d'
          ≡ held p d
            +ℤ (if p o.restaurant_id o.currency then net_to_restaurant o commission else pos 0)
    pub ledger_after : d'.transactions ≡ (booked now d).transactions
    pub orders_after :
        d'.orders.rows ≡ update (has_public_id public_id) (settled_row now) d.orders.rows
    pub outbox_after :
        d'.outbox.rows
        ≡ d.outbox.rows
          ++ new_event (delivered_event u agent_id commission now) d.outbox.next_id ∷ []

  pub Paid-of_Settled :
      (now : ℕ) (d : Db) (u : OrderEntity) (d' : Db)
      → Settled o public_id agent_id region commission earning now d u d'
      → Paid now d u d'
  unfolding insert_outbox_event priced
  Paid-of_Settled now d u d' s =
      let Here = has_public_id public_id in
      let x = credited o public_id agent_id region commission earning now d in
      let t =
        update_order_status-StatusSet public_id delivered (some delivered_at) now x s.status_set in
      let orders = credited-orders now d in
      let (b, f, e) = map-some (priced now) (find Here d.orders.rows) (
        sym (find-update Here (priced now) d.orders.rows (λ r. refl))
        ∙ ap (find Here) (sym orders)
        ∙ t.found) in
      let after : d'
          ≡ ((insert_outbox_event (delivered_event u agent_id commission now) now) (
              with_orders x
                (update Here (set_status delivered (some delivered_at) now) x.orders.rows))).1 =
        s.announced
        ∙ ap (λ y. (insert_outbox_event (delivered_event u agent_id commission now) now y).1)
            t.tables in
      record {
        before = b;
        found = f;
        returned = t.returned ∙ ap (set_status delivered (some delivered_at) now) (sym e);
        held_after = λ p. ap (held p) after ∙ held-credited p now d;
        ledger_after = ap (λ y. y.transactions) after ∙ credited-ledger now d;
        orders_after =
            ap (λ y. y.orders.rows) after
            ∙ ap (update Here (set_status delivered (some delivered_at) now)) orders
            ∙ update-update Here (priced now) (set_status delivered (some delivered_at) now)
                d.orders.rows (λ r. refl);
        outbox_after =
            ap (λ y. y.outbox.rows) after
            ∙ ap
                (λ y.
                  y.rows ++ new_event (delivered_event u agent_id commission now) y.next_id ∷ [])
                (credited-outbox now d);
      }
