-- ===== src/Agent/Settlement/Writes.antt =====
-- The tables after the transaction of a settlement.
use mathlib.Core.Option.{get_or}
use quick_bite_order_service.Agent.Settlement.{
  cod_row, commission_row, delivered_event, delivery_fee_row, earn, earning_input,
  net_to_restaurant, service_fee_row, settle_writes,
}
use quick_bite_order_service.Common.{
  Bool, List, String, if◌then◌else◌, is_zero_ℤ, ltb, not, refl, some, ℕ, ◌≡◌,
}
use quick_bite_order_service.Events.Repository.{insert_outbox_event}
use quick_bite_order_service.Finance.Repository.{upsert_increment}
use quick_bite_order_service.Order.Model.{OrderEntity, delivered, is_cod}
use quick_bite_order_service.Order.Repository.{update_order_commission, update_order_status}
use quick_bite_order_service.Order.Status.{delivered_at}
use quick_bite_order_service.Payment.Repository.{book}
use quick_bite_order_service.World.Rules.{Ensures, bind_call, bind_checked, bind_when}
use quick_bite_order_service.World.State.{Db, World}

module _ (o : OrderEntity) (public_id : String) (agent_id : ℕ) (region : String)
    (commission earning : ℕ) where
  -- The tables after the rows of the ledger are booked.
  abbrev pub ledger_booked : ℕ → Db → Db
  ledger_booked now d =
      let d1 = (update_order_commission public_id commission now d).1 in
      let d2 = if is_cod o.payment_method then (book (cod_row o region) now d1).1 else d1 in
      let d3 =
        if ltb 0 commission then (book (commission_row o region commission) now d2).1 else d2 in
      let d4 = if ltb 0 o.service_fee then (book (service_fee_row o region) now d3).1 else d3 in
      if ltb 0 o.delivery_fee then (book (delivery_fee_row o region) now d4).1 else d4

  -- The tables before the status changes.
  abbrev pub credited : ℕ → Db → Db
  credited now d =
      let e = ledger_booked now d in
      let net = net_to_restaurant o commission in
      let f =
        if not (is_zero_ℤ net)
        then (upsert_increment o.restaurant_id region o.currency net now e).1
        else e in
      (earn (earning_input o region (get_or o.delivery_agent_id agent_id) earning) now f).1

  -- A settlement of tables `d`: the row that comes back, and the tables after.
  pub record Settled (now : ℕ) (d : Db) (updated : OrderEntity) (d' : Db) : Type 0 where
    pub flipped : Db
    pub status_set :
        update_order_status public_id delivered (some delivered_at) now (credited now d)
        ≡ some (updated, flipped)
    pub announced :
        d' ≡ (insert_outbox_event (delivered_event updated agent_id commission now) now flipped).1

  pub settle_writes-Settled :
      (w : World)
      → Ensures
          (λ u v. (fs : List Bool) → Settled w.now w.db u v.db)
          (settle_writes o public_id agent_id region commission earning w)
  unfolding settle_writes
  settle_writes-Settled w =
      let net = net_to_restaurant o commission in
      let credit = upsert_increment o.restaurant_id region o.currency net in
      bind_call _ _ _ w λ _.
        bind_when _ (is_cod o.payment_method) (book (cod_row o region)) _ _ λ _.
          bind_when _ (ltb 0 commission) (book (commission_row o region commission)) _ _ λ _.
            bind_when _ (ltb 0 o.service_fee) (book (service_fee_row o region)) _ _ λ _.
              bind_when _ (ltb 0 o.delivery_fee) (book (delivery_fee_row o region)) _ _ λ _.
                bind_when _ (not (is_zero_ℤ net)) credit _ _ λ _. bind_call _ _ _ _ λ _.
                  bind_checked _ (update_order_status public_id delivered (some delivered_at)) _ _
                    λ _ u x e.
                      bind_call _ _ _ _
                        λ _ _. record { flipped = x; status_set = e; announced = refl }
