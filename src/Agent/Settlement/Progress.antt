-- ===== src/Agent/Settlement/Progress.antt =====
-- A settlement gets to its end.
use mathlib.Core.Option
use mathlib.Core.Option.{get_or}
use quick_bite_order_service.Agent.Settlement.{
  check_settleable, cod_row, commission_bps_of, commission_row, delivery_fee_row, net_to_restaurant,
  order_to_settle, service_fee_row, settle_delivered, settle_order, settle_writes, share_of,
}
use quick_bite_order_service.Agent.Settlement.Money.{credited-orders, priced}
use quick_bite_order_service.Agent.Settlement.Writes.{credited}
use quick_bite_order_service.Common.{
  String, [], ap, arith, find, find-update, is_zero_ℤ, ltb, not, refl, some, ℕ, ◌∙◌, ◌≡◌,
}
use quick_bite_order_service.Core.Client.{CoreService, get_branch}
use quick_bite_order_service.Core.Client.Frame.{get_branch-Calm, get_branch-Keeps}
use quick_bite_order_service.Errors.{ok}
use quick_bite_order_service.Finance.Repository.{upsert_increment}
use quick_bite_order_service.Order.Model.{OrderEntity, delivered, is_cod, picked}
use quick_bite_order_service.Order.Repository.{
  find_order_by_public_id, has_public_id, update_order_status,
}
use quick_bite_order_service.Order.Status.{delivered_at}
use quick_bite_order_service.Payment.Repository.{book}
use quick_bite_order_service.World.Monad.{bind_result, call}
use quick_bite_order_service.World.Progress.{
  Returns, result_of_Returns, Returns-call, Returns-checked, Returns-or_null, Returns-transaction,
  Returns-when,
}
use quick_bite_order_service.World.State.{Db, World}

abbrev Fine : OrderEntity → World → Type 0
Fine _ _ = Unit {0}

module _ (o : OrderEntity) (public_id : String) (agent_id : ℕ) (region : String)
    (commission earning : ℕ) where
  updates :
      (now : ℕ) (d : Db) {b : OrderEntity}
      → find (has_public_id public_id) d.orders.rows ≡ some b
      → (u : OrderEntity) × (d' : Db) × (update_order_status public_id delivered
            (some delivered_at)
            now
            (credited o public_id agent_id region commission earning now d)
          ≡ some (u, d'))
  unfolding update_order_status priced
  updates now d {b} found =
      let x = credited o public_id agent_id region commission earning now d in
      let Here = has_public_id public_id in
      let there : find Here x.orders.rows
          ≡ some (priced o public_id agent_id region commission earning now b) =
        ap (find Here) (credited-orders o public_id agent_id region commission earning now d)
        ∙ find-update Here (priced o public_id agent_id region commission earning now) d.orders.rows
            (λ r. refl)
        ∙ ap (Option.map (priced o public_id agent_id region commission earning now)) found in
      (_, _, ap (Option.map _) there)

  settle_writes-Returns :
      (w : World) {b : OrderEntity}
      → w.faults ≡ []
      → find (has_public_id public_id) w.db.orders.rows ≡ some b
      → Returns Fine (settle_writes o public_id agent_id region commission earning w)
  unfolding settle_writes
  settle_writes-Returns w calm found =
      let net = net_to_restaurant o commission in
      let credit = upsert_increment o.restaurant_id region o.currency net in
      let (u, d', set) = updates w.now w.db found in
      Returns-call Fine _ _ w calm (
        Returns-when Fine (is_cod o.payment_method) (book (cod_row o region)) _ _ refl λ fs c.
          Returns-when Fine (ltb 0 commission) (book (commission_row o region commission)) _ _ c
            λ _ c.
              Returns-when Fine (ltb 0 o.service_fee) (book (service_fee_row o region)) _ _ c λ _ c.
                Returns-when Fine (ltb 0 o.delivery_fee) (book (delivery_fee_row o region)) _ _ c
                  λ _ c. Returns-when Fine (not (is_zero_ℤ net)) credit _ _ c λ _ c.
                    Returns-call Fine _ _ _ c (
                      Returns-checked Fine
                        (update_order_status public_id delivered (some delivered_at)) _ _ refl set
                        (Returns-call Fine _ _ _ refl (refl, tt))))

module _ (core : CoreService) (share : ℕ) (public_id : String) (agent_id : ℕ) (region : String)
    (o : OrderEntity) where
  settle_order-Returns :
      (w : World) {b : OrderEntity}
      → w.faults ≡ []
      → find (has_public_id public_id) w.db.orders.rows ≡ some b
      → Returns Fine (settle_order core share public_id agent_id region o w)
  unfolding settle_order
  settle_order-Returns w calm found =
      Returns-or_null Fine _ w (get_branch core o.branch_id w)
        (get_branch-Calm core o.branch_id w calm) (get_branch-Keeps core o.branch_id w)
        λ branch v c d.
          let charged = share_of o.subtotal (commission_bps_of branch) in
          let earning = share_of o.delivery_fee share in
          Returns-transaction Fine Fine (settle_writes o public_id agent_id region charged earning)
            _ v c
            (settle_writes-Returns o public_id agent_id region charged earning
              (record v { faults = [] }) refl
              (ap (λ x. find (has_public_id public_id) x.orders.rows) d ∙ found))
            (λ _ _ _. tt)
            λ u z c' _. Returns-call Fine _ _ z c' (Returns-call Fine _ _ _ refl (refl, tt))

  -- The second half of `settleDelivered` returns whatever the order's row is by now.
  pub settle_order_returns :
      (w : World) {b : OrderEntity}
      → w.faults ≡ []
      → find (has_public_id public_id) w.db.orders.rows ≡ some b
      → (u : OrderEntity) × (v : World) × (settle_order core share public_id agent_id region o w
          ≡ (ok u, v))
  settle_order_returns w calm found =
      result_of_Returns Fine (settle_order core share public_id agent_id region o w)
        (settle_order-Returns w calm found)

  fits :
      o.status ≡ picked → o.delivery_agent_id ≡ some agent_id → check_settleable o agent_id ≡ ok tt
  unfolding check_settleable
  fits p a = ground (arith, p, a)

  reads :
      (w : World)
      → w.faults ≡ []
      → find_order_by_public_id public_id w.now w.db ≡ some o
      → check_settleable o agent_id ≡ ok tt
      → order_to_settle public_id agent_id w ≡ (ok o, record w { faults = [] })
  unfolding call
  reads w calm found fit = rw (calm, found) (rw fit refl)

  -- Progress: an order that is picked and belongs to the calling agent is settled by
  -- `settleDelivered`, if no I/O call fails; the core service may still answer with an error.
  pub settle_delivered_returns :
      (w : World)
      → w.faults ≡ []
      → find_order_by_public_id public_id w.now w.db ≡ some o
      → o.status ≡ picked
      → o.delivery_agent_id ≡ some agent_id
      → (u : OrderEntity) × (v : World) × (settle_delivered core share public_id agent_id region w
          ≡ (ok u, v))
  unfolding settle_delivered find_order_by_public_id
  settle_delivered_returns w calm found was_picked theirs =
      let r = reads w calm found (fits was_picked theirs) in
      let (u, v, e) =
        result_of_Returns Fine _ (settle_order-Returns (record w { faults = [] }) refl found) in
      (u, v, ap (bind_result (settle_order core share public_id agent_id region)) r ∙ e)
