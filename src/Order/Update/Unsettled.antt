-- ===== src/Order/Update/Unsettled.antt =====
-- `updateStatus` delivers an order without settling it.
use quick_bite_order_service.Common.{
  String, [], arith, beq_refl, find, nat_eq, none, refl, some, string_eq, update, ℕ, ◌≡◌,
}
use quick_bite_order_service.Core.Client.{CoreService}
use quick_bite_order_service.Errors.{Result, err, ok}
use quick_bite_order_service.Order.Access.{resolve_status_actor}
use quick_bite_order_service.Order.Model.{
  ActorContext, OrderEntity, actor_eq, agent, delivered, delivery_agent, picked, status_eq,
}
use quick_bite_order_service.Order.Repository.{
  find_order_by_public_id, has_public_id, set_status, stamp_order, update_order_status, with_orders,
}
use quick_bite_order_service.Order.Status.{assert_transition, delivered_at}
use quick_bite_order_service.Order.Update.{
  check_update, gives_stock_back, invalidate_branch_orders_cache, outbox_event_for_status,
  update_order, update_status, update_writes,
}
use quick_bite_order_service.World.Monad.{call, transaction}
use quick_bite_order_service.World.Progress.{Returns}
use quick_bite_order_service.World.State.{Db, OrderStatusResponse, World}

-- The tables of a plain status change.
abbrev pub StatusOnly : String → ℕ → Db → OrderStatusResponse → Db → Type 0
StatusOnly public_id now d r d' =
    (r.status ≡ delivered)
    × (d'
        ≡ with_orders d (
            update (has_public_id public_id) (set_status delivered (some delivered_at) now)
              d.orders.rows))

module _ (core : CoreService) (actor : ActorContext) (o : OrderEntity)
    (is_rider : actor.role ≡ delivery_agent) (was_picked : o.status ≡ picked)
    (theirs : o.delivery_agent_id ≡ some actor.user_id) where
  acts : resolve_status_actor actor o ≡ ok agent
  unfolding resolve_status_actor
  acts = ground (arith, is_rider, theirs, beq_refl actor.user_id)

  checked_lem :
      (w : World) → check_update core actor delivered none o w ≡ (ok (agent, some delivered_at), w)
  unfolding check_update assert_transition
  checked_lem w = rw (acts, was_picked) refl

  delivers :
      (w : World)
      → w.faults ≡ []
      → find (has_public_id o.public_id) w.db.orders.rows ≡ some o
      → Returns
          (λ r v. StatusOnly o.public_id w.now w.db r v.db)
          (update_order core actor delivered none o w)
  unfolding update_order update_writes update_order_status set_status stamp_order
      outbox_event_for_status gives_stock_back invalidate_branch_orders_cache call transaction
  delivers w calm found = rw (checked_lem w) (rw (calm, found) (refl, (refl, refl)))

  -- The agent of a picked order who asks `updateStatus`, which the route for customers offers to every
  -- authenticated user, for the status delivered gets it, if no I/O call fails: the order's row is the
  -- only thing that changes, so no commission, fee, earning or balance is booked and no event is
  -- written.
  pub update_status_unsettled :
      (w : World)
      → w.faults ≡ []
      → find_order_by_public_id o.public_id w.now w.db ≡ some o
      → (r : OrderStatusResponse) × (v : World) × (update_status core actor o.public_id delivered
            none w
          ≡ (ok r, v))
        × StatusOnly o.public_id w.now w.db r v.db
  unfolding update_status find_order_by_public_id call
  update_status_unsettled w calm found =
      let (r, v, e, q) =
        ends (update_order core actor delivered none o (record w { faults = [] }))
          (delivers (record w { faults = [] }) refl found) in
      (r, v, rw (calm, found) e, q)
    where
      ends :
          (x : Result OrderStatusResponse × World)
          → Returns (λ r v. StatusOnly o.public_id w.now w.db r v.db) x
          → (r : OrderStatusResponse) × (v : World) × (x ≡ (ok r, v))
            × StatusOnly o.public_id w.now w.db r v.db
      ends (ok r, v) (_, q) = (r, v, refl, q)
      ends (err e, v) bad = absurd bad
