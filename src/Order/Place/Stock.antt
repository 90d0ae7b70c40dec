-- ===== src/Order/Place/Stock.antt =====
-- The stock of an order that could not be placed.
use quick_bite_order_service.Common.{
  Bool, List, Option, String, [], ap, arith, false, length, map, refl, subst, suc, sym, true, zero,
  ℕ, ◌<◌, ◌∷◌, ◌≡◌,
}
use quick_bite_order_service.Core.Client.{CoreService}
use quick_bite_order_service.Core.Model.{ReserveStockItem}
use quick_bite_order_service.Errors.{Result, err, ok, unexpected}
use quick_bite_order_service.Events.Repository.{insert_outbox_event}
use quick_bite_order_service.Order.Lines.{RequestedItem}
use quick_bite_order_service.Order.Model.{ActorContext, PaymentMethod, cod, is_cod, online}
use quick_bite_order_service.Order.Place.{
  CreateOrderRequest, Draft, PlacedOrder, RegionConfig, draft_order, init_payment, place_order,
  place_transaction, place_writes, requested,
}
use quick_bite_order_service.Order.Repository.{bulk_insert_items, create_order}
use quick_bite_order_service.Order.Update.{
  core_write, invalidate_branch_orders_cache, release_stock_safe,
}
use quick_bite_order_service.Payment.Session.{PaymentProvider}
use quick_bite_order_service.World.Monad.{M, bind_result, call, emit, pure, when, ◌>>=◌, ◌>>◌}
use quick_bite_order_service.World.State.{
  CoreCall, World, branch_room, order_created, release_stock, reserve_stock, summary_response,
}

-- What is to be reserved: each item with its quantity.
abbrev pub to_reserve : List RequestedItem → List ReserveStockItem
to_reserve items = map (λ i. record { product_id = i.product_id; quantity = i.quantity }) items

requested_lem : (items : List RequestedItem) → requested items ≡ to_reserve items
requested_lem [] = refl
requested_lem (i ∷ is) =
    ap (λ l. record { product_id = i.product_id; quantity = i.quantity } ∷ l) (requested_lem is)

-- The calls of the transaction after its begin: order, items, event of a placed order, commit.
abbrev pub calls_of : PaymentMethod → ℕ
calls_of online = 3
calls_of cod = 4

-- `k` calls go through, the next one fails, and no other does.
abbrev pub fails_after : ℕ → List Bool
fails_after zero = true ∷ []
fails_after (suc k) = false ∷ fails_after k

module _ (core : CoreService) (provider : PaymentProvider) (actor : ActorContext)
    (body : CreateOrderRequest) (public_id : String) (draft : Draft) where
  -- `placeOrder` after its checks.
  after_draft : M PlacedOrder
  after_draft = do
    core_write (reserve_stock body.branch_id (requested body.items) public_id)
        (core.reserve body.branch_id (requested body.items) public_id)
    (o, items) ← place_transaction core actor body public_id draft
    payment ← init_payment core provider body o
    invalidate_branch_orders_cache draft.branch.id
    when (is_cod body.payment_method)
        (emit (branch_room draft.branch.id) (order_created (summary_response o (length items))))
    pure (record { order = o; items = items; payment = payment })

  -- The order is given up: the error is thrown on, the tables are as they were, and of the writes that the
  -- core service got, the last one releases what the one before reserved.
  abbrev pub GivenUp : World → Result PlacedOrder × World → Type 0
  GivenUp u (ok _, _) = ⊥
  GivenUp u (err e, z) =
      (e ≡ unexpected)
      × (z.db ≡ u.db)
      × (z.core_calls
          ≡ release_stock body.branch_id (to_reserve body.items) public_id
            ∷ reserve_stock body.branch_id (to_reserve body.items) public_id
            ∷ u.core_calls)

  both_calls :
      (l : List CoreCall)
      → release_stock body.branch_id (requested body.items) public_id
          ∷ reserve_stock body.branch_id (requested body.items) public_id
          ∷ l
        ≡ release_stock body.branch_id (to_reserve body.items) public_id
          ∷ reserve_stock body.branch_id (to_reserve body.items) public_id
          ∷ l
  both_calls l = rw (requested_lem body.items) refl

  after_draft-GivenUp :
      (method : PaymentMethod) (k : ℕ) (u : World)
      → body.payment_method ≡ method
      → core.reserve body.branch_id (requested body.items) public_id ≡ ok tt
      → k < calls_of method
      → GivenUp u (after_draft (record u { faults = false ∷ false ∷ fails_after k }))
  unfolding after_draft place_transaction place_writes release_stock_safe create_order
      bulk_insert_items insert_outbox_event call
  after_draft-GivenUp method zero u m granted h = rw granted (refl, refl, both_calls u.core_calls)
  after_draft-GivenUp method (suc zero) u m granted h =
      rw granted (refl, refl, both_calls u.core_calls)
  after_draft-GivenUp online (suc (suc zero)) u m granted h =
      rw (granted, m) (refl, refl, both_calls u.core_calls)
  after_draft-GivenUp cod (suc (suc zero)) u m granted h =
      rw (granted, m) (refl, refl, both_calls u.core_calls)
  after_draft-GivenUp cod (suc (suc (suc zero))) u m granted h =
      rw (granted, m) (refl, refl, both_calls u.core_calls)
  after_draft-GivenUp online (suc (suc (suc k))) u m granted h = absurd (omega (arith, h))
  after_draft-GivenUp cod (suc (suc (suc (suc k)))) u m granted h = absurd (omega (arith, h))

-- If `placeOrder` has passed its checks, the core service grants the reservation, the transaction
-- begins, and then one of its calls fails, whichever it is, the commit included, and nothing else does,
-- then the order is given up: the error is thrown on, the tables are as they were, and the core service
-- got a reservation of each item with its quantity under the public id and after it, as the last
-- write, the release of the same items under the same id.
pub place_order-GivenUp :
    (core : CoreService) (provider : PaymentProvider) (config : RegionConfig) (actor : ActorContext)
    (body : CreateOrderRequest) (region : Option String) (public_id : String) (draft : Draft)
    (w u : World) (k : ℕ)
    → draft_order core config actor body region w ≡ (ok draft, u)
    → core.reserve body.branch_id (to_reserve body.items) public_id ≡ ok tt
    → u.faults ≡ false ∷ false ∷ fails_after k
    → k < calls_of body.payment_method
    → GivenUp core provider actor body public_id draft u
        (place_order core provider config actor body region public_id w)
unfolding place_order after_draft
place_order-GivenUp core provider config actor body region public_id draft w u k made granted
      schedule h =
    subst
      (λ r.
        GivenUp core provider actor body public_id draft u
          (bind_result (λ d. after_draft core provider actor body public_id d) r))
      (sym made)
      (subst
        (λ l.
          GivenUp core provider actor body public_id draft u
            (after_draft core provider actor body public_id draft (record u { faults = l })))
        (sym schedule)
        (after_draft-GivenUp core provider actor body public_id draft body.payment_method k u refl
          (subst (λ l. core.reserve body.branch_id l public_id ≡ ok tt)
            (sym (requested_lem body.items)) granted)
          h))
