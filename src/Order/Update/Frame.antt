-- ===== src/Order/Update/Frame.antt =====
-- Parts of `updateStatus` that change no table.
use quick_bite_order_service.Common.{
  Bool-cases, List, Option, String, [], inl, inr, lookup, ltb, nat_eq, none, refl, some, string_eq,
  ℕ, ◌+◌, ◌∷◌,
}
use quick_bite_order_service.Core.Client.{CoreService}
use quick_bite_order_service.Core.Model.{ReserveStockItem}
use quick_bite_order_service.Core.Permissions.{
  fetch_permissions, fresh_or_fetched, get_permissions, permission_ttl_ms,
}
use quick_bite_order_service.Order.Access.{assert_restaurant_member_permission}
use quick_bite_order_service.Order.Model.{
  ActorContext, OrderEntity, OrderStatus, actor_eq, status_eq,
}
use quick_bite_order_service.Order.Repository.{find_items_by_order_ids}
use quick_bite_order_service.Order.Update.{
  core_write, give_stock_back, release_stock_safe, reserved_items,
}
use quick_bite_order_service.World.Frame.{
  Keeps, bind-Keeps, call-Keeps, ignore-Keeps, query-Keeps, then-Keeps,
}
use quick_bite_order_service.World.Monad.{call, query}
use quick_bite_order_service.World.State.{CachedPermissions, World, release_stock}

get_permissions-Keeps :
    (core : CoreService) (role : String) (w : World) → Keeps w (get_permissions core role w)
unfolding get_permissions
get_permissions-Keeps core role w = cached (lookup role w.permission_cache)
  where
    fetch_lem : Keeps w (fetch_permissions core role w)
    fetch_lem =
        bind-Keeps w _ (call (λ v. (core.permissions role, v)) w)
          (call-Keeps _ w (λ fs. (refl, refl))) (λ ps v. (refl, refl))

    cached : (c : Option CachedPermissions) → Keeps w (fresh_or_fetched core role c w)
    cached none = fetch_lem
    cached (some c) = elim (Bool-cases (ltb w.now (c.cached_at + permission_ttl_ms))) [
      | inl fresh ↦ rw fresh (refl, refl)
      | inr stale ↦ rw stale fetch_lem
    ]

pub permission-Keeps :
    (core : CoreService) (actor : ActorContext) (target : OrderStatus) (w : World)
    → Keeps w (assert_restaurant_member_permission core actor target w)
unfolding assert_restaurant_member_permission
permission-Keeps core actor target w =
    bind-Keeps w _ (get_permissions core _ w) (get_permissions-Keeps core _ w)
      (λ ps v. (refl, refl))

module _ (core : CoreService) where
  pub release-Keeps :
      (branch_id : ℕ) (items : List ReserveStockItem) (key : String) (w : World)
      → Keeps w (release_stock_safe core branch_id items key w)
  unfolding release_stock_safe
  release-Keeps branch_id items key w =
      ignore-Keeps w
        (core_write (release_stock branch_id items key) (core.release branch_id items key) w)
        (call-Keeps _ (record w { core_calls = release_stock branch_id items key ∷ w.core_calls })
          (λ fs. (refl, refl)))

  pub give_stock_back-Keeps : (o : OrderEntity) (w : World) → Keeps w (give_stock_back core o w)
  give_stock_back-Keeps o =
      then-Keeps (query (find_items_by_order_ids (o.id ∷ [])))
        (λ items. release_stock_safe core o.branch_id (reserved_items items) o.public_id)
        (query-Keeps _) (λ items. release-Keeps o.branch_id (reserved_items items) o.public_id)
