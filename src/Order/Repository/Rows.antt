-- ===== src/Order/Repository/Rows.antt =====
-- What the updates of orders leave behind.
use quick_bite_order_service.Common.{
  Option, String, ap, arith, find, map-some, none, refl, some, sym, update, ℕ, ◌≡◌,
}
use quick_bite_order_service.Order.Model.{OrderEntity, OrderStatus}
use quick_bite_order_service.Order.Repository.{
  has_public_id, set_status, update_order_status, with_orders,
}
use quick_bite_order_service.Order.Status.{StampColumn}
use quick_bite_order_service.World.State.{Db}

-- An update that returns a row has changed every row of that order, and only the orders.
pub record StatusSet (public_id : String) (status : OrderStatus) (column : Option StampColumn)
    (now : ℕ) (d : Db) (o : OrderEntity) (d' : Db) : Type 0 where
  pub before : OrderEntity
  pub found : find (has_public_id public_id) d.orders.rows ≡ some before
  pub returned : o ≡ set_status status column now before
  pub tables :
      d'
      ≡ with_orders d
          (update (has_public_id public_id) (set_status status column now) d.orders.rows)

pub update_order_status-StatusSet :
    (public_id : String) (status : OrderStatus) (column : Option StampColumn) (now : ℕ) (d : Db)
    {o : OrderEntity} {d' : Db}
    → update_order_status public_id status column now d ≡ some (o, d')
    → StatusSet public_id status column now d o d'
unfolding update_order_status
update_order_status-StatusSet public_id status column now d {o} {d'} e =
    let (b, f, s) = map-some _ (find (has_public_id public_id) d.orders.rows) e in
    record {
      before = b;
      found = f;
      returned = sym (ap (λ x. x.0) s);
      tables = sym (ap (λ x. x.1) s);
    }

-- The columns that a status update leaves alone.
pub set_status_keeps :
    (status : OrderStatus) (column : Option StampColumn) (now : ℕ) (o : OrderEntity)
    → let p = set_status status column now o in
      (p.id ≡ o.id)
      × (p.public_id ≡ o.public_id)
      × (p.status ≡ status)
      × (p.subtotal ≡ o.subtotal)
      × (p.commission ≡ o.commission)
      × (p.currency ≡ o.currency)
      × (p.restaurant_id ≡ o.restaurant_id)
      × (p.delivery_agent_id ≡ o.delivery_agent_id)
unfolding set_status
set_status_keeps status none now o = (refl, refl, refl, refl, refl, refl, refl, refl)
set_status_keeps status (some c) now o = ground arith
