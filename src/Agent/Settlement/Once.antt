-- ===== src/Agent/Settlement/Once.antt =====
-- Settling twice: one call after the other, and two calls that both passed the check before.
use mathlib.Core.Option
use mathlib.Core.Option
use quick_bite_order_service.Agent.Settlement.{
  net_to_restaurant, order_to_settle, settle_delivered, settle_order, share_of,
}
use quick_bite_order_service.Agent.Settlement.Conservation.{delivery_lem}
use quick_bite_order_service.Agent.Settlement.Delivered.{Delivery, check_settleable-ok}
use quick_bite_order_service.Agent.Settlement.Money.{Paid-of_Settled, settled_row}
use quick_bite_order_service.Agent.Settlement.Outcome.{
  SettledAs, order_to_settle-Ensures, order_to_settle-Keeps, settle_order-Ensures,
  settle_order-Tables,
}
use quick_bite_order_service.Common.{
  String, ap, arith, beq_refl, find, find-update, if◌then◌else◌, inl, inr, nat_eq, pos, refl, some,
  some-injective, string_eq, subst, sym, true, ℕ, ◌&&◌, ◌+ℤ◌, ◌-ℤ◌, ◌==◌, ◌∙◌, ◌≡◌, ◌⊎◌,
}
use quick_bite_order_service.Core.Client.{CoreService}
use quick_bite_order_service.Errors.{Result, err, ok}
use quick_bite_order_service.Finance.Accounts.{balance_of}
use quick_bite_order_service.Order.Model.{OrderEntity, actor_eq, delivered, status_eq}
use quick_bite_order_service.Order.Repository.{
  find_order_by_public_id, has_public_id, set_status, stamp_order,
}
use quick_bite_order_service.World.Frame.{Keeps, Refused, Tables, of_Ensures, weaken}
use quick_bite_order_service.World.Monad.{M, bind_result}
use quick_bite_order_service.World.Rules.{Ensures}
use quick_bite_order_service.World.State.{Db, World}

Refused-bind :
    {A B : Type 0} (w : World) (k : A → M B) (r : Result A × World)
    → Ensures (λ _ _. ⊥) r
    → Keeps w r
    → Refused w.db (bind_result k r)
Refused-bind w k (ok a, v) p h = absurd p
Refused-bind w k (err e, v) p (d, t) = d

found_bind :
    {A B : Type 0} (P : Db → Type 0) (R : A → World → Type 0) (w : World) (k : A → M B)
    (r : Result A × World)
    → Keeps w r
    → Ensures R r
    → P w.db
    → ((a : A) (v : World) → v.db ≡ w.db → v.now ≡ w.now → R a v → Tables P (k a v))
    → Tables P (bind_result k r)
found_bind P R w k (ok a, v) (d, t) q p h = h a v d t q
found_bind P R w k (err e, v) (d, t) q p h = subst P (sym d) p

module _ (core : CoreService) (share : ℕ) (public_id : String) (agent_id : ℕ)
    (region : String) where
  -- The order is found, delivered, after its settlement.
  pub found_delivered :
      (d : Db) (u : OrderEntity) (d' : Db) (o : OrderEntity) (now : ℕ)
      → Delivery share public_id agent_id region now d o u d'
      → find (has_public_id public_id) d'.orders.rows ≡ some u
  unfolding set_status stamp_order
  found_delivered d u d' o now s =
      let Here = has_public_id public_id in
      let after =
        settled_row o public_id agent_id region s.commission (share_of o.delivery_fee share) now in
      ap (find Here) s.paid.orders_after
      ∙ find-update Here after d.orders.rows (λ x. refl)
      ∙ ap (Option.map after) s.paid.found
      ∙ ap some (sym s.paid.returned)

  -- A delivered order is settled once: after `settleDelivered` has returned, every further call for the
  -- order, by whichever agent and whatever fails in it, throws and leaves the tables as they are.
  pub settle_delivered_once :
      (w : World) {u : OrderEntity} {v : World} (z : World) (other_agent : ℕ)
      → settle_delivered core share public_id agent_id region w ≡ (ok u, v)
      → z.db ≡ v.db
      → Refused v.db (settle_delivered core share public_id other_agent region z)
  unfolding settle_delivered find_order_by_public_id set_status stamp_order
  settle_delivered_once w {u} {v} z other_agent e same =
      let (o, s) = delivery_lem core share public_id agent_id region w e in
      let row = found_delivered w.db u v.db o w.now s in
      let now_delivered : u.status ≡ delivered = ap (λ x. x.status) s.paid.returned in
      subst (λ d. Refused d (settle_delivered core share public_id other_agent region z)) same
        (Refused-bind z (settle_order core share public_id other_agent region)
          (order_to_settle public_id other_agent z)
          (weaken _ (λ _ _. ⊥) (order_to_settle public_id other_agent z)
            (order_to_settle-Ensures public_id other_agent z)
            λ o' z' (_, _, found, fit).
              let (still_picked, _) = check_settleable-ok o' other_agent fit in
              let again : o' ≡ u =
                some-injective
                  (sym found ∙ ap (λ d. find (has_public_id public_id) d.orders.rows) same ∙ row) in
              ground (arith, ap (λ x. x.status) again))
          (order_to_settle-Keeps public_id other_agent z))

  -- However a call of `settleDelivered` ends, the tables are as they were, or all the writes of the
  -- settlement of the order that was found are there.
  pub settle_delivered-Tables :
      (w : World)
      → Tables
          (λ d.
            (d ≡ w.db)
            ⊎ ((o : OrderEntity) × (u : OrderEntity) × (find_order_by_public_id public_id w.now w.db
                  ≡ some o)
                × SettledAs o public_id agent_id region
                    (share_of o.delivery_fee share)
                    w.now
                    w.db
                    u
                    d))
          (settle_delivered core share public_id agent_id region w)
  unfolding settle_delivered
  settle_delivered-Tables w =
      let Done = λ (d : Db).
        (d ≡ w.db)
        ⊎ ((o : OrderEntity) × (u : OrderEntity) × (find_order_by_public_id public_id w.now w.db
              ≡ some o)
            × SettledAs o public_id agent_id region (share_of o.delivery_fee share) w.now w.db u
                d) in
      found_bind Done _ w (settle_order core share public_id agent_id region)
        (order_to_settle public_id agent_id w) (order_to_settle-Keeps public_id agent_id w)
        (order_to_settle-Ensures public_id agent_id w) (inl refl)
        λ o v d t (_, _, found, _).
          moved o v d t found (settle_order core share public_id agent_id region o v)
            (settle_order-Tables core share public_id agent_id region o v)
    where
      moved :
          (o : OrderEntity) (v : World)
          → v.db ≡ w.db
          → v.now ≡ w.now
          → find_order_by_public_id public_id w.now w.db ≡ some o
          → (r : Result OrderEntity × World)
          → Tables
              (λ d.
                (d ≡ v.db)
                ⊎ ((u : OrderEntity) × SettledAs o public_id agent_id region
                      (share_of o.delivery_fee share)
                      v.now
                      v.db
                      u
                      d))
              r
          → Tables
              (λ d.
                (d ≡ w.db)
                ⊎ ((o : OrderEntity) × (u : OrderEntity) × (find_order_by_public_id public_id w.now
                        w.db
                      ≡ some o)
                    × SettledAs o public_id agent_id region
                        (share_of o.delivery_fee share)
                        w.now
                        w.db
                        u
                        d))
              r
      moved o v d t found (_, z) (inl e) = inl (e ∙ d)
      moved o v d t found (_, z) (inr (u, s)) = inr (
        o,
        u,
        found,
        subst
            (λ x.
              SettledAs o public_id agent_id region (share_of o.delivery_fee share) w.now x u z.db)
            d
            (subst
              (λ x.
                SettledAs o public_id agent_id region (share_of o.delivery_fee share) x v.db u z.db)
              t s),
      )

  credited_once :
      (o : OrderEntity) (w : World) {u : OrderEntity} {v : World}
      → settle_order core share public_id agent_id region o w ≡ (ok u, v)
      → balance_of o.restaurant_id o.currency v.db
        ≡ balance_of o.restaurant_id o.currency w.db +ℤ (pos o.subtotal -ℤ pos u.commission)
  unfolding net_to_restaurant set_status stamp_order
  credited_once o w {u} {v} e =
      let own : (o.restaurant_id == o.restaurant_id && o.currency == o.currency) ≡ true =
        ground (arith, beq_refl o.currency) in
      let (commission, s) =
        of_Ensures _ (settle_order core share public_id agent_id region o w)
          (settle_order-Ensures core share public_id agent_id region o w) e in
      let paid =
        Paid-of_Settled o public_id agent_id region commission (share_of o.delivery_fee share) w.now
          w.db u v.db s in
      paid.held_after (λ r c. r == o.restaurant_id && c == o.currency)
      ∙ ap
          (λ b.
            balance_of o.restaurant_id o.currency w.db
            +ℤ (if b then pos o.subtotal -ℤ pos commission else pos 0))
          own
      ∙ ap (λ x. balance_of o.restaurant_id o.currency w.db +ℤ (pos o.subtotal -ℤ pos x))
          (sym (ap (λ x. x.commission) paid.returned))

  -- The check and the transaction are apart: two calls that both read the picked row, the second of
  -- which settles after the first, add the net amount to the restaurant's balance twice.
  pub settle_order_twice :
      (o : OrderEntity) (w : World) {u u' : OrderEntity} {v v' : World} (z : World)
      → settle_order core share public_id agent_id region o w ≡ (ok u, v)
      → z.db ≡ v.db
      → settle_order core share public_id agent_id region o z ≡ (ok u', v')
      → balance_of o.restaurant_id o.currency v'.db
        ≡ balance_of o.restaurant_id o.currency w.db
          +ℤ (pos o.subtotal -ℤ pos u.commission)
          +ℤ (pos o.subtotal -ℤ pos u'.commission)
  settle_order_twice o w {u} {u'} {v} {v'} z e same e' =
      credited_once o z e'
      ∙ ap (λ d. balance_of o.restaurant_id o.currency d +ℤ (pos o.subtotal -ℤ pos u'.commission))
          same
      ∙ ap (λ b. b +ℤ (pos o.subtotal -ℤ pos u'.commission)) (credited_once o w e)
