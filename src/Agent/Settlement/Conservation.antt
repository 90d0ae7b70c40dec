-- ===== src/Agent/Settlement/Conservation.antt =====
-- The theorems on `settleDelivered`: money, atomicity, and what a second call does.
use quick_bite_order_service.Agent.Settlement.{net_to_restaurant, settle_delivered, share_of}
use quick_bite_order_service.Agent.Settlement.Booking.{IsUnbooked, sum_by-ledger_booked}
use quick_bite_order_service.Agent.Settlement.Delivered.{
  Delivery, booked_sum-owner, owner_flow, settle_delivered-Ensures,
}
use quick_bite_order_service.Agent.Settlement.Money.{booked}
use quick_bite_order_service.Common.{
  Bool, String, ap, arith, beq_refl, if◌then◌else◌, int_laws, nat_eq, neg_part, pos, pos_part, refl,
  some, some-injective, string_eq, subst, sum_by, sym, true, ℕ, ℤ, ◌&&◌, ◌+ℤ◌, ◌+◌, ◌-ℤ◌, ◌==◌, ◌∙◌,
  ◌≡◌, ◌≢◌,
}
use quick_bite_order_service.Core.Client.{CoreService}
use quick_bite_order_service.Errors.{ok}
use quick_bite_order_service.Finance.Accounts.{account_net, balance_of, flow, held}
use quick_bite_order_service.Order.Model.{
  OrderEntity, actor_eq, delivered, is_cod, picked, status_eq,
}
use quick_bite_order_service.Order.Repository.{find_order_by_public_id, set_status, stamp_order}
use quick_bite_order_service.World.Frame.{of_Ensures}
use quick_bite_order_service.World.State.{World}

same_move : (x x' y y' c n : ℤ) → x' +ℤ c ≡ x +ℤ n → y' ≡ y +ℤ n → x' +ℤ c +ℤ y ≡ x +ℤ y'
same_move x x' y y' c n h k =
    omega (int_laws, ap pos_part h, ap neg_part h, ap pos_part k, ap neg_part k)

module _ (core : CoreService) (share : ℕ) (public_id : String) (agent_id : ℕ) (region : String)
    (w : World) where
  pub delivery_lem :
      {u : OrderEntity} {v : World}
      → settle_delivered core share public_id agent_id region w ≡ (ok u, v)
      → (o : OrderEntity) × Delivery share public_id agent_id region w.now w.db o u v.db
  delivery_lem e =
      of_Ensures _ (settle_delivered core share public_id agent_id region w)
        (settle_delivered-Ensures core share public_id agent_id region w) e

  -- If `settleDelivered` returns, the order was picked and belonged to the calling agent; it comes back
  -- delivered; and of all balances of restaurants exactly that of the order's restaurant in the
  -- order's currency changes, by the subtotal less the commission that the order records.
  pub settle_delivered-held :
      {u : OrderEntity} {v : World}
      → settle_delivered core share public_id agent_id region w ≡ (ok u, v)
      → (o : OrderEntity) × (find_order_by_public_id public_id w.now w.db ≡ some o)
        × (o.status ≡ picked)
        × (o.delivery_agent_id ≡ some agent_id)
        × (u.status ≡ delivered)
        × ((p : ℕ → String → Bool)
            → held p v.db
              ≡ held p w.db
                +ℤ (if p o.restaurant_id o.currency
                    then pos o.subtotal -ℤ pos u.commission
                    else pos 0))
  unfolding find_order_by_public_id net_to_restaurant set_status stamp_order
  settle_delivered-held {u} {v} e =
      let (o, s) = delivery_lem e in
      let b = s.paid.before in
      (
        o,
        s.found,
        s.was_picked,
        s.was_theirs,
        ap (λ x. x.status) s.paid.returned,
        λ p.
            s.paid.held_after p
            ∙ ap
                (λ c.
                  held p w.db
                  +ℤ (if p o.restaurant_id o.currency then pos o.subtotal -ℤ pos c else pos 0))
                (sym (ap (λ x. x.commission) s.paid.returned)),
      )

  -- Conservation: the balance of the restaurant and the account of its owner in the ledger move by the
  -- same amount (for an online order together with the total, which its payment had brought in), if
  -- the settlement's keys are free, the total is the sum of its parts, and the customer is not the
  -- owner.
  pub settle_delivered_conserves :
      {o u : OrderEntity} {v : World}
      → find_order_by_public_id public_id w.now w.db ≡ some o
      → IsUnbooked o w.db
      → o.total ≡ o.subtotal + o.service_fee + o.delivery_fee
      → o.customer_id ≢ o.restaurant_owner_id
      → settle_delivered core share public_id agent_id region w ≡ (ok u, v)
      → account_net o.restaurant_owner_id o.currency v.db
          +ℤ (if is_cod o.payment_method then pos 0 else pos o.total)
          +ℤ balance_of o.restaurant_id o.currency w.db
        ≡ account_net o.restaurant_owner_id o.currency w.db
          +ℤ balance_of o.restaurant_id o.currency v.db
  unfolding find_order_by_public_id booked
  settle_delivered_conserves {o} {u} {v} found unbooked parts distinct e =
      let (o', s') = delivery_lem e in
      let same : o' ≡ o = some-injective (sym s'.found ∙ found) in
      let s = subst (λ x. Delivery share public_id agent_id region w.now w.db x u v.db) same s' in
      let owner = o.restaurant_owner_id in
      let earning = share_of o.delivery_fee share in
      let ledger =
        ap (λ t. sum_by (flow owner o.currency) t.rows) s.paid.ledger_after
        ∙ sum_by-ledger_booked o public_id agent_id region s.commission earning
            (flow owner o.currency) (owner_flow o region distinct) w.now w.db (λ input id now. refl)
            unbooked in
      let owed =
        ap (λ x. x +ℤ (if is_cod o.payment_method then pos 0 else pos o.total)) ledger
        ∙ booked_sum-owner o region distinct public_id agent_id s.commission earning
            (account_net owner o.currency w.db) parts in
      let own : (o.restaurant_id == o.restaurant_id && o.currency == o.currency) ≡ true =
        ground (arith, beq_refl o.currency) in
      let credit =
        s.paid.held_after (λ r c. r == o.restaurant_id && c == o.currency)
        ∙ ap
            (λ b.
              balance_of o.restaurant_id o.currency w.db
              +ℤ (if b then net_to_restaurant o s.commission else pos 0))
            own in
      same_move _ _ _ _ _ _ owed credit
