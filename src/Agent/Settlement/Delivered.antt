-- ===== src/Agent/Settlement/Delivered.antt =====
-- What `settleDelivered` does to the restaurant's balance and to the owner's account in the ledger.
use quick_bite_order_service.Agent.Settlement.{
  check_settleable, cod_row, ledger_row, net_to_restaurant, order_to_settle, settle_delivered,
  settle_order, share_of,
}
use quick_bite_order_service.Agent.Settlement.Booking.{booked_sum}
use quick_bite_order_service.Agent.Settlement.Money.{Paid, Paid-of_Settled}
use quick_bite_order_service.Agent.Settlement.Outcome.{
  order_to_settle-Ensures, settle_order-Ensures,
}
use quick_bite_order_service.Agent.Settlement.Writes.{Settled}
use quick_bite_order_service.Common.{
  Bool, Bool-cases, String, arith, beq_refl, false, find, if◌then◌else◌, inl, inr, int_laws, ltb,
  nat_eq, none, pos, refl, some, string_eq, subst, true, ℕ, ℤ, ◌+ℤ◌, ◌+◌, ◌-ℤ◌, ◌==◌, ◌≡◌, ◌≢◌,
}
use quick_bite_order_service.Core.Client.{CoreService}
use quick_bite_order_service.Errors.{ok}
use quick_bite_order_service.Finance.Accounts.{flow}
use quick_bite_order_service.Order.Model.{OrderEntity, actor_eq, is_cod, picked, status_eq}
use quick_bite_order_service.Order.Repository.{find_order_by_public_id, has_public_id}
use quick_bite_order_service.Payment.Model.{
  CreateTransactionInput, TransactionMethod, TransactionType,
}
use quick_bite_order_service.Payment.Repository.{new_transaction}
use quick_bite_order_service.World.Frame.{weaken}
use quick_bite_order_service.World.Rules.{Ensures, bind-Ensures}
use quick_bite_order_service.World.State.{Db, World}

into :
    (a b : ℕ) (n : ℕ)
    → a ≢ b
    → (if b == b then pos n else pos 0) -ℤ (if a == b then pos n else pos 0) ≡ pos n
into a b n ne =
    let other : (a == b) ≡ false = ground arith in rw (beq_refl b, other) (omega int_laws)

fee_part : (n : ℕ) → (if ltb 0 n then pos 0 -ℤ pos n else pos 0) ≡ pos 0 -ℤ pos n
fee_part n = elim (Bool-cases (ltb 0 n)) [
  | inl charged ↦ rw charged refl
  | inr free ↦ let nil : n ≡ 0 = ground arith in rw (free, nil) (omega int_laws)
]

net_sum :
    (s : ℤ) (is_collected : Bool) (total subtotal charged service delivery : ℕ)
    → total ≡ subtotal + service + delivery
    → s
        +ℤ (if is_collected then pos total else pos 0)
        +ℤ (pos 0 -ℤ pos charged)
        +ℤ (pos 0 -ℤ pos service)
        +ℤ (pos 0 -ℤ pos delivery)
        +ℤ (if is_collected then pos 0 else pos total)
      ≡ s +ℤ (pos subtotal -ℤ pos charged)
net_sum s true total subtotal charged service delivery h = omega (int_laws, h)
net_sum s false total subtotal charged service delivery h = omega (int_laws, h)

module _ (o : OrderEntity) (region : String)
    (distinct : o.customer_id ≢ o.restaurant_owner_id) where
  -- What a row of the ledger adds to the owner's account.
  abbrev pub owner_flow : CreateTransactionInput → ℤ
  owner_flow input = flow o.restaurant_owner_id o.currency (new_transaction input 0 0)

  owner_flow-cod : owner_flow (cod_row o region) ≡ pos o.total
  owner_flow-cod =
      rw (beq_refl o.currency) (into o.customer_id o.restaurant_owner_id o.total distinct)

  owner_flow-out :
      (type : TransactionType) (method : TransactionMethod) (amount : ℕ) (key : String)
      → owner_flow (ledger_row o region type method amount (some o.restaurant_owner_id) none key)
        ≡ pos 0 -ℤ pos amount
  owner_flow-out type method amount key =
      rw (beq_refl o.currency, beq_refl o.restaurant_owner_id) refl

  -- The owner's account moves by the net amount; for an online order the payment came in before.
  pub booked_sum-owner :
      (public_id : String) (agent_id commission earning : ℕ) (s : ℤ)
      → o.total ≡ o.subtotal + o.service_fee + o.delivery_fee
      → booked_sum o public_id agent_id region commission earning owner_flow s
          +ℤ (if is_cod o.payment_method then pos 0 else pos o.total)
        ≡ s +ℤ net_to_restaurant o commission
  unfolding net_to_restaurant
  booked_sum-owner public_id agent_id commission earning s h =
      rw
        (
          owner_flow-cod,
          owner_flow-out TransactionType.commission TransactionMethod.system commission
              "commission:",
          owner_flow-out TransactionType.service_fee TransactionMethod.system o.service_fee
              "service-fee:",
          owner_flow-out TransactionType.delivery_fee TransactionMethod.system o.delivery_fee
              "delivery-fee:",
          fee_part commission,
          fee_part o.service_fee,
          fee_part o.delivery_fee,
        )
        (net_sum s (is_cod o.payment_method) o.total o.subtotal commission o.service_fee
          o.delivery_fee h)

-- A settlement by `agent_id` of the order `o`, at the commission that the branch gives.
pub record Delivery (share : ℕ) (public_id : String) (agent_id : ℕ) (region : String) (now : ℕ)
    (d : Db) (o u : OrderEntity) (d' : Db) : Type 0 where
  pub commission : ℕ
  pub found : find (has_public_id public_id) d.orders.rows ≡ some o
  pub was_picked : o.status ≡ picked
  pub was_theirs : o.delivery_agent_id ≡ some agent_id
  pub paid : Paid o public_id agent_id region commission (share_of o.delivery_fee share) now d u d'

pub check_settleable-ok :
    (o : OrderEntity) (agent_id : ℕ)
    → check_settleable o agent_id ≡ ok tt
    → (o.status ≡ picked) × (o.delivery_agent_id ≡ some agent_id)
unfolding check_settleable
check_settleable-ok o agent_id h = (ground arith, ground arith)

module _ (core : CoreService) (share : ℕ) (public_id : String) (agent_id : ℕ)
    (region : String) where
  pub settle_delivered-Ensures :
      (w : World)
      → Ensures
          (λ u v. (o : OrderEntity) × Delivery share public_id agent_id region w.now w.db o u v.db)
          (settle_delivered core share public_id agent_id region w)
  unfolding settle_delivered find_order_by_public_id
  settle_delivered-Ensures w =
      let Q = λ (u : OrderEntity) (v : World).
        (o : OrderEntity) × Delivery share public_id agent_id region w.now w.db o u v.db in
      bind-Ensures _ Q (settle_order core share public_id agent_id region)
        (order_to_settle public_id agent_id w) (order_to_settle-Ensures public_id agent_id w)
        λ o v (same_db, same_now, found, fit).
          weaken _ Q (settle_order core share public_id agent_id region o v)
            (settle_order-Ensures core share public_id agent_id region o v)
            λ u z (commission, s).
              let (was_picked, was_theirs) = check_settleable-ok o agent_id fit in
              let s' =
                subst
                  (λ x.
                    Settled o public_id agent_id region commission (share_of o.delivery_fee share)
                      w.now x u z.db)
                  same_db
                  (subst
                    (λ x.
                      Settled o public_id agent_id region commission (share_of o.delivery_fee share)
                        x v.db u z.db)
                    same_now s) in
              (
                o,
                record {
                  commission = commission;
                  found = found;
                  was_picked = was_picked;
                  was_theirs = was_theirs;
                  paid =
                      Paid-of_Settled o public_id agent_id region commission
                        (share_of o.delivery_fee share) w.now w.db u z.db s';
                },
              )
