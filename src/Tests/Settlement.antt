-- ===== src/Tests/Settlement.antt =====
-- Settlements at concrete inputs.
use quick_bite_order_service.Agent.Service.{transition}
use quick_bite_order_service.Agent.Service.Lawful.{PickedUp, SettledUp, transition-Tables}
use quick_bite_order_service.Agent.Settlement.{
  check_settleable, settle_delivered, settle_order, share_of,
}
use quick_bite_order_service.Agent.Settlement.Booking.{IsUnbooked}
use quick_bite_order_service.Agent.Settlement.Conservation.{
  delivery_lem, settle_delivered-held, settle_delivered_conserves,
}
use quick_bite_order_service.Agent.Settlement.Once.{
  found_delivered, settle_delivered-Tables, settle_delivered_once, settle_order_twice,
}
use quick_bite_order_service.Agent.Settlement.Outcome.{SettledAs}
use quick_bite_order_service.Agent.Settlement.Progress.{
  settle_delivered_returns, settle_order_returns,
}
use quick_bite_order_service.Common.{
  Bool, String, [], arith, false, find, if◌then◌else◌, pos, refl, some, true, ℕ, ◌+ℤ◌, ◌-ℤ◌, ◌∷◌,
  ◌≡◌, ◌≢◌, ◌⊎◌,
}
use quick_bite_order_service.Errors.{Result, ok}
use quick_bite_order_service.Finance.Accounts.{account_net, balance_of, held}
use quick_bite_order_service.Order.Model.{OrderEntity, assigned, cod, delivered, picked}
use quick_bite_order_service.Order.Repository.{find_order_by_public_id, has_public_id}
use quick_bite_order_service.Tests.Sample.{sample_core, sample_order, sample_world}
use quick_bite_order_service.World.Frame.{Refused, Tables}
use quick_bite_order_service.World.Monad.{call}
use quick_bite_order_service.World.State.{World}

abbrev picked_order : OrderEntity
picked_order = sample_order picked cod

abbrev world : World
world = sample_world (picked_order ∷ []) []

abbrev run : World → Result OrderEntity × World
run = settle_delivered sample_core 8000 "o1" 5 "eg"

found_order : find_order_by_public_id "o1" 1000 world.db ≡ some picked_order
unfolding find_order_by_public_id
found_order = refl

unbooked : IsUnbooked picked_order world.db
unbooked = record {
  cod_free = refl;
  commission_free = refl;
  service_free = refl;
  delivery_free = refl;
}

found_row : find (has_public_id "o1") world.db.orders.rows ≡ some picked_order
found_row = refl

others : picked_order.customer_id ≢ picked_order.restaurant_owner_id
others = ground arith

delivered_run : (u : OrderEntity) × (v : World) × (run world ≡ (ok u, v))
delivered_run =
    settle_delivered_returns sample_core 8000 "o1" 5 "eg" picked_order world refl found_order refl
      refl

settle_delivered_returns_example : (u : OrderEntity) × (v : World) × (run world ≡ (ok u, v))
settle_delivered_returns_example =
    settle_delivered_returns sample_core 8000 "o1" 5 "eg" picked_order world refl found_order refl
      refl

settle_delivered_conserves_example :
    account_net 9 "EGP" delivered_run.1.db +ℤ pos 0 +ℤ balance_of 3 "EGP" world.db
    ≡ account_net 9 "EGP" world.db +ℤ balance_of 3 "EGP" delivered_run.1.db
settle_delivered_conserves_example =
    settle_delivered_conserves sample_core 8000 "o1" 5 "eg" world found_order unbooked refl others
      delivered_run.2

settle_delivered-held_example :
    (o : OrderEntity) × (find_order_by_public_id "o1" 1000 world.db ≡ some o)
    × (o.status ≡ picked)
    × (o.delivery_agent_id ≡ some 5)
    × (delivered_run.0.status ≡ delivered)
    × ((p : ℕ → String → Bool)
        → held p delivered_run.1.db
          ≡ held p world.db
            +ℤ (if p o.restaurant_id o.currency
                then pos o.subtotal -ℤ pos delivered_run.0.commission
                else pos 0))
settle_delivered-held_example =
    settle_delivered-held sample_core 8000 "o1" 5 "eg" world delivered_run.2

settle_delivered_once_example :
    Refused delivered_run.1.db (settle_delivered sample_core 8000 "o1" 6 "eg" delivered_run.1)
settle_delivered_once_example =
    settle_delivered_once sample_core 8000 "o1" 5 "eg" world delivered_run.1 6 delivered_run.2 refl

-- The begin of the transaction fails.
abbrev faulty_world : World
faulty_world = sample_world (picked_order ∷ []) (false ∷ false ∷ false ∷ false ∷ true ∷ [])

settle_delivered-Tables_example :
    Tables
      (λ d.
        (d ≡ faulty_world.db)
        ⊎ ((o : OrderEntity) × (u : OrderEntity) × (find_order_by_public_id "o1" 1000
                faulty_world.db
              ≡ some o)
            × SettledAs o "o1" 5 "eg" (share_of o.delivery_fee 8000) 1000 faulty_world.db u d))
      (run faulty_world)
settle_delivered-Tables_example = settle_delivered-Tables sample_core 8000 "o1" 5 "eg" faulty_world

-- The second half of the first call, and after it the second half of a call that has read the same row.
first_half :
    settle_order sample_core 8000 "o1" 5 "eg" picked_order world
    ≡ (ok delivered_run.0, delivered_run.1)
unfolding settle_delivered find_order_by_public_id check_settleable call
first_half = delivered_run.2

row_after : find (has_public_id "o1") delivered_run.1.db.orders.rows ≡ some delivered_run.0
row_after =
    let (o, s) = delivery_lem sample_core 8000 "o1" 5 "eg" world delivered_run.2 in
    found_delivered sample_core 8000 "o1" 5 "eg" world.db delivered_run.0 delivered_run.1.db o 1000
      s

second_run :
    (u : OrderEntity) × (v : World) × (settle_order sample_core 8000 "o1" 5 "eg" picked_order
        (record delivered_run.1 { faults = [] })
      ≡ (ok u, v))
second_run =
    settle_order_returns sample_core 8000 "o1" 5 "eg" picked_order
      (record delivered_run.1 { faults = [] }) refl row_after

settle_order_twice_example :
    balance_of 3 "EGP" second_run.1.db
    ≡ balance_of 3 "EGP" world.db
      +ℤ (pos 10000 -ℤ pos delivered_run.0.commission)
      +ℤ (pos 10000 -ℤ pos second_run.0.commission)
settle_order_twice_example =
    settle_order_twice sample_core 8000 "o1" 5 "eg" picked_order world
      (record delivered_run.1 { faults = [] }) first_half refl second_run.2

abbrev assigned_world : World
assigned_world = sample_world (sample_order assigned cod ∷ []) []

transition-Tables_example :
    Tables
      (λ d.
        (d ≡ assigned_world.db)
        ⊎ ((picked ≡ delivered) × SettledUp sample_core 8000 "o1" 5 "eg" 1000 assigned_world.db d)
        ⊎ ((picked ≡ picked) × PickedUp sample_core 8000 "o1" 5 "eg" 1000 assigned_world.db d))
      (transition sample_core 8000 "o1" 5 "eg" picked assigned_world)
transition-Tables_example = transition-Tables sample_core 8000 "o1" 5 "eg" picked assigned_world
