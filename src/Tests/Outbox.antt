-- ===== src/Tests/Outbox.antt =====
-- Passes over the outbox at concrete inputs.
use quick_bite_order_service.Common.{
  [], arith, false, insert_by, length, map, refl, sort_by, take, true, ◌++◌, ◌∷◌, ◌≡◌,
}
use quick_bite_order_service.Errors.{ok}
use quick_bite_order_service.Events.Drain.{drain_outbox, drain_rows}
use quick_bite_order_service.Events.Drain.Fifo.{Drains, drain_outbox-Drains}
use quick_bite_order_service.Events.Model.{
  EventType, InsertOutboxInput, OrderPlacedPayload, order_aggregate, placed_payload,
}
use quick_bite_order_service.Events.Repository.{
  claim_batch, dispatch, insert_outbox_event, mark_dispatched, mark_failed, new_event,
}
use quick_bite_order_service.Events.Repository.Queue.{
  IsOutbox, asked, event_of, insert_outbox_event-queue, queue,
}
use quick_bite_order_service.Order.Model.{OrderStatus, cod}
use quick_bite_order_service.Tests.Sample.{sample_db, sample_world}
use quick_bite_order_service.World.Monad.{call, transaction}
use quick_bite_order_service.World.State.{Db, World}

abbrev placed : OrderPlacedPayload
placed = record {
  order_id = "o1";
  region = "eg";
  country_code = "EG";
  restaurant_id = 3;
  branch_id = 4;
  customer_id = 7;
  status = OrderStatus.placed;
  payment_method = cod;
  subtotal = 10000;
  delivery_fee = 2000;
  service_fee = 1000;
  total = 13000;
  currency = "EGP";
  items = [];
  placed_at = 100;
}

abbrev event : InsertOutboxInput
event = record {
  aggregate_type = order_aggregate;
  aggregate_id = "o1";
  event_type = EventType.order_placed;
  payload = placed_payload placed;
}

-- Three events, of which the first is out.
abbrev filled : Db
filled = record (sample_db []) {
  outbox = record {
    rows = dispatch 500 (new_event event 1) ∷ new_event event 2 ∷ new_event event 3 ∷ [];
    next_id = 4;
  };
}

-- The second of the two messages cannot be published.
abbrev world : World
world = record (sample_world [] (false ∷ false ∷ false ∷ true ∷ [])) { db = filled }

filled-IsOutbox : IsOutbox filled
filled-IsOutbox =
    ((
      ((ground arith, (ground arith, tt)), ((ground arith, tt), (tt, tt))),
      (ground arith, (ground arith, (ground arith, tt))),
    ))

insert_outbox_event-queue_example :
    (queue (insert_outbox_event event 1000 filled).1 ≡ queue filled ++ asked event 4 ∷ [])
    × (map event_of (claim_batch 2 1100 (insert_outbox_event event 1000 filled).1)
        ≡ take 2 (queue filled ++ asked event 4 ∷ []))
    × IsOutbox (insert_outbox_event event 1000 filled).1
insert_outbox_event-queue_example =
    insert_outbox_event-queue event 1000 1100 2 filled filled-IsOutbox

drain_outbox-Drains_example :
    Drains (λ e. "broken") "eg" 100 world (drain_outbox (λ e. "broken") "eg" 100 world)
drain_outbox-Drains_example = drain_outbox-Drains (λ e. "broken") "eg" 100 world filled-IsOutbox

-- In the run above one message goes out, and one event waits.
one_goes_out :
    (v : World) × (drain_outbox (λ e. "broken") "eg" 100 world ≡ (ok tt, v))
    × (length v.published ≡ 1)
    × (length (queue v.db) ≡ 1)
unfolding drain_outbox transaction claim_batch drain_rows mark_failed mark_dispatched call sort_by
    insert_by
one_goes_out = (_, refl, refl, refl)
