-- ===== src/Order/Update/Entered.antt =====
-- The row of an order and the event after a change of its status.
use quick_bite_order_service.Common.{
  Bool, List, Option, String, [], ap, if◌then◌else◌, nat_eq, none, refl, some, string_eq, update, ℕ,
  ◌++◌, ◌+◌, ◌==◌, ◌∷◌, ◌≡◌,
}
use quick_bite_order_service.Events.Model.{
  EventType, OutboxRow, order_aggregate, transition_payload,
}
use quick_bite_order_service.Order.Model.{
  OrderEntity, OrderStatus, StatusActor, accepted, actor_eq, assigned, cancelled, delivered,
  pending_payment, picked, preparing, ready, rejected, status_eq,
}
use quick_bite_order_service.Order.Repository.{set_status, stamp_order}
use quick_bite_order_service.Order.Status.Lifecycle.{stamp_of}
use quick_bite_order_service.World.State.{Table}

-- The order once it has entered the status: the time of the change stands in the column of that status,
-- where there is one, and every other column is as it was.
abbrev pub entered : OrderStatus → ℕ → OrderEntity → OrderEntity
entered status now o = record o {
  status = status;
  updated_at = now;
  accepted_at = if status == accepted then some now else o.accepted_at;
  rejected_at = if status == rejected then some now else o.rejected_at;
  ready_at = if status == ready then some now else o.ready_at;
  assigned_at = if status == assigned then some now else o.assigned_at;
  picked_at = if status == picked then some now else o.picked_at;
  delivered_at = if status == delivered then some now else o.delivered_at;
  cancelled_at = if status == cancelled then some now else o.cancelled_at;
}

-- The event that tells of the status.
abbrev pub announced : OrderStatus → Option EventType
announced accepted = some EventType.order_accepted
announced rejected = some EventType.order_rejected
announced cancelled = some EventType.order_cancelled
announced _ = none

-- The outbox with the event, if there is one to tell.
abbrev pub told :
    Option EventType
    → OrderEntity
    → OrderStatus
    → Option String
    → StatusActor
    → ℕ
    → Table OutboxRow
    → Table OutboxRow
told none o status reason who now outbox = outbox
told (some type) o status reason who now outbox = record {
  rows =
      outbox.rows
      ++ record {
        id = outbox.next_id;
        aggregate_type = order_aggregate;
        aggregate_id = o.public_id;
        event_type = type;
        event_id = outbox.next_id;
        payload = transition_payload (record {
          order_id = o.public_id;
          region = o.region;
          restaurant_id = o.restaurant_id;
          branch_id = o.branch_id;
          customer_id = o.customer_id;
          status = status;
          reason = reason;
          actor = who;
          occurred_at = now;
        });
        attempts = 0;
        last_error = none;
        dispatched_at = none;
      }
        ∷ [];
  next_id = outbox.next_id + 1;
}

pub set_status-entered :
    (status : OrderStatus) (now : ℕ) (o : OrderEntity)
    → set_status status (stamp_of status) now o ≡ entered status now o
unfolding set_status stamp_order
set_status-entered pending_payment now o = refl
set_status-entered OrderStatus.placed now o = refl
set_status-entered accepted now o = refl
set_status-entered rejected now o = refl
set_status-entered preparing now o = refl
set_status-entered ready now o = refl
set_status-entered assigned now o = refl
set_status-entered picked now o = refl
set_status-entered delivered now o = refl
set_status-entered cancelled now o = refl

pub update-ext :
    {A : Type 0} (p : A → Bool) (f g : A → A) (xs : List A)
    → ((x : A) → f x ≡ g x)
    → update p f xs ≡ update p g xs
update-ext p f g [] h = refl
update-ext p f g (x ∷ xs) h =
    rw (h x) (ap (λ l. (if p x then g x else x) ∷ l) (update-ext p f g xs h))
