-- ===== src/Tests/Orders.antt =====
-- Orders at concrete inputs.
use quick_bite_order_service.Common.{
  List, Option, [], arith, false, if◌then◌else◌, inl, nat_eq, none, refl, some, string_eq, true,
  ◌+◌, ◌==◌, ◌∷◌, ◌≡◌, ◌≢◌, ◌≤◌, ◌⊎◌,
}
use quick_bite_order_service.Core.Client.{get_branch}
use quick_bite_order_service.Errors.{
  err, invalid_status_transition, ok, payment_provider_unavailable,
}
use quick_bite_order_service.Order.Access.{
  assert_read_access, is_owner, resolve_status_actor, resolve_status_actor-member,
  resolve_status_actor-read, works_at,
}
use quick_bite_order_service.Order.Lines.{
  RequestedItem, build_order_line_drafts, by_product, check_item, check_items, multiply_minor,
}
use quick_bite_order_service.Order.Lines.Priced.{Priced, build_order_line_drafts-Priced}
use quick_bite_order_service.Order.Model.{
  ActorContext, OrderEntity, OrderItemEntity, OrderLineDraft, accepted, actor_eq, agent, cancelled,
  cod, customer, delivered, delivery_agent, other_role, picked, placed, restaurant_member,
  restaurant_user, status_eq,
}
use quick_bite_order_service.Order.Place.{
  CreateOrderRequest, Draft, RegionConfig, assert_region, draft_order, is_accepting,
  is_branch_rejecting_orders, place_order, place_transaction, place_writes,
}
use quick_bite_order_service.Order.Place.Money.{Placed, place_transaction-Placed}
use quick_bite_order_service.Order.Place.Stock.{GivenUp, fails_after, place_order-GivenUp}
use quick_bite_order_service.Order.Repository.{
  bulk_insert_items, create_order, find_order_by_public_id, number_items,
}
use quick_bite_order_service.Order.Status.{
  AssertTransitionContext, StampColumn, accepted_at, assert_transition, cancelled_at, delivered_at,
}
use quick_bite_order_service.Order.Status.Customer.{CustomerMay, assert_transition-customer_iff}
use quick_bite_order_service.Order.Status.Lifecycle.{
  Run-bound, Run-exact, assert_transition-stamp, assert_transition_final, assert_transition_picked,
  here, next, stamp_of,
}
use quick_bite_order_service.Order.Update.{update_status}
use quick_bite_order_service.Order.Update.Lawful.{Updated, update_status-Tables}
use quick_bite_order_service.Order.Update.Unsettled.{StatusOnly, update_status_unsettled}
use quick_bite_order_service.Payment.Session.{PaymentProvider}
use quick_bite_order_service.Tests.Sample.{
  sample_address, sample_branch, sample_core, sample_order, sample_product, sample_redis,
  sample_world,
}
use quick_bite_order_service.World.Frame.{Tables}
use quick_bite_order_service.World.Monad.{call}
use quick_bite_order_service.World.State.{OrderStatusResponse, World}

abbrev restaurant_owner : ActorContext
restaurant_owner = record {
  user_id = 9;
  role = restaurant_user;
  restaurant_id = some 3;
  restaurant_role = some "owner";
  branch_ids = none;
}

abbrev rider : ActorContext
rider = record {
  user_id = 5;
  role = delivery_agent;
  restaurant_id = none;
  restaurant_role = none;
  branch_ids = none;
}

abbrev buyer : ActorContext
buyer = record {
  user_id = 7;
  role = other_role "customer";
  restaurant_id = none;
  restaurant_role = none;
  branch_ids = none;
}

abbrev placed_order : OrderEntity
placed_order = sample_order placed cod

abbrev placed_world : World
placed_world = sample_world (placed_order ∷ []) []

update_status-Tables_example :
    Tables
      (λ d.
        (d ≡ placed_world.db)
        ⊎ ((o : OrderEntity) × (find_order_by_public_id "o1" 1000 placed_world.db ≡ some o)
            × Updated sample_core restaurant_owner accepted none placed_world o d))
      (update_status sample_core restaurant_owner "o1" accepted none placed_world)
update_status-Tables_example =
    update_status-Tables sample_core restaurant_owner accepted none "o1" placed_world

abbrev picked_order : OrderEntity
picked_order = sample_order picked cod

abbrev picked_world : World
picked_world = sample_world (picked_order ∷ []) []

found_picked : find_order_by_public_id "o1" 1000 picked_world.db ≡ some picked_order
unfolding find_order_by_public_id
found_picked = refl

update_status_unsettled_example :
    (r : OrderStatusResponse) × (v : World) × (update_status sample_core rider "o1" delivered none
        picked_world
      ≡ (ok r, v))
    × StatusOnly "o1" 1000 picked_world.db r v.db
update_status_unsettled_example =
    update_status_unsettled sample_core rider picked_order refl refl refl picked_world refl
      found_picked

abbrev basket : List RequestedItem
basket = record { product_id = 11; quantity = 2 } ∷ []

abbrev line : OrderLineDraft
line = record {
  product_id = 11;
  quantity = 2;
  unit_price = 5000;
  line_total = 10000;
  name = "Koshari";
  image_url = none;
}

drafted_basket : build_order_line_drafts basket (sample_product ∷ []) ≡ ok (line ∷ [])
unfolding build_order_line_drafts check_items check_item by_product multiply_minor
drafted_basket = refl

build_order_line_drafts-Priced_example : Priced basket (sample_product ∷ []) (line ∷ [])
build_order_line_drafts-Priced_example =
    build_order_line_drafts-Priced basket (sample_product ∷ []) (line ∷ []) drafted_basket

abbrev draft : Draft
draft = record {
  branch = sample_branch;
  address = sample_address;
  region = "eg";
  drafts = line ∷ [];
}

abbrev order_request : CreateOrderRequest
order_request = record {
  branch_id = 4;
  customer_address_id = 2;
  items = basket;
  payment_method = cod;
}

placed_run :
    (o : OrderEntity) × (items : List OrderItemEntity) × (v : World) × (place_transaction
        sample_core buyer order_request "o2" draft placed_world
      ≡ (ok (o, items), v))
unfolding place_transaction place_writes create_order bulk_insert_items number_items call
placed_run = (_, _, _, refl)

place_transaction-Placed_example : Placed placed_world.db placed_run.0 placed_run.1 placed_run.2.db
place_transaction-Placed_example =
    place_transaction-Placed sample_core buyer order_request "o2" draft placed_world placed_run.3

abbrev regions : RegionConfig
regions = record {
  regions = "eg" ∷ [];
  online_regions = [];
  to_lower = λ s. if s == "EG" then "eg" else s;
}

abbrev no_provider : PaymentProvider
no_provider = record {
  new_session = λ o. err payment_provider_unavailable;
  verify = λ envelope s. false;
  session_ttl_ms = 900000;
}

-- The six calls of the checks, the reservation and the begin go through, then the order is inserted, and
-- the insert of its items fails.
abbrev failing_world : World
failing_world =
    sample_world []
      (false ∷ false ∷ false ∷ false ∷ false ∷ false ∷ false ∷ false ∷ false ∷ true ∷ [])

abbrev checked_world : World
checked_world = record failing_world {
  faults = false ∷ false ∷ fails_after 1;
  redis = record sample_redis {
    branches = (4, record { value = sample_branch; expires_at = some 3601000 }) ∷ [];
  };
}

drafts_order :
    draft_order sample_core regions buyer order_request none failing_world
    ≡ (ok draft, checked_world)
unfolding draft_order get_branch is_accepting is_branch_rejecting_orders assert_region
    build_order_line_drafts check_items check_item by_product multiply_minor call
drafts_order = refl

place_order-GivenUp_example :
    GivenUp sample_core no_provider buyer order_request "o2" draft checked_world
      (place_order sample_core no_provider regions buyer order_request none "o2" failing_world)
place_order-GivenUp_example =
    place_order-GivenUp sample_core no_provider regions buyer order_request none "o2" draft
      failing_world checked_world 1 drafts_order refl refl (omega arith)

owner_acts : resolve_status_actor restaurant_owner placed_order ≡ ok restaurant_member
unfolding resolve_status_actor
owner_acts = refl

resolve_status_actor-member_example :
    (restaurant_owner.restaurant_id ≡ some 3)
    × ((is_owner restaurant_owner ≡ true) ⊎ (works_at restaurant_owner 4 ≡ true))
resolve_status_actor-member_example =
    resolve_status_actor-member restaurant_owner placed_order owner_acts

member_no_agent : restaurant_member ≢ agent
member_no_agent = ground arith

resolve_status_actor-read_example : assert_read_access restaurant_owner placed_order ≡ ok tt
resolve_status_actor-read_example =
    resolve_status_actor-read restaurant_owner placed_order restaurant_member owner_acts
      member_no_agent

abbrev by_staff : AssertTransitionContext
by_staff = record {
  actor = restaurant_member;
  reason = none;
  placed_at = some 100;
  accepted_at = none;
}

accepts : assert_transition placed accepted by_staff 1000 ≡ ok (some accepted_at)
unfolding assert_transition
accepts = refl

Run-bound_example : (1 + 1 ≤ 2) × (1 ≤ 7)
Run-bound_example = Run-bound (next by_staff 1000 (some accepted_at) here accepts)

Run-exact_example : 1 + 1 ≡ 2
Run-exact_example = Run-exact (next by_staff 1000 (some accepted_at) here accepts) refl

assert_transition-stamp_example : some accepted_at ≡ stamp_of accepted
assert_transition-stamp_example =
    assert_transition-stamp placed accepted by_staff 1000 (some accepted_at) accepts

assert_transition_final_example :
    assert_transition delivered cancelled by_staff 1000
    ≡ err (invalid_status_transition delivered cancelled)
assert_transition_final_example =
    assert_transition_final delivered cancelled by_staff 1000 (inl refl)

abbrev by_rider : AssertTransitionContext
by_rider = record { actor = agent; reason = none; placed_at = none; accepted_at = none }

delivers : assert_transition picked delivered by_rider 1000 ≡ ok (some delivered_at)
unfolding assert_transition
delivers = refl

assert_transition_picked_example : (delivered ≡ delivered) × (by_rider.actor ≡ agent)
assert_transition_picked_example =
    assert_transition_picked delivered by_rider 1000 (some delivered_at) delivers

abbrev by_buyer : AssertTransitionContext
by_buyer = record {
  actor = customer;
  reason = some "late";
  placed_at = some 100;
  accepted_at = none;
}

assert_transition-customer_iff_example :
    (((col : Option StampColumn) × (assert_transition placed cancelled by_buyer 1000 ≡ ok col))
      → CustomerMay placed cancelled by_buyer 1000)
    × (CustomerMay placed cancelled by_buyer 1000
        → assert_transition placed cancelled by_buyer 1000 ≡ ok (some cancelled_at))
assert_transition-customer_iff_example =
    assert_transition-customer_iff placed cancelled by_buyer 1000 refl
