-- ===== src/Tests/Reads.antt =====
-- Reads of orders at concrete inputs.
use quick_bite_order_service.Common.{[], none, refl, some, sort_by, true, ◌*◌, ◌/◌, ◌∷◌, ◌≡◌}
use quick_bite_order_service.Errors.{err, ok, order_not_found}
use quick_bite_order_service.Http.Cursor.{Columns, PaginationParams, desc}
use quick_bite_order_service.Order.Access.{assert_read_access, can_read_archive}
use quick_bite_order_service.Order.Model.{ActorContext, OrderEntity, OrderStatus, Role, cod}
use quick_bite_order_service.Order.Queries.{ListRestaurantOrdersFilter}
use quick_bite_order_service.Order.Read.{
  Calendar, get_order, list_customer_orders, list_restaurant_orders,
}
use quick_bite_order_service.Order.Read.Branch.{ShowsBranch, list_restaurant_orders-Branch}
use quick_bite_order_service.Order.Read.Granted.{Granted, get_order-Granted}
use quick_bite_order_service.Order.Read.Listed.{Shows, item_count}
use quick_bite_order_service.Order.Read.Owned.{IsOwnPage, list_customer_orders-Own}
use quick_bite_order_service.Order.Repository.{find_items_by_order_ids, find_order_by_public_id}
use quick_bite_order_service.Order.Responses.{build_history, detail_response}
use quick_bite_order_service.Tests.Sample.{sample_db, sample_order, sample_world}
use quick_bite_order_service.World.Monad.{call}
use quick_bite_order_service.World.Reads.{Reads}
use quick_bite_order_service.World.State.{World}

abbrev old_order : OrderEntity
old_order = sample_order OrderStatus.delivered cod

-- The only order stands in the archive.
abbrev world : World
world = record (sample_world [] []) { archive = sample_db (old_order ∷ []) }

abbrev actor_of : Role → ActorContext
actor_of role = record {
  user_id = 7;
  role = role;
  restaurant_id = none;
  restaurant_role = none;
  branch_ids = none;
}

abbrev columns : Columns OrderEntity
columns = record {
  value = λ field o. o.created_at;
  id = λ o. o.id;
  value_text = λ n. "100";
  id_text = λ n. "1";
  read_value = λ s. 100;
  read_id = λ s. 1;
}

-- Years of 500 instants.
abbrev calendar : Calendar
calendar = record { year_of = λ t. t / 500; year_start = λ y. y * 500 }

abbrev page : PaginationParams
page = record { cursor = none; limit = 20; sort_by_field = "createdAt"; sort_order = desc }

abbrev IsEgyptian : OrderEntity → Type 0
IsEgyptian o = o.region ≡ "eg"

abbrev whole_branch : ListRestaurantOrdersFilter
whole_branch = record { restaurant_id = 3; branch_id = 4; status = none; from = some 50; to = none }

-- The administrator sees the archived order, the customer who made it does not.
sees : (get_order (actor_of Role.system_admin) "o1" world).0 ≡ ok (detail_response old_order [])
unfolding get_order call find_order_by_public_id can_read_archive assert_read_access
    find_items_by_order_ids build_history sort_by
sees = refl

misses : (get_order (actor_of (Role.other_role "customer")) "o1" world).0 ≡ err order_not_found
unfolding get_order call find_order_by_public_id can_read_archive
misses = refl

get_order-Granted_example :
    Reads
      (Granted (actor_of Role.system_admin) "o1" world)
      world
      (get_order (actor_of Role.system_admin) "o1" world)
get_order-Granted_example = get_order-Granted (actor_of Role.system_admin) "o1" world

list_customer_orders-Own_example :
    Reads
      (Shows
        (IsOwnPage columns calendar
          (actor_of (Role.other_role "customer"))
          0
          page
          IsEgyptian
          world.archive)
        (item_count world.archive))
      world
      (list_customer_orders columns calendar (actor_of (Role.other_role "customer")) 0 page world)
list_customer_orders-Own_example =
    list_customer_orders-Own columns calendar (actor_of (Role.other_role "customer")) 0 page world
      IsEgyptian (refl, tt)

list_restaurant_orders-Branch_example :
    Reads
      (ShowsBranch whole_branch IsEgyptian)
      world
      (list_restaurant_orders columns calendar whole_branch (λ o. true) page world)
list_restaurant_orders-Branch_example =
    list_restaurant_orders-Branch columns calendar whole_branch (λ o. true) page IsEgyptian world tt
      (refl, tt)
