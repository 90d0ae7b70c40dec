-- ===== src/Order/Access.antt =====
-- Who may read an order and who may change it: the guards of `src/app/order/service/order.service.ts`.
use mathlib.Core.Option.{get_or}
use quick_bite_order_service.Common.{
  Bool, String, arith, contains, false, if◌then◌else◌, nat_eq, none, not, some, string_eq, true, ℕ,
  ◌&&◌, ◌==◌, ◌||◌, ◌≡◌, ◌≢◌, ◌⊎◌,
}
use quick_bite_order_service.Core.Client.{CoreService}
use quick_bite_order_service.Core.Permissions.{get_permissions, has_permission}
use quick_bite_order_service.Errors.{Result, err, ok, un_authorised}
use quick_bite_order_service.Order.Model.{
  ActorContext, OrderEntity, OrderStatus, Role, StatusActor, accepted, actor_eq, admin, agent,
  cancelled, customer, rejected, restaurant_member, status_eq,
}
use quick_bite_order_service.World.Monad.{M, lift, ◌>>=◌}

abbrev pub is_admin : Role → Bool
is_admin Role.system_admin = true
is_admin _ = false

abbrev pub is_restaurant_user : Role → Bool
is_restaurant_user Role.restaurant_user = true
is_restaurant_user _ = false

abbrev pub is_delivery_agent : Role → Bool
is_delivery_agent Role.delivery_agent = true
is_delivery_agent _ = false

-- `actor.restaurantRole === "owner"`
abbrev pub is_owner : ActorContext → Bool
is_owner actor = elim actor.restaurant_role [ none ↦ false | some r ↦ r == "owner" ]

-- `Number(actor.restaurantId) === Number(order.restaurantId)`; NaN equals nothing.
abbrev pub is_member_of : ActorContext → ℕ → Bool
is_member_of actor restaurant_id = elim actor.restaurant_id [
  | none ↦ false
  | some r ↦ r == restaurant_id
]

-- `(actor.branchIds ?? []).includes(Number(order.branchId))`
abbrev pub works_at : ActorContext → ℕ → Bool
works_at actor branch_id = elim actor.branch_ids [
  | none ↦ false
  | some ids ↦ contains ids branch_id
]

-- `Number(actor.userId) === Number(order.deliveryAgentId)`; `Number(null)` is 0.
abbrev pub is_agent_on : ActorContext → OrderEntity → Bool
is_agent_on actor o = actor.user_id == get_or o.delivery_agent_id 0

-- `canReadArchive`
unfoldable pub can_read_archive : ActorContext → Bool
can_read_archive actor = is_admin actor.role || is_restaurant_user actor.role && is_owner actor

-- `assertReadAccess`
unfoldable pub assert_read_access : ActorContext → OrderEntity → Result (Unit {0})
assert_read_access actor o =
    if is_admin actor.role
    then ok tt
    else if actor.user_id == o.customer_id
    then ok tt
    else if is_restaurant_user actor.role
    then if not (is_member_of actor o.restaurant_id)
      then err un_authorised
      else if is_owner actor
      then ok tt
      else if works_at actor o.branch_id
      then ok tt
      else err un_authorised
    else err un_authorised

-- `resolveStatusActor`
unfoldable pub resolve_status_actor : ActorContext → OrderEntity → Result StatusActor
resolve_status_actor actor o =
    if is_admin actor.role
    then ok admin
    else if is_delivery_agent actor.role && is_agent_on actor o
    then ok agent
    else if is_restaurant_user actor.role
    then if not (is_member_of actor o.restaurant_id)
      then err un_authorised
      else if not (is_owner actor) && not (works_at actor o.branch_id)
      then err un_authorised
      else ok restaurant_member
    else if actor.user_id == o.customer_id
    then ok customer
    else err un_authorised

-- `ORDER_STATUS_PERMISSION_ACTION[targetStatus] ?? "update"`
unfoldable pub permission_action : OrderStatus → String
permission_action accepted = "accept"
permission_action rejected = "reject"
permission_action cancelled = "cancel"
permission_action _ = "update"

-- `assertRestaurantMemberPermission`; a missing role is asked for as the text "undefined".
unfoldable pub assert_restaurant_member_permission :
    CoreService → ActorContext → OrderStatus → M (Unit {0})
assert_restaurant_member_permission core actor target = do
  permissions ← get_permissions core (get_or actor.restaurant_role "undefined")
  lift (
      if has_permission permissions "orders" (permission_action target)
      then ok tt
      else err un_authorised)

-- A member of staff acts on an order only within the restaurant, and without being its owner only
-- within the own branches.
pub resolve_status_actor-member :
    (actor : ActorContext) (o : OrderEntity)
    → resolve_status_actor actor o ≡ ok restaurant_member
    → (actor.restaurant_id ≡ some o.restaurant_id)
      × ((is_owner actor ≡ true) ⊎ (works_at actor o.branch_id ≡ true))
unfolding resolve_status_actor
resolve_status_actor-member actor o h = (ground arith, ground arith)

-- Whoever may act on an order may also read it, but for a delivery agent: the agent of an order acts on
-- it, and reads it only as its customer.
pub resolve_status_actor-read :
    (actor : ActorContext) (o : OrderEntity) (who : StatusActor)
    → resolve_status_actor actor o ≡ ok who
    → who ≢ agent
    → assert_read_access actor o ≡ ok tt
unfolding resolve_status_actor assert_read_access
resolve_status_actor-read actor o who h n = ground arith
