-- ===== src/Order/Status.antt =====
-- The status machine of an order: `src/app/order/service/order-status.service.ts`. `ctx` holds the
-- instants that the caller passes, and `now` is `Date.now()`.
pub mod Lifecycle
pub mod Customer
use Prim.Native.Char.{Char, code}
use quick_bite_order_service.Common.{
  ℕ, ◌+◌, String, Bool, true, false, not, ◌&&◌, ◌||◌, List, [], ◌∷◌, Option, none, some, ltb, leb,
  ◌==◌, nat_eq, is_some, contains, if◌then◌else◌,
}
use quick_bite_order_service.Errors.{
  AppError, Result, ok, err, invalid_status_transition, reason_required,
  cancellation_window_expired,
}
use quick_bite_order_service.Order.Model.{
  OrderStatus, pending_payment, placed, accepted, rejected, preparing, ready, assigned, picked,
  delivered, cancelled, StatusActor, customer, restaurant_member, agent, system, admin, status_eq,
  actor_eq,
}

-- The columns that a transition may stamp.
pub data StampColumn : Type 0 where
  accepted_at rejected_at ready_at assigned_at picked_at delivered_at cancelled_at : StampColumn

pub record TransitionRule : Type 0 where
  pub actors : List StatusActor
  pub stamp : Option StampColumn
  pub requires_reason : Bool

abbrev rule : List StatusActor → Option StampColumn → Bool → Option TransitionRule
rule actors stamp requires_reason =
    some (record { actors = actors; stamp = stamp; requires_reason = requires_reason })

abbrev staff_or_admin : List StatusActor
staff_or_admin = restaurant_member ∷ admin ∷ []

-- `TRANSITIONS[from]?.[to]`
unfoldable pub transitions : OrderStatus → OrderStatus → Option TransitionRule
transitions pending_payment placed = rule (system ∷ []) none false
transitions pending_payment cancelled = rule (customer ∷ system ∷ []) (some cancelled_at) false
transitions placed accepted = rule (restaurant_member ∷ []) (some accepted_at) false
transitions placed rejected = rule (restaurant_member ∷ []) (some rejected_at) true
transitions placed cancelled =
    rule (customer ∷ restaurant_member ∷ system ∷ admin ∷ []) (some cancelled_at) true
transitions accepted preparing = rule (restaurant_member ∷ []) none false
transitions accepted cancelled = rule staff_or_admin (some cancelled_at) true
transitions preparing ready = rule (restaurant_member ∷ []) (some ready_at) false
transitions preparing cancelled = rule staff_or_admin (some cancelled_at) true
transitions ready assigned = rule (system ∷ []) (some assigned_at) false
transitions ready cancelled = rule staff_or_admin (some cancelled_at) true
transitions assigned picked = rule (agent ∷ []) (some picked_at) false
transitions assigned cancelled = rule (admin ∷ []) (some cancelled_at) true
transitions picked delivered = rule (agent ∷ []) (some delivered_at) false
transitions _ _ = none

abbrev pub customer_cancel_window_ms : ℕ
customer_cancel_window_ms = 60000

-- The white space and line terminators that `String.prototype.trim` removes.
abbrev pub is_space : ℕ → Bool
is_space c =
    leb 9 c && leb c 13
    || c == 32
    || c == 160
    || c == 0x1680
    || leb 0x2000 c && leb c 0x200a
    || c == 0x2028
    || c == 0x2029
    || c == 0x202f
    || c == 0x205f
    || c == 0x3000
    || c == 0xfeff

-- `s.trim().length === 0`
unfoldable pub is_blank : String → Bool
is_blank String.[] = true
is_blank (String.◌∷◌ c s) = let rest = is_blank s in is_space (code c) && rest

-- `!ctx.reason || ctx.reason.trim().length === 0`
unfoldable pub lacks_reason : Option String → Bool
lacks_reason none = true
lacks_reason (some s) = is_blank s

pub record AssertTransitionContext : Type 0 where
  pub actor : StatusActor
  pub reason : Option String
  pub placed_at : Option ℕ
  pub accepted_at : Option ℕ

-- `placedAt && Date.now() - placedAt.getTime() > CUSTOMER_CANCEL_WINDOW_MS`
unfoldable pub window_passed : Option ℕ → ℕ → Bool
window_passed none now = false
window_passed (some t) now = ltb (t + customer_cancel_window_ms) now

-- The guards below the table look-up, on the rule that it found.
check_rule :
    TransitionRule
    → OrderStatus
    → OrderStatus
    → AssertTransitionContext
    → ℕ
    → Result (Option StampColumn)
check_rule allowed from to ctx now =
    if not (contains allowed.actors ctx.actor)
    then err (invalid_status_transition from to)
    else if allowed.requires_reason && lacks_reason ctx.reason
    then err reason_required
    else if ctx.actor == customer && to == cancelled && from == placed
    then if is_some ctx.accepted_at
      then err cancellation_window_expired
      else if window_passed ctx.placed_at now
      then err cancellation_window_expired
      else ok allowed.stamp
    else ok allowed.stamp

-- `assertTransition`
unfoldable pub assert_transition :
    OrderStatus → OrderStatus → AssertTransitionContext → ℕ → Result (Option StampColumn)
unfolding transitions check_rule
assert_transition from to ctx now = elim (transitions from to) [
  | none ↦ err (invalid_status_transition from to)
  | some allowed ↦ check_rule allowed from to ctx now
]
