-- ===== src/Order/Status/Customer.antt =====
-- What each class of actor can do to an order.
use quick_bite_order_service.Order.Status.{
  StampColumn, cancelled_at, AssertTransitionContext, assert_transition, lacks_reason,
  customer_cancel_window_ms, window_passed,
}
use quick_bite_order_service.Common.{Option, arith, false, none, refl, some, ℕ, ◌+◌, ◌≡◌, ◌≤◌}
use quick_bite_order_service.Errors.{ok}
use quick_bite_order_service.Order.Model.{OrderStatus, cancelled, customer, pending_payment, placed}
use quick_bite_order_service.Order.Status.{
  AssertTransitionContext, StampColumn, assert_transition, cancelled_at, customer_cancel_window_ms,
  lacks_reason, window_passed,
}

-- A customer may only cancel: an order that waits for its payment at any time, and a placed one with
-- a reason, before the restaurant has accepted it, at most 60 seconds after it was placed.
abbrev pub CustomerMay : OrderStatus → OrderStatus → AssertTransitionContext → ℕ → Type 0
CustomerMay pending_payment t ctx now = t ≡ cancelled
CustomerMay placed t ctx now =
    (t ≡ cancelled)
    × (lacks_reason ctx.reason ≡ false)
    × (ctx.accepted_at ≡ none)
    × ((at : ℕ) → ctx.placed_at ≡ some at → now ≤ at + customer_cancel_window_ms)
CustomerMay _ t ctx now = ⊥

placed_window :
    (o : Option ℕ) (now : ℕ)
    → window_passed o now ≡ false
    → (at : ℕ) → o ≡ some at
    → now ≤ at + customer_cancel_window_ms
unfolding window_passed
placed_window o now h at e = ground arith

window_open :
    (o : Option ℕ) (now : ℕ)
    → ((at : ℕ) → o ≡ some at → now ≤ at + customer_cancel_window_ms)
    → window_passed o now ≡ false
unfolding window_passed
window_open none now h = refl
window_open (some t) now h = ground (arith, h t refl)

only_if :
    (s t : OrderStatus) (ctx : AssertTransitionContext) (now : ℕ) (col : Option StampColumn)
    → ctx.actor ≡ customer
    → assert_transition s t ctx now ≡ ok col
    → CustomerMay s t ctx now
unfolding assert_transition
only_if pending_payment t ctx now col who h = ground arith
only_if placed t ctx now col who h =
    (ground arith, ground arith, ground arith, placed_window ctx.placed_at now (ground arith))
only_if s t ctx now col who h = ground arith

if_may :
    (s t : OrderStatus) (ctx : AssertTransitionContext) (now : ℕ)
    → ctx.actor ≡ customer
    → CustomerMay s t ctx now
    → assert_transition s t ctx now ≡ ok (some cancelled_at)
unfolding assert_transition
if_may pending_payment t ctx now who m = ground arith
if_may placed t ctx now who (to, reason, fresh, open_window) =
    ground (arith, window_open ctx.placed_at now open_window)
if_may s t ctx now who m = absurd m

-- For a customer the accepted transitions are exactly these: cancelling an unpaid order, at any time and
-- without a reason too, or cancelling a placed order with a reason, before it was accepted and within 60
-- seconds. Each stamps `cancelled_at`.
pub assert_transition-customer_iff :
    (s t : OrderStatus) (ctx : AssertTransitionContext) (now : ℕ)
    → ctx.actor ≡ customer
    → (((col : Option StampColumn) × (assert_transition s t ctx now ≡ ok col))
        → CustomerMay s t ctx now)
      × (CustomerMay s t ctx now → assert_transition s t ctx now ≡ ok (some cancelled_at))
assert_transition-customer_iff s t ctx now who =
    (λ (col, h). only_if s t ctx now col who h, if_may s t ctx now who)
