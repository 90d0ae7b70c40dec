-- ===== src/Order/Status/Lifecycle.antt =====
-- The shape of the status machine: what follows from it for the life of one order.
use quick_bite_order_service.Order.Status.{
  StampColumn, accepted_at, rejected_at, ready_at, assigned_at, picked_at, delivered_at,
  cancelled_at, AssertTransitionContext, assert_transition,
}
use quick_bite_order_service.Common.{
  Bool, Option, arith, false, none, some, suc, true, ℕ, ◌+◌, ◌<◌, ◌≡◌, ◌≤◌, ◌⊎◌,
}
use quick_bite_order_service.Errors.{err, invalid_status_transition, ok}
use quick_bite_order_service.Order.Model.{
  OrderStatus, accepted, agent, assigned, cancelled, delivered, pending_payment, picked, placed,
  preparing, ready, rejected,
}
use quick_bite_order_service.Order.Status.{
  AssertTransitionContext, StampColumn, accepted_at, assert_transition, assigned_at, cancelled_at,
  delivered_at, picked_at, ready_at, rejected_at,
}

-- How far a status is along the way of an order.
abbrev pub rank : OrderStatus → ℕ
rank pending_payment = 0
rank placed = 1
rank accepted = 2
rank preparing = 3
rank ready = 4
rank assigned = 5
rank picked = 6
rank delivered = 7
rank rejected = 7
rank cancelled = 7

-- The order was given up.
abbrev pub is_aborted : OrderStatus → Bool
is_aborted rejected = true
is_aborted cancelled = true
is_aborted _ = false

-- The column that records when an order entered a status.
abbrev pub stamp_of : OrderStatus → Option StampColumn
stamp_of accepted = some accepted_at
stamp_of rejected = some rejected_at
stamp_of ready = some ready_at
stamp_of assigned = some assigned_at
stamp_of picked = some picked_at
stamp_of delivered = some delivered_at
stamp_of cancelled = some cancelled_at
stamp_of _ = none

-- One accepted transition after another, `n` of them, each by whatever actor and at whatever time.
pub data Run (s : OrderStatus) : OrderStatus → ℕ → Type 0 where
  here : Run s s 0
  next :
      {t u : OrderStatus} {n : ℕ} (ctx : AssertTransitionContext) (now : ℕ)
      (col : Option StampColumn)
      → Run s t n
      → assert_transition t u ctx now ≡ ok col
      → Run s u (suc n)

-- An accepted transition climbs one rank, or gives the order up.
assert_transition-rank :
    (s t : OrderStatus) (ctx : AssertTransitionContext) (now : ℕ) (col : Option StampColumn)
    → assert_transition s t ctx now ≡ ok col
    → (rank s < rank t) × (is_aborted s ≡ false) × (is_aborted t ≡ false → rank t ≡ rank s + 1)
unfolding assert_transition
assert_transition-rank s t ctx now col h = (ground arith, ground arith, ground arith)

-- A chain of accepted transitions is at most as long as the ranks between its ends, so it has at
-- most seven steps and never comes back to a status.
pub Run-bound : {s t : OrderStatus} {n : ℕ} → Run s t n → (rank s + n ≤ rank t) × (n ≤ 7)
Run-bound here = (omega arith, omega arith)
Run-bound (next {t} {u} ctx now col r h) =
    let shorter = Run-bound r in
    let step = assert_transition-rank t u ctx now col h in
    let top : rank u ≤ 7 = rank-le u in (omega arith, omega arith)
  where
    rank-le : (s : OrderStatus) → rank s ≤ 7
    rank-le s = ground arith

-- No stage is skipped: a chain of accepted transitions that ends in a status other than rejected and
-- cancelled has exactly as many steps as there are ranks between its ends.
pub Run-exact : {s t : OrderStatus} {n : ℕ} → Run s t n → is_aborted t ≡ false → rank s + n ≡ rank t
Run-exact here a = omega arith
Run-exact (next {t} {u} ctx now col r h) a =
    let (_, live, one) = assert_transition-rank t u ctx now col h in
    omega (arith, Run-exact r live, one a)

-- An accepted transition stamps the column of the status that it enters, and no other.
pub assert_transition-stamp :
    (s t : OrderStatus) (ctx : AssertTransitionContext) (now : ℕ) (col : Option StampColumn)
    → assert_transition s t ctx now ≡ ok col
    → col ≡ stamp_of t
unfolding assert_transition
assert_transition-stamp s t ctx now col h = ground arith

-- A delivered, rejected or cancelled order is final: whoever asks for whatever status is refused with
-- InvalidStatusTransition.
pub assert_transition_final :
    (s t : OrderStatus) (ctx : AssertTransitionContext) (now : ℕ)
    → (s ≡ delivered) ⊎ (is_aborted s ≡ true)
    → assert_transition s t ctx now ≡ err (invalid_status_transition s t)
unfolding assert_transition
assert_transition_final s t ctx now h = ground arith

-- Food in transit can only be delivered, and only by an agent: a picked order leaves its status for
-- delivered alone, with an agent as the actor.
pub assert_transition_picked :
    (t : OrderStatus) (ctx : AssertTransitionContext) (now : ℕ) (col : Option StampColumn)
    → assert_transition picked t ctx now ≡ ok col
    → (t ≡ delivered) × (ctx.actor ≡ agent)
unfolding assert_transition
assert_transition_picked t ctx now col h = (ground arith, ground arith)
