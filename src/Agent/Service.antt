-- ===== src/Agent/Service.antt =====
-- `AgentService.transition`: `src/app/agent/service/agent.service.ts`.
pub mod Lawful
use quick_bite_order_service.Agent.Settlement.{announce_status, settle_delivered}
use quick_bite_order_service.Common.{String, if◌then◌else◌, nat_eq, not, some, string_eq, ℕ, ◌==◌}
use quick_bite_order_service.Core.Client.{CoreService, get_branch}
use quick_bite_order_service.Errors.{
  Result, err, invalid_agent_transition, not_your_task, ok, or_throw, order_not_found,
  order_not_in_assigned_state,
}
use quick_bite_order_service.Order.Model.{
  OrderEntity, OrderStatus, actor_eq, assigned, delivered, picked, status_eq,
}
use quick_bite_order_service.Order.Repository.{
  find_order_by_public_id, is_agent_of, update_order_status,
}
use quick_bite_order_service.Order.Status.{picked_at}
use quick_bite_order_service.World.Monad.{
  M, checked, lift, or_null, pure, query, throw, transaction, ◌>>=◌, ◌>>◌,
}
use quick_bite_order_service.World.State.{DeliveryTaskResponse, task_response}

-- The checks before an order is picked up.
unfoldable pub check_pickable : OrderEntity → ℕ → Result (Unit {0})
check_pickable o agent_id =
    if not (is_agent_of agent_id o)
    then err not_your_task
    else if not (o.status == assigned)
    then err order_not_in_assigned_state
    else ok tt

abbrev pub task_of : CoreService → OrderEntity → M DeliveryTaskResponse
task_of core o = do branch ← or_null (get_branch core o.branch_id); pure (task_response o branch)

-- The second half of a pick-up, on the row that was read.
unfoldable pub pick_order : CoreService → String → OrderEntity → M DeliveryTaskResponse
pick_order core public_id o = do
  updated ← transaction (checked (update_order_status public_id picked (some picked_at)))
  announce_status updated
  task_of core updated

-- `target === PICKED`
unfoldable pub pick_up : CoreService → String → ℕ → M DeliveryTaskResponse
pick_up core public_id agent_id = do
  found ← query (find_order_by_public_id public_id)
  o ← lift (or_throw found order_not_found)
  lift (check_pickable o agent_id)
  pick_order core public_id o

-- `transition`
unfoldable pub transition :
    CoreService → ℕ → String → ℕ → String → OrderStatus → M DeliveryTaskResponse
transition core earning_share_bps public_id agent_id region target =
    if target == delivered
    then settle_delivered core earning_share_bps public_id agent_id region >>= task_of core
    else if not (target == picked)
    then throw invalid_agent_transition
    else pick_up core public_id agent_id
