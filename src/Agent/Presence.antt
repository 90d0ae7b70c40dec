-- ===== src/Agent/Presence.antt =====
-- Who is online, and who is busy: `src/app/agent/service/presence.service.ts`. The keys of one region.
pub mod Offline
use quick_bite_order_service.Agent.Settlement.{clear_busy}
use quick_bite_order_service.Common.{
  Option, contains, erase, find, if◌then◌else◌, insert, nat_eq, none, some, string_eq, ℕ, ℤ, ◌∷◌,
}
use quick_bite_order_service.Errors.{Result, err, offline_while_picked, ok}
use quick_bite_order_service.Order.Model.{OrderEntity, actor_eq, picked, status_eq}
use quick_bite_order_service.Order.Repository.{is_held_by, release_assigned_order_to_ready}
use quick_bite_order_service.World.Cache.{hset_with_ttl}
use quick_bite_order_service.World.Monad.{M, command, lift, query, statement, ◌>>=◌, ◌>>◌}
use quick_bite_order_service.World.State.{AgentMeta, Db}

abbrev pub agent_meta : ℕ → ℤ → ℤ → AgentMeta
agent_meta now lat lng = record { lat = lat; lng = lng; last_seen_at = now }

-- `upsert`: two commands; `ttl` is `env.delivery.presenceStaleSec`.
unfoldable pub upsert : ℕ → ℕ → ℤ → ℤ → M (Unit {0})
upsert ttl agent_id lat lng = do
  command (λ now r. (
    tt,
    record r { presence = hset_with_ttl now agent_id (agent_meta now lat lng) ttl r.presence },
  ))
  command (λ now r. (tt, record r { geo = insert agent_id (lng, lat) r.geo }))

-- The first order that the agent carries.
abbrev pub picked_order_of : ℕ → ℕ → Db → Option OrderEntity
picked_order_of agent_id now d = find (is_held_by agent_id picked) d.orders.rows

-- `if (stuck) throw OfflineWhilePickedForbidden;`
abbrev pub not_stuck : Option OrderEntity → Result (Unit {0})
not_stuck none = ok tt
not_stuck (some o) = err offline_while_picked

-- The three commands at the end of `goOffline`.
abbrev pub forget_agent : ℕ → M (Unit {0})
forget_agent agent_id = do
  command (λ now r. (tt, record r { presence = erase agent_id r.presence }))
  command (λ now r. (tt, record r { geo = erase agent_id r.geo }))
  clear_busy agent_id

-- `goOffline`
unfoldable pub go_offline : ℕ → M (Unit {0})
go_offline agent_id = do
  stuck ← query (picked_order_of agent_id)
  lift (not_stuck stuck)
  statement (release_assigned_order_to_ready agent_id)
  forget_agent agent_id

-- `markBusy`
abbrev pub mark_busy : ℕ → M (Unit {0})
mark_busy agent_id = command (λ now r.
    (tt, record r { busy = if contains r.busy agent_id then r.busy else agent_id ∷ r.busy }))
