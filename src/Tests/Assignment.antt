-- ===== src/Tests/Assignment.antt =====
-- Offers and claims at concrete inputs.
use quick_bite_order_service.Agent.Presence.{go_offline}
use quick_bite_order_service.Agent.Presence.Offline.{
  IsForgotten, Released, go_offline-Ensures, go_offline-Tables,
}
use quick_bite_order_service.Assignment.Claims.{admin_assign, claim}
use quick_bite_order_service.Assignment.Claims.Lawful.{Listed, Locked}
use quick_bite_order_service.Assignment.Claims.Locked.{go_offline_locked}
use quick_bite_order_service.Assignment.Claims.Once.{claim_once}
use quick_bite_order_service.Assignment.Claims.Progress.{claim-Returns}
use quick_bite_order_service.Assignment.Config.{CacheServer, DeliveryConfig}
use quick_bite_order_service.Assignment.Offers.{
  broadcast, filter_candidates, find_candidates, offered, place_offer, search_and_offer, send_offer,
  tick_region, try_assign,
}
use quick_bite_order_service.Assignment.Offers.Placed.{Reports, try_assign-Reports}
use quick_bite_order_service.Assignment.Offers.Tick.{Passed, tick_region-Passed}
use quick_bite_order_service.Common.{
  [], false, find, inl, map, nat_eq, none, pos, refl, some, string_eq, take, ◌/◌, ◌∷◌, ◌≡◌, ◌⊎◌,
}
use quick_bite_order_service.Core.Client.{get_branch}
use quick_bite_order_service.Errors.{ok}
use quick_bite_order_service.Order.Model.{OrderEntity, actor_eq, assigned, cod, ready, status_eq}
use quick_bite_order_service.Order.Repository.{
  claimable, has_public_id, release_assigned_order_to_ready,
}
use quick_bite_order_service.Tests.Sample.{sample_core, sample_order, sample_redis, sample_world}
use quick_bite_order_service.World.Cache.{live}
use quick_bite_order_service.World.Frame.{Refused, Tables}
use quick_bite_order_service.World.Monad.{call}
use quick_bite_order_service.World.Progress.{Returns, result_of_Returns}
use quick_bite_order_service.World.Rules.{Ensures}
use quick_bite_order_service.World.State.{AgentMeta, DeliveryTaskResponse, Redis, World}

abbrev free_order : OrderEntity
free_order = record (sample_order ready cod) { delivery_agent_id = none }

-- The defaults of `env.ts`.
abbrev config : DeliveryConfig
config = record {
  presence_stale_sec = 300;
  radius_meters = 5000;
  candidates = 5;
  offer_ttl_sec = 30;
  claim_ttl_sec = 300;
  max_attempts = 3;
  batch = 20;
}

-- A server that finds everybody on the map and rounds down.
abbrev server : CacheServer
server = record {
  nearest = λ points lng lat radius count. take count (map (λ p. p.0) points);
  whole_seconds = λ ms. ms / 1000;
}

abbrev online_agent : AgentMeta
online_agent = record { lat = pos 0; lng = pos 0; last_seen_at = 900 }

abbrev redis : Redis
redis = record sample_redis {
  offers = ("o1", record { value = 5 ∷ 6 ∷ []; expires_at = some 31000 }) ∷ [];
  presence = (5, record { value = online_agent; expires_at = some 300900 }) ∷ [];
  geo = (5, (pos 0, pos 0)) ∷ (6, (pos 0, pos 0)) ∷ [];
}

abbrev world : World
world = record (sample_world (free_order ∷ []) []) { redis = redis }

offered_to : Listed "o1" 5 world (5 ∷ 6 ∷ [])
offered_to = (refl, refl)

found_free : find (claimable "o1") world.db.orders.rows ≡ some free_order
found_free = refl

claim-Returns_example :
    Returns
      (λ t _. (t.order_id ≡ free_order.public_id) × (t.status ≡ assigned))
      (claim sample_core config "o1" 5 world)
claim-Returns_example =
    claim-Returns sample_core config "o1" 5 world (5 ∷ 6 ∷ []) refl offered_to refl found_free

claimed_run :
    (t : DeliveryTaskResponse) × (v : World) × (claim sample_core config "o1" 5 world ≡ (ok t, v))
claimed_run =
    result_of_Returns (λ t _. (t.order_id ≡ free_order.public_id) × (t.status ≡ assigned))
      (claim sample_core config "o1" 5 world) claim-Returns_example

-- Another agent tries a minute later, with the offer and no lock in the cache.
abbrev later_world : World
later_world = record claimed_run.1 { redis = redis; now = 61000; faults = false ∷ [] }

claim_once_example :
    Refused claimed_run.1.db (claim sample_core config "o1" 6 later_world)
    × Refused claimed_run.1.db (admin_assign sample_core config "o1" 6 later_world)
claim_once_example =
    claim_once sample_core config "o1" 5 world {t = claimed_run.0} {v = claimed_run.1} later_world
      sample_core config 6 (inl claimed_run.2) refl

-- Without the offer.
abbrev quiet_world : World
quiet_world = record world { redis = record redis { offers = [] } }

try_assign-Reports_example :
    Ensures
      (Reports sample_core server config free_order quiet_world)
      (try_assign sample_core server config free_order quiet_world)
try_assign-Reports_example = try_assign-Reports sample_core server config free_order quiet_world

-- In the run above the offer goes out to the one agent who is online.
offer_goes_out :
    (v : World) × (try_assign sample_core server config free_order quiet_world ≡ (ok offered, v))
    × (live 1000 "o1" v.redis.offers ≡ some (5 ∷ []))
unfolding try_assign search_and_offer find_candidates filter_candidates place_offer send_offer
    broadcast get_branch call
offer_goes_out = (_, refl, refl)

tick_region-Passed_example :
    Passed sample_core server config quiet_world (tick_region sample_core server config quiet_world)
tick_region-Passed_example = tick_region-Passed sample_core server config quiet_world

abbrev holding_world : World
holding_world = record (sample_world (sample_order assigned cod ∷ []) []) {
  redis = record redis { claims = ("o1", record { value = 5; expires_at = some 300000 }) ∷ [] };
}

go_offline-Ensures_example :
    Ensures
      (λ _ v. Released 5 1000 holding_world.db v.db × IsForgotten 5 holding_world.redis v.redis)
      (go_offline 5 holding_world)
go_offline-Ensures_example = go_offline-Ensures 5 holding_world

go_offline-Tables_example :
    Tables
      (λ d. (d ≡ holding_world.db) ⊎ Released 5 1000 holding_world.db d)
      (go_offline 5 holding_world)
go_offline-Tables_example = go_offline-Tables 5 holding_world

gone_run : (v : World) × (go_offline 5 holding_world ≡ (ok tt, v))
unfolding go_offline release_assigned_order_to_ready call
gone_run = (_, refl)

-- The other agent tries at instant 31000, 31 seconds after.
go_offline_locked_example :
    ((freed : OrderEntity) × (find (has_public_id "o1") gone_run.0.db.orders.rows ≡ some freed)
      × (freed.status ≡ ready)
      × (freed.delivery_agent_id ≡ none))
    × Refused gone_run.0.db (claim sample_core config "o1" 6 (record gone_run.0 { now = 31000 }))
    × Refused gone_run.0.db
        (admin_assign sample_core config "o1" 6 (record gone_run.0 { now = 31000 }))
go_offline_locked_example =
    go_offline_locked sample_core config "o1" 5 6 holding_world gone_run.0
      (record gone_run.0 { now = 31000 }) (sample_order assigned cod) refl refl refl gone_run.1 refl
      refl refl
