-- ===== src/Assignment/Claims/Rejected.antt =====
-- Refusing an offer.
use quick_bite_order_service.Assignment.Config.{CacheServer}
use quick_bite_order_service.Common.{
  List, Option, String, [], false, nat_eq, none, some, string_eq, ℕ, ◌==◌, ◌∷◌, ◌≡◌,
}
use quick_bite_order_service.Order.Model.{actor_eq, status_eq}
use quick_bite_order_service.World.Cache.{live}
use quick_bite_order_service.World.State.{World}

-- An offer without agents is deleted.
abbrev pub offer_of : List ℕ → Option (List ℕ)
offer_of [] = none
offer_of (a ∷ rest) = some (a ∷ rest)

module _ (server : CacheServer) (public_id : String) (agent_id : ℕ) where
  -- Of the offers, that of the order names the remaining agents, and no other one changed.
  abbrev pub Left : List ℕ → World → World → Type 0
  Left remaining w v =
      (live w.now public_id v.redis.offers ≡ offer_of remaining)
      × ((other : String)
          → (public_id == other) ≡ false
          → live w.now other v.redis.offers ≡ live w.now other w.redis.offers)
      × (v.db ≡ w.db)
      × (v.sent ≡ w.sent)
      × (v.redis.claims ≡ w.redis.claims)
