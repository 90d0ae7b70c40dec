-- ===== src/Assignment/Offers/Untouched.antt =====
-- Offering an order leaves the tables alone.
use quick_bite_order_service.Assignment.Config.{CacheServer, DeliveryConfig}
use quick_bite_order_service.Assignment.Offers.{
  attempts_made, broadcast, count_attempt, exhausted, find_candidates, no_candidates, offer_payload,
  offered, place_offer, search_and_offer, send_offer, skipped, try_assign,
}
use quick_bite_order_service.Assignment.Offers.Candidates.{find_candidates-Reads}
use quick_bite_order_service.Common.{
  Bool, List, Option, String, [], false, if◌then◌else◌, is_some, leb, nat_eq, refl, string_eq, true,
  ℕ, ◌*◌, ◌+◌, ◌∷◌,
}
use quick_bite_order_service.Core.Client.{CoreService, get_branch}
use quick_bite_order_service.Core.Client.Frame.{get_branch-Keeps}
use quick_bite_order_service.Core.Model.{CoreBranchMetadata}
use quick_bite_order_service.Order.Model.{OrderEntity, actor_eq, status_eq}
use quick_bite_order_service.World.Cache.{expire, incr, live, try_set}
use quick_bite_order_service.World.Frame.{Keeps, command-Keeps, or_null-Keeps, then-Keeps}
use quick_bite_order_service.World.Monad.{M, clock, command, emit, or_null, pure, ◌>>=◌, ◌>>◌}
use quick_bite_order_service.World.Reads.{Reads-Keeps}
use quick_bite_order_service.World.State.{
  OfferPayload, World, admin_alerts, agent_room, assignment_exhausted, task_offered,
}

if-Keeps :
    {A : Type 0} (b : Bool) (m k : M A)
    → ((w : World) → Keeps w (m w))
    → ((w : World) → Keeps w (k w))
    → (w : World) → Keeps w ((if b then m else k) w)
if-Keeps true m k h j = h
if-Keeps false m k h j = j

module _ (core : CoreService) (server : CacheServer) (config : DeliveryConfig) where
  count_attempt-Keeps : (id : String) (w : World) → Keeps w (count_attempt id w)
  count_attempt-Keeps id =
      then-Keeps (command (λ now r. (tt, record r { attempts = incr now id r.attempts })))
        (λ _. command (λ now r. (tt, record r { attempts = expire now id 3600 r.attempts })))
        (command-Keeps _) (λ _. command-Keeps _)

  broadcast-Keeps :
      (l : List ℕ) (payload : OfferPayload) (w : World) → Keeps w (broadcast l payload w)
  unfolding broadcast
  broadcast-Keeps [] payload w = (refl, refl)
  broadcast-Keeps (a ∷ rest) payload w =
      broadcast-Keeps rest payload
        (record w { sent = (agent_room a, task_offered payload) ∷ w.sent })

  send_offer-Keeps :
      (o : OrderEntity) (l : List ℕ) (w : World) → Keeps w (send_offer core config o l w)
  unfolding send_offer
  send_offer-Keeps o l =
      let payload_at = λ (b : Option CoreBranchMetadata) (now : ℕ).
        offer_payload o b (now + config.offer_ttl_sec * 1000) in
      let finish = λ (b : Option CoreBranchMetadata).
        clock >>= λ now. broadcast l (payload_at b now) >> pure offered in
      then-Keeps (count_attempt o.public_id) (λ _. or_null (get_branch core o.branch_id) >>= finish)
        (count_attempt-Keeps o.public_id)
        λ _.
          then-Keeps (or_null (get_branch core o.branch_id)) finish
            (λ v.
              or_null-Keeps v (get_branch core o.branch_id v) (get_branch-Keeps core o.branch_id v))
            λ b v.
              then-Keeps (broadcast l (payload_at b v.now)) (λ _. pure offered)
                (broadcast-Keeps l (payload_at b v.now)) (λ _ _. (refl, refl)) v

  place_offer-Keeps :
      (o : OrderEntity) (l : List ℕ) (w : World) → Keeps w (place_offer core config o l w)
  unfolding place_offer
  place_offer-Keeps o [] =
      then-Keeps (count_attempt o.public_id) (λ _. pure no_candidates)
        (count_attempt-Keeps o.public_id) (λ _ _. (refl, refl))
  place_offer-Keeps o (a ∷ rest) =
      then-Keeps
        (command (λ now r.
          let x = try_set now o.public_id (a ∷ rest) config.offer_ttl_sec r.offers in
          (x.0, record r { offers = x.1 })))
        (λ set_now. if set_now then send_offer core config o (a ∷ rest) else pure skipped)
        (command-Keeps _)
        λ b.
          if-Keeps b (send_offer core config o (a ∷ rest)) (pure skipped)
            (send_offer-Keeps o (a ∷ rest)) (λ _. (refl, refl))

  -- An attempt to offer an order changes no table.
  pub try_assign-Keeps : (o : OrderEntity) (w : World) → Keeps w (try_assign core server config o w)
  unfolding try_assign search_and_offer
  try_assign-Keeps o =
      let search =
        find_candidates server config o.branch_lng o.branch_lat >>= place_offer core config o in
      let attempt = λ (made : ℕ).
        if leb config.max_attempts made
        then emit admin_alerts (assignment_exhausted o.public_id made) >> pure exhausted
        else search in
      let count = command (λ now r. (attempts_made (live now o.public_id r.attempts), r)) in
      then-Keeps (command (λ now r. (is_some (live now o.public_id r.offers), r)))
        (λ b. if b then pure skipped else (count >>= attempt)) (command-Keeps _)
        λ b.
          if-Keeps b (pure skipped) (count >>= attempt) (λ _. (refl, refl))
            (then-Keeps count attempt (command-Keeps _) λ made.
              if-Keeps (leb config.max_attempts made)
                (emit admin_alerts (assignment_exhausted o.public_id made) >> pure exhausted) search
                (λ _. (refl, refl))
                (then-Keeps (find_candidates server config o.branch_lng o.branch_lat)
                  (place_offer core config o)
                  (λ v.
                    Reads-Keeps _ v (find_candidates server config o.branch_lng o.branch_lat v)
                      (find_candidates-Reads server config o.branch_lng o.branch_lat v))
                  (place_offer-Keeps o)))
