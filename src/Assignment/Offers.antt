-- ===== src/Assignment/Offers.antt =====
-- Offering ready orders to agents: `findCandidates`, `tryAssign` and `tickRegion` of
-- `src/app/assignment/service/assignment.service.ts`.
pub mod Candidates
pub mod Frame
pub mod Placed
pub mod Untouched
pub mod Tick
use quick_bite_order_service.Assignment.Config.{CacheServer, DeliveryConfig}
use quick_bite_order_service.Common.{
  Bool, List, Option, String, [], contains, false, if◌then◌else◌, is_some, leb, length, nat_eq,
  none, not, some, string_eq, true, ℕ, ℤ, ◌*◌, ◌++◌, ◌+◌, ◌∷◌,
}
use quick_bite_order_service.Core.Client.{CoreService, get_branch}
use quick_bite_order_service.Core.Model.{CoreBranchMetadata}
use quick_bite_order_service.Order.Model.{OrderEntity, actor_eq, status_eq}
use quick_bite_order_service.Order.Repository.{find_ready_unassigned}
use quick_bite_order_service.World.Cache.{expire, incr, live, try_set}
use quick_bite_order_service.World.Monad.{
  M, clock, command, emit, or_null, pure, query, ◌>>=◌, ◌>>◌,
}
use quick_bite_order_service.World.State.{
  OfferPayload, Redis, admin_alerts, agent_room, assignment_exhausted, task_offered,
}

-- `exists(presence:meta:<region>:<agent>)`
abbrev pub is_present : ℕ → ℕ → Redis → Bool
is_present agent_id now r = is_some (live now agent_id r.presence)

-- The loop of `findCandidates`; `result` is what it has collected.
unfoldable pub filter_candidates : ℕ → List ℕ → List ℕ → M (List ℕ)
filter_candidates limit [] result = pure result
filter_candidates limit (a ∷ rest) result = do
  there ← command (λ now r. (is_present a now r, r))
  if not there then filter_candidates limit rest result else do
    occupied ← command (λ now r. (contains r.busy a, r))
    if occupied
        then filter_candidates limit rest result
        else if leb limit (length (result ++ a ∷ []))
        then pure (result ++ a ∷ [])
        else filter_candidates limit rest (result ++ a ∷ [])

-- `findCandidates`
unfoldable pub find_candidates : CacheServer → DeliveryConfig → ℤ → ℤ → M (List ℕ)
find_candidates server config lng lat = do
  raw ←
      command
        (λ now r. (server.nearest r.geo lng lat config.radius_meters (config.candidates * 4), r))
  filter_candidates config.candidates raw []

pub data Outcome : Type 0 where
  offered skipped exhausted no_candidates : Outcome

-- `incr` and `expire` on the counter of attempts.
abbrev pub count_attempt : String → M (Unit {0})
count_attempt public_id = do
  command (λ now r. (tt, record r { attempts = incr now public_id r.attempts }))
  command (λ now r. (tt, record r { attempts = expire now public_id 3600 r.attempts }))

abbrev pub branch_name_of : Option CoreBranchMetadata → String
branch_name_of none = ""
branch_name_of (some b) = b.name

abbrev pub branch_text_of : Option CoreBranchMetadata → String
branch_text_of none = ""
branch_text_of (some b) = b.address_text

abbrev pub offer_payload : OrderEntity → Option CoreBranchMetadata → ℕ → OfferPayload
offer_payload o branch expires_at = record {
  order_id = o.public_id;
  branch_id = o.branch_id;
  branch_lat = o.branch_lat;
  branch_lng = o.branch_lng;
  branch_name = branch_name_of branch;
  branch_text = branch_text_of branch;
  dropoff_lat = o.delivery_lat;
  dropoff_lng = o.delivery_lng;
  dropoff_text = o.delivery_address_text_snapshot;
  total = o.total;
  currency = o.currency;
  payment_method = o.payment_method;
  expires_at = expires_at;
}

unfoldable pub broadcast : List ℕ → OfferPayload → M (Unit {0})
broadcast [] payload = pure tt
broadcast (a ∷ rest) payload = emit (agent_room a) (task_offered payload) >> broadcast rest payload

-- The end of `tryAssign`, once the offer is set.
unfoldable pub send_offer : CoreService → DeliveryConfig → OrderEntity → List ℕ → M Outcome
send_offer core config o candidates = do
  count_attempt o.public_id
  branch ← or_null (get_branch core o.branch_id)
  now ← clock
  broadcast candidates (offer_payload o branch (now + config.offer_ttl_sec * 1000))
  pure offered

-- `trySet` on the offer, which another worker may have set first.
unfoldable pub place_offer : CoreService → DeliveryConfig → OrderEntity → List ℕ → M Outcome
place_offer core config o [] = count_attempt o.public_id >> pure no_candidates
place_offer core config o (a ∷ rest) = do
  set_now ← command (λ now r.
      let (set_now, offers) = try_set now o.public_id (a ∷ rest) config.offer_ttl_sec r.offers in
      (set_now, record r { offers = offers }))
  if set_now then send_offer core config o (a ∷ rest) else pure skipped

-- `Number(attemptsRaw ?? 0)`
abbrev pub attempts_made : Option ℕ → ℕ
attempts_made none = 0
attempts_made (some n) = n

unfoldable pub search_and_offer :
    CoreService → CacheServer → DeliveryConfig → OrderEntity → M Outcome
search_and_offer core server config o = do
  candidates ← find_candidates server config o.branch_lng o.branch_lat
  place_offer core config o candidates

-- `tryAssign`
unfoldable pub try_assign : CoreService → CacheServer → DeliveryConfig → OrderEntity → M Outcome
try_assign core server config o = do
  broadcasting ← command (λ now r. (is_some (live now o.public_id r.offers), r))
  if broadcasting then pure skipped else do
    made ← command (λ now r. (attempts_made (live now o.public_id r.attempts), r))
    if leb config.max_attempts made
        then emit admin_alerts (assignment_exhausted o.public_id made) >> pure exhausted
        else search_and_offer core server config o

pub record TickResult : Type 0 where
  pub processed : ℕ
  pub offered_count : ℕ
  pub skipped_count : ℕ

abbrev pub is_offered : Option Outcome → Bool
is_offered (some offered) = true
is_offered _ = false

-- The loop of `tickRegion`: an order whose offer fails counts as skipped.
unfoldable pub offer_all :
    CoreService → CacheServer → DeliveryConfig → List OrderEntity → ℕ → ℕ → M (ℕ × ℕ)
offer_all core server config [] made missed = pure (made, missed)
offer_all core server config (o ∷ os) made missed = do
  result ← or_null (try_assign core server config o)
  if is_offered result
      then offer_all core server config os (made + 1) missed
      else offer_all core server config os made (missed + 1)

-- `tickRegion`
unfoldable pub tick_region : CoreService → CacheServer → DeliveryConfig → M TickResult
tick_region core server config = do
  orders ← query (find_ready_unassigned config.batch)
  counts ← offer_all core server config orders 0 0
  pure (record { processed = length orders; offered_count = counts.0; skipped_count = counts.1 })
