-- ===== src/Assignment/Offers/Frame.antt =====
-- What reading a branch leaves alone, and the messages of an offer.
use quick_bite_order_service.Common.{
  Bool, Dict, List, Option, [], false, insert, nat_eq, none, refl, some, string_eq, true, ℕ, ◌+◌,
  ◌∙◌, ◌∷◌, ◌≡◌,
}
use quick_bite_order_service.Core.Client.{
  CoreService, branch_cache_ttl_ms, cached_or_fetched, fetch_branch, get_branch, store_branch,
}
use quick_bite_order_service.Core.Model.{CoreBranchMetadata}
use quick_bite_order_service.Errors.{Result, err, ok}
use quick_bite_order_service.Order.Model.{actor_eq, status_eq}
use quick_bite_order_service.World.Cache.{live}
use quick_bite_order_service.World.Monad.{
  M, bind_result, call, call_on, command, ignore_errors, ignore_result, optional_result, pure,
}
use quick_bite_order_service.World.Reads.{at_faults}
use quick_bite_order_service.World.State.{
  Entry, Message, OfferPayload, Room, World, agent_room, task_offered,
}

-- The messages of a broadcast, the latest first.
abbrev pub with_offers : List ℕ → OfferPayload → List (Room × Message) → List (Room × Message)
with_offers [] payload sent = sent
with_offers (a ∷ rest) payload sent =
    with_offers rest payload ((agent_room a, task_offered payload) ∷ sent)

-- Reading a branch moves neither the tables nor messages, offers, locks, and who is online and busy.
pub record Aside (w v : World) : Type 0 where
  pub same_db : v.db ≡ w.db
  pub same_now : v.now ≡ w.now
  pub same_sent : v.sent ≡ w.sent
  pub same_offers : v.redis.offers ≡ w.redis.offers
  pub same_claims : v.redis.claims ≡ w.redis.claims
  pub same_attempts : v.redis.attempts ≡ w.redis.attempts

pub Aside-trans : (w v u : World) → Aside w v → Aside v u → Aside w u
Aside-trans w v u a b = record {
  same_db = b.same_db ∙ a.same_db;
  same_now = b.same_now ∙ a.same_now;
  same_sent = b.same_sent ∙ a.same_sent;
  same_offers = b.same_offers ∙ a.same_offers;
  same_claims = b.same_claims ∙ a.same_claims;
  same_attempts = b.same_attempts ∙ a.same_attempts;
}

-- `v` differs from `w` in its faults and its branches.
Aside-at :
    (w : World) (fs : List Bool) (branches : Dict ℕ (Entry CoreBranchMetadata))
    → Aside w (record w { faults = fs; redis = record w.redis { branches = branches } })
Aside-at w fs branches = record {
  same_db = refl;
  same_now = refl;
  same_sent = refl;
  same_offers = refl;
  same_claims = refl;
  same_attempts = refl;
}

Aside-call_on :
    {A : Type 0} (f : World → Result A × World) (l : List Bool) (w : World)
    → ((fs : List Bool) → Aside w (f (at_faults w fs)).1)
    → Aside w (call_on f l w).1
Aside-call_on f [] w h = h []
Aside-call_on f (true ∷ fs) w h = Aside-at w fs w.redis.branches
Aside-call_on f (false ∷ fs) w h = h fs

Aside-call :
    {A : Type 0} (f : World → Result A × World) (w : World)
    → ((fs : List Bool) → Aside w (f (at_faults w fs)).1)
    → Aside w (call f w).1
unfolding call
Aside-call f w h = Aside-call_on f w.faults w h

Aside-ignored :
    {A : Type 0} (w : World) (r : Result A × World) → Aside w r.1 → Aside w (ignore_result r).1
Aside-ignored w (r, v) h = h

pub Aside-or_null :
    {A : Type 0} (w : World) (r : Result A × World) → Aside w r.1 → Aside w (optional_result r).1
Aside-or_null w (ok a, v) h = h
Aside-or_null w (err e, v) h = h

Aside-bind :
    {A B : Type 0} (w : World) (k : A → M B) (r : Result A × World)
    → Aside w r.1
    → ((a : A) (v : World) → Aside v (k a v).1)
    → Aside w (bind_result k r).1
Aside-bind w k (err e, v) h j = h
Aside-bind w k (ok a, v) h j = Aside-trans w v (k a v).1 h (j a v)

module _ (core : CoreService) (id : ℕ) where
  cached_or_fetched-Aside :
      (cached : Option CoreBranchMetadata) (v : World)
      → Aside v (cached_or_fetched core id cached v).1
  cached_or_fetched-Aside (some b) v = Aside-at v v.faults v.redis.branches
  cached_or_fetched-Aside none v =
      Aside-bind v _ (fetch_branch core id v)
        (Aside-call _ v (λ fs. Aside-at v fs v.redis.branches))
        λ b u.
          Aside-bind u (λ _. pure b) (ignore_errors (store_branch id b) u)
            (Aside-ignored u (store_branch id b u) (
              Aside-call _ u (λ fs. Aside-at u fs (
                insert id (record { value = b; expires_at = some (u.now + branch_cache_ttl_ms) })
                  u.redis.branches))))
            (λ _ x. Aside-at x x.faults x.redis.branches)

  pub get_branch-Aside : (w : World) → Aside w (get_branch core id w).1
  unfolding get_branch
  get_branch-Aside w =
      Aside-bind w (cached_or_fetched core id) (command (λ now r. (live now id r.branches, r)) w)
        (Aside-call _ w (λ fs. Aside-at w fs w.redis.branches)) cached_or_fetched-Aside
