-- ===== src/Assignment/Offers/Placed.antt =====
-- What `tryAssign` reports, and what it has done.
use mathlib.Core.Option.{get_or}
use quick_bite_order_service.Assignment.Config.{CacheServer, DeliveryConfig}
use quick_bite_order_service.Assignment.Offers.{
  Outcome, attempts_made, broadcast, count_attempt, exhausted, find_candidates, no_candidates,
  offer_payload, offered, place_offer, search_and_offer, send_offer, skipped, try_assign,
}
use quick_bite_order_service.Assignment.Offers.Candidates.{chosen, find_candidates-Reads}
use quick_bite_order_service.Assignment.Offers.Frame.{
  Aside, Aside-or_null, get_branch-Aside, with_offers,
}
use quick_bite_order_service.Common.{
  Bool, Dict, List, Option, String, [], ap, arith, beq_refl, false, if◌then◌else◌, is_some, leb,
  nat_eq, none, refl, some, string_eq, subst, sym, true, ℕ, ◌*◌, ◌+◌, ◌==◌, ◌∙◌, ◌∷◌, ◌≡◌, ◌≢◌, ◌≤◌,
}
use quick_bite_order_service.Core.Client.{CoreService, get_branch}
use quick_bite_order_service.Core.Model.{CoreBranchMetadata}
use quick_bite_order_service.Errors.{Result, err, ok}
use quick_bite_order_service.Order.Model.{OrderEntity, actor_eq, status_eq}
use quick_bite_order_service.World.Cache.{
  expire, incr, live, live-expire, live-incr, live-set, set, try_set, try_set-fresh, try_set-taken,
}
use quick_bite_order_service.World.Monad.{
  M, bind_result, clock, command, emit, or_null, pure, ◌>>=◌, ◌>>◌,
}
use quick_bite_order_service.World.Reads.{Reads-Ensures, at_faults, command-Reads}
use quick_bite_order_service.World.Rules.{Ensures, bind-Ensures, bind_call, last_call}
use quick_bite_order_service.World.State.{
  Entry, OfferPayload, World, admin_alerts, agent_room, assignment_exhausted, task_offered,
}

module _ (core : CoreService) (server : CacheServer) (config : DeliveryConfig)
    (o : OrderEntity) where
  abbrev attempts_at : World → ℕ
  attempts_at w = attempts_made (live w.now o.public_id w.redis.attempts)

  abbrev pub candidates_at : World → List ℕ
  candidates_at w = chosen server config o.branch_lng o.branch_lat w.now w.redis

  -- One more attempt is counted.
  abbrev Counted : World → World → Type 0
  Counted w v = live w.now o.public_id v.redis.attempts ≡ some (attempts_at w + 1)

  -- The offer is out: to exactly the candidates, of whom there is one at least, below the limit of
  -- attempts, and nobody had an offer of the order.
  pub record Placed (w v : World) : Type 0 where
    pub free : live w.now o.public_id w.redis.offers ≡ none
    pub below : leb config.max_attempts (attempts_at w) ≡ false
    pub someone : candidates_at w ≢ []
    pub offer : live w.now o.public_id v.redis.offers ≡ some (candidates_at w)
    pub payload : OfferPayload
    pub of_order : payload.order_id ≡ o.public_id
    pub until : payload.expires_at ≡ w.now + config.offer_ttl_sec * 1000
    pub sent : v.sent ≡ with_offers (candidates_at w) payload w.sent
    pub counted : Counted w v
    pub same_claims : v.redis.claims ≡ w.redis.claims

  -- What each outcome tells.
  abbrev pub Reports : World → Outcome → World → Type 0
  Reports w offered v = (v.db ≡ w.db) × Placed w v
  Reports w skipped v = (v.db ≡ w.db) × (v.sent ≡ w.sent) × (v.redis ≡ w.redis)
  Reports w exhausted v =
      (v.db ≡ w.db)
      × (v.sent ≡ (admin_alerts, assignment_exhausted o.public_id (attempts_at w)) ∷ w.sent)
      × (v.redis ≡ w.redis)
      × (config.max_attempts ≤ attempts_at w)
  Reports w no_candidates v =
      (v.db ≡ w.db)
      × (v.sent ≡ w.sent)
      × (v.redis ≡ record w.redis { attempts = v.redis.attempts })
      × (candidates_at w ≡ [])
      × Counted w v

  attempts_agree : (x : Option ℕ) → get_or x 0 ≡ attempts_made x
  attempts_agree none = refl
  attempts_agree (some n) = refl

  counted_lem :
      (w : World)
      → live w.now o.public_id
          (expire w.now o.public_id 3600 (incr w.now o.public_id w.redis.attempts))
        ≡ some (attempts_at w + 1)
  counted_lem w =
      live-expire w.now o.public_id 3600 (incr w.now o.public_id w.redis.attempts) (ground arith)
      ∙ live-incr w.now o.public_id w.redis.attempts
      ∙ ap (λ n. some (n + 1)) (attempts_agree (live w.now o.public_id w.redis.attempts))

  broadcast-with_offers :
      (l : List ℕ) (payload : OfferPayload) (w : World)
      → broadcast l payload w ≡ (ok tt, record w { sent = with_offers l payload w.sent })
  unfolding broadcast
  broadcast-with_offers [] payload w = refl
  broadcast-with_offers (a ∷ rest) payload w =
      broadcast-with_offers rest payload
        (record w { sent = (agent_room a, task_offered payload) ∷ w.sent })

  -- The world after the attempt has been counted.
  abbrev after_attempt : World → List Bool → World
  after_attempt w fs = record w {
    faults = fs;
    redis = record w.redis {
      attempts = expire w.now o.public_id 3600 (incr w.now o.public_id w.redis.attempts);
    };
  }

  count_attempt-Ensures :
      (w : World)
      → Ensures (λ _ v. (fs : List Bool) × (v ≡ after_attempt w fs)) (count_attempt o.public_id w)
  count_attempt-Ensures w =
      let Q = λ (_ : Unit {0}) (v : World). (fs : List Bool) × (v ≡ after_attempt w fs) in
      bind_call Q _ _ w λ fs. last_call Q _ _ λ gs. (gs, refl)

  -- The world in which the offer is stored.
  abbrev after_store : World → List Bool → Dict String (Entry (List ℕ)) → World
  after_store w fs offers = record w { faults = fs; redis = record w.redis { offers = offers } }

  module _ (w : World) (offers : Dict String (Entry (List ℕ))) (a : ℕ) (rest : List ℕ)
      (these : candidates_at w ≡ a ∷ rest) (free : live w.now o.public_id w.redis.offers ≡ none)
      (below : leb config.max_attempts (attempts_at w) ≡ false)
      (stored : live w.now o.public_id offers ≡ some (a ∷ rest)) where
    sent_to :
        (u v : World) (payload : OfferPayload)
        → Aside u v
        → u.db ≡ w.db
        → u.sent ≡ w.sent
        → u.redis.offers ≡ offers
        → u.redis.claims ≡ w.redis.claims
        → Counted w u
        → payload.order_id ≡ o.public_id
        → payload.expires_at ≡ w.now + config.offer_ttl_sec * 1000
        → Reports w offered (record v { sent = with_offers (a ∷ rest) payload v.sent })
    sent_to u v payload still d s of c n id until = (
      still.same_db ∙ d,
      record {
        free = free;
        below = below;
        someone = λ e. cc (e, these);
        offer = ap (live w.now o.public_id) (still.same_offers ∙ of) ∙ stored ∙ ap some (sym these);
        payload = payload;
        of_order = id;
        until = until;
        sent =
            ap (with_offers (a ∷ rest) payload) (still.same_sent ∙ s)
            ∙ ap (λ l. with_offers l payload w.sent) (sym these);
        counted = ap (live w.now o.public_id) still.same_attempts ∙ n;
        same_claims = still.same_claims ∙ c;
      },
    )

    -- The end of an offer.
    send_offer-Placed :
        (fs : List Bool)
        → Ensures (Reports w) (send_offer core config o (a ∷ rest) (after_store w fs offers))
    unfolding send_offer
    send_offer-Placed fs =
        let u = after_store w fs offers in
        let payload_at = λ (b : Option CoreBranchMetadata) (now : ℕ).
          offer_payload o b (now + config.offer_ttl_sec * 1000) in
        let finish = λ (b : Option CoreBranchMetadata).
          clock >>= λ now. broadcast (a ∷ rest) (payload_at b now) >> pure offered in
        bind-Ensures (λ _ v. (gs : List Bool) × (v ≡ after_attempt u gs)) (Reports w)
          (λ _. or_null (get_branch core o.branch_id) >>= finish) (count_attempt o.public_id u)
          (count_attempt-Ensures u)
          λ _ v (gs, same).
            subst (λ x. Ensures (Reports w) ((or_null (get_branch core o.branch_id) >>= finish) x))
              (sym same)
              (last_steps (after_attempt u gs)
                (or_null (get_branch core o.branch_id) (after_attempt u gs))
                (Aside-or_null _ _ (get_branch-Aside core o.branch_id (after_attempt u gs))) finish
                λ b v still.
                  subst (λ r. Ensures (Reports w) (bind_result (λ _. pure offered) r))
                    (sym (broadcast-with_offers (a ∷ rest) (payload_at b v.now) v))
                    (sent_to (after_attempt u gs) v (payload_at b v.now) still refl refl refl refl
                      (counted_lem w) refl
                      (ap (λ n. n + config.offer_ttl_sec * 1000) still.same_now)))
      where
        last_steps :
            (x : World) (r : Result (Option CoreBranchMetadata) × World)
            → Aside x r.1
            → (k : Option CoreBranchMetadata → M Outcome)
            → ((b : Option CoreBranchMetadata) (v : World)
                → Aside x v
                → Ensures (Reports w) (k b v))
            → Ensures (Reports w) (bind_result k r)
        last_steps x (ok b, v) still k h = h b v still
        last_steps x (err e, v) still k h = tt

  choose_self : (x y : Option (List ℕ)) → (if o.public_id == o.public_id then x else y) ≡ x
  choose_self x y = rw (beq_refl o.public_id) refl

  -- The offer is set if nobody else has set one.
  place_offer-Reports :
      (w : World) (fs : List Bool) (l : List ℕ)
      → candidates_at w ≡ l
      → leb config.max_attempts (attempts_at w) ≡ false
      → Ensures (Reports w) (place_offer core config o l (at_faults w fs))
  unfolding place_offer
  place_offer-Reports w fs [] none_found below =
      bind-Ensures (λ _ v. (gs : List Bool) × (v ≡ after_attempt w gs)) (Reports w)
        (λ _. pure no_candidates) (count_attempt o.public_id (at_faults w fs))
        (count_attempt-Ensures (at_faults w fs))
        λ _ v (gs, same).
          subst (λ x. Reports w no_candidates x) (sym same)
            (refl, refl, refl, none_found, counted_lem w)
  place_offer-Reports w fs (a ∷ rest) these below =
      bind_call (Reports w) _
        (λ set_now. if set_now then send_offer core config o (a ∷ rest) else pure skipped)
        (at_faults w fs) λ gs. by_state gs (live w.now o.public_id w.redis.offers) refl
    where
      by_state :
          (gs : List Bool) (before : Option (List ℕ))
          → live w.now o.public_id w.redis.offers ≡ before
          → Ensures (Reports w) (
              let x = try_set w.now o.public_id (a ∷ rest) config.offer_ttl_sec w.redis.offers in
              (if x.0 then send_offer core config o (a ∷ rest) else pure skipped)
                (after_store w gs x.1))
      by_state gs (some m) h =
          rw (try_set-taken w.now o.public_id (a ∷ rest) m config.offer_ttl_sec w.redis.offers h)
            (refl, refl, refl)
      by_state gs none h =
          rw (try_set-fresh w.now o.public_id (a ∷ rest) config.offer_ttl_sec w.redis.offers h) (
            send_offer-Placed w
              (set w.now o.public_id (a ∷ rest) config.offer_ttl_sec w.redis.offers) a rest these h
              below
              (live-set w.now o.public_id o.public_id (a ∷ rest) config.offer_ttl_sec w.redis.offers
                ∙ choose_self (some (a ∷ rest)) (live w.now o.public_id w.redis.offers))
              gs)

  -- What an attempt to offer an order reports is what it has done. Offered: no offer of the order was out,
  -- fewer attempts than the limit were counted, and now the offer is stored for, and was sent once to
  -- each of, exactly the nearest agents that are online and not busy, of whom there is one at least.
  -- Without candidates only the counter of attempts changes, by one more. At the limit only the alert goes
  -- out, and for a skipped order nothing does; in both cases all keys of the cache stay as they are. The
  -- tables never change.
  pub try_assign-Reports : (w : World) → Ensures (Reports w) (try_assign core server config o w)
  unfolding try_assign search_and_offer
  try_assign-Reports w =
      Reads-Ensures (λ b. b ≡ is_some (live w.now o.public_id w.redis.offers)) (Reports w) w _ _
        (command-Reads w (λ now r. is_some (live now o.public_id r.offers))) λ b fs _. by_offer b fs
    where
      search :
          (fs : List Bool)
          → leb config.max_attempts (attempts_at w) ≡ false
          → Ensures (Reports w) (
              (find_candidates server config o.branch_lng o.branch_lat
                  >>= place_offer core config o)
                (at_faults w fs))
      search fs below =
          Reads-Ensures (λ l. l ≡ candidates_at w) (Reports w) (at_faults w fs)
            (place_offer core config o)
            (find_candidates server config o.branch_lng o.branch_lat (at_faults w fs))
            (find_candidates-Reads server config o.branch_lng o.branch_lat (at_faults w fs))
            λ l gs e. place_offer-Reports w gs l (sym e) below

      by_limit :
          (full : Bool) (fs : List Bool)
          → leb config.max_attempts (attempts_at w) ≡ full
          → Ensures (Reports w) (
              (if full
                  then emit admin_alerts (assignment_exhausted o.public_id (attempts_at w))
                    >> pure exhausted
                  else (find_candidates server config o.branch_lng o.branch_lat
                      >>= place_offer core config o))
                (at_faults w fs))
      by_limit true fs h = (refl, refl, refl, ground arith)
      by_limit false fs h = search fs h

      by_offer :
          (b : Bool) (fs : List Bool)
          → Ensures (Reports w) (
              (if b
                  then pure skipped
                  else ((command (λ now r. (attempts_made (live now o.public_id r.attempts), r)))
                      >>= λ made.
                          if leb config.max_attempts made
                          then emit admin_alerts (assignment_exhausted o.public_id made)
                            >> pure exhausted
                          else (find_candidates server config o.branch_lng o.branch_lat
                              >>= place_offer core config o)))
                (at_faults w fs))
      by_offer true fs = (refl, refl, refl)
      by_offer false fs =
          bind_call (Reports w) _ _ _
            λ gs. by_limit (leb config.max_attempts (attempts_at w)) gs refl
