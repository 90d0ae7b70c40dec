-- ===== src/Assignment/Claims/Lawful.antt =====
-- What `claim` and `adminAssign` can do to the tables.
use quick_bite_order_service.Agent.Presence.{mark_busy}
use quick_bite_order_service.Agent.Service.{task_of}
use quick_bite_order_service.Agent.Service.Lawful.{task_of-Keeps}
use quick_bite_order_service.Agent.Settlement.{announce_status}
use quick_bite_order_service.Assignment.Claims.{
  admin_assign, announce_assignment, assign_order, cancel_offers, claim_transaction, drop_offer,
  fan_out, listed, lock_claim, must_include, read_offer, take_ready_order, won_or_throw,
}
use quick_bite_order_service.Assignment.Claims.Taken.{
  Taken, claim_transaction-Tables, take_ready_order-Ensures,
}
use quick_bite_order_service.Assignment.Config.{DeliveryConfig}
use quick_bite_order_service.Common.{
  Bool, Dict, List, Option, String, [], arith, contains, false, inl, inr, nat_eq, none, refl, some,
  string_eq, subst, sym, true, ℕ, ◌∙◌, ◌∷◌, ◌≡◌, ◌⊎◌,
}
use quick_bite_order_service.Core.Client.{CoreService}
use quick_bite_order_service.Errors.{ok}
use quick_bite_order_service.Order.Model.{OrderEntity, actor_eq, status_eq}
use quick_bite_order_service.World.Cache.{live, try_set, try_set-free}
use quick_bite_order_service.World.Checks.{Checks, Checks-Tables}
use quick_bite_order_service.World.Frame.{
  Keeps, Tables, Tables-of_Keeps, bind-Keeps, bind-Tables, command-Keeps, then-Keeps, weaken,
}
use quick_bite_order_service.World.Monad.{M, bind_result, call, call_on, lift, pure, ◌>>=◌, ◌>>◌}
use quick_bite_order_service.World.Reads.{Reads, Reads-bind, at_faults, command-Reads, lift-Reads}
use quick_bite_order_service.World.Rules.{Ensures}
use quick_bite_order_service.World.State.{
  Db, DeliveryTaskResponse, Entry, World, agent_room, offer_cancelled, task_assigned,
}

won-ok : (b : Bool) → won_or_throw b ≡ ok tt → b ≡ true
won-ok true h = refl
won-ok false h = cc

module _ (config : DeliveryConfig) (public_id : String) (agent_id : ℕ) where
  answered :
      (w : World) (fs : List Bool) (x : Bool × Dict String (Entry ℕ))
      → (x.0 ≡ true → live w.now public_id w.redis.claims ≡ none)
      → Checks
          (λ _. live w.now public_id w.redis.claims ≡ none)
          w
          (lift
            (won_or_throw x.0)
            (record w { faults = fs; redis = record w.redis { claims = x.1 } }))
  answered w fs (true, claims) h = (refl, refl, h refl)
  answered w fs (false, claims) h = refl

  locking :
      (w : World) (l : List Bool)
      → Checks
          (λ _. live w.now public_id w.redis.claims ≡ none)
          w
          (bind_result
            (λ won. lift (won_or_throw won))
            (call_on
              (λ v.
                let x = try_set v.now public_id agent_id config.claim_ttl_sec v.redis.claims in
                (ok x.0, record v { redis = record v.redis { claims = x.1 } }))
              l
              w))
  locking w [] =
      answered w [] (try_set w.now public_id agent_id config.claim_ttl_sec w.redis.claims)
        (try_set-free w.now public_id agent_id config.claim_ttl_sec w.redis.claims)
  locking w (true ∷ fs) = refl
  locking w (false ∷ fs) =
      answered w fs (try_set w.now public_id agent_id config.claim_ttl_sec w.redis.claims)
        (try_set-free w.now public_id agent_id config.claim_ttl_sec w.redis.claims)

  -- The lock was free, and taking it moves no table.
  pub lock_claim-Checks :
      (w : World)
      → Checks
          (λ _. live w.now public_id w.redis.claims ≡ none)
          w
          (lock_claim config public_id agent_id w)
  unfolding lock_claim call
  lock_claim-Checks w = locking w w.faults

module _ (public_id : String) (agent_id : ℕ) where
  -- The agent was in the offer of the order.
  abbrev pub Listed : World → List ℕ → Type 0
  Listed w agents =
      (live w.now public_id w.redis.offers ≡ some agents) × (contains agents agent_id ≡ true)

  listed-ok : (o : Option (List ℕ)) (l : List ℕ) → listed o ≡ ok l → o ≡ some l
  listed-ok o l h = ground arith

  must_include-ok : (l : List ℕ) → must_include l agent_id ≡ ok tt → contains l agent_id ≡ true
  must_include-ok l h = ground arith

  pub read_offer-Reads : (w : World) → Reads (Listed w) w (read_offer public_id agent_id w)
  read_offer-Reads w =
      Reads-bind (λ o. o ≡ live w.now public_id w.redis.offers) (Listed w) w _ _
        (command-Reads w (λ now r. live now public_id r.offers))
        λ o fs e.
          Reads-bind (λ l. listed o ≡ ok l) (Listed w) (at_faults w fs) _ _
            (lift-Reads _ (listed o))
            λ l gs e'.
              Reads-bind (λ u. must_include l agent_id ≡ ok u) (Listed w) (at_faults w gs) _ _
                (lift-Reads _ (must_include l agent_id))
                λ u hs e''. (hs, refl, (sym e ∙ listed-ok o l e', must_include-ok l e''))

cancel_offers-Keeps :
    (public_id : String) (losers : List ℕ) (w : World) → Keeps w (cancel_offers public_id losers w)
unfolding cancel_offers
cancel_offers-Keeps public_id [] w = (refl, refl)
cancel_offers-Keeps public_id (a ∷ rest) w =
    cancel_offers-Keeps public_id rest
      (record w { sent = (agent_room a, offer_cancelled public_id) ∷ w.sent })

fan_out-Keeps :
    (public_id : String) (agent_id : ℕ) (losers : List ℕ) (o : OrderEntity)
    (task : DeliveryTaskResponse) (w : World)
    → Keeps w (fan_out public_id agent_id losers o task w)
unfolding fan_out
fan_out-Keeps public_id agent_id losers o task w =
    let v = record w { sent = (agent_room agent_id, task_assigned task) ∷ w.sent } in
    bind-Keeps v (λ _. announce_status o >> drop_offer public_id) (cancel_offers public_id losers v)
      (cancel_offers-Keeps public_id losers v)
      (λ _.
        then-Keeps (announce_status o) (λ _. drop_offer public_id) (λ _. (refl, refl))
          (λ _. command-Keeps _))

module _ (core : CoreService) (public_id : String) (agent_id : ℕ) where
  pub announce_assignment-Keeps :
      (losers : List ℕ) (o : OrderEntity) (w : World)
      → Keeps w (announce_assignment core public_id agent_id losers o w)
  unfolding announce_assignment
  announce_assignment-Keeps losers o =
      let rest =
        λ (task : DeliveryTaskResponse). fan_out public_id agent_id losers o task >> pure task in
      then-Keeps (mark_busy agent_id) (λ _. task_of core o >>= rest) (command-Keeps _)
        λ _. then-Keeps (task_of core o) rest (task_of-Keeps core o) λ task.
          then-Keeps (fan_out public_id agent_id losers o task) (λ _. pure task)
            (fan_out-Keeps public_id agent_id losers o task) (λ _ _. (refl, refl))

module _ (core : CoreService) (config : DeliveryConfig) (public_id : String) (agent_id : ℕ) where
  -- The lock was free, and the order went from ready to the agent.
  abbrev pub Locked : World → Db → Type 0
  Locked w d =
      (live w.now public_id w.redis.claims ≡ none)
      × ((o : OrderEntity) × Taken public_id agent_id w.now w.db o d)

  assign_order-Tables :
      (w : World) (body : M OrderEntity) (losers : List ℕ)
      → ((v : World) → Ensures (λ o u. Taken public_id agent_id v.now v.db o u.db) (body v))
      → Tables
          (λ d. (d ≡ w.db) ⊎ Locked w d)
          (assign_order core config public_id agent_id losers body w)
  unfolding assign_order
  assign_order-Tables w body losers taken =
      let P = λ (d : Db). (d ≡ w.db) ⊎ Locked w d in
      let finish = announce_assignment core public_id agent_id losers in
      Checks-Tables (λ _. live w.now public_id w.redis.claims ≡ none) P w
        (λ _. claim_transaction public_id body >>= finish) (lock_claim config public_id agent_id w)
        (lock_claim-Checks config public_id agent_id w) (inl refl)
        λ _ v d t free.
          bind-Tables P finish (claim_transaction public_id body v)
            (claim_transaction-Tables public_id P body v (inl d) λ fs.
              weaken (λ o u. Taken public_id agent_id v.now v.db o u.db) (λ o u. P u.db)
                (body (at_faults v fs)) (taken (at_faults v fs))
                λ o u q. inr (free, (o, moved v o u.db d t q)))
            λ o u p.
              Tables-of_Keeps P u (finish o u)
                (announce_assignment-Keeps core public_id agent_id losers o u) p
    where
      moved :
          (v : World) (o : OrderEntity) (u : Db)
          → v.db ≡ w.db
          → v.now ≡ w.now
          → Taken public_id agent_id v.now v.db o u
          → Taken public_id agent_id w.now w.db o u
      moved v o u d t q =
          subst (λ n. Taken public_id agent_id n w.db o u) t
            (subst (λ x. Taken public_id agent_id v.now x o u) d q)

  -- However an assignment by an administrator ends, the tables are as they were, or nobody held the lock
  -- on the order and a ready order without an agent went to the chosen agent and nothing else changed.
  pub admin_assign-Tables :
      (w : World)
      → Tables (λ d. (d ≡ w.db) ⊎ Locked w d) (admin_assign core config public_id agent_id w)
  unfolding admin_assign
  admin_assign-Tables w =
      assign_order-Tables w (take_ready_order public_id agent_id) []
        (take_ready_order-Ensures public_id agent_id)
