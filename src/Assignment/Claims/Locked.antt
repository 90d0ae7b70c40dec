-- ===== src/Assignment/Claims/Locked.antt =====
-- What the lock on an order keeps out.
use quick_bite_order_service.Agent.Presence.{go_offline}
use quick_bite_order_service.Agent.Presence.Offline.{
  Freed, IsForgotten, Released, go_offline-Ensures,
}
use quick_bite_order_service.Assignment.Claims.{
  admin_assign, announce_assignment, assign_order, claim, claim_transaction, find_and_take,
  lock_claim, read_offer, take_ready_order, without,
}
use quick_bite_order_service.Assignment.Claims.Lawful.{Listed, lock_claim-Checks, read_offer-Reads}
use quick_bite_order_service.Assignment.Config.{DeliveryConfig}
use quick_bite_order_service.Common.{
  Bool, List, String, [], ap, false, find, if◌then◌else◌, inl, inr, nat_eq, none, refl, some,
  some-injective, string_eq, subst, sym, true, ℕ, ◌∙◌, ◌∷◌, ◌≡◌, ◌⊎◌,
}
use quick_bite_order_service.Core.Client.{CoreService}
use quick_bite_order_service.Errors.{ok}
use quick_bite_order_service.Order.Model.{OrderEntity, actor_eq, assigned, ready, status_eq}
use quick_bite_order_service.Order.Repository.{has_public_id}
use quick_bite_order_service.World.Cache.{live}
use quick_bite_order_service.World.Frame.{Refused, of_Ensures}
use quick_bite_order_service.World.Monad.{M, ◌>>=◌}
use quick_bite_order_service.World.Reads.{Checks-Refused, Reads-Refused, at_faults}
use quick_bite_order_service.World.State.{World}

module _ (core : CoreService) (config : DeliveryConfig) (public_id : String) (agent_id : ℕ) where
  assign_order_locked :
      (w : World) (holder : ℕ) (losers : List ℕ) (body : M OrderEntity)
      → live w.now public_id w.redis.claims ≡ some holder
      → Refused w.db (assign_order core config public_id agent_id losers body w)
  unfolding assign_order
  assign_order_locked w holder losers body locked_by =
      Checks-Refused (λ _. live w.now public_id w.redis.claims ≡ none) w
        (λ _.
          claim_transaction public_id body >>= announce_assignment core public_id agent_id losers)
        (lock_claim config public_id agent_id w) (lock_claim-Checks config public_id agent_id w)
        λ _ free. cc (locked_by, free)

  -- While somebody holds the lock on an order, a claim and an assignment by an administrator throw and
  -- leave the tables as they are.
  pub claim_locked :
      (w : World) (holder : ℕ)
      → live w.now public_id w.redis.claims ≡ some holder
      → Refused w.db (claim core config public_id agent_id w)
        × Refused w.db (admin_assign core config public_id agent_id w)
  unfolding claim admin_assign
  claim_locked w holder locked_by = (
    Reads-Refused (Listed public_id agent_id w) w _ (read_offer public_id agent_id w)
        (read_offer-Reads public_id agent_id w)
        (λ l fs.
          assign_order_locked (at_faults w fs) holder (without agent_id l)
            (find_and_take public_id agent_id) locked_by),
    assign_order_locked w holder [] (take_ready_order public_id agent_id) locked_by,
  )

abbrev freed_order : ℕ → OrderEntity → OrderEntity
freed_order now o = record o {
  status = ready;
  delivery_agent_id = none;
  assigned_at = none;
  updated_at = now;
}

-- The row of an order that was assigned to the agent.
find-Freed :
    (public_id : String) (agent_id now : ℕ) (rows rows' : List OrderEntity) (o : OrderEntity)
    → Freed agent_id now rows rows'
    → find (has_public_id public_id) rows ≡ some o
    → o.delivery_agent_id ≡ some agent_id
    → o.status ≡ assigned
    → find (has_public_id public_id) rows' ≡ some (freed_order now o)
find-Freed public_id agent_id now [] rows' o freed found a s = cc
find-Freed public_id agent_id now (x ∷ xs) [] o freed found a s = absurd freed
find-Freed public_id agent_id now (x ∷ xs) (y ∷ ys) o (one, freed) found a s =
    by_row (has_public_id public_id x) refl one found
      (λ later. find-Freed public_id agent_id now xs ys o freed later a s)
  where
    by_row :
        (b : Bool)
        → has_public_id public_id x ≡ b
        → ((x.delivery_agent_id ≡ some agent_id) × (x.status ≡ assigned) × (y ≡ freed_order now x))
          ⊎ ((¬ ((x.delivery_agent_id ≡ some agent_id) × (x.status ≡ assigned))) × (y ≡ x))
        → (if b then some x else find (has_public_id public_id) xs) ≡ some o
        → (find (has_public_id public_id) xs ≡ some o
            → find (has_public_id public_id) ys ≡ some (freed_order now o))
        → (if has_public_id public_id y then some y else find (has_public_id public_id) ys)
          ≡ some (freed_order now o)
    by_row true h (inl (b, t, e)) f ih =
        rw e (rw h (ap (λ z. some (freed_order now z)) (some-injective f)))
    by_row true h (inr (n, e)) f ih = absurd (
        n (
          ap (λ z. z.delivery_agent_id) (some-injective f) ∙ a,
          ap (λ z. z.status) (some-injective f) ∙ s,
        ))
    by_row false h (inl (b, t, e)) f ih = rw e (rw h (ih f))
    by_row false h (inr (n, e)) f ih = rw e (rw h (ih f))

-- An agent who holds the lock on an order that is assigned to this agent, and goes offline, leaves the
-- order ready and without an agent, but locked: until the lock expires, every claim, by whichever agent,
-- and every assignment by an administrator throws and leaves the tables as they are.
pub go_offline_locked :
    (core : CoreService) (config : DeliveryConfig) (public_id : String) (agent_id other : ℕ)
    (w v z : World) (o : OrderEntity)
    → find (has_public_id public_id) w.db.orders.rows ≡ some o
    → o.delivery_agent_id ≡ some agent_id
    → o.status ≡ assigned
    → go_offline agent_id w ≡ (ok tt, v)
    → z.db ≡ v.db
    → z.redis ≡ v.redis
    → live z.now public_id w.redis.claims ≡ some agent_id
    → ((freed : OrderEntity) × (find (has_public_id public_id) z.db.orders.rows ≡ some freed)
        × (freed.status ≡ ready)
        × (freed.delivery_agent_id ≡ none))
      × Refused z.db (claim core config public_id other z)
      × Refused z.db (admin_assign core config public_id other z)
go_offline_locked core config public_id agent_id other w v z o found of_agent waits gone same_db
      same_redis locked_by =
    let (released, forgotten) =
      of_Ensures (λ _ x. Released agent_id w.now w.db x.db × IsForgotten agent_id w.redis x.redis)
        {a = tt} {v = v} (go_offline agent_id w) (go_offline-Ensures agent_id w) gone in
    let still =
      subst (λ c. live z.now public_id c ≡ some agent_id)
        (sym (ap (λ r. r.claims) same_redis ∙ forgotten.same_claims)) locked_by in
    let found_freed =
      subst (λ d. find (has_public_id public_id) d.orders.rows ≡ some (freed_order w.now o))
        (sym same_db)
        (find-Freed public_id agent_id w.now w.db.orders.rows v.db.orders.rows o released.freed
          found of_agent waits) in
    let (no_claim, no_assignment) = claim_locked core config public_id other z agent_id still in
    ((freed_order w.now o, found_freed, refl, refl), no_claim, no_assignment)
