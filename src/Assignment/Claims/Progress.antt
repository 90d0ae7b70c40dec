-- ===== src/Assignment/Claims/Progress.antt =====
-- When every I/O call succeeds, an offered order that is ready can be taken.
use quick_bite_order_service.Agent.Service.{task_of}
use quick_bite_order_service.Agent.Settlement.{announce_status}
use quick_bite_order_service.Assignment.Claims.{
  announce_assignment, assign_order, cancel_offers, claim, claim_transaction, drop_offer, fan_out,
  find_and_take, listed, lock_claim, must_include, or_unlock, read_offer, take_ready_order, without,
  won_or_throw,
}
use quick_bite_order_service.Assignment.Claims.Lawful.{Listed}
use quick_bite_order_service.Assignment.Config.{DeliveryConfig}
use quick_bite_order_service.Common.{
  Bool, Bool-cases, List, String, [], ap, arith, contains, find, inl, inr, nat_eq, none, refl, some,
  string_eq, subst, sym, true, ℕ, ◌∙◌, ◌∷◌, ◌≡◌,
}
use quick_bite_order_service.Core.Client.{CoreService, get_branch}
use quick_bite_order_service.Core.Client.Frame.{get_branch-Calm, get_branch-Keeps}
use quick_bite_order_service.Errors.{ok}
use quick_bite_order_service.Order.Model.{OrderEntity, actor_eq, assigned, status_eq}
use quick_bite_order_service.Order.Repository.{
  assign_to, claim_ready_order_for_agent, claimable, find_order_by_public_id, has_public_id,
}
use quick_bite_order_service.World.Cache.{live, try_set-fresh}
use quick_bite_order_service.World.Monad.{M, call, lift, pure, ◌>>=◌, ◌>>◌}
use quick_bite_order_service.World.Progress.{
  Returns, Returns-bind, Returns-call, Returns-or_null, Returns-weaken, catch-Returns,
  last_call-Returns,
}
use quick_bite_order_service.World.Reads.{at_faults}
use quick_bite_order_service.World.State.{
  DeliveryTaskResponse, World, agent_room, offer_cancelled, task_assigned, task_response,
}

find_wider :
    {A : Type 0} (p q : A → Bool) (xs : List A) {x : A}
    → ((y : A) → p y ≡ true → q y ≡ true)
    → find p xs ≡ some x
    → (y : A) × (find q xs ≡ some y)
find_wider p q [] wider h = cc
find_wider p q (y ∷ xs) {x} wider h = elim (Bool-cases (q y)) [
  | inl hit ↦ (y, rw hit refl)
  | inr miss ↦
      let (z, e) = find_wider p q xs {x = x} wider (ground (arith, wider y, miss)) in (z, rw miss e)
]

-- The tables stay.
abbrev AtTables : {A : Type 0} → World → A → World → Type 0
AtTables w _ v = v.db ≡ w.db

task_of-Returns :
    (core : CoreService) (o : OrderEntity) (w : World)
    → w.faults ≡ []
    → Returns
        (λ t v. ((t.order_id ≡ o.public_id) × (t.status ≡ o.status)) × (v.db ≡ w.db))
        (task_of core o w)
task_of-Returns core o w calm =
    Returns-or_null _ (λ b. pure (task_response o b)) w (get_branch core o.branch_id w)
      (get_branch-Calm core o.branch_id w calm) (get_branch-Keeps core o.branch_id w)
      λ b v calm' same. (calm', ((refl, refl), same))

cancel_offers-Returns :
    (public_id : String) (losers : List ℕ) (w : World)
    → w.faults ≡ []
    → Returns (λ _ v. v.db ≡ w.db) (cancel_offers public_id losers w)
unfolding cancel_offers
cancel_offers-Returns public_id [] w calm = (calm, refl)
cancel_offers-Returns public_id (a ∷ rest) w calm =
    cancel_offers-Returns public_id rest
      (record w { sent = (agent_room a, offer_cancelled public_id) ∷ w.sent }) calm

module _ (public_id : String) (agent_id : ℕ) where
  fan_out-Returns :
      (losers : List ℕ) (o : OrderEntity) (task : DeliveryTaskResponse) (w : World)
      → w.faults ≡ []
      → Returns (λ _ v. v.db ≡ w.db) (fan_out public_id agent_id losers o task w)
  unfolding fan_out
  fan_out-Returns losers o task w calm =
      let v = record w { sent = (agent_room agent_id, task_assigned task) ∷ w.sent } in
      Returns-bind (λ _ u. u.db ≡ w.db) (λ _ u. u.db ≡ w.db)
        (λ _. announce_status o >> drop_offer public_id) (cancel_offers public_id losers v)
        (cancel_offers-Returns public_id losers v calm)
        λ _ u calm' same. last_call-Returns (λ _ x. x.db ≡ w.db) _ _ calm' (refl, same)

  take_ready_order-Returns :
      (w : World) {row : OrderEntity}
      → w.faults ≡ []
      → find (claimable public_id) w.db.orders.rows ≡ some row
      → Returns (λ o _. o ≡ assign_to agent_id w.now row) (take_ready_order public_id agent_id w)
  unfolding claim_ready_order_for_agent
  take_ready_order-Returns w {row} calm found =
      Returns-call (λ o _. o ≡ assign_to agent_id w.now row) _ (or_unlock public_id) w calm
        (rw found (refl, refl))

  find_and_take-Returns :
      (w : World) {row : OrderEntity}
      → w.faults ≡ []
      → find (claimable public_id) w.db.orders.rows ≡ some row
      → Returns (λ o _. o ≡ assign_to agent_id w.now row) (find_and_take public_id agent_id w)
  unfolding find_order_by_public_id
  find_and_take-Returns w {row} calm found =
      let (y, there) =
        find_wider (claimable public_id) (has_public_id public_id) w.db.orders.rows
          (λ y h. ground arith) found in
      Returns-call (λ o _. o ≡ assign_to agent_id w.now row) _
        (λ found. or_unlock public_id found >> take_ready_order public_id agent_id) w calm
        (rw there (take_ready_order-Returns (at_faults w []) refl found))

  claim_transaction-Returns :
      (P : OrderEntity → Type 0) (body : M OrderEntity) (w : World)
      → w.faults ≡ []
      → Returns (λ o _. P o) (body (at_faults w []))
      → Returns (λ o _. P o) (claim_transaction public_id body w)
  unfolding claim_transaction
  claim_transaction-Returns P body w calm h =
      Returns-call (λ o _. P o) (λ v. (ok tt, v)) _ w calm
        (catch-Returns (λ o _. P o) _ ((body >>= λ o. call (λ v. (ok o, v))) (at_faults w []))
          (Returns-bind (λ o _. P o) (λ o _. P o) (λ o. call (λ v. (ok o, v)))
            (body (at_faults w [])) h
            λ o v calm' p. last_call-Returns (λ o _. P o) _ v calm' (refl, p)))

module _ (core : CoreService) (config : DeliveryConfig) (public_id : String) (agent_id : ℕ) where
  abbrev TaskOf : OrderEntity → DeliveryTaskResponse → Type 0
  TaskOf o t = (t.order_id ≡ o.public_id) × (t.status ≡ o.status)

  announce_assignment-Returns :
      (losers : List ℕ) (o : OrderEntity) (w : World)
      → w.faults ≡ []
      → Returns (λ t _. TaskOf o t) (announce_assignment core public_id agent_id losers o w)
  unfolding announce_assignment
  announce_assignment-Returns losers o w calm =
      let rest =
        λ (task : DeliveryTaskResponse). fan_out public_id agent_id losers o task >> pure task in
      Returns-call (λ t _. TaskOf o t) _ (λ _. task_of core o >>= rest) w calm
        (Returns-bind (λ t v. TaskOf o t × (v.db ≡ w.db)) (λ t _. TaskOf o t) rest
          (task_of core o _) (task_of-Returns core o _ refl)
          λ t v calm' (is_task, same).
            Returns-bind (λ _ u. u.db ≡ v.db) (λ t _. TaskOf o t) (λ _. pure t)
              (fan_out public_id agent_id losers o t v)
              (fan_out-Returns public_id agent_id losers o t v calm')
              λ _ u calm'' same'. (calm'', is_task))

  lock_claim-Returns :
      (w : World)
      → w.faults ≡ []
      → live w.now public_id w.redis.claims ≡ none
      → Returns (λ _ v. (v.db ≡ w.db) × (v.now ≡ w.now)) (lock_claim config public_id agent_id w)
  unfolding lock_claim
  lock_claim-Returns w calm free =
      Returns-call (λ _ v. (v.db ≡ w.db) × (v.now ≡ w.now)) _ (λ won. lift (won_or_throw won)) w
        calm
        (rw (try_set-fresh w.now public_id agent_id config.claim_ttl_sec w.redis.claims free)
          (refl, (refl, refl)))

  assign_order-Returns :
      (w : World) (losers : List ℕ) (body : M OrderEntity) {row : OrderEntity}
      → w.faults ≡ []
      → live w.now public_id w.redis.claims ≡ none
      → find (claimable public_id) w.db.orders.rows ≡ some row
      → ((v : World)
          → v.faults ≡ []
          → find (claimable public_id) v.db.orders.rows ≡ some row
          → Returns (λ o _. o ≡ assign_to agent_id v.now row) (body v))
      → Returns
          (λ t _. TaskOf (assign_to agent_id w.now row) t)
          (assign_order core config public_id agent_id losers body w)
  unfolding assign_order
  assign_order-Returns w losers body {row} calm free found taken =
      let finish = announce_assignment core public_id agent_id losers in
      let Done =
        λ (t : DeliveryTaskResponse) (_ : World). TaskOf (assign_to agent_id w.now row) t in
      Returns-bind (λ _ v. (v.db ≡ w.db) × (v.now ≡ w.now)) Done
        (λ _. claim_transaction public_id body >>= finish) (lock_claim config public_id agent_id w)
        (lock_claim-Returns w calm free)
        λ _ v calm' (same, same_time).
          Returns-bind (λ o _. o ≡ assign_to agent_id v.now row) Done finish
            (claim_transaction public_id body v)
            (claim_transaction-Returns public_id agent_id (λ o. o ≡ assign_to agent_id v.now row)
              body v calm'
              (taken (at_faults v []) refl (
                subst (λ d. find (claimable public_id) d.orders.rows ≡ some row) (sym same) found)))
            λ o u calm'' is_row.
              Returns-weaken (λ t _. TaskOf o t) Done (finish o u)
                (announce_assignment-Returns losers o u calm'')
                λ t _ (id, status).
                  (id ∙ ap (λ x. x.public_id) is_row, status ∙ ap (λ x. x.status) is_row)

  offered-ok : (l : List ℕ) → contains l agent_id ≡ true → listed (some l) ≡ ok l
  offered-ok [] h = cc
  offered-ok (a ∷ l) h = refl

  must_include-included :
      (l : List ℕ) → contains l agent_id ≡ true → must_include l agent_id ≡ ok tt
  must_include-included l h = rw h refl

  read_offer-Returns :
      (w : World) (l : List ℕ)
      → w.faults ≡ []
      → Listed public_id agent_id w l
      → Returns (λ _ v. v ≡ at_faults w []) (read_offer public_id agent_id w)
  read_offer-Returns w l calm (there, included) =
      Returns-call (λ _ v. v ≡ at_faults w []) _
        (λ stored. lift (listed stored) >>= λ candidates.
          lift (must_include candidates agent_id) >> pure candidates)
        w calm
        (rw there (rw (offered-ok l included) (rw (must_include-included l included) (refl, refl))))

  -- If no I/O call fails, an agent in the live offer of an order that is ready, without an agent and not
  -- locked gets the task, even if the core service answers with an error: the call returns the order,
  -- now assigned.
  pub claim-Returns :
      (w : World) (l : List ℕ) {row : OrderEntity}
      → w.faults ≡ []
      → Listed public_id agent_id w l
      → live w.now public_id w.redis.claims ≡ none
      → find (claimable public_id) w.db.orders.rows ≡ some row
      → Returns
          (λ t _. (t.order_id ≡ row.public_id) × (t.status ≡ assigned))
          (claim core config public_id agent_id w)
  unfolding claim
  claim-Returns w l {row} calm (there, included) free found =
      Returns-bind (λ _ v. v ≡ at_faults w []) (λ t _. TaskOf (assign_to agent_id w.now row) t)
        (λ l.
          assign_order core config public_id agent_id (without agent_id l)
            (find_and_take public_id agent_id))
        (read_offer public_id agent_id w) (read_offer-Returns w l calm (there, included))
        λ m v calm' same.
          subst
            (λ x.
              Returns (λ t _. TaskOf (assign_to agent_id w.now row) t)
                (assign_order core config public_id agent_id (without agent_id m)
                  (find_and_take public_id agent_id) x))
            (sym same)
            (assign_order-Returns (at_faults w []) (without agent_id m)
              (find_and_take public_id agent_id) refl free found
              (λ x c f. find_and_take-Returns public_id agent_id x c f))
