-- ===== src/Agent/Service/Lawful.antt =====
-- What `AgentService.transition` can do to the tables.
use quick_bite_order_service.Agent.Service.{
  check_pickable, pick_order, pick_up, task_of, transition,
}
use quick_bite_order_service.Agent.Settlement.{announce_status, settle_delivered, share_of}
use quick_bite_order_service.Agent.Settlement.Once.{settle_delivered-Tables}
use quick_bite_order_service.Agent.Settlement.Outcome.{SettledAs}
use quick_bite_order_service.Common.{
  Bool, List, String, arith, eq_of_beq, false, if◌then◌else◌, inl, inr, nat_eq, not, refl, some,
  string_eq, subst, true, ℕ, ◌==◌, ◌∙◌, ◌≡◌, ◌⊎◌,
}
use quick_bite_order_service.Core.Client.{CoreService, get_branch}
use quick_bite_order_service.Core.Client.Frame.{get_branch-Keeps}
use quick_bite_order_service.Errors.{Result, err, invalid_agent_transition, ok, order_not_found}
use quick_bite_order_service.Order.Model.{
  OrderEntity, OrderStatus, actor_eq, assigned, delivered, picked, status_eq,
}
use quick_bite_order_service.Order.Repository.{find_order_by_public_id, update_order_status}
use quick_bite_order_service.Order.Repository.Rows.{StatusSet, update_order_status-StatusSet}
use quick_bite_order_service.Order.Status.{picked_at}
use quick_bite_order_service.World.Checks.{found-Tables}
use quick_bite_order_service.World.Frame.{
  Keeps, Tables, Tables-of_Keeps, bind-Tables, or_null-Keeps, then-Keeps, transaction-Tables,
  weaken,
}
use quick_bite_order_service.World.Monad.{
  M, bind_result, checked, lift, or_null, pure, throw, transaction, ◌>>=◌, ◌>>◌,
}
use quick_bite_order_service.World.Rules.{Ensures, bind_checked, then_pure}
use quick_bite_order_service.World.State.{Db, DeliveryTaskResponse, World, task_response}

check_pickable-ok :
    (o : OrderEntity) (agent_id : ℕ)
    → check_pickable o agent_id ≡ ok tt
    → (o.status ≡ assigned) × (o.delivery_agent_id ≡ some agent_id)
unfolding check_pickable
check_pickable-ok o agent_id h = (ground arith, ground arith)

pub task_of-Keeps : (core : CoreService) (o : OrderEntity) (w : World) → Keeps w (task_of core o w)
task_of-Keeps core o =
    then-Keeps (or_null (get_branch core o.branch_id)) (λ b. pure (task_response o b))
      (λ w. or_null-Keeps w (get_branch core o.branch_id w) (get_branch-Keeps core o.branch_id w))
      (λ b w. (refl, refl))

module _ (core : CoreService) (share : ℕ) (public_id : String) (agent_id : ℕ)
    (region : String) where
  -- An assigned order of the agent is picked, and nothing else changes.
  abbrev pub PickedUp : ℕ → Db → Db → Type 0
  PickedUp now d d' =
      (o : OrderEntity) × (row : OrderEntity) × (find_order_by_public_id public_id now d ≡ some o)
      × (o.status ≡ assigned)
      × (o.delivery_agent_id ≡ some agent_id)
      × StatusSet public_id picked (some picked_at) now d row d'

  -- The order that was found is settled as a whole.
  abbrev pub SettledUp : ℕ → Db → Db → Type 0
  SettledUp now d d' =
      (o : OrderEntity) × (u : OrderEntity) × (find_order_by_public_id public_id now d ≡ some o)
      × SettledAs o public_id agent_id region (share_of o.delivery_fee share) now d u d'

  set_picked : M OrderEntity
  set_picked = checked (update_order_status public_id picked (some picked_at))

  set_picked-Ensures :
      (w : World)
      → Ensures
          (λ u v. (fs : List Bool) → StatusSet public_id picked (some picked_at) w.now w.db u v.db)
          (set_picked w)
  unfolding set_picked
  set_picked-Ensures w =
      let Q = λ (u : OrderEntity) (v : World).
        (fs : List Bool) → StatusSet public_id picked (some picked_at) w.now w.db u v.db in
      then_pure Q (set_picked w) (
        bind_checked Q (update_order_status public_id picked (some picked_at)) pure w λ fs u d e gs.
          update_order_status-StatusSet public_id picked (some picked_at) w.now w.db e)

  pick_order-Tables :
      (o : OrderEntity) (w : World)
      → Tables
          (λ d.
            (d ≡ w.db)
            ⊎ ((row : OrderEntity) × StatusSet public_id picked (some picked_at) w.now w.db row d))
          (pick_order core public_id o w)
  unfolding pick_order set_picked
  pick_order-Tables o w =
      let Done = λ (d : Db).
        (d ≡ w.db)
        ⊎ ((row : OrderEntity) × StatusSet public_id picked (some picked_at) w.now w.db row d) in
      bind-Tables Done (λ u. announce_status u >> task_of core u) (transaction set_picked w)
        (transaction-Tables Done set_picked w (inl refl) λ fs.
          weaken
            (λ u z.
              (gs : List Bool) → StatusSet public_id picked (some picked_at) w.now w.db u z.db)
            (λ u z. (gs : List Bool) → Done z.db) (set_picked (record w { faults = fs }))
            (set_picked-Ensures (record w { faults = fs })) (λ u z q gs. inr (u, q gs)))
        λ u z p.
          Tables-of_Keeps Done z ((announce_status u >> task_of core u) z)
            (then-Keeps (announce_status u) (λ _. task_of core u) (λ _. (refl, refl))
              (λ _. task_of-Keeps core u) z)
            p

  pick_up-Tables :
      (w : World)
      → Tables (λ d. (d ≡ w.db) ⊎ PickedUp w.now w.db d) (pick_up core public_id agent_id w)
  unfolding pick_up
  pick_up-Tables w =
      found-Tables (λ d. (d ≡ w.db) ⊎ PickedUp w.now w.db d) w (find_order_by_public_id public_id)
        order_not_found (λ o. lift (check_pickable o agent_id) >> pick_order core public_id o)
        (inl refl) λ o v d t found. fits o v d t found (check_pickable o agent_id) refl
    where
      moved :
          (o : OrderEntity) (v : World)
          → v.db ≡ w.db
          → v.now ≡ w.now
          → find_order_by_public_id public_id w.now w.db ≡ some o
          → check_pickable o agent_id ≡ ok tt
          → (r : Result DeliveryTaskResponse × World)
          → Tables
              (λ d.
                (d ≡ v.db)
                ⊎ ((row : OrderEntity) × StatusSet public_id picked
                      (some picked_at)
                      v.now
                      v.db
                      row
                      d))
              r
          → Tables (λ d. (d ≡ w.db) ⊎ PickedUp w.now w.db d) r
      moved o v d t found fit (_, z) (inl e) = inl (e ∙ d)
      moved o v d t found fit (_, z) (inr (row, s)) =
          let (is_assigned, theirs) = check_pickable-ok o agent_id fit in
          inr (
            o,
            row,
            found,
            is_assigned,
            theirs,
            subst (λ n. StatusSet public_id picked (some picked_at) n w.db row z.db) t
                (subst (λ x. StatusSet public_id picked (some picked_at) v.now x row z.db) d s),
          )

      fits :
          (o : OrderEntity) (v : World)
          → v.db ≡ w.db
          → v.now ≡ w.now
          → find_order_by_public_id public_id w.now w.db ≡ some o
          → (r : Result (Unit {0})) → check_pickable o agent_id ≡ r
          → Tables
              (λ d. (d ≡ w.db) ⊎ PickedUp w.now w.db d)
              (bind_result (λ _. pick_order core public_id o) (lift r v))
      fits o v d t found (err e) f = inl d
      fits o v d t found (ok tt) f =
          moved o v d t found f (pick_order core public_id o v) (pick_order-Tables o v)

  -- However a call of `AgentService.transition` ends, the tables are as they were, or the target was
  -- delivered and the order that was found is settled as a whole, or the target was picked, the order
  -- that was found was assigned to the calling agent, and its row is picked now and nothing else changed.
  pub transition-Tables :
      (target : OrderStatus) (w : World)
      → Tables
          (λ d.
            (d ≡ w.db)
            ⊎ ((target ≡ delivered) × SettledUp w.now w.db d)
            ⊎ ((target ≡ picked) × PickedUp w.now w.db d))
          (transition core share public_id agent_id region target w)
  unfolding transition
  transition-Tables target w = by_target (target == delivered) (target == picked) refl refl
    where
      as_settled :
          target ≡ delivered
          → (r : Result OrderEntity × World) → Tables (λ d. (d ≡ w.db) ⊎ SettledUp w.now w.db d) r
          → Tables
              (λ d.
                (d ≡ w.db)
                ⊎ ((target ≡ delivered) × SettledUp w.now w.db d)
                ⊎ ((target ≡ picked) × PickedUp w.now w.db d))
              r
      as_settled e (_, z) (inl h) = inl h
      as_settled e (_, z) (inr h) = inr (inl (e, h))

      as_picked :
          target ≡ picked
          → (r : Result DeliveryTaskResponse × World)
          → Tables (λ d. (d ≡ w.db) ⊎ PickedUp w.now w.db d) r
          → Tables
              (λ d.
                (d ≡ w.db)
                ⊎ ((target ≡ delivered) × SettledUp w.now w.db d)
                ⊎ ((target ≡ picked) × PickedUp w.now w.db d))
              r
      as_picked e (_, z) (inl h) = inl h
      as_picked e (_, z) (inr h) = inr (inr (e, h))

      by_target :
          (b c : Bool)
          → (target == delivered) ≡ b
          → (target == picked) ≡ c
          → Tables
              (λ d.
                (d ≡ w.db)
                ⊎ ((target ≡ delivered) × SettledUp w.now w.db d)
                ⊎ ((target ≡ picked) × PickedUp w.now w.db d))
              ((if b
                  then settle_delivered core share public_id agent_id region >>= task_of core
                  else if not c
                  then throw invalid_agent_transition
                  else pick_up core public_id agent_id)
                w)
      by_target true c e f =
          let Q = λ (d : Db).
            (d ≡ w.db)
            ⊎ ((target ≡ delivered) × SettledUp w.now w.db d)
            ⊎ ((target ≡ picked) × PickedUp w.now w.db d) in
          bind-Tables Q (task_of core) (settle_delivered core share public_id agent_id region w)
            (as_settled (eq_of_beq target delivered e)
              (settle_delivered core share public_id agent_id region w)
              (settle_delivered-Tables core share public_id agent_id region w))
            λ u z p. Tables-of_Keeps Q z (task_of core u z) (task_of-Keeps core u z) p
      by_target false false e f = inl refl
      by_target false true e f =
          as_picked (eq_of_beq target picked f) (pick_up core public_id agent_id w)
            (pick_up-Tables w)
