-- ===== src/Order/Update/Lawful.antt =====
-- What `updateStatus` can do to the tables.
use quick_bite_order_service.Common.{
  Bool, List, Option, String, ap, erase, find, inl, inr, nat_eq, none, refl, some, string_eq, subst,
  sym, update, ℕ, ◌∙◌, ◌≡◌, ◌⊎◌,
}
use quick_bite_order_service.Core.Client.{CoreService}
use quick_bite_order_service.Errors.{Result, ok, or_throw, order_not_found}
use quick_bite_order_service.Events.Model.{EventType}
use quick_bite_order_service.Events.Repository.{insert_outbox_event}
use quick_bite_order_service.Order.Access.{resolve_status_actor}
use quick_bite_order_service.Order.Model.{
  ActorContext, OrderEntity, OrderStatus, StatusActor, accepted, actor_eq, admin, agent, cancelled,
  customer, rejected, restaurant_member, status_eq, system,
}
use quick_bite_order_service.Order.Repository.{
  find_order_by_public_id, has_public_id, set_status, update_order_status, with_orders,
}
use quick_bite_order_service.Order.Repository.Rows.{update_order_status-StatusSet}
use quick_bite_order_service.Order.Status.{AssertTransitionContext, StampColumn, assert_transition}
use quick_bite_order_service.Order.Status.Lifecycle.{assert_transition-stamp, stamp_of}
use quick_bite_order_service.Order.Update.{
  announce_update, check_update, give_stock_back, gives_stock_back, insert_event_for,
  invalidate_branch_orders_cache, outbox_event_for_status, update_order, update_status,
  update_writes,
}
use quick_bite_order_service.Order.Update.Entered.{
  announced, entered, set_status-entered, told, update-ext,
}
use quick_bite_order_service.Order.Update.Frame.{give_stock_back-Keeps}
use quick_bite_order_service.Order.Update.Permitted.{Permitted, when_member-Checks}
use quick_bite_order_service.World.Checks.{
  Checks, Checks-Tables, Checks-bind, Checks-lift, when-Keeps,
}
use quick_bite_order_service.World.Frame.{
  Keeps, Tables, Tables-of_Keeps, bind-Tables, command-Keeps, ignore-Keeps, then-Keeps,
  transaction-Tables, weaken,
}
use quick_bite_order_service.World.Monad.{
  M, bind_result, command, lift, pure, query, transaction, when, ◌>>=◌, ◌>>◌,
}
use quick_bite_order_service.World.Reads.{Reads-Tables, answer-Reads, at_faults}
use quick_bite_order_service.World.Rules.{Ensures, at_tables, bind_call, bind_checked}
use quick_bite_order_service.World.State.{Db, OrderStatusResponse, World, status_response}

module _ (core : CoreService) (actor : ActorContext) (status : OrderStatus)
    (reason : Option String) where
  -- The context that `updateStatus` hands to the status machine.
  abbrev pub context_of : StatusActor → OrderEntity → AssertTransitionContext
  context_of who o = record {
    actor = who;
    reason = reason;
    placed_at = some o.created_at;
    accepted_at = o.accepted_at;
  }

  -- Someone who may act on the order, and who has the permission if it is a member of the staff, asks for
  -- a transition that the status machine accepts.
  abbrev pub Accepted : World → OrderEntity → StatusActor × Option StampColumn → Type 0
  Accepted w o (who, stamp) =
      (resolve_status_actor actor o ≡ ok who)
      × Permitted core actor status w who
      × (assert_transition o.status status (context_of who o) w.now ≡ ok stamp)

  pub check_update-Checks :
      (o : OrderEntity) (w : World)
      → Checks (Accepted w o) w (check_update core actor status reason o w)
  unfolding check_update
  check_update-Checks o w =
      let Q = Accepted w o in
      Checks-lift Q w w _ (resolve_status_actor actor o) refl λ who known.
        Checks-bind (λ _. Permitted core actor status w who) Q w _ _
          (when_member-Checks core actor status who w)
          λ _ v d t may.
            Checks-lift Q w v (λ stamp. pure (who, stamp))
              (assert_transition o.status status (context_of who o) v.now) d
              λ stamp allowed. (
                d,
                t,
                (
                  known,
                  may,
                  subst (λ n. assert_transition o.status status (context_of who o) n ≡ ok stamp) t
                      allowed,
                ),
              )

  -- The tables after the statements: the order is in its new status, and the outbox has the event of that
  -- status; nothing else changed.
  pub record Written (now : ℕ) (d : Db) (o : OrderEntity) (who : StatusActor) (d' : Db)
      : Type 0 where
    pub before : OrderEntity
    pub found : find (has_public_id o.public_id) d.orders.rows ≡ some before
    pub tables : d' ≡ record d {
      orders = record d.orders {
        rows = update (has_public_id o.public_id) (entered status now) d.orders.rows;
      };
      outbox = told (announced status) before status reason who now d.outbox;
    }

  -- The tables after an update that was accepted.
  pub record Updated (w : World) (o : OrderEntity) (d' : Db) : Type 0 where
    pub who : StatusActor
    pub stamp : Option StampColumn
    pub accepted_by : Accepted w o (who, stamp)
    pub written : Written w.now w.db o who d'

  same_event : (s : OrderStatus) → outbox_event_for_status s ≡ announced s
  unfolding outbox_event_for_status
  same_event accepted = refl
  same_event rejected = refl
  same_event cancelled = refl
  same_event _ = refl

  update_writes-Ensures :
      (o : OrderEntity) (who : StatusActor) (stamp : Option StampColumn) (w : World)
      → stamp ≡ stamp_of status
      → Ensures
          (λ u v. (fs : List Bool) → Written w.now w.db o who v.db)
          (update_writes o.public_id status stamp reason who w)
  unfolding update_writes insert_outbox_event
  update_writes-Ensures o who stamp w column =
      bind_checked Q (update_order_status o.public_id status stamp) _ w λ fs u d e.
        let set = update_order_status-StatusSet o.public_id status stamp w.now w.db e in
        subst (λ x. Ensures Q (rest x (at_tables w fs d)))
          (sym (set.returned ∙ entered_lem set.before))
          (subst (λ x. Ensures Q (rest (entered status w.now set.before) (at_tables w fs x)))
            (sym (
              set.tables
              ∙ ap (with_orders w.db) (
                  update-ext (has_public_id o.public_id) (set_status status stamp w.now)
                    (entered status w.now) w.db.orders.rows entered_lem)))
            (logged fs set.before set.found (outbox_event_for_status status) (same_event status)))
    where
      Q : OrderEntity → World → Type 0
      Q u v = (fs : List Bool) → Written w.now w.db o who v.db

      rest : OrderEntity → M OrderEntity
      rest x = insert_event_for x reason who (outbox_event_for_status status) >> pure x

      entered_lem : (x : OrderEntity) → set_status status stamp w.now x ≡ entered status w.now x
      entered_lem x =
          ap (λ c. set_status status c w.now x) column ∙ set_status-entered status w.now x

      flipped : Db
      flipped =
          with_orders w.db
            (update (has_public_id o.public_id) (entered status w.now) w.db.orders.rows)

      with_outbox_of : OrderEntity → Option EventType → Db
      with_outbox_of b event = record flipped {
        outbox = told event b status reason who w.now w.db.outbox;
      }

      logged :
          (fs : List Bool) (b : OrderEntity)
          → find (has_public_id o.public_id) w.db.orders.rows ≡ some b
          → (event : Option EventType) → event ≡ announced status
          → Ensures Q (
              bind_result
                (λ _. pure (entered status w.now b))
                (insert_event_for
                  (entered status w.now b)
                  reason
                  who
                  event
                  (at_tables w fs flipped)))
      logged fs b known none e =
          λ _. record { before = b; found = known; tables = ap (with_outbox_of b) e }
      logged fs b known (some event) e =
          bind_call Q _ _ (at_tables w fs flipped)
            λ _ _. record { before = b; found = known; tables = ap (with_outbox_of b) e }

  after_update : OrderEntity → OrderEntity → M OrderStatusResponse
  after_update o updated = do
    when (gives_stock_back o.status status) (give_stock_back core o)
    invalidate_branch_orders_cache o.branch_id
    announce_update updated
    pure (status_response updated)

  after_update-Keeps : (o u : OrderEntity) (w : World) → Keeps w (after_update o u w)
  unfolding after_update invalidate_branch_orders_cache
  after_update-Keeps o u =
      then-Keeps (when (gives_stock_back o.status status) (give_stock_back core o))
        (λ _.
          invalidate_branch_orders_cache o.branch_id
          >> (announce_update u >> pure (status_response u)))
        (λ w.
          when-Keeps (gives_stock_back o.status status) (give_stock_back core o) w
            (give_stock_back-Keeps core o w))
        λ _.
          then-Keeps (invalidate_branch_orders_cache o.branch_id)
            (λ _. announce_update u >> pure (status_response u))
            (λ w.
              ignore-Keeps w
                (command
                  (λ now r. (tt, record r { branch_orders = erase o.branch_id r.branch_orders })) w)
                (command-Keeps _ w))
            (λ _ w. (refl, refl))

  update_order-Tables :
      (o : OrderEntity) (w : World)
      → Tables (λ d. (d ≡ w.db) ⊎ Updated w o d) (update_order core actor status reason o w)
  unfolding update_order after_update
  update_order-Tables o w =
      let Done = λ (d : Db). (d ≡ w.db) ⊎ Updated w o d in
      Checks-Tables (Accepted w o) Done w
        (λ c. transaction (update_writes o.public_id status c.1 reason c.0) >>= after_update o)
        (check_update core actor status reason o w) (check_update-Checks o w) (inl refl)
        λ (who, stamp) v d t lawful.
          let writes = update_writes o.public_id status stamp reason who in
          bind-Tables Done (after_update o) (transaction writes v)
            (transaction-Tables Done writes v (inl d) λ fs.
              weaken (λ u z. (gs : List Bool) → Written v.now v.db o who z.db)
                (λ u z. (gs : List Bool) → Done z.db) (writes (record v { faults = fs }))
                (update_writes-Ensures o who stamp (record v { faults = fs })
                  (assert_transition-stamp o.status status (context_of who o) w.now stamp lawful.2))
                (λ u z q gs. inr (record {
                  who = who;
                  stamp = stamp;
                  accepted_by = lawful;
                  written =
                      subst (λ n. Written n w.db o who z.db) t
                        (subst (λ x. Written v.now x o who z.db) d (q gs));
                })))
            λ u z p. Tables-of_Keeps Done z (after_update o u z) (after_update-Keeps o u z) p

  -- However a call of `updateStatus` ends, the tables are as they were, or all of this happened and
  -- nothing else: the order was found; the caller may act on it as some actor, and as a member of the
  -- staff has, in the cache of the process or by the answer of the core service, the permission for that
  -- status; the status machine accepted the transition for that actor at that time; the order took the
  -- new status, with the time in the column of that status and in no other; and the outbox took the event
  -- of the status, where it has one. The agent of an order that is cancelled stays in its row.
  pub update_status-Tables :
      (public_id : String) (w : World)
      → Tables
          (λ d.
            (d ≡ w.db)
            ⊎ ((o : OrderEntity) × (find_order_by_public_id public_id w.now w.db ≡ some o)
                × Updated w o d))
          (update_status core actor public_id status reason w)
  unfolding update_status
  update_status-Tables public_id w =
      Reads-Tables (λ found. found ≡ find_order_by_public_id public_id w.now w.db) Done w
        (λ found. lift (or_throw found order_not_found) >>= update_order core actor status reason)
        (query (find_order_by_public_id public_id) w)
        (answer-Reads w (λ v. find_order_by_public_id public_id v.now v.db) (λ fs. refl)) (inl refl)
        by_found
    where
      Done : Db → Type 0
      Done d =
          (d ≡ w.db)
          ⊎ ((o : OrderEntity) × (find_order_by_public_id public_id w.now w.db ≡ some o)
              × Updated w o d)

      by_found :
          (found : Option OrderEntity) (fs : List Bool)
          → found ≡ find_order_by_public_id public_id w.now w.db
          → Tables Done (
              (lift (or_throw found order_not_found) >>= update_order core actor status reason)
                (at_faults w fs))
      by_found none fs e = inl refl
      by_found (some o) fs e =
          moved (update_order core actor status reason o (at_faults w fs))
            (update_order-Tables o (at_faults w fs))
        where
          same_world : (d : Db) → Updated (at_faults w fs) o d → Updated w o d
          same_world d u = record {
            who = u.who;
            stamp = u.stamp;
            accepted_by = may u.who u.stamp u.accepted_by;
            written = u.written;
          }
            where
              may :
                  (who : StatusActor) (stamp : Option StampColumn)
                  → Accepted (at_faults w fs) o (who, stamp)
                  → Accepted w o (who, stamp)
              may restaurant_member stamp a = a
              may customer stamp a = a
              may agent stamp a = a
              may system stamp a = a
              may admin stamp a = a

          moved :
              (r : Result OrderStatusResponse × World)
              → Tables (λ d. (d ≡ w.db) ⊎ Updated (at_faults w fs) o d) r
              → Tables Done r
          moved (_, z) (inl d) = inl d
          moved (_, z) (inr u) = inr (o, sym e, same_world z.db u)
