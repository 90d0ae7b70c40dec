-- ===== src/Agent/Presence/Offline.antt =====
-- What going offline does.
use quick_bite_order_service.Agent.Presence.{forget_agent, go_offline, not_stuck, picked_order_of}
use quick_bite_order_service.Agent.Settlement.{clear_busy}
use quick_bite_order_service.Common.{
  Bool, Dict, List, Option, [], arith, beq_refl, contains, erase, false, find, if◌then◌else◌, inl,
  inr, keep, lookup, lookup-erase, nat_eq, none, not, refl, some, string_eq, true, update, ℕ, ◌==◌,
  ◌∷◌, ◌≡◌, ◌⊎◌,
}
use quick_bite_order_service.Errors.{ok}
use quick_bite_order_service.Order.Model.{OrderEntity, actor_eq, assigned, picked, ready, status_eq}
use quick_bite_order_service.Order.Repository.{
  back_to_ready, is_held_by, release_assigned_order_to_ready,
}
use quick_bite_order_service.World.Frame.{Keeps, Tables, Tables-of_Keeps, command-Keeps, then-Keeps}
use quick_bite_order_service.World.Monad.{command, ◌>>◌}
use quick_bite_order_service.World.Reads.{call-Tables, lift-Tables}
use quick_bite_order_service.World.Rules.{Ensures, at_tables, bind_call, last_call, lift-Ensures}
use quick_bite_order_service.World.State.{Db, Redis, World}

keep-update_gone :
    {A : Type 0} (p : A → Bool) (g : A → A) (xs : List A)
    → ((x : A) → p (g x) ≡ false)
    → keep p (update p g xs) ≡ []
keep-update_gone p g [] h = refl
keep-update_gone p g (x ∷ xs) h = ground (arith, h x, keep-update_gone p g xs h)

contains-keep_other : (a : ℕ) (l : List ℕ) → contains (keep (λ b. not (b == a)) l) a ≡ false
contains-keep_other a [] = refl
contains-keep_other a (b ∷ l) = ground (arith, contains-keep_other a l)

-- Row by row: an order that was assigned to the agent is ready, without an agent and without the time of
-- its assignment, and no other row changed.
abbrev pub Freed : ℕ → ℕ → List OrderEntity → List OrderEntity → Type 0
Freed agent_id now [] [] = Unit
Freed agent_id now [] (_ ∷ _) = ⊥
Freed agent_id now (_ ∷ _) [] = ⊥
Freed agent_id now (o ∷ os) (p ∷ ps) =
    (((o.delivery_agent_id ≡ some agent_id)
        × (o.status ≡ assigned)
        × (p ≡ record o {
          status = ready;
          delivery_agent_id = none;
          assigned_at = none;
          updated_at = now;
        }))
      ⊎ ((¬ ((o.delivery_agent_id ≡ some agent_id) × (o.status ≡ assigned))) × (p ≡ o)))
    × Freed agent_id now os ps

-- The agent carries no order, the orders that waited for the agent are ready for others again, and
-- nothing else changed in the tables.
pub record Released (agent_id now : ℕ) (d d' : Db) : Type 0 where
  pub carried_none : find (is_held_by agent_id picked) d.orders.rows ≡ none
  pub holds_none : keep (is_held_by agent_id assigned) d'.orders.rows ≡ []
  pub freed : Freed agent_id now d.orders.rows d'.orders.rows
  pub others : d' ≡ record d { orders = record d.orders { rows = d'.orders.rows } }

-- The agent is gone from the keys of the presence; offers and locks are as they were.
pub record IsForgotten (agent_id : ℕ) (r r' : Redis) : Type 0 where
  pub no_meta : lookup agent_id r'.presence ≡ none
  pub no_point : lookup agent_id r'.geo ≡ none
  pub not_busy : contains r'.busy agent_id ≡ false
  pub same_offers : r'.offers ≡ r.offers
  pub same_claims : r'.claims ≡ r.claims

module _ (agent_id : ℕ) where
  not_held :
      (now : ℕ) (o : OrderEntity) → is_held_by agent_id assigned (back_to_ready now o) ≡ false
  not_held now o = refl

  not_stuck-ok : (o : Option OrderEntity) {u : Unit {0}} → not_stuck o ≡ ok u → o ≡ none
  not_stuck-ok none h = refl
  not_stuck-ok (some o) h = cc

  held-facts :
      (o : OrderEntity)
      → is_held_by agent_id assigned o ≡ true
      → (o.delivery_agent_id ≡ some agent_id) × (o.status ≡ assigned)
  held-facts o h = (ground arith, ground arith)

  facts-held :
      (o : OrderEntity)
      → o.delivery_agent_id ≡ some agent_id
      → o.status ≡ assigned
      → is_held_by agent_id assigned o ≡ true
  facts-held o a s = ground (arith, beq_refl agent_id)

  update-Freed :
      (now : ℕ) (rows : List OrderEntity)
      → Freed agent_id now rows (update (is_held_by agent_id assigned) (back_to_ready now) rows)
  update-Freed now [] = tt
  update-Freed now (o ∷ os) = (one (is_held_by agent_id assigned o) refl, update-Freed now os)
    where
      one :
          (b : Bool)
          → is_held_by agent_id assigned o ≡ b
          → ((o.delivery_agent_id ≡ some agent_id)
              × (o.status ≡ assigned)
              × ((if b then back_to_ready now o else o) ≡ record o {
                status = ready;
                delivery_agent_id = none;
                assigned_at = none;
                updated_at = now;
              }))
            ⊎ ((¬ ((o.delivery_agent_id ≡ some agent_id) × (o.status ≡ assigned)))
                × ((if b then back_to_ready now o else o) ≡ o))
      one true h = let (a, s) = held-facts o h in inl (a, s, refl)
      one false h = inr ((λ (a, s). cc (facts-held o a s, h)), refl)

  release-Released :
      (now : ℕ) (d : Db)
      → not_stuck (picked_order_of agent_id now d) ≡ ok tt
      → Released agent_id now d (release_assigned_order_to_ready agent_id now d).1
  unfolding release_assigned_order_to_ready
  release-Released now d h = record {
    carried_none = not_stuck-ok (picked_order_of agent_id now d) h;
    holds_none =
        keep-update_gone (is_held_by agent_id assigned) (back_to_ready now) d.orders.rows
          (not_held now);
    freed = update-Freed now d.orders.rows;
    others = refl;
  }

  erased {κ} : {V : Type κ} (d : Dict ℕ V) → lookup agent_id (erase agent_id d) ≡ none
  erased d = rw (lookup-erase agent_id agent_id d) (rw (beq_refl agent_id) refl)

  -- An agent who has gone offline carried no order; every order that was assigned to the agent is ready
  -- and free again and no other row changed; and the agent is neither online, nor on the map, nor busy.
  -- The locks on those orders stay.
  pub go_offline-Ensures :
      (w : World)
      → Ensures
          (λ _ v. Released agent_id w.now w.db v.db × IsForgotten agent_id w.redis v.redis)
          (go_offline agent_id w)
  unfolding go_offline
  go_offline-Ensures w =
      let Q = λ (u : Unit {0}) (v : World).
        Released agent_id w.now w.db v.db × IsForgotten agent_id w.redis v.redis in
      bind_call Q _ _ w λ fs.
        lift-Ensures Q (not_stuck (picked_order_of agent_id w.now w.db)) _ _ λ u free.
          bind_call Q _ _ _ λ gs. bind_call Q _ _ _ λ hs. bind_call Q _ _ _ λ is.
            last_call Q _ _ λ js. (
              release-Released w.now w.db free,
              record {
                no_meta = erased w.redis.presence;
                no_point = erased w.redis.geo;
                not_busy = contains-keep_other agent_id w.redis.busy;
                same_offers = refl;
                same_claims = refl;
              },
            )

  forget_agent-Keeps : (w : World) → Keeps w (forget_agent agent_id w)
  forget_agent-Keeps =
      then-Keeps (command (λ now r. (tt, record r { presence = erase agent_id r.presence })))
        (λ _.
          command (λ now r. (tt, record r { geo = erase agent_id r.geo })) >> clear_busy agent_id)
        (command-Keeps _)
        λ _.
          then-Keeps (command (λ now r. (tt, record r { geo = erase agent_id r.geo })))
            (λ _. clear_busy agent_id) (command-Keeps _) λ _. command-Keeps _

  -- However going offline ends, the tables are as they were, or the agent carried no order, exactly the
  -- orders that were assigned to the agent are ready, without an agent and without the time of their
  -- assignment, and nothing else changed.
  pub go_offline-Tables :
      (w : World)
      → Tables (λ d. (d ≡ w.db) ⊎ Released agent_id w.now w.db d) (go_offline agent_id w)
  unfolding go_offline
  go_offline-Tables w =
      let P = λ (d : Db). (d ≡ w.db) ⊎ Released agent_id w.now w.db d in
      call-Tables P _ _ w (inl refl) λ fs.
        lift-Tables P (not_stuck (picked_order_of agent_id w.now w.db)) _ _ (inl refl) λ u free.
          call-Tables P _ _ _ (inl refl) λ gs.
            let z = at_tables w gs (release_assigned_order_to_ready agent_id w.now w.db).1 in
            Tables-of_Keeps P z (forget_agent agent_id z) (forget_agent-Keeps z)
              (inr (release-Released w.now w.db free))
