-- ===== src/Assignment/Claims/Once.antt =====
-- An order is taken once.
use quick_bite_order_service.Assignment.Claims.{
  admin_assign, announce_assignment, assign_order, claim, claim_transaction, find_and_take,
  lock_claim, read_offer, take_ready_order, without,
}
use quick_bite_order_service.Assignment.Claims.Lawful.{
  Listed, announce_assignment-Keeps, lock_claim-Checks, read_offer-Reads,
}
use quick_bite_order_service.Assignment.Claims.Taken.{
  Taken, claim_transaction-Ensures, claim_transaction-Tables, find_and_take-Ensures,
  take_ready_order-Ensures,
}
use quick_bite_order_service.Assignment.Config.{DeliveryConfig}
use quick_bite_order_service.Common.{
  Bool, List, String, [], arith, false, find, inl, inr, nat_eq, none, refl, string_eq, subst, sym,
  update, ℕ, ◌∷◌, ◌≡◌, ◌⊎◌,
}
use quick_bite_order_service.Core.Client.{CoreService}
use quick_bite_order_service.Errors.{ok}
use quick_bite_order_service.Order.Model.{OrderEntity, actor_eq, status_eq}
use quick_bite_order_service.Order.Repository.{assign_to, claimable}
use quick_bite_order_service.World.Cache.{live}
use quick_bite_order_service.World.Checks.{Checks-Ensures, Checks-Tables}
use quick_bite_order_service.World.Frame.{
  Ensures-of_Keeps, Refused, Refused-Tables, Tables-of_Keeps, bind-Tables, of_Ensures, weaken,
}
use quick_bite_order_service.World.Monad.{M, ◌>>=◌}
use quick_bite_order_service.World.Reads.{Reads-Ensures, Reads-Refused, at_faults}
use quick_bite_order_service.World.Rules.{Ensures, bind-Ensures}
use quick_bite_order_service.World.State.{Db, DeliveryTaskResponse, World}

find-update_gone :
    {A : Type 0} (p : A → Bool) (g : A → A) (xs : List A)
    → ((x : A) → p (g x) ≡ false)
    → find p (update p g xs) ≡ none
find-update_gone p g [] h = refl
find-update_gone p g (x ∷ xs) h = ground (arith, h x, find-update_gone p g xs h)

module _ (public_id : String) where
  -- No row of the order is ready and without an agent.
  abbrev pub Gone : Db → Type 0
  Gone d = find (claimable public_id) d.orders.rows ≡ none

  assigned_not_claimable :
      (agent_id now : ℕ) (o : OrderEntity) → claimable public_id (assign_to agent_id now o) ≡ false
  assigned_not_claimable agent_id now o = ground arith

  pub Gone-Taken :
      (agent_id now : ℕ) (d d' : Db) (o : OrderEntity)
      → Taken public_id agent_id now d o d'
      → Gone d'
  Gone-Taken agent_id now d d' o t = subst Gone (sym t.rows) (
      find-update_gone (claimable public_id) (assign_to agent_id now) d.orders.rows
        (assigned_not_claimable agent_id now))

  none-Taken :
      (agent_id now : ℕ) (d d' : Db) (o : OrderEntity)
      → Gone d
      → Taken public_id agent_id now d o d'
      → ⊥
  none-Taken agent_id now d d' o g t = cc (g, t.found)

module _ (core : CoreService) (config : DeliveryConfig) (public_id : String) (agent_id : ℕ) where
  -- If it returns, the order is gone.
  assign_order-Gone :
      (w : World) (body : M OrderEntity) (losers : List ℕ)
      → ((v : World) → Ensures (λ o u. Taken public_id agent_id v.now v.db o u.db) (body v))
      → Ensures
          (λ _ v. Gone public_id v.db)
          (assign_order core config public_id agent_id losers body w)
  unfolding assign_order
  assign_order-Gone w body losers taken =
      let finish = announce_assignment core public_id agent_id losers in
      Checks-Ensures (λ _. live w.now public_id w.redis.claims ≡ none) (λ _ v. Gone public_id v.db)
        w (λ _. claim_transaction public_id body >>= finish)
        (lock_claim config public_id agent_id w) (lock_claim-Checks config public_id agent_id w)
        λ _ v d t free.
          bind-Ensures (λ _ u. Gone public_id u.db) (λ _ u. Gone public_id u.db) finish
            (claim_transaction public_id body v)
            (claim_transaction-Ensures public_id (λ _. Gone public_id) body v
              λ fs.
                weaken (λ o u. Taken public_id agent_id v.now v.db o u.db)
                  (λ _ u. Gone public_id u.db) (body (at_faults v fs)) (taken (at_faults v fs))
                  λ o u q. Gone-Taken public_id agent_id v.now v.db u.db o q)
            λ o u p.
              Ensures-of_Keeps (Gone public_id) u (finish o u)
                (announce_assignment-Keeps core public_id agent_id losers o u) p

  -- Where the order is gone, the attempt is refused.
  assign_order-Refused :
      (w : World) (body : M OrderEntity) (losers : List ℕ)
      → ((v : World) → Ensures (λ o u. Taken public_id agent_id v.now v.db o u.db) (body v))
      → Gone public_id w.db
      → Refused w.db (assign_order core config public_id agent_id losers body w)
  unfolding assign_order
  assign_order-Refused w body losers taken gone =
      let finish = announce_assignment core public_id agent_id losers in
      let never =
        λ (v : World) (d : v.db ≡ w.db) (Q : OrderEntity → World → Type 0) (fs : List Bool).
          weaken (λ o u. Taken public_id agent_id v.now v.db o u.db) Q (body (at_faults v fs))
            (taken (at_faults v fs))
            λ o u q. absurd (
              none-Taken public_id agent_id v.now v.db u.db o (subst (Gone public_id) (sym d) gone)
                q) in
      Refused-Tables w.db (assign_order core config public_id agent_id losers body w)
        (Checks-Tables (λ _. live w.now public_id w.redis.claims ≡ none) (λ d. d ≡ w.db) w
          (λ _. claim_transaction public_id body >>= finish)
          (lock_claim config public_id agent_id w) (lock_claim-Checks config public_id agent_id w)
          refl
          λ _ v d t free.
            bind-Tables (λ x. x ≡ w.db) finish (claim_transaction public_id body v)
              (claim_transaction-Tables public_id (λ x. x ≡ w.db) body v d
                (never v d (λ o u. u.db ≡ w.db)))
              λ o u p.
                Tables-of_Keeps (λ x. x ≡ w.db) u (finish o u)
                  (announce_assignment-Keeps core public_id agent_id losers o u) p)
        (Checks-Ensures (λ _. live w.now public_id w.redis.claims ≡ none) (λ _ _. ⊥) w
          (λ _. claim_transaction public_id body >>= finish)
          (lock_claim config public_id agent_id w) (lock_claim-Checks config public_id agent_id w)
          λ _ v d t free.
            bind-Ensures (λ _ _. ⊥) (λ _ _. ⊥) finish (claim_transaction public_id body v)
              (claim_transaction-Ensures public_id (λ _ _. ⊥) body v (never v d (λ _ _. ⊥)))
              λ o u p. absurd p)

  claim-Refused :
      (w : World) → Gone public_id w.db → Refused w.db (claim core config public_id agent_id w)
  unfolding claim
  claim-Refused w gone =
      let attempt = λ (l : List ℕ).
        assign_order core config public_id agent_id (without agent_id l)
          (find_and_take public_id agent_id) in
      let refused = λ (l : List ℕ) (fs : List Bool).
        assign_order-Refused (at_faults w fs) (find_and_take public_id agent_id)
          (without agent_id l) (find_and_take-Ensures public_id agent_id) gone in
      Reads-Refused (Listed public_id agent_id w) w attempt (read_offer public_id agent_id w)
        (read_offer-Reads public_id agent_id w) refused

  admin_assign-Refused :
      (w : World)
      → Gone public_id w.db
      → Refused w.db (admin_assign core config public_id agent_id w)
  unfolding admin_assign
  admin_assign-Refused w gone =
      assign_order-Refused w (take_ready_order public_id agent_id) []
        (take_ready_order-Ensures public_id agent_id) gone

  claim-Gone :
      (w : World) → Ensures (λ _ v. Gone public_id v.db) (claim core config public_id agent_id w)
  unfolding claim
  claim-Gone w =
      Reads-Ensures (Listed public_id agent_id w) (λ _ v. Gone public_id v.db) w
        (λ l.
          assign_order core config public_id agent_id (without agent_id l)
            (find_and_take public_id agent_id))
        (read_offer public_id agent_id w) (read_offer-Reads public_id agent_id w)
        λ l fs _.
          assign_order-Gone (at_faults w fs) (find_and_take public_id agent_id) (without agent_id l)
            (find_and_take-Ensures public_id agent_id)

  admin_assign-Gone :
      (w : World)
      → Ensures (λ _ v. Gone public_id v.db) (admin_assign core config public_id agent_id w)
  unfolding admin_assign
  admin_assign-Gone w =
      assign_order-Gone w (take_ready_order public_id agent_id) []
        (take_ready_order-Ensures public_id agent_id)

-- After a claim or an assignment by an administrator has returned, every further claim and every further
-- assignment of the order, for any agent, under any settings, any contents of the cache and any faults,
-- throws and leaves the tables as they are.
pub claim_once :
    (core : CoreService) (config : DeliveryConfig) (public_id : String) (agent_id : ℕ) (w : World)
    {t : DeliveryTaskResponse} {v : World} (z : World) (core' : CoreService)
    (config' : DeliveryConfig) (other : ℕ)
    → (claim core config public_id agent_id w ≡ (ok t, v))
      ⊎ (admin_assign core config public_id agent_id w ≡ (ok t, v))
    → z.db ≡ v.db
    → Refused z.db (claim core' config' public_id other z)
      × Refused z.db (admin_assign core' config' public_id other z)
claim_once core config public_id agent_id w {t} {v} z core' config' other returned same =
    let now_gone : Gone public_id v.db = elim returned [
      | inl e ↦
          of_Ensures (λ _ x. Gone public_id x.db) {a = t} {v = v}
            (claim core config public_id agent_id w) (claim-Gone core config public_id agent_id w) e
      | inr e ↦
          of_Ensures (λ _ x. Gone public_id x.db) {a = t} {v = v}
            (admin_assign core config public_id agent_id w)
            (admin_assign-Gone core config public_id agent_id w) e
    ] in
    let gone = subst (Gone public_id) (sym same) now_gone in
    (
      claim-Refused core' config' public_id other z gone,
      admin_assign-Refused core' config' public_id other z gone,
    )
