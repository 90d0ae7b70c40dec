-- ===== src/Agent/Settlement/Outcome.antt =====
-- How a call of `settleDelivered` can end.
use quick_bite_order_service.Agent.Settlement.{
  announce_status, check_settleable, clear_busy, commission_bps_of, drop_claim, order_to_settle,
  settle_order, settle_writes, share_of,
}
use quick_bite_order_service.Agent.Settlement.Writes.{Settled, settle_writes-Settled}
use quick_bite_order_service.Common.{
  Bool, List, Option, String, inl, inr, none, refl, some, subst, ℕ, ◌≡◌, ◌⊎◌,
}
use quick_bite_order_service.Core.Client.{CoreService, get_branch}
use quick_bite_order_service.Core.Client.Frame.{get_branch-Keeps}
use quick_bite_order_service.Core.Model.{CoreBranchMetadata}
use quick_bite_order_service.Errors.{Result, err, ok, or_throw, order_not_found}
use quick_bite_order_service.Order.Model.{OrderEntity}
use quick_bite_order_service.Order.Repository.{find_order_by_public_id}
use quick_bite_order_service.World.Frame.{
  Keeps, Tables, Tables-of_Keeps, bind-Keeps, bind-Tables, bind-Keeps-Ensures, bind-Keeps-Tables,
  command-Keeps, or_null-Keeps, query-Keeps, transaction-Tables, weaken,
}
use quick_bite_order_service.World.Monad.{
  M, bind_result, lift, or_null, pure, transaction, ◌>>=◌, ◌>>◌,
}
use quick_bite_order_service.World.Rules.{Ensures, bind_call, bind-Ensures, transaction-Ensures}
use quick_bite_order_service.World.State.{Db, World}

-- The tables after a settlement of `o`, under some commission.
abbrev pub SettledAs : OrderEntity → String → ℕ → String → ℕ → ℕ → Db → OrderEntity → Db → Type 0
SettledAs o public_id agent_id region earning now d u d' =
    (commission : ℕ) × Settled o public_id agent_id region commission earning now d u d'

module _ (public_id : String) (agent_id : ℕ) where
  found_lem :
      (found : Option OrderEntity) (w : World)
      → Ensures
          (λ o v.
            (v.db ≡ w.db)
            × (v.now ≡ w.now)
            × (found ≡ some o)
            × (check_settleable o agent_id ≡ ok tt))
          (bind_result
            (λ o. lift (check_settleable o agent_id) >> pure o)
            (lift (or_throw found order_not_found) w))
  found_lem none w = tt
  found_lem (some o) w = checked_lem (check_settleable o agent_id) refl
    where
      checked_lem :
          (r : Result (Unit {0}))
          → check_settleable o agent_id ≡ r
          → Ensures
              (λ o' v.
                (v.db ≡ w.db)
                × (v.now ≡ w.now)
                × (some o ≡ some o')
                × (check_settleable o' agent_id ≡ ok tt))
              (bind_result (λ _. pure o) (lift r w))
      checked_lem (ok tt) e = (refl, refl, refl, e)
      checked_lem (err x) e = tt

  pub order_to_settle-Ensures :
      (w : World)
      → Ensures
          (λ o v.
            (v.db ≡ w.db)
            × (v.now ≡ w.now)
            × (find_order_by_public_id public_id w.now w.db ≡ some o)
            × (check_settleable o agent_id ≡ ok tt))
          (order_to_settle public_id agent_id w)
  order_to_settle-Ensures w =
      bind_call _ _ _ w
        λ fs. found_lem (find_order_by_public_id public_id w.now w.db) (record w { faults = fs })

  checked-Keeps :
      (o : OrderEntity) (w : World)
      → Keeps w (bind_result {A = Unit {0}} (λ _. pure o) (lift (check_settleable o agent_id) w))
  checked-Keeps o w =
      bind-Keeps w (λ _. pure o) (lift (check_settleable o agent_id) w) (refl, refl)
        (λ _ v. (refl, refl))

  pub order_to_settle-Keeps : (w : World) → Keeps w (order_to_settle public_id agent_id w)
  order_to_settle-Keeps w =
      bind-Keeps w _ _ (query-Keeps (find_order_by_public_id public_id) w) λ found v.
        bind-Keeps v (λ o. lift (check_settleable o agent_id) >> pure o)
          (lift (or_throw found order_not_found) v) (refl, refl) checked-Keeps

-- After the commit Redis and the sockets are told: no table changes.
after_commit : String → ℕ → OrderEntity → M OrderEntity
after_commit public_id agent_id updated = do
  clear_busy agent_id
  drop_claim public_id
  announce_status updated
  pure updated

after_commit-Keeps :
    (public_id : String) (agent_id : ℕ) (u : OrderEntity) (w : World)
    → Keeps w (after_commit public_id agent_id u w)
unfolding after_commit
after_commit-Keeps public_id agent_id u w =
    bind-Keeps w (λ _. drop_claim public_id >> (announce_status u >> pure u))
      (clear_busy agent_id w) (command-Keeps _ w)
      λ _ v.
        bind-Keeps v (λ _. announce_status u >> pure u) (drop_claim public_id v) (command-Keeps _ v)
          (λ _ z. (refl, refl))

module _ (core : CoreService) (share : ℕ) (public_id : String) (agent_id : ℕ) (region : String)
    (o : OrderEntity) where
  -- The commission that the settlement charges, from the branch that it could fetch.
  abbrev charged : Option CoreBranchMetadata → ℕ
  charged branch = share_of o.subtotal (commission_bps_of branch)

  abbrev writes : Option CoreBranchMetadata → M OrderEntity
  writes branch =
      settle_writes o public_id agent_id region (charged branch) (share_of o.delivery_fee share)

  abbrev HasSettled : ℕ → Db → OrderEntity → Db → Type 0
  HasSettled = SettledAs o public_id agent_id region (share_of o.delivery_fee share)

  writes-HasSettled :
      (branch : Option CoreBranchMetadata) (w : World) (fs : List Bool)
      → Ensures
          (λ u v. (gs : List Bool) → HasSettled w.now w.db u v.db)
          (writes branch (record w { faults = fs }))
  writes-HasSettled branch w fs =
      weaken _ _ (writes branch (record w { faults = fs }))
        (settle_writes-Settled o public_id agent_id region (charged branch)
          (share_of o.delivery_fee share) (record w { faults = fs }))
        (λ u v q gs. (charged branch, q gs))

  -- A settlement that returns has written all of it.
  pub settle_order-Ensures :
      (w : World)
      → Ensures
          (λ u v. HasSettled w.now w.db u v.db)
          (settle_order core share public_id agent_id region o w)
  unfolding settle_order after_commit
  settle_order-Ensures w =
      bind-Keeps-Ensures _ w _ (or_null (get_branch core o.branch_id) w)
        (or_null-Keeps w (get_branch core o.branch_id w) (get_branch-Keeps core o.branch_id w))
        λ branch v d t.
          subst (λ x. Ensures (λ u z. HasSettled w.now x u z.db) (settled_by branch v)) d
            (subst (λ x. Ensures (λ u z. HasSettled x v.db u z.db) (settled_by branch v)) t
              (settled_by-Ensures branch v))
    where
      settled_by : Option CoreBranchMetadata → M OrderEntity
      settled_by branch = transaction (writes branch) >>= after_commit public_id agent_id

      settled_by-Ensures :
          (branch : Option CoreBranchMetadata) (v : World)
          → Ensures (λ u z. HasSettled v.now v.db u z.db) (settled_by branch v)
      settled_by-Ensures branch v =
          bind-Ensures (λ u z. HasSettled v.now v.db u z.db) _ (after_commit public_id agent_id)
            (transaction (writes branch) v)
            (transaction-Ensures (λ u z. HasSettled v.now v.db u z.db) (writes branch) v
              (writes-HasSettled branch v))
            λ u z q. bind_call _ _ _ z λ _. bind_call _ _ _ _ λ _. q

  -- However a settlement ends, its writes are all there or none is.
  pub settle_order-Tables :
      (w : World)
      → Tables
          (λ d. (d ≡ w.db) ⊎ ((u : OrderEntity) × HasSettled w.now w.db u d))
          (settle_order core share public_id agent_id region o w)
  unfolding settle_order after_commit
  settle_order-Tables w =
      let Done = λ (x : Db). (x ≡ w.db) ⊎ ((u : OrderEntity) × HasSettled w.now w.db u x) in
      let rest = λ (branch : Option CoreBranchMetadata).
        transaction (writes branch) >>= after_commit public_id agent_id in
      bind-Keeps-Tables Done w rest (or_null (get_branch core o.branch_id) w)
        (or_null-Keeps w (get_branch core o.branch_id w) (get_branch-Keeps core o.branch_id w))
        (inl refl)
        λ branch v d t.
          bind-Tables Done (after_commit public_id agent_id) (transaction (writes branch) v)
            (transaction-Tables Done (writes branch) v (inl d) (λ fs.
              weaken (λ u z. (gs : List Bool) → HasSettled v.now v.db u z.db)
                (λ u z. (gs : List Bool) → Done z.db) (writes branch (record v { faults = fs }))
                (writes-HasSettled branch v fs)
                (λ u z q gs. inr (
                  u,
                  subst (λ x. HasSettled w.now x u z.db) d
                      (subst (λ x. HasSettled x v.db u z.db) t (q gs)),
                ))))
            λ u z p.
              Tables-of_Keeps Done z (after_commit public_id agent_id u z)
                (after_commit-Keeps public_id agent_id u z) p
