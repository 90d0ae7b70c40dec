-- ===== src/Assignment/Claims/Taken.antt =====
-- The transaction in which an order is taken.
use quick_bite_order_service.Agent.Settlement.{drop_claim}
use quick_bite_order_service.Assignment.Claims.{
  claim_transaction, find_and_take, or_unlock, take_ready_order,
}
use quick_bite_order_service.Common.{
  Bool, List, Option, String, [], arith, false, find, find_passes, map-some, none, refl, some,
  subst, sym, true, update, ℕ, ◌∷◌, ◌≡◌,
}
use quick_bite_order_service.Errors.{
  AppError, Result, err, ok, order_not_in_ready_state, unexpected,
}
use quick_bite_order_service.Finance.Payout.{roll_back}
use quick_bite_order_service.Order.Model.{OrderEntity, ready}
use quick_bite_order_service.Order.Repository.{
  assign_to, claim_ready_order_for_agent, claimable, find_order_by_public_id, with_orders,
}
use quick_bite_order_service.World.Frame.{
  Keeps, Tables, Tables-of_Keeps, bind-Keeps, call-Keeps, command-Keeps, then-Keeps,
}
use quick_bite_order_service.World.Monad.{
  M, bind_result, call, call_on, catch, catch_result, throw, ◌>>=◌, ◌>>◌,
}
use quick_bite_order_service.World.Reads.{at_faults, call-Tables}
use quick_bite_order_service.World.Rules.{Ensures, bind-Ensures, bind_call}
use quick_bite_order_service.World.State.{Db, World}

module _ (public_id : String) (agent_id : ℕ) where
  -- A ready order without an agent was found and went to the agent, and no other table moved.
  pub record Taken (now : ℕ) (d : Db) (o : OrderEntity) (d' : Db) : Type 0 where
    pub row : OrderEntity
    pub found : find (claimable public_id) d.orders.rows ≡ some row
    pub is_ready : row.status ≡ ready
    pub is_free : row.delivery_agent_id ≡ none
    pub result : o ≡ assign_to agent_id now row
    pub rows :
        d' ≡ with_orders d (update (claimable public_id) (assign_to agent_id now) d.orders.rows)

  claimable-ready :
      (o : OrderEntity)
      → claimable public_id o ≡ true
      → (o.status ≡ ready) × (o.delivery_agent_id ≡ none)
  claimable-ready o h = (ground arith, ground arith)

  take_Taken :
      (now : ℕ) (d : Db) {o : OrderEntity}
      → (claim_ready_order_for_agent public_id agent_id now d).0 ≡ some o
      → Taken now d o (claim_ready_order_for_agent public_id agent_id now d).1
  unfolding claim_ready_order_for_agent
  take_Taken now d h =
      let (row, found, same) =
        map-some (assign_to agent_id now) (find (claimable public_id) d.orders.rows) h in
      let (is_ready, is_free) =
        claimable-ready row (find_passes (claimable public_id) d.orders.rows found) in
      record {
        row = row;
        found = found;
        is_ready = is_ready;
        is_free = is_free;
        result = sym same;
        rows = refl;
      }

or_unlock-Keeps :
    {A : Type 0} (public_id : String) (o : Option A) (w : World) → Keeps w (or_unlock public_id o w)
or_unlock-Keeps {A} public_id none w =
    then-Keeps {B = A} (drop_claim public_id) (λ _. throw order_not_in_ready_state)
      (λ v. command-Keeps _ v) (λ _ v. (refl, refl)) w
or_unlock-Keeps public_id (some a) w = (refl, refl)

-- What holds of a value that is there.
pub or_unlock-Ensures :
    {A : Type 0} (Q : A → World → Type 0) (public_id : String) (o : Option A) (w : World)
    → ((a : A) → o ≡ some a → Q a w)
    → Ensures Q (or_unlock public_id o w)
or_unlock-Ensures {A} Q public_id none w h =
    bind_call Q _ (λ _. throw order_not_in_ready_state) w (λ fs. tt)
or_unlock-Ensures Q public_id (some a) w h = h a refl

module _ (public_id : String) (agent_id : ℕ) where
  pub take_ready_order-Ensures :
      (w : World)
      → Ensures
          (λ o v. Taken public_id agent_id w.now w.db o v.db)
          (take_ready_order public_id agent_id w)
  take_ready_order-Ensures w =
      let Q = λ (o : OrderEntity) (v : World). Taken public_id agent_id w.now w.db o v.db in
      bind_call Q _ (or_unlock public_id) w λ fs.
        or_unlock-Ensures Q public_id (claim_ready_order_for_agent public_id agent_id w.now w.db).0
          _ λ o h. take_Taken public_id agent_id w.now w.db h

  pub find_and_take-Ensures :
      (w : World)
      → Ensures
          (λ o v. Taken public_id agent_id w.now w.db o v.db)
          (find_and_take public_id agent_id w)
  find_and_take-Ensures w =
      let Q = λ (o : OrderEntity) (v : World). Taken public_id agent_id w.now w.db o v.db in
      bind_call Q _ (λ found. or_unlock public_id found >> take_ready_order public_id agent_id) w
        λ fs.
          bind-Ensures (λ _ v. v ≡ record w { faults = fs }) Q
            (λ _. take_ready_order public_id agent_id)
            (or_unlock public_id (find_order_by_public_id public_id w.now w.db)
              (record w { faults = fs }))
            (or_unlock-Ensures {A = OrderEntity} (λ _ v. v ≡ record w { faults = fs }) public_id
              (find_order_by_public_id public_id w.now w.db) (record w { faults = fs })
              (λ o h. refl))
            λ o v same.
              subst (λ x. Ensures Q (take_ready_order public_id agent_id x)) (sym same)
                (take_ready_order-Ensures (record w { faults = fs }))

module _ (public_id : String) where
  undo : Db → AppError → M OrderEntity
  undo old e = roll_back old >> (drop_claim public_id >> throw e)

  undo-Tables :
      (P : Db → Type 0) (old : Db) (e : AppError) (v : World) → P old → Tables P (undo old e v)
  unfolding undo
  undo-Tables P old e v p =
      let u = record v { db = old } in
      Tables-of_Keeps P u (undo old e v)
        (bind-Keeps u (λ _. drop_claim public_id >> throw e) (roll_back old v)
          (call-Keeps _ u (λ fs. (refl, refl)))
          (λ _.
            then-Keeps {B = OrderEntity} (drop_claim public_id) (λ _. throw e)
              (λ x. command-Keeps _ x) (λ _ x. (refl, refl))))
        p

  committed :
      (P : Db → Type 0) (old : Db) (o : OrderEntity) (l : List Bool) (v : World)
      → P old
      → P v.db
      → Tables P (catch_result (undo old) (call_on (λ x. (ok o, x)) l v))
  committed P old o [] v p q = q
  committed P old o (true ∷ fs) v p q = undo-Tables P old unexpected (at_faults v fs) p
  committed P old o (false ∷ fs) v p q = q

  ends-Tables :
      (P : Db → Type 0) (old : Db) (r : Result OrderEntity × World)
      → P old
      → Ensures (λ o v. P v.db) r
      → Tables P (catch_result (undo old) (bind_result (λ o. call (λ v. (ok o, v))) r))
  unfolding call
  ends-Tables P old (ok o, v) p q = committed P old o v.faults v p q
  ends-Tables P old (err e, v) p q = undo-Tables P old e v p

  pub claim_transaction-Tables :
      (P : Db → Type 0) (body : M OrderEntity) (w : World)
      → P w.db
      → ((fs : List Bool) → Ensures (λ o v. P v.db) (body (at_faults w fs)))
      → Tables P (claim_transaction public_id body w)
  unfolding claim_transaction undo
  claim_transaction-Tables P body w p h =
      call-Tables P (λ v. (ok tt, v)) _ w p
        λ fs. ends-Tables P w.db (body (at_faults w fs)) p (h fs)

  undo-Ensures :
      (Q : OrderEntity → World → Type 0) (old : Db) (e : AppError) (v : World)
      → Ensures Q (undo old e v)
  unfolding undo
  undo-Ensures Q old e v =
      bind_call Q (λ u. (ok tt, u)) (λ _. drop_claim public_id >> throw e) (record v { db = old })
        λ fs. bind_call Q _ (λ _. throw e) (record v { db = old; faults = fs }) (λ gs. tt)

  commits :
      (Q : OrderEntity → Db → Type 0) (old : Db) (o : OrderEntity) (l : List Bool) (v : World)
      → Q o v.db
      → Ensures (λ x u. Q x u.db) (catch_result (undo old) (call_on (λ x. (ok o, x)) l v))
  commits Q old o [] v q = q
  commits Q old o (true ∷ fs) v q = undo-Ensures (λ x u. Q x u.db) old unexpected (at_faults v fs)
  commits Q old o (false ∷ fs) v q = q

  ends-Ensures :
      (Q : OrderEntity → Db → Type 0) (old : Db) (r : Result OrderEntity × World)
      → Ensures (λ o v. Q o v.db) r
      → Ensures
          (λ o v. Q o v.db)
          (catch_result (undo old) (bind_result (λ o. call (λ v. (ok o, v))) r))
  unfolding call
  ends-Ensures Q old (ok o, v) q = commits Q old o v.faults v q
  ends-Ensures Q old (err e, v) q = undo-Ensures (λ x u. Q x u.db) old e v

  pub claim_transaction-Ensures :
      (Q : OrderEntity → Db → Type 0) (body : M OrderEntity) (w : World)
      → ((fs : List Bool) → Ensures (λ o v. Q o v.db) (body (at_faults w fs)))
      → Ensures (λ o v. Q o v.db) (claim_transaction public_id body w)
  unfolding claim_transaction undo
  claim_transaction-Ensures Q body w h =
      bind_call (λ o v. Q o v.db) (λ v. (ok tt, v))
        (λ _ v.
          catch (body >>= λ o. call (λ x. (ok o, x)))
            (λ e. roll_back v.db >> (drop_claim public_id >> throw e)) v)
        w λ fs. ends-Ensures Q w.db (body (at_faults w fs)) (h fs)
