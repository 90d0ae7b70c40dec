-- ===== src/Assignment/Offers/Tick.antt =====
-- One pass of the worker over a region.
use quick_bite_order_service.Assignment.Config.{CacheServer, DeliveryConfig}
use quick_bite_order_service.Assignment.Offers.{
  Outcome, TickResult, exhausted, is_offered, no_candidates, offer_all, offered, skipped,
  tick_region, try_assign,
}
use quick_bite_order_service.Assignment.Offers.Untouched.{try_assign-Keeps}
use quick_bite_order_service.Common.{
  All, All-take, Bool, List, [], ap, arith, false, if◌then◌else◌, inl, inr, is_some, keep, length,
  ltb, nat_eq, none, not, refl, sort_by, string_eq, subst, suc, sym, take, true, zero, ℕ, ◌&&◌, ◌+◌,
  ◌==◌, ◌∙◌, ◌∷◌, ◌≡◌, ◌≢◌, ◌≤◌, ◌⊎◌,
}
use quick_bite_order_service.Core.Client.{CoreService}
use quick_bite_order_service.Errors.{Result, err, ok}
use quick_bite_order_service.Http.Cursor.Order.{All-sort}
use quick_bite_order_service.Order.Model.{OrderEntity, actor_eq, ready, status_eq}
use quick_bite_order_service.Order.Repository.{find_ready_unassigned}
use quick_bite_order_service.World.Monad.{bind_result, call, call_on, optional_result, pure, ◌>>=◌}
use quick_bite_order_service.World.Reads.{at_faults}
use quick_bite_order_service.World.State.{World}

length-take : {A : Type 0} (n : ℕ) (xs : List A) → length (take n xs) ≤ n
length-take zero xs = omega arith
length-take (suc n) [] = omega arith
length-take (suc n) (x ∷ xs) = omega (arith, length-take n xs)

same_pair : (a b : ℕ) → ◌≡◌ {A = ℕ × ℕ} (a, b) (a + 0, b + 0)
same_pair a b = ground arith

from_zero : (a b : ℕ) → ◌≡◌ {A = ℕ × ℕ} (0 + a, 0 + b) (a, b)
from_zero a b = ground arith

module _ (core : CoreService) (server : CacheServer) (config : DeliveryConfig) where
  -- The orders are tried one after the other, each in the world that the one before left; those whose
  -- attempt ends with an offer are counted as offered, all others, failed attempts included, as skipped.
  abbrev pub Ran : World → List OrderEntity → ℕ → ℕ → World → Type 0
  Ran w [] made missed v = (made ≡ 0) × (missed ≡ 0) × (v ≡ w)
  Ran w (o ∷ os) made missed v =
      (u : World) × (((try_assign core server config o w ≡ (ok offered, u))
          × ((k : ℕ) × (made ≡ suc k) × Ran u os k missed v))
        ⊎ ((r : Result Outcome) × (try_assign core server config o w ≡ (r, u))
            × (r ≢ ok offered)
            × ((k : ℕ) × (missed ≡ suc k) × Ran u os made k v)))

  -- How the loop ends: it returns, with `m` more offered and `n` more skipped.
  record Ends (os : List OrderEntity) (made missed : ℕ) (w : World) (r : Result (ℕ × ℕ) × World)
      : Type 0 where
    m : ℕ
    n : ℕ
    v : World
    returned : r ≡ (ok (made + m, missed + n), v)
    ran : Ran w os m n v
    each_once : m + n ≡ length os
    same_db : v.db ≡ w.db

  one_offered :
      (o : OrderEntity) (os : List OrderEntity) (made missed : ℕ) (w u : World)
      (r : Result (ℕ × ℕ) × World)
      → try_assign core server config o w ≡ (ok offered, u)
      → u.db ≡ w.db
      → Ends os (made + 1) missed u r
      → Ends (o ∷ os) made missed w r
  one_offered o os made missed w u r e d rest = record {
    m = suc rest.m;
    n = rest.n;
    v = rest.v;
    returned = rest.returned ∙ ap (λ x. (ok (x, missed + rest.n), rest.v)) (omega arith);
    ran = (u, inl (e, (rest.m, refl, rest.ran)));
    each_once = omega (arith, rest.each_once);
    same_db = rest.same_db ∙ d;
  }

  one_skipped :
      (o : OrderEntity) (os : List OrderEntity) (made missed : ℕ) (w u : World)
      (r : Result (ℕ × ℕ) × World) (out : Result Outcome)
      → out ≢ ok offered
      → try_assign core server config o w ≡ (out, u)
      → u.db ≡ w.db
      → Ends os made (missed + 1) u r
      → Ends (o ∷ os) made missed w r
  one_skipped o os made missed w u r out other e d rest = record {
    m = rest.m;
    n = suc rest.n;
    v = rest.v;
    returned = rest.returned ∙ ap (λ x. (ok (made + rest.m, x), rest.v)) (omega arith);
    ran = (u, inr (out, e, other, (rest.n, refl, rest.ran)));
    each_once = omega (arith, rest.each_once);
    same_db = rest.same_db ∙ d;
  }

  offer_all-Ends :
      (os : List OrderEntity) (made missed : ℕ) (w : World)
      → Ends os made missed w (offer_all core server config os made missed w)
  unfolding offer_all
  offer_all-Ends [] made missed w = record {
    m = 0;
    n = 0;
    v = w;
    returned = ap (λ x. (ok x, w)) (same_pair made missed);
    ran = (refl, refl, refl);
    each_once = refl;
    same_db = refl;
  }
  offer_all-Ends (o ∷ os) made missed w =
      by_result (try_assign core server config o w) refl
        (λ made missed u. offer_all-Ends os made missed u)
    where
      by_result :
          (r : Result Outcome × World)
          → try_assign core server config o w ≡ r
          → ((made missed : ℕ) (u : World)
              → Ends os made missed u (offer_all core server config os made missed u))
          → Ends (o ∷ os) made missed w (
              bind_result
                (λ result.
                  if is_offered result
                  then offer_all core server config os (made + 1) missed
                  else offer_all core server config os made (missed + 1))
                (optional_result r))
      by_result (r, u) e ih =
          by_outcome r u e
            (subst (λ x. x.1.db ≡ w.db) e (try_assign-Keeps core server config o w).0) ih
        where
          by_outcome :
              (r : Result Outcome) (u : World)
              → try_assign core server config o w ≡ (r, u)
              → u.db ≡ w.db
              → ((made missed : ℕ) (x : World)
                  → Ends os made missed x (offer_all core server config os made missed x))
              → Ends (o ∷ os) made missed w (
                  bind_result
                    (λ result.
                      if is_offered result
                      then offer_all core server config os (made + 1) missed
                      else offer_all core server config os made (missed + 1))
                    (optional_result (r, u)))
          by_outcome (ok offered) u e d ih =
              one_offered o os made missed w u _ e d (ih (made + 1) missed u)
          by_outcome (ok skipped) u e d ih =
              one_skipped o os made missed w u _ (ok skipped) (λ f. cc) e d (ih made (missed + 1) u)
          by_outcome (ok exhausted) u e d ih =
              one_skipped o os made missed w u _ (ok exhausted) (λ f. cc) e d
                (ih made (missed + 1) u)
          by_outcome (ok no_candidates) u e d ih =
              one_skipped o os made missed w u _ (ok no_candidates) (λ f. cc) e d
                (ih made (missed + 1) u)
          by_outcome (err x) u e d ih =
              one_skipped o os made missed w u _ (err x) (λ f. cc) e d (ih made (missed + 1) u)

  -- An order that waits for an agent.
  abbrev pub Waits : OrderEntity → Type 0
  Waits o = (o.status ≡ ready) × (o.delivery_agent_id ≡ none)

  -- The orders that wait, the oldest first, up to a batch.
  abbrev pub next_batch : List OrderEntity → List OrderEntity
  next_batch rows = take config.batch (
      sort_by (λ a b. ltb a.created_at b.created_at)
        (keep (λ o. o.status == ready && not (is_some o.delivery_agent_id)) rows))

  next_batch-Waits : (rows : List OrderEntity) → All Waits (next_batch rows)
  next_batch-Waits rows = All-take Waits config.batch _ (
      All-sort (λ a b. ltb a.created_at b.created_at) Waits
        (keep (λ o. o.status == ready && not (is_some o.delivery_agent_id)) rows) (kept rows))
    where
      kept :
          (rows : List OrderEntity)
          → All Waits (keep (λ o. o.status == ready && not (is_some o.delivery_agent_id)) rows)
      kept [] = tt
      kept (o ∷ os) = one (o.status == ready && not (is_some o.delivery_agent_id)) refl (kept os)
        where
          one :
              (b : Bool)
              → o.status == ready && not (is_some o.delivery_agent_id) ≡ b
              → All Waits (keep (λ x. x.status == ready && not (is_some x.delivery_agent_id)) os)
              → All Waits (
                  if b
                  then o ∷ keep (λ x. x.status == ready && not (is_some x.delivery_agent_id)) os
                  else keep (λ x. x.status == ready && not (is_some x.delivery_agent_id)) os)
          one true h rest = ((ground arith, ground arith), rest)
          one false h rest = rest

  -- The pass returned after it tried its orders, or the first call, the query for them, was to fail.
  abbrev pub Passed : World → Result TickResult × World → Type 0
  Passed w (ok t, v) =
      (fs : List Bool) × Ran (at_faults w fs) (next_batch w.db.orders.rows) t.offered_count
        t.skipped_count v
      × All Waits (next_batch w.db.orders.rows)
      × (t.processed ≡ length (next_batch w.db.orders.rows))
      × (t.offered_count + t.skipped_count ≡ t.processed)
      × (t.processed ≤ config.batch)
      × (v.db ≡ w.db)
  Passed w (err _, v) = (v.db ≡ w.db) × ((fs : List Bool) × (w.faults ≡ true ∷ fs))

  module _ (w : World) where
    orders : List OrderEntity
    orders = find_ready_unassigned config.batch w.now w.db

    summed :
        (fs : List Bool) (r : Result (ℕ × ℕ) × World)
        → Ends orders 0 0 (at_faults w fs) r
        → Passed w (
            bind_result
              (λ counts. pure (record {
                processed = length orders;
                offered_count = counts.0;
                skipped_count = counts.1;
              }))
              r)
    unfolding orders find_ready_unassigned
    summed fs r h =
        subst
          (λ x. Passed w (
            bind_result
              (λ counts. pure (record {
                processed = length orders;
                offered_count = counts.0;
                skipped_count = counts.1;
              }))
              x))
          (sym (h.returned ∙ ap (λ x. (ok x, h.v)) (from_zero h.m h.n)))
          (
            fs,
            h.ran,
            next_batch-Waits w.db.orders.rows,
            refl,
            h.each_once,
            length-take config.batch _,
            h.same_db,
          )

    started :
        (l : List Bool)
        → w.faults ≡ l
        → Passed w (
            bind_result
              (λ os. offer_all core server config os 0 0 >>= λ counts. pure (record {
                processed = length os;
                offered_count = counts.0;
                skipped_count = counts.1;
              }))
              (call_on (λ v. (ok (find_ready_unassigned config.batch v.now v.db), v)) l w))
    unfolding orders
    started [] e = summed [] _ (offer_all-Ends orders 0 0 (at_faults w []))
    started (true ∷ fs) e = (refl, (fs, e))
    started (false ∷ fs) e = summed fs _ (offer_all-Ends orders 0 0 (at_faults w fs))

  -- A pass changes no table, and it returns unless the query for the orders fails. It takes exactly the
  -- ready orders without an agent, the oldest first and at most a batch of them, tries each once, and
  -- counts those whose attempt ended with an offer as offered and all others as skipped, attempts that
  -- threw included.
  pub tick_region-Passed : (w : World) → Passed w (tick_region core server config w)
  unfolding tick_region call
  tick_region-Passed w = started w w.faults refl
