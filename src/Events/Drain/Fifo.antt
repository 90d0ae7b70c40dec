-- ===== src/Events/Drain/Fifo.antt =====
-- A pass publishes the front of the queue, in order.
use mathlib.Core.Option
use quick_bite_order_service.Common.{
  Bool, List, String, [], ap, arith, contains, find, head_of, inl, inr, length, map, nat_eq, refl,
  some, string_eq, subst, suc, sym, take, update, zero, ℕ, ◌+◌, ◌==◌, ◌∙◌, ◌∷◌, ◌≡◌, ◌≤◌, ◌⊎◌,
}
use quick_bite_order_service.Errors.{AppError, Result, err, ok}
use quick_bite_order_service.Events.Drain.{
  drain_batch, drain_outbox, drain_rows, mark_dispatched_batch,
}
use quick_bite_order_service.Events.Drain.Loop.{Drawn, Stopped, drain_rows-Drawn, publish_all}
use quick_bite_order_service.Events.Model.{OutboxRow}
use quick_bite_order_service.Events.Repository.{
  bump, claim_batch, dispatch, mark_dispatched, with_outbox,
}
use quick_bite_order_service.Events.Repository.Queue.{
  IsOutbox, IsOutbox-update, claim_batch-take, drop, event_of, ids-bump, queue, update_nobody,
  waiting, waiting-bump, waiting-dispatch,
}
use quick_bite_order_service.Order.Model.{actor_eq, status_eq}
use quick_bite_order_service.World.Frame.{weaken}
use quick_bite_order_service.World.Monad.{query, transaction, ◌>>=◌}
use quick_bite_order_service.World.Rules.{
  Atomic, Ensures, bind-Ensures, bind_call, last_call, transaction-Atomic, transaction-Ensures,
}
use quick_bite_order_service.World.State.{Db, World}

length-take_le : {A : Type 0} (n : ℕ) (xs : List A) → length (take n xs) ≤ n
length-take_le zero xs = omega arith
length-take_le (suc n) [] = omega arith
length-take_le (suc n) (x ∷ xs) = omega (arith, length-take_le n xs)

take-take :
    {A : Type 0} (n limit : ℕ) (xs : List A)
    → n ≤ length (take limit xs)
    → take n (take limit xs) ≡ take n xs
take-take zero limit xs h = refl
take-take (suc n) zero xs h = absurd (omega (arith, h))
take-take (suc n) (suc limit) [] h = refl
take-take (suc n) (suc limit) (x ∷ xs) h = ap (λ l. x ∷ l) (take-take n limit xs (omega (arith, h)))

head-drop-take :
    {A : Type 0} (n limit : ℕ) (xs : List A) {x : A}
    → head_of (drop n (take limit xs)) ≡ some x
    → head_of (drop n xs) ≡ some x
head-drop-take zero zero xs h = cc
head-drop-take (suc n) zero xs h = cc
head-drop-take zero (suc limit) [] h = h
head-drop-take zero (suc limit) (x ∷ xs) h = h
head-drop-take (suc n) (suc limit) [] h = h
head-drop-take (suc n) (suc limit) (x ∷ xs) h = head-drop-take n limit xs h

head-drop_le :
    {A : Type 0} (n : ℕ) (xs : List A) {x : A} → head_of (drop n xs) ≡ some x → n ≤ length xs
head-drop_le zero xs h = omega arith
head-drop_le (suc n) [] h = cc
head-drop_le (suc n) (y ∷ xs) {x} h = omega (arith, head-drop_le n xs {x = x} h)

map-take : {A B : Type 0} (f : A → B) (n : ℕ) (xs : List A) → map f (take n xs) ≡ take n (map f xs)
map-take f zero xs = refl
map-take f (suc n) [] = refl
map-take f (suc n) (x ∷ xs) = ap (λ l. f x ∷ l) (map-take f n xs)

map-drop : {A B : Type 0} (f : A → B) (n : ℕ) (xs : List A) → map f (drop n xs) ≡ drop n (map f xs)
map-drop f zero xs = refl
map-drop f (suc n) [] = refl
map-drop f (suc n) (x ∷ xs) = map-drop f n xs

length-map-take :
    {A B : Type 0} (f : A → B) (n : ℕ) (xs : List A)
    → length (take n xs) ≡ length (take n (map f xs))
length-map-take f zero xs = refl
length-map-take f (suc n) [] = refl
length-map-take f (suc n) (x ∷ xs) = omega (arith, length-map-take f n xs)

-- One more attempt is counted at the row, and its error is noted.
abbrev pub Failed : ℕ → Db → Db → Type 0
Failed i d d' =
    (message : String) × (Option.map (λ r. r.attempts) (find (λ r. r.id == i) d'.outbox.rows)
      ≡ Option.map (λ r. r.attempts + 1) (find (λ r. r.id == i) d.outbox.rows))

-- What a pass has done: it published the first `count` events of the queue, at most a batch of them,
-- once each and in the order of the queue, and exactly those have left it; unless they are the whole
-- batch, the next one could not be published, and this is recorded at its row.
pub record Drained (region : String) (limit : ℕ) (w v : World) : Type 0 where
  pub count : ℕ
  pub few : count ≤ limit
  pub published :
      v.published ≡ publish_all region w.now (take count (waiting w.db.outbox.rows)) w.published
  pub rest : queue v.db ≡ drop count (queue w.db)
  pub whole :
      (count ≡ length (take limit (queue w.db)))
      ⊎ ((row : OutboxRow) × (head_of (drop count (waiting w.db.outbox.rows)) ≡ some row)
          × Failed row.id w.db v.db)
  pub outbox : IsOutbox v.db

mark_dispatched_batch-Ensures :
    (ids : List ℕ) (w : World)
    → Ensures
        (λ _ v.
          (v.db
            ≡ with_outbox w.db (update (λ r. contains ids r.id) (dispatch w.now) w.db.outbox.rows))
          × (v.published ≡ w.published))
        (mark_dispatched_batch ids w)
unfolding mark_dispatched
mark_dispatched_batch-Ensures [] w =
    (ap (with_outbox w.db) (sym (update_nobody (dispatch w.now) w.db.outbox.rows)), refl)
mark_dispatched_batch-Ensures (id ∷ ids) w = last_call _ _ w λ fs. (refl, refl)

attempts-dispatch :
    (i now : ℕ) (ids : List ℕ) (rows : List OutboxRow)
    → Option.map
        (λ r. r.attempts)
        (find (λ r. r.id == i) (update (λ r. contains ids r.id) (dispatch now) rows))
      ≡ Option.map (λ r. r.attempts) (find (λ r. r.id == i) rows)
attempts-dispatch i now ids [] = refl
attempts-dispatch i now ids (r ∷ rows) = ground (arith, attempts-dispatch i now ids rows)

attempts-bump :
    (i : ℕ) (message : String) (rows : List OutboxRow)
    → Option.map
        (λ r. r.attempts)
        (find (λ r. r.id == i) (update (λ r. r.id == i) (bump message) rows))
      ≡ Option.map (λ r. r.attempts + 1) (find (λ r. r.id == i) rows)
attempts-bump i message [] = refl
attempts-bump i message (r ∷ rows) = ground (arith, attempts-bump i message rows)

module _ (describe : AppError → String) (region : String) (limit : ℕ) where
  -- The rows that the loop leaves: as they were, or with a failure recorded. In both cases the same
  -- events wait, under the same ids.
  record Same (d d' : Db) : Type 0 where
    same_ids : map (λ r. r.id) (waiting d'.outbox.rows) ≡ map (λ r. r.id) (waiting d.outbox.rows)
    same_events : queue d' ≡ queue d
    numbered : IsOutbox d'

  bumped-Same :
      (d : Db) (i : ℕ) (message : String)
      → IsOutbox d
      → Same d (with_outbox d (update (λ r. r.id == i) (bump message) d.outbox.rows))
  bumped-Same d i message h = record {
    same_ids = ids-bump i message d.outbox.rows;
    same_events = waiting-bump i message d.outbox.rows;
    numbered = IsOutbox-update (λ r. r.id == i) (bump message) (λ r. refl) d h;
  }

  Stopped-Same :
      (d d' : Db) (rows : List OutboxRow) (n : ℕ)
      → IsOutbox d
      → Stopped describe region rows n d d'
      → Same d d'
  Stopped-Same d d' rows n h (inl (same, _)) =
      subst (Same d) (sym same) (record { same_ids = refl; same_events = refl; numbered = h })
  Stopped-Same d d' rows n h (inr (row, e, _, same)) =
      subst (Same d) (sym same) (bumped-Same d row.id (describe e) h)

  Stopped-le :
      (d d' : Db) (rows : List OutboxRow) (n : ℕ)
      → Stopped describe region rows n d d'
      → n ≤ length rows
  Stopped-le d d' rows n (inl (_, all)) = omega (arith, all)
  Stopped-le d d' rows n (inr (row, e, at, _)) = head-drop_le n rows {x = row} at

  dispatched : Db → ℕ → List ℕ → Db
  dispatched d now ids =
      with_outbox d (update (λ r. contains ids r.id) (dispatch now) d.outbox.rows)

  Stopped-whole :
      (d d' : Db) (n now : ℕ) (ids : List ℕ)
      → Stopped describe region (take limit (waiting d.outbox.rows)) n d d'
      → (n ≡ length (take limit (queue d)))
        ⊎ ((row : OutboxRow) × (head_of (drop n (waiting d.outbox.rows)) ≡ some row)
            × Failed row.id d (dispatched d' now ids))
  unfolding dispatched
  Stopped-whole d d' n now ids (inl (_, all)) =
      inl (all ∙ length-map-take event_of limit (waiting d.outbox.rows))
  Stopped-whole d d' n now ids (inr (row, e, at, same)) = inr (
    row,
    head-drop-take n limit (waiting d.outbox.rows) at,
    (
      describe e,
      attempts-dispatch row.id now ids d'.outbox.rows
          ∙ ap (λ x. Option.map (λ r. r.attempts) (find (λ r. r.id == row.id) x.outbox.rows)) same
          ∙ attempts-bump row.id (describe e) d.outbox.rows,
    ),
  )

  drained_lem :
      (w v : World) (d' : Db) (n now : ℕ) (ids : List ℕ)
      → IsOutbox w.db
      → Stopped describe region (take limit (waiting w.db.outbox.rows)) n w.db d'
      → ids ≡ take n (map (λ r. r.id) (take limit (waiting w.db.outbox.rows)))
      → v.db ≡ dispatched d' now ids
      → v.published
        ≡ publish_all region w.now (take n (take limit (waiting w.db.outbox.rows))) w.published
      → Drained region limit w v
  unfolding dispatched
  drained_lem w v d' n now ids h stop ids_are db_is sent =
      let all = waiting w.db.outbox.rows in
      let s = Stopped-Same w.db d' (take limit all) n h stop in
      let short = Stopped-le w.db d' (take limit all) n stop in
      let front = take-take n limit all short in
      let ids_now : ids ≡ take n (map (λ r. r.id) (waiting d'.outbox.rows)) =
        ids_are
        ∙ sym (map-take (λ r. r.id) n (take limit all))
        ∙ ap (map (λ r. r.id)) front
        ∙ map-take (λ r. r.id) n all
        ∙ ap (take n) (sym s.same_ids) in
      record {
        count = n;
        few = omega (arith, short, length-take_le limit all);
        published = sent ∙ ap (λ l. publish_all region w.now l w.published) front;
        rest =
            ap queue db_is
            ∙ ap
                (λ l.
                  map event_of
                    (waiting (update (λ r. contains l r.id) (dispatch now) d'.outbox.rows)))
                ids_now
            ∙ ap (map event_of) (waiting-dispatch n now d'.outbox.rows s.numbered.0)
            ∙ map-drop event_of n (waiting d'.outbox.rows)
            ∙ ap (drop n) s.same_events;
        whole =
            subst
              (λ x.
                (n ≡ length (take limit (queue w.db)))
                ⊎ ((row : OutboxRow) × (head_of (drop n all) ≡ some row) × Failed row.id w.db x))
              (sym db_is) (Stopped-whole w.db d' n now ids stop);
        outbox =
            subst IsOutbox (sym db_is)
              (IsOutbox-update (λ r. contains ids r.id) (dispatch now) (λ r. refl) d' s.numbered);
      }

  Drained-at :
      (w v : World) (fs : List Bool)
      → Drained region limit w v
      → Drained region limit w (record v { faults = fs })
  Drained-at w v fs d = record {
    count = d.count;
    few = d.few;
    published = d.published;
    rest = d.rest;
    whole = d.whole;
    outbox = d.outbox;
  }

  -- The rows that were claimed, and the marks at the end.
  drain_batch-Drained :
      (rows : List OutboxRow) (w : World) (fs : List Bool)
      → IsOutbox w.db
      → rows ≡ take limit (waiting w.db.outbox.rows)
      → Ensures
          (λ _ v. Drained region limit w v)
          (drain_batch describe region rows (record w { faults = fs }))
  unfolding dispatched
  drain_batch-Drained [] w fs h e =
      drained_lem w (record w { faults = fs }) w.db 0 w.now [] h (inl (refl, ap length e)) refl
        (ap (with_outbox w.db) (sym (update_nobody (dispatch w.now) w.db.outbox.rows))) refl
  drain_batch-Drained (row ∷ rows) w fs h e =
      let u = record w { faults = fs } in
      bind-Ensures (Drawn describe region (row ∷ rows) [] u) (λ _ v. Drained region limit w v)
        mark_dispatched_batch (drain_rows describe region (row ∷ rows) [] u)
        (drain_rows-Drawn describe region (row ∷ rows) [] u)
        λ ids v drawn.
          weaken _ (λ _ x. Drained region limit w x) (mark_dispatched_batch ids v)
            (mark_dispatched_batch-Ensures ids v)
            λ _ x (db_is, sent).
              drained_lem w x v.db drawn.count v.now ids h
                (subst (λ l. Stopped describe region l drawn.count w.db v.db) e drawn.stopped)
                (drawn.ids_are ∙ ap (λ l. take drawn.count (map (λ r. r.id) l)) e) db_is
                (sent
                  ∙ drawn.published
                  ∙ ap (λ l. publish_all region w.now (take drawn.count l) w.published) e)

  -- A pass that returns has done this; one that throws leaves the queue as it was.
  abbrev pub Drains : World → Result (Unit {0}) × World → Type 0
  Drains w (ok _, v) = Drained region limit w v
  Drains w (err _, v) = v.db ≡ w.db

  both :
      (w : World) (r : Result (Unit {0}) × World)
      → Ensures (λ _ v. Drained region limit w v) r
      → Atomic w.db r
      → Drains w r
  both w (ok u, v) h a = h
  both w (err e, v) h a = a

  -- The outbox of a region is a first-in first-out queue. A pass that returns has published the first
  -- events of the queue, at most a batch of them, once each and in order, and took exactly these off the
  -- queue; it stopped before the end of the batch only at an event that could not be published, which
  -- stays at the front with one more attempt counted. A pass that throws leaves the queue as it was.
  pub drain_outbox-Drains :
      (w : World) → IsOutbox w.db → Drains w (drain_outbox describe region limit w)
  unfolding drain_outbox
  drain_outbox-Drains w h =
      let body = query (claim_batch limit) >>= drain_batch describe region in
      both w (transaction body w)
        (transaction-Ensures (λ _ v. Drained region limit w v) body w
          λ fs.
            bind_call (λ _ v. (gs : List Bool) → Drained region limit w (record v { faults = gs }))
              _ (drain_batch describe region) (record w { faults = fs })
              λ gs.
                weaken (λ _ v. Drained region limit w v)
                  (λ _ v. (hs : List Bool) → Drained region limit w (record v { faults = hs }))
                  (drain_batch describe region (claim_batch limit w.now w.db)
                    (record w { faults = gs }))
                  (drain_batch-Drained (claim_batch limit w.now w.db) w gs h
                    (claim_batch-take limit w.now w.db h.0))
                  λ _ v d hs. Drained-at w v hs d)
        (transaction-Atomic body w)
