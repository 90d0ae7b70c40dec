-- ===== src/Events/Repository/Queue.antt =====
-- The outbox as a queue: the events that wait, the oldest first.
use quick_bite_order_service.Common.{
  All, Bool, InOrder, List, String, [], ap, arith, beq_refl, contains, false, if◌then◌else◌, keep,
  map, nat_eq, refl, sort_by-InOrder, string_eq, subst, suc, sym, take, true, update, zero, ℕ, ◌++◌,
  ◌+◌, ◌<◌, ◌==◌, ◌∙◌, ◌∷◌, ◌≡◌,
}
use quick_bite_order_service.Events.Model.{
  AggregateType, EventType, InsertOutboxInput, OutboxRow, Payload,
}
use quick_bite_order_service.Events.Repository.{
  bump, claim_batch, dispatch, insert_outbox_event, is_waiting, new_event, row_before, with_outbox,
}
use quick_bite_order_service.Order.Model.{actor_eq, status_eq}
use quick_bite_order_service.World.State.{Db}

-- Each row has a larger id than those before it, and a smaller one than the sequence will give next.
abbrev pub Numbered : List OutboxRow → Type 0
Numbered [] = Unit
Numbered (r ∷ rows) = All (λ s. r.id < s.id) rows × Numbered rows

abbrev pub Below : ℕ → List OutboxRow → Type 0
Below n rows = All (λ r. r.id < n) rows

-- The rows are numbered, and the sequence is ahead of them.
abbrev pub IsOutbox : Db → Type 0
IsOutbox d = Numbered d.outbox.rows × Below d.outbox.next_id d.outbox.rows

-- What a row says, whatever the attempts to publish it.
pub record Event : Type 0 where
  pub id : ℕ
  pub event_id : ℕ
  pub event_type : EventType
  pub aggregate_type : AggregateType
  pub aggregate_id : String
  pub payload : Payload

abbrev pub event_of : OutboxRow → Event
event_of r = record {
  id = r.id;
  event_id = r.event_id;
  event_type = r.event_type;
  aggregate_type = r.aggregate_type;
  aggregate_id = r.aggregate_id;
  payload = r.payload;
}

abbrev pub waiting : List OutboxRow → List OutboxRow
waiting rows = keep is_waiting rows

-- The abstract queue of a region.
abbrev pub queue : Db → List Event
queue d = map event_of (waiting d.outbox.rows)

All-keep : {A : Type 0} (P : A → Type 0) (p : A → Bool) (xs : List A) → All P xs → All P (keep p xs)
All-keep P p [] h = tt
All-keep {A} P p (x ∷ xs) (q, h) = either_way (p x) (keep p xs) (All-keep P p xs h)
  where
    either_way : (b : Bool) (l : List A) → All P l → All P (if b then x ∷ l else l)
    either_way true l k = (q, k)
    either_way false l k = k

Numbered-keep :
    (p : OutboxRow → Bool) (rows : List OutboxRow) → Numbered rows → Numbered (keep p rows)
Numbered-keep p [] h = tt
Numbered-keep p (r ∷ rows) (q, h) =
    either_way (p r) (keep p rows) (All-keep (λ s. r.id < s.id) p rows q) (Numbered-keep p rows h)
  where
    either_way :
        (b : Bool) (l : List OutboxRow)
        → All (λ s. r.id < s.id) l
        → Numbered l
        → Numbered (if b then r ∷ l else l)
    either_way true l k m = (k, m)
    either_way false l k m = m

Numbered-InOrder : (rows : List OutboxRow) → Numbered rows → InOrder row_before rows
Numbered-InOrder [] h = tt
Numbered-InOrder (r ∷ []) h = tt
Numbered-InOrder (r ∷ s ∷ rows) (q, h) = (ground (arith, q.0), Numbered-InOrder (s ∷ rows) h)

-- A batch is the front of the queue.
pub claim_batch-take :
    (limit now : ℕ) (d : Db)
    → Numbered d.outbox.rows
    → claim_batch limit now d ≡ take limit (waiting d.outbox.rows)
unfolding claim_batch
claim_batch-take limit now d h = ap (take limit) (
    sort_by-InOrder row_before (waiting d.outbox.rows)
      (Numbered-InOrder (waiting d.outbox.rows) (Numbered-keep is_waiting d.outbox.rows h)))

-- Rows that no id of the list names stay.
missed :
    (i : ℕ) (ids : List ℕ) (f : OutboxRow → OutboxRow) (rows : List OutboxRow)
    → All (λ s. i < s.id) rows
    → update (λ r. contains (i ∷ ids) r.id) f rows ≡ update (λ r. contains ids r.id) f rows
missed i ids f [] h = refl
missed i ids f (s ∷ rows) (q, h) = ground (arith, q, missed i ids f rows h)

abbrev pub drop : {A : Type 0} → ℕ → List A → List A
drop zero xs = xs
drop (suc n) [] = []
drop (suc n) (x ∷ xs) = drop n xs

pub update_nobody :
    (f : OutboxRow → OutboxRow) (rows : List OutboxRow)
    → update (λ r. contains [] r.id) f rows ≡ rows
update_nobody f [] = refl
update_nobody f (r ∷ rows) = ap (λ l. r ∷ l) (update_nobody f rows)

-- A row that does not wait does not come to wait.
hidden :
    (now : ℕ) (r : OutboxRow) (rows : List OutboxRow) (b : Bool)
    → is_waiting r ≡ false
    → waiting ((if b then dispatch now r else r) ∷ rows) ≡ waiting rows
hidden now r rows true off = refl
hidden now r rows false off = rw off refl

taken_off :
    (now : ℕ) (r : OutboxRow) (ids : List ℕ) (rows : List OutboxRow)
    → All (λ s. r.id < s.id) rows
    → waiting (update (λ s. contains (r.id ∷ ids) s.id) (dispatch now) (r ∷ rows))
      ≡ waiting (update (λ s. contains ids s.id) (dispatch now) rows)
taken_off now r ids rows q = rw (beq_refl r.id) (ap waiting (missed r.id ids (dispatch now) rows q))

-- Dispatching the first of those that wait takes them off the queue.
pub waiting-dispatch :
    (n now : ℕ) (rows : List OutboxRow)
    → Numbered rows
    → waiting
        (update (λ r. contains (take n (map (λ s. s.id) (waiting rows))) r.id) (dispatch now) rows)
      ≡ drop n (waiting rows)
waiting-dispatch zero now rows h = ap waiting (update_nobody (dispatch now) rows)
waiting-dispatch (suc n) now [] h = refl
waiting-dispatch (suc n) now (r ∷ rows) (q, h) =
    by_row (is_waiting r) refl (waiting-dispatch n now rows h) (waiting-dispatch (suc n) now rows h)
  where
    -- The rows once those of `l` that come first are dispatched.
    after : ℕ → List OutboxRow → List OutboxRow → List OutboxRow
    after m l rows = update (λ s. contains (take m (map (λ s. s.id) l)) s.id) (dispatch now) rows

    by_row :
        (b : Bool)
        → is_waiting r ≡ b
        → waiting (after n (waiting rows) rows) ≡ drop n (waiting rows)
        → waiting (after (suc n) (waiting rows) rows) ≡ drop (suc n) (waiting rows)
        → waiting (after (suc n) (waiting (r ∷ rows)) (r ∷ rows))
          ≡ drop (suc n) (waiting (r ∷ rows))
    by_row true e ih _ =
        let shown : waiting (r ∷ rows) ≡ r ∷ waiting rows = rw e refl in
        subst (λ l. waiting (after (suc n) l (r ∷ rows)) ≡ drop (suc n) l) (sym shown)
          (taken_off now r (take n (map (λ s. s.id) (waiting rows))) rows q ∙ ih)
    by_row false e _ ih =
        let shown : waiting (r ∷ rows) ≡ waiting rows = rw e refl in
        subst (λ l. waiting (after (suc n) l (r ∷ rows)) ≡ drop (suc n) l) (sym shown)
          (hidden now r (after (suc n) (waiting rows) rows)
              (contains (take (suc n) (map (λ s. s.id) (waiting rows))) r.id) e
            ∙ ih)

module _ (p : OutboxRow → Bool) (g : OutboxRow → OutboxRow)
    (same : (r : OutboxRow) → (g r).id ≡ r.id) where
  Above-update :
      (i : ℕ) (rows : List OutboxRow)
      → All (λ s. i < s.id) rows
      → All (λ s. i < s.id) (update p g rows)
  Above-update i [] h = tt
  Above-update i (s ∷ rows) (q, h) = (ground (arith, q, same s), Above-update i rows h)

  Below-update : (n : ℕ) (rows : List OutboxRow) → Below n rows → Below n (update p g rows)
  Below-update n [] h = tt
  Below-update n (s ∷ rows) (q, h) = (ground (arith, q, same s), Below-update n rows h)

  kept_id : (r : OutboxRow) (b : Bool) → (if b then g r else r).id ≡ r.id
  kept_id r true = same r
  kept_id r false = refl

  -- A change of the rows that keeps their ids keeps them numbered.
  pub Numbered-update : (rows : List OutboxRow) → Numbered rows → Numbered (update p g rows)
  Numbered-update [] h = tt
  Numbered-update (r ∷ rows) (q, h) = (
    subst (λ i. All (λ s. i < s.id) (update p g rows)) (sym (kept_id r (p r)))
        (Above-update r.id rows q),
    Numbered-update rows h,
  )

  pub IsOutbox-update : (d : Db) → IsOutbox d → IsOutbox (with_outbox d (update p g d.outbox.rows))
  IsOutbox-update d (h, b) =
      (Numbered-update d.outbox.rows h, Below-update d.outbox.next_id d.outbox.rows b)

pub waiting-bump :
    (i : ℕ) (message : String) (rows : List OutboxRow)
    → map event_of (waiting (update (λ r. r.id == i) (bump message) rows))
      ≡ map event_of (waiting rows)
waiting-bump i message [] = refl
waiting-bump i message (r ∷ rows) = ground (arith, waiting-bump i message rows)

pub ids-bump :
    (i : ℕ) (message : String) (rows : List OutboxRow)
    → map (λ s. s.id) (waiting (update (λ r. r.id == i) (bump message) rows))
      ≡ map (λ s. s.id) (waiting rows)
ids-bump i message [] = refl
ids-bump i message (r ∷ rows) = ground (arith, ids-bump i message rows)

waiting-append :
    (rows : List OutboxRow) (r : OutboxRow)
    → is_waiting r ≡ true
    → map event_of (waiting (rows ++ r ∷ [])) ≡ map event_of (waiting rows) ++ event_of r ∷ []
waiting-append [] r on = rw on refl
waiting-append (s ∷ rows) r on = ground (arith, waiting-append rows r on)

Numbered-append :
    (rows : List OutboxRow) (r : OutboxRow)
    → Numbered rows
    → Below r.id rows
    → Numbered (rows ++ r ∷ [])
Numbered-append [] r h b = (tt, tt)
Numbered-append (s ∷ rows) r (q, h) (b, bs) =
    (above_last s.id rows r q b, Numbered-append rows r h bs)
  where
    above_last :
        (i : ℕ) (l : List OutboxRow) (t : OutboxRow)
        → All (λ x. i < x.id) l
        → i < t.id
        → All (λ x. i < x.id) (l ++ t ∷ [])
    above_last i [] t k m = (m, tt)
    above_last i (x ∷ l) t (j, k) m = (j, above_last i l t k m)

Below-append :
    (n : ℕ) (rows : List OutboxRow) (r : OutboxRow)
    → r.id ≡ n
    → Below n rows
    → Below (n + 1) (rows ++ r ∷ [])
Below-append n [] r e b = (omega (arith, e), tt)
Below-append n (s ∷ rows) r e (b, bs) = (omega (arith, b), Below-append n rows r e bs)

map-take : {A B : Type 0} (f : A → B) (n : ℕ) (xs : List A) → map f (take n xs) ≡ take n (map f xs)
map-take f zero xs = refl
map-take f (suc n) [] = refl
map-take f (suc n) (x ∷ xs) = ap (λ l. f x ∷ l) (map-take f n xs)

-- The event that `input` asks for.
abbrev pub asked : InsertOutboxInput → ℕ → Event
asked input id = record {
  id = id;
  event_id = id;
  event_type = input.event_type;
  aggregate_type = input.aggregate_type;
  aggregate_id = input.aggregate_id;
  payload = input.payload;
}

-- An event that a transaction records, with the type, the aggregate and the payload that were asked for,
-- joins the queue behind all that wait, under an id above those of the outbox; and a batch that is
-- claimed then is the front of that queue, of whatever limit.
pub insert_outbox_event-queue :
    (input : InsertOutboxInput) (now later limit : ℕ) (d : Db)
    → IsOutbox d
    → (queue (insert_outbox_event input now d).1 ≡ queue d ++ asked input d.outbox.next_id ∷ [])
      × (map event_of (claim_batch limit later (insert_outbox_event input now d).1)
          ≡ take limit (queue d ++ asked input d.outbox.next_id ∷ []))
      × IsOutbox (insert_outbox_event input now d).1
unfolding insert_outbox_event
insert_outbox_event-queue input now later limit d (h, b) = (
  waiting-append d.outbox.rows (new_event input d.outbox.next_id) refl,
  ap (map event_of) (
        claim_batch-take limit later (insert_outbox_event input now d).1
          (Numbered-append d.outbox.rows (new_event input d.outbox.next_id) h b))
      ∙ map-take event_of limit (waiting (d.outbox.rows ++ new_event input d.outbox.next_id ∷ []))
      ∙ ap (take limit) (waiting-append d.outbox.rows (new_event input d.outbox.next_id) refl),
  (
    Numbered-append d.outbox.rows (new_event input d.outbox.next_id) h b,
    Below-append d.outbox.next_id d.outbox.rows (new_event input d.outbox.next_id) refl b,
  ),
)
