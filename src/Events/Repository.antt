-- ===== src/Events/Repository.antt =====
-- Statements on the outbox: `src/lib/events/outbox.repo.ts`.
pub mod Queue
use quick_bite_order_service.Common.{
  Bool, List, String, [], contains, is_some, keep, length, ltb, nat_eq, none, not, some, sort_by,
  string_eq, suc, take, update, zero, ℕ, ◌++◌, ◌+◌, ◌==◌, ◌∷◌,
}
use quick_bite_order_service.Events.Model.{InsertOutboxInput, OutboxRow}
use quick_bite_order_service.Order.Model.{actor_eq, status_eq}
use quick_bite_order_service.World.State.{Db}

abbrev pub new_event : InsertOutboxInput → ℕ → OutboxRow
new_event input id = record {
  id = id;
  aggregate_type = input.aggregate_type;
  aggregate_id = input.aggregate_id;
  event_type = input.event_type;
  event_id = id;
  payload = input.payload;
  attempts = 0;
  last_error = none;
  dispatched_at = none;
}

-- `insertOutboxEvent`
unfoldable pub insert_outbox_event : InsertOutboxInput → ℕ → Db → Unit {0} × Db
insert_outbox_event input now d = (
  tt,
  record d {
    outbox = record {
      rows = d.outbox.rows ++ new_event input d.outbox.next_id ∷ [];
      next_id = d.outbox.next_id + 1;
    };
  },
)

-- The rows of a bulk insert.
unfoldable pub number_events : List InsertOutboxInput → ℕ → List OutboxRow
number_events [] id = []
number_events (input ∷ inputs) id = new_event input id ∷ number_events inputs (suc id)

-- `insertOutboxEvents`
unfoldable pub insert_outbox_events : List InsertOutboxInput → ℕ → Db → Unit {0} × Db
unfolding number_events
insert_outbox_events inputs now d = (
  tt,
  record d {
    outbox = record {
      rows = d.outbox.rows ++ number_events inputs d.outbox.next_id;
      next_id = d.outbox.next_id + length inputs;
    };
  },
)

abbrev pub is_waiting : OutboxRow → Bool
is_waiting r = not (is_some r.dispatched_at)

abbrev pub row_before : OutboxRow → OutboxRow → Bool
row_before a b = ltb a.id b.id

-- `claimBatch`. One drain of a region runs at a time here, so no row is skipped for being locked.
unfoldable pub claim_batch : ℕ → ℕ → Db → List OutboxRow
unfolding sort_by
claim_batch limit now d = take limit (sort_by row_before (keep is_waiting d.outbox.rows))

abbrev pub with_outbox : Db → List OutboxRow → Db
with_outbox d rows = record d { outbox = record { rows = rows; next_id = d.outbox.next_id } }

abbrev pub dispatch : ℕ → OutboxRow → OutboxRow
dispatch now r = record r { dispatched_at = some now }

-- `markDispatchedBatch`, for a list of ids that is not empty.
unfoldable pub mark_dispatched : List ℕ → ℕ → Db → Unit {0} × Db
mark_dispatched ids now d =
    (tt, with_outbox d (update (λ r. contains ids r.id) (dispatch now) d.outbox.rows))

-- `err.slice(0, n)`
abbrev pub slice_text : ℕ → String → String
slice_text zero s = ""
slice_text (suc n) String.[] = ""
slice_text (suc n) (String.◌∷◌ c s) = String.◌∷◌ c (slice_text n s)

abbrev pub bump : String → OutboxRow → OutboxRow
bump message r = record r { attempts = r.attempts + 1; last_error = some (slice_text 2000 message) }

-- `markFailed`
unfoldable pub mark_failed : ℕ → String → ℕ → Db → Unit {0} × Db
mark_failed id message now d =
    (tt, with_outbox d (update (λ r. r.id == id) (bump message) d.outbox.rows))
