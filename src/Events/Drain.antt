-- ===== src/Events/Drain.antt =====
-- One pass over the outbox of a region: `src/lib/events/outbox-drain.ts`.
pub mod Loop
pub mod Fifo
use quick_bite_order_service.Common.{List, Option, String, [], none, some, ℕ, ◌++◌, ◌∷◌}
use quick_bite_order_service.Errors.{AppError, Result, err, ok}
use quick_bite_order_service.Events.Model.{Envelope, OutboxRow}
use quick_bite_order_service.Events.Repository.{claim_batch, mark_dispatched, mark_failed}
use quick_bite_order_service.World.Monad.{M, call, pure, query, statement, transaction, ◌>>=◌, ◌>>◌}
use quick_bite_order_service.World.State.{World}

abbrev pub envelope : String → ℕ → OutboxRow → Envelope
envelope region now row = record {
  event_id = row.event_id;
  event_type = row.event_type;
  occurred_at = now;
  aggregate_type = row.aggregate_type;
  aggregate_id = row.aggregate_id;
  region = region;
  payload = row.payload;
}

-- `messageBroker.publish`: a publish that fails has sent nothing.
abbrev pub publish : String → OutboxRow → M (Unit {0})
publish region row =
    call (λ w. (ok tt, record w { published = envelope region w.now row ∷ w.published }))

abbrev pub error_result : {A : Type 0} → Result A × World → Result (Option AppError) × World
error_result (ok a, w) = (ok none, w)
error_result (err e, w) = (ok (some e), w)

-- The error of a `try`, if it throws one.
abbrev pub error_of : {A : Type 0} → M A → M (Option AppError)
error_of m w = error_result (m w)

-- The loop over the batch; `done` is `dispatchedIds`, and `describe` is `describeError`.
unfoldable pub drain_rows : (AppError → String) → String → List OutboxRow → List ℕ → M (List ℕ)
drain_rows describe region [] done = pure done
drain_rows describe region (row ∷ rows) done = do
  problem ← error_of (publish region row)
  elim problem [
    | none ↦ drain_rows describe region rows (done ++ row.id ∷ [])
    | some e ↦ statement (mark_failed row.id (describe e)) >> pure done
  ]

-- `if (ids.length === 0) return;`
abbrev pub mark_dispatched_batch : List ℕ → M (Unit {0})
mark_dispatched_batch [] = pure tt
mark_dispatched_batch (id ∷ ids) = statement (mark_dispatched (id ∷ ids))

-- The block of the `try`, on the rows that were claimed.
abbrev pub drain_batch : (AppError → String) → String → List OutboxRow → M (Unit {0})
drain_batch describe region [] = pure tt
drain_batch describe region (row ∷ rows) =
    drain_rows describe region (row ∷ rows) [] >>= mark_dispatched_batch

-- `drainOutboxForRegion`; `limit` is `env.outboundEvents.batchSize`.
unfoldable pub drain_outbox : (AppError → String) → String → ℕ → M (Unit {0})
drain_outbox describe region limit =
    transaction (query (claim_batch limit) >>= drain_batch describe region)
